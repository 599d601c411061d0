-- ===== src/Chat/Service/Sending.antt =====
-- What `Send` of internal/service/chatsvc/service.go stores and publishes.
use rts_vibe_code.Prelude.{
  ℕ, ◌≡◌, refl, Bool, true, false, Option, none, some, List, [], ◌∷◌, ◌++◌, if◌then◌else◌, arith,
  ◌==◌, Bool-cases, inl, inr,
}
use rts_vibe_code.Diplomacy.{Time}
use rts_vibe_code.Lobby.{Player}
use rts_vibe_code.Chat.{
  Text, ChannelKind, world, coalition, dm, same_runes, parse_scope, Body, invalid, valid,
  validate_body,
}
use rts_vibe_code.Chat.Throttle.{allow}
use rts_vibe_code.Chat.Service.{
  SendInput, SendErr, internal, rate_limited, Service, Ports, part, is_player, has_user,
  contains_text, partner, partner_is_player, dm_partner_is_player, check_kind, check_members,
  check_scope, fanout, Sent, refused, sent, deliver, throttled, after_check, in_scope, message,
  with_body, send,
}

-- The two users that a direct scope names; the one who is not the author is a player of the match, and the text of the
-- author's id occurs in the scope.
pub record MayWriteTo (ports : Ports) (input : SendInput) (parts : List Text)
    (players : List Player) : Type 0 where
  pub first : ℕ
  pub second : ℕ
  pub first_named : ports.parse_uuid (part parts 1) ≡ some first
  pub second_named : ports.parse_uuid (part parts 2) ≡ some second
  pub author_named : contains_text input.scope (ports.uuid_text input.author_id) ≡ true
  pub partner_plays : has_user players (if first == input.author_id then second else first) ≡ true

-- Of a scope for all, or all of a coalition, no more is asked.
abbrev MayWrite : Ports → SendInput → ChannelKind → List Text → List Player → Type 0
MayWrite ports input dm parts players = MayWriteTo ports input parts players
MayWrite ports input _ parts players = Unit

-- The input has passed all checks on its author and its scope.
pub record Admitted (ports : Ports) (input : SendInput) (kind : ChannelKind) (parts : List Text)
    : Type 0 where
  pub scope : parse_scope input.scope ≡ some (kind, parts)
  pub players : List Player
  pub listed : ports.list_players input.match_id ≡ some players
  pub member : is_player players input.author_id input.author_slot ≡ true
  pub same_match : same_runes (part parts 0) (ports.uuid_text input.match_id) ≡ true
  pub direct : MayWrite ports input kind parts players

-- A message is sent as an admitted input asks for it, and stored and published; or nothing is.
abbrev pub Outcome : Ports → Service → SendInput → Time → Service × Sent → Type 0
Outcome ports s input now (s', refused e) =
    (s'.messages ≡ s.messages) × (s'.published ≡ s.published)
Outcome ports s input now (s', sent msg) =
    (kind : ChannelKind) × (parts : List Text) × Admitted ports input kind parts
    × (validate_body input.body ≡ valid msg.body)
    × ((msg.match_id ≡ input.match_id)
        × (msg.author_id ≡ input.author_id)
        × (msg.author_slot ≡ input.author_slot)
        × (msg.scope ≡ input.scope))
    × ((allow s.throttle input.author_id now).1 ≡ true)
    × (s'.messages ≡ s.messages ++ msg ∷ [])
    × (s'.published ≡ s.published ++ fanout ports msg kind parts)

module _ (ports : Ports) (s : Service) (input : SendInput) (fresh : ℕ) (now : Time) where
  Outcome-if :
      (b : Bool) (x y : Service × Sent)
      → (b ≡ true → Outcome ports s input now x)
      → (b ≡ false → Outcome ports s input now y)
      → Outcome ports s input now (if b then x else y)
  Outcome-if true x y hx hy = hx refl
  Outcome-if false x y hx hy = hy refl

  partner-MayWriteTo :
      (parts : List Text) (players : List Player) (a b : Option ℕ)
      → ports.parse_uuid (part parts 1) ≡ a
      → ports.parse_uuid (part parts 2) ≡ b
      → contains_text input.scope (ports.uuid_text input.author_id) ≡ true
      → partner_is_player (partner a b input) players ≡ none
      → MayWriteTo ports input parts players
  partner-MayWriteTo parts players none b ea eb named h = absurd (cc (h))
  partner-MayWriteTo parts players (some a) none ea eb named h = absurd (cc (h))
  partner-MayWriteTo parts players (some a) (some b) ea eb named h = record {
    first = a;
    second = b;
    first_named = ea;
    second_named = eb;
    author_named = named;
    partner_plays = elim (Bool-cases (has_user players (if a == input.author_id then b else a))) [
      | inl plays ↦ plays
      | inr absent ↦ absurd (cc (rw absent at h))
    ];
  }

  check_kind-MayWrite :
      (kind : ChannelKind) (parts : List Text) (players : List Player)
      → check_kind ports input kind parts players ≡ none
      → MayWrite ports input kind parts players
  unfolding dm_partner_is_player
  check_kind-MayWrite world parts players h = tt
  check_kind-MayWrite coalition parts players h = tt
  check_kind-MayWrite dm parts players h =
      elim (Bool-cases (contains_text input.scope (ports.uuid_text input.author_id))) [
        | inl named ↦
            partner-MayWriteTo parts players (ports.parse_uuid (part parts 1))
              (ports.parse_uuid (part parts 2)) refl refl named (rw named at h)
        | inr unnamed ↦ absurd (cc (rw unnamed at h))
      ]

  module _ (body : Text) (kind : ChannelKind) (parts : List Text)
      (valid_body : validate_body input.body ≡ valid body) where
    throttled-Outcome :
        Admitted ports input kind parts
        → Outcome ports s input now
            (throttled ports s input (message ports input body fresh now) kind parts now)
    throttled-Outcome ok =
        let msg = message ports input body fresh now in
        let (throttle, allowed) = allow s.throttle input.author_id now in
        let s' = record s { throttle = throttle } in
        Outcome-if allowed (deliver ports s' msg kind parts) (s', refused rate_limited)
          (λ paid.
            Outcome-if ports.inserts _ (s', refused internal)
              (λ stored. (kind, parts, ok, valid_body, (refl, refl, refl, refl), paid, refl, refl))
              (λ lost. (refl, refl)))
          (λ short. (refl, refl))

    -- The check has passed only if the input is admitted.
    check_members-Admitted :
        (players : Option (List Player))
        → parse_scope input.scope ≡ some (kind, parts)
        → ports.list_players input.match_id ≡ players
        → check_members ports input kind parts players ≡ none
        → Admitted ports input kind parts
    check_members-Admitted none e listed passed = absurd (cc (passed))
    check_members-Admitted (some players) e listed passed = record {
      scope = e;
      players = players;
      listed = listed;
      member = ground (arith, passed);
      same_match = ground (arith, passed);
      direct = check_kind-MayWrite kind parts players (ground (arith, passed));
    }

    after_check-Outcome :
        (error : Option SendErr)
        → (error ≡ none → Admitted ports input kind parts)
        → Outcome ports s input now
            (after_check ports s input (message ports input body fresh now) kind parts now error)
    after_check-Outcome none ok = throttled-Outcome (ok refl)
    after_check-Outcome (some e) ok = (refl, refl)

  in_scope-Outcome :
      (body : Text) (scope : Option (ChannelKind × List Text))
      → validate_body input.body ≡ valid body
      → parse_scope input.scope ≡ scope
      → Outcome ports s input now
          (in_scope ports s input (message ports input body fresh now) now scope)
  unfolding check_scope
  in_scope-Outcome body none v e = (refl, refl)
  in_scope-Outcome body (some (kind, parts)) v e =
      after_check-Outcome body kind parts v
        (check_members ports input kind parts (ports.list_players input.match_id))
        (check_members-Admitted body kind parts v (ports.list_players input.match_id) e refl)

  with_body-Outcome :
      (body : Body)
      → validate_body input.body ≡ body
      → Outcome ports s input now (with_body ports s input fresh now body)
  with_body-Outcome (invalid e) v = (refl, refl)
  with_body-Outcome (valid body) v = in_scope-Outcome body (parse_scope input.scope) v refl

  -- `Send` refuses a message and then stores and publishes nothing, or sends it: then the author is a player of the match
  -- in the slot given, the scope is one of this match, and a direct scope contains the author's id and names a player of the
  -- match as the partner; the body is the valid one, the author had a token, and exactly this message is stored and handed to the publisher for this scope.
  pub send-Outcome : Outcome ports s input now (send ports s input fresh now)
  unfolding send
  send-Outcome = with_body-Outcome (validate_body input.body) refl
