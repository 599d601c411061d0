-- ===== src/Chat/Service.antt =====
-- internal/service/chatsvc/service.go: the service that takes chat messages. The repositories and the publisher are
-- parameters: the players of a match, whether an insertion succeeds, and whether the n-th publication does.
pub mod Sending
use rts_vibe_code.Prelude.{
  ℕ, zero, suc, Bool, true, false, not, ◌&&◌, ◌||◌, Option, none, some, List, [], ◌∷◌, ◌++◌, ◌==◌,
  if◌then◌else◌, get_elem?,
}
use rts_vibe_code.GoMap.{GoMap}
use rts_vibe_code.Diplomacy.{Slot, Time}
use rts_vibe_code.Lobby.{Player}
use rts_vibe_code.Chat.{
  Text, ChannelKind, world, coalition, dm, colon, dm_prefix, same_runes, parse_scope, Body, invalid,
  valid, validate_body,
}
use rts_vibe_code.Chat.Throttle.{TokenBucket, allow}

pub record Message : Type 0 where
  pub id : ℕ
  pub match_id : ℕ
  pub scope : Text
  pub author_id : ℕ
  pub author_slot : Slot
  pub body : Text
  pub sent_at : Time

pub record SendInput : Type 0 where
  pub match_id : ℕ
  pub author_id : ℕ
  pub author_slot : Slot
  pub scope : Text
  pub body : Text

pub data SendErr : Type 0 where
  bad_request forbidden not_found rate_limited internal : SendErr

-- The buckets of the users, the messages that are stored, and what is published: a scope and a message.
pub record Service : Type 0 where
  pub throttle : GoMap ℕ TokenBucket
  pub messages : List Message
  pub published : List (Text × Message)

pub record Ports : Type 0 where
  pub uuid_text : ℕ → Text
  -- uuid.Parse, `none` on an error.
  pub parse_uuid : Text → Option ℕ
  -- ListPlayers, `none` on an error.
  pub list_players : ℕ → Option (List Player)
  pub inserts : Bool
  pub publishes : ℕ → Bool

abbrev begins : Text → Text → Bool
begins [] s = true
begins (a ∷ t) [] = false
begins (a ∷ t) (b ∷ s) = a == b && begins t s

-- strings.Contains
unfoldable pub contains_text : Text → Text → Bool
contains_text [] t = begins t []
contains_text (c ∷ s) t = begins t (c ∷ s) || contains_text s t

-- `parts[i]`, where the scope has that many parts.
abbrev pub part : List Text → ℕ → Text
part [] i = []
part (p ∷ ps) zero = p
part (p ∷ ps) (suc i) = part ps i

unfoldable pub is_player : List Player → ℕ → Slot → Bool
is_player [] user slot = false
is_player (p ∷ rest) user slot =
    p.user_id == user && (slot == 0 || p.slot == slot) || is_player rest user slot

unfoldable pub has_user : List Player → ℕ → Bool
has_user [] user = false
has_user (p ∷ rest) user = p.user_id == user || has_user rest user

abbrev pub partner : Option ℕ → Option ℕ → SendInput → Option ℕ
partner (some a) (some b) input = some (if a == input.author_id then b else a)
partner _ _ input = none

abbrev pub partner_is_player : Option ℕ → List Player → Option SendErr
partner_is_player none players = some bad_request
partner_is_player (some other) players = if has_user players other then none else some not_found

pub data Sent : Type 0 where
  refused : SendErr → Sent
  sent : Message → Sent

module _ (ports : Ports) where
  open ports use {uuid_text, parse_uuid}

  unfoldable pub dm_partner_is_player : SendInput → List Text → List Player → Option SendErr
  unfolding has_user
  dm_partner_is_player input parts players =
      partner_is_player (partner (parse_uuid (part parts 1)) (parse_uuid (part parts 2)) input)
        players

  abbrev pub check_dm : SendInput → List Text → List Player → Option SendErr
  check_dm input parts players =
      if contains_text input.scope (uuid_text input.author_id)
      then dm_partner_is_player input parts players
      else some forbidden

  abbrev pub check_kind : SendInput → ChannelKind → List Text → List Player → Option SendErr
  check_kind input dm parts players = check_dm input parts players
  check_kind input _ parts players = none

  abbrev pub check_members :
      SendInput → ChannelKind → List Text → Option (List Player) → Option SendErr
  check_members input kind parts none = some internal
  check_members input kind parts (some players) =
      if not (is_player players input.author_id input.author_slot)
      then some forbidden
      else if not (same_runes (part parts 0) (uuid_text input.match_id))
      then some bad_request
      else check_kind input kind parts players

  unfoldable pub check_scope : SendInput → ChannelKind → List Text → Option SendErr
  unfolding is_player dm_partner_is_player contains_text
  check_scope input kind parts = check_members input kind parts (ports.list_players input.match_id)

  -- ":inbox:"
  abbrev inbox : Text
  inbox = 58 ∷ 105 ∷ 110 ∷ 98 ∷ 111 ∷ 120 ∷ 58 ∷ []

  unfoldable pub dm_per_user_scope : Text → Text → Text
  dm_per_user_scope match_id user = dm_prefix ++ colon ∷ (match_id ++ inbox ++ user)

  abbrev pub fanout_dm : Text → Text → Message → List (Text × Message)
  fanout_dm a b msg =
      if not (ports.publishes 0)
      then []
      else if not (same_runes a b) && ports.publishes 1
      then (a, msg) ∷ (b, msg) ∷ []
      else (a, msg) ∷ []

  -- What is published; the errors of the publisher cut it short and are dropped.
  unfoldable pub fanout : Message → ChannelKind → List Text → List (Text × Message)
  unfolding dm_per_user_scope
  fanout msg dm parts =
      fanout_dm (dm_per_user_scope (uuid_text msg.match_id) (part parts 1))
        (dm_per_user_scope (uuid_text msg.match_id) (part parts 2)) msg
  fanout msg _ parts = if ports.publishes 0 then (msg.scope, msg) ∷ [] else []

  abbrev pub deliver : Service → Message → ChannelKind → List Text → Service × Sent
  deliver s msg kind parts =
      if ports.inserts
      then (
        record s {
          messages = s.messages ++ msg ∷ [];
          published = s.published ++ fanout msg kind parts;
        },
        sent msg,
      )
      else (s, refused internal)

  abbrev pub throttled :
      Service → SendInput → Message → ChannelKind → List Text → Time → Service × Sent
  throttled s input msg kind parts now =
      let (throttle, allowed) = allow s.throttle input.author_id now in
      let s' = record s { throttle = throttle } in
      if allowed then deliver s' msg kind parts else (s', refused rate_limited)

  abbrev pub after_check :
      Service
      → SendInput
      → Message
      → ChannelKind
      → List Text
      → Time
      → Option SendErr
      → Service × Sent
  after_check s input msg kind parts now (some e) = (s, refused e)
  after_check s input msg kind parts now none = throttled s input msg kind parts now

  abbrev pub in_scope :
      Service → SendInput → Message → Time → Option (ChannelKind × List Text) → Service × Sent
  in_scope s input msg now none = (s, refused bad_request)
  in_scope s input msg now (some (kind, parts)) =
      after_check s input msg kind parts now (check_scope input kind parts)

  abbrev pub message : SendInput → Text → ℕ → Time → Message
  message input body fresh now = record {
    id = fresh;
    match_id = input.match_id;
    scope = input.scope;
    author_id = input.author_id;
    author_slot = input.author_slot;
    body = body;
    sent_at = now;
  }

  abbrev pub with_body : Service → SendInput → ℕ → Time → Body → Service × Sent
  with_body s input fresh now (invalid e) = (s, refused bad_request)
  with_body s input fresh now (valid body) =
      in_scope s input (message input body fresh now) now (parse_scope input.scope)

  -- `fresh` is the id that uuid.New gives.
  unfoldable pub send : Service → SendInput → ℕ → Time → Service × Sent
  unfolding check_scope fanout
  send s input fresh now = with_body s input fresh now (validate_body input.body)
