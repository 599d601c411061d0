-- ===== src/Lobby/Starting.antt =====
-- What the start of a match has done when it succeeds (`publishStartWithFill`).
use rts_vibe_code.Prelude.{
  ℕ, nat_key, ◌≡◌, refl, sym, subst, ap, ◌∙◌, Bool, true, false, Option, none, some, List, [], ◌∷◌,
  ==_refl, inl, inr, Bool-cases, if◌then◌else◌,
}
use rts_vibe_code.GoMap.{lookup, insert, lookup-insert}
use rts_vibe_code.StaticMap.{Map}
use rts_vibe_code.StaticMap
use rts_vibe_code.Lobby.{Match, Player, Status, waiting, starting, active, same_status}
use rts_vibe_code.Lobby.Store.{
  Code, conflict, internal, Failure, StartPayload, Store, Outcome, failed, done, Action, World,
  query, counted, get, found, add_player, list_players, mark_starting, mark_active, update_status,
  update_row, has_status, list_bots, publish_start,
}
use rts_vibe_code.Lobby.Phases.{phase, status_of, same_status_sound}
use rts_vibe_code.Lobby.Service.{
  Config, MatchView, fail, pure, after, attempt, guard, load_or, view, seat_bots, fill_needed,
  fill_bots, start_payload, start_message, fill_and_publish, publish_start_with_fill,
}

-- An action that leaves the matches and the publications as they are.
record Frames {A : Type 0} (call : Action A) : Type 0 where
  frames : (s : Store) → ((call s).0.matches ≡ s.matches) × ((call s).0.published ≡ s.published)

query-Frames :
    {A : Type 0} (w : World) (run : Action A)
    → ((s : Store) → ((run s).0.matches ≡ s.matches) × ((run s).0.published ≡ s.published))
    → Frames (query w run)
query-Frames w run h = record {
  frames = λ s. elim (Bool-cases (w.fails s.calls)) [
    | inl e ↦ rw (e) (refl, refl)
    | inr e ↦ rw (e) (h (counted s))
  ];
}

fail-Frames : (A : Type 0) (e : Failure) → Frames (fail {A = A} e)
unfolding fail
fail-Frames A e = record { frames = λ s. (refl, refl) }

pure-Frames : {A : Type 0} (x : A) → Frames (pure x)
unfolding pure
pure-Frames x = record { frames = λ s. (refl, refl) }

if-Frames :
    {A : Type 0} (b : Bool) (x y : Action A) → Frames x → Frames y → Frames (if b then x else y)
if-Frames true x y hx hy = hx
if-Frames false x y hx hy = hy

guard-Frames :
    {A : Type 0} (b : Bool) (code : Code) (next : Action A)
    → Frames next
    → Frames (guard b code next)
unfolding guard
guard-Frames b code next h = if-Frames b _ next (fail-Frames _ _) h

load_or-Frames :
    {A : Type 0} (code : Code) (o : Option Map) (next : Map → Action A)
    → ((mp : Map) → Frames (next mp))
    → Frames (load_or code o next)
unfolding load_or
load_or-Frames code none next h = fail-Frames _ _
load_or-Frames code (some mp) next h = h mp

module _ {A B : Type 0} (wrap : Failure → Failure) (next : A → Action B)
    (follows : (x : A) → Frames (next x)) where
  after-frames :
      (s : Store) (p : Store × Outcome A)
      → (p.0.matches ≡ s.matches) × (p.0.published ≡ s.published)
      → ((after wrap next p).0.matches ≡ s.matches)
        × ((after wrap next p).0.published ≡ s.published)
  unfolding after
  after-frames s (s', failed e) h = h
  after-frames s (s', done x) (hm, hp) = let (km, kp) = (follows x).frames s' in (km ∙ hm, kp ∙ hp)

  attempt-Frames : (call : Action A) → Frames call → Frames (attempt call wrap next)
  unfolding attempt
  attempt-Frames call h = record { frames = λ s. after-frames s (call s) (h.frames s) }

module _ (c : Config) where
  get-Frames : (id : ℕ) → Frames (get c.world id)
  unfolding get
  get-Frames id = query-Frames c.world _ λ s. (refl, refl)

  list_players-Frames : (id : ℕ) → Frames (list_players c.world id)
  unfolding list_players
  list_players-Frames id = query-Frames c.world _ λ s. (refl, refl)

  add_player-Frames : (p : Player) → Frames (add_player c.world p)
  unfolding add_player
  add_player-Frames p = query-Frames c.world _ λ s. (refl, refl)

  list_bots-Frames : (n : ℕ) → Frames (list_bots c.world n)
  unfolding list_bots
  list_bots-Frames n = query-Frames c.world _ λ s. (refl, refl)

  seat_bots-Frames :
      (id : ℕ) (slots : List StaticMap.Slot) (bots : List ℕ) → Frames (seat_bots c id slots bots)
  unfolding seat_bots
  seat_bots-Frames id [] bots = pure-Frames tt
  seat_bots-Frames id (s ∷ rest) [] = fail-Frames _ _
  seat_bots-Frames id (s ∷ rest) (bot ∷ bots) =
      attempt-Frames _ _ (λ x. seat_bots-Frames id rest bots) _ (add_player-Frames _)

  fill_needed-Frames : (id : ℕ) (slots : List StaticMap.Slot) → Frames (fill_needed c id slots)
  fill_needed-Frames id [] = pure-Frames tt
  fill_needed-Frames id (s ∷ rest) =
      attempt-Frames _ _ (λ bots. guard-Frames _ conflict _ (seat_bots-Frames id (s ∷ rest) bots)) _
        (list_bots-Frames _)

  fill_bots-Frames : (id map_id : ℕ) → Frames (fill_bots c id map_id)
  unfolding fill_bots
  fill_bots-Frames id map_id =
      if-Frames c.has_bots _ _
        (load_or-Frames internal (c.load map_id) _
          λ mp. attempt-Frames _ _ (λ players. fill_needed-Frames id _) _ (list_players-Frames id))
        (pure-Frames tt)

-- What holds of an answer and the store after it.
abbrev Answers : {A : Type 0} → (A → Store → Type 0) → Store × Outcome A → Type 0
Answers Q (s, failed e) = Unit
Answers Q (s, done x) = Q x s

-- Where P holds, an answer of the action is one of which Q holds.
record Gives {A : Type 0} (P : Store → Type 0) (call : Action A) (Q : A → Store → Type 0)
    : Type 0 where
  gives : (s : Store) → P s → Answers Q (call s)

module _ {A B : Type 0} (Q : A → Store → Type 0) {R : B → Store → Type 0} (wrap : Failure → Failure)
    (next : A → Action B) (follows : (x : A) → Gives (Q x) (next x) R) where
  after-Answers : (p : Store × Outcome A) → Answers Q p → Answers R (after wrap next p)
  unfolding after
  after-Answers (s, failed e) h = tt
  after-Answers (s, done x) h = (follows x).gives s h

  attempt-Gives :
      {P : Store → Type 0} (call : Action A) → Gives P call Q → Gives P (attempt call wrap next) R
  unfolding attempt
  attempt-Gives call h = record { gives = λ s p. after-Answers (call s) (h.gives s p) }

guard-Gives :
    {A : Type 0} {P : Store → Type 0} {Q : A → Store → Type 0} (b : Bool) (code : Code)
    (next : Action A)
    → Gives P next Q
    → Gives P (guard b code next) Q
unfolding guard fail
guard-Gives true code next h = record { gives = λ s p. tt }
guard-Gives false code next h = h

-- The status of a match and the publications.
abbrev At : ℕ → Status → List StartPayload → Store → Type 0
At id status sent s = (status_of id s ≡ some status) × (s.published ≡ sent)

Answers-const :
    {A : Type 0} (Q : Store → Type 0) (p : Store × Outcome A) → Q p.0 → Answers (λ x. Q) p
Answers-const Q (s, failed e) h = tt
Answers-const Q (s, done x) h = h

Frames-Gives :
    {A : Type 0} (id : ℕ) (status : Status) (sent : List StartPayload) (call : Action A)
    → Frames call
    → Gives (At id status sent) call (λ x. At id status sent)
Frames-Gives id status sent call h = record {
  gives = λ s (is, are).
      let (hm, hp) = h.frames s in
      Answers-const (At id status sent) (call s)
        (ap (λ ms. phase (lookup id ms)) hm ∙ is, hp ∙ are);
}

Answers-map :
    {A : Type 0} (Q R : A → Store → Type 0) (p : Store × Outcome A)
    → ((x : A) (s : Store) → Q x s → R x s)
    → Answers Q p
    → Answers R p
Answers-map Q R (s, failed e) f h = tt
Answers-map Q R (s, done x) f h = f x s h

written-At :
    (s : Store) (id : ℕ) (m : Match) (status : Status)
    → m.status ≡ status
    → At id status s.published (record s { matches = insert id m s.matches })
written-At s id m status is = (rw (lookup-insert id id m s.matches, ==_refl id) (ap some is), refl)

abbrev has_phase : Option Status → Bool
has_phase none = false
has_phase (some a) = same_status a starting

module _ (w : World) (id : ℕ) where
  found-Answers :
      (s : Store) (status : Status) (sent : List StartPayload) (row : Option Match)
      → phase row ≡ some status
      → At id status sent s
      → Answers (λ m s'. (m.status ≡ status) × At id status sent s') (counted s, found row)
  found-Answers s status sent none is at = tt
  found-Answers s status sent (some m) is at = (cc (is), at)

  -- A call that may fail.
  query-Answers :
      {A : Type 0} (Q : A → Store → Type 0) (run : Action A) (s : Store)
      → Answers Q (run (counted s))
      → Answers Q (query w run s)
  query-Answers Q run s h = elim (Bool-cases (w.fails s.calls)) [
    | inl e ↦ rw (e) tt
    | inr e ↦ rw (e) h
  ]

  updated-Answers :
      (s : Store) (a next : Status) (row : Option Match) (e : Failure)
      → lookup id s.matches ≡ row
      → Answers
          (λ x s'. (status_of id s ≡ some a) × At id next s.published s')
          (
            update_row s id a (λ m. record m { status = next }) row,
            if has_status a row then done tt else failed e,
          )
  updated-Answers s a next none e at = tt
  updated-Answers s a next (some m) e at = elim (Bool-cases (same_status m.status a)) [
    | inl is ↦ rw (is) (
      rw (at) (ap some (same_status_sound m.status a is)),
      written-At s id (record m { status = next }) next refl,
    )
    | inr not_so ↦ rw (not_so) tt
  ]

  mark_starting-Answers :
      (s : Store)
      → Answers
          (λ x s'. (status_of id s ≡ some waiting) × At id starting s.published s')
          (mark_starting w id s)
  unfolding mark_starting update_status
  mark_starting-Answers s =
      query-Answers (λ x s'. (status_of id s ≡ some waiting) × At id starting s.published s') _ s
        (updated-Answers (counted s) waiting starting (lookup id s.matches) _ refl)

  activated-At :
      (s : Store) (set : Match → Match) (row : Option Match)
      → lookup id s.matches ≡ row
      → phase row ≡ some starting
      → ((m : Match) → (set m).status ≡ active)
      → At id active s.published (update_row s id starting set row)
  activated-At s set none at is sets = absurd (cc (is))
  activated-At s set (some m) at is sets =
      let same : same_status m.status starting ≡ true =
        subst (λ o. has_phase o ≡ true) (sym is) refl in
      rw (same) (written-At s id (set m) active (sets m))

  mark_active-Gives :
      (sent : List StartPayload)
      → Gives (At id starting sent) (mark_active w id) (λ x. At id active sent)
  unfolding mark_active
  mark_active-Gives sent = record {
    gives = λ s (is, are).
        query-Answers (λ x. At id active sent) _ s
          (let (a, b) = activated-At (counted s) _ (lookup id s.matches) refl is (λ m. refl) in
            (a, b ∙ are));
  }

  get-Gives :
      (status : Status) (sent : List StartPayload)
      → Gives (At id status sent) (get w id) (λ m s. (m.status ≡ status) × At id status sent s)
  unfolding get
  get-Gives status sent = record {
    gives = λ s (is, are).
        query-Answers (λ m s'. (m.status ≡ status) × At id status sent s') _ s
          (found-Answers s status sent (lookup id s.matches) is (is, are));
  }

-- The publication that a start makes, of the match, its map and its players.
abbrev Announced : Match → List StartPayload → Store → Type 0
Announced m sent s =
    (p : StartPayload) × (p.match_id ≡ m.id) × (p.map_id ≡ m.map_id) × At m.id active (p ∷ sent) s

module _ (c : Config) (m : Match) where
  view-Frames-Gives :
      (sent : List StartPayload)
      → Gives
          (At m.id active sent)
          (view c m.id)
          (λ v s. (v.match.status ≡ active) × At m.id active sent s)
  unfolding view pure
  view-Frames-Gives sent =
      attempt-Gives (λ m' s. (m'.status ≡ active) × At m.id active sent s) _ _
        (λ m'.
          attempt-Gives (λ players s. (m'.status ≡ active) × At m.id active sent s) _ _
            (λ players. record { gives = λ s h. h }) _
            (record {
              gives = λ s (is, h).
                  Answers-map (λ x. At m.id active sent)
                    (λ players s. (m'.status ≡ active) × At m.id active sent s)
                    (list_players c.world m.id s) (λ x s' h'. (is, h'))
                    ((Frames-Gives m.id active sent _ (list_players-Frames c m.id)).gives s h);
            }))
        _ (get-Gives c.world m.id active sent)

  start_message-Gives :
      (players : List Player) (sent : List StartPayload)
      → Gives (At m.id active sent) (start_message c m players) (λ x. Announced m sent)
  unfolding publish_start
  start_message-Gives players sent = record {
    gives = λ s (is, are).
        query-Answers c.world m.id (λ x. Announced m sent) _ s
          (let p = start_payload c m players s.calls in
            (p, refl, refl, (is, ap (λ ps. p ∷ ps) are)));
  }

  Announced-Gives :
      (sent : List StartPayload)
      → Gives
          (Announced m sent)
          (view c m.id)
          (λ v s. (v.match.status ≡ active) × Announced m sent s)
  Announced-Gives sent = record {
    gives = λ s (p, mine, map, h).
        Answers-map (λ v s. (v.match.status ≡ active) × At m.id active (p ∷ sent) s)
          (λ v s. (v.match.status ≡ active) × Announced m sent s) (view c m.id s)
          (λ v s' (is, h'). (is, (p, mine, map, h'))) ((view-Frames-Gives (p ∷ sent)).gives s h);
  }

  fill_and_publish-Gives :
      (sent : List StartPayload)
      → Gives
          (At m.id starting sent)
          (fill_and_publish c m)
          (λ v s. (v.match.status ≡ active) × Announced m sent s)
  unfolding fill_and_publish
  fill_and_publish-Gives sent =
      attempt-Gives (λ _. At m.id starting sent) _ _
        (λ _.
          attempt-Gives (λ _. At m.id starting sent) _ _
            (λ players. guard-Gives _ conflict _ (
              attempt-Gives (λ _. At m.id active sent) _ _
                (λ _.
                  attempt-Gives (λ _. At m.id active sent) _ _
                    (λ filled.
                      attempt-Gives (λ _. Announced m sent) _ _ (λ _. Announced-Gives sent) _
                        (start_message-Gives filled sent))
                    _ (Frames-Gives m.id active sent _ (list_players-Frames c m.id)))
                _ (mark_active-Gives c.world m.id sent)))
            _ (Frames-Gives m.id starting sent _ (list_players-Frames c m.id)))
        _ (Frames-Gives m.id starting sent _ (fill_bots-Frames c m.id m.map_id))

  abbrev Started : Store → MatchView → Store → Type 0
  Started s v s' =
      (status_of m.id s ≡ some waiting) × (v.match.status ≡ active) × Announced m s.published s'

  started-Answers : (s : Store) → Answers (Started s) (publish_start_with_fill c m s)
  unfolding publish_start_with_fill attempt
  started-Answers s =
      after-Answers (λ _ s'. (status_of m.id s ≡ some waiting) × At m.id starting s.published s')
        {R = Started s} _ (λ _. fill_and_publish c m)
        (λ _. record {
          gives = λ s' (was, h).
              Answers-map (λ v s''. (v.match.status ≡ active) × Announced m s.published s'')
                (Started s) (fill_and_publish c m s') (λ v s'' (is, a). (was, is, a))
                ((fill_and_publish-Gives s.published).gives s' h);
        })
        (mark_starting c.world m.id s) (mark_starting-Answers c.world m.id s)

  -- A start that succeeds was of a waiting match. It leaves the match active, as its answer shows it, and has
  -- published exactly one start, of this match and its map.
  pub publish_start_with_fill_effect :
      (s s' : Store) (v : MatchView)
      → publish_start_with_fill c m s ≡ (s', done v)
      → (status_of m.id s ≡ some waiting)
        × (status_of m.id s' ≡ some active)
        × (v.match.status ≡ active)
        × ((p : StartPayload) × (p.match_id ≡ m.id)
            × (p.map_id ≡ m.map_id)
            × (s'.published ≡ p ∷ s.published))
  publish_start_with_fill_effect s s' v e =
      let (was, is, (p, mine, map, (now, sent))) =
        subst (Answers (Started s)) e (started-Answers s) in
      (was, now, is, (p, mine, map, sent))
