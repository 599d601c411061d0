-- ===== src/Lobby/Store.antt =====
-- internal/adapter/pgrepo/matches.go, lifecycle.go and users.go: the tables of the matches, the players and the bots as
-- the SQL of the lobby's calls reads and changes them. Any call may fail, and then changes nothing. The rows of a match
-- that `ORDER BY slot` does not tell apart keep the order of the table.
use Prim.Native.String.{String}
use rts_vibe_code.Prelude.{
  ℕ, nat_key, suc, zero, Bool, true, false, not, ◌&&◌, Option, none, some, List, [], ◌∷◌, ◌==◌, leb,
  if◌then◌else◌,
}
use rts_vibe_code.GoMap.{GoMap, lookup, insert}
use rts_vibe_code.Float64.{F64}
use rts_vibe_code.Diplomacy.{Slot, Time}
use rts_vibe_code.Lobby.{
  Match, Player, Status, waiting, starting, active, abandoned, same_status, LobbyErr, not_found,
  invalid_transition, player_not_in_match,
}

pub data Code : Type 0 where
  bad_request forbidden missing conflict internal : Code

-- An error of the domain, one of the database or the message bus, one with a code for the client, or a panic.
pub data Failure : Type 0 where
  domain : LobbyErr → Failure
  driver : Failure
  app : Code → Failure
  panics : Failure

pub record StartPayload : Type 0 where
  pub match_id : ℕ
  pub map_id : ℕ
  pub speed : F64
  pub started_at : Time
  pub slot_assignments : GoMap Slot ℕ

-- The table of the matches by their ids, that of the players, the ids of the bots in their order, what has been
-- published, the number of calls so far,
-- and what the table of the matches was before each of them, the last call first.
pub record Store : Type 0 where
  pub matches : GoMap ℕ Match
  pub players : List Player
  pub bots : List ℕ
  pub published : List StartPayload
  pub calls : ℕ
  pub versions : List (GoMap ℕ Match)

pub data Outcome (A : Type 0) : Type 0 where
  failed : Failure → Outcome A
  done : A → Outcome A

abbrev pub Action : Type 0 → Type 0
Action A = Store → Store × Outcome A

-- What is outside: whether a call fails, what `now()` and `uuid.New` give at it.
pub record World : Type 0 where
  pub fails : ℕ → Bool
  pub now : ℕ → Time
  pub uuid : ℕ → ℕ

abbrev pub counted : Store → Store
counted s = record s { calls = suc s.calls; versions = s.matches ∷ s.versions }

abbrev failing : {A : Type 0} → Bool → Action A → Action A
failing true run s = (counted s, failed driver)
failing false run s = run (counted s)

-- A call that may fail.
abbrev pub query : {A : Type 0} → World → Action A → Action A
query w run s = failing (w.fails s.calls) run s

abbrev pub found : Option Match → Outcome Match
found none = failed (domain not_found)
found (some m) = done m

unfoldable pub get : World → ℕ → Action Match
get w id = query w (λ s. (s, found (lookup id s.matches)))

abbrev pub created : Store → Match → Option Match → Store × Outcome Match
created s m none = (record s { matches = insert m.id m s.matches }, done m)
created s m (some taken) = (s, failed driver)

-- The primary key refuses an id that is taken.
unfoldable pub create : World → String → ℕ → ℕ → F64 → Action Match
create w name map_id created_by speed = query w (λ s.
    let m : Match = record {
      id = w.uuid s.calls;
      name = name;
      map_id = map_id;
      status = waiting;
      created_by = created_by;
      created_at = w.now s.calls;
      started_at = none;
      ended_at = none;
      winner_user_id = none;
      speed_factor = speed;
    } in
    created s m (lookup m.id s.matches))

-- `ON CONFLICT (match_id, user_id) DO UPDATE`
unfoldable pub upsert_player : Player → List Player → List Player
upsert_player p [] = p ∷ []
upsert_player p (q ∷ rest) =
    if q.match_id == p.match_id && q.user_id == p.user_id
    then record q { slot = p.slot; color = p.color; controlled_by_ai = p.controlled_by_ai } ∷ rest
    else q ∷ upsert_player p rest

unfoldable pub add_player : World → Player → Action Unit
add_player w p = query w (λ s. (
  record s {
    players = upsert_player (record p { last_seen_at = none; joined_at = w.now s.calls }) s.players;
  },
  done tt,
))

insert_by_slot : Player → List Player → List Player
insert_by_slot p [] = p ∷ []
insert_by_slot p (q ∷ rest) = if leb p.slot q.slot then p ∷ q ∷ rest else q ∷ insert_by_slot p rest

-- The players of a match, ordered by slot.
unfoldable pub roster : ℕ → List Player → List Player
unfolding insert_by_slot
roster id [] = []
roster id (p ∷ rest) =
    let sorted = roster id rest in if p.match_id == id then insert_by_slot p sorted else sorted

unfoldable pub list_players : World → ℕ → Action (List Player)
list_players w id = query w (λ s. (s, done (roster id s.players)))

abbrev pub has_status : Status → Option Match → Bool
has_status a none = false
has_status a (some m) = same_status m.status a

-- `UPDATE matches SET ... WHERE id = $1 AND status = ...`, for the row of the id.
abbrev pub update_row : Store → ℕ → Status → (Match → Match) → Option Match → Store
update_row s id a set none = s
update_row s id a set (some m) =
    if same_status m.status a then record s { matches = insert id (set m) s.matches } else s

unfoldable pub update_status : World → ℕ → Status → Status → Action Unit
update_status w id a next = query w (λ s.
    let row = lookup id s.matches in
    (
      update_row s id a (λ m. record m { status = next }) row,
      if has_status a row then done tt else failed (domain invalid_transition),
    ))

unfoldable pub mark_starting : World → ℕ → Action Unit
unfolding update_status
mark_starting w id = update_status w id waiting starting

abbrev coalesce : Option Time → Time → Option Time
coalesce none now = some now
coalesce (some t) now = some t

-- No error when no row has the status.
unfoldable pub mark_active : World → ℕ → Action Unit
mark_active w id = query w (λ s.
    let set : Match → Match =
      λ m. record m { status = active; started_at = coalesce m.started_at (w.now s.calls) } in
    (update_row s id starting set (lookup id s.matches), done tt))

unfoldable pub mark_abandoned : World → ℕ → Action Unit
mark_abandoned w id = query w (λ s.
    let set : Match → Match =
      λ m. record m { status = abandoned; ended_at = some (w.now s.calls) } in
    (update_row s id active set (lookup id s.matches), done tt))

is_row : ℕ → ℕ → Player → Bool
is_row id user p = p.match_id == id && p.user_id == user

unfoldable pub without_player : ℕ → ℕ → List Player → List Player
unfolding is_row
without_player id user [] = []
without_player id user (p ∷ rest) =
    let kept = without_player id user rest in if is_row id user p then kept else p ∷ kept

has_row : ℕ → ℕ → List Player → Bool
unfolding is_row
has_row id user [] = false
has_row id user (p ∷ rest) = if is_row id user p then true else has_row id user rest

unfoldable pub remove_player : World → ℕ → ℕ → Action Unit
unfolding has_row
remove_player w id user = query w (λ s.
    if has_row id user s.players
    then (record s { players = without_player id user s.players }, done tt)
    else (s, failed (domain player_not_in_match)))

-- `controlled_by_ai <> $3`
differs : Bool → Bool → Bool
differs true b = not b
differs false b = b

-- The rows after the update, and whether one has changed.
unfoldable pub set_control : ℕ → Slot → Bool → List Player → List Player × Bool
unfolding differs
set_control id slot on [] = ([], false)
set_control id slot on (p ∷ rest) =
    let (others, changed) = set_control id slot on rest in
    if p.match_id == id && p.slot == slot && differs p.controlled_by_ai on
    then (record p { controlled_by_ai = on } ∷ others, true)
    else (p ∷ others, changed)

unfoldable pub mark_controlled_by_ai : World → ℕ → Slot → Bool → Action Bool
mark_controlled_by_ai w id slot on = query w (λ s.
    let (players, changed) = set_control id slot on s.players in
    (record s { players = players }, done changed))

first : ℕ → List ℕ → List ℕ
first zero xs = []
first (suc n) [] = []
first (suc n) (x ∷ xs) = x ∷ first n xs

-- At most `limit` bots, 16 when it is 0.
unfoldable pub list_bots : World → ℕ → Action (List ℕ)
unfolding first
list_bots w limit = query w (λ s. (s, done (first (if limit == 0 then 16 else limit) s.bots)))

-- The publication of a start on the message bus.
unfoldable pub publish_start : World → StartPayload → Action Unit
publish_start w p = query w (λ s. (record s { published = p ∷ s.published }, done tt))
