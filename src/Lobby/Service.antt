-- ===== src/Lobby/Service.antt =====
-- internal/service/lobbysvc/service.go and lifecycle.go: the operations of the lobby over the store. Loading a map is a
-- parameter, and so is the bot pool being there.
use Prim.Native.String.{String}
use rts_vibe_code.Prelude.{
  ℕ, Bool, true, false, not, ◌||◌, Option, none, some, List, [], ◌∷◌, ◌==◌, nat_key, ltb,
  if◌then◌else◌, contains, length,
}
use rts_vibe_code.GoMap.{GoMap, insert}
use rts_vibe_code.Float64.{F64}
use rts_vibe_code.Diplomacy.{Slot}
use rts_vibe_code.StaticMap.{Map}
use rts_vibe_code.StaticMap
use rts_vibe_code.Lobby.{
  Match, Player, waiting, starting, active, same_status, not_found, invalid_transition,
  player_not_in_match,
}
use rts_vibe_code.Lobby.Store.{
  StartPayload, Code, bad_request, forbidden, missing, conflict, internal, Failure, domain, app,
  panics, Store, Outcome, failed, done, Action, World, get, create, add_player, list_players,
  mark_starting, mark_active, remove_player, mark_controlled_by_ai, list_bots, publish_start,
}

pub record Config : Type 0 where
  pub world : World
  -- maps.Load, `none` on an error.
  pub load : ℕ → Option Map
  -- The map "classic-4p".
  pub classic : ℕ
  pub has_bots : Bool
  pub speed : F64

pub record MatchView : Type 0 where
  pub match : Match
  pub players : List Player

unfoldable pub fail : {A : Type 0} → Failure → Action A
fail e s = (s, failed e)

unfoldable pub pure : {A : Type 0} → A → Action A
pure x s = (s, done x)

-- What follows a call: its error, wrapped, or the rest of the operation.
unfoldable pub after :
    {A B : Type 0} → (Failure → Failure) → (A → Action B) → Store × Outcome A → Store × Outcome B
after wrap next (s, failed e) = (s, failed (wrap e))
after wrap next (s, done x) = next x s

-- `if x, err := call; err != nil { return wrap(err) }`, and on.
unfoldable pub attempt : {A B : Type 0} → Action A → (Failure → Failure) → (A → Action B) → Action B
unfolding after
attempt call wrap next s = after wrap next (call s)

-- An early return under a condition.
unfoldable pub guard : {A : Type 0} → Bool → Code → Action A → Action A
unfolding fail
guard b code next = if b then fail (app code) else next

unfoldable pub load_or : {A : Type 0} → Code → Option Map → (Map → Action A) → Action A
unfolding fail
load_or code none next = fail (app code)
load_or code (some mp) next = next mp

abbrev same : Failure → Failure
same e = e

abbrev with_code : Code → Failure → Failure
with_code code e = app code

-- `errors.Is(err, lobbydom.ErrNotFound)`, and what the service makes of it.
abbrev map_not_found : Failure → Failure
map_not_found (domain not_found) = app missing
map_not_found e = app internal

abbrev map_started : Failure → Failure
map_started (domain invalid_transition) = app conflict
map_started e = app internal

abbrev map_absent : Failure → Failure
map_absent (domain player_not_in_match) = app missing
map_absent e = app internal

-- As `Get` answers: other errors are passed on.
abbrev map_unknown : Failure → Failure
map_unknown (domain not_found) = app missing
map_unknown e = e

unfoldable pub slot_color : List StaticMap.Slot → Slot → String
slot_color [] slot = "#888888"
slot_color (s ∷ rest) slot = if s.id == slot then s.color else slot_color rest slot

unfoldable pub slot_exists_on_map : List StaticMap.Slot → Slot → Bool
slot_exists_on_map [] slot = false
slot_exists_on_map (s ∷ rest) slot = s.id == slot || slot_exists_on_map rest slot

unfoldable pub auto_start_enabled : Option Bool → Bool
auto_start_enabled none = true
auto_start_enabled (some v) = v

abbrev pub seats : List Player → List Slot
seats [] = []
seats (p ∷ rest) = p.slot ∷ seats rest

-- The slots of the map that nobody has taken.
unfoldable pub needed : List StaticMap.Slot → List Slot → List StaticMap.Slot
needed [] occupied = []
needed (s ∷ rest) occupied =
    let others = needed rest occupied in if contains s.id occupied then others else s ∷ others

abbrev pub new_player : ℕ → ℕ → Slot → String → Bool → Player
new_player id user slot color ai = record {
  match_id = id;
  user_id = user;
  slot = slot;
  color = color;
  alive = true;
  controlled_by_ai = ai;
  last_seen_at = none;
  joined_at = 0;
}

abbrev pub slot_of : ℕ → List Player → Slot
slot_of user [] = 0
slot_of user (p ∷ rest) = if p.user_id == user then p.slot else slot_of user rest

abbrev assignments : List Player → GoMap Slot ℕ → GoMap Slot ℕ
assignments [] out = out
assignments (p ∷ rest) out = assignments rest (insert p.slot p.user_id out)

-- The slot of a user that is in the match.
abbrev pub seat_of : ℕ → List Player → Option Slot
seat_of user [] = none
seat_of user (p ∷ rest) = if p.user_id == user then some p.slot else seat_of user rest

-- The first slot that is free, 0 without one.
abbrev pub first_free : List StaticMap.Slot → List Slot → Slot
first_free [] taken = 0
first_free (s ∷ rest) taken = if contains s.id taken then first_free rest taken else s.id

pub record JoinResult : Type 0 where
  pub view : MatchView
  pub already_joined : Bool
  pub joined_slot : Slot

pub record CreateInput : Type 0 where
  pub name : String
  pub map_id : ℕ
  pub slot : Slot
  pub user_id : ℕ
  pub auto_start : Option Bool

module _ (c : Config) where
  unfoldable pub view : ℕ → Action MatchView
  view id = attempt (get c.world id) same λ m.
      attempt (list_players c.world id) same
        λ players. pure (record { match = m; players = players })

  unfoldable pub get_view : ℕ → Action MatchView
  get_view id = attempt (view id) map_unknown pure

  -- The loop of `fillBots` over the slots that are free, with the bots listed.
  unfoldable pub seat_bots : ℕ → List StaticMap.Slot → List ℕ → Action Unit
  seat_bots id [] bots = pure tt
  seat_bots id (s ∷ rest) [] = fail panics
  seat_bots id (s ∷ rest) (bot ∷ bots) =
      attempt (add_player c.world (new_player id bot s.id s.color true)) (with_code internal)
        λ _. seat_bots id rest bots

  abbrev pub fill_needed : ℕ → List StaticMap.Slot → Action Unit
  fill_needed id [] = pure tt
  fill_needed id (s ∷ rest) =
      attempt (list_bots c.world (length (s ∷ rest))) (with_code internal) λ bots.
        guard (ltb (length bots) (length (s ∷ rest))) conflict (seat_bots id (s ∷ rest) bots)

  unfoldable pub fill_bots : ℕ → ℕ → Action Unit
  fill_bots id map_id =
      if c.has_bots
      then load_or internal (c.load map_id) (λ mp.
        attempt (list_players c.world id) same
          λ players. fill_needed id (needed mp.slots (seats players)))
      else pure tt

  abbrev pub assign : ℕ → Slot → Map → List ℕ → Action Unit
  assign id slot mp [] = fail (app conflict)
  assign id slot mp (bot ∷ bots) =
      add_player c.world (new_player id bot slot (slot_color mp.slots slot) true)

  unfoldable pub assign_bot_to_slot : ℕ → Slot → ℕ → Action Unit
  assign_bot_to_slot id slot map_id = guard (not c.has_bots) internal (
      load_or bad_request (c.load map_id)
        λ mp. attempt (list_bots c.world 1) (with_code conflict) (assign id slot mp))

  -- The message that is published at the n-th call of the store.
  abbrev pub start_payload : Match → List Player → ℕ → StartPayload
  start_payload m players n = record {
    match_id = m.id;
    map_id = m.map_id;
    speed = m.speed_factor;
    started_at = c.world.now n;
    slot_assignments = assignments players [];
  }

  abbrev pub start_message : Match → List Player → Action Unit
  start_message m players s = publish_start c.world (start_payload m players s.calls) s

  -- What follows `MarkStarting`.
  unfoldable pub fill_and_publish : Match → Action MatchView
  fill_and_publish m = attempt (fill_bots m.id m.map_id) same λ _.
      attempt (list_players c.world m.id) (with_code internal) λ players.
        guard (ltb (length players) 2) conflict (
          attempt (mark_active c.world m.id) (with_code internal) λ _.
            attempt (list_players c.world m.id) (with_code internal)
              λ filled. attempt (start_message m filled) (with_code internal) λ _. view m.id)

  unfoldable pub publish_start_with_fill : Match → Action MatchView
  unfolding fill_and_publish
  publish_start_with_fill m =
      attempt (mark_starting c.world m.id) map_started λ _. fill_and_publish m

  unfoldable pub start : ℕ → Action MatchView
  start id =
      attempt (get c.world id) map_not_found
        λ m. guard (not (same_status m.status waiting)) conflict (publish_start_with_fill m)

  abbrev pub handoff_slot : ℕ → Slot → Action MatchView
  handoff_slot id slot =
      guard (slot == 0) missing
        (attempt (mark_controlled_by_ai c.world id slot true) (with_code internal) λ _. view id)

  unfoldable pub handoff : ℕ → ℕ → Action MatchView
  handoff id user = attempt (get c.world id) map_not_found λ m.
      guard (not (same_status m.status active || same_status m.status starting)) conflict (
        attempt (list_players c.world id) (with_code internal)
          λ players. handoff_slot id (slot_of user players))

  abbrev pub leave_waiting : ℕ → ℕ → Action MatchView
  leave_waiting id user = attempt (remove_player c.world id user) map_absent λ _. view id

  unfoldable pub leave : ℕ → ℕ → Action MatchView
  leave id user = attempt (get c.world id) map_not_found λ m.
      if same_status m.status active || same_status m.status starting
      then handoff id user
      else guard (not (same_status m.status waiting)) conflict (leave_waiting id user)

  -- By the actor, of the target.
  unfoldable pub kick : ℕ → ℕ → ℕ → Action MatchView
  kick id actor target = attempt (get c.world id) map_not_found λ m.
      guard (not (m.created_by == actor)) forbidden
        (guard (not (same_status m.status waiting)) conflict (leave_waiting id target))

  -- Where the slot is not taken, there is no bot to remove.
  unfoldable pub patch_slot_ai : ℕ → ℕ → Slot → Bool → Action MatchView
  patch_slot_ai id actor slot enable = attempt (get c.world id) map_not_found λ m.
      guard (not (m.created_by == actor)) forbidden (
        guard (not (same_status m.status waiting)) conflict (
          attempt (list_players c.world id) (with_code internal) λ players.
            guard (contains slot (seats players)) conflict (
              attempt (if enable then assign_bot_to_slot id slot m.map_id else pure tt) same
                λ _. view id)))

  abbrev pub chosen_slot : Slot → List StaticMap.Slot → Option Slot
  chosen_slot slot [] = if slot == 0 then none else some slot
  chosen_slot slot (s ∷ rest) = some (if slot == 0 then s.id else slot)

  abbrev pub created : Match → Option Bool → Action MatchView
  created m auto =
      if auto_start_enabled auto
      then guard (not c.has_bots) internal (publish_start_with_fill m)
      else view m.id

  abbrev pub create_in : CreateInput → ℕ → Map → Option Slot → Action MatchView
  create_in input map_id mp none = fail panics
  create_in input map_id mp (some slot) =
      guard (not (slot_exists_on_map mp.slots slot)) bad_request (
        attempt (create c.world input.name map_id input.user_id c.speed) (with_code internal) λ m.
          attempt
            (add_player c.world
              (new_player m.id input.user_id slot (slot_color mp.slots slot) false))
            (with_code internal) λ _. created m input.auto_start)

  unfoldable pub create_match : CreateInput → Action MatchView
  create_match input =
      let map_id = if input.map_id == 0 then c.classic else input.map_id in
      load_or bad_request (c.load map_id)
        λ mp. create_in input map_id mp (chosen_slot input.slot mp.slots)

  abbrev pub joined : ℕ → Bool → Slot → Action JoinResult
  joined id already slot =
      attempt (view id) same
        λ v. pure (record { view = v; already_joined = already; joined_slot = slot })

  abbrev pub take_seat : ℕ → ℕ → Map → List Slot → Slot → Action JoinResult
  take_seat id user mp taken slot = guard (slot == 0 || contains slot taken) conflict (
      guard (not (slot_exists_on_map mp.slots slot)) bad_request (
        attempt (add_player c.world (new_player id user slot (slot_color mp.slots slot) false))
          (with_code internal) λ _. joined id false slot))

  abbrev pub join_in : ℕ → ℕ → Slot → Map → List Player → Option Slot → Action JoinResult
  join_in id user slot mp players (some seat) = joined id true seat
  join_in id user slot mp players none =
      let taken = seats players in
      take_seat id user mp taken (if slot == 0 then first_free mp.slots taken else slot)

  -- The players that `ListPlayers` gives, none on its error.
  abbrev pub listed : Outcome (List Player) → List Player
  listed (failed e) = []
  listed (done players) = players

  abbrev pub join_listed :
      ℕ → ℕ → Slot → Map → Store × Outcome (List Player) → Store × Outcome JoinResult
  join_listed id user slot mp (s, o) =
      let players = listed o in join_in id user slot mp players (seat_of user players) s

  unfoldable pub join : ℕ → ℕ → Slot → Action JoinResult
  join id user slot = attempt (get c.world id) map_not_found λ m.
      guard (not (same_status m.status waiting)) conflict (
        load_or internal (c.load m.map_id)
          λ mp. λ s. join_listed m.id user slot mp (list_players c.world m.id s))
