-- ===== src/Lobby/Lawful.antt =====
-- The phases of the matches over any history of calls of the lobby.
use rts_vibe_code.Prelude.{ℕ, Bool, true, false, Option, none, some, List, [], ◌∷◌, if◌then◌else◌}
use rts_vibe_code.Diplomacy.{Slot}
use rts_vibe_code.StaticMap.{Map}
use rts_vibe_code.StaticMap
use rts_vibe_code.Lobby.{Match, Player}
use rts_vibe_code.Lobby.Store.{
  Code, bad_request, forbidden, missing, conflict, internal, Failure, Store, Outcome, failed, done,
  Action, list_players,
}
use rts_vibe_code.Lobby.Phases.{
  AllLawful, Keeps, get-Keeps, list_players-Keeps, add_player-Keeps, list_bots-Keeps,
  publish_start-Keeps, mark_controlled_by_ai-Keeps, remove_player-Keeps, mark_starting-Keeps,
  mark_active-Keeps, create-Keeps,
}
use rts_vibe_code.Lobby.Service.{
  Config, CreateInput, fail, pure, after, attempt, guard, load_or, view, get_view, seat_bots,
  fill_needed, fill_bots, assign, assign_bot_to_slot, start_message, fill_and_publish,
  publish_start_with_fill, start, handoff_slot, handoff, leave_waiting, leave, kick, patch_slot_ai,
  created, create_in, create_match, joined, join_in, join_listed, join, chosen_slot, seat_of,
  listed,
}

pure-Keeps : {A : Type 0} (x : A) → Keeps (pure x)
unfolding pure
pure-Keeps x = record { lawful = λ s all. all }

fail-Keeps : (A : Type 0) (e : Failure) → Keeps (fail {A = A} e)
unfolding fail
fail-Keeps A e = record { lawful = λ s all. all }

module _ {A B : Type 0} (wrap : Failure → Failure) (next : A → Action B)
    (follows : (x : A) → Keeps (next x)) where
  after-lawful :
      (p : Store × Outcome A)
      → AllLawful p.0.matches p.0.versions
      → let s = (after wrap next p).0 in AllLawful s.matches s.versions
  unfolding after
  after-lawful (s, failed e) all = all
  after-lawful (s, done x) all = (follows x).lawful s all

  attempt-Keeps : (call : Action A) → Keeps call → Keeps (attempt call wrap next)
  unfolding attempt
  attempt-Keeps call h = record { lawful = λ s all. after-lawful (call s) (h.lawful s all) }

if-Keeps : {A : Type 0} (b : Bool) (x y : Action A) → Keeps x → Keeps y → Keeps (if b then x else y)
if-Keeps true x y hx hy = hx
if-Keeps false x y hx hy = hy

guard-Keeps :
    {A : Type 0} (b : Bool) (code : Code) (next : Action A) → Keeps next → Keeps (guard b code next)
unfolding guard
guard-Keeps b code next h = if-Keeps b _ next (fail-Keeps _ _) h

load_or-Keeps :
    {A : Type 0} (code : Code) (o : Option Map) (next : Map → Action A)
    → ((mp : Map) → Keeps (next mp))
    → Keeps (load_or code o next)
unfolding load_or
load_or-Keeps code none next h = fail-Keeps _ _
load_or-Keeps code (some mp) next h = h mp

module _ (c : Config) where
  view-Keeps : (id : ℕ) → Keeps (view c id)
  unfolding view
  view-Keeps id =
      attempt-Keeps _ _
        (λ m. attempt-Keeps _ _ (λ players. pure-Keeps _) _ (list_players-Keeps c.world id)) _
        (get-Keeps c.world id)

  pub get_view-Keeps : (id : ℕ) → Keeps (get_view c id)
  unfolding get_view
  get_view-Keeps id = attempt-Keeps _ _ (λ v. pure-Keeps v) _ (view-Keeps id)

  seat_bots-Keeps :
      (id : ℕ) (slots : List StaticMap.Slot) (bots : List ℕ) → Keeps (seat_bots c id slots bots)
  unfolding seat_bots
  seat_bots-Keeps id [] bots = pure-Keeps tt
  seat_bots-Keeps id (s ∷ rest) [] = fail-Keeps _ _
  seat_bots-Keeps id (s ∷ rest) (bot ∷ bots) =
      attempt-Keeps _ _ (λ x. seat_bots-Keeps id rest bots) _ (add_player-Keeps c.world _)

  fill_needed-Keeps : (id : ℕ) (slots : List StaticMap.Slot) → Keeps (fill_needed c id slots)
  fill_needed-Keeps id [] = pure-Keeps tt
  fill_needed-Keeps id (s ∷ rest) =
      attempt-Keeps _ _ (λ bots. guard-Keeps _ conflict _ (seat_bots-Keeps id (s ∷ rest) bots)) _
        (list_bots-Keeps c.world _)

  fill_bots-Keeps : (id map_id : ℕ) → Keeps (fill_bots c id map_id)
  unfolding fill_bots
  fill_bots-Keeps id map_id =
      if-Keeps c.has_bots _ _
        (load_or-Keeps internal (c.load map_id) _ λ mp.
          attempt-Keeps _ _ (λ players. fill_needed-Keeps id _) _ (list_players-Keeps c.world id))
        (pure-Keeps tt)

  start_message-Keeps : (m : Match) (players : List Player) → Keeps (start_message c m players)
  start_message-Keeps m players = record { lawful = λ s. (publish_start-Keeps c.world _).lawful s }

  publish_start_with_fill-Keeps : (m : Match) → Keeps (publish_start_with_fill c m)
  unfolding publish_start_with_fill fill_and_publish
  publish_start_with_fill-Keeps m =
      attempt-Keeps _ _
        (λ _.
          attempt-Keeps _ _
            (λ _.
              attempt-Keeps _ _
                (λ players. guard-Keeps _ conflict _ (
                  attempt-Keeps _ _
                    (λ _.
                      attempt-Keeps _ _
                        (λ filled.
                          attempt-Keeps _ _ (λ _. view-Keeps m.id) _ (start_message-Keeps m filled))
                        _ (list_players-Keeps c.world m.id))
                    _ (mark_active-Keeps c.world m.id)))
                _ (list_players-Keeps c.world m.id))
            _ (fill_bots-Keeps m.id m.map_id))
        _ (mark_starting-Keeps c.world m.id)

  pub start-Keeps : (id : ℕ) → Keeps (start c id)
  unfolding start
  start-Keeps id =
      attempt-Keeps _ _ (λ m. guard-Keeps _ conflict _ (publish_start_with_fill-Keeps m)) _
        (get-Keeps c.world id)

  handoff_slot-Keeps : (id : ℕ) (slot : Slot) → Keeps (handoff_slot c id slot)
  handoff_slot-Keeps id slot =
      guard-Keeps _ missing _ (
        attempt-Keeps _ _ (λ _. view-Keeps id) _ (mark_controlled_by_ai-Keeps c.world id slot true))

  pub handoff-Keeps : (id user : ℕ) → Keeps (handoff c id user)
  unfolding handoff
  handoff-Keeps id user =
      attempt-Keeps _ _
        (λ m. guard-Keeps _ conflict _ (
          attempt-Keeps _ _ (λ players. handoff_slot-Keeps id _) _ (list_players-Keeps c.world id)))
        _ (get-Keeps c.world id)

  leave_waiting-Keeps : (id user : ℕ) → Keeps (leave_waiting c id user)
  leave_waiting-Keeps id user =
      attempt-Keeps _ _ (λ _. view-Keeps id) _ (remove_player-Keeps c.world id user)

  pub leave-Keeps : (id user : ℕ) → Keeps (leave c id user)
  unfolding leave
  leave-Keeps id user =
      attempt-Keeps _ _
        (λ m.
          if-Keeps _ _ _ (handoff-Keeps id user)
            (guard-Keeps _ conflict _ (leave_waiting-Keeps id user)))
        _ (get-Keeps c.world id)

  pub kick-Keeps : (id actor target : ℕ) → Keeps (kick c id actor target)
  unfolding kick
  kick-Keeps id actor target =
      attempt-Keeps _ _
        (λ m. guard-Keeps _ forbidden _ (guard-Keeps _ conflict _ (leave_waiting-Keeps id target)))
        _ (get-Keeps c.world id)

  assign-Keeps :
      (id : ℕ) (slot : Slot) (mp : Map) (bots : List ℕ) → Keeps (assign c id slot mp bots)
  assign-Keeps id slot mp [] = fail-Keeps _ _
  assign-Keeps id slot mp (bot ∷ bots) = add_player-Keeps c.world _

  assign_bot_to_slot-Keeps :
      (id : ℕ) (slot : Slot) (map_id : ℕ) → Keeps (assign_bot_to_slot c id slot map_id)
  unfolding assign_bot_to_slot
  assign_bot_to_slot-Keeps id slot map_id = guard-Keeps _ internal _ (
      load_or-Keeps bad_request (c.load map_id) _
        λ mp. attempt-Keeps _ _ (assign-Keeps id slot mp) _ (list_bots-Keeps c.world 1))

  pub patch_slot_ai-Keeps :
      (id actor : ℕ) (slot : Slot) (enable : Bool) → Keeps (patch_slot_ai c id actor slot enable)
  unfolding patch_slot_ai
  patch_slot_ai-Keeps id actor slot enable =
      attempt-Keeps _ _
        (λ m. guard-Keeps _ forbidden _ (
          guard-Keeps _ conflict _ (
            attempt-Keeps _ _
              (λ players. guard-Keeps _ conflict _ (
                attempt-Keeps _ _ (λ _. view-Keeps id) _
                  (if-Keeps enable _ _ (assign_bot_to_slot-Keeps id slot m.map_id)
                    (pure-Keeps tt))))
              _ (list_players-Keeps c.world id))))
        _ (get-Keeps c.world id)

  created-Keeps : (m : Match) (auto : Option Bool) → Keeps (created c m auto)
  created-Keeps m auto =
      if-Keeps _ _ _ (guard-Keeps _ internal _ (publish_start_with_fill-Keeps m)) (view-Keeps m.id)

  create_in-Keeps :
      (input : CreateInput) (map_id : ℕ) (mp : Map) (slot : Option Slot)
      → Keeps (create_in c input map_id mp slot)
  create_in-Keeps input map_id mp none = fail-Keeps _ _
  create_in-Keeps input map_id mp (some slot) = guard-Keeps _ bad_request _ (
      attempt-Keeps _ _
        (λ m.
          attempt-Keeps _ _ (λ _. created-Keeps m input.auto_start) _ (add_player-Keeps c.world _))
        _ (create-Keeps c.world _ _ _ _))

  pub create_match-Keeps : (input : CreateInput) → Keeps (create_match c input)
  unfolding create_match
  create_match-Keeps input =
      load_or-Keeps bad_request (c.load _) _
        λ mp. create_in-Keeps input _ mp (chosen_slot c input.slot mp.slots)

  joined-Keeps : (id : ℕ) (already : Bool) (slot : Slot) → Keeps (joined c id already slot)
  joined-Keeps id already slot = attempt-Keeps _ _ (λ v. pure-Keeps _) _ (view-Keeps id)

  join_in-Keeps :
      (id user : ℕ) (slot : Slot) (mp : Map) (players : List Player) (seat : Option Slot)
      → Keeps (join_in c id user slot mp players seat)
  join_in-Keeps id user slot mp players (some seat) = joined-Keeps id true seat
  join_in-Keeps id user slot mp players none = guard-Keeps _ conflict _ (
      guard-Keeps _ bad_request _
        (attempt-Keeps _ _ (λ _. joined-Keeps id false _) _ (add_player-Keeps c.world _)))

  join_listed-Keeps :
      (id user : ℕ) (slot : Slot) (mp : Map)
      → Keeps (λ s. join_listed c id user slot mp (list_players c.world id s))
  join_listed-Keeps id user slot mp = record {
    lawful = λ s all.
        let p = list_players c.world id s in
        let players = listed c p.1 in
        (join_in-Keeps id user slot mp players (seat_of user players)).lawful p.0
          ((list_players-Keeps c.world id).lawful s all);
  }

  pub join-Keeps : (id user : ℕ) (slot : Slot) → Keeps (join c id user slot)
  unfolding join
  join-Keeps id user slot =
      attempt-Keeps _ _
        (λ m.
          guard-Keeps _ conflict _
            (load_or-Keeps internal (c.load m.map_id) _ λ mp. join_listed-Keeps m.id user slot mp))
        _ (get-Keeps c.world id)
