-- ===== src/Lobby/Phases.antt =====
-- The phases that the calls of the lobby on the store put a match in.
use Prim.Native.String.{String}
use rts_vibe_code.Prelude.{
  ℕ, nat_key, ◌≡◌, refl, sym, subst, List, [], ◌∷◌, Bool, true, Option, none, some, ◌==◌, ==_iff,
  if◌then◌else◌, inl, inr, Bool-cases, arith,
}
use rts_vibe_code.GoMap.{GoMap, lookup, insert, lookup-insert}
use rts_vibe_code.Float64.{F64}
use rts_vibe_code.Diplomacy.{Slot}
use rts_vibe_code.Lobby.{
  Match, Player, Status, waiting, starting, active, ended, abandoned, same_status,
  can_transition_to,
}
use rts_vibe_code.Lobby.Store.{
  counted, Store, Action, World, StartPayload, query, get, create, add_player, list_players,
  mark_starting, mark_active, mark_abandoned, remove_player, mark_controlled_by_ai, list_bots,
  publish_start, update_status, update_row, created,
}

abbrev pub phase : Option Match → Option Status
phase none = none
phase (some m) = some m.status

abbrev pub status_of : ℕ → Store → Option Status
status_of id s = phase (lookup id s.matches)

-- What may become of the status of a match at once: nothing, or it appears as waiting, or one transition of
-- `CanTransitionTo`.
pub data Phase : Option Status → Option Status → Type 0 where
  stays : (o : Option Status) → Phase o o
  opens : Phase none (some waiting)
  moves : (a b : Status) → can_transition_to a b ≡ true → Phase (some a) (some b)

-- What one call may do to each match; the record of the table is not rewritten.
abbrev IsLawful : Store → Store → Type 0
IsLawful s s' = ((id : ℕ) → Phase (status_of id s) (status_of id s')) × (s'.versions ≡ s.versions)

-- From each of the contents that the table of the matches has had to the one after it, and on to the last, no
-- match has moved by more than one transition.
abbrev pub AllLawful : GoMap ℕ Match → List (GoMap ℕ Match) → Type 0
AllLawful matches [] = Unit
AllLawful matches (old ∷ older) =
    ((id : ℕ) → Phase (phase (lookup id old)) (phase (lookup id matches))) × AllLawful old older

pub record Keeps {A : Type 0} (call : Action A) : Type 0 where
  pub lawful :
      (s : Store)
      → AllLawful s.matches s.versions
      → AllLawful (call s).0.matches (call s).0.versions

-- A row is written that was in a phase that leads to its new one.
insert-IsLawful :
    (s : Store) (id : ℕ) (m : Match)
    → Phase (status_of id s) (some m.status)
    → IsLawful s (record s { matches = insert id m s.matches })
insert-IsLawful s id m h = (
  (λ j. rw (lookup-insert id j m s.matches) (elim (Bool-cases (id == j)) [
    | inl same ↦
        subst (λ k. Phase (status_of k s) (phase (if id == j then some m else lookup j s.matches)))
          ((==_iff id j).0 same) (rw (same) h)
    | inr apart ↦ rw (apart) (stays (status_of j s))
  ])),
  refl,
)

unchanged-IsLawful : (s : Store) → IsLawful s s
unchanged-IsLawful s = ((λ id. stays (status_of id s)), refl)

pub same_status_sound : (a b : Status) → same_status a b ≡ true → a ≡ b
same_status_sound waiting b e = grind arith
same_status_sound starting b e = grind arith
same_status_sound active b e = grind arith
same_status_sound ended b e = grind arith
same_status_sound abandoned b e = grind arith

module _ (w : World) where
  Keeps-query :
      {A : Type 0} (run : Action A) → ((s : Store) → IsLawful s (run s).0) → Keeps (query w run)
  Keeps-query run h = record {
    lawful = λ s all. elim (Bool-cases (w.fails s.calls)) [
      | inl e ↦ rw (e) ((λ id. stays (status_of id s)), all)
      | inr e ↦ rw (e) (
          let (moved, kept) = h (counted s) in
          subst (AllLawful (run (counted s)).0.matches) (sym kept) (moved, all))
    ];
  }

  -- A call that does not write matches.
  Keeps-others :
      {A : Type 0} (run : Action A)
      → ((s : Store) → ((run s).0.matches ≡ s.matches) × ((run s).0.versions ≡ s.versions))
      → Keeps (query w run)
  Keeps-others run same =
      Keeps-query run λ s. ((λ id. rw ((same s).0) (stays (status_of id s))), (same s).1)

  pub get-Keeps : (id : ℕ) → Keeps (get w id)
  unfolding get
  get-Keeps id = Keeps-others _ λ s. (refl, refl)

  pub list_players-Keeps : (id : ℕ) → Keeps (list_players w id)
  unfolding list_players
  list_players-Keeps id = Keeps-others _ λ s. (refl, refl)

  pub add_player-Keeps : (p : Player) → Keeps (add_player w p)
  unfolding add_player
  add_player-Keeps p = Keeps-others _ λ s. (refl, refl)

  pub list_bots-Keeps : (limit : ℕ) → Keeps (list_bots w limit)
  unfolding list_bots
  list_bots-Keeps limit = Keeps-others _ λ s. (refl, refl)

  pub publish_start-Keeps : (p : StartPayload) → Keeps (publish_start w p)
  unfolding publish_start
  publish_start-Keeps p = Keeps-others _ λ s. (refl, refl)

  pub mark_controlled_by_ai-Keeps :
      (id : ℕ) (slot : Slot) (on : Bool) → Keeps (mark_controlled_by_ai w id slot on)
  unfolding mark_controlled_by_ai
  mark_controlled_by_ai-Keeps id slot on = Keeps-others _ λ s. (refl, refl)

  pub remove_player-Keeps : (id user : ℕ) → Keeps (remove_player w id user)
  unfolding remove_player
  remove_player-Keeps id user = Keeps-others _ λ s. (ground arith, ground arith)

  update_row-IsLawful :
      (s : Store) (id : ℕ) (a next : Status) (set : Match → Match) (row : Option Match)
      → lookup id s.matches ≡ row
      → ((m : Match) → (set m).status ≡ next)
      → can_transition_to a next ≡ true
      → IsLawful s (update_row s id a set row)
  update_row-IsLawful s id a next set none at sets can = unchanged-IsLawful s
  update_row-IsLawful s id a next set (some m) at sets can =
      elim (Bool-cases (same_status m.status a)) [
        | inl is ↦
            let moved : Phase (some m.status) (some next) =
              subst (λ b. Phase (some b) (some next)) (sym (same_status_sound m.status a is))
                (moves a next can) in
            rw (is) (insert-IsLawful s id (set m) (rw (at, sets m) moved))
        | inr not_so ↦ rw (not_so) (unchanged-IsLawful s)
      ]

  pub mark_starting-Keeps : (id : ℕ) → Keeps (mark_starting w id)
  unfolding mark_starting update_status can_transition_to
  mark_starting-Keeps id =
      Keeps-query _
        λ s. update_row-IsLawful s id waiting starting _ (lookup id s.matches) refl (λ m. refl) refl

  pub mark_active-Keeps : (id : ℕ) → Keeps (mark_active w id)
  unfolding mark_active can_transition_to
  mark_active-Keeps id =
      Keeps-query _
        λ s. update_row-IsLawful s id starting active _ (lookup id s.matches) refl (λ m. refl) refl

  pub mark_abandoned-Keeps : (id : ℕ) → Keeps (mark_abandoned w id)
  unfolding mark_abandoned can_transition_to
  mark_abandoned-Keeps id =
      Keeps-query _
        λ s. update_row-IsLawful s id active abandoned _ (lookup id s.matches) refl (λ m. refl) refl

  created-IsLawful :
      (s : Store) (m : Match) (row : Option Match)
      → lookup m.id s.matches ≡ row
      → m.status ≡ waiting
      → IsLawful s (created s m row).0
  created-IsLawful s m none at new = insert-IsLawful s m.id m (rw (at, new) opens)
  created-IsLawful s m (some taken) at new = unchanged-IsLawful s

  pub create-Keeps :
      (name : String) (map_id user : ℕ) (speed : F64) → Keeps (create w name map_id user speed)
  unfolding create
  create-Keeps name map_id user speed =
      Keeps-query _ λ s. created-IsLawful s _ (lookup (w.uuid s.calls) s.matches) refl refl
