-- ===== src/Diplomacy/Queries.antt =====
-- internal/domain/diplomacydom/registry.go: the questions that the registry answers.
use rts_vibe_code.Prelude.{
  ℕ, zero, suc, ◌+◌, Bool, true, false, ◌||◌, Option, none, some, List, [], ◌∷◌, ltb, ◌==◌,
  if◌then◌else◌, length, contains,
}
use rts_vibe_code.GoMap.{lookup}
use rts_vibe_code.Diplomacy.{
  Slot, no_slot, Stance, war, peace, alliance, PactKind, share_map, right_of_way, same_stance,
  Treaty, pair_key, pact_key, Registry, sorted_pair,
}

unfoldable pub new : Registry
new = record { treaties = []; pacts = []; version = 0 }

-- The treaty under the sorted pair, whatever the two slots are.
unfoldable pub recorded : Registry → Slot → Slot → Option Treaty
recorded r a b = lookup (sorted_pair a b) r.treaties

abbrev pub stance_or_war : Option Treaty → Stance
stance_or_war none = war
stance_or_war (some t) = t.stance

unfoldable pub stance : Registry → Slot → Slot → Stance
unfolding recorded
stance r a b = if a == b then peace else stance_or_war (recorded r a b)

unfoldable pub treaty : Registry → Slot → Slot → Option Treaty
unfolding recorded
treaty r a b = if a == b then none else recorded r a b

abbrev is_some {ℓ} : {A : Type ℓ} → Option A → Bool
is_some none = false
is_some (some x) = true

unfoldable pub has_pact : Registry → Slot → Slot → PactKind → Bool
has_pact r granter grantee kind =
    if granter == grantee
    then true
    else is_some (lookup (record { granter = granter; grantee = grantee; kind = kind }) r.pacts)

unfoldable is_hostile : Registry → Slot → Slot → Bool
is_hostile r a b = same_stance (stance r a b) war

unfoldable pub sees_through : Registry → Slot → Slot → Bool
sees_through r viewer owner =
    if viewer == owner
    then true
    else if same_stance (stance r viewer owner) alliance
    then true
    else has_pact r owner viewer share_map

abbrev by_stance : Stance → Bool → Bool
by_stance alliance granted = true
by_stance peace granted = granted
by_stance war granted = false

unfoldable pub may_move_through : Registry → Slot → Slot → Bool
may_move_through r mover owner =
    if owner == no_slot || mover == owner
    then true
    else by_stance (stance r mover owner) (has_pact r owner mover right_of_way)

-- The search of `Coalition`: the keys of `visited`, and the stack with its top first.
pub record Search : Type 0 where
  pub visited : List Slot
  pub stack : List Slot

-- One turn of the inner loop, over `other`.
unfoldable pub visit : Registry → Slot → Slot → Search → Search
visit r current other s =
    if contains other s.visited
    then s
    else if same_stance (stance r current other) alliance
    then record { visited = other ∷ s.visited; stack = other ∷ s.stack }
    else s

unfoldable pub expand : Registry → Slot → List Slot → Search → Search
expand r current [] s = s
expand r current (other ∷ rest) s = expand r current rest (visit r current other s)

-- The outer loop, with fuel for its turns.
unfoldable pub search_from : ℕ → Registry → List Slot → List Slot → List Slot → Search
search_from zero r all visited stack = record { visited = visited; stack = stack }
search_from (suc fuel) r all visited [] = record { visited = visited; stack = [] }
search_from (suc fuel) r all visited (current ∷ rest) =
    let s = expand r current all (record { visited = visited; stack = rest }) in
    search_from fuel r all s.visited s.stack

-- A turn takes one slot off the stack, and each slot goes on it once.
unfoldable pub coalition_search : Registry → Slot → List Slot → Search
unfolding search_from
coalition_search r slot all = search_from (length all + 1) r all (slot ∷ []) (slot ∷ [])

unfoldable pub coalition : Registry → Slot → List Slot → List Slot
unfolding coalition_search
coalition r slot all = (coalition_search r slot all).visited

unfoldable pub least : Slot → List Slot → Slot
least leader [] = leader
least leader (s ∷ rest) = least (if ltb s leader then s else leader) rest

unfoldable pub coalition_id : Registry → Slot → List Slot → Slot
unfolding coalition least
coalition_id r slot all = least slot (coalition r slot all)
