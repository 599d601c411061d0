-- ===== src/Pathing/Treaties.antt =====
-- internal/domain/pathdom/diplomacy.go: which legs the treaties close.
use rts_vibe_code.Prelude.{
  ℕ, ◌≡◌, ◌↔◌, ◌≢◌, Bool, true, false, not, ◌||◌, Option, none, some, List, [], ◌∷◌, arith, ◌==◌,
  if◌then◌else◌, nat_key,
}
use rts_vibe_code.GoMap.{GoMap, lookup}
use rts_vibe_code.Diplomacy.{Slot, no_slot, war, peace, same_stance, right_of_way, Registry}
use rts_vibe_code.Diplomacy.Queries.{stance, has_pact, may_move_through}
use rts_vibe_code.Pathing.{Leg}

-- `owners[id]`: the empty slot for a province that the map does not hold.
abbrev owner_or_none : Option Slot → Slot
owner_or_none (some o) = o
owner_or_none none = no_slot

pub leg_blocked : Registry → Slot → GoMap ℕ Slot → Leg → Bool
leg_blocked d mover owners leg =
    let owner = owner_or_none (lookup leg.to_prov owners) in
    if owner == no_slot || owner == mover
    then false
    else if may_move_through d mover owner
    then false
    else not (same_stance (stance d mover owner) war)

unfoldable pub hostile_leg_end : Registry → Slot → GoMap ℕ Slot → Leg → Bool
hostile_leg_end d mover owners leg =
    let owner = owner_or_none (lookup leg.to_prov owners) in
    if owner == no_slot || owner == mover then false else same_stance (stance d mover owner) war

unfoldable route_attack_terminus : Registry → Slot → GoMap ℕ Slot → List Leg → Bool
route_attack_terminus d mover owners [] = false
route_attack_terminus d mover owners (l ∷ rest) =
    hostile_leg_end d mover owners l || route_attack_terminus d mover owners rest

unfoldable pub route_blocked : Registry → Slot → GoMap ℕ Slot → List Leg → Bool
route_blocked d mover owners [] = false
route_blocked d mover owners (l ∷ rest) =
    leg_blocked d mover owners l || route_blocked d mover owners rest

-- A leg is closed exactly when its province belongs to another slot which is at peace with the mover and
-- has granted it no right of way.
pub leg_blocked_iff :
    (d : Registry) (mover : Slot) (owners : GoMap ℕ Slot) (leg : Leg)
    → let owner = owner_or_none (lookup leg.to_prov owners) in
      (leg_blocked d mover owners leg ≡ true) ↔ (
        (owner ≢ no_slot)
        × (owner ≢ mover)
        × (stance d mover owner ≡ peace)
        × (has_pact d owner mover right_of_way ≡ false))
unfolding leg_blocked may_move_through
leg_blocked_iff d mover owners leg = ground arith
