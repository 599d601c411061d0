-- ===== src/Movement/Framed.antt =====
-- The movements of a unit (internal/domain/matchdom/movement.go) leave the frame of the match alone.
use rts_vibe_code.Prelude.{
  ℕ, suc, ltb, length, ◌≡◌, refl, ◌∙◌, Option, none, some, List, [], ◌∷◌, ◌++◌, arith, nat_key,
}
use rts_vibe_code.GoMap.{lookup}
use rts_vibe_code.Float64.{Float64}
use rts_vibe_code.Diplomacy.{Time}
use rts_vibe_code.Match.{
  Match, GameUnit, is_moving, current_leg, Target, Province, PathLeg, AppliedEvent,
}
use rts_vibe_code.Match.Frame.{frame}
use rts_vibe_code.Pathing.{Leg}
use rts_vibe_code.Match.Victory.Framed.{check_victory-frame}
use rts_vibe_code.Match.Combat.{resolve_province}
use rts_vibe_code.Match.Combat.Framed.{KeepsFrame, KeepsFrame-if, resolve_province-frame}
use rts_vibe_code.Movement.{
  schedule_arrival, set_unit_path, follow, next_waypoint, start_next_waypoint, then_victory,
  resolve_in, finish_path, go_on, complete_unit_leg, put_unit, stopped, halted, is_opposed,
  begin_next, complete_leg,
}

pub schedule_arrival-frame : (m : Match) (u : GameUnit) → frame (schedule_arrival m u) ≡ frame m
unfolding schedule_arrival
schedule_arrival-frame m u = ground arith

pub set_unit_path-frame :
    (fl : Float64) (m : Match) (u : GameUnit) (legs : List Leg) (now : Time)
    → frame (set_unit_path fl m u legs now).0 ≡ frame m
unfolding set_unit_path
set_unit_path-frame fl m u [] now = refl
set_unit_path-frame fl m u (l ∷ rest) now = schedule_arrival-frame _ _

follow-frame :
    (fl : Float64) (m : Match) (u : GameUnit) (legs : Option (List Leg)) (now : Time)
    → frame (follow fl m u legs now).0 ≡ frame m
follow-frame fl m u none now = refl
follow-frame fl m u (some legs) now = ground (arith, set_unit_path-frame fl m u legs now)

next_waypoint-frame :
    (fl : Float64) (m : Match) (u : GameUnit) (now : Time) (wps : List Target)
    → frame (next_waypoint fl m u now wps).0 ≡ frame m
next_waypoint-frame fl m u now [] = refl
next_waypoint-frame fl m u now (wp ∷ rest) = grind (arith, follow-frame)

pub start_next_waypoint-frame :
    (fl : Float64) (m : Match) (u : GameUnit) (now : Time)
    → frame (start_next_waypoint fl m u now).0 ≡ frame m
unfolding start_next_waypoint
start_next_waypoint-frame fl m u now = next_waypoint-frame fl m u now u.waypoints

then_victory-frame :
    (m : Match) (o : Option (Match × List AppliedEvent)) (at : Time)
    → KeepsFrame m o
    → KeepsFrame m (then_victory o at)
then_victory-frame m none at h = tt
then_victory-frame m (some (m', out)) at h = check_victory-frame m' at ∙ h

more-frame :
    (m : Match) (o : Option (Match × List AppliedEvent)) (out : List AppliedEvent)
    → KeepsFrame m o
    → KeepsFrame m (elim o [ none ↦ none | some (m', more) ↦ some (m', out ++ more) ])
more-frame m none out h = h
more-frame m (some (m', more)) out h = h

pub KeepsFrame-trans :
    (m m' : Match) (o : Option (Match × List AppliedEvent))
    → frame m' ≡ frame m
    → KeepsFrame m' o
    → KeepsFrame m o
KeepsFrame-trans m m' none same h = tt
KeepsFrame-trans m m' (some (m2, out)) same h = h ∙ same

resolve_in-frame :
    (fuel : ℕ) (m : Match) (prov : Option Province) (out : List AppliedEvent) (at : Time)
    → KeepsFrame m (resolve_in fuel m prov out at)
resolve_in-frame fuel m none out at = refl
resolve_in-frame fuel m (some prov) out at =
    more-frame m (resolve_province fuel m prov at) out (resolve_province-frame fuel m prov at)

-- Combat in a province of a match with the same frame, and the check for victory.
pub fought-frame :
    (fuel : ℕ) (m m' : Match) (prov : Option Province) (out : List AppliedEvent) (at : Time)
    → frame m' ≡ frame m
    → KeepsFrame m (then_victory (resolve_in fuel m' prov out at) at)
fought-frame fuel m m' prov out at same = then_victory-frame m (resolve_in fuel m' prov out at) at (
    KeepsFrame-trans m m' (resolve_in fuel m' prov out at) same
      (resolve_in-frame fuel m' prov out at))

module _ (fl : Float64) (fuel : ℕ) where
  finish_path-frame :
      (m : Match) (u : GameUnit) (leg : PathLeg) (out : List AppliedEvent) (at : Time)
      → KeepsFrame m (finish_path fl fuel m u leg out at)
  unfolding finish_path
  finish_path-frame m u leg out at =
      let (m', u', started) = start_next_waypoint fl m u at in
      let same = start_next_waypoint-frame fl m u at in
      let going = check_victory-frame m' at ∙ same in
      KeepsFrame-if m started _ _ going
        (KeepsFrame-if m (is_moving u' at) _ _ going (fought-frame fuel m m' _ out at same))

  go_on-frame :
      (m : Match) (u : GameUnit) (leg : PathLeg) (out : List AppliedEvent) (at : Time)
      → KeepsFrame m (go_on fl fuel m u leg out at)
  unfolding go_on
  go_on-frame m u leg out at =
      KeepsFrame-if m (is_opposed fl fuel m u leg at) _ _
        (fought-frame fuel m (put_unit m (halted fl fuel u)) (lookup leg.to_prov m.provinces) out at
          refl)
        (KeepsFrame-if m (ltb (suc u.path_index) (length u.path)) _ _
          (check_victory-frame (begin_next fl fuel m u at) at ∙ schedule_arrival-frame _ _)
          (finish_path-frame (put_unit m (stopped fl fuel u)) (stopped fl fuel u) leg out at))

  complete_leg-frame :
      (m : Match) (u : GameUnit) (at : Time) (leg : Option PathLeg)
      → KeepsFrame m (complete_leg fl fuel m u at leg)
  complete_leg-frame m u at none = refl
  complete_leg-frame m u at (some leg) = go_on-frame _ _ leg _ at

  pub complete_unit_leg-frame :
      (m : Match) (u : GameUnit) (at : Time) → KeepsFrame m (complete_unit_leg fl fuel m u at)
  unfolding complete_unit_leg
  complete_unit_leg-frame m u at = complete_leg-frame m u at (current_leg u)
