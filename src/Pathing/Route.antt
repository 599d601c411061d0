-- ===== src/Pathing/Route.antt =====
-- internal/domain/pathdom/route.go: the legs of a movement order.
use rts_vibe_code.Prelude.{
  ℕ, not, ◌||◌, Option, none, some, List, [], ◌∷◌, ◌++◌, ◌==◌, if◌then◌else◌, nat_key,
}
use rts_vibe_code.GoMap.{lookup}
use rts_vibe_code.Float64.{F64, Float64}
use rts_vibe_code.Match.{Target, TargetKind, target_node, target_edge}
use rts_vibe_code.Pathing.{Graph, Vec2, Leg, one_half, or_zero}
use rts_vibe_code.Pathing.Snap.{nearest_province_id}
use rts_vibe_code.Pathing.Search.{Outcome, found, unreachable, exhausted, astar}

module _ (fl : Float64) where
  open fl use {of_ℕ, minus, hypot, le, eq}

  abbrev closer_end : F64 → F64 → ℕ → ℕ → Option Vec2 → Option Vec2 → ℕ → ℕ
  closer_end x y edge_from edge_to (some a) (some b) nearest =
      if le (hypot (minus x a.x) (minus y a.y)) (hypot (minus x b.x) (minus y b.y))
      then edge_from
      else edge_to
  closer_end x y edge_from edge_to _ _ nearest = nearest

  resolve_start_on_edge : Graph → F64 → F64 → ℕ → ℕ → ℕ
  resolve_start_on_edge g x y edge_from edge_to =
      let nearest = nearest_province_id fl g x y in
      if edge_from == 0 || (edge_to == 0 || edge_from == edge_to)
      then nearest
      else closer_end x y edge_from edge_to (lookup edge_from g.coords) (lookup edge_to g.coords)
          nearest

  abbrev by_kind : TargetKind → ℕ → ℕ → ℕ
  by_kind target_node province edge = province
  by_kind target_edge province edge = edge

  goal_province : Target → ℕ
  goal_province t = by_kind t.kind t.province (if le t.t one_half then t.edge_from else t.edge_to)

  -- The loop over the path behind its first province.
  legs_along : Graph → F64 → F64 → ℕ → List ℕ → List Leg
  legs_along g cur_x cur_y cur_prov [] = []
  legs_along g cur_x cur_y cur_prov (next ∷ rest) =
      let c = or_zero fl (lookup next g.coords) in
      (record {
        from_prov = cur_prov;
        to_prov = next;
        from_x = cur_x;
        from_y = cur_y;
        to_x = c.x;
        to_y = c.y;
      })
      ∷ legs_along g c.x c.y next rest

  abbrev last_leg : Option Leg → List Leg → Option Leg
  last_leg l [] = l
  last_leg l (x ∷ xs) = last_leg (some x) xs

  -- The leg to the exact target, behind the legs so far, unless they end there.
  abbrev final_leg : F64 → F64 → ℕ → ℕ → Target → Option Leg → List Leg
  final_leg from_x from_y start_prov goal_prov target none =
      (record {
        from_prov = start_prov;
        to_prov = goal_prov;
        from_x = from_x;
        from_y = from_y;
        to_x = target.x;
        to_y = target.y;
      })
      ∷ []
  final_leg from_x from_y start_prov goal_prov target (some l) =
      if not (eq l.to_x target.x) || not (eq l.to_y target.y)
      then (record {
        from_prov = l.to_prov;
        to_prov = goal_prov;
        from_x = l.to_x;
        from_y = l.to_y;
        to_x = target.x;
        to_y = target.y;
      })
        ∷ []
      else []

  legs_to : Graph → F64 → F64 → ℕ → ℕ → Target → List ℕ → List Leg
  unfolding legs_along
  legs_to g from_x from_y start_prov goal_prov target [] =
      final_leg from_x from_y start_prov goal_prov target none
  legs_to g from_x from_y start_prov goal_prov target (first ∷ rest) =
      let legs = legs_along g from_x from_y start_prov rest in
      legs ++ final_leg from_x from_y start_prov goal_prov target (last_leg none legs)

  abbrev path_of : Outcome → Option (List ℕ)
  path_of (found via) = some via
  path_of unreachable = none
  path_of exhausted = none

  -- `none` is ErrNoRoute.
  route_from_province : Graph → F64 → F64 → ℕ → Target → Option (List Leg)
  unfolding legs_to goal_province
  route_from_province g from_x from_y start_prov target =
      let goal_prov = goal_province target in
      let via =
        if start_prov == goal_prov
        then some (start_prov ∷ [])
        else path_of (astar fl g start_prov goal_prov) in
      if start_prov == 0 || goal_prov == 0 then none else elim via [
        | none ↦ none
        | some path ↦ some (legs_to g from_x from_y start_prov goal_prov target path)
      ]

  unfoldable pub route_from_edge : Graph → F64 → F64 → ℕ → ℕ → Target → Option (List Leg)
  unfolding route_from_province resolve_start_on_edge
  route_from_edge g from_x from_y edge_from edge_to target =
      route_from_province g from_x from_y (resolve_start_on_edge g from_x from_y edge_from edge_to)
        target

  unfoldable pub route : Graph → F64 → F64 → Target → Option (List Leg)
  unfolding route_from_province
  route g from_x from_y target =
      route_from_province g from_x from_y (nearest_province_id fl g from_x from_y) target
