-- ===== src/Pathing/Snap.antt =====
-- internal/domain/pathdom/snap.go: the place of the graph that a click means.
use rts_vibe_code.Prelude.{ℕ, ◌&&◌, List, [], ◌∷◌, ◌==◌, if◌then◌else◌, nat_key}
use rts_vibe_code.GoMap.{GoMap, lookup}
use rts_vibe_code.Float64.{F64, Float64}
use rts_vibe_code.Match.{Target, target_node, target_edge}
use rts_vibe_code.Pathing.{Graph, Vec2, EdgeSeg, max_float, or_zero}

-- The point, its parameter on the segment and its distance.
pub record Projection : Type 0 where
  pub x : F64
  pub y : F64
  pub t : F64
  pub dist : F64

module _ (fl : Float64) where
  open fl use {of_ℕ, plus, minus, times, over, hypot, lt, le, eq}

  -- The id with the least distance so far, and that distance.
  nearest_from : F64 → F64 → GoMap ℕ Vec2 → ℕ → F64 → ℕ
  nearest_from x y [] best best_d = best
  nearest_from x y ((id, c) ∷ rest) best best_d =
      let d = hypot (minus x c.x) (minus y c.y) in
      let closer = lt d best_d in
      nearest_from x y rest (if closer then id else best) (if closer then d else best_d)

  pub nearest_province_id : Graph → F64 → F64 → ℕ
  unfolding nearest_from
  nearest_province_id g x y = nearest_from x y g.coords 0 max_float

  abbrev clamp_unit : F64 → F64
  clamp_unit t = if lt t (of_ℕ 0) then of_ℕ 0 else if lt (of_ℕ 1) t then of_ℕ 1 else t

  project_segment : F64 → F64 → F64 → F64 → F64 → F64 → Projection
  project_segment px py ax ay bx by =
      let dx = minus bx ax in
      let dy = minus by ay in
      let len2 = plus (times dx dx) (times dy dy) in
      let t = clamp_unit (over (plus (times (minus px ax) dx) (times (minus py ay) dy)) len2) in
      let x = plus ax (times t dx) in
      let y = plus ay (times t dy) in
      if eq len2 (of_ℕ 0)
      then record { x = ax; y = ay; t = of_ℕ 0; dist = hypot (minus px ax) (minus py ay) }
      else record { x = x; y = y; t = t; dist = hypot (minus px x) (minus py y) }

  -- The first loop of `SnapTarget`: the nearest centre within the snap radius, 24.
  snap_node : F64 → F64 → GoMap ℕ Vec2 → ℕ → F64 → ℕ
  snap_node x y [] best best_d = best
  snap_node x y ((id, c) ∷ rest) best best_d =
      let d = hypot (minus x c.x) (minus y c.y) in
      let closer = le d (of_ℕ 24) && lt d best_d in
      snap_node x y rest (if closer then id else best) (if closer then d else best_d)

  pub record Snapped : Type 0 where
    pub source : ℕ
    pub target : ℕ
    pub point : Projection

  -- The second loop: the nearest edge within 20, and the distance.
  snap_edge : F64 → F64 → List EdgeSeg → Snapped → Snapped
  unfolding project_segment
  snap_edge x y [] best = best
  snap_edge x y (e ∷ rest) best =
      let p = project_segment x y e.ax e.ay e.bx e.by in
      snap_edge x y rest (
        if le p.dist (of_ℕ 20) && lt p.dist best.point.dist
        then record { source = e.source; target = e.target; point = p }
        else best)

  abbrev node_target : Graph → ℕ → Target
  node_target g id =
      let c = or_zero fl (lookup id g.coords) in
      record {
        kind = target_node;
        province = id;
        edge_from = 0;
        edge_to = 0;
        x = c.x;
        y = c.y;
        t = of_ℕ 0;
      }

  abbrev edge_target : Snapped → Target
  edge_target s = record {
    kind = target_edge;
    province = 0;
    edge_from = s.source;
    edge_to = s.target;
    x = s.point.x;
    y = s.point.y;
    t = s.point.t;
  }

  unfoldable pub snap_target : Graph → F64 → F64 → Target
  unfolding snap_node snap_edge nearest_province_id
  snap_target g x y =
      let best_node = snap_node x y g.coords 0 (of_ℕ 25) in
      let edge = snap_edge x y g.edges (record {
        source = 0;
        target = 0;
        point = record { x = x; y = y; t = of_ℕ 0; dist = of_ℕ 21 };
      }) in
      if best_node == 0
      then (if le edge.point.dist (of_ℕ 20)
          then edge_target edge
          else node_target g (nearest_province_id g x y))
      else node_target g best_node
