-- ===== src/Pathing.antt =====
-- internal/domain/pathdom/graph.go: the movement graph of a map. Coordinates and lengths are float64, whose
-- operations are the parameter `fl`.
pub mod Snap
pub mod Search
pub mod Route
pub mod Treaties
use rts_vibe_code.Prelude.{
  ℕ, Bool, true, false, Option, none, some, List, [], ◌∷◌, ◌==◌, if◌then◌else◌, nat_key,
}
use rts_vibe_code.GoMap.{GoMap, lookup, insert}
use rts_vibe_code.Float64.{F64, Float64}
use rts_vibe_code.StaticMap.{Map, Province, Edge}

pub record Vec2 : Type 0 where
  pub x : F64
  pub y : F64

-- `from`, `to`, and the two centres.
pub record EdgeSeg : Type 0 where
  pub source : ℕ
  pub target : ℕ
  pub ax : F64
  pub ay : F64
  pub bx : F64
  pub by : F64

pub record Graph : Type 0 where
  pub m : Map
  pub coords : GoMap ℕ Vec2
  pub edges : List EdgeSeg

pub record Leg : Type 0 where
  pub from_prov : ℕ
  pub to_prov : ℕ
  pub from_x : F64
  pub from_y : F64
  pub to_x : F64
  pub to_y : F64

-- math.MaxFloat64 and 0.5, by their bits.
abbrev pub max_float : F64
max_float = 0x7fefffffffffffff

abbrev pub one_half : F64
one_half = 0x3fe0000000000000

coords_of : List Province → GoMap ℕ Vec2 → GoMap ℕ Vec2
coords_of [] coords = coords
coords_of (p ∷ rest) coords = coords_of rest (insert p.id (record { x = p.x; y = p.y }) coords)

abbrev seg_between : Edge → Option Vec2 → Option Vec2 → List EdgeSeg → List EdgeSeg
seg_between e (some a) (some b) segs =
    (record { source = e.source; target = e.target; ax = a.x; ay = a.y; bx = b.x; by = b.y }) ∷ segs
seg_between e _ _ segs = segs

segs_of : GoMap ℕ Vec2 → List Edge → List EdgeSeg
segs_of coords [] = []
segs_of coords (e ∷ rest) =
    seg_between e (lookup e.source coords) (lookup e.target coords) (segs_of coords rest)

unfoldable pub new_graph : Map → Graph
unfolding coords_of segs_of
new_graph m =
    let coords = coords_of m.provinces [] in
    record { m = m; coords = coords; edges = segs_of coords m.edges }

abbrev distance_of : Float64 → Option Vec2 → Option Vec2 → F64
distance_of fl (some a) (some b) = fl.hypot (fl.minus a.x b.x) (fl.minus a.y b.y)
distance_of fl _ _ = max_float

unfoldable pub dist : Float64 → Graph → ℕ → ℕ → F64
dist fl g a b = distance_of fl (lookup a g.coords) (lookup b g.coords)

abbrev pub or_zero : Float64 → Option Vec2 → Vec2
or_zero fl (some c) = c
or_zero fl none = record { x = fl.of_ℕ 0; y = fl.of_ℕ 0 }
