-- ===== src/Visibility/Grid.antt =====
-- internal/domain/visibility/spatial.go: the circles bucketed on a uniform grid.
use rts_vibe_code.Prelude.{
  ℕ, zero, suc, ◌+◌, ◌-◌, ◌*◌, Bool, false, ◌||◌, Option, none, some, List, [], ◌∷◌, ◌++◌, leb,
  if◌then◌else◌, get_elem?,
}
use rts_vibe_code.Prelude.Int.{ℤ, pos, negsuc, ◌+ℤ◌}
use rts_vibe_code.Float64.{F64, Float64}
use rts_vibe_code.Pathing.{max_float}

pub record VisionCircle : Type 0 where
  pub x : F64
  pub y : F64
  pub r2 : F64

abbrev pub Point : Type 0
Point = F64 × F64

-- `cells`, in the order of the slice: by rows.
pub record SpatialIndex : Type 0 where
  pub cell_size : F64
  pub min_x : F64
  pub min_y : F64
  pub cols : ℕ
  pub rows : ℕ
  pub cells : List (List ℕ)

-- The bounds of the two loops that measure the circles and the points.
record Bounds : Type 0 where
  min_x : F64
  min_y : F64
  max_x : F64
  max_y : F64
  max_r : F64

-- -math.MaxFloat64, by its bits.
abbrev lowest_float : F64
lowest_float = 0xffefffffffffffff

unfoldable pub repeat_empty : ℕ → List (List ℕ)
repeat_empty zero = []
repeat_empty (suc n) = [] ∷ repeat_empty n

-- `cells[k] = append(cells[k], i)`
unfoldable pub append_at : ℕ → ℕ → List (List ℕ) → List (List ℕ)
append_at k i [] = []
append_at zero i (cell ∷ rest) = (cell ++ i ∷ []) ∷ rest
append_at (suc k) i (cell ∷ rest) = cell ∷ append_at k i rest

-- The numbers from `a` on, `n` of them.
unfoldable pub count_up : ℕ → ℕ → List ℕ
count_up a zero = []
count_up a (suc n) = a ∷ count_up (suc a) n

-- `for k := a; k <= b; k++` behind the two guards: `a` is at least 0, and `b` below `limit`.
abbrev pub between : ℤ → ℤ → ℕ → List ℕ
between (pos a) (pos b) limit =
    let b' = if leb limit b then limit - 1 else b in count_up a (suc b' - a)
between (negsuc a) (pos b) limit =
    let b' = if leb limit b then limit - 1 else b in count_up 0 (suc b')
between a (negsuc b) limit = []

unfoldable pub append_column : ℕ → ℕ → ℕ → List ℕ → List (List ℕ) → List (List ℕ)
append_column cols i col [] cells = cells
append_column cols i col (row ∷ rows) cells =
    append_column cols i col rows (append_at (col + row * cols) i cells)

unfoldable pub append_block : ℕ → ℕ → List ℕ → List ℕ → List (List ℕ) → List (List ℕ)
unfolding append_column append_at
append_block cols i [] rows cells = cells
append_block cols i (col ∷ rest) rows cells =
    append_block cols i rest rows (append_column cols i col rows cells)

-- At least 1.
abbrev at_least_one : ℤ → ℕ
at_least_one (pos (suc n)) = suc n
at_least_one _ = 1

abbrev pub cell_or_empty : Option (List ℕ) → List ℕ
cell_or_empty none = []
cell_or_empty (some cell) = cell

module _ (fl : Float64) where
  open fl use {of_ℕ, plus, minus, times, over, square_root, lt, le, to_int}

  abbrev lower : F64 → F64 → F64
  lower a b = if lt a b then a else b

  abbrev upper : F64 → F64 → F64
  upper a b = if lt b a then a else b

  unfoldable measure_circles : List VisionCircle → Bounds → Bounds
  measure_circles [] b = b
  measure_circles (c ∷ rest) b =
      let r = square_root c.r2 in
      measure_circles rest (record {
        min_x = lower (minus c.x r) b.min_x;
        min_y = lower (minus c.y r) b.min_y;
        max_x = upper (plus c.x r) b.max_x;
        max_y = upper (plus c.y r) b.max_y;
        max_r = upper r b.max_r;
      })

  unfoldable measure_points : List Point → Bounds → Bounds
  measure_points [] b = b
  measure_points ((x, y) ∷ rest) b = measure_points rest (record {
    min_x = lower x b.min_x;
    min_y = lower y b.min_y;
    max_x = upper x b.max_x;
    max_y = upper y b.max_y;
    max_r = b.max_r;
  })

  abbrev no_bounds : Bounds
  no_bounds = record {
    min_x = max_float;
    min_y = max_float;
    max_x = lowest_float;
    max_y = lowest_float;
    max_r = of_ℕ 0;
  }

  -- The loop that puts the circles from the `i`-th on into the cells.
  unfoldable pub fill_cells : SpatialIndex → ℕ → List VisionCircle → List (List ℕ) → List (List ℕ)
  unfolding append_block
  fill_cells idx i [] cells = cells
  fill_cells idx i (c ∷ rest) cells =
      let r = square_root c.r2 in
      let cell : F64 → F64 → ℤ = λ a least. to_int (over (minus a least) idx.cell_size) in
      fill_cells idx (suc i) rest (
        append_block idx.cols i
          (between (cell (minus c.x r) idx.min_x) (cell (plus c.x r) idx.min_x) idx.cols)
          (between (cell (minus c.y r) idx.min_y) (cell (plus c.y r) idx.min_y) idx.rows) cells)

  -- The index over these bounds, with empty cells.
  abbrev empty_index : Bounds → SpatialIndex
  empty_index b =
      let cell_size = if lt b.max_r (of_ℕ 1) then of_ℕ 1 else b.max_r in
      let span : F64 → F64 → F64 =
        λ low high. let s = minus high low in if lt s cell_size then cell_size else s in
      let cols = at_least_one (to_int (over (span b.min_x b.max_x) cell_size) +ℤ pos 1) in
      let rows = at_least_one (to_int (over (span b.min_y b.max_y) cell_size) +ℤ pos 1) in
      record {
        cell_size = cell_size;
        min_x = b.min_x;
        min_y = b.min_y;
        cols = cols;
        rows = rows;
        cells = repeat_empty (cols * rows);
      }

  -- `none` is the nil index of no circles. (With a circle the second test for a nil index, on no points and
  -- no bounds, asks whether the bounds are still those of no circles.)
  unfoldable pub new_spatial_index : List VisionCircle → List Point → Option SpatialIndex
  unfolding measure_circles measure_points fill_cells repeat_empty
  new_spatial_index [] points = none
  new_spatial_index (c ∷ circles) points =
      let b = measure_points points (measure_circles (c ∷ circles) no_bounds) in
      let idx = empty_index b in
      let index = some (record idx { cells = fill_cells idx 0 (c ∷ circles) idx.cells }) in
      elim points [ [] ↦ if fl.eq b.min_x max_float then none else index | p ∷ rest ↦ index ]

  unfoldable pub covers : VisionCircle → Point → Bool
  covers c (px, py) =
      let dx = minus px c.x in let dy = minus py c.y in le (plus (times dx dx) (times dy dy)) c.r2

  abbrev pub covers_at : Option VisionCircle → Point → Bool
  covers_at none p = false
  covers_at (some c) p = covers c p

  -- The circles of one cell, by their places.
  unfoldable pub any_in_cell : List VisionCircle → Point → List ℕ → Bool
  any_in_cell circles p [] = false
  any_in_cell circles p (i ∷ rest) = covers_at (get_elem? circles i) p || any_in_cell circles p rest

  -- The circles of the cell in this column and row, if the grid has it.
  abbrev pub in_cell : SpatialIndex → List VisionCircle → Point → ℤ → ℤ → Bool
  in_cell idx circles p (pos c) (pos r) =
      let found = any_in_cell circles p (cell_or_empty (get_elem? idx.cells (c + r * idx.cols))) in
      if leb idx.cols c || leb idx.rows r then false else found
  in_cell idx circles p _ _ = false

  abbrev pub in_column : SpatialIndex → List VisionCircle → Point → ℤ → ℤ → Bool
  in_column idx circles p c r =
      in_cell idx circles p c (r +ℤ negsuc 0)
      || (in_cell idx circles p c r || in_cell idx circles p c (r +ℤ pos 1))

  -- The cell of the point, and the eight around it.
  unfoldable pub within_index : SpatialIndex → List VisionCircle → Point → Bool
  unfolding any_in_cell covers
  within_index idx circles (px, py) =
      let c = to_int (over (minus px idx.min_x) idx.cell_size) in
      let r = to_int (over (minus py idx.min_y) idx.cell_size) in
      in_column idx circles (px, py) (c +ℤ negsuc 0) r
      || (in_column idx circles (px, py) c r || in_column idx circles (px, py) (c +ℤ pos 1) r)

  unfoldable pub within : Option SpatialIndex → List VisionCircle → Point → Bool
  unfolding within_index
  within none circles p = false
  within (some idx) circles p = within_index idx circles p
