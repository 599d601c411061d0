-- ===== src/Visibility/Sight.antt =====
-- Why a slot sees what it sees: `For` of internal/domain/visibility/visibility.go.
use rts_vibe_code.Prelude.{
  ℕ, zero, suc, ◌+◌, ◌*◌, ◌≡◌, refl, sym, ap, ◌∙◌, ◌++◌, Bool, true, false, ◌&&◌, ◌||◌, Option,
  none, some, List, [], ◌∷◌, ◌==◌, if◌then◌else◌, arith, contains, Bool-cases, inl, inr, nat_key,
  get_elem?,
}
use rts_vibe_code.Prelude.Int.{ℤ, pos, negsuc, ◌+ℤ◌}
use rts_vibe_code.Float64.{F64, Float64}
use rts_vibe_code.Diplomacy.{Slot, Time}
use rts_vibe_code.StaticMap.{Map, add_once, neighbors}
use rts_vibe_code.Match.{Match, GameUnit, Province, values}
use rts_vibe_code.Match.Position.{position_at}
use rts_vibe_code.Visibility.Grid.{
  VisionCircle, Point, SpatialIndex, covers, covers_at, any_in_cell, in_cell, in_column,
  within_index, within, cell_or_empty,
}
use rts_vibe_code.Visibility.{
  province_circles, unit_circles, owned_province_view_radius, unit_view_radius, add_all,
  owned_provinces, owned_units, lit_provinces, lit_units, circles_of, seen_by, seen,
}

abbrev pub any {ℓ} : {A : Type ℓ} → (A → Bool) → List A → Bool
any p [] = false
any p (x ∷ xs) = p x || any p xs

-- Whether some circle covers the point, one circle after the other.
abbrev pub lit_by : Float64 → List VisionCircle → Point → Bool
lit_by fl circles p = any (λ c. covers fl c p) circles

any-get_elem? {ℓ} :
    {A : Type ℓ} (p : A → Bool) (xs : List A) (i : ℕ) (x : A)
    → get_elem? xs i ≡ some x
    → p x ≡ true
    → any p xs ≡ true
any-get_elem? p [] i x e h = absurd (cc)
any-get_elem? p (y ∷ ys) zero x e h = let same : y ≡ x = cc (e) in rw (same, h) refl
any-get_elem? p (y ∷ ys) (suc i) x e h = ground (arith, any-get_elem? p ys i x e h)

module _ (fl : Float64) (circles : List VisionCircle) (p : Point) where
  covers_at-lit_by :
      (i : ℕ) (c : Option VisionCircle)
      → get_elem? circles i ≡ c
      → covers_at fl c p ≡ true
      → lit_by fl circles p ≡ true
  covers_at-lit_by i none e h = absurd (cc)
  covers_at-lit_by i (some c) e h = any-get_elem? (λ c. covers fl c p) circles i c e h

  any_in_cell-lit_by :
      (cell : List ℕ) → any_in_cell fl circles p cell ≡ true → lit_by fl circles p ≡ true
  unfolding any_in_cell
  any_in_cell-lit_by [] h = absurd (cc)
  any_in_cell-lit_by (i ∷ rest) h = elim (Bool-cases (covers_at fl (get_elem? circles i) p)) [
    | inl here ↦ covers_at-lit_by i (get_elem? circles i) refl here
    | inr not_here ↦ any_in_cell-lit_by rest (ground (arith, h, not_here))
  ]

  in_cell-lit_by :
      (idx : SpatialIndex) (c r : ℤ)
      → in_cell fl idx circles p c r ≡ true
      → lit_by fl circles p ≡ true
  in_cell-lit_by idx (pos c) (pos r) h =
      any_in_cell-lit_by (cell_or_empty (get_elem? idx.cells (c + r * idx.cols)))
        (ground (arith, h))
  in_cell-lit_by idx (negsuc c) r h = ground (arith, h)
  in_cell-lit_by idx (pos c) (negsuc r) h = ground (arith, h)

  in_column-lit_by :
      (idx : SpatialIndex) (c r : ℤ)
      → in_column fl idx circles p c r ≡ true
      → lit_by fl circles p ≡ true
  in_column-lit_by idx c r h = elim (Bool-cases (in_cell fl idx circles p c (r +ℤ negsuc 0))) [
    | inl a ↦ in_cell-lit_by idx c (r +ℤ negsuc 0) a
    | inr a ↦ elim (Bool-cases (in_cell fl idx circles p c r)) [
      | inl b ↦ in_cell-lit_by idx c r b
      | inr b ↦ in_cell-lit_by idx c (r +ℤ pos 1) (rw (a, b) at h)
    ]
  ]

  around-lit_by :
      (idx : SpatialIndex) (c r : ℤ)
      → (in_column fl idx circles p (c +ℤ negsuc 0) r
          || (in_column fl idx circles p c r || in_column fl idx circles p (c +ℤ pos 1) r))
        ≡ true
      → lit_by fl circles p ≡ true
  around-lit_by idx c r h = elim (Bool-cases (in_column fl idx circles p (c +ℤ negsuc 0) r)) [
    | inl a ↦ in_column-lit_by idx (c +ℤ negsuc 0) r a
    | inr a ↦ elim (Bool-cases (in_column fl idx circles p c r)) [
      | inl b ↦ in_column-lit_by idx c r b
      | inr b ↦ in_column-lit_by idx (c +ℤ pos 1) r (rw (a, b) at h)
    ]
  ]

-- The index finds only points that a circle covers.
within-lit_by :
    (fl : Float64) (idx : Option SpatialIndex) (circles : List VisionCircle) (p : Point)
    → within fl idx circles p ≡ true
    → lit_by fl circles p ≡ true
unfolding within within_index
within-lit_by fl none circles p h = absurd (cc)
within-lit_by fl (some idx) circles (px, py) h =
    around-lit_by fl circles (px, py) idx
      (fl.to_int (fl.over (fl.minus px idx.min_x) idx.cell_size))
      (fl.to_int (fl.over (fl.minus py idx.min_y) idx.cell_size)) h

contains-same :
    (x a : ℕ) (seen : List ℕ) → contains a seen ≡ true → contains x seen ≡ a == x || contains x seen
contains-same x a seen h = elim (Bool-cases (a == x)) [
  | inl e ↦ (let same : a ≡ x = ground (arith, e) in rw (e, sym same, h) refl)
  | inr e ↦ rw (e) refl
]

contains-add_once :
    (x a : ℕ) (seen : List ℕ) → contains x (add_once a seen) ≡ a == x || contains x seen
contains-add_once x a seen = elim (Bool-cases (contains a seen)) [
  | inl h ↦ rw (h) (contains-same x a seen h)
  | inr h ↦ rw (h) refl
]

-- One turn of each of the loops: what was seen, and this one if it is to be.
pub contains-add_if :
    (x a : ℕ) (keep : Bool) (seen : List ℕ)
    → contains x (if keep then add_once a seen else seen) ≡ (a == x && keep) || contains x seen
contains-add_if x a true seen = grind (arith, contains-add_once)
contains-add_if x a false seen = grind arith

contains-new_if :
    (x a : ℕ) (keep : Bool) (seen : List ℕ)
    → contains x (if contains a seen then seen else if keep then a ∷ seen else seen)
      ≡ (a == x && keep) || contains x seen
contains-new_if x a true seen = grind (arith, contains-add_once)
contains-new_if x a false seen = grind arith

contains-owned_units :
    (x : ℕ) (cs : List Slot) (us : List GameUnit) (seen : List ℕ)
    → contains x (owned_units cs us seen)
      ≡ any (λ u. u.id == x && contains u.owner_slot cs) us || contains x seen
unfolding owned_units
contains-owned_units x cs [] seen = refl
contains-owned_units x cs (u ∷ rest) seen =
    grind (
      arith,
      contains-owned_units x cs rest,
      contains-add_if x u.id (contains u.owner_slot cs) seen,
    )

module _ (fl : Float64) (x : ℕ) (lit : Point → Bool) where
  contains-lit_units :
      (us : List GameUnit) (at : Time) (seen : List ℕ)
      → contains x (lit_units fl lit us at seen)
        ≡ any (λ u. u.id == x && lit (position_at fl u at)) us || contains x seen
  unfolding lit_units
  contains-lit_units [] at seen = refl
  contains-lit_units (u ∷ rest) at seen =
      grind
        (arith, contains-lit_units rest at, contains-new_if x u.id (lit (position_at fl u at)) seen)

  contains-lit_provinces :
      (ps : List Province) (seen : List ℕ)
      → contains x (lit_provinces fl lit ps seen)
        ≡ any (λ p. p.id == x && lit (p.x, p.y)) ps || contains x seen
  unfolding lit_provinces
  contains-lit_provinces [] seen = refl
  contains-lit_provinces (p ∷ rest) seen =
      grind (arith, contains-lit_provinces rest, contains-new_if x p.id (lit (p.x, p.y)) seen)

contains-add_all :
    (x : ℕ) (more seen : List ℕ)
    → contains x (add_all more seen) ≡ contains x more || contains x seen
unfolding add_all
contains-add_all x [] seen = refl
contains-add_all x (a ∷ rest) seen =
    grind (arith, contains-add_all x rest, contains-add_once x a seen)

contains-owned_provinces :
    (map : Map) (x : ℕ) (cs : List Slot) (ps : List Province) (seen : List ℕ)
    → contains x (owned_provinces map cs ps seen)
      ≡ any (λ p. contains p.owner cs && (p.id == x || contains x (neighbors map p.id))) ps
        || contains x seen
unfolding owned_provinces
contains-owned_provinces map x cs [] seen = refl
contains-owned_provinces map x cs (p ∷ rest) seen = elim (Bool-cases (contains p.owner cs)) [
  | inl h ↦ grind (
    arith,
    h,
    contains-owned_provinces map x cs rest,
    contains-add_all x (neighbors map p.id),
    contains-add_once x p.id seen,
  )
  | inr h ↦ grind (arith, h, contains-owned_provinces map x cs rest)
]

any_mono {ℓ} :
    {A : Type ℓ} (p q : A → Bool) (xs : List A)
    → ((x : A) → p x ≡ true → q x ≡ true)
    → any p xs ≡ true
    → any q xs ≡ true
any_mono p q [] sub h = absurd (cc)
any_mono p q (x ∷ xs) sub h = elim (Bool-cases (p x)) [
  | inl here ↦ rw (sub x here) refl
  | inr not_here ↦ grind (arith, any_mono p q xs sub, not_here, h)
]

any-|| {ℓ} :
    {A : Type ℓ} (p q : A → Bool) (xs : List A)
    → any p xs || any q xs ≡ true
    → any (λ x. p x || q x) xs ≡ true
any-|| p q [] h = h
any-|| p q (x ∷ xs) h = grind (arith, any-|| p q xs)

module _ (fl : Float64) (cs : List Slot) (at : Time) (x : ℕ) where
  abbrev is_owned : GameUnit → Bool
  is_owned u = u.id == x && contains u.owner_slot cs

  abbrev is_lit : (Point → Bool) → GameUnit → Bool
  is_lit lit u = u.id == x && lit (position_at fl u at)

  abbrev is_seen : (Point → Bool) → GameUnit → Bool
  is_seen lit u = u.id == x && (contains u.owner_slot cs || lit (position_at fl u at))

  owned-is_seen :
      (lit : Point → Bool) (us : List GameUnit)
      → any is_owned us || false ≡ true
      → any (is_seen lit) us ≡ true
  owned-is_seen lit us h =
      any_mono is_owned (is_seen lit) us (λ u e. ground (arith, e)) (ground (arith, h))

  within-is_seen :
      (idx : Option SpatialIndex) (circles : List VisionCircle) (us : List GameUnit)
      → any (is_lit (within fl idx circles)) us || (any is_owned us || false) ≡ true
      → any (is_seen (lit_by fl circles)) us ≡ true
  within-is_seen idx circles us h =
      any_mono (λ u. is_lit (within fl idx circles) u || is_owned u) (is_seen (lit_by fl circles))
        us (λ u e. grind (arith, e, within-lit_by fl idx circles (position_at fl u at)))
        (any-|| (is_lit (within fl idx circles)) is_owned us (ground (arith, h)))

within-lit_provinces :
    (fl : Float64) (x : ℕ) (idx : Option SpatialIndex) (circles : List VisionCircle)
    (ps : List Province)
    → any (λ p. p.id == x && within fl idx circles (p.x, p.y)) ps ≡ true
    → any (λ p. p.id == x && lit_by fl circles (p.x, p.y)) ps ≡ true
within-lit_provinces fl x idx circles ps =
    any_mono (λ p. p.id == x && within fl idx circles (p.x, p.y))
      (λ p. p.id == x && lit_by fl circles (p.x, p.y)) ps
      (λ p e. grind (arith, e, within-lit_by fl idx circles (p.x, p.y)))

-- Either of two, the one of them only if another thing holds.
either : (a b c : Bool) → (a ≡ true → c ≡ true) → a || (b || false) ≡ true → b || c ≡ true
either true true c f h = refl
either true false c f h = f refl
either false b c f h = ground (arith, h)

either_mono : (a b c : Bool) → (b ≡ true → c ≡ true) → a || b ≡ true → a || c ≡ true
either_mono true b c f h = refl
either_mono false b c f h = f h

module _ (fl : Float64) (m : Match) (contributors : List Slot) (at : Time) where
  -- Whether a point is no farther from another than the radius.
  abbrev pub reaches : F64 × F64 → ℕ → Point → Bool
  reaches (x, y) radius p =
      covers fl (record { x = x; y = y; r2 = fl.times (fl.of_ℕ radius) (fl.of_ℕ radius) }) p

  -- A province, or a unit, of a contributor from which the point is seen.
  abbrev pub province_reaches : Point → Province → Bool
  province_reaches p q =
      contains q.owner contributors && reaches (q.x, q.y) owned_province_view_radius p

  abbrev pub unit_reaches : Point → GameUnit → Bool
  unit_reaches p u =
      contains u.owner_slot contributors
      && reaches (position_at fl u at) (unit_view_radius u.unit_type) p

  -- Whether some province or some unit of a contributor sees the point.
  abbrev pub lit_point : Point → Bool
  lit_point p =
      any (province_reaches p) (values m.provinces) || any (unit_reaches p) (values m.units)

  any-province_circles :
      (p : Point) (ps : List Province) (more : List VisionCircle)
      → lit_by fl (province_circles fl contributors ps ++ more) p
        ≡ any (province_reaches p) ps || lit_by fl more p
  unfolding province_circles
  any-province_circles p [] more = refl
  any-province_circles p (q ∷ rest) more = elim (Bool-cases (contains q.owner contributors)) [
    | inl h ↦ rw (h) (grind (arith, any-province_circles p rest more))
    | inr h ↦ rw (h) (any-province_circles p rest more)
  ]

  any-unit_circles :
      (p : Point) (us : List GameUnit)
      → lit_by fl (unit_circles fl contributors us at) p ≡ any (unit_reaches p) us
  unfolding unit_circles
  any-unit_circles p [] = refl
  any-unit_circles p (u ∷ rest) = elim (Bool-cases (contains u.owner_slot contributors)) [
    | inl h ↦ rw (h) (grind (arith, any-unit_circles p rest))
    | inr h ↦ rw (h) (any-unit_circles p rest)
  ]

  lit_by-circles_of : (p : Point) → lit_by fl (circles_of fl m contributors at) p ≡ lit_point p
  unfolding circles_of
  lit_by-circles_of p =
      any-province_circles p (values m.provinces) (unit_circles fl contributors (values m.units) at)
      ∙ ap (λ b. any (province_reaches p) (values m.provinces) || b)
          (any-unit_circles p (values m.units))

  -- Of a contributor, or in a circle.
  abbrev pub unit_in_sight : GameUnit → Bool
  unit_in_sight u = contains u.owner_slot contributors || lit_point (position_at fl u at)

  -- Of a contributor, and the province itself or a neighbour of it.
  abbrev pub owned_near : ℕ → Province → Bool
  owned_near x p =
      contains p.owner contributors && (p.id == x || contains x (neighbors m.static_map p.id))

  -- In a circle, or of a contributor or next to a province of one.
  abbrev pub province_in_sight : ℕ → Bool
  province_in_sight x =
      any (owned_near x) (values m.provinces)
      || any (λ p. p.id == x && lit_point (p.x, p.y)) (values m.provinces)

  seen_by_units :
      (x : ℕ) (circles : List VisionCircle)
      → contains x (seen_by fl m contributors at circles).1 ≡ true
      → any
          (λ u.
            u.id == x
            && (contains u.owner_slot contributors || lit_by fl circles (position_at fl u at)))
          (values m.units)
        ≡ true
  seen_by_units x [] h =
      owned-is_seen fl contributors at x (lit_by fl []) (values m.units)
        (rw (contains-owned_units x contributors (values m.units) []) at h)
  seen_by_units x (c ∷ circles) h =
      within-is_seen fl contributors at x _ (c ∷ circles) (values m.units) (
        rw
          (
            contains-lit_units fl x _ (values m.units) at _,
            contains-owned_units x contributors (values m.units) [],
          )
          at h)

  seen_by_provinces :
      (x : ℕ) (circles : List VisionCircle)
      → contains x (seen_by fl m contributors at circles).0 ≡ true
      → any (owned_near x) (values m.provinces)
          || any (λ p. p.id == x && lit_by fl circles (p.x, p.y)) (values m.provinces)
        ≡ true
  seen_by_provinces x [] h =
      grind (arith, h, contains-owned_provinces m.static_map x contributors (values m.provinces) [])
  seen_by_provinces x (c ∷ circles) h =
      either _ _ _ (within-lit_provinces fl x _ (c ∷ circles) (values m.provinces)) (
        rw
          (
            contains-lit_provinces fl x _ (values m.provinces) _,
            contains-owned_provinces m.static_map x contributors (values m.provinces) [],
          )
          at h)

  own_units_seen :
      (x : ℕ) (circles : List VisionCircle)
      → any (λ u. u.id == x && contains u.owner_slot contributors) (values m.units) ≡ true
      → contains x (seen_by fl m contributors at circles).1 ≡ true
  own_units_seen x [] h = rw (contains-owned_units x contributors (values m.units) [], h) refl
  own_units_seen x (c ∷ circles) h =
      rw
        (
          contains-lit_units fl x _ (values m.units) at _,
          contains-owned_units x contributors (values m.units) [],
          h,
        )
        (ground arith)

  own_provinces_seen :
      (x : ℕ) (circles : List VisionCircle)
      → any (owned_near x) (values m.provinces) ≡ true
      → contains x (seen_by fl m contributors at circles).0 ≡ true
  own_provinces_seen x [] h =
      rw (contains-owned_provinces m.static_map x contributors (values m.provinces) [], h) refl
  own_provinces_seen x (c ∷ circles) h =
      rw
        (
          contains-lit_provinces fl x _ (values m.provinces) _,
          contains-owned_provinces m.static_map x contributors (values m.provinces) [],
          h,
        )
        (ground arith)

  -- Whatever is visible is there for a reason, and what contributors own is visible: a visible unit is a
  -- contributor's or stands within the view radius of a unit or a province that a contributor owns, a
  -- visible province is a contributor's, the neighbour of one, or lies within such a radius; every unit of a contributor is visible,
  -- and every province of one with its neighbours.
  pub seen_explained :
      (x : ℕ)
      → (contains x (seen fl m contributors at).1 ≡ true
          → any (λ u. u.id == x && unit_in_sight u) (values m.units) ≡ true)
        × (contains x (seen fl m contributors at).0 ≡ true → province_in_sight x ≡ true)
        × (any (λ u. u.id == x && contains u.owner_slot contributors) (values m.units) ≡ true
            → contains x (seen fl m contributors at).1 ≡ true)
        × (any (owned_near x) (values m.provinces) ≡ true
            → contains x (seen fl m contributors at).0 ≡ true)
  unfolding seen
  seen_explained x =
      let circles = circles_of fl m contributors at in
      (
        λ h.
            any_mono
              (λ u.
                u.id == x
                && (contains u.owner_slot contributors || lit_by fl circles (position_at fl u at)))
              (λ u. u.id == x && unit_in_sight u) (values m.units)
              (λ u e. rw (← lit_by-circles_of (position_at fl u at)) e) (seen_by_units x circles h),
        λ h.
            either_mono _ _ _
              (any_mono (λ p. p.id == x && lit_by fl circles (p.x, p.y))
                (λ p. p.id == x && lit_point (p.x, p.y)) (values m.provinces)
                (λ p e. rw (← lit_by-circles_of (p.x, p.y)) e))
              (seen_by_provinces x circles h),
        own_units_seen x circles,
        own_provinces_seen x circles,
      )
