-- ===== src/Heap/Order.antt =====
-- Sifting and the order of the heap. The items are compared by a rank.
use rts_vibe_code.Prelude.{
  ℕ, zero, suc, ◌+◌, ◌-◌, ◌*◌, ◌/◌, ◌≤◌, ◌<◌, ◌≡◌, ◌≢◌, ◌⊎◌, refl, Bool, true, not, ◌&&◌, ◌||◌,
  Option, none, some, List, arith, ltb, leb, ◌==◌, if◌then◌else◌, length, get_elem?, inl, inr, ◌∙◌,
  Bool-cases,
}
use rts_vibe_code.Heap.{swap, less_at, up, down, smaller_child}
use rts_vibe_code.Heap.Array.{count, length-swap, get_elem?-swap, count-swap, get_elem?-some}

abbrev pub parent : ℕ → ℕ
parent k = (k - 1) / 2

module _ {ℓ} {A : Type ℓ} (rank : A → ℕ) where
  abbrev pub earlier : A → A → Bool
  earlier x y = ltb (rank x) (rank y)

  abbrev pub rank_or : Option A → ℕ
  rank_or none = 0
  rank_or (some x) = rank x

  abbrev pub at : List A → ℕ → ℕ
  at h i = rank_or (get_elem? h i)

  -- No item of the first `n` ranks below its parent.
  abbrev pub Ordered : List A → ℕ → Type 0
  Ordered h n = (k : ℕ) → 0 < k → k < n → at h (parent k) ≤ at h k

  -- As above, but for the item at `j`, which may rank below its parent.
  abbrev OrderedBut : List A → ℕ → ℕ → Type 0
  OrderedBut h j n =
      ((k : ℕ) → 0 < k → k < n → k ≢ j → at h (parent k) ≤ at h k)
      × ((k : ℕ) → 0 < k → k < n → 0 < j → parent k ≡ j → at h (parent j) ≤ at h k)

  -- As above, but for the item at `i`, which may rank above its children.
  abbrev pub OrderedBelow : List A → ℕ → ℕ → Type 0
  OrderedBelow h i n =
      ((k : ℕ) → 0 < k → k < n → parent k ≢ i → at h (parent k) ≤ at h k)
      × ((k : ℕ) → 0 < k → k < n → 0 < i → parent k ≡ i → at h (parent i) ≤ at h k)

  less_at_lem :
      (h : List A) (i j : ℕ)
      → i < length h
      → j < length h
      → less_at earlier h i j ≡ ltb (at h i) (at h j)
  less_at_lem h i j hi hj =
      let (x, ex) = get_elem?-some h i hi in let (y, ey) = get_elem?-some h j hj in rw (ex, ey)

  pub at-swap :
      (h : List A) (i j k : ℕ)
      → i < length h
      → j < length h
      → at (swap h i j) k ≡ (if j == k then at h i else if i == k then at h j else at h k)
  at-swap h i j k hi hj = rw (get_elem?-swap h i j k hi hj) (ground arith)

  up-step :
      (h : List A) (j n : ℕ)
      → 0 < j
      → j < n
      → n ≤ length h
      → at h j < at h (parent j)
      → OrderedBut h j n
      → OrderedBut (swap h (parent j) j) (parent j) n
  up-step h j n pos jn nl small (most, below) = (
    λ k k0 kn differ. ground (
      arith,
      at-swap h (parent j) j k (omega arith) (omega arith),
      at-swap h (parent j) j (parent k) (omega arith) (omega arith),
      most k k0 kn,
      below k k0 kn pos,
    ),
    λ k k0 kn i0 child. ground (
      arith,
      at-swap h (parent j) j k (omega arith) (omega arith),
      at-swap h (parent j) j (parent (parent j)) (omega arith) (omega arith),
      most k k0 kn,
      most (parent j) i0 (omega arith) (omega arith),
    ),
  )

  pub record Sifts (h h' : List A) : Type ℓ where
    pub size : length h' ≡ length h
    pub same : (p : A → Bool) → count p h' ≡ count p h

  pub up-Sifts : (fuel : ℕ) (h : List A) (j : ℕ) → j < length h → Sifts h (up earlier fuel h j)
  unfolding up
  up-Sifts zero h j jn = record { size = refl; same = λ p. refl }
  up-Sifts (suc fuel) h j jn =
      let i = (j - 1) / 2 in
      let in_range : i < length h = omega arith in
      let moved = length-swap h i j in_range jn in
      let next = up-Sifts fuel (swap h i j) i (omega arith) in
      elim (Bool-cases (i == j || not (less_at earlier h j i))) [
        | inl done ↦ rw done (record { size = refl; same = λ p. refl })
        | inr more ↦ rw more (record {
          size = omega (arith, next.size);
          same = λ p. omega (arith, next.same p, count-swap p h i j in_range jn);
        })
      ]

  pub up-Ordered :
      (fuel : ℕ) (h : List A) (j n : ℕ)
      → j < fuel
      → j < n
      → n ≤ length h
      → OrderedBut h j n
      → Ordered (up earlier fuel h j) n
  unfolding up
  up-Ordered zero h j n f jn nl inv = absurd (omega arith)
  up-Ordered (suc fuel) h j n f jn nl inv =
      let i = (j - 1) / 2 in
      let test = less_at_lem h j i (omega arith) (omega arith) in
      elim (Bool-cases (i == j || not (less_at earlier h j i))) [
        | inl done ↦ rw done (λ k k0 kn. ground (arith, test, inv.0 k k0 kn))
        | inr more ↦ rw more (
            up-Ordered fuel (swap h i j) i n (ground arith) (omega arith)
              (omega (arith, length-swap h i j (omega arith) (omega arith)))
              (up-step h j n (ground arith) jn nl (ground (arith, test)) inv))
      ]

  -- The child that `down` looks at: a child in range that ranks no higher than the other.
  smaller_child_lem :
      (h : List A) (i n : ℕ)
      → 2 * i + 1 < n
      → n ≤ length h
      → let j = smaller_child earlier h (2 * i + 1) n in
        (i < j)
        × (j < n)
        × (parent j ≡ i)
        × ((k : ℕ) → 0 < k → k < n → parent k ≡ i → at h j ≤ at h k)
  smaller_child_lem h i n hn nl =
      let j1 = 2 * i + 1 in
      elim (Bool-cases (ltb (j1 + 1) n && less_at earlier h (j1 + 1) j1)) [
        | inl right ↦ rw right (
          omega arith,
          ground arith,
          omega arith,
          λ k k0 kn child. ground (arith, less_at_lem h (j1 + 1) j1, only k k0 child),
        )
        | inr left ↦ rw left (
          omega arith,
          omega arith,
          omega arith,
          λ k k0 kn child. ground (arith, less_at_lem h (j1 + 1) j1, only k k0 child),
        )
      ]
    where
      only : (k : ℕ) → 0 < k → parent k ≡ i → (k ≡ 2 * i + 1) ⊎ (k ≡ 2 * i + 1 + 1)
      only k k0 child = ground arith

  down-step :
      (h : List A) (i j n : ℕ)
      → i < j
      → j < n
      → n ≤ length h
      → parent j ≡ i
      → ((k : ℕ) → 0 < k → k < n → parent k ≡ i → at h j ≤ at h k)
      → at h j < at h i
      → OrderedBelow h i n
      → OrderedBelow (swap h i j) j n
  down-step h i j n ij jn nl child least small (most, below) = (
    λ k k0 kn differ. ground (
      arith,
      at-swap h i j k (omega arith) (omega arith),
      at-swap h i j (parent k) (omega arith) (omega arith),
      most k k0 kn,
      below j (omega arith) jn,
      least k k0 kn,
    ),
    λ k k0 kn j0 kj. ground (
      arith,
      at-swap h i j k (omega arith) (omega arith),
      at-swap h i j (parent j) (omega arith) (omega arith),
      most k k0 kn,
    ),
  )

  pub down-Sifts :
      (fuel : ℕ) (h : List A) (i n : ℕ)
      → i < length h
      → n ≤ length h
      → Sifts h (down earlier fuel h i n)
  unfolding down
  down-Sifts zero h i n il nl = record { size = refl; same = λ p. refl }
  down-Sifts (suc fuel) h i n il nl =
      let j = smaller_child earlier h (2 * i + 1) n in
      elim (Bool-cases (leb n (2 * i + 1) || not (less_at earlier h j i))) [
        | inl done ↦ rw done (record { size = refl; same = λ p. refl })
        | inr more ↦
            let (_, jn, _, _) = smaller_child_lem h i n (ground arith) nl in
            let moved = length-swap h i j il (omega arith) in
            let next = down-Sifts fuel (swap h i j) j n (omega arith) (omega arith) in
            rw more (record {
              size = omega (arith, next.size);
              same = λ p. omega (arith, next.same p, count-swap p h i j il (omega arith));
            })
      ]

  -- `down` leaves what lies behind its bound.
  pub down-outside :
      (fuel : ℕ) (h : List A) (i n k : ℕ)
      → i < length h
      → n ≤ length h
      → n ≤ k
      → get_elem? (down earlier fuel h i n) k ≡ get_elem? h k
  unfolding down
  down-outside zero h i n k il nl nk = refl
  down-outside (suc fuel) h i n k il nl nk =
      let j = smaller_child earlier h (2 * i + 1) n in
      elim (Bool-cases (leb n (2 * i + 1) || not (less_at earlier h j i))) [
        | inl done ↦ rw done refl
        | inr more ↦
            let (ij, jn, _, _) = smaller_child_lem h i n (ground arith) nl in
            let moved = length-swap h i j il (omega arith) in
            rw more (
              down-outside fuel (swap h i j) j n k (omega arith) (omega arith) nk
              ∙ (rw (get_elem?-swap h i j k il (omega arith)) (ground arith)))
      ]

  pub down-Ordered :
      (fuel : ℕ) (h : List A) (i n : ℕ)
      → n < fuel + i
      → i < length h
      → n ≤ length h
      → OrderedBelow h i n
      → Ordered (down earlier fuel h i n) n
  unfolding down
  down-Ordered zero h i n f il nl inv = λ k k0 kn. inv.0 k k0 kn (omega arith)
  down-Ordered (suc fuel) h i n f il nl inv =
      let j = smaller_child earlier h (2 * i + 1) n in
      elim (Bool-cases (leb n (2 * i + 1) || not (less_at earlier h j i))) [
        | inl done ↦ rw done (λ k k0 kn. settled k k0 kn done)
        | inr more ↦
            let (ij, jn, child, least) = smaller_child_lem h i n (ground arith) nl in
            let test = less_at_lem h j i (omega arith) il in
            let moved = length-swap h i j il (omega arith) in
            rw more (
              down-Ordered fuel (swap h i j) j n (omega arith) (omega arith) (omega arith)
                (down-step h i j n ij jn nl child least (ground (arith, test)) inv))
      ]
    where
      settled :
          (k : ℕ)
          → 0 < k
          → k < n
          → (leb n (2 * i + 1) || not (less_at earlier h (smaller_child earlier h (2 * i + 1) n) i))
            ≡ true
          → at h (parent k) ≤ at h k
      settled k k0 kn done = elim (Bool-cases (leb n (2 * i + 1))) [
        | inl leaf ↦ inv.0 k k0 kn (ground arith)
        | inr inner ↦
            let (ij, jn, child, least) = smaller_child_lem h i n (ground arith) nl in
            ground (
              arith,
              inv.0 k k0 kn,
              least k k0 kn,
              less_at_lem h (smaller_child earlier h (2 * i + 1) n) i (omega arith) il,
            )
      ]
