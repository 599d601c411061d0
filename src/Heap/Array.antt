-- ===== src/Heap/Array.antt =====
-- Reading, writing and exchanging the items of a slice.
use rts_vibe_code.Prelude.{
  ℕ, zero, suc, ◌+◌, ◌<◌, ◌≡◌, refl, ap, Bool, some, List, [], ◌∷◌, ◌++◌, arith, ◌==◌,
  if◌then◌else◌, length, get_elem?,
}
use rts_vibe_code.Heap.{set, swap, split_last}

module _ {ℓ} {A : Type ℓ} where
  -- How many items pass a test: two slices with the same counts hold the same items.
  abbrev pub count : (A → Bool) → List A → ℕ
  count p [] = 0
  count p (x ∷ xs) = let n = count p xs in if p x then suc n else n

  abbrev pub one : (A → Bool) → A → ℕ
  one p x = if p x then 1 else 0

  pub count-append : (p : A → Bool) (xs ys : List A) → count p (xs ++ ys) ≡ count p xs + count p ys
  count-append p [] ys = omega arith
  count-append p (x ∷ xs) ys = ground (arith, count-append p xs ys)

  pub length-set : (xs : List A) (i : ℕ) (v : A) → length (set xs i v) ≡ length xs
  length-set [] i v = refl
  length-set (x ∷ xs) zero v = refl
  length-set (x ∷ xs) (suc i) v = ap suc (length-set xs i v)

  pub get_elem?-set :
      (xs : List A) (i k : ℕ) (v : A)
      → i < length xs
      → get_elem? (set xs i v) k ≡ (if i == k then some v else get_elem? xs k)
  get_elem?-set [] i k v h = absurd (omega arith)
  get_elem?-set (x ∷ xs) zero zero v h = refl
  get_elem?-set (x ∷ xs) zero (suc k) v h = ground arith
  get_elem?-set (x ∷ xs) (suc i) zero v h = ground arith
  get_elem?-set (x ∷ xs) (suc i) (suc k) v h = ground (arith, get_elem?-set xs i k v)

  pub get_elem?-some : (xs : List A) (i : ℕ) → i < length xs → (x : A) × (get_elem? xs i ≡ some x)
  get_elem?-some [] i h = absurd (omega arith)
  get_elem?-some (x ∷ xs) zero h = (x, refl)
  get_elem?-some (x ∷ xs) (suc i) h = get_elem?-some xs i (omega arith)

  pub count-set :
      (p : A → Bool) (xs : List A) (i : ℕ) (old v : A)
      → get_elem? xs i ≡ some old
      → count p (set xs i v) + one p old ≡ count p xs + one p v
  count-set p [] i old v h = absurd (cc)
  count-set p (x ∷ xs) zero old v h = ground arith
  count-set p (x ∷ xs) (suc i) old v h = ground (arith, count-set p xs i old v)

  -- The exchange, where both places are in range.
  pub swap_eq :
      (h : List A) (i j : ℕ) (x y : A)
      → get_elem? h i ≡ some x
      → get_elem? h j ≡ some y
      → swap h i j ≡ set (set h i y) j x
  unfolding swap
  swap_eq h i j x y ex ey = rw (ex, ey)

  pub length-swap :
      (h : List A) (i j : ℕ) → i < length h → j < length h → length (swap h i j) ≡ length h
  length-swap h i j hi hj =
      let (x, ex) = get_elem?-some h i hi in
      let (y, ey) = get_elem?-some h j hj in
      rw (swap_eq h i j x y ex ey) (omega (arith, length-set (set h i y) j x, length-set h i y))

  pub get_elem?-swap :
      (h : List A) (i j k : ℕ)
      → i < length h
      → j < length h
      → get_elem? (swap h i j) k
        ≡ (if j == k then get_elem? h i else if i == k then get_elem? h j else get_elem? h k)
  get_elem?-swap h i j k hi hj =
      let (x, ex) = get_elem?-some h i hi in
      let (y, ey) = get_elem?-some h j hj in
      rw
        (
          swap_eq h i j x y ex ey,
          ex,
          ey,
          get_elem?-set (set h i y) j k x (omega (arith, length-set h i y)),
        )
        (rw (get_elem?-set h i k y hi) refl)

  pub count-swap :
      (p : A → Bool) (h : List A) (i j : ℕ)
      → i < length h
      → j < length h
      → count p (swap h i j) ≡ count p h
  count-swap p h i j hi hj =
      let (x, ex) = get_elem?-some h i hi in
      let (y, ey) = get_elem?-some h j hj in
      rw (swap_eq h i j x y ex ey) (
        ground
          (arith, count-set p h i x y ex, count-set p (set h i y) j y x, get_elem?-set h i j y hi))

  -- Taking the last item off.
  pub split_last_lem :
      (h : List A)
      → 0 < length h
      → (e : A) × (init : List A) × (split_last h ≡ some (e, init)) × (h ≡ init ++ e ∷ [])
  unfolding split_last
  split_last_lem [] h = absurd (omega arith)
  split_last_lem (x ∷ []) h = (x, [], refl, refl)
  split_last_lem (x ∷ y ∷ rest) h =
      let (e, init, s, a) = split_last_lem (y ∷ rest) (omega arith) in
      (e, x ∷ init, rw (s, split_last), ap (◌∷◌ x) a)

  pub get_elem?-append_left :
      (xs ys : List A) (i : ℕ) → i < length xs → get_elem? (xs ++ ys) i ≡ get_elem? xs i
  get_elem?-append_left [] ys i h = absurd (omega arith)
  get_elem?-append_left (x ∷ xs) ys zero h = refl
  get_elem?-append_left (x ∷ xs) ys (suc i) h = get_elem?-append_left xs ys i (omega arith)

  pub get_elem?-append_last : (xs : List A) (y : A) → get_elem? (xs ++ y ∷ []) (length xs) ≡ some y
  get_elem?-append_last [] y = refl
  get_elem?-append_last (x ∷ xs) y = get_elem?-append_last xs y

  pub lt_of_get_elem? : (xs : List A) (k : ℕ) {x : A} → get_elem? xs k ≡ some x → k < length xs
  lt_of_get_elem? [] k h = absurd (cc)
  lt_of_get_elem? (x ∷ xs) zero h = omega arith
  lt_of_get_elem? (x ∷ xs) (suc k) h = omega (arith, lt_of_get_elem? xs k h)
