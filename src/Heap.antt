-- ===== src/Heap.antt =====
-- The binary heap of Go's standard package container/heap, as timeline.go and route.go use it: `up` and
-- `down` sift an item of the slice, with fuel for their rounds. The slice is a list.
pub mod Array
pub mod Order
pub mod Queue
use rts_vibe_code.Prelude.{
  ℕ, zero, suc, ◌+◌, ◌-◌, ◌*◌, ◌/◌, Bool, true, false, not, ◌&&◌, ◌||◌, Option, none, some, List,
  [], ◌∷◌, ◌++◌, ltb, leb, ◌==◌, if◌then◌else◌, length, get_elem?,
}

module _ {ℓ} {A : Type ℓ} where
  -- A write out of bounds, which the heap never makes, changes nothing.
  abbrev pub set : List A → ℕ → A → List A
  set [] i v = []
  set (x ∷ xs) zero v = v ∷ xs
  set (x ∷ xs) (suc i) v = x ∷ set xs i v

  abbrev set? : List A → ℕ → Option A → List A
  set? xs i none = xs
  set? xs i (some v) = set xs i v

  -- `h[i], h[j] = h[j], h[i]`
  pub swap : List A → ℕ → ℕ → List A
  swap h i j = set? (set? h i (get_elem? h j)) j (get_elem? h i)

  -- `h[:len(h)-1]` with its last item.
  pub split_last : List A → Option (A × List A)
  split_last [] = none
  split_last (x ∷ []) = some (x, [])
  split_last (x ∷ y ∷ rest) = elim (split_last (y ∷ rest)) [
    | none ↦ none
    | some (e, init) ↦ some (e, x ∷ init)
  ]

  module _ (less : A → A → Bool) where
    abbrev less? : Option A → Option A → Bool
    less? (some x) (some y) = less x y
    less? _ _ = false

    abbrev pub less_at : List A → ℕ → ℕ → Bool
    less_at h i j = less? (get_elem? h i) (get_elem? h j)

    pub up : ℕ → List A → ℕ → List A
    up zero h j = h
    up (suc fuel) h j =
        let i = (j - 1) / 2 in
        let next = up fuel (swap h i j) i in if i == j || not (less_at h j i) then h else next

    abbrev pub smaller_child : List A → ℕ → ℕ → ℕ
    smaller_child h j1 n = if ltb (j1 + 1) n && less_at h (j1 + 1) j1 then j1 + 1 else j1

    pub down : ℕ → List A → ℕ → ℕ → List A
    down zero h i n = h
    down (suc fuel) h i n =
        let j = smaller_child h (2 * i + 1) n in
        let next = down fuel (swap h i j) j n in
        if leb n (2 * i + 1) || not (less_at h j i) then h else next

    unfoldable pub push : List A → A → List A
    unfolding up
    push h x = up (length h + 1) (h ++ x ∷ []) (length h)

    unfoldable pub pop : List A → Option (A × List A)
    unfolding down
    pop h = let n = length h - 1 in split_last (down (n + 1) (swap h 0 n) 0 n)

    -- Whether `down` moves the item at `i`.
    abbrev sinks : List A → ℕ → ℕ → Bool
    sinks h i n = not (leb n (2 * i + 1)) && less_at h (smaller_child h (2 * i + 1) n) i

    -- `heap.Fix`
    unfoldable pub fix : List A → ℕ → List A
    unfolding up down
    fix h i = let n = length h in if sinks h i n then down (n + 1) h i n else up (i + 1) h i
