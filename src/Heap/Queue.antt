-- ===== src/Heap/Queue.antt =====
-- The heap as a priority queue: `push` and `pop`.
use rts_vibe_code.Prelude.{
  ℕ, zero, suc, ◌+◌, ◌-◌, ◌≤◌, ◌<◌, ◌≡◌, sym, ap, ◌∙◌, Bool, some, List, [], ◌∷◌, ◌++◌, arith,
  length, get_elem?, ==_refl, length-append,
}
use rts_vibe_code.Heap.{swap, down, push, pop}
use rts_vibe_code.Heap.Array.{
  count, one, count-append, length-swap, get_elem?-swap, count-swap, split_last_lem,
  get_elem?-append_left, get_elem?-append_last,
}
use rts_vibe_code.Heap.Order.{
  parent, earlier, rank_or, at, Ordered, OrderedBelow, Sifts, at-swap, up-Sifts, up-Ordered,
  down-Sifts, down-outside, down-Ordered,
}

module _ {ℓ} {A : Type ℓ} (rank : A → ℕ) where
  -- The slice is a heap.
  abbrev pub IsHeap : List A → Type 0
  IsHeap h = Ordered rank h (length h)

  root_le :
      (fuel : ℕ) (h : List A) (k : ℕ)
      → k < fuel
      → IsHeap h
      → k < length h
      → at rank h 0 ≤ at rank h k
  root_le zero h k f o kl = absurd (omega arith)
  root_le (suc fuel) h zero f o kl = omega arith
  root_le (suc fuel) h (suc k) f o kl = omega (
    arith,
    root_le fuel h (parent (suc k)) (omega arith) o (omega arith),
    o (suc k) (omega arith) kl,
  )

  -- `push` keeps the heap and adds the item.
  pub push-IsHeap : (h : List A) (x : A) → IsHeap h → IsHeap (push (earlier rank) h x)
  unfolding push
  push-IsHeap h x o =
      let grown = length-append h (x ∷ []) in
      let sifted = up-Sifts rank (length h + 1) (h ++ x ∷ []) (length h) (omega arith) in
      rw (sifted.size) (
        up-Ordered rank (length h + 1) (h ++ x ∷ []) (length h) (length (h ++ x ∷ [])) (omega arith)
          (omega arith) (omega arith)
          (
            λ k k0 kn differ. ground (
              arith,
              get_elem?-append_left h (x ∷ []) k (omega arith),
              get_elem?-append_left h (x ∷ []) (parent k) (omega arith),
              o k k0 (omega arith),
            ),
            λ k k0 kn j0 child. absurd (omega arith),
          ))

  pub count-push :
      (h : List A) (x : A) (p : A → Bool) → count p (push (earlier rank) h x) ≡ count p h + one p x
  unfolding push
  count-push h x p =
      let sifted =
        up-Sifts rank (length h + 1) (h ++ x ∷ []) (length h)
          (omega (arith, length-append h (x ∷ []))) in
      sifted.same p ∙ count-append p h (x ∷ []) ∙ (ground arith)

  pub length-push : (h : List A) (x : A) → length (push (earlier rank) h x) ≡ length h + 1
  unfolding push
  length-push h x =
      let sifted =
        up-Sifts rank (length h + 1) (h ++ x ∷ []) (length h)
          (omega (arith, length-append h (x ∷ []))) in
      omega (arith, sifted.size, length-append h (x ∷ []))

  -- What `pop` gives on a heap: an item of the least rank, and a heap of the others.
  pub record Pops (h : List A) (e : A) (rest : List A) : Type ℓ where
    pub result : pop (earlier rank) h ≡ some (e, rest)
    pub first : get_elem? h 0 ≡ some e
    pub least : (k : ℕ) → k < length h → rank e ≤ at rank h k
    pub heap : IsHeap rest
    pub same : (p : A → Bool) → count p h ≡ count p rest + one p e
    pub size : length h ≡ length rest + 1

  module _ (h : List A) (o : IsHeap h) (some_left : 0 < length h) where
    abbrev last_index : ℕ
    last_index = length h - 1

    abbrev sunk : List A
    sunk = down (earlier rank) (last_index + 1) (swap h 0 last_index) 0 last_index

    size_swapped : length (swap h 0 last_index) ≡ length h
    size_swapped = length-swap h 0 last_index some_left (omega arith)

    below_root : OrderedBelow rank (swap h 0 last_index) 0 last_index
    below_root = (
      λ k k0 kn inner. ground (
        arith,
        at-swap rank h 0 last_index k some_left (omega arith),
        at-swap rank h 0 last_index (parent k) some_left (omega arith),
        o k k0 (omega arith),
      ),
      λ k k0 kn i0 child. absurd (omega arith),
    )

    sunk-Ordered : Ordered rank sunk last_index
    sunk-Ordered =
        down-Ordered rank (last_index + 1) (swap h 0 last_index) 0 last_index (omega arith)
          (omega (arith, size_swapped)) (omega (arith, size_swapped)) below_root

    sunk-Sifts : Sifts rank (swap h 0 last_index) sunk
    sunk-Sifts =
        down-Sifts rank (last_index + 1) (swap h 0 last_index) 0 last_index
          (omega (arith, size_swapped)) (omega (arith, size_swapped))

    last_of_sunk : get_elem? sunk last_index ≡ get_elem? h 0
    last_of_sunk =
        down-outside rank (last_index + 1) (swap h 0 last_index) 0 last_index last_index
          (omega (arith, size_swapped)) (omega (arith, size_swapped)) (omega arith)
        ∙ get_elem?-swap h 0 last_index last_index some_left (omega arith)
        ∙ (ground (arith, ==_refl last_index))

    module _ (e : A) (init : List A) (whole : sunk ≡ init ++ e ∷ []) where
      size_left : length init ≡ last_index
      size_left =
          let size : length sunk ≡ length (init ++ e ∷ []) = ap length whole in
          omega (arith, size, length-append init (e ∷ []), sunk-Sifts.size, size_swapped)

      first_popped : get_elem? h 0 ≡ some e
      first_popped =
          let last = ap (λ xs. get_elem? xs last_index) whole in
          let there = ap (get_elem? (init ++ e ∷ [])) size_left in
          sym last_of_sunk ∙ last ∙ sym there ∙ get_elem?-append_last init e

      least_popped : (k : ℕ) → k < length h → rank e ≤ at rank h k
      least_popped k kl = ground (arith, root_le (suc k) h k (omega arith) o kl, first_popped)

      at_left : (k : ℕ) → k < last_index → at rank sunk k ≡ at rank init k
      at_left k kl =
          ap (λ xs. at rank xs k) whole
          ∙ ap (rank_or rank) (get_elem?-append_left init (e ∷ []) k (omega (arith, size_left)))

      IsHeap-left : IsHeap init
      IsHeap-left k k0 kn = omega (
        arith,
        size_left,
        sunk-Ordered k k0 (omega (arith, size_left)),
        at_left k (omega (arith, size_left)),
        at_left (parent k) (omega (arith, size_left)),
      )

      same_left : (p : A → Bool) → count p h ≡ count p init + one p e
      same_left p =
          let parts = ap (count p) whole ∙ count-append p init (e ∷ []) in
          ground
            (arith, parts, sunk-Sifts.same p, count-swap p h 0 last_index some_left (omega arith))

    -- `pop` takes an item of the least rank off a heap that is not empty, and leaves a heap.
    pub pop-Pops : (e : A) × (rest : List A) × Pops h e rest
    unfolding pop
    pop-Pops =
        let (e, init, result, whole) =
          split_last_lem sunk (omega (arith, sunk-Sifts.size, size_swapped)) in
        (
          e,
          init,
          record {
            result = result;
            first = first_popped e init whole;
            least = least_popped e init whole;
            heap = IsHeap-left e init whole;
            same = same_left e init whole;
            size = omega (arith, size_left e init whole);
          },
        )
