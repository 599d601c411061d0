-- ===== src/Diplomacy/Coalition/Reach.antt =====
-- The search of `Coalition` and the chains of alliances.
use rts_vibe_code.Prelude.{
  ℕ, zero, suc, ◌+◌, ◌≡◌, refl, subst, true, false, List, [], ◌∷◌, arith, ◌==◌, Bool-cases, inl,
  inr, length, contains, ◌↔◌, ==_iff, ==_refl,
}
use rts_vibe_code.Diplomacy.{Slot, Registry}
use rts_vibe_code.Diplomacy.Queries.{
  Search, visit, expand, search_from, coalition_search, coalition,
}
use rts_vibe_code.Diplomacy.Coalition.{
  allied, Linked, self, ally, Within, Within-self, coalition_search-ends,
}

module _ (r : Registry) (all : List Slot) (slot : Slot) where
  -- What is visited is linked, and what is on the stack is visited.
  abbrev Sound : Search → Type 0
  Sound s =
      ((x : Slot) → contains x s.visited ≡ true → Linked r all slot x)
      × ((x : Slot) → contains x s.stack ≡ true → contains x s.visited ≡ true)

  add-Linked :
      (visited : List Slot) (a x : Slot)
      → Linked r all slot a
      → ((y : Slot) → contains y visited ≡ true → Linked r all slot y)
      → contains x (a ∷ visited) ≡ true
      → Linked r all slot x
  add-Linked visited a x l known h = elim (Bool-cases (a == x)) [
    | inl same ↦ subst (Linked r all slot) ((==_iff a x).0 same) l
    | inr other ↦ known x (ground arith)
  ]

  visit-Sound :
      (current other : Slot) (s : Search)
      → Linked r all slot current
      → contains other all ≡ true
      → Sound s
      → Sound (visit r current other s)
  unfolding visit
  visit-Sound current other s l there h = elim (Bool-cases (contains other s.visited)) [
    | inl old ↦ rw old h
    | inr new ↦ rw new (elim (Bool-cases (allied r current other)) [
      | inl friend ↦ rw friend (
        λ x. add-Linked s.visited other x (ally l friend there) h.0,
        λ x m. ground (arith, h.1 x),
      )
      | inr foe ↦ rw foe h
    ])
  ]

  expand-Sound :
      (current : Slot) (others : List Slot) (s : Search)
      → Linked r all slot current
      → Within others all
      → Sound s
      → Sound (expand r current others s)
  unfolding expand
  expand-Sound current [] s l w h = h
  expand-Sound current (other ∷ rest) s l w h =
      expand-Sound current rest (visit r current other s) l w.1
        (visit-Sound current other s l w.0 h)

  search_from-Sound :
      (fuel : ℕ) (visited stack : List Slot)
      → Sound (record { visited = visited; stack = stack })
      → Sound (search_from fuel r all visited stack)
  unfolding search_from
  search_from-Sound zero visited stack h = h
  search_from-Sound (suc fuel) visited [] h = h
  search_from-Sound (suc fuel) visited (c ∷ rest) h = search_from-Sound fuel _ _ (
      expand-Sound c all (record { visited = visited; stack = rest })
        (h.0 c (h.1 c (ground (arith, ==_refl c)))) (Within-self all)
        (h.0, λ x m. h.1 x (ground arith)))

  -- A turn of the inner loop forgets nothing, puts each new slot on the stack too, and sees the allies.
  record Grows (current : Slot) (others : List Slot) (s t : Search) : Type 0 where
    more : (x : Slot) → contains x s.visited ≡ true → contains x t.visited ≡ true
    fresh :
        (x : Slot)
        → contains x t.visited ≡ true
        → contains x t.stack ≡ false
        → (contains x s.visited ≡ true) × (contains x s.stack ≡ false)
    allies :
        (x : Slot)
        → contains x others ≡ true
        → allied r current x ≡ true
        → contains x t.visited ≡ true

  visit-more :
      (current other : Slot) (s : Search) (x : Slot)
      → contains x s.visited ≡ true
      → contains x (visit r current other s).visited ≡ true
  unfolding visit
  visit-more current other s x h = ground arith

  visit-fresh :
      (current other : Slot) (s : Search) (x : Slot)
      → contains x (visit r current other s).visited ≡ true
      → contains x (visit r current other s).stack ≡ false
      → (contains x s.visited ≡ true) × (contains x s.stack ≡ false)
  unfolding visit
  visit-fresh current other s x h k = ground arith

  visit-allies :
      (current other : Slot) (s : Search)
      → allied r current other ≡ true
      → contains other (visit r current other s).visited ≡ true
  unfolding visit
  visit-allies current other s h = ground (arith, ==_refl other)

  expand-Grows :
      (current : Slot) (others : List Slot) (s : Search)
      → Grows current others s (expand r current others s)
  unfolding expand
  expand-Grows current [] s = record {
    more = λ x h. h;
    fresh = λ x h k. (h, k);
    allies = λ x h k. absurd (cc);
  }
  expand-Grows current (other ∷ rest) s =
      let t = visit r current other s in
      let g = expand-Grows current rest t in
      record {
        more = λ x h. g.more x (visit-more current other s x h);
        fresh = λ x h k. let (h', k') = g.fresh x h k in visit-fresh current other s x h' k';
        allies = λ x h k. elim (Bool-cases (other == x)) [
          | inl same ↦
              let e = (==_iff other x).0 same in
              g.more x (ground (arith, visit-allies current other s))
          | inr differ ↦ g.allies x (ground arith) k
        ];
      }

  abbrev Closed : List Slot → List Slot → Type 0
  Closed visited stack =
      (a b : Slot)
      → contains a visited ≡ true
      → contains a stack ≡ false
      → allied r a b ≡ true
      → contains b all ≡ true
      → contains b visited ≡ true

  expand-Closed :
      (c : Slot) (visited rest : List Slot)
      → Closed visited (c ∷ rest)
      → let s = expand r c all (record { visited = visited; stack = rest }) in
        Closed s.visited s.stack
  expand-Closed c visited rest h a b va ka ab mb =
      let g = expand-Grows c all (record { visited = visited; stack = rest }) in
      let (va', ka') = g.fresh a va ka in
      elim (Bool-cases (c == a)) [
        | inl same ↦ g.allies b mb (rw ((==_iff c a).0 same) ab)
        | inr differ ↦ g.more b (h a b va' (ground arith) ab mb)
      ]

  search_from-Closed :
      (fuel : ℕ) (visited stack : List Slot)
      → Closed visited stack
      → let s = search_from fuel r all visited stack in Closed s.visited s.stack
  unfolding search_from
  search_from-Closed zero visited stack h = h
  search_from-Closed (suc fuel) visited [] h = h
  search_from-Closed (suc fuel) visited (c ∷ rest) h =
      search_from-Closed fuel _ _ (expand-Closed c visited rest h)

  search_from-more :
      (fuel : ℕ) (visited stack : List Slot) (x : Slot)
      → contains x visited ≡ true
      → contains x (search_from fuel r all visited stack).visited ≡ true
  unfolding search_from
  search_from-more zero visited stack x h = h
  search_from-more (suc fuel) visited [] x h = h
  search_from-more (suc fuel) visited (c ∷ rest) x h =
      search_from-more fuel _ _ x
        ((expand-Grows c all (record { visited = visited; stack = rest })).more x h)

  coalition_self : contains slot (coalition r slot all) ≡ true
  unfolding coalition coalition_search
  coalition_self =
      search_from-more (length all + 1) (slot ∷ []) (slot ∷ []) slot (ground (arith, ==_refl slot))

  coalition-Closed :
      (a b : Slot)
      → contains a (coalition r slot all) ≡ true
      → allied r a b ≡ true
      → contains b all ≡ true
      → contains b (coalition r slot all) ≡ true
  unfolding coalition coalition_search
  coalition-Closed a b va =
      search_from-Closed (length all + 1) (slot ∷ []) (slot ∷ []) (λ x y v k. absurd (cc)) a b va
        (rw (coalition_search-ends r slot all) refl)

  contains_of_Linked : {x : Slot} → Linked r all slot x → contains x (coalition r slot all) ≡ true
  contains_of_Linked self = coalition_self
  contains_of_Linked (ally {a = a} {b = b} l ab mb) =
      coalition-Closed a b (contains_of_Linked l) ab mb

  Linked-of_contains : (x : Slot) → contains x (coalition r slot all) ≡ true → Linked r all slot x
  unfolding coalition coalition_search
  Linked-of_contains x h =
      (search_from-Sound (length all + 1) (slot ∷ []) (slot ∷ [])
          (λ y m. add-Linked [] slot y self (λ z k. absurd (cc)) m, λ y m. m)).0
        x h

-- The coalition of a slot is the set of the slots that a chain of alliances within the match reaches
-- from it.
pub contains-coalition :
    (r : Registry) (slot : Slot) (all : List Slot) (x : Slot)
    → (contains x (coalition r slot all) ≡ true) ↔ Linked r all slot x
contains-coalition r slot all x = (Linked-of_contains r all slot x, contains_of_Linked r all slot)
