-- ===== src/Match/Victory/Capitals.antt =====
-- When `checkVictory` ends a match: the capitals that have an owner, and the coalitions of their owners.
use rts_vibe_code.Prelude.{
  ◌≡◌, ◌≢◌, ◌↔◌, refl, sym, subst, true, not, ◌||◌, Option, none, some, List, [], ◌∷◌, ◌==◌,
  if◌then◌else◌, arith, nat_key, contains, inl, inr, ◌⊎◌, Bool-cases, ==_iff,
}
use rts_vibe_code.GoMap.{GoMap, lookup, insert}
use rts_vibe_code.Diplomacy.{Slot, no_slot, Registry}
use rts_vibe_code.Diplomacy.Queries.{coalition, coalition_id}
use rts_vibe_code.Match.{Province}
use rts_vibe_code.Match.Victory.{capital_slots_from, add_under, add_coalition, coalitions_from}

module _ (d : Registry) (all : List Slot) where
  -- Every slot of the list is led by `coal`.
  abbrev pub Under : Slot → List Slot → Type 0
  Under coal [] = Unit {0}
  Under coal (s ∷ rest) = (coalition_id d s all ≡ coal) × Under coal rest

  -- Every capital of the list that has an owner is held by the coalition that `coal` leads.
  abbrev pub Held : Slot → List Province → Type 0
  Held coal [] = Unit {0}
  Held coal (p ∷ rest) =
      ((not p.capital || p.owner == no_slot || coalition_id d p.owner all == coal) ≡ true)
      × Held coal rest

  Under-contains :
      (coal s : Slot) (slots : List Slot)
      → Under coal slots
      → contains s slots ≡ true
      → coalition_id d s all ≡ coal
  Under-contains coal s [] u h = ground arith
  Under-contains coal s (x ∷ rest) (e, u) h = elim (Bool-cases (x == s)) [
    | inl same ↦ rw (← (==_iff x s).0 same) e
    | inr other ↦ Under-contains coal s rest u (ground (arith, h, other))
  ]

  pub capitals-Under :
      (coal : Slot) (ps : List Province) (slots : List Slot)
      → Under coal (capital_slots_from ps slots) ↔ (Under coal slots × Held coal ps)
  unfolding capital_slots_from
  capitals-Under coal [] slots = (λ u. (u, tt), λ u. u.0)
  capitals-Under coal (p ∷ rest) slots =
      elim (Bool-cases (not p.capital || p.owner == no_slot || contains p.owner slots)) [
        | inl skip ↦
            let (to, from) = capitals-Under coal rest slots in
            rw skip
              (λ u. let (us, hs) = to u in (us, (skipped us skip, hs)), λ u. from (u.0, u.1.1))
        | inr keep ↦
            let (to, from) = capitals-Under coal rest (p.owner ∷ slots) in
            rw keep (
              λ u. let (us, hs) = to u in (us.1, (ground (arith, us.0), hs)),
              λ u. from ((ground (arith, keep, u.1.0), u.0), u.1.1),
            )
      ]
    where
      skipped :
          Under coal slots
          → (not p.capital || p.owner == no_slot || contains p.owner slots) ≡ true
          → (not p.capital || p.owner == no_slot || coalition_id d p.owner all == coal) ≡ true
      skipped us skip = elim (Bool-cases (contains p.owner slots)) [
        | inl there ↦ ground (arith, Under-contains coal p.owner slots us there)
        | inr missing ↦ ground (arith, skip, missing)
      ]

  abbrev IsPlural : GoMap Slot (List Slot) → Type 0
  IsPlural found =
      (x : Slot × List Slot) × (y : Slot × List Slot) × (rest : GoMap Slot (List Slot)) × (found
        ≡ x ∷ y ∷ rest)

  insert-IsPlural :
      (k : Slot) (v : List Slot) (a b : Slot × List Slot) (found : GoMap Slot (List Slot))
      → IsPlural (insert k v (a ∷ b ∷ found))
  unfolding insert
  insert-IsPlural k v (i, a) (j, b) found = elim (Bool-cases (i == k)) [
    | inl here ↦ rw here ((k, v), (j, b), found, refl)
    | inr on ↦ rw on (elim (Bool-cases (j == k)) [
      | inl there ↦ rw there ((i, a), (k, v), found, refl)
      | inr past ↦ rw past ((i, a), (j, b), insert k v found, refl)
    ])
  ]

  add_under-IsPlural :
      (k : Slot) (v : List Slot) (o : Option (List Slot)) (a b : Slot × List Slot)
      (found : GoMap Slot (List Slot))
      → IsPlural (add_under k v o (a ∷ b ∷ found))
  add_under-IsPlural k v none a b found = insert-IsPlural k v a b found
  add_under-IsPlural k v (some known) a b found = (a, b, found, refl)

  -- What the loop over the capitals' slots makes of two coalitions, and of one.
  coalitions_from-more :
      (slots : List Slot) (a b : Slot × List Slot) (found : GoMap Slot (List Slot))
      → IsPlural (coalitions_from d all slots (a ∷ b ∷ found))
  unfolding coalitions_from add_coalition
  coalitions_from-more [] a b found = (a, b, found, refl)
  coalitions_from-more (s ∷ slots) a b found =
      let leader = coalition_id d s all in
      let (x, y, rest, e) =
        add_under-IsPlural leader (coalition d s all) (lookup leader (a ∷ b ∷ found)) a b found in
      subst (λ f. IsPlural (coalitions_from d all slots f)) (sym e)
        (coalitions_from-more slots x y rest)

  add_coalition-one :
      (s coal : Slot) (members : List Slot)
      → add_coalition d all s ((coal, members) ∷ []) ≡ (
          if coal == coalition_id d s all
          then (coal, members) ∷ []
          else (coal, members) ∷ (coalition_id d s all, coalition d s all) ∷ [])
  unfolding add_coalition lookup insert
  add_coalition-one s coal members = ground arith

  pub coalitions_from-one :
      (slots : List Slot) (coal : Slot) (members : List Slot)
      → (Under coal slots
          × (coalitions_from d all slots ((coal, members) ∷ []) ≡ (coal, members) ∷ []))
        ⊎ (¬ Under coal slots × IsPlural (coalitions_from d all slots ((coal, members) ∷ [])))
  unfolding coalitions_from
  coalitions_from-one [] coal members = inl (tt, refl)
  coalitions_from-one (s ∷ slots) coal members = elim (Bool-cases (coal == coalition_id d s all)) [
    | inl same ↦
        let one = add_coalition-one s coal members in
        rw (one, same)
          (elim (coalitions_from-one slots coal members) [
            | inl (u, e) ↦ inl ((sym ((==_iff coal (coalition_id d s all)).0 same), u), e)
            | inr (n, more) ↦ inr ((λ u. n u.1), more)
          ])
    | inr other ↦
        let one = add_coalition-one s coal members in
        let apart : coalition_id d s all ≢ coal = ground (arith, other) in
        rw (one, other)
          (inr (
            (λ u. apart u.0),
            coalitions_from-more slots (coal, members) (coalition_id d s all, coalition d s all) [],
          ))
  ]
