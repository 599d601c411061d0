-- ===== src/GoMap.antt =====
-- Go maps as association lists. A `range` loop goes through the list in its order; Go promises none,
-- and what is stated of a loop is stated for every list.
use rts_vibe_code.Prelude.{
  ◌≡◌, refl, Bool, true, false, Option, none, some, List, [], ◌∷◌, arith, Key, Bool-cases,
  if◌then◌else◌, inl, inr,
}

abbrev pub GoMap {ℓ κ} : Type ℓ → Type κ → Type (ℓ ⊔ κ)
GoMap K V = List (K × V)

module _ {ℓ κ} {K : Type ℓ} {V : Type κ} ⦃key : Key K⦄ where
  -- `v, ok := m[k]`
  unfoldable pub lookup : K → GoMap K V → Option V
  lookup k [] = none
  lookup k ((j, v) ∷ m) = if key.same j k then some v else lookup k m

  -- `m[k] = v`
  unfoldable pub insert : K → V → GoMap K V → GoMap K V
  insert k v [] = (k, v) ∷ []
  insert k v ((j, w) ∷ m) = if key.same j k then (k, v) ∷ m else (j, w) ∷ insert k v m

  -- `delete(m, k)`
  unfoldable pub delete : K → GoMap K V → GoMap K V
  delete k [] = []
  delete k ((j, w) ∷ m) = if key.same j k then delete k m else (j, w) ∷ delete k m

  pub lookup-insert :
      (k j : K) (v : V) (m : GoMap K V)
      → lookup j (insert k v m) ≡ (if key.same k j then some v else lookup j m)
  unfolding lookup insert
  lookup-insert k j v [] = refl
  lookup-insert k j v ((i, w) ∷ m) =
      ground (arith, key.same_iff k j, key.same_iff i k, key.same_iff i j, lookup-insert k j v m)

  pub lookup-delete :
      (k j : K) (m : GoMap K V)
      → lookup j (delete k m) ≡ (if key.same k j then none else lookup j m)
  unfolding lookup delete
  lookup-delete k j [] = elim (Bool-cases (key.same k j)) [ inl e ↦ rw e | inr e ↦ rw e ]
  lookup-delete k j ((i, w) ∷ m) =
      ground (arith, key.same_iff k j, key.same_iff i k, key.same_iff i j, lookup-delete k j m)

  -- `for k := range m { if p(k) { delete(m, k); changed = true } }`: the map left, and `changed`.
  pub delete_where : (K → Bool) → GoMap K V → GoMap K V × Bool
  delete_where p [] = ([], false)
  delete_where p ((j, w) ∷ m) =
      let (kept, changed) = delete_where p m in
      if p j then (kept, true) else ((j, w) ∷ kept, changed)

  pub lookup-delete_where :
      (p : K → Bool) (k : K) (m : GoMap K V)
      → lookup k (delete_where p m).0 ≡ (if p k then none else lookup k m)
  unfolding lookup delete_where
  lookup-delete_where p k [] = elim (Bool-cases (p k)) [ inl e ↦ rw e | inr e ↦ rw e ]
  lookup-delete_where p k ((j, w) ∷ m) = ground (arith, key.same_iff j k, lookup-delete_where p k m)
