-- ===== src/Visibility/Privacy.antt =====
-- What the snapshot of a slot holds of what others own: `Filtered` of internal/domain/visibility/batch.go.
use rts_vibe_code.Prelude.{
  ℕ, ◌≡◌, ◌≢◌, refl, Bool, true, false, ◌&&◌, ◌||◌, Option, none, some, List, [], ◌∷◌, ◌==◌,
  if◌then◌else◌, arith, contains, nat_key,
}
use rts_vibe_code.GoMap.{lookup}
use rts_vibe_code.Float64.{Float64}
use rts_vibe_code.Economy.{Resources}
use rts_vibe_code.Diplomacy.{Slot, no_slot, Time, Pact}
use rts_vibe_code.Match.{GameUnit, Province, Building, RecruitOrder, BuildOrder, values}
use rts_vibe_code.Visibility.Wire.{
  unit_to_wire, may_read, recruits_of, constructions_of, queue_state, is_party, pacts_among,
  pacts_for, all_pacts,
}
use rts_vibe_code.Visibility.Batch.{
  Batch, visible, ensure_shared, provinces_in, units_in, buildings_in, own_bank, view_of, filtered,
}

abbrev pub every {ℓ} : {A : Type ℓ} → (A → Bool) → List A → Bool
every p [] = true
every p (x ∷ xs) = p x && every p xs

every-if {ℓ} :
    {A : Type ℓ} (p : A → Bool) (keep : Bool) (x : A) (xs : List A)
    → (keep ≡ true → p x ≡ true)
    → every p xs ≡ true
    → every p (if keep then x ∷ xs else xs) ≡ true
every-if p true x xs here rest = rw (here refl) rest
every-if p false x xs here rest = rest

module _ (slot : Slot) (real : slot ≢ no_slot) where
  own_recruits :
      (os : List RecruitOrder) → every (λ o. o.owner == slot) (recruits_of slot os) ≡ true
  unfolding recruits_of
  own_recruits [] = refl
  own_recruits (o ∷ rest) =
      every-if _ (may_read slot o.owner_slot) _ _ (λ h. ground (arith, h, real)) (own_recruits rest)

  own_constructions :
      (os : List BuildOrder) → every (λ o. o.owner == slot) (constructions_of slot os) ≡ true
  unfolding constructions_of
  own_constructions [] = refl
  own_constructions (o ∷ rest) =
      every-if _ (may_read slot o.owner_slot) _ _ (λ h. ground (arith, h, real))
        (own_constructions rest)

  own_pacts :
      (ps : List Pact)
      → every (λ p. slot == p.granter || slot == p.grantee) (pacts_among slot ps) ≡ true
  unfolding pacts_among
  own_pacts [] = refl
  own_pacts (p ∷ rest) =
      every-if _ (is_party slot p) _ _ (λ h. ground (arith, h, real)) (own_pacts rest)

seen_provinces :
    (seen : List ℕ) (ps : List Province)
    → every (λ p. contains p.id seen) (provinces_in seen ps) ≡ true
unfolding provinces_in
seen_provinces seen [] = refl
seen_provinces seen (p ∷ rest) =
    every-if _ (contains p.id seen) _ _ (λ h. h) (seen_provinces seen rest)

seen_units :
    (fl : Float64) (seen : List ℕ) (at : Time) (us : List GameUnit)
    → every (λ u. contains u.id seen) (units_in fl seen at us) ≡ true
unfolding units_in unit_to_wire
seen_units fl seen at [] = refl
seen_units fl seen at (u ∷ rest) =
    every-if _ (contains u.id seen) _ _ (λ h. h) (seen_units fl seen at rest)

seen_buildings :
    (seen : List ℕ) (bs : List Building)
    → every (λ b. contains b.province seen) (buildings_in seen bs) ≡ true
unfolding buildings_in
seen_buildings seen [] = refl
seen_buildings seen (b ∷ rest) =
    every-if _ (contains b.province seen) _ _ (λ h. h) (seen_buildings seen rest)

own_resources :
    (slot : Slot) (bank : Option Resources) → every (λ e. e.0 == slot) (own_bank slot bank) ≡ true
own_resources slot none = refl
own_resources slot (some bank) = ground arith

-- The snapshot of a slot holds the provinces, the units and the buildings of what it sees only, no bank and
-- no order but its own, and no pact to which it is not a party.
pub filtered_private :
    (fl : Float64) (b : Batch) (slot : Slot)
    → slot ≢ no_slot
    → let v = (visible fl b slot).1 in
      let s = (filtered fl b slot).1 in
      (every (λ p. contains p.id v.provinces) s.provinces ≡ true)
      × (every (λ u. contains u.id v.units) s.units ≡ true)
      × (every (λ b. contains b.province v.provinces) s.buildings ≡ true)
      × (every (λ e. e.0 == slot) s.resources ≡ true)
      × (every (λ o. o.owner == slot) s.queues.recruits ≡ true)
      × (every (λ o. o.owner == slot) s.queues.constructions ≡ true)
      × (every (λ p. slot == p.granter || slot == p.grantee) s.pacts ≡ true)
unfolding filtered view_of queue_state pacts_for
filtered_private fl b slot real =
    let (b1, v) = visible fl b slot in
    let (b2, shared) = ensure_shared b1 in
    let m = b2.game in
    (
      seen_provinces v.provinces (values m.provinces),
      seen_units fl v.units b2.at (values m.units),
      seen_buildings v.provinces m.buildings,
      own_resources slot (lookup slot m.resources),
      own_recruits slot real (values m.next_recruit),
      own_constructions slot real (values m.next_build),
      own_pacts slot real (all_pacts m),
    )
