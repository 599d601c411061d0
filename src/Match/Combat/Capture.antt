-- ===== src/Match/Combat/Capture.antt =====
-- The end of `resolveProvince`: `captureIfOwnerChanged` of internal/domain/matchdom/combat.go.
use rts_vibe_code.Prelude.{
  ℕ, List, [], ◌∷◌, ◌≡◌, ◌≢◌, refl, sym, ap, false, ◌∙◌, not, ◌&&◌, some, ◌==◌, if◌then◌else◌,
  arith, nat_key, inl, inr, ◌⊎◌, Bool-cases, ==_iff,
}
use rts_vibe_code.GoMap.{lookup, lookup-insert}
use rts_vibe_code.Diplomacy.{Slot, no_slot, Time}
use rts_vibe_code.Diplomacy.Queries.{coalition_id}
use rts_vibe_code.Match.{Match, GameUnit, Province, AppliedEvent, province_captured, slot_ids}
use rts_vibe_code.Match.Combat.{capture, capture_if_owner_changed}

module _ (m : Match) (prov : Province) (key : Slot) (winner : GameUnit) (at : Time) where
  -- The match and what is reported, where the winner is the last champion.
  abbrev pub behind : Match × List AppliedEvent
  behind = capture_if_owner_changed m prov ((key, winner) ∷ []) at

  abbrev pub leader : Slot → Slot
  leader s = coalition_id m.diplomacy s (slot_ids m)

  -- The province stays with a friend of the winner, and nothing is reported.
  abbrev pub Kept : Province → Type 0
  Kept p =
      (prov.owner ≢ no_slot)
      × (leader prov.owner ≡ leader winner.owner_slot)
      × (p ≡ prov)
      × (behind.1 ≡ [])

  -- The winner takes the province, that of nobody or of another coalition, and that is reported.
  abbrev pub Taken : Province → Type 0
  Taken p =
      ((prov.owner ≡ no_slot) ⊎ (leader prov.owner ≢ leader winner.owner_slot))
      × (p ≡ record prov { owner = winner.owner_slot })
      × ((e : AppliedEvent) × (behind.1 ≡ e ∷ [])
          × (e.kind ≡ province_captured)
          × (e.province ≡ prov.id)
          × (e.slot ≡ winner.owner_slot))

  stranger :
      (not (prov.owner == no_slot) && leader prov.owner == leader winner.owner_slot) ≡ false
      → (prov.owner ≡ no_slot) ⊎ (leader prov.owner ≢ leader winner.owner_slot)
  stranger taken = elim (Bool-cases (prov.owner == no_slot)) [
    | inl nobody ↦ inl ((==_iff prov.owner no_slot).0 nobody)
    | inr someone ↦ inr (ground (arith, taken, someone))
  ]

  -- Behind a fight that a unit of some slot has won, over a province that the match holds under its id:
  -- if it belongs to the winner's coalition it stays as it is, also when the owner is an ally, and
  -- otherwise it becomes the winner's, which is reported. Its owner then is of the winner's coalition.
  -- No other province changes.
  pub capture_effect :
      lookup prov.id m.provinces ≡ some prov
      → winner.owner_slot ≢ no_slot
      → (id : ℕ)
      → (p : Province) × (Kept p ⊎ Taken p)
        × (p.owner ≢ no_slot)
        × (leader p.owner ≡ leader winner.owner_slot)
        × (lookup id behind.0.provinces ≡ (if prov.id == id then some p else lookup id m.provinces))
  unfolding capture_if_owner_changed capture
  capture_effect there real id =
      elim (Bool-cases
        (not (prov.owner == no_slot) && leader prov.owner == leader winner.owner_slot)) [
          | inl kept ↦
              let owned : prov.owner ≢ no_slot = ground (arith, kept) in
              let friends : leader prov.owner ≡ leader winner.owner_slot = ground (arith, kept) in
              rw kept (prov, inl (owned, friends, refl, refl), owned, friends, same_there id there)
          | inr taken ↦
              let now_his : Province = record prov { owner = winner.owner_slot } in
              rw taken (
                now_his,
                inr (stranger taken, refl, (_, refl, refl, refl, refl)),
                real,
                refl,
                lookup-insert prov.id id now_his m.provinces,
              )
        ]
    where
      same_there :
          (id : ℕ)
          → lookup prov.id m.provinces ≡ some prov
          → lookup id m.provinces ≡ (if prov.id == id then some prov else lookup id m.provinces)
      same_there id there = elim (Bool-cases (prov.id == id)) [
        | inl hit ↦
            rw hit (ap (λ k. lookup k m.provinces) (sym ((==_iff prov.id id).0 hit)) ∙ there)
        | inr miss ↦ rw miss refl
      ]
