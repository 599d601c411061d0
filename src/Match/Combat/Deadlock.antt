-- ===== src/Match/Combat/Deadlock.antt =====
-- `fightUntilOneStands` and `resolveProvince` where a champion stands under another slot than its own.
use rts_vibe_code.Prelude.{
  ℕ, zero, suc, ◌≡◌, ◌≢◌, refl, ap, ◌∙◌, Bool, true, false, none, some, List, [], ◌∷◌, arith, inl,
  inr, ◌==◌, Bool-cases, nat_key, ==_refl,
}
use rts_vibe_code.Prelude.Int.{pos, ◌<ℤ◌, ltb_ℤ, leb_ℤ, -ℤ_parts}
use rts_vibe_code.GoMap.{lookup, insert, delete}
use rts_vibe_code.Diplomacy.Queries.{coalition_id}
use rts_vibe_code.Catalogue.Units.{unit_damage}
use rts_vibe_code.Diplomacy.{Slot, Time}
use rts_vibe_code.Match.{Match, GameUnit, Province, slot_ids}
use rts_vibe_code.Match.Combat.{
  Champions, pick_from, pick_extreme, excluding, write_champion, Fighting, struck, blow, duel,
  fight, resolve_province, stationary_units_in, collapse_champions, join,
}

-- Two champions, of which the weaker one stands under another slot than its own.
pub record IsStuck (k j : Slot) (w s : GameUnit) : Type 0 where
  pub weaker : w.hp <ℤ s.hp
  pub apart : w.id ≢ s.id
  pub foreign : w.owner_slot ≢ k
  pub no_rival : w.owner_slot ≢ j

-- The two, in one order or the other.
abbrev pub in_order {ℓ} : {A : Type ℓ} → Bool → A → A → List A
in_order true x y = x ∷ y ∷ []
in_order false x y = y ∷ x ∷ []

abbrev pub pair : Bool → Slot → Slot → GameUnit → GameUnit → Champions
pair first k j w s = in_order first (k, w) (j, s)

module _ (k j : Slot) (w s : GameUnit) (h : IsStuck k j w s) where
  other_id : (s.id == w.id) ≡ false
  other_id = let apart = h.apart in ground arith

  lower : (ltb_ℤ s.hp w.hp ≡ false) × (ltb_ℤ w.hp s.hp ≡ true)
  lower = (ground arith, ground arith)

  excluding_weaker : (first : Bool) → excluding (pair first k j w s) w ≡ (j, s) ∷ []
  unfolding excluding
  excluding_weaker true = rw (==_refl w.id, other_id)
  excluding_weaker false = rw (==_refl w.id, other_id)

  pick_weaker : (first : Bool) → pick_extreme (pair first k j w s) true ≡ some w
  unfolding pick_extreme pick_from
  pick_weaker true = rw (lower.0) refl
  pick_weaker false = rw (lower.1) refl

  duel_stuck : (first : Bool) → duel (pair first k j w s) ≡ some (s, w)
  unfolding duel pick_extreme pick_from
  duel_stuck true = rw (pick_weaker true, duel) (rw (excluding_weaker true))
  duel_stuck false = rw (pick_weaker false, duel) (rw (excluding_weaker false))

  written_stuck :
      (first : Bool)
      → write_champion (pair first k j w s) (struck s w) ≡ pair first k j (struck s w) s
  unfolding write_champion struck
  written_stuck true = rw (==_refl w.id, other_id)
  written_stuck false = rw (==_refl w.id, other_id)

  delete_stuck :
      (first : Bool)
      → delete w.owner_slot (pair first k j (struck s w) s) ≡ pair first k j (struck s w) s
  unfolding delete struck
  delete_stuck first =
      let k_kept : (k == w.owner_slot) ≡ false = let foreign = h.foreign in ground arith in
      let j_kept : (j == w.owner_slot) ≡ false = let no_rival = h.no_rival in ground arith in
      elim first
        as (λ o. delete w.owner_slot (pair o k j (struck s w) s) ≡ pair o k j (struck s w) s) [
          | true ↦ rw (k_kept, j_kept)
          | false ↦ rw (k_kept, j_kept)
        ]

  -- The blow leaves both champions in place, whether the victim falls or not.
  blow_stuck :
      (first : Bool) (prov_id : ℕ) (at : Time) (f : Fighting)
      → f.champions ≡ pair first k j w s
      → (blow prov_id at f s w).champions ≡ pair first k j (struck s w) s
  unfolding blow
  blow_stuck first prov_id at f e =
      let written = ap (λ cs. write_champion cs (struck s w)) e ∙ written_stuck first in
      elim (Bool-cases (leb_ℤ (struck s w).hp (pos 0))) [
        | inl dead ↦ rw dead (ap (delete w.owner_slot) written ∙ delete_stuck first)
        | inr standing ↦ rw standing written
      ]

struck-IsStuck : (k j : Slot) (w s : GameUnit) → IsStuck k j w s → IsStuck k j (struck s w) s
unfolding struck
struck-IsStuck k j w s h = record {
  weaker = omega (arith, -ℤ_parts w.hp (pos (unit_damage s.unit_type w.unit_type)), h.weaker);
  apart = h.apart;
  foreign = h.foreign;
  no_rival = h.no_rival;
}

-- No number of turns ends the fight of two such champions.
fight_hangs :
    (fuel prov_id : ℕ) (at : Time) (f : Fighting) (first : Bool) (k j : Slot) (w s : GameUnit)
    → f.champions ≡ pair first k j w s
    → IsStuck k j w s
    → fight fuel prov_id at f ≡ none
unfolding fight
fight_hangs zero prov_id at f true k j w s e h = rw e refl
fight_hangs zero prov_id at f false k j w s e h = rw e refl
fight_hangs (suc fuel) prov_id at f true k j w s e h =
    rw (e, fight)
      (rw (duel_stuck k j w s h true, fight)
        (fight_hangs fuel prov_id at (blow prov_id at f s w) true k j (struck s w) s
          (blow_stuck k j w s h true prov_id at f e) (struck-IsStuck k j w s h)))
fight_hangs (suc fuel) prov_id at f false k j w s e h =
    rw (e, fight)
      (rw (duel_stuck k j w s h false, fight)
        (fight_hangs fuel prov_id at (blow prov_id at f s w) false k j (struck s w) s
          (blow_stuck k j w s h false prov_id at f e) (struck-IsStuck k j w s h)))

join_new :
    (all : List Slot) (m : Match) (champions : Champions) (u : GameUnit) (coal : Slot)
    → coalition_id m.diplomacy u.owner_slot all ≡ coal
    → lookup coal champions ≡ none
    → join all m champions u ≡ (m, insert coal u champions)
unfolding join
join_new all m champions u coal e new = rw e (rw new)

module _ (m : Match) (prov : Province) (at : Time) (first : Bool) (k j : Slot) (w s : GameUnit)
    (stand : stationary_units_in m prov.id at ≡ in_order first w s)
    (k_leads : coalition_id m.diplomacy w.owner_slot (slot_ids m) ≡ k)
    (j_leads : coalition_id m.diplomacy s.owner_slot (slot_ids m) ≡ j) (rivals : k ≢ j) where
  collapse_two : collapse_champions m (in_order first w s) ≡ (m, pair first k j w s)
  unfolding collapse_champions lookup insert
  collapse_two =
      let other : (k == j) ≡ false = ground arith in
      let other' : (j == k) ≡ false = ground arith in
      elim first as (λ o. collapse_champions m (in_order o w s) ≡ (m, pair o k j w s)) [
        | true ↦
            rw (join_new (slot_ids m) m [] w k k_leads refl)
              (join_new (slot_ids m) m ((k, w) ∷ []) s j j_leads (rw other) ∙ (rw other))
        | false ↦
            rw (join_new (slot_ids m) m [] s j j_leads refl)
              (join_new (slot_ids m) m ((j, s) ∷ []) w k k_leads (rw other') ∙ (rw other'))
      ]

  -- Combat never returns, however many turns the fight is given, in a province where exactly two units
  -- stand, in either order, one weaker than the other, under two coalition leaders to neither of which
  -- the weaker unit belongs.
  pub resolve_province_hangs : (fuel : ℕ) → IsStuck k j w s → resolve_province fuel m prov at ≡ none
  unfolding resolve_province
  resolve_province_hangs fuel h =
      elim first
          as (λ o.
            stationary_units_in m prov.id at ≡ in_order o w s
            → collapse_champions m (in_order o w s) ≡ (m, pair o k j w s)
            → resolve_province fuel m prov at ≡ none) [
              | true ↦ λ stand two.
                  rw (stand, resolve_province)
                    (rw (two, resolve_province)
                      (rw (
                        fight_hangs fuel prov.id at
                          (record { game = m; champions = pair true k j w s; out = [] }) true k j w
                          s refl h)))
              | false ↦ λ stand two.
                  rw (stand, resolve_province)
                    (rw (two, resolve_province)
                      (rw (
                        fight_hangs fuel prov.id at
                          (record { game = m; champions = pair false k j w s; out = [] }) false k j
                          w s refl h)))
            ]
        stand collapse_two
