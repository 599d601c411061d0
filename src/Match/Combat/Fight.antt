-- ===== src/Match/Combat/Fight.antt =====
-- The loop of `fightUntilOneStands` of internal/domain/matchdom/combat.go, turn by turn.
use rts_vibe_code.Prelude.{
  ℕ, zero, suc, ◌+◌, ◌-◌, ◌≤◌, ◌<◌, ◌≡◌, ◌≢◌, refl, sym, subst, ◌∙◌, Bool, true, false, not, ◌&&◌,
  ◌||◌, some, [], ◌∷◌, arith, ◌⊎◌, inl, inr, ◌==◌, ltb, length, Bool-cases, nat_key, ==_iff,
  ==_refl,
}
use rts_vibe_code.Prelude.Int.{ℤ, pos, pos_part, ◌<ℤ◌, ltb_ℤ, leb_ℤ, ◌-ℤ◌}
use rts_vibe_code.GoMap.{delete}
use rts_vibe_code.Catalogue.Units.{unit_damage, unit_damage_bound}
use rts_vibe_code.Diplomacy.{Slot, Time}
use rts_vibe_code.Match.{GameUnit}
use rts_vibe_code.Match.Combat.{
  Champions, pick_from, pick_extreme, excluding, write_champion, Fighting, struck, blow, duel,
  fight,
}

-- A champion of the map, under its key.
pub data In (u : GameUnit) : Champions → Type 0 where
  here : {k : Slot} {rest : Champions} → In u ((k, u) ∷ rest)
  there : {k : Slot} {v : GameUnit} {rest : Champions} → In u rest → In u ((k, v) ∷ rest)

In-cons :
    (u v : GameUnit) (k : Slot) (rest : Champions) → (v ≡ u) ⊎ In u rest → In u ((k, v) ∷ rest)
In-cons u v k rest (inl e) = rw e here
In-cons u v k rest (inr m) = there m

-- The choice of `pickExtreme` is a champion of the map, or the unit that it started from.
pick_from-In :
    (low : Bool) (pick : GameUnit) (cs : Champions)
    → (u : GameUnit) × (pick_from low (some pick) cs ≡ some u) × ((u ≡ pick) ⊎ In u cs)
unfolding pick_from
pick_from-In low pick [] = (pick, refl, inl refl)
pick_from-In low pick ((k, v) ∷ rest) =
    elim (Bool-cases ((low && ltb_ℤ v.hp pick.hp) || (not low && ltb_ℤ pick.hp v.hp))) [
      | inl new ↦
          let (u, e, m) = pick_from-In low v rest in
          (u, rw new e, inr (In-cons u v k rest (elim m [ inl e ↦ inl (sym e) | inr m ↦ inr m ])))
      | inr old ↦
          let (u, e, m) = pick_from-In low pick rest in
          (u, rw old e, elim m [ inl e ↦ inl e | inr m ↦ inr (there m) ])
    ]

pick_extreme-In :
    (cs : Champions) (low : Bool)
    → 0 < length cs
    → (u : GameUnit) × (pick_extreme cs low ≡ some u) × In u cs
unfolding pick_extreme pick_from
pick_extreme-In [] low h = absurd (omega arith)
pick_extreme-In ((k, v) ∷ rest) low h =
    let (u, e, m) = pick_from-In low v rest in
    (u, e, In-cons u v k rest (elim m [ inl e ↦ inl (sym e) | inr m ↦ inr m ]))

abbrev NoId : ℕ → Champions → Type 0
NoId i [] = Unit {0}
NoId i ((k, u) ∷ rest) = (u.id ≢ i) × NoId i rest

abbrev NoKey : Slot → Champions → Type 0
NoKey j [] = Unit {0}
NoKey j ((k, u) ∷ rest) = (k ≢ j) × NoKey j rest

-- Every champion stands under its own slot and is alive, and no two share a key or an id.
abbrev pub AreFit : Champions → Type 0
AreFit [] = Unit {0}
AreFit ((k, u) ∷ rest) =
    (u.owner_slot ≡ k) × (pos 0 <ℤ u.hp) × NoId u.id rest × NoKey k rest × AreFit rest

-- The hit points of all champions.
abbrev strength : Champions → ℕ
strength [] = 0
strength ((k, u) ∷ rest) = pos_part u.hp + strength rest

excluding-NoId :
    (cs : Champions) (w : GameUnit) → NoId w.id cs → length (excluding cs w) ≡ length cs
unfolding excluding
excluding-NoId [] w n = refl
excluding-NoId ((k, u) ∷ rest) w n = ground (arith, excluding-NoId rest w n.1)

length-excluding :
    (cs : Champions) (w : GameUnit) → AreFit cs → length cs ≤ length (excluding cs w) + 1
unfolding excluding
length-excluding [] w f = omega arith
length-excluding ((k, u) ∷ rest) w (own, alive, ids, keys, f) = elim (Bool-cases (u.id == w.id)) [
  | inl same ↦
      let e : u.id ≡ w.id = (==_iff u.id w.id).0 same in
      rw same (omega (arith, excluding-NoId rest w (rw e at ids)))
  | inr other ↦ rw other (omega (arith, length-excluding rest w f))
]

-- With two fit champions or more a turn has its attacker and its victim.
duel-some :
    (cs : Champions)
    → AreFit cs
    → 1 < length cs
    → (a : GameUnit) × (w : GameUnit) × (duel cs ≡ some (a, w)) × In w cs
unfolding duel
duel-some cs f h =
    let (w, ew, mw) = pick_extreme-In cs true (omega arith) in
    let (a, ea, _) =
      pick_extreme-In (excluding cs w) false (omega (arith, length-excluding cs w f)) in
    (a, w, rw (ew, duel) (rw ea), mw)

-- A unit with the id and the slot of another.
record SameUnit (u w : GameUnit) : Type 0 where
  same_id : u.id ≡ w.id
  same_slot : u.owner_slot ≡ w.owner_slot

write_champion-NoId : (cs : Champions) (u : GameUnit) → NoId u.id cs → write_champion cs u ≡ cs
unfolding write_champion
write_champion-NoId [] u n = refl
write_champion-NoId ((k, v) ∷ rest) u n =
    let same = write_champion-NoId rest u n.1 in
    elim (Bool-cases (v.id == u.id)) [
      | inl hit ↦ absurd (n.0 ((==_iff v.id u.id).0 hit))
      | inr miss ↦ rw (miss, same)
    ]

delete-NoKey : (cs : Champions) (j : Slot) → NoKey j cs → delete j cs ≡ cs
unfolding delete
delete-NoKey [] j n = refl
delete-NoKey ((k, v) ∷ rest) j n =
    let same = delete-NoKey rest j n.1 in
    elim (Bool-cases (k == j)) [
      | inl hit ↦ absurd (n.0 ((==_iff k j).0 hit))
      | inr miss ↦ rw (miss, same)
    ]

NoId-of_In : (w : GameUnit) (i : ℕ) (cs : Champions) → In w cs → NoId i cs → w.id ≢ i
NoId-of_In w i [] m n = elim m [ ]
NoId-of_In w i ((k, u) ∷ rest) here n = n.0
NoId-of_In w i ((k, u) ∷ rest) (there m) n = NoId-of_In w i rest m n.1

NoKey_of_In :
    (w : GameUnit) (j : Slot) (cs : Champions) → In w cs → AreFit cs → NoKey j cs → w.owner_slot ≢ j
NoKey_of_In w j [] m f n = elim m [ ]
NoKey_of_In w j ((k, u) ∷ rest) here f n = λ e. n.0 (sym f.0 ∙ e)
NoKey_of_In w j ((k, u) ∷ rest) (there m) f n = NoKey_of_In w j rest m f.4 n.1

-- What a champion that is struck leaves of the map, alive or dead.
record Leaves (cs after : Champions) (lost : ℕ) (gone : ℕ) : Type 0 where
  fit : AreFit after
  weaker : strength after + lost ≡ strength cs
  fewer : length after + gone ≡ length cs
  ids : (i : ℕ) → NoId i cs → NoId i after
  keys : (j : Slot) → NoKey j cs → NoKey j after

survivor :
    (cs : Champions) (w u : GameUnit)
    → In w cs
    → AreFit cs
    → SameUnit u w
    → pos 0 <ℤ u.hp
    → pos_part u.hp < pos_part w.hp
    → Leaves cs (write_champion cs u) (pos_part w.hp - pos_part u.hp) 0
unfolding write_champion
survivor [] w u m f same alive less = elim m [ ]
survivor ((k, v) ∷ rest) w u here f same alive less =
    let hit : (v.id == u.id) ≡ true = rw same.same_id (==_refl v.id) in
    let rest_same = write_champion-NoId rest u (rw same.same_id f.2) in
    rw (hit, rest_same)
      (record {
        fit = (same.same_slot ∙ f.0, alive, rw same.same_id f.2, f.3, f.4);
        weaker = omega arith;
        fewer = omega arith;
        ids = λ i n. (rw same.same_id n.0, n.1);
        keys = λ j n. n;
      })
survivor ((k, v) ∷ rest) w u (there m) f same alive less =
    let apart : v.id ≢ u.id = λ e. NoId-of_In w v.id rest m f.2 (sym same.same_id ∙ sym e) in
    let miss : (v.id == u.id) ≡ false = ground arith in
    let after = survivor rest w u m f.4 same alive less in
    rw miss (record {
      fit = (f.0, f.1, after.ids v.id f.2, after.keys k f.3, after.fit);
      weaker = omega (arith, after.weaker);
      fewer = omega (arith, after.fewer);
      ids = λ i n. (n.0, after.ids i n.1);
      keys = λ j n. (n.0, after.keys j n.1);
    })

casualty :
    (cs : Champions) (w u : GameUnit)
    → In w cs
    → AreFit cs
    → SameUnit u w
    → Leaves cs (delete u.owner_slot (write_champion cs u)) (pos_part w.hp) 1
unfolding write_champion delete
casualty [] w u m f same = elim m [ ]
casualty ((k, v) ∷ rest) w u here f same =
    let rest_same = write_champion-NoId rest u (rw same.same_id f.2) in
    let own : k ≡ u.owner_slot = sym (same.same_slot ∙ f.0) in
    let hit : (k == u.owner_slot) ≡ true = (==_iff k u.owner_slot).1 own in
    let gone = delete-NoKey rest u.owner_slot (subst (λ j. NoKey j rest) own f.3) in
    rw (rest_same, hit, gone)
      (record {
        fit = f.4;
        weaker = omega arith;
        fewer = omega arith;
        ids = λ i n. n.1;
        keys = λ j n. n.1;
      })
casualty ((k, v) ∷ rest) w u (there m) f same =
    let apart : v.id ≢ u.id = λ e. NoId-of_In w v.id rest m f.2 (sym same.same_id ∙ sym e) in
    let miss : (v.id == u.id) ≡ false = ground arith in
    let other : k ≢ u.owner_slot =
      λ e. NoKey_of_In w k rest m f.4 f.3 (sym same.same_slot ∙ sym e) in
    let miss' : (k == u.owner_slot) ≡ false = ground arith in
    let after = casualty rest w u m f.4 same in
    rw (miss, miss')
      (record {
        fit = (f.0, f.1, after.ids v.id f.2, after.keys k f.3, after.fit);
        weaker = omega (arith, after.weaker);
        fewer = omega (arith, after.fewer);
        ids = λ i n. (n.0, after.ids i n.1);
        keys = λ j n. (n.0, after.keys j n.1);
      })

alive_of_In : (w : GameUnit) (cs : Champions) → In w cs → AreFit cs → 0 < pos_part w.hp
alive_of_In w [] m f = elim m [ ]
alive_of_In w ((k, v) ∷ rest) here f = omega arith
alive_of_In w ((k, v) ∷ rest) (there m) f = alive_of_In w rest m f.4

strength_pos : (cs : Champions) → AreFit cs → 0 < length cs → 0 < strength cs
strength_pos [] fit h = absurd (omega arith)
strength_pos ((k, u) ∷ rest) fit h = omega arith

standing_lem :
    (h : ℤ) (d : ℕ)
    → 22 ≤ d
    → 0 < pos_part h
    → leb_ℤ (h -ℤ pos d) (pos 0) ≡ false
    → (pos 0 <ℤ h -ℤ pos d) × (pos_part (h -ℤ pos d) < pos_part h)
unfolding ◌-ℤ◌
standing_lem h d bound alive up = (ground arith, ground arith)

blow_fit :
    (prov_id : ℕ) (at : Time) (f : Fighting) (a w : GameUnit)
    → In w f.champions
    → AreFit f.champions
    → 1 < length f.champions
    → AreFit (blow prov_id at f a w).champions
      × (strength (blow prov_id at f a w).champions < strength f.champions)
      × (0 < length (blow prov_id at f a w).champions)
unfolding blow struck
blow_fit prov_id at f a w m fit more =
    let u = struck a w in
    let dmg = unit_damage a.unit_type w.unit_type in
    let bound = unit_damage_bound a.unit_type w.unit_type in
    let alive = alive_of_In w f.champions m fit in
    let same : SameUnit u w = record { same_id = refl; same_slot = refl } in
    elim (Bool-cases (leb_ℤ u.hp (pos 0))) [
      | inl dead ↦
          let after = casualty f.champions w u m fit same in
          rw dead (after.fit, omega (arith, after.weaker), omega (arith, after.fewer))
      | inr standing ↦
          let (stands, less) = standing_lem w.hp dmg bound alive standing in
          let after = survivor f.champions w u m fit same stands less in
          rw standing (after.fit, omega (arith, after.weaker, less), omega (arith, after.fewer))
    ]

-- When there is a champion, every one stands under its own slot, alive, and no two share an id, the
-- fight ends within as many turns as the champions have hit points: exactly one is left, alive and
-- under its own slot.
pub fight_ends :
    (fuel prov_id : ℕ) (at : Time) (f : Fighting)
    → AreFit f.champions
    → 0 < length f.champions
    → strength f.champions ≤ fuel
    → (g : Fighting) × (fight fuel prov_id at f ≡ some g)
      × (length g.champions ≡ 1)
      × AreFit g.champions
unfolding fight
fight_ends zero prov_id at f fit some_left enough =
    absurd (omega (arith, strength_pos f.champions fit some_left))
fight_ends (suc fuel) prov_id at f fit some_left enough =
    elim (Bool-cases (ltb 1 (length f.champions))) [
      | inl more ↦
          let (a, w, chosen, m) = duel-some f.champions fit (ground arith) in
          let (fit', less, left) = blow_fit prov_id at f a w m fit (ground arith) in
          let (g, done, one, fit_g) =
            fight_ends fuel prov_id at (blow prov_id at f a w) fit' left (omega arith) in
          (g, rw (more, chosen, fight) done, one, fit_g)
      | inr few ↦ (f, rw few, ground arith, fit)
    ]
