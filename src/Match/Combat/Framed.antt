-- ===== src/Match/Combat/Framed.antt =====
-- Combat leaves the frame of the match alone.
use rts_vibe_code.Prelude.{
  ℕ, zero, suc, ◌≡◌, refl, ◌∙◌, Bool, true, false, Option, none, some, List, [], ◌∷◌, ◌++◌, arith,
  nat_key, length, ltb, if◌then◌else◌,
}
use rts_vibe_code.Diplomacy.{Slot, Time}
use rts_vibe_code.Match.{Match, GameUnit, Province, AppliedEvent, slot_ids}
use rts_vibe_code.Match.Frame.{frame}
use rts_vibe_code.Match.Combat.{
  Champions, Fighting, join, join_all, collapse_champions, blow, duel, fight, capture,
  capture_if_owner_changed, resolve_province, stationary_units_in,
}

-- What may have come of an operation: nothing, or a match with this frame.
abbrev pub KeepsFrame : Match → Option (Match × List AppliedEvent) → Type 0
KeepsFrame m none = Unit
KeepsFrame m (some (m', out)) = frame m' ≡ frame m

pub KeepsFrame-if :
    (m : Match) (b : Bool) (x y : Option (Match × List AppliedEvent))
    → KeepsFrame m x
    → KeepsFrame m y
    → KeepsFrame m (if b then x else y)
KeepsFrame-if m true x y hx hy = hx
KeepsFrame-if m false x y hx hy = hy

join-frame :
    (all : List Slot) (m : Match) (champions : Champions) (u : GameUnit)
    → frame (join all m champions u).0 ≡ frame m
unfolding join
join-frame all m champions u = ground arith

join_all-frame :
    (all : List Slot) (m : Match) (champions : Champions) (us : List GameUnit)
    → frame (join_all all m champions us).0 ≡ frame m
unfolding join_all
join_all-frame all m champions [] = refl
join_all-frame all m champions (u ∷ rest) =
    let (m', champions') = join all m champions u in
    join_all-frame all m' champions' rest ∙ join-frame all m champions u

collapse_champions-frame :
    (m : Match) (us : List GameUnit) → frame (collapse_champions m us).0 ≡ frame m
unfolding collapse_champions
collapse_champions-frame m us = join_all-frame (slot_ids m) m [] us

blow-frame :
    (prov : ℕ) (at : Time) (f : Fighting) (attacker weakest : GameUnit)
    → frame (blow prov at f attacker weakest).game ≡ frame f.game
unfolding blow
blow-frame prov at f attacker weakest = ground arith

-- What a fight may leave: nothing, or a match with this frame.
abbrev Leaves : Match → Option Fighting → Type 0
Leaves m none = Unit
Leaves m (some f) = frame f.game ≡ frame m

Leaves-if :
    (m : Match) (b : Bool) (x y : Option Fighting)
    → Leaves m x
    → Leaves m y
    → Leaves m (if b then x else y)
Leaves-if m true x y hx hy = hx
Leaves-if m false x y hx hy = hy

Leaves-trans : (m m' : Match) (o : Option Fighting) → frame m' ≡ frame m → Leaves m' o → Leaves m o
Leaves-trans m m' none same h = tt
Leaves-trans m m' (some f) same h = h ∙ same

fight-frame : (fuel prov : ℕ) (at : Time) (f : Fighting) → Leaves f.game (fight fuel prov at f)
unfolding fight
fight-frame zero prov at f = Leaves-if f.game (ltb 1 (length f.champions)) none (some f) tt refl
fight-frame (suc fuel) prov at f =
    Leaves-if f.game (ltb 1 (length f.champions)) _ (some f)
      (turn (duel f.champions) λ f'. fight-frame fuel prov at f') refl
  where
    turn :
        (pair : Option (GameUnit × GameUnit))
        → ((f' : Fighting) → Leaves f'.game (fight fuel prov at f'))
        → Leaves f.game (elim pair [
          | none ↦ none
          | some (attacker, weakest) ↦ fight fuel prov at (blow prov at f attacker weakest)
        ])
    turn none ih = tt
    turn (some (attacker, weakest)) ih =
        let f' = blow prov at f attacker weakest in
        Leaves-trans f.game f'.game (fight fuel prov at f') (blow-frame prov at f attacker weakest)
          (ih f')

capture-frame :
    (m : Match) (prov : Province) (champions : Champions) (at : Time)
    → frame (capture_if_owner_changed m prov champions at).0 ≡ frame m
unfolding capture_if_owner_changed capture
capture-frame m prov champions at = ground arith

pub resolve_province-frame :
    (fuel : ℕ) (m : Match) (prov : Province) (at : Time)
    → KeepsFrame m (resolve_province fuel m prov at)
unfolding resolve_province
resolve_province-frame fuel m prov at = stands (stationary_units_in m prov.id at)
  where
    after :
        (f : Option Fighting)
        → Leaves m f
        → KeepsFrame m (elim f [
          | none ↦ none
          | some f ↦
              let (m2, captured) = capture_if_owner_changed f.game prov f.champions at in
              some (m2, f.out ++ captured)
        ])
    after none h = tt
    after (some f) h = capture-frame f.game prov f.champions at ∙ h

    stands :
        (us : List GameUnit)
        → KeepsFrame m (elim us [
          | [] ↦ some (m, [])
          | u ∷ rest ↦
              let (m1, champions) = collapse_champions m (u ∷ rest) in
              elim (fight fuel prov.id at (record { game = m1; champions = champions; out = [] })) [
                | none ↦ none
                | some f ↦
                    let (m2, captured) = capture_if_owner_changed f.game prov f.champions at in
                    some (m2, f.out ++ captured)
              ]
        ])
    stands [] = refl
    stands (u ∷ rest) =
        let (m1, champions) = collapse_champions m (u ∷ rest) in
        let f : Fighting = record { game = m1; champions = champions; out = [] } in
        after (fight fuel prov.id at f) (
          Leaves-trans m m1 (fight fuel prov.id at f) (collapse_champions-frame m (u ∷ rest))
            (fight-frame fuel prov.id at f))
