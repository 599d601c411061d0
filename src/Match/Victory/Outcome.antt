-- ===== src/Match/Victory/Outcome.antt =====
-- What `checkVictory` makes of a running match.
use rts_vibe_code.Prelude.{
  ◌≡◌, refl, sym, ◌∙◌, ap, subst, Bool, true, false, not, ◌&&◌, ◌||◌, List, [], ◌∷◌, ◌==◌, arith,
  nat_key, contains, inl, inr, ◌⊎◌, Bool-cases,
}
use rts_vibe_code.GoMap.{lookup, insert}
use rts_vibe_code.Diplomacy.{Slot, no_slot, Time}
use rts_vibe_code.Diplomacy.Queries.{coalition, coalition_id}
use rts_vibe_code.Match.{Match, Province, Status, active, ended, AppliedEvent, values, slot_ids}
use rts_vibe_code.Match.Victory.{
  capital_slots_from, capital_slots, add_coalition, coalitions_from, end_match, settle, decide,
  check_active, while_active, check_victory,
}
use rts_vibe_code.Match.Victory.Capitals.{Under, Held, capitals-Under, coalitions_from-one}

-- Whether some capital has an owner.
abbrev some_owned : List Province → Bool
some_owned [] = false
some_owned (p ∷ rest) = p.capital && not (p.owner == no_slot) || some_owned rest

abbrev is_nonempty : List Slot → Bool
is_nonempty [] = false
is_nonempty (s ∷ slots) = true

contains-nonempty :
    (s : Slot) (slots : List Slot) → contains s slots ≡ true → is_nonempty slots ≡ true
contains-nonempty s [] h = ground arith
contains-nonempty s (x ∷ slots) h = refl

capitals-nonempty :
    (ps : List Province) (slots : List Slot)
    → is_nonempty (capital_slots_from ps slots) ≡ (is_nonempty slots || some_owned ps)
unfolding capital_slots_from
capitals-nonempty [] slots = ground arith
capitals-nonempty (p ∷ rest) slots =
    elim (Bool-cases (not p.capital || p.owner == no_slot || contains p.owner slots)) [
      | inl skip ↦ rw skip (
          capitals-nonempty rest slots ∙ elim (Bool-cases (contains p.owner slots)) [
            | inl c ↦ ground (arith, contains-nonempty p.owner slots c)
            | inr n ↦ ground (arith, skip, n)
          ])
      | inr keep ↦ rw keep (capitals-nonempty rest (p.owner ∷ slots) ∙ ground (arith, keep))
    ]

-- Some coalition holds every capital that has an owner, and there is such a capital.
abbrev pub HoldsAll : Match → Slot → Type 0
HoldsAll m coal =
    (some_owned (values m.provinces) ≡ true)
    × Held m.diplomacy (slot_ids m) coal (values m.provinces)

-- The match has ended for a coalition that holds all, or nothing has happened and none holds all.
abbrev Decided : Match → Match × List AppliedEvent → Type 0
Decided m outcome =
    (HoldsAll m outcome.0.winner_slot × (outcome.0.status ≡ ended))
    ⊎ ((outcome ≡ (m, [])) × ((coal : Slot) → ¬ HoldsAll m coal))

Under-of_HoldsAll :
    (m : Match) (coal c : Slot) (rest : List Slot)
    → capital_slots m ≡ c ∷ rest
    → HoldsAll m coal
    → Under m.diplomacy (slot_ids m) (coalition_id m.diplomacy c (slot_ids m)) rest
unfolding capital_slots
Under-of_HoldsAll m coal c rest e h =
    let under =
      (capitals-Under m.diplomacy (slot_ids m) coal (values m.provinces) []).1 (tt, h.1) in
    let (first, others) = subst (Under m.diplomacy (slot_ids m) coal) e under in
    subst (λ k. Under m.diplomacy (slot_ids m) k rest) (sym first) others

-- The slots that hold capitals, by one coalition or by more.
Decided-settle :
    (m : Match) (at : Time) (c : Slot) (rest : List Slot)
    → capital_slots m ≡ c ∷ rest
    → Decided m (decide m at (c ∷ rest))
unfolding capital_slots coalitions_from add_coalition settle end_match lookup insert
Decided-settle m at c rest e =
    let d = m.diplomacy in
    let all = slot_ids m in
    let ps = values m.provinces in
    let leader = coalition_id d c all in
    let owned : some_owned ps ≡ true = sym (capitals-nonempty ps []) ∙ ap is_nonempty e in
    let held : Under d all leader rest → Held d all leader ps =
      λ u. ((capitals-Under d all leader ps []).0 (rw e (refl, u))).1 in
    elim (coalitions_from-one d all rest leader (coalition d c all)) [
      | inl (u, one) ↦ rw one (inl ((owned, held u), refl))
      | inr (n, (x, y, more, plural)) ↦
          rw plural (inr (refl, λ coal h. n (Under-of_HoldsAll m coal c rest e h)))
    ]

Decided-nobody : (m : Match) (at : Time) → capital_slots m ≡ [] → Decided m (decide m at [])
unfolding capital_slots
Decided-nobody m at e =
    let unowned : some_owned (values m.provinces) ≡ false =
      sym (capitals-nonempty (values m.provinces) []) ∙ ap is_nonempty e in
    inr (refl, λ coal h. ground (arith, unowned, h.0))

Decided-capitals :
    (m : Match) (at : Time) (slots : List Slot)
    → capital_slots m ≡ slots
    → Decided m (decide m at slots)
Decided-capitals m at [] e = Decided-nobody m at e
Decided-capitals m at (c ∷ rest) e = Decided-settle m at c rest e

check_victory-active :
    (m : Match) (at : Time) → m.status ≡ active → decide m at (capital_slots m) ≡ check_victory m at
unfolding check_victory check_active
check_victory-active m at running =
    sym (ap (λ s. while_active s (decide m at (capital_slots m)) (m, [])) running)

check_victory-ended : (m : Match) (at : Time) → m.status ≡ ended → check_victory m at ≡ (m, [])
unfolding check_victory
check_victory-ended m at over = ap (λ s. while_active s (check_active m at) (m, [])) over

-- A check of a running match ends it exactly when one coalition holds every capital that has an owner, and
-- there is such a capital: the winner is then the leader of that coalition. Else nothing changes.
pub check_victory_decides :
    (m : Match) (at : Time)
    → m.status ≡ active
    → (HoldsAll m (check_victory m at).0.winner_slot × ((check_victory m at).0.status ≡ ended))
      ⊎ ((check_victory m at ≡ (m, [])) × ((coal : Slot) → ¬ HoldsAll m coal))
check_victory_decides m at running =
    subst (Decided m) (check_victory-active m at running)
      (Decided-capitals m at (capital_slots m) refl)

Status-cases : (s : Status) → (s ≡ active) ⊎ (s ≡ ended)
Status-cases active = inl refl
Status-cases ended = inr refl

-- A check that follows another one at once, whatever the times of the two, changes nothing and reports
-- nothing.
pub check_victory_again :
    (m : Match) (at later : Time)
    → check_victory (check_victory m at).0 later ≡ ((check_victory m at).0, [])
check_victory_again m at later = elim (Status-cases m.status) [
  | inr over ↦ rw (check_victory-ended m at over) (check_victory-ended m later over)
  | inl running ↦ elim (check_victory_decides m at running) [
    | inl (holds, over) ↦ check_victory-ended (check_victory m at).0 later over
    | inr (same, nobody) ↦ elim (check_victory_decides m later running) [
      | inl (holds, over) ↦ absurd (nobody _ holds)
      | inr (same', nobody') ↦ rw same same'
    ]
  ]
]
