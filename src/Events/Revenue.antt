-- ===== src/Events/Revenue.antt =====
-- The macro pulse: `applyMacroPulse` and `macroPulseRevenue` of internal/domain/matchdom/economy.go.
use rts_vibe_code.Prelude.{
  ℕ, ◌+◌, ◌≡◌, refl, sym, ap, subst, ◌∙◌, Bool, true, false, Option, none, some, List, [], ◌∷◌,
  ◌==◌, if◌then◌else◌, arith, nat_key, Bool-cases, inl, inr, u64, ==_iff,
}
use rts_vibe_code.Prelude.Int.{◌+ℤ◌}
use rts_vibe_code.GoMap.{GoMap, lookup}
use rts_vibe_code.Economy.{Resources, add, province_revenue}
use rts_vibe_code.Catalogue.Buildings
use rts_vibe_code.Diplomacy.{Slot, Time}
use rts_vibe_code.Timeline.{Event}
use rts_vibe_code.Match.{Match, Province, Building, values}
use rts_vibe_code.Commands.Solvency.{NonNegative, IsSolvent}
use rts_vibe_code.Events.Pulse.{
  from_provinces, from_buildings, produced, macro_pulse_revenue, pulse_banks, apply_macro_pulse,
}

pub add-NonNegative : (r o : Resources) → NonNegative r → NonNegative o → NonNegative (add r o)
unfolding add ◌+ℤ◌
add-NonNegative r o nr added = (ground arith, ground arith, ground arith)

NonNegative-if :
    (b : Bool) (x y : Resources) → NonNegative x → NonNegative y → NonNegative (if b then x else y)
NonNegative-if true x y nx ny = nx
NonNegative-if false x y nx ny = ny

from_provinces-NonNegative :
    (slot : Slot) (ps : List Province) (out : Resources)
    → NonNegative out
    → NonNegative (from_provinces slot ps out)
unfolding from_provinces
from_provinces-NonNegative slot [] out n = n
from_provinces-NonNegative slot (p ∷ rest) out n = from_provinces-NonNegative slot rest _ (
    NonNegative-if (p.owner == slot) (add out province_revenue) out
      (add-NonNegative out province_revenue n (refl, refl, refl)) n)

produced-NonNegative :
    (kind : Option Buildings.Kind) (out : Resources)
    → NonNegative out
    → NonNegative (produced kind out)
produced-NonNegative none out n = n
produced-NonNegative (some Buildings.factory) out n = add-NonNegative out _ n (refl, refl, refl)

from_buildings-NonNegative :
    (slot : Slot) (bs : List Building) (out : Resources)
    → NonNegative out
    → NonNegative (from_buildings slot bs out)
unfolding from_buildings
from_buildings-NonNegative slot [] out n = n
from_buildings-NonNegative slot (b ∷ rest) out n =
    let kind = Buildings.by_id b.building_type in
    from_buildings-NonNegative slot rest _ (
      NonNegative-if (b.owner_slot == slot) (produced kind out) out
        (produced-NonNegative kind out n) n)

revenue-NonNegative : (m : Match) (slot : Slot) → NonNegative (macro_pulse_revenue m slot)
unfolding macro_pulse_revenue
revenue-NonNegative m slot =
    from_buildings-NonNegative slot m.buildings _
      (from_provinces-NonNegative slot (values m.provinces) _ (refl, refl, refl))

-- A bank and its revenue.
abbrev pub with_revenue : Match → Slot → Option Resources → Option Resources
with_revenue m slot none = none
with_revenue m slot (some bank) = some (add bank (macro_pulse_revenue m slot))

lookup-pulse_banks :
    (m : Match) (at : Time) (banks : GoMap Slot Resources) (seq : ℕ) (slot : Slot)
    → lookup slot (pulse_banks m at banks seq).banks ≡ with_revenue m slot (lookup slot banks)
unfolding pulse_banks lookup
lookup-pulse_banks m at [] seq slot = refl
lookup-pulse_banks m at ((s, bank) ∷ rest) seq slot = elim (Bool-cases (s == slot)) [
  | inl hit ↦ rw hit (ap (λ k. some (add bank (macro_pulse_revenue m k))) ((==_iff s slot).0 hit))
  | inr miss ↦ rw miss (lookup-pulse_banks m at rest (u64 (seq + 1)) slot)
]

revenue_bank :
    (m : Match) (slot : Slot) (bank : Option Resources)
    → ((b : Resources) → bank ≡ some b → NonNegative b)
    → (b : Resources) → with_revenue m slot bank ≡ some b
    → NonNegative b
revenue_bank m slot none n b e = absurd (cc)
revenue_bank m slot (some bank) n b e =
    subst NonNegative (cc (e))
      (add-NonNegative bank (macro_pulse_revenue m slot) (n bank refl) (revenue-NonNegative m slot))

-- No bank owes anything after a pulse, where none owed anything before it.
pub apply_macro_pulse-IsSolvent :
    (m : Match) (ev : Event) → IsSolvent m → IsSolvent (apply_macro_pulse m ev).0
unfolding apply_macro_pulse
apply_macro_pulse-IsSolvent m ev s slot b e =
    revenue_bank m slot (lookup slot m.resources) (s slot) b
      (sym (lookup-pulse_banks m ev.at m.resources m.seq slot) ∙ e)
