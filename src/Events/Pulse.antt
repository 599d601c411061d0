-- ===== src/Events/Pulse.antt =====
-- internal/domain/matchdom/economy.go and event_macro_pulse.go: the revenue, and the pulse that pays it.
use rts_vibe_code.Prelude.{
  ℕ, ◌+◌, Option, none, some, List, [], ◌∷◌, ◌==◌, if◌then◌else◌, nat_key, u64,
}
use rts_vibe_code.GoMap.{GoMap}
use rts_vibe_code.Economy.{Resources, amounts, add, province_revenue, macro_pulse_interval}
use rts_vibe_code.Catalogue.Buildings
use rts_vibe_code.Diplomacy.{Slot, Time}
use rts_vibe_code.Timeline.{
  Event, Kind, arrival, macro_pulse, victory_check, recruit_complete, construct_complete,
  match_cleanup, combat_start, combat_tick,
}
use rts_vibe_code.Timeline
use rts_vibe_code.Match.{Match, Province, Building, AppliedEvent, macro_pulsed, pulsed, values}

-- economy.go: the two loops of `macroPulseRevenue`.
unfoldable pub from_provinces : Slot → List Province → Resources → Resources
from_provinces slot [] out = out
from_provinces slot (p ∷ rest) out =
    from_provinces slot rest (if p.owner == slot then add out province_revenue else out)

abbrev pub produced : Option Buildings.Kind → Resources → Resources
produced none out = out
produced (some kind) out = add out (Buildings.production kind)

unfoldable pub from_buildings : Slot → List Building → Resources → Resources
from_buildings slot [] out = out
from_buildings slot (b ∷ rest) out =
    from_buildings slot rest
      (if b.owner_slot == slot then produced (Buildings.by_id b.building_type) out else out)

unfoldable pub macro_pulse_revenue : Match → Slot → Resources
unfolding from_provinces from_buildings
macro_pulse_revenue m slot =
    from_buildings slot m.buildings (from_provinces slot (values m.provinces) (amounts 0 0 0))

-- The loop over the banks: the banks after it, the sequence number and the events.
pub record Pulse : Type 0 where
  pub banks : GoMap Slot Resources
  pub seq : ℕ
  pub out : List AppliedEvent

unfoldable pub pulse_banks : Match → Time → GoMap Slot Resources → ℕ → Pulse
pulse_banks m at [] seq = record { banks = []; seq = seq; out = [] }
pulse_banks m at ((slot, bank) ∷ rest) seq =
    let rev = macro_pulse_revenue m slot in
    let bank' = add bank rev in
    let seq' = u64 (seq + 1) in
    let p = pulse_banks m at rest seq' in
    record {
      banks = (slot, bank') ∷ p.banks;
      seq = p.seq;
      out =
          (record {
            kind = macro_pulsed;
            occur_at = at;
            seq = seq';
            unit_id = 0;
            province = 0;
            slot = slot;
            extra = pulsed bank' rev;
          })
          ∷ p.out;
    }

unfoldable pub apply_macro_pulse : Match → Event → Match × List AppliedEvent
unfolding pulse_banks
apply_macro_pulse m ev =
    let p = pulse_banks m ev.at m.resources m.seq in
    (
      record m {
        resources = p.banks;
        seq = p.seq;
        timeline = Timeline.push m.timeline (record {
          at = ev.at + macro_pulse_interval;
          kind = macro_pulse;
          unit_id = 0;
          other = 0;
          version = 0;
        });
      },
      p.out,
    )
