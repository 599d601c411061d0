-- ===== src/Events.antt =====
-- The handlers of the timeline's events: internal/domain/matchdom/event_arrival.go, event_match_cleanup.go
-- and events.go. Go's
-- registry of handlers is a dispatch by kind.
pub mod Pulse
pub mod Completion
pub mod Loop
pub mod Revenue
pub mod Sound
use Prim.Native.String.{String}
use rts_vibe_code.Prelude.{
  ℕ, zero, suc, ◌+◌, Bool, true, false, not, ◌&&◌, ◌||◌, Option, none, some, List, [], ◌∷◌, ◌++◌,
  ◌==◌, if◌then◌else◌, nat_key, u64,
}
use rts_vibe_code.Prelude.Int.{pos}
use rts_vibe_code.GoMap.{GoMap, lookup, insert, delete}
use rts_vibe_code.Float64.{F64, Float64}
use rts_vibe_code.Economy.{Resources, amounts, add, halved, province_revenue, macro_pulse_interval}
use rts_vibe_code.Catalogue.Units
use rts_vibe_code.Catalogue.Buildings
use rts_vibe_code.Diplomacy.{Slot, Time}
use rts_vibe_code.Timeline.{
  Event, Kind, arrival, macro_pulse, victory_check, recruit_complete, construct_complete,
  match_cleanup, combat_start, combat_tick,
}
use rts_vibe_code.Timeline
use rts_vibe_code.Match.{
  Match, GameUnit, Province, Building, RecruitOrder, BuildOrder, AppliedEvent, AppliedKind, arrived,
  macro_pulsed, unit_recruited, building_constructed, match_cleaned, no_extra, pulsed, of_type,
  won_by, next_seq, values, write_unit, PathLeg,
}
use rts_vibe_code.Match.Victory.{check_victory}
use rts_vibe_code.Movement.{put_unit, resolve_in, then_victory, complete_unit_leg}
use rts_vibe_code.Events.Pulse.{apply_macro_pulse}
use rts_vibe_code.Events.Completion.{apply_recruit_complete, apply_construct_complete}

unfoldable pub apply_match_cleanup : Match → Event → Match × List AppliedEvent
apply_match_cleanup m ev =
    let m' = next_seq (record m { cleanup_done = true }) in
    let e : AppliedEvent = record {
      kind = match_cleaned;
      occur_at = ev.at;
      seq = m'.seq;
      unit_id = 0;
      province = 0;
      slot = 0;
      extra = won_by m.winner_slot m.winner_coal;
    } in
    if m.cleanup_done then (m, []) else (m', e ∷ [])

module _ (fl : Float64) (fuel : ℕ) where
  -- The unit stands in the province, and the event of that.
  abbrev pub stands_in : Match → GameUnit → Province → Time → Match × List AppliedEvent
  stands_in m u prov at =
      let u' = record u {
        origin_x = prov.x;
        origin_y = prov.y;
        origin = prov.id;
        started_at = at;
        arrives_at = at;
      } in
      let m' = next_seq (put_unit m u') in
      (
        m',
        (record {
          kind = arrived;
          occur_at = at;
          seq = m'.seq;
          unit_id = u.id;
          province = prov.id;
          slot = u.owner_slot;
          extra = no_extra;
        })
            ∷ [],
      )

  -- The arrival of a unit without a path.
  pub arrive_at : Match → GameUnit → Province → Time → Option (Match × List AppliedEvent)
  arrive_at m u prov at =
      let (m', out) = stands_in m u prov at in
      then_victory (resolve_in fuel m' (some prov) out at) at

  abbrev pub arrive_in :
      Match → GameUnit → Option Province → Time → Option (Match × List AppliedEvent)
  arrive_in m u none at = some (m, [])
  arrive_in m u (some prov) at = arrive_at m u prov at

  abbrev pub by_path : Match → GameUnit → List PathLeg → Time → Option (Match × List AppliedEvent)
  by_path m u (leg ∷ rest) at = complete_unit_leg fl fuel m u at
  by_path m u [] at = arrive_in m u (lookup u.dest m.provinces) at

  -- A stale arrival, of another version of the unit, is dropped.
  abbrev pub arrival_of : Match → Event → Option GameUnit → Option (Match × List AppliedEvent)
  arrival_of m ev none = some (m, [])
  arrival_of m ev (some u) =
      if u.version == ev.version then by_path m u u.path ev.at else some (m, [])

  unfoldable pub apply_arrival : Match → Event → Option (Match × List AppliedEvent)
  unfolding arrive_at
  apply_arrival m ev = arrival_of m ev (lookup ev.unit_id m.units)

  -- Events of the two kinds that have no handler are dropped.
  abbrev pub by_event_kind : Kind → Match → Event → ℕ → Option (Match × List AppliedEvent)
  by_event_kind arrival m ev fresh = apply_arrival m ev
  by_event_kind macro_pulse m ev fresh = some (apply_macro_pulse m ev)
  by_event_kind recruit_complete m ev fresh = some (apply_recruit_complete fl m ev fresh)
  by_event_kind construct_complete m ev fresh = some (apply_construct_complete m ev)
  by_event_kind victory_check m ev fresh = some (check_victory m ev.at)
  by_event_kind match_cleanup m ev fresh = some (apply_match_cleanup m ev)
  by_event_kind combat_start m ev fresh = some (m, [])
  by_event_kind combat_tick m ev fresh = some (m, [])

  unfoldable pub handle_event : Match → Event → ℕ → Option (Match × List AppliedEvent)
  handle_event m ev fresh = by_event_kind ev.kind m ev fresh
