-- ===== src/Movement.antt =====
-- internal/domain/matchdom/movement.go. A unit is a pointer in the source: each function that changes one
-- takes the unit, gives it back changed, and writes it to the match.
pub mod Schedule
pub mod Framed
use rts_vibe_code.Prelude.{
  ℕ, suc, ◌+◌, ◌-◌, ◌*◌, ◌%◌, ◌^◌, Bool, true, false, not, ◌&&◌, ◌||◌, Option, none, some, List, [],
  ◌∷◌, ◌++◌, leb, ltb, ◌==◌, if◌then◌else◌, nat_key, length, get_elem?,
}
use rts_vibe_code.Prelude.Int.{ℤ, pos, negsuc, ltb_ℤ}
use rts_vibe_code.GoMap.{GoMap, lookup}
use rts_vibe_code.Float64.{F64, Float64}
use rts_vibe_code.Diplomacy.{Slot, Time, war, same_stance}
use rts_vibe_code.Diplomacy.Queries.{stance}
use rts_vibe_code.Timeline.{arrival}
use rts_vibe_code.Timeline
use rts_vibe_code.Match.{
  Match, GameUnit, Province, PathLeg, Target, AppliedEvent, arrived, no_extra, next_seq, values,
  current_leg, is_moving, write_unit,
}
use rts_vibe_code.Match.Position.{euclid_distance, position_at}
use rts_vibe_code.Match.Combat.{resolve_province}
use rts_vibe_code.Match.Victory.{check_victory}
use rts_vibe_code.Pathing.{Leg, new_graph}
use rts_vibe_code.Pathing.Route.{route_from_edge}
use rts_vibe_code.Pathing.Treaties.{hostile_leg_end, route_blocked}

abbrev pub put_unit : Match → GameUnit → Match
put_unit m u = record m { units = write_unit m.units u }

owners_of : GoMap ℕ Province → GoMap ℕ Slot
owners_of [] = []
owners_of ((id, p) ∷ rest) = (id, p.owner) ∷ owners_of rest

unfoldable pub province_owners : Match → GoMap ℕ Slot
unfolding owners_of
province_owners m = owners_of m.provinces

abbrev pub second : ℕ
second = 1000000000

abbrev pub millisecond : ℕ
millisecond = 1000000

pub begin_current_leg : GameUnit → Time → GameUnit
begin_current_leg u now = elim (current_leg u) [
  | none ↦ u
  | some leg ↦ record u {
    origin = leg.from_prov;
    dest = leg.to_prov;
    origin_x = leg.from_x;
    origin_y = leg.from_y;
    dest_x = leg.to_x;
    dest_y = leg.to_y;
    started_at = if ltb leg.arrives_at now then leg.arrives_at else now;
    arrives_at = leg.arrives_at;
  }
]

unfoldable pub schedule_arrival : Match → GameUnit → Match
schedule_arrival m u = elim (current_leg u) [
  | none ↦ m
  | some leg ↦ record m {
    timeline = Timeline.push m.timeline (record {
      at = u.arrives_at;
      kind = arrival;
      unit_id = u.id;
      other = 0;
      version = u.version;
    });
  }
]

unfoldable pub shares_leg_edge : PathLeg → GameUnit → Bool
shares_leg_edge leg other = elim (current_leg other) [
  | none ↦
      other.origin == leg.from_prov && other.dest == leg.to_prov
      || other.origin == leg.to_prov && other.dest == leg.from_prov
  | some ol ↦
      ol.from_prov == leg.from_prov && ol.to_prov == leg.to_prov
      || ol.from_prov == leg.to_prov && ol.to_prov == leg.from_prov
]

-- `time.Duration(n) * time.Second`, as an unsigned number of 64 bits.
unfoldable pub seconds_u64 : ℤ → ℕ
seconds_u64 (pos n) = (n * second) % 2 ^ 64
seconds_u64 (negsuc n) = (2 ^ 64 - (suc n * second) % 2 ^ 64) % 2 ^ 64

module _ (fl : Float64) where
  open fl use {over, le, of_ℕ, to_int}

  -- The time that a leg takes: whole seconds, and a millisecond at least. A product that is negative as a signed
  -- number of 64 bits is less than that.
  pub travel_time : GameUnit → Leg → ℕ
  travel_time u l =
      let d = euclid_distance fl l.from_x l.from_y l.to_x l.to_y in
      let travel = seconds_u64 (to_int (over d u.speed)) in
      if not (ltb travel (2 ^ 63)) || ltb travel millisecond then millisecond else travel

  pub schedule_legs : GameUnit → Time → List Leg → List PathLeg
  schedule_legs u cursor [] = []
  schedule_legs u cursor (l ∷ rest) =
      let arrives = cursor + travel_time u l in
      (record {
        from_prov = l.from_prov;
        to_prov = l.to_prov;
        from_x = l.from_x;
        from_y = l.from_y;
        to_x = l.to_x;
        to_y = l.to_y;
        arrives_at = arrives;
      })
      ∷ schedule_legs u arrives rest

  unfoldable pub set_unit_path : Match → GameUnit → List Leg → Time → Match × GameUnit
  unfolding schedule_legs
  set_unit_path m u [] now = (m, u)
  set_unit_path m u (l ∷ rest) now =
      let u' =
        begin_current_leg (record u { path = schedule_legs u now (l ∷ rest); path_index = 0 })
          now in
      (schedule_arrival (put_unit m u') u', u')

  -- The end of `StartNextWaypoint`, over the route to the waypoint.
  abbrev pub follow : Match → GameUnit → Option (List Leg) → Time → Match × GameUnit × Bool
  follow m u none now = (m, u, false)
  follow m u (some legs) now =
      let (m', u') = set_unit_path m u legs now in
      if route_blocked m.diplomacy u.owner_slot (province_owners m) legs
      then (m, u, false)
      else (m', u', true)

  abbrev pub next_waypoint : Match → GameUnit → Time → List Target → Match × GameUnit × Bool
  next_waypoint m u now [] = (m, u, false)
  next_waypoint m u now (wp ∷ rest) =
      let u' = record u { waypoints = rest } in
      if is_moving u now
      then (m, u, false)
      else follow (put_unit m u') u'
          (route_from_edge fl (new_graph m.static_map) u.origin_x u.origin_y u.origin u.dest wp) now

  unfoldable pub start_next_waypoint : Match → GameUnit → Time → Match × GameUnit × Bool
  start_next_waypoint m u now = next_waypoint m u now u.waypoints

  -- `EuclidDistance(u.OriginX, u.OriginY, ox, oy) <= collisionRadius`
  abbrev is_near : GameUnit → F64 × F64 → Bool
  is_near u (ox, oy) = le (euclid_distance fl u.origin_x u.origin_y ox oy) (of_ℕ 30)

  unfoldable pub is_hostile_on_leg : Match → GameUnit → PathLeg → Time → GameUnit → Bool
  is_hostile_on_leg m u leg at other =
      not (other.id == u.id || not (ltb_ℤ (pos 0) other.hp))
      && (same_stance (stance m.diplomacy u.owner_slot other.owner_slot) war
          && (shares_leg_edge leg other && is_near u (position_at fl other at)))

  -- Whether `hostileUnitOnLeg` finds a unit; only that is asked of it.
  hostile_among : Match → GameUnit → PathLeg → Time → List GameUnit → Bool
  hostile_among m u leg at [] = false
  hostile_among m u leg at (other ∷ rest) =
      is_hostile_on_leg m u leg at other || hostile_among m u leg at rest

  unfoldable pub hostile_unit_on_leg : Match → GameUnit → PathLeg → Time → Bool
  unfolding hostile_among
  hostile_unit_on_leg m u leg at = hostile_among m u leg at (values m.units)

-- `checkVictory` behind what has happened so far; `none` is a fight that does not end.
abbrev pub then_victory :
    Option (Match × List AppliedEvent) → Time → Option (Match × List AppliedEvent)
then_victory none at = none
then_victory (some (m, out)) at = let (m', more) = check_victory m at in some (m', out ++ more)

-- Combat in the province, if the match has it, behind the events so far.
abbrev pub resolve_in :
    ℕ → Match → Option Province → List AppliedEvent → Time → Option (Match × List AppliedEvent)
resolve_in fuel m none out at = some (m, out)
resolve_in fuel m (some prov) out at = elim (resolve_province fuel m prov at) [
  | none ↦ none
  | some (m', more) ↦ some (m', out ++ more)
]

module _ (fl : Float64) (fuel : ℕ) where
  abbrev stopped : GameUnit → GameUnit
  stopped u = record u { path = []; path_index = 0 }

  -- The end of a path: the next waypoint, or combat where the unit stands.
  finish_path :
      Match → GameUnit → PathLeg → List AppliedEvent → Time → Option (Match × List AppliedEvent)
  finish_path m u leg out at =
      let (m', u', started) = start_next_waypoint fl m u at in
      let fought = resolve_in fuel m' (lookup leg.to_prov m'.provinces) out at in
      if started
      then then_victory (some (m', out)) at
      else if is_moving u' at
      then then_victory (some (m', out)) at
      else then_victory fought at

  abbrev halted : GameUnit → GameUnit
  halted u = record u { path = []; path_index = 0; waypoints = [] }

  -- Whether an enemy holds the end of the leg, or is on it.
  pub is_opposed : Match → GameUnit → PathLeg → Time → Bool
  is_opposed m u leg at =
      let p_leg : Leg = record {
        from_prov = leg.from_prov;
        to_prov = leg.to_prov;
        from_x = leg.from_x;
        from_y = leg.from_y;
        to_x = leg.to_x;
        to_y = leg.to_y;
      } in
      hostile_leg_end m.diplomacy u.owner_slot (province_owners m) p_leg
      || hostile_unit_on_leg fl m u leg at

  -- The unit at the start of its next leg, and the arrival at its end.
  abbrev begin_next : Match → GameUnit → Time → Match
  begin_next m u at =
      let u' = begin_current_leg (record u { path_index = suc u.path_index }) at in
      schedule_arrival (put_unit m u') u'

  -- What `CompleteUnitLeg` does once the unit stands at the end of `leg`.
  go_on : Match → GameUnit → PathLeg → List AppliedEvent → Time → Option (Match × List AppliedEvent)
  unfolding finish_path is_opposed
  go_on m u leg out at =
      let m_halted = put_unit m (halted u) in
      let fought = resolve_in fuel m_halted (lookup leg.to_prov m.provinces) out at in
      if is_opposed m u leg at
      then then_victory fought at
      else if ltb (suc u.path_index) (length u.path)
      then then_victory (some (begin_next m u at, out)) at
      else finish_path (put_unit m (stopped u)) (stopped u) leg out at

  abbrev at_end : GameUnit → PathLeg → Time → GameUnit
  at_end u leg at = record u {
    origin_x = leg.to_x;
    origin_y = leg.to_y;
    dest_x = leg.to_x;
    dest_y = leg.to_y;
    origin = leg.to_prov;
    dest = leg.to_prov;
    started_at = at;
    arrives_at = at;
  }

  abbrev complete_leg :
      Match → GameUnit → Time → Option PathLeg → Option (Match × List AppliedEvent)
  complete_leg m u at none = some (m, [])
  complete_leg m u at (some leg) =
      let u' = at_end u leg at in
      let m' = next_seq (put_unit m u') in
      let e : AppliedEvent = record {
        kind = arrived;
        occur_at = at;
        seq = m'.seq;
        unit_id = u.id;
        province = leg.to_prov;
        slot = u.owner_slot;
        extra = no_extra;
      } in
      go_on m' u' leg (e ∷ []) at

  unfoldable pub complete_unit_leg : Match → GameUnit → Time → Option (Match × List AppliedEvent)
  unfolding go_on
  complete_unit_leg m u at = complete_leg m u at (current_leg u)
