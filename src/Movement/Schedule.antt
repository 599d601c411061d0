-- ===== src/Movement/Schedule.antt =====
-- The times of a path: `SetUnitPath` and `scheduleArrival` of internal/domain/matchdom/movement.go.
use rts_vibe_code.GoMap.{GoMap, lookup, lookup-insert}
use rts_vibe_code.Prelude.{
  ℕ, Option, none, some, inl, inr, nat_key, ==_refl, Option-cases, ◌∙◌, ◌+◌, ◌≤◌, ◌≡◌, refl, Bool,
  List, [], ◌∷◌, arith,
}
use rts_vibe_code.Float64.{Float64}
use rts_vibe_code.Heap.Array.{count, one}
use rts_vibe_code.Diplomacy.{Time}
use rts_vibe_code.Timeline.{Event, arrival}
use rts_vibe_code.Timeline.Order.{IsTimeline, push_lem}
use rts_vibe_code.Match.{Match, GameUnit, PathLeg, write_unit}
use rts_vibe_code.Pathing.{Leg}
use rts_vibe_code.Movement.{
  millisecond, travel_time, schedule_legs, begin_current_leg, schedule_arrival, set_unit_path,
}

-- The legs of the path are those of the route, one by one, each with a time of arrival.
abbrev pub Follows : List Leg → List PathLeg → Type 0
Follows [] [] = Unit {0}
Follows (l ∷ legs) (p ∷ path) =
    ((p.from_prov ≡ l.from_prov) × (p.to_prov ≡ l.to_prov))
    × ((p.from_x ≡ l.from_x) × (p.from_y ≡ l.from_y))
    × ((p.to_x ≡ l.to_x) × (p.to_y ≡ l.to_y))
    × Follows legs path
Follows _ _ = ⊥

-- The unit is on the leg: between its ends, until the leg's arrival.
pub record IsOn (u : GameUnit) (leg : PathLeg) : Type 0 where
  pub from : (u.origin ≡ leg.from_prov) × (u.origin_x ≡ leg.from_x) × (u.origin_y ≡ leg.from_y)
  pub to : (u.dest ≡ leg.to_prov) × (u.dest_x ≡ leg.to_x) × (u.dest_y ≡ leg.to_y)
  pub until : u.arrives_at ≡ leg.arrives_at

-- A unit that a match holds, replaced.
abbrev pub replaced : Option GameUnit → GameUnit → Option GameUnit
replaced none u = none
replaced (some old) u = some u

lookup-write_unit :
    (units : GoMap ℕ GameUnit) (u : GameUnit)
    → lookup u.id (write_unit units u) ≡ replaced (lookup u.id units) u
unfolding write_unit
lookup-write_unit units u = elim (Option-cases (lookup u.id units)) [
  | inl missing ↦ rw (write_unit, missing) missing
  | inr (old, there) ↦
      rw (write_unit, there) (lookup-insert u.id u.id u units ∙ (rw (==_refl u.id)))
]

-- Each leg of the path arrives a millisecond or more behind the one before it, the first behind `now`.
abbrev pub IsRising : Time → List PathLeg → Type 0
IsRising now [] = Unit {0}
IsRising now (leg ∷ rest) = (now + millisecond ≤ leg.arrives_at) × IsRising leg.arrives_at rest

module _ (fl : Float64) where
  travel_time_positive : (u : GameUnit) (l : Leg) → millisecond ≤ travel_time fl u l
  unfolding travel_time
  travel_time_positive u l = ground arith

  schedule_legs-IsRising :
      (u : GameUnit) (now : Time) (legs : List Leg) → IsRising now (schedule_legs fl u now legs)
  unfolding schedule_legs
  schedule_legs-IsRising u now [] = tt
  schedule_legs-IsRising u now (l ∷ rest) = (
    omega (arith, travel_time_positive u l),
    schedule_legs-IsRising u (now + travel_time fl u l) rest,
  )

  schedule_legs-Follows :
      (u : GameUnit) (now : Time) (legs : List Leg) → Follows legs (schedule_legs fl u now legs)
  unfolding schedule_legs
  schedule_legs-Follows u now [] = tt
  schedule_legs-Follows u now (l ∷ rest) = (
    (refl, refl),
    (refl, refl),
    (refl, refl),
    schedule_legs-Follows u (now + travel_time fl u l) rest,
  )

  -- A unit that takes a route of one leg or more, in a match whose timeline is a heap, starts now on a
  -- path with the legs of the route, whose arrival times rise from now on, the first of them after the
  -- leg's travel time. It is on the first leg, and stands so in the match if it was there. One event is
  -- scheduled, its arrival at the end of the first leg, under its version, and the timeline stays a heap.
  pub set_unit_path_effect :
      (m : Match) (u : GameUnit) (l : Leg) (rest : List Leg) (now : Time)
      → IsTimeline m.timeline
      → let m' = (set_unit_path fl m u (l ∷ rest) now).0 in
        let u' = (set_unit_path fl m u (l ∷ rest) now).1 in
        let e : Event = record {
          at = u'.arrives_at;
          kind = arrival;
          unit_id = u.id;
          other = 0;
          version = u.version;
        } in
        (first : PathLeg) × (others : List PathLeg) × (u'.path ≡ first ∷ others)
        × Follows (l ∷ rest) (first ∷ others)
        × IsRising now (first ∷ others)
        × (first.arrives_at ≡ now + travel_time fl u l)
        × IsOn u' first
        × (u'.path_index ≡ 0)
        × (lookup u.id m'.units ≡ replaced (lookup u.id m.units) u')
        × (u'.started_at ≡ now)
        × IsTimeline m'.timeline
        × ((p : Event → Bool) → count p m'.timeline ≡ count p m.timeline + one p e)
  unfolding set_unit_path schedule_legs begin_current_leg schedule_arrival
  set_unit_path_effect m u l rest now heap =
      let later = travel_time_positive u l in
      let (kept, counts) = push_lem m.timeline _ heap in
      (
        _,
        _,
        refl,
        schedule_legs-Follows u now (l ∷ rest),
        schedule_legs-IsRising u now (l ∷ rest),
        refl,
        record { from = (refl, refl, refl); to = (refl, refl, refl); until = refl },
        refl,
        lookup-write_unit m.units (set_unit_path fl m u (l ∷ rest) now).1,
        ground (arith, later),
        kept,
        counts,
      )
