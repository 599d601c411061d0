-- ===== src/Examples/Orders.antt =====
-- Commands, paths and pulses in the small match.
use rts_vibe_code.Prelude.{
  List, none, zero, suc, ◌+◌, ◌≡◌, ◌≢◌, ◌↔◌, refl, Bool, true, false, some, [], ◌∷◌, arith, nat_key,
}
use rts_vibe_code.GoMap.{lookup}
use rts_vibe_code.Heap.Array.{count, one}
use rts_vibe_code.Diplomacy.{Slot, no_slot, peace, right_of_way}
use rts_vibe_code.Diplomacy.Queries.{new, stance, has_pact}
use rts_vibe_code.Timeline.{Event, arrival}
use rts_vibe_code.Timeline.Order.{IsTimeline}
use rts_vibe_code.Catalogue.Units
use rts_vibe_code.Catalogue.Buildings
use rts_vibe_code.Commands.Construction.{apply_construct_effect}
use rts_vibe_code.Economy.{Resources, can_pay, pay}
use rts_vibe_code.Timeline.{construct_complete, recruit_complete}
use rts_vibe_code.Commands.Production.{
  wanted_type, apply_construct, construct_kind, lacks_building, apply_recruit, recruit_kind,
}
use rts_vibe_code.Commands.Recruitment.{apply_recruit_effect}
use rts_vibe_code.Match.{PathLeg, BuildOrder, has_building, Province, RecruitOrder, Match, GameUnit}
use rts_vibe_code.Pathing.{Leg}
use rts_vibe_code.Pathing.Treaties.{leg_blocked, leg_blocked_iff}
use rts_vibe_code.Movement.{travel_time, set_unit_path}
use rts_vibe_code.Movement.Schedule.{Follows, IsOn, replaced, IsRising, set_unit_path_effect}
use rts_vibe_code.Events.Pulse.{apply_macro_pulse}
use rts_vibe_code.Events.Revenue.{apply_macro_pulse-IsSolvent}
use rts_vibe_code.Commands.{Command, unknown_target, extra}
use rts_vibe_code.Commands.Dispatch.{
  handler_for, moves, with_issuer, dispatch_active, dispatch, apply,
}
use rts_vibe_code.Commands.Treaty.{apply_declare_war, resolve_target}
use rts_vibe_code.Commands.Solvency.{IsSolvent}
use rts_vibe_code.Commands.Refusal.{dispatch_refused}
use rts_vibe_code.Commands.Banks.{dispatch-IsSolvent, dispatch_other_banks}
use rts_vibe_code.Examples.World.{fl, env, unit, game, first_pulse, command}

abbrev world : Match
world = game new ((1, unit 1 1 100 10) ∷ [])

abbrev recruit : Command
recruit = command "recruit" 10 (("type", "infantry") ∷ [])

-- A declaration of war without a target is refused.
abbrev aimless : Command
aimless = command "declare_war" 0 []

world-IsSolvent : IsSolvent world
unfolding lookup
world-IsSolvent slot bank e = (ground (arith, e), ground (arith, e), ground (arith, e))

dispatch-IsSolvent_example : IsSolvent (dispatch env world recruit 77).0
dispatch-IsSolvent_example = dispatch-IsSolvent env world recruit 77 world-IsSolvent

other_slot : 2 ≢ (with_issuer world recruit).issuer_slot
unfolding with_issuer
other_slot = omega arith

dispatch_other_banks_example :
    lookup 2 (dispatch env world recruit 77).0.resources ≡ lookup 2 world.resources
dispatch_other_banks_example = dispatch_other_banks env world recruit 77 2 other_slot

no_move : handler_for aimless.kind ≢ some moves
unfolding handler_for
no_move = λ e. ground (arith, e)

aimless_refused : (dispatch env world aimless 0).1.error ≡ some unknown_target
unfolding dispatch dispatch_active with_issuer handler_for apply apply_declare_war resolve_target
    extra lookup
aimless_refused = refl

dispatch_refused_example : (dispatch env world aimless 0).0 ≡ world
dispatch_refused_example =
    dispatch_refused env world aimless 0 unknown_target no_move aimless_refused

world-IsTimeline : IsTimeline (first_pulse ∷ [])
world-IsTimeline zero k0 kn = absurd (omega arith)
world-IsTimeline (suc k) k0 kn = absurd (omega arith)

abbrev leg : Leg
leg = record { from_prov = 10; to_prov = 20; from_x = 10; from_y = 0; to_x = 20; to_y = 0 }

abbrev marching : Match × GameUnit
marching = set_unit_path fl world (unit 1 1 100 10) (leg ∷ []) 1000

set_unit_path_effect_example :
    (first : PathLeg) × (others : List PathLeg) × (marching.1.path ≡ first ∷ others)
    × Follows (leg ∷ []) (first ∷ others)
    × IsRising 1000 (first ∷ others)
    × (first.arrives_at ≡ 1000 + travel_time fl (unit 1 1 100 10) leg)
    × IsOn marching.1 first
    × (marching.1.path_index ≡ 0)
    × (lookup 1 marching.0.units ≡ replaced (lookup 1 world.units) marching.1)
    × (marching.1.started_at ≡ 1000)
    × IsTimeline marching.0.timeline
    × ((p : Event → Bool)
        → count p marching.0.timeline
          ≡ count p world.timeline
            + one p (record {
              at = marching.1.arrives_at;
              kind = arrival;
              unit_id = 1;
              other = 0;
              version = 1;
            }))
set_unit_path_effect_example =
    set_unit_path_effect fl world (unit 1 1 100 10) leg [] 1000 world-IsTimeline

abbrev pulsed : Match
pulsed = (apply_macro_pulse world first_pulse).0

apply_macro_pulse-IsSolvent_example : IsSolvent pulsed
apply_macro_pulse-IsSolvent_example = apply_macro_pulse-IsSolvent world first_pulse world-IsSolvent

abbrev two : Slot
two = 2

leg_blocked_iff_example : (leg_blocked new 1 ((20, two) ∷ []) leg ≡ true) ↔ (
    (two ≢ no_slot)
    × (two ≢ 1)
    × (stance new 1 2 ≡ peace)
    × (has_pact new 2 1 right_of_way ≡ false))
unfolding lookup
leg_blocked_iff_example = leg_blocked_iff new 1 ((20, two) ∷ []) leg

abbrev recruiting : Match
recruiting = (apply_recruit world recruit 77).0

accepted_recruit : (apply_recruit world recruit 77).1.error ≡ none
unfolding apply_recruit recruit_kind Units.by_id extra lookup can_pay
accepted_recruit = refl

apply_recruit_effect_example :
    (prov : Province) × (kind : Units.Kind) × (bank : Resources) × (order : RecruitOrder) × (lookup
        10 world.provinces
      ≡ some prov)
    × (prov.owner ≡ 1)
    × (Units.by_id (wanted_type recruit (extra recruit "type")) ≡ some kind)
    × (lacks_building world prov.id (Units.needs_building kind) ≡ false)
    × (lookup prov.id world.next_recruit ≡ none)
    × (lookup 1 world.resources ≡ some bank)
    × (can_pay bank (Units.cost kind) ≡ true)
    × (lookup 1 recruiting.resources ≡ some (pay bank (Units.cost kind)))
    × (lookup prov.id recruiting.next_recruit ≡ some order)
    × ((order.id ≡ 77)
        × (order.owner_slot ≡ 1)
        × (order.province ≡ prov.id)
        × (order.unit_type ≡ Units.id kind)
        × (order.issued_at ≡ 1000))
    × (order.completes_at ≡ 1000 + Units.build_time kind)
    × IsTimeline recruiting.timeline
    × ((p : Event → Bool)
        → count p recruiting.timeline
          ≡ count p world.timeline
            + one p (record {
              at = order.completes_at;
              kind = recruit_complete;
              unit_id = order.id;
              other = 0;
              version = 0;
            }))
apply_recruit_effect_example =
    apply_recruit_effect world recruit 77 world-IsTimeline accepted_recruit

abbrev construct : Command
construct = command "construct" 10 (("type", "factory") ∷ [])

abbrev constructing : Match
constructing = (apply_construct world construct 78).0

accepted_construct : (apply_construct world construct 78).1.error ≡ none
unfolding apply_construct construct_kind Buildings.by_id extra has_building lookup can_pay
accepted_construct = refl

apply_construct_effect_example :
    (prov : Province) × (kind : Buildings.Kind) × (bank : Resources) × (order : BuildOrder)
    × (lookup 10 world.provinces ≡ some prov)
    × (prov.owner ≡ 1)
    × (has_building world prov.id (Buildings.id kind) ≡ false)
    × (lookup prov.id world.next_build ≡ none)
    × (lookup 1 world.resources ≡ some bank)
    × (can_pay bank (Buildings.cost kind) ≡ true)
    × (lookup 1 constructing.resources ≡ some (pay bank (Buildings.cost kind)))
    × (lookup prov.id constructing.next_build ≡ some order)
    × ((order.id ≡ 78)
        × (order.owner_slot ≡ 1)
        × (order.province ≡ prov.id)
        × (order.building_type ≡ Buildings.id kind)
        × (order.issued_at ≡ 1000))
    × (order.completes_at ≡ 1000 + Buildings.build_time kind)
    × IsTimeline constructing.timeline
    × ((p : Event → Bool)
        → count p constructing.timeline
          ≡ count p world.timeline
            + one p (record {
              at = order.completes_at;
              kind = construct_complete;
              unit_id = order.id;
              other = 0;
              version = 0;
            }))
apply_construct_effect_example =
    apply_construct_effect world construct 78 world-IsTimeline accepted_construct
