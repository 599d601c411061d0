-- ===== src/Events/Sound.antt =====
-- The handlers of the timeline's events, and the loop over the events, as far as the basis of a match and its
-- banks go.
use rts_vibe_code.Prelude.{
  ℕ, zero, suc, ◌≡◌, refl, ap, subst, ◌∙◌, Bool, true, false, Option, none, some, List, [], ◌∷◌,
  arith, nat_key, ◌==◌, Bool-cases, inl, inr, if◌then◌else◌,
}
use rts_vibe_code.GoMap.{lookup, delete, lookup-insert}
use rts_vibe_code.Float64.{Float64}
use rts_vibe_code.Catalogue.Units
use rts_vibe_code.Economy.{Resources, add, halved}
use rts_vibe_code.Diplomacy.{Slot, Time}
use rts_vibe_code.Timeline
use rts_vibe_code.Timeline.{
  Event, Kind, arrival, macro_pulse, victory_check, recruit_complete, construct_complete,
  match_cleanup, combat_start, combat_tick,
}
use rts_vibe_code.Match.{Match, GameUnit, Province, RecruitOrder, BuildOrder, AppliedEvent, PathLeg}
use rts_vibe_code.Match.Frame.{frame, basis}
use rts_vibe_code.Match.Combat.Framed.{KeepsFrame, KeepsFrame-if}
use rts_vibe_code.Match.Victory.Framed.{check_victory-frame}
use rts_vibe_code.Match.Victory.{check_victory}
use rts_vibe_code.Movement.Framed.{fought-frame, complete_unit_leg-frame}
use rts_vibe_code.Commands.Solvency.{NonNegative, IsSolvent}
use rts_vibe_code.Events.Pulse.{apply_macro_pulse}
use rts_vibe_code.Events.Completion.{
  refund_to, refunded, refund, owned_province, spawn, spawn_or_refund, finish_recruit,
  complete_recruit, find_recruit, apply_recruit_complete, build_on, finish_build, complete_build,
  find_build, apply_construct_complete,
}
use rts_vibe_code.Events.{
  apply_match_cleanup, stands_in, arrive_at, arrive_in, by_path, arrival_of, apply_arrival,
  by_event_kind, handle_event,
}
use rts_vibe_code.Events.Revenue.{add-NonNegative, apply_macro_pulse-IsSolvent}
use rts_vibe_code.Events.Loop.{process_next, is_idle, with_more, taken, followed}

-- The basis is the same, and no bank owes anything if none did.
abbrev pub IsSound : Match → Match → Type 0
IsSound m m' = (basis m' ≡ basis m) × (IsSolvent m → IsSolvent m')

pub IsSound-trans : (m1 m2 m3 : Match) → IsSound m1 m2 → IsSound m2 m3 → IsSound m1 m3
IsSound-trans m1 m2 m3 (same, s) (same', s') = (same' ∙ same, λ solvent. s' (s solvent))

pub frame-IsSound : (m m' : Match) → frame m' ≡ frame m → IsSound m m'
frame-IsSound m m' same = (
  ap (λ f. f.basis) same,
  λ s slot bank e.
      s slot bank (subst (λ banks. lookup slot banks ≡ some bank) (ap (λ f. f.banks) same) e),
)

halved-cost-NonNegative : (kind : Units.Kind) → NonNegative (halved (Units.cost kind))
unfolding halved
halved-cost-NonNegative kind = (ground arith, ground arith, ground arith)

refunded-IsSound :
    (m : Match) (owner : Slot) (kind : Option Units.Kind) (bank : Option Resources)
    → lookup owner m.resources ≡ bank
    → IsSound m (refunded m owner (refund_to kind bank))
refunded-IsSound m owner none bank e = frame-IsSound m m refl
refunded-IsSound m owner (some kind) none e = frame-IsSound m m refl
refunded-IsSound m owner (some kind) (some bank) e =
    let bank' = add bank (halved (Units.cost kind)) in
    (
      refl,
      λ s slot b.
          rw (lookup-insert owner slot bank' m.resources) (elim (Bool-cases (owner == slot)) [
            | inl hit ↦ rw hit λ same. subst NonNegative (cc (same)) (
                add-NonNegative bank (halved (Units.cost kind)) (s owner bank e)
                  (halved-cost-NonNegative kind))
            | inr miss ↦ rw miss (s slot b)
          ]),
    )

refund-IsSound : (m : Match) (order : RecruitOrder) → IsSound m (refund m order)
unfolding refund
refund-IsSound m order =
    refunded-IsSound m order.owner_slot (Units.by_id order.unit_type)
      (lookup order.owner_slot m.resources) refl

module _ (fl : Float64) where
  spawn-frame :
      (m : Match) (order : RecruitOrder) (prov : Province) (kind : Option Units.Kind) (fresh : ℕ)
      (at : Time)
      → frame (spawn fl m order prov kind fresh at).0 ≡ frame m
  spawn-frame m order prov none fresh at = refl
  spawn-frame m order prov (some kind) fresh at = refl

  spawn_or_refund-IsSound :
      (m : Match) (order : RecruitOrder) (fresh : ℕ) (at : Time) (prov : Option Province)
      → IsSound m (spawn_or_refund fl m order fresh at prov).0
  spawn_or_refund-IsSound m order fresh at none = refund-IsSound m order
  spawn_or_refund-IsSound m order fresh at (some prov) =
      frame-IsSound m (spawn fl m order prov (Units.by_id order.unit_type) fresh at).0
        (spawn-frame m order prov (Units.by_id order.unit_type) fresh at)

  complete_recruit-IsSound :
      (m : Match) (fresh : ℕ) (at : Time) (found : Option (ℕ × RecruitOrder))
      → IsSound m (complete_recruit fl m fresh at found).0
  unfolding finish_recruit
  complete_recruit-IsSound m fresh at none = frame-IsSound m m refl
  complete_recruit-IsSound m fresh at (some (key, order)) =
      spawn_or_refund-IsSound (record m { next_recruit = delete key m.next_recruit }) order fresh at
        (owned_province (lookup order.province m.provinces) order.owner_slot)

build_on-frame :
    (m : Match) (order : BuildOrder) (at : Time) (prov : Option Province)
    → frame (build_on m order at prov).0 ≡ frame m
build_on-frame m order at none = refl
build_on-frame m order at (some prov) = refl

complete_build-frame :
    (m : Match) (at : Time) (found : Option (ℕ × BuildOrder))
    → frame (complete_build m at found).0 ≡ frame m
unfolding finish_build
complete_build-frame m at none = refl
complete_build-frame m at (some (key, order)) =
    build_on-frame (record m { next_build = delete key m.next_build }) order at
      (owned_province (lookup order.province m.provinces) order.owner_slot)

apply_macro_pulse-basis : (m : Match) (ev : Event) → basis (apply_macro_pulse m ev).0 ≡ basis m
unfolding apply_macro_pulse
apply_macro_pulse-basis m ev = refl

apply_match_cleanup-frame : (m : Match) (ev : Event) → frame (apply_match_cleanup m ev).0 ≡ frame m
unfolding apply_match_cleanup
apply_match_cleanup-frame m ev = ground arith

-- What may have come of an operation: nothing, or a match that is sound by this one.
abbrev pub KeepsSound : Match → Option (Match × List AppliedEvent) → Type 0
KeepsSound m none = Unit
KeepsSound m (some (m', out)) = IsSound m m'

frame-KeepsSound :
    (m : Match) (o : Option (Match × List AppliedEvent)) → KeepsFrame m o → KeepsSound m o
frame-KeepsSound m none h = tt
frame-KeepsSound m (some (m', out)) h = frame-IsSound m m' h

module _ (fl : Float64) (fuel : ℕ) where
  arrive_in-frame :
      (m : Match) (u : GameUnit) (prov : Option Province) (at : Time)
      → KeepsFrame m (arrive_in fl fuel m u prov at)
  unfolding arrive_at
  arrive_in-frame m u none at = refl
  arrive_in-frame m u (some prov) at =
      let (m', out) = stands_in fl fuel m u prov at in
      fought-frame fuel m m' (some prov) out at refl

  by_path-frame :
      (m : Match) (u : GameUnit) (path : List PathLeg) (at : Time)
      → KeepsFrame m (by_path fl fuel m u path at)
  by_path-frame m u [] at = arrive_in-frame m u (lookup u.dest m.provinces) at
  by_path-frame m u (leg ∷ rest) at = complete_unit_leg-frame fl fuel m u at

  arrival_of-frame :
      (m : Match) (ev : Event) (u : Option GameUnit) → KeepsFrame m (arrival_of fl fuel m ev u)
  arrival_of-frame m ev none = refl
  arrival_of-frame m ev (some u) =
      KeepsFrame-if m (u.version == ev.version) (by_path fl fuel m u u.path ev.at) (some (m, []))
        (by_path-frame m u u.path ev.at) refl

  by_event_kind-KeepsSound :
      (kind : Kind) (m : Match) (ev : Event) (fresh : ℕ)
      → KeepsSound m (by_event_kind fl fuel kind m ev fresh)
  unfolding apply_arrival apply_recruit_complete apply_construct_complete
  by_event_kind-KeepsSound arrival m ev fresh =
      frame-KeepsSound m (arrival_of fl fuel m ev (lookup ev.unit_id m.units))
        (arrival_of-frame m ev (lookup ev.unit_id m.units))
  by_event_kind-KeepsSound macro_pulse m ev fresh =
      (apply_macro_pulse-basis m ev, apply_macro_pulse-IsSolvent m ev)
  by_event_kind-KeepsSound recruit_complete m ev fresh =
      complete_recruit-IsSound fl m fresh ev.at (find_recruit ev.unit_id m.next_recruit)
  by_event_kind-KeepsSound construct_complete m ev fresh =
      frame-IsSound m (complete_build m ev.at (find_build ev.unit_id m.next_build)).0
        (complete_build-frame m ev.at (find_build ev.unit_id m.next_build))
  by_event_kind-KeepsSound victory_check m ev fresh =
      frame-IsSound m (check_victory m ev.at).0 (check_victory-frame m ev.at)
  by_event_kind-KeepsSound match_cleanup m ev fresh =
      frame-IsSound m (apply_match_cleanup m ev).0 (apply_match_cleanup-frame m ev)
  by_event_kind-KeepsSound combat_start m ev fresh = frame-IsSound m m refl
  by_event_kind-KeepsSound combat_tick m ev fresh = frame-IsSound m m refl

  handle_event-KeepsSound :
      (m : Match) (ev : Event) (fresh : ℕ) → KeepsSound m (handle_event fl fuel m ev fresh)
  unfolding handle_event
  handle_event-KeepsSound m ev fresh = by_event_kind-KeepsSound ev.kind m ev fresh

  module _ (ids : ℕ → ℕ) where
    with_more-KeepsSound :
        (m m' : Match) (out : List AppliedEvent) (o : Option (Match × List AppliedEvent))
        → IsSound m m'
        → KeepsSound m' o
        → KeepsSound m (with_more fl fuel ids out o)
    with_more-KeepsSound m m' out none h more = tt
    with_more-KeepsSound m m' out (some (m2, later)) h more = IsSound-trans m m' m2 h more

    followed-KeepsSound :
        (m : Match) (next : Match → Option (Match × List AppliedEvent))
        (o : Option (Match × List AppliedEvent))
        → ((m' : Match) → KeepsSound m' (next m'))
        → KeepsSound m o
        → KeepsSound m (followed fl fuel ids next o)
    followed-KeepsSound m next none ih h = tt
    followed-KeepsSound m next (some (m', applied)) ih h =
        with_more-KeepsSound m m' applied (next m') h (ih m')

    taken-KeepsSound :
        (m : Match) (go : Event → Timeline.Timeline → Option (Match × List AppliedEvent))
        (popped : Option (Event × Timeline.Timeline))
        → ((ev : Event) (rest : Timeline.Timeline) → KeepsSound m (go ev rest))
        → KeepsSound m (taken fl fuel ids go popped)
    taken-KeepsSound m go none h = tt
    taken-KeepsSound m go (some (ev, rest)) h = h ev rest

    KeepsSound-if :
        (m : Match) (b : Bool) (x y : Option (Match × List AppliedEvent))
        → KeepsSound m x
        → KeepsSound m y
        → KeepsSound m (if b then x else y)
    KeepsSound-if m true x y hx hy = hx
    KeepsSound-if m false x y hx hy = hy

    -- The loop over the events that are due.
    pub process_next-KeepsSound :
        (steps n : ℕ) (m : Match) (now : Time)
        → KeepsSound m (process_next fl fuel ids steps n m now)
    unfolding process_next
    process_next-KeepsSound zero n m now =
        KeepsSound-if m (is_idle fl fuel ids (Timeline.peek m.timeline) now) (some (m, [])) none
          (frame-IsSound m m refl) tt
    process_next-KeepsSound (suc steps) n m now =
        let go : Event → Timeline.Timeline → Option (Match × List AppliedEvent) = λ ev rest.
          followed fl fuel ids (λ m'. process_next fl fuel ids steps (suc n) m' now)
            (handle_event fl fuel (record m { timeline = rest }) ev (ids n)) in
        KeepsSound-if m (is_idle fl fuel ids (Timeline.peek m.timeline) now) (some (m, []))
          (taken fl fuel ids go (Timeline.pop m.timeline)) (frame-IsSound m m refl)
          (taken-KeepsSound m go (Timeline.pop m.timeline) λ ev rest.
            followed-KeepsSound m _ (handle_event fl fuel (record m { timeline = rest }) ev (ids n))
              (λ m'. process_next-KeepsSound steps (suc n) m' now)
              (handle_event-KeepsSound (record m { timeline = rest }) ev (ids n)))
