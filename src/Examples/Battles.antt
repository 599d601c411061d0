-- ===== src/Examples/Battles.antt =====
-- Combat, capture, victory and the timeline in the small match.
use rts_vibe_code.Prelude.{
  true, ℕ, zero, suc, ◌+◌, ◌≤◌, ◌≡◌, ◌≢◌, refl, Bool, none, some, [], ◌∷◌, arith, length, ◌⊎◌,
  nat_key,
}
use rts_vibe_code.GoMap.{lookup, insert}
use rts_vibe_code.Heap.Array.{count, one}
use rts_vibe_code.Diplomacy.{Registry, no_slot}
use rts_vibe_code.Diplomacy.Queries.{
  new, recorded, stance, coalition, coalition_search, coalition_id, search_from, expand, visit,
  least,
}
use rts_vibe_code.Diplomacy.{sorted_pair}
use rts_vibe_code.Diplomacy.Transitions.{
  propose_alliance, accept_alliance, propose, accept, upsert, bump_version,
}
use rts_vibe_code.Diplomacy.Queries.{treaty}
use rts_vibe_code.StaticMap.{sort, insert_sorted}
use rts_vibe_code.Diplomacy.History.{after, step, offers_alliance, accepts_alliance}
use rts_vibe_code.Timeline.{Timeline, Event, pop, peek, push, arrival}
use rts_vibe_code.Timeline.Order.{IsTimeline, push_lem, pop_earliest}
use rts_vibe_code.Match.{Match, Province, slot_ids, ended, is_moving}
use rts_vibe_code.Match.Combat.{
  Champions, Fighting, fight, resolve_province, stationary_units_in, stationary_among,
  is_stationary,
}
use rts_vibe_code.Match.Combat.Fight.{AreFit, fight_ends}
use rts_vibe_code.Match.Combat.Deadlock.{IsStuck, resolve_province_hangs}
use rts_vibe_code.Match.Combat.Capture.{Kept, Taken, behind, capture_effect}
use rts_vibe_code.Match.Victory.{check_victory}
use rts_vibe_code.Match.Victory.Outcome.{HoldsAll, check_victory_decides}
use rts_vibe_code.Examples.World.{home, frontier, unit, game, first_pulse}

abbrev two : Champions
two = (1, unit 1 1 100 10) ∷ (2, unit 2 2 60 10) ∷ []

abbrev brawl : Fighting
brawl = record { game = game new []; champions = two; out = [] }

two-AreFit : AreFit two
two-AreFit =
    (refl, omega arith, (omega arith, tt), (omega arith, tt), (refl, omega arith, tt, tt, tt))

fight_ends_example :
    (g : Fighting) × (fight 200 10 0 brawl ≡ some g) × (length g.champions ≡ 1) × AreFit g.champions
fight_ends_example = fight_ends 200 10 0 brawl two-AreFit (omega arith) (omega arith)

-- Slots 1 and 2 are allied, and 1 leads them. A unit of 2 meets a stronger one of 3.
abbrev allies : Registry
allies = after (accepts_alliance 2 1 15 ∷ offers_alliance 1 2 10 ∷ [])

abbrev clash : Match
clash = game allies ((5, unit 5 2 60 10) ∷ (6, unit 6 3 100 10) ∷ [])

standing : stationary_units_in clash 10 0 ≡ unit 5 2 60 10 ∷ unit 6 3 100 10 ∷ []
unfolding stationary_units_in stationary_among is_stationary is_moving
standing = refl

leader_of_two : coalition_id clash.diplomacy 2 (slot_ids clash) ≡ 1
unfolding after step new propose_alliance accept_alliance propose accept upsert bump_version
    slot_ids sort insert_sorted recorded treaty stance sorted_pair lookup insert coalition
    coalition_search search_from expand visit coalition_id least
leader_of_two = refl

leader_of_three : coalition_id clash.diplomacy 3 (slot_ids clash) ≡ 3
unfolding after step new propose_alliance accept_alliance propose accept upsert bump_version
    slot_ids sort insert_sorted recorded treaty stance sorted_pair lookup insert coalition
    coalition_search search_from expand visit coalition_id least
leader_of_three = refl

clash-IsStuck : IsStuck 1 3 (unit 5 2 60 10) (unit 6 3 100 10)
clash-IsStuck = record {
  weaker = omega arith;
  apart = omega arith;
  foreign = omega arith;
  no_rival = omega arith;
}

resolve_province_hangs_example : resolve_province 100000 clash home 0 ≡ none
resolve_province_hangs_example =
    resolve_province_hangs clash home 0 true 1 3 (unit 5 2 60 10) (unit 6 3 100 10) standing
      leader_of_two leader_of_three (omega arith) 100000 clash-IsStuck

frontier_there : lookup frontier.id (game new []).provinces ≡ some frontier
unfolding lookup
frontier_there = refl

capture_effect_example :
    (p : Province) × (Kept (game new []) frontier 1 (unit 1 1 100 20) 0 p
      ⊎ Taken (game new []) frontier 1 (unit 1 1 100 20) 0 p)
    × (p.owner ≢ no_slot)
    × (coalition_id new p.owner (slot_ids (game new []))
        ≡ coalition_id new 1 (slot_ids (game new [])))
    × (lookup 10 (behind (game new []) frontier 1 (unit 1 1 100 20) 0).0.provinces
        ≡ lookup 10 (game new []).provinces)
capture_effect_example =
    capture_effect (game new []) frontier 1 (unit 1 1 100 20) 0 frontier_there (omega arith) 10

check_victory_decides_example :
    (HoldsAll clash (check_victory clash 5).0.winner_slot
      × ((check_victory clash 5).0.status ≡ ended))
    ⊎ ((check_victory clash 5 ≡ (clash, [])) × ((coal : ℕ) → ¬ HoldsAll clash coal))
check_victory_decides_example = check_victory_decides clash 5 refl

abbrev march : Event
march = record { at = 1800; kind = arrival; unit_id = 1; other = 0; version = 1 }

two-IsTimeline : IsTimeline (march ∷ first_pulse ∷ [])
two-IsTimeline zero k0 kn = absurd (omega arith)
two-IsTimeline (suc zero) k0 kn = omega arith
two-IsTimeline (suc (suc k)) k0 kn = absurd (omega arith)

push_lem_example :
    IsTimeline (push (march ∷ first_pulse ∷ []) march)
    × ((p : Event → Bool)
        → count p (push (march ∷ first_pulse ∷ []) march)
          ≡ count p (march ∷ first_pulse ∷ []) + one p march)
push_lem_example = push_lem (march ∷ first_pulse ∷ []) march two-IsTimeline

pop_earliest_example :
    (rest : Timeline) × (pop (march ∷ first_pulse ∷ []) ≡ some (march, rest))
    × (peek (march ∷ first_pulse ∷ []) ≡ some march)
    × (1800 ≤ 3600)
    × ((p : Event → Bool) → count p (march ∷ first_pulse ∷ []) ≡ count p rest + one p march)
    × IsTimeline rest
    × (1 ≡ length rest)
pop_earliest_example = pop_earliest march (first_pulse ∷ []) two-IsTimeline 1 first_pulse refl
