-- ===== src/Examples/Views.antt =====
-- What the players of the small match see of it.
use rts_vibe_code.Prelude.{
  ℕ, List, Option, some, if◌then◌else◌, ◌≡◌, refl, true, none, ◌∷◌, [], ◌==◌, contains, arith,
}
use rts_vibe_code.Diplomacy.Queries
use rts_vibe_code.Prelude.Int.{pos}
use rts_vibe_code.StaticMap
use rts_vibe_code.StaticMap.{neighbors}
use rts_vibe_code.Match.Start.{new}
use rts_vibe_code.Diplomacy.History.{offers_alliance, accepts_alliance}
use rts_vibe_code.Match.{Match}
use rts_vibe_code.Visibility.{seen, compute_viewer_contributors, viewer_contributors}
use rts_vibe_code.Visibility.Batch.{new_batch, filtered}
use rts_vibe_code.Visibility.Cache.{viewer_contributors-compute, after_turns, Turn, asks, calls}
use rts_vibe_code.Visibility.Privacy.{filtered_private, every}
use rts_vibe_code.Visibility.Sight.{seen_explained}
use rts_vibe_code.Examples.World.{fl, unit, game}

abbrev world : Match
world = game Queries.new ((1, unit 1 1 100 10) ∷ (2, unit 2 2 100 20) ∷ [])

seen_explained_example : contains 20 (seen fl world (1 ∷ []) 1000).0 ≡ true
unfolding neighbors
seen_explained_example = let (_, _, _, near) = seen_explained fl world (1 ∷ []) 1000 20 in near refl

-- An alliance is offered and accepted between two questions of slot 1.
abbrev past : List Turn
past = asks 1 ∷ calls (accepts_alliance 2 1 2000) ∷ calls (offers_alliance 1 2 1000) ∷ asks 1 ∷ []

viewer_contributors-compute_example :
    (viewer_contributors (after_turns world past) 1).1
    ≡ compute_viewer_contributors (after_turns world past) 1
unfolding Queries.new
viewer_contributors-compute_example =
    viewer_contributors-compute world past 1 refl refl (omega arith)

filtered_private_example :
    every (λ e. e.0 == 1) (filtered fl (new_batch world) 1).1.resources ≡ true
filtered_private_example =
    let (_, _, _, banks, _, _, _) = filtered_private fl (new_batch world) 1 (omega arith) in banks

-- A map of two provinces for two slots, each with a unit.
abbrev duel : StaticMap.Map
duel = record {
  id = 9;
  provinces =
      (record { id = 10; x = 10; y = 0; home_slot = 0 })
      ∷ (record { id = 20; x = 20; y = 0; home_slot = 2 })
      ∷ [];
  edges = (record { source = 10; target = 20 }) ∷ [];
  slots =
      (record { id = 1; color = "red"; capital = 10 })
      ∷ (record { id = 2; color = "blue"; capital = 20 })
      ∷ [];
  starting_units =
      (record { slot = 1; unit_type = "infantry"; province = 10; hp = pos 100 })
      ∷ (record { slot = 2; unit_type = "cavalry"; province = 20; hp = pos 0 })
      ∷ [];
}

abbrev load : ℕ → Option StaticMap.Map
load id = if id == 9 then some duel else none
