-- ===== src/Examples/Treaties.antt =====
-- Small registries: the questions, the transitions and the coalitions of internal/domain/diplomacydom.
use rts_vibe_code.Prelude.{
  ℕ, ◌*◌, ◌<◌, ◌≤◌, ◌≡◌, ◌≢◌, ◌↔◌, refl, true, false, none, some, List, [], ◌∷◌, arith, contains,
}
use rts_vibe_code.GoMap.{lookup, insert}
use rts_vibe_code.Diplomacy.{
  Slot, Pending, war, alliance, pending_none, pending_peace, pending_alliance, share_map, Treaty,
  Registry, sorted_pair,
}
use rts_vibe_code.Diplomacy.Queries.{
  new, recorded, stance, treaty, has_pact, coalition, coalition_search, coalition_id, search_from,
  expand, visit, least,
}
use rts_vibe_code.Diplomacy.Transitions.{
  declare_war, propose, propose_alliance, accept, accept_alliance, grant_pact, revoke_pact, upsert,
  bump_version, cooldown_between_changes, pact_missing,
}
use rts_vibe_code.Diplomacy.Effects.{declare_war_effect}
use rts_vibe_code.Diplomacy.Offers.{propose_effect, accept_effect}
use rts_vibe_code.Diplomacy.History.{
  Action, accepts_peace, step, after, offers_alliance, accepts_alliance, grants, revokes,
  step_error_unchanged, step_same_version,
}
use rts_vibe_code.Diplomacy.Consent.{is_agreed, stance-is_agreed}
use rts_vibe_code.Diplomacy.Cooldown.{continued, by_offer, cooldown_holds}
use rts_vibe_code.Diplomacy.Coalition.{Linked}
use rts_vibe_code.Diplomacy.Coalition.Reach.{contains-coalition}
use rts_vibe_code.Diplomacy.Coalition.Leader.{coalition_id_least}

abbrev slots : List Slot
slots = 1 ∷ 2 ∷ 3 ∷ 4 ∷ []

abbrev hour : ℕ
hour = cooldown_between_changes

-- Slots 1 and 2 ally, then 2 and 3; 1 shares its map with 4.
abbrev past : List Action
past =
    grants 1 4 share_map 30
    ∷ accepts_alliance 3 2 25
    ∷ offers_alliance 2 3 20
    ∷ accepts_alliance 2 1 15
    ∷ offers_alliance 1 2 10
    ∷ []

abbrev allies : Registry
allies = after past

abbrev offered : Registry
offered = after (offers_alliance 1 2 10 ∷ [])

one_two : stance allies 1 2 ≡ alliance
unfolding after step new propose_alliance accept_alliance propose accept grant_pact upsert
    bump_version recorded treaty stance sorted_pair lookup insert
one_two = refl

coalition_of_one : coalition allies 1 slots ≡ 3 ∷ 2 ∷ 1 ∷ []
unfolding after step new propose_alliance accept_alliance propose accept grant_pact upsert
    bump_version recorded treaty stance sorted_pair lookup insert coalition coalition_search
    search_from expand visit
coalition_of_one = refl

leader_of_three : coalition_id allies 3 slots ≡ 1
unfolding after step new propose_alliance accept_alliance propose accept grant_pact upsert
    bump_version recorded treaty stance sorted_pair lookup insert coalition coalition_search
    search_from expand visit coalition_id least
leader_of_three = refl

contains-coalition_example :
    (contains 3 (coalition allies 1 slots) ≡ true) ↔ Linked allies slots 1 3
contains-coalition_example = contains-coalition allies 1 slots 3

three_in : contains 3 (coalition allies 1 slots) ≡ true
three_in = rw coalition_of_one refl

coalition_id_least_example :
    (contains (coalition_id allies 1 slots) (coalition allies 1 slots) ≡ true)
    × (coalition_id allies 1 slots ≤ 3)
coalition_id_least_example = coalition_id_least allies 1 slots 3 three_in

stance-is_agreed_example : is_agreed 1 2 past ≡ true
stance-is_agreed_example = stance-is_agreed past 1 2 one_two

-- An alliance is broken by a declaration of war, later than an hour after it was made.
abbrev late : ℕ
late = 2 * hour

abbrev broken : Registry
broken = (declare_war allies 1 2 late).0

breaks : declare_war allies 1 2 late ≡ (broken, none)
unfolding after step new propose_alliance accept_alliance propose accept grant_pact upsert
    bump_version recorded treaty stance sorted_pair lookup insert declare_war
breaks = refl

declare_war_effect_example :
    (stance allies 1 2 ≢ war) × (stance broken 2 1 ≡ war) × (has_pact broken 2 1 share_map ≡ false)
declare_war_effect_example = declare_war_effect allies 1 2 late breaks 2 1 share_map

abbrev agreed : Registry
agreed = (accept offered 2 1 pending_alliance alliance 15).0

agrees : accept offered 2 1 pending_alliance alliance 15 ≡ (agreed, none)
unfolding after step new propose_alliance propose accept upsert bump_version recorded treaty stance
    sorted_pair lookup insert
agrees = refl

accept_effect_example :
    ((t : Treaty) × (treaty offered 2 1 ≡ some t)
      × (t.pending ≡ pending_alliance)
      × (t.pending_from ≡ 1))
    × (stance agreed 1 2 ≡ alliance)
    × (has_pact agreed 1 2 share_map ≡ has_pact offered 1 2 share_map)
    × ((t : Treaty) × (treaty agreed 2 1 ≡ some t) × (t.pending ≡ pending_none))
accept_effect_example = accept_effect offered 2 1 pending_alliance alliance 15 agrees 1 2 share_map

abbrev asked : Registry
asked = (propose allies 1 3 pending_peace 40).0

asks : propose allies 1 3 pending_peace 40 ≡ (asked, none)
unfolding after step new propose_alliance accept_alliance propose accept grant_pact upsert
    bump_version recorded treaty stance sorted_pair lookup insert
asks = refl

propose_effect_example :
    (stance asked 1 2 ≡ stance allies 1 2)
    × (has_pact asked 1 2 share_map ≡ has_pact allies 1 2 share_map)
    × ((t : Treaty) × (treaty asked 1 3 ≡ some t)
        × (t.pending ≡ pending_peace)
        × (t.pending_from ≡ 1)
        × (t.changed_at ≡ 40))
propose_effect_example = propose_effect allies 1 3 pending_peace 40 asks 1 2 share_map

cooldown_holds_example :
    ((declare_war (continued asked (revokes 1 2 share_map ∷ accepts_peace 3 1 60 ∷ [])) 3 1 100).1
      ≢ none)
    × ((kind : Pending)
        → (propose
            (continued asked (revokes 1 2 share_map ∷ accepts_peace 3 1 60 ∷ []))
            3
            1
            kind
            100).1
          ≢ none)
cooldown_holds_example =
    cooldown_holds allies 1 3 40 asked (revokes 1 2 share_map ∷ accepts_peace 3 1 60 ∷ []) 3 1 100
      (by_offer pending_peace asks) (omega arith, (omega arith, tt)) refl (omega arith)

missing : (step offered (revokes 1 2 share_map)).1 ≡ some pact_missing
unfolding after step new propose_alliance propose upsert bump_version recorded treaty stance
    sorted_pair lookup insert revoke_pact
missing = refl

step_error_unchanged_example : (step offered (revokes 1 2 share_map)).0 ≡ offered
step_error_unchanged_example = step_error_unchanged offered (revokes 1 2 share_map) missing

small_version : offered.version < 18446744073709551616
unfolding after step new propose_alliance propose upsert bump_version recorded treaty stance
    sorted_pair lookup insert
small_version = omega arith

same_version : (step offered (revokes 1 2 share_map)).0.version ≡ offered.version
unfolding after step new propose_alliance propose upsert bump_version recorded treaty stance
    sorted_pair lookup insert revoke_pact
same_version = refl

step_same_version_example : (step offered (revokes 1 2 share_map)).0 ≡ offered
step_same_version_example =
    step_same_version offered (revokes 1 2 share_map) small_version same_version
