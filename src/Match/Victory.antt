-- ===== src/Match/Victory.antt =====
-- internal/domain/matchdom/victory.go.
pub mod Capitals
pub mod Framed
pub mod Outcome
use rts_vibe_code.Prelude.{
  ℕ, ◌+◌, ◌*◌, Bool, true, false, not, ◌&&◌, ◌||◌, Option, none, some, List, [], ◌∷◌, ◌==◌,
  if◌then◌else◌, nat_key, contains,
}
use rts_vibe_code.GoMap.{GoMap, lookup, insert}
use rts_vibe_code.Diplomacy.{Slot, no_slot, Time, Registry}
use rts_vibe_code.Diplomacy.Queries.{coalition, coalition_id}
use rts_vibe_code.StaticMap.{sort}
use rts_vibe_code.Timeline.{Event, match_cleanup}
use rts_vibe_code.Timeline
use rts_vibe_code.Match.{
  Match, Province, Status, active, ended, AppliedEvent, match_ended, won_by, next_seq, values,
  slot_ids,
}

-- stats.go
abbrev cleanup_delay : ℕ
cleanup_delay = 5 * 60000000000

-- The keys of `capitalSlots` after the loop over the provinces.
pub capital_slots_from : List Province → List Slot → List Slot
capital_slots_from [] slots = slots
capital_slots_from (p ∷ rest) slots = capital_slots_from rest (
    if not p.capital || p.owner == no_slot || contains p.owner slots
    then slots
    else p.owner ∷ slots)

pub capital_slots : Match → List Slot
unfolding capital_slots_from
capital_slots m = capital_slots_from (values m.provinces) []

-- The coalition joins the map, unless the map has one under its leader.
abbrev pub add_under :
    Slot → List Slot → Option (List Slot) → GoMap Slot (List Slot) → GoMap Slot (List Slot)
add_under leader members (some known) found = found
add_under leader members none found = insert leader members found

pub add_coalition : Registry → List Slot → Slot → GoMap Slot (List Slot) → GoMap Slot (List Slot)
add_coalition d all slot found =
    let leader = coalition_id d slot all in
    add_under leader (coalition d slot all) (lookup leader found) found

pub coalitions_from :
    Registry → List Slot → List Slot → GoMap Slot (List Slot) → GoMap Slot (List Slot)
unfolding add_coalition
coalitions_from d all [] found = found
coalitions_from d all (slot ∷ rest) found =
    coalitions_from d all rest (add_coalition d all slot found)

abbrev held_by : List Slot → List Slot → List Slot
held_by [] capitals = []
held_by (s ∷ members) capitals =
    let rest = held_by members capitals in if contains s capitals then s ∷ rest else rest

unfoldable winning_slot_list : List Slot → List Slot → List Slot
winning_slot_list members capitals = sort (held_by members capitals)

pub end_match : Match → Slot → List Slot → Time → Match × List AppliedEvent
end_match m coal_id winners at =
    let m' = next_seq (record m {
      status = ended;
      winner_slot = coal_id;
      winner_coal = winners;
      timeline = Timeline.push m.timeline (record {
        at = at + cleanup_delay;
        kind = match_cleanup;
        unit_id = 0;
        other = 0;
        version = 0;
      });
    }) in
    (
      m',
      (record {
        kind = match_ended;
        occur_at = at;
        seq = m'.seq;
        unit_id = 0;
        province = 0;
        slot = coal_id;
        extra = won_by coal_id winners;
      })
          ∷ [],
    )

-- The end of `checkVictory`: `len(coalitions) != 1`, and else the one coalition.
pub settle : Match → List Slot → GoMap Slot (List Slot) → Time → Match × List AppliedEvent
unfolding end_match
settle m capitals ((coal_id, members) ∷ []) at =
    end_match m coal_id (winning_slot_list members capitals) at
settle m capitals _ at = (m, [])

-- The rest of `checkVictory`, over the slots that hold capitals.
abbrev pub decide : Match → Time → List Slot → Match × List AppliedEvent
decide m at [] = (m, [])
decide m at (c ∷ rest) =
    settle m (c ∷ rest) (coalitions_from m.diplomacy (slot_ids m) (c ∷ rest) []) at

pub check_active : Match → Time → Match × List AppliedEvent
unfolding settle
check_active m at = decide m at (capital_slots m)

abbrev pub while_active {ℓ} : {A : Type ℓ} → Status → A → A → A
while_active active go stop = go
while_active ended go stop = stop

pub check_victory : Match → Time → Match × List AppliedEvent
unfolding check_active
check_victory m at = while_active m.status (check_active m at) (m, [])
