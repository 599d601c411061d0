-- ===== src/Events/Completion.antt =====
-- internal/domain/matchdom/event_recruit_complete.go and event_construct_complete.go.
use rts_vibe_code.Prelude.{ℕ, Option, none, some, List, [], ◌∷◌, ◌++◌, ◌==◌, if◌then◌else◌, nat_key}
use rts_vibe_code.GoMap.{GoMap, lookup, insert, delete}
use rts_vibe_code.Float64.{Float64}
use rts_vibe_code.Economy.{Resources, add, halved}
use rts_vibe_code.Catalogue.Units
use rts_vibe_code.Diplomacy.{Slot, Time}
use rts_vibe_code.Timeline.{Event}
use rts_vibe_code.Match.{
  Match, GameUnit, Province, Building, RecruitOrder, BuildOrder, AppliedEvent, unit_recruited,
  building_constructed, of_type, next_seq,
}

-- The first order of the map with this id, and its key.
unfoldable pub find_recruit : ℕ → GoMap ℕ RecruitOrder → Option (ℕ × RecruitOrder)
find_recruit id [] = none
find_recruit id ((k, o) ∷ rest) = if o.id == id then some (k, o) else find_recruit id rest

unfoldable pub find_build : ℕ → GoMap ℕ BuildOrder → Option (ℕ × BuildOrder)
find_build id [] = none
find_build id ((k, o) ∷ rest) = if o.id == id then some (k, o) else find_build id rest

-- `prov, ok := m.Provinces[id]` where it is the owner's.
abbrev pub owned_province : Option Province → Slot → Option Province
owned_province none slot = none
owned_province (some prov) slot = if prov.owner == slot then some prov else none

abbrev pub refund_to : Option Units.Kind → Option Resources → Option Resources
refund_to (some kind) (some bank) = some (add bank (halved (Units.cost kind)))
refund_to _ _ = none

-- Half the cost of an order whose province has changed hands.
abbrev pub refunded : Match → Slot → Option Resources → Match
refunded m owner none = m
refunded m owner (some bank) = record m { resources = insert owner bank m.resources }

unfoldable pub refund : Match → RecruitOrder → Match
refund m order =
    refunded m order.owner_slot
      (refund_to (Units.by_id order.unit_type) (lookup order.owner_slot m.resources))

module _ (fl : Float64) where
  -- `fresh` is the id that `uuid.New` gives.
  pub recruited : RecruitOrder → Units.Kind → Province → ℕ → Time → GameUnit
  recruited order kind prov fresh at = record {
    id = fresh;
    owner_slot = order.owner_slot;
    unit_type = order.unit_type;
    hp = Units.starting_hp kind;
    origin = prov.id;
    dest = prov.id;
    started_at = at;
    arrives_at = at;
    origin_x = prov.x;
    origin_y = prov.y;
    dest_x = prov.x;
    dest_y = prov.y;
    speed = Units.speed fl kind;
    version = 1;
    path = [];
    path_index = 0;
    waypoints = [];
  }

  abbrev pub spawn :
      Match → RecruitOrder → Province → Option Units.Kind → ℕ → Time → Match × List AppliedEvent
  spawn m order prov none fresh at = (m, [])
  spawn m order prov (some kind) fresh at =
      let m' =
        next_seq (record m { units = insert fresh (recruited order kind prov fresh at) m.units }) in
      (
        m',
        (record {
          kind = unit_recruited;
          occur_at = at;
          seq = m'.seq;
          unit_id = fresh;
          province = prov.id;
          slot = order.owner_slot;
          extra = of_type order.unit_type;
        })
            ∷ [],
      )

  -- With the province, if it is still the owner's.
  abbrev pub spawn_or_refund :
      Match → RecruitOrder → ℕ → Time → Option Province → Match × List AppliedEvent
  spawn_or_refund m order fresh at none = (refund m order, [])
  spawn_or_refund m order fresh at (some prov) =
      spawn m order prov (Units.by_id order.unit_type) fresh at

  unfoldable pub finish_recruit : Match → ℕ → RecruitOrder → ℕ → Time → Match × List AppliedEvent
  unfolding recruited
  finish_recruit m key order fresh at =
      let m' = record m { next_recruit = delete key m.next_recruit } in
      spawn_or_refund m' order fresh at
        (owned_province (lookup order.province m.provinces) order.owner_slot)

  abbrev pub complete_recruit :
      Match → ℕ → Time → Option (ℕ × RecruitOrder) → Match × List AppliedEvent
  complete_recruit m fresh at none = (m, [])
  complete_recruit m fresh at (some (key, order)) = finish_recruit m key order fresh at

  unfoldable pub apply_recruit_complete : Match → Event → ℕ → Match × List AppliedEvent
  apply_recruit_complete m ev fresh =
      complete_recruit m fresh ev.at (find_recruit ev.unit_id m.next_recruit)

-- With the province, if it is still the owner's.
abbrev pub build_on : Match → BuildOrder → Time → Option Province → Match × List AppliedEvent
build_on m order at none = (m, [])
build_on m order at (some prov) =
    let b : Building = record {
      building_type = order.building_type;
      province = prov.id;
      owner_slot = order.owner_slot;
    } in
    let m' = next_seq (record m { buildings = m.buildings ++ b ∷ [] }) in
    (
      m',
      (record {
        kind = building_constructed;
        occur_at = at;
        seq = m'.seq;
        unit_id = 0;
        province = prov.id;
        slot = order.owner_slot;
        extra = of_type order.building_type;
      })
          ∷ [],
    )

unfoldable pub finish_build : Match → ℕ → BuildOrder → Time → Match × List AppliedEvent
finish_build m key order at =
    build_on (record m { next_build = delete key m.next_build }) order at
      (owned_province (lookup order.province m.provinces) order.owner_slot)

abbrev pub complete_build : Match → Time → Option (ℕ × BuildOrder) → Match × List AppliedEvent
complete_build m at none = (m, [])
complete_build m at (some (key, order)) = finish_build m key order at

unfoldable pub apply_construct_complete : Match → Event → Match × List AppliedEvent
apply_construct_complete m ev = complete_build m ev.at (find_build ev.unit_id m.next_build)
