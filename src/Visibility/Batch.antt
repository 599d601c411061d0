-- ===== src/Visibility/Batch.antt =====
-- internal/domain/visibility/batch.go: the work of one publication, shared by its slots.
use rts_vibe_code.Prelude.{
  ℕ, Bool, true, false, not, ◌&&◌, Option, none, some, List, [], ◌∷◌, ◌==◌, if◌then◌else◌, contains,
  nat_key,
}
use rts_vibe_code.GoMap.{GoMap, lookup, insert}
use rts_vibe_code.Float64.{Float64}
use rts_vibe_code.Economy.{Resources}
use rts_vibe_code.Diplomacy.{Slot, Time}
use rts_vibe_code.Match.{
  Match, GameUnit, Province, Building, AppliedEvent, AppliedKind, match_ended, province_captured,
  values,
}
use rts_vibe_code.Visibility.{visible_for}
use rts_vibe_code.Visibility.Wire.{
  ProvinceState, UnitState, BuildingState, PlayerState, TreatyState, MatchState, province_state,
  building_state, player_states, treaty_states, queue_state, pacts_for, unit_state,
}

pub record VisibleSet : Type 0 where
  pub provinces : List ℕ
  pub units : List ℕ

-- `players` and `treaties` are built at the first snapshot, `none` before.
pub record Batch : Type 0 where
  pub game : Match
  pub at : Time
  pub vis : GoMap Slot VisibleSet
  pub shared : Option (List PlayerState × List TreatyState)

unfoldable pub new_batch : Match → Batch
new_batch m = record { game = m; at = m.game_now; vis = []; shared = none }

unfoldable pub provinces_in : List ℕ → List Province → List ProvinceState
provinces_in seen [] = []
provinces_in seen (p ∷ rest) =
    let others = provinces_in seen rest in
    if contains p.id seen then province_state p ∷ others else others

unfoldable pub buildings_in : List ℕ → List Building → List BuildingState
buildings_in seen [] = []
buildings_in seen (b ∷ rest) =
    let others = buildings_in seen rest in
    if contains b.province seen then building_state b ∷ others else others

abbrev pub own_bank : Slot → Option Resources → GoMap Slot Resources
own_bank slot none = []
own_bank slot (some r) = (slot, r) ∷ []

-- The kinds of event that everybody observes.
abbrev is_public : AppliedKind → Bool
is_public match_ended = true
is_public province_captured = true
is_public _ = false

-- `SlotObservesEvent`, over the visible sets.
unfoldable pub observes : VisibleSet → Slot → AppliedEvent → Bool
observes v slot e =
    if e.slot == slot
    then true
    else if not (e.unit_id == 0) && contains e.unit_id v.units
    then true
    else if not (e.province == 0) && contains e.province v.provinces
    then true
    else is_public e.kind

-- `ensureShared`. (A batch of a match without players, whose slice is not nil either, is built once too.)
unfoldable pub ensure_shared : Batch → Batch × (List PlayerState × List TreatyState)
ensure_shared b = elim b.shared [
  | some shared ↦ (b, shared)
  | none ↦
      let shared : List PlayerState × List TreatyState =
        (player_states b.game, treaty_states b.game) in
      (record b { shared = some shared }, shared)
]

module _ (fl : Float64) where
  abbrev pub kept : Batch → Slot → Option VisibleSet → Batch × VisibleSet
  kept b slot (some v) = (b, v)
  kept b slot none =
      let (m, (provinces, units)) = visible_for fl b.game slot b.at in
      let v : VisibleSet = record { provinces = provinces; units = units } in
      (record b { game = m; vis = insert slot v b.vis }, v)

  unfoldable pub visible : Batch → Slot → Batch × VisibleSet
  visible b slot = kept b slot (lookup slot b.vis)

  unfoldable pub slot_observes_event : Batch → Slot → AppliedEvent → Batch × Bool
  unfolding observes
  slot_observes_event b slot e = let (b', v) = visible b slot in (b', observes v slot e)

  unfoldable pub units_in : List ℕ → Time → List GameUnit → List UnitState
  units_in seen at [] = []
  units_in seen at (u ∷ rest) =
      let others = units_in seen at rest in
      if contains u.id seen then unit_state fl at u ∷ others else others

  -- The snapshot for a slot, of what it sees and what is shared.
  unfoldable pub view_of :
      Match → Time → Slot → VisibleSet → List PlayerState × List TreatyState → MatchState
  unfolding provinces_in units_in buildings_in
  view_of m at slot v (players, treaties) = record {
    match_id = m.id;
    tick = m.tick;
    game_time = at;
    provinces = provinces_in v.provinces (values m.provinces);
    units = units_in v.units at (values m.units);
    players = players;
    resources = own_bank slot (lookup slot m.resources);
    buildings = buildings_in v.provinces m.buildings;
    queues = queue_state m slot;
    diplomacy = treaties;
    pacts = pacts_for m slot;
  }

  unfoldable pub filtered : Batch → Slot → Batch × MatchState
  unfolding view_of
  filtered b slot =
      let (b1, v) = visible b slot in
      let (b2, shared) = ensure_shared b1 in (b2, view_of b2.game b2.at slot v shared)
