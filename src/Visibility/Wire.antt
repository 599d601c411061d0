-- ===== src/Visibility/Wire.antt =====
-- The snapshots of internal/domain/visibility: visibility.go, diplomacy.go and `UnitToWire` of
-- internal/domain/matchdom/wire_unit.go, in the records of pkg/shared/wire.
use Prim.Native.String.{String}
use rts_vibe_code.Prelude.{
  ℕ, Bool, true, false, ◌||◌, List, [], ◌∷◌, ◌++◌, map, ltb, ◌==◌, if◌then◌else◌, nat_key,
}
use rts_vibe_code.Prelude.Int.{ℤ}
use rts_vibe_code.GoMap.{GoMap}
use rts_vibe_code.Float64.{F64, Float64}
use rts_vibe_code.Economy.{Resources}
use rts_vibe_code.Diplomacy.{
  Slot, no_slot, Time, Stance, Pending, PactKind, share_map, right_of_way, Treaty, Pact, Registry,
}
use rts_vibe_code.Match.{
  Match, GameUnit, Province, Player, Building, RecruitOrder, BuildOrder, PathLeg, values, slot_ids,
}
use rts_vibe_code.Match.Position.{position_at}

pub record ProvinceState : Type 0 where
  pub id : ℕ
  pub owner_id : Slot
  pub x : F64
  pub y : F64
  pub capital : Bool

-- The legs of the path are copied as they are.
pub record UnitState : Type 0 where
  pub id : ℕ
  pub owner_id : Slot
  pub unit_type : String
  pub x : F64
  pub y : F64
  pub hp : ℤ
  pub origin : ℕ
  pub dest : ℕ
  pub started_at : Time
  pub arrives_at : Time
  pub path : List PathLeg
  pub path_index : ℕ

pub record PlayerState : Type 0 where
  pub id : Slot
  pub name : String
  pub color : String
  pub alive : Bool

pub record BuildingState : Type 0 where
  pub building_type : String
  pub province : ℕ
  pub owner : Slot

pub record QueuedRecruit : Type 0 where
  pub province : ℕ
  pub unit_type : String
  pub owner : Slot
  pub completes_at : Time

pub record QueuedConstruction : Type 0 where
  pub province : ℕ
  pub building_type : String
  pub owner : Slot
  pub completes_at : Time

pub record QueueState : Type 0 where
  pub recruits : List QueuedRecruit
  pub constructions : List QueuedConstruction

pub record TreatyState : Type 0 where
  pub slot_a : Slot
  pub slot_b : Slot
  pub stance : Stance
  pub pending : Pending
  pub pending_from : Slot
  pub changed_at : Time

pub record PactState : Type 0 where
  pub granter : Slot
  pub grantee : Slot
  pub kind : PactKind
  pub granted_at : Time

pub record MatchState : Type 0 where
  pub match_id : ℕ
  pub tick : ℕ
  pub game_time : Time
  pub provinces : List ProvinceState
  pub units : List UnitState
  pub players : List PlayerState
  pub resources : GoMap Slot Resources
  pub buildings : List BuildingState
  pub queues : QueueState
  pub diplomacy : List TreatyState
  pub pacts : List PactState

unfoldable pub unit_to_wire : GameUnit → F64 × F64 → UnitState
unit_to_wire u (x, y) = record {
  id = u.id;
  owner_id = u.owner_slot;
  unit_type = u.unit_type;
  x = x;
  y = y;
  hp = u.hp;
  origin = u.origin;
  dest = u.dest;
  started_at = u.started_at;
  arrives_at = u.arrives_at;
  path = u.path;
  path_index = u.path_index;
}

abbrev pub province_state : Province → ProvinceState
province_state p = record { id = p.id; owner_id = p.owner; x = p.x; y = p.y; capital = p.capital }

abbrev pub building_state : Building → BuildingState
building_state b = record {
  building_type = b.building_type;
  province = b.province;
  owner = b.owner_slot;
}

abbrev pub player_state : Player → PlayerState
player_state p = record { id = p.slot; name = p.name; color = p.color; alive = p.alive }

unfoldable pub player_states : Match → List PlayerState
player_states m = map player_state (values m.players)

abbrev queued_recruit : RecruitOrder → QueuedRecruit
queued_recruit o = record {
  province = o.province;
  unit_type = o.unit_type;
  owner = o.owner_slot;
  completes_at = o.completes_at;
}

abbrev queued_construction : BuildOrder → QueuedConstruction
queued_construction o = record {
  province = o.province;
  building_type = o.building_type;
  owner = o.owner_slot;
  completes_at = o.completes_at;
}

-- `filterSlot != "" && o.OwnerSlot != filterSlot` skips the order.
abbrev pub may_read : Slot → Slot → Bool
may_read filter owner = filter == no_slot || owner == filter

unfoldable pub recruits_of : Slot → List RecruitOrder → List QueuedRecruit
recruits_of filter [] = []
recruits_of filter (o ∷ rest) =
    let others = recruits_of filter rest in
    if may_read filter o.owner_slot then queued_recruit o ∷ others else others

unfoldable pub constructions_of : Slot → List BuildOrder → List QueuedConstruction
constructions_of filter [] = []
constructions_of filter (o ∷ rest) =
    let others = constructions_of filter rest in
    if may_read filter o.owner_slot then queued_construction o ∷ others else others

unfoldable pub queue_state : Match → Slot → QueueState
unfolding recruits_of constructions_of
queue_state m filter = record {
  recruits = recruits_of filter (values m.next_recruit);
  constructions = constructions_of filter (values m.next_build);
}

-- `sort.Slice`: the items in the order of a test for less.
unfoldable pub insert_by {ℓ} : {A : Type ℓ} → (A → A → Bool) → A → List A → List A
insert_by less a [] = a ∷ []
insert_by less a (x ∷ xs) = if less x a then x ∷ insert_by less a xs else a ∷ x ∷ xs

unfoldable pub sort_by {ℓ} : {A : Type ℓ} → (A → A → Bool) → List A → List A
unfolding insert_by
sort_by less [] = []
sort_by less (x ∷ xs) = insert_by less x (sort_by less xs)

abbrev treaty_less : Treaty → Treaty → Bool
treaty_less s t = if s.slot_a == t.slot_a then ltb s.slot_b t.slot_b else ltb s.slot_a t.slot_a

-- The two kinds in the order of their texts, "right_of_way" and "share_map".
abbrev kind_less : PactKind → PactKind → Bool
kind_less right_of_way share_map = true
kind_less _ _ = false

abbrev pact_less : Pact → Pact → Bool
pact_less p q = if p.grantee == q.grantee then kind_less p.kind q.kind else ltb p.grantee q.grantee

abbrev pub all_values {ℓ} : {K V : Type ℓ} → GoMap K V → List V
all_values [] = []
all_values ((k, v) ∷ m) = v ∷ all_values m

unfoldable pub all_treaties : Registry → List Treaty
all_treaties r = sort_by treaty_less (all_values r.treaties)

unfoldable pub granted_by : Slot → List Pact → List Pact
granted_by from [] = []
granted_by from (p ∷ rest) =
    let others = granted_by from rest in if p.granter == from then p ∷ others else others

unfoldable pub pacts_from : Registry → Slot → List Pact
unfolding granted_by
pacts_from r from = sort_by pact_less (granted_by from (all_values r.pacts))

abbrev treaty_state : Treaty → TreatyState
treaty_state t = record {
  slot_a = t.slot_a;
  slot_b = t.slot_b;
  stance = t.stance;
  pending = t.pending;
  pending_from = t.pending_from;
  changed_at = t.changed_at;
}

unfoldable pub treaty_states : Match → List TreatyState
treaty_states m = map treaty_state (all_treaties m.diplomacy)

unfoldable pub pacts_of_slots : Registry → List Slot → List Pact
pacts_of_slots r [] = []
pacts_of_slots r (slot ∷ rest) = pacts_from r slot ++ pacts_of_slots r rest

unfoldable pub all_pacts : Match → List Pact
unfolding pacts_of_slots
all_pacts m = pacts_of_slots m.diplomacy (slot_ids m)

abbrev pact_state : Pact → PactState
pact_state p = record {
  granter = p.granter;
  grantee = p.grantee;
  kind = p.kind;
  granted_at = p.granted_at;
}

-- `viewer != "" && viewer != p.From && viewer != p.To` skips the pact.
abbrev pub is_party : Slot → Pact → Bool
is_party viewer p = viewer == no_slot || (viewer == p.granter || viewer == p.grantee)

unfoldable pub pacts_among : Slot → List Pact → List PactState
pacts_among viewer [] = []
pacts_among viewer (p ∷ rest) =
    let others = pacts_among viewer rest in
    if is_party viewer p then pact_state p ∷ others else others

unfoldable pub pacts_for : Match → Slot → List PactState
unfolding pacts_among
pacts_for m viewer = pacts_among viewer (all_pacts m)

module _ (fl : Float64) where
  abbrev pub unit_state : Time → GameUnit → UnitState
  unit_state at u = unit_to_wire u (position_at fl u at)

  -- `Snapshot`: everything.
  unfoldable pub snapshot : Match → MatchState
  snapshot m = record {
    match_id = m.id;
    tick = m.tick;
    game_time = m.game_now;
    provinces = map province_state (values m.provinces);
    units = map (unit_state m.game_now) (values m.units);
    players = player_states m;
    resources = m.resources;
    buildings = map building_state m.buildings;
    queues = queue_state m no_slot;
    diplomacy = treaty_states m;
    pacts = pacts_for m no_slot;
  }
