-- ===== src/Match.antt =====
-- internal/domain/matchdom/state.go and the records of events.go, movement.go and pathdom/snap.go: the
-- state of one match. The ids of units, provinces, slots, users and orders are numbers in the order of
-- the texts, the empty id 0; a map of pointers is a map of records, and `write_unit` writes through a
-- pointer. Strings that no code takes apart or extends (colours, names) are kept as text.
pub mod Combat
pub mod Frame
pub mod Position
pub mod Start
pub mod Victory
use Prim.Native.String.{String}
use text.Mathlib.Text.{◌==◌ as same_text}
use rts_vibe_code.Prelude.{
  ℕ, ◌+◌, Bool, true, false, not, ◌&&◌, ◌||◌, Option, none, some, List, [], ◌∷◌, leb, ltb, ◌==◌,
  if◌then◌else◌, u64, nat_key, get_elem?,
}
use rts_vibe_code.Prelude.Int.{ℤ}
use rts_vibe_code.GoMap.{GoMap, lookup, insert}
use rts_vibe_code.Float64.{F64}
use rts_vibe_code.Economy.{Resources}
use rts_vibe_code.Diplomacy.{Slot, Time, Registry}
use rts_vibe_code.StaticMap.{Map, sort}
use rts_vibe_code.Timeline.{Timeline}

-- pathdom.Target: a province, or a point of an edge.
pub data TargetKind : Type 0 where
  target_node target_edge : TargetKind

pub record Target : Type 0 where
  pub kind : TargetKind
  pub province : ℕ
  pub edge_from : ℕ
  pub edge_to : ℕ
  pub x : F64
  pub y : F64
  pub t : F64

pub record PathLeg : Type 0 where
  pub from_prov : ℕ
  pub to_prov : ℕ
  pub from_x : F64
  pub from_y : F64
  pub to_x : F64
  pub to_y : F64
  pub arrives_at : Time

-- The hit points are whole numbers in the source's tables and maps, and only ever added, subtracted and
-- halved for a comparison.
pub record GameUnit : Type 0 where
  pub id : ℕ
  pub owner_slot : Slot
  pub unit_type : String
  pub hp : ℤ
  pub origin : ℕ
  pub dest : ℕ
  pub started_at : Time
  pub arrives_at : Time
  pub origin_x : F64
  pub origin_y : F64
  pub dest_x : F64
  pub dest_y : F64
  pub speed : F64
  pub version : ℕ
  pub path : List PathLeg
  pub path_index : ℕ
  pub waypoints : List Target

pub record Province : Type 0 where
  pub id : ℕ
  pub x : F64
  pub y : F64
  pub owner : Slot
  pub capital : Bool

pub record Player : Type 0 where
  pub slot : Slot
  pub user_id : ℕ
  pub name : String
  pub color : String
  pub alive : Bool

pub record Building : Type 0 where
  pub building_type : String
  pub province : ℕ
  pub owner_slot : Slot

pub record RecruitOrder : Type 0 where
  pub id : ℕ
  pub owner_slot : Slot
  pub province : ℕ
  pub unit_type : String
  pub issued_at : Time
  pub completes_at : Time

pub record BuildOrder : Type 0 where
  pub id : ℕ
  pub owner_slot : Slot
  pub province : ℕ
  pub building_type : String
  pub issued_at : Time
  pub completes_at : Time

pub data Status : Type 0 where
  active ended : Status

pub record Match : Type 0 where
  pub id : ℕ
  pub map_id : ℕ
  pub static_map : Map
  pub tick : ℕ
  pub started_at : Time
  pub game_start : Time
  pub game_now : Time
  pub speed : F64
  pub players : GoMap Slot Player
  pub provinces : GoMap ℕ Province
  pub units : GoMap ℕ GameUnit
  pub resources : GoMap Slot Resources
  pub buildings : List Building
  pub timeline : Timeline
  pub status : Status
  pub winner_slot : Slot
  pub winner_coal : List Slot
  pub cleanup_done : Bool
  pub seq : ℕ
  pub next_recruit : GoMap ℕ RecruitOrder
  pub next_build : GoMap ℕ BuildOrder
  pub diplomacy : Registry
  pub vis_contributor_version : ℕ
  pub vis_contributors : Option (GoMap Slot (List Slot))  -- `none` is the nil map

-- The kinds of applied events, texts in the source.
pub data AppliedKind : Type 0 where
  arrived combat_damage unit_destroyed province_captured macro_pulsed unit_recruited : AppliedKind
  building_constructed match_ended match_cleaned : AppliedKind
  war_declared peace_proposed alliance_proposed peace_signed alliance_signed : AppliedKind
  pact_granted pact_revoked : AppliedKind

-- The keys and values of `Extra`, by the event that carries them.
pub data Extra : Type 0 where
  no_extra : Extra
  damaged : ℤ → ℕ → Extra
  destroyed : ℕ → Extra
  captured_from : Slot → Extra
  pulsed : Resources → Resources → Extra
  of_type : String → Extra
  won_by : Slot → List Slot → Extra
  between : Slot → Slot → Extra
  offered_between : Slot → Slot → String → Extra
  allied_between : Slot → Slot → Slot → Extra
  pact_between : Slot → Slot → String → Extra

pub record AppliedEvent : Type 0 where
  pub kind : AppliedKind
  pub occur_at : Time
  pub seq : ℕ
  pub unit_id : ℕ
  pub province : ℕ
  pub slot : Slot
  pub extra : Extra

-- `m.Seq++`, on a uint64.
abbrev pub next_seq : Match → Match
next_seq m = record m { seq = u64 (m.seq + 1) }

abbrev pub keys {ℓ} : {V : Type ℓ} → GoMap ℕ V → List ℕ
keys [] = []
keys ((k, v) ∷ m) = k ∷ keys m

abbrev pub values {ℓ} : {V : Type ℓ} → GoMap ℕ V → List V
values [] = []
values ((k, v) ∷ m) = v ∷ values m

unfoldable pub slot_ids : Match → List Slot
slot_ids m = sort (keys m.players)

abbrev any_building : List Building → ℕ → String → Bool
any_building [] province t = false
any_building (b ∷ rest) province t =
    b.province == province && same_text b.building_type t || any_building rest province t

unfoldable pub has_building : Match → ℕ → String → Bool
has_building m province t = any_building m.buildings province t

-- `u.Path[u.PathIndex]`, where the index is in range.
abbrev pub current_leg : GameUnit → Option PathLeg
current_leg u = get_elem? u.path u.path_index

unfoldable pub is_moving : GameUnit → Time → Bool
is_moving u t = elim (current_leg u) [
  | some leg ↦ ltb t leg.arrives_at
  | none ↦ not (u.arrives_at == 0) && (ltb t u.arrives_at && not (u.origin == u.dest))
]

-- A write through a pointer to a unit: it shows in the match while the unit is in it.
unfoldable pub write_unit : GoMap ℕ GameUnit → GameUnit → GoMap ℕ GameUnit
write_unit units u = elim (lookup u.id units) [ none ↦ units | some old ↦ insert u.id u units ]
