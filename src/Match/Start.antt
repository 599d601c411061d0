-- ===== src/Match/Start.antt =====
-- internal/domain/matchdom/match.go: a new match over a map. `maps.Load` and `uuid.New` are parameters: the map
-- under an id, and the id of the n-th unit.
pub mod Opening
use Prim.Native.String.{String}
use rts_vibe_code.Prelude.{
  ℕ, zero, suc, ◌+◌, ◌==◌, Bool, true, false, Option, none, some, List, [], ◌∷◌, if◌then◌else◌,
  nat_key,
}
use rts_vibe_code.Prelude.Int.{ℤ, pos, negsuc}
use rts_vibe_code.GoMap.{GoMap, lookup, insert}
use rts_vibe_code.Float64.{F64, Float64}
use rts_vibe_code.Economy.{Resources, starting_resources, macro_pulse_interval}
use rts_vibe_code.Catalogue.Units
use rts_vibe_code.Diplomacy.{Slot, no_slot, Time}
use rts_vibe_code.Diplomacy.Queries
use rts_vibe_code.StaticMap
use rts_vibe_code.Timeline.{Timeline, Event, macro_pulse, push}
use rts_vibe_code.Match.{Match, Province, Player, GameUnit, active}

pub data StartErr : Type 0 where
  map_not_found unknown_province : StartErr

pub data Started : Type 0 where
  failed : StartErr → Started
  started : Match → Started

abbrev pub user_of : Option ℕ → ℕ
user_of none = 0
user_of (some user) = user

abbrev pub new_player : GoMap Slot ℕ → StaticMap.Slot → Player
new_player assignments s = record {
  slot = s.id;
  user_id = user_of (lookup s.id assignments);
  name = "";
  color = s.color;
  alive = true;
}

-- The loop over the provinces of the map.
unfoldable pub add_provinces : List StaticMap.Province → GoMap ℕ Province → GoMap ℕ Province
add_provinces [] provinces = provinces
add_provinces (p ∷ rest) provinces = add_provinces rest (
    insert p.id (record { id = p.id; x = p.x; y = p.y; owner = p.home_slot; capital = false })
      provinces)

abbrev pub capital_of : Slot → Province → Province
capital_of slot p = record p { owner = slot; capital = true }

-- The write through the pointer to the capital, if the province is there.
abbrev pub crown_at : Slot → ℕ → GoMap ℕ Province → Option Province → GoMap ℕ Province
crown_at slot capital provinces none = provinces
crown_at slot capital provinces (some p) = insert capital (capital_of slot p) provinces

unfoldable pub crown : Slot → ℕ → GoMap ℕ Province → GoMap ℕ Province
crown slot capital provinces = crown_at slot capital provinces (lookup capital provinces)

-- One turn of the loop over the slots of the map.
unfoldable pub add_slot : GoMap Slot ℕ → StaticMap.Slot → Match → Match
unfolding crown
add_slot assignments s m = record m {
  players = insert s.id (new_player assignments s) m.players;
  resources = insert s.id starting_resources m.resources;
  provinces = crown s.id s.capital m.provinces;
}

unfoldable pub add_slots : GoMap Slot ℕ → List StaticMap.Slot → Match → Match
unfolding add_slot
add_slots assignments [] m = m
add_slots assignments (s ∷ rest) m = add_slots assignments rest (add_slot assignments s m)

abbrev pub hp_or_default : ℤ → ℤ
hp_or_default (pos zero) = pos 100
hp_or_default hp = hp

module _ (fl : Float64) (load : ℕ → Option StaticMap.Map) (unit_ids : ℕ → ℕ) where
  -- The constant FallbackUnitSpeed.
  abbrev pub fallback_unit_speed : F64
  fallback_unit_speed = fl.over (fl.of_ℕ 50) (fl.of_ℕ 3600)

  abbrev pub speed_or : Option Units.Kind → F64 → F64
  speed_or none other = other
  speed_or (some kind) other = Units.speed fl kind

  unfoldable pub default_speed : String → F64
  default_speed unit_type =
      speed_or (Units.by_id unit_type) (speed_or (Units.by_id "infantry") fallback_unit_speed)

  unfoldable pub starting_unit : ℕ → StaticMap.StartingUnit → StaticMap.Province → Time → GameUnit
  unfolding default_speed
  starting_unit id su prov started_at = record {
    id = id;
    owner_slot = su.slot;
    unit_type = su.unit_type;
    hp = hp_or_default su.hp;
    origin = prov.id;
    dest = prov.id;
    started_at = started_at;
    arrives_at = started_at;
    origin_x = prov.x;
    origin_y = prov.y;
    dest_x = prov.x;
    dest_y = prov.y;
    speed = default_speed su.unit_type;
    version = 1;
    path = [];
    path_index = 0;
    waypoints = [];
  }

  -- The loop over the starting units, from the n-th unit on.
  unfoldable pub add_units : ℕ → StaticMap.Map → List StaticMap.StartingUnit → Match → Started
  unfolding starting_unit
  add_units n map [] m = started m
  add_units n map (su ∷ rest) m = elim (StaticMap.province map su.province) [
    | none ↦ failed unknown_province
    | some prov ↦
        let u = starting_unit (unit_ids n) su prov m.started_at in
        add_units (suc n) map rest (record m { units = insert u.id u m.units })
  ]

  -- The literal of the match.
  abbrev pub empty_match : ℕ → ℕ → StaticMap.Map → F64 → Time → Match
  empty_match match_id map_id map speed started_at = record {
    id = match_id;
    map_id = map_id;
    static_map = map;
    tick = 0;
    started_at = started_at;
    game_start = started_at;
    game_now = started_at;
    speed = speed;
    players = [];
    provinces = [];
    units = [];
    resources = [];
    buildings = [];
    timeline = [];
    status = active;
    winner_slot = no_slot;
    winner_coal = [];
    cleanup_done = false;
    seq = 0;
    next_recruit = [];
    next_build = [];
    diplomacy = Queries.new;
    vis_contributor_version = 0;
    vis_contributors = none;
  }

  abbrev pub first_pulse : Time → Event
  first_pulse started_at = record {
    at = started_at + macro_pulse_interval;
    kind = macro_pulse;
    unit_id = 0;
    other = 0;
    version = 0;
  }

  -- The match before its units.
  unfoldable pub set_up : ℕ → ℕ → GoMap Slot ℕ → F64 → Time → StaticMap.Map → Match
  unfolding add_provinces add_slots
  set_up match_id map_id assignments speed started_at map =
      let m0 = empty_match match_id map_id map speed started_at in
      let m1 = record m0 { provinces = add_provinces map.provinces [] } in
      let m2 = add_slots assignments map.slots m1 in
      record m2 { timeline = push m2.timeline (first_pulse started_at) }

  unfoldable pub new : ℕ → ℕ → GoMap Slot ℕ → F64 → Time → Started
  unfolding set_up add_units
  new match_id map_id assignments speed started_at = elim (load map_id) [
    | none ↦ failed map_not_found
    | some map ↦
        add_units 0 map map.starting_units (set_up match_id map_id assignments speed started_at map)
  ]
