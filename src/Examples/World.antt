-- ===== src/Examples/World.antt =====
-- A small match: three provinces, three players, of whom 1 and 2 may ally, and the environment of its commands.
-- The coordinates are whole numbers here, with the arithmetic of numbers.
use Prim.Native.String.{String}
use text.Mathlib.Text.{◌==◌ as same_text}
use rts_vibe_code.Prelude.{
  ℕ, ◌+◌, ◌-◌, ◌*◌, ◌/◌, Bool, true, false, none, List, [], ◌∷◌, ltb, leb, ◌==◌, if◌then◌else◌,
}
use rts_vibe_code.Prelude.Int.{pos}
use rts_vibe_code.Float64.{Float64}
use rts_vibe_code.Economy.{starting_resources}
use rts_vibe_code.Diplomacy.{Slot, Registry}
use rts_vibe_code.Timeline.{Event, macro_pulse}
use rts_vibe_code.Match.{Match, GameUnit, Province, Player, active}
use rts_vibe_code.Commands.{Env, Command}

abbrev pub fl : Float64
fl = record {
  of_ℕ = λ n. n;
  plus = λ a b. a + b;
  minus = λ a b. a - b;
  times = λ a b. a * b;
  over = λ a b. a / b;
  square_root = λ a. a;
  hypot = λ a b. a + b;
  lt = ltb;
  le = leb;
  eq = λ a b. a == b;
  seconds = λ n. n / 1000000000;
  truncate = λ a. a;
  to_int = pos;
}

abbrev id_of : String → ℕ
id_of s =
    if same_text s "p10"
    then 10
    else if same_text s "s1"
    then 1
    else if same_text s "s2"
    then 2
    else if same_text s "u1"
    then 1
    else 0

abbrev pub env : Env
env = record {
  fl = fl;
  id_of = id_of;
  parse_float = λ s. none;
  parse_bool = λ s. same_text s "true";
}

abbrev province : ℕ → Slot → Bool → Province
province id owner capital = record { id = id; x = id; y = 0; owner = owner; capital = capital }

abbrev pub home : Province
home = province 10 1 true

abbrev pub frontier : Province
frontier = province 20 2 true

abbrev pub unit : ℕ → Slot → ℕ → ℕ → GameUnit
unit id owner hp prov = record {
  id = id;
  owner_slot = owner;
  unit_type = "infantry";
  hp = pos hp;
  origin = prov;
  dest = prov;
  started_at = 0;
  arrives_at = 0;
  origin_x = prov;
  origin_y = 0;
  dest_x = prov;
  dest_y = 0;
  speed = 1;
  version = 1;
  path = [];
  path_index = 0;
  waypoints = [];
}

abbrev player : Slot → Player
player s = record { slot = s; user_id = s + 100; name = "player"; color = "red"; alive = true }

abbrev pub first_pulse : Event
first_pulse = record { at = 3600; kind = macro_pulse; unit_id = 0; other = 0; version = 0 }

-- A match with this registry and these units.
abbrev pub game : Registry → List (ℕ × GameUnit) → Match
game d units = record {
  id = 1;
  map_id = 1;
  static_map = record {
    id = 1;
    provinces =
        (record { id = 10; x = 10; y = 0; home_slot = 1 })
        ∷ (record { id = 20; x = 20; y = 0; home_slot = 2 })
        ∷ [];
    edges = (record { source = 10; target = 20 }) ∷ [];
    slots = [];
    starting_units = [];
  };
  tick = 0;
  started_at = 0;
  game_start = 0;
  game_now = 1000;
  speed = 1;
  players = (1, player 1) ∷ (2, player 2) ∷ (3, player 3) ∷ [];
  provinces = (10, home) ∷ (20, frontier) ∷ [];
  units = units;
  resources = (1, starting_resources) ∷ (2, starting_resources) ∷ (3, starting_resources) ∷ [];
  buildings = [];
  timeline = first_pulse ∷ [];
  status = active;
  winner_slot = 0;
  winner_coal = [];
  cleanup_done = false;
  seq = 0;
  next_recruit = [];
  next_build = [];
  diplomacy = d;
  vis_contributor_version = 0;
  vis_contributors = none;
}

abbrev pub command : String → ℕ → List (String × String) → Command
command kind origin args = record {
  match_id = 1;
  user_id = 101;
  issuer_slot = 1;
  idempotency_key = "k";
  kind = kind;
  unit_id = "";
  origin = origin;
  dest = 0;
  issued_at = 0;
  args = args;
}
