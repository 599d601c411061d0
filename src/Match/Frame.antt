-- ===== src/Match/Frame.antt =====
-- What play leaves alone: the fields of a match that are set once, and its banks.
use rts_vibe_code.Prelude.{ℕ}
use rts_vibe_code.GoMap.{GoMap}
use rts_vibe_code.Float64.{F64}
use rts_vibe_code.Economy.{Resources}
use rts_vibe_code.Diplomacy.{Slot, Time}
use rts_vibe_code.StaticMap.{Map}
use rts_vibe_code.Match.{Match, Player}

pub record Basis : Type 0 where
  pub id : ℕ
  pub static_map : Map
  pub players : GoMap Slot Player
  pub speed : F64
  pub clock : Time × Time

pub record Frame : Type 0 where
  pub basis : Basis
  pub banks : GoMap Slot Resources

abbrev pub basis : Match → Basis
basis m = record {
  id = m.id;
  static_map = m.static_map;
  players = m.players;
  speed = m.speed;
  clock = (m.started_at, m.game_start);
}

abbrev pub frame : Match → Frame
frame m = record { basis = basis m; banks = m.resources }
