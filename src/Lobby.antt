-- ===== src/Lobby.antt =====
-- internal/domain/lobbydom: the records of a match and its players before and during a session, and the phases of the
-- life of a match. Uuids, users, maps and slots are numbers, the empty slot is 0.
pub mod Store
pub mod Service
pub mod Phases
pub mod Lawful
pub mod History
pub mod Starting
use Prim.Native.String.{String}
use rts_vibe_code.Prelude.{ℕ, Bool, true, false, ◌||◌, Option}
use rts_vibe_code.Float64.{F64}
use rts_vibe_code.Diplomacy.{Slot, Time}

pub data Status : Type 0 where
  waiting starting active ended abandoned : Status

abbrev pub same_status : Status → Status → Bool
same_status waiting waiting = true
same_status starting starting = true
same_status active active = true
same_status ended ended = true
same_status abandoned abandoned = true
same_status _ _ = false

unfoldable pub can_transition_to : Status → Status → Bool
can_transition_to waiting next = same_status next starting
can_transition_to starting next = same_status next active
can_transition_to active next = same_status next ended || same_status next abandoned
can_transition_to ended next = false
can_transition_to abandoned next = false

pub record Match : Type 0 where
  pub id : ℕ
  pub name : String
  pub map_id : ℕ
  pub status : Status
  pub created_by : ℕ
  pub created_at : Time
  pub started_at : Option Time
  pub ended_at : Option Time
  pub winner_user_id : Option ℕ
  pub speed_factor : F64

pub record Player : Type 0 where
  pub match_id : ℕ
  pub user_id : ℕ
  pub slot : Slot
  pub color : String
  pub alive : Bool
  pub controlled_by_ai : Bool
  pub last_seen_at : Option Time
  pub joined_at : Time

pub data LobbyErr : Type 0 where
  not_found already_running not_enough_players slot_taken no_free_slot invalid_transition : LobbyErr
  not_creator cannot_leave_active player_not_in_match : LobbyErr
