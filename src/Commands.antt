-- ===== src/Commands.antt =====
-- internal/domain/cmddom: the commands of players. Go's registry of handlers is a dispatch by the text of the
-- kind (`Commands.Dispatch`).
pub mod Move
pub mod Production
pub mod Treaty
pub mod Dispatch
pub mod Refusal
pub mod Untouched
pub mod Solvency
pub mod Banks
pub mod Basis
pub mod Recruitment
pub mod Construction
use Prim.Native.String.{String}
use text.Mathlib.Text.{◌==◌ as same_text}
use text.Mathlib.TextEquality.{eq_iff}
use rts_vibe_code.Prelude.{ℕ, Bool, Option, none, some, List, [], ◌∷◌, Key}
use rts_vibe_code.GoMap.{GoMap, lookup}
use rts_vibe_code.Float64.{F64, Float64}
use rts_vibe_code.Diplomacy.{Slot, Time}
use rts_vibe_code.Match.{Match, AppliedEvent}

instance abbrev pub text_key : Key String
text_key = record { same = same_text; same_iff = eq_iff }

-- What the commands take from the standard library, and the number by which an id is known here.
pub record Env : Type 0 where
  pub fl : Float64
  pub id_of : String → ℕ
  -- strconv.ParseFloat, `none` on an error.
  pub parse_float : String → Option F64
  -- The value of strconv.ParseBool, false on an error.
  pub parse_bool : String → Bool

-- `unit_id` also carries the type of a unit or a building, so it is text here; the fields that are only
-- compared are numbers.
pub record Command : Type 0 where
  pub match_id : ℕ
  pub user_id : ℕ
  pub issuer_slot : Slot
  pub idempotency_key : String
  pub kind : String
  pub unit_id : String
  pub origin : ℕ
  pub dest : ℕ
  pub issued_at : Time
  pub args : GoMap String String

-- `Extra`: the nil map has no keys.
unfoldable pub extra : Command → String → Option String
extra c key = lookup key c.args

-- `cmd.Args[key]`: the empty text for a missing key.
abbrev pub arg_or_empty : Option String → String
arg_or_empty none = ""
arg_or_empty (some v) = v

pub data CmdErr : Type 0 where
  unknown_unit unauthorized invalid_dest unknown_command insufficient_funds : CmdErr
  invalid_province unknown_unit_type factory_required already_queued match_inactive : CmdErr
  unknown_target diplomacy_rejected no_speed : CmdErr

-- The code, the events and the error that a handler returns.
pub record Reply : Type 0 where
  pub code : String
  pub events : List AppliedEvent
  pub error : Option CmdErr

abbrev pub rejected : String → CmdErr → Reply
rejected code e = record { code = code; events = []; error = some e }

abbrev pub accepted : List AppliedEvent → Reply
accepted events = record { code = "ok"; events = events; error = none }
