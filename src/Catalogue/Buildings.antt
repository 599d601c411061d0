-- ===== src/Catalogue/Buildings.antt =====
-- internal/domain/buildingdom.
use Prim.Native.String.{String}
use text.Mathlib.Text.{◌==◌ as same_text}
use rts_vibe_code.Prelude.{ℕ, ◌*◌, Option, none, some, if◌then◌else◌}
use rts_vibe_code.Economy.{Resources, amounts}

pub data Kind : Type 0 where
  factory : Kind

-- `ByID`
unfoldable pub by_id : String → Option Kind
by_id s = if same_text s "factory" then some factory else none

abbrev pub id : Kind → String
id factory = "factory"

abbrev pub cost : Kind → Resources
cost factory = amounts 10 0 20

-- In nanoseconds.
abbrev pub build_time : Kind → ℕ
build_time factory = 30 * 60000000000

abbrev pub production : Kind → Resources
production factory = amounts 2 0 4
