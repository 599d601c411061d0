-- ===== src/Catalogue/Units.antt =====
-- internal/domain/unitdom: the interface `Kind` with one struct for each type is an enumeration with one
-- function for each method. A type's id is text.
use Prim.Native.String.{String}
use text.Mathlib.Text.{◌==◌ as same_text}
use rts_vibe_code.Prelude.{ℕ, ◌*◌, ◌≤◌, arith, Option, none, some, if◌then◌else◌}
use rts_vibe_code.Prelude.Int.{ℤ, pos}
use rts_vibe_code.Economy.{Resources, amounts}
use rts_vibe_code.Float64.{F64, Float64}

pub data Kind : Type 0 where
  infantry cavalry armor : Kind

-- `ByID`
unfoldable pub by_id : String → Option Kind
by_id s =
    if same_text s "infantry"
    then some infantry
    else if same_text s "cavalry"
    then some cavalry
    else if same_text s "armor"
    then some armor
    else none

abbrev pub id : Kind → String
id infantry = "infantry"
id cavalry = "cavalry"
id armor = "armor"

abbrev pub cost : Kind → Resources
cost infantry = amounts 5 3 0
cost cavalry = amounts 8 5 3
cost armor = amounts 12 5 8

-- In nanoseconds.
abbrev pub build_time : Kind → ℕ
build_time infantry = 5 * 60000000000
build_time cavalry = 10 * 60000000000
build_time armor = 20 * 60000000000

-- In pixels for each second of game time.
abbrev pub speed : Float64 → Kind → F64
speed fl infantry = fl.over (fl.of_ℕ 50) (fl.of_ℕ 3600)
speed fl cavalry = fl.over (fl.of_ℕ 100) (fl.of_ℕ 3600)
speed fl armor = fl.over (fl.of_ℕ 80) (fl.of_ℕ 3600)

abbrev pub starting_hp : Kind → ℤ
starting_hp infantry = pos 100
starting_hp cavalry = pos 80
starting_hp armor = pos 140

-- `none` where there is no prerequisite.
abbrev pub needs_building : Kind → Option String
needs_building infantry = none
needs_building cavalry = none
needs_building armor = some "factory"

-- `DamageVs`, through the table that the types share.
abbrev damage_vs : Kind → Kind → ℕ
damage_vs infantry infantry = 30
damage_vs infantry cavalry = 22
damage_vs infantry armor = 38
damage_vs cavalry infantry = 38
damage_vs cavalry cavalry = 30
damage_vs cavalry armor = 22
damage_vs armor infantry = 22
damage_vs armor cavalry = 38
damage_vs armor armor = 30

abbrev damage_or_flat : Option Kind → Option Kind → ℕ
damage_or_flat (some a) (some d) = damage_vs a d
damage_or_flat _ _ = 30

-- `unitDamage` of internal/domain/matchdom/combat.go.
pub unit_damage : String → String → ℕ
unit_damage attacker defender = damage_or_flat (by_id attacker) (by_id defender)

-- Every blow costs the defender at least 22, whatever the types are.
pub unit_damage_bound : (attacker defender : String) → 22 ≤ unit_damage attacker defender
unfolding unit_damage
unit_damage_bound attacker defender = ground arith
