-- ===== src/Float64.antt =====
-- IEEE 754 binary64, which the Go runtime and package math implement: a number is its bit pattern, and
-- the operations are a parameter of what computes with coordinates, distances and speeds.
use rts_vibe_code.Prelude.{ℕ, Bool}
use rts_vibe_code.Prelude.Int.{ℤ}

abbrev pub F64 : Type 0
F64 = ℕ

pub record Float64 : Type 0 where
  pub of_ℕ : ℕ → F64
  pub plus : F64 → F64 → F64
  pub minus : F64 → F64 → F64
  pub times : F64 → F64 → F64
  pub over : F64 → F64 → F64
  pub square_root : F64 → F64
  pub hypot : F64 → F64 → F64
  pub lt : F64 → F64 → Bool
  pub le : F64 → F64 → Bool
  pub eq : F64 → F64 → Bool
  -- `Duration.Seconds()` of a duration of so many nanoseconds.
  pub seconds : ℕ → F64
  -- `time.Duration(f)`: the number without its fraction.
  pub truncate : F64 → ℕ
  -- `int(f)`: the number without its fraction, which may be negative.
  pub to_int : F64 → ℤ
