-- ===== src/Economy.antt =====
-- internal/domain/economydom/resources.go and internal/domain/balance/balance.go. The amounts are
-- float64 in the source, and whole numbers or, after a refund, halves of whole numbers: they are counted
-- here in halves, exactly.
use Prim.Native.String.{String}
use text.Mathlib.Text.{◌==◌ as same_text}
use rts_vibe_code.Prelude.{ℕ, ◌*◌, ◌/◌, Bool, ◌&&◌, if◌then◌else◌}
use rts_vibe_code.Prelude.Int.{ℤ, pos, negsuc, ◌+ℤ◌, ◌-ℤ◌, leb_ℤ}

pub record Resources : Type 0 where
  pub manpower : ℤ
  pub food : ℤ
  pub iron : ℤ

abbrev whole : ℕ → ℤ
whole n = pos (2 * n)

abbrev pub amounts : ℕ → ℕ → ℕ → Resources
amounts manpower food iron = record {
  manpower = whole manpower;
  food = whole food;
  iron = whole iron;
}

unfoldable pub add : Resources → Resources → Resources
add r o = record {
  manpower = r.manpower +ℤ o.manpower;
  food = r.food +ℤ o.food;
  iron = r.iron +ℤ o.iron;
}

unfoldable pub can_pay : Resources → Resources → Bool
can_pay r c = leb_ℤ c.manpower r.manpower && (leb_ℤ c.food r.food && leb_ℤ c.iron r.iron)

unfoldable pub pay : Resources → Resources → Resources
pay r c = record {
  manpower = r.manpower -ℤ c.manpower;
  food = r.food -ℤ c.food;
  iron = r.iron -ℤ c.iron;
}

-- Exact on whole amounts, which are even here: the code halves costs only.
abbrev half : ℤ → ℤ
half (pos n) = pos (n / 2)
half (negsuc n) = negsuc (n / 2)

unfoldable pub halved : Resources → Resources
halved r = record { manpower = half r.manpower; food = half r.food; iron = half r.iron }

abbrev pub macro_pulse_interval : ℕ
macro_pulse_interval = 3600000000000

abbrev pub starting_resources : Resources
starting_resources = amounts 30 50 20

abbrev pub province_revenue : Resources
province_revenue = amounts 4 5 1

abbrev pub owned_province_view_radius : ℕ
owned_province_view_radius = 180

unfoldable pub unit_view_radius : String → ℕ
unit_view_radius t =
    if same_text t "infantry"
    then 2200
    else if same_text t "cavalry"
    then 280
    else if same_text t "armor"
    then 260
    else 200
