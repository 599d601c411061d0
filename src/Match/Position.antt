-- ===== src/Match/Position.antt =====
-- `PositionAt` of internal/domain/matchdom/state.go and `EuclidDistance`, over the parameter `fl`.
use rts_vibe_code.Prelude.{◌-◌, ◌||◌, none, some, leb, ◌==◌, if◌then◌else◌}
use rts_vibe_code.Float64.{F64, Float64}
use rts_vibe_code.Diplomacy.{Time}
use rts_vibe_code.Match.{GameUnit, current_leg}

module _ (fl : Float64) where
  open fl use {of_ℕ, plus, minus, times, over, square_root, le, seconds}

  unfoldable pub euclid_distance : F64 → F64 → F64 → F64 → F64
  euclid_distance ax ay bx by =
      let dx = minus ax bx in let dy = minus ay by in square_root (plus (times dx dx) (times dy dy))

  -- A start, an end, their times, and the time asked for. The differences of the times are taken only
  -- where they are not negative.
  abbrev along : F64 → F64 → F64 → F64 → Time → Time → Time → F64 × F64
  along from_x from_y to_x to_y started arrives t =
      let total = seconds (arrives - started) in
      let progress = over (seconds (t - started)) total in
      if leb t started
      then (from_x, from_y)
      else if leb arrives t
      then (to_x, to_y)
      else if le total (of_ℕ 0)
      then (to_x, to_y)
      else (
        plus from_x (times (minus to_x from_x) progress),
        plus from_y (times (minus to_y from_y) progress),
      )

  unfoldable pub position_at : GameUnit → Time → F64 × F64
  position_at u t = elim (current_leg u) [
    | some leg ↦ along leg.from_x leg.from_y leg.to_x leg.to_y u.started_at leg.arrives_at t
    | none ↦
        if u.origin == u.dest || u.arrives_at == 0
        then (u.origin_x, u.origin_y)
        else along u.origin_x u.origin_y u.dest_x u.dest_y u.started_at u.arrives_at t
  ]
