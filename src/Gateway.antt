-- ===== src/Gateway.antt =====
-- internal/gateway: the rate limit of a connection (ratelimit.go).
pub mod Window
use rts_vibe_code.Prelude.{ℕ, ◌+◌, ◌-◌, Bool, true, false, leb, ltb, ◌==◌, if◌then◌else◌}
use rts_vibe_code.Diplomacy.{Time}

-- `capacity` tokens every `refill` nanoseconds. A duration of the code may be negative: here, as in every call of the
-- code, it is not, and the clock does not go back.
pub record TokenBucket : Type 0 where
  pub capacity : ℕ
  pub tokens : ℕ
  pub last : Time
  pub refill : ℕ

unfoldable pub new_token_bucket : ℕ → ℕ → Time → TokenBucket
new_token_bucket capacity refill now = record {
  capacity = capacity;
  tokens = capacity;
  last = now;
  refill = refill;
}

abbrev pub renewed : TokenBucket → Time → TokenBucket
renewed b now =
    if leb b.refill (now - b.last) then record b { tokens = b.capacity; last = now } else b

unfoldable pub allow : TokenBucket → Time → TokenBucket × Bool
allow b now =
    let b' = renewed b now in
    if b'.tokens == 0 then (b', false) else (record b' { tokens = b'.tokens - 1 }, true)
