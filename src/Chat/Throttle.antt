-- ===== src/Chat/Throttle.antt =====
-- internal/service/chatsvc/throttle.go: the token bucket of each user. Tokens, which are float64 in the code, are counted
-- exactly here, in units of which a second brings 10^9 for each token of the rate; times are in nanoseconds.
pub mod Rate
use rts_vibe_code.Prelude.{
  ℕ, ◌+◌, ◌-◌, ◌*◌, Bool, true, false, Option, none, some, List, [], ◌∷◌, ltb, if◌then◌else◌,
  nat_key,
}
use rts_vibe_code.GoMap.{GoMap, lookup, insert}
use rts_vibe_code.Diplomacy.{Time}

-- One token.
abbrev pub token : ℕ
token = 1000000000

abbrev pub messages_per_second : ℕ
messages_per_second = 5

-- `tokens` and `cap` in units, `refill_per` in tokens for each second: in units for each nanosecond.
pub record TokenBucket : Type 0 where
  pub tokens : ℕ
  pub cap : ℕ
  pub refill_per : ℕ
  pub last : Time

unfoldable pub new_bucket : ℕ → Time → TokenBucket
new_bucket rate now = record {
  tokens = rate * token;
  cap = rate * token;
  refill_per = rate;
  last = now;
}

abbrev pub refilled : TokenBucket → Time → ℕ
refilled b now =
    let tokens = b.tokens + (now - b.last) * b.refill_per in
    if ltb b.cap tokens then b.cap else tokens

abbrev pub spend : TokenBucket → Time → ℕ → TokenBucket × Bool
spend b now tokens =
    if ltb tokens token
    then (record b { tokens = tokens; last = now }, false)
    else (record b { tokens = tokens - token; last = now }, true)

unfoldable pub take : TokenBucket → Time → TokenBucket × Bool
take b now = spend b now (refilled b now)

-- The bucket of a user, a new one if there is none yet.
abbrev pub bucket_of : Option TokenBucket → Time → TokenBucket
bucket_of none now = new_bucket messages_per_second now
bucket_of (some b) now = b

unfoldable pub allow : GoMap ℕ TokenBucket → ℕ → Time → GoMap ℕ TokenBucket × Bool
unfolding take new_bucket
allow throttle user now =
    let (b, allowed) = take (bucket_of (lookup user throttle) now) now in
    (insert user b throttle, allowed)
