-- ===== src/Gateway/Window.antt =====
-- How many envelopes the token bucket of internal/gateway/ratelimit.go lets through.
use rts_vibe_code.Prelude.{
  ℕ, suc, ◌+◌, ◌-◌, ◌*◌, ◌≤◌, ◌≡◌, subst, Bool, true, false, List, [], ◌∷◌, leb, if◌then◌else◌,
  arith,
}
use rts_vibe_code.Diplomacy.{Time}
use rts_vibe_code.Gateway.{TokenBucket, allow}

-- Calls, each a while after the one before it, and how many are allowed; and how often the bucket is filled again.
abbrev pub allowed : TokenBucket → Time → List ℕ → ℕ
allowed b now [] = 0
allowed b now (wait ∷ rest) =
    let (b', yes_) = allow b (now + wait) in
    let others = allowed b' (now + wait) rest in if yes_ then suc others else others

abbrev pub renewals : TokenBucket → Time → List ℕ → ℕ
renewals b now [] = 0
renewals b now (wait ∷ rest) =
    let others = renewals (allow b (now + wait)).0 (now + wait) rest in
    if leb b.refill (now + wait - b.last) then suc others else others

abbrev pub total : List ℕ → ℕ
total [] = 0
total (wait ∷ rest) = wait + total rest

-- One call: what it takes and what it leaves.
allow_lem :
    (b : TokenBucket) (t : Time)
    → b.last ≤ t
    → let again = leb b.refill (t - b.last) in
      ((allow b t).0.capacity ≡ b.capacity)
      × ((allow b t).0.refill ≡ b.refill)
      × ((allow b t).0.last ≤ t)
      × ((allow b t).0.tokens + (if (allow b t).1 then 1 else 0)
          ≤ (if again then b.capacity else b.tokens))
      × ((if again then b.refill else 0) + b.last ≤ (allow b t).0.last)
unfolding allow
allow_lem b t later = (
  ground arith,
  ground arith,
  ground (arith, later),
  ground (arith, later),
  ground (arith, later),
)

module _ (b : TokenBucket) (now : Time) (wait : ℕ) (n k : ℕ) where
  -- The count goes on by one call.
  counted :
      (yes_ again : Bool) (tokens : ℕ)
      → n ≤ tokens + b.capacity * k
      → tokens + (if yes_ then 1 else 0) ≤ (if again then b.capacity else b.tokens)
      → (if yes_ then suc n else n) ≤ b.tokens + b.capacity * (if again then suc k else k)
  counted true true tokens h paid = grind (arith, h, paid)
  counted true false tokens h paid = grind (arith, h, paid)
  counted false true tokens h paid = grind (arith, h, paid)
  counted false false tokens h paid = grind (arith, h, paid)

  timed :
      (again : Bool) (last end : ℕ)
      → k * b.refill + last ≤ end
      → (if again then b.refill else 0) + b.last ≤ last
      → (if again then suc k else k) * b.refill + b.last ≤ end
  timed true last end h paid = grind (arith, h, paid)
  timed false last end h paid = grind (arith, h, paid)

-- However long it waits before each call, a bucket allows at most the tokens that it has and its capacity each time it
-- is filled again, and it is filled again at most once in each interval.
pub allowed_bound :
    (b : TokenBucket) (now : Time) (waits : List ℕ)
    → b.last ≤ now
    → (allowed b now waits ≤ b.tokens + b.capacity * renewals b now waits)
      × (renewals b now waits * b.refill + b.last ≤ now + total waits)
allowed_bound b now [] later = (grind arith, grind (arith, later))
allowed_bound b now (wait ∷ rest) later =
    let t = now + wait in
    let (cap, refill, last, paid, time) = allow_lem b t (omega (arith, later)) in
    let b' = (allow b t).0 in
    let (few, rare) = allowed_bound b' t rest last in
    let n = allowed b' t rest in
    let k = renewals b' t rest in
    let again = leb b.refill (t - b.last) in
    let spread =
      timed b now wait n k again b'.last (t + total rest)
        (subst (λ r. k * r + b'.last ≤ t + total rest) refill rare) time in
    (
      counted b now wait n k (allow b t).1 again b'.tokens
          (subst (λ c. n ≤ b'.tokens + c * k) cap few) paid,
      omega (arith, spread),
    )
