-- ===== src/Chat/Throttle/Rate.antt =====
-- How many messages the token bucket of internal/service/chatsvc/throttle.go lets through.
use rts_vibe_code.Prelude.{
  ℕ, suc, ◌+◌, ◌*◌, ◌≤◌, ◌≡◌, refl, subst, Bool, true, false, Option, none, some, List, [], ◌∷◌,
  ltb, if◌then◌else◌, arith, nat_key, Bool-cases, inl, inr, ==_refl,
}
use rts_vibe_code.GoMap.{GoMap, lookup, insert, lookup-insert}
use rts_vibe_code.Diplomacy.{Time}
use rts_vibe_code.Chat.Throttle.{
  TokenBucket, token, messages_per_second, new_bucket, refilled, spend, take, bucket_of, allow,
}

-- The attempts of a user, each a while after the one before it, and how many are allowed.
abbrev pub attempts : GoMap ℕ TokenBucket → ℕ → Time → List ℕ → ℕ
attempts throttle user now [] = 0
attempts throttle user now (wait ∷ rest) =
    let (throttle', allowed) = allow throttle user (now + wait) in
    let others = attempts throttle' user (now + wait) rest in if allowed then suc others else others

abbrev pub total : List ℕ → ℕ
total [] = 0
total (wait ∷ rest) = wait + total rest

-- A bucket of the rate of the service, last used at this time.
record IsChat (b : TokenBucket) (now : Time) : Type 0 where
  cap : b.cap ≡ 5000000000
  rate : b.refill_per ≡ 5
  full : b.tokens ≤ 5000000000
  last : b.last ≡ now

new_bucket-IsChat : (now : Time) → IsChat (new_bucket messages_per_second now) now
unfolding new_bucket
new_bucket-IsChat now = record { cap = refl; rate = refl; full = omega arith; last = refl }

-- What is in the bucket of an attempt.
refilled_bound :
    (b : TokenBucket) (now t : Time)
    → IsChat b now
    → now ≤ t
    → (refilled b t + 5 * now ≤ b.tokens + 5 * t) × (refilled b t ≤ 5000000000)
refilled_bound b now t c later = rw (c.rate, c.last, c.cap) (ground arith, ground arith)

spent :
    (b : TokenBucket) (now t : Time) (tokens : ℕ)
    → IsChat b now
    → tokens + 5 * now ≤ b.tokens + 5 * t
    → tokens ≤ 5000000000
    → IsChat (spend b t tokens).0 t
      × ((spend b t tokens).0.tokens + (if (spend b t tokens).1 then token else 0) + 5 * now
          ≤ b.tokens + 5 * t)
spent b now t tokens c paid low = elim (Bool-cases (ltb tokens token)) [
  | inl short ↦
      rw short (record { cap = c.cap; rate = c.rate; full = low; last = refl }, omega (arith, paid))
  | inr enough ↦ rw enough (
    record { cap = c.cap; rate = c.rate; full = omega (arith, low); last = refl },
    ground (arith, paid, enough),
  )
]

-- One attempt pays with a token for being allowed.
take_lem :
    (b : TokenBucket) (now t : Time)
    → IsChat b now
    → now ≤ t
    → IsChat (take b t).0 t
      × ((take b t).0.tokens + (if (take b t).1 then token else 0) + 5 * now ≤ b.tokens + 5 * t)
unfolding take
take_lem b now t c later =
    let (paid, low) = refilled_bound b now t c later in spent b now t (refilled b t) c paid low

-- One attempt more.
counted :
    (allowed : Bool) (n tokens before now t rest : ℕ)
    → n * token ≤ tokens + 5 * rest
    → tokens + (if allowed then token else 0) + 5 * now ≤ before + 5 * t
    → (if allowed then suc n else n) * token + 5 * now ≤ before + 5 * t + 5 * rest
counted true n tokens before now t rest others paid = omega (arith, others, paid)
counted false n tokens before now t rest others paid = omega (arith, others, paid)

-- The attempts of a user with this bucket.
attempts_of_bucket :
    (throttle : GoMap ℕ TokenBucket) (user : ℕ) (now : Time) (b : TokenBucket) (waits : List ℕ)
    → lookup user throttle ≡ some b
    → IsChat b now
    → attempts throttle user now waits * token ≤ b.tokens + 5 * total waits
unfolding allow
attempts_of_bucket throttle user now b [] at c = omega arith
attempts_of_bucket throttle user now b (wait ∷ rest) at c =
    let t = now + wait in
    let (c', paid) = take_lem b now t c (omega arith) in
    let b' = (take b t).0 in
    let ih =
      attempts_of_bucket (insert user b' throttle) user t b' rest
        (rw (lookup-insert user user b' throttle, ==_refl user) refl) c' in
    let all = counted (take b t).1 _ b'.tokens b.tokens now t (total rest) ih paid in
    rw (at) (omega (arith, all))

-- However long a user without a bucket waits before each attempt, of all attempts at most 5 are allowed, and 5 more
-- for each second that has gone by in all.
pub attempts_bound :
    (throttle : GoMap ℕ TokenBucket) (user : ℕ) (now : Time) (waits : List ℕ)
    → lookup user throttle ≡ none
    → attempts throttle user now waits * token ≤ 5 * token + 5 * total waits
unfolding allow
attempts_bound throttle user now [] first = omega arith
attempts_bound throttle user now (wait ∷ rest) first =
    let t = now + wait in
    let b = new_bucket messages_per_second t in
    let (c, paid) = take_lem b t t (new_bucket-IsChat t) (omega arith) in
    let b' = (take b t).0 in
    let ih =
      attempts_of_bucket (insert user b' throttle) user t b' rest
        (rw (lookup-insert user user b' throttle, ==_refl user) refl) c in
    let all = counted (take b t).1 _ b'.tokens b.tokens t t (total rest) ih paid in
    rw (first) (omega (arith, all, (new_bucket-IsChat t).full))

-- The buckets after the attempts.
abbrev pub after : GoMap ℕ TokenBucket → ℕ → Time → List ℕ → GoMap ℕ TokenBucket
after throttle user now [] = throttle
after throttle user now (wait ∷ rest) =
    after (allow throttle user (now + wait)).0 user (now + wait) rest

bucket_of-IsChat :
    (known : Option TokenBucket) (now t : Time)
    → now ≤ t
    → ((b : TokenBucket) → known ≡ some b → IsChat b now)
    → IsChat (take (bucket_of known t) t).0 t
bucket_of-IsChat none now t later c =
    (take_lem (new_bucket messages_per_second t) t t (new_bucket-IsChat t) (omega arith)).0
bucket_of-IsChat (some b) now t later c = (take_lem b now t (c b refl) later).0

after-IsChat :
    (throttle : GoMap ℕ TokenBucket) (user : ℕ) (now end : Time) (waits : List ℕ)
    → ((b : TokenBucket) → lookup user throttle ≡ some b → IsChat b now)
    → end ≡ now + total waits
    → (b : TokenBucket) → lookup user (after throttle user now waits) ≡ some b
    → IsChat b end
unfolding allow
after-IsChat throttle user now end [] c ends b e =
    subst (IsChat b) (let same : now ≡ end = omega (arith, ends) in same) (c b e)
after-IsChat throttle user now end (wait ∷ rest) c ends b0 e0 =
    let t = now + wait in
    let b' = (take (bucket_of (lookup user throttle) t) t).0 in
    after-IsChat (insert user b' throttle) user t end rest
      (λ b.
        rw (lookup-insert user user b' throttle, ==_refl user)
          λ e.
            subst (λ x. IsChat x t) (cc (e))
              (bucket_of-IsChat (lookup user throttle) now t (omega arith) c))
      (omega (arith, ends)) b0 e0

-- With a token in the bucket the attempt is allowed.
spend_allowed :
    (b : TokenBucket) (t : Time) (tokens : ℕ) → token ≤ tokens → (spend b t tokens).1 ≡ true
spend_allowed b t tokens enough = ground (arith, enough)

refilled_enough :
    (b : TokenBucket) (now t : Time) → IsChat b now → now + 200000000 ≤ t → token ≤ refilled b t
refilled_enough b now t c long = rw (c.rate, c.last, c.cap) (ground (arith, long))

new_enough : (t : Time) → token ≤ refilled (new_bucket messages_per_second t) t
unfolding new_bucket
new_enough t = ground arith

waited :
    (known : Option TokenBucket) (now t : Time)
    → now + 200000000 ≤ t
    → ((b : TokenBucket) → known ≡ some b → IsChat b now)
    → (take (bucket_of known t) t).1 ≡ true
unfolding take
waited none now t long c = spend_allowed (new_bucket messages_per_second t) t _ (new_enough t)
waited (some b) now t long c = spend_allowed b t _ (refilled_enough b now t (c b refl) long)

-- Whatever attempts a user without a bucket at first has made, one that follows them by a fifth of a second or more
-- is allowed.
pub allow_waited :
    (throttle : GoMap ℕ TokenBucket) (user : ℕ) (now : Time) (waits : List ℕ) (t : Time)
    → lookup user throttle ≡ none
    → now + total waits + 200000000 ≤ t
    → (allow (after throttle user now waits) user t).1 ≡ true
unfolding allow
allow_waited throttle user now waits t first long =
    waited (lookup user (after throttle user now waits)) (now + total waits) t long (
      after-IsChat throttle user now (now + total waits) waits (λ b e. absurd (cc (first, e))) refl)
