-- ===== src/Queue/Bound.antt =====
-- How many tokens the rate limit of packages/upnext/src/upnext/engine/queue/redis/queue.py grants.
use native.Mathlib.Nat.{mul-le-mul_right, add-mul, mul_comm, zero-mul, one-mul, mul-add}
use upnext.Prelude.{
  ℕ, ◌+◌, ◌-◌, ◌*◌, ◌≤◌, ◌≡◌, sym, ap, ◌∙◌, Option, none, some, List, [], ◌∷◌, Bool, true, false,
  leb, arith, if◌then◌else◌, Bool-cases, inl, inr,
}
use upnext.Queue.Tokens.{
  RateLimit, Bucket, read_bucket, bucket_or_full, refill, acquire_rate_limit_token,
}

-- How many of the calls at these times get a token.
unfoldable pub granted : RateLimit → List ℕ → Option Bucket → ℕ
granted limit [] stored = 0
granted limit (t ∷ ts) stored =
    let (allowed, b) = acquire_rate_limit_token limit t stored in
    (if allowed then 1 else 0) + granted limit ts (some b)

-- The times do not fall, from the given one on.
abbrev pub Rising : ℕ → List ℕ → Type 0
Rising t [] = Unit {0}
Rising t (u ∷ us) = (t ≤ u) × Rising u us

abbrev pub last_time : ℕ → List ℕ → ℕ
last_time t [] = t
last_time t (u ∷ us) = last_time u us

-- The bucket as a call at time `t` leaves it.
record LeftAt (limit : RateLimit) (t : ℕ) (b : Bucket) : Type 0 where
  ts : b.ts ≡ t
  expiry : t + limit.window_ms ≤ b.expires_at

gap : (c t u : ℕ) → t ≤ u → (u - t) * c + t * c ≡ u * c
gap c t u h = sym (add-mul (u - t) t c) ∙ ap (λ x. x * c) (omega arith)

refill-ts : (limit : RateLimit) (now : ℕ) (b : Bucket) → b.ts ≤ now → (refill limit now b).ts ≡ now
unfolding refill
refill-ts limit now b h = ground arith

refill-le :
    (limit : RateLimit) (now : ℕ) (b : Bucket)
    → b.ts ≤ now
    → (refill limit now b).tokens + b.ts * limit.capacity ≤ b.tokens + now * limit.capacity
unfolding refill
refill-le limit now b h = ground (arith, gap limit.capacity b.ts now h)

-- The bucket that a call at time `u` refills, after one at time `t`.
abbrev found : RateLimit → ℕ → Bucket → Bucket
found limit u b = bucket_or_full limit u (read_bucket u (some b))

found-le :
    (limit : RateLimit) (t u : ℕ) (b : Bucket)
    → LeftAt limit t b
    → t ≤ u
    → ((found limit u b).ts ≤ u)
      × ((found limit u b).tokens + t * limit.capacity
          ≤ b.tokens + (found limit u b).ts * limit.capacity)
found-le limit t u b l h = elim (Bool-cases (leb b.expires_at u)) [
  | inl e ↦
      let k : limit.window_ms + t ≤ u = ground (arith, l.expiry) in
      rw e (
        omega arith,
        omega (
          arith,
          mul-le-mul_right limit.capacity k,
          add-mul limit.window_ms t limit.capacity,
          mul_comm limit.window_ms limit.capacity,
        ),
      )
  | inr e ↦ rw e (omega (arith, l.ts), rw l.ts (omega arith))
]

-- Each call pays for its token out of the bucket and the refill since the last call.
step-le :
    (limit : RateLimit) (u : ℕ) (stored : Option Bucket)
    → (bucket_or_full limit u (read_bucket u stored)).ts ≤ u
    → (if (acquire_rate_limit_token limit u stored).0 then limit.window_ms else 0)
        + (acquire_rate_limit_token limit u stored).1.tokens
        + (bucket_or_full limit u (read_bucket u stored)).ts * limit.capacity
      ≤ (bucket_or_full limit u (read_bucket u stored)).tokens + u * limit.capacity
unfolding acquire_rate_limit_token
step-le limit u stored h =
    let b : Bucket = bucket_or_full limit u (read_bucket u stored) in
    elim (Bool-cases (leb limit.window_ms (refill limit u b).tokens)) [
      | inl e ↦
          let k : limit.window_ms ≤ (refill limit u b).tokens = ground arith in
          rw e (omega (arith, refill-le limit u b h))
      | inr e ↦ rw e (omega (arith, refill-le limit u b h))
    ]

step-LeftAt :
    (limit : RateLimit) (u : ℕ) (stored : Option Bucket)
    → (bucket_or_full limit u (read_bucket u stored)).ts ≤ u
    → LeftAt limit u (acquire_rate_limit_token limit u stored).1
unfolding acquire_rate_limit_token
step-LeftAt limit u stored h = record {
  ts = refill-ts limit u (bucket_or_full limit u (read_bucket u stored)) h;
  expiry = omega arith;
}

if_times :
    (w : ℕ) (x : Bool) (n : ℕ) → ((if x then 1 else 0) + n) * w ≡ (if x then w else 0) + n * w
if_times w true n = omega (arith, add-mul 1 n w, one-mul w)
if_times w false n = omega (arith, add-mul 0 n w, zero-mul w)

granted-le :
    (limit : RateLimit) (t : ℕ) (b : Bucket) (us : List ℕ)
    → LeftAt limit t b
    → Rising t us
    → granted limit us (some b) * limit.window_ms + t * limit.capacity
      ≤ b.tokens + last_time t us * limit.capacity
unfolding granted
granted-le limit t b [] l r = omega arith
granted-le limit t b (u ∷ us) l r =
    let (le, paid) = found-le limit t u b l r.0 in
    let (x, b') = acquire_rate_limit_token limit u (some b) in
    omega (
      arith,
      paid,
      if_times limit.window_ms x (granted limit us (some b')),
      step-le limit u (some b) le,
      granted-le limit u b' us (step-LeftAt limit u (some b) le) r.1,
    )

le-last_time : (t : ℕ) (us : List ℕ) → Rising t us → t ≤ last_time t us
le-last_time t [] r = omega arith
le-last_time t (u ∷ us) r = omega (arith, r.0, le-last_time u us r.1)

-- Calls at times that do not fall, the first of which finds no bucket, get at most the capacity in
-- tokens and what refills between the first and the last call: in parts of a token, at most the
-- capacity times the sum of the window and the time passed, in milliseconds. The bucket's expiry
-- in Redis does not add to this.
pub granted-bounded :
    (limit : RateLimit) (t : ℕ) (us : List ℕ)
    → Rising t us
    → granted limit (t ∷ us) none * limit.window_ms
      ≤ limit.capacity * (limit.window_ms + (last_time t us - t))
unfolding granted
granted-bounded limit t us r =
    let le : t ≤ t = omega arith in
    let (x, b) = acquire_rate_limit_token limit t none in
    omega (
      arith,
      if_times limit.window_ms x (granted limit us (some b)),
      step-le limit t none le,
      granted-le limit t b us (step-LeftAt limit t none le) r,
      gap limit.capacity t (last_time t us) (le-last_time t us r),
      mul-add limit.capacity limit.window_ms (last_time t us - t),
      mul_comm limit.capacity (last_time t us - t),
    )
