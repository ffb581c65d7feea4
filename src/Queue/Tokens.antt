-- ===== src/Queue/Tokens.antt =====
-- Rate limits of the queue: `RateLimit` of
-- packages/upnext/src/upnext/engine/queue/redis/rate_limit.py and `_acquire_rate_limit_token` of
-- packages/upnext/src/upnext/engine/queue/redis/queue.py. Times are in milliseconds, and tokens are
-- counted in parts of which one token has as many as the window has milliseconds, so that the refill
-- of each millisecond is exact (the code takes floats).
use upnext.Prelude.{ℕ, ◌+◌, ◌-◌, ◌*◌, Option, none, some, Bool, leb, ltb, min, max, if◌then◌else◌}

pub record RateLimit : Type 0 where
  pub capacity : ℕ
  pub window_ms : ℕ

-- The hash of the bucket in Redis, and when it expires.
pub record Bucket : Type 0 where
  pub tokens : ℕ
  pub ts : ℕ
  pub expires_at : ℕ

-- A key that has expired reads as none.
abbrev pub read_bucket : ℕ → Option Bucket → Option Bucket
read_bucket now none = none
read_bucket now (some b) = if leb b.expires_at now then none else some b

abbrev pub ttl_ms : RateLimit → ℕ
ttl_ms limit = max 1000 (2 * limit.window_ms)

-- A missing bucket is full now.
abbrev pub bucket_or_full : RateLimit → ℕ → Option Bucket → Bucket
bucket_or_full limit now none = record {
  tokens = limit.capacity * limit.window_ms;
  ts = now;
  expires_at = now + ttl_ms limit;
}
bucket_or_full limit now (some b) = b

-- The refill since the last call, up to the capacity.
unfoldable pub refill : RateLimit → ℕ → Bucket → Bucket
refill limit now b =
    if ltb b.ts now
    then record b {
      tokens = min (limit.capacity * limit.window_ms) (b.tokens + (now - b.ts) * limit.capacity);
      ts = now;
    }
    else b

-- Whether a token is there, and the bucket that is stored.
unfoldable pub acquire_rate_limit_token : RateLimit → ℕ → Option Bucket → Bool × Bucket
unfolding refill
acquire_rate_limit_token limit now stored =
    let b = refill limit now (bucket_or_full limit now (read_bucket now stored)) in
    let allowed = leb limit.window_ms b.tokens in
    (
      allowed,
      record {
        tokens = if allowed then b.tokens - limit.window_ms else b.tokens;
        ts = b.ts;
        expires_at = now + ttl_ms limit;
      },
    )
