-- ===== src/Queue/Same.antt =====
-- The calls that `enqueue` and `retry` of packages/upnext/src/upnext/engine/queue/redis/queue.py make
-- with the Lua scripts and without: the same, with the score of one clock or another.
use upnext.Prelude.{
  ℕ, ◌+◌, ◌≡◌, refl, Option, none, some, Bool, true, false, not, ◌&&◌, ltb, str_eq, arith,
  if◌then◌else◌, Bool-cases, inl, inr,
}
use upnext.Domain.Job.{Job}
use upnext.Queue.Keys.{function_dedup_key}
use upnext.Queue.State.{StreamClaim, Env, Db}
use upnext.Queue.Scripts.{enqueue_script, retry_script}
use upnext.Queue.Operations.{
  enqueue_atomic, enqueue_fallback, enqueue_calls, retry_atomic, retry_calls, run_at, retry_db,
}

pub if_eq {ℓ} : {A : Type ℓ} {x y : A} (b : Bool) → x ≡ y → (if b then x else y) ≡ y
if_eq true h = h
if_eq false h = refl

-- Either branch is the same function, of one number or another.
if_score {ℓ} :
    {A : Type ℓ} {x y : A} (b : Bool) (f : ℕ → A) (m n : ℕ)
    → x ≡ f m
    → y ≡ f n
    → (if b then x else y) ≡ f (if b then m else n)
if_score true f m n p q = p
if_score false f m n p q = q

module _ (env : Env) where
  open env use {redis, key_prefix}

  enqueue_atomic-calls :
      (now delay : ℕ) (job : Job) (db : Db redis)
      → enqueue_atomic env now delay job db ≡ enqueue_calls env (now + delay) delay job db
  unfolding enqueue_atomic enqueue_calls enqueue_script
  enqueue_atomic-calls now delay job db =
      elim (Bool-cases (
        not (str_eq job.key "")
        && redis.sismember db.sets (function_dedup_key key_prefix job.function) job.key)) [
          | inl d ↦ rw d refl
          | inr d ↦ elim (Bool-cases (ltb 0 delay)) [
            | inl e ↦ let later : ltb 0 (now + delay) ≡ true = ground arith in rw (d, e, later) refl
            | inr e ↦ rw (d, e) refl
          ]
        ]

  retry_atomic-calls :
      (now delay : ℕ) (claim : StreamClaim) (job : Job) (db : Db redis)
      → retry_atomic env now delay claim job db
        ≡ retry_calls env (env.redis_time now + delay) delay (some claim) job db
  unfolding retry_atomic retry_calls retry_script
  retry_atomic-calls now delay claim job db = elim (Bool-cases (ltb 0 delay)) [
    | inl e ↦ rw e refl
    | inr e ↦ rw e refl
  ]

  -- The score of a delayed job, by the clock that is read last.
  abbrev pub enqueue_score : (now delay : ℕ) → ℕ
  enqueue_score now delay = if env.has_scripts then now + delay else env.read_again now + delay

  abbrev pub retry_score : (now delay : ℕ) → Option StreamClaim → ℕ
  retry_score now delay none = run_at env now delay
  retry_score now delay (some claim) =
      if env.has_scripts then env.redis_time now + delay else run_at env now delay

  -- With the script or without, the same calls with one score or another.
  pub enqueue_chosen :
      (now delay : ℕ) (job : Job) (db : Db redis)
      → (if env.has_scripts
          then enqueue_atomic env now delay job db
          else enqueue_fallback env now delay job db)
        ≡ enqueue_calls env (enqueue_score now delay) delay job db
  enqueue_chosen now delay job db =
      if_score env.has_scripts (λ t. enqueue_calls env t delay job db) (now + delay)
        (env.read_again now + delay) (enqueue_atomic-calls now delay job db) refl

  pub retry_db-calls :
      (now delay : ℕ) (claim : Option StreamClaim) (job : Job) (db : Db redis)
      → retry_db env now delay claim job db
        ≡ retry_calls env (retry_score now delay claim) delay claim job db
  unfolding retry_db
  retry_db-calls now delay none job db = refl
  retry_db-calls now delay (some claim) job db =
      if_score env.has_scripts (λ t. retry_calls env t delay (some claim) job db)
        (env.redis_time now + delay) (run_at env now delay)
        (retry_atomic-calls now delay claim job db) refl
