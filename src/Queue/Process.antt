-- ===== src/Queue/Process.antt =====
-- How a message becomes a job: `_process_message` of
-- packages/upnext/src/upnext/engine/queue/redis/queue.py. Redis raises no errors here.
use upnext.Prelude.{
  ℕ, ◌+◌, ◌-◌, ◌*◌, ◌/◌, String, Option, none, some, Bool, true, false, ◌||◌, ltb, str_eq,
  if◌then◌else◌,
}
use upnext.Prelude.Result.{Result, ok, err}
use upnext.Domain.Status.{active}
use upnext.Domain.Job.{Job}
use upnext.Processor.State.{DispatchReason, no_capacity, rate_limited}
use upnext.Queue.Keys.{job_key}
use upnext.Queue.Tokens.{RateLimit, acquire_rate_limit_token}
use upnext.Queue.Redis.{Message}
use upnext.Queue.State.{
  StreamClaim, record_dispatch_reason, Env, State, from_json, push, set_stream_claim,
}
use upnext.Queue.Scripts.{ack}
use upnext.Queue.Operations.{retry}

-- `token_interval_seconds`, rounded up to a microsecond.
abbrev pub token_interval : RateLimit → ℕ
token_interval limit = (limit.window_ms * 1_000 + limit.capacity - 1) / limit.capacity

abbrev pub above : Option ℕ → ℕ → Bool
above none n = false
above (some limit) n = ltb limit n

module _ (env : Env) where
  open env use {redis, key_prefix}

  -- More messages of the function, or of its group, are in progress than may be.
  abbrev pub over_capacity : String → Bool
  over_capacity f = above (env.functions.max_concurrency f) (env.functions.active_count f)

  abbrev pub quota_passed : Option String × Option ℕ → Bool
  quota_passed (none, limit) = false
  quota_passed (some group, limit) = above limit (env.functions.group_active_count group)

  unfoldable pub ack_message : Message → State redis → State redis
  unfolding ack
  ack_message m s = record s { db = ack redis m.stream_key (some m.msg_id) s.db }

  abbrev pub claim_of : Message → StreamClaim
  claim_of m = record { stream_key = m.stream_key; msg_id = m.msg_id }

  -- Puts the job of a message back for later.
  unfoldable pub put_back :
      (consumer : String)
      → (now : ℕ) → Message
      → Job
      → DispatchReason
      → (delay : ℕ) → State redis
      → State redis
  unfolding retry set_stream_claim
  put_back consumer now m job reason delay s = retry env consumer now delay job (
      set_stream_claim env consumer job.id (claim_of m)
        (push env (record_dispatch_reason job.function reason job.id) s))

  unfoldable pub take_token : (now : ℕ) → String → State redis → Bool × State redis
  unfolding acquire_rate_limit_token
  take_token now function s = elim (env.rate_limit function) [
    | none ↦ (true, s)
    | some limit ↦
        let (allowed, bucket) = acquire_rate_limit_token limit (now / 1_000) (s.buckets function) in
        (
          allowed,
          record s { buckets = λ f. if str_eq function f then some bucket else s.buckets f },
        )
  ]

  abbrev pub interval_of : Option RateLimit → ℕ
  interval_of none = 0
  interval_of (some limit) = token_interval limit

  -- The last part of `_process_message`, for a job that was read.
  unfoldable pub start_job :
      (consumer : String) → (now : ℕ) → Message → Job → State redis → Option Job × State redis
  unfolding put_back take_token set_stream_claim
  start_job consumer now m job s =
      if over_capacity job.function || quota_passed (env.functions.group_quota job.function)
      then (none, put_back consumer now m job no_capacity 100_000 s)
      else let (allowed, s₁) = take_token now job.function s in
        if allowed
        then (
          some (record job { status = active; started_at = some now }),
          set_stream_claim env consumer job.id (claim_of m) s₁,
        )
        else (
          none,
          put_back consumer now m job rate_limited (interval_of (env.rate_limit job.function)) s₁,
        )

  abbrev pub job_or_none : Result Job → Option Job
  job_or_none (ok job) = some job
  job_or_none (err e) = none

  -- An empty payload, or one that cannot be read, gives no job.
  unfoldable pub job_of_payload : Option String → Option Job
  unfolding from_json
  job_of_payload none = none
  job_of_payload (some payload) =
      if str_eq payload "" then none else job_or_none (from_json env payload)

  -- The job whose payload a message names, if it can be read.
  unfoldable pub read_message : Message → State redis → Option Job
  unfolding job_of_payload
  read_message m s =
      if str_eq m.entry.job_id "" || str_eq m.entry.function ""
      then none
      else job_of_payload
          (redis.get s.db.strings (job_key key_prefix m.entry.function m.entry.job_id))

  unfoldable pub process_message :
      (consumer : String) → (now : ℕ) → Message → State redis → Option Job × State redis
  unfolding read_message start_job ack_message
  process_message consumer now m s = elim (read_message m s) [
    | none ↦ (none, ack_message m s)
    | some job ↦ start_job consumer now m job s
  ]
