-- ===== src/Queue/Operations.antt =====
-- The operations of packages/upnext/src/upnext/engine/queue/redis/queue.py on a job: `enqueue`,
-- `finish` without a batching finisher, `retry` and `manual_retry`. Times and delays are in
-- microseconds; `now` is the first time that an operation reads. A
-- delay below 0 acts as 0.
use upnext.Prelude.{
  ℕ, ◌+◌, String, Option, none, some, Bool, true, false, not, ◌&&◌, ltb, str_eq, if◌then◌else◌,
}
use upnext.Value.{Value, null}
use upnext.Domain.Status.{JobStatus, failed, status_value}
use upnext.Domain.Job.{Job, mark_queued, prepare_job_for_manual_retry}
use upnext.Queue.Keys.{
  function_stream_key, function_scheduled_key, function_dedup_key, job_key, job_index_key,
  job_cancelled_key, job_status_channel,
}
use upnext.Queue.State.{
  StreamClaim, duplicate_job_error, invalid_status, Reply, returned, raised, publish,
  incr_worker_pending, decr_worker_pending, Env, Db, State, to_json, push, pop_stream_claim,
}
use upnext.Queue.Scripts.{
  store, ack, add_dedup, remove_dedup, add_to_stream, add_to_scheduled, remove_from_scheduled,
  enqueue_script, finish_script, retry_script,
}

abbrev pub claimed_id : Option StreamClaim → Option ℕ
claimed_id none = none
claimed_id (some claim) = some claim.msg_id

-- The stream of the claim, which has a name, or the one given.
abbrev pub claimed_stream : Option StreamClaim → String → String
claimed_stream none stream_key = stream_key
claimed_stream (some claim) stream_key = claim.stream_key

-- The worker component of a function, where there is one.
abbrev pub component_of : Option String → Option String
component_of none = none
component_of (some c) = if str_eq c "" then none else some c

module _ (env : Env) where
  open env use {redis, key_prefix}

  unfoldable pub count_enqueued : String → State redis → State redis
  count_enqueued function s = elim (component_of (env.get_fn_component function)) [
    | none ↦ s
    | some c ↦ push env (incr_worker_pending c) s
  ]

  unfoldable pub count_finished : String → State redis → State redis
  count_finished function s = elim (component_of (env.get_fn_component function)) [
    | none ↦ s
    | some c ↦ push env (decr_worker_pending c) s
  ]

  abbrev pub run_at : (now delay : ℕ) → ℕ
  run_at now delay = if ltb 0 delay then now + delay else now

  -- The job as `enqueue` stores it.
  unfoldable pub queued_job : (now delay : ℕ) → Job → Job
  unfolding mark_queued
  queued_job now delay job =
      mark_queued env.format now none (record job { scheduled_at = run_at now delay })

  -- The calls of `enqueue` where the scripts are not loaded, with the score of a delayed job; none for
  -- a duplicate.
  unfoldable pub enqueue_calls : (score delay : ℕ) → Job → Db redis → Option (Db redis)
  unfolding store add_dedup add_to_stream add_to_scheduled to_json
  enqueue_calls score delay job db =
      let dedup_key = function_dedup_key key_prefix job.function in
      let db₁ =
        store redis (job_key key_prefix job.function job.id) (job_index_key key_prefix job.id)
          (to_json env job) (add_dedup redis dedup_key job.key db) in
      if not (str_eq job.key "") && redis.sismember db.sets dedup_key job.key
      then none
      else some (
          if ltb 0 delay
          then add_to_scheduled redis (function_scheduled_key key_prefix job.function) job.id score
              db₁
          else add_to_stream redis (function_stream_key key_prefix job.function) job.id job.function
              (some (to_json env job)) db₁)

  -- The clock is read again for the score.
  abbrev pub enqueue_fallback : (now delay : ℕ) → Job → Db redis → Option (Db redis)
  enqueue_fallback now delay job db = enqueue_calls (env.read_again now + delay) delay job db

  -- `enqueue` with the script; none for a duplicate.
  unfoldable pub enqueue_atomic : (now delay : ℕ) → Job → Db redis → Option (Db redis)
  unfolding enqueue_script to_json
  enqueue_atomic now delay job db =
      let dest_key =
        if ltb 0 delay
        then function_scheduled_key key_prefix job.function
        else function_stream_key key_prefix job.function in
      let scheduled_time = if ltb 0 delay then run_at now delay else 0 in
      let reply =
        enqueue_script redis (function_dedup_key key_prefix job.function)
          (job_key key_prefix job.function job.id) dest_key (job_index_key key_prefix job.id)
          job.key (to_json env job) job.id job.function scheduled_time db in
      if str_eq reply.0 "DUPLICATE" then none else some reply.1

  unfoldable pub enqueue : (now delay : ℕ) → Job → State redis → Reply String × State redis
  unfolding enqueue_calls enqueue_atomic queued_job count_enqueued
  enqueue now delay job₀ s =
      let job = queued_job now delay job₀ in
      elim (if env.has_scripts
        then enqueue_atomic now delay job s.db
        else enqueue_fallback now delay job s.db) [
          | none ↦ (raised (duplicate_job_error job.key), s)
          | some db ↦ (returned job.id, count_enqueued job.function (record s { db = db }))
        ]

  -- The job as `finish` stores it.
  unfoldable pub finished_job : (now : ℕ) → JobStatus → Option Value → Option String → Job → Job
  finished_job now status result error job = record job {
    status = status;
    completed_at = some now;
    result = elim result [ none ↦ null | some v ↦ v ];
    error = error;
  }

  abbrev pub delete_string : String → Db redis → Db redis
  delete_string key db = record db { strings = redis.delete key db.strings }

  -- `_finish_direct`, for the finished job. With scripts and without, the same calls are made.
  unfoldable pub finish_direct : (consumer : String) → JobStatus → Job → State redis → State redis
  unfolding finish_script store ack remove_dedup pop_stream_claim to_json
  finish_direct consumer status job s =
      let claim = s.claims consumer job.id in
      let stream_key = claimed_stream claim (function_stream_key key_prefix job.function) in
      let payload_key = job_key key_prefix job.function job.id in
      let index_key = job_index_key key_prefix job.id in
      let dedup_key = function_dedup_key key_prefix job.function in
      let db =
        if env.has_scripts
        then finish_script redis stream_key payload_key index_key dedup_key (claimed_id claim)
            (to_json env job) job.key s.db
        else remove_dedup redis dedup_key job.key (
            store redis payload_key index_key (to_json env job)
              (ack redis stream_key (claimed_id claim) s.db)) in
      push env (publish (job_status_channel key_prefix job.id) (status_value status))
        (record (pop_stream_claim env consumer job.id s) {
          db = delete_string (job_cancelled_key key_prefix job.id) db;
        })

  unfoldable pub finish :
      (consumer : String)
      → (now : ℕ) → JobStatus
      → Option Value
      → Option String
      → Job
      → State redis
      → State redis
  unfolding finish_direct finished_job count_finished
  finish consumer now status result error job s =
      finish_direct consumer status (finished_job now status result error job)
        (count_finished job.function s)

  -- The job as `retry` stores it.
  unfoldable pub requeued_job : (now delay : ℕ) → Job → Job
  unfolding mark_queued
  requeued_job now delay job =
      mark_queued env.format now (some "Re-queued for retry")
        (record job { scheduled_at = run_at now delay })

  -- The calls of `retry` without a claim or without scripts, with the score of a delayed job.
  unfoldable pub retry_calls : (score delay : ℕ) → Option StreamClaim → Job → Db redis → Db redis
  unfolding store ack add_to_stream add_to_scheduled to_json
  retry_calls score delay claim job db =
      let db₁ =
        store redis (job_key key_prefix job.function job.id) (job_index_key key_prefix job.id)
          (to_json env job) (ack redis (claimed_stream claim "") (claimed_id claim) db) in
      if ltb 0 delay
      then add_to_scheduled redis (function_scheduled_key key_prefix job.function) job.id score db₁
      else add_to_stream redis (function_stream_key key_prefix job.function) job.id job.function
          (some (to_json env job)) db₁

  abbrev pub retry_fallback : (now delay : ℕ) → Option StreamClaim → Job → Db redis → Db redis
  retry_fallback now delay claim job db = retry_calls (run_at now delay) delay claim job db

  -- The script takes the time from Redis.
  unfoldable pub retry_atomic : (now delay : ℕ) → StreamClaim → Job → Db redis → Db redis
  unfolding retry_script to_json
  retry_atomic now delay claim job db =
      let dest_key =
        if ltb 0 delay
        then function_scheduled_key key_prefix job.function
        else function_stream_key key_prefix job.function in
      retry_script redis claim.stream_key (job_key key_prefix job.function job.id) dest_key
        (job_index_key key_prefix job.id) (some claim.msg_id) (to_json env job) job.id job.function
        delay (env.redis_time now) db

  unfoldable pub retry_db : (now delay : ℕ) → Option StreamClaim → Job → Db redis → Db redis
  unfolding retry_calls retry_atomic
  retry_db now delay none job db = retry_fallback now delay none job db
  retry_db now delay (some claim) job db =
      if env.has_scripts
      then retry_atomic now delay claim job db
      else retry_fallback now delay (some claim) job db

  unfoldable pub retry : (consumer : String) → (now delay : ℕ) → Job → State redis → State redis
  unfolding retry_db requeued_job pop_stream_claim
  retry consumer now delay job₀ s =
      let job = requeued_job now delay job₀ in
      record (pop_stream_claim env consumer job.id s) {
        db = retry_db now delay (s.claims consumer job.id) job s.db;
      }

  abbrev pub can_retry_manually : JobStatus → Bool
  can_retry_manually failed = true
  can_retry_manually JobStatus.cancelled = true
  can_retry_manually _ = false

  unfoldable pub requeue : Job → Db redis → Db redis
  unfolding store add_dedup add_to_stream remove_from_scheduled to_json
  requeue job db =
      add_to_stream redis (function_stream_key key_prefix job.function) job.id job.function
        (some (to_json env job))
        (add_dedup redis (function_dedup_key key_prefix job.function) job.key (
          remove_from_scheduled redis (function_scheduled_key key_prefix job.function) job.id (
            delete_string (job_cancelled_key key_prefix job.id) (
              store redis (job_key key_prefix job.function job.id) (job_index_key key_prefix job.id)
                (to_json env job) db))))

  unfoldable pub manual_retry :
      (consumer : String) → (now : ℕ) → Job → State redis → Reply (Unit {0}) × State redis
  unfolding requeue prepare_job_for_manual_retry pop_stream_claim
  manual_retry consumer now job₀ s₀ =
      let s = pop_stream_claim env consumer job₀.id s₀ in
      let job = prepare_job_for_manual_retry env.format now job₀ in
      if not (can_retry_manually job₀.status)
      then (raised (invalid_status (status_value job₀.status)), s₀)
      else if not (str_eq job.key "")
          && redis.sismember s.db.sets (function_dedup_key key_prefix job.function) job.key
      then (raised (duplicate_job_error job.key), s)
      else (returned tt, record s { db = requeue job s.db })
