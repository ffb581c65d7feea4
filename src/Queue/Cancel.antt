-- ===== src/Queue/Cancel.antt =====
-- `cancel` of packages/upnext/src/upnext/engine/queue/redis/queue.py.
use upnext.Prelude.{ℕ, String, Option, none, some, Bool, true, false, str_eq, if◌then◌else◌}
use upnext.Prelude.Result.{Result, ok, err}
use upnext.Domain.Status.{JobStatus, is_terminal, status_value}
use upnext.Domain.Job.{Job, mark_cancelled}
use upnext.Queue.Keys.{
  function_stream_key, function_scheduled_key, function_dedup_key, job_index_key, job_cancelled_key,
  job_status_channel,
}
use upnext.Queue.State.{
  StreamClaim, publish, Env, Db, State, to_json, from_json, push, pop_stream_claim,
}
use upnext.Queue.Scripts.{store, ack, remove_dedup, remove_from_scheduled, cancel_script}
use upnext.Queue.Operations.{claimed_id, delete_string}
use upnext.Queue.Lookup.{nonempty, find_payload, delete_stream_entries_for_job}

module _ (env : Env) where
  open env use {redis, key_prefix}

  -- Marks the job cancelled, unless the marker is there (SET NX).
  abbrev pub mark : String → Db redis → Db redis
  mark marker_key db = record db {
    strings = elim (redis.get db.strings marker_key) [
      | none ↦ redis.set marker_key "1" db.strings
      | some _ ↦ db.strings
    ];
  }

  -- Takes the marker away again if this call created it.
  abbrev pub unmark : Option String → String → Db redis → Db redis
  unmark none marker_key db = delete_string env marker_key db
  unmark (some _) marker_key db = db

  -- The rest of a cancellation that went through.
  unfoldable pub drop_copies : Job → Db redis → Db redis
  unfolding remove_from_scheduled delete_stream_entries_for_job
  drop_copies job db =
      let db₁ =
        remove_from_scheduled redis (function_scheduled_key key_prefix job.function) job.id db in
      record db₁ {
        streams =
            delete_stream_entries_for_job env (function_stream_key key_prefix job.function) job.id
              db₁.streams;
      }

  -- The cancelled job is stored under the key where it was found. The reply is whether it was.
  unfoldable pub cancel_atomic :
      (payload_key : String) → Option StreamClaim → Job → Db redis → Result Bool × Db redis
  unfolding cancel_script to_json
  cancel_atomic payload_key claim job db =
      let reply =
        cancel_script redis env.json (function_stream_key key_prefix job.function) payload_key
          (job_index_key key_prefix job.id) (function_dedup_key key_prefix job.function)
          (claimed_id claim) (to_json env job) job.key db in
      (ok (str_eq reply.0 "OK"), reply.1)

  -- Without scripts, the status that the stored payload has by now is looked at.
  unfoldable pub cancel_fallback :
      (payload_key : String) → Option StreamClaim → Job → Db redis → Result Bool × Db redis
  unfolding store ack remove_dedup to_json from_json
  cancel_fallback payload_key claim job db = elim (nonempty (redis.get db.strings payload_key)) [
    | none ↦ (ok false, db)
    | some current ↦ elim (from_json env current) [
      | err e ↦ (err e, db)
      | ok current_job ↦ if is_terminal current_job.status then (ok false, db) else (
        ok true,
        remove_dedup redis (function_dedup_key key_prefix job.function) job.key (
            store redis payload_key (job_index_key key_prefix job.id) (to_json env job)
              (ack redis (function_stream_key key_prefix job.function) (claimed_id claim) db)),
      )
    ]
  ]

  -- What follows the reply: the marker as it was before is given.
  unfoldable pub settle_cancel :
      Job
      → (marker : Option String) → Result Bool × Db redis
      → State redis
      → Result Bool × State redis
  unfolding drop_copies
  settle_cancel job marker (err e, db) s = (err e, record s { db = db })
  settle_cancel job marker (ok false, db) s =
      (ok false, record s { db = unmark marker (job_cancelled_key key_prefix job.id) db })
  settle_cancel job marker (ok true, db) s = (
    ok true,
    push env (publish (job_status_channel key_prefix job.id) (status_value JobStatus.cancelled))
        (record s { db = drop_copies job db }),
  )

  -- For a job that was read and is not terminal.
  unfoldable pub cancel_job :
      (consumer : String)
      → (now : ℕ) → (payload_key : String) → Job
      → State redis
      → Result Bool × State redis
  unfolding cancel_atomic cancel_fallback settle_cancel pop_stream_claim mark_cancelled
  cancel_job consumer now payload_key job₀ s₀ =
      let job = mark_cancelled env.format now job₀ in
      let claim = s₀.claims consumer job.id in
      let s = pop_stream_claim env consumer job.id s₀ in
      let marker_key = job_cancelled_key key_prefix job.id in
      let marker = redis.get s.db.strings marker_key in
      let r =
        if env.has_scripts
        then cancel_atomic payload_key claim job (mark marker_key s.db)
        else cancel_fallback payload_key claim job (mark marker_key s.db) in
      settle_cancel job marker r s

  -- The cancellation of a job whose key and payload were looked up.
  abbrev pub cancel_found :
      (consumer : String)
      → (now : ℕ) → State redis
      → Option (String × String) × Db redis
      → Result Bool × State redis
  cancel_found consumer now s₀ (found, db) =
      let s = record s₀ { db = db } in
      elim found [
        | none ↦ (ok false, s)
        | some (k, payload) ↦ elim (from_json env payload) [
          | err e ↦ (err e, s)
          | ok job ↦
              if is_terminal job.status then (ok false, s) else cancel_job consumer now k job s
        ]
      ]

  -- False where there is no job or it is terminal.
  unfoldable pub cancel :
      (consumer : String) → (now : ℕ) → String → State redis → Result Bool × State redis
  unfolding find_payload from_json cancel_job
  cancel consumer now job_id s = cancel_found consumer now s (find_payload env job_id s.db)
