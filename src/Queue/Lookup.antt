-- ===== src/Queue/Lookup.antt =====
-- The operations of packages/upnext/src/upnext/engine/queue/redis/queue.py on a job id: `get_job`,
-- `update_progress`, `update_job_checkpoint` and `is_cancelled`, with `_find_job_key_by_id`, and `delete_stream_entries_for_job` of
-- packages/shared/src/shared/queue_mutations.py.
use upnext.Prelude.{
  ℕ, zero, suc, ◌-◌, String, Option, none, some, List, [], ◌∷◌, Bool, true, false, ltb, ◌==◌,
  str_eq, if◌then◌else◌, length,
}
use upnext.Prelude.Result.{Result, ok, err}
use upnext.Value.{Fields, end, field}
use upnext.Domain.Job.{Job}
use upnext.Queue.Keys.{job_index_key, job_cancelled_key}
use upnext.Queue.Redis.{Message}
use upnext.Queue.State.{Env, Db, to_json, from_json}
use upnext.Queue.Operations.{delete_string}

-- `not data`: there is none, or an empty one.
abbrev pub nonempty : Option String → Option String
nonempty none = none
nonempty (some s) = if str_eq s "" then none else some s

abbrev pub last_id : Message → List Message → ℕ
last_id m [] = m.msg_id
last_id m (n ∷ rest) = last_id n rest

module _ (env : Env) where
  open env use {redis, key_prefix}

  -- The search by SCAN writes the index again.
  unfoldable pub recover_job_key : String → Db redis → Option String × Db redis
  recover_job_key job_id db = elim (redis.scan_job_key key_prefix job_id db.strings) [
    | none ↦ (none, db)
    | some k ↦
        (some k, record db { strings = redis.set (job_index_key key_prefix job_id) k db.strings })
  ]

  unfoldable pub find_job_key_by_id : String → Db redis → Option String × Db redis
  unfolding recover_job_key
  find_job_key_by_id job_id db =
      elim (nonempty (redis.get db.strings (job_index_key key_prefix job_id))) [
        | none ↦ recover_job_key job_id db
        | some k ↦ elim (redis.get db.strings k) [
          | some _ ↦ (some k, db)
          | none ↦ recover_job_key job_id (delete_string env (job_index_key key_prefix job_id) db)
        ]
      ]

  abbrev pub with_key : String → Option String → Option (String × String)
  with_key k none = none
  with_key k (some payload) = some (k, payload)

  -- The payload under a key, with the key.
  abbrev pub payload_at : Option String → redis.Strings → Option (String × String)
  payload_at none strings = none
  payload_at (some k) strings = with_key k (nonempty (redis.get strings k))

  -- The stored payload of a job id, with its key; none where a caller returns early.
  unfoldable pub find_payload : String → Db redis → Option (String × String) × Db redis
  unfolding find_job_key_by_id
  find_payload job_id db =
      let (found, db₁) = find_job_key_by_id job_id db in (payload_at found db₁.strings, db₁)

  unfoldable pub get_job : String → Db redis → Result (Option Job) × Db redis
  unfolding find_payload from_json
  get_job job_id db =
      let (found, db₁) = find_payload job_id db in
      (
        elim found [
          | none ↦ ok none
          | some (k, payload) ↦ elim (from_json env payload) [
            | ok job ↦ ok (some job)
            | err e ↦ err e
          ]
        ],
        db₁,
      )

  abbrev pub put_payload : String → Job → Db redis → Db redis
  put_payload k job db = record db { strings = redis.set k (to_json env job) db.strings }

  -- A payload that cannot be read raises, and nothing more is changed.
  unfoldable pub update_progress : String → (progress : ℕ) → Db redis → Result (Unit {0}) × Db redis
  unfolding find_payload from_json
  update_progress job_id progress db =
      let (found, db₁) = find_payload job_id db in
      elim found [
        | none ↦ (ok tt, db₁)
        | some (k, payload) ↦ elim (from_json env payload) [
          | err e ↦ (err e, db₁)
          | ok job ↦
              if job.progress == progress
              then (ok tt, db₁)
              else (ok tt, put_payload k (record job { progress = progress }) db₁)
        ]
      ]

  unfoldable pub update_job_checkpoint :
      String
      → (state : Fields) → (checkpointed_at : String) → Db redis
      → Result (Unit {0}) × Db redis
  unfolding find_payload from_json
  update_job_checkpoint job_id end checkpointed_at db = (ok tt, db)
  update_job_checkpoint job_id (field name v rest) checkpointed_at db =
      let (found, db₁) = find_payload job_id db in
      elim found [
        | none ↦ (ok tt, db₁)
        | some (k, payload) ↦ elim (from_json env payload) [
          | err e ↦ (err e, db₁)
          | ok job ↦ (
            ok tt,
            put_payload k
                (record job {
                  checkpoint = some (field name v rest);
                  checkpoint_at = some checkpointed_at;
                })
                db₁,
          )
        ]
      ]

  unfoldable pub is_cancelled : String → Db redis → Bool
  is_cancelled job_id db = elim (redis.get db.strings (job_cancelled_key key_prefix job_id)) [
    | none ↦ false
    | some _ ↦ true
  ]

  -- Deletes the entries of a job among those of a page.
  unfoldable pub delete_matching :
      (stream_key job_id : String) → List Message → redis.Streams → redis.Streams
  delete_matching stream_key job_id [] streams = streams
  delete_matching stream_key job_id (m ∷ rest) streams =
      let after = delete_matching stream_key job_id rest streams in
      if str_eq m.entry.job_id job_id then redis.xdel stream_key m.msg_id after else after

  -- The pages after an id, with the number of entries that may still be scanned. Each page that is
  -- not the last has an entry, so that as much fuel as that number is enough.
  unfoldable pub delete_pages :
      (stream_key job_id : String)
      → (batch_size fuel max_scan : ℕ) → (after : Option ℕ) → redis.Streams
      → redis.Streams
  unfolding delete_matching
  delete_pages stream_key job_id batch_size zero max_scan after streams = streams
  delete_pages stream_key job_id batch_size (suc fuel) zero after streams = streams
  delete_pages stream_key job_id batch_size (suc fuel) (suc more) after streams =
      elim (redis.xrange streams stream_key after batch_size) [
        | [] ↦ streams
        | m ∷ rest ↦
            let streams₁ = delete_matching stream_key job_id (m ∷ rest) streams in
            let scanned = length (m ∷ rest) in
            elim (ltb scanned batch_size) [
              | true ↦ streams₁
              | false ↦
                  delete_pages stream_key job_id batch_size fuel (suc more - scanned)
                    (some (last_id m rest)) streams₁
            ]
      ]

  -- With the default page size and bound.
  unfoldable pub delete_stream_entries_for_job :
      (stream_key job_id : String) → redis.Streams → redis.Streams
  delete_stream_entries_for_job stream_key job_id streams =
      delete_pages stream_key job_id 500 50_000 50_000 none streams
