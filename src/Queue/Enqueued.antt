-- ===== src/Queue/Enqueued.antt =====
-- What a consumer reads of a job that `enqueue` of
-- packages/upnext/src/upnext/engine/queue/redis/queue.py has stored.
use upnext.Prelude.{
  ℕ, String, ◌≡◌, ◌≢◌, refl, sym, ap, ◌∙◌, Option, some, false, ◌||◌, str_eq, arith, eq_refl,
  Bool-cases, ltb, inl, inr,
}
use upnext.Prelude.Result.{ok}
use upnext.Domain.Job.{Job, post_init, mark_queued}
use upnext.Domain.RoundTrip.{IsNamed, from_dict-to_dict}
use upnext.Queue.Keys.{job_key, job_index_key, job_key-ne-job_index_key}
use upnext.Queue.Redis.{Message}
use upnext.Queue.State.{Env, Db, State, to_json, from_json}
use upnext.Queue.Scripts.{store, add_dedup}
use upnext.Queue.Operations.{enqueue, queued_job}
use upnext.Queue.Process.{job_or_none, job_of_payload, read_message}
use upnext.Queue.Dedup.{is_held, enqueue_free, count_enqueued-db, placed_db}
use upnext.Queue.Same.{enqueue_score}
use upnext.Queue.Kept.Moves.{str_of_ne}

module _ (env : Env) where
  open env use {redis, key_prefix}

  pub to_json-nonempty : (job : Job) → to_json env job ≢ ""
  unfolding to_json
  to_json-nonempty job e =
      absurd
        (ground (arith, env.json.loads_empty, sym (ap env.json.loads e) ∙ env.json.loads-dumps _))

  pub from_json-to_json :
      (job : Job) → IsNamed job.source → from_json env (to_json env job) ≡ ok (post_init job)
  unfolding from_json to_json
  from_json-to_json job h = rw (env.json.loads-dumps _) (from_dict-to_dict env.iso job h)

  job_of_payload-to_json :
      (o : Option String) (job : Job)
      → IsNamed job.source
      → o ≡ some (to_json env job)
      → job_of_payload env o ≡ some (post_init job)
  unfolding job_of_payload
  job_of_payload-to_json o job h e =
      ap (job_of_payload env) e
      ∙ rw (str_of_ne (to_json env job) "" (to_json-nonempty job))
          (ap (job_or_none env) (from_json-to_json job h))

  pub get-stored :
      (job : Job) (strings : redis.Strings)
      → redis.get
          (redis.set
            (job_index_key key_prefix job.id)
            (job_key key_prefix job.function job.id)
            (redis.set (job_key key_prefix job.function job.id) (to_json env job) strings))
          (job_key key_prefix job.function job.id)
        ≡ some (to_json env job)
  get-stored job strings =
      let k = job_key key_prefix job.function job.id in
      redis.get-set _ _ _ k
      ∙ rw
          (str_of_ne _ k
            (λ e. job_key-ne-job_index_key key_prefix job.function job.id job.id (sym e)))
          (redis.get-set strings k _ k ∙ rw (eq_refl k) refl)

  get-placed_db :
      (now delay : ℕ) (job : Job) (db : Db redis)
      → redis.get (placed_db env now delay job db).strings (job_key key_prefix job.function job.id)
        ≡ some (to_json env job)
  unfolding placed_db store add_dedup
  get-placed_db now delay job db = elim (Bool-cases (ltb 0 delay)) [
    | inl e ↦ rw (placed_db, e) (get-stored job _)
    | inr e ↦ rw (placed_db, e) (get-stored job _)
  ]

  -- Where its idempotency key is free, a job that is enqueued, at once or for later, is what a message
  -- with its id and function is read as: the job as it was queued, with the defaults of
  -- construction, if it and its function have names and its cron source, if it has one, names a
  -- schedule.
  pub read_message-enqueue :
      (now delay : ℕ) (job : Job) (s : State redis) (m : Message)
      → IsNamed job.source
      → str_eq job.id "" ≡ false
      → str_eq job.function "" ≡ false
      → is_held env job.function job.key s.db ≡ false
      → m.entry.job_id ≡ job.id
      → m.entry.function ≡ job.function
      → read_message env m (enqueue env now delay job s).1
        ≡ some (post_init (queued_job env now delay job))
  unfolding read_message queued_job mark_queued
  read_message-enqueue now delay job s m h i f free mi mf =
      let queued = queued_job env now delay job in
      let names : str_eq m.entry.job_id "" || str_eq m.entry.function "" ≡ false =
        ap (λ x. str_eq x "" || str_eq m.entry.function "") mi
        ∙ ap (λ x. str_eq job.id "" || str_eq x "") mf
        ∙ ground (arith, i, f) in
      let db =
        ap (λ x. x.1.db) (enqueue_free env now delay job s free)
        ∙ count_enqueued-db env job.function _ in
      let there : redis.get (enqueue env now delay job s).1.db.strings
            (job_key key_prefix m.entry.function m.entry.job_id)
          ≡ some (to_json env queued) =
        ap (λ x. redis.get x.strings (job_key key_prefix m.entry.function m.entry.job_id)) db
        ∙ ap
            (λ x.
              redis.get (placed_db env (enqueue_score env now delay) delay queued s.db).strings
                (job_key key_prefix x m.entry.job_id))
            mf
        ∙ ap
            (λ x.
              redis.get (placed_db env (enqueue_score env now delay) delay queued s.db).strings
                (job_key key_prefix job.function x))
            mi
        ∙ get-placed_db (enqueue_score env now delay) delay queued s.db in
      rw names (job_of_payload-to_json _ queued h there)
