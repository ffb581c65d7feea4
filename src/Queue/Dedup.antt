-- ===== src/Queue/Dedup.antt =====
-- What idempotency keys promise: `enqueue` and `finish` of
-- packages/upnext/src/upnext/engine/queue/redis/queue.py.
use upnext.Prelude.{
  ℕ, String, ◌≡◌, refl, ap, ◌∙◌, Option, some, Bool, true, false, not, ◌&&◌, ltb, str_eq, eq_refl,
  if◌then◌else◌, Bool-cases, Option-cases, inl, inr,
}
use upnext.Value.{Value}
use upnext.Domain.Status.{JobStatus}
use upnext.Domain.Job.{Job, mark_queued}
use upnext.Queue.Keys.{
  function_scheduled_key, function_stream_key, function_dedup_key, job_key, job_index_key,
}
use upnext.Queue.State.{Env, Db, State, returned, raised, duplicate_job_error, to_json}
use upnext.Queue.Scripts.{
  store, ack, add_dedup, remove_dedup, add_to_stream, add_to_scheduled, finish_script,
}
use upnext.Queue.Same.{if_eq, enqueue_chosen, enqueue_score}
use upnext.Queue.Operations.{
  component_of, enqueue, enqueue_calls, queued_job, count_enqueued, count_finished, finish,
  finish_direct, finished_job,
}

module _ (env : Env) where
  open env use {redis, key_prefix}

  -- The idempotency key of a job is held.
  abbrev pub is_held : (function key : String) → Db redis → Bool
  is_held function key db =
      not (str_eq key "") && redis.sismember db.sets (function_dedup_key key_prefix function) key

  pub enqueue_held :
      (now delay : ℕ) (job : Job) (s : State redis)
      → is_held job.function job.key s.db ≡ true
      → enqueue env now delay job s ≡ (raised (duplicate_job_error job.key), s)
  unfolding enqueue enqueue_calls queued_job mark_queued
  enqueue_held now delay job s h =
      rw (enqueue, enqueue_chosen env now delay (queued_job env now delay job) s.db, h) refl

  -- What is stored where the key is free.
  unfoldable pub placed_db : (score delay : ℕ) → Job → Db redis → Db redis
  unfolding store add_dedup add_to_stream add_to_scheduled to_json
  placed_db score delay job db =
      let db₁ =
        store redis (job_key key_prefix job.function job.id) (job_index_key key_prefix job.id)
          (to_json env job)
          (add_dedup redis (function_dedup_key key_prefix job.function) job.key db) in
      if ltb 0 delay
      then add_to_scheduled redis (function_scheduled_key key_prefix job.function) job.id score db₁
      else add_to_stream redis (function_stream_key key_prefix job.function) job.id job.function
          (some (to_json env job)) db₁

  pub enqueue_free :
      (now delay : ℕ) (job : Job) (s : State redis)
      → is_held job.function job.key s.db ≡ false
      → enqueue env now delay job s ≡ (
        returned job.id,
        count_enqueued env job.function (record s {
          db = placed_db (enqueue_score env now delay) delay (queued_job env now delay job) s.db;
        }),
      )
  unfolding enqueue enqueue_calls queued_job mark_queued placed_db
  enqueue_free now delay job s h =
      rw (enqueue, enqueue_chosen env now delay (queued_job env now delay job) s.db, h) refl

  pub count_enqueued-db : (f : String) (s : State redis) → (count_enqueued env f s).db ≡ s.db
  unfolding count_enqueued
  count_enqueued-db f s = elim (Option-cases (component_of (env.get_fn_component f))) [
    | inl e ↦ rw (count_enqueued, e) refl
    | inr (c, e) ↦ rw (count_enqueued, e) refl
  ]

  count_finished-db : (f : String) (s : State redis) → (count_finished env f s).db ≡ s.db
  unfolding count_finished
  count_finished-db f s = elim (Option-cases (component_of (env.get_fn_component f))) [
    | inl e ↦ rw (count_finished, e) refl
    | inr (c, e) ↦ rw (count_finished, e) refl
  ]

  sets_placed :
      (now delay : ℕ) (job : Job) (db : Db redis)
      → (placed_db now delay job db).sets ≡ (
          if str_eq job.key ""
          then db.sets
          else redis.sadd (function_dedup_key key_prefix job.function) job.key db.sets)
  unfolding placed_db
  sets_placed now delay job db = elim (Bool-cases (ltb 0 delay)) [
    | inl e ↦ rw (placed_db, e) refl
    | inr e ↦ rw (placed_db, e) refl
  ]

  sets_finished :
      (c : String) (t : ℕ) (status : JobStatus) (r : Option Value) (e : Option String) (job : Job)
      (s : State redis)
      → (finish env c t status r e job s).db.sets ≡ (
          if str_eq job.key ""
          then s.db.sets
          else redis.srem (function_dedup_key key_prefix job.function) job.key s.db.sets)
  unfolding finish finish_direct finish_script finished_job remove_dedup store ack
  sets_finished c t status r e job s =
      let s' = count_finished env job.function s in
      let same : (finish env c t status r e job s).db.sets ≡ (
          if str_eq job.key ""
          then s'.db.sets
          else redis.srem (function_dedup_key key_prefix job.function) job.key s'.db.sets) =
        ap {A = Db redis} (λ d. d.sets) (if_eq env.has_scripts refl) in
      same
      ∙ ap
          (λ d.
            if str_eq job.key ""
            then d.sets
            else redis.srem (function_dedup_key key_prefix job.function) job.key d.sets)
          (count_finished-db job.function s)

  free_after :
      (job job' : Job) (db : Db redis) (b : Bool)
      → job'.function ≡ job.function
      → job'.key ≡ job.key
      → is_held job.function job.key db ≡ b
      → is_held job'.function job'.key db ≡ b
  free_after job job' db b f k h =
      ap (λ x. is_held x job'.key db) f ∙ ap (λ x. is_held job.function x db) k ∙ h

  placed_held :
      (now delay : ℕ) (job : Job) (db : Db redis)
      → str_eq job.key "" ≡ false
      → is_held job.function job.key (placed_db now delay job db) ≡ true
  placed_held now delay job db h =
      let k = function_dedup_key key_prefix job.function in
      let yes : redis.sismember (redis.sadd k job.key db.sets) k job.key ≡ true =
        redis.sismember-sadd db.sets k job.key k job.key ∙ rw (eq_refl k, eq_refl job.key) refl in
      rw (sets_placed now delay job db, h) yes

  queued_held :
      (now delay : ℕ) (job : Job) (db : Db redis)
      → str_eq job.key "" ≡ false
      → is_held job.function job.key
          (placed_db (enqueue_score env now delay) delay (queued_job env now delay job) db)
        ≡ true
  unfolding queued_job mark_queued
  queued_held now delay job db h =
      placed_held (enqueue_score env now delay) delay (queued_job env now delay job) db h

  finish_free :
      (c : String) (t : ℕ) (status : JobStatus) (r : Option Value) (e : Option String) (job : Job)
      (s : State redis)
      → is_held job.function job.key (finish env c t status r e job s).db ≡ false
  finish_free c t status r e job s =
      let k = function_dedup_key key_prefix job.function in
      let no : redis.sismember (redis.srem k job.key s.db.sets) k job.key ≡ false =
        redis.sismember-srem s.db.sets k job.key k job.key ∙ rw (eq_refl k, eq_refl job.key) refl in
      elim (Bool-cases (str_eq job.key "")) [
        | inl q ↦ rw q refl
        | inr q ↦ rw (sets_finished c t status r e job s, q) no
      ]

  -- Where an idempotency key is free, a job with it is queued; while it is queued, another job of the
  -- function with the key is refused and nothing changes; and after the first job has finished,
  -- the other is queued.
  pub enqueue-again :
      (now later delay delay' t : ℕ) (job job' : Job) (s : State redis) (c : String)
      (status : JobStatus) (r : Option Value) (e : Option String)
      → str_eq job.key "" ≡ false
      → is_held job.function job.key s.db ≡ false
      → job'.function ≡ job.function
      → job'.key ≡ job.key
      → ((enqueue env now delay job s).0 ≡ returned job.id)
        × (enqueue env later delay' job' (enqueue env now delay job s).1
            ≡ (raised (duplicate_job_error job.key), (enqueue env now delay job s).1))
        × ((enqueue env later delay' job'
              (finish env c t status r e job (enqueue env now delay job s).1)).0
            ≡ returned job'.id)
  enqueue-again now later delay delay' t job job' s c status r e h free f k =
      let s₁ = (enqueue env now delay job s).1 in
      let first = enqueue_free now delay job s free in
      let d : s₁.db
          ≡ placed_db (enqueue_score env now delay) delay (queued_job env now delay job) s.db =
        ap (λ x. x.1.db) first ∙ count_enqueued-db job.function _ in
      let held : is_held job.function job.key s₁.db ≡ true =
        ap (is_held job.function job.key) d ∙ queued_held now delay job s.db h in
      (
        ap (λ x. x.0) first,
        enqueue_held later delay' job' s₁ (free_after job job' s₁.db true f k held)
            ∙ ap (λ x. (raised (duplicate_job_error x), s₁)) k,
        ap (λ x. x.0)
            (enqueue_free later delay' job' (finish env c t status r e job s₁) (
              free_after job job' (finish env c t status r e job s₁).db false f k
                (finish_free c t status r e job s₁))),
      )
