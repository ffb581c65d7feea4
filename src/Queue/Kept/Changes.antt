-- ===== src/Queue/Kept/Changes.antt =====
-- `enqueue`, `finish`, `retry` and `manual_retry` keep every job.
use mathlib.Core.Path.{subst, subst⁻¹}
use upnext.Prelude.{
  ℕ, String, ◌≡◌, refl, Option, none, some, true, false, not, ◌&&◌, ltb, str_eq, arith, Bool-cases,
  Option-cases, inl, inr,
}
use upnext.Value.{Value}
use upnext.Domain.Status.{JobStatus, is_terminal}
use upnext.Domain.Job.{Job, mark_queued, prepare_job_for_manual_retry}
use upnext.Queue.Keys.{function_stream_key, function_scheduled_key, function_dedup_key}
use upnext.Queue.State.{StreamClaim, Env, Db, State, to_json, pop_stream_claim}
use upnext.Queue.Scripts.{remove_from_scheduled, finish_script}
use upnext.Queue.Operations.{
  component_of, enqueue_calls, enqueue, queued_job, count_enqueued, finish_direct, finish,
  finished_job, count_finished, retry_db, retry_calls, retry, requeued_job, requeue, manual_retry,
  can_retry_manually,
}
use upnext.Queue.Same.{if_eq, enqueue_chosen, enqueue_score, retry_score, retry_db-calls}
use upnext.Queue.Kept.{Owner, IsOwned, KeptBut, Kept}
use upnext.Queue.Kept.Moves.{some-injective}
use upnext.Queue.Kept.Steps.{drop_claims}
use upnext.Queue.Kept.Actions.{
  store-Kept, ended-Kept, ack-Kept, claim_entry, placed-Kept, add_dedup-Kept, remove_dedup-Kept,
}
use upnext.Queue.Kept.Payloads.{exempt_one, delete_marker, unschedule}

module _ (env : Env) (own : Owner env.key_prefix) where
  open env use {redis, key_prefix}
  open own use {owner}

  enqueue_calls-Kept :
      (claims : String → String → Option StreamClaim) (score delay : ℕ) (job : Job)
      (db db' : Db redis)
      → KeptBut env own none db claims
      → IsOwned env own job
      → enqueue_calls env score delay job db ≡ some db'
      → KeptBut env own none db' claims
  unfolding enqueue_calls
  enqueue_calls-Kept claims score delay job db db' h o e =
      elim (Bool-cases (
        not (str_eq job.key "")
        && redis.sismember db.sets (function_dedup_key key_prefix job.function) job.key)) [
          | inl d ↦ absurd (ground (arith, rw d at e))
          | inr d ↦
              subst (λ x. KeptBut env own none x claims) (some-injective (rw d at e))
                (placed-Kept env own job (ltb 0 delay) score (some (to_json env job))
                  (store-Kept env own job
                    (add_dedup-Kept env own (function_dedup_key key_prefix job.function) job.key
                      (exempt_one env own job.id h))
                    o)
                  o)
        ]

  count_enqueued-Kept :
      (f : String) (s : State redis) → Kept env own s → Kept env own (count_enqueued env f s)
  unfolding count_enqueued
  count_enqueued-Kept f s h = elim (Option-cases (component_of (env.get_fn_component f))) [
    | inl e ↦ rw (e, count_enqueued) h
    | inr (c, e) ↦ rw (e, count_enqueued) h
  ]

  count_finished-Kept :
      (f : String) (s : State redis) → Kept env own s → Kept env own (count_finished env f s)
  unfolding count_finished
  count_finished-Kept f s h = elim (Option-cases (component_of (env.get_fn_component f))) [
    | inl e ↦ rw (e, count_finished) h
    | inr (c, e) ↦ rw (e, count_finished) h
  ]

  queued-IsOwned :
      (now delay : ℕ) (job : Job)
      → IsOwned env own job
      → IsOwned env own (queued_job env now delay job)
  unfolding queued_job mark_queued
  queued-IsOwned now delay job o = record { function_eq = o.function_eq; named = o.named }

  pub enqueue-Kept :
      (now delay : ℕ) (job : Job) (s : State redis)
      → IsOwned env own job
      → Kept env own s
      → Kept env own (enqueue env now delay job s).1
  unfolding enqueue
  enqueue-Kept now delay job s o h =
      let job' = queued_job env now delay job in
      elim (Option-cases (enqueue_calls env (enqueue_score env now delay) delay job' s.db)) [
        | inl e ↦ rw (enqueue, enqueue_chosen env now delay job' s.db, e) h
        | inr (db, e) ↦
            rw (enqueue, enqueue_chosen env now delay job' s.db, e)
              (count_enqueued-Kept job'.function (record s { db = db })
                (enqueue_calls-Kept s.claims (enqueue_score env now delay) delay job' s.db db h
                  (queued-IsOwned now delay job o) e))
      ]

  retry_db-Kept :
      (consumer : String) (now delay : ℕ) (job : Job) (s : State redis)
      → IsOwned env own job
      → Kept env own s
      → KeptBut env own none (retry_db env now delay (s.claims consumer job.id) job s.db) s.claims
  unfolding retry_calls
  retry_db-Kept consumer now delay job s o h =
      let claim = s.claims consumer job.id in
      let h' = exempt_one env own job.id h in
      subst⁻¹ (λ x. KeptBut env own none x s.claims) (retry_db-calls env now delay claim job s.db)
        (placed-Kept env own job (ltb 0 delay) (retry_score env now delay claim)
          (some (to_json env job))
          (store-Kept env own job
            (ack-Kept env own job.id "" claim h' (claim_entry env own job.id consumer h')) o)
          o)

  pub pop-Kept :
      (consumer i : String) (s : State redis) (db : Db redis)
      → KeptBut env own none db s.claims
      → KeptBut env own none db (pop_stream_claim env consumer i s).claims
  unfolding pop_stream_claim
  pop-Kept consumer i s db h = drop_claims env own h _ (λ c j claim e.
      elim (Bool-cases (str_eq consumer c && str_eq i j)) [
        | inl t ↦ absurd (ground (arith, rw t at e))
        | inr t ↦ rw t at e
      ])

  pub retry-Kept :
      (consumer : String) (now delay : ℕ) (job : Job) (s : State redis)
      → IsOwned env own job
      → Kept env own s
      → Kept env own (retry env consumer now delay job s)
  unfolding retry requeued_job mark_queued
  retry-Kept consumer now delay job s o h = pop-Kept consumer job.id s _ (
      retry_db-Kept consumer now delay (requeued_job env now delay job) s
        (record { function_eq = o.function_eq; named = o.named }) h)

  finish_direct-Kept :
      (consumer : String) (status : JobStatus) (job : Job) (s : State redis)
      → IsOwned env own job
      → is_terminal job.status ≡ true
      → Kept env own s
      → Kept env own (finish_direct env consumer status job s)
  unfolding finish_direct finish_script
  finish_direct-Kept consumer status job s o t h =
      let claim = s.claims consumer job.id in
      let h' = exempt_one env own job.id h in
      pop-Kept consumer job.id s _ (
        delete_marker env own
          (subst⁻¹ (λ x. KeptBut env own none x s.claims) (if_eq env.has_scripts refl)
            (remove_dedup-Kept env own (function_dedup_key key_prefix job.function) job.key (
              ended-Kept env own job
                (ack-Kept env own job.id (function_stream_key key_prefix job.function) claim h'
                  (claim_entry env own job.id consumer h'))
                o t)))
          job.id)

  pub finish-Kept :
      (consumer : String) (now : ℕ) (status : JobStatus) (result : Option Value)
      (error : Option String) (job : Job) (s : State redis)
      → IsOwned env own job
      → is_terminal status ≡ true
      → Kept env own s
      → Kept env own (finish env consumer now status result error job s)
  unfolding finish finished_job
  finish-Kept consumer now status result error job s o t h =
      finish_direct-Kept consumer status (finished_job env now status result error job)
        (count_finished env job.function s)
        (record { function_eq = o.function_eq; named = o.named }) t
        (count_finished-Kept job.function s h)

  requeue-Kept :
      (claims : String → String → Option StreamClaim) (job : Job) (db : Db redis)
      → IsOwned env own job
      → KeptBut env own none db claims
      → KeptBut env own none (requeue env job db) claims
  unfolding requeue remove_from_scheduled
  requeue-Kept claims job db o h =
      placed-Kept env own job false 0 (some (to_json env job))
        (add_dedup-Kept env own _ job.key (
          unschedule env own
            (delete_marker env own (store-Kept env own job (exempt_one env own job.id h) o) job.id)
            (function_scheduled_key key_prefix job.function)))
        o

  pub manual_retry-Kept :
      (consumer : String) (now : ℕ) (job : Job) (s : State redis)
      → IsOwned env own job
      → Kept env own s
      → Kept env own (manual_retry env consumer now job s).1
  unfolding manual_retry prepare_job_for_manual_retry mark_queued
  manual_retry-Kept consumer now job s o h =
      let popped : Kept env own (pop_stream_claim env consumer job.id s) =
        pop-Kept consumer job.id s s.db h in
      elim (Bool-cases (not (can_retry_manually env job.status))) [
        | inl e ↦ rw (manual_retry, e) h
        | inr e ↦
            elim (Bool-cases (
              not (str_eq job.key "")
              && redis.sismember s.db.sets (function_dedup_key key_prefix job.function) job.key)) [
                | inl d ↦ rw (manual_retry, e, d) popped
                | inr d ↦
                    rw (manual_retry, e, d)
                      (requeue-Kept _ (prepare_job_for_manual_retry env.format now job) s.db
                        (record { function_eq = o.function_eq; named = o.named }) popped)
              ]
      ]
