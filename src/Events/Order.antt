-- ===== src/Events/Order.antt =====
-- Events of one attempt that arrive in either order at
-- packages/server/src/server/services/events/processing.py.
use upnext.Prelude.{String, ◌≡◌, refl, ap, none, some, arith}
use upnext.Domain.Status.{JobStatus}
use upnext.Events.Contract.{
  JobLifecycleEvent, JobStartedEvent, JobCompletedEvent, started, completed, event_job_id,
}
use upnext.Events.Rows.{JobRow, apply_defaults}
use upnext.Events.Store.{Backend, stamped, row_of}
use upnext.Events.Updates.{
  ignores_started, started_record, ignores_completed, completed_row, completed_record,
}
use upnext.Events.Handlers.{Env, St, find, process_event}
use upnext.Events.Outcome.{outcome}
use upnext.Events.Documents.{IsValid, find-process_event, process_event-IsValid}
use upnext.Events.Delivery.{event_attempt, ignored}

-- The row is that of a completed attempt.
pub record Shows (c : JobCompletedEvent) (r : JobRow) : Type 0 where
  pub status : r.status ≡ JobStatus.complete
  pub attempts : r.attempts ≡ c.attempt
  pub result : r.result ≡ c.result
  pub completed_at : r.completed_at ≡ some c.completed_at

module _ (b : Backend) (env env' : Env) (e : JobStartedEvent) (c : JobCompletedEvent) (ws : String)
    (s : St b) (v : IsValid b s.jobs) (job : e.job_id ≡ c.job_id) (attempt : e.attempt ≡ c.attempt)
    (unknown : find b s c.job_id ws ≡ none) where
  abbrev after : Env → JobLifecycleEvent → St b → St b
  after env₀ x s₀ = (process_event b env₀ x ws s₀).1

  started_first :
      (r : JobRow) × (find b (after env' (completed c) (after env (started e) s)) c.job_id ws
        ≡ some r)
      × Shows c r
  unfolding outcome event_job_id started_record completed_row ignores_completed
  started_first =
      let r₁ : JobRow = row_of env.now (apply_defaults (started_record ws e)) in
      let u₁ : find b s e.job_id ws ≡ none = rw job unknown in
      let f₁ : find b (after env (started e) s) e.job_id ws ≡ some (stamped env.now r₁) =
        find-process_event b env (started e) ws s r₁ v refl (rw (u₁, outcome)) in
      let r₂ : JobRow = completed_row (stamped env.now r₁) c in
      (
        stamped env'.now r₂,
        find-process_event b env' (completed c) ws (after env (started e) s) r₂
            (process_event-IsValid b env (started e) ws s v) refl
            (rw (← job, f₁, outcome) (ground arith)),
        record { status = refl; attempts = ground arith; result = refl; completed_at = refl },
      )

  completed_first :
      (r : JobRow) × (find b (after env' (started e) (after env (completed c) s)) c.job_id ws
        ≡ some r)
      × Shows c r
  unfolding outcome event_job_id event_attempt completed_record ignores_started
  completed_first =
      let r₁ : JobRow = row_of env.now (apply_defaults (completed_record ws c)) in
      let f₁ : find b (after env (completed c) s) c.job_id ws ≡ some (stamped env.now r₁) =
        find-process_event b env (completed c) ws s r₁ v refl (rw (unknown, outcome)) in
      let u₁ : find b (after env (completed c) s) e.job_id ws ≡ some (stamped env.now r₁) =
        rw job f₁ in
      let same : after env' (started e) (after env (completed c) s) ≡ after env (completed c) s =
        ap (λ p. p.1)
          (ignored b env' (started e) ws (after env (completed c) s) e.attempt (stamped env.now r₁)
            refl u₁ (ground arith)) in
      (
        stamped env.now r₁,
        rw same f₁,
        record { status = refl; attempts = refl; result = refl; completed_at = refl },
      )

  -- For a job that is not stored yet, the start and the completion of one attempt may arrive in
  -- either order: the stored row shows the completion, with its attempt, result and time.
  pub started_completed_either_order :
      ((r : JobRow) × (find b (after env' (completed c) (after env (started e) s)) c.job_id ws
          ≡ some r)
        × Shows c r)
      × ((r : JobRow) × (find b (after env' (started e) (after env (completed c) s)) c.job_id ws
            ≡ some r)
          × Shows c r)
  started_completed_either_order = (started_first, completed_first)
