-- ===== src/Events/Delivery.antt =====
-- Late, repeated and reordered delivery of lifecycle events to
-- packages/server/src/server/services/events/processing.py.
use upnext.Prelude.{
  ℕ, ◌<◌, String, ◌≡◌, ◌≢◌, Option, none, some, Option-cases, inl, inr, true, false, arith,
}
use upnext.Domain.Status.{failed}
use upnext.Events.Contract.{
  JobLifecycleEvent, started, completed, failed, cancelled, retrying, progress, checkpoint,
  event_job_id,
}
use upnext.Events.Rows.{JobRow}
use upnext.Events.Store.{Backend, stamped}
use upnext.Events.Updates.{
  ignores_started, started_row, started_record, ignores_completed, completed_row, completed_record,
  ignores_failed, failed_row, failed_record, ignores_cancelled, cancelled_row, cancelled_record,
  ignores_retrying, retrying_row,
}
use upnext.Events.Handlers.{
  Env, St, find, process_event, handle_job_started, handle_job_completed, handle_job_failed,
  handle_job_cancelled, handle_job_retrying,
}
use upnext.Events.Outcome.{outcome, planned, passes}
use upnext.Events.Documents.{IsValid, find-process_event}

-- The attempt that an event speaks of; progress and checkpoints carry none.
unfoldable pub event_attempt : JobLifecycleEvent → Option ℕ
event_attempt (started e) = some e.attempt
event_attempt (completed e) = some e.attempt
event_attempt (failed e) = some e.attempt
event_attempt (cancelled e) = some e.attempt
event_attempt (retrying e) = some e.current_attempt
event_attempt (progress e) = none
event_attempt (checkpoint e) = none

-- The time that an event sets or compares.
unfoldable pub event_time : JobLifecycleEvent → ℕ
event_time (started e) = e.started_at
event_time (completed e) = e.completed_at
event_time (failed e) = e.failed_at
event_time (cancelled e) = e.cancelled_at
event_time (retrying e) = e.retry_at
event_time (progress e) = e.updated_at
event_time (checkpoint e) = e.checkpointed_at

module _ (b : Backend) where
  pub ignored :
      (env : Env) (e : JobLifecycleEvent) (ws : String) (s : St b) (n : ℕ) (r : JobRow)
      → event_attempt e ≡ some n
      → find b s (event_job_id e) ws ≡ some r
      → outcome b.isoformat env.now ws e (some r) ≡ none
      → process_event b env e ws s ≡ (false, s)
  unfolding process_event outcome event_attempt event_job_id handle_job_started handle_job_completed
      handle_job_failed handle_job_cancelled handle_job_retrying
  ignored env (started e) ws s n r a f p = ground arith
  ignored env (completed e) ws s n r a f p = ground arith
  ignored env (failed e) ws s n r a f p = ground arith
  ignored env (cancelled e) ws s n r a f p = ground arith
  ignored env (retrying e) ws s n r a f p = ground arith
  ignored env (progress e) ws s n r a f p = ground arith
  ignored env (checkpoint e) ws s n r a f p = ground arith

  outcome_stale :
      (iso : ℕ → String) (now : ℕ) (e : JobLifecycleEvent) (ws : String) (n : ℕ) (r : JobRow)
      → event_attempt e ≡ some n
      → n < r.attempts
      → outcome iso now ws e (some r) ≡ none
  unfolding outcome event_attempt ignores_started ignores_completed ignores_failed ignores_cancelled
      ignores_retrying
  outcome_stale iso now (started e) ws n r a h = ground arith
  outcome_stale iso now (completed e) ws n r a h = ground arith
  outcome_stale iso now (failed e) ws n r a h = ground arith
  outcome_stale iso now (cancelled e) ws n r a h = ground arith
  outcome_stale iso now (retrying e) ws n r a h = ground arith
  outcome_stale iso now (progress e) ws n r a h = ground arith
  outcome_stale iso now (checkpoint e) ws n r a h = ground arith

  -- An event of an attempt older than the one that is stored is ignored: it returns False and
  -- changes nothing, neither documents nor artifacts nor the throttle.
  pub process_event_stale :
      (env : Env) (e : JobLifecycleEvent) (ws : String) (s : St b) (n : ℕ) (r : JobRow)
      → event_attempt e ≡ some n
      → find b s (event_job_id e) ws ≡ some r
      → n < r.attempts
      → process_event b env e ws s ≡ (false, s)
  process_event_stale env e ws s n r a f h =
      ignored env e ws s n r a f (outcome_stale b.isoformat env.now e ws n r a h)

  accepted :
      (env : Env) (e : JobLifecycleEvent) (ws : String) (s : St b) (n : ℕ)
      → event_attempt e ≡ some n
      → (process_event b env e ws s).0 ≡ true
      → (passes env e s.writes ≡ true) × (planned b env e ws s ≢ none)
  unfolding process_event outcome event_attempt event_job_id handle_job_started handle_job_completed
      handle_job_failed handle_job_cancelled handle_job_retrying
  accepted env (started e) ws s n a h = ground arith
  accepted env (completed e) ws s n a h = ground arith
  accepted env (failed e) ws s n a h = ground arith
  accepted env (cancelled e) ws s n a h = ground arith
  accepted env (retrying e) ws s n a h = ground arith
  accepted env (progress e) ws s n a h = absurd (ground arith)
  accepted env (checkpoint e) ws s n a h = absurd (ground arith)

  outcome_twice :
      (iso : ℕ → String) (now later : ℕ) (e : JobLifecycleEvent) (ws : String) (n : ℕ)
      (found : Option JobRow) (r : JobRow)
      → event_attempt e ≡ some n
      → outcome iso now ws e found ≡ some r
      → outcome iso later ws e (some (stamped now r)) ≡ none
  unfolding outcome event_attempt ignores_started ignores_completed ignores_failed ignores_cancelled
      ignores_retrying started_row started_record completed_row completed_record failed_row
      failed_record cancelled_row cancelled_record retrying_row
  outcome_twice iso now later (started e) ws n none r a h = ground arith
  outcome_twice iso now later (started e) ws n (some x) r a h = ground arith
  outcome_twice iso now later (completed e) ws n none r a h = ground arith
  outcome_twice iso now later (completed e) ws n (some x) r a h = ground arith
  outcome_twice iso now later (failed e) ws n none r a h = ground arith
  outcome_twice iso now later (failed e) ws n (some x) r a h = ground arith
  outcome_twice iso now later (cancelled e) ws n none r a h = ground arith
  outcome_twice iso now later (cancelled e) ws n (some x) r a h = ground arith
  outcome_twice iso now later (retrying e) ws n none r a h = ground arith
  outcome_twice iso now later (retrying e) ws n (some x) r a h = ground arith
  outcome_twice iso now later (progress e) ws n found r a h = absurd (ground arith)
  outcome_twice iso now later (checkpoint e) ws n found r a h = absurd (ground arith)

  -- An event that carries an attempt and was applied is ignored when it is delivered again, at
  -- whatever time and under whatever settings: False, and nothing changes.
  pub process_event_twice :
      (env env' : Env) (e : JobLifecycleEvent) (ws : String) (s : St b) (n : ℕ)
      → IsValid b s.jobs
      → event_attempt e ≡ some n
      → (process_event b env e ws s).0 ≡ true
      → process_event b env' e ws (process_event b env e ws s).1
        ≡ (false, (process_event b env e ws s).1)
  process_event_twice env env' e ws s n v a h =
      let acc = accepted env e ws s n a h in
      elim (Option-cases (planned b env e ws s)) [
        | inl q ↦ absurd (acc.1 q)
        | inr (r, q) ↦
            ignored env' e ws (process_event b env e ws s).1 n (stamped env.now r) a
              (find-process_event b env e ws s r v acc.0 q)
              (outcome_twice b.isoformat env.now env'.now e ws n (find b s (event_job_id e) ws) r a
                q)
      ]
