-- ===== src/Events/Lifecycle.antt =====
-- How the status, attempts and result of a stored job evolve under the events of
-- packages/server/src/server/services/events/processing.py.
use upnext.Prelude.{
  ℕ, ◌≤◌, String, ◌≡◌, Option, none, some, Option-cases, inl, inr, true, arith, Bool-cases,
}
use upnext.Domain.Status.{failed}
use upnext.Events.Contract.{
  JobLifecycleEvent, started, completed, failed, cancelled, retrying, progress, checkpoint,
  event_job_id,
}
use upnext.Events.Rows.{JobRow}
use upnext.Events.Store.{Backend, stamped}
use upnext.Events.Updates.{
  in_complete_failed, ignores_started, started_row, ignores_completed, completed_row,
  ignores_failed, failed_row, ignores_cancelled, cancelled_row, ignores_retrying, retrying_row,
}
use upnext.Events.Handlers.{Env, St, find, process_event}
use upnext.Events.Outcome.{outcome, planned, passes, jobs-process_event}
use upnext.Events.Documents.{IsValid, find-process_event}
use upnext.Events.Delivery.{event_attempt, event_time}

-- The event speaks of no attempt after the n-th.
abbrev pub NotAfter : ℕ → Option ℕ → Type 0
NotAfter n none = Unit {0}
NotAfter n (some m) = m ≤ n

-- Status, attempts, result and completion time are the same.
pub record SameEnd (r r' : JobRow) : Type 0 where
  pub status : r'.status ≡ r.status
  pub attempts : r'.attempts ≡ r.attempts
  pub result : r'.result ≡ r.result
  pub completed_at : r'.completed_at ≡ r.completed_at

outcome-le-attempts :
    (iso : ℕ → String) (now : ℕ) (e : JobLifecycleEvent) (ws : String) (r r' : JobRow)
    → outcome iso now ws e (some r) ≡ some r'
    → r.attempts ≤ r'.attempts
unfolding outcome started_row completed_row failed_row cancelled_row retrying_row
outcome-le-attempts iso now (started e) ws r r' h = ground arith
outcome-le-attempts iso now (completed e) ws r r' h = ground arith
outcome-le-attempts iso now (failed e) ws r r' h = ground arith
outcome-le-attempts iso now (cancelled e) ws r r' h = ground arith
outcome-le-attempts iso now (retrying e) ws r r' h = ground arith
outcome-le-attempts iso now (progress e) ws r r' h = ground arith
outcome-le-attempts iso now (checkpoint e) ws r r' h = ground arith

outcome-SameEnd :
    (iso : ℕ → String) (now t : ℕ) (e : JobLifecycleEvent) (ws : String) (r r' : JobRow)
    → in_complete_failed r.status ≡ true
    → r.completed_at ≡ some t
    → NotAfter r.attempts (event_attempt e)
    → event_time e ≤ t
    → outcome iso now ws e (some r) ≡ some r'
    → SameEnd r r'
unfolding outcome event_attempt event_time ignores_started ignores_completed ignores_failed
    ignores_cancelled ignores_retrying
outcome-SameEnd iso now t (started e) ws r r' c d a le h = absurd (ground arith)
outcome-SameEnd iso now t (completed e) ws r r' c d a le h = absurd (ground arith)
outcome-SameEnd iso now t (failed e) ws r r' c d a le h = absurd (ground arith)
outcome-SameEnd iso now t (cancelled e) ws r r' c d a le h = absurd (ground arith)
outcome-SameEnd iso now t (retrying e) ws r r' c d a le h = absurd (ground arith)
outcome-SameEnd iso now t (progress e) ws r r' c d a le h = absurd (ground arith)
outcome-SameEnd iso now t (checkpoint e) ws r r' c d a le h = ground arith

module _ (b : Backend) where
  -- What holds of the found row and of any row that the event writes holds of the row found after.
  find_after :
      (P : JobRow → Type 0) (env : Env) (e : JobLifecycleEvent) (ws : String) (s : St b)
      (r : JobRow)
      → IsValid b s.jobs
      → find b s (event_job_id e) ws ≡ some r
      → P r
      → ((r' : JobRow)
          → outcome b.isoformat env.now ws e (some r) ≡ some r'
          → P (stamped env.now r'))
      → (r' : JobRow) × (find b (process_event b env e ws s).1 (event_job_id e) ws ≡ some r') × P r'
  find_after P env e ws s r v f p h = elim (Bool-cases (passes env e s.writes)) [
    | inr q ↦ (r, rw (jobs-process_event, q) f, p)
    | inl q ↦ elim (Option-cases (planned b env e ws s)) [
      | inl o ↦ (r, rw (jobs-process_event, q, o) f, p)
      | inr (r', o) ↦
          (stamped env.now r', find-process_event b env e ws s r' v q o, h r' (rw f at o))
    ]
  ]

  -- A stored job stays stored under every event, and its attempts never fall.
  pub process_event-attempts_mono :
      (env : Env) (e : JobLifecycleEvent) (ws : String) (s : St b) (r : JobRow)
      → IsValid b s.jobs
      → find b s (event_job_id e) ws ≡ some r
      → (r' : JobRow) × (find b (process_event b env e ws s).1 (event_job_id e) ws ≡ some r')
        × (r.attempts ≤ r'.attempts)
  process_event-attempts_mono env e ws s r v f =
      find_after (λ r'. r.attempts ≤ r'.attempts) env e ws s r v f (omega arith)
        (λ r' o. outcome-le-attempts b.isoformat env.now e ws r r' o)

  -- Once a job is complete or failed, no event of that attempt or an older one, with a time no later
  -- than the completion, changes its status, attempts, result or completion time.
  pub process_event-SameEnd :
      (env : Env) (e : JobLifecycleEvent) (ws : String) (s : St b) (r : JobRow) (t : ℕ)
      → IsValid b s.jobs
      → find b s (event_job_id e) ws ≡ some r
      → in_complete_failed r.status ≡ true
      → r.completed_at ≡ some t
      → NotAfter r.attempts (event_attempt e)
      → event_time e ≤ t
      → (r' : JobRow) × (find b (process_event b env e ws s).1 (event_job_id e) ws ≡ some r')
        × SameEnd r r'
  process_event-SameEnd env e ws s r t v f c d a le =
      find_after (SameEnd r) env e ws s r v f (ground arith) (λ r' o.
        let k = outcome-SameEnd b.isoformat env.now t e ws r r' c d a le o in
        record {
          status = k.status;
          attempts = k.attempts;
          result = k.result;
          completed_at = k.completed_at;
        })
