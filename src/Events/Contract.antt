-- ===== src/Events/Contract.antt =====
-- The lifecycle events of packages/shared/src/shared/contracts/events.py, after validation.
-- Times are instants in UTC (microseconds), progress and durations are in millionths.
use upnext.Prelude.{ℕ, String, Option, Bool}
use upnext.Value.{Value, Fields}
use upnext.Domain.Source.{JobSource}

pub record JobStartedEvent : Type 0 where
  pub job_id : String
  pub job_key : String
  pub function : String
  pub function_name : String
  pub parent_id : Option String
  pub root_id : String
  pub kwargs : Fields
  pub source : JobSource
  pub checkpoint : Option Fields
  pub checkpoint_at : Option String
  pub scheduled_at : Option ℕ
  pub queue_wait_ms : Option ℕ
  pub attempt : ℕ
  pub max_retries : ℕ
  pub worker_id : Option String
  pub started_at : ℕ

pub record JobCompletedEvent : Type 0 where
  pub job_id : String
  pub function : String
  pub function_name : String
  pub parent_id : Option String
  pub root_id : String
  pub result : Value
  pub duration_ms : Option ℕ
  pub attempt : ℕ
  pub completed_at : ℕ

pub record JobFailedEvent : Type 0 where
  pub job_id : String
  pub function : String
  pub function_name : String
  pub parent_id : Option String
  pub root_id : String
  pub error : String
  pub traceback : Option String
  pub attempt : ℕ
  pub max_retries : ℕ
  pub will_retry : Bool
  pub failed_at : ℕ

pub record JobCancelledEvent : Type 0 where
  pub job_id : String
  pub function : String
  pub function_name : String
  pub parent_id : Option String
  pub root_id : String
  pub reason : Option String
  pub attempt : ℕ
  pub cancelled_at : ℕ

pub record JobRetryingEvent : Type 0 where
  pub job_id : String
  pub function : String
  pub function_name : String
  pub parent_id : Option String
  pub root_id : String
  pub error : String
  pub delay_seconds : ℕ
  pub current_attempt : ℕ
  pub next_attempt : ℕ
  pub retry_at : ℕ

pub record JobProgressEvent : Type 0 where
  pub job_id : String
  pub parent_id : Option String
  pub root_id : String
  pub progress : ℕ
  pub message : Option String
  pub updated_at : ℕ

pub record JobCheckpointEvent : Type 0 where
  pub job_id : String
  pub parent_id : Option String
  pub root_id : String
  pub state : Fields
  pub checkpointed_at : ℕ

-- `JobLifecycleEvent` of packages/server/src/server/services/events/processing.py.
pub data JobLifecycleEvent : Type 0 where
  started : JobStartedEvent → JobLifecycleEvent
  completed : JobCompletedEvent → JobLifecycleEvent
  failed : JobFailedEvent → JobLifecycleEvent
  cancelled : JobCancelledEvent → JobLifecycleEvent
  retrying : JobRetryingEvent → JobLifecycleEvent
  progress : JobProgressEvent → JobLifecycleEvent
  checkpoint : JobCheckpointEvent → JobLifecycleEvent

unfoldable pub event_job_id : JobLifecycleEvent → String
event_job_id (started e) = e.job_id
event_job_id (completed e) = e.job_id
event_job_id (failed e) = e.job_id
event_job_id (cancelled e) = e.job_id
event_job_id (retrying e) = e.job_id
event_job_id (progress e) = e.job_id
event_job_id (checkpoint e) = e.job_id
