-- ===== src/Processor/State.antt =====
-- What a processor of packages/upnext/src/upnext/engine/job_processor.py keeps and calls. The calls
-- of the queue, the status buffer and the hooks that return are recorded in order.
use upnext.Prelude.{
  ℕ, String, Option, none, some, List, [], ◌∷◌, ◌++◌, Bool, str_eq, if◌then◌else◌, ◌⊎◌,
}
use upnext.Value.{Value}
use upnext.Domain.Status.{JobStatus}
use upnext.Domain.Job.{Job, Format}

-- `TaskDefinition` of packages/upnext/src/upnext/engine/registry.py: the settings, and which hooks
-- are given.
pub record TaskDefinition : Type 0 where
  pub retries : ℕ
  pub retry_delay : ℕ
  pub retry_backoff : ℕ
  pub timeout : Option ℕ
  pub on_start : Bool
  pub on_success : Bool
  pub on_failure : Bool
  pub on_retry : Bool
  pub on_complete : Bool

pub data Hook : Type 0 where
  on_start on_success on_failure on_retry on_complete : Hook

pub data DispatchReason : Type 0 where
  paused rate_limited no_capacity cancelled retrying : DispatchReason

-- The status events that the processor emits. The job is the one at the time of the call.
pub data StatusEvent : Type 0 where
  record_job_started : Job → Option ℕ → StatusEvent
  record_job_completed : Job → Value → ℕ → StatusEvent
  record_job_cancelled : Job → String → StatusEvent
  record_job_retrying : Job → String → ℕ → StatusEvent
  record_job_failed : Job → String → StatusEvent

pub data Effect : Type 0 where
  call_hook : Hook → Job → Effect
  emit : StatusEvent → Effect
  record_dispatch_reason : String → DispatchReason → String → Effect
  finish : Job → JobStatus → Option Value → Option String → Effect
  retry : Job → ℕ → Effect
  reschedule_cron : Job → ℕ → Effect

-- What is raised: an `Exception`, which may be a `TimeoutError`, with its text, or the
-- `asyncio.CancelledError` of a processor that is stopped.
pub data Raised : Type 0 where
  exception : (is_timeout : Bool) → String → Raised
  cancelled_error : Raised

-- How a call of the task function ends.
pub data Ending : Type 0 where
  returned : Value → Ending
  process_cancelled : String → Ending
  raised : Raised → Ending

-- The outside of one call: the worker, the registry, the answers of the queue, the clock before and
-- after execution, the task function, what the cron library gives or raises, what a call of the queue
-- raises, if it does, and how numbers are printed.
pub record Env : Type 0 where
  pub worker_id : String
  pub has_status_buffer : Bool
  pub get_task : String → Option TaskDefinition
  pub is_cancelled : Bool
  pub is_paused : Bool
  pub now : ℕ
  pub end_time : ℕ
  pub call_function : TaskDefinition → Job → Ending
  pub next_cron : String → Option ℕ → Raised ⊎ ℕ
  pub raises : Effect → Option Raised
  pub seconds : Option ℕ → String
  pub format : Format

pub record State : Type 0 where
  pub active_jobs : List (String × Job)
  pub jobs_processed : ℕ
  pub jobs_failed : ℕ
  pub jobs_retried : ℕ
  pub effects : List Effect

unfoldable pub push : Effect → State → State
push e s = record s { effects = s.effects ++ e ∷ [] }

-- Runs the rest unless something was raised.
unfoldable pub and_then :
    Option Raised × State → (State → Option Raised × State) → Option Raised × State
and_then (none, s) rest = rest s
and_then (some x, s) rest = (some x, s)

-- A call of the queue.
unfoldable pub call : Env → Effect → State → Option Raised × State
unfolding push
call env e s = elim (env.raises e) [ none ↦ (none, push e s) | some x ↦ (some x, s) ]

-- A hook that raises is logged and passed over.
unfoldable pub call_hook_if : Bool → Hook → Job → State → State
call_hook_if given h j s = if given then push (call_hook h j) s else s

-- `_emit_status_event`: a status buffer that raises is logged and passed over.
unfoldable pub emit_status_event : Env → StatusEvent → State → State
emit_status_event env e s = if env.has_status_buffer then push (emit e) s else s

-- `dict.pop(job_id, None)` and `d[job_id] = job`
unfoldable pub pop_active : String → List (String × Job) → List (String × Job)
pop_active k [] = []
pop_active k ((j, v) ∷ rest) =
    let rest' = pop_active k rest in if str_eq j k then rest' else (j, v) ∷ rest'

unfoldable pub set_active : String → Job → List (String × Job) → List (String × Job)
set_active k v [] = (k, v) ∷ []
set_active k v ((j, w) ∷ rest) = if str_eq j k then (j, v) ∷ rest else (j, w) ∷ set_active k v rest
