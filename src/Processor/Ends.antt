-- ===== src/Processor/Ends.antt =====
-- How often packages/upnext/src/upnext/engine/job_processor.py settles a job and reschedules a cron, from
-- how the task function ends and what the rescheduling raises.
use upnext.Prelude.{
  ℕ, zero, suc, ◌+◌, ◌<◌, ◌≡◌, refl, Option, none, some, Bool, true, false, not, ◌&&◌, arith, leb,
  if◌then◌else◌,
}
use upnext.Prelude.Result.{ok}
use upnext.Domain.Status.{timeout}
use upnext.Domain.Job.{Job, backoff_delay}
use upnext.Processor.State.{
  TaskDefinition, Env, State, Ending, returned, process_cancelled, raised, Raised, exception,
  cancelled_error,
}
use upnext.Processor.Run.{begin_job, with_failure_reason}
use upnext.Processor.Counts.{total, settles, reschedules, Level, Reliable}
use upnext.Processor.Settles.{reschedule_error, rescheduled}

-- What a failure of the job raises, and the runs that it schedules: none where a retry is left.
abbrev failure_error : Env → TaskDefinition → Job → Option Raised
failure_error env task job =
    if leb job.attempts task.retries then none else reschedule_error env job

abbrev pub failure_rescheduled : Env → TaskDefinition → Job → ℕ
failure_rescheduled env task job = if leb job.attempts task.retries then 0 else rescheduled env job

-- After a return, by what the rescheduling raised: an Exception makes it a failure as well.
abbrev pub settled_after : Option Raised → ℕ
settled_after none = 1
settled_after (some (exception t msg)) = 2
settled_after (some cancelled_error) = 1

abbrev pub rescheduled_after : Env → TaskDefinition → Job → Option Raised → ℕ
rescheduled_after env task job none = rescheduled env job
rescheduled_after env task job (some (exception t msg)) =
    failure_rescheduled env task (with_failure_reason t job)
rescheduled_after env task job (some cancelled_error) = 0

abbrev pub settled_times : Env → Job → Ending → ℕ
settled_times env job (returned v) = settled_after (reschedule_error env job)
settled_times env job (process_cancelled reason) = 1
settled_times env job (raised (exception t msg)) = 1
settled_times env job (raised cancelled_error) = 0

abbrev pub rescheduled_times : Env → TaskDefinition → Job → Ending → ℕ
rescheduled_times env task job (returned v) =
    rescheduled_after env task job (reschedule_error env job)
rescheduled_times env task job (process_cancelled reason) = 0
rescheduled_times env task job (raised (exception true msg)) =
    failure_rescheduled env task (record job { failure_reason = some timeout })
rescheduled_times env task job (raised (exception false msg)) =
    failure_rescheduled env task (with_failure_reason false job)
rescheduled_times env task job (raised cancelled_error) = 0

-- The same of a job whose task may be unknown, before execution.
abbrev pub run_settles : Env → Job → Option TaskDefinition → ℕ
run_settles env job none = 1
run_settles env job (some task) = settled_times env job (env.call_function task job)

abbrev pub run_reschedules : Env → Job → Option TaskDefinition → ℕ
run_reschedules env job none = 0
run_reschedules env job (some task) = rescheduled_times env task job (env.call_function task job)

record Times (t s : State) (m n : ℕ) : Type 0 where
  settles_eq : total settles t.effects ≡ total settles s.effects + m
  reschedules_eq : total reschedules t.effects ≡ total reschedules s.effects + n

Times-from : (t u s : State) (m n : ℕ) → Level s u → Times t u m n → Times t s m n
Times-from t u s m n l c = record {
  settles_eq = omega (arith, c.settles_eq, l.settles_eq);
  reschedules_eq = omega (arith, c.reschedules_eq, l.reschedules_eq);
}

pub backoff_ok : (d b n : ℕ) → 0 < n → (r : ℕ) × (backoff_delay d b n ≡ ok r)
unfolding backoff_delay
backoff_ok d b zero h = absurd (omega arith)
backoff_ok d b (suc k) h = (_, refl)

module _ (env : Env) (ok_calls : Reliable env) where
  -- Neither cancelled before it began nor of a paused function.
  abbrev pub is_run : Bool
  is_run = not env.is_cancelled && not env.is_paused

  abbrev task_of : Job → Option TaskDefinition
  task_of job = env.get_task (begin_job env job).function
