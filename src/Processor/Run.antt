-- ===== src/Processor/Run.antt =====
-- The methods of `JobProcessor` in packages/upnext/src/upnext/engine/job_processor.py. A call of the
-- queue, the cron library or the task function may raise; each method gives what it raises, if it does,
-- and the state. A hook or the status buffer raises no CancelledError.
use Prim.Native.String.{◌++◌ as ◌<>◌}
use upnext.Prelude.{
  ℕ, ◌⊎◌, inl, inr, ◌+◌, ◌-◌, String, Option, none, some, Bool, true, false, str_eq, leb, ◌==◌,
  if◌then◌else◌,
}
use upnext.Prelude.Result.{ok, err}
use upnext.Value.{Value}
use upnext.Domain.Status.{JobStatus, complete, failed, FailureReason, timeout, exception}
use upnext.Domain.Source.{JobSource, task_source, cron_source, event_source}
use upnext.Domain.Payload.{schedule_of}
use upnext.Domain.Job.{Job, mark_started, mark_retrying, backoff_delay}
use upnext.Processor.State.{
  TaskDefinition, Hook, DispatchReason, paused, retrying, record_job_started, record_job_completed,
  record_job_cancelled, record_job_retrying, record_job_failed, record_dispatch_reason, finish,
  retry, reschedule_cron, Raised, exception, cancelled_error, Ending, returned, process_cancelled,
  raised, Env, State, and_then, call, call_hook_if, emit_status_event, pop_active, set_active,
}

abbrev pub is_cron : JobSource → Bool
is_cron (cron_source _) = true
is_cron task_source = false
is_cron (event_source _) = false

-- `_cron_reschedule_base`
abbrev pub cron_reschedule_base : JobSource → Option ℕ
cron_reschedule_base (cron_source c) = c.cron_window_at
cron_reschedule_base task_source = none
cron_reschedule_base (event_source _) = none

-- `_calculate_next_cron_run`
abbrev pub calculate_next_cron_run : Env → Option String → Option ℕ → Raised ⊎ ℕ
calculate_next_cron_run env none base = inr env.end_time
calculate_next_cron_run env (some schedule) base =
    if str_eq schedule "" then inr env.end_time else env.next_cron schedule base

abbrev pub next_run_of : Env → Job → Raised ⊎ ℕ
next_run_of env job =
    calculate_next_cron_run env (schedule_of job.source) (cron_reschedule_base job.source)

unfoldable pub reschedule_at : Env → Job → Raised ⊎ ℕ → State → Option Raised × State
unfolding call
reschedule_at env job (inl x) s = (some x, s)
reschedule_at env job (inr next_run_at) s = call env (reschedule_cron job next_run_at) s

-- Both handlers reschedule a cron job in the same way.
unfoldable pub reschedule_if_cron : Env → Job → State → Option Raised × State
unfolding reschedule_at
reschedule_if_cron env job s =
    if is_cron job.source then reschedule_at env job (next_run_of env job) s else (none, s)

-- The end of both handlers.
unfoldable pub complete_job : Env → Job → TaskDefinition → State → Option Raised × State
unfolding and_then reschedule_if_cron
complete_job env job task_def s =
    and_then (reschedule_if_cron env job s)
      (λ s₁. (none, call_hook_if task_def.on_complete Hook.on_complete job s₁))

unfoldable pub handle_success :
    Env → Job → TaskDefinition → Value → ℕ → State → Option Raised × State
unfolding and_then call complete_job
handle_success env job task_def result duration s =
    let s₁ = call_hook_if task_def.on_success Hook.on_success job s in
    and_then (call env (finish job complete (some result) none) s₁) (λ s₂.
      complete_job env job task_def (
        emit_status_event env (record_job_completed job result duration)
          (record s₂ { jobs_processed = s₂.jobs_processed + 1 })))

abbrev pub with_failure_reason : Bool → Job → Job
with_failure_reason is_timeout job = record job {
  failure_reason = elim job.failure_reason [
    | some r ↦ some r
    | none ↦ some (if is_timeout then timeout else exception)
  ];
}

unfoldable pub fail_permanently :
    Env → Job → TaskDefinition → String → State → Option Raised × State
unfolding and_then call complete_job
fail_permanently env job task_def error_msg s =
    let s₁ = call_hook_if task_def.on_failure Hook.on_failure job s in
    and_then (call env (finish job failed none (some error_msg)) s₁) (λ s₂.
      complete_job env job task_def (
        emit_status_event env (record_job_failed job error_msg)
          (record s₂ { jobs_failed = s₂.jobs_failed + 1 })))

unfoldable pub retry_later : Env → Job → TaskDefinition → String → ℕ → State → Option Raised × State
unfolding mark_retrying and_then call
retry_later env job task_def error_msg delay s =
    let job' = mark_retrying env.format env.end_time delay job in
    let s₁ = emit_status_event env (record_job_retrying job' error_msg delay) s in
    and_then (call env (record_dispatch_reason job.function retrying job.id) s₁) (λ s₂.
      and_then (call env (retry job' delay) s₂)
        (λ s₃. (none, record s₃ { jobs_retried = s₃.jobs_retried + 1 })))

unfoldable pub handle_failure :
    Env → Job → TaskDefinition → Bool → String → State → Option Raised × State
unfolding fail_permanently retry_later backoff_delay
handle_failure env job₀ task_def is_timeout error_msg s =
    let job = with_failure_reason is_timeout job₀ in
    let s₁ = call_hook_if task_def.on_retry Hook.on_retry job s in
    if leb job.attempts task_def.retries
    then elim (backoff_delay task_def.retry_delay task_def.retry_backoff job.attempts) [
      | ok delay ↦ retry_later env job task_def error_msg delay s₁
      | err e ↦ (some (exception false "0.0 cannot be raised to a negative power"), s₁)
    ]
    else fail_permanently env job task_def error_msg s

unfoldable pub handle_cancellation : Env → Job → String → State → Option Raised × State
unfolding and_then call
handle_cancellation env job₀ reason s =
    let job = record job₀ { failure_reason = some FailureReason.cancelled } in
    and_then (call env (record_dispatch_reason job.function DispatchReason.cancelled job.id) s)
      (λ s₁.
        call env (finish job JobStatus.cancelled none (some reason))
          (emit_status_event env (record_job_cancelled job reason) s₁))

-- `timeout or default`, for limits in millionths of a second.
abbrev pub limit_or : Option ℕ → Option ℕ → Option ℕ
limit_or none d = d
limit_or (some t) d = if t == 0 then d else some t

-- `_execute_job`: a timeout is noted on the job and raised again with a message of its own.
unfoldable pub execute_job : Env → Job → TaskDefinition → Ending → Job × Ending
execute_job env job task_def (raised (exception true msg)) = (
  record job { failure_reason = some timeout },
  raised (
      exception true (
        "Job "
        <> job.id
        <> " timed out after "
        <> env.seconds (limit_or job.timeout task_def.timeout)
        <> "s")),
)
execute_job env job task_def (raised (exception false msg)) = (job, raised (exception false msg))
execute_job env job task_def (raised cancelled_error) = (job, raised cancelled_error)
execute_job env job task_def (returned v) = (job, returned v)
execute_job env job task_def (process_cancelled r) = (job, process_cancelled r)

-- `except Exception` around the execution and `_handle_success`; a CancelledError passes.
unfoldable pub or_failure :
    Env → Job → TaskDefinition → Option Raised × State → Option Raised × State
unfolding handle_failure
or_failure env job task_def (none, s) = (none, s)
or_failure env job task_def (some (exception is_timeout msg), s) =
    handle_failure env job task_def is_timeout msg s
or_failure env job task_def (some cancelled_error, s) = (some cancelled_error, s)

unfoldable pub settle : Env → TaskDefinition → Job × Ending → State → Option Raised × State
unfolding or_failure handle_success handle_cancellation
settle env task_def (job, returned v) s =
    or_failure env job task_def (handle_success env job task_def v (env.end_time - env.now) s)
settle env task_def (job, process_cancelled reason) s = handle_cancellation env job reason s
settle env task_def (job, raised x) s = or_failure env job task_def (some x, s)

-- Skips a job that was cancelled before it began.
unfoldable pub skip_cancelled : Env → Job → State → Option Raised × State
unfolding and_then call
skip_cancelled env job₀ s =
    let job = record job₀ { root_id = if str_eq job₀.root_id "" then job₀.id else job₀.root_id } in
    and_then (call env (record_dispatch_reason job.function DispatchReason.cancelled job.id) s)
      (λ s₁.
        call env (finish job JobStatus.cancelled none (some "Cancelled before execution"))
          (emit_status_event env (record_job_cancelled job "Cancelled before execution") s₁))

unfoldable pub defer_paused : Env → Job → State → Option Raised × State
unfolding and_then call
defer_paused env job s =
    and_then (call env (record_dispatch_reason job.function paused job.id) s)
      (call env (retry job 1_000_000))

abbrev pub begin_job : Env → Job → Job
begin_job env job₀ =
    let job = mark_started env.format env.now env.worker_id job₀ in
    record job { root_id = if str_eq job.root_id "" then job.id else job.root_id }

unfoldable pub fail_unknown : Env → Job → State → Option Raised × State
unfolding and_then call
fail_unknown env job s =
    and_then
      (call env (finish job failed none (some ("Unknown task function: " <> job.function))) s)
      (λ s₁. (none, record s₁ { jobs_failed = s₁.jobs_failed + 1 }))

-- The job is active while it runs and is settled, and no longer, whatever is raised.
unfoldable pub run_task : Env → Job → Option TaskDefinition → State → Option Raised × State
unfolding fail_unknown settle
run_task env job none s = fail_unknown env job s
run_task env job (some task_def) s =
    let s₁ = emit_status_event env (record_job_started job (some (env.now - job.scheduled_at))) s in
    let s₂ = record s₁ { active_jobs = set_active job.id job s₁.active_jobs } in
    let s₃ = call_hook_if task_def.on_start Hook.on_start job s₂ in
    let (x, s₄) =
      settle env task_def (execute_job env job task_def (env.call_function task_def job)) s₃ in
    (x, record s₄ { active_jobs = pop_active job.id s₄.active_jobs })

-- The outer `except`: an Exception is logged. Whether a CancelledError is raised again, and the state.
abbrev pub log_error : Option Raised × State → Bool × State
log_error (none, s) = (false, s)
log_error (some (exception is_timeout msg), s) = (false, s)
log_error (some cancelled_error, s) = (true, s)

unfoldable pub process_job : Env → Job → State → Option Raised × State
unfolding skip_cancelled defer_paused run_task
process_job env job s =
    if env.is_cancelled
    then skip_cancelled env job s
    else if env.is_paused
    then defer_paused env job s
    else let job' = begin_job env job in run_task env job' (env.get_task job'.function) s

unfoldable pub process_one : Env → Option Job → State → Bool × State
unfolding process_job
process_one env none s = (false, s)
process_one env (some job) s = log_error (process_job env job s)
