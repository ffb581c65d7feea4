-- ===== src/Processor/Retry.antt =====
-- The retry policy of packages/upnext/src/upnext/engine/job_processor.py: how often a failing job
-- runs.
use mathlib.Core.Path.{subst}
use upnext.Prelude.{
  ℕ, zero, suc, ◌+◌, ◌≤◌, ◌<◌, String, ◌≡◌, refl, sym, ◌∙◌, Option, none, some, [], Bool, true,
  false, arith, Bool-cases, inl, inr, leb,
}
use upnext.Domain.Status.{timeout}
use upnext.Domain.Job.{Job, mark_started, mark_retrying}
use upnext.Processor.State.{
  TaskDefinition, Hook, Env, State, call_hook_if, raised, exception, push, retry,
  record_dispatch_reason, retrying, record_job_retrying, emit_status_event,
}
use upnext.Processor.Run.{
  handle_failure, fail_permanently, retry_later, settle, execute_job, run_task, begin_job,
  process_one, process_job, or_failure, with_failure_reason,
}
use upnext.Processor.Counts.{Reliable, log_error-state}
use upnext.Processor.Ends.{backoff_ok}
use upnext.Processor.Latest.{
  latest, retry_of, latest-push, retry_of-Silent, latest-call_hook_if, latest-emit_status_event,
  latest-complete_job, latest-call_then, latest_returned,
}

retry_of-fail_permanently :
    (env : Env) (job : Job) (task : TaskDefinition) (msg : String) (s : State)
    → latest retry_of (fail_permanently env job task msg s).1.effects ≡ latest retry_of s.effects
unfolding fail_permanently
retry_of-fail_permanently env job task msg s =
    latest-call_then retry_of retry_of-Silent env _ _ _ refl (λ t.
      latest-complete_job retry_of retry_of-Silent env job task _
      ∙ latest-emit_status_event retry_of retry_of-Silent env _ _)
    ∙ latest-call_hook_if retry_of retry_of-Silent _ _ job s

retry_of-retry_later :
    (env : Env) (job : Job) (task : TaskDefinition) (msg : String) (d : ℕ) (s : State)
    → Reliable env
    → latest retry_of (retry_later env job task msg d s).1.effects
      ≡ some (mark_retrying env.format env.end_time d job)
unfolding retry_later
retry_of-retry_later env job task msg d s r =
    let job' = mark_retrying env.format env.end_time d job in
    let s₁ = emit_status_event env (record_job_retrying job' msg d) s in
    let s₂ = push (record_dispatch_reason job.function retrying job.id) s₁ in
    latest_returned retry_of env _ s₁ _ (r _ refl)
    ∙ latest_returned retry_of env (retry job' d) s₂ _ (r _ refl)
    ∙ latest-push retry_of (retry job' d) s₂

-- What the next delivery reads of a retried job.
pub record Redelivery (job : Job) (next : Option Job) : Type 0 where
  pub next_job : Job
  pub is_next : next ≡ some next_job
  pub attempts : next_job.attempts ≡ job.attempts
  pub function : next_job.function ≡ job.function

retry_of-handle_failure :
    (env : Env) (job : Job) (task : TaskDefinition) (t : Bool) (msg : String) (s : State)
    → Reliable env
    → 0 < job.attempts
    → leb job.attempts task.retries ≡ true
    → Redelivery job (latest retry_of (handle_failure env job task t msg s).1.effects)
unfolding handle_failure mark_retrying
retry_of-handle_failure env job task t msg s c h q =
    let (d, e) = backoff_ok task.retry_delay task.retry_backoff job.attempts h in
    rw (q, e)
      (record {
        next_job = mark_retrying env.format env.end_time d (with_failure_reason t job);
        is_next =
            retry_of-retry_later env (with_failure_reason t job) task msg d
              (call_hook_if task.on_retry Hook.on_retry (with_failure_reason t job) s) c;
        attempts = refl;
        function = refl;
      })

retry_of-handle_failure_last :
    (env : Env) (job : Job) (task : TaskDefinition) (t : Bool) (msg : String) (s : State)
    → leb job.attempts task.retries ≡ false
    → latest retry_of (handle_failure env job task t msg s).1.effects ≡ latest retry_of s.effects
unfolding handle_failure
retry_of-handle_failure_last env job task t msg s q =
    rw q (retry_of-fail_permanently env _ task msg s)

abbrev pub fresh : State
fresh = record {
  active_jobs = [];
  jobs_processed = 0;
  jobs_failed = 0;
  jobs_retried = 0;
  effects = [];
}

-- How often a job runs that is delivered again each time it is retried, at most `fuel` times.
unfoldable pub runs : Env → (fuel : ℕ) → Job → ℕ
runs env zero job = 0
runs env (suc n) job = elim (latest retry_of (process_one env (some job) fresh).1.effects) [
  | none ↦ 1
  | some next ↦ suc (runs env n next)
]

-- A worker that runs the function of a job, and the function always raises an Exception;
-- no call of the queue raises, but perhaps the scheduling of a cron run.
pub record AlwaysRaises (env : Env) (task : TaskDefinition) (function : String) : Type 0 where
  pub not_cancelled : env.is_cancelled ≡ false
  pub not_paused : env.is_paused ≡ false
  pub known : env.get_task function ≡ some task
  pub calls_return : Reliable env
  pub is_timeout : Bool
  pub message : String
  pub raises : (j : Job) → env.call_function task j ≡ raised (exception is_timeout message)

retry_of-settle :
    (env : Env) (task : TaskDefinition) (job : Job) (t : Bool) (msg : String) (s : State)
    → Reliable env
    → 0 < job.attempts
    → leb job.attempts task.retries ≡ true
    → Redelivery job (
        latest retry_of
          (settle env task (execute_job env job task (raised (exception t msg))) s).1.effects)
unfolding settle execute_job or_failure
retry_of-settle env task job true msg s c h q =
    let r =
      retry_of-handle_failure env (record job { failure_reason = some timeout }) task true _ s c h
        q in
    record {
      next_job = r.next_job;
      is_next = r.is_next;
      attempts = r.attempts;
      function = r.function;
    }
retry_of-settle env task job false msg s c h q =
    retry_of-handle_failure env job task false msg s c h q

retry_of-settle_last :
    (env : Env) (task : TaskDefinition) (job : Job) (t : Bool) (msg : String) (s : State)
    → leb job.attempts task.retries ≡ false
    → latest retry_of
        (settle env task (execute_job env job task (raised (exception t msg))) s).1.effects
      ≡ latest retry_of s.effects
unfolding settle execute_job or_failure
retry_of-settle_last env task job true msg s q =
    retry_of-handle_failure_last env (record job { failure_reason = some timeout }) task true _ s q
retry_of-settle_last env task job false msg s q =
    retry_of-handle_failure_last env job task false msg s q

retry_of-run_task :
    (env : Env) (task : TaskDefinition) (job : Job) (a : AlwaysRaises env task job.function)
    (s : State)
    → 0 < job.attempts
    → leb job.attempts task.retries ≡ true
    → Redelivery job (latest retry_of (run_task env job (some task) s).1.effects)
unfolding run_task
retry_of-run_task env task job a s h q =
    rw (a.raises job) (retry_of-settle env task job a.is_timeout a.message _ a.calls_return h q)

retry_of-run_task_last :
    (env : Env) (task : TaskDefinition) (job : Job) (a : AlwaysRaises env task job.function)
    (s : State)
    → leb job.attempts task.retries ≡ false
    → latest retry_of (run_task env job (some task) s).1.effects ≡ latest retry_of s.effects
unfolding run_task
retry_of-run_task_last env task job a s q =
    rw (a.raises job, retry_of-settle_last env task job a.is_timeout a.message)
      (simp (
        latest-call_hook_if retry_of retry_of-Silent,
        latest-emit_status_event retry_of retry_of-Silent,
      ))

process_one-run_task :
    (env : Env) (task : TaskDefinition) (job : Job) (a : AlwaysRaises env task job.function)
    (s : State)
    → (process_one env (some job) s).1 ≡ (run_task env (begin_job env job) (some task) s).1
unfolding process_one process_job mark_started
process_one-run_task env task job a s =
    log_error-state (process_job env job s) ∙ simp (a.not_cancelled, a.not_paused, a.known) refl

begin_job-attempts : (env : Env) (job : Job) → (begin_job env job).attempts ≡ job.attempts + 1
unfolding mark_started
begin_job-attempts env job = refl

begin_job-function : (env : Env) (job : Job) → (begin_job env job).function ≡ job.function
unfolding mark_started
begin_job-function env job = refl

nothing_before : latest retry_of fresh.effects ≡ none
unfolding latest
nothing_before = refl

latest-run_last :
    (env : Env) (task : TaskDefinition) (job : Job)
    → AlwaysRaises env task job.function
    → leb (begin_job env job).attempts task.retries ≡ false
    → latest retry_of (process_one env (some job) fresh).1.effects ≡ none
unfolding mark_started
latest-run_last env task job a q =
    rw (process_one-run_task env task job a fresh)
      (retry_of-run_task_last env task (begin_job env job) a fresh q ∙ nothing_before)

latest-run_again :
    (env : Env) (task : TaskDefinition) (job : Job)
    → AlwaysRaises env task job.function
    → leb (begin_job env job).attempts task.retries ≡ true
    → Redelivery (begin_job env job) (latest retry_of (process_one env (some job) fresh).1.effects)
unfolding mark_started
latest-run_again env task job a q =
    rw (process_one-run_task env task job a fresh)
      (retry_of-run_task env task (begin_job env job) a fresh (omega arith) q)

-- Where the calls of the queue that do not schedule a cron run return, a job whose function always
-- raises an Exception runs once for its first attempt and once for each retry of the
-- task that is left, and then no more: with at most `retries` attempts made so far, it runs
-- `retries + 1 - attempts` times, for every fuel that exceeds the retries left.
pub runs_lem :
    (env : Env) (task : TaskDefinition) (fuel : ℕ) (job : Job)
    → AlwaysRaises env task job.function
    → job.attempts ≤ task.retries
    → task.retries < fuel + job.attempts
    → runs env fuel job + job.attempts ≡ task.retries + 1
unfolding runs
runs_lem env task zero job a h f = absurd (omega arith)
runs_lem env task (suc n) job a h f =
    elim (Bool-cases (leb (begin_job env job).attempts task.retries)) [
      | inl q ↦
          let r = latest-run_again env task job a q in
          let a' =
            subst (λ f. AlwaysRaises env task f) (sym (r.function ∙ begin_job-function env job))
              a in
          let e = r.attempts ∙ begin_job-attempts env job in
          let b : (begin_job env job).attempts ≤ task.retries = ground arith in
          rw (r.is_next, runs)
            (omega (
              arith,
              e,
              begin_job-attempts env job,
              runs_lem env task n r.next_job a' (omega arith) (omega arith),
            ))
      | inr q ↦
          let b : task.retries < (begin_job env job).attempts = ground arith in
          rw (latest-run_last env task job a q, runs) (omega (arith, begin_job-attempts env job))
    ]
