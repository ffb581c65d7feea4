-- ===== src/Processor/Active.antt =====
-- The active jobs of packages/upnext/src/upnext/engine/job_processor.py.
use upnext.Prelude.{
  ℕ, ◌≢◌, String, ◌≡◌, refl, Option, none, some, List, [], ◌∷◌, Bool, true, false, arith,
  Bool-cases, Option-cases, ◌⊎◌, ap, ◌∙◌, inl, inr, leb, eq_iff, eq_refl,
}
use upnext.Prelude.Result.{Result-cases}
use upnext.Domain.Status.{timeout}
use upnext.Domain.Job.{Job, mark_started, backoff_delay}
use upnext.Processor.State.{
  TaskDefinition, Hook, StatusEvent, Effect, Env, State, push, call_hook_if, emit_status_event,
  Ending, returned, process_cancelled, raised, Raised, exception, cancelled_error, call, and_then,
  pop_active, set_active,
}
use upnext.Processor.Counts.{log_error-state}
use upnext.Processor.Run.{
  is_cron, next_run_of, reschedule_at, reschedule_if_cron, complete_job, or_failure, fail_unknown,
  process_job, handle_success, handle_failure, fail_permanently, retry_later, handle_cancellation,
  settle, execute_job, skip_cancelled, defer_paused, run_task, begin_job, process_one,
  with_failure_reason,
}

active-push : (e : Effect) (s : State) → (push e s).active_jobs ≡ s.active_jobs
unfolding push
active-push e s = refl

active-call_hook_if :
    (b : Bool) (h : Hook) (j : Job) (s : State) → (call_hook_if b h j s).active_jobs ≡ s.active_jobs
unfolding call_hook_if push
active-call_hook_if true h j s = refl
active-call_hook_if false h j s = refl

active-emit_status_event :
    (env : Env) (e : StatusEvent) (s : State)
    → (emit_status_event env e s).active_jobs ≡ s.active_jobs
unfolding emit_status_event push
active-emit_status_event env e s = elim (Bool-cases env.has_status_buffer) [
  | inl b ↦ simp b refl
  | inr b ↦ simp b refl
]

active-call : (env : Env) (e : Effect) (s : State) → (call env e s).1.active_jobs ≡ s.active_jobs
unfolding call
active-call env e s = elim (Option-cases (env.raises e)) [
  | inl h ↦ rw (call, h) (active-push e s)
  | inr (x, h) ↦ rw (call, h) refl
]

active-and_then :
    (o : Option Raised × State) (f : State → Option Raised × State)
    → ((t : State) → (f t).1.active_jobs ≡ t.active_jobs)
    → (and_then o f).1.active_jobs ≡ o.1.active_jobs
unfolding and_then
active-and_then (none, t) f h = h t
active-and_then (some x, t) f h = refl

-- A call, and what follows it.
active_call_then :
    (env : Env) (e : Effect) (s : State) (f : State → Option Raised × State)
    → ((t : State) → (f t).1.active_jobs ≡ t.active_jobs)
    → (and_then (call env e s) f).1.active_jobs ≡ s.active_jobs
active_call_then env e s f h = active-and_then (call env e s) f h ∙ active-call env e s

active-reschedule_at :
    (env : Env) (j : Job) (r : Raised ⊎ ℕ) (s : State)
    → (reschedule_at env j r s).1.active_jobs ≡ s.active_jobs
unfolding reschedule_at
active-reschedule_at env j (inl x) s = refl
active-reschedule_at env j (inr t) s = active-call env _ s

active-reschedule_if_cron :
    (env : Env) (j : Job) (s : State) → (reschedule_if_cron env j s).1.active_jobs ≡ s.active_jobs
unfolding reschedule_if_cron
active-reschedule_if_cron env j s = elim (Bool-cases (is_cron j.source)) [
  | inl b ↦ rw b (active-reschedule_at env j (next_run_of env j) s)
  | inr b ↦ rw b refl
]

module _ (env : Env) (job : Job) (task : TaskDefinition) (s : State) where
  active-complete_job : (complete_job env job task s).1.active_jobs ≡ s.active_jobs
  unfolding complete_job
  active-complete_job =
      active-and_then (reschedule_if_cron env job s) _
        (λ t. active-call_hook_if task.on_complete Hook.on_complete job t)
      ∙ active-reschedule_if_cron env job s

module _ (env : Env) (job : Job) (task : TaskDefinition) (s : State) where
  active-handle_success :
      (v : _) (d : ℕ) → (handle_success env job task v d s).1.active_jobs ≡ s.active_jobs
  unfolding handle_success
  active-handle_success v d =
      active_call_then env _ _ _
        (λ t. active-complete_job env job task _ ∙ active-emit_status_event env _ _)
      ∙ active-call_hook_if _ _ job s

  active-fail_permanently :
      (msg : String) → (fail_permanently env job task msg s).1.active_jobs ≡ s.active_jobs
  unfolding fail_permanently
  active-fail_permanently msg =
      active_call_then env _ _ _
        (λ t. active-complete_job env job task _ ∙ active-emit_status_event env _ _)
      ∙ active-call_hook_if _ _ job s

  active-retry_later :
      (msg : String) (d : ℕ) → (retry_later env job task msg d s).1.active_jobs ≡ s.active_jobs
  unfolding retry_later
  active-retry_later msg d =
      active_call_then env _ _ _ (λ t. active_call_then env _ t _ (λ u. refl))
      ∙ active-emit_status_event env _ s

  active-handle_cancellation :
      (reason : String) → (handle_cancellation env job reason s).1.active_jobs ≡ s.active_jobs
  unfolding handle_cancellation
  active-handle_cancellation reason =
      active_call_then env _ s _ (λ t. active-call env _ _ ∙ active-emit_status_event env _ t)

active-handle_failure :
    (env : Env) (job : Job) (task : TaskDefinition) (t : Bool) (msg : String) (s : State)
    → (handle_failure env job task t msg s).1.active_jobs ≡ s.active_jobs
unfolding handle_failure
active-handle_failure env job task t msg s = elim (Bool-cases (leb job.attempts task.retries)) [
  | inl q ↦ elim (Result-cases (backoff_delay task.retry_delay task.retry_backoff job.attempts)) [
    | inl (d, e) ↦
        rw (q, e)
          (active-retry_later env (with_failure_reason t job) task _ msg d
            ∙ active-call_hook_if _ _ _ s)
    | inr (x, e) ↦ rw (q, e) (active-call_hook_if _ _ _ s)
  ]
  | inr q ↦ rw q (active-fail_permanently env (with_failure_reason t job) task s msg)
]

active-or_failure :
    (env : Env) (job : Job) (task : TaskDefinition) (o : Option Raised × State)
    → (or_failure env job task o).1.active_jobs ≡ o.1.active_jobs
unfolding or_failure
active-or_failure env job task (none, s) = refl
active-or_failure env job task (some (exception t msg), s) =
    active-handle_failure env job task t msg s
active-or_failure env job task (some cancelled_error, s) = refl

active-settle :
    (env : Env) (task : TaskDefinition) (job : Job) (x : Ending) (s : State)
    → (settle env task (execute_job env job task x) s).1.active_jobs ≡ s.active_jobs
unfolding settle execute_job or_failure
active-settle env task job (returned v) s =
    active-or_failure env job task _ ∙ active-handle_success env job task s v _
active-settle env task job (process_cancelled r) s = active-handle_cancellation env job task s r
active-settle env task job (raised (exception true msg)) s =
    active-handle_failure env (record job { failure_reason = some timeout }) task true _ s
active-settle env task job (raised (exception false msg)) s =
    active-handle_failure env job task false msg s
active-settle env task job (raised cancelled_error) s = refl

-- No active job has the ID.
abbrev pub NotActive : String → List (String × Job) → Type 0
NotActive k [] = Unit {0}
NotActive k ((j, v) ∷ rest) = (j ≢ k) × NotActive k rest

pop_active-set_active :
    (k : String) (v : Job) (l : List (String × Job))
    → NotActive k l
    → pop_active k (set_active k v l) ≡ l
unfolding pop_active set_active
pop_active-set_active k v [] h = rw (eq_refl k) refl
pop_active-set_active k v ((j, w) ∷ rest) h =
    ground (arith, eq_iff j k, pop_active-set_active k v rest h.1)

active-run_task :
    (env : Env) (job : Job) (task : Option TaskDefinition) (s : State)
    → NotActive job.id s.active_jobs
    → (run_task env job task s).1.active_jobs ≡ s.active_jobs
unfolding run_task fail_unknown
active-run_task env job none s h = active_call_then env _ s _ (λ t. refl)
active-run_task env job (some task) s h =
    simp (active-settle env task job, active-call_hook_if, active-emit_status_event)
      (pop_active-set_active job.id job s.active_jobs h)

active-skip_cancelled :
    (env : Env) (job : Job) (s : State) → (skip_cancelled env job s).1.active_jobs ≡ s.active_jobs
unfolding skip_cancelled
active-skip_cancelled env job s =
    active_call_then env _ s _ (λ t. active-call env _ _ ∙ active-emit_status_event env _ t)

active-defer_paused :
    (env : Env) (job : Job) (s : State) → (defer_paused env job s).1.active_jobs ≡ s.active_jobs
unfolding defer_paused
active-defer_paused env job s = active_call_then env _ s _ (λ t. active-call env _ t)

active-process_job :
    (env : Env) (job : Job) (s : State)
    → NotActive job.id s.active_jobs
    → (process_job env job s).1.active_jobs ≡ s.active_jobs
unfolding process_job mark_started
active-process_job env job s h = elim (Bool-cases env.is_cancelled) [
  | inl c ↦ simp c (active-skip_cancelled env job s)
  | inr c ↦ elim (Bool-cases env.is_paused) [
    | inl p ↦ simp (c, p) (active-defer_paused env job s)
    | inr p ↦
        simp (c, p)
          (active-run_task env (begin_job env job) (env.get_task (begin_job env job).function) s h)
  ]
]

-- A job that was not active before it is processed is not active afterwards, on every path, whatever
-- is raised, and the other active jobs are as they were.
pub active_jobs-process_one :
    (env : Env) (job : Job) (s : State)
    → NotActive job.id s.active_jobs
    → (process_one env (some job) s).1.active_jobs ≡ s.active_jobs
unfolding process_one
active_jobs-process_one env job s h =
    ap (λ (t : State). t.active_jobs) (log_error-state (process_job env job s))
    ∙ active-process_job env job s h
