-- ===== src/Processor/Settles.antt =====
-- How often packages/upnext/src/upnext/engine/job_processor.py settles a job and reschedules a cron.
use mathlib.Core.Path.{subst⁻¹}
use upnext.Prelude.{
  sym, ap, ◌∙◌, ℕ, ◌+◌, String, ◌≡◌, refl, Option, none, some, Bool, true, false, arith,
  Option-cases, ◌⊎◌, inl, inr, if◌then◌else◌,
}
use upnext.Value.{Value}
use upnext.Domain.Job.{Job}
use upnext.Processor.State.{
  Effect, TaskDefinition, Env, State, Raised, Hook, record_job_completed, record_job_failed,
  emit_status_event, call_hook_if, reschedule_cron, call, and_then,
}
use upnext.Processor.Run.{
  is_cron, next_run_of, reschedule_at, reschedule_if_cron, complete_job, handle_success,
  fail_permanently, retry_later, handle_cancellation, skip_cancelled, defer_paused, fail_unknown,
}
use upnext.Processor.Counts.{
  total, settles, reschedules, Counted, Level, call_hook_if-Level, emit_status_event-Level,
  Counted-at, Counted-from, Counted-then, Counted-stop, Reliable, is_reschedule, Counted-call,
  Counted-refused, settle_call, other_call,
}

abbrev error_after : Env → Job → Raised ⊎ ℕ → Option Raised
error_after env job (inl x) = some x
error_after env job (inr t) = env.raises (reschedule_cron job t)

-- What the cron library or the call that schedules the next run raises, if the job is a cron job.
abbrev pub reschedule_error : Env → Job → Option Raised
reschedule_error env job =
    if is_cron job.source then error_after env job (next_run_of env job) else none

abbrev one_if_none : Option Raised → ℕ
one_if_none none = 1
one_if_none (some x) = 0

-- How many runs are scheduled for a job that has ended.
abbrev pub rescheduled : Env → Job → ℕ
rescheduled env job =
    if is_cron job.source then one_if_none (error_after env job (next_run_of env job)) else 0

rescheduled_if :
    (b : Bool) (o : Option Raised) (x : Raised)
    → (if b then o else none) ≡ some x
    → (if b then one_if_none o else 0) ≡ 0
rescheduled_if true none x e = absurd (ground (arith, e))
rescheduled_if true (some y) x e = refl
rescheduled_if false o x e = refl

pub rescheduled_of_error :
    (env : Env) (job : Job) (x : Raised)
    → reschedule_error env job ≡ some x
    → rescheduled env job ≡ 0
rescheduled_of_error env job x e = rescheduled_if (is_cron job.source) _ x e

same-Level : (s : State) → Level s s
same-Level s = record { settles_eq = refl; reschedules_eq = refl }

Counted-as :
    (o : Option Raised × State) (x : Option Raised) (s : State) (m n p q : ℕ)
    → m ≡ p
    → n ≡ q
    → Counted o x s m n
    → Counted o x s p q
Counted-as o x s m n p q e f c = record {
  raises_eq = c.raises_eq;
  settles_eq = omega (arith, c.settles_eq, e);
  reschedules_eq = omega (arith, c.reschedules_eq, f);
}

Counted-reschedule_at :
    (env : Env) (job : Job) (r : Raised ⊎ ℕ) (s : State)
    → Counted
        (reschedule_at env job r s)
        (error_after env job r)
        s
        0
        (one_if_none (error_after env job r))
unfolding reschedule_at
Counted-reschedule_at env job (inl x) s = Counted-at s s (some x) (same-Level s)
Counted-reschedule_at env job (inr t) s = elim (Option-cases (env.raises (reschedule_cron job t))) [
  | inl e ↦
      subst⁻¹ (λ x. Counted (call env (reschedule_cron job t) s) x s 0 (one_if_none x)) e
        (Counted-call env (reschedule_cron job t) s e)
  | inr (y, e) ↦
      subst⁻¹ (λ x. Counted (call env (reschedule_cron job t) s) x s 0 (one_if_none x)) e
        (Counted-refused env (reschedule_cron job t) s y e)
]

Counted-if :
    (b : Bool) (o : Option Raised × State) (x : Option Raised) (s : State) (n : ℕ)
    → Counted o x s 0 n
    → Counted (if b then o else (none, s)) (if b then x else none) s 0 (if b then n else 0)
Counted-if true o x s n c = c
Counted-if false o x s n c = Counted-at s s none (same-Level s)

Counted-reschedule_if_cron :
    (env : Env) (job : Job) (s : State)
    → Counted (reschedule_if_cron env job s) (reschedule_error env job) s 0 (rescheduled env job)
unfolding reschedule_if_cron
Counted-reschedule_if_cron env job s =
    Counted-if (is_cron job.source) _ _ s _ (Counted-reschedule_at env job (next_run_of env job) s)

-- A step that changes no count may follow, unless something was raised.
Counted-end :
    (o : Option Raised × State) (f : State → State) (x : Option Raised) (s : State) (m n : ℕ)
    → ((t : State) → Level t (f t))
    → Counted o x s m n
    → Counted (and_then o (λ t. (none, f t))) x s m n
Counted-end o f none s m n l c =
    Counted-as _ none s (m + 0) (n + 0) m n (omega arith) (omega arith)
      (Counted-then o (λ t. (none, f t)) none s m n 0 0 c (Counted-at o.1 (f o.1) none (l o.1)))
Counted-end o f (some y) s m n l c = Counted-stop o (λ t. (none, f t)) y s m n c

Counted-complete_job :
    (env : Env) (job : Job) (task : TaskDefinition) (s : State)
    → Counted (complete_job env job task s) (reschedule_error env job) s 0 (rescheduled env job)
unfolding complete_job
Counted-complete_job env job task s =
    Counted-end (reschedule_if_cron env job s) (call_hook_if task.on_complete Hook.on_complete job)
      (reschedule_error env job) s 0 (rescheduled env job)
      (λ t. call_hook_if-Level task.on_complete Hook.on_complete job t)
      (Counted-reschedule_if_cron env job s)

-- The same counts, when a counter of the worker changes as well.
Level-then : (s t u : State) → Level s t → u.effects ≡ s.effects → Level u t
Level-then s t u l e = record {
  settles_eq = l.settles_eq ∙ sym (ap (total settles) e);
  reschedules_eq = l.reschedules_eq ∙ sym (ap (total reschedules) e);
}

module _ (env : Env) (ok_calls : Reliable env) where
  module _ (job : Job) (task : TaskDefinition) (s : State) where
    pub Counted-handle_success :
        (v : Value) (d : ℕ)
        → Counted
            (handle_success env job task v d s)
            (reschedule_error env job)
            s
            1
            (rescheduled env job)
    unfolding handle_success
    Counted-handle_success v d =
        Counted-from _ _ s _ 1 (rescheduled env job) (call_hook_if-Level _ _ job s) (
          settle_call env _ _ _ _ (ok_calls _ refl) (rescheduled env job) refl refl (
            Counted-from _ _ _ _ 0 (rescheduled env job)
              (Level-then _ _ _ (emit_status_event-Level env (record_job_completed job v d) _) refl)
              (Counted-complete_job env job task _)))

    pub Counted-fail_permanently :
        (msg : String)
        → Counted
            (fail_permanently env job task msg s)
            (reschedule_error env job)
            s
            1
            (rescheduled env job)
    unfolding fail_permanently
    Counted-fail_permanently msg =
        Counted-from _ _ s _ 1 (rescheduled env job) (call_hook_if-Level _ _ job s) (
          settle_call env _ _ _ _ (ok_calls _ refl) (rescheduled env job) refl refl (
            Counted-from _ _ _ _ 0 (rescheduled env job)
              (Level-then _ _ _ (emit_status_event-Level env (record_job_failed job msg) _) refl)
              (Counted-complete_job env job task _)))

    pub Counted-retry_later :
        (msg : String) (d : ℕ) → Counted (retry_later env job task msg d s) none s 1 0
    unfolding retry_later
    Counted-retry_later msg d = Counted-from _ _ s _ 1 0 (emit_status_event-Level env _ s) (
        other_call env _ _ _ _ (ok_calls _ refl) 1 0 refl refl (
          settle_call env _ _ _ _ (ok_calls _ refl) 0 refl refl
            (Counted-at _ _ none (record { settles_eq = refl; reschedules_eq = refl }))))

  Counted-finish :
      (e₁ e₂ : Effect) (f : State → State) (s : State)
      → is_reschedule e₁ ≡ false
      → is_reschedule e₂ ≡ false
      → settles e₁ ≡ 0
      → settles e₂ ≡ 1
      → reschedules e₁ ≡ 0
      → reschedules e₂ ≡ 0
      → ((t : State) → Level t (f t))
      → Counted (and_then (call env e₁ s) (λ t. call env e₂ (f t))) none s 1 0
  Counted-finish e₁ e₂ f s a b p q p' q' l =
      other_call env e₁ (λ t. call env e₂ (f t)) none s (ok_calls e₁ a) 1 0 p p'
        (Counted-from _ none _ _ 1 0 (l _)
          (Counted-as _ none _ _ _ 1 0 q q' (Counted-call env e₂ _ (ok_calls e₂ b))))

  pub Counted-handle_cancellation :
      (job : Job) (reason : String) (s : State)
      → Counted (handle_cancellation env job reason s) none s 1 0
  unfolding handle_cancellation
  Counted-handle_cancellation job reason s =
      Counted-finish _ _ (emit_status_event env _) s refl refl refl refl refl refl
        (emit_status_event-Level env _)

  pub Counted-skip_cancelled :
      (job : Job) (s : State) → Counted (skip_cancelled env job s) none s 1 0
  unfolding skip_cancelled
  Counted-skip_cancelled job s =
      Counted-finish _ _ (emit_status_event env _) s refl refl refl refl refl refl
        (emit_status_event-Level env _)

  pub Counted-defer_paused : (job : Job) (s : State) → Counted (defer_paused env job s) none s 1 0
  unfolding defer_paused
  Counted-defer_paused job s =
      Counted-finish _ _ (λ t. t) s refl refl refl refl refl refl same-Level

  pub Counted-fail_unknown : (job : Job) (s : State) → Counted (fail_unknown env job s) none s 1 0
  unfolding fail_unknown
  Counted-fail_unknown job s =
      settle_call env _ _ _ _ (ok_calls _ refl) 0 refl refl
        (Counted-at _ _ none (record { settles_eq = refl; reschedules_eq = refl }))
