-- ===== src/Processor/Latest.antt =====
-- The last retry among the calls that packages/upnext/src/upnext/engine/job_processor.py makes.
use upnext.Prelude.{
  ℕ, ◌⊎◌, ◌∙◌, ◌≡◌, refl, Option, none, some, List, [], ◌∷◌, ◌++◌, Bool, true, false, Bool-cases,
  Option-cases, inl, inr,
}
use upnext.Domain.Job.{Job}
use upnext.Processor.State.{
  TaskDefinition, Raised, call, and_then, Hook, StatusEvent, Effect, call_hook, emit, retry,
  reschedule_cron, Env, State, push, call_hook_if, emit_status_event,
}
use upnext.Processor.Run.{is_cron, next_run_of, reschedule_at, reschedule_if_cron, complete_job}

-- The job of the last call that a selector picks.
unfoldable pub latest : (Effect → Option Job) → List Effect → Option Job
latest sel [] = none
latest sel (e ∷ es) = let rest = latest sel es in elim rest [ some j ↦ some j | none ↦ sel e ]

abbrev pub retry_of : Effect → Option Job
retry_of (retry j d) = some j
retry_of _ = none

abbrev pub or_before : Option Job → Option Job → Option Job
or_before (some j) before = some j
or_before none before = before

latest-append :
    (sel : Effect → Option Job) (es : List Effect) (e : Effect)
    → latest sel (es ++ e ∷ []) ≡ or_before (sel e) (latest sel es)
unfolding latest
latest-append sel [] e = elim (Option-cases (sel e)) [ inl x ↦ rw x refl | inr (j, x) ↦ rw x refl ]
latest-append sel (x ∷ es) e = elim (Option-cases (sel e)) [
  | inl h ↦ rw (latest-append sel es e, h) refl
  | inr (j, h) ↦ rw (latest-append sel es e, h) refl
]

pub latest-push :
    (sel : Effect → Option Job) (e : Effect) (s : State)
    → latest sel (push e s).effects ≡ or_before (sel e) (latest sel s.effects)
unfolding push
latest-push sel e s = latest-append sel s.effects e

pub record Silent (sel : Effect → Option Job) : Type 0 where
  pub hooks : (h : Hook) (j : Job) → sel (call_hook h j) ≡ none
  pub events : (e : StatusEvent) → sel (emit e) ≡ none
  pub crons : (j : Job) (n : ℕ) → sel (reschedule_cron j n) ≡ none

pub retry_of-Silent : Silent retry_of
retry_of-Silent = record { hooks = λ h j. refl; events = λ e. refl; crons = λ j n. refl }

module _ (sel : Effect → Option Job) (q : Silent sel) where
  pub latest-call_hook_if :
      (b : Bool) (h : Hook) (j : Job) (s : State)
      → latest sel (call_hook_if b h j s).effects ≡ latest sel s.effects
  unfolding call_hook_if
  latest-call_hook_if true h j s = rw (latest-push sel (call_hook h j) s, q.hooks h j) refl
  latest-call_hook_if false h j s = refl

  pub latest-emit_status_event :
      (env : Env) (e : StatusEvent) (s : State)
      → latest sel (emit_status_event env e s).effects ≡ latest sel s.effects
  unfolding emit_status_event
  latest-emit_status_event env e s = elim (Bool-cases env.has_status_buffer) [
    | inl b ↦ simp b (rw (latest-push sel (emit e) s, q.events e) refl)
    | inr b ↦ simp b refl
  ]

  latest-call :
      (env : Env) (e : Effect) (s : State)
      → sel e ≡ none
      → latest sel (call env e s).1.effects ≡ latest sel s.effects
  unfolding call
  latest-call env e s h = elim (Option-cases (env.raises e)) [
    | inl r ↦ rw (call, r, latest-push sel e s, h) refl
    | inr (x, r) ↦ rw (call, r) refl
  ]

  latest-and_then :
      (o : Option Raised × State) (f : State → Option Raised × State)
      → ((t : State) → latest sel (f t).1.effects ≡ latest sel t.effects)
      → latest sel (and_then o f).1.effects ≡ latest sel o.1.effects
  unfolding and_then
  latest-and_then (none, t) f h = h t
  latest-and_then (some x, t) f h = refl

  -- A call that is not picked, and what follows it.
  pub latest-call_then :
      (env : Env) (e : Effect) (s : State) (f : State → Option Raised × State)
      → sel e ≡ none
      → ((t : State) → latest sel (f t).1.effects ≡ latest sel t.effects)
      → latest sel (and_then (call env e s) f).1.effects ≡ latest sel s.effects
  latest-call_then env e s f q h = latest-and_then (call env e s) f h ∙ latest-call env e s q

  latest-reschedule_at :
      (env : Env) (j : Job) (r : Raised ⊎ ℕ) (s : State)
      → latest sel (reschedule_at env j r s).1.effects ≡ latest sel s.effects
  unfolding reschedule_at
  latest-reschedule_at env j (inl x) s = refl
  latest-reschedule_at env j (inr t) s = latest-call env _ s (q.crons j t)

  latest-reschedule_if_cron :
      (env : Env) (j : Job) (s : State)
      → latest sel (reschedule_if_cron env j s).1.effects ≡ latest sel s.effects
  unfolding reschedule_if_cron
  latest-reschedule_if_cron env j s = elim (Bool-cases (is_cron j.source)) [
    | inl b ↦ rw b (latest-reschedule_at env j (next_run_of env j) s)
    | inr b ↦ rw b refl
  ]

  pub latest-complete_job :
      (env : Env) (job : Job) (task : TaskDefinition) (s : State)
      → latest sel (complete_job env job task s).1.effects ≡ latest sel s.effects
  unfolding complete_job
  latest-complete_job env job task s =
      latest-and_then (reschedule_if_cron env job s) _
        (λ t. latest-call_hook_if task.on_complete Hook.on_complete job t)
      ∙ latest-reschedule_if_cron env job s

-- What follows a call that returns.
pub latest_returned :
    (sel : Effect → Option Job) (env : Env) (e : Effect) (s : State)
    (f : State → Option Raised × State)
    → env.raises e ≡ none
    → latest sel (and_then (call env e s) f).1.effects ≡ latest sel (f (push e s)).1.effects
unfolding call and_then
latest_returned sel env e s f h = rw (call, h) refl
