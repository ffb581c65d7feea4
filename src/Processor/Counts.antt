-- ===== src/Processor/Counts.antt =====
-- Weights of the calls that packages/upnext/src/upnext/engine/job_processor.py makes.
use upnext.Prelude.{
  ℕ, ◌+◌, ◌≡◌, refl, List, [], ◌∷◌, ◌++◌, Bool, true, false, arith, Option, none, some,
}
use upnext.Domain.Job.{Job}
use upnext.Processor.State.{
  Hook, StatusEvent, Effect, call_hook, emit, finish, Raised, exception, cancelled_error, call,
  and_then, retry, reschedule_cron, Env, State, push, call_hook_if, emit_status_event,
}
use upnext.Processor.Run.{log_error}

unfoldable pub total : (Effect → ℕ) → List Effect → ℕ
total w [] = 0
total w (e ∷ es) = w e + total w es

-- The calls that settle a job with the queue.
abbrev pub settles : Effect → ℕ
settles (finish _ _ _ _) = 1
settles (retry _ _) = 1
settles _ = 0

abbrev pub reschedules : Effect → ℕ
reschedules (reschedule_cron _ _) = 1
reschedules _ = 0

total-append : (w : Effect → ℕ) (xs ys : List Effect) → total w (xs ++ ys) ≡ total w xs + total w ys
unfolding total
total-append w [] ys = omega arith
total-append w (x ∷ xs) ys = omega (arith, total-append w xs ys)

pub total-push :
    (w : Effect → ℕ) (e : Effect) (s : State) → total w (push e s).effects ≡ total w s.effects + w e
unfolding push
total-push w e s = rw (total-append w s.effects (e ∷ [])) (unfold total in omega arith)

-- Hooks and status events weigh nothing.
pub record Quiet (w : Effect → ℕ) : Type 0 where
  pub hooks : (h : Hook) (j : Job) → w (call_hook h j) ≡ 0
  pub events : (e : StatusEvent) → w (emit e) ≡ 0

pub settles-Quiet : Quiet settles
settles-Quiet = record { hooks = λ h j. refl; events = λ e. refl }

pub reschedules-Quiet : Quiet reschedules
reschedules-Quiet = record { hooks = λ h j. refl; events = λ e. refl }

module _ (w : Effect → ℕ) (q : Quiet w) where
  pub total-call_hook_if :
      (b : Bool) (h : Hook) (j : Job) (s : State)
      → total w (call_hook_if b h j s).effects ≡ total w s.effects
  unfolding call_hook_if
  total-call_hook_if true h j s = omega (arith, total-push w (call_hook h j) s, q.hooks h j)
  total-call_hook_if false h j s = refl

  pub total-emit_status_event :
      (env : Env) (e : StatusEvent) (s : State)
      → total w (emit_status_event env e s).effects ≡ total w s.effects
  unfolding emit_status_event
  total-emit_status_event env e s = ground (arith, total-push w (emit e) s, q.events e)

-- What a method raises, and how often it settled a job and scheduled a cron run on the way.
pub record Counted (o : Option Raised × State) (x : Option Raised) (s : State) (m n : ℕ)
    : Type 0 where
  pub raises_eq : o.0 ≡ x
  pub settles_eq : total settles o.1.effects ≡ total settles s.effects + m
  pub reschedules_eq : total reschedules o.1.effects ≡ total reschedules s.effects + n

-- Two states with the same counts.
pub record Level (s t : State) : Type 0 where
  pub settles_eq : total settles t.effects ≡ total settles s.effects
  pub reschedules_eq : total reschedules t.effects ≡ total reschedules s.effects

pub call_hook_if-Level :
    (b : Bool) (h : Hook) (j : Job) (s : State) → Level s (call_hook_if b h j s)
call_hook_if-Level b h j s = record {
  settles_eq = total-call_hook_if settles settles-Quiet b h j s;
  reschedules_eq = total-call_hook_if reschedules reschedules-Quiet b h j s;
}

pub emit_status_event-Level :
    (env : Env) (e : StatusEvent) (s : State) → Level s (emit_status_event env e s)
emit_status_event-Level env e s = record {
  settles_eq = total-emit_status_event settles settles-Quiet env e s;
  reschedules_eq = total-emit_status_event reschedules reschedules-Quiet env e s;
}

pub Counted-at : (s t : State) (x : Option Raised) → Level s t → Counted (x, t) x s 0 0
Counted-at s t x l = record {
  raises_eq = refl;
  settles_eq = omega (arith, l.settles_eq);
  reschedules_eq = omega (arith, l.reschedules_eq);
}

pub Counted-from :
    (o : Option Raised × State) (x : Option Raised) (s t : State) (m n : ℕ)
    → Level s t
    → Counted o x t m n
    → Counted o x s m n
Counted-from o x s t m n l c = record {
  raises_eq = c.raises_eq;
  settles_eq = omega (arith, c.settles_eq, l.settles_eq);
  reschedules_eq = omega (arith, c.reschedules_eq, l.reschedules_eq);
}

-- A method that follows one that raises nothing adds its counts.
pub Counted-then :
    (o : Option Raised × State) (f : State → Option Raised × State) (x : Option Raised) (s : State)
    (m n p q : ℕ)
    → Counted o none s m n
    → Counted (f o.1) x o.1 p q
    → Counted (and_then o f) x s (m + p) (n + q)
unfolding and_then
Counted-then (none, t) f x s m n p q c d = record {
  raises_eq = d.raises_eq;
  settles_eq = omega (arith, c.settles_eq, d.settles_eq);
  reschedules_eq = omega (arith, c.reschedules_eq, d.reschedules_eq);
}
Counted-then (some y, t) f x s m n p q c d = absurd (ground (arith, c.raises_eq))

-- Nothing follows one that raises.
pub Counted-stop :
    (o : Option Raised × State) (f : State → Option Raised × State) (y : Raised) (s : State)
    (m n : ℕ)
    → Counted o (some y) s m n
    → Counted (and_then o f) (some y) s m n
unfolding and_then
Counted-stop (none, t) f y s m n c = absurd (ground (arith, c.raises_eq))
Counted-stop (some z, t) f y s m n c = c

-- The calls of the queue other than to schedule a cron run.
abbrev pub is_reschedule : Effect → Bool
is_reschedule (reschedule_cron _ _) = true
is_reschedule _ = false

-- They raise nothing.
abbrev pub Reliable : Env → Type 0
Reliable env = (e : Effect) → is_reschedule e ≡ false → env.raises e ≡ none

pub Counted-call :
    (env : Env) (e : Effect) (s : State)
    → env.raises e ≡ none
    → Counted (call env e s) none s (settles e) (reschedules e)
unfolding call
Counted-call env e s h =
    rw (call, h)
      (record {
        raises_eq = refl;
        settles_eq = total-push settles e s;
        reschedules_eq = total-push reschedules e s;
      })

pub Counted-refused :
    (env : Env) (e : Effect) (s : State) (x : Raised)
    → env.raises e ≡ some x
    → Counted (call env e s) (some x) s 0 0
unfolding call
Counted-refused env e s x h =
    rw (call, h) (Counted-at s s (some x) (record { settles_eq = refl; reschedules_eq = refl }))

-- A call that returns, and what follows it.
module _ (env : Env) (e : Effect) (f : State → Option Raised × State) (x : Option Raised)
    (s : State) (h : env.raises e ≡ none) where
  pub settle_call :
      (n : ℕ)
      → settles e ≡ 1
      → reschedules e ≡ 0
      → Counted (f (call env e s).1) x (call env e s).1 0 n
      → Counted (and_then (call env e s) f) x s 1 n
  settle_call n p q c =
      let d =
        Counted-then (call env e s) f x s (settles e) (reschedules e) 0 n (Counted-call env e s h)
          c in
      record {
        raises_eq = d.raises_eq;
        settles_eq = omega (arith, d.settles_eq, p);
        reschedules_eq = omega (arith, d.reschedules_eq, q);
      }

  pub other_call :
      (m n : ℕ)
      → settles e ≡ 0
      → reschedules e ≡ 0
      → Counted (f (call env e s).1) x (call env e s).1 m n
      → Counted (and_then (call env e s) f) x s m n
  other_call m n p q c =
      let d =
        Counted-then (call env e s) f x s (settles e) (reschedules e) m n (Counted-call env e s h)
          c in
      record {
        raises_eq = d.raises_eq;
        settles_eq = omega (arith, d.settles_eq, p);
        reschedules_eq = omega (arith, d.reschedules_eq, q);
      }

pub log_error-state : (o : Option Raised × State) → (log_error o).1 ≡ o.1
log_error-state (none, s) = refl
log_error-state (some (exception t msg), s) = refl
log_error-state (some cancelled_error, s) = refl
