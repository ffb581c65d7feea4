-- ===== src/Domain/Lifecycle.antt =====
-- The transition table and the life cycle methods of packages/shared/src/shared/domain/jobs.py.
use upnext.Prelude.{
  ℕ, suc, ◌+◌, String, ◌≡◌, refl, ap, Option, List, [], ◌∷◌, ◌++◌, true, not, ◌&&◌, ◌↔◌, arith,
}
use mathlib.Core.List.{append_assoc, append-nil}
use upnext.Value.{Value}
use upnext.Domain.Status.{
  JobStatus, queued, active, complete, failed, retrying, is_terminal, can_transition_to,
  status_value,
}
use upnext.Domain.Job.{
  Job, StateTransition, Format, mark_queued, mark_started, mark_complete, mark_failed,
  mark_cancelled, mark_retrying,
}

-- A transition out of a terminal status is allowed exactly from failed to queued, and a status may
-- be cancelled exactly if it is not terminal.
pub transition_out :
    (s t : JobStatus)
    → ((can_transition_to s t && is_terminal s ≡ true) ↔ ((s ≡ failed) × (t ≡ queued)))
      × (can_transition_to s JobStatus.cancelled ≡ not (is_terminal s))
unfolding can_transition_to is_terminal
transition_out s t = ((λ h. ground arith, λ h. ground arith), ground arith)

-- A call of one of the life cycle methods, with its arguments.
pub data Mark : Type 0 where
  queue : Option String → Mark
  start : String → Mark
  finish : Value → Mark
  fail : String → Option String → Mark
  cancel : Mark
  retry : ℕ → Mark

module _ (fmt : Format) where
  unfoldable pub apply : ℕ → Mark → Job → Job
  apply now (queue m) j = mark_queued fmt now m j
  apply now (start w) j = mark_started fmt now w j
  apply now (finish v) j = mark_complete fmt now v j
  apply now (fail e t) j = mark_failed fmt now e t j
  apply now cancel j = mark_cancelled fmt now j
  apply now (retry d) j = mark_retrying fmt now d j

  -- Calls in turn, each at its own time.
  unfoldable pub run : List (ℕ × Mark) → Job → Job
  run [] j = j
  run ((now, m) ∷ rest) j = run rest (apply now m j)

-- The status that a call sets, and whether it starts an attempt.
unfoldable pub target : Mark → JobStatus
target (queue _) = queued
target (start _) = active
target (finish _) = complete
target (fail _ _) = failed
target cancel = JobStatus.cancelled
target (retry _) = retrying

unfoldable pub starts : List (ℕ × Mark) → ℕ
starts [] = 0
starts ((now, start w) ∷ rest) = suc (starts rest)
starts ((now, _) ∷ rest) = starts rest

abbrev pub last_target : JobStatus → List (ℕ × Mark) → JobStatus
last_target s [] = s
last_target s ((now, m) ∷ rest) = last_target (target m) rest

-- The states that calls record, in order.
abbrev pub states : List StateTransition → List String
states [] = []
states (t ∷ rest) = t.state ∷ states rest

abbrev pub targets : List (ℕ × Mark) → List String
targets [] = []
targets ((now, m) ∷ rest) = status_value (target m) ∷ targets rest

states-append : (xs ys : List StateTransition) → states (xs ++ ys) ≡ states xs ++ states ys
states-append [] ys = refl
states-append (x ∷ xs) ys = ap (λ r. x.state ∷ r) (states-append xs ys)

module _ (fmt : Format) where
  apply_lem :
      (now : ℕ) (m : Mark) (j : Job)
      → ((apply fmt now m j).status ≡ target m)
        × (states (apply fmt now m j).state_history
            ≡ states j.state_history ++ status_value (target m) ∷ [])
        × ((apply fmt now m j).attempts ≡ j.attempts + starts ((now, m) ∷ []))
  unfolding apply target starts mark_queued mark_started mark_complete mark_failed mark_cancelled
      mark_retrying
  apply_lem now (queue m) j = (refl, states-append j.state_history _, omega arith)
  apply_lem now (start w) j = (refl, states-append j.state_history _, omega arith)
  apply_lem now (finish v) j = (refl, states-append j.state_history _, omega arith)
  apply_lem now (fail e t) j = (refl, states-append j.state_history _, omega arith)
  apply_lem now cancel j = (refl, states-append j.state_history _, omega arith)
  apply_lem now (retry d) j = (refl, states-append j.state_history _, omega arith)

  starts_cons :
      (now : ℕ) (m : Mark) (rest : List (ℕ × Mark))
      → starts ((now, m) ∷ rest) ≡ starts ((now, m) ∷ []) + starts rest
  unfolding starts
  starts_cons now (queue m) rest = omega arith
  starts_cons now (start w) rest = omega arith
  starts_cons now (finish v) rest = omega arith
  starts_cons now (fail e t) rest = omega arith
  starts_cons now cancel rest = omega arith
  starts_cons now (retry d) rest = omega arith

  -- After any calls the status is that of the last call, the history is the old one followed by one
  -- entry for each call with the status it set, and the attempts grew by one for each start.
  pub run_lem :
      (calls : List (ℕ × Mark)) (j : Job)
      → ((run fmt calls j).status ≡ last_target j.status calls)
        × (states (run fmt calls j).state_history ≡ states j.state_history ++ targets calls)
        × ((run fmt calls j).attempts ≡ j.attempts + starts calls)
  unfolding run
  run_lem [] j = (refl, rw append-nil, unfold starts in omega arith)
  run_lem ((now, m) ∷ rest) j =
      let h = apply_lem now m j in
      let ih = run_lem rest (apply fmt now m j) in
      (
        rw (ih.0, h.0),
        rw (ih.1, h.1, append_assoc),
        omega (arith, ih.2, h.2, starts_cons now m rest),
      )
