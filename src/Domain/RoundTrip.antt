-- ===== src/Domain/RoundTrip.antt =====
-- What packages/shared/src/shared/domain/jobs.py writes, it reads back.
use upnext.Prelude.{
  ℕ, String, ◌≡◌, ◌≢◌, refl, sym, ◌∙◌, Option, none, some, List, [], ◌∷◌, false, str_eq, arith,
  eq_iff, Bool-cases, inl, inr,
}
use upnext.Prelude.Result.{ok, err, ◌>>=◌, Result}
use upnext.Value.{Value, str, Fields, truthy, or_else}
use upnext.Domain.Status.{JobStatus, pending, FailureReason, timeout, status_value}
use upnext.Domain.Source.{JobSource, task_source, cron_source, event_source, source_type}
use upnext.Domain.Job.{Job, StateTransition, post_init}
use upnext.Domain.Payload.{
  IsoClock, opt_str, opt_float, opt_obj, opt_reason, opt_time, source_to_dict, transition_to_dict,
  history_to_items, to_dict,
}
use upnext.Domain.Parse.{
  as_opt_str, as_opt_float, as_opt_obj, as_status, as_reason, as_time, as_opt_time,
  source_from_dict, transition_from_dict, history_from_items, from_dict,
}

as_opt_str-opt_str : (o : Option String) → as_opt_str (opt_str o) ≡ ok o
as_opt_str-opt_str none = refl
as_opt_str-opt_str (some s) = refl

as_opt_float-opt_float : (o : Option ℕ) → as_opt_float (opt_float o) ≡ ok o
as_opt_float-opt_float none = refl
as_opt_float-opt_float (some x) = refl

as_opt_obj-opt_obj : (o : Option Fields) → as_opt_obj (opt_obj o) ≡ ok o
as_opt_obj-opt_obj none = refl
as_opt_obj-opt_obj (some d) = refl

as_status-status_value : (s : JobStatus) → as_status (str (status_value s)) ≡ ok s
as_status-status_value pending = refl
as_status-status_value _ = refl

as_reason-opt_reason : (o : Option FailureReason) → as_reason (opt_reason o) ≡ ok o
as_reason-opt_reason none = refl
as_reason-opt_reason (some timeout) = refl
as_reason-opt_reason (some _) = refl

eq_false : (s : String) → s ≢ "" → str_eq s "" ≡ false
eq_false s h = ground (arith, eq_iff s "")

or_else_same : (v : Value) → or_else v v ≡ v
or_else_same v = elim (Bool-cases (truthy v)) [ inl e ↦ rw e | inr e ↦ rw e ]

-- A cron source names its schedule.
abbrev pub IsNamed : JobSource → Type 0
IsNamed (cron_source c) = c.schedule ≢ ""
IsNamed task_source = Unit {0}
IsNamed (event_source e) = Unit {0}

module _ (iso : IsoClock) where
  open iso use {isoformat, fromisoformat-isoformat, isoformat-nonempty}

  as_time-isoformat : (t : ℕ) → as_time iso (str (isoformat t)) ≡ ok t
  as_time-isoformat t = rw (fromisoformat-isoformat t)

  isoformat-eq-false : (t : ℕ) → str_eq (isoformat t) "" ≡ false
  isoformat-eq-false t = ground (arith, isoformat-nonempty t, eq_iff (isoformat t) "")

  as_opt_time-opt_time : (o : Option ℕ) → as_opt_time iso (opt_time iso o) ≡ ok o
  as_opt_time-opt_time none = refl
  as_opt_time-opt_time (some t) = rw (isoformat-eq-false t, fromisoformat-isoformat t)

  transition_from_dict-transition_to_dict :
      (t : StateTransition) → transition_from_dict iso (transition_to_dict iso t) ≡ ok t
  unfolding transition_from_dict transition_to_dict
  transition_from_dict-transition_to_dict t = simp (fromisoformat-isoformat, as_opt_str-opt_str)

  history_from_items-history_to_items :
      (ts : List StateTransition) → history_from_items iso (history_to_items iso ts) ≡ ok ts
  unfolding history_from_items history_to_items
  history_from_items-history_to_items [] = refl
  history_from_items-history_to_items (t ∷ ts) =
      rw (transition_from_dict-transition_to_dict t, history_from_items-history_to_items ts)

  source_read :
      (j : Job) (src : JobSource)
      → j.source ≡ src
      → IsNamed src
      → source_from_dict (to_dict iso j) ≡ ok src
  unfolding source_from_dict to_dict source_to_dict source_type
  source_read j task_source e h = simp e
  source_read j (cron_source c) e h =
      simp (e, as_opt_float-opt_float, as_opt_str-opt_str, eq_false c.schedule h)
  source_read j (event_source v) e h = simp (e, or_else_same)

  -- The dictionary of a job whose cron source, if it has one, names a schedule reads back as that
  -- job with the defaults of construction applied.
  pub from_dict-to_dict :
      (j : Job) → IsNamed j.source → from_dict iso (to_dict iso j) ≡ ok (post_init j)
  unfolding from_dict to_dict
  from_dict-to_dict j h = simp (
    source_read j j.source refl h,
    fromisoformat-isoformat,
    as_opt_time-opt_time,
    as_opt_str-opt_str,
    as_opt_float-opt_float,
    as_opt_obj-opt_obj,
    as_status-status_value,
    as_reason-opt_reason,
    history_from_items-history_to_items,
  )

  -- Whatever its source, the other fields of what is read back are the job's.
  from_dict-to_dict_any :
      (j : Job)
      → from_dict iso (to_dict iso j)
        ≡ (source_from_dict (to_dict iso j) >>= λ src. ok (post_init (record j { source = src })))
  unfolding from_dict to_dict
  from_dict-to_dict_any j = simp (
    fromisoformat-isoformat, as_opt_time-opt_time, as_opt_str-opt_str, as_opt_float-opt_float,
    as_opt_obj-opt_obj, as_status-status_value, as_reason-opt_reason,
    history_from_items-history_to_items,
  )

  same_of_read :
      (j r : Job) (src : Result JobSource)
      → (src >>= λ x. ok (post_init (record j { source = x }))) ≡ ok r
      → (r.id ≡ j.id) × (r.function ≡ j.function) × (r.status ≡ j.status)
  unfolding post_init
  same_of_read j r (ok src) h = ground arith
  same_of_read j r (err e) h = absurd (ground arith)

  -- What the dictionary of a job reads back as has the job's id, function and status.
  pub from_dict-to_dict_same :
      (j r : Job)
      → from_dict iso (to_dict iso j) ≡ ok r
      → (r.id ≡ j.id) × (r.function ≡ j.function) × (r.status ≡ j.status)
  from_dict-to_dict_same j r h =
      same_of_read j r (source_from_dict (to_dict iso j)) (sym (from_dict-to_dict_any j) ∙ h)
