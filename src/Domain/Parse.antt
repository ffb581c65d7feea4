-- ===== src/Domain/Parse.antt =====
-- `from_dict` of packages/shared/src/shared/domain/jobs.py. Where Python would keep a value of
-- another type than the field's, the model stops with `ill_typed`.
use upnext.Prelude.{ℕ, ◌*◌, String, Option, none, some, List, [], ◌∷◌, false, str_eq, if◌then◌else◌}
use upnext.Prelude.Result.{Result, ok, err, key_error, value_error, ill_typed, ◌>>=◌, or_raise}
use upnext.Value.{
  Value, null, bool, int, float, str, array, object, Items, nil, cons, Fields, end, get,
  get_or_null, get_default, truthy, or_else,
}
use upnext.Domain.Status.{
  JobStatus, FailureReason, JobType, cron, event, status_of, reason_of, type_of,
}
use upnext.Domain.Source.{JobSource, task_source, cron_source, event_source}
use upnext.Domain.Job.{Job, StateTransition, post_init}
use upnext.Domain.Payload.{IsoClock}

-- `d[key]`
abbrev pub need : Fields → String → Result Value
need d k = or_raise (get d k) (key_error k)

abbrev pub as_str : Value → Result String
as_str (str s) = ok s
as_str _ = err ill_typed

abbrev pub as_opt_str : Value → Result (Option String)
as_opt_str null = ok none
as_opt_str (str s) = ok (some s)
as_opt_str _ = err ill_typed

-- An integer stands where a float is expected.
abbrev pub as_float : Value → Result ℕ
as_float (float x) = ok x
as_float (int n) = ok (n * 1_000_000)
as_float _ = err ill_typed

abbrev pub as_opt_float : Value → Result (Option ℕ)
as_opt_float null = ok none
as_opt_float (float x) = ok (some x)
as_opt_float (int n) = ok (some (n * 1_000_000))
as_opt_float _ = err ill_typed

abbrev pub as_int : Value → Result ℕ
as_int (int n) = ok n
as_int _ = err ill_typed

abbrev pub as_obj : Value → Result Fields
as_obj (object d) = ok d
as_obj _ = err ill_typed

abbrev pub as_opt_obj : Value → Result (Option Fields)
as_opt_obj null = ok none
as_opt_obj (object d) = ok (some d)
as_opt_obj _ = err ill_typed

abbrev pub as_items : Value → Result Items
as_items (array xs) = ok xs
as_items _ = err ill_typed

abbrev pub as_status : Value → Result JobStatus
as_status (str s) = or_raise (status_of s) value_error
as_status _ = err value_error

-- `FailureReason(v) if v else None`
abbrev pub as_reason : Value → Result (Option FailureReason)
as_reason (str s) =
    if str_eq s "" then ok none else (do r ← or_raise (reason_of s) value_error; ok (some r))
as_reason v = if truthy v then err value_error else ok none

-- `JobType(str(raw))`; only a text can name a type.
abbrev pub as_type : Value → Option JobType
as_type (str s) = type_of s
as_type _ = none

-- `isinstance(v, str) and v`
abbrev pub nonempty_str : Value → Option String
nonempty_str (str s) = if str_eq s "" then none else some s
nonempty_str _ = none

abbrev pub any_str : Value → Option String
any_str (str s) = some s
any_str _ = none

-- The source dictionary, or the payload itself where there is none.
abbrev pub source_data_of : Value → Fields → Fields
source_data_of (object d) payload = d
source_data_of _ payload = payload

-- `CronSource(…)` from a schedule, if there is one.
abbrev pub cron_of : Option String → Value → Value → Value → Result (Option JobSource)
cron_of none window reconciled policy = ok none
cron_of (some schedule) window reconciled policy = do
  w ← as_opt_float window
  p ← as_opt_str policy
  ok (
      some (
        cron_source (record {
          schedule = schedule;
          cron_window_at = w;
          startup_reconciled = truthy reconciled;
          startup_policy = p;
        })))

abbrev pub event_of : Option String → Option String → Option JobSource
event_of none name = none
event_of (some pattern_) none = none
event_of (some pattern_) (some name) =
    some (event_source (record { event_pattern = pattern_; event_handler_name = name }))

abbrev pub typed_cron : Option JobType → Fields → Fields → Result (Option JobSource)
typed_cron (some cron) d payload =
    cron_of (nonempty_str (or_else (get_or_null d "schedule") (get_or_null payload "schedule")))
      (get_default d "cron_window_at" (get_or_null payload "cron_window_at"))
      (get_default d "startup_reconciled" (get_default payload "startup_reconciled" (bool false)))
      (get_default d "startup_policy" (get_or_null payload "startup_policy"))
typed_cron _ d payload = ok none

abbrev pub typed_event : Option JobType → Fields → Fields → Option JobSource
typed_event (some event) d payload =
    event_of
      (any_str (or_else (get_or_null d "event_pattern") (get_or_null payload "event_pattern")))
      (any_str
        (or_else (get_or_null d "event_handler_name") (get_or_null payload "event_handler_name")))
typed_event _ d payload = none

-- The inference for legacy payloads.
abbrev pub legacy : Fields → Result JobSource
legacy payload = do
  c ←
      cron_of (nonempty_str (get_or_null payload "schedule")) (get_or_null payload "cron_window_at")
        (get_default payload "startup_reconciled" (bool false))
        (get_or_null payload "startup_policy")
  ok (elim c [
    | some s ↦ s
    | none ↦
        elim (event_of (any_str (get_or_null payload "event_pattern"))
          (any_str (get_or_null payload "event_handler_name"))) [ some s ↦ s | none ↦ task_source ]
  ])

abbrev pub first_source : Option JobSource → Option JobSource → Fields → Result JobSource
first_source (some s) e payload = ok s
first_source none (some s) payload = ok s
first_source none none payload = legacy payload

-- `_source_from_dict`
unfoldable pub source_from_dict : Fields → Result JobSource
source_from_dict payload =
    let d = source_data_of (get_or_null payload "source") payload in
    let t = as_type (or_else (get_or_null d "type") (get_or_null payload "job_type")) in
    do c ← typed_cron t d payload; first_source c (typed_event t d payload) payload

module _ (iso : IsoClock) where
  open iso use {fromisoformat}

  abbrev pub as_time : Value → Result ℕ
  as_time (str s) = or_raise (fromisoformat s) value_error
  as_time _ = err ill_typed

  -- `datetime.fromisoformat(v) if v else None`
  abbrev pub as_opt_time : Value → Result (Option ℕ)
  as_opt_time v = if truthy v then (do t ← as_time v; ok (some t)) else ok none

  unfoldable pub transition_from_dict : Fields → Result StateTransition
  transition_from_dict d = do
    state ← need d "state" >>= as_str
    timestamp ← need d "timestamp" >>= as_time
    message ← as_opt_str (get_or_null d "message")
    worker_id ← as_opt_str (get_or_null d "worker_id")
    ok (record { state = state; timestamp = timestamp; message = message; worker_id = worker_id })

  unfoldable pub history_from_items : Items → Result (List StateTransition)
  unfolding transition_from_dict
  history_from_items nil = ok []
  history_from_items (cons v rest) = do
    d ← as_obj v
    t ← transition_from_dict d
    ts ← history_from_items rest
    ok (t ∷ ts)

  unfoldable pub from_dict : Fields → Result Job
  unfolding source_from_dict history_from_items post_init
  from_dict d = do
    id ← need d "id" >>= as_str
    key ← need d "key" >>= as_str
    function ← need d "function" >>= as_str
    function_name ← as_str (get_default d "function_name" (str function))
    kwargs ← as_obj (get_default d "kwargs" (object end))
    status ← need d "status" >>= as_status
    scheduled_at ← need d "scheduled_at" >>= as_time
    started_at ← as_opt_time (get_or_null d "started_at")
    completed_at ← as_opt_time (get_or_null d "completed_at")
    timeout ← as_opt_float (get_or_null d "timeout")
    lease_time ← as_opt_float (get_or_null d "lease_time")
    attempts ← as_int (get_default d "attempts" (int 0))
    max_retries ← as_int (get_default d "max_retries" (int 0))
    retry_delay ← as_float (get_default d "retry_delay" (float 1_000_000))
    retry_backoff ← as_float (get_default d "retry_backoff" (float 2_000_000))
    worker_id ← as_opt_str (get_or_null d "worker_id")
    parent_id ← as_opt_str (get_or_null d "parent_id")
    root_id ← as_str (get_default d "root_id" (str id))
    progress ← as_float (get_default d "progress" (float 0))
    source ← source_from_dict d
    checkpoint ← as_opt_obj (get_or_null d "checkpoint")
    checkpoint_at ← as_opt_str (get_or_null d "checkpoint_at")
    error ← as_opt_str (get_or_null d "error")
    error_traceback ← as_opt_str (get_or_null d "error_traceback")
    failure_reason ← as_reason (get_or_null d "failure_reason")
    items ← as_items (get_default d "state_history" (array nil))
    state_history ← history_from_items items
    ok (
        post_init (record {
          function = function;
          function_name = function_name;
          kwargs = kwargs;
          id = id;
          key = key;
          status = status;
          scheduled_at = scheduled_at;
          started_at = started_at;
          completed_at = completed_at;
          timeout = timeout;
          lease_time = lease_time;
          attempts = attempts;
          max_retries = max_retries;
          retry_delay = retry_delay;
          retry_backoff = retry_backoff;
          worker_id = worker_id;
          parent_id = parent_id;
          root_id = root_id;
          progress = progress;
          source = source;
          checkpoint = checkpoint;
          checkpoint_at = checkpoint_at;
          result = get_or_null d "result";
          error = error;
          error_traceback = error_traceback;
          failure_reason = failure_reason;
          state_history = state_history;
        }))
