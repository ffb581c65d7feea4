-- ===== src/Domain/Payload.antt =====
-- The dictionaries that packages/shared/src/shared/domain/jobs.py writes: `to_dict` of jobs,
-- transitions and sources.
use upnext.Prelude.{ℕ, String, ◌≡◌, ◌≢◌, Option, none, some, List, [], ◌∷◌, false}
use upnext.Value.{
  Value, null, bool, int, float, str, array, object, Items, nil, cons, Fields, end, field,
  get_or_null, get_default,
}
use upnext.Domain.Status.{FailureReason, JobType, status_value, reason_value, type_value}
use upnext.Domain.Source.{JobSource, task_source, cron_source, event_source, source_type}
use upnext.Domain.Job.{Job, StateTransition}

-- `datetime.isoformat` and `datetime.fromisoformat`: the text is not empty and reads back.
pub record IsoClock : Type 0 where
  pub isoformat : ℕ → String
  pub fromisoformat : String → Option ℕ
  pub fromisoformat-isoformat : (t : ℕ) → fromisoformat (isoformat t) ≡ some t
  pub isoformat-nonempty : (t : ℕ) → isoformat t ≢ ""

abbrev pub opt_str : Option String → Value
opt_str none = null
opt_str (some s) = str s

abbrev pub opt_float : Option ℕ → Value
opt_float none = null
opt_float (some x) = float x

abbrev pub opt_obj : Option Fields → Value
opt_obj none = null
opt_obj (some d) = object d

abbrev pub opt_reason : Option FailureReason → Value
opt_reason none = null
opt_reason (some r) = str (reason_value r)

-- `_source_to_dict`
unfoldable pub source_to_dict : JobSource → Fields
source_to_dict task_source = field "type" (str (type_value JobType.task)) end
source_to_dict (cron_source c) = field "type" (str (type_value JobType.cron)) (
    field "schedule" (str c.schedule) (
      field "cron_window_at" (opt_float c.cron_window_at) (
        field "startup_reconciled" (bool c.startup_reconciled)
          (field "startup_policy" (opt_str c.startup_policy) end))))
source_to_dict (event_source e) = field "type" (str (type_value JobType.event)) (
    field "event_pattern" (str e.event_pattern)
      (field "event_handler_name" (str e.event_handler_name) end))

-- The property `schedule`.
abbrev pub schedule_of : JobSource → Option String
schedule_of (cron_source c) = some c.schedule
schedule_of task_source = none
schedule_of (event_source _) = none

module _ (iso : IsoClock) where
  open iso use {isoformat}

  abbrev pub opt_time : Option ℕ → Value
  opt_time none = null
  opt_time (some t) = str (isoformat t)

  unfoldable pub transition_to_dict : StateTransition → Fields
  transition_to_dict t = field "state" (str t.state) (
      field "timestamp" (str (isoformat t.timestamp))
        (field "message" (opt_str t.message) (field "worker_id" (opt_str t.worker_id) end)))

  unfoldable pub history_to_items : List StateTransition → Items
  history_to_items [] = nil
  history_to_items (t ∷ rest) = cons (object (transition_to_dict t)) (history_to_items rest)

  unfoldable pub to_dict : Job → Fields
  unfolding source_to_dict source_type
  to_dict j =
      let d = source_to_dict j.source in
      field "id" (str j.id) (
        field "key" (str j.key) (
          field "function" (str j.function) (
            field "function_name" (str j.function_name) (
              field "job_type" (str (type_value (source_type j.source))) (
                field "source" (object d) (
                  field "kwargs" (object j.kwargs) (
                    field "status" (str (status_value j.status)) (
                      field "scheduled_at" (str (isoformat j.scheduled_at)) (
                        field "started_at" (opt_time j.started_at) (
                          field "completed_at" (opt_time j.completed_at) (
                            field "timeout" (opt_float j.timeout) (
                              field "lease_time" (opt_float j.lease_time) (
                                field "attempts" (int j.attempts) (
                                  field "max_retries" (int j.max_retries) (
                                    field "retry_delay" (float j.retry_delay) (
                                      field "retry_backoff" (float j.retry_backoff) (
                                        field "worker_id" (opt_str j.worker_id) (
                                          field "parent_id" (opt_str j.parent_id) (
                                            field "root_id" (str j.root_id) (
                                              field "progress" (float j.progress) (
                                                field "schedule" (opt_str (schedule_of j.source)) (
                                                  field "cron_window_at"
                                                    (get_or_null d "cron_window_at")
                                                    (field "startup_reconciled"
                                                      (get_default d "startup_reconciled"
                                                        (bool false))
                                                      (field "startup_policy"
                                                        (get_or_null d "startup_policy")
                                                        (field "checkpoint" (opt_obj j.checkpoint) (
                                                          field "checkpoint_at"
                                                            (opt_str j.checkpoint_at)
                                                            (field "event_pattern"
                                                            (get_or_null d "event_pattern")
                                                            (field "event_handler_name"
                                                            (get_or_null d "event_handler_name")
                                                            (field "result" j.result (
                                                            field "error" (opt_str j.error) (
                                                            field "error_traceback"
                                                            (opt_str j.error_traceback)
                                                            (field "failure_reason"
                                                            (opt_reason j.failure_reason)
                                                            (field "state_history"
                                                            (array
                                                            (history_to_items j.state_history))
                                                            end)))))))))))))))))))))))))))))))))
