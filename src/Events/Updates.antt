-- ===== src/Events/Updates.antt =====
-- The guards and the row updates of the handlers in
-- packages/server/src/server/services/events/processing.py.
use upnext.Prelude.{
  ℕ, String, Option, none, some, Bool, true, false, ◌&&◌, ◌||◌, ltb, leb, ◌==◌, max,
}
use upnext.Value.{null}
use upnext.Domain.Status.{JobStatus, active, complete, failed, retrying}
use upnext.Events.Contract.{
  JobStartedEvent, JobCompletedEvent, JobFailedEvent, JobCancelledEvent, JobRetryingEvent,
}
use upnext.Events.Rows.{JobRow, JobRecordCreate, record_create}
use upnext.Events.Columns.{source_columns}

-- `status in TERMINAL_STATUSES`
abbrev pub in_terminal_statuses : JobStatus → Bool
in_terminal_statuses complete = true
in_terminal_statuses failed = true
in_terminal_statuses JobStatus.cancelled = true
in_terminal_statuses _ = false

-- `status in {"complete", "failed"}`
abbrev pub in_complete_failed : JobStatus → Bool
in_complete_failed complete = true
in_complete_failed failed = true
in_complete_failed _ = false

-- `existing and incoming and incoming <= existing`; the incoming time is always there.
abbrev pub not_after : ℕ → Option ℕ → Bool
not_after incoming none = false
not_after incoming (some existing) = leb incoming existing

abbrev is_retrying : JobStatus → Bool
is_retrying retrying = true
is_retrying _ = false

-- `existing.created_at` set to `existing.started_at or incoming` where it is None.
abbrev created_or : JobRow → ℕ → Option ℕ
created_or row incoming = elim row.created_at [
  | some t ↦ some t
  | none ↦ elim row.started_at [ some t ↦ some t | none ↦ some incoming ]
]

unfoldable pub ignores_started : JobRow → JobStartedEvent → Bool
ignores_started row e =
    ltb e.attempt row.attempts
    || (in_complete_failed row.status && leb e.attempt row.attempts)
    || not_after e.started_at row.completed_at
    || (e.attempt == row.attempts && not_after e.started_at row.started_at)

unfoldable pub started_row : JobRow → JobStartedEvent → JobRow
started_row row e =
    let c = source_columns e.source in
    record row {
      status = active;
      job_key = e.job_key;
      function = e.function;
      function_name = e.function_name;
      attempts = max row.attempts e.attempt;
      worker_id = e.worker_id;
      parent_id = e.parent_id;
      root_id = e.root_id;
      job_type = c.job_type;
      started_at = some e.started_at;
      scheduled_at = e.scheduled_at;
      queue_wait_ms = e.queue_wait_ms;
      schedule = c.schedule;
      completed_at = none;
      progress = 0;
      error = none;
      result = null;
      cron_window_at = c.cron_window_at;
      startup_reconciled = c.startup_reconciled;
      startup_policy = c.startup_policy;
      checkpoint = e.checkpoint;
      checkpoint_at = e.checkpoint_at;
      event_pattern = c.event_pattern;
      event_handler_name = c.event_handler_name;
    }

unfoldable pub started_record : String → JobStartedEvent → JobRecordCreate
started_record workspace_id e =
    let c = source_columns e.source in
    let base = record_create e.job_id workspace_id e.function active in
    record base {
      job_key = some e.job_key;
      function_name = some e.function_name;
      job_type = c.job_type;
      kwargs = e.kwargs;
      schedule = c.schedule;
      attempts = e.attempt;
      max_retries = e.max_retries;
      worker_id = e.worker_id;
      parent_id = e.parent_id;
      root_id = some e.root_id;
      scheduled_at = e.scheduled_at;
      queue_wait_ms = e.queue_wait_ms;
      started_at = some e.started_at;
      created_at = some e.started_at;
      cron_window_at = c.cron_window_at;
      startup_reconciled = c.startup_reconciled;
      startup_policy = c.startup_policy;
      checkpoint = e.checkpoint;
      checkpoint_at = e.checkpoint_at;
      event_pattern = c.event_pattern;
      event_handler_name = c.event_handler_name;
    }

unfoldable pub ignores_completed : JobRow → JobCompletedEvent → Bool
ignores_completed row e =
    ltb e.attempt row.attempts
    || (in_terminal_statuses row.status && not_after e.completed_at row.completed_at)

unfoldable pub completed_row : JobRow → JobCompletedEvent → JobRow
completed_row row e = record row {
  status = complete;
  function = e.function;
  function_name = e.function_name;
  result = e.result;
  completed_at = some e.completed_at;
  attempts = max row.attempts e.attempt;
  parent_id = e.parent_id;
  root_id = e.root_id;
  progress = 1_000_000;
  created_at = created_or row e.completed_at;
}

unfoldable pub completed_record : String → JobCompletedEvent → JobRecordCreate
completed_record workspace_id e =
    let base = record_create e.job_id workspace_id e.function complete in
    record base {
      function_name = some e.function_name;
      created_at = some e.completed_at;
      result = e.result;
      completed_at = some e.completed_at;
      attempts = e.attempt;
      parent_id = e.parent_id;
      root_id = some e.root_id;
      progress = 1_000_000;
    }

unfoldable pub ignores_failed : JobRow → JobFailedEvent → Bool
ignores_failed row e =
    ltb e.attempt row.attempts
    || (in_complete_failed row.status && not_after e.failed_at row.completed_at)

unfoldable pub failed_row : JobRow → JobFailedEvent → JobRow
failed_row row e = record row {
  status = failed;
  function = e.function;
  function_name = e.function_name;
  error = some e.error;
  completed_at = some e.failed_at;
  attempts = max row.attempts e.attempt;
  max_retries = max row.max_retries e.max_retries;
  parent_id = e.parent_id;
  root_id = e.root_id;
  created_at = created_or row e.failed_at;
}

unfoldable pub failed_record : String → JobFailedEvent → JobRecordCreate
failed_record workspace_id e =
    let base = record_create e.job_id workspace_id e.function failed in
    record base {
      function_name = some e.function_name;
      created_at = some e.failed_at;
      error = some e.error;
      completed_at = some e.failed_at;
      attempts = e.attempt;
      max_retries = e.max_retries;
      parent_id = e.parent_id;
      root_id = some e.root_id;
    }

unfoldable pub ignores_cancelled : JobRow → JobCancelledEvent → Bool
ignores_cancelled row e =
    ltb e.attempt row.attempts
    || (in_terminal_statuses row.status && not_after e.cancelled_at row.completed_at)

unfoldable pub cancelled_row : JobRow → JobCancelledEvent → JobRow
cancelled_row row e = record row {
  status = JobStatus.cancelled;
  function = e.function;
  function_name = e.function_name;
  error = e.reason;
  completed_at = some e.cancelled_at;
  attempts = max row.attempts e.attempt;
  parent_id = e.parent_id;
  root_id = e.root_id;
  created_at = created_or row e.cancelled_at;
}

unfoldable pub cancelled_record : String → JobCancelledEvent → JobRecordCreate
cancelled_record workspace_id e =
    let base = record_create e.job_id workspace_id e.function JobStatus.cancelled in
    record base {
      function_name = some e.function_name;
      created_at = some e.cancelled_at;
      error = e.reason;
      completed_at = some e.cancelled_at;
      attempts = e.attempt;
      parent_id = e.parent_id;
      root_id = some e.root_id;
    }

unfoldable pub ignores_retrying : JobRow → JobRetryingEvent → Bool
ignores_retrying row e =
    ltb e.current_attempt row.attempts
    || (in_terminal_statuses row.status && not_after e.retry_at row.completed_at)
    || (is_retrying row.status && leb e.current_attempt row.attempts)

unfoldable pub retrying_row : JobRow → JobRetryingEvent → JobRow
retrying_row row e = record row {
  status = retrying;
  function = e.function;
  function_name = e.function_name;
  attempts = max row.attempts e.current_attempt;
  error = some e.error;
  parent_id = e.parent_id;
  root_id = e.root_id;
  created_at = created_or row e.retry_at;
}
