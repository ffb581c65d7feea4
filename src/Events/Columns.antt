-- ===== src/Events/Columns.antt =====
-- `_SourceColumns` and `_source_columns` of
-- packages/server/src/server/services/events/processing.py.
use upnext.Prelude.{ℕ, String, Option, none, some, Bool, false}
use upnext.Domain.Status.{JobType, task, cron, event}
use upnext.Domain.Source.{JobSource, task_source, cron_source, event_source}

pub record SourceColumns : Type 0 where
  pub job_type : JobType
  pub schedule : Option String
  pub cron_window_at : Option ℕ
  pub startup_reconciled : Bool
  pub startup_policy : Option String
  pub event_pattern : Option String
  pub event_handler_name : Option String

abbrev no_columns : JobType → SourceColumns
no_columns t = record {
  job_type = t;
  schedule = none;
  cron_window_at = none;
  startup_reconciled = false;
  startup_policy = none;
  event_pattern = none;
  event_handler_name = none;
}

abbrev pub source_columns : JobSource → SourceColumns
source_columns (cron_source c) = record {
  job_type = cron;
  schedule = some c.schedule;
  cron_window_at = c.cron_window_at;
  startup_reconciled = c.startup_reconciled;
  startup_policy = c.startup_policy;
  event_pattern = none;
  event_handler_name = none;
}
source_columns (event_source e) = record {
  job_type = event;
  schedule = none;
  cron_window_at = none;
  startup_reconciled = false;
  startup_policy = none;
  event_pattern = some e.event_pattern;
  event_handler_name = some e.event_handler_name;
}
source_columns task_source = no_columns task
