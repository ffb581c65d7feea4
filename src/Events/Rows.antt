-- ===== src/Events/Rows.antt =====
-- A persisted job (packages/server/src/server/backends/base/models.py) and the payload that creates
-- one (packages/server/src/server/backends/base/repository_models.py).
use upnext.Prelude.{ℕ, String, Option, none, some, Bool, false, str_eq, if◌then◌else◌}
use upnext.Value.{Value, null, Fields, end}
use upnext.Domain.Status.{JobStatus, JobType, task}

pub record JobRow : Type 0 where
  pub id : String
  pub function : String
  pub function_name : String
  pub job_key : String
  pub workspace_id : String
  pub job_type : JobType
  pub status : JobStatus
  pub created_at : Option ℕ
  pub updated_at : Option ℕ
  pub scheduled_at : Option ℕ
  pub started_at : Option ℕ
  pub completed_at : Option ℕ
  pub queue_wait_ms : Option ℕ
  pub attempts : ℕ
  pub max_retries : ℕ
  pub timeout : Option ℕ
  pub worker_id : Option String
  pub parent_id : Option String
  pub root_id : String
  pub progress : ℕ
  pub kwargs : Fields
  pub schedule : Option String
  pub cron_window_at : Option ℕ
  pub startup_reconciled : Bool
  pub startup_policy : Option String
  pub checkpoint : Option Fields
  pub checkpoint_at : Option String
  pub event_pattern : Option String
  pub event_handler_name : Option String
  pub result : Value
  pub error : Option String

pub record JobRecordCreate : Type 0 where
  pub id : String
  pub workspace_id : String
  pub job_key : Option String
  pub function : String
  pub function_name : Option String
  pub job_type : JobType
  pub status : JobStatus
  pub created_at : Option ℕ
  pub scheduled_at : Option ℕ
  pub started_at : Option ℕ
  pub completed_at : Option ℕ
  pub attempts : ℕ
  pub max_retries : ℕ
  pub timeout : Option ℕ
  pub worker_id : Option String
  pub parent_id : Option String
  pub root_id : Option String
  pub progress : ℕ
  pub kwargs : Fields
  pub schedule : Option String
  pub cron_window_at : Option ℕ
  pub startup_reconciled : Bool
  pub startup_policy : Option String
  pub checkpoint : Option Fields
  pub checkpoint_at : Option String
  pub event_pattern : Option String
  pub event_handler_name : Option String
  pub queue_wait_ms : Option ℕ
  pub result : Value
  pub error : Option String

-- `text or fallback`
abbrev pub or_text : Option String → String → String
or_text none d = d
or_text (some s) d = if str_eq s "" then d else s

-- The payload with every optional argument left out.
abbrev pub record_create : String → String → String → JobStatus → JobRecordCreate
record_create id workspace_id function status = record {
  id = id;
  workspace_id = workspace_id;
  job_key = none;
  function = function;
  function_name = none;
  job_type = task;
  status = status;
  created_at = none;
  scheduled_at = none;
  started_at = none;
  completed_at = none;
  attempts = 1;
  max_retries = 0;
  timeout = none;
  worker_id = none;
  parent_id = none;
  root_id = none;
  progress = 0;
  kwargs = end;
  schedule = none;
  cron_window_at = none;
  startup_reconciled = false;
  startup_policy = none;
  checkpoint = none;
  checkpoint_at = none;
  event_pattern = none;
  event_handler_name = none;
  queue_wait_ms = none;
  result = null;
  error = none;
}

-- The validator `_apply_defaults`, which runs when a payload is built.
abbrev pub apply_defaults : JobRecordCreate → JobRecordCreate
apply_defaults d = record d {
  function_name = some (or_text d.function_name d.function);
  job_key = some (or_text d.job_key d.id);
  root_id = some (or_text d.root_id d.id);
}
