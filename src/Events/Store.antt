-- ===== src/Events/Store.antt =====
-- The job repository (packages/server/src/server/backends/redis/repositories/jobs_repository.py),
-- over a document store that is a parameter.
use upnext.Prelude.{ℕ, String, ◌≡◌, Option, none, some, List, str_eq, if◌then◌else◌}
use upnext.Events.Rows.{JobRow, JobRecordCreate, or_text, apply_defaults}

-- What the handlers use of the storage: the job documents by job ID, with their read-after-write
-- law, and the promotion of pending artifacts, which returns the promoted IDs.
pub record Backend : Type 1 where
  pub Table : Type 0
  pub Artifacts : Type 0
  pub read : Table → String → Option JobRow
  pub write : Table → JobRow → Table
  pub read-write :
      (t : Table) (j : JobRow) (id : String)
      → read (write t j) id ≡ (if str_eq j.id id then some j else read t id)
  pub promote : Artifacts → String → String → List String × Artifacts
  pub isoformat : ℕ → String

abbrev pub in_workspace : Option JobRow → String → Option JobRow
in_workspace none workspace_id = none
in_workspace (some job) workspace_id =
    if str_eq job.workspace_id workspace_id then some job else none

-- What `_write_job` stores.
abbrev pub stamped : ℕ → JobRow → JobRow
stamped now job = record job {
  created_at = elim job.created_at [ none ↦ some now | some t ↦ some t ];
  updated_at = some now;
}

-- The job that `record_job` builds.
abbrev pub row_of : ℕ → JobRecordCreate → JobRow
row_of now payload = record {
  id = payload.id;
  function = payload.function;
  function_name = or_text payload.function_name payload.function;
  job_key = or_text payload.job_key payload.id;
  workspace_id = payload.workspace_id;
  job_type = payload.job_type;
  status = payload.status;
  created_at = elim payload.created_at [ none ↦ some now | some t ↦ some t ];
  updated_at = none;
  scheduled_at = payload.scheduled_at;
  started_at = payload.started_at;
  completed_at = payload.completed_at;
  queue_wait_ms = payload.queue_wait_ms;
  attempts = payload.attempts;
  max_retries = payload.max_retries;
  timeout = payload.timeout;
  worker_id = payload.worker_id;
  parent_id = payload.parent_id;
  root_id = or_text payload.root_id payload.id;
  progress = payload.progress;
  kwargs = payload.kwargs;
  schedule = payload.schedule;
  cron_window_at = payload.cron_window_at;
  startup_reconciled = payload.startup_reconciled;
  startup_policy = payload.startup_policy;
  checkpoint = payload.checkpoint;
  checkpoint_at = payload.checkpoint_at;
  event_pattern = payload.event_pattern;
  event_handler_name = payload.event_handler_name;
  result = payload.result;
  error = payload.error;
}

module _ (b : Backend) where
  open b use {Table, read, write}

  unfoldable pub get_by_id : Table → String → String → Option JobRow
  get_by_id t id workspace_id = in_workspace (read t id) workspace_id

  unfoldable pub save_job : ℕ → JobRow → Table → Table
  save_job now job t = write t (stamped now job)

  unfoldable pub record_job : ℕ → JobRecordCreate → Table → Table
  record_job now data_ t = write t (stamped now (row_of now (apply_defaults data_)))
