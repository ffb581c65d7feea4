-- ===== src/Events/Handlers.antt =====
-- The handlers of packages/server/src/server/services/events/processing.py and their dispatch. A
-- handler returns whether it changed persisted state, beside the new state. The managed session
-- that the code opens when it is given none is the state itself; a flush changes nothing here.
use upnext.Prelude.{
  ℕ, String, Option, none, some, List, [], ◌∷◌, ◌++◌, Bool, true, false, if◌then◌else◌,
}
use upnext.Events.Contract.{
  JobStartedEvent, JobCompletedEvent, JobFailedEvent, JobCancelledEvent, JobRetryingEvent,
  JobProgressEvent, JobCheckpointEvent, JobLifecycleEvent, started, completed, failed, cancelled,
  retrying, progress, checkpoint,
}
use upnext.Events.Rows.{JobRow}
use upnext.Events.Store.{Backend, get_by_id, save_job, record_job}
use upnext.Events.Progress.{Settings, Cache, record_progress_write, should_persist_progress, pop}
use upnext.Events.Updates.{
  in_terminal_statuses, ignores_started, started_row, started_record, ignores_completed,
  completed_row, completed_record, ignores_failed, failed_row, failed_record, ignores_cancelled,
  cancelled_row, cancelled_record, ignores_retrying, retrying_row,
}

-- What a call reads from outside: the settings, the clock in UTC, the monotonic clock, and whether
-- Redis takes artifact events.
pub record Env : Type 0 where
  pub settings : Settings
  pub now : ℕ
  pub monotonic : ℕ
  pub stream_up : Bool

pub record ArtifactPromoted : Type 0 where
  pub workspace_id : String
  pub job_id : String
  pub artifact_id : String

-- The job documents, the artifacts, the artifact event stream, and the progress throttle.
pub record State (Table Artifacts : Type 0) : Type 0 where
  pub jobs : Table
  pub artifacts : Artifacts
  pub published : List ArtifactPromoted
  pub writes : Cache

unfoldable pub publish_all :
    Bool → String → String → List String → List ArtifactPromoted → List ArtifactPromoted
publish_all up workspace_id job_id [] stream = stream
publish_all up workspace_id job_id (a ∷ rest) stream = publish_all up workspace_id job_id rest (
    if up
    then stream ++ record { workspace_id = workspace_id; job_id = job_id; artifact_id = a } ∷ []
    else stream)

module _ (b : Backend) where
  abbrev pub St : Type 0
  St = State b.Table b.Artifacts

  unfoldable pub promote_pending_artifacts : Env → String → String → St → St
  promote_pending_artifacts env job_id workspace_id s =
      let (promoted, artifacts') = b.promote s.artifacts job_id workspace_id in
      record s {
        artifacts = artifacts';
        published = publish_all env.stream_up workspace_id job_id promoted s.published;
      }

  abbrev pub find : St → String → String → Option JobRow
  find s id workspace_id = get_by_id b s.jobs id workspace_id

  on_started : Option JobRow → Env → JobStartedEvent → String → St → Bool × St
  unfolding save_job record_job
  on_started none env e ws s =
      let s' =
        promote_pending_artifacts env e.job_id ws
          (record s { jobs = record_job b env.now (started_record ws e) s.jobs }) in
      (
        true,
        record s' {
          writes = record_progress_write env.settings env.monotonic e.job_id 0 s'.writes;
        },
      )
  on_started (some row) env e ws s =
      let s' =
        promote_pending_artifacts env e.job_id ws
          (record s { jobs = save_job b env.now (started_row row e) s.jobs }) in
      if ignores_started row e then (false, s) else (
        true,
        record s' {
          writes = record_progress_write env.settings env.monotonic e.job_id 0 s'.writes;
        },
      )

  unfoldable pub handle_job_started : Env → JobStartedEvent → String → St → Bool × St
  unfolding on_started
  handle_job_started env e ws s = on_started (find s e.job_id ws) env e ws s

  on_completed : Option JobRow → Env → JobCompletedEvent → String → St → Bool × St
  unfolding save_job record_job
  on_completed none env e ws s =
      let s' =
        promote_pending_artifacts env e.job_id ws
          (record s { jobs = record_job b env.now (completed_record ws e) s.jobs }) in
      (true, record s' { writes = pop e.job_id s'.writes })
  on_completed (some row) env e ws s =
      let s' =
        promote_pending_artifacts env e.job_id ws
          (record s { jobs = save_job b env.now (completed_row row e) s.jobs }) in
      if ignores_completed row e
      then (false, s)
      else (true, record s' { writes = pop e.job_id s'.writes })

  unfoldable pub handle_job_completed : Env → JobCompletedEvent → String → St → Bool × St
  unfolding on_completed
  handle_job_completed env e ws s = on_completed (find s e.job_id ws) env e ws s

  on_failed : Option JobRow → Env → JobFailedEvent → String → St → Bool × St
  unfolding save_job record_job
  on_failed none env e ws s =
      let s' =
        promote_pending_artifacts env e.job_id ws
          (record s { jobs = record_job b env.now (failed_record ws e) s.jobs }) in
      (true, record s' { writes = pop e.job_id s'.writes })
  on_failed (some row) env e ws s =
      let s' =
        promote_pending_artifacts env e.job_id ws
          (record s { jobs = save_job b env.now (failed_row row e) s.jobs }) in
      if ignores_failed row e
      then (false, s)
      else (true, record s' { writes = pop e.job_id s'.writes })

  unfoldable pub handle_job_failed : Env → JobFailedEvent → String → St → Bool × St
  unfolding on_failed
  handle_job_failed env e ws s = on_failed (find s e.job_id ws) env e ws s

  on_cancelled : Option JobRow → Env → JobCancelledEvent → String → St → Bool × St
  unfolding save_job record_job
  on_cancelled none env e ws s =
      let s' =
        promote_pending_artifacts env e.job_id ws
          (record s { jobs = record_job b env.now (cancelled_record ws e) s.jobs }) in
      (true, record s' { writes = pop e.job_id s'.writes })
  on_cancelled (some row) env e ws s =
      let s' =
        promote_pending_artifacts env e.job_id ws
          (record s { jobs = save_job b env.now (cancelled_row row e) s.jobs }) in
      if ignores_cancelled row e
      then (false, s)
      else (true, record s' { writes = pop e.job_id s'.writes })

  unfoldable pub handle_job_cancelled : Env → JobCancelledEvent → String → St → Bool × St
  unfolding on_cancelled
  handle_job_cancelled env e ws s = on_cancelled (find s e.job_id ws) env e ws s

  on_retrying : Option JobRow → Env → JobRetryingEvent → String → St → Bool × St
  unfolding save_job
  on_retrying none env e ws s = (false, s)
  on_retrying (some row) env e ws s =
      if ignores_retrying row e
      then (false, s)
      else (true, record s { jobs = save_job b env.now (retrying_row row e) s.jobs })

  unfoldable pub handle_job_retrying : Env → JobRetryingEvent → String → St → Bool × St
  unfolding on_retrying
  handle_job_retrying env e ws s = on_retrying (find s e.job_id ws) env e ws s

  on_progress : Option JobRow → Env → JobProgressEvent → String → St → Bool × St
  unfolding save_job
  on_progress none env e ws s = (false, s)
  on_progress (some row) env e ws s =
      if in_terminal_statuses row.status
      then (false, record s { writes = pop e.job_id s.writes })
      else (
        true,
        record s {
          jobs =
              save_job b env.now
                (record row { progress = e.progress; parent_id = e.parent_id; root_id = e.root_id })
                s.jobs;
          writes = record_progress_write env.settings env.monotonic e.job_id e.progress s.writes;
        },
      )

  unfoldable pub handle_job_progress : Env → JobProgressEvent → String → St → Bool × St
  unfolding on_progress
  handle_job_progress env e ws s =
      if should_persist_progress env.settings env.monotonic e.job_id e.progress s.writes
      then on_progress (find s e.job_id ws) env e ws s
      else (false, s)

  on_checkpoint : Option JobRow → Env → JobCheckpointEvent → String → St → Bool × St
  unfolding save_job
  on_checkpoint none env e ws s = (false, s)
  on_checkpoint (some row) env e ws s = (
    true,
    record s {
      jobs =
          save_job b env.now
            (record row {
              checkpoint = some e.state;
              checkpoint_at = some (b.isoformat e.checkpointed_at);
              parent_id = e.parent_id;
              root_id = e.root_id;
            })
            s.jobs;
    },
  )

  unfoldable pub handle_job_checkpoint : Env → JobCheckpointEvent → String → St → Bool × St
  unfolding on_checkpoint
  handle_job_checkpoint env e ws s = on_checkpoint (find s e.job_id ws) env e ws s

  unfoldable pub process_event : Env → JobLifecycleEvent → String → St → Bool × St
  process_event env (started e) ws s = handle_job_started env e ws s
  process_event env (completed e) ws s = handle_job_completed env e ws s
  process_event env (failed e) ws s = handle_job_failed env e ws s
  process_event env (cancelled e) ws s = handle_job_cancelled env e ws s
  process_event env (retrying e) ws s = handle_job_retrying env e ws s
  process_event env (progress e) ws s = handle_job_progress env e ws s
  process_event env (checkpoint e) ws s = handle_job_checkpoint env e ws s
