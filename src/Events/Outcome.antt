-- ===== src/Events/Outcome.antt =====
-- What each lifecycle event of packages/server/src/server/services/events/processing.py does to the
-- one document of its job, apart from storage, artifacts and the throttle.
use upnext.Prelude.{ℕ, String, ◌≡◌, Option, none, some, Bool, true, arith, if◌then◌else◌}
use upnext.Events.Contract.{
  JobLifecycleEvent, started, completed, failed, cancelled, retrying, progress, checkpoint,
  event_job_id,
}
use upnext.Events.Rows.{JobRow, apply_defaults}
use upnext.Events.Store.{Backend, stamped, row_of}
use upnext.Events.Progress.{Cache, should_persist_progress}
use upnext.Events.Updates.{
  in_terminal_statuses, ignores_started, started_row, started_record, ignores_completed,
  completed_row, completed_record, ignores_failed, failed_row, failed_record, ignores_cancelled,
  cancelled_row, cancelled_record, ignores_retrying, retrying_row,
}
use upnext.Events.Handlers.{
  Env, St, find, process_event, handle_job_started, handle_job_completed, handle_job_failed,
  handle_job_cancelled, handle_job_retrying, handle_job_progress, handle_job_checkpoint,
  promote_pending_artifacts,
}

-- Whether the throttle lets the event through.
abbrev pub passes : Env → JobLifecycleEvent → Cache → Bool
passes env (progress e) cache =
    should_persist_progress env.settings env.monotonic e.job_id e.progress cache
passes env _ cache = true

-- The row to write, from the row found; none where nothing is written.
unfoldable pub outcome :
    (ℕ → String) → ℕ → String → JobLifecycleEvent → Option JobRow → Option JobRow
outcome iso now ws (started e) none = some (row_of now (apply_defaults (started_record ws e)))
outcome iso now ws (started e) (some r) =
    if ignores_started r e then none else some (started_row r e)
outcome iso now ws (completed e) none = some (row_of now (apply_defaults (completed_record ws e)))
outcome iso now ws (completed e) (some r) =
    if ignores_completed r e then none else some (completed_row r e)
outcome iso now ws (failed e) none = some (row_of now (apply_defaults (failed_record ws e)))
outcome iso now ws (failed e) (some r) = if ignores_failed r e then none else some (failed_row r e)
outcome iso now ws (cancelled e) none = some (row_of now (apply_defaults (cancelled_record ws e)))
outcome iso now ws (cancelled e) (some r) =
    if ignores_cancelled r e then none else some (cancelled_row r e)
outcome iso now ws (retrying e) none = none
outcome iso now ws (retrying e) (some r) =
    if ignores_retrying r e then none else some (retrying_row r e)
outcome iso now ws (progress e) none = none
outcome iso now ws (progress e) (some r) =
    if in_terminal_statuses r.status
    then none
    else some (record r { progress = e.progress; parent_id = e.parent_id; root_id = e.root_id })
outcome iso now ws (checkpoint e) none = none
outcome iso now ws (checkpoint e) (some r) = some (record r {
  checkpoint = some e.state;
  checkpoint_at = some (iso e.checkpointed_at);
  parent_id = e.parent_id;
  root_id = e.root_id;
})

module _ (b : Backend) where
  abbrev pub commit : ℕ → Option JobRow → b.Table → b.Table
  commit now none t = t
  commit now (some r) t = b.write t (stamped now r)

  abbrev pub planned : Env → JobLifecycleEvent → String → St b → Option JobRow
  planned env e ws s = outcome b.isoformat env.now ws e (find b s (event_job_id e) ws)

  -- The stored documents after an event are those before it with the planned row written, if the
  -- throttle lets the event through.
  pub jobs-process_event :
      (env : Env) (e : JobLifecycleEvent) (ws : String) (s : St b)
      → (process_event b env e ws s).1.jobs
        ≡ (if passes env e s.writes then commit env.now (planned env e ws s) s.jobs else s.jobs)
  unfolding process_event handle_job_started handle_job_completed handle_job_failed
      handle_job_cancelled handle_job_retrying handle_job_progress handle_job_checkpoint
      promote_pending_artifacts outcome event_job_id
  jobs-process_event env (started e) ws s = ground (arith)
  jobs-process_event env (completed e) ws s = ground (arith)
  jobs-process_event env (failed e) ws s = ground (arith)
  jobs-process_event env (cancelled e) ws s = ground (arith)
  jobs-process_event env (retrying e) ws s = ground (arith)
  jobs-process_event env (progress e) ws s = ground (arith)
  jobs-process_event env (checkpoint e) ws s = ground (arith)
