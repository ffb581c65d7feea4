-- ===== src/Events/Workspace.antt =====
-- Events of one workspace at a job that is stored for another:
-- packages/server/src/server/services/events/processing.py over
-- packages/server/src/server/backends/redis/repositories/jobs_repository.py, whose keys are job IDs.
use upnext.Prelude.{
  String, ◌≡◌, ◌⊎◌, refl, ◌∙◌, Option, none, some, Bool, true, false, arith, Bool-cases, inl, inr,
  str_eq, eq_iff,
}
use upnext.Events.Contract.{
  JobLifecycleEvent, started, completed, failed, cancelled, retrying, progress, checkpoint,
  event_job_id,
}
use upnext.Events.Rows.{JobRow, apply_defaults}
use upnext.Events.Store.{Backend, in_workspace, get_by_id, stamped, row_of}
use upnext.Events.Updates.{started_record, completed_record, failed_record, cancelled_record}
use upnext.Events.Handlers.{Env, St, find, process_event}
use upnext.Events.Outcome.{outcome, planned, passes, jobs-process_event}
use upnext.Events.Documents.{IsValid, find-process_event}

-- The handlers that create no job.
abbrev pub only_updates : JobLifecycleEvent → Bool
only_updates (retrying e) = true
only_updates (progress e) = true
only_updates (checkpoint e) = true
only_updates _ = false

-- A row that one workspace finds is not found by another.
hidden :
    (o : Option JobRow) (r : JobRow) (ws other : String)
    → str_eq other ws ≡ false
    → in_workspace o ws ≡ some r
    → in_workspace o other ≡ none
hidden none r ws other h e = refl
hidden (some x) r ws other h e = elim (Bool-cases (str_eq x.workspace_id ws)) [
  | inl p ↦ ground (arith, eq_iff x.workspace_id ws, eq_iff x.workspace_id other, eq_iff other ws)
  | inr p ↦ absurd (ground (arith, rw p at e))
]

module _ (b : Backend) (env : Env) (ws : String) (s : St b) where
  -- The job of an event is stored for another workspace.
  pub record Foreign (e : JobLifecycleEvent) (r : JobRow) : Type 0 where
    pub stored : b.read s.jobs (event_job_id e) ≡ some r
    pub other : str_eq r.workspace_id ws ≡ false

  -- The job is found by the workspace of the event, and by the one of the row no longer.
  pub record Replaced (e : JobLifecycleEvent) (r : JobRow) : Type 0 where
    pub row : JobRow
    pub found : find b (process_event b env e ws s).1 (event_job_id e) ws ≡ some row
    pub lost : find b (process_event b env e ws s).1 (event_job_id e) r.workspace_id ≡ none

  not_found :
      (e : JobLifecycleEvent) (r : JobRow) → Foreign e r → find b s (event_job_id e) ws ≡ none
  unfolding get_by_id
  not_found e r f = rw (f.stored, f.other) refl

  replaced :
      (e : JobLifecycleEvent) (r x : JobRow)
      → IsValid b s.jobs
      → Foreign e r
      → passes env e s.writes ≡ true
      → planned b env e ws s ≡ some x
      → Replaced e r
  unfolding get_by_id
  replaced e r x v f p q =
      let h = find-process_event b env e ws s x v p q in
      record {
        row = stamped env.now x;
        found = h;
        lost = hidden _ (stamped env.now x) ws r.workspace_id f.other h;
      }

  untouched :
      (e : JobLifecycleEvent)
      → planned b env e ws s ≡ none
      → (process_event b env e ws s).1.jobs ≡ s.jobs
  untouched e q =
      jobs-process_event b env e ws s
      ∙ elim (Bool-cases (passes env e s.writes)) [ inl p ↦ rw (p, q) refl | inr p ↦ rw p refl ]

  -- At a job that is stored for another workspace, a retrying, progress or checkpoint event changes no
  -- document. A started, completed, failed or cancelled event replaces the document: the job is
  -- found by the workspace of the event afterwards, and no longer by its own.
  pub process_event-Foreign :
      (e : JobLifecycleEvent) (r : JobRow)
      → IsValid b s.jobs
      → Foreign e r
      → ((only_updates e ≡ true) × ((process_event b env e ws s).1.jobs ≡ s.jobs))
        ⊎ ((only_updates e ≡ false) × Replaced e r)
  unfolding outcome event_job_id
  process_event-Foreign (started e) r v f = inr (
    refl,
    replaced (started e) r (row_of env.now (apply_defaults (started_record ws e))) v f refl
        (rw (not_found (started e) r f, outcome) refl),
  )
  process_event-Foreign (completed e) r v f = inr (
    refl,
    replaced (completed e) r (row_of env.now (apply_defaults (completed_record ws e))) v f refl
        (rw (not_found (completed e) r f, outcome) refl),
  )
  process_event-Foreign (failed e) r v f = inr (
    refl,
    replaced (failed e) r (row_of env.now (apply_defaults (failed_record ws e))) v f refl
        (rw (not_found (failed e) r f, outcome) refl),
  )
  process_event-Foreign (cancelled e) r v f = inr (
    refl,
    replaced (cancelled e) r (row_of env.now (apply_defaults (cancelled_record ws e))) v f refl
        (rw (not_found (cancelled e) r f, outcome) refl),
  )
  process_event-Foreign (retrying e) r v f =
      inl (refl, untouched (retrying e) (rw (not_found (retrying e) r f, outcome) refl))
  process_event-Foreign (progress e) r v f =
      inl (refl, untouched (progress e) (rw (not_found (progress e) r f, outcome) refl))
  process_event-Foreign (checkpoint e) r v f =
      inl (refl, untouched (checkpoint e) (rw (not_found (checkpoint e) r f, outcome) refl))
