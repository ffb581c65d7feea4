-- ===== src/Tests/Events.antt =====
-- Tests of packages/server/src/server/services/events/processing.py on stores of at most one row.
use upnext.Prelude.{
  true, false, ◌⊎◌, ℕ, ◌≤◌, ◌≡◌, refl, none, some, [], ◌∷◌, false, arith, eq_iff, length, inr,
}
use upnext.Value.{str, end}
use upnext.Domain.Status.{JobStatus, is_terminal}
use upnext.Domain.Source.{task_source}
use upnext.Events.Contract.{
  JobStartedEvent, JobCompletedEvent, JobFailedEvent, JobProgressEvent, event_job_id, started,
  completed, failed, progress,
}
use upnext.Events.Rows.{JobRow, apply_defaults}
use upnext.Events.Store.{row_of, get_by_id}
use upnext.Events.Updates.{started_record, completed_record}
use upnext.Events.Progress.{should_persist_progress, lookup}
use upnext.Events.Handlers.{St, find, process_event, handle_job_started, handle_job_progress}
use upnext.Events.Documents.{Closed, IsValid, process_event-IsValid, read-process_event_ne}
use upnext.Events.Delivery.{event_attempt, event_time, process_event_stale, process_event_twice}
use upnext.Events.Lifecycle.{SameEnd, process_event-attempts_mono, process_event-SameEnd}
use upnext.Events.Workspace.{only_updates, Replaced, process_event-Foreign}
use upnext.Events.Order.{Shows, started_completed_either_order}
use upnext.Events.Throttle.{process_event-writes-bounded, progress_coalesced}
use upnext.Tests.Fixtures.{find_row, memory, env_at, empty}

abbrev start_1 : JobStartedEvent
start_1 = record {
  job_id = "j1";
  job_key = "j1";
  function = "f-1";
  function_name = "report";
  parent_id = none;
  root_id = "j1";
  kwargs = end;
  source = task_source;
  checkpoint = none;
  checkpoint_at = none;
  scheduled_at = some 1;
  queue_wait_ms = none;
  attempt = 1;
  max_retries = 2;
  worker_id = some "w1";
  started_at = 2;
}

abbrev complete_1 : JobCompletedEvent
complete_1 = record {
  job_id = "j1";
  function = "f-1";
  function_name = "report";
  parent_id = none;
  root_id = "j1";
  result = str "done";
  duration_ms = some 1;
  attempt = 1;
  completed_at = 9;
}

abbrev fail_1 : JobFailedEvent
fail_1 = record {
  job_id = "j1";
  function = "f-1";
  function_name = "report";
  parent_id = none;
  root_id = "j1";
  error = "boom";
  traceback = none;
  attempt = 1;
  max_retries = 2;
  will_retry = false;
  failed_at = 8;
}

abbrev progress_at : ℕ → JobProgressEvent
progress_at p = record {
  job_id = "j1";
  parent_id = none;
  root_id = "j1";
  progress = p;
  message = none;
  updated_at = 4;
}

-- The row of an active job in its second attempt.
abbrev active_row : JobRow
unfolding started_record
active_row = row_of 2 (apply_defaults (started_record "ws" (record start_1 { attempt = 2 })))

abbrev complete_row : JobRow
unfolding completed_record
complete_row = row_of 9 (apply_defaults (completed_record "ws" complete_1))

abbrev cancelled_document : JobRow
cancelled_document = record complete_row { status = JobStatus.cancelled }

abbrev holding : JobRow → St memory
holding r = record empty { jobs = r ∷ [] }

empty-IsValid : IsValid memory []
unfolding find_row
empty-IsValid = record { keyed = λ id r p. cc; closed = λ id r p. cc }

holding-IsValid : (r : JobRow) → Closed r → IsValid memory (r ∷ [])
unfolding find_row
holding-IsValid r c = record {
  keyed = λ id r' p. ground (arith, eq_iff r.id id);
  closed = λ id r' p q. ground (arith, eq_iff r.id id, c);
}

process_event-IsValid_example :
    IsValid memory (process_event memory (env_at 3) (started start_1) "ws" empty).1.jobs
process_event-IsValid_example =
    process_event-IsValid memory (env_at 3) (started start_1) "ws" empty empty-IsValid

read-process_event_ne_example :
    find_row (process_event memory (env_at 3) (started start_1) "ws" empty).1.jobs "j10"
    ≡ find_row [] "j10"
unfolding event_job_id
read-process_event_ne_example =
    read-process_event_ne memory (env_at 3) (started start_1) "ws" empty "j10" empty-IsValid
      (λ e. cc)

process_event_stale_example :
    process_event memory (env_at 9) (completed complete_1) "ws" (holding active_row)
    ≡ (false, holding active_row)
unfolding get_by_id find_row complete_row active_row event_job_id event_attempt event_time
    is_terminal
process_event_stale_example =
    process_event_stale memory (env_at 9) (completed complete_1) "ws" (holding active_row) 1
      active_row refl refl (omega arith)

process_event_twice_example :
    process_event memory
      (env_at 4)
      (started start_1)
      "ws"
      (process_event memory (env_at 3) (started start_1) "ws" empty).1
    ≡ (false, (process_event memory (env_at 3) (started start_1) "ws" empty).1)
unfolding process_event handle_job_started get_by_id find_row event_attempt event_job_id
process_event_twice_example =
    process_event_twice memory (env_at 3) (env_at 4) (started start_1) "ws" empty 1 empty-IsValid
      refl refl

process_event-attempts_mono_example :
    (r' : JobRow) × (find memory
        (process_event memory (env_at 9) (completed complete_1) "ws" (holding active_row)).1
        "j1"
        "ws"
      ≡ some r')
    × (2 ≤ r'.attempts)
unfolding get_by_id find_row complete_row active_row event_job_id event_attempt event_time
    is_terminal
process_event-attempts_mono_example =
    process_event-attempts_mono memory (env_at 9) (completed complete_1) "ws" (holding active_row)
      active_row (holding-IsValid active_row (λ e. cc)) refl

process_event-SameEnd_example :
    (r' : JobRow) × (find memory
        (process_event memory (env_at 10) (failed fail_1) "ws" (holding complete_row)).1
        "j1"
        "ws"
      ≡ some r')
    × SameEnd complete_row r'
unfolding get_by_id find_row complete_row active_row event_job_id event_attempt event_time
    is_terminal
process_event-SameEnd_example =
    process_event-SameEnd memory (env_at 10) (failed fail_1) "ws" (holding complete_row)
      complete_row 9 (holding-IsValid complete_row (λ e. refl)) refl refl refl (omega arith)
      (omega arith)

started_completed_either_order_example :
    ((r : JobRow) × (find memory
          (process_event memory
            (env_at 10)
            (completed complete_1)
            "ws"
            (process_event memory (env_at 3) (started start_1) "ws" empty).1).1
          "j1"
          "ws"
        ≡ some r)
      × Shows complete_1 r)
    × ((r : JobRow) × (find memory
            (process_event memory
              (env_at 10)
              (started start_1)
              "ws"
              (process_event memory (env_at 3) (completed complete_1) "ws" empty).1).1
            "j1"
            "ws"
          ≡ some r)
        × Shows complete_1 r)
unfolding get_by_id find_row complete_row active_row event_job_id event_attempt event_time
    is_terminal
started_completed_either_order_example =
    started_completed_either_order memory (env_at 3) (env_at 10) start_1 complete_1 "ws" empty
      empty-IsValid refl refl refl

process_event-writes-bounded_example :
    length (process_event memory (env_at 3) (started start_1) "ws" empty).1.writes ≤ 2
process_event-writes-bounded_example =
    process_event-writes-bounded memory (env_at 3) (started start_1) "ws" empty (omega arith)
      (omega arith)

progress_coalesced_example :
    process_event memory
      (env_at 13)
      (progress (progress_at 510_000))
      "ws"
      (process_event memory
        (env_at 12)
        (progress (progress_at 500_000))
        "ws"
        (holding active_row)).1
    ≡ (
      false,
      (process_event memory
          (env_at 12)
          (progress (progress_at 500_000))
          "ws"
          (holding active_row)).1,
    )
unfolding process_event handle_job_progress active_row get_by_id find_row should_persist_progress
    lookup
progress_coalesced_example =
    progress_coalesced memory (env_at 12) (env_at 13) (progress_at 500_000) (progress_at 510_000)
      "ws" (holding active_row) refl refl (omega arith) (omega arith) (inr (omega arith))

-- The same job ID in another workspace.
process_event-Foreign_example :
    ((only_updates (completed complete_1) ≡ true)
      × ((process_event memory
            (env_at 9)
            (completed complete_1)
            "other"
            (holding active_row)).1.jobs
          ≡ active_row ∷ []))
    ⊎ ((only_updates (completed complete_1) ≡ false)
        × Replaced memory (env_at 9) "other" (holding active_row) (completed complete_1) active_row)
unfolding event_job_id find_row active_row is_terminal
process_event-Foreign_example =
    process_event-Foreign memory (env_at 9) "other" (holding active_row) (completed complete_1)
      active_row (holding-IsValid active_row (λ e. cc)) (record { stored = refl; other = refl })
