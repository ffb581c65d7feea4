-- ===== src/Domain/Job.antt =====
-- `Job` of packages/shared/src/shared/domain/jobs.py, its defaults and its life cycle. Times are
-- instants in microseconds; floats are in millionths.
use Prim.Native.String.{◌++◌ as ◌<>◌}
use upnext.Prelude.{
  ℕ, zero, suc, ◌+◌, ◌-◌, ◌*◌, ◌/◌, ◌^◌, String, Option, none, some, List, [], ◌∷◌, ◌++◌, Bool,
  str_eq, leb, ◌==◌, if◌then◌else◌,
}
use upnext.Prelude.Result.{Result, ok, err, zero_division}
use upnext.Value.{Value, null, Fields}
use upnext.Domain.Status.{
  JobStatus, queued, active, complete, failed, retrying, FailureReason, status_value,
}
use upnext.Domain.Source.{JobSource}

pub record StateTransition : Type 0 where
  pub state : String
  pub timestamp : ℕ
  pub message : Option String
  pub worker_id : Option String

pub record Job : Type 0 where
  pub function : String
  pub function_name : String
  pub kwargs : Fields
  pub id : String
  pub key : String
  pub status : JobStatus
  pub scheduled_at : ℕ
  pub started_at : Option ℕ
  pub completed_at : Option ℕ
  pub timeout : Option ℕ
  pub lease_time : Option ℕ
  pub attempts : ℕ
  pub max_retries : ℕ
  pub retry_delay : ℕ
  pub retry_backoff : ℕ
  pub worker_id : Option String
  pub parent_id : Option String
  pub root_id : String
  pub progress : ℕ
  pub source : JobSource
  pub checkpoint : Option Fields
  pub checkpoint_at : Option String
  pub result : Value
  pub error : Option String
  pub error_traceback : Option String
  pub failure_reason : Option FailureReason
  pub state_history : List StateTransition

-- `__post_init__`
unfoldable pub post_init : Job → Job
post_init j = record j {
  key = if str_eq j.key "" then j.id else j.key;
  root_id = if str_eq j.root_id "" then j.id else j.root_id;
  function_name = if str_eq j.function_name "" then j.function else j.function_name;
}

-- How Python prints an integer, and a float with one decimal.
pub record Format : Type 0 where
  pub number : ℕ → String
  pub tenths : ℕ → String

-- `text[:n]`
abbrev pub first_chars : ℕ → String → String
first_chars zero s = ""
first_chars (suc n) String.[] = ""
first_chars (suc n) (String.◌∷◌ c s) = String.◌∷◌ c (first_chars n s)

-- `message or default`
abbrev pub message_or : Option String → String → String
message_or none d = d
message_or (some m) d = if str_eq m "" then d else m

unfoldable pub record_transition : ℕ → JobStatus → Option String → Option String → Job → Job
record_transition now state message worker_id j = record j {
  state_history =
      j.state_history
      ++ record {
        state = status_value state;
        timestamp = now;
        message = message;
        worker_id = worker_id;
      }
        ∷ [];
}

-- `retry_delay * retry_backoff ** (attempts - 1)`, rounded down to a millionth; Python divides by the
-- factor before the first attempt.
unfoldable pub backoff_delay : ℕ → ℕ → ℕ → Result ℕ
backoff_delay delay backoff zero =
    if backoff == 0 then err zero_division else ok (delay * 1_000_000 / backoff)
backoff_delay delay backoff (suc k) = ok (delay * backoff ^ k / 1_000_000 ^ k)

unfoldable pub calculate_retry_delay : Job → Result ℕ
calculate_retry_delay j = backoff_delay j.retry_delay j.retry_backoff j.attempts

unfoldable pub can_retry : Job → Bool
can_retry j = leb j.attempts j.max_retries

-- Whole milliseconds between start and completion.
unfoldable pub duration_ms : Job → Option ℕ
duration_ms j = elim j.started_at [
  | none ↦ none
  | some s ↦ elim j.completed_at [ none ↦ none | some c ↦ some ((c - s) / 1000) ]
]

module _ (fmt : Format) (now : ℕ) where
  unfoldable pub mark_queued : Option String → Job → Job
  unfolding record_transition
  mark_queued message j =
      record_transition now queued (some (message_or message "Job enqueued")) none
        (record j { status = queued })

  unfoldable pub mark_started : String → Job → Job
  unfolding record_transition
  mark_started worker_id j =
      record_transition now active
        (some ("Started (attempt " <> fmt.number (j.attempts + 1) <> ")")) (some worker_id)
        (record j {
          status = active;
          started_at = some now;
          worker_id = some worker_id;
          attempts = j.attempts + 1;
        })

  unfoldable pub mark_complete : Value → Job → Job
  unfolding record_transition
  mark_complete result j =
      record_transition now complete (some "Completed successfully") none (record j {
        status = complete;
        completed_at = some now;
        result = result;
        progress = 1_000_000;
      })

  unfoldable pub mark_failed : String → Option String → Job → Job
  unfolding record_transition
  mark_failed error traceback j =
      record_transition now failed (some ("Failed: " <> first_chars 100 error)) none (record j {
        status = failed;
        completed_at = some now;
        error = some error;
        error_traceback = traceback;
      })

  unfoldable pub mark_cancelled : Job → Job
  unfolding record_transition
  mark_cancelled j =
      record_transition now JobStatus.cancelled (some "Cancelled") none
        (record j { status = JobStatus.cancelled; completed_at = some now })

  unfoldable pub mark_retrying : ℕ → Job → Job
  unfolding record_transition
  mark_retrying delay j =
      record_transition now retrying
        (some (
          "Scheduled for retry in "
          <> fmt.tenths delay
          <> "s (attempt "
          <> fmt.number (j.attempts + 1)
          <> ")"))
        none (record j { status = retrying })

  -- `prepare_job_for_manual_retry` of packages/shared/src/shared/queue_mutations.py.
  unfoldable pub prepare_job_for_manual_retry : Job → Job
  unfolding mark_queued
  prepare_job_for_manual_retry j = record (mark_queued (some "Manual retry requested") j) {
    scheduled_at = now;
    started_at = none;
    completed_at = none;
    worker_id = none;
    error = none;
    error_traceback = none;
    result = null;
    progress = 0;
  }
