-- ===== src/Tests/Fixtures.antt =====
-- A clock text, a job and a store of job documents for the tests of
-- packages/shared/src/shared/domain/jobs.py and of
-- packages/server/src/server/services/events/processing.py.
use upnext.Prelude.{
  ℕ, zero, suc, String, ◌≡◌, ◌≢◌, refl, Option, none, some, [], ◌∷◌, List, false, true, str_eq,
  if◌then◌else◌,
}
use upnext.Value.{null, str, end, field}
use upnext.Domain.Status.{active}
use upnext.Domain.Source.{cron_source}
use upnext.Domain.Job.{Job, Format}
use upnext.Domain.Payload.{IsoClock}
use upnext.Events.Rows.{JobRow}
use upnext.Events.Store.{Backend}
use upnext.Events.Progress.{Settings}
use upnext.Events.Handlers.{Env, State}

-- A text of as many marks as the instant, between a start and nothing.
unfoldable pub tally : ℕ → String
tally zero = "T"
tally (suc n) = String.◌∷◌ "1" (tally n)

unfoldable pub untally : String → Option ℕ
untally String.[] = none
untally (String.◌∷◌ c String.[]) = some 0
untally (String.◌∷◌ c (String.◌∷◌ d s)) = elim (untally (String.◌∷◌ d s)) [
  | none ↦ none
  | some n ↦ some (suc n)
]

pub untally-tally : (n : ℕ) → untally (tally n) ≡ some n
unfolding untally tally
untally-tally zero = refl
untally-tally (suc zero) = refl
untally-tally (suc (suc n)) = rw (untally-tally (suc n)) refl

pub tally-nonempty : (n : ℕ) → tally n ≢ ""
unfolding tally
tally-nonempty zero e = cc
tally-nonempty (suc n) e = cc

abbrev pub clock : IsoClock
clock = record {
  isoformat = tally;
  fromisoformat = untally;
  fromisoformat-isoformat = untally-tally;
  isoformat-nonempty = tally-nonempty;
}

abbrev pub format : Format
format = record { number = λ n. "1"; tenths = λ n. "1.0" }

abbrev pub cron_job : Job
cron_job = record {
  function = "f-1";
  function_name = "report";
  kwargs = field "limit" (str "ten") end;
  id = "j1";
  key = "";
  status = active;
  scheduled_at = 2;
  started_at = some 3;
  completed_at = none;
  timeout = some 30_000_000;
  lease_time = none;
  attempts = 1;
  max_retries = 2;
  retry_delay = 1_000_000;
  retry_backoff = 2_000_000;
  worker_id = some "w1";
  parent_id = none;
  root_id = "";
  progress = 500_000;
  source = cron_source (record {
    schedule = "0 * * * *";
    cron_window_at = some 7;
    startup_reconciled = false;
    startup_policy = none;
  });
  checkpoint = some (field "page" (str "4") end);
  checkpoint_at = some "T";
  result = null;
  error = none;
  error_traceback = none;
  failure_reason = none;
  state_history =
      record { state = "queued"; timestamp = 1; message = some "Job enqueued"; worker_id = none }
      ∷ [];
}

-- A store as a list of documents, the latest first.
unfoldable pub find_row : List JobRow → String → Option JobRow
find_row [] id = none
find_row (j ∷ rest) id = if str_eq j.id id then some j else find_row rest id

pub find_row-cons :
    (t : List JobRow) (j : JobRow) (id : String)
    → find_row (j ∷ t) id ≡ (if str_eq j.id id then some j else find_row t id)
unfolding find_row
find_row-cons t j id = refl

abbrev pub memory : Backend
memory = record {
  Table = List JobRow;
  Artifacts = List String;
  read = find_row;
  write = λ t j. j ∷ t;
  read-write = find_row-cons;
  promote = λ a id ws. (a, []);
  isoformat = tally;
}

abbrev pub settings : Settings
settings = record {
  max_entries = 2;
  min_interval = 200;
  min_delta = 20_000;
  force_interval = 5_000;
}

abbrev pub env_at : ℕ → Env
env_at t = record { settings = settings; now = t; monotonic = t; stream_up = true }

abbrev pub empty : State (List JobRow) (List String)
empty = record { jobs = []; artifacts = "a1" ∷ []; published = []; writes = [] }
