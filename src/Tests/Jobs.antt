-- ===== src/Tests/Jobs.antt =====
-- Tests of the operations of packages/upnext/src/upnext/engine/queue/redis/queue.py on a small Redis.
use mathlib.Core.List.{Memᴰ}
use text.Mathlib.TextLemmas.{append_cancel_left}
use upnext.Prelude.{◌+◌, String, ◌≡◌, refl, none, some, List, [], ◌∷◌, true, false}
use upnext.Prelude.Result.{ok}
use upnext.Value.{str, null, end, field}
use upnext.Domain.Status.{JobStatus, complete, is_terminal}
use upnext.Domain.Source.{task_source}
use upnext.Domain.Job.{Job, post_init, mark_queued}
use upnext.Domain.RoundTrip.{IsNamed, from_dict-to_dict}
use upnext.Queue.Keys.{job_key, job_index_key, function_scheduled_key, function_stream_key}
use upnext.Queue.Runnable.{Functions, select}
use upnext.Queue.Redis.{Message}
use upnext.Queue.State.{Env, Db, State, returned, raised, duplicate_job_error, to_json, from_json}
use upnext.Queue.Operations.{queued_job, enqueue, finish}
use upnext.Queue.Process.{read_message}
use upnext.Queue.Enqueued.{read_message-enqueue}
use upnext.Queue.Sweep.{sweep_function}
use upnext.Queue.Moved.{Moved, sweep_function-Moved}
use upnext.Queue.Cancelled.{Answer, cancel_lem}
use upnext.Queue.Dedup.{enqueue-again}
use upnext.Queue.Kept.{Owner, IsOwned, Located}
use upnext.Queue.Kept.Run.{Op, enqueue_op, sweep_op, run, IsEmpty, run-Located}
use upnext.Tests.Fixtures.{clock, format}
use upnext.Tests.Json.{json}
use upnext.Tests.Redis.{redis}

abbrev open_functions : Functions
open_functions = record {
  is_paused = λ f. false;
  max_concurrency = λ f. none;
  active_count = λ f. 0;
  group_quota = λ f. (none, none);
  group_active_count = λ g. 0;
}

abbrev env : Env
env = record {
  redis = redis;
  json = json;
  iso = clock;
  format = format;
  key_prefix = "upnext";
  has_scripts = true;
  read_again = λ now. now + 1;
  redis_time = λ now. now + 2;
  get_fn_component = λ f. some "mailer";
  functions = open_functions;
  rate_limit = λ f. none;
}

same_id : (i j : String) → job_key "upnext" "send" i ≡ job_key "upnext" "send" j → i ≡ j
unfolding job_key
same_id i j h = append_cancel_left ":" i j (
    append_cancel_left "send" _ _ (
      append_cancel_left "job:" _ _
        (append_cancel_left ":" _ _ (append_cancel_left "upnext" _ _ h))))

-- Every id is of the function "send".
abbrev owner : Owner "upnext"
owner = record { owner = λ i. "send"; distinct = same_id }

abbrev mail : Job
mail = record {
  function = "send";
  function_name = "send";
  kwargs = field "to" (str "a") end;
  id = "j1";
  key = "k";
  status = JobStatus.pending;
  scheduled_at = 0;
  started_at = none;
  completed_at = none;
  timeout = none;
  lease_time = none;
  attempts = 0;
  max_retries = 1;
  retry_delay = 1_000_000;
  retry_backoff = 2_000_000;
  worker_id = none;
  parent_id = none;
  root_id = "j1";
  progress = 0;
  source = task_source;
  checkpoint = none;
  checkpoint_at = none;
  result = null;
  error = none;
  error_traceback = none;
  failure_reason = none;
  state_history = [];
}

abbrev other_mail : Job
other_mail = record mail { id = "j2"; root_id = "j2" }

abbrev empty : State redis
empty = record {
  db = record {
    strings = λ k. none;
    sets = λ k v. false;
    sorted = record { score = λ k v. none; members = [] };
    streams = record { entries = []; live = λ k n. false; fresh = λ k n. false };
  };
  claims = λ c i. none;
  cursors = λ c. 0;
  buckets = λ f. none;
  calls = [];
}

empty-IsEmpty : IsEmpty env empty
empty-IsEmpty = record {
  no_strings = λ k. refl;
  no_entries = λ k n. refl;
  no_scheduled = λ k i. refl;
  no_claims = λ c i. refl;
}

mail-IsOwned : IsOwned env owner mail
mail-IsOwned = record { function_eq = refl; named = record { has_id = refl; has_function = refl } }

enqueue-again_example :
    ((enqueue env 5 0 mail empty).0 ≡ returned "j1")
    × (enqueue env 6 0 other_mail (enqueue env 5 0 mail empty).1
        ≡ (raised (duplicate_job_error "k"), (enqueue env 5 0 mail empty).1))
    × ((enqueue env 6 0 other_mail
          (finish env "w1" 7 complete none none mail (enqueue env 5 0 mail empty).1)).0
        ≡ returned "j2")
enqueue-again_example =
    enqueue-again env 5 6 0 0 7 mail other_mail empty "w1" complete none none refl refl refl refl

abbrev ops : List Op
ops = enqueue_op 5 9 mail ∷ sweep_op 20 ("send" ∷ []) ∷ []

-- The job as it is read back.
abbrev stored_mail : Job
stored_mail = post_init (queued_job env 5 9 mail)

stored_reads : from_json env (to_json env (queued_job env 5 9 mail)) ≡ ok stored_mail
unfolding from_json to_json queued_job
stored_reads = rw (env.json.loads-dumps _) (from_dict-to_dict clock (queued_job env 5 9 mail) tt)

stored_text :
    (run env ops empty).db.strings (job_key "upnext" "send" "j1")
    ≡ some (to_json env (queued_job env 5 9 mail))
unfolding run select function_scheduled_key function_stream_key job_key job_index_key
stored_text = refl

moved : (run env ops empty).db.streams.live (function_stream_key "upnext" "send") 0 ≡ true
unfolding run select function_scheduled_key function_stream_key job_key job_index_key
moved = refl

stored_queued : is_terminal stored_mail.status ≡ false
unfolding is_terminal queued_job post_init mark_queued
stored_queued = refl

run-Located_example :
    Located env owner (run env ops empty).db.streams (run env ops empty).db.sorted stored_mail.id
run-Located_example =
    run-Located env owner ops empty "send" "j1" (to_json env (queued_job env 5 9 mail)) stored_mail
      empty-IsEmpty (mail-IsOwned, (tt, tt)) stored_text stored_reads stored_queued

abbrev message : Message
message = record {
  stream_key = function_stream_key "upnext" "send";
  msg_id = 0;
  entry = record { job_id = "j1"; function = "send"; payload = none };
}

read_message-enqueue_example :
    read_message env message (enqueue env 5 0 mail empty).1
    ≡ some (post_init (queued_job env 5 0 mail))
read_message-enqueue_example =
    read_message-enqueue env 5 0 mail empty message tt refl refl refl refl refl

abbrev waiting : Db redis
waiting = (enqueue env 5 9 mail empty).1.db

mail_is_due :
    Memᴰ "j1" (redis.zrangebyscore waiting.sorted (function_scheduled_key "upnext" "send") 20 100)
unfolding enqueue select function_scheduled_key
mail_is_due = Memᴰ.head refl

sweep_function-Moved_example : Moved env "send" "j1" (sweep_function env 20 "send" waiting)
sweep_function-Moved_example = sweep_function-Moved env 20 "send" "j1" waiting mail_is_due

abbrev stored : Job
stored = queued_job env 5 9 mail

stored_index :
    (run env ops empty).db.strings (job_index_key "upnext" stored.id)
    ≡ some (job_key "upnext" stored.function stored.id)
unfolding run select function_scheduled_key function_stream_key job_key job_index_key queued_job
stored_index = refl

stored_payload :
    (run env ops empty).db.strings (job_key "upnext" stored.function stored.id)
    ≡ some (to_json env stored)
unfolding run select function_scheduled_key function_stream_key job_key job_index_key queued_job
stored_payload = refl

stored_task : IsNamed stored.source
unfolding queued_job mark_queued
stored_task = tt

cancel_lem_example : Answer env stored "w1" 30 (run env ops empty)
cancel_lem_example =
    cancel_lem env "w1" 30 stored (run env ops empty) stored_task stored_index stored_payload
