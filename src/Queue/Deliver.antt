-- ===== src/Queue/Deliver.antt =====
-- How a consumer gets jobs: `_try_autoclaim`, `_dequeue_direct` and `_dequeue_batch` of
-- packages/upnext/src/upnext/engine/queue/redis/queue.py. A call runs at one time; `rounds` is how
-- often its loop reads before the deadline. Redis raises no errors here.
use upnext.Prelude.{
  ℕ, zero, suc, ◌-◌, String, Option, none, some, List, [], ◌∷◌, ◌++◌, map, leb, str_eq,
  if◌then◌else◌, length, min,
}
use upnext.Domain.Job.{Job}
use upnext.Processor.State.{DispatchReason}
use upnext.Queue.Keys.{function_stream_key}
use upnext.Queue.Fair.{fair_order_functions}
use upnext.Queue.Runnable.{get_runnable_functions}
use upnext.Queue.Redis.{Message}
use upnext.Queue.State.{Call, record_dispatch_reason, Env, State}
use upnext.Queue.Process.{process_message}

abbrev pub function_reason : String × DispatchReason → Call
function_reason (f, r) = record_dispatch_reason f r ""

module _ (env : Env) where
  open env use {redis, key_prefix}

  abbrev pub with_job : Option Job → List Job → List Job
  with_job none jobs = jobs
  with_job (some job) jobs = job ∷ jobs

  -- How many jobs are wanted after one of one more.
  abbrev pub still_wanted : Option Job → ℕ → ℕ
  still_wanted none n = suc n
  still_wanted (some job) n = n

  -- Processes every message.
  unfoldable pub process_all :
      (consumer : String) → (now : ℕ) → List Message → State redis → List Job × State redis
  unfolding process_message
  process_all consumer now [] s = ([], s)
  process_all consumer now (m ∷ rest) s =
      let (job, s₁) = process_message env consumer now m s in
      let (jobs, s₂) = process_all consumer now rest s₁ in (with_job job jobs, s₂)

  -- Processes messages until there are as many jobs as wanted; the others stay handed out.
  unfoldable pub process_some :
      (consumer : String)
      → (now : ℕ) → (count : ℕ) → List Message
      → State redis
      → List Job × State redis
  unfolding process_message
  process_some consumer now count [] s = ([], s)
  process_some consumer now zero (m ∷ rest) s = ([], s)
  process_some consumer now (suc n) (m ∷ rest) s =
      let (job, s₁) = process_message env consumer now m s in
      let (jobs, s₂) = process_some consumer now (still_wanted job n) rest s₁ in
      (with_job job jobs, s₂)

  abbrev pub with_streams : redis.Streams → State redis → State redis
  with_streams streams s = record s { db = record s.db { streams = streams } }

  unfoldable pub try_autoclaim :
      (consumer : String)
      → (now : ℕ) → (stream_key : String) → (count : ℕ) → State redis
      → List Job × State redis
  unfolding process_all
  try_autoclaim consumer now stream_key count s =
      let (messages, streams) = redis.xautoclaim stream_key count s.db.streams in
      process_all consumer now messages (with_streams streams s)

  -- One round of reading.
  unfoldable pub read_new :
      (consumer : String)
      → (now : ℕ) → (stream_keys : List String) → (count : ℕ) → State redis
      → List Job × State redis
  unfolding process_some
  read_new consumer now stream_keys count s =
      let (messages, streams) = redis.xreadgroup stream_keys count s.db.streams in
      process_some consumer now count messages (with_streams streams s)

  -- Reads until a round gives a job.
  unfoldable pub read_rounds :
      (consumer : String)
      → (now : ℕ) → (stream_keys : List String) → (count : ℕ) → (rounds : ℕ) → State redis
      → List Job × State redis
  unfolding read_new
  read_rounds consumer now stream_keys count zero s = ([], s)
  read_rounds consumer now stream_keys count (suc n) s =
      let (jobs, s₁) = read_new consumer now stream_keys count s in
      elim jobs [
        | [] ↦ read_rounds consumer now stream_keys count n s₁
        | job ∷ more ↦ (job ∷ more, s₁)
      ]

  -- The streams of the runnable functions, in turn.
  unfoldable pub runnable_streams :
      (consumer : String) → (functions : List String) → State redis → List String × State redis
  unfolding get_runnable_functions fair_order_functions
  runnable_streams consumer functions s =
      let (runnable, reasons) = get_runnable_functions env.functions functions in
      let (ordered, cursor) = fair_order_functions (s.cursors consumer) runnable in
      (
        map (function_stream_key key_prefix) ordered,
        record s {
          cursors = λ c. if str_eq consumer c then cursor else s.cursors c;
          calls = s.calls ++ map function_reason reasons;
        },
      )

  -- The first job that a stream gives back.
  unfoldable pub autoclaim_first :
      (consumer : String)
      → (now : ℕ) → (stream_keys : List String) → State redis
      → Option Job × State redis
  unfolding try_autoclaim
  autoclaim_first consumer now [] s = (none, s)
  autoclaim_first consumer now (k ∷ rest) s =
      let (jobs, s₁) = try_autoclaim consumer now k 1 s in
      elim jobs [ [] ↦ autoclaim_first consumer now rest s₁ | job ∷ _ ↦ (some job, s₁) ]

  unfoldable pub dequeue_direct :
      (consumer : String)
      → (now rounds : ℕ) → (functions : List String) → State redis
      → Option Job × State redis
  unfolding runnable_streams read_rounds autoclaim_first
  dequeue_direct consumer now rounds functions s =
      let (stream_keys, s₁) = runnable_streams consumer functions s in
      elim stream_keys [
        | [] ↦ (none, s₁)
        | k ∷ ks ↦
            let (jobs, s₂) = read_rounds consumer now (k ∷ ks) 1 rounds s₁ in
            elim jobs [ job ∷ _ ↦ (some job, s₂) | [] ↦ autoclaim_first consumer now (k ∷ ks) s₂ ]
      ]

  -- Takes back stale jobs of each stream, up to a number.
  unfoldable pub autoclaim_each :
      (consumer : String)
      → (now : ℕ) → (stream_keys : List String) → (count : ℕ) → State redis
      → List Job × State redis
  unfolding try_autoclaim
  autoclaim_each consumer now [] count s = ([], s)
  autoclaim_each consumer now (k ∷ rest) zero s = ([], s)
  autoclaim_each consumer now (k ∷ rest) (suc n) s =
      let (jobs, s₁) = try_autoclaim consumer now k (suc n) s in
      let (others, s₂) = autoclaim_each consumer now rest (suc n - length jobs) s₁ in
      (jobs ++ others, s₂)

  -- Where jobs were taken back, one round of reading is made at most.
  abbrev pub rounds_after : List Job → ℕ → ℕ
  rounds_after [] rounds = rounds
  rounds_after (job ∷ _) rounds = min 1 rounds

  -- With enough jobs taken back, no round is made.
  unfoldable pub dequeue_batch :
      (consumer : String)
      → (now rounds : ℕ) → (functions : List String) → (count : ℕ) → State redis
      → List Job × State redis
  unfolding runnable_streams read_rounds read_new autoclaim_each
  dequeue_batch consumer now rounds functions count s =
      let (stream_keys, s₁) = runnable_streams consumer functions s in
      elim stream_keys [
        | [] ↦ ([], s₁)
        | k ∷ ks ↦
            let (jobs, s₂) = autoclaim_each consumer now (k ∷ ks) count s₁ in
            let (others, s₃) =
              read_rounds consumer now (k ∷ ks) (count - length jobs)
                (if leb count (length jobs) then 0 else rounds_after jobs rounds) s₂ in
            (jobs ++ others, s₃)
      ]
