-- ===== src/Queue/Kept/Run.antt =====
-- Runs of the operations of packages/upnext/src/upnext/engine/queue/redis/queue.py and of its sweeper,
-- in any order and by any consumers, each at its own time.
use upnext.Prelude.{ℕ, String, ◌≡◌, Option, none, some, List, [], ◌∷◌, true, false, arith}
use upnext.Prelude.Result.{ok}
use upnext.Value.{Value, Fields}
use upnext.Domain.Status.{JobStatus, is_terminal}
use upnext.Domain.Job.{Job}
use upnext.Queue.Keys.{job_key, job_index_key}
use upnext.Queue.State.{Env, State, from_json}
use upnext.Queue.Operations.{enqueue, finish, retry, manual_retry}
use upnext.Queue.Deliver.{dequeue_direct, dequeue_batch}
use upnext.Queue.Lookup.{get_job, update_progress, update_job_checkpoint}
use upnext.Queue.Cancel.{cancel}
use upnext.Queue.Sweep.{do_sweep}
use upnext.Queue.Kept.{Owner, IsOwned, Located, Kept}
use upnext.Queue.Kept.Changes.{enqueue-Kept, finish-Kept, retry-Kept, manual_retry-Kept}
use upnext.Queue.Kept.Dequeues.{dequeue_direct-Step, dequeue_batch-Step}
use upnext.Queue.Kept.Sweeps.{do_sweep-Kept}
use upnext.Queue.Kept.Finds.{
  find_payload-FoundPayload, update_progress-Kept, update_job_checkpoint-Kept,
}
use upnext.Queue.Kept.Cancels.{cancel-Kept}

-- A call, by which consumer and when.
pub data Op : Type 0 where
  enqueue_op : (now delay : ℕ) → Job → Op
  dequeue_op : (consumer : String) → (now rounds : ℕ) → List String → Op
  batch_op : (consumer : String) → (now rounds : ℕ) → List String → (count : ℕ) → Op
  finish_op : (consumer : String) → (now : ℕ) → JobStatus → Option Value → Option String → Job → Op
  retry_op : (consumer : String) → (now delay : ℕ) → Job → Op
  manual_retry_op : (consumer : String) → (now : ℕ) → Job → Op
  cancel_op : (consumer : String) → (now : ℕ) → String → Op
  get_op : String → Op
  progress_op : String → (progress : ℕ) → Op
  checkpoint_op : String → Fields → (time : String) → Op
  sweep_op : (now : ℕ) → List String → Op

module _ (env : Env) where
  open env use {redis}

  unfoldable pub perform : Op → State redis → State redis
  unfolding enqueue dequeue_direct dequeue_batch finish retry manual_retry cancel get_job
      update_progress update_job_checkpoint do_sweep
  perform (enqueue_op now delay job) s = (enqueue env now delay job s).1
  perform (dequeue_op c now rounds fs) s = (dequeue_direct env c now rounds fs s).1
  perform (batch_op c now rounds fs count) s = (dequeue_batch env c now rounds fs count s).1
  perform (finish_op c now status result error job) s = finish env c now status result error job s
  perform (retry_op c now delay job) s = retry env c now delay job s
  perform (manual_retry_op c now job) s = (manual_retry env c now job s).1
  perform (cancel_op c now i) s = (cancel env c now i s).1
  perform (get_op i) s = record s { db = (get_job env i s.db).1 }
  perform (progress_op i p) s = record s { db = (update_progress env i p s.db).1 }
  perform (checkpoint_op i d t) s = record s { db = (update_job_checkpoint env i d t s.db).1 }
  perform (sweep_op now fs) s = record s { db = do_sweep env now fs s.db }

  unfoldable pub run : List Op → State redis → State redis
  unfolding perform
  run [] s = s
  run (op ∷ ops) s = run ops (perform op s)

  -- Nothing is stored yet.
  pub record IsEmpty (s : State redis) : Type 0 where
    pub no_strings : (k : String) → redis.get s.db.strings k ≡ none
    pub no_entries : (k : String) (n : ℕ) → redis.logged s.db.streams k n ≡ none
    pub no_scheduled : (k i : String) → redis.zscore s.db.sorted k i ≡ none
    pub no_claims : (c i : String) → s.claims c i ≡ none

module _ (env : Env) (own : Owner env.key_prefix) where
  open env use {redis, key_prefix}

  -- Calls that are given a job get an owned one, and a job finishes with a terminal status.
  abbrev pub Allowed : Op → Type 0
  Allowed (enqueue_op now delay job) = IsOwned env own job
  Allowed (finish_op c now status result error job) =
      IsOwned env own job × (is_terminal status ≡ true)
  Allowed (retry_op c now delay job) = IsOwned env own job
  Allowed (manual_retry_op c now job) = IsOwned env own job
  Allowed _ = Unit {0}

  abbrev pub AllAllowed : List Op → Type 0
  AllAllowed [] = Unit {0}
  AllAllowed (op ∷ ops) = Allowed op × AllAllowed ops

  IsEmpty-Kept : (s : State redis) → IsEmpty env s → Kept env own s
  IsEmpty-Kept s e = record {
    strings_ok = (
      λ f i t job g d. absurd (ground (arith, g, e.no_strings (job_key key_prefix f i))),
      λ i k g. absurd (ground (arith, g, e.no_strings (job_index_key key_prefix i))),
    );
    streams_ok = λ k m x g. absurd (ground (arith, g, e.no_entries k m));
    sorted_ok = λ k i n z. absurd (ground (arith, z, e.no_scheduled k i));
    claims_ok = λ c i claim g. absurd (ground (arith, g, e.no_claims c i));
    placed =
        λ f i t job g d live ne. absurd (ground (arith, g, e.no_strings (job_key key_prefix f i)));
  }

  perform-Kept :
      (op : Op) (s : State redis) → Allowed op → Kept env own s → Kept env own (perform env op s)
  unfolding perform get_job
  perform-Kept (enqueue_op now delay job) s a h = enqueue-Kept env own now delay job s a h
  perform-Kept (dequeue_op c now rounds fs) s a h =
      (dequeue_direct-Step env own c now rounds fs s h).kept
  perform-Kept (batch_op c now rounds fs count) s a h =
      (dequeue_batch-Step env own c now rounds fs count s h).kept
  perform-Kept (finish_op c now status result error job) s (o, t) h =
      finish-Kept env own c now status result error job s o t h
  perform-Kept (retry_op c now delay job) s a h = retry-Kept env own c now delay job s a h
  perform-Kept (manual_retry_op c now job) s a h = manual_retry-Kept env own c now job s a h
  perform-Kept (cancel_op c now i) s a h = cancel-Kept env own c now i s h
  perform-Kept (get_op i) s a h = (find_payload-FoundPayload env own s.claims i s.db h).kept
  perform-Kept (progress_op i p) s a h = update_progress-Kept env own s.claims i p s.db h
  perform-Kept (checkpoint_op i d t) s a h =
      update_job_checkpoint-Kept env own s.claims i d t s.db h
  perform-Kept (sweep_op now fs) s a h = do_sweep-Kept env own s.claims now fs s.db h

  run-Kept :
      (ops : List Op) (s : State redis)
      → AllAllowed ops
      → Kept env own s
      → Kept env own (run env ops s)
  unfolding run
  run-Kept [] s a h = h
  run-Kept (op ∷ ops) s (a, more) h = run-Kept ops (perform env op s) more (perform-Kept op s a h)

  -- From an empty Redis on, after any allowed calls of the queue's operations and of the sweeper, in any
  -- order and by any consumers, every stored job that can be read and is not terminal is either an
  -- unacknowledged entry of the stream of its function or in the scheduled set of its function.
  pub run-Located :
      (ops : List Op) (s : State redis) (f i t : String) (job : Job)
      → IsEmpty env s
      → AllAllowed ops
      → redis.get (run env ops s).db.strings (job_key key_prefix f i) ≡ some t
      → from_json env t ≡ ok job
      → is_terminal job.status ≡ false
      → Located env own (run env ops s).db.streams (run env ops s).db.sorted job.id
  run-Located ops s f i t job e a g d live =
      (run-Kept ops s a (IsEmpty-Kept s e)).placed f i t job g d live (λ q. absurd (ground arith))
