-- ===== src/Queue/Kept.antt =====
-- When no job is lost in Redis: the invariant of the keys, sets and streams that
-- packages/upnext/src/upnext/engine/queue/redis/queue.py keeps. `owner` is the function that each job
-- id belongs to.
use upnext.Prelude.{ℕ, String, ◌≡◌, ◌≢◌, Option, none, some, true, false, str_eq}
use upnext.Prelude.Result.{ok}
use upnext.Domain.Status.{is_terminal}
use upnext.Domain.Job.{Job}
use upnext.Queue.Keys.{function_stream_key, function_scheduled_key, job_key, job_index_key}
use upnext.Queue.Redis.{Entry}
use upnext.Queue.State.{StreamClaim, Env, Db, State, from_json}
pub mod Moves
pub mod Steps
pub mod Payloads
pub mod Actions
pub mod Changes
pub mod Delivers
pub mod Dequeues
pub mod Sweeps
pub mod Finds
pub mod Lookups
pub mod Messages
pub mod Copies
pub mod Cancelled
pub mod Cancels
pub mod Run

-- A job id has one function, both have names, and the keys of different ids differ.
pub record Owner (key_prefix : String) : Type 0 where
  pub owner : String → String
  pub distinct :
      (i j : String) → job_key key_prefix (owner i) i ≡ job_key key_prefix (owner j) j → i ≡ j

module _ (env : Env) (own : Owner env.key_prefix) where
  open env use {redis, key_prefix}
  open own use {owner}
  open redis use {Strings, Sorted, Streams}

  pub record HasNames (i : String) : Type 0 where
    pub has_id : str_eq i "" ≡ false
    pub has_function : str_eq (owner i) "" ≡ false

  -- The job belongs to the function of its id.
  pub record IsOwned (job : Job) : Type 0 where
    pub function_eq : job.function ≡ owner job.id
    pub named : HasNames job.id

  pub record IsProper (k : String) (e : Entry) : Type 0 where
    pub stream_eq : k ≡ function_stream_key key_prefix (owner e.job_id)
    pub function_eq : e.function ≡ owner e.job_id
    pub named : HasNames e.job_id

  -- The job is in the stream of its function, not yet acknowledged, or it is scheduled.
  pub data Located (streams : Streams) (sorted : Sorted) (i : String) : Type 0 where
    streamed :
        (m : ℕ) (e : Entry)
        → redis.logged streams (function_stream_key key_prefix (owner i)) m ≡ some e
        → e.job_id ≡ i
        → redis.is_live streams (function_stream_key key_prefix (owner i)) m ≡ true
        → Located streams sorted i
    scheduled :
        (score : ℕ)
        → redis.zscore sorted (function_scheduled_key key_prefix (owner i)) i ≡ some score
        → Located streams sorted i

  -- Every payload that can be read is that of an owned job, under its key.
  abbrev pub StringsOk : Strings → Type 0
  StringsOk strings =
      ((f i t : String) (job : Job)
        → redis.get strings (job_key key_prefix f i) ≡ some t
        → from_json env t ≡ ok job
        → (job_key key_prefix f i ≡ job_key key_prefix job.function job.id) × IsOwned job)
      × ((i k : String)
          → redis.get strings (job_index_key key_prefix i) ≡ some k
          → (f : String) × (j : String) × (k ≡ job_key key_prefix f j))

  abbrev pub StreamsOk : Streams → Type 0
  StreamsOk streams =
      (k : String) (m : ℕ) (e : Entry) → redis.logged streams k m ≡ some e → IsProper k e

  abbrev pub SortedOk : Sorted → Type 0
  SortedOk sorted =
      (k i : String) (n : ℕ)
      → redis.zscore sorted k i ≡ some n
      → (k ≡ function_scheduled_key key_prefix (owner i)) × HasNames i

  -- A claim of a job is that of an entry of the job.
  abbrev pub ClaimsOk : Streams → (String → String → Option StreamClaim) → Type 0
  ClaimsOk streams claims =
      (c i : String) (claim : StreamClaim)
      → claims c i ≡ some claim
      → (e : Entry) × (redis.logged streams claim.stream_key claim.msg_id ≡ some e) × (e.job_id ≡ i)

  -- Every stored job that is not terminal has a place, but for the exempt one.
  abbrev pub PlacedBut : Option String → Strings → Streams → Sorted → Type 0
  PlacedBut exempt strings streams sorted =
      (f i t : String) (job : Job)
      → redis.get strings (job_key key_prefix f i) ≡ some t
      → from_json env t ≡ ok job
      → is_terminal job.status ≡ false
      → exempt ≢ some job.id
      → Located streams sorted job.id

  pub record KeptBut (exempt : Option String) (db : Db redis)
      (claims : String → String → Option StreamClaim) : Type 0 where
    pub strings_ok : StringsOk db.strings
    pub streams_ok : StreamsOk db.streams
    pub sorted_ok : SortedOk db.sorted
    pub claims_ok : ClaimsOk db.streams claims
    pub placed : PlacedBut exempt db.strings db.streams db.sorted

  -- Every stored job that is not terminal can be reached by a consumer or the sweeper.
  abbrev pub Kept : State redis → Type 0
  Kept s = KeptBut none s.db s.claims
