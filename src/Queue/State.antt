-- ===== src/Queue/State.antt =====
-- What a `RedisQueue` of packages/upnext/src/upnext/engine/queue/redis/queue.py works on: Redis, the
-- stream claims of each consumer, the token buckets, and the calls that no later step reads.
use upnext.Prelude.{
  ℕ, String, Option, none, some, List, [], ◌∷◌, ◌++◌, Bool, str_eq, ◌&&◌, if◌then◌else◌,
}
use upnext.Prelude.Result.{Result, value_error, or_raise, ◌>>=◌}
use upnext.Value.{object}
use upnext.Domain.Job.{Job, Format}
use upnext.Domain.Payload.{IsoClock, to_dict}
use upnext.Domain.Parse.{as_obj, from_dict}
use upnext.Processor.State.{DispatchReason}
use upnext.Queue.Tokens.{RateLimit, Bucket}
use upnext.Queue.Runnable.{Functions}
use upnext.Queue.Redis.{Redis, Json}

-- `_StreamClaim`, less its time.
pub record StreamClaim : Type 0 where
  pub stream_key : String
  pub msg_id : ℕ

-- The exceptions that queue operations raise.
pub data QueueError : Type 0 where
  duplicate_job_error : String → QueueError
  invalid_status : String → QueueError

pub data Reply (A : Type 0) : Type 0 where
  returned : A → Reply A
  raised : QueueError → Reply A

-- Calls whose effect no other operation of the model reads.
pub data Call : Type 0 where
  publish : (channel status : String) → Call
  incr_worker_pending : String → Call
  decr_worker_pending : String → Call
  record_dispatch_reason : String → DispatchReason → String → Call

-- The queue's settings and what it uses: whether the scripts are loaded, the worker component of
-- each function, the limits in its caches or in Redis, and the text of a status.
pub record Env : Type 1 where
  pub redis : Redis
  pub json : Json
  pub iso : IsoClock
  pub format : Format
  pub key_prefix : String
  pub has_scripts : Bool
  -- What the clock shows when `enqueue` reads it again, and what Redis's TIME shows, after a reading.
  pub read_again : ℕ → ℕ
  pub redis_time : ℕ → ℕ
  pub get_fn_component : String → Option String
  pub functions : Functions
  pub rate_limit : String → Option RateLimit

module _ (redis : Redis) where
  open redis use {Strings, Sets, Sorted, Streams}

  pub record Db : Type 0 where
    pub strings : Strings
    pub sets : Sets
    pub sorted : Sorted
    pub streams : Streams

  -- By consumer: the field `_stream_claims`, by job id, and `_fair_dequeue_cursor`.
  pub record State : Type 0 where
    pub db : Db
    pub claims : String → String → Option StreamClaim
    pub cursors : String → ℕ
    pub buckets : String → Option Bucket
    pub calls : List Call

module _ (env : Env) where
  -- `Job.to_json`
  unfoldable pub to_json : Job → String
  unfolding to_dict
  to_json job = env.json.dumps (object (to_dict env.iso job))

  -- `Job.from_json`
  unfoldable pub from_json : String → Result Job
  from_json text = or_raise (env.json.loads text) value_error >>= as_obj >>= from_dict env.iso

  abbrev pub push : Call → State env.redis → State env.redis
  push c s = record s { calls = s.calls ++ c ∷ [] }

  -- `_set_stream_claim` of a consumer.
  unfoldable pub set_stream_claim :
      (consumer job_id : String) → StreamClaim → State env.redis → State env.redis
  set_stream_claim consumer job_id claim s = record s {
    claims = λ c i. if str_eq consumer c && str_eq job_id i then some claim else s.claims c i;
  }

  -- What `_pop_stream_claim` leaves; it returns `claims consumer job_id`.
  unfoldable pub pop_stream_claim : (consumer job_id : String) → State env.redis → State env.redis
  pop_stream_claim consumer job_id s = record s {
    claims = λ c i. if str_eq consumer c && str_eq job_id i then none else s.claims c i;
  }
