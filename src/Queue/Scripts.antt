-- ===== src/Queue/Scripts.antt =====
-- The Lua scripts of packages/upnext/src/upnext/engine/queue/redis/scripts: enqueue.lua, finish.lua,
-- retry.lua, cancel.lua and sweep.lua, as functions of their KEYS and ARGV. Numbers are passed as
-- numbers; EXPIRE and MAXLEN have no effect here.
use Prim.Native.String.{◌++◌ as ◌<>◌}
use upnext.Prelude.{
  ℕ, ◌+◌, String, Option, none, some, List, [], ◌∷◌, Bool, false, not, ◌&&◌, ◌||◌, ltb, str_eq,
  if◌then◌else◌,
}
use upnext.Value.{Value, str, object, get}
use upnext.Queue.Redis.{Redis, Json}
use upnext.Queue.State.{Db}

-- `current["status"]` after `cjson.decode`; none where the script would stop with an error.
unfoldable pub status_of_payload : Json → String → Option Value
status_of_payload json payload = elim (json.loads payload) [
  | some (object d) ↦ get d "status"
  | some _ ↦ none
  | none ↦ none
]

unfoldable pub is_terminal_status : Option Value → Bool
is_terminal_status (some (str s)) = str_eq s "complete" || str_eq s "failed" || str_eq s "cancelled"
is_terminal_status (some _) = false
is_terminal_status none = false

module _ (redis : Redis) where
  -- Stores the payload and the id index.
  unfoldable pub store : (job_key job_index_key payload : String) → Db redis → Db redis
  store job_key job_index_key payload db = record db {
    strings = redis.set job_index_key job_key (redis.set job_key payload db.strings);
  }

  -- A missing message id is the empty argument.
  unfoldable pub ack : (stream_key : String) → Option ℕ → Db redis → Db redis
  ack stream_key message_id db = record db {
    streams = elim message_id [ none ↦ db.streams | some m ↦ redis.xack stream_key m db.streams ];
  }

  unfoldable pub add_dedup : (dedup_key dedup_value : String) → Db redis → Db redis
  add_dedup dedup_key dedup_value db = record db {
    sets = if str_eq dedup_value "" then db.sets else redis.sadd dedup_key dedup_value db.sets;
  }

  unfoldable pub remove_dedup : (dedup_key dedup_value : String) → Db redis → Db redis
  remove_dedup dedup_key dedup_value db = record db {
    sets = if str_eq dedup_value "" then db.sets else redis.srem dedup_key dedup_value db.sets;
  }

  -- XADD of the fields of a job.
  unfoldable pub add_to_stream :
      (stream_key job_id function : String) → Option String → Db redis → Db redis
  add_to_stream stream_key job_id function payload db = record db {
    streams =
        redis.xadd stream_key (record { job_id = job_id; function = function; payload = payload })
          db.streams;
  }

  unfoldable pub add_to_scheduled : (scheduled_key job_id : String) → ℕ → Db redis → Db redis
  add_to_scheduled scheduled_key job_id score db = record db {
    sorted = redis.zadd scheduled_key job_id score db.sorted;
  }

  unfoldable pub remove_from_scheduled : (scheduled_key job_id : String) → Db redis → Db redis
  remove_from_scheduled scheduled_key job_id db = record db {
    sorted = redis.zrem scheduled_key job_id db.sorted;
  }

  unfoldable pub enqueue_script :
      (dedup_key job_key dest_key job_index_key dedup_value job_data job_id function_name : String)
      → (scheduled_time : ℕ) → Db redis
      → String × Db redis
  unfolding store add_dedup add_to_stream add_to_scheduled
  enqueue_script dedup_key job_key dest_key job_index_key dedup_value job_data job_id function_name
        scheduled_time db =
      if not (str_eq dedup_value "") && redis.sismember db.sets dedup_key dedup_value
      then ("DUPLICATE", db)
      else (
        "OK",
        let db₁ = store job_key job_index_key job_data (add_dedup dedup_key dedup_value db) in
            if ltb 0 scheduled_time
            then add_to_scheduled dest_key job_id scheduled_time db₁
            else add_to_stream dest_key job_id function_name (some job_data) db₁,
      )

  -- The publication is the caller's.
  unfoldable pub finish_script :
      (stream_key job_key job_index_key dedup_key : String)
      → (message_id : Option ℕ) → (job_data dedup_value : String) → Db redis
      → Db redis
  unfolding store ack remove_dedup
  finish_script stream_key job_key job_index_key dedup_key message_id job_data dedup_value db =
      remove_dedup dedup_key dedup_value
        (store job_key job_index_key job_data (ack stream_key message_id db))

  -- `now` is Redis's TIME.
  unfoldable pub retry_script :
      (stream_key job_key dest_key job_index_key : String)
      → (message_id : Option ℕ) → (job_data job_id function_name : String) → (delay now : ℕ)
      → Db redis
      → Db redis
  unfolding store ack add_to_stream add_to_scheduled
  retry_script stream_key job_key dest_key job_index_key message_id job_data job_id function_name
        delay now db =
      let db₁ = store job_key job_index_key job_data (ack stream_key message_id db) in
      if ltb 0 delay
      then add_to_scheduled dest_key job_id (now + delay) db₁
      else add_to_stream dest_key job_id function_name (some job_data) db₁

  unfoldable pub cancel_script :
      Json
      → (stream_key job_key job_index_key dedup_key : String) → (message_id : Option ℕ)
      → (job_data dedup_value : String) → Db redis
      → String × Db redis
  unfolding store ack remove_dedup status_of_payload is_terminal_status
  cancel_script json stream_key job_key job_index_key dedup_key message_id job_data dedup_value db =
      elim (redis.get db.strings job_key) [
        | none ↦ ("MISSING", db)
        | some current ↦
            if is_terminal_status (status_of_payload json current)
            then ("ALREADY_TERMINAL", db)
            else (
              "OK",
              remove_dedup dedup_key dedup_value
                  (store job_key job_index_key job_data (ack stream_key message_id db)),
            )
      ]

  -- Moves one due job; the key of its payload is given.
  unfoldable pub move_due :
      (scheduled_key stream_key job_key function_name job_id : String) → Db redis → Db redis
  unfolding add_to_stream remove_from_scheduled
  move_due scheduled_key stream_key job_key function_name job_id db =
      remove_from_scheduled scheduled_key job_id
        (add_to_stream stream_key job_id function_name (redis.get db.strings job_key) db)

  unfoldable pub move_all :
      (scheduled_key stream_key function_name key_prefix : String)
      → List String
      → Db redis
      → Db redis
  unfolding move_due
  move_all scheduled_key stream_key function_name key_prefix [] db = db
  move_all scheduled_key stream_key function_name key_prefix (job_id ∷ rest) db =
      let job_key = key_prefix <> (":job:" <> (function_name <> (":" <> job_id))) in
      move_all scheduled_key stream_key function_name key_prefix rest
        (move_due scheduled_key stream_key job_key function_name job_id db)

  unfoldable pub sweep_script :
      (scheduled_key stream_key : String)
      → (current_time : ℕ) → (function_name : String) → (batch_size : ℕ) → (key_prefix : String)
      → Db redis
      → Db redis
  unfolding move_all
  sweep_script scheduled_key stream_key current_time function_name batch_size key_prefix db =
      move_all scheduled_key stream_key function_name key_prefix
        (redis.zrangebyscore db.sorted scheduled_key current_time batch_size) db
