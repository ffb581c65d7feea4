-- ===== src/Queue/Sweep.antt =====
-- `_do_sweep` and `_sweep_fallback` of
-- packages/upnext/src/upnext/engine/queue/redis/sweeper.py, less the cleanup of consumer groups, and
-- how long the sweeper sleeps. Times are in microseconds.
use upnext.Prelude.{ℕ, ◌-◌, String, Option, none, some, List, [], ◌∷◌, min, max, if◌then◌else◌}
use upnext.Queue.Keys.{function_stream_key, function_scheduled_key, job_key}
use upnext.Queue.State.{Env, Db}
use upnext.Queue.Scripts.{move_due, sweep_script}

-- `_compute_sleep_seconds`
unfoldable pub compute_sleep : (now : ℕ) → Option ℕ → ℕ
compute_sleep now none = 3_000_000
compute_sleep now (some next_due) = max 100_000 (min 3_000_000 (next_due - now))

module _ (env : Env) where
  open env use {redis, key_prefix}

  unfoldable pub move_jobs : (function : String) → List String → Db redis → Db redis
  unfolding move_due
  move_jobs function [] db = db
  move_jobs function (job_id ∷ rest) db = move_jobs function rest (
      move_due redis (function_scheduled_key key_prefix function)
        (function_stream_key key_prefix function) (job_key key_prefix function job_id) function
        job_id db)

  unfoldable pub sweep_fallback : (now : ℕ) → (function : String) → Db redis → Db redis
  unfolding move_jobs
  sweep_fallback now function db =
      move_jobs function
        (redis.zrangebyscore db.sorted (function_scheduled_key key_prefix function) now 100) db

  unfoldable pub sweep_function : (now : ℕ) → (function : String) → Db redis → Db redis
  unfolding sweep_script sweep_fallback
  sweep_function now function db =
      if env.has_scripts
      then sweep_script redis (function_scheduled_key key_prefix function)
          (function_stream_key key_prefix function) now function 100 key_prefix db
      else sweep_fallback now function db

  -- For every registered function.
  unfoldable pub do_sweep : (now : ℕ) → List String → Db redis → Db redis
  unfolding sweep_function
  do_sweep now [] db = db
  do_sweep now (f ∷ rest) db = do_sweep now rest (sweep_function now f db)
