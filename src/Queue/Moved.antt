-- ===== src/Queue/Moved.antt =====
-- What a sweep of packages/upnext/src/upnext/engine/queue/redis/sweeper.py does with due jobs.
use Prim.Native.String.{◌++◌ as ◌<>◌}
use mathlib.Core.List.{Memᴰ}
use mathlib.Core.List.Memᴰ
use mathlib.Core.Path.{subst⁻¹}
use text.Mathlib.TextLemmas.{append_assoc}
use upnext.Prelude.{
  ℕ, String, ◌≡◌, refl, sym, ap, ◌∙◌, Option, none, some, List, [], ◌∷◌, Bool, true, false, ◌&&◌,
  ◌==◌, str_eq, eq_refl, arith, if◌then◌else◌, inl, inr,
}
use upnext.Queue.Keys.{function_stream_key, function_scheduled_key, job_key}
use upnext.Queue.Redis.{Entry}
use upnext.Queue.State.{Env, Db}
use upnext.Queue.Scripts.{add_to_stream, remove_from_scheduled, move_due, move_all, sweep_script}
use upnext.Queue.Sweep.{move_jobs, sweep_fallback, sweep_function}
use upnext.Queue.Same.{if_eq}
use upnext.Queue.Kept.Moves.{next_id-fresh, logged_still}

if_none {ℓ} : {A : Type ℓ} {o : Option A} (b : Bool) → o ≡ none → (if b then none else o) ≡ none
if_none true h = refl
if_none false h = h

module _ (env : Env) where
  open env use {redis, key_prefix}

  -- The job is in the stream of the function and not scheduled.
  pub record Moved (f i : String) (db : Db redis) : Type 0 where
    pub msg_id : ℕ
    pub entry : Entry
    pub in_log : redis.logged db.streams (function_stream_key key_prefix f) msg_id ≡ some entry
    pub id_eq : entry.job_id ≡ i
    pub function_eq : entry.function ≡ f
    pub live : redis.is_live db.streams (function_stream_key key_prefix f) msg_id ≡ true
    pub unscheduled : redis.zscore db.sorted (function_scheduled_key key_prefix f) i ≡ none

  abbrev move_one : (f i : String) → Db redis → Db redis
  move_one f i db =
      move_due redis (function_scheduled_key key_prefix f) (function_stream_key key_prefix f)
        (job_key key_prefix f i) f i db

  move_one-Moved : (f i : String) (db : Db redis) → Moved f i (move_one f i db)
  unfolding move_due add_to_stream remove_from_scheduled
  move_one-Moved f i db =
      let k = function_stream_key key_prefix f in
      let z = function_scheduled_key key_prefix f in
      let here : str_eq k k && redis.next_id db.streams k == redis.next_id db.streams k ≡ true =
        ground (arith, eq_refl k) in
      let same : str_eq z z && str_eq i i ≡ true = ground (arith, eq_refl z, eq_refl i) in
      record {
        msg_id = redis.next_id db.streams k;
        entry = record {
          job_id = i;
          function = f;
          payload = redis.get db.strings (job_key key_prefix f i);
        };
        in_log = redis.logged-xadd db.streams k _ k _ ∙ rw here refl;
        id_eq = refl;
        function_eq = refl;
        live = redis.is_live-xadd db.streams k _ k _ ∙ rw here refl;
        unscheduled = redis.zscore-zrem db.sorted z i z i ∙ rw same refl;
      }

  move_one-keeps : (f i j : String) (db : Db redis) → Moved f i db → Moved f i (move_one f j db)
  unfolding move_due add_to_stream remove_from_scheduled
  move_one-keeps f i j db m =
      let k = function_stream_key key_prefix f in
      let z = function_scheduled_key key_prefix f in
      record {
        msg_id = m.msg_id;
        entry = m.entry;
        in_log = logged_still env db.streams k _ k m.msg_id m.entry m.in_log;
        id_eq = m.id_eq;
        function_eq = m.function_eq;
        live =
            redis.is_live-xadd db.streams k _ k m.msg_id
            ∙ rw (next_id-fresh env db.streams k k m.msg_id m.entry m.in_log) m.live;
        unscheduled =
            redis.zscore-zrem db.sorted z j z i ∙ if_none (str_eq z z && str_eq j i) m.unscheduled;
      }

  move_jobs-keeps :
      (f i : String) (is : List String) (db : Db redis)
      → Moved f i db
      → Moved f i (move_jobs env f is db)
  unfolding move_jobs
  move_jobs-keeps f i [] db m = m
  move_jobs-keeps f i (j ∷ rest) db m = move_jobs-keeps f i rest _ (move_one-keeps f i j db m)

  move_jobs-Moved :
      (f i : String) (is : List String) (db : Db redis)
      → Memᴰ i is
      → Moved f i (move_jobs env f is db)
  unfolding move_jobs
  move_jobs-Moved f i [] db m = absurd (Memᴰ.not-nil m)
  move_jobs-Moved f i (j ∷ rest) db m = elim (Memᴰ.cases_cons m) [
    | inl e ↦
        move_jobs-keeps f i rest _
          (subst⁻¹ (λ x. Moved f i (move_one f x db)) (sym e) (move_one-Moved f i db))
    | inr r ↦ move_jobs-Moved f i rest _ r
  ]

  script_key :
      (f i : String) → key_prefix <> (":job:" <> (f <> (":" <> i))) ≡ job_key key_prefix f i
  unfolding job_key
  script_key f i = ap (λ x. key_prefix <> x) (append_assoc ":" "job:" (f <> (":" <> i)))

  -- The script and the fallback move the same jobs.
  move_all-move_jobs :
      (f : String) (is : List String) (db : Db redis)
      → move_all redis
          (function_scheduled_key key_prefix f)
          (function_stream_key key_prefix f)
          f
          key_prefix
          is
          db
        ≡ move_jobs env f is db
  unfolding move_all move_jobs
  move_all-move_jobs f [] db = refl
  move_all-move_jobs f (i ∷ rest) db =
      ap
        (λ k.
          move_all redis (function_scheduled_key key_prefix f) (function_stream_key key_prefix f) f
            key_prefix rest
            (move_due redis (function_scheduled_key key_prefix f) (function_stream_key key_prefix f)
              k f i db))
        (script_key f i)
      ∙ move_all-move_jobs f rest (move_one f i db)

  sweep_function_eq :
      (now : ℕ) (f : String) (db : Db redis)
      → sweep_function env now f db ≡ sweep_fallback env now f db
  unfolding sweep_function sweep_script sweep_fallback
  sweep_function_eq now f db = if_eq env.has_scripts (
      move_all-move_jobs f
        (redis.zrangebyscore db.sorted (function_scheduled_key key_prefix f) now 100) db)

  -- A sweep of a function, with the script or without, leaves each of its due jobs, of the hundred
  -- that it looks at, in the function's stream as an unacknowledged entry with the job's id and
  -- function, and out of its scheduled set.
  pub sweep_function-Moved :
      (now : ℕ) (f i : String) (db : Db redis)
      → Memᴰ i (redis.zrangebyscore db.sorted (function_scheduled_key key_prefix f) now 100)
      → Moved f i (sweep_function env now f db)
  unfolding sweep_fallback
  sweep_function-Moved now f i db m =
      subst⁻¹ (Moved f i) (sweep_function_eq now f db) (move_jobs-Moved f i _ db m)
