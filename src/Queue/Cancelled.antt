-- ===== src/Queue/Cancelled.antt =====
-- What `cancel` of packages/upnext/src/upnext/engine/queue/redis/queue.py replies and leaves.
use mathlib.Core.Path.{subst⁻¹}
use Prim.Native.String.{◌++◌ as ◌<>◌}
use text.Mathlib.TextLemmas.{append-ne-nil_of_right_ne-nil, cons≢nil, cons-append}
use upnext.Prelude.{
  ℕ, String, ◌≡◌, ◌≢◌, refl, sym, ap, ◌∙◌, Option, none, some, Bool, true, false, str_eq, eq_refl,
  if◌then◌else◌, Bool-cases, ◌⊎◌, Option-cases, inl, inr,
}
use upnext.Prelude.Result.{Result, ok}
use upnext.Value.{str}
use upnext.Domain.Status.{JobStatus, pending, is_terminal, status_value}
use upnext.Domain.Job.{Job, post_init, mark_cancelled, record_transition}
use upnext.Domain.Payload.{to_dict}
use upnext.Domain.RoundTrip.{IsNamed}
use upnext.Queue.Keys.{
  job_key, job_index_key, job_cancelled_key, function_stream_key, function_dedup_key,
  job_key-ne-job_cancelled_key, job_index_key-ne-job_cancelled_key,
}
use upnext.Queue.State.{Env, Db, State, StreamClaim, to_json, pop_stream_claim}
use upnext.Queue.Scripts.{
  store, ack, remove_dedup, remove_from_scheduled, cancel_script, status_of_payload,
  is_terminal_status,
}
use upnext.Queue.Operations.{claimed_id}
use upnext.Queue.Lookup.{
  nonempty, find_job_key_by_id, find_payload, is_cancelled, payload_at, with_key,
}
use upnext.Queue.Cancel.{
  mark, drop_copies, cancel_atomic, cancel_fallback, settle_cancel, cancel_job, cancel_found,
  cancel,
}
use upnext.Queue.Same.{if_eq}
use upnext.Queue.Enqueued.{get-stored, to_json-nonempty, from_json-to_json}
use upnext.Queue.Kept.Moves.{str_of_ne}

is_terminal_status-status_value :
    (st : JobStatus) → is_terminal_status (some (str (status_value st))) ≡ is_terminal st
unfolding is_terminal_status is_terminal
is_terminal_status-status_value pending = refl
is_terminal_status-status_value _ = refl

job_key-nonempty : (key_prefix function job_id : String) → job_key key_prefix function job_id ≢ ""
unfolding job_key
job_key-nonempty key_prefix function job_id =
    let rest : String = "job:" <> (function <> (":" <> job_id)) in
    let ne : (e : ":" <> rest ≡ "") → ⊥ = λ e. cons≢nil (sym (cons-append ":" "" rest) ∙ e) in
    append-ne-nil_of_right_ne-nil key_prefix ne

abbrev is_there : Option String → Bool
is_there none = false
is_there (some v) = true

module _ (env : Env) where
  open env use {redis, key_prefix}

  status-to_json :
      (job : Job)
      → is_terminal_status (status_of_payload env.json (to_json env job)) ≡ is_terminal job.status
  unfolding status_of_payload to_json to_dict
  status-to_json job =
      ap is_terminal_status (rw (status_of_payload, to_json, env.json.loads-dumps _) refl)
      ∙ is_terminal_status-status_value job.status

  nonempty_of_ne :
      (o : Option String) (x : String) → str_eq x "" ≡ false → o ≡ some x → nonempty o ≡ some x
  nonempty_of_ne o x e h = ap nonempty h ∙ rw e refl

  -- Where the index leads to the payload of the job, it is found.
  find_payload-stored :
      (job : Job) (k : String) (db : Db redis)
      → redis.get db.strings (job_index_key key_prefix job.id) ≡ some k
      → str_eq k "" ≡ false
      → redis.get db.strings k ≡ some (to_json env job)
      → find_payload env job.id db ≡ (some (k, to_json env job), db)
  unfolding find_payload
  find_payload-stored job k db i e g =
      let found : find_job_key_by_id env job.id db ≡ (some k, db) =
        rw (find_job_key_by_id, nonempty_of_ne _ k e i, g) refl in
      ap (λ r. (payload_at env r.0 r.1.strings, r.1)) found
      ∙ ap (λ x. (with_key env k x, db))
          (nonempty_of_ne _ _ (str_of_ne _ "" (to_json-nonempty env job)) g)

  -- The cancelled job, stored.
  abbrev cancelled_db : Option StreamClaim → Job → Db redis → Db redis
  cancelled_db claim job db =
      remove_dedup redis (function_dedup_key key_prefix job.function) job.key (
        store redis (job_key key_prefix job.function job.id) (job_index_key key_prefix job.id)
          (to_json env job)
          (ack redis (function_stream_key key_prefix job.function) (claimed_id claim) db))

  cancel_atomic-stored :
      (claim : Option StreamClaim) (old job : Job) (db : Db redis)
      → redis.get db.strings (job_key key_prefix job.function job.id) ≡ some (to_json env old)
      → is_terminal old.status ≡ false
      → cancel_atomic env (job_key key_prefix job.function job.id) claim job db
        ≡ (ok true, cancelled_db claim job db)
  unfolding cancel_atomic cancel_script
  cancel_atomic-stored claim old job db g e =
      rw (cancel_atomic, cancel_script, g, status-to_json old, e) refl

  cancel_fallback-stored :
      (claim : Option StreamClaim) (old job : Job) (db : Db redis)
      → redis.get db.strings (job_key key_prefix job.function job.id) ≡ some (to_json env old)
      → IsNamed old.source
      → is_terminal old.status ≡ false
      → cancel_fallback env (job_key key_prefix job.function job.id) claim job db
        ≡ (ok true, cancelled_db claim job db)
  unfolding cancel_fallback post_init
  cancel_fallback-stored claim old job db g n e =
      rw
        (
          cancel_fallback,
          g,
          str_of_ne _ "" (to_json-nonempty env old),
          from_json-to_json env old n,
          e,
        )
        refl

  -- The marker of the job is there once it is set.
  is_cancelled-mark :
      (job_id : String) (db : Db redis)
      → is_cancelled env job_id (mark env (job_cancelled_key key_prefix job_id) db) ≡ true
  unfolding is_cancelled
  is_cancelled-mark job_id db =
      let k = job_cancelled_key key_prefix job_id in
      elim (Option-cases (redis.get db.strings k)) [
        | inl e ↦ rw (is_cancelled, e, redis.get-set db.strings k "1" k, eq_refl k) refl
        | inr (v, e) ↦ rw (is_cancelled, e, e) refl
      ]

  -- A key other than the marker's keeps its value.
  get-mark :
      (marker_key k : String) (db : Db redis)
      → str_eq marker_key k ≡ false
      → redis.get (mark env marker_key db).strings k ≡ redis.get db.strings k
  get-mark marker_key k db h = elim (Option-cases (redis.get db.strings marker_key)) [
    | inl e ↦ rw (e, redis.get-set db.strings marker_key "1" k, h) refl
    | inr (v, e) ↦ rw e refl
  ]

  -- What is stored of the cancelled job, and its marker as it was.
  get-cancelled_db :
      (claim : Option StreamClaim) (job : Job) (db : Db redis)
      → redis.get (cancelled_db claim job db).strings (job_key key_prefix job.function job.id)
        ≡ some (to_json env job)
  unfolding store ack remove_dedup
  get-cancelled_db claim job db = get-stored env job db.strings

  is_cancelled-cancelled_db :
      (claim : Option StreamClaim) (job : Job) (db : Db redis)
      → is_cancelled env job.id (cancelled_db claim job db) ≡ is_cancelled env job.id db
  unfolding store ack remove_dedup is_cancelled
  is_cancelled-cancelled_db claim job db =
      let k = job_key key_prefix job.function job.id in
      let i = job_index_key key_prefix job.id in
      let m = job_cancelled_key key_prefix job.id in
      let p = to_json env job in
      let same : redis.get (redis.set i k (redis.set k p db.strings)) m ≡ redis.get db.strings m =
        redis.get-set _ i k m
        ∙ rw (str_of_ne i m (job_index_key-ne-job_cancelled_key key_prefix job.id job.id)) (
            redis.get-set db.strings k p m
            ∙ rw
                (str_of_ne k m (job_key-ne-job_cancelled_key key_prefix job.function job.id job.id))
                refl) in
      ap is_there same

  -- What a cancellation of a job that has not ended leaves.
  abbrev Cancelled : Job → Result Bool × State redis → Type 0
  Cancelled job r =
      (r.0 ≡ ok true)
      × (redis.get r.1.db.strings (job_key key_prefix job.function job.id) ≡ some (to_json env job))
      × (is_cancelled env job.id r.1.db ≡ true)

  settle_cancel-stored :
      (claim : Option StreamClaim) (marker : Option String) (job : Job) (db : Db redis)
      (s : State redis)
      → is_cancelled env job.id db ≡ true
      → Cancelled job (settle_cancel env job marker (ok true, cancelled_db claim job db) s)
  unfolding settle_cancel drop_copies remove_from_scheduled is_cancelled
  settle_cancel-stored claim marker job db s h =
      (refl, get-cancelled_db claim job db, is_cancelled-cancelled_db claim job db ∙ h)

  cancel_job-Cancelled :
      (consumer : String) (now : ℕ) (old : Job) (s : State redis)
      → IsNamed old.source
      → redis.get s.db.strings (job_key key_prefix old.function old.id) ≡ some (to_json env old)
      → is_terminal old.status ≡ false
      → Cancelled
          (mark_cancelled env.format now (post_init old))
          (cancel_job env consumer now (job_key key_prefix old.function old.id) (post_init old) s)
  unfolding cancel_job post_init mark_cancelled record_transition pop_stream_claim
  cancel_job-Cancelled consumer now old s n g e =
      let job = mark_cancelled env.format now (post_init old) in
      let k = job_key key_prefix old.function old.id in
      let marker_key = job_cancelled_key key_prefix old.id in
      let db = mark env marker_key s.db in
      let claim = s.claims consumer old.id in
      let there : redis.get db.strings k ≡ some (to_json env old) =
        get-mark marker_key k s.db (
          str_of_ne marker_key k
            (λ h. job_key-ne-job_cancelled_key key_prefix old.function old.id old.id (sym h)))
        ∙ g in
      let reply : Result Bool × Db redis → Type 0 = λ r. Cancelled job (
        settle_cancel env job (redis.get s.db.strings marker_key) r
          (pop_stream_claim env consumer old.id s)) in
      let done =
        settle_cancel-stored claim (redis.get s.db.strings marker_key) job db
          (pop_stream_claim env consumer old.id s) (is_cancelled-mark old.id s.db) in
      subst⁻¹ reply
        (if_eq env.has_scripts (
            cancel_atomic-stored claim old job db there e
            ∙ sym (cancel_fallback-stored claim old job db there n e))
          ∙ cancel_fallback-stored claim old job db there n e)
        done

  -- What a cancellation replies and leaves.
  abbrev pub Answer : Job → (consumer : String) → ℕ → State redis → Type 0
  Answer job consumer now s =
      ((is_terminal job.status ≡ true) × (cancel env consumer now job.id s ≡ (ok false, s)))
      ⊎ ((is_terminal job.status ≡ false)
          × Cancelled (mark_cancelled env.format now (post_init job))
              (cancel env consumer now job.id s))

  -- Where the index leads to the payload of a job and its cron source, if it has one, names a schedule,
  -- a cancellation of a job that has ended replies false and changes nothing; of any other job it
  -- replies true, the payload that is stored then is that of the cancelled job, with the defaults of
  -- construction, and the job counts as cancelled.
  pub cancel_lem :
      (consumer : String) (now : ℕ) (job : Job) (s : State redis)
      → IsNamed job.source
      → redis.get s.db.strings (job_index_key key_prefix job.id)
        ≡ some (job_key key_prefix job.function job.id)
      → redis.get s.db.strings (job_key key_prefix job.function job.id) ≡ some (to_json env job)
      → Answer job consumer now s
  unfolding cancel post_init
  cancel_lem consumer now job s n i g =
      let k = job_key key_prefix job.function job.id in
      let found : find_payload env job.id s.db ≡ (some (k, to_json env job), s.db) =
        find_payload-stored job k s.db i
          (str_of_ne k "" (job_key-nonempty key_prefix job.function job.id)) g in
      let read : cancel env consumer now job.id s ≡ (
          if is_terminal job.status
          then (ok false, s)
          else cancel_job env consumer now k (post_init job) s) =
        ap (cancel_found env consumer now s) found
        ∙ rw (cancel_found, from_json-to_json env job n) refl in
      elim (Bool-cases (is_terminal job.status)) [
        | inl e ↦ inl (e, read ∙ rw e refl)
        | inr e ↦
            let started : cancel env consumer now job.id s
                ≡ cancel_job env consumer now k (post_init job) s =
              read ∙ rw e refl in
            inr (
              e,
              subst⁻¹ (Cancelled (mark_cancelled env.format now (post_init job))) started
                  (cancel_job-Cancelled consumer now job s n g e),
            )
      ]
