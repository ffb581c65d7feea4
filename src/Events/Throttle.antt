-- ===== src/Events/Throttle.antt =====
-- The progress throttle of packages/server/src/server/services/events/processing.py: its bound, and
-- which progress events it lets through.
use upnext.Prelude.{
  ℕ, ◌≤◌, ◌<◌, ◌-◌, ◌+◌, String, ◌≡◌, refl, none, some, [], ◌∷◌, true, false, arith, eq_refl,
  length, ◌⊎◌,
}
use upnext.Events.Contract.{
  JobLifecycleEvent, JobProgressEvent, started, completed, failed, cancelled, retrying, progress,
  checkpoint,
}
use upnext.Events.Store.{Backend}
use upnext.Events.Progress.{
  Settings, ProgressWriteState, Cache, lookup, put, pop, pop_oldest, record_progress_write,
  should_persist_progress, is_none,
}
use upnext.Events.Handlers.{
  Env, St, process_event, handle_job_started, handle_job_completed, handle_job_failed,
  handle_job_cancelled, handle_job_retrying, handle_job_progress, handle_job_checkpoint,
  promote_pending_artifacts,
}

length-put-le :
    (k : String) (v : ProgressWriteState) (c : Cache) → length (put k v c) ≤ length c + 1
unfolding put
length-put-le k v [] = omega arith
length-put-le k v ((j, w) ∷ rest) = ground (arith, length-put-le k v rest)

length-put_old :
    (k : String) (v : ProgressWriteState) (c : Cache)
    → is_none (lookup k c) ≡ false
    → length (put k v c) ≡ length c
unfolding put lookup
length-put_old k v [] h = cc
length-put_old k v ((j, w) ∷ rest) h = ground (arith, length-put_old k v rest)

length-pop-le : (k : String) (c : Cache) → length (pop k c) ≤ length c
unfolding pop
length-pop-le k [] = omega arith
length-pop-le k ((j, w) ∷ rest) = ground (arith, length-pop-le k rest)

lookup-put : (k : String) (v : ProgressWriteState) (c : Cache) → lookup k (put k v c) ≡ some v
unfolding lookup put
lookup-put k v [] = rw (eq_refl k)
lookup-put k v ((j, w) ∷ rest) = ground (arith, lookup-put k v rest)

pub lookup-pop : (k : String) (c : Cache) → lookup k (pop k c) ≡ none
unfolding lookup pop
lookup-pop k [] = refl
lookup-pop k ((j, w) ∷ rest) = ground (arith, lookup-pop k rest)

lookup-record_progress_write :
    (st : Settings) (now : ℕ) (k : String) (p : ℕ) (c : Cache)
    → lookup k (record_progress_write st now k p c)
      ≡ some (record { progress = p; written_at_monotonic = now })
unfolding record_progress_write
lookup-record_progress_write st now k p c = lookup-put k _ _

record_progress_write-bounded :
    (st : Settings) (now : ℕ) (k : String) (p : ℕ) (c : Cache)
    → 0 < st.max_entries
    → length c ≤ st.max_entries
    → length (record_progress_write st now k p c) ≤ st.max_entries
unfolding record_progress_write pop_oldest
record_progress_write-bounded st now k p [] h le =
    let w : ProgressWriteState = record { progress = p; written_at_monotonic = now } in
    ground (arith, length-put-le k w [])
record_progress_write-bounded st now k p (x ∷ rest) h le =
    let w : ProgressWriteState = record { progress = p; written_at_monotonic = now } in
    ground
      (arith, length-put-le k w (x ∷ rest), length-put-le k w rest, length-put_old k w (x ∷ rest))

should_persist-eq-false :
    (st : Settings) (now before : ℕ) (k : String) (p q : ℕ) (c : Cache)
    → lookup k c ≡ some (record { progress = q; written_at_monotonic = before })
    → p < 1_000_000
    → (p - q) + (q - p) < st.min_delta
    → (st.force_interval ≡ 0) ⊎ (now - before < st.force_interval)
    → should_persist_progress st now k p c ≡ false
unfolding should_persist_progress
should_persist-eq-false st now before k p q c l h d f = rw l (ground arith)

module _ (b : Backend) where
  -- With a positive limit, no event makes the throttle's map larger than the limit.
  pub process_event-writes-bounded :
      (env : Env) (e : JobLifecycleEvent) (ws : String) (s : St b)
      → 0 < env.settings.max_entries
      → length s.writes ≤ env.settings.max_entries
      → length (process_event b env e ws s).1.writes ≤ env.settings.max_entries
  unfolding process_event handle_job_started handle_job_completed handle_job_failed
      handle_job_cancelled handle_job_retrying handle_job_progress handle_job_checkpoint
      promote_pending_artifacts
  process_event-writes-bounded env (started e) ws s h le =
      ground (arith, record_progress_write-bounded env.settings env.monotonic e.job_id 0 s.writes)
  process_event-writes-bounded env (completed e) ws s h le =
      ground (arith, length-pop-le e.job_id s.writes)
  process_event-writes-bounded env (failed e) ws s h le =
      ground (arith, length-pop-le e.job_id s.writes)
  process_event-writes-bounded env (cancelled e) ws s h le =
      ground (arith, length-pop-le e.job_id s.writes)
  process_event-writes-bounded env (retrying e) ws s h le = ground arith
  process_event-writes-bounded env (progress e) ws s h le = ground (
    arith,
    length-pop-le e.job_id s.writes,
    record_progress_write-bounded env.settings env.monotonic e.job_id e.progress s.writes,
  )
  process_event-writes-bounded env (checkpoint e) ws s h le = ground arith

  progress_written :
      (env : Env) (e : JobProgressEvent) (ws : String) (s : St b)
      → (process_event b env (progress e) ws s).0 ≡ true
      → lookup e.job_id (process_event b env (progress e) ws s).1.writes
        ≡ some (record { progress = e.progress; written_at_monotonic = env.monotonic })
  unfolding process_event handle_job_progress
  progress_written env e ws s h =
      ground (
        arith,
        lookup-record_progress_write env.settings env.monotonic e.job_id e.progress s.writes,
      )

  progress_dropped :
      (env : Env) (e : JobProgressEvent) (ws : String) (s : St b)
      → should_persist_progress env.settings env.monotonic e.job_id e.progress s.writes ≡ false
      → process_event b env (progress e) ws s ≡ (false, s)
  unfolding process_event handle_job_progress
  progress_dropped env e ws s h = rw h

  -- After a progress write, a later report of less than 100 % that moves by less than the least delta
  -- before the forced interval has passed is dropped: it returns False and changes nothing.
  pub progress_coalesced :
      (env env' : Env) (e e' : JobProgressEvent) (ws : String) (s : St b)
      → (process_event b env (progress e) ws s).0 ≡ true
      → e'.job_id ≡ e.job_id
      → e'.progress < 1_000_000
      → (e'.progress - e.progress) + (e.progress - e'.progress) < env'.settings.min_delta
      → (env'.settings.force_interval ≡ 0)
        ⊎ (env'.monotonic - env.monotonic < env'.settings.force_interval)
      → process_event b env' (progress e') ws (process_event b env (progress e) ws s).1
        ≡ (false, (process_event b env (progress e) ws s).1)
  progress_coalesced env env' e e' ws s h j p d f =
      progress_dropped env' e' ws (process_event b env (progress e) ws s).1 (
        rw j (
          should_persist-eq-false env'.settings env'.monotonic env.monotonic e.job_id e'.progress
            e.progress _ (progress_written env e ws s h) p d f))
