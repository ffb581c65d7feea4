-- ===== src/Events/Documents.antt =====
-- The job documents that the handlers of
-- packages/server/src/server/services/events/processing.py leave in the store.
use upnext.Prelude.{
  ℕ, String, ◌≡◌, ◌≢◌, refl, Option, none, some, Option-cases, inl, inr, Bool, true, false, arith,
  Bool-cases, eq_iff,
}
use upnext.Domain.Status.{is_terminal}
use upnext.Events.Contract.{
  JobLifecycleEvent, started, completed, failed, cancelled, retrying, progress, checkpoint,
  event_job_id,
}
use upnext.Events.Rows.{JobRow}
use upnext.Events.Store.{Backend, stamped, get_by_id}
use upnext.Events.Updates.{
  started_row, started_record, completed_row, completed_record, failed_row, failed_record,
  cancelled_row, cancelled_record, retrying_row,
}
use upnext.Events.Handlers.{Env, St, find, process_event}
use upnext.Events.Outcome.{outcome, commit, planned, passes, jobs-process_event}

abbrev pub present : Option ℕ → Bool
present none = false
present (some t) = true

-- A terminal row has its completion time.
abbrev pub Closed : JobRow → Type 0
Closed r = is_terminal r.status ≡ true → present r.completed_at ≡ true

-- The found row is the one of the job and the workspace.
abbrev pub Fits : String → String → Option JobRow → Type 0
Fits id ws found = (r : JobRow) → found ≡ some r → (r.id ≡ id) × (r.workspace_id ≡ ws)

outcome-Fits :
    (iso : ℕ → String) (now : ℕ) (ws : String) (e : JobLifecycleEvent) (found : Option JobRow)
    → Fits (event_job_id e) ws found
    → Fits (event_job_id e) ws (outcome iso now ws e found)
unfolding outcome event_job_id started_row started_record completed_row completed_record failed_row
    failed_record cancelled_row cancelled_record retrying_row
outcome-Fits iso now ws (started e) none h r p = ground arith
outcome-Fits iso now ws (started e) (some x) h r p = ground (arith, h x refl)
outcome-Fits iso now ws (completed e) none h r p = ground arith
outcome-Fits iso now ws (completed e) (some x) h r p = ground (arith, h x refl)
outcome-Fits iso now ws (failed e) none h r p = ground arith
outcome-Fits iso now ws (failed e) (some x) h r p = ground (arith, h x refl)
outcome-Fits iso now ws (cancelled e) none h r p = ground arith
outcome-Fits iso now ws (cancelled e) (some x) h r p = ground (arith, h x refl)
outcome-Fits iso now ws (retrying e) none h r p = ground arith
outcome-Fits iso now ws (retrying e) (some x) h r p = ground (arith, h x refl)
outcome-Fits iso now ws (progress e) none h r p = ground arith
outcome-Fits iso now ws (progress e) (some x) h r p = ground (arith, h x refl)
outcome-Fits iso now ws (checkpoint e) none h r p = ground arith
outcome-Fits iso now ws (checkpoint e) (some x) h r p = ground (arith, h x refl)

outcome-Closed :
    (iso : ℕ → String) (now : ℕ) (ws : String) (e : JobLifecycleEvent) (found : Option JobRow)
    → ((r : JobRow) → found ≡ some r → Closed r)
    → (r : JobRow) → outcome iso now ws e found ≡ some r
    → Closed r
unfolding outcome started_row started_record completed_row completed_record failed_row failed_record
    cancelled_row cancelled_record retrying_row is_terminal
outcome-Closed iso now ws (started e) none h r p t = ground arith
outcome-Closed iso now ws (started e) (some x) h r p t = ground (arith, h x refl)
outcome-Closed iso now ws (completed e) none h r p t = ground arith
outcome-Closed iso now ws (completed e) (some x) h r p t = ground (arith, h x refl)
outcome-Closed iso now ws (failed e) none h r p t = ground arith
outcome-Closed iso now ws (failed e) (some x) h r p t = ground (arith, h x refl)
outcome-Closed iso now ws (cancelled e) none h r p t = ground arith
outcome-Closed iso now ws (cancelled e) (some x) h r p t = ground (arith, h x refl)
outcome-Closed iso now ws (retrying e) none h r p t = ground arith
outcome-Closed iso now ws (retrying e) (some x) h r p t = ground (arith, h x refl)
outcome-Closed iso now ws (progress e) none h r p t = ground arith
outcome-Closed iso now ws (progress e) (some x) h r p t = ground (arith, h x refl)
outcome-Closed iso now ws (checkpoint e) none h r p t = ground arith
outcome-Closed iso now ws (checkpoint e) (some x) h r p t = ground (arith, h x refl)

module _ (b : Backend) where
  -- Every document lies under its own job ID, and a terminal one has its completion time.
  pub record IsValid (t : b.Table) : Type 0 where
    pub keyed : (id : String) (r : JobRow) → b.read t id ≡ some r → r.id ≡ id
    pub closed : (id : String) (r : JobRow) → b.read t id ≡ some r → Closed r

  get_by_id-eq-some :
      (t : b.Table) (id ws : String) (r : JobRow)
      → get_by_id b t id ws ≡ some r
      → (b.read t id ≡ some r) × (r.workspace_id ≡ ws)
  unfolding get_by_id
  get_by_id-eq-some t id ws r p = ground (arith, eq_iff r.workspace_id ws)

  pub found-Fits : (t : b.Table) (id ws : String) → IsValid t → Fits id ws (get_by_id b t id ws)
  found-Fits t id ws v r p = let (q, w) = get_by_id-eq-some t id ws r p in (v.keyed id r q, w)

  commit-IsValid :
      (now : ℕ) (o : Option JobRow) (t : b.Table)
      → IsValid t
      → ((r : JobRow) → o ≡ some r → Closed r)
      → IsValid (commit b now o t)
  commit-IsValid now none t v c = v
  commit-IsValid now (some x) t v c = record {
    keyed =
        λ id r p. ground (arith, b.read-write t (stamped now x) id, eq_iff x.id id, v.keyed id r);
    closed = λ id r p q. ground (arith, b.read-write t (stamped now x) id, v.closed id r, c x refl);
  }

  -- Every event keeps the documents valid: each lies under its own job ID, and each with a terminal
  -- status has its completion time.
  pub process_event-IsValid :
      (env : Env) (e : JobLifecycleEvent) (ws : String) (s : St b)
      → IsValid s.jobs
      → IsValid (process_event b env e ws s).1.jobs
  process_event-IsValid env e ws s v =
      rw jobs-process_event (elim (Bool-cases (passes env e s.writes)) [
        | inl p ↦ rw p (
            commit-IsValid env.now (planned b env e ws s) s.jobs v (
              outcome-Closed b.isoformat env.now ws e _
                (λ r q. v.closed _ r (get_by_id-eq-some s.jobs (event_job_id e) ws r q).0)))
        | inr p ↦ rw p v
      ])

  -- An event leaves the documents of all other jobs as they were.
  pub read-process_event_ne :
      (env : Env) (e : JobLifecycleEvent) (ws : String) (s : St b) (id : String)
      → IsValid s.jobs
      → id ≢ event_job_id e
      → b.read (process_event b env e ws s).1.jobs id ≡ b.read s.jobs id
  read-process_event_ne env e ws s id v ne =
      rw jobs-process_event (elim (Bool-cases (passes env e s.writes)) [
        | inl p ↦ rw p (elim (Option-cases (planned b env e ws s)) [
          | inl q ↦ rw q refl
          | inr (r, q) ↦ rw q (
              ground (
                arith,
                b.read-write s.jobs (stamped env.now r) id,
                eq_iff r.id id,
                (outcome-Fits b.isoformat env.now ws e _ (found-Fits s.jobs (event_job_id e) ws v) r
                    q).0,
              ))
        ])
        | inr p ↦ rw p refl
      ])

  -- What the repository finds after an event whose planned row is written.
  pub find-process_event :
      (env : Env) (e : JobLifecycleEvent) (ws : String) (s : St b) (r : JobRow)
      → IsValid s.jobs
      → passes env e s.writes ≡ true
      → planned b env e ws s ≡ some r
      → find b (process_event b env e ws s).1 (event_job_id e) ws ≡ some (stamped env.now r)
  unfolding get_by_id
  find-process_event env e ws s r v p q =
      rw (jobs-process_event, p, q)
        (let f =
            outcome-Fits b.isoformat env.now ws e _ (found-Fits s.jobs (event_job_id e) ws v) r q in
          ground (
            arith,
            b.read-write s.jobs (stamped env.now r) (event_job_id e),
            f,
            eq_iff r.id (event_job_id e),
            eq_iff r.workspace_id ws,
          ))
