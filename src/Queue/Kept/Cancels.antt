-- ===== src/Queue/Kept/Cancels.antt =====
-- Cancelling keeps every other job.
use mathlib.Core.Path.{subst⁻¹}
use upnext.Prelude.{
  ℕ, String, ◌≡◌, refl, Option, none, some, Bool, true, false, if◌then◌else◌, Bool-cases,
  Option-cases, inl, inr,
}
use upnext.Prelude.Result.{Result, ok, err, Result-cases}
use upnext.Domain.Status.{is_terminal}
use upnext.Domain.Job.{Job, mark_cancelled}
use upnext.Queue.Keys.{job_key, job_cancelled_key}
use upnext.Queue.State.{StreamClaim, Env, Db, State, from_json, pop_stream_claim}
use upnext.Queue.Lookup.{find_payload}
use upnext.Queue.Cancel.{
  mark, unmark, cancel_atomic, cancel_fallback, settle_cancel, cancel_job, cancel_found, cancel,
}
use upnext.Queue.Kept.{Owner, IsOwned, KeptBut, Kept}
use upnext.Queue.Kept.Payloads.{set_marker, delete_marker}
use upnext.Queue.Kept.Actions.{claim_entry}
use upnext.Queue.Kept.Changes.{pop-Kept}
use upnext.Queue.Kept.Finds.{find_payload-FoundPayload, read_found}
use upnext.Queue.Kept.Copies.{drop_copies-Kept}
use upnext.Queue.Kept.Cancelled.{Cancelled, cancel_atomic-Cancelled, cancel_fallback-Cancelled}

module _ (env : Env) (own : Owner env.key_prefix) where
  open env use {redis, key_prefix}
  open own use {owner}
  open redis use {Streams}

  mark-Kept :
      (claims : String → String → Option StreamClaim) (i : String) (db : Db redis)
      → KeptBut env own none db claims
      → KeptBut env own none (mark env (job_cancelled_key key_prefix i) db) claims
  mark-Kept claims i db h =
      elim (Option-cases (redis.get db.strings (job_cancelled_key key_prefix i))) [
        | inl e ↦ rw (mark, e) (set_marker env own h i "1")
        | inr (v, e) ↦ rw (mark, e) h
      ]

  unmark-Kept :
      (claims : String → String → Option StreamClaim) (o : Option String) (i : String)
      (db : Db redis)
      → KeptBut env own none db claims
      → KeptBut env own none (unmark env o (job_cancelled_key key_prefix i) db) claims
  unmark-Kept claims none i db h = delete_marker env own h i
  unmark-Kept claims (some v) i db h = h

  settle-Kept :
      (job : Job) (marker : Option String) (r : Result Bool × Db redis) (s : State redis)
      → Cancelled env own s.claims job r
      → Kept env own (settle_cancel env job marker r s).1
  unfolding settle_cancel
  settle-Kept job marker (err e, db) s c = c.kept
  settle-Kept job marker (ok false, db) s c = unmark-Kept s.claims marker job.id db c.kept
  settle-Kept job marker (ok true, db) s c =
      drop_copies-Kept env own s.claims job db c.kept (c.ends refl)

  if_either :
      {claims : String → String → Option StreamClaim} {job : Job} {x y : Result Bool × Db redis}
      (b : Bool)
      → Cancelled env own claims job x
      → Cancelled env own claims job y
      → Cancelled env own claims job (if b then x else y)
  if_either true c d = c
  if_either false c d = d

  cancel_job-Kept :
      (consumer : String) (now : ℕ) (k : String) (job : Job) (s : State redis)
      → k ≡ job_key key_prefix job.function job.id
      → IsOwned env own job
      → Kept env own s
      → Kept env own (cancel_job env consumer now k job s).1
  unfolding cancel_job mark_cancelled is_terminal
  cancel_job-Kept consumer now k job₀ s q o₀ h =
      let job = mark_cancelled env.format now job₀ in
      let o : IsOwned env own job = record { function_eq = o₀.function_eq; named = o₀.named } in
      let s' = pop_stream_claim env consumer job.id s in
      let claim = s.claims consumer job.id in
      let marker_key = job_cancelled_key key_prefix job.id in
      let db = mark env marker_key s'.db in
      let m = mark-Kept s'.claims job.id s'.db (pop-Kept env own consumer job.id s s.db h) in
      let e = claim_entry env own job.id consumer h in
      let c : Cancelled env own s'.claims job (
          if env.has_scripts
          then cancel_atomic env k claim job db
          else cancel_fallback env k claim job db) =
        subst⁻¹
          (λ x. Cancelled env own s'.claims job (
            if env.has_scripts
            then cancel_atomic env x claim job db
            else cancel_fallback env x claim job db))
          q
          (if_either env.has_scripts
            (cancel_atomic-Cancelled env own s'.claims job db claim m o refl e)
            (cancel_fallback-Cancelled env own s'.claims job db claim m o refl e)) in
      settle-Kept job (redis.get s'.db.strings marker_key) _ s' c

  pub cancel-Kept :
      (consumer : String) (now : ℕ) (i : String) (s : State redis)
      → Kept env own s
      → Kept env own (cancel env consumer now i s).1
  unfolding cancel
  cancel-Kept consumer now i s h =
      let (found, db) = find_payload env i s.db in
      let a = find_payload-FoundPayload env own s.claims i s.db h in
      elim (Option-cases found) [
        | inl e ↦ rw (cancel, e, cancel_found) a.kept
        | inr ((k, p), e) ↦ elim (Result-cases (from_json env p)) [
          | inr (x, d) ↦ rw (cancel, e, cancel_found, d) a.kept
          | inl (job, d) ↦ elim (Bool-cases (is_terminal job.status)) [
            | inl t ↦ rw (cancel, e, cancel_found, d, t) a.kept
            | inr t ↦
                let (q, o, l) = read_found env own s.claims k p job db a.kept (a.stored k p e) d in
                rw (cancel, e, cancel_found, d, t)
                  (cancel_job-Kept consumer now k job (record s { db = db }) q o a.kept)
          ]
        ]
      ]
