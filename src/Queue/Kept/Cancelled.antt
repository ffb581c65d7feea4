-- ===== src/Queue/Kept/Cancelled.antt =====
-- What a cancellation leaves of the job, with the script and without it.
use mathlib.Core.Path.{subst}
use upnext.Prelude.{
  String, ◌≡◌, refl, sym, ap, ◌∙◌, Option, none, some, Bool, true, false, arith, Bool-cases,
  Option-cases, inl, inr,
}
use upnext.Prelude.Result.{Error, Result, ok, err, Result-cases}
use upnext.Domain.Status.{is_terminal}
use upnext.Domain.Job.{Job}
use upnext.Queue.Keys.{function_stream_key, function_dedup_key, job_key, job_index_key}
use upnext.Queue.State.{StreamClaim, Env, Db, to_json, from_json}
use upnext.Queue.Scripts.{
  store, ack, remove_dedup, cancel_script, status_of_payload, is_terminal_status,
}
use upnext.Queue.Operations.{claimed_id}
use upnext.Queue.Lookup.{nonempty}
use upnext.Queue.Cancel.{cancel_atomic, cancel_fallback}
use upnext.Queue.Kept.{Owner, IsOwned, KeptBut}
use upnext.Queue.Kept.Moves.{IsEntryOf}
use upnext.Queue.Kept.Payloads.{exempt_one, take_entry}
use upnext.Queue.Kept.Actions.{ended-Kept, stored_ends, remove_dedup-Kept}

module _ (env : Env) (own : Owner env.key_prefix) where
  open env use {redis, key_prefix}
  open own use {owner}
  open redis use {Streams}

  -- What a cancellation leaves.
  pub record Cancelled (claims : String → String → Option StreamClaim) (job : Job)
      (r : Result Bool × Db redis) : Type 0 where
    pub kept : KeptBut env own none r.1 claims
    pub ends :
        r.0 ≡ ok true
        → (t : String) (x : Job)
        → redis.get r.1.strings (job_key key_prefix (owner job.id) job.id) ≡ some t
        → from_json env t ≡ ok x
        → is_terminal x.status ≡ true

  -- The entry of a claim is in the stream of the function of its job.
  claim_taken :
      (claims : String → String → Option StreamClaim) (c : String) (job : Job) (db : Db redis)
      → KeptBut env own (some job.id) db claims
      → IsOwned env own job
      → (claim : Option StreamClaim)
      → ((x : StreamClaim)
          → claim ≡ some x
          → IsEntryOf env own db.streams x.stream_key x.msg_id job.id)
      → KeptBut env own
          (some job.id)
          (ack redis (function_stream_key key_prefix job.function) (claimed_id claim) db)
          claims
  unfolding ack
  claim_taken claims c job db h o none e = h
  claim_taken claims c job db h o (some x) e =
      let l = e x refl in
      let p = h.streams_ok x.stream_key x.msg_id l.entry l.in_log in
      let same : x.stream_key ≡ function_stream_key key_prefix job.function =
        p.stream_eq
        ∙ ap (λ i. function_stream_key key_prefix (owner i)) l.id_eq
        ∙ ap (function_stream_key key_prefix) (sym o.function_eq) in
      take_entry env own h _ (function_stream_key key_prefix job.function) x.msg_id
        (redis.logged-xack db.streams _ _) (redis.is_live-xack db.streams _ _)
        (subst (λ k. IsEntryOf env own db.streams k x.msg_id job.id) same l)

  -- The cancelled job is stored.
  stored-Cancelled :
      (claims : String → String → Option StreamClaim) (job : Job) (db : Db redis)
      (claim : Option StreamClaim)
      → KeptBut env own none db claims
      → IsOwned env own job
      → is_terminal job.status ≡ true
      → ((x : StreamClaim)
          → claim ≡ some x
          → IsEntryOf env own db.streams x.stream_key x.msg_id job.id)
      → Cancelled claims job (
        ok true,
        remove_dedup redis (function_dedup_key key_prefix job.function) job.key (
            store redis
              (job_key key_prefix job.function job.id)
              (job_index_key key_prefix job.id)
              (to_json env job)
              (ack redis (function_stream_key key_prefix job.function) (claimed_id claim) db)),
      )
  unfolding remove_dedup
  stored-Cancelled claims job db claim h o t e =
      let a = claim_taken claims "" job db (exempt_one env own job.id h) o claim e in
      record {
        kept =
            remove_dedup-Kept env own (function_dedup_key key_prefix job.function) job.key
              (ended-Kept env own job a o t);
        ends = λ q. stored_ends env own job _ o t;
      }

  refused :
      (claims : String → String → Option StreamClaim) (job : Job) (db : Db redis)
      → KeptBut env own none db claims
      → Cancelled claims job (ok false, db)
  refused claims job db h = record { kept = h; ends = λ q. absurd (ground arith) }

  failed_read :
      (claims : String → String → Option StreamClaim) (job : Job) (db : Db redis) (x : Error)
      → KeptBut env own none db claims
      → Cancelled claims job (err x, db)
  failed_read claims job db x h = record { kept = h; ends = λ q. absurd (ground arith) }

  pub cancel_atomic-Cancelled :
      (claims : String → String → Option StreamClaim) (job : Job) (db : Db redis)
      (claim : Option StreamClaim)
      → KeptBut env own none db claims
      → IsOwned env own job
      → is_terminal job.status ≡ true
      → ((x : StreamClaim)
          → claim ≡ some x
          → IsEntryOf env own db.streams x.stream_key x.msg_id job.id)
      → Cancelled claims job
          (cancel_atomic env (job_key key_prefix job.function job.id) claim job db)
  unfolding cancel_atomic cancel_script
  cancel_atomic-Cancelled claims job db claim h o t e =
      let key = job_key key_prefix job.function job.id in
      elim (Option-cases (redis.get db.strings key)) [
        | inl g ↦ rw (cancel_atomic, cancel_script, g) (refused claims job db h)
        | inr (current, g) ↦
            elim (Bool-cases (is_terminal_status (status_of_payload env.json current))) [
              | inl q ↦ rw (cancel_atomic, cancel_script, g, q) (refused claims job db h)
              | inr q ↦
                  rw (cancel_atomic, cancel_script, g, q)
                    (stored-Cancelled claims job db claim h o t e)
            ]
      ]

  pub cancel_fallback-Cancelled :
      (claims : String → String → Option StreamClaim) (job : Job) (db : Db redis)
      (claim : Option StreamClaim)
      → KeptBut env own none db claims
      → IsOwned env own job
      → is_terminal job.status ≡ true
      → ((x : StreamClaim)
          → claim ≡ some x
          → IsEntryOf env own db.streams x.stream_key x.msg_id job.id)
      → Cancelled claims job
          (cancel_fallback env (job_key key_prefix job.function job.id) claim job db)
  unfolding cancel_fallback
  cancel_fallback-Cancelled claims job db claim h o t e =
      let key = job_key key_prefix job.function job.id in
      elim (Option-cases (nonempty (redis.get db.strings key))) [
        | inl g ↦ rw (cancel_fallback, g) (refused claims job db h)
        | inr (current, g) ↦ elim (Result-cases (from_json env current)) [
          | inr (x, d) ↦ rw (cancel_fallback, g, d) (failed_read claims job db x h)
          | inl (now_job, d) ↦ elim (Bool-cases (is_terminal now_job.status)) [
            | inl q ↦ rw (cancel_fallback, g, d, q) (refused claims job db h)
            | inr q ↦ rw (cancel_fallback, g, d, q) (stored-Cancelled claims job db claim h o t e)
          ]
        ]
      ]
