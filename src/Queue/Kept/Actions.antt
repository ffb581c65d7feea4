-- ===== src/Queue/Kept/Actions.antt =====
-- The parts of the operations that store, place and acknowledge a job keep every other job.
use mathlib.Core.Path.{subst⁻¹}
use upnext.Prelude.{
  ℕ, String, ◌≡◌, refl, sym, ap, ◌∙◌, Option, none, some, Bool, true, false, if◌then◌else◌,
}
use upnext.Prelude.Result.{ok}
use upnext.Domain.Status.{is_terminal}
use upnext.Domain.Job.{Job}
use upnext.Queue.Keys.{
  function_stream_key, function_scheduled_key, job_key, job_index_key, job_key-ne-job_index_key,
}
use upnext.Queue.State.{StreamClaim, Env, Db, to_json, from_json}
use upnext.Queue.Scripts.{store, ack, add_dedup, remove_dedup, add_to_stream, add_to_scheduled}
use upnext.Queue.Operations.{claimed_id, claimed_stream}
use upnext.Queue.Kept.{Owner, IsOwned, KeptBut}
use upnext.Queue.Kept.Moves.{IsEntryOf, Located-added, Located-scheduled, some-injective}
use upnext.Queue.Kept.Steps.{from_json-to_json_same, set_sets, xadd-Kept, zadd-Kept}
use upnext.Queue.Kept.Payloads.{set_index, take_entry, close_placed, close_ended, set_payload}
use upnext.Queue.Kept.Lookups.{own_key, get_other, get_same}

module _ (env : Env) (own : Owner env.key_prefix) where
  open env use {redis, key_prefix}
  open own use {owner}

  -- What is stored under the key of a terminal job reads back as one.
  pub stored_ends :
      (job : Job) (db : Db redis)
      → IsOwned env own job
      → is_terminal job.status ≡ true
      → (t : String) (r : Job)
      → redis.get
          (store redis
            (job_key key_prefix job.function job.id)
            (job_index_key key_prefix job.id)
            (to_json env job)
            db).strings
          (job_key key_prefix (owner job.id) job.id)
        ≡ some t
      → from_json env t ≡ ok r
      → is_terminal r.status ≡ true
  unfolding store
  stored_ends job db o e t r g d =
      let there =
        ap (redis.get _) (own_key env own job.id job refl o)
        ∙ get_other env own _ _ _ _
            (λ q. job_key-ne-job_index_key key_prefix job.function job.id job.id (sym q))
        ∙ get_same env own _ _ _ in
      let same : to_json env job ≡ t = some-injective (sym there ∙ g) in
      ap is_terminal
        (from_json-to_json_same env job r (subst⁻¹ (λ x. from_json env x ≡ ok r) same d)).2
      ∙ e

  module _ {claims : String → String → Option StreamClaim} {db : Db redis} where
    pub store-Kept :
        (job : Job)
        → KeptBut env own (some job.id) db claims
        → IsOwned env own job
        → KeptBut env own
            (some job.id)
            (store redis
              (job_key key_prefix job.function job.id)
              (job_index_key key_prefix job.id)
              (to_json env job)
              db)
            claims
    unfolding store
    store-Kept job h o = set_index env own (set_payload env own job h o) job.id job.function job.id

    -- A terminal job needs no place.
    pub ended-Kept :
        (job : Job)
        → KeptBut env own (some job.id) db claims
        → IsOwned env own job
        → is_terminal job.status ≡ true
        → KeptBut env own none
            (store redis
              (job_key key_prefix job.function job.id)
              (job_index_key key_prefix job.id)
              (to_json env job)
              db)
            claims
    ended-Kept job h o t = close_ended env own (store-Kept job h o) (stored_ends job _ o t)

    -- The entry of a claim of the exempt job.
    pub ack-Kept :
        (i k : String) (claim : Option StreamClaim)
        → KeptBut env own (some i) db claims
        → ((c : StreamClaim)
            → claim ≡ some c
            → IsEntryOf env own db.streams c.stream_key c.msg_id i)
        → KeptBut env own (some i) (ack redis (claimed_stream claim k) (claimed_id claim) db) claims
    unfolding ack
    ack-Kept i k none h e = h
    ack-Kept i k (some claim) h e =
        take_entry env own h _ claim.stream_key claim.msg_id (redis.logged-xack db.streams _ _)
          (redis.is_live-xack db.streams _ _) (e claim refl)

    -- The claim that the invariant speaks of.
    pub claim_entry :
        (i c : String) {x : Option String}
        → KeptBut env own x db claims
        → (claim : StreamClaim) → claims c i ≡ some claim
        → IsEntryOf env own db.streams claim.stream_key claim.msg_id i
    claim_entry i c h claim q =
        let (e, l, g) = h.claims_ok c i claim q in record { entry = e; in_log = l; id_eq = g }

    -- The job is put in its stream, or into the scheduled set.
    pub placed-Kept :
        (job : Job) (delayed : Bool) (score : ℕ) (payload : Option String)
        → KeptBut env own (some job.id) db claims
        → IsOwned env own job
        → KeptBut env own none
            (if delayed
              then add_to_scheduled redis
                  (function_scheduled_key key_prefix job.function)
                  job.id
                  score
                  db
              else add_to_stream redis
                  (function_stream_key key_prefix job.function)
                  job.id
                  job.function
                  payload
                  db)
            claims
    unfolding add_to_stream add_to_scheduled
    placed-Kept job true score payload h o =
        let q = ap (function_scheduled_key key_prefix) o.function_eq in
        close_placed env own (zadd-Kept env own h _ job.id score q o.named)
          (Located-scheduled env own db.streams db.sorted _ job.id score q)
    placed-Kept job false score payload h o =
        let q = ap (function_stream_key key_prefix) o.function_eq in
        close_placed env own
          (xadd-Kept env own h _ _
            (record { stream_eq = q; function_eq = o.function_eq; named = o.named }))
          (Located-added env own db.streams db.sorted _ _ job.id q refl)

    pub add_dedup-Kept :
        (k v : String) {x : Option String}
        → KeptBut env own x db claims
        → KeptBut env own x (add_dedup redis k v db) claims
    unfolding add_dedup
    add_dedup-Kept k v h = set_sets env own h _

    pub remove_dedup-Kept :
        (k v : String) {x : Option String}
        → KeptBut env own x db claims
        → KeptBut env own x (remove_dedup redis k v db) claims
    unfolding remove_dedup
    remove_dedup-Kept k v h = set_sets env own h _
