-- ===== src/Queue/Kept/Finds.antt =====
-- Looking a job up by its id, and writing it back, keep every job.
use mathlib.Core.Path.{subst, subst⁻¹}
use upnext.Prelude.{
  ℕ, String, ◌≡◌, refl, sym, ap, ◌∙◌, Option, none, some, false, ◌==◌, str_eq, arith, Bool-cases,
  Option-cases, inl, inr,
}
use upnext.Prelude.Result.{ok, Result-cases}
use upnext.Value.{Fields, end, field}
use upnext.Domain.Status.{is_terminal}
use upnext.Domain.Job.{Job}
use upnext.Queue.Keys.{job_key, job_index_key}
use upnext.Queue.State.{StreamClaim, Env, Db, to_json, from_json}
use upnext.Queue.Lookup.{
  nonempty, recover_job_key, find_job_key_by_id, find_payload, payload_at, put_payload,
  update_progress, update_job_checkpoint,
}
use upnext.Queue.Kept.{Owner, HasNames, IsOwned, Located, KeptBut}
use upnext.Queue.Kept.Moves.{some-injective}
use upnext.Queue.Kept.Steps.{from_json-to_json_same}
use upnext.Queue.Kept.Payloads.{
  exempt_one, set_index, delete_index, close_placed, close_ended, set_payload,
}
use upnext.Queue.Kept.Lookups.{own_key, get_same}

pub nonempty-some : (o : Option String) (s : String) → nonempty o ≡ some s → o ≡ some s
nonempty-some none s h = absurd (ground arith)
nonempty-some (some t) s h = elim (Bool-cases (str_eq t "")) [
  | inl e ↦ absurd (ground (arith, rw e at h))
  | inr e ↦ rw e at h
]

module _ (env : Env) (own : Owner env.key_prefix) where
  open env use {redis, key_prefix}
  open own use {owner}

  -- The key is that of a payload.
  abbrev pub IsJobKey : String → Type 0
  IsJobKey k = (f : String) × (j : String) × (k ≡ job_key key_prefix f j)

  module _ (claims : String → String → Option StreamClaim) where
    -- What a search finds, and leaves.
    record Found (r : Option String × Db redis) : Type 0 where
      kept : KeptBut env own none r.1 claims
      form : (k : String) → r.0 ≡ some k → IsJobKey k

    recover_job_key-Found :
        (i : String) (db : Db redis)
        → KeptBut env own none db claims
        → Found (recover_job_key env i db)
    unfolding recover_job_key
    recover_job_key-Found i db h =
        elim (Option-cases (redis.scan_job_key key_prefix i db.strings)) [
          | inl e ↦
              rw (recover_job_key, e) (record { kept = h; form = λ k q. absurd (ground arith) })
          | inr (k, e) ↦
              let (f, q) = redis.scan_job_key_form key_prefix i k db.strings e in
              rw (recover_job_key, e)
                (record {
                  kept =
                      subst⁻¹
                        (λ x.
                          KeptBut env own none
                            (record db {
                              strings = redis.set (job_index_key key_prefix i) x db.strings;
                            })
                            claims)
                        q (set_index env own h i f i);
                  form = λ l g. (f, i, sym (some-injective g) ∙ q);
                })
        ]

    find_job_key_by_id-Found :
        (i : String) (db : Db redis)
        → KeptBut env own none db claims
        → Found (find_job_key_by_id env i db)
    unfolding find_job_key_by_id
    find_job_key_by_id-Found i db h =
        elim (Option-cases (nonempty (redis.get db.strings (job_index_key key_prefix i)))) [
          | inl e ↦ rw (find_job_key_by_id, e) (recover_job_key-Found i db h)
          | inr (k, e) ↦ elim (Option-cases (redis.get db.strings k)) [
            | inl g ↦
                rw (find_job_key_by_id, e, g) (recover_job_key-Found i _ (delete_index env own h i))
            | inr (p, g) ↦
                rw (find_job_key_by_id, e, g)
                  (record {
                    kept = h;
                    form = λ l q.
                        subst IsJobKey (some-injective q)
                          (h.strings_ok.1 i k (nonempty-some _ k e));
                  })
          ]
        ]

    -- What the search for a payload finds, and leaves.
    pub record FoundPayload (r : Option (String × String) × Db redis) : Type 0 where
      pub kept : KeptBut env own none r.1 claims
      pub stored :
          (k p : String) → r.0 ≡ some (k, p) → IsJobKey k × (redis.get r.1.strings k ≡ some p)

    payload_found :
        (found : Option String) (db : Db redis)
        → ((k : String) → found ≡ some k → IsJobKey k)
        → (k p : String) → payload_at env found db.strings ≡ some (k, p)
        → IsJobKey k × (redis.get db.strings k ≡ some p)
    payload_found none db f k p e = absurd (ground arith)
    payload_found (some l) db f k p e = elim (Option-cases (nonempty (redis.get db.strings l))) [
      | inl g ↦ absurd (ground (arith, rw g at e))
      | inr (q, g) ↦
          let same : (l, q) ≡ (k, p) = some-injective (rw g at e) in
          let lk : l ≡ k = ap (λ x. x.0) same in
          (
            subst IsJobKey lk (f l refl),
            ap (redis.get db.strings) (sym lk) ∙ nonempty-some _ q g ∙ ap (λ x. some x.1) same,
          )
    ]

    pub find_payload-FoundPayload :
        (i : String) (db : Db redis)
        → KeptBut env own none db claims
        → FoundPayload (find_payload env i db)
    unfolding find_payload
    find_payload-FoundPayload i db h =
        let (found, db') = find_job_key_by_id env i db in
        let a = find_job_key_by_id-Found i db h in
        record { kept = a.kept; stored = payload_found found db' a.form }

    -- A job may be written back under its key, if it has a place or is terminal.
    pub write_back :
        (job : Job) (db : Db redis)
        → KeptBut env own none db claims
        → IsOwned env own job
        → (is_terminal job.status ≡ false → Located env own db.streams db.sorted job.id)
        → KeptBut env own none
            (put_payload env (job_key key_prefix job.function job.id) job db)
            claims
    write_back job db h o l =
        let w = set_payload env own job (exempt_one env own job.id h) o in
        elim (Bool-cases (is_terminal job.status)) [
          | inr e ↦ close_placed env own w (l e)
          | inl e ↦ close_ended env own w (λ t r g d.
              let there =
                ap (redis.get _) (own_key env own job.id job refl o)
                ∙ get_same env own db.strings _ (to_json env job) in
              let same : to_json env job ≡ t = some-injective (sym there ∙ g) in
              ap is_terminal
                (from_json-to_json_same env job r (subst⁻¹ (λ x. from_json env x ≡ ok r) same d)).2
              ∙ e)
        ]

    -- What a found payload reads back as is an owned job under its key, with a place or an end.
    pub read_found :
        (k p : String) (job : Job) (db : Db redis)
        → KeptBut env own none db claims
        → IsJobKey k × (redis.get db.strings k ≡ some p)
        → from_json env p ≡ ok job
        → (k ≡ job_key key_prefix job.function job.id)
          × IsOwned env own job
          × (is_terminal job.status ≡ false → Located env own db.streams db.sorted job.id)
    read_found k p job db h ((f, j, e), g) d =
        let g' = ap (redis.get db.strings) (sym e) ∙ g in
        let (q, o) = h.strings_ok.0 f j p job g' d in
        (e ∙ q, o, λ live. h.placed f j p job g' d live (λ x. absurd (ground arith)))

    update_found-Kept :
        (k p : String) (change : Job → Job) (job : Job) (db : Db redis)
        → ((j : Job)
            → ((change j).id ≡ j.id)
              × ((change j).function ≡ j.function)
              × ((change j).status ≡ j.status))
        → KeptBut env own none db claims
        → IsJobKey k × (redis.get db.strings k ≡ some p)
        → from_json env p ≡ ok job
        → KeptBut env own none (put_payload env k (change job) db) claims
    update_found-Kept k p change job db same h g d =
        let (q, o, l) = read_found k p job db h g d in
        let (i, f, t) = same job in
        let key : k ≡ job_key key_prefix (change job).function (change job).id =
          q
          ∙ ap (λ x. job_key key_prefix x job.id) (sym f)
          ∙ ap (job_key key_prefix (change job).function) (sym i) in
        subst⁻¹ (λ x. KeptBut env own none (put_payload env x (change job) db) claims) key
          (write_back (change job) db h
            (record {
              function_eq = f ∙ o.function_eq ∙ ap owner (sym i);
              named = subst⁻¹ (HasNames env own) i o.named;
            })
            (λ live.
              subst⁻¹ (Located env own db.streams db.sorted) i (l (ap is_terminal (sym t) ∙ live))))

    pub update_progress-Kept :
        (i : String) (progress : ℕ) (db : Db redis)
        → KeptBut env own none db claims
        → KeptBut env own none (update_progress env i progress db).1 claims
    unfolding update_progress
    update_progress-Kept i progress db h =
        let (found, db') = find_payload env i db in
        let a = find_payload-FoundPayload i db h in
        elim (Option-cases found) [
          | inl e ↦ rw (update_progress, e) a.kept
          | inr ((k, p), e) ↦ elim (Result-cases (from_json env p)) [
            | inr (x, d) ↦ rw (update_progress, e, d) a.kept
            | inl (job, d) ↦ elim (Bool-cases (job.progress == progress)) [
              | inl q ↦ rw (update_progress, e, d, q) a.kept
              | inr q ↦
                  rw (update_progress, e, d, q)
                    (update_found-Kept k p (λ j. record j { progress = progress }) job db'
                      (λ j. (refl, refl, refl)) a.kept (a.stored k p e) d)
            ]
          ]
        ]

    pub update_job_checkpoint-Kept :
        (i : String) (state : Fields) (time : String) (db : Db redis)
        → KeptBut env own none db claims
        → KeptBut env own none (update_job_checkpoint env i state time db).1 claims
    unfolding update_job_checkpoint
    update_job_checkpoint-Kept i end time db h = h
    update_job_checkpoint-Kept i (field name v rest) time db h =
        let (found, db') = find_payload env i db in
        let a = find_payload-FoundPayload i db h in
        elim (Option-cases found) [
          | inl e ↦ rw (update_job_checkpoint, e) a.kept
          | inr ((k, p), e) ↦ elim (Result-cases (from_json env p)) [
            | inr (x, d) ↦ rw (update_job_checkpoint, e, d) a.kept
            | inl (job, d) ↦
                rw (update_job_checkpoint, e, d)
                  (update_found-Kept k p
                    (λ j. record j {
                      checkpoint = some (field name v rest);
                      checkpoint_at = some time;
                    })
                    job db' (λ j. (refl, refl, refl)) a.kept (a.stored k p e) d)
          ]
        ]
