-- ===== src/Queue/Kept/Messages.antt =====
-- The payload that a message leads to, and its acknowledgement and claim.
use mathlib.Core.Path.{subst, subst⁻¹}
use upnext.Prelude.{
  ℕ, String, ◌≡◌, ◌≢◌, refl, sym, ap, ◌∙◌, Option, none, some, Bool, true, false, ◌&&◌, ◌||◌, ltb,
  str_eq, arith, eq_iff, if◌then◌else◌, Bool-cases, inl, inr,
}
use upnext.Prelude.Result.{Result, ok, err}
use upnext.Domain.Job.{Job}
use upnext.Queue.Keys.{job_key}
use upnext.Queue.Redis.{Entry, Message}
use upnext.Queue.State.{Env, Db, State, from_json, set_stream_claim}
use upnext.Queue.Scripts.{store, ack, add_to_stream, add_to_scheduled}
use upnext.Queue.Operations.{claimed_id, claimed_stream, retry, retry_calls, requeued_job}
use upnext.Queue.Process.{claim_of, ack_message, job_of_payload, job_or_none, read_message}
use upnext.Queue.Kept.{Owner, IsProper, Kept}
use upnext.Queue.Kept.Moves.{IsEntryOf, logged_still, eq_of_str, some-injective}
use upnext.Queue.Kept.Steps.{add_claim}
use upnext.Queue.Kept.Payloads.{exempt_one, take_entry, close_ended}
use upnext.Queue.Same.{retry_db-calls}

module _ (env : Env) (own : Owner env.key_prefix) where
  open env use {redis, key_prefix}
  open own use {owner, distinct}

  -- The log of the streams keeps its entries.
  abbrev pub Grows : Db redis → Db redis → Type 0
  Grows db db' =
      (k : String) (n : ℕ) (e : Entry)
      → redis.logged db.streams k n ≡ some e
      → redis.logged db'.streams k n ≡ some e

  pub record InLog (db : Db redis) (m : Message) : Type 0 where
    pub in_log : redis.logged db.streams m.stream_key m.msg_id ≡ some m.entry

  pub ack-Grows : (k : String) (m : Option ℕ) (db : Db redis) → Grows db (ack redis k m db)
  unfolding ack
  ack-Grows k none db l n e h = h
  ack-Grows k (some m) db l n e h = redis.logged-xack db.streams k m l n ∙ h

  place-Grows :
      (delayed : Bool) (k l i f : String) (score : ℕ) (payload : Option String) (db : Db redis)
      → Grows db (
          if delayed
          then add_to_scheduled redis k i score db
          else add_to_stream redis l i f payload db)
  unfolding add_to_stream add_to_scheduled
  place-Grows true k l i f score payload db c n e h = h
  place-Grows false k l i f score payload db c n e h = logged_still env db.streams l _ c n e h

  pub retry-Grows :
      (consumer : String) (now delay : ℕ) (job : Job) (s : State redis)
      → Grows s.db (retry env consumer now delay job s).db
  unfolding retry retry_calls store
  retry-Grows consumer now delay job s k n e h =
      let claim = s.claims consumer job.id in
      subst⁻¹ (λ x. redis.logged x.streams k n ≡ some e)
        (retry_db-calls env now delay claim (requeued_job env now delay job) s.db)
        (place-Grows (ltb 0 delay) _ _ _ _ _ _ _ k n e
          (ack-Grows (claimed_stream claim "") (claimed_id claim) s.db k n e h))

  from_json_empty : (job : Job) → from_json env "" ≢ ok job
  unfolding from_json
  from_json_empty job e = absurd (ground (arith, rw env.json.loads_empty at e))

  chosen_some :
      (b : Bool) (r : Result Job) (job : Job)
      → (if b then none else job_or_none env r) ≡ some job
      → r ≡ ok job
  chosen_some true r job e = absurd (ground arith)
  chosen_some false (ok j) job e = ap ok (some-injective e)
  chosen_some false (err x) job e = absurd (ground arith)

  chosen_none :
      (b : Bool) (r : Result Job) (job : Job)
      → (if b then none else job_or_none env r) ≡ none
      → r ≡ ok job
      → b ≡ true
  chosen_none true r job e d = refl
  chosen_none false (ok j) job e d = absurd (ground arith)
  chosen_none false (err x) job e d = absurd (ground arith)

  unread_payload :
      (o : Option String) (t : String) (job : Job)
      → job_of_payload env o ≡ none
      → o ≡ some t
      → from_json env t ≢ ok job
  unfolding job_of_payload
  unread_payload none t job e g d = absurd (ground arith)
  unread_payload (some u) t job e g d =
      let d' : from_json env u ≡ ok job =
        subst⁻¹ (λ x. from_json env x ≡ ok job) (some-injective g) d in
      let empty : u ≡ "" = eq_of_str u "" (chosen_none _ _ job e d') in
      from_json_empty job (subst (λ x. from_json env x ≡ ok job) empty d')

  pub read_payload :
      (o : Option String) (job : Job)
      → job_of_payload env o ≡ some job
      → (t : String) × (o ≡ some t) × (from_json env t ≡ ok job)
  unfolding job_of_payload
  read_payload none job e = absurd (ground arith)
  read_payload (some u) job e = (u, refl, chosen_some _ _ job e)

  pub not_first : {A : Type 0} (b : Bool) (o x : A) → b ≡ false → (if b then o else x) ≡ x
  not_first b o x h = rw h refl

  pub names_false :
      (k : String) (e : Entry)
      → IsProper env own k e
      → str_eq e.job_id "" || str_eq e.function "" ≡ false
  names_false k e p =
      let f : str_eq e.function "" ≡ false =
        subst⁻¹ (λ x. str_eq x "" ≡ false) p.function_eq p.named.has_function in
      ground (arith, f, p.named.has_id)

  -- A message that gives no job may be acknowledged.
  pub ack_message-Kept :
      (m : Message) (s : State redis)
      → Kept env own s
      → InLog s.db m
      → read_message env m s ≡ none
      → Kept env own (ack_message env m s)
  unfolding ack_message ack read_message
  ack_message-Kept m s h l e =
      let p = h.streams_ok m.stream_key m.msg_id m.entry l.in_log in
      let i = m.entry.job_id in
      close_ended env own
        (take_entry env own (exempt_one env own i h) _ m.stream_key m.msg_id
          (redis.logged-xack s.db.streams _ _) (redis.is_live-xack s.db.streams _ _)
          (record { entry = m.entry; in_log = l.in_log; id_eq = refl }))
        (λ t job g d. absurd (
          unread_payload _ t job (sym (not_first _ _ _ (names_false _ _ p)) ∙ e)
            (ap (λ f. redis.get s.db.strings (job_key key_prefix f i)) p.function_eq ∙ g) d))

  pub set_claim-Kept :
      (consumer : String) (m : Message) (i : String) (s : State redis)
      → IsEntryOf env own s.db.streams m.stream_key m.msg_id i
      → Kept env own s
      → Kept env own (set_stream_claim env consumer i (claim_of env m) s)
  unfolding set_stream_claim
  set_claim-Kept consumer m i s l h = add_claim env own h _ (λ c j claim e.
      elim (Bool-cases (str_eq consumer c && str_eq i j)) [
        | inl t ↦
            let ij : i ≡ j = ground (arith, eq_iff i j) in
            let same : claim_of env m ≡ claim = some-injective (rw t at e) in
            inr (
              subst (λ x. IsEntryOf env own s.db.streams x.stream_key x.msg_id j) same
                (subst (IsEntryOf env own s.db.streams m.stream_key m.msg_id) ij l))
        | inr t ↦ inl (rw t at e)
      ])
