-- ===== src/Queue/Kept/Steps.antt =====
-- Each single change of the database keeps the invariant, but for the place of an exempt job.
use mathlib.Core.Path.{subst}
use upnext.Prelude.{
  ℕ, String, ◌≡◌, ◌≢◌, ◌⊎◌, sym, ap, ◌∙◌, Option, some, ◌&&◌, ◌==◌, str_eq, arith, eq_iff,
  Bool-cases, inl, inr,
}
use upnext.Prelude.Result.{ok}
use upnext.Domain.Job.{Job}
use upnext.Domain.RoundTrip.{from_dict-to_dict_same}
use upnext.Queue.Keys.{function_scheduled_key, job_key, job_index_key}
use upnext.Queue.Redis.{Entry}
use upnext.Queue.State.{StreamClaim, Env, Db, to_json, from_json}
use upnext.Queue.Kept.{Owner, HasNames, IsProper, KeptBut}
use upnext.Queue.Kept.Moves.{
  IsEntryOf, Located-same, Located-zadd, Located-xadd, logged_still, some-injective,
}

-- What a stored job reads back as has its id, function and status.
pub from_json-to_json_same :
    (env : Env) (job r : Job)
    → from_json env (to_json env job) ≡ ok r
    → (r.id ≡ job.id) × (r.function ≡ job.function) × (r.status ≡ job.status)
unfolding from_json to_json
from_json-to_json_same env job r h =
    from_dict-to_dict_same env.iso job r (rw (env.json.loads-dumps _) at h)

module _ (env : Env) (own : Owner env.key_prefix) where
  open env use {redis, key_prefix}
  open own use {owner}
  open redis use {Strings, Sorted, Streams}

  -- An exempt job has another id than one whose place is asked for.
  other : {i j : String} → some i ≢ some j → j ≢ i
  other h e = h (ap some (sym e))

  module _ {exempt : Option String} {db : Db redis} {claims : String → String → Option StreamClaim}
      (h : KeptBut env own exempt db claims) where
    pub set_sets : (sets : redis.Sets) → KeptBut env own exempt (record db { sets = sets }) claims
    set_sets sets = record {
      strings_ok = h.strings_ok;
      streams_ok = h.streams_ok;
      sorted_ok = h.sorted_ok;
      claims_ok = h.claims_ok;
      placed = h.placed;
    }

    -- Claims may be dropped.
    pub drop_claims :
        (less : String → String → Option StreamClaim)
        → ((c i : String) (claim : StreamClaim) → less c i ≡ some claim → claims c i ≡ some claim)
        → KeptBut env own exempt db less
    drop_claims less sub = record {
      strings_ok = h.strings_ok;
      streams_ok = h.streams_ok;
      sorted_ok = h.sorted_ok;
      claims_ok = λ c i claim e. h.claims_ok c i claim (sub c i claim e);
      placed = h.placed;
    }

    -- And one for an entry of its job added.
    pub add_claim :
        (more : String → String → Option StreamClaim)
        → ((c i : String) (claim : StreamClaim)
            → more c i ≡ some claim
            → (claims c i ≡ some claim)
              ⊎ IsEntryOf env own db.streams claim.stream_key claim.msg_id i)
        → KeptBut env own exempt db more
    add_claim more sub = record {
      strings_ok = h.strings_ok;
      streams_ok = h.streams_ok;
      sorted_ok = h.sorted_ok;
      claims_ok = λ c i claim e. elim (sub c i claim e) [
        | inl old ↦ h.claims_ok c i claim old
        | inr new ↦ (new.entry, new.in_log, new.id_eq)
      ];
      placed = h.placed;
    }

    pub set_streams_same :
        (streams' : Streams)
        → ((l : String) (n : ℕ) → redis.logged streams' l n ≡ redis.logged db.streams l n)
        → ((l : String) (n : ℕ) → redis.is_live streams' l n ≡ redis.is_live db.streams l n)
        → KeptBut env own exempt (record db { streams = streams' }) claims
    set_streams_same streams' same alive = record {
      strings_ok = h.strings_ok;
      streams_ok = λ k m e l. h.streams_ok k m e (sym (same k m) ∙ l);
      sorted_ok = h.sorted_ok;
      claims_ok = λ c i claim e. let (f, l, q) = h.claims_ok c i claim e in (f, same _ _ ∙ l, q);
      placed = λ f i t job g d live ne.
          Located-same env own db.streams streams' db.sorted job.id same alive
            (h.placed f i t job g d live ne);
    }

    pub xadd-Kept :
        (k : String) (e : Entry)
        → IsProper env own k e
        → KeptBut env own exempt (record db { streams = redis.xadd k e db.streams }) claims
    xadd-Kept k e p = record {
      strings_ok = h.strings_ok;
      streams_ok = λ l n f g. elim (Bool-cases (str_eq k l && redis.next_id db.streams k == n)) [
        | inl t ↦
            let q : some e ≡ some f = rw t at (sym (redis.logged-xadd db.streams k e l n) ∙ g) in
            let kl : k ≡ l = ground (arith, eq_iff k l) in
            subst (λ x. IsProper env own x f) kl (subst (IsProper env own k) (some-injective q) p)
        | inr t ↦ h.streams_ok l n f (rw t at (sym (redis.logged-xadd db.streams k e l n) ∙ g))
      ];
      sorted_ok = h.sorted_ok;
      claims_ok = λ c i claim g.
          let (f, l, q) = h.claims_ok c i claim g in
          (f, logged_still env db.streams k e _ _ f l, q);
      placed = λ f i t job g d live ne.
          Located-xadd env own db.streams db.sorted k e job.id (h.placed f i t job g d live ne);
    }

    pub zadd-Kept :
        (k i : String) (n : ℕ)
        → k ≡ function_scheduled_key key_prefix (owner i)
        → HasNames env own i
        → KeptBut env own exempt (record db { sorted = redis.zadd k i n db.sorted }) claims
    zadd-Kept k i n q names = record {
      strings_ok = h.strings_ok;
      streams_ok = h.streams_ok;
      sorted_ok = λ l j score z. elim (Bool-cases (str_eq k l && str_eq i j)) [
        | inl t ↦
            let kl : k ≡ l = ground (arith, eq_iff k l) in
            let ij : i ≡ j = ground (arith, eq_iff i j) in
            (
              sym kl ∙ q ∙ ap (λ x. function_scheduled_key key_prefix (owner x)) ij,
              subst (HasNames env own) ij names,
            )
        | inr t ↦ h.sorted_ok l j score (rw t at (sym (redis.zscore-zadd db.sorted k i n l j) ∙ z))
      ];
      claims_ok = h.claims_ok;
      placed = λ f j t job g d live ne.
          Located-zadd env own db.streams db.sorted k i n job.id (h.placed f j t job g d live ne);
    }

    -- Strings that are neither payloads nor in the index may change.
    pub set_strings_same :
        (strings' : Strings)
        → ((f i : String)
            → redis.get strings' (job_key key_prefix f i)
              ≡ redis.get db.strings (job_key key_prefix f i))
        → ((i k : String)
            → redis.get strings' (job_index_key key_prefix i) ≡ some k
            → (redis.get db.strings (job_index_key key_prefix i) ≡ some k)
              ⊎ ((f : String) × (j : String) × (k ≡ job_key key_prefix f j)))
        → KeptBut env own exempt (record db { strings = strings' }) claims
    set_strings_same strings' same index = record {
      strings_ok = (
        λ f i t job g d. h.strings_ok.0 f i t job (sym (same f i) ∙ g) d,
        λ i k g. elim (index i k g) [ inl old ↦ h.strings_ok.1 i k old | inr new ↦ new ],
      );
      streams_ok = h.streams_ok;
      sorted_ok = h.sorted_ok;
      claims_ok = h.claims_ok;
      placed = λ f i t job g d live ne. h.placed f i t job (sym (same f i) ∙ g) d live ne;
    }
