-- ===== src/Queue/Kept/Payloads.antt =====
-- Changes that concern one job, which is exempt until its place or its end is certain again.
use mathlib.Core.Path.{subst}
use upnext.Prelude.{
  ℕ, String, ◌≡◌, sym, ap, ◌∙◌, Option, none, some, true, false, ◌&&◌, ◌==◌, str_eq, arith,
  if◌then◌else◌, Bool-cases, inl, inr,
}
use upnext.Prelude.Result.{ok}
use upnext.Domain.Status.{is_terminal}
use upnext.Domain.Job.{Job}
use upnext.Queue.Keys.{
  job_key, job_index_key, job_cancelled_key, job_key-ne-job_index_key, job_key-ne-job_cancelled_key,
  job_index_key-ne-job_cancelled_key,
}
use upnext.Queue.State.{StreamClaim, Env, Db, to_json, from_json}
use upnext.Queue.Operations.{delete_string}
use upnext.Queue.Kept.{Owner, IsOwned, Located, KeptBut}
use upnext.Queue.Kept.Moves.{IsEntryOf, Located-take, Located-zrem, eq_of_str}
use upnext.Queue.Kept.Steps.{set_strings_same}
use upnext.Queue.Kept.Lookups.{
  other, get_other, get_deleted, ne_some, index_new, index_old, own_key, read-IsOwned, read_back,
  read_old,
}

module _ (env : Env) (own : Owner env.key_prefix) where
  open env use {redis, key_prefix}
  open own use {owner}
  open redis use {Strings, Sorted, Streams}

  module _ {claims : String → String → Option StreamClaim} {db : Db redis} where
    pub exempt_one :
        (i : String) → KeptBut env own none db claims → KeptBut env own (some i) db claims
    exempt_one i h = record {
      strings_ok = h.strings_ok;
      streams_ok = h.streams_ok;
      sorted_ok = h.sorted_ok;
      claims_ok = h.claims_ok;
      placed = λ f j t job g d live ne. h.placed f j t job g d live (λ q. absurd (ground arith));
    }

    module _ {exempt : Option String} (h : KeptBut env own exempt db claims) where
      pub set_index :
          (i f j : String)
          → KeptBut env own exempt
              (record db {
                strings =
                    redis.set (job_index_key key_prefix i) (job_key key_prefix f j) db.strings;
              })
              claims
      set_index i f j =
          set_strings_same env own h _
            (λ g l.
              get_other env own db.strings _ _ _
                (λ e. job_key-ne-job_index_key key_prefix g l i (sym e)))
            (λ l k g.
              elim (Bool-cases (str_eq (job_index_key key_prefix i) (job_index_key key_prefix l))) [
                | inl t ↦
                    inr (f, j, index_new env own i l (job_key key_prefix f j) k db.strings t g)
                | inr t ↦ inl (index_old env own i l (job_key key_prefix f j) k db.strings t g)
              ])

      pub delete_index :
          (i : String)
          → KeptBut env own exempt (delete_string env (job_index_key key_prefix i) db) claims
      delete_index i =
          set_strings_same env own h _
            (λ g l.
              get_deleted env own db.strings _ _
                (λ e. job_key-ne-job_index_key key_prefix g l i (sym e)))
            (λ l k g.
              elim (Bool-cases (str_eq (job_index_key key_prefix i) (job_index_key key_prefix l))) [
                | inl t ↦ absurd (
                    ground (
                      arith,
                      t,
                      g,
                      redis.get-delete db.strings (job_index_key key_prefix i)
                          (job_index_key key_prefix l),
                    ))
                | inr t ↦ inl (
                    rw t at (
                      sym (
                        redis.get-delete db.strings (job_index_key key_prefix i)
                          (job_index_key key_prefix l))
                      ∙ g))
              ])

      pub set_marker :
          (i v : String)
          → KeptBut env own exempt
              (record db { strings = redis.set (job_cancelled_key key_prefix i) v db.strings })
              claims
      set_marker i v =
          set_strings_same env own h _
            (λ g l.
              get_other env own db.strings _ _ _
                (λ e. job_key-ne-job_cancelled_key key_prefix g l i (sym e)))
            (λ l k g. inl (
              sym (
                get_other env own db.strings _ _ _
                  (λ e. job_index_key-ne-job_cancelled_key key_prefix l i (sym e)))
              ∙ g))

      pub delete_marker :
          (i : String)
          → KeptBut env own exempt (delete_string env (job_cancelled_key key_prefix i) db) claims
      delete_marker i =
          set_strings_same env own h _
            (λ g l.
              get_deleted env own db.strings _ _
                (λ e. job_key-ne-job_cancelled_key key_prefix g l i (sym e)))
            (λ l k g. inl (
              sym (
                get_deleted env own db.strings _ _
                  (λ e. job_index_key-ne-job_cancelled_key key_prefix l i (sym e)))
              ∙ g))

    module _ {i : String} (h : KeptBut env own (some i) db claims) where
      -- Entries of the exempt job may go.
      pub take_entry :
          (streams' : Streams) (k : String) (m : ℕ)
          → ((l : String) (n : ℕ) → redis.logged streams' l n ≡ redis.logged db.streams l n)
          → ((l : String) (n : ℕ)
              → redis.is_live streams' l n
                ≡ (if str_eq k l && m == n then false else redis.is_live db.streams l n))
          → IsEntryOf env own db.streams k m i
          → KeptBut env own (some i) (record db { streams = streams' }) claims
      take_entry streams' k m same gone e = record {
        strings_ok = h.strings_ok;
        streams_ok = λ l n f g. h.streams_ok l n f (sym (same l n) ∙ g);
        sorted_ok = h.sorted_ok;
        claims_ok = λ c j claim g. let (f, l, q) = h.claims_ok c j claim g in (f, same _ _ ∙ l, q);
        placed = λ f j t job g d live ne.
            Located-take env own db.streams streams' db.sorted k m i job.id same gone e
              (other env own ne) (h.placed f j t job g d live ne);
      }

      pub unschedule :
          (k : String)
          → KeptBut env own (some i) (record db { sorted = redis.zrem k i db.sorted }) claims
      unschedule k = record {
        strings_ok = h.strings_ok;
        streams_ok = h.streams_ok;
        sorted_ok = λ l j n z. elim (Bool-cases (str_eq k l && str_eq i j)) [
          | inl t ↦ absurd (ground (arith, t, z, redis.zscore-zrem db.sorted k i l j))
          | inr t ↦ h.sorted_ok l j n (rw t at (sym (redis.zscore-zrem db.sorted k i l j) ∙ z))
        ];
        claims_ok = h.claims_ok;
        placed = λ f j t job g d live ne.
            Located-zrem env own db.streams db.sorted k i job.id (other env own ne)
              (h.placed f j t job g d live ne);
      }

      -- The exempt job is in its place.
      pub close_placed : Located env own db.streams db.sorted i → KeptBut env own none db claims
      close_placed l = record {
        strings_ok = h.strings_ok;
        streams_ok = h.streams_ok;
        sorted_ok = h.sorted_ok;
        claims_ok = h.claims_ok;
        placed = λ f j t job g d live ne. elim (Bool-cases (str_eq i job.id)) [
          | inl e ↦ subst (Located env own db.streams db.sorted) (eq_of_str i job.id e) l
          | inr e ↦ h.placed f j t job g d live (ne_some env own i job.id e)
        ];
      }

      -- What the exempt job's payload reads back as is terminal.
      pub close_ended :
          ((t : String) (job : Job)
            → redis.get db.strings (job_key key_prefix (owner i) i) ≡ some t
            → from_json env t ≡ ok job
            → is_terminal job.status ≡ true)
          → KeptBut env own none db claims
      close_ended ends = record {
        strings_ok = h.strings_ok;
        streams_ok = h.streams_ok;
        sorted_ok = h.sorted_ok;
        claims_ok = h.claims_ok;
        placed = λ f j t job r d live ne. elim (Bool-cases (str_eq i job.id)) [
          | inl e ↦
              let same : job_key key_prefix (owner i) i ≡ job_key key_prefix f j =
                own_key env own i job (eq_of_str i job.id e) (h.strings_ok.0 f j t job r d).1
                ∙ sym (h.strings_ok.0 f j t job r d).0 in
              absurd (ground (arith, live, ends t job (ap (redis.get db.strings) same ∙ r) d))
          | inr e ↦ h.placed f j t job r d live (ne_some env own i job.id e)
        ];
      }

    -- A payload of the exempt job may be written.
    pub set_payload :
        (job : Job)
        → KeptBut env own (some job.id) db claims
        → IsOwned env own job
        → KeptBut env own
            (some job.id)
            (record db {
              strings =
                  redis.set (job_key key_prefix job.function job.id) (to_json env job) db.strings;
            })
            claims
    set_payload job h o =
        let key = job_key key_prefix job.function job.id in
        let new = redis.set key (to_json env job) db.strings in
        record {
          strings_ok = (
            λ f i t r g d. elim (Bool-cases (str_eq key (job_key key_prefix f i))) [
              | inl e ↦
                  let same = read_back env own job r db.strings _ t e g d in
                  (
                    sym (eq_of_str key _ e)
                        ∙ ap (λ x. job_key key_prefix x job.id) (sym same.1)
                        ∙ ap (job_key key_prefix r.function) (sym same.0),
                    read-IsOwned env own job r o same,
                  )
              | inr e ↦ h.strings_ok.0 f i t r (read_old env own db.strings key _ _ t e g) d
            ],
            λ i k g. h.strings_ok.1 i k (
                sym (
                  get_other env own db.strings key (to_json env job) _
                    (λ e. job_key-ne-job_index_key key_prefix job.function job.id i e))
                ∙ g),
          );
          streams_ok = h.streams_ok;
          sorted_ok = h.sorted_ok;
          claims_ok = h.claims_ok;
          placed = λ f i t r g d live ne. elim (Bool-cases (str_eq key (job_key key_prefix f i))) [
            | inl e ↦ absurd (other env own ne (read_back env own job r db.strings _ t e g d).0)
            | inr e ↦ h.placed f i t r (read_old env own db.strings key _ _ t e g) d live ne
          ];
        }
