-- ===== src/Queue/Kept/Lookups.antt =====
-- What is found under a key after a change of the stored texts.
use mathlib.Core.Path.{subst, subst⁻¹}
use upnext.Prelude.{
  String, ◌≡◌, ◌≢◌, refl, sym, ap, ◌∙◌, some, true, false, str_eq, arith, eq_iff, eq_refl,
}
use upnext.Prelude.Result.{ok}
use upnext.Domain.Job.{Job}
use upnext.Queue.Keys.{job_key, job_index_key}
use upnext.Queue.State.{Env, to_json, from_json}
use upnext.Queue.Kept.{Owner, HasNames, IsOwned}
use upnext.Queue.Kept.Moves.{str_of_ne, some-injective}
use upnext.Queue.Kept.Steps.{from_json-to_json_same}

module _ (env : Env) (own : Owner env.key_prefix) where
  open env use {redis, key_prefix}
  open own use {owner}
  open redis use {Strings, Sorted, Streams}

  -- An exempt job has another id than one whose place is asked for.
  pub other : {i j : String} → some i ≢ some j → j ≢ i
  other h e = h (ap some (sym e))

  pub get_other :
      (s : Strings) (k v j : String) → k ≢ j → redis.get (redis.set k v s) j ≡ redis.get s j
  get_other s k v j ne = redis.get-set s k v j ∙ rw (str_of_ne k j ne) refl

  pub get_same : (s : Strings) (k v : String) → redis.get (redis.set k v s) k ≡ some v
  get_same s k v = redis.get-set s k v k ∙ rw (eq_refl k) refl

  pub get_deleted :
      (s : Strings) (k j : String) → k ≢ j → redis.get (redis.delete k s) j ≡ redis.get s j
  get_deleted s k j ne = redis.get-delete s k j ∙ rw (str_of_ne k j ne) refl

  pub ne_some : (i j : String) → str_eq i j ≡ false → some i ≢ some j
  ne_some i j e q = absurd (ground (arith, e, eq_iff i j, some-injective q))

  pub index_new :
      (i l v k : String) (s : Strings)
      → str_eq (job_index_key key_prefix i) (job_index_key key_prefix l) ≡ true
      → redis.get (redis.set (job_index_key key_prefix i) v s) (job_index_key key_prefix l) ≡ some k
      → k ≡ v
  index_new i l v k s t g = some-injective (sym g ∙ redis.get-set s _ v _ ∙ rw t refl)

  pub index_old :
      (i l v k : String) (s : Strings)
      → str_eq (job_index_key key_prefix i) (job_index_key key_prefix l) ≡ false
      → redis.get (redis.set (job_index_key key_prefix i) v s) (job_index_key key_prefix l) ≡ some k
      → redis.get s (job_index_key key_prefix l) ≡ some k
  index_old i l v k s t g = sym (redis.get-set s _ v _ ∙ rw t refl) ∙ g

  -- The key of an owned job of an id.
  pub own_key :
      (i : String) (job : Job)
      → i ≡ job.id
      → IsOwned env own job
      → job_key key_prefix (owner i) i ≡ job_key key_prefix job.function job.id
  own_key i job e o =
      ap (λ x. job_key key_prefix (owner x) x) e
      ∙ ap (λ f. job_key key_prefix f job.id) (sym o.function_eq)

  -- A job that a stored one reads back as is owned too.
  pub read-IsOwned :
      (job r : Job)
      → IsOwned env own job
      → (r.id ≡ job.id) × (r.function ≡ job.function) × (r.status ≡ job.status)
      → IsOwned env own r
  read-IsOwned job r o (i, f, s) = record {
    function_eq = f ∙ o.function_eq ∙ ap owner (sym i);
    named = subst⁻¹ (HasNames env own) i o.named;
  }

  -- What is found where a job was written.
  pub read_back :
      (job r : Job) (s : Strings) (k t : String)
      → str_eq (job_key key_prefix job.function job.id) k ≡ true
      → redis.get (redis.set (job_key key_prefix job.function job.id) (to_json env job) s) k
        ≡ some t
      → from_json env t ≡ ok r
      → (r.id ≡ job.id) × (r.function ≡ job.function) × (r.status ≡ job.status)
  read_back job r s k t e g d =
      let same : t ≡ to_json env job =
        some-injective (sym g ∙ redis.get-set s _ (to_json env job) k ∙ rw e refl) in
      from_json-to_json_same env job r (subst (λ x. from_json env x ≡ ok r) same d)

  pub read_old :
      (s : Strings) (j v k t : String)
      → str_eq j k ≡ false
      → redis.get (redis.set j v s) k ≡ some t
      → redis.get s k ≡ some t
  read_old s j v k t e g = sym (redis.get-set s j v k ∙ rw e refl) ∙ g
