-- ===== src/Queue/Kept/Moves.antt =====
-- What the changes of the streams and scheduled sets do to the place of a job.
use upnext.Prelude.{
  ℕ, String, ◌≡◌, ◌≢◌, refl, sym, ap, ◌∙◌, none, some, true, false, ◌&&◌, ◌==◌, str_eq, eq_iff,
  eq_refl, arith, if◌then◌else◌, Bool-cases, inl, inr,
}
use upnext.Queue.Keys.{function_stream_key, function_scheduled_key}
use upnext.Queue.Redis.{Entry}
use upnext.Queue.State.{Env}
use upnext.Queue.Kept.{Owner, Located, streamed, scheduled}

pub eq_of_str : (s t : String) → str_eq s t ≡ true → s ≡ t
eq_of_str s t h = (eq_iff s t).0 h

pub str_of_eq : (s t : String) → s ≡ t → str_eq s t ≡ true
str_of_eq s t h = (eq_iff s t).1 h

pub str_of_ne : (s t : String) → s ≢ t → str_eq s t ≡ false
str_of_ne s t h = elim (Bool-cases (str_eq s t)) [
  | inl e ↦ absurd (h (eq_of_str s t e))
  | inr e ↦ e
]

pub some-injective {ℓ} : {A : Type ℓ} {x y : A} → some x ≡ some y → x ≡ y
some-injective {A} {x} {y} h = ap (λ o. elim o as (λ _. A) [ none ↦ x | some z ↦ z ]) h

module _ (env : Env) where
  open env use {redis}
  open redis use {Streams}

  -- A new entry is at none of the ids in the log.
  pub next_id-fresh :
      (streams : Streams) (k l : String) (n : ℕ) (e : Entry)
      → redis.logged streams l n ≡ some e
      → str_eq k l && redis.next_id streams k == n ≡ false
  next_id-fresh streams k l n e h = ground (arith, h, redis.logged-next_id streams k, eq_iff k l)

  -- So the log keeps its entries.
  pub logged_still :
      (streams : Streams) (k : String) (e : Entry) (l : String) (n : ℕ) (f : Entry)
      → redis.logged streams l n ≡ some f
      → redis.logged (redis.xadd k e streams) l n ≡ some f
  logged_still streams k e l n f h =
      redis.logged-xadd streams k e l n ∙ rw (next_id-fresh streams k l n f h) h

module _ (env : Env) (own : Owner env.key_prefix) where
  open env use {redis, key_prefix}
  open own use {owner}
  open redis use {Strings, Sorted, Streams}

  -- The entry stands in the log, and is of the job.
  pub record IsEntryOf (streams : Streams) (k : String) (m : ℕ) (i : String) : Type 0 where
    pub entry : Entry
    pub in_log : redis.logged streams k m ≡ some entry
    pub id_eq : entry.job_id ≡ i

  same_ids :
      (i j k : String) (m n : ℕ) (streams : Streams) (e : Entry)
      → IsEntryOf streams k m i
      → redis.logged streams (function_stream_key key_prefix (owner j)) n ≡ some e
      → e.job_id ≡ j
      → str_eq k (function_stream_key key_prefix (owner j)) && m == n ≡ true
      → j ≡ i
  same_ids i j k m n streams e h l q t =
      ground (arith, h.id_eq, h.in_log, l, eq_iff k (function_stream_key key_prefix (owner j)))

  -- Taking an entry of one job away leaves the others in place.
  pub Located-take :
      (streams streams' : Streams) (sorted : Sorted) (k : String) (m : ℕ) (i j : String)
      → ((l : String) (n : ℕ) → redis.logged streams' l n ≡ redis.logged streams l n)
      → ((l : String) (n : ℕ)
          → redis.is_live streams' l n
            ≡ (if str_eq k l && m == n then false else redis.is_live streams l n))
      → IsEntryOf streams k m i
      → j ≢ i
      → Located env own streams sorted j
      → Located env own streams' sorted j
  Located-take streams streams' sorted k m i j same gone h ne (scheduled score z) =
      scheduled score z
  Located-take streams streams' sorted k m i j same gone h ne (streamed n e l q live) =
      streamed n e (same _ n ∙ l) q
        (elim (Bool-cases (str_eq k (function_stream_key key_prefix (owner j)) && m == n)) [
          | inl t ↦ absurd (ne (same_ids i j k m n streams e h l q t))
          | inr t ↦ gone _ n ∙ rw t live
        ])

  -- What leaves the log and what is live alone leaves every job in place.
  pub Located-same :
      (streams streams' : Streams) (sorted : Sorted) (j : String)
      → ((l : String) (n : ℕ) → redis.logged streams' l n ≡ redis.logged streams l n)
      → ((l : String) (n : ℕ) → redis.is_live streams' l n ≡ redis.is_live streams l n)
      → Located env own streams sorted j
      → Located env own streams' sorted j
  Located-same streams streams' sorted j same alive (scheduled score z) = scheduled score z
  Located-same streams streams' sorted j same alive (streamed n e l q live) =
      streamed n e (same _ n ∙ l) q (alive _ n ∙ live)

  pub Located-zrem :
      (streams : Streams) (sorted : Sorted) (k i j : String)
      → j ≢ i
      → Located env own streams sorted j
      → Located env own streams (redis.zrem k i sorted) j
  Located-zrem streams sorted k i j ne (streamed n e l q live) = streamed n e l q live
  Located-zrem streams sorted k i j ne (scheduled score z) =
      scheduled score (elim (Bool-cases (str_eq i j)) [
        | inl t ↦ absurd (ne (sym (eq_of_str i j t)))
        | inr t ↦ redis.zscore-zrem sorted k i _ j ∙ ground arith
      ])

  pub Located-zadd :
      (streams : Streams) (sorted : Sorted) (k i : String) (n : ℕ) (j : String)
      → Located env own streams sorted j
      → Located env own streams (redis.zadd k i n sorted) j
  Located-zadd streams sorted k i n j (streamed m e l q live) = streamed m e l q live
  Located-zadd streams sorted k i n j (scheduled score z) =
      elim (Bool-cases (str_eq k (function_scheduled_key key_prefix (owner j)) && str_eq i j)) [
        | inl t ↦ scheduled n (redis.zscore-zadd sorted k i n _ j ∙ rw t refl)
        | inr t ↦ scheduled score (redis.zscore-zadd sorted k i n _ j ∙ rw t z)
      ]

  pub Located-xadd :
      (streams : Streams) (sorted : Sorted) (k : String) (e : Entry) (j : String)
      → Located env own streams sorted j
      → Located env own (redis.xadd k e streams) sorted j
  Located-xadd streams sorted k e j (scheduled score z) = scheduled score z
  Located-xadd streams sorted k e j (streamed n f l q live) =
      streamed n f (logged_still env streams k e _ n f l) q
        (redis.is_live-xadd streams k e _ n ∙ rw (next_id-fresh env streams k _ n f l) live)

  -- The new entry is in place.
  pub Located-added :
      (streams : Streams) (sorted : Sorted) (k : String) (e : Entry) (i : String)
      → k ≡ function_stream_key key_prefix (owner i)
      → e.job_id ≡ i
      → Located env own (redis.xadd k e streams) sorted i
  Located-added streams sorted k e i h q =
      let here : str_eq k (function_stream_key key_prefix (owner i))
            && redis.next_id streams k == redis.next_id streams k
          ≡ true =
        ground (arith, str_of_eq k _ h) in
      streamed (redis.next_id streams k) e (redis.logged-xadd streams k e _ _ ∙ rw here refl) q
        (redis.is_live-xadd streams k e _ _ ∙ rw here refl)

  pub Located-scheduled :
      (streams : Streams) (sorted : Sorted) (k i : String) (n : ℕ)
      → k ≡ function_scheduled_key key_prefix (owner i)
      → Located env own streams (redis.zadd k i n sorted) i
  Located-scheduled streams sorted k i n h =
      let here : str_eq k (function_scheduled_key key_prefix (owner i)) && str_eq i i ≡ true =
        ground (arith, str_of_eq k _ h, eq_refl i) in
      scheduled n (redis.zscore-zadd sorted k i n _ i ∙ rw here refl)
