-- ===== src/Tests/Redis.antt =====
-- A Redis of functions and lists, for the tests of the queue.
use mathlib.Core.List.{Memᴰ}
use mathlib.Core.List.Memᴰ
use upnext.Prelude.{
  ℕ, zero, suc, String, ◌≡◌, ◌⊎◌, refl, sym, ap, ◌∙◌, Option, none, some, List, [], ◌∷◌, ◌++◌, Bool,
  true, false, not, ◌&&◌, ◌||◌, ◌==◌, ltb, leb, str_eq, arith, if◌then◌else◌, Bool-cases,
  Option-cases, inl, inr, length, take, ◌≤◌,
}
use upnext.Queue.Keys.{job_key}
use upnext.Queue.Redis.{Redis, Entry, Message}
use upnext.Queue.Kept.Moves.{some-injective}
use upnext.Queue.Runnable.{select}

-- The scores of the members of each key, and the members.
pub record Scheduled : Type 0 where
  pub score : String → String → Option ℕ
  pub members : List String

-- The entries, newest first, which are live, and which were not yet handed out. The id of an entry is
-- the number of the older ones.
pub record Log : Type 0 where
  pub entries : List (String × Entry)
  pub live : String → ℕ → Bool
  pub fresh : String → ℕ → Bool

abbrev pub is_at : String → ℕ → String → ℕ → Bool
is_at k m j n = str_eq k j && m == n

abbrev pub entry_at : List (String × Entry) → String → ℕ → Option Entry
entry_at [] k n = none
entry_at ((j, e) ∷ rest) k n = if is_at j (length rest) k n then some e else entry_at rest k n

abbrev pub due : Option ℕ → ℕ → Bool
due none bound = false
due (some score) bound = leb score bound

abbrev pub has : String → List String → Bool
has v [] = false
has v (x ∷ rest) = str_eq v x || has v rest

abbrev pub message_of : String → ℕ → Option Entry → List Message
message_of k n none = []
message_of k n (some e) = record { stream_key = k; msg_id = n; entry = e } ∷ []

-- The entries of a stream below an id that pass a test, oldest first.
abbrev pub collect : List (String × Entry) → (ℕ → Bool) → String → ℕ → List Message
collect entries test k zero = []
collect entries test k (suc n) =
    collect entries test k n ++ (if test n then message_of k n (entry_at entries k n) else [])

abbrev pub collect_each : Log → ℕ → List String → List Message
collect_each s count [] = []
collect_each s count (k ∷ rest) =
    take count (collect s.entries (s.fresh k) k (length s.entries)) ++ collect_each s count rest

abbrev pub handed : List Message → String → ℕ → Bool
handed [] k n = false
handed (m ∷ rest) k n = is_at m.stream_key m.msg_id k n || handed rest k n

abbrev pub is_after : Option ℕ → ℕ → Bool
is_after none n = true
is_after (some m) n = ltb m n

abbrev pub Proper : Log → Message → Type 0
Proper s m = entry_at s.entries m.stream_key m.msg_id ≡ some m.entry

pub fresh_id :
    (xs : List (String × Entry)) (k : String) (n : ℕ) → length xs ≤ n → entry_at xs k n ≡ none
fresh_id [] k n h = refl
fresh_id ((j, e) ∷ rest) k n h =
    let no : is_at j (length rest) k n ≡ false = ground arith in
    rw no (fresh_id rest k n (omega arith))

mem-append : {A : Type 0} (x : A) (xs ys : List A) → Memᴰ x (xs ++ ys) → Memᴰ x xs ⊎ Memᴰ x ys
mem-append x [] ys m = inr m
mem-append x (y ∷ xs) ys m = elim (Memᴰ.cases_cons m) [
  | inl e ↦ inl (Memᴰ.head e)
  | inr m' ↦ elim (mem-append x xs ys m') [ inl l ↦ inl (Memᴰ.tail l) | inr r ↦ inr r ]
]

pub mem-take : {A : Type 0} (n : ℕ) (x : A) (xs : List A) → Memᴰ x (take n xs) → Memᴰ x xs
mem-take zero x xs m = absurd (Memᴰ.not-nil m)
mem-take (suc n) x [] m = m
mem-take (suc n) x (y ∷ xs) m = elim (Memᴰ.cases_cons m) [
  | inl e ↦ Memᴰ.head e
  | inr m' ↦ Memᴰ.tail (mem-take n x xs m')
]

mem-message_of :
    (k : String) (n : ℕ) (o : Option Entry) (m : Message)
    → Memᴰ m (message_of k n o)
    → (m.stream_key ≡ k) × (m.msg_id ≡ n) × (o ≡ some m.entry)
mem-message_of k n none m h = absurd (Memᴰ.not-nil h)
mem-message_of k n (some e) m h = elim (Memᴰ.cases_cons h) [
  | inl q ↦ (ap (λ x. x.stream_key) q, ap (λ x. x.msg_id) q, ap (λ x. some x.entry) (sym q))
  | inr r ↦ absurd (Memᴰ.not-nil r)
]

mem-if : {A : Type 0} (b : Bool) (x : A) (xs : List A) → Memᴰ x (if b then xs else []) → Memᴰ x xs
mem-if true x xs m = m
mem-if false x xs m = absurd (Memᴰ.not-nil m)

pub mem-collect :
    (entries : List (String × Entry)) (test : ℕ → Bool) (k : String) (n : ℕ) (m : Message)
    → Memᴰ m (collect entries test k n)
    → (m.stream_key ≡ k) × (entry_at entries k m.msg_id ≡ some m.entry)
mem-collect entries test k zero m h = absurd (Memᴰ.not-nil h)
mem-collect entries test k (suc n) m h = elim (mem-append m (collect entries test k n) _ h) [
  | inl l ↦ mem-collect entries test k n m l
  | inr r ↦
      let (a, b, c) = mem-message_of k n (entry_at entries k n) m (mem-if (test n) m _ r) in
      (a, ap (entry_at entries k) b ∙ c)
]

pub mem-collect_each :
    (s : Log) (count : ℕ) (ks : List String) (m : Message)
    → Memᴰ m (collect_each s count ks)
    → Proper s m
mem-collect_each s count [] m h = absurd (Memᴰ.not-nil h)
mem-collect_each s count (k ∷ rest) m h = elim (mem-append m (take count _) _ h) [
  | inl l ↦
      let (a, b) =
        mem-collect s.entries (s.fresh k) k (length s.entries) m (mem-take count m _ l) in
      ap (λ j. entry_at s.entries j m.msg_id) a ∙ b
  | inr r ↦ mem-collect_each s count rest m r
]

pub mem-select :
    (test : String → Bool) (v : String) (vs : List String) → Memᴰ v (select test vs) → test v ≡ true
unfolding select
mem-select test v [] h = absurd (Memᴰ.not-nil h)
mem-select test v (w ∷ vs) h = elim (Bool-cases (test w)) [
  | inl e ↦ elim (Memᴰ.cases_cons (rw e at h)) [
    | inl q ↦ ap test q ∙ e
    | inr r ↦ mem-select test v vs r
  ]
  | inr e ↦ mem-select test v vs (rw e at h)
]

pub due_score : (o : Option ℕ) (bound : ℕ) → due o bound ≡ true → (n : ℕ) × (o ≡ some n)
due_score none bound h = absurd (ground arith)
due_score (some n) bound h = (n, refl)

-- The keys of one function are searched.
abbrev pub scan : String → String → (String → Option String) → Option String
scan p i s = elim (s (job_key p "send" i)) [ none ↦ none | some _ ↦ some (job_key p "send" i) ]

pub scan_form :
    (p i k : String) (s : String → Option String)
    → scan p i s ≡ some k
    → (f : String) × (k ≡ job_key p f i)
scan_form p i k s h = elim (Option-cases (s (job_key p "send" i))) [
  | inl e ↦ absurd (ground (arith, rw (scan, e) at h))
  | inr (v, e) ↦ ("send", sym (some-injective (rw (scan, e) at h)))
]

abbrev pub claimed : String → ℕ → Log → List Message
claimed k count s =
    take count (collect s.entries (λ n. s.live k n && not (s.fresh k n)) k (length s.entries))

pub claimed-logged :
    (s : Log) (k : String) (count : ℕ) (m : Message) → Memᴰ m (claimed k count s) → Proper s m
claimed-logged s k count m h =
    let (a, b) =
      mem-collect s.entries (λ n. s.live k n && not (s.fresh k n)) k (length s.entries) m
        (mem-take count m _ h) in
    ap (λ j. entry_at s.entries j m.msg_id) a ∙ b

abbrev pub redis : Redis
redis = record {
  Strings = String → Option String;
  get = λ s k. s k;
  set = λ k v s j. if str_eq k j then some v else s j;
  delete = λ k s j. if str_eq k j then none else s j;
  get-set = λ s k v j. refl;
  get-delete = λ s k j. refl;
  scan_job_key = scan;
  scan_job_key_form = scan_form;
  Sets = String → String → Bool;
  sismember = λ s k v. s k v;
  sadd = λ k v s j w. if str_eq k j && str_eq v w then true else s j w;
  srem = λ k v s j w. if str_eq k j && str_eq v w then false else s j w;
  sismember-sadd = λ s k v j w. refl;
  sismember-srem = λ s k v j w. refl;
  Sorted = Scheduled;
  zscore = λ s k v. s.score k v;
  zadd = λ k v n s. record {
    score = λ j w. if str_eq k j && str_eq v w then some n else s.score j w;
    members = if has v s.members then s.members else v ∷ s.members;
  };
  zrem = λ k v s. record {
    score = λ j w. if str_eq k j && str_eq v w then none else s.score j w;
    members = s.members;
  };
  zrangebyscore = λ s k bound limit. take limit (select (λ v. due (s.score k v) bound) s.members);
  zscore-zadd = λ s k v n j w. refl;
  zscore-zrem = λ s k v j w. refl;
  zscore-zrangebyscore = λ s k bound limit v m.
      due_score (s.score k v) bound
        (mem-select (λ x. due (s.score k x) bound) v s.members (mem-take limit v _ m));
  Streams = Log;
  logged = λ s k n. entry_at s.entries k n;
  is_live = λ s k n. s.live k n;
  next_id = λ s k. length s.entries;
  xadd = λ k e s. record {
    entries = (k, e) ∷ s.entries;
    live = λ j n. if is_at k (length s.entries) j n then true else s.live j n;
    fresh = λ j n. if is_at k (length s.entries) j n then true else s.fresh j n;
  };
  xack = λ k m s. record s { live = λ j n. if is_at k m j n then false else s.live j n };
  xdel = λ k m s. record s {
    live = λ j n. if is_at k m j n then false else s.live j n;
    fresh = λ j n. if is_at k m j n then false else s.fresh j n;
  };
  logged-next_id = λ s k. fresh_id s.entries k (length s.entries) (omega arith);
  logged-xadd = λ s k e j n. refl;
  is_live-xadd = λ s k e j n. refl;
  logged-xack = λ s k m j n. refl;
  is_live-xack = λ s k m j n. refl;
  logged-xdel = λ s k m j n. refl;
  is_live-xdel = λ s k m j n. refl;
  xrange = λ s k start count. take count (collect s.entries (is_after start) k (length s.entries));
  logged-xrange = λ s k start count m h.
      mem-collect s.entries (is_after start) k (length s.entries) m (mem-take count m _ h);
  xreadgroup = λ ks count s.
      let ms = collect_each s count ks in
      (ms, record s { fresh = λ k n. s.fresh k n && not (handed ms k n) });
  xautoclaim = λ k count s. (claimed k count s, s);
  logged-xreadgroup = λ s ks count j n. refl;
  is_live-xreadgroup = λ s ks count j n. refl;
  xreadgroup-logged = λ s ks count m h. mem-collect_each s count ks m h;
  logged-xautoclaim = λ s k count j n. refl;
  is_live-xautoclaim = λ s k count j n. refl;
  xautoclaim-logged = λ s k count m h. claimed-logged s k count m h;
}
