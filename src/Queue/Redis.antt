-- ===== src/Queue/Redis.antt =====
-- What packages/upnext/src/upnext/engine/queue/redis/queue.py uses of Redis and of Python's `json`:
-- an interface whose laws state the documented behaviour. Each kind of Redis value has a space of its
-- own, keys do not expire, and a stream keeps its entries (a maximal length of 0, the default).
use mathlib.Core.List.{Memᴰ}
use upnext.Prelude.{
  ℕ, String, ◌≡◌, Option, none, some, List, Bool, true, false, ◌&&◌, ◌==◌, str_eq, if◌then◌else◌,
}
use upnext.Value.{Value}
use upnext.Queue.Keys.{job_key}

-- The fields of a stream entry. `payload` is the field `data`, which a legacy entry lacks.
pub record Entry : Type 0 where
  pub job_id : String
  pub function : String
  pub payload : Option String

-- An entry with the stream it is in and its id.
pub record Message : Type 0 where
  pub stream_key : String
  pub msg_id : ℕ
  pub entry : Entry

-- The id of an entry is a number. `logged` is the entry that once got the id, `is_live` whether that
-- entry is in the stream and not yet acknowledged by the consumer group of the workers.
pub record Redis : Type 1 where
  pub Strings : Type 0
  pub get : Strings → String → Option String
  pub set : String → String → Strings → Strings
  pub delete : String → Strings → Strings
  pub get-set :
      (s : Strings) (k v j : String) → get (set k v s) j ≡ (if str_eq k j then some v else get s j)
  pub get-delete :
      (s : Strings) (k j : String) → get (delete k s) j ≡ (if str_eq k j then none else get s j)
  -- The first existing key that SCAN lists for the pattern `prefix:job:*:id`.
  pub scan_job_key : (key_prefix job_id : String) → Strings → Option String
  pub scan_job_key_form :
      (p i k : String) (s : Strings)
      → scan_job_key p i s ≡ some k
      → (f : String) × (k ≡ job_key p f i)
  pub Sets : Type 0
  pub sismember : Sets → String → String → Bool
  pub sadd : String → String → Sets → Sets
  pub srem : String → String → Sets → Sets
  pub sismember-sadd :
      (s : Sets) (k v j w : String)
      → sismember (sadd k v s) j w ≡ (if str_eq k j && str_eq v w then true else sismember s j w)
  pub sismember-srem :
      (s : Sets) (k v j w : String)
      → sismember (srem k v s) j w ≡ (if str_eq k j && str_eq v w then false else sismember s j w)
  pub Sorted : Type 0
  pub zscore : Sorted → String → String → Option ℕ
  pub zadd : String → String → ℕ → Sorted → Sorted
  pub zrem : String → String → Sorted → Sorted
  -- The members with a score of at most a bound, as many as the limit.
  pub zrangebyscore : Sorted → String → (bound limit : ℕ) → List String
  pub zscore-zadd :
      (s : Sorted) (k v : String) (score : ℕ) (j w : String)
      → zscore (zadd k v score s) j w
        ≡ (if str_eq k j && str_eq v w then some score else zscore s j w)
  pub zscore-zrem :
      (s : Sorted) (k v j w : String)
      → zscore (zrem k v s) j w ≡ (if str_eq k j && str_eq v w then none else zscore s j w)
  pub zscore-zrangebyscore :
      (s : Sorted) (k : String) (bound limit : ℕ) (v : String)
      → Memᴰ v (zrangebyscore s k bound limit)
      → (score : ℕ) × (zscore s k v ≡ some score)
  pub Streams : Type 0
  pub logged : Streams → String → ℕ → Option Entry
  pub is_live : Streams → String → ℕ → Bool
  pub next_id : Streams → String → ℕ
  pub xadd : String → Entry → Streams → Streams
  pub xack : String → ℕ → Streams → Streams
  pub xdel : String → ℕ → Streams → Streams
  pub logged-next_id : (s : Streams) (k : String) → logged s k (next_id s k) ≡ none
  pub logged-xadd :
      (s : Streams) (k : String) (e : Entry) (j : String) (n : ℕ)
      → logged (xadd k e s) j n ≡ (if str_eq k j && next_id s k == n then some e else logged s j n)
  pub is_live-xadd :
      (s : Streams) (k : String) (e : Entry) (j : String) (n : ℕ)
      → is_live (xadd k e s) j n ≡ (if str_eq k j && next_id s k == n then true else is_live s j n)
  pub logged-xack :
      (s : Streams) (k : String) (m : ℕ) (j : String) (n : ℕ)
      → logged (xack k m s) j n ≡ logged s j n
  pub is_live-xack :
      (s : Streams) (k : String) (m : ℕ) (j : String) (n : ℕ)
      → is_live (xack k m s) j n ≡ (if str_eq k j && m == n then false else is_live s j n)
  pub logged-xdel :
      (s : Streams) (k : String) (m : ℕ) (j : String) (n : ℕ)
      → logged (xdel k m s) j n ≡ logged s j n
  pub is_live-xdel :
      (s : Streams) (k : String) (m : ℕ) (j : String) (n : ℕ)
      → is_live (xdel k m s) j n ≡ (if str_eq k j && m == n then false else is_live s j n)
  -- A page of the entries after an id.
  pub xrange : Streams → String → (after : Option ℕ) → (count : ℕ) → List Message
  pub logged-xrange :
      (s : Streams) (k : String) (after : Option ℕ) (count : ℕ) (m : Message)
      → Memᴰ m (xrange s k after count)
      → (m.stream_key ≡ k) × (logged s k m.msg_id ≡ some m.entry)
  -- New entries of the streams, at most a number of each, handed to the caller.
  pub xreadgroup : List String → (count : ℕ) → Streams → List Message × Streams
  -- Entries that a consumer has held for too long, handed to the caller.
  pub xautoclaim : String → (count : ℕ) → Streams → List Message × Streams
  pub logged-xreadgroup :
      (s : Streams) (ks : List String) (count : ℕ) (j : String) (n : ℕ)
      → logged (xreadgroup ks count s).1 j n ≡ logged s j n
  pub is_live-xreadgroup :
      (s : Streams) (ks : List String) (count : ℕ) (j : String) (n : ℕ)
      → is_live (xreadgroup ks count s).1 j n ≡ is_live s j n
  pub xreadgroup-logged :
      (s : Streams) (ks : List String) (count : ℕ) (m : Message)
      → Memᴰ m (xreadgroup ks count s).0
      → logged s m.stream_key m.msg_id ≡ some m.entry
  pub logged-xautoclaim :
      (s : Streams) (k : String) (count : ℕ) (j : String) (n : ℕ)
      → logged (xautoclaim k count s).1 j n ≡ logged s j n
  pub is_live-xautoclaim :
      (s : Streams) (k : String) (count : ℕ) (j : String) (n : ℕ)
      → is_live (xautoclaim k count s).1 j n ≡ is_live s j n
  pub xautoclaim-logged :
      (s : Streams) (k : String) (count : ℕ) (m : Message)
      → Memᴰ m (xautoclaim k count s).0
      → logged s m.stream_key m.msg_id ≡ some m.entry

-- `json.dumps` and `json.loads`.
pub record Json : Type 0 where
  pub dumps : Value → String
  pub loads : String → Option Value
  pub loads_empty : loads "" ≡ none
  pub loads-dumps : (v : Value) → loads (dumps v) ≡ some v
