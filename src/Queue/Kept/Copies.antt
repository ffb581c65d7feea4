-- ===== src/Queue/Kept/Copies.antt =====
-- Dropping the copies of a cancelled job keeps every other job.
use mathlib.Core.List.{Memᴰ}
use mathlib.Core.Path.{subst⁻¹}
use upnext.Prelude.{
  ℕ, zero, suc, ◌-◌, String, ◌≡◌, ◌⊎◌, refl, sym, ◌∙◌, Option, none, some, List, [], ◌∷◌, true,
  str_eq, ltb, length, Bool-cases, inl, inr,
}
use upnext.Prelude.Result.{ok}
use upnext.Domain.Status.{is_terminal}
use upnext.Domain.Job.{Job}
use upnext.Queue.Keys.{function_stream_key, function_scheduled_key, job_key}
use upnext.Queue.Redis.{Message}
use upnext.Queue.State.{StreamClaim, Env, Db, from_json}
use upnext.Queue.Scripts.{remove_from_scheduled}
use upnext.Queue.Lookup.{last_id, delete_matching, delete_pages, delete_stream_entries_for_job}
use upnext.Queue.Cancel.{drop_copies}
use upnext.Queue.Kept.{Owner, KeptBut}
use upnext.Queue.Kept.Moves.{eq_of_str}
use upnext.Queue.Kept.Payloads.{exempt_one, take_entry, unschedule, close_ended}

List-cases : {A : Type 0} (xs : List A) → (xs ≡ []) ⊎ ((x : A) × (rest : List A) × (xs ≡ x ∷ rest))
List-cases [] = inl refl
List-cases (x ∷ rest) = inr (x, rest, refl)

module _ (env : Env) (own : Owner env.key_prefix) where
  open env use {redis, key_prefix}
  open own use {owner}
  open redis use {Streams}

  -- The streams keep the log and every other job.
  record Cleared (i : String) (claims : String → String → Option StreamClaim) (db : Db redis)
      (streams : Streams) : Type 0 where
    kept : KeptBut env own (some i) (record db { streams = streams }) claims
    same : (k : String) (n : ℕ) → redis.logged streams k n ≡ redis.logged db.streams k n

  module _ (i k : String) (claims : String → String → Option StreamClaim) (db : Db redis) where
    -- The messages stand in the log.
    AllLogged : List Message → Type 0
    AllLogged ms = (m : Message) → Memᴰ m ms → redis.logged db.streams k m.msg_id ≡ some m.entry

    delete_matching-Cleared :
        (ms : List Message) (streams : Streams)
        → AllLogged ms
        → Cleared i claims db streams
        → Cleared i claims db (delete_matching env k i ms streams)
    unfolding delete_matching AllLogged
    delete_matching-Cleared [] streams a c = c
    delete_matching-Cleared (m ∷ rest) streams a c =
        let d = delete_matching-Cleared rest streams (λ n l. a n (Memᴰ.tail l)) c in
        let after = delete_matching env k i rest streams in
        elim (Bool-cases (str_eq m.entry.job_id i)) [
          | inr e ↦ rw (delete_matching, e) d
          | inl e ↦
              rw (delete_matching, e)
                (record {
                  kept =
                      take_entry env own d.kept _ k m.msg_id (redis.logged-xdel after _ _)
                        (redis.is_live-xdel after _ _)
                        (record {
                          entry = m.entry;
                          in_log = d.same _ _ ∙ a m (Memᴰ.head refl);
                          id_eq = eq_of_str _ i e;
                        });
                  same = λ l n. redis.logged-xdel after _ _ l n ∙ d.same l n;
                })
        ]

    delete_pages-Cleared :
        (size fuel more : ℕ) (start : Option ℕ) (streams : Streams)
        → Cleared i claims db streams
        → Cleared i claims db (delete_pages env k i size fuel more start streams)
    unfolding delete_pages AllLogged
    delete_pages-Cleared size zero more start streams c = c
    delete_pages-Cleared size (suc fuel) zero start streams c = c
    delete_pages-Cleared size (suc fuel) (suc more) start streams c =
        elim (List-cases (redis.xrange streams k start size)) [
          | inl e ↦ rw (delete_pages, e) c
          | inr (m, rest, e) ↦
              let logged : AllLogged (m ∷ rest) = λ n l.
                sym (c.same k n.msg_id)
                ∙ (redis.logged-xrange streams k start size n (subst⁻¹ (Memᴰ n) e l)).1 in
              let d = delete_matching-Cleared (m ∷ rest) streams logged c in
              elim (Bool-cases (ltb (length (m ∷ rest)) size)) [
                | inl q ↦ rw (delete_pages, e, q) d
                | inr q ↦
                    rw (delete_pages, e, q)
                      (delete_pages-Cleared size fuel (suc more - length (m ∷ rest))
                        (some (last_id m rest)) (delete_matching env k i (m ∷ rest) streams) d)
              ]
        ]

  pub drop_copies-Kept :
      (claims : String → String → Option StreamClaim) (job : Job) (db : Db redis)
      → KeptBut env own none db claims
      → ((t : String) (r : Job)
          → redis.get db.strings (job_key key_prefix (owner job.id) job.id) ≡ some t
          → from_json env t ≡ ok r
          → is_terminal r.status ≡ true)
      → KeptBut env own none (drop_copies env job db) claims
  unfolding drop_copies remove_from_scheduled delete_stream_entries_for_job
  drop_copies-Kept claims job db h ends =
      let u =
        unschedule env own (exempt_one env own job.id h)
          (function_scheduled_key key_prefix job.function) in
      let c =
        delete_pages-Cleared job.id (function_stream_key key_prefix job.function) claims
          (remove_from_scheduled redis (function_scheduled_key key_prefix job.function) job.id db)
          500 50_000 50_000 none db.streams (record { kept = u; same = λ l n. refl }) in
      close_ended env own c.kept ends
