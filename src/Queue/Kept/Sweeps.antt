-- ===== src/Queue/Kept/Sweeps.antt =====
-- Sweeping keeps every job.
use mathlib.Core.List.{Memᴰ}
use mathlib.Core.Path.{subst⁻¹}
use upnext.Prelude.{
  ℕ, String, ◌≡◌, refl, ap, Option, none, Bool, List, [], ◌∷◌, if◌then◌else◌, Bool-cases, inl, inr,
  true, false,
}
use upnext.Queue.Keys.{
  function_stream_key, function_scheduled_key, function_scheduled_key-injective,
}
use upnext.Queue.State.{StreamClaim, Env, Db}
use upnext.Queue.Scripts.{add_to_stream, remove_from_scheduled, move_due, move_all, sweep_script}
use upnext.Queue.Sweep.{move_jobs, sweep_fallback, sweep_function, do_sweep}
use upnext.Queue.Kept.{Owner, HasNames, KeptBut}
use upnext.Queue.Kept.Moves.{Located-added}
use upnext.Queue.Kept.Steps.{xadd-Kept}
use upnext.Queue.Kept.Payloads.{exempt_one, unschedule, close_placed}

module _ (env : Env) (own : Owner env.key_prefix) where
  open env use {redis, key_prefix}
  open own use {owner}

  first_if {ℓ} : {A : Type ℓ} (b : Bool) (x y : A) → b ≡ true → (if b then x else y) ≡ x
  first_if b x y h = rw h refl

  second_if {ℓ} : {A : Type ℓ} (b : Bool) (x y : A) → b ≡ false → (if b then x else y) ≡ y
  second_if b x y h = rw h refl

  module _ (claims : String → String → Option StreamClaim) where
    move_due-Kept :
        (f i k : String) (db : Db redis)
        → f ≡ owner i
        → HasNames env own i
        → KeptBut env own none db claims
        → KeptBut env own none
            (move_due redis
              (function_scheduled_key key_prefix f)
              (function_stream_key key_prefix f)
              k
              f
              i
              db)
            claims
    unfolding move_due add_to_stream remove_from_scheduled
    move_due-Kept f i k db q names h =
        let e = ap (function_stream_key key_prefix) q in
        close_placed env own
          (unschedule env own
            (exempt_one env own i
              (xadd-Kept env own h _ _ (record { stream_eq = e; function_eq = q; named = names })))
            (function_scheduled_key key_prefix f))
          (Located-added env own db.streams _ _ _ i e refl)

    -- The ids are of the function.
    AllOf : String → List String → Type 0
    AllOf f is = (i : String) → Memᴰ i is → (f ≡ owner i) × HasNames env own i

    move_all-Kept :
        (f : String) (is : List String) (db : Db redis)
        → AllOf f is
        → KeptBut env own none db claims
        → KeptBut env own none
            (move_all redis
              (function_scheduled_key key_prefix f)
              (function_stream_key key_prefix f)
              f
              key_prefix
              is
              db)
            claims
    unfolding move_all AllOf
    move_all-Kept f [] db a h = h
    move_all-Kept f (i ∷ rest) db a h =
        let (q, names) = a i (Memᴰ.head refl) in
        move_all-Kept f rest _ (λ j m. a j (Memᴰ.tail m)) (move_due-Kept f i _ db q names h)

    move_jobs-Kept :
        (f : String) (is : List String) (db : Db redis)
        → AllOf f is
        → KeptBut env own none db claims
        → KeptBut env own none (move_jobs env f is db) claims
    unfolding move_jobs AllOf
    move_jobs-Kept f [] db a h = h
    move_jobs-Kept f (i ∷ rest) db a h =
        let (q, names) = a i (Memᴰ.head refl) in
        move_jobs-Kept f rest _ (λ j m. a j (Memᴰ.tail m)) (move_due-Kept f i _ db q names h)

    due_AllOf :
        (f : String) (now limit : ℕ) (db : Db redis)
        → KeptBut env own none db claims
        → AllOf f (redis.zrangebyscore db.sorted (function_scheduled_key key_prefix f) now limit)
    unfolding AllOf
    due_AllOf f now limit db h i m =
        let (score, z) = redis.zscore-zrangebyscore db.sorted _ now limit i m in
        let (q, names) = h.sorted_ok _ i score z in
        (function_scheduled_key-injective key_prefix f (owner i) q, names)

    sweep_function-Kept :
        (now : ℕ) (f : String) (db : Db redis)
        → KeptBut env own none db claims
        → KeptBut env own none (sweep_function env now f db) claims
    unfolding sweep_function sweep_script sweep_fallback
    sweep_function-Kept now f db h =
        let a = due_AllOf f now 100 db h in
        elim (Bool-cases env.has_scripts) [
          | inl e ↦
              subst⁻¹ (λ x. KeptBut env own none x claims) (first_if _ _ _ e)
                (move_all-Kept f _ db a h)
          | inr e ↦
              subst⁻¹ (λ x. KeptBut env own none x claims) (second_if _ _ _ e)
                (move_jobs-Kept f _ db a h)
        ]

    pub do_sweep-Kept :
        (now : ℕ) (fs : List String) (db : Db redis)
        → KeptBut env own none db claims
        → KeptBut env own none (do_sweep env now fs db) claims
    unfolding do_sweep
    do_sweep-Kept now [] db h = h
    do_sweep-Kept now (f ∷ rest) db h = do_sweep-Kept now rest _ (sweep_function-Kept now f db h)
