-- ===== src/Alerts/Cooldown.antt =====
-- The cooldown of packages/server/src/server/services/operations/alerts.py.
use mathlib.Core.List.{Memᴰ}
use mathlib.Core.List.Memᴰ
use upnext.Prelude.{
  ℕ, ◌+◌, ◌<◌, String, ◌≡◌, refl, sym, ap, ◌∙◌, List, [], ◌∷◌, Bool, true, false, not, max,
  Bool-cases, inl, inr,
}
use upnext.Alerts.Build.{fingerprint, alert_cooldown_key, FunctionAlert}
use upnext.Alerts.Deliver.{Redis, Env, select_alerts}

-- Redis answers every call.
pub record RedisWorks (env : Env) : Type 0 where
  pub client : env.has_redis ≡ true
  pub answers : (a : FunctionAlert) → env.set_fails a ≡ false

not-true : (b : Bool) → not b ≡ true → b ≡ false
not-true true h = cc
not-true false h = refl

module _ (r : Redis) where
  -- The key is not set again while it is live.
  abbrev pub after_set : Env → FunctionAlert → r.Db → Bool × r.Db
  after_set env a d =
      r.set_nx d env.now (alert_cooldown_key (fingerprint a)) (max 1 env.cooldown_seconds)

  was_free :
      (env : Env) (a : FunctionAlert) (d : r.Db)
      → (after_set env a d).0 ≡ true
      → r.is_live d env.now (alert_cooldown_key (fingerprint a)) ≡ false
  was_free env a d e = not-true _ (
      sym (
        r.set_nx-result d env.now (alert_cooldown_key (fingerprint a)) (max 1 env.cooldown_seconds))
      ∙ e)

  select_alerts-kept :
      (env : Env) (xs : List FunctionAlert) (d : r.Db) (t : ℕ) (k : String)
      → RedisWorks env
      → r.is_live d t k ≡ true
      → r.is_live (select_alerts r env xs d).1 t k ≡ true
  unfolding select_alerts
  select_alerts-kept env [] d t k w h = h
  select_alerts-kept env (a ∷ rest) d t k w h =
      simp (w.client, w.answers a)
        (select_alerts-kept env rest (after_set env a d).1 t k w (
          r.set_nx-kept d env.now t (alert_cooldown_key (fingerprint a)) k
            (max 1 env.cooldown_seconds) h))

  select_alerts-live :
      (env : Env) (xs : List FunctionAlert) (d : r.Db) (t : ℕ) (a : FunctionAlert)
      → RedisWorks env
      → t < env.now + max 1 env.cooldown_seconds
      → Memᴰ a (select_alerts r env xs d).0
      → r.is_live (select_alerts r env xs d).1 t (alert_cooldown_key (fingerprint a)) ≡ true
  unfolding select_alerts
  select_alerts-live env [] d t a w h m = absurd (Memᴰ.not-nil m)
  select_alerts-live env (x ∷ rest) d t a w h m = elim (Bool-cases (after_set env x d).0) [
    | inl e ↦ elim (Memᴰ.cases_cons (simp (w.client, w.answers x, e) at m)) [
      | inl q ↦
          simp (w.client, w.answers x)
            (select_alerts-kept env rest (after_set env x d).1 t
              (alert_cooldown_key (fingerprint a)) w
              (rw q (
                r.set_nx-live d env.now t (alert_cooldown_key (fingerprint x))
                  (max 1 env.cooldown_seconds) (was_free env x d e) h)))
      | inr m' ↦
          simp (w.client, w.answers x)
            (select_alerts-live env rest (after_set env x d).1 t a w h m')
    ]
    | inr e ↦
        simp (w.client, w.answers x)
          (select_alerts-live env rest (after_set env x d).1 t a w h
            (simp (w.client, w.answers x, e) at m))
  ]

  silent_while_live :
      (env : Env) (xs : List FunctionAlert) (d : r.Db) (b : FunctionAlert)
      → RedisWorks env
      → r.is_live d env.now (alert_cooldown_key (fingerprint b)) ≡ true
      → ¬ Memᴰ b (select_alerts r env xs d).0
  unfolding select_alerts
  silent_while_live env [] d b w l m = Memᴰ.not-nil m
  silent_while_live env (x ∷ rest) d b w l m =
      let l' : r.is_live (after_set env x d).1 env.now (alert_cooldown_key (fingerprint b)) ≡ true =
        r.set_nx-kept d env.now env.now (alert_cooldown_key (fingerprint x))
          (alert_cooldown_key (fingerprint b)) (max 1 env.cooldown_seconds) l in
      elim (Bool-cases (after_set env x d).0) [
        | inl e ↦ elim (Memᴰ.cases_cons (simp (w.client, w.answers x, e) at m)) [
          | inl q ↦ cc (
            l,
            was_free env x d e,
            ap (λ y. r.is_live d env.now (alert_cooldown_key (fingerprint y))) q,
          )
          | inr m' ↦ silent_while_live env rest (after_set env x d).1 b w l' m'
        ]
        | inr e ↦
            silent_while_live env rest (after_set env x d).1 b w l'
              (simp (w.client, w.answers x, e) at m)
      ]

  -- While Redis answers, an alert that a call selects is not selected again, by its fingerprint, in any
  -- call on the keys left before the cooldown of at least one second has passed.
  pub select_alerts-cooldown :
      (env env' : Env) (xs ys : List FunctionAlert) (d : r.Db) (a b : FunctionAlert)
      → RedisWorks env
      → RedisWorks env'
      → Memᴰ a (select_alerts r env xs d).0
      → fingerprint b ≡ fingerprint a
      → env'.now < env.now + max 1 env.cooldown_seconds
      → ¬ Memᴰ b (select_alerts r env' ys (select_alerts r env xs d).1).0
  select_alerts-cooldown env env' xs ys d a b w w' m k h =
      silent_while_live env' ys (select_alerts r env xs d).1 b w'
        (rw k (select_alerts-live env xs d env'.now a w h m))
