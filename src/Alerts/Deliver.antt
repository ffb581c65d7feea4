-- ===== src/Alerts/Deliver.antt =====
-- Delivery of alerts: `_emit_alerts` and `emit_function_alerts` of
-- packages/server/src/server/services/operations/alerts.py.
use upnext.Prelude.{
  ◌&&◌, ◌||◌, ℕ, ◌+◌, ◌<◌, String, ◌≡◌, Option, none, some, List, [], ◌∷◌, Bool, true, false, not,
  length, max, str_eq, if◌then◌else◌,
}
use upnext.Alerts.Build.{
  fingerprint, alert_cooldown_key, FunctionAlert, FunctionInfo, Settings, build_function_alerts,
}

-- The Redis keys with their expiry: `set(key, …, nx=True, ex=seconds)` sets a key that is not live and
-- says whether it did; it then is live until it expires, and other keys are as they were.
pub record Redis : Type 1 where
  pub Db : Type 0
  pub is_live : Db → ℕ → String → Bool
  pub set_nx : Db → ℕ → String → ℕ → Bool × Db
  pub set_nx-result :
      (d : Db) (now : ℕ) (k : String) (ex : ℕ) → (set_nx d now k ex).0 ≡ not (is_live d now k)
  pub set_nx-live :
      (d : Db) (now t : ℕ) (k : String) (ex : ℕ)
      → is_live d now k ≡ false
      → t < now + ex
      → is_live (set_nx d now k ex).1 t k ≡ true
  pub set_nx-kept :
      (d : Db) (now t : ℕ) (k j : String) (ex : ℕ)
      → is_live d t j ≡ true
      → is_live (set_nx d now k ex).1 t j ≡ true

pub record DeliveryStats : Type 0 where
  pub attempted : ℕ
  pub sent : ℕ
  pub failures : ℕ
  pub skipped_cooldown : ℕ
  pub last_attempt_at : Option String
  pub last_sent_at : Option String
  pub last_error : Option String

-- The time, the webhook, the error that a post or its status raises, if any, whether there is a Redis
-- client, and for which alerts its call raises.
pub record Env : Type 0 where
  pub settings : Settings
  pub now : ℕ
  pub webhook : String
  pub cooldown_seconds : ℕ
  pub has_redis : Bool
  pub set_fails : FunctionAlert → Bool
  pub post_error : Option String

pub record State (Db : Type 0) : Type 0 where
  pub db : Db
  pub stats : DeliveryStats

module _ (r : Redis) where
  -- The number of alerts sent.
  unfoldable pub emit_alerts : Env → List FunctionAlert → State r.Db → ℕ × State r.Db
  emit_alerts env [] s = (0, s)
  emit_alerts env (a ∷ rest) s =
      let n = length (a ∷ rest) in
      let st = s.stats in
      let tried = record st {
        attempted = st.attempted + n;
        last_attempt_at = some env.settings.now_iso;
      } in
      if str_eq env.webhook "" then (0, s) else elim env.post_error [
        | some e ↦ (
          0,
          record s { stats = record tried { failures = st.failures + n; last_error = some e } },
        )
        | none ↦ (
          n,
          record s {
            stats = record tried {
              sent = st.sent + n;
              last_sent_at = some env.settings.now_iso;
              last_error = none;
            };
          },
        )
      ]

  -- The loop over the alerts: those to send, and the keys set.
  unfoldable pub select_alerts : Env → List FunctionAlert → r.Db → List FunctionAlert × r.Db
  select_alerts env [] d = ([], d)
  select_alerts env (a ∷ rest) d =
      let (was_set, d') =
        r.set_nx d env.now (alert_cooldown_key (fingerprint a)) (max 1 env.cooldown_seconds) in
      let works = env.has_redis && not (env.set_fails a) in
      let (selected, d'') = select_alerts env rest (if works then d' else d) in
      (if not works || was_set then a ∷ selected else selected, d'')

  unfoldable pub deliver_selected : Env → ℕ → List FunctionAlert → State r.Db → ℕ × State r.Db
  deliver_selected env count [] s = (
    0,
    record s { stats = record s.stats { skipped_cooldown = s.stats.skipped_cooldown + count } },
  )
  deliver_selected env count (a ∷ rest) s = emit_alerts env (a ∷ rest) s

  unfoldable pub deliver_alerts : Env → List FunctionAlert → State r.Db → ℕ × State r.Db
  deliver_alerts env [] s = (0, s)
  deliver_alerts env (a ∷ rest) s =
      let (selected, db') = select_alerts env (a ∷ rest) s.db in
      deliver_selected env (length (a ∷ rest)) selected (record s { db = db' })

  unfoldable pub emit_function_alerts : Env → List FunctionInfo → State r.Db → ℕ × State r.Db
  emit_function_alerts env functions s =
      if str_eq env.webhook ""
      then (0, s)
      else deliver_alerts env (build_function_alerts env.settings functions) s
