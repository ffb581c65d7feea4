-- ===== src/Tests/Alerts.antt =====
-- Tests of packages/server/src/server/services/operations/alerts.py, with Redis as a list of keys and
-- the seconds at which they expire.
use mathlib.Core.List.{Memᴰ}
use upnext.Prelude.{
  ℕ, ◌+◌, ◌<◌, String, ◌≡◌, refl, none, some, List, [], ◌∷◌, Bool, true, false, not, ◌&&◌, ◌||◌,
  ltb, str_eq, eq_refl, if◌then◌else◌, arith,
}
use upnext.Alerts.Build.{
  FunctionAlert, FunctionInfo, Settings, alert_of, queue_backlog, function_alerts,
  build_function_alerts,
}
use upnext.Alerts.Deliver.{Redis, Env, State, select_alerts}
use upnext.Alerts.Cooldown.{RedisWorks, select_alerts-cooldown}

unfoldable is_live : List (String × ℕ) → ℕ → String → Bool
is_live [] t k = false
is_live ((j, e) ∷ rest) t k = (str_eq j k && ltb t e) || is_live rest t k

unfoldable set_nx : List (String × ℕ) → ℕ → String → ℕ → Bool × List (String × ℕ)
set_nx d now k ex = (not (is_live d now k), if is_live d now k then d else (k, now + ex) ∷ d)

set_nx-result :
    (d : List (String × ℕ)) (now : ℕ) (k : String) (ex : ℕ)
    → (set_nx d now k ex).0 ≡ not (is_live d now k)
unfolding set_nx
set_nx-result d now k ex = refl

set_nx-live :
    (d : List (String × ℕ)) (now t : ℕ) (k : String) (ex : ℕ)
    → is_live d now k ≡ false
    → t < now + ex
    → is_live (set_nx d now k ex).1 t k ≡ true
unfolding set_nx is_live
set_nx-live d now t k ex h l =
    let q : ltb t (now + ex) ≡ true = ground arith in rw (h, eq_refl k, q) refl

set_nx-kept :
    (d : List (String × ℕ)) (now t : ℕ) (k j : String) (ex : ℕ)
    → is_live d t j ≡ true
    → is_live (set_nx d now k ex).1 t j ≡ true
unfolding set_nx is_live
set_nx-kept d now t k j ex h = ground (arith, h)

abbrev keys : Redis
keys = record {
  Db = List (String × ℕ);
  is_live = is_live;
  set_nx = set_nx;
  set_nx-result = set_nx-result;
  set_nx-live = set_nx-live;
  set_nx-kept = set_nx-kept;
}

abbrev settings : Settings
settings = record {
  full_rate = 100;
  failure_min_runs_24h = 10;
  failure_rate_threshold = 20;
  p95_duration_ms_threshold = 500;
  p95_wait_ms_threshold = 500;
  queue_backlog_threshold = 50;
  rounded = λ x. x;
  tenths = λ x. "1.0";
  whole = λ x. "1";
  number = λ x. "1";
  now_iso = "T";
}

abbrev slow : FunctionInfo
slow = record {
  key = "f-1";
  name = "report";
  runs_24h = 5;
  success_rate = 10;
  p95_duration_ms = none;
  p95_wait_ms = some 100;
  backlog = 60;
}

abbrev at_time : ℕ → Env
at_time t = record {
  settings = settings;
  now = t;
  webhook = "https://hook";
  cooldown_seconds = 300;
  has_redis = true;
  set_fails = λ a. false;
  post_error = none;
}

abbrev backlog_alert : FunctionAlert
backlog_alert =
    alert_of settings slow queue_backlog 60 50 "queue_backlog_count"
      "report queue backlog 1 exceeds threshold 1"

-- Too few runs for a failure rate, no duration, and a short wait: only the backlog is reported.
only_backlog : build_function_alerts settings (slow ∷ []) ≡ backlog_alert ∷ []
unfolding build_function_alerts function_alerts
only_backlog = refl

works_at : (t : ℕ) → RedisWorks (at_time t)
works_at t = record { client = refl; answers = λ a. refl }

select_alerts-cooldown_example :
    ¬ Memᴰ backlog_alert
      (select_alerts keys
        (at_time 200)
        (backlog_alert ∷ [])
        (select_alerts keys (at_time 10) (backlog_alert ∷ []) []).1).0
unfolding select_alerts set_nx is_live
select_alerts-cooldown_example =
    select_alerts-cooldown keys (at_time 10) (at_time 200) (backlog_alert ∷ []) (backlog_alert ∷ [])
      [] backlog_alert backlog_alert (works_at 10) (works_at 200) (Memᴰ.head refl) refl
      (omega arith)

abbrev start : State (List (String × ℕ))
start = record {
  db = [];
  stats = record {
    attempted = 0;
    sent = 0;
    failures = 0;
    skipped_cooldown = 0;
    last_attempt_at = none;
    last_sent_at = none;
    last_error = none;
  };
}
