-- ===== src/Alerts/Build.antt =====
-- `build_function_alerts` of packages/server/src/server/services/operations/alerts.py. Percentages and
-- milliseconds are in one unit each; rounding and the printing of numbers are given.
use Prim.Native.String.{◌++◌ as ◌<>◌}
use upnext.Prelude.{
  ℕ, ◌-◌, String, Option, none, some, List, [], ◌∷◌, ◌++◌, ◌&&◌, leb, if◌then◌else◌,
}

pub data FunctionAlertType : Type 0 where
  failure_rate latency_p95 queue_wait_p95 queue_backlog invalid_event_rate : FunctionAlertType

pub record FunctionAlert : Type 0 where
  pub alert_type : FunctionAlertType
  pub function : String
  pub function_name : String
  pub value : ℕ
  pub threshold : ℕ
  pub metric : String
  pub at_time : String
  pub message : String

unfoldable pub alert_type_value : FunctionAlertType → String
alert_type_value failure_rate = "function_failure_rate"
alert_type_value latency_p95 = "function_latency_p95"
alert_type_value queue_wait_p95 = "function_queue_wait_p95"
alert_type_value queue_backlog = "function_queue_backlog"
alert_type_value invalid_event_rate = "invalid_event_rate"

unfoldable pub fingerprint : FunctionAlert → String
fingerprint a = alert_type_value a.alert_type <> ":" <> a.function

-- `_alert_cooldown_key`
abbrev pub alert_cooldown_key : String → String
alert_cooldown_key print = "upnext:alerts:function" <> ":" <> print

-- What the alerts read of a function.
pub record FunctionInfo : Type 0 where
  pub key : String
  pub name : String
  pub runs_24h : ℕ
  pub success_rate : ℕ
  pub p95_duration_ms : Option ℕ
  pub p95_wait_ms : Option ℕ
  pub backlog : ℕ

pub record Settings : Type 0 where
  pub full_rate : ℕ
  pub failure_min_runs_24h : ℕ
  pub failure_rate_threshold : ℕ
  pub p95_duration_ms_threshold : ℕ
  pub p95_wait_ms_threshold : ℕ
  pub queue_backlog_threshold : ℕ
  pub rounded : ℕ → ℕ
  pub tenths : ℕ → String
  pub whole : ℕ → String
  pub number : ℕ → String
  pub now_iso : String

abbrev pub alert_of :
    Settings → FunctionInfo → FunctionAlertType → ℕ → ℕ → String → String → FunctionAlert
alert_of st fn t v limit metric message = record {
  alert_type = t;
  function = fn.key;
  function_name = fn.name;
  value = v;
  threshold = limit;
  metric = metric;
  at_time = st.now_iso;
  message = message;
}

-- An alert for a duration that is there and has reached the limit.
abbrev pub p95_alert :
    Settings
    → FunctionInfo
    → FunctionAlertType
    → Option ℕ
    → ℕ
    → String
    → String
    → List FunctionAlert
p95_alert st fn t none limit metric label = []
p95_alert st fn t (some p95) limit metric label =
    if leb limit p95
    then alert_of st fn t (st.rounded p95) limit metric
        (fn.name <> label <> st.whole p95 <> "ms exceeds threshold " <> st.whole limit <> "ms")
      ∷ []
    else []

abbrev pub failure_rate_alert : Settings → FunctionInfo → List FunctionAlert
failure_rate_alert st fn =
    let rate = st.full_rate - fn.success_rate in
    if leb st.failure_min_runs_24h fn.runs_24h && leb st.failure_rate_threshold rate
    then alert_of st fn failure_rate (st.rounded rate) st.failure_rate_threshold "failure_rate_pct"
        (fn.name
          <> " failure rate "
          <> st.tenths rate
          <> "% exceeds threshold "
          <> st.tenths st.failure_rate_threshold
          <> "%")
      ∷ []
    else []

abbrev pub queue_backlog_alert : Settings → FunctionInfo → List FunctionAlert
queue_backlog_alert st fn =
    if leb st.queue_backlog_threshold fn.backlog
    then alert_of st fn queue_backlog fn.backlog st.queue_backlog_threshold "queue_backlog_count" (
        fn.name
        <> " queue backlog "
        <> st.number fn.backlog
        <> " exceeds threshold "
        <> st.number st.queue_backlog_threshold)
      ∷ []
    else []

-- The body of the loop, for one function.
unfoldable pub function_alerts : Settings → FunctionInfo → List FunctionAlert
function_alerts st fn =
    failure_rate_alert st fn
    ++ p95_alert st fn latency_p95 fn.p95_duration_ms st.p95_duration_ms_threshold "p95_duration_ms"
        " p95 duration "
    ++ p95_alert st fn queue_wait_p95 fn.p95_wait_ms st.p95_wait_ms_threshold "p95_queue_wait_ms"
        " p95 queue wait "
    ++ queue_backlog_alert st fn

unfoldable pub build_function_alerts : Settings → List FunctionInfo → List FunctionAlert
build_function_alerts st [] = []
build_function_alerts st (fn ∷ rest) = function_alerts st fn ++ build_function_alerts st rest
