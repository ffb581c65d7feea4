-- ===== src/Alerts/Counters.antt =====
-- The counters of packages/server/src/server/services/operations/alerts.py.
use upnext.Prelude.{ℕ, ◌+◌, ◌≤◌, ◌≡◌}
use upnext.Alerts.Deliver.{Redis, State}

module _ (r : Redis) where
  -- A call of the state `s` on that many alerts: its reply is how many more were sent, those newly
  -- attempted were sent or failed, and each alert is attempted or skipped at most once.
  pub record Accounted (n : ℕ) (s : State r.Db) (o : ℕ × State r.Db) : Type 0 where
    pub sent : o.1.stats.sent ≡ s.stats.sent + o.0
    pub attempted :
        o.1.stats.attempted + s.stats.sent + s.stats.failures
        ≡ s.stats.attempted + o.1.stats.sent + o.1.stats.failures
    pub at_most :
        o.1.stats.attempted + o.1.stats.skipped_cooldown
        ≤ s.stats.attempted + s.stats.skipped_cooldown + n
    pub grows : s.stats.attempted ≤ o.1.stats.attempted
