-- ===== src/Queue/Windows.antt =====
-- The missed runs of a cron job: `_cron_missed_windows` of
-- packages/upnext/src/upnext/engine/queue/redis/queue.py. The cron library is the parameter `next`,
-- the next run after an instant; times are natural numbers.
use upnext.Prelude.{
  ℕ, zero, suc, ◌-◌, Option, none, some, List, [], ◌∷◌, Bool, true, ltb, leb, if◌then◌else◌,
}

abbrev pub max_windows : ℕ
max_windows = 10_000

-- `cutoff is None or cursor_ts >= cutoff`
abbrev pub recent : Option ℕ → ℕ → Bool
recent none cursor = true
recent (some cutoff) cursor = leb cutoff cursor

abbrev pub cutoff_of : ℕ → Option ℕ → Option ℕ
cutoff_of now none = none
cutoff_of now (some seconds) = some (now - seconds)

abbrev pub keep : Option ℕ → ℕ → List ℕ → List ℕ
keep cutoff cursor rest = if recent cutoff cursor then cursor ∷ rest else rest

module _ (next : ℕ → ℕ) (now : ℕ) where
  -- The loop, of at most as many rounds as the fuel.
  unfoldable pub scan : Option ℕ → ℕ → ℕ → List ℕ
  scan cutoff zero cursor = []
  scan cutoff (suc fuel) cursor =
      let more = scan cutoff fuel (next cursor) in
      let rest = if leb (next cursor) cursor then [] else more in
      if ltb now cursor then [] else keep cutoff cursor rest

  unfoldable pub cron_missed_windows : ℕ → Option ℕ → List ℕ
  cron_missed_windows next_run_at max_catch_up =
      if ltb now next_run_at then [] else scan (cutoff_of now max_catch_up) max_windows next_run_at
