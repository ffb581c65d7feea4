-- ===== src/Tests/Queue.antt =====
-- Tests of packages/upnext/src/upnext/engine/queue/redis/queue.py.
use mathlib.Core.List.{Memᴰ, Perm}
use upnext.Prelude.{
  ◌++◌, ℕ, ◌+◌, ◌*◌, ◌<◌, ◌≤◌, String, ◌≡◌, ◌↔◌, refl, none, some, List, [], ◌∷◌, str_eq, arith,
  get_elem?, if◌then◌else◌,
}
use upnext.Processor.State.{paused, no_capacity}
use upnext.Queue.Tokens.{RateLimit, acquire_rate_limit_token}
use upnext.Queue.Bound.{granted, granted-bounded}
use upnext.Queue.Fair.{
  fair_order_functions, nth_order, fair_order_functions-Perm, first-nth_order_every,
}
use upnext.Queue.Windows.{scan, cutoff_of, max_windows, cron_missed_windows}
use upnext.Queue.Missed.{Missed, RisesFrom, cron_missed_windows_iff, cron_missed_windows-RisesFrom}
use upnext.Queue.Runnable.{
  recorded, Functions, select, is_runnable, AllTrue, get_runnable_functions,
  get_runnable_functions_lem,
}

-- Two tokens in a second.
abbrev two_per_second : RateLimit
two_per_second = record { capacity = 2; window_ms = 1_000 }

burst : granted two_per_second (5 ∷ 6 ∷ 7 ∷ 507 ∷ 508 ∷ []) none ≡ 3
unfolding granted acquire_rate_limit_token
burst = refl

granted-bounded_example :
    granted two_per_second (5 ∷ 6 ∷ 7 ∷ 507 ∷ 508 ∷ []) none * 1_000 ≤ 2 * (1_000 + 503)
granted-bounded_example =
    granted-bounded two_per_second 5 (6 ∷ 7 ∷ 507 ∷ 508 ∷ [])
      (omega arith, (omega arith, (omega arith, (omega arith, tt))))

abbrev names : List String
names = "a" ∷ "b" ∷ "c" ∷ []

second_order : nth_order 1 4 names ≡ "c" ∷ "a" ∷ "b" ∷ []
unfolding nth_order fair_order_functions
second_order = refl

fair_order_functions-Perm_example : Perm (fair_order_functions 4 names).0 names
fair_order_functions-Perm_example = fair_order_functions-Perm 4 names

first-nth_order_every_example :
    (n : ℕ) × (n < 3) × (get_elem? (nth_order n 4 names) 0 ≡ get_elem? names 2)
first-nth_order_every_example = first-nth_order_every 4 names 2 (omega arith)

abbrev every_ten : ℕ → ℕ
every_ten t = t + 10

three_windows : scan every_ten 35 (cutoff_of 35 (some 20)) 9 10 ≡ 20 ∷ 30 ∷ []
unfolding scan
three_windows = refl

cron_missed_windows_iff_example :
    Memᴰ 30 (cron_missed_windows every_ten 35 10 (some 20))
    ↔ Missed every_ten 35 max_windows 10 (some 15) 30
cron_missed_windows_iff_example =
    cron_missed_windows_iff every_ten 35 10 (some 20) 30 (λ t. omega arith)

cron_missed_windows-RisesFrom_example : RisesFrom 10 (cron_missed_windows every_ten 35 10 none)
cron_missed_windows-RisesFrom_example = cron_missed_windows-RisesFrom every_ten 35 10 none

abbrev functions : Functions
functions = record {
  is_paused = λ f. str_eq f "a";
  max_concurrency = λ f. if str_eq f "b" then some 1 else none;
  active_count = λ f. 1;
  group_quota = λ f. (some "g", some 3);
  group_active_count = λ g. 2;
}

one_runnable :
    get_runnable_functions functions names ≡ ("c" ∷ [], ("a", paused) ∷ ("b", no_capacity) ∷ [])
unfolding get_runnable_functions select
one_runnable = refl

get_runnable_functions_lem_example :
    ((get_runnable_functions functions names).0 ≡ select (is_runnable functions) names)
    × Perm
        ((get_runnable_functions functions names).0
          ++ recorded (get_runnable_functions functions names).1)
        names
    × AllTrue functions (get_runnable_functions functions names).1
get_runnable_functions_lem_example = get_runnable_functions_lem functions names
