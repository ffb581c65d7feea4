-- ===== src/Events/Progress.antt =====
-- The in-memory throttle for progress writes of
-- packages/server/src/server/services/events/processing.py. Settings are the clamped ones (the code
-- takes `max(setting, 0)`); times are in milliseconds, progress in millionths.
use upnext.Prelude.{
  ℕ, ◌+◌, ◌-◌, String, Option, none, some, List, [], ◌∷◌, Bool, true, false, ◌&&◌, str_eq, leb, ltb,
  ◌==◌, length, if◌then◌else◌,
}

pub record Settings : Type 0 where
  pub max_entries : ℕ
  pub min_interval : ℕ
  pub min_delta : ℕ
  pub force_interval : ℕ

pub record ProgressWriteState : Type 0 where
  pub progress : ℕ
  pub written_at_monotonic : ℕ

-- A `dict` in insertion order, oldest first.
abbrev pub Cache : Type 0
Cache = List (String × ProgressWriteState)

unfoldable pub lookup : String → Cache → Option ProgressWriteState
lookup k [] = none
lookup k ((j, v) ∷ rest) = if str_eq j k then some v else lookup k rest

-- `d[k] = v`: an old key keeps its place, a new one goes last.
unfoldable pub put : String → ProgressWriteState → Cache → Cache
put k v [] = (k, v) ∷ []
put k v ((j, w) ∷ rest) = if str_eq j k then (j, v) ∷ rest else (j, w) ∷ put k v rest

-- `d.pop(k, None)`; the keys of a `dict` are distinct.
unfoldable pub pop : String → Cache → Cache
pop k [] = []
pop k ((j, w) ∷ rest) = let rest' = pop k rest in if str_eq j k then rest' else (j, w) ∷ rest'

-- `d.pop(next(iter(d)))`
unfoldable pub pop_oldest : Cache → Cache
pop_oldest [] = []
pop_oldest (_ ∷ rest) = rest

abbrev pub is_none {ℓ} : {A : Type ℓ} → Option A → Bool
is_none none = true
is_none (some _) = false

unfoldable pub record_progress_write : Settings → ℕ → String → ℕ → Cache → Cache
record_progress_write s now job_id progress cache =
    let full =
      ltb 0 s.max_entries && (is_none (lookup job_id cache) && leb s.max_entries (length cache)) in
    put job_id (record { progress = progress; written_at_monotonic = now })
      (if full then pop_oldest cache else cache)

abbrev pub should_persist : Settings → ℕ → ℕ → Option ProgressWriteState → Bool
should_persist s now progress none = true
should_persist s now progress (some state) =
    let elapsed = now - state.written_at_monotonic in
    let delta = (progress - state.progress) + (state.progress - progress) in
    if leb 1_000_000 progress
    then true
    else if ltb 0 s.force_interval && leb s.force_interval elapsed
    then true
    else if leb s.min_delta delta
    then true
    else s.min_delta == 0 && leb s.min_interval elapsed

unfoldable pub should_persist_progress : Settings → ℕ → String → ℕ → Cache → Bool
should_persist_progress s now job_id progress cache =
    should_persist s now progress (lookup job_id cache)
