-- ===== src/Tests/Domain.antt =====
-- Tests of the job model of packages/shared/src/shared/domain/jobs.py.
use upnext.Prelude.{ℕ, ◌≡◌, ◌↔◌, List, [], ◌∷◌, ◌+◌, true, not, ◌&&◌}
use upnext.Prelude.Result.{ok}
use upnext.Value.{str}
use upnext.Domain.Status.{JobStatus, queued, failed, complete, can_transition_to, is_terminal}
use upnext.Domain.Job.{post_init}
use upnext.Domain.Payload.{to_dict}
use upnext.Domain.Parse.{from_dict}
use upnext.Domain.RoundTrip.{from_dict-to_dict}
use upnext.Domain.Lifecycle.{
  transition_out, Mark, target, start, retry, finish, run, run_lem, starts, states,
}
use upnext.Tests.Fixtures.{clock, format, cron_job}

from_dict-to_dict_example : from_dict clock (to_dict clock cron_job) ≡ ok (post_init cron_job)
from_dict-to_dict_example = from_dict-to_dict clock cron_job (λ e. cc)

abbrev calls : List (ℕ × Mark)
calls = (4, retry 1_000_000) ∷ (5, start "w2") ∷ (6, finish (str "done")) ∷ []

run_lem_example :
    ((run format calls cron_job).status ≡ complete)
    × (states (run format calls cron_job).state_history
        ≡ "queued" ∷ "retrying" ∷ "active" ∷ "complete" ∷ [])
    × ((run format calls cron_job).attempts ≡ 1 + starts calls)
unfolding target run starts
run_lem_example = run_lem format calls cron_job

transition_out_example :
    ((can_transition_to failed queued && is_terminal failed ≡ true)
      ↔ ((failed ≡ failed) × (queued ≡ queued)))
    × (can_transition_to failed JobStatus.cancelled ≡ not (is_terminal failed))
transition_out_example = transition_out failed queued
