-- ===== src/Tests/Processor.antt =====
-- Tests of packages/upnext/src/upnext/engine/job_processor.py.
use upnext.Prelude.{ℕ, ◌⊎◌, inl, inr, ◌∷◌, [], ◌≡◌, ◌+◌, refl, none, some, true, false, arith}
use upnext.Value.{str}
use upnext.Domain.Job.{Job}
use upnext.Processor.State.{State, TaskDefinition, Ending, returned, raised, Raised, exception, Env}
use upnext.Processor.Run.{process_one}
use upnext.Processor.Retry.{fresh, runs, runs_lem}
use upnext.Processor.Active.{active_jobs-process_one}
use upnext.Tests.Fixtures.{format, cron_job}

abbrev report : TaskDefinition
report = record {
  retries = 2;
  retry_delay = 1_000_000;
  retry_backoff = 2_000_000;
  timeout = none;
  on_start = true;
  on_success = true;
  on_failure = true;
  on_retry = true;
  on_complete = true;
}

abbrev worker : Ending → Raised ⊎ ℕ → Env
worker ending next_run = record {
  worker_id = "w1";
  has_status_buffer = true;
  get_task = λ name. some report;
  is_cancelled = false;
  is_paused = false;
  now = 10;
  end_time = 20;
  call_function = λ task job. ending;
  next_cron = λ schedule base. next_run;
  raises = λ e. none;
  seconds = λ limit. "30";
  format = format;
}

-- The cron library refuses the date.
abbrev stuck_worker : Env
stuck_worker = worker (returned (str "done")) (inl (exception false "bad date"))

abbrev slow_worker : Env
slow_worker = worker (raised (exception true "slow")) (inr 3_600)

abbrev waiting : Job
waiting = record cron_job { attempts = 0 }

runs_lem_example : runs slow_worker 5 waiting + 0 ≡ 3
runs_lem_example =
    runs_lem slow_worker report 5 waiting
      (record {
        not_cancelled = refl;
        not_paused = refl;
        known = refl;
        calls_return = λ e h. refl;
        is_timeout = true;
        message = "slow";
        raises = λ j. refl;
      })
      (omega arith) (omega arith)

abbrev other : Job
other = record cron_job { id = "j10" }

abbrev busy : State
busy = record fresh { active_jobs = ("j10", other) ∷ [] }

active_jobs-process_one_example :
    (process_one slow_worker (some cron_job) busy).1.active_jobs ≡ ("j10", other) ∷ []
active_jobs-process_one_example = active_jobs-process_one slow_worker cron_job busy ((λ e. cc), tt)
