-- ===== src/Domain/Source.antt =====
-- Where a job comes from: the source classes of packages/shared/src/shared/domain/jobs.py, which
-- packages/shared/src/shared/contracts/source.py repeats for events.
use upnext.Prelude.{ℕ, String, Option, Bool}
use upnext.Domain.Status.{JobType, task, cron, event}

pub record CronFields : Type 0 where
  pub schedule : String
  pub cron_window_at : Option ℕ
  pub startup_reconciled : Bool
  pub startup_policy : Option String

pub record EventFields : Type 0 where
  pub event_pattern : String
  pub event_handler_name : String

pub data JobSource : Type 0 where
  task_source : JobSource
  cron_source : CronFields → JobSource
  event_source : EventFields → JobSource

-- The discriminator `source.type`.
unfoldable pub source_type : JobSource → JobType
source_type task_source = task
source_type (cron_source _) = cron
source_type (event_source _) = event
