-- ===== src/Domain/Status.antt =====
-- The enumerations of packages/shared/src/shared/domain/jobs.py and the transition table.
use upnext.Prelude.{String, Bool, true, false, Option, none, some, str_eq, if◌then◌else◌}

pub data JobStatus : Type 0 where
  pending queued active complete failed cancelled retrying : JobStatus

pub data FailureReason : Type 0 where
  timeout exception cancelled unknown : FailureReason

pub data JobType : Type 0 where
  task cron event : JobType

unfoldable pub is_terminal : JobStatus → Bool
is_terminal complete = true
is_terminal failed = true
is_terminal JobStatus.cancelled = true
is_terminal _ = false

-- The dictionary `valid_transitions` as a table of pairs.
unfoldable pub can_transition_to : JobStatus → JobStatus → Bool
can_transition_to pending queued = true
can_transition_to pending JobStatus.cancelled = true
can_transition_to queued active = true
can_transition_to queued JobStatus.cancelled = true
can_transition_to active complete = true
can_transition_to active failed = true
can_transition_to active JobStatus.cancelled = true
can_transition_to active retrying = true
can_transition_to retrying queued = true
can_transition_to retrying failed = true
can_transition_to retrying JobStatus.cancelled = true
can_transition_to failed queued = true
can_transition_to _ _ = false

-- `.value` of a member.
abbrev pub status_value : JobStatus → String
status_value pending = "pending"
status_value queued = "queued"
status_value active = "active"
status_value complete = "complete"
status_value failed = "failed"
status_value JobStatus.cancelled = "cancelled"
status_value retrying = "retrying"

-- `JobStatus(text)`; none stands for the ValueError of an unknown text.
abbrev pub status_of : String → Option JobStatus
status_of s =
    if str_eq s "pending"
    then some pending
    else if str_eq s "queued"
    then some queued
    else if str_eq s "active"
    then some active
    else if str_eq s "complete"
    then some complete
    else if str_eq s "failed"
    then some failed
    else if str_eq s "cancelled"
    then some JobStatus.cancelled
    else if str_eq s "retrying"
    then some retrying
    else none

abbrev pub reason_value : FailureReason → String
reason_value timeout = "timeout"
reason_value exception = "exception"
reason_value FailureReason.cancelled = "cancelled"
reason_value unknown = "unknown"

abbrev pub reason_of : String → Option FailureReason
reason_of s =
    if str_eq s "timeout"
    then some timeout
    else if str_eq s "exception"
    then some exception
    else if str_eq s "cancelled"
    then some FailureReason.cancelled
    else if str_eq s "unknown"
    then some unknown
    else none

abbrev pub type_value : JobType → String
type_value task = "task"
type_value cron = "cron"
type_value event = "event"

abbrev pub type_of : String → Option JobType
type_of s =
    if str_eq s "task"
    then some task
    else if str_eq s "cron"
    then some cron
    else if str_eq s "event"
    then some event
    else none
