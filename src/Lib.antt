-- ===== src/Lib.antt =====
-- UpNext: background jobs, events and cron over Redis, with a server that keeps a history of jobs.
--
-- A job is described by packages/shared/src/shared/domain/jobs.py. A worker takes jobs from a queue
-- and runs them (packages/upnext/src/upnext/engine/job_processor.py); it reports each step as a
-- lifecycle event (packages/shared/src/shared/contracts/events.py). The server applies these events to
-- a stored row of the job (packages/server/src/server/services/events/processing.py). The event
-- router (packages/upnext/src/upnext/engine/event_router.py) sends a named event to the handlers whose
-- pattern (packages/shared/src/shared/patterns.py) accepts it.
--
-- Files:
--   Prelude: names of the libraries, Boolean tests, lists, and Result, the value or exception of a
--     call.
--   Value: JSON values and dictionaries as association lists, with get and truth.
--   Domain: packages/shared/src/shared/domain/jobs.py. Status is the enumerations and the transition
--     table, Source the source classes, Job the record with the mark_ methods, Payload and Parse
--     are to_dict and from_dict; RoundTrip and Lifecycle are about these.
--   Events: packages/server/src/server/services/events/processing.py. Contract is the events, Rows
--     and Store the stored job and its repository, Progress the throttle of progress writes,
--     Columns and Updates the guards and row updates of the handlers, Handlers the handlers and
--     process_event. Outcome is the abstract view of a handler, a function on one row; Documents,
--     Delivery, Lifecycle, Order, Throttle and Workspace are about the handlers.
--   Pattern, Router: packages/shared/src/shared/patterns.py and the event router.
--   Processor: packages/upnext/src/upnext/engine/job_processor.py. State is what a processor
--     keeps and calls, Run its methods from _process_one on; Counts, Settles, Ends, Latest, Retry and
--     Active are about these.
--   Queue: packages/upnext/src/upnext/engine/queue/redis/queue.py. Tokens is the token bucket of
--     rate limits, Fair the polling order, Runnable the functions that may be polled, Windows the
--     missed runs of a cron job; Bound and Missed are about Tokens and Windows. Keys is
--     packages/shared/src/shared/keys/queue.py, Redis the interface of what the queue uses of Redis
--     and of JSON, State what a queue works on, Scripts the Lua scripts beside queue.py, Operations
--     enqueue, finish, retry and manual_retry, Process _process_message, Deliver the dequeuing, Lookup and
--     Cancel the operations on a job id, Sweep the sweeper beside queue.py. Same, Dedup, Enqueued,
--     Moved and Cancelled are about these. Kept is the invariant that no job is
--     lost: Moves, Steps, Lookups, Payloads and Actions are about single changes, Messages, Copies and
--     Cancelled about the parts of a delivery and of a cancellation, Changes, Delivers, Dequeues,
--     Finds, Cancels and Sweeps about the operations, Run about runs of them.
--   Alerts: packages/server/src/server/services/operations/alerts.py. Build is the alerts of a
--     function, Deliver their selection by cooldown and delivery, over the interface
--     Alerts.Deliver.Redis of keys that expire; Cooldown and Counters are about Deliver.
--   Tests: concrete jobs, stores and workers.
--
-- How the model corresponds to the code. State is passed explicitly, a method `_f` is the function
-- `f`. Times are instants in microseconds and UTC, floats are in millionths, both natural numbers. The
-- job repository is the record Events.Store.Backend: a table with read and write, the law that a read
-- after a write returns what was written, and the promotion of artifacts. A handler that the code
-- opens a session for works on the same state. The processor writes its calls of queue, hooks
-- and status buffer in order to a list, as Effect; what it reads from outside, among it the answers of
-- the queue, the clock, the task function, the cron library and what each call of the queue raises, is
-- the record Processor.State.Env; a method gives what it raises, as Raised, with the state. A
-- CancelledError is raised by the task function or a call of the queue, not by a hook or the status
-- buffer.
-- The clock text is the parameter Domain.Payload.IsoClock, whose law is that fromisoformat reads back
-- what isoformat writes. Where Python would store a value of another type than the field's, from_dict
-- of the model stops with an error.
--
-- The stores of Redis are the interface Queue.Redis.Redis: for each kind of value a type of its own
-- with the commands that the queue uses, and laws that say what a read returns after a write. The
-- keys of values of different kinds do not meet, since a scheduled set, a stream and a set of
-- idempotency keys have keys of their own endings. Keys do not expire, Redis raises no errors,
-- consumer groups exist, a stream keeps its entries, as with the default length of 0, the id of an
-- entry is a number, and SCAN finds keys of the form asked for, as for ids without its wildcards.
-- Queue.Redis.Json is json.dumps and json.loads, of which the laws ask that loads reads back what
-- dumps writes and fails on the empty text. Each operation of the queue is one step, at the time that
-- it reads first; Queue.State.Env gives what a second reading of the clock and Redis's TIME show then: the writes of a script are one step in Redis too, the bookkeeping before and after it is not.
-- The read loops of dequeue get the number of their rounds. The limits of a function are
-- read from Queue.Runnable.Functions, whose values stand for the caches. The claims, the polling
-- cursor and the token buckets are fields of Queue.State.State, by consumer and function; published
-- statuses, pending counters and dispatch reasons are written in order to a list, as Call.
--
-- Fuel: Processor.Retry.runs follows the redeliveries of one job; any fuel above the retries that are
-- left is enough. Queue.Windows.scan has the code's own limit of 10000 rounds as its fuel.
-- Queue.Lookup.delete_pages has the bound on scanned entries as its fuel: each page but the last has an
-- entry. All other definitions recurse on their data.
--
-- Not modelled: the other methods of the Redis queue, among them cron seeding and the caches, the
-- prefetching fetcher and the batching finisher, the status publisher, the subscriber, statistics
-- and listings, HTTP routes, the SDK and the command line, which are Redis, network and database
-- code; what the dequeue, is_cancelled and is_function_paused raise in the processor; the text of JSON.

pub mod Prelude
pub mod Value
pub mod Domain
pub mod Events
pub mod Pattern
pub mod Router
pub mod Processor
pub mod Queue
pub mod Alerts
pub mod Tests
