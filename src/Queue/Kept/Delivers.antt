-- ===== src/Queue/Kept/Delivers.antt =====
-- Delivering messages keeps every job.
use upnext.Prelude.{ℕ, String, ◌≡◌, sym, ap, ◌∙◌, some, ◌||◌, Bool-cases, Option-cases, inl, inr}
use upnext.Domain.Job.{Job}
use upnext.Processor.State.{DispatchReason, no_capacity, rate_limited}
use upnext.Queue.Keys.{job_key}
use upnext.Queue.Redis.{Message}
use upnext.Queue.State.{Env, State, push, record_dispatch_reason, set_stream_claim}
use upnext.Queue.Process.{
  claim_of, over_capacity, quota_passed, ack_message, put_back, take_token, start_job, read_message,
  process_message,
}
use upnext.Queue.Kept.{Owner, IsOwned, Kept}
use upnext.Queue.Kept.Moves.{IsEntryOf}
use upnext.Queue.Kept.Changes.{retry-Kept}
use upnext.Queue.Kept.Messages.{
  Grows, InLog, ack-Grows, retry-Grows, read_payload, not_first, names_false, ack_message-Kept,
  set_claim-Kept,
}

module _ (env : Env) (own : Owner env.key_prefix) where
  open env use {redis, key_prefix}
  open own use {owner, distinct}

  -- The state in which a job is put back.
  abbrev before_retry :
      (consumer : String) → Message → Job → DispatchReason → State redis → State redis
  before_retry consumer m job r s =
      set_stream_claim env consumer job.id (claim_of env m)
        (push env (record_dispatch_reason job.function r job.id) s)

  -- A step from a state that keeps every job, to one that does and whose log has grown.
  pub record Step (s s' : State redis) : Type 0 where
    pub kept : Kept env own s'
    pub grows : Grows env own s.db s'.db

  put_back-Step :
      (consumer : String) (now : ℕ) (m : Message) (job : Job) (r : DispatchReason) (delay : ℕ)
      (s : State redis)
      → IsOwned env own job
      → IsEntryOf env own s.db.streams m.stream_key m.msg_id job.id
      → Kept env own s
      → Step s (put_back env consumer now m job r delay s)
  unfolding put_back set_stream_claim
  put_back-Step consumer now m job r delay s o l h = record {
    kept = retry-Kept env own consumer now delay job (before_retry consumer m job r s) o (
        set_claim-Kept env own consumer m job.id
          (push env (record_dispatch_reason job.function r job.id) s) l h);
    grows = retry-Grows env own consumer now delay job (before_retry consumer m job r s);
  }

  take_token-Step :
      (now : ℕ) (f : String) (s : State redis) → Kept env own s → Step s (take_token env now f s).1
  unfolding take_token
  take_token-Step now f s h = elim (Option-cases (env.rate_limit f)) [
    | inl e ↦ rw (take_token, e) (record { kept = h; grows = λ k n x g. g })
    | inr (limit, e) ↦ rw (take_token, e) (record { kept = h; grows = λ k n x g. g })
  ]

  pub Step-then : (s t u : State redis) → Step s t → Step t u → Step s u
  Step-then s t u a b = record { kept = b.kept; grows = λ k n e h. b.grows k n e (a.grows k n e h) }

  entry_still :
      (s t : State redis) (k : String) (n : ℕ) (i : String)
      → Step s t
      → IsEntryOf env own s.db.streams k n i
      → IsEntryOf env own t.db.streams k n i
  entry_still s t k n i a l = record {
    entry = l.entry;
    in_log = a.grows k n l.entry l.in_log;
    id_eq = l.id_eq;
  }

  claim-Step :
      (consumer : String) (m : Message) (i : String) (s : State redis)
      → IsEntryOf env own s.db.streams m.stream_key m.msg_id i
      → Kept env own s
      → Step s (set_stream_claim env consumer i (claim_of env m) s)
  unfolding set_stream_claim
  claim-Step consumer m i s l h = record {
    kept = set_claim-Kept env own consumer m i s l h;
    grows = λ k n e g. g;
  }

  start_job-Step :
      (consumer : String) (now : ℕ) (m : Message) (job : Job) (s : State redis)
      → IsOwned env own job
      → IsEntryOf env own s.db.streams m.stream_key m.msg_id job.id
      → Kept env own s
      → Step s (start_job env consumer now m job s).1
  unfolding start_job
  start_job-Step consumer now m job s o l h =
      let t = (take_token env now job.function s).1 in
      let a = take_token-Step now job.function s h in
      let l' = entry_still s t m.stream_key m.msg_id job.id a l in
      elim (Bool-cases (
        over_capacity env job.function
        || quota_passed env (env.functions.group_quota job.function))) [
          | inl e ↦ rw (start_job, e) (put_back-Step consumer now m job no_capacity 100_000 s o l h)
          | inr e ↦ elim (Bool-cases (take_token env now job.function s).0) [
            | inl y ↦
                rw (start_job, e, y) (Step-then s t _ a (claim-Step consumer m job.id t l' a.kept))
            | inr y ↦
                rw (start_job, e, y)
                  (Step-then s t _ a
                    (put_back-Step consumer now m job rate_limited _ t o l' a.kept))
          ]
        ]

  -- What a message of the log reads as is the job of its entry.
  read_entry :
      (m : Message) (s : State redis) (job : Job)
      → InLog env own s.db m
      → Kept env own s
      → read_message env m s ≡ some job
      → IsOwned env own job × IsEntryOf env own s.db.streams m.stream_key m.msg_id job.id
  unfolding read_message
  read_entry m s job l h e =
      let p = h.streams_ok m.stream_key m.msg_id m.entry l.in_log in
      let (t, g, d) =
        read_payload env own _ job
          (sym (not_first env own _ _ _ (names_false env own _ _ p)) ∙ e) in
      let (q, o) = h.strings_ok.0 _ _ t job g d in
      (
        o,
        record {
          entry = m.entry;
          in_log = l.in_log;
          id_eq = distinct m.entry.job_id job.id (
              ap (λ f. job_key key_prefix f m.entry.job_id) (sym p.function_eq)
              ∙ q
              ∙ ap (λ f. job_key key_prefix f job.id) o.function_eq);
        },
      )

  pub process_message-Step :
      (consumer : String) (now : ℕ) (m : Message) (s : State redis)
      → InLog env own s.db m
      → Kept env own s
      → Step s (process_message env consumer now m s).1
  unfolding process_message ack_message
  process_message-Step consumer now m s l h = elim (Option-cases (read_message env m s)) [
    | inl e ↦
        rw (process_message, e)
          (record {
            kept = ack_message-Kept env own m s h l e;
            grows = ack-Grows env own m.stream_key (some m.msg_id) s.db;
          })
    | inr (job, e) ↦
        let (o, x) = read_entry m s job l h e in
        rw (process_message, e) (start_job-Step consumer now m job s o x h)
  ]
