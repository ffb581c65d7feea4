-- ===== src/Queue/Kept/Dequeues.antt =====
-- Dequeuing keeps every job.
use mathlib.Core.List.{Memᴰ}
use upnext.Prelude.{
  ℕ, zero, suc, ◌-◌, String, refl, ◌∙◌, Option, none, some, List, [], ◌∷◌, ◌++◌, leb, length,
  if◌then◌else◌,
}
use upnext.Domain.Job.{Job}
use upnext.Queue.Redis.{Message}
use upnext.Queue.State.{Env, State}
use upnext.Queue.Process.{process_message}
use upnext.Queue.Deliver.{
  process_all, process_some, still_wanted, with_streams, try_autoclaim, read_new, read_rounds,
  runnable_streams, autoclaim_first, dequeue_direct, autoclaim_each, rounds_after, dequeue_batch,
}
use upnext.Queue.Kept.{Owner, Kept}
use upnext.Queue.Kept.Steps.{set_streams_same}
use upnext.Queue.Kept.Messages.{InLog}
use upnext.Queue.Kept.Delivers.{Step, Step-then, process_message-Step}

module _ (env : Env) (own : Owner env.key_prefix) where
  open env use {redis}

  Step-none : (s : State redis) → Kept env own s → Step env own s s
  Step-none s h = record { kept = h; grows = λ k n e g. g }

  AllInLog : State redis → List Message → Type 0
  AllInLog s ms = (m : Message) → Memᴰ m ms → InLog env own s.db m

  all_still :
      (s t : State redis) (ms : List Message) → Step env own s t → AllInLog s ms → AllInLog t ms
  unfolding AllInLog
  all_still s t ms a l m i = record {
    in_log = a.grows m.stream_key m.msg_id m.entry (l m i).in_log;
  }

  process_all-Step :
      (consumer : String) (now : ℕ) (ms : List Message) (s : State redis)
      → AllInLog s ms
      → Kept env own s
      → Step env own s (process_all env consumer now ms s).1
  unfolding process_all AllInLog
  process_all-Step consumer now [] s l h = Step-none s h
  process_all-Step consumer now (m ∷ rest) s l h =
      let t = (process_message env consumer now m s).1 in
      let a = process_message-Step env own consumer now m s (l m (Memᴰ.head refl)) h in
      Step-then env own s t _ a (
        process_all-Step consumer now rest t (all_still s t rest a (λ n i. l n (Memᴰ.tail i)))
          a.kept)

  process_some-Step :
      (consumer : String) (now count : ℕ) (ms : List Message) (s : State redis)
      → AllInLog s ms
      → Kept env own s
      → Step env own s (process_some env consumer now count ms s).1
  unfolding process_some AllInLog
  process_some-Step consumer now count [] s l h = Step-none s h
  process_some-Step consumer now zero (m ∷ rest) s l h = Step-none s h
  process_some-Step consumer now (suc n) (m ∷ rest) s l h =
      let (job, t) = process_message env consumer now m s in
      let a = process_message-Step env own consumer now m s (l m (Memᴰ.head refl)) h in
      Step-then env own s t _ a (
        process_some-Step consumer now (still_wanted env job n) rest t
          (all_still s t rest a (λ n i. l n (Memᴰ.tail i))) a.kept)

  try_autoclaim-Step :
      (consumer : String) (now : ℕ) (k : String) (count : ℕ) (s : State redis)
      → Kept env own s
      → Step env own s (try_autoclaim env consumer now k count s).1
  unfolding try_autoclaim AllInLog
  try_autoclaim-Step consumer now k count s h =
      let t = with_streams env (redis.xautoclaim k count s.db.streams).1 s in
      let a : Step env own s t = record {
        kept =
            set_streams_same env own h _ (redis.logged-xautoclaim s.db.streams k count)
              (redis.is_live-xautoclaim s.db.streams k count);
        grows = λ j n e g. redis.logged-xautoclaim s.db.streams k count j n ∙ g;
      } in
      Step-then env own s t _ a (
        process_all-Step consumer now _ t
          (λ m i. record {
            in_log =
                redis.logged-xautoclaim s.db.streams k count _ _
                ∙ redis.xautoclaim-logged s.db.streams k count m i;
          })
          a.kept)

  read_new-Step :
      (consumer : String) (now : ℕ) (ks : List String) (count : ℕ) (s : State redis)
      → Kept env own s
      → Step env own s (read_new env consumer now ks count s).1
  unfolding read_new AllInLog
  read_new-Step consumer now ks count s h =
      let t = with_streams env (redis.xreadgroup ks count s.db.streams).1 s in
      let a : Step env own s t = record {
        kept =
            set_streams_same env own h _ (redis.logged-xreadgroup s.db.streams ks count)
              (redis.is_live-xreadgroup s.db.streams ks count);
        grows = λ j n e g. redis.logged-xreadgroup s.db.streams ks count j n ∙ g;
      } in
      Step-then env own s t _ a (
        process_some-Step consumer now count _ t
          (λ m i. record {
            in_log =
                redis.logged-xreadgroup s.db.streams ks count _ _
                ∙ redis.xreadgroup-logged s.db.streams ks count m i;
          })
          a.kept)

  -- A choice by a list of jobs, after a step.
  first_or_more :
      {A : Type 0} (jobs : List Job) (s : State redis) (x : Job → List Job → A × State redis)
      (y : A × State redis)
      → ((j : Job) (js : List Job) → Step env own s (x j js).1)
      → Step env own s y.1
      → Step env own s (elim jobs as (λ _. A × State redis) [ [] ↦ y | j ∷ js ↦ x j js ]).1
  first_or_more [] s x y f g = g
  first_or_more (j ∷ js) s x y f g = f j js

  read_rounds-Step :
      (consumer : String) (now : ℕ) (ks : List String) (count rounds : ℕ) (s : State redis)
      → Kept env own s
      → Step env own s (read_rounds env consumer now ks count rounds s).1
  unfolding read_rounds
  read_rounds-Step consumer now ks count zero s h = Step-none s h
  read_rounds-Step consumer now ks count (suc n) s h =
      let (jobs, t) = read_new env consumer now ks count s in
      let a = read_new-Step consumer now ks count s h in
      Step-then env own s t _ a (
        first_or_more jobs t (λ j js. (j ∷ js, t)) (read_rounds env consumer now ks count n t)
          (λ j js. Step-none t a.kept) (read_rounds-Step consumer now ks count n t a.kept))

  autoclaim_first-Step :
      (consumer : String) (now : ℕ) (ks : List String) (s : State redis)
      → Kept env own s
      → Step env own s (autoclaim_first env consumer now ks s).1
  unfolding autoclaim_first
  autoclaim_first-Step consumer now [] s h = Step-none s h
  autoclaim_first-Step consumer now (k ∷ rest) s h =
      let (jobs, t) = try_autoclaim env consumer now k 1 s in
      let a = try_autoclaim-Step consumer now k 1 s h in
      Step-then env own s t _ a (
        first_or_more jobs t (λ j js. (some j, t)) (autoclaim_first env consumer now rest t)
          (λ j js. Step-none t a.kept) (autoclaim_first-Step consumer now rest t a.kept))

  autoclaim_each-Step :
      (consumer : String) (now : ℕ) (ks : List String) (count : ℕ) (s : State redis)
      → Kept env own s
      → Step env own s (autoclaim_each env consumer now ks count s).1
  unfolding autoclaim_each
  autoclaim_each-Step consumer now [] count s h = Step-none s h
  autoclaim_each-Step consumer now (k ∷ rest) zero s h = Step-none s h
  autoclaim_each-Step consumer now (k ∷ rest) (suc n) s h =
      let (jobs, t) = try_autoclaim env consumer now k (suc n) s in
      let a = try_autoclaim-Step consumer now k (suc n) s h in
      Step-then env own s t _ a
        (autoclaim_each-Step consumer now rest (suc n - length jobs) t a.kept)

  runnable_streams-Step :
      (consumer : String) (fs : List String) (s : State redis)
      → Kept env own s
      → Step env own s (runnable_streams env consumer fs s).1
  unfolding runnable_streams
  runnable_streams-Step consumer fs s h = record { kept = h; grows = λ k n e g. g }

  -- A choice by a list of streams.
  if_streams :
      {A : Type 0} (ks : List String) (s : State redis) (x : String → List String → A × State redis)
      (y : A × State redis)
      → ((j : String) (js : List String) → Step env own s (x j js).1)
      → Step env own s y.1
      → Step env own s (elim ks as (λ _. A × State redis) [ [] ↦ y | j ∷ js ↦ x j js ]).1
  if_streams [] s x y f g = g
  if_streams (j ∷ js) s x y f g = f j js

  pub dequeue_direct-Step :
      (consumer : String) (now rounds : ℕ) (fs : List String) (s : State redis)
      → Kept env own s
      → Step env own s (dequeue_direct env consumer now rounds fs s).1
  unfolding dequeue_direct
  dequeue_direct-Step consumer now rounds fs s h =
      let (ks, t) = runnable_streams env consumer fs s in
      let a = runnable_streams-Step consumer fs s h in
      Step-then env own s t _ a (
        if_streams ks t
          (λ k more.
            let (jobs, u) = read_rounds env consumer now (k ∷ more) 1 rounds t in
            elim jobs as (λ _. Option Job × State redis) [
              | [] ↦ autoclaim_first env consumer now (k ∷ more) u
              | job ∷ _ ↦ (some job, u)
            ])
          (none, t)
          (λ k more.
            let (jobs, u) = read_rounds env consumer now (k ∷ more) 1 rounds t in
            let b = read_rounds-Step consumer now (k ∷ more) 1 rounds t a.kept in
            Step-then env own t u _ b (
              first_or_more jobs u (λ j js. (some j, u))
                (autoclaim_first env consumer now (k ∷ more) u) (λ j js. Step-none u b.kept)
                (autoclaim_first-Step consumer now (k ∷ more) u b.kept)))
          (Step-none t a.kept))

  pub dequeue_batch-Step :
      (consumer : String) (now rounds : ℕ) (fs : List String) (count : ℕ) (s : State redis)
      → Kept env own s
      → Step env own s (dequeue_batch env consumer now rounds fs count s).1
  unfolding dequeue_batch
  dequeue_batch-Step consumer now rounds fs count s h =
      let (ks, t) = runnable_streams env consumer fs s in
      let a = runnable_streams-Step consumer fs s h in
      Step-then env own s t _ a (
        if_streams ks t
          (λ k more.
            let (jobs, u) = autoclaim_each env consumer now (k ∷ more) count t in
            let (others, v) =
              read_rounds env consumer now (k ∷ more) (count - length jobs)
                (if leb count (length jobs) then 0 else rounds_after env jobs rounds) u in
            (jobs ++ others, v))
          ([], t)
          (λ k more.
            let (jobs, u) = autoclaim_each env consumer now (k ∷ more) count t in
            let b = autoclaim_each-Step consumer now (k ∷ more) count t a.kept in
            Step-then env own t u _ b (read_rounds-Step consumer now (k ∷ more) _ _ u b.kept))
          (Step-none t a.kept))
