-- ===== src/Queue/Runnable.antt =====
-- Which functions a worker may poll: `get_runnable_functions` of
-- packages/upnext/src/upnext/engine/queue/redis/queue.py. What the queue knows of the functions, from
-- its caches or from Redis, is given; the dispatch reasons are recorded in order.
use mathlib.Core.List.{Perm, perm_append_comm, perm_middle, append_assoc}
use mathlib.Core.List.Perm
use mathlib.Core.Path.{subst, subst⁻¹}
use upnext.Prelude.{
  ℕ, String, ◌≡◌, refl, ap, ◌∙◌, Option, none, some, List, [], ◌∷◌, ◌++◌, Bool, true, not, ◌&&◌,
  ltb, if◌then◌else◌, arith, Bool-cases, inl, inr,
}
use upnext.Processor.State.{DispatchReason, paused, no_capacity}

pub record Functions : Type 0 where
  pub is_paused : String → Bool
  pub max_concurrency : String → Option ℕ
  pub active_count : String → ℕ
  pub group_quota : String → Option String × Option ℕ
  pub group_active_count : String → ℕ

abbrev pub has_capacity : Functions → String → Bool
has_capacity q f = elim (q.max_concurrency f) [
  | none ↦ true
  | some limit ↦ ltb (q.active_count f) limit
]

abbrev pub within_quota : Functions → Option String × Option ℕ → Bool
within_quota q (none, limit) = true
within_quota q (some group, none) = true
within_quota q (some group, some limit) = ltb (q.group_active_count group) limit

abbrev pub in_group_quota : Functions → String → Bool
in_group_quota q f = within_quota q (q.group_quota f)

-- `[f for f in functions if test(f)]`
unfoldable pub select : (String → Bool) → List String → List String
select test [] = []
select test (f ∷ fs) = let rest = select test fs in if test f then f ∷ rest else rest

abbrev pub reasons : DispatchReason → List String → List (String × DispatchReason)
reasons r [] = []
reasons r (f ∷ fs) = (f, r) ∷ reasons r fs

-- The runnable functions, and the dispatch reasons of the others.
unfoldable pub get_runnable_functions :
    Functions → List String → List String × List (String × DispatchReason)
get_runnable_functions q functions =
    let candidates = select (λ f. not (q.is_paused f)) functions in
    let runnable = select (has_capacity q) candidates in
    let filtered = select (in_group_quota q) runnable in
    (
      filtered,
      reasons paused (select q.is_paused functions)
          ++ reasons no_capacity (select (λ f. not (has_capacity q f)) candidates)
          ++ reasons no_capacity (select (λ f. not (in_group_quota q f)) runnable),
    )

-- Why a function is not runnable, if it is not.
abbrev pub blocked_by : Functions → String → Option DispatchReason
blocked_by q f =
    if q.is_paused f
    then some paused
    else if has_capacity q f && in_group_quota q f
    then none
    else some no_capacity

abbrev pub is_runnable : Functions → String → Bool
is_runnable q f = (not (q.is_paused f) && has_capacity q f) && in_group_quota q f

-- Every entry names the reason that holds of its function.
abbrev pub AllTrue : Functions → List (String × DispatchReason) → Type 0
AllTrue q [] = Unit {0}
AllTrue q ((f, r) ∷ rest) = (blocked_by q f ≡ some r) × AllTrue q rest

select-select :
    (p r : String → Bool) (fs : List String) → select p (select r fs) ≡ select (λ f. r f && p f) fs
unfolding select
select-select p r [] = refl
select-select p r (f ∷ fs) = ground (arith, select-select p r fs)

-- A list is its chosen elements and the others, in some order.
perm-select :
    (p : String → Bool) (fs : List String) → Perm (select p fs ++ select (λ f. not (p f)) fs) fs
unfolding select
perm-select p [] = Perm.refl []
perm-select p (f ∷ fs) = elim (Bool-cases (p f)) [
  | inl e ↦ rw e (Perm.cons f (perm-select p fs))
  | inr e ↦ rw e (
      Perm.trans (perm_middle (select p fs) (select (λ f. not (p f)) fs))
        (Perm.cons f (perm-select p fs)))
]

-- The functions that reasons are recorded for.
abbrev pub recorded : List (String × DispatchReason) → List String
recorded [] = []
recorded ((f, r) ∷ rest) = f ∷ recorded rest

recorded-reasons : (r : DispatchReason) (fs : List String) → recorded (reasons r fs) ≡ fs
recorded-reasons r [] = refl
recorded-reasons r (f ∷ fs) = ap (λ l. f ∷ l) (recorded-reasons r fs)

recorded-append :
    (xs ys : List (String × DispatchReason)) → recorded (xs ++ ys) ≡ recorded xs ++ recorded ys
recorded-append [] ys = refl
recorded-append ((f, r) ∷ xs) ys = ap (λ l. f ∷ l) (recorded-append xs ys)

-- Three rounds of setting aside, put together again.
perm_rounds :
    (h g fs paused unslotted unquotaed filtered : List String)
    → Perm (filtered ++ unquotaed) g
    → Perm (g ++ unslotted) h
    → Perm (h ++ paused) fs
    → Perm (filtered ++ ((paused ++ unslotted) ++ unquotaed)) fs
perm_rounds h g fs x y z w a b c =
    Perm.trans (Perm.append (Perm.refl w) (perm_append_comm (x ++ y) z)) (
      subst (λ l. Perm l fs) (append_assoc w z (x ++ y))
        (Perm.trans (Perm.append a (perm_append_comm x y)) (
          subst (λ l. Perm l fs) (append_assoc g y x)
            (Perm.trans (Perm.append b (Perm.refl x)) c))))

AllTrue-append :
    (q : Functions) (xs ys : List (String × DispatchReason))
    → AllTrue q xs
    → AllTrue q ys
    → AllTrue q (xs ++ ys)
AllTrue-append q [] ys h k = k
AllTrue-append q ((f, r) ∷ xs) ys h k = (h.0, AllTrue-append q xs ys h.1 k)

AllTrue-reasons :
    (q : Functions) (r : DispatchReason) (p : String → Bool) (fs : List String)
    → ((f : String) → p f ≡ true → blocked_by q f ≡ some r)
    → AllTrue q (reasons r (select p fs))
unfolding select
AllTrue-reasons q r p [] h = tt
AllTrue-reasons q r p (f ∷ fs) h = elim (Bool-cases (p f)) [
  | inl e ↦ rw (e, AllTrue) (h f e, AllTrue-reasons q r p fs h)
  | inr e ↦ rw e (AllTrue-reasons q r p fs h)
]

module _ (q : Functions) (fs : List String) where
  abbrev unpaused : String → Bool
  unpaused f = not (q.is_paused f)

  abbrev with_slot : String → Bool
  with_slot f = unpaused f && has_capacity q f

  runnable_select : select (has_capacity q) (select unpaused fs) ≡ select with_slot fs
  runnable_select = select-select (has_capacity q) unpaused fs

  no_slot_true :
      AllTrue q (reasons no_capacity (select (λ f. not (has_capacity q f)) (select unpaused fs)))
  no_slot_true =
      subst⁻¹ (λ l. AllTrue q (reasons no_capacity l))
        (select-select (λ f. not (has_capacity q f)) unpaused fs)
        (AllTrue-reasons q no_capacity (λ f. unpaused f && not (has_capacity q f)) fs
          (λ f e. ground arith))

  no_quota_true : AllTrue q (
      reasons no_capacity
        (select (λ f. not (in_group_quota q f)) (select (has_capacity q) (select unpaused fs))))
  no_quota_true =
      subst⁻¹ (λ l. AllTrue q (reasons no_capacity l))
        (ap (select (λ f. not (in_group_quota q f))) runnable_select
          ∙ select-select (λ f. not (in_group_quota q f)) with_slot fs)
        (AllTrue-reasons q no_capacity (λ f. with_slot f && not (in_group_quota q f)) fs
          (λ f e. ground arith))

perm-get_runnable_functions :
    (q : Functions) (fs : List String)
    → Perm ((get_runnable_functions q fs).0 ++ recorded (get_runnable_functions q fs).1) fs
unfolding get_runnable_functions
perm-get_runnable_functions q fs =
    let slotted = select (has_capacity q) (select (unpaused q fs) fs) in
    let x = select q.is_paused fs in
    let y = select (λ f. not (has_capacity q f)) (select (unpaused q fs) fs) in
    let z = select (λ f. not (in_group_quota q f)) slotted in
    let same : recorded ((reasons paused x ++ reasons no_capacity y) ++ reasons no_capacity z)
        ≡ (x ++ y) ++ z =
      simp (recorded-append, recorded-reasons) in
    subst⁻¹ (λ l. Perm (select (in_group_quota q) slotted ++ l) fs) same
      (perm_rounds (select (unpaused q fs) fs) slotted fs x y z (select (in_group_quota q) slotted)
        (perm-select (in_group_quota q) slotted)
        (perm-select (has_capacity q) (select (unpaused q fs) fs))
        (Perm.trans (perm_append_comm (select (unpaused q fs) fs) x) (perm-select q.is_paused fs)))

-- The functions that may be polled are, in the order given, those that are not paused, have a free
-- slot under their own limit and one under that of their group. They and the functions that a
-- dispatch reason is recorded for are together the given functions, each as often as it is given;
-- and every recorded reason is true: paused, or no capacity for one that is not.
pub get_runnable_functions_lem :
    (q : Functions) (fs : List String)
    → ((get_runnable_functions q fs).0 ≡ select (is_runnable q) fs)
      × Perm ((get_runnable_functions q fs).0 ++ recorded (get_runnable_functions q fs).1) fs
      × AllTrue q (get_runnable_functions q fs).1
unfolding get_runnable_functions
get_runnable_functions_lem q fs = (
  ap (select (in_group_quota q)) (runnable_select q fs)
      ∙ select-select (in_group_quota q) (with_slot q fs) fs,
  perm-get_runnable_functions q fs,
  AllTrue-append q _ _
      (AllTrue-append q _ _ (AllTrue-reasons q paused q.is_paused fs (λ f e. rw e refl))
        (no_slot_true q fs))
      (no_quota_true q fs),
)
