-- ===== src/Queue/Fair.antt =====
-- The order in which a worker polls its functions: `_fair_order_functions` of
-- packages/upnext/src/upnext/engine/queue/redis/queue.py.
use mathlib.Core.List.{Perm, perm_append_comm}
use mathlib.Core.Path.{subst}
use native.Mathlib.Nat.{mod-lt, mod-eq_of_lt, mod-add-mod, add-mod_right}
use upnext.Prelude.{
  ℕ, zero, suc, ◌+◌, ◌-◌, ◌%◌, ◌<◌, ◌≤◌, ◌≡◌, sym, ap, ◌∙◌, List, [], ◌∷◌, ◌++◌, length, take, drop,
  get_elem?, take-append-drop, get_elem?-drop, arith, Bool-cases, ltb, inl, inr,
}

turn : (cursor i count : ℕ) → i < count → (n : ℕ) × (n < count) × ((cursor + n) % count ≡ i)
turn cursor i count h =
    let s : ℕ = cursor % count in
    let l : s < count = mod-lt cursor (omega arith) in
    elim (Bool-cases (ltb i s)) [
      | inl e ↦
          let k : i < s = ground arith in
          let m : s + (count + i - s) ≡ i + count = omega arith in
          (
            count + i - s,
            omega arith,
            sym (mod-add-mod cursor count (count + i - s))
                ∙ ap (λ k. k % count) m
                ∙ add-mod_right i count
                ∙ mod-eq_of_lt h,
          )
      | inr e ↦
          let k : s ≤ i = ground arith in
          let m : s + (i - s) ≡ i = omega arith in
          (
            i - s,
            omega arith,
            sym (mod-add-mod cursor count (i - s)) ∙ ap (λ k. k % count) m ∙ mod-eq_of_lt h,
          )
    ]

module _ {A : Type 0} where
  -- The order, and the new cursor.
  unfoldable pub fair_order_functions : ℕ → List A → List A × ℕ
  fair_order_functions cursor [] = ([], cursor)
  fair_order_functions cursor (f ∷ fs) =
      let count = length (f ∷ fs) in
      let start = cursor % count in
      (drop start (f ∷ fs) ++ take start (f ∷ fs), (start + 1) % count)

  -- The order that the call after `n` others gets, all with the same functions.
  unfoldable pub nth_order : ℕ → ℕ → List A → List A
  nth_order zero cursor fs = (fair_order_functions cursor fs).0
  nth_order (suc n) cursor fs = nth_order n (fair_order_functions cursor fs).1 fs

  -- Every order is a rearrangement of the functions.
  pub fair_order_functions-Perm :
      (cursor : ℕ) (fs : List A) → Perm (fair_order_functions cursor fs).0 fs
  unfolding fair_order_functions
  fair_order_functions-Perm cursor [] = perm_append_comm [] []
  fair_order_functions-Perm cursor (f ∷ fs) =
      let start = cursor % length (f ∷ fs) in
      subst (Perm (drop start (f ∷ fs) ++ take start (f ∷ fs))) (take-append-drop start (f ∷ fs))
        (perm_append_comm (drop start (f ∷ fs)) (take start (f ∷ fs)))

  first-nth_order :
      (n cursor : ℕ) (f : A) (fs : List A)
      → get_elem? (nth_order n cursor (f ∷ fs)) 0
        ≡ get_elem? (f ∷ fs) ((cursor + n) % length (f ∷ fs))
  unfolding nth_order fair_order_functions
  first-nth_order zero cursor f fs =
      get_elem?-drop (cursor % length (f ∷ fs)) (f ∷ fs) _ (mod-lt cursor (omega arith))
      ∙ ap (λ k. get_elem? (f ∷ fs) (k % length (f ∷ fs))) (omega arith)
  first-nth_order (suc n) cursor f fs =
      let count : ℕ = length (f ∷ fs) in
      let same : ((cursor % count + 1) % count + n) % count ≡ (cursor + suc n) % count =
        mod-add-mod (cursor % count + 1) count n
        ∙ ap (λ k. k % count) (omega arith)
        ∙ mod-add-mod cursor count (suc n) in
      first-nth_order n ((cursor % count + 1) % count) f fs ∙ ap (get_elem? (f ∷ fs)) same

  -- From any cursor on, as many calls with the same functions as there are functions poll each
  -- function first in one of them.
  pub first-nth_order_every :
      (cursor : ℕ) (fs : List A) (i : ℕ)
      → i < length fs
      → (n : ℕ) × (n < length fs) × (get_elem? (nth_order n cursor fs) 0 ≡ get_elem? fs i)
  first-nth_order_every cursor [] i h = absurd (omega arith)
  first-nth_order_every cursor (f ∷ fs) i h =
      let (n, l, e) = turn cursor i (length (f ∷ fs)) h in
      (n, l, first-nth_order n cursor f fs ∙ ap (get_elem? (f ∷ fs)) e)
