-- ===== src/Queue/Missed.antt =====
-- What `_cron_missed_windows` of packages/upnext/src/upnext/engine/queue/redis/queue.py returns.
use mathlib.Core.Path.{subst, subst⁻¹}
use mathlib.Core.List.{Memᴰ}
use mathlib.Core.List.Memᴰ
use upnext.Prelude.{
  ℕ, zero, suc, ◌<◌, ◌≤◌, ◌≡◌, ◌↔◌, ◌⊎◌, refl, sym, Option, List, [], ◌∷◌, true, false, arith,
  Bool-cases, ltb, leb, inl, inr,
}
use upnext.Queue.Windows.{max_windows, recent, cutoff_of, keep, scan, cron_missed_windows}

-- The k-th run after an instant.
abbrev pub nth_run : (ℕ → ℕ) → ℕ → ℕ → ℕ
nth_run next zero t = t
nth_run next (suc k) t = nth_run next k (next t)

-- The window is one of the first runs, it is not in the future, and it is not older than the cutoff.
pub record Missed (next : ℕ → ℕ) (now fuel start : ℕ) (cutoff : Option ℕ) (w : ℕ) : Type 0 where
  pub index : ℕ
  pub in_range : index < fuel
  pub is_run : nth_run next index start ≡ w
  pub due : w ≤ now
  pub is_recent : recent cutoff w ≡ true

-- The list rises, and starts no earlier than the bound.
abbrev pub RisesFrom : ℕ → List ℕ → Type 0
RisesFrom n [] = Unit {0}
RisesFrom n (x ∷ xs) = (n ≤ x) × RisesFrom (suc x) xs

RisesFrom-weaken : (m n : ℕ) (xs : List ℕ) → m ≤ n → RisesFrom n xs → RisesFrom m xs
RisesFrom-weaken m n [] h r = tt
RisesFrom-weaken m n (x ∷ xs) h r = (omega (arith, r.0), r.1)

le-nth_run : (next : ℕ → ℕ) → ((t : ℕ) → t < next t) → (k t : ℕ) → t ≤ nth_run next k t
le-nth_run next p zero t = omega arith
le-nth_run next p (suc k) t = omega (arith, p t, le-nth_run next p k (next t))

keep-RisesFrom :
    (cutoff : Option ℕ) (c : ℕ) (rest : List ℕ)
    → RisesFrom (suc c) rest
    → RisesFrom c (keep cutoff c rest)
keep-RisesFrom cutoff c rest r = elim (Bool-cases (recent cutoff c)) [
  | inl e ↦ rw (e, RisesFrom) (omega arith, r)
  | inr e ↦ rw e (RisesFrom-weaken c (suc c) rest (omega arith) r)
]

mem-keep :
    (cutoff : Option ℕ) (c w : ℕ) (rest : List ℕ)
    → Memᴰ w (keep cutoff c rest)
    → ((w ≡ c) × (recent cutoff c ≡ true)) ⊎ Memᴰ w rest
mem-keep cutoff c w rest m = elim (Bool-cases (recent cutoff c)) [
  | inl e ↦ elim (Memᴰ.cases_cons (rw e at m)) [ inl q ↦ inl (q, e) | inr m' ↦ inr m' ]
  | inr e ↦ inr (rw e at m)
]

mem-keep_old :
    (cutoff : Option ℕ) (c w : ℕ) (rest : List ℕ) → Memᴰ w rest → Memᴰ w (keep cutoff c rest)
mem-keep_old cutoff c w rest m = elim (Bool-cases (recent cutoff c)) [
  | inl e ↦ rw e (Memᴰ.tail m)
  | inr e ↦ rw e m
]

mem-keep_new :
    (cutoff : Option ℕ) (c w : ℕ) (rest : List ℕ)
    → w ≡ c
    → recent cutoff c ≡ true
    → Memᴰ w (keep cutoff c rest)
mem-keep_new cutoff c w rest q e = rw e (Memᴰ.head q)

module _ (next : ℕ → ℕ) (now : ℕ) (cutoff : Option ℕ) where
  scan_past : (n c : ℕ) → ltb now c ≡ true → scan next now cutoff (suc n) c ≡ []
  unfolding scan
  scan_past n c e = rw e refl

  scan_last :
      (n c : ℕ)
      → ltb now c ≡ false
      → leb (next c) c ≡ true
      → scan next now cutoff (suc n) c ≡ keep cutoff c []
  unfolding scan
  scan_last n c e s = rw (e, s) refl

  scan_on :
      (n c : ℕ)
      → ltb now c ≡ false
      → leb (next c) c ≡ false
      → scan next now cutoff (suc n) c ≡ keep cutoff c (scan next now cutoff n (next c))
  unfolding scan
  scan_on n c e s = rw (e, s) refl

  scan-RisesFrom : (fuel c : ℕ) → RisesFrom c (scan next now cutoff fuel c)
  unfolding scan
  scan-RisesFrom zero c = tt
  scan-RisesFrom (suc n) c = elim (Bool-cases (ltb now c)) [
    | inl e ↦ subst⁻¹ (RisesFrom c) (scan_past n c e) tt
    | inr e ↦ elim (Bool-cases (leb (next c) c)) [
      | inl s ↦ subst⁻¹ (RisesFrom c) (scan_last n c e s) (keep-RisesFrom cutoff c [] tt)
      | inr s ↦
          let up : suc c ≤ next c = ground arith in
          subst⁻¹ (RisesFrom c) (scan_on n c e s) (
            keep-RisesFrom cutoff c (scan next now cutoff n (next c))
              (RisesFrom-weaken (suc c) (next c) _ up (scan-RisesFrom n (next c))))
    ]
  ]

  Missed-now :
      (n c w : ℕ)
      → w ≡ c
      → ltb now c ≡ false
      → recent cutoff c ≡ true
      → Missed next now (suc n) c cutoff w
  Missed-now n c w q e r = record {
    index = 0;
    in_range = omega arith;
    is_run = sym q;
    due = ground arith;
    is_recent = rw q r;
  }

  Missed-later :
      (n c w : ℕ) → Missed next now n (next c) cutoff w → Missed next now (suc n) c cutoff w
  Missed-later n c w m = record {
    index = suc m.index;
    in_range = omega (arith, m.in_range);
    is_run = m.is_run;
    due = m.due;
    is_recent = m.is_recent;
  }

  scan_sound :
      (fuel c w : ℕ) → Memᴰ w (scan next now cutoff fuel c) → Missed next now fuel c cutoff w
  unfolding scan
  scan_sound zero c w m = absurd (Memᴰ.not-nil m)
  scan_sound (suc n) c w m = elim (Bool-cases (ltb now c)) [
    | inl e ↦ absurd (Memᴰ.not-nil (subst (Memᴰ w) (scan_past n c e) m))
    | inr e ↦ elim (Bool-cases (leb (next c) c)) [
      | inl s ↦ elim (mem-keep cutoff c w [] (subst (Memᴰ w) (scan_last n c e s) m)) [
        | inl (q, r) ↦ Missed-now n c w q e r
        | inr m' ↦ absurd (Memᴰ.not-nil m')
      ]
      | inr s ↦
          elim (mem-keep cutoff c w (scan next now cutoff n (next c))
            (subst (Memᴰ w) (scan_on n c e s) m)) [
              | inl (q, r) ↦ Missed-now n c w q e r
              | inr m' ↦ Missed-later n c w (scan_sound n (next c) w m')
            ]
    ]
  ]

  scan_more :
      ((t : ℕ) → t < next t)
      → (n c : ℕ) → c ≤ now
      → scan next now cutoff (suc n) c ≡ keep cutoff c (scan next now cutoff n (next c))
  scan_more p n c h =
      let e : ltb now c ≡ false = ground arith in
      let s : leb (next c) c ≡ false = ground (arith, p c) in scan_on n c e s

  scan_complete :
      ((t : ℕ) → t < next t)
      → (k fuel c w : ℕ) → k < fuel
      → nth_run next k c ≡ w
      → w ≤ now
      → recent cutoff w ≡ true
      → Memᴰ w (scan next now cutoff fuel c)
  scan_complete p k zero c w l q d r = absurd (omega arith)
  scan_complete p zero (suc n) c w l q d r =
      subst⁻¹ (Memᴰ w) (scan_more p n c (omega arith)) (mem-keep_new cutoff c w _ (sym q) (rw q r))
  scan_complete p (suc k) (suc n) c w l q d r =
      subst⁻¹ (Memᴰ w) (scan_more p n c (omega (arith, p c, le-nth_run next p k (next c))))
        (mem-keep_old cutoff c w _ (scan_complete p k n (next c) w (omega arith) q d r))

-- If the schedule always moves on, the missed windows are exactly the first 10000 runs from the next
-- one on that are due and not older than the catch-up limit.
pub cron_missed_windows_iff :
    (next : ℕ → ℕ) (now next_run_at : ℕ) (max_catch_up : Option ℕ) (w : ℕ)
    → ((t : ℕ) → t < next t)
    → Memᴰ w (cron_missed_windows next now next_run_at max_catch_up)
      ↔ Missed next now max_windows next_run_at (cutoff_of now max_catch_up) w
unfolding cron_missed_windows
cron_missed_windows_iff next now next_run_at max_catch_up w p =
    elim (Bool-cases (ltb now next_run_at)) [
      | inl e ↦ rw e (
        λ m. absurd (Memᴰ.not-nil m),
        λ m. absurd (ground (arith, le-nth_run next p m.index next_run_at, m.is_run, m.due)),
      )
      | inr e ↦ rw e (
        scan_sound next now (cutoff_of now max_catch_up) max_windows next_run_at w,
        λ m.
            scan_complete next now (cutoff_of now max_catch_up) p m.index max_windows next_run_at w
              m.in_range m.is_run m.due m.is_recent,
      )
    ]

-- The missed windows rise strictly from the next run on, so that none occurs twice, whatever the
-- schedule.
pub cron_missed_windows-RisesFrom :
    (next : ℕ → ℕ) (now next_run_at : ℕ) (max_catch_up : Option ℕ)
    → RisesFrom next_run_at (cron_missed_windows next now next_run_at max_catch_up)
unfolding cron_missed_windows
cron_missed_windows-RisesFrom next now next_run_at max_catch_up =
    elim (Bool-cases (ltb now next_run_at)) [
      | inl e ↦ rw e tt
      | inr e ↦ rw e (scan-RisesFrom next now (cutoff_of now max_catch_up) max_windows next_run_at)
    ]
