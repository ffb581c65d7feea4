-- ===== src/Pattern/Literal.antt =====
-- Patterns of packages/shared/src/shared/patterns.py with no star match one event name only.
use upnext.Prelude.{
  ℕ, ◌≡◌, ◌≢◌, ◌↔◌, refl, List, [], ◌∷◌, ◌++◌, true, ◌==◌, arith, Bool-cases, inl, inr,
}
use upnext.Pattern.{Text, dot, star, double_star, push_first, split, matches_event_pattern}
use upnext.Pattern.Segment.{Segment, done, same, last, more}
use upnext.Pattern.Spec.{
  Accepts, done as finished, none_left, all_left, next, matches_event_pattern_iff,
}

-- `".".join(parts)`
join : List Text → Text
join [] = []
join (t ∷ []) = t
join (t ∷ u ∷ ts) = t ++ dot ∷ join (u ∷ ts)

join-push_first : (c : ℕ) (ts : List Text) → join (push_first c ts) ≡ c ∷ join ts
unfolding join
join-push_first c [] = refl
join-push_first c (t ∷ []) = refl
join-push_first c (t ∷ u ∷ ts) = refl

push_first-ne-nil : (c : ℕ) (ts : List Text) → push_first c ts ≢ []
push_first-ne-nil c [] h = cc
push_first-ne-nil c (t ∷ ts) h = cc

split-ne-nil : (t : Text) → split t ≢ []
unfolding split
split-ne-nil [] h = cc
split-ne-nil (c ∷ cs) h = ground (arith, push_first-ne-nil c (split cs))

join-dot : (ts : List Text) → ts ≢ [] → join ([] ∷ ts) ≡ dot ∷ join ts
unfolding join
join-dot [] h = absurd (h refl)
join-dot (t ∷ ts) h = refl

join-split : (t : Text) → join (split t) ≡ t
unfolding join split
join-split [] = refl
join-split (c ∷ cs) =
    ground
      (arith, join-split cs, join-dot (split cs) (split-ne-nil cs), join-push_first c (split cs))

-- No character of the text is a star.
abbrev pub IsPlain : Text → Type 0
IsPlain [] = Unit {0}
IsPlain (c ∷ cs) = (c ≢ star) × IsPlain cs

abbrev AllPlain : List Text → Type 0
AllPlain [] = Unit {0}
AllPlain (t ∷ ts) = IsPlain t × AllPlain ts

push_first-AllPlain : (c : ℕ) (ts : List Text) → c ≢ star → AllPlain ts → AllPlain (push_first c ts)
push_first-AllPlain c [] n h = ((n, tt), tt)
push_first-AllPlain c (t ∷ ts) n h = ((n, h.0), h.1)

split-AllPlain : (t : Text) → IsPlain t → AllPlain (split t)
unfolding split
split-AllPlain [] h = (tt, tt)
split-AllPlain (c ∷ cs) h = elim (Bool-cases (c == dot)) [
  | inl q ↦ rw q (tt, split-AllPlain cs h.1)
  | inr q ↦ rw q (push_first-AllPlain c (split cs) h.0 (split-AllPlain cs h.1))
]

Segment-plain : {p t : Text} → IsPlain p → Segment p t → t ≡ p
Segment-plain h done = refl
Segment-plain h (same {c} {d} {cs} {ds} e n s) = cc (Segment-plain h.1 s)
Segment-plain h (last d e n s) = absurd (h.0 e)
Segment-plain h (more d e n s) = absurd (h.0 e)

Segment-refl : (p : Text) → IsPlain p → Segment p p
Segment-refl [] h = done
Segment-refl (c ∷ cs) h = same refl h.0 (Segment-refl cs h.1)

plain_not_double_star : (p : Text) → IsPlain p → p ≢ double_star
plain_not_double_star [] h e = cc
plain_not_double_star (c ∷ cs) h e = h.0 (ground arith)

Accepts-plain : {ps es : List Text} → AllPlain ps → Accepts ps es → es ≡ ps
Accepts-plain h finished = refl
Accepts-plain h (none_left {p} e) = absurd (plain_not_double_star p h.0 e)
Accepts-plain h (all_left {p} ps x es e) = absurd (plain_not_double_star p h.0 e)
Accepts-plain h (next n s a) = cc (Segment-plain h.0 s, Accepts-plain h.1 a)

Accepts-refl : (ps : List Text) → AllPlain ps → Accepts ps ps
Accepts-refl [] h = finished
Accepts-refl (p ∷ ps) h =
    next (plain_not_double_star p h.0) (Segment-refl p h.0) (Accepts-refl ps h.1)

-- A pattern with no star in it matches the event of that very name, and no other.
pub matches_plain :
    (event pattern_ : Text)
    → IsPlain pattern_
    → (matches_event_pattern event pattern_ ≡ true) ↔ (event ≡ pattern_)
matches_plain event pattern_ h = (
  λ m. cc (
    Accepts-plain (split-AllPlain pattern_ h) ((matches_event_pattern_iff event pattern_).0 m),
    join-split event,
    join-split pattern_,
  ),
  λ e.
      (matches_event_pattern_iff event pattern_).1
        (rw e (Accepts-refl (split pattern_) (split-AllPlain pattern_ h))),
)
