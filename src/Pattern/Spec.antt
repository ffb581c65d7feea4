-- ===== src/Pattern/Spec.antt =====
-- What an event pattern of packages/shared/src/shared/patterns.py stands for, as a relation on the
-- dot-separated segments.
use upnext.Prelude.{◌≡◌, ◌≢◌, ◌↔◌, refl, List, [], ◌∷◌, true, arith, Bool-cases, inl, inr}
use upnext.Pattern.{
  Text, double_star, text_eq, segment_match, match_parts, split, matches_event_pattern,
}
use upnext.Pattern.Segment.{Segment, segment_match_iff, text_eq_iff}

-- A double star takes all the segments that are left. What stands behind it is not looked at if
-- there is a segment left, and may not be there if there is none.
pub data Accepts : List Text → List Text → Type 0 where
  done : Accepts [] []
  none_left : {p : Text} → p ≡ double_star → Accepts (p ∷ []) []
  all_left :
      {p : Text} (ps : List Text) (e : Text) (es : List Text)
      → p ≡ double_star
      → Accepts (p ∷ ps) (e ∷ es)
  next :
      {p e : Text} {ps es : List Text}
      → p ≢ double_star
      → Segment p e
      → Accepts ps es
      → Accepts (p ∷ ps) (e ∷ es)

match_parts_sound : (ps es : List Text) → match_parts ps es ≡ true → Accepts ps es
unfolding match_parts
match_parts_sound [] [] h = done
match_parts_sound [] (e ∷ es) h = cc
match_parts_sound (p ∷ []) [] h = none_left ((text_eq_iff p double_star).0 h)
match_parts_sound (p ∷ q ∷ ps) [] h = cc
match_parts_sound (p ∷ ps) (e ∷ es) h = elim (Bool-cases (text_eq p double_star)) [
  | inl s ↦ all_left ps e es ((text_eq_iff p double_star).0 s)
  | inr s ↦ elim (Bool-cases (segment_match p e)) [
    | inl m ↦
        next (λ q. cc (s, (text_eq_iff p double_star).1 q)) ((segment_match_iff p e).0 m)
          (match_parts_sound ps es (ground arith))
    | inr m ↦ absurd (ground arith)
  ]
]

match_parts_complete : {ps es : List Text} → Accepts ps es → match_parts ps es ≡ true
unfolding match_parts
match_parts_complete done = refl
match_parts_complete (none_left {p} q) = (text_eq_iff p double_star).1 q
match_parts_complete (all_left {p} ps e es q) = ground (arith, (text_eq_iff p double_star).1 q)
match_parts_complete (next {p} {e} n s a) =
    ground (arith, (segment_match_iff p e).1 s, match_parts_complete a)

double_star_parts : (es : List Text) → match_parts (split double_star) es ≡ true
unfolding match_parts split
double_star_parts [] = refl
double_star_parts (e ∷ es) = refl

matches-eq-match_parts :
    (event pattern_ : Text)
    → matches_event_pattern event pattern_ ≡ match_parts (split pattern_) (split event)
unfolding matches_event_pattern
matches-eq-match_parts event pattern_ = elim (Bool-cases (text_eq pattern_ double_star)) [
  | inl s ↦ rw (s, (text_eq_iff pattern_ double_star).0 s, double_star_parts) refl
  | inr s ↦ rw s refl
]

-- A pattern matches an event exactly when its segments accept those of the event.
pub matches_event_pattern_iff :
    (event pattern_ : Text)
    → (matches_event_pattern event pattern_ ≡ true) ↔ Accepts (split pattern_) (split event)
matches_event_pattern_iff event pattern_ =
    rw (matches-eq-match_parts event pattern_)
      (match_parts_sound (split pattern_) (split event), match_parts_complete)
