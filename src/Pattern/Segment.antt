-- ===== src/Pattern/Segment.antt =====
-- One segment of a pattern of packages/shared/src/shared/patterns.py, as a relation.
use upnext.Prelude.{ℕ, ◌≡◌, ◌≢◌, ◌↔◌, refl, [], ◌∷◌, Bool, true, ◌==◌, arith, Bool-cases, inl, inr}
use upnext.Pattern.{Text, dot, star, text_eq, some_then, segment_match}

-- A star stands for one or more characters other than a dot.
pub data Segment : Text → Text → Type 0 where
  done : Segment [] []
  same : {c d : ℕ} {cs ds : Text} → c ≡ d → c ≢ star → Segment cs ds → Segment (c ∷ cs) (d ∷ ds)
  last :
      (d : ℕ) {c : ℕ} {cs ds : Text}
      → c ≡ star
      → d ≢ dot
      → Segment cs ds
      → Segment (c ∷ cs) (d ∷ ds)
  more :
      (d : ℕ) {c : ℕ} {cs ds : Text}
      → c ≡ star
      → d ≢ dot
      → Segment (c ∷ cs) ds
      → Segment (c ∷ cs) (d ∷ ds)

pub text_eq_iff : (s t : Text) → (text_eq s t ≡ true) ↔ (s ≡ t)
unfolding text_eq
text_eq_iff [] [] = (λ h. refl, λ h. refl)
text_eq_iff [] (d ∷ ds) = (λ h. cc, λ h. cc)
text_eq_iff (c ∷ cs) [] = (λ h. cc, λ h. cc)
text_eq_iff (c ∷ cs) (d ∷ ds) =
    (λ h. ground (arith, text_eq_iff cs ds), λ h. ground (arith, text_eq_iff cs ds))

some_then_sound :
    (c : ℕ) (cs : Text) (k : Text → Bool)
    → c ≡ star
    → ((ds : Text) → k ds ≡ true → Segment cs ds)
    → (ds : Text) → some_then k ds ≡ true
    → Segment (c ∷ cs) ds
unfolding some_then
some_then_sound c cs k s h [] p = cc
some_then_sound c cs k s h (d ∷ ds) p = elim (Bool-cases (k ds)) [
  | inl q ↦ last d s (ground arith) (h ds q)
  | inr q ↦ more d s (ground arith) (some_then_sound c cs k s h ds (ground arith))
]

Segment-sound : (p t : Text) → segment_match p t ≡ true → Segment p t
unfolding segment_match
Segment-sound [] [] h = done
Segment-sound [] (d ∷ ds) h = cc
Segment-sound (c ∷ cs) [] h = cc
Segment-sound (c ∷ cs) (d ∷ ds) h = elim (Bool-cases (c == star)) [
  | inl q ↦
      some_then_sound c cs (segment_match cs) (ground arith) (Segment-sound cs) (d ∷ ds)
        (ground arith)
  | inr q ↦ same (ground arith) (ground arith) (Segment-sound cs ds (ground arith))
]

star_match :
    (c : ℕ) (cs ds : Text) → c ≡ star → segment_match (c ∷ cs) ds ≡ some_then (segment_match cs) ds
unfolding segment_match
star_match c cs [] e = refl
star_match c cs (d ∷ ds) e = ground arith

Segment-complete : {p t : Text} → Segment p t → segment_match p t ≡ true
unfolding segment_match
Segment-complete done = refl
Segment-complete (same e n s) = ground (arith, Segment-complete s)
Segment-complete (last d e n s) = ground (arith, Segment-complete s)
Segment-complete (more d {c} {cs} {ds} e n s) =
    ground (arith, Segment-complete s, star_match c cs ds e)

-- The compiled segment matches exactly the texts that the segment stands for.
pub segment_match_iff : (p t : Text) → (segment_match p t ≡ true) ↔ Segment p t
segment_match_iff p t = (Segment-sound p t, Segment-complete)
