-- ===== src/Pattern.antt =====
-- Wildcard matching of event names: packages/shared/src/shared/patterns.py. A text is the list of its
-- code points.
pub mod Segment
pub mod Spec
pub mod Literal
use upnext.Prelude.{ℕ, List, [], ◌∷◌, Bool, true, false, ◌&&◌, ◌||◌, ◌==◌, if◌then◌else◌}

abbrev pub Text : Type 0
Text = List ℕ

abbrev pub dot : ℕ
dot = b'.'

abbrev pub star : ℕ
star = b'*'

abbrev pub double_star : Text
double_star = b'*' ∷ b'*' ∷ []

unfoldable pub text_eq : Text → Text → Bool
text_eq [] [] = true
text_eq [] (d ∷ ds) = false
text_eq (c ∷ cs) [] = false
text_eq (c ∷ cs) (d ∷ ds) = c == d && text_eq cs ds

-- The first text of a list with one more character in front.
abbrev pub push_first : ℕ → List Text → List Text
push_first c [] = (c ∷ []) ∷ []
push_first c (t ∷ ts) = (c ∷ t) ∷ ts

-- `text.split(".")`
unfoldable pub split : Text → List Text
split [] = [] ∷ []
split (c ∷ cs) = let rest = split cs in if c == dot then [] ∷ rest else push_first c rest

-- `[^.]+` followed by what `k` matches.
unfoldable pub some_then : (Text → Bool) → Text → Bool
some_then k [] = false
some_then k (c ∷ cs) = let more = some_then k cs in if c == dot then false else k cs || more

-- `re.fullmatch(_segment_regex(pattern), text)`: a star is `[^.]+`, any other character itself.
unfoldable pub segment_match : Text → Text → Bool
unfolding some_then
segment_match [] [] = true
segment_match [] (d ∷ ds) = false
segment_match (c ∷ cs) [] = false
segment_match (c ∷ cs) (d ∷ ds) =
    let k = segment_match cs in if c == star then some_then k (d ∷ ds) else c == d && k ds

-- The loop over both lists of segments, and the two tests after it.
unfoldable pub match_parts : List Text → List Text → Bool
unfolding text_eq segment_match
match_parts [] [] = true
match_parts [] (e ∷ es) = false
match_parts (p ∷ []) [] = text_eq p double_star
match_parts (p ∷ q ∷ ps) [] = false
match_parts (p ∷ ps) (e ∷ es) =
    let rest = match_parts ps es in
    if text_eq p double_star then true else if segment_match p e then rest else false

unfoldable pub matches_event_pattern : Text → Text → Bool
unfolding match_parts split
matches_event_pattern event pattern_ =
    if text_eq pattern_ double_star then true else match_parts (split pattern_) (split event)

unfoldable pub get_matching_patterns : Text → List Text → List Text
unfolding matches_event_pattern
get_matching_patterns event [] = []
get_matching_patterns event (p ∷ ps) =
    let rest = get_matching_patterns event ps in
    if matches_event_pattern event p then p ∷ rest else rest
