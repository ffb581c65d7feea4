-- ===== src/Tests/Pattern.antt =====
-- Tests of packages/shared/src/shared/patterns.py and of
-- packages/upnext/src/upnext/engine/event_router.py.
use upnext.Prelude.{◌≡◌, ◌↔◌, ◌⊎◌, refl, none, [], ◌∷◌, ◌++◌, Bool, true, false}
use upnext.Pattern.{Text, split, segment_match, matches_event_pattern, get_matching_patterns}
use upnext.Pattern.Segment.{Segment, segment_match_iff}
use upnext.Pattern.Spec.{Accepts, matches_event_pattern_iff}
use upnext.Pattern.Literal.{matches_plain}
use upnext.Router.{EventDefinition, Router, register, unregister, match}
use upnext.Router.Matching.{match-register, Absent, unregister_cases}

abbrev user : Text
user = b'u' ∷ b's' ∷ []

abbrev user_signup : Text
user_signup = b'u' ∷ b's' ∷ b'.' ∷ b'u' ∷ b'p' ∷ []

abbrev user_any : Text
user_any = b'u' ∷ b's' ∷ b'.' ∷ b'*' ∷ []

abbrev user_all_in : Text
user_all_in = b'u' ∷ b's' ∷ b'.' ∷ b'*' ∷ b'*' ∷ b'.' ∷ b'i' ∷ b'n' ∷ []

one_star : matches_event_pattern user_signup user_any ≡ true
unfolding matches_event_pattern
one_star = refl

one_star_short : matches_event_pattern user user_any ≡ false
unfolding matches_event_pattern
one_star_short = refl

-- What follows a double star inside a pattern is not looked at.
behind_double_star : matches_event_pattern user_signup user_all_in ≡ true
unfolding matches_event_pattern
behind_double_star = refl

matching : get_matching_patterns user_signup (user ∷ user_any ∷ []) ≡ user_any ∷ []
unfolding get_matching_patterns
matching = refl

matches_event_pattern_iff_example :
    (matches_event_pattern user_signup user_any ≡ true)
    ↔ Accepts (split user_any) (split user_signup)
matches_event_pattern_iff_example = matches_event_pattern_iff user_signup user_any

segment_match_iff_example : (segment_match (b'*' ∷ []) user ≡ true) ↔ Segment (b'*' ∷ []) user
segment_match_iff_example = segment_match_iff (b'*' ∷ []) user

matches_plain_example : (matches_event_pattern user_signup user ≡ true) ↔ (user_signup ≡ user)
matches_plain_example = matches_plain user_signup user ((λ e. cc), ((λ e. cc), tt))

abbrev router : Router Bool
router = record { pattern_ = user; handler = false; name = user; is_async = false } ∷ []

match-register_example :
    match user_signup (register user_any true user none true router)
    ≡ record { pattern_ = user_any; handler = true; name = user; is_async = true } ∷ []
unfolding match register matches_event_pattern
match-register_example = match-register user_signup user_any true user none true router

unregister_cases_example :
    (Absent user router × (unregister user router ≡ (false, router)))
    ⊎ ((xs : Router Bool) × (d : EventDefinition Bool) × (ys : Router Bool) × (router
          ≡ xs ++ d ∷ ys)
        × Absent user xs
        × (d.name ≡ user)
        × (unregister user router ≡ (true, xs ++ ys)))
unregister_cases_example = unregister_cases user router
