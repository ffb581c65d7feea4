-- ===== src/Router.antt =====
-- The event router of packages/upnext/src/upnext/engine/event_router.py. Handlers are opaque; the
-- code takes their `__name__` where no name is given.
pub mod Matching
use upnext.Prelude.{Option, none, some, List, [], ◌∷◌, ◌++◌, Bool, true, false, if◌then◌else◌}
use upnext.Pattern.{Text, text_eq, matches_event_pattern}

pub record EventDefinition (Handler : Type 0) : Type 0 where
  pub pattern_ : Text
  pub handler : Handler
  pub name : Text
  pub is_async : Bool

abbrev pub Router : Type 0 → Type 0
Router Handler = List (EventDefinition Handler)

-- `name or default`
abbrev pub name_or : Option Text → Text → Text
name_or none d = d
name_or (some []) d = d
name_or (some (c ∷ cs)) d = c ∷ cs

module _ {Handler : Type 0} where
  unfoldable pub register :
      Text → Handler → Text → Option Text → Bool → Router Handler → Router Handler
  register pattern_ handler handler_name name is_async events =
      events
      ++ record {
        pattern_ = pattern_;
        handler = handler;
        name = name_or name handler_name;
        is_async = is_async;
      }
        ∷ []

  -- Whether a definition was found, and the definitions that are left.
  unfoldable pub unregister : Text → Router Handler → Bool × Router Handler
  unfolding text_eq
  unregister name [] = (false, [])
  unregister name (d ∷ ds) =
      let rest = unregister name ds in
      if text_eq d.name name then (true, ds) else (rest.0, d ∷ rest.1)

  unfoldable pub match : Text → Router Handler → Router Handler
  unfolding matches_event_pattern
  match event_name [] = []
  match event_name (d ∷ ds) =
      let rest = match event_name ds in
      if matches_event_pattern event_name d.pattern_ then d ∷ rest else rest
