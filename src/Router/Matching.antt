-- ===== src/Router/Matching.antt =====
-- Registration, removal and delivery of packages/upnext/src/upnext/engine/event_router.py.
use upnext.Prelude.{
  ◌≡◌, ◌≢◌, ◌⊎◌, inl, inr, refl, ap, Option, [], ◌∷◌, ◌++◌, Bool, true, false, arith, if◌then◌else◌,
  Bool-cases,
}
use upnext.Pattern.{Text, text_eq, matches_event_pattern}
use upnext.Pattern.Segment.{text_eq_iff}
use upnext.Router.{EventDefinition, Router, register, unregister, match, name_or}

module _ {Handler : Type 0} where
  match-append : (e : Text) (xs ys : Router Handler) → match e (xs ++ ys) ≡ match e xs ++ match e ys
  unfolding match
  match-append e [] ys = refl
  match-append e (x ∷ xs) ys = ground (arith, match-append e xs ys)

  -- A new registration is delivered to after all older ones, exactly if its pattern accepts the
  -- event; the deliveries to the older ones stay.
  pub match-register :
      (e p : Text) (h : Handler) (default : Text) (name : Option Text) (is_async : Bool)
      (r : Router Handler)
      → match e (register p h default name is_async r)
        ≡ match e r
          ++ (if matches_event_pattern e p
              then record {
                pattern_ = p;
                handler = h;
                name = name_or name default;
                is_async = is_async;
              }
                ∷ []
              else [])
  unfolding register
  match-register e p h default name is_async r =
      rw match-append (ap (λ x. match e r ++ x) (unfold match in ground arith))

  -- No definition of the list has the name.
  abbrev pub Absent : Text → Router Handler → Type 0
  Absent name [] = Unit {0}
  Absent name (d ∷ ds) = (d.name ≢ name) × Absent name ds

  -- Removal by name takes out the first definition of that name and reports it; where there is none
  -- it reports that and keeps all.
  pub unregister_cases :
      (name : Text) (r : Router Handler)
      → (Absent name r × (unregister name r ≡ (false, r)))
        ⊎ ((xs : Router Handler) × (d : EventDefinition Handler) × (ys : Router Handler) × (r
              ≡ xs ++ d ∷ ys)
            × Absent name xs
            × (d.name ≡ name)
            × (unregister name r ≡ (true, xs ++ ys)))
  unfolding unregister
  unregister_cases name [] = inl (tt, refl)
  unregister_cases name (d ∷ ds) = elim (Bool-cases (text_eq d.name name)) [
    | inl q ↦ inr ([], d, ds, refl, tt, (text_eq_iff d.name name).0 q, rw q refl)
    | inr q ↦
        let n : d.name ≢ name = λ e. cc (q, (text_eq_iff d.name name).1 e) in
        elim (unregister_cases name ds) [
          | inl (a, e) ↦ inl ((n, a), rw (q, e) refl)
          | inr (xs, x, ys, e, a, m, u) ↦
              inr (d ∷ xs, x, ys, ap (λ l. d ∷ l) e, (n, a), m, rw (q, u) refl)
        ]
  ]
