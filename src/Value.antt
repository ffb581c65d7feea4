-- ===== src/Value.antt =====
-- The values that job payloads hold: what `json.loads` returns and `json.dumps` takes
-- (packages/shared/src/shared/domain/jobs.py builds and reads dictionaries of them).
-- A float is held in millionths.
use upnext.Prelude.{
  ℕ, String, Option, none, some, Bool, true, false, not, ◌==◌, str_eq, if◌then◌else◌,
}

mutual
  pub data Value : Type 0 where
    null : Value
    bool : Bool → Value
    int : ℕ → Value
    float : ℕ → Value
    str : String → Value
    array : Items → Value
    object : Fields → Value

  pub data Fields : Type 0 where
    end : Fields
    field : String → Value → Fields → Fields

  pub data Items : Type 0 where
    nil : Items
    cons : Value → Items → Items

-- `d.get(key)`: a key that is not there reads as none.
abbrev pub get : Fields → String → Option Value
get end k = none
get (field j v rest) k = if str_eq j k then some v else get rest k

-- `d.get(key)`, where None stands for a missing key too.
abbrev pub get_or_null : Fields → String → Value
get_or_null d k = elim (get d k) [ none ↦ null | some v ↦ v ]

-- `d.get(key, default)`
abbrev pub get_default : Fields → String → Value → Value
get_default d k v = elim (get d k) [ none ↦ v | some w ↦ w ]

-- `bool(value)`
abbrev pub truthy : Value → Bool
truthy null = false
truthy (bool b) = b
truthy (int n) = not (n == 0)
truthy (float n) = not (n == 0)
truthy (str s) = not (str_eq s "")
truthy (array nil) = false
truthy (array (cons _ _)) = true
truthy (object end) = false
truthy (object (field _ _ _)) = true

-- `a or b`
abbrev pub or_else : Value → Value → Value
or_else a b = if truthy a then a else b
