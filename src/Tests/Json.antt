-- ===== src/Tests/Json.antt =====
-- A text code of values that reads back, for the tests of the queue: a value is written after its
-- parts, and a reader keeps the parts that it has read.
use Prim.Native.Char.{Char}
use upnext.Prelude.{
  ℕ, zero, suc, String, ◌≡◌, refl, ◌∙◌, Option, none, some, List, [], ◌∷◌, Bool, true, false,
  str_eq, if◌then◌else◌,
}
use upnext.Value.{
  Value, null, bool, int, float, str, array, object, Items, nil, cons, Fields, end, field,
}
use upnext.Queue.Redis.{Json}

pub data Part : Type 0 where
  whole : Value → Part
  items : Items → Part
  fields : Fields → Part
  number : ℕ → Part
  text : String → Part

abbrev pub is_char : Char → Char → Bool
is_char c d = str_eq (String.◌∷◌ c "") (String.◌∷◌ d "")

abbrev pub to_int : List Part → Option (List Part)
to_int (number n ∷ st) = some (whole (int n) ∷ st)
to_int _ = none

abbrev pub to_float : List Part → Option (List Part)
to_float (number n ∷ st) = some (whole (float n) ∷ st)
to_float _ = none

abbrev pub more : List Part → Option (List Part)
more (number n ∷ st) = some (number (suc n) ∷ st)
more _ = none

abbrev pub to_str : List Part → Option (List Part)
to_str (text s ∷ st) = some (whole (str s) ∷ st)
to_str _ = none

abbrev pub to_array : List Part → Option (List Part)
to_array (items xs ∷ st) = some (whole (array xs) ∷ st)
to_array _ = none

abbrev pub to_object : List Part → Option (List Part)
to_object (fields d ∷ st) = some (whole (object d) ∷ st)
to_object _ = none

abbrev pub add_item : List Part → Option (List Part)
add_item (whole v ∷ (items xs ∷ st)) = some (items (cons v xs) ∷ st)
add_item _ = none

abbrev pub add_field : List Part → Option (List Part)
add_field (whole v ∷ (text k ∷ (fields d ∷ st))) = some (fields (field k v d) ∷ st)
add_field _ = none

abbrev pub add_char : Char → List Part → Option (List Part)
add_char c (text s ∷ st) = some (text (String.◌∷◌ c s) ∷ st)
add_char c _ = none

abbrev pub act : Char → List Part → Option (List Part)
act c st =
    if is_char c "n"
    then some (whole null ∷ st)
    else if is_char c "t"
    then some (whole (bool true) ∷ st)
    else if is_char c "f"
    then some (whole (bool false) ∷ st)
    else if is_char c "0"
    then some (number 0 ∷ st)
    else if is_char c "1"
    then more st
    else if is_char c "i"
    then to_int st
    else if is_char c "d"
    then to_float st
    else if is_char c "e"
    then some (text "" ∷ st)
    else if is_char c "s"
    then to_str st
    else if is_char c "z"
    then some (items nil ∷ st)
    else if is_char c ","
    then add_item st
    else if is_char c "a"
    then to_array st
    else if is_char c "x"
    then some (fields end ∷ st)
    else if is_char c ":"
    then add_field st
    else if is_char c "o"
    then to_object st
    else none

abbrev pub result : List Part → Option Value
result (whole v ∷ []) = some v
result _ = none

unfoldable read : String → List Part → Option Value
read String.[] st = result st
read (String.◌∷◌ c String.[]) st = elim (act c st) [ none ↦ none | some st' ↦ result st' ]
read (String.◌∷◌ c (String.◌∷◌ d s)) st =
    if is_char c "q"
    then elim (add_char d st) [ none ↦ none | some st' ↦ read s st' ]
    else elim (act c st) [ none ↦ none | some st' ↦ read (String.◌∷◌ d s) st' ]

unfoldable write_text : String → String → String
write_text String.[] r = String.◌∷◌ "e" r
write_text (String.◌∷◌ c s) r = write_text s (String.◌∷◌ "q" (String.◌∷◌ c r))

unfoldable write_number : ℕ → String → String
write_number zero r = String.◌∷◌ "0" r
write_number (suc n) r = write_number n (String.◌∷◌ "1" r)

unfoldable mutual
  unfolding write_text write_number

  write : Value → String → String
  write null r = String.◌∷◌ "n" r
  write (bool true) r = String.◌∷◌ "t" r
  write (bool false) r = String.◌∷◌ "f" r
  write (int n) r = write_number n (String.◌∷◌ "i" r)
  write (float n) r = write_number n (String.◌∷◌ "d" r)
  write (str s) r = write_text s (String.◌∷◌ "s" r)
  write (array xs) r = write_items xs (String.◌∷◌ "a" r)
  write (object d) r = write_fields d (String.◌∷◌ "o" r)

  write_items : Items → String → String
  write_items nil r = String.◌∷◌ "z" r
  write_items (cons v xs) r = write_items xs (write v (String.◌∷◌ "," r))

  write_fields : Fields → String → String
  write_fields end r = String.◌∷◌ "x" r
  write_fields (field k v d) r = write_fields d (write_text k (write v (String.◌∷◌ ":" r)))

step :
    (c : Char) (r : String) (st st' : List Part)
    → is_char c "q" ≡ false
    → act c st ≡ some st'
    → read (String.◌∷◌ c r) st ≡ read r st'
unfolding read
step c String.[] st st' q e = rw (read, e) refl
step c (String.◌∷◌ d r) st st' q e = rw (read, q, e) refl

read-write_number :
    (n : ℕ) (r : String) (st : List Part) → read (write_number n r) st ≡ read r (number n ∷ st)
unfolding write_number
read-write_number zero r st = step "0" r st _ refl refl
read-write_number (suc n) r st =
    read-write_number n (String.◌∷◌ "1" r) st ∙ step "1" r _ _ refl refl

read-write_text : (s r : String) (st : List Part) → read (write_text s r) st ≡ read r (text s ∷ st)
unfolding write_text read
read-write_text String.[] r st = step "e" r st _ refl refl
read-write_text (String.◌∷◌ c s) r st = read-write_text s (String.◌∷◌ "q" (String.◌∷◌ c r)) st

mutual
  unfolding write write_items write_fields

  read-write :
      (v : Value) (r : String) (st : List Part) → read (write v r) st ≡ read r (whole v ∷ st)
  read-write null r st = step "n" r st _ refl refl
  read-write (bool true) r st = step "t" r st _ refl refl
  read-write (bool false) r st = step "f" r st _ refl refl
  read-write (int n) r st = read-write_number n _ st ∙ step "i" r _ _ refl refl
  read-write (float n) r st = read-write_number n _ st ∙ step "d" r _ _ refl refl
  read-write (str s) r st = read-write_text s _ st ∙ step "s" r _ _ refl refl
  read-write (array xs) r st = read-write_items xs _ st ∙ step "a" r _ _ refl refl
  read-write (object d) r st = read-write_fields d _ st ∙ step "o" r _ _ refl refl

  read-write_items :
      (xs : Items) (r : String) (st : List Part)
      → read (write_items xs r) st ≡ read r (items xs ∷ st)
  read-write_items nil r st = step "z" r st _ refl refl
  read-write_items (cons v xs) r st =
      read-write_items xs _ st ∙ read-write v _ _ ∙ step "," r _ _ refl refl

  read-write_fields :
      (d : Fields) (r : String) (st : List Part)
      → read (write_fields d r) st ≡ read r (fields d ∷ st)
  read-write_fields end r st = step "x" r st _ refl refl
  read-write_fields (field k v d) r st =
      read-write_fields d _ st ∙ read-write_text k _ _ ∙ read-write v _ _ ∙ step ":" r _ _ refl refl

unfoldable pub loads : String → Option Value
unfolding read
loads s = read s []

unfoldable pub dumps : Value → String
unfolding write
dumps v = write v ""

pub loads_empty : loads "" ≡ none
unfolding loads read
loads_empty = refl

pub loads-dumps : (v : Value) → loads (dumps v) ≡ some v
unfolding loads dumps read
loads-dumps v = read-write v "" []

abbrev pub json : Json
json = record { dumps = dumps; loads = loads; loads_empty = loads_empty; loads-dumps = loads-dumps }
