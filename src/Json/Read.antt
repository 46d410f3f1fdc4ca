-- ===== src/Json/Read.antt =====
-- Reading the fields of a JSON document by their types.
use js_sidecar.Prelude.{
  ℕ, ◌^◌, ◌≡◌, refl, Bool, Option, none, some, List, [], ◌∷◌, map, String, ltb, if◌then◌else◌,
}
use js_sidecar.Json.{
  Json, value, number, boolean, string, array, object, Elements, no_elements, element, Members,
  no_members, member, elements, members,
}

infixl 5 ◌>>=◌
abbrev pub ◌>>=◌ {ℓ κ} : {A : Type ℓ} {B : Type κ} → Option A → (A → Option B) → Option B
none >>= f = none
some a >>= f = f a

module _ {V : Type 0} where
  abbrev pub read_string : Json V → Option String
  read_string (string s) = some s
  read_string _ = none

  abbrev pub read_boolean : Json V → Option Bool
  read_boolean (boolean b) = some b
  read_boolean _ = none

  abbrev pub read_value : Json V → Option V
  read_value (value v) = some v
  read_value _ = none

  -- A number of JavaScript is exact up to here.
  abbrev pub read_number : Json V → Option ℕ
  read_number (number n) = if ltb n (2 ^ 53) then some n else none
  read_number _ = none

  module _ {A : Type 0} (read : Json V → Option A) where
    abbrev pub read_elements : Elements V → Option (List A)
    read_elements no_elements = some []
    read_elements (element j js) = do a ← read j; xs ← read_elements js; some (a ∷ xs)

    abbrev pub read_array : Json V → Option (List A)
    read_array (array js) = read_elements js
    read_array _ = none

    abbrev pub read_members : Members V → Option (List (String × A))
    read_members no_members = some []
    read_members (member name j rest) = do a ← read j; xs ← read_members rest; some ((name, a) ∷ xs)

    abbrev pub read_entries : Json V → Option (List (String × A))
    read_entries (object ms) = read_members ms
    read_entries _ = none

    -- A field that must be there, and one that may be missing.
    abbrev pub required : Option (Json V) → Option A
    required none = none
    required (some j) = read j

    abbrev pub optional : Option (Json V) → Option (Option A)
    optional none = some none
    optional (some j) = do a ← read j; some (some a)

  pub read_elements-map :
      {A B : Type 0} (read : Json V → Option B) (write : A → Json V) (view : A → B)
      → ((a : A) → read (write a) ≡ some (view a))
      → (xs : List A) → read_elements read (elements (map write xs)) ≡ some (map view xs)
  read_elements-map read write view inverse [] = refl
  read_elements-map read write view inverse (a ∷ xs) =
      rw (inverse a, read_elements-map read write view inverse xs) refl

  pub read_members-value :
      (xs : List (String × V))
      → read_members read_value (members (map (λ x. (x.0, some (value x.1))) xs)) ≡ some xs
  read_members-value [] = refl
  read_members-value (x ∷ xs) = rw (read_members-value xs) refl
