-- ===== src/Json.antt =====
-- JSON documents, as serde_json and JavaScript's `JSON` write and read them. `V` is data of no fixed
-- shape (serde_json's `Value`); what has a fixed type in a message has it here. No object has a name
-- twice.
pub mod Read
use text.Mathlib.Text.{◌==◌}
use js_sidecar.Prelude.{
  ℕ, ◌≡◌, refl, Bool, true, false, Option, none, some, List, [], ◌∷◌, arith, String, if◌then◌else◌,
}

mutual
  pub data Json (V : Type 0) : Type 0 where
    value : V → Json V
    number : ℕ → Json V
    boolean : Bool → Json V
    string : String → Json V
    array : Elements V → Json V
    object : Members V → Json V

  pub data Elements (V : Type 0) : Type 0 where
    no_elements : Elements V
    element : Json V → Elements V → Elements V

  pub data Members (V : Type 0) : Type 0 where
    no_members : Members V
    member : String → Json V → Members V → Members V

module _ {V : Type 0} where
  abbrev pub elements : List (Json V) → Elements V
  elements [] = no_elements
  elements (j ∷ js) = element j (elements js)

  -- An object of those fields that are there.
  abbrev pub members : List (String × Option (Json V)) → Members V
  members [] = no_members
  members ((name, none) ∷ fields) = members fields
  members ((name, some j) ∷ fields) = member name j (members fields)

  abbrev pub find : String → Members V → Option (Json V)
  find name no_members = none
  find name (member other j rest) = if other == name then some j else find name rest

  abbrev pub first : Option (Json V) → Option (Json V) → Option (Json V)
  first none later = later
  first (some j) later = some j

  abbrev pub pick : String → List (String × Option (Json V)) → Option (Json V)
  pick name [] = none
  pick name ((other, field) ∷ fields) =
      if other == name then first field (pick name fields) else pick name fields

  pub find-members :
      (name : String) (fields : List (String × Option (Json V)))
      → find name (members fields) ≡ pick name fields
  find-members name [] = refl
  find-members name ((other, none) ∷ fields) = ground (arith, find-members name fields)
  find-members name ((other, some j) ∷ fields) = ground (arith, find-members name fields)

  pub first-none : (field : Option (Json V)) → first field none ≡ field
  first-none none = refl
  first-none (some j) = refl
