-- ===== src/Python/Json.antt =====
-- The values that `json` reads and writes. Python keeps ints and floats apart; F stands for floats.
use sharpearena.Prelude.{Bool, String, Option, none, some, List, [], ◌∷◌, str_eq, if◌then◌else◌}
use sharpearena.Prelude.Int.{ℤ}

mutual
  pub data Json (F : Type 0) : Type 0 where
    null : Json F
    bool : Bool → Json F
    int : ℤ → Json F
    num : F → Json F
    str : String → Json F
    arr : Items F → Json F
    obj : Fields F → Json F

  pub data Items (F : Type 0) : Type 0 where
    nil : Items F
    cons : Json F → Items F → Items F

  pub data Fields (F : Type 0) : Type 0 where
    end : Fields F
    field : String → Json F → Fields F → Fields F

-- `d.get(key)` on the fields of an object.
unfoldable pub get : {F : Type 0} → String → Fields F → Option (Json F)
get k end = none
get k (field j v fs) = if str_eq j k then some v else get k fs

module _ {F : Type 0} where
  -- a list of values as an array
  unfoldable pub items : List (Json F) → Items F
  items [] = nil
  items (j ∷ js) = cons j (items js)

  -- a dict as an object
  unfoldable pub fields : List (String × Json F) → Fields F
  fields [] = end
  fields ((k, j) ∷ d) = field k j (fields d)

  -- an optional value, with null for None
  unfoldable pub optional {ℓ} : {A : Type ℓ} → (A → Json F) → Option A → Json F
  optional f none = null
  optional f (some a) = f a
