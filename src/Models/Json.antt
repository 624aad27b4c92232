-- ===== src/Models/Json.antt =====
-- A value that `json.loads` returns. A float is kept as the bits of its double: the program hands it
-- on and never computes with it.
use homekey_household.Prelude.{ℕ, Text, text_eq, Bool, true, false, ℤ, if◌then◌else◌}

mutual
  pub data Json : Type 0 where
    null : Json
    bool : Bool → Json
    int : ℤ → Json
    float : ℕ → Json
    str : Text → Json
    arr : Items → Json
    obj : Fields → Json

  pub data Items : Type 0 where
    nil : Items
    cons : Json → Items → Items

  pub data Fields : Type 0 where
    end : Fields
    field : Text → Json → Fields → Fields

-- `data.get(key)`: `null` where the key is missing.
unfoldable pub get : Fields → Text → Json
get end key = null
get (field k v fs) key = if text_eq k key then v else get fs key

-- `key in data`
unfoldable pub has : Fields → Text → Bool
has end key = false
has (field k v fs) key = if text_eq k key then true else has fs key
