-- ===== src/Db/Json.antt =====
-- Values of the JSONB columns, and dictionaries with text keys (in insertion order).
use saas_billing_entitlement.Prelude.{
  true, false, Bool, Option, none, some, String, List, [], ◌∷◌, if◌then◌else◌,
}
use saas_billing_entitlement.Prelude.Int.{ℤ, pos}
use saas_billing_entitlement.Prelude.Text.{str_eq}

mutual
  pub data Json : Type 0 where
    null : Json
    bool : Bool → Json
    int : ℤ → Json
    str : String → Json
    arr : Items → Json
    obj : Fields → Json

  pub data Items : Type 0 where
    nil : Items
    cons : Json → Items → Items

  pub data Fields : Type 0 where
    end : Fields
    field : String → Json → Fields → Fields

abbrev pub Dict : Type 0
Dict = List (String × Json)

-- `d.get(key)`, on a dictionary and on a nested object.
unfoldable pub get : String → Dict → Option Json
get key [] = none
get key ((k, v) ∷ rest) = let later = get key rest in if str_eq key k then some v else later

unfoldable pub get_field : String → Fields → Option Json
get_field key end = none
get_field key (field k v rest) =
    let later = get_field key rest in if str_eq key k then some v else later

-- A dictionary as a nested value.
unfoldable pub to_fields : Dict → Fields
to_fields [] = end
to_fields ((k, v) ∷ rest) = field k v (to_fields rest)

unfoldable pub strings : List String → Items
strings [] = nil
strings (s ∷ rest) = cons (str s) (strings rest)

-- A text or null, for a value that may be missing.
abbrev pub str_or_null : Option String → Json
str_or_null none = null
str_or_null (some s) = str s

-- A value that passes `isinstance(v, int)`: a Boolean does too.
abbrev pub as_int : Option Json → Option ℤ
as_int (some (int n)) = some n
as_int (some (bool true)) = some (pos 1)
as_int (some (bool false)) = some (pos 0)
as_int _ = none

abbrev pub as_str : Option Json → Option String
as_str (some (str s)) = some s
as_str _ = none

abbrev pub or_else {ℓ} : {A : Type ℓ} → Option A → A → A
or_else none d = d
or_else (some a) d = a

abbrev pub is_text : Option String → String → Bool
is_text none t = false
is_text (some s) t = str_eq s t
