-- ===== src/Json.antt =====
-- The values that `JSON.parse` and a decoded token hold, with the tests on them that the server makes.
use zvonok.Prelude.{ℕ, String, Bool, Option, none, some, ite, str_dec}

mutual
  pub data Json : Type 0 where
    null : Json
    boolean : Bool → Json
    number : ℕ → Json
    text : String → Json
    array : Items → Json
    object : Fields → Json

  pub data Items : Type 0 where
    nil : Items
    cons : Json → Items → Items

  pub data Fields : Type 0 where
    end : Fields
    field : String → Json → Fields → Fields

-- `v.k` of an object; `none` is `undefined`. The last of two fields with one name counts.
unfoldable pub property : String → Fields → Option Json
property k end = none
property k (field j v fs) = elim (property k fs) [
  | some w ↦ some w
  | none ↦ ite (str_dec j k) (some v) none
]

unfoldable pub is_plain_object : Json → Option Fields
is_plain_object (object fs) = some fs
is_plain_object _ = none

unfoldable pub as_text : Option Json → Option String
as_text (some (text s)) = some s
as_text _ = none
