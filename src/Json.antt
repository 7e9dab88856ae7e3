-- ===== src/Json.antt =====
-- Values of JSON.parse, and the properties and truth values that the program reads of them. A number
-- is the text that JSON.stringify prints for it. Parsing and printing themselves are the engine's.
use text.Mathlib.Text.{◌==◌ as str_eq}
use freysa_spark_hackathon.Common.{
  Bool, true, false, not, Option, none, some, String, Result, ok, err, if◌then◌else◌, is_truthy,
}

mutual
  pub data Json : Type 0 where
    null : Json
    bool : Bool → Json
    num : String → Json
    str : String → Json
    arr : Items → Json
    obj : Fields → Json

  pub data Items : Type 0 where
    nil : Items
    cons : Json → Items → Items

  pub data Fields : Type 0 where
    end : Fields
    field : String → Json → Fields → Fields

-- The engine's JSON object; `none` is a SyntaxError.
pub record JsonEngine : Type 0 where
  pub parse : String → Option Json
  pub stringify : Json → String

unfoldable pub get_field : String → Fields → Option Json
get_field k end = none
get_field k (field j v fs) = if str_eq j k then some v else get_field k fs

-- `value.k`: undefined where there is none, and a TypeError on null.
unfoldable pub property : Json → String → Result (Option Json)
property null k = err "Cannot read properties of null"
property (obj fs) k = ok (get_field k fs)
property _ k = ok none

unfoldable pub truthy_json : Json → Bool
truthy_json null = false
truthy_json (bool b) = b
truthy_json (num n) = not (str_eq n "0")
truthy_json (str s) = is_truthy s
truthy_json _ = true

-- `if (value.k)`: the value, if it is there and truthy.
unfoldable pub truthy_property : Json → String → Result (Option Json)
truthy_property j k = elim (property j k) [
  | err e ↦ err e
  | ok none ↦ ok none
  | ok (some v) ↦ ok (if truthy_json v then some v else none)
]
