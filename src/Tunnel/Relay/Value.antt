-- ===== src/Tunnel/Relay/Value.antt =====
-- JavaScript values as `parseRelayFrame` meets them, and the tests `isRecord`, `isPlainRecord` and
-- `isRelayJsonValue` of packages/tunnel-protocol/src/index.ts.
use kb_1_daemon.Prelude.{ℕ, Bool, true, false, ◌&&◌, Text, text_eq, if◌then◌else◌}

-- A number is a natural number, -(n + 1), one of the finite numbers that are no integers, or one of
-- Infinity, -Infinity and NaN.
pub data JsNumber : Type 0 where
  natural negative fraction : ℕ → JsNumber
  not_finite : JsNumber

-- An object is plain if its prototype is `Object.prototype` or null. The fields are its own ones.
mutual
  pub data Value : Type 0 where
    undefined null : Value
    boolean : Bool → Value
    number : JsNumber → Value
    string : Text → Value
    array : Elements → Value
    object : (plain : Bool) → Fields → Value

  pub data Elements : Type 0 where
    nil : Elements
    cons : Value → Elements → Elements

  pub data Fields : Type 0 where
    end : Fields
    field : Text → Value → Fields → Fields

-- `frame.key`
unfoldable pub get : Text → Fields → Value
get key end = undefined
get key (field k v fields) = if text_eq k key then v else get key fields

-- `"key" in frame`
unfoldable pub has : Text → Fields → Bool
has key end = false
has key (field k v fields) = if text_eq k key then true else has key fields

abbrev pub is_finite : JsNumber → Bool
is_finite not_finite = false
is_finite _ = true

-- `isRelayJsonValue`; the two other functions are its `every` over an array and over an object.
unfoldable mutual
  pub is_relay_json_value : Value → Bool
  is_relay_json_value undefined = false
  is_relay_json_value null = true
  is_relay_json_value (boolean b) = true
  is_relay_json_value (number n) = is_finite n
  is_relay_json_value (string s) = true
  is_relay_json_value (array vs) = every_element vs
  is_relay_json_value (object plain fields) = plain && every_field fields

  pub every_element : Elements → Bool
  every_element nil = true
  every_element (cons v vs) = is_relay_json_value v && every_element vs

  pub every_field : Fields → Bool
  every_field end = true
  every_field (field k v fields) = is_relay_json_value v && every_field fields
