-- ===== src/Tunnel/Relay/Expect.antt =====
-- The `expect...` functions of packages/tunnel-protocol/src/index.ts. An exception carries what its
-- message says, and the name of the field.
pub mod Accepts
pub mod Yields
use kb_1_daemon.Prelude.{
  ℕ, zero, suc, ◌%◌, Bool, true, false, not, ◌&&◌, ◌||◌, List, [], ◌∷◌, ◌++◌, Option, none, some,
  Text, text, text_eq, length, leb, ◌==◌, if◌then◌else◌, Result, ok, err, ◌>>=◌, ◌>>◌, fail_if,
}
use kb_1_daemon.Tunnel.Relay.Value.{
  JsNumber, natural, Value, undefined, number, string, object, Fields, get, has,
  is_relay_json_value,
}
use kb_1_daemon.Tunnel.Relay.Frame.{
  RelayErrorCode, error_code_name, relay_error_codes, RelayStreamCloseCode, close_code_name,
  relay_stream_close_codes, RelayPayload, json, base64, RelayFrameError, RelayCancelTarget, rpc,
  stream,
}

pub data FrameError : Type 0 where
  frame_not_object bad_version bad_ok : FrameError
  unsupported_type : Text → FrameError
  not_object not_string is_empty not_natural not_positive not_base64 not_json : Text → FrameError
  not_json_object bad_encoding bad_kind unknown_error_code unknown_close_code : Text → FrameError

abbrev pub Checked : Type 0 → Type 0
Checked A = Result FrameError A

unfoldable pub expect_string : Value → Text → Checked Text
expect_string (string s) name = ok s
expect_string _ name = err (not_string name)

unfoldable pub expect_non_empty_string : Value → Text → Checked Text
unfolding expect_string
expect_non_empty_string v name = do
  s ← expect_string v name
  fail_if (length s == 0) (is_empty name)
  ok s

unfoldable pub expect_non_negative_integer : Value → Text → Checked ℕ
expect_non_negative_integer (number (natural n)) name = ok n
expect_non_negative_integer _ name = err (not_natural name)

unfoldable pub expect_positive_integer : Value → Text → Checked ℕ
expect_positive_integer (number (natural (suc n))) name = ok (suc n)
expect_positive_integer _ name = err (not_positive name)

-- `[A-Za-z0-9+/]`
unfoldable pub is_base64_unit : ℕ → Bool
is_base64_unit c =
    (leb b'A' c && leb c b'Z')
    || (leb b'a' c && leb c b'z')
    || (leb b'0' c && leb c b'9')
    || c == b'+'
    || c == b'/'

-- What follows the units that the star takes, `={0,2}$`
is_padding : Text → Bool
is_padding s = text_eq s [] || text_eq s (text "=") || text_eq s (text "==")

-- No padding unit is in the class, so the star takes all that it can.
unfoldable pub matches_base64 : Text → Bool
unfolding is_padding is_base64_unit
matches_base64 [] = true
matches_base64 (c ∷ s) =
    let rest = matches_base64 s in if is_base64_unit c then rest else is_padding (c ∷ s)

unfoldable pub is_base64 : Text → Bool
is_base64 s = (length s % 4 == 0) && matches_base64 s

unfoldable pub expect_base64 : Value → Text → Checked Text
unfolding expect_string
expect_base64 v name = do
  s ← expect_string v name
  fail_if (not (is_base64 s)) (not_base64 name)
  ok s

unfoldable pub expect_relay_json_value : Value → Text → Checked Value
expect_relay_json_value v name = if is_relay_json_value v then ok v else err (not_json name)

abbrev pub is_plain_record : Value → Bool
is_plain_record (object plain fields) = plain
is_plain_record _ = false

unfoldable pub expect_relay_json_object : Value → Text → Checked Value
expect_relay_json_object v name =
    if is_plain_record v && is_relay_json_value v then ok v else err (not_json_object name)

-- `isRecord`, with the fields of the record
unfoldable pub expect_record : {A : Type 0} → Value → FrameError → (Fields → Checked A) → Checked A
expect_record (object plain fields) e parse = parse fields
expect_record _ e parse = err e

-- `Object.values(...).includes(value)`, with the code of that value
unfoldable pub find_code : {C : Type 0} → (C → Text) → List C → Text → Option C
find_code name [] s = none
find_code name (c ∷ cs) s = if text_eq (name c) s then some c else find_code name cs s

abbrev or_throw : {A : Type 0} → Option A → FrameError → Checked A
or_throw none e = err e
or_throw (some a) e = ok a

unfoldable pub expect_relay_error_code : Value → Text → Checked RelayErrorCode
expect_relay_error_code (string s) name =
    or_throw (find_code error_code_name relay_error_codes s) (unknown_error_code name)
expect_relay_error_code _ name = err (unknown_error_code name)

unfoldable pub expect_relay_stream_close_code : Value → Text → Checked RelayStreamCloseCode
expect_relay_stream_close_code (string s) name =
    or_throw (find_code close_code_name relay_stream_close_codes s) (unknown_close_code name)
expect_relay_stream_close_code _ name = err (unknown_close_code name)

-- `value === "s"`
abbrev pub is_string : Value → Text → Bool
is_string (string s) t = text_eq s t
is_string _ t = false

payload_of : Text → Fields → Checked RelayPayload
payload_of name fields =
    if is_string (get (text "encoding") fields) (text "json")
    then (if has (text "value") fields && is_relay_json_value (get (text "value") fields)
        then ok (json (get (text "value") fields))
        else err (not_json (name ++ text ".value")))
    else if is_string (get (text "encoding") fields) (text "base64")
    then (do
      s ← expect_base64 (get (text "dataB64") fields) (name ++ text ".dataB64")
      ok (base64 s))
    else err (bad_encoding name)

unfoldable pub expect_relay_payload : Value → Text → Checked RelayPayload
unfolding expect_record payload_of
expect_relay_payload v name = expect_record v (not_object name) (payload_of name)

-- `value === undefined ? {} : { field: expect(value, field) }`
unfoldable pub optional :
    {A : Type 0} → (Value → Text → Checked A) → Value → Text → Checked (Option A)
optional expect undefined name = ok none
optional expect v name = do a ← expect v name; ok (some a)

frame_error_of : Text → Fields → Checked RelayFrameError
frame_error_of name fields = do
  code ← expect_relay_error_code (get (text "code") fields) (name ++ text ".code")
  message ← expect_non_empty_string (get (text "message") fields) (name ++ text ".message")
  details ← optional expect_relay_json_value (get (text "data") fields) (name ++ text ".data")
  ok (record { code = code; message = message; details = details })

unfoldable pub expect_relay_frame_error : Value → Text → Checked RelayFrameError
unfolding expect_record frame_error_of
expect_relay_frame_error v name = expect_record v (not_object name) (frame_error_of name)

cancel_target_of : Text → Fields → Checked RelayCancelTarget
cancel_target_of name fields =
    if is_string (get (text "kind") fields) (text "rpc")
    then (do
      id ← expect_non_empty_string (get (text "id") fields) (name ++ text ".id")
      ok (rpc id))
    else if is_string (get (text "kind") fields) (text "stream")
    then (do
      id ← expect_non_empty_string (get (text "streamId") fields) (name ++ text ".streamId")
      ok (stream id))
    else err (bad_kind name)

unfoldable pub expect_relay_cancel_target : Value → Text → Checked RelayCancelTarget
unfolding expect_record cancel_target_of
expect_relay_cancel_target v name = expect_record v (not_object name) (cancel_target_of name)
