-- ===== src/Tunnel/Relay/Encode.antt =====
-- A relay frame as the JavaScript object that `encodeRelayFrame` of
-- packages/tunnel-protocol/src/index.ts hands to `JSON.stringify`.
use mathlib.Core.Option
use kb_1_daemon.Prelude.{
  ℕ, ◌≡◌, refl, Bool, true, false, Option, none, some, Text, text, text_eq, if◌then◌else◌,
}
use kb_1_daemon.Tunnel.Relay.Value.{
  natural, Value, boolean, number, string, object, Fields, end, field, get,
}
use kb_1_daemon.Tunnel.Relay.Frame.{
  error_code_name, close_code_name, RelayPayload, json, base64, RelayFrameError, RelayCancelTarget,
  rpc, stream, RelayFrame, rpc_request, rpc_result, rpc_failure, stream_open, stream_data,
  stream_close, event, cancel, error,
}

-- A field that is there only if its value is.
unfoldable pub optional_field : Text → Option Value → Fields → Fields
optional_field key none rest = rest
optional_field key (some v) rest = field key v rest

abbrev pub or_else : Option Value → Value → Value
or_else none v = v
or_else (some w) v = w

pub get-optional_field :
    (j k : Text) (o : Option Value) (rest : Fields)
    → get j (optional_field k o rest) ≡ (if text_eq k j then or_else o (get j rest) else get j rest)
unfolding get optional_field
get-optional_field j k (some v) rest = refl
get-optional_field j k none rest = if_same (text_eq k j) (get j rest)
  where
    if_same : (b : Bool) (v : Value) → v ≡ (if b then v else v)
    if_same true v = refl
    if_same false v = refl

abbrev pub payload_value : RelayPayload → Value
payload_value (json v) =
    object true (field (text "encoding") (string (text "json")) (field (text "value") v end))
payload_value (base64 s) =
    object true
      (field (text "encoding") (string (text "base64")) (field (text "dataB64") (string s) end))

unfoldable pub error_value : RelayFrameError → Value
unfolding optional_field
error_value e = object true (
    field (text "code") (string (error_code_name e.code))
      (field (text "message") (string e.message) (optional_field (text "data") e.details end)))

abbrev pub target_value : RelayCancelTarget → Value
target_value (rpc id) =
    object true (field (text "kind") (string (text "rpc")) (field (text "id") (string id) end))
target_value (stream id) =
    object true
      (field (text "kind") (string (text "stream")) (field (text "streamId") (string id) end))

abbrev pub count_value : ℕ → Value
count_value n = number (natural n)

-- The two fields that every frame has, and its own ones.
abbrev pub frame_object : Text → Fields → Value
frame_object type rest =
    object true
      (field (text "type") (string type) (field (text "version") (number (natural 1)) rest))

unfoldable pub to_value : RelayFrame → Value
unfolding optional_field error_value
to_value (rpc_request id capability deadline payload context) = frame_object (text "rpc.request") (
    field (text "id") (string id) (
      field (text "capability") (string capability) (
        optional_field (text "deadlineMs") (Option.map count_value deadline) (
          optional_field (text "payload") (Option.map payload_value payload)
            (optional_field (text "context") context end)))))
to_value (rpc_result id payload) = frame_object (text "rpc.response") (
    field (text "id") (string id)
      (field (text "ok") (boolean true) (field (text "payload") (payload_value payload) end)))
to_value (rpc_failure id failure) = frame_object (text "rpc.response") (
    field (text "id") (string id)
      (field (text "ok") (boolean false) (field (text "error") (error_value failure) end)))
to_value (stream_open id capability payload context) = frame_object (text "stream.open") (
    field (text "streamId") (string id) (
      field (text "capability") (string capability) (
        optional_field (text "payload") (Option.map payload_value payload)
          (optional_field (text "context") context end))))
to_value (stream_data id sequence payload) = frame_object (text "stream.data") (
    field (text "streamId") (string id) (
      field (text "sequence") (count_value sequence)
        (field (text "payload") (payload_value payload) end)))
to_value (stream_close id code reason) = frame_object (text "stream.close") (
    field (text "streamId") (string id) (
      field (text "code") (string (close_code_name code))
        (optional_field (text "reason") (Option.map string reason) end)))
to_value (event topic id payload resource) = frame_object (text "event") (
    field (text "topic") (string topic) (
      optional_field (text "id") (Option.map string id) (
        optional_field (text "payload") (Option.map payload_value payload)
          (optional_field (text "resource") resource end))))
to_value (cancel target reason) = frame_object (text "cancel") (
    field (text "target") (target_value target)
      (optional_field (text "reason") (Option.map string reason) end))
to_value (error failure target) = frame_object (text "error") (
    field (text "error") (error_value failure)
      (optional_field (text "target") (Option.map target_value target) end))
