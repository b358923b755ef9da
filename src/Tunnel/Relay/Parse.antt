-- ===== src/Tunnel/Relay/Parse.antt =====
-- `parseRelayFrame` of packages/tunnel-protocol/src/index.ts, with one function for each type of frame.
pub mod RoundTrip
pub mod Sound
use kb_1_daemon.Prelude.{
  ℕ, Bool, true, false, List, [], ◌∷◌, Option, none, some, Text, text, text_eq, ◌==◌, if◌then◌else◌,
  ok, err, ◌>>=◌, ◌>>◌, fail_if, not,
}
use kb_1_daemon.Tunnel.Relay.Value.{natural, Value, boolean, number, Fields, get}
use kb_1_daemon.Tunnel.Relay.Frame.{
  RelayFrame, rpc_request, rpc_result, rpc_failure, stream_open, stream_data, stream_close, event,
  cancel, error,
}
use kb_1_daemon.Tunnel.Relay.Expect.{
  frame_not_object, bad_version, bad_ok, unsupported_type, Checked, expect_string,
  expect_non_empty_string, expect_non_negative_integer, expect_positive_integer, expect_record,
  expect_relay_json_object, expect_relay_payload, expect_relay_stream_close_code, optional,
  expect_relay_frame_error, expect_relay_cancel_target,
}

-- `version !== RELAY_TRANSPORT_PROTOCOL_VERSION`
is_version : Value → Bool
is_version (number (natural n)) = n == 1
is_version _ = false

parse_relay_rpc_request_frame : Fields → Checked RelayFrame
parse_relay_rpc_request_frame frame = do
  id ← expect_non_empty_string (get (text "id") frame) (text "id")
  capability ← expect_non_empty_string (get (text "capability") frame) (text "capability")
  deadline ← optional expect_positive_integer (get (text "deadlineMs") frame) (text "deadlineMs")
  payload ← optional expect_relay_payload (get (text "payload") frame) (text "payload")
  context ← optional expect_relay_json_object (get (text "context") frame) (text "context")
  ok (rpc_request id capability deadline payload context)

rpc_outcome : Text → Fields → Value → Checked RelayFrame
rpc_outcome id frame (boolean true) = do
  payload ← expect_relay_payload (get (text "payload") frame) (text "payload")
  ok (rpc_result id payload)
rpc_outcome id frame (boolean false) = do
  failure ← expect_relay_frame_error (get (text "error") frame) (text "error")
  ok (rpc_failure id failure)
rpc_outcome id frame _ = err bad_ok

parse_relay_rpc_response_frame : Fields → Checked RelayFrame
unfolding rpc_outcome
parse_relay_rpc_response_frame frame = do
  id ← expect_non_empty_string (get (text "id") frame) (text "id")
  rpc_outcome id frame (get (text "ok") frame)

parse_relay_stream_open_frame : Fields → Checked RelayFrame
parse_relay_stream_open_frame frame = do
  id ← expect_non_empty_string (get (text "streamId") frame) (text "streamId")
  capability ← expect_non_empty_string (get (text "capability") frame) (text "capability")
  payload ← optional expect_relay_payload (get (text "payload") frame) (text "payload")
  context ← optional expect_relay_json_object (get (text "context") frame) (text "context")
  ok (stream_open id capability payload context)

parse_relay_stream_data_frame : Fields → Checked RelayFrame
parse_relay_stream_data_frame frame = do
  id ← expect_non_empty_string (get (text "streamId") frame) (text "streamId")
  sequence ← expect_non_negative_integer (get (text "sequence") frame) (text "sequence")
  payload ← expect_relay_payload (get (text "payload") frame) (text "payload")
  ok (stream_data id sequence payload)

parse_relay_stream_close_frame : Fields → Checked RelayFrame
parse_relay_stream_close_frame frame = do
  id ← expect_non_empty_string (get (text "streamId") frame) (text "streamId")
  code ← expect_relay_stream_close_code (get (text "code") frame) (text "code")
  reason ← optional expect_string (get (text "reason") frame) (text "reason")
  ok (stream_close id code reason)

parse_relay_event_frame : Fields → Checked RelayFrame
parse_relay_event_frame frame = do
  topic ← expect_non_empty_string (get (text "topic") frame) (text "topic")
  id ← optional expect_non_empty_string (get (text "id") frame) (text "id")
  payload ← optional expect_relay_payload (get (text "payload") frame) (text "payload")
  resource ← optional expect_relay_json_object (get (text "resource") frame) (text "resource")
  ok (event topic id payload resource)

parse_relay_cancel_frame : Fields → Checked RelayFrame
parse_relay_cancel_frame frame = do
  target ← expect_relay_cancel_target (get (text "target") frame) (text "target")
  reason ← optional expect_string (get (text "reason") frame) (text "reason")
  ok (cancel target reason)

parse_relay_error_frame : Fields → Checked RelayFrame
parse_relay_error_frame frame = do
  failure ← expect_relay_frame_error (get (text "error") frame) (text "error")
  target ← optional expect_relay_cancel_target (get (text "target") frame) (text "target")
  ok (error failure target)

-- The switch over the type.
parse_typed : Text → Fields → Checked RelayFrame
parse_typed type frame =
    if text_eq type (text "rpc.request")
    then parse_relay_rpc_request_frame frame
    else if text_eq type (text "rpc.response")
    then parse_relay_rpc_response_frame frame
    else if text_eq type (text "stream.open")
    then parse_relay_stream_open_frame frame
    else if text_eq type (text "stream.data")
    then parse_relay_stream_data_frame frame
    else if text_eq type (text "stream.close")
    then parse_relay_stream_close_frame frame
    else if text_eq type (text "event")
    then parse_relay_event_frame frame
    else if text_eq type (text "cancel")
    then parse_relay_cancel_frame frame
    else if text_eq type (text "error")
    then parse_relay_error_frame frame
    else err (unsupported_type type)

parse_fields : Fields → Checked RelayFrame
unfolding is_version
parse_fields frame = do
  type ← expect_string (get (text "type") frame) (text "type")
  fail_if (not (is_version (get (text "version") frame))) bad_version
  parse_typed type frame

pub parse_relay_frame : Value → Checked RelayFrame
unfolding parse_fields
parse_relay_frame v = expect_record v frame_not_object parse_fields
