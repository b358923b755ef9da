-- ===== src/Tunnel/Relay/Parse/RoundTrip.antt =====
-- A well-formed frame, encoded and parsed, is the frame.
use kb_1_daemon.Prelude.{◌<◌, ◌≡◌, ok}
use kb_1_daemon.Tunnel.Relay.Value.{get}
use kb_1_daemon.Tunnel.Relay.Frame.{
  RelayFrame, rpc_request, rpc_result, rpc_failure, stream_open, stream_data, stream_close, event,
  cancel, error,
}
use kb_1_daemon.Tunnel.Relay.Expect.{expect_string, expect_record, expect_non_negative_integer}
use kb_1_daemon.Tunnel.Relay.Expect.Accepts.{
  IsJsonObject, IsPayload, IsNonEmpty, IsGiven, IsError, IsTarget, expect_non_empty_string_lem,
  expect_relay_payload_lem, optional_string_lem, optional_non_empty_string_lem,
  optional_positive_lem, optional_payload_lem, optional_object_lem,
  expect_relay_stream_close_code_lem, expect_relay_cancel_target_lem, optional_target_lem,
  expect_relay_frame_error_lem,
}
use kb_1_daemon.Tunnel.Relay.Encode.{get-optional_field, to_value}
use kb_1_daemon.Tunnel.Relay.Parse.{
  parse_relay_rpc_request_frame, parse_relay_rpc_response_frame, parse_relay_stream_open_frame,
  parse_relay_stream_data_frame, parse_relay_stream_close_frame, parse_relay_event_frame,
  parse_relay_cancel_frame, parse_relay_error_frame, parse_typed, parse_relay_frame,
}

-- The identifiers are not empty, a deadline is positive, and the values are what JSON can carry.
abbrev pub IsFrame : RelayFrame → Type 0
IsFrame (rpc_request id capability deadline payload context) =
    IsNonEmpty id
    × IsNonEmpty capability
    × IsGiven (λ n. 0 < n) deadline
    × IsGiven IsPayload payload
    × IsGiven IsJsonObject context
IsFrame (rpc_result id payload) = IsNonEmpty id × IsPayload payload
IsFrame (rpc_failure id failure) = IsNonEmpty id × IsError failure
IsFrame (stream_open id capability payload context) =
    IsNonEmpty id × IsNonEmpty capability × IsGiven IsPayload payload × IsGiven IsJsonObject context
IsFrame (stream_data id sequence payload) = IsNonEmpty id × IsPayload payload
IsFrame (stream_close id code reason) = IsNonEmpty id
IsFrame (event topic id payload resource) =
    IsNonEmpty topic
    × IsGiven IsNonEmpty id
    × IsGiven IsPayload payload
    × IsGiven IsJsonObject resource
IsFrame (cancel target reason) = IsTarget target
IsFrame (error failure target) = IsError failure × IsGiven IsTarget target

-- Encoding a well-formed frame and parsing the object gives the frame back, for each of the nine
-- forms of a frame and whichever of its optional fields are there.
pub parse-to_value : (f : RelayFrame) → IsFrame f → parse_relay_frame (to_value f) ≡ ok f
unfolding parse_relay_frame parse_typed to_value get expect_string expect_record
    parse_relay_rpc_request_frame parse_relay_rpc_response_frame parse_relay_stream_open_frame
    parse_relay_stream_data_frame parse_relay_stream_close_frame parse_relay_event_frame
    parse_relay_cancel_frame parse_relay_error_frame expect_non_negative_integer
parse-to_value (rpc_request id capability deadline payload context) (hi, hc, hd, hp, ho) =
    simp get-optional_field (
      rw (
        expect_non_empty_string_lem id _ hi,
        expect_non_empty_string_lem capability _ hc,
        optional_positive_lem deadline _ hd,
        optional_payload_lem payload _ hp,
        optional_object_lem context _ ho,
      ))
parse-to_value (rpc_result id payload) (hi, hp) =
    rw (expect_non_empty_string_lem id _ hi, expect_relay_payload_lem payload _ hp)
parse-to_value (rpc_failure id failure) (hi, he) =
    rw (expect_non_empty_string_lem id _ hi, expect_relay_frame_error_lem failure _ he)
parse-to_value (stream_open id capability payload context) (hi, hc, hp, ho) =
    simp get-optional_field (
      rw (
        expect_non_empty_string_lem id _ hi,
        expect_non_empty_string_lem capability _ hc,
        optional_payload_lem payload _ hp,
        optional_object_lem context _ ho,
      ))
parse-to_value (stream_data id sequence payload) (hi, hp) =
    rw (expect_non_empty_string_lem id _ hi, expect_relay_payload_lem payload _ hp)
parse-to_value (stream_close id code reason) hi = simp get-optional_field (
    rw (
      expect_non_empty_string_lem id _ hi,
      expect_relay_stream_close_code_lem code _,
      optional_string_lem reason _,
    ))
parse-to_value (event topic id payload resource) (ht, hi, hp, hr) = simp get-optional_field (
    rw (
      expect_non_empty_string_lem topic _ ht,
      optional_non_empty_string_lem id _ hi,
      optional_payload_lem payload _ hp,
      optional_object_lem resource _ hr,
    ))
parse-to_value (cancel target reason) h =
    simp get-optional_field
      (rw (expect_relay_cancel_target_lem target _ h, optional_string_lem reason _))
parse-to_value (error failure target) (he, ht) =
    simp get-optional_field
      (rw (expect_relay_frame_error_lem failure _ he, optional_target_lem target _ ht))
