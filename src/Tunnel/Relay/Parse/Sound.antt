-- ===== src/Tunnel/Relay/Parse/Sound.antt =====
-- Whatever the parser accepts is a well-formed frame.
use kb_1_daemon.Prelude.{◌<◌, ◌≡◌, true, false, Text, text, text_eq, ok, fail_if, not}
use kb_1_daemon.Tunnel.Relay.Value.{Value, boolean, Fields, get}
use kb_1_daemon.Tunnel.Relay.Frame.{
  RelayFrame, rpc_result, rpc_failure, stream_data, stream_close, cancel,
}
use kb_1_daemon.Tunnel.Relay.Expect.{
  expect_string, expect_positive_integer, expect_non_empty_string, expect_relay_payload,
  expect_relay_json_object, expect_relay_cancel_target, optional, bad_ok, bad_version,
  expect_non_negative_integer, expect_relay_stream_close_code, frame_not_object,
}
use kb_1_daemon.Tunnel.Relay.Expect.Accepts.{IsJsonObject, IsPayload, IsNonEmpty, IsTarget, IsGiven}
use kb_1_daemon.Tunnel.Relay.Expect.Yields.{
  Yields, Yields-ok, Yields-err, Yields-bind, Yields-if, Yields-any, expect_record-Yields,
  optional-Yields, expect_non_empty_string-Yields, expect_positive_integer-Yields,
  expect_relay_json_object-Yields, expect_relay_payload-Yields, expect_relay_frame_error-Yields,
  expect_relay_cancel_target-Yields,
}
use kb_1_daemon.Tunnel.Relay.Parse.{
  is_version, parse_relay_rpc_request_frame, rpc_outcome, parse_relay_rpc_response_frame,
  parse_relay_stream_open_frame, parse_relay_stream_data_frame, parse_relay_stream_close_frame,
  parse_relay_event_frame, parse_relay_cancel_frame, parse_relay_error_frame, parse_typed,
  parse_fields, parse_relay_frame,
}
use kb_1_daemon.Tunnel.Relay.Parse.RoundTrip.{IsFrame}

optional_body :
    (v : Value) (name : Text) → Yields (IsGiven IsPayload) (optional expect_relay_payload v name)
optional_body v name =
    optional-Yields IsPayload expect_relay_payload v name (expect_relay_payload-Yields v name)

optional_object :
    (v : Value) (name : Text)
    → Yields (IsGiven IsJsonObject) (optional expect_relay_json_object v name)
optional_object v name =
    optional-Yields IsJsonObject expect_relay_json_object v name
      (expect_relay_json_object-Yields v name)

request-Yields : (frame : Fields) → Yields IsFrame (parse_relay_rpc_request_frame frame)
unfolding parse_relay_rpc_request_frame
request-Yields frame =
    Yields-bind _ _ (expect_non_empty_string-Yields (get (text "id") frame) _) λ id hi.
      Yields-bind _ _ (expect_non_empty_string-Yields (get (text "capability") frame) _) λ c hc.
        Yields-bind _ _
          (optional-Yields (λ n. 0 < n) expect_positive_integer (get (text "deadlineMs") frame) _
            (expect_positive_integer-Yields _ _))
          λ d hd. Yields-bind _ _ (optional_body (get (text "payload") frame) _) λ p hp.
            Yields-bind _ _ (optional_object (get (text "context") frame) _)
              λ o ho. Yields-ok IsFrame _ (hi, hc, hd, hp, ho)

outcome-Yields :
    (id : Text) (frame : Fields) (v : Value)
    → IsNonEmpty id
    → Yields IsFrame (rpc_outcome id frame v)
unfolding rpc_outcome
outcome-Yields id frame (boolean true) hi =
    Yields-bind _ _ (expect_relay_payload-Yields (get (text "payload") frame) _)
      λ p hp. Yields-ok IsFrame (rpc_result id p) (hi, hp)
outcome-Yields id frame (boolean false) hi =
    Yields-bind _ _ (expect_relay_frame_error-Yields (get (text "error") frame) _)
      λ e he. Yields-ok IsFrame (rpc_failure id e) (hi, he)
outcome-Yields id frame _ hi = Yields-err IsFrame bad_ok

response-Yields : (frame : Fields) → Yields IsFrame (parse_relay_rpc_response_frame frame)
unfolding parse_relay_rpc_response_frame
response-Yields frame =
    Yields-bind _ _ (expect_non_empty_string-Yields (get (text "id") frame) _)
      λ id hi. outcome-Yields id frame (get (text "ok") frame) hi

open-Yields : (frame : Fields) → Yields IsFrame (parse_relay_stream_open_frame frame)
unfolding parse_relay_stream_open_frame
open-Yields frame =
    Yields-bind _ _ (expect_non_empty_string-Yields (get (text "streamId") frame) _) λ id hi.
      Yields-bind _ _ (expect_non_empty_string-Yields (get (text "capability") frame) _) λ c hc.
        Yields-bind _ _ (optional_body (get (text "payload") frame) _) λ p hp.
          Yields-bind _ _ (optional_object (get (text "context") frame) _)
            λ o ho. Yields-ok IsFrame _ (hi, hc, hp, ho)

stream_data-Yields : (frame : Fields) → Yields IsFrame (parse_relay_stream_data_frame frame)
unfolding parse_relay_stream_data_frame
stream_data-Yields frame =
    Yields-bind _ _ (expect_non_empty_string-Yields (get (text "streamId") frame) _) λ id hi.
      Yields-bind _ _ (Yields-any (expect_non_negative_integer (get (text "sequence") frame) _))
        λ n _.
          Yields-bind _ _ (expect_relay_payload-Yields (get (text "payload") frame) _)
            λ p hp. Yields-ok IsFrame (stream_data id n p) (hi, hp)

stream_close-Yields : (frame : Fields) → Yields IsFrame (parse_relay_stream_close_frame frame)
unfolding parse_relay_stream_close_frame
stream_close-Yields frame =
    Yields-bind _ _ (expect_non_empty_string-Yields (get (text "streamId") frame) _) λ id hi.
      Yields-bind _ _ (Yields-any (expect_relay_stream_close_code (get (text "code") frame) _))
        λ c _.
          Yields-bind _ _ (Yields-any (optional expect_string (get (text "reason") frame) _))
            λ r _. Yields-ok IsFrame (stream_close id c r) hi

event-Yields : (frame : Fields) → Yields IsFrame (parse_relay_event_frame frame)
unfolding parse_relay_event_frame
event-Yields frame =
    Yields-bind _ _ (expect_non_empty_string-Yields (get (text "topic") frame) _) λ t ht.
      Yields-bind _ _
        (optional-Yields IsNonEmpty expect_non_empty_string (get (text "id") frame) _
          (expect_non_empty_string-Yields _ _))
        λ id hi. Yields-bind _ _ (optional_body (get (text "payload") frame) _) λ p hp.
          Yields-bind _ _ (optional_object (get (text "resource") frame) _)
            λ o ho. Yields-ok IsFrame _ (ht, hi, hp, ho)

cancel-Yields : (frame : Fields) → Yields IsFrame (parse_relay_cancel_frame frame)
unfolding parse_relay_cancel_frame
cancel-Yields frame =
    Yields-bind _ _ (expect_relay_cancel_target-Yields (get (text "target") frame) _) λ t ht.
      Yields-bind _ _ (Yields-any (optional expect_string (get (text "reason") frame) _))
        λ r _. Yields-ok IsFrame (cancel t r) ht

error-Yields : (frame : Fields) → Yields IsFrame (parse_relay_error_frame frame)
unfolding parse_relay_error_frame
error-Yields frame =
    Yields-bind _ _ (expect_relay_frame_error-Yields (get (text "error") frame) _) λ e he.
      Yields-bind _ _
        (optional-Yields IsTarget expect_relay_cancel_target (get (text "target") frame) _
          (expect_relay_cancel_target-Yields _ _))
        λ t ht. Yields-ok IsFrame _ (he, ht)

typed-Yields : (type : Text) (frame : Fields) → Yields IsFrame (parse_typed type frame)
unfolding parse_typed
typed-Yields type frame =
    Yields-if (text_eq type (text "rpc.request")) _ _ (λ _. request-Yields frame)
      (Yields-if (text_eq type (text "rpc.response")) _ _ (λ _. response-Yields frame)
        (Yields-if (text_eq type (text "stream.open")) _ _ (λ _. open-Yields frame)
          (Yields-if (text_eq type (text "stream.data")) _ _ (λ _. stream_data-Yields frame)
            (Yields-if (text_eq type (text "stream.close")) _ _ (λ _. stream_close-Yields frame)
              (Yields-if (text_eq type (text "event")) _ _ (λ _. event-Yields frame)
                (Yields-if (text_eq type (text "cancel")) _ _ (λ _. cancel-Yields frame)
                  (Yields-if (text_eq type (text "error")) _ _ (λ _. error-Yields frame)
                    (Yields-err IsFrame _))))))))

fields-Yields : (frame : Fields) → Yields IsFrame (parse_fields frame)
unfolding parse_fields
fields-Yields frame =
    Yields-bind _ _ (Yields-any (expect_string (get (text "type") frame) _)) λ type _.
      Yields-bind _ _
        (Yields-any (fail_if (not (is_version (get (text "version") frame))) bad_version))
        λ _ _. typed-Yields type frame

-- A frame that the parser returns, whatever value it was given, is well formed: its identifiers are
-- not empty, its deadline is positive, and its payloads, contexts and error details are what JSON
-- can carry.
pub parse-IsFrame : (v : Value) (f : RelayFrame) → parse_relay_frame v ≡ ok f → IsFrame f
unfolding parse_relay_frame
parse-IsFrame v f h =
    (expect_record-Yields IsFrame v frame_not_object parse_fields fields-Yields).at f h
