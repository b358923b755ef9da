-- ===== src/Tunnel/Relay/Tests.antt =====
-- A request with every field, and its object.
use kb_1_daemon.Prelude.{
  ◌≡◌, refl, some, true, text, Text, Option, ok, err, arith, ltb, if◌then◌else◌,
}
use kb_1_daemon.Tunnel.Relay.Value.{Value, is_relay_json_value, null, string, object, end, field}
use kb_1_daemon.Tunnel.Relay.Frame.{RelayFrame, rpc_request, json}
use kb_1_daemon.Tunnel.Relay.Encode.{to_value}
use kb_1_daemon.Tunnel.Relay.Parse.{parse_relay_frame}
use kb_1_daemon.Tunnel.Relay.Parse.RoundTrip.{IsFrame, parse-to_value}
use kb_1_daemon.Tunnel.Relay.Parse.Sound.{parse-IsFrame}
use kb_1_daemon.Tunnel.Relay.Wire.{
  relay_frame_byte_length, max_of, too_long, encode_relay_frame, decode_relay_frame, decode-encode,
}

abbrev request : RelayFrame
request =
    rpc_request (text "r1") (text "vault.read") (some 1500) (some (json null))
      (some (object true (field (text "path") (string (text "a.md")) end)))

request-IsFrame : IsFrame request
unfolding is_relay_json_value
request-IsFrame = (cc, cc, omega arith, refl, (refl, refl))

parse-to_value_example : parse_relay_frame (to_value request) ≡ ok request
parse-to_value_example = parse-to_value request request-IsFrame

parse-IsFrame_example : IsFrame request
parse-IsFrame_example =
    parse-IsFrame (to_value request) request (parse-to_value request request-IsFrame)

-- Stand-ins for `JSON.parse` and `JSON.stringify` that know one value.
abbrev parse_request : Text → Option Value
parse_request s = some (to_value request)

abbrev stringify_any : Value → Text
stringify_any v = text "{}"

decode-encode_example :
    decode_relay_frame parse_request stringify_any
      (encode_relay_frame parse_request stringify_any request)
      (some 9)
    ≡ (if ltb
          (max_of (some 9))
          (relay_frame_byte_length (encode_relay_frame parse_request stringify_any request))
        then err too_long
        else ok request)
decode-encode_example =
    decode-encode parse_request stringify_any request (some 9) request-IsFrame refl
