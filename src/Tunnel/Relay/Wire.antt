-- ===== src/Tunnel/Relay/Wire.antt =====
-- `encodeRelayFrame`, `decodeRelayFrame`, `assertRelayFrameSize` and `decodeTunnelMessage` of
-- packages/tunnel-protocol/src/index.ts. `JSON.parse`, which may throw, and `JSON.stringify` are arguments.
use kb_1_daemon.Prelude.{
  ℕ, ◌*◌, ◌≡◌, refl, inl, inr, Bool-cases, Option, none, some, Text, text, utf8_length, ltb,
  if◌then◌else◌, Result, ok, err, ◌>>=◌,
}
use kb_1_daemon.Tunnel.Relay.Value.{Value, object, has}
use kb_1_daemon.Tunnel.Relay.Frame.{RelayFrame}
use kb_1_daemon.Tunnel.Relay.Expect.{FrameError}
use kb_1_daemon.Tunnel.Relay.Parse.{parse_relay_frame}
use kb_1_daemon.Tunnel.Relay.Parse.RoundTrip.{IsFrame, parse-to_value}
use kb_1_daemon.Tunnel.Relay.Encode.{to_value}

-- What decoding throws.
pub data WireError : Type 0 where
  too_long not_json_text no_type : WireError
  bad_frame : FrameError → WireError

abbrev pub relay_frame_byte_limit : ℕ
relay_frame_byte_limit = 256 * 1024

abbrev pub relay_frame_byte_length : Text → ℕ
relay_frame_byte_length data_text = utf8_length data_text

abbrev pub max_of : Option ℕ → ℕ
max_of none = relay_frame_byte_limit
max_of (some n) = n

unfoldable pub assert_relay_frame_size : Text → Option ℕ → Result WireError (Unit {0})
assert_relay_frame_size data_text max =
    if ltb (max_of max) (relay_frame_byte_length data_text) then err too_long else ok tt

module _ (parse : Text → Option Value) (stringify : Value → Text) where
  unfoldable pub encode_relay_frame : RelayFrame → Text
  encode_relay_frame f = stringify (to_value f)

  abbrev pub decode_value : Option Value → Result WireError RelayFrame
  decode_value none = err not_json_text
  decode_value (some v) = elim (parse_relay_frame v) [ err e ↦ err (bad_frame e) | ok f ↦ ok f ]

  unfoldable pub decode_relay_frame : Text → Option ℕ → Result WireError RelayFrame
  unfolding assert_relay_frame_size
  decode_relay_frame data_text max =
      assert_relay_frame_size data_text max >>= λ _. decode_value (parse data_text)

  -- The test of `decodeTunnelMessage`, whose result is the parsed object.
  abbrev pub message_of : Option Value → Result WireError Value
  message_of none = err not_json_text
  message_of (some (object plain fields)) =
      if has (text "type") fields then ok (object plain fields) else err no_type
  message_of (some _) = err no_type

  unfoldable pub decode_tunnel_message : Text → Result WireError Value
  decode_tunnel_message data_text = message_of (parse data_text)

  -- A well-formed frame whose JSON text parses to its object is decoded to itself if the text
  -- has at most the allowed bytes, and refused for its size else.
  pub decode-encode :
      (f : RelayFrame) (max : Option ℕ)
      → IsFrame f
      → parse (stringify (to_value f)) ≡ some (to_value f)
      → decode_relay_frame (encode_relay_frame f) max ≡ (
          if ltb (max_of max) (relay_frame_byte_length (encode_relay_frame f))
          then err too_long
          else ok f)
  unfolding decode_relay_frame encode_relay_frame assert_relay_frame_size
  decode-encode f max h e =
      elim (Bool-cases (ltb (max_of max) (relay_frame_byte_length (encode_relay_frame f)))) [
        | inl long ↦ rw long refl
        | inr fits ↦ rw fits (rw e (rw (parse-to_value f h, decode_value) refl))
      ]
