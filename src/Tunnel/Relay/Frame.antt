-- ===== src/Tunnel/Relay/Frame.antt =====
-- The types of relay frames in packages/tunnel-protocol/src/index.ts. The version stands in no
-- constructor, since it is always 1, and the type of a frame is its constructor.
use kb_1_daemon.Prelude.{ℕ, List, [], ◌∷◌, Option, Text, text}
use kb_1_daemon.Tunnel.Relay.Value.{Value}

pub data RelayErrorCode : Type 0 where
  bad_message unsupported_version unknown_capability unauthorized deadline_exceeded : RelayErrorCode
  cancelled indeterminate payload_too_large backpressure internal : RelayErrorCode

abbrev pub error_code_name : RelayErrorCode → Text
error_code_name bad_message = text "bad-message"
error_code_name unsupported_version = text "unsupported-version"
error_code_name unknown_capability = text "unknown-capability"
error_code_name unauthorized = text "unauthorized"
error_code_name deadline_exceeded = text "deadline-exceeded"
error_code_name cancelled = text "cancelled"
error_code_name indeterminate = text "indeterminate"
error_code_name payload_too_large = text "payload-too-large"
error_code_name backpressure = text "backpressure"
error_code_name internal = text "internal"

-- `Object.values(RELAY_ERROR_CODES)`
abbrev pub relay_error_codes : List RelayErrorCode
relay_error_codes =
    bad_message ∷ unsupported_version ∷ unknown_capability ∷ unauthorized ∷ deadline_exceeded
    ∷ cancelled ∷ indeterminate ∷ payload_too_large ∷ backpressure ∷ internal ∷ []

pub data RelayStreamCloseCode : Type 0 where
  normal cancelled deadline_exceeded payload_too_large : RelayStreamCloseCode
  backpressure bad_message internal : RelayStreamCloseCode

abbrev pub close_code_name : RelayStreamCloseCode → Text
close_code_name RelayStreamCloseCode.normal = text "normal"
close_code_name RelayStreamCloseCode.cancelled = text "cancelled"
close_code_name RelayStreamCloseCode.deadline_exceeded = text "deadline-exceeded"
close_code_name RelayStreamCloseCode.payload_too_large = text "payload-too-large"
close_code_name RelayStreamCloseCode.backpressure = text "backpressure"
close_code_name RelayStreamCloseCode.bad_message = text "bad-message"
close_code_name RelayStreamCloseCode.internal = text "internal"

abbrev pub relay_stream_close_codes : List RelayStreamCloseCode
relay_stream_close_codes =
    normal ∷ RelayStreamCloseCode.cancelled ∷ RelayStreamCloseCode.deadline_exceeded
    ∷ RelayStreamCloseCode.payload_too_large ∷ RelayStreamCloseCode.backpressure
    ∷ RelayStreamCloseCode.bad_message ∷ RelayStreamCloseCode.internal ∷ []

pub data RelayPayload : Type 0 where
  json : Value → RelayPayload
  base64 : Text → RelayPayload

pub record RelayFrameError : Type 0 where
  pub code : RelayErrorCode
  pub message : Text
  pub details : Option Value

pub data RelayCancelTarget : Type 0 where
  rpc : (id : Text) → RelayCancelTarget
  stream : (stream_id : Text) → RelayCancelTarget

-- `context` and `resource` are values; that they are objects is a check of the parser.
pub data RelayFrame : Type 0 where
  rpc_request :
      (id capability : Text) (deadline_ms : Option ℕ) (payload : Option RelayPayload)
      (context : Option Value)
      → RelayFrame
  rpc_result : (id : Text) (payload : RelayPayload) → RelayFrame
  rpc_failure : (id : Text) (error : RelayFrameError) → RelayFrame
  stream_open :
      (stream_id capability : Text) (payload : Option RelayPayload) (context : Option Value)
      → RelayFrame
  stream_data : (stream_id : Text) (sequence : ℕ) (payload : RelayPayload) → RelayFrame
  stream_close :
      (stream_id : Text) (code : RelayStreamCloseCode) (reason : Option Text) → RelayFrame
  event :
      (topic : Text) (id : Option Text) (payload : Option RelayPayload) (resource : Option Value)
      → RelayFrame
  cancel : (target : RelayCancelTarget) (reason : Option Text) → RelayFrame
  error : (error : RelayFrameError) (target : Option RelayCancelTarget) → RelayFrame
