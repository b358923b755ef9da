-- ===== src/Tunnel/Relay/Expect/Accepts.antt =====
-- What the `expect...` functions accept, they return; and which parts of a frame are well formed.
use mathlib.Core.Option
use kb_1_daemon.Prelude.{
  ℕ, zero, suc, ◌<◌, ◌≡◌, refl, ◌≢◌, true, [], ◌∷◌, Option, none, some, arith, Text, ok,
}
use kb_1_daemon.Tunnel.Relay.Value.{
  Value, undefined, null, boolean, number, string, array, object, get, has, is_relay_json_value,
}
use kb_1_daemon.Tunnel.Relay.Frame.{
  RelayErrorCode, error_code_name, RelayStreamCloseCode, close_code_name, RelayPayload, json,
  base64, RelayFrameError, RelayCancelTarget, rpc, stream, bad_message, normal,
}
use kb_1_daemon.Tunnel.Relay.Expect.{
  Checked, expect_string, expect_non_empty_string, expect_positive_integer, expect_base64,
  is_base64, expect_relay_json_value, is_plain_record, expect_relay_json_object, find_code,
  expect_relay_error_code, expect_relay_stream_close_code, expect_relay_payload, optional,
  expect_relay_frame_error, expect_relay_cancel_target,
}
use kb_1_daemon.Tunnel.Relay.Encode.{
  payload_value, error_value, target_value, count_value, or_else, get-optional_field,
}

abbrev pub IsJson : Value → Type 0
IsJson v = is_relay_json_value v ≡ true

abbrev pub IsJsonObject : Value → Type 0
IsJsonObject v = (is_plain_record v ≡ true) × IsJson v

abbrev pub IsPayload : RelayPayload → Type 0
IsPayload (json v) = IsJson v
IsPayload (base64 s) = is_base64 s ≡ true

abbrev pub IsNonEmpty : Text → Type 0
IsNonEmpty s = s ≢ []

abbrev pub IsGiven : {A : Type 0} → (A → Type 0) → Option A → Type 0
IsGiven P none = Unit
IsGiven P (some a) = P a

pub record IsError (e : RelayFrameError) : Type 0 where
  pub message : IsNonEmpty e.message
  pub details : IsGiven IsJson e.details

abbrev pub IsTarget : RelayCancelTarget → Type 0
IsTarget (rpc id) = IsNonEmpty id
IsTarget (stream id) = IsNonEmpty id

pub expect_non_empty_string_lem :
    (s name : Text) → IsNonEmpty s → expect_non_empty_string (string s) name ≡ ok s
unfolding expect_non_empty_string
expect_non_empty_string_lem [] name h = absurd (h refl)
expect_non_empty_string_lem (c ∷ s) name h = ground arith

pub expect_positive_integer_lem :
    (n : ℕ) (name : Text) → 0 < n → expect_positive_integer (count_value n) name ≡ ok n
unfolding expect_positive_integer
expect_positive_integer_lem zero name h = absurd (omega arith)
expect_positive_integer_lem (suc n) name h = refl

pub expect_relay_json_value_lem :
    (v : Value) (name : Text) → IsJson v → expect_relay_json_value v name ≡ ok v
unfolding expect_relay_json_value
expect_relay_json_value_lem v name h = rw h

pub expect_relay_json_object_lem :
    (v : Value) (name : Text) → IsJsonObject v → expect_relay_json_object v name ≡ ok v
unfolding expect_relay_json_object
expect_relay_json_object_lem v name (p, j) = rw (p, j)

pub expect_relay_payload_lem :
    (p : RelayPayload) (name : Text)
    → IsPayload p
    → expect_relay_payload (payload_value p) name ≡ ok p
unfolding expect_relay_payload get has expect_base64
expect_relay_payload_lem (json v) name h = rw h
expect_relay_payload_lem (base64 s) name h = rw h

-- An optional field that is there.
pub optional-some :
    {A : Type 0} (expect : Value → Text → Checked A) (v : Value) (name : Text) (a : A)
    → v ≢ undefined
    → expect v name ≡ ok a
    → optional expect v name ≡ ok (some a)
unfolding optional
optional-some expect undefined name a n h = absurd (n refl)
optional-some expect null name a n h = rw h
optional-some expect (boolean b) name a n h = rw h
optional-some expect (number x) name a n h = rw h
optional-some expect (string s) name a n h = rw h
optional-some expect (array vs) name a n h = rw h
optional-some expect (object p fs) name a n h = rw h

-- So for a field that is written only if its value is there.
pub optional_lem :
    {A : Type 0} (P : A → Type 0) (expect : Value → Text → Checked A) (value : A → Value)
    (name : Text)
    → ((a : A) → P a → value a ≢ undefined)
    → ((a : A) → P a → expect (value a) name ≡ ok a)
    → (o : Option A) → IsGiven P o
    → optional expect (or_else (Option.map value o) undefined) name ≡ ok o
unfolding optional
optional_lem P expect value name d e none h = refl
optional_lem P expect value name d e (some a) h =
    optional-some expect (value a) name a (d a h) (e a h)

json-ne : (v : Value) → IsJson v → v ≢ undefined
unfolding is_relay_json_value
json-ne undefined h e = cc
json-ne (number x) h e = cc
json-ne _ h e = cc

pub optional_string_lem :
    (o : Option Text) (name : Text)
    → optional expect_string (or_else (Option.map string o) undefined) name ≡ ok o
unfolding optional expect_string
optional_string_lem none name = refl
optional_string_lem (some s) name = refl

string-ne : (s : Text) → string s ≢ undefined
string-ne s e = cc

pub optional_non_empty_string_lem :
    (o : Option Text) (name : Text)
    → IsGiven IsNonEmpty o
    → optional expect_non_empty_string (or_else (Option.map string o) undefined) name ≡ ok o
optional_non_empty_string_lem o name =
    optional_lem IsNonEmpty expect_non_empty_string string name (λ s _. string-ne s)
      (λ s. expect_non_empty_string_lem s name) o

count-ne : (n : ℕ) → count_value n ≢ undefined
count-ne n e = cc

pub optional_positive_lem :
    (o : Option ℕ) (name : Text)
    → IsGiven (λ n. 0 < n) o
    → optional expect_positive_integer (or_else (Option.map count_value o) undefined) name ≡ ok o
optional_positive_lem o name =
    optional_lem (λ n. 0 < n) expect_positive_integer count_value name (λ n _. count-ne n)
      (λ n. expect_positive_integer_lem n name) o

payload-ne : (p : RelayPayload) → payload_value p ≢ undefined
payload-ne (json v) e = cc
payload-ne (base64 s) e = cc

pub optional_payload_lem :
    (o : Option RelayPayload) (name : Text)
    → IsGiven IsPayload o
    → optional expect_relay_payload (or_else (Option.map payload_value o) undefined) name ≡ ok o
optional_payload_lem o name =
    optional_lem IsPayload expect_relay_payload payload_value name (λ p _. payload-ne p)
      (λ p. expect_relay_payload_lem p name) o

pub optional_json_lem :
    (o : Option Value) (name : Text)
    → IsGiven IsJson o
    → optional expect_relay_json_value (or_else o undefined) name ≡ ok o
unfolding optional
optional_json_lem none name h = refl
optional_json_lem (some v) name h =
    optional-some expect_relay_json_value v name v (json-ne v h)
      (expect_relay_json_value_lem v name h)

pub optional_object_lem :
    (o : Option Value) (name : Text)
    → IsGiven IsJsonObject o
    → optional expect_relay_json_object (or_else o undefined) name ≡ ok o
unfolding optional
optional_object_lem none name h = refl
optional_object_lem (some v) name h =
    optional-some expect_relay_json_object v name v (json-ne v h.1)
      (expect_relay_json_object_lem v name h)

pub expect_relay_error_code_lem :
    (c : RelayErrorCode) (name : Text)
    → expect_relay_error_code (string (error_code_name c)) name ≡ ok c
unfolding expect_relay_error_code find_code
expect_relay_error_code_lem bad_message name = refl
expect_relay_error_code_lem _ name = refl

pub expect_relay_stream_close_code_lem :
    (c : RelayStreamCloseCode) (name : Text)
    → expect_relay_stream_close_code (string (close_code_name c)) name ≡ ok c
unfolding expect_relay_stream_close_code find_code
expect_relay_stream_close_code_lem normal name = refl
expect_relay_stream_close_code_lem _ name = refl

pub expect_relay_cancel_target_lem :
    (t : RelayCancelTarget) (name : Text)
    → IsTarget t
    → expect_relay_cancel_target (target_value t) name ≡ ok t
unfolding expect_relay_cancel_target get
expect_relay_cancel_target_lem (rpc id) name h = rw (expect_non_empty_string_lem id _ h)
expect_relay_cancel_target_lem (stream id) name h = rw (expect_non_empty_string_lem id _ h)

target-ne : (t : RelayCancelTarget) → target_value t ≢ undefined
target-ne (rpc id) e = cc
target-ne (stream id) e = cc

pub optional_target_lem :
    (o : Option RelayCancelTarget) (name : Text)
    → IsGiven IsTarget o
    → optional expect_relay_cancel_target (or_else (Option.map target_value o) undefined) name
      ≡ ok o
optional_target_lem o name =
    optional_lem IsTarget expect_relay_cancel_target target_value name (λ t _. target-ne t)
      (λ t. expect_relay_cancel_target_lem t name) o

pub expect_relay_frame_error_lem :
    (e : RelayFrameError) (name : Text)
    → IsError e
    → expect_relay_frame_error (error_value e) name ≡ ok e
unfolding expect_relay_frame_error error_value get
expect_relay_frame_error_lem e name h = simp get-optional_field (
    rw (
      expect_relay_error_code_lem e.code _,
      expect_non_empty_string_lem e.message _ h.message,
      optional_json_lem e.details _ h.details,
    ))
