-- ===== src/Tunnel/Relay/Expect/Yields.antt =====
-- What holds of a result whenever a check succeeds, by the way the check is built.
use kb_1_daemon.Prelude.{
  suc, ◌<◌, ◌≡◌, refl, Bool, true, false, ◌&&◌, not, [], ◌∷◌, ◌++◌, none, some, arith, Text, text,
  ok, err, if◌then◌else◌, ◌>>=◌, fail_if, length, ◌==◌, &&-true,
}
use kb_1_daemon.Tunnel.Relay.Value.{
  natural, Value, undefined, null, boolean, number, string, array, object, Fields, get, has,
  is_relay_json_value,
}
use kb_1_daemon.Tunnel.Relay.Frame.{RelayCancelTarget, json, base64, rpc, stream}
use kb_1_daemon.Tunnel.Relay.Expect.{
  FrameError, Checked, expect_string, expect_non_empty_string, expect_positive_integer,
  expect_base64, is_base64, expect_relay_json_value, is_plain_record, expect_relay_json_object,
  expect_record, expect_relay_payload, optional, expect_relay_frame_error,
  expect_relay_cancel_target, payload_of, frame_error_of, cancel_target_of, is_string, not_json,
  expect_relay_error_code,
}
use kb_1_daemon.Tunnel.Relay.Expect.Accepts.{
  IsJson, IsJsonObject, IsPayload, IsNonEmpty, IsGiven, IsError, IsTarget,
}

pub record Yields {A : Type 0} (P : A → Type 0) (r : Checked A) : Type 0 where
  pub at : (a : A) → r ≡ ok a → P a

pub Yields-ok : {A : Type 0} (P : A → Type 0) (a : A) → P a → Yields P (ok a)
Yields-ok P a h = record { at = λ b e. ground (arith) }

pub Yields-err : {A : Type 0} (P : A → Type 0) (e : FrameError) → Yields P (err e)
Yields-err P e = record { at = λ b h. cc }

pub Yields-bind :
    {A B : Type 0} {P : A → Type 0} {Q : B → Type 0} (m : Checked A) (f : A → Checked B)
    → Yields P m
    → ((a : A) → P a → Yields Q (f a))
    → Yields Q (m >>= f)
Yields-bind (ok a) f hm hf = hf a (hm.at a refl)
Yields-bind (err e) f hm hf = record { at = λ b h. cc }

pub Yields-if :
    {A : Type 0} {P : A → Type 0} (b : Bool) (m n : Checked A)
    → (b ≡ true → Yields P m)
    → Yields P n
    → Yields P (if b then m else n)
Yields-if true m n hm hn = hm refl
Yields-if false m n hm hn = hn

pub Yields-any : {A : Type 0} (m : Checked A) → Yields (λ _. Unit {0}) m
Yields-any m = record { at = λ a h. tt }

pub expect_record-Yields :
    {A : Type 0} (P : A → Type 0) (v : Value) (e : FrameError) (parse : Fields → Checked A)
    → ((fields : Fields) → Yields P (parse fields))
    → Yields P (expect_record v e parse)
unfolding expect_record
expect_record-Yields P (object plain fields) e parse h = h fields
expect_record-Yields P _ e parse h = Yields-err P e

pub optional-Yields :
    {A : Type 0} (P : A → Type 0) (expect : Value → Text → Checked A) (v : Value) (name : Text)
    → Yields P (expect v name)
    → Yields (IsGiven P) (optional expect v name)
unfolding optional
optional-Yields P expect undefined name h = Yields-ok (IsGiven P) none tt
optional-Yields P expect null name h =
    Yields-bind (expect null name) _ h (λ a p. Yields-ok (IsGiven P) (some a) p)
optional-Yields P expect (boolean b) name h =
    Yields-bind (expect (boolean b) name) _ h (λ a p. Yields-ok (IsGiven P) (some a) p)
optional-Yields P expect (number n) name h =
    Yields-bind (expect (number n) name) _ h (λ a p. Yields-ok (IsGiven P) (some a) p)
optional-Yields P expect (string s) name h =
    Yields-bind (expect (string s) name) _ h (λ a p. Yields-ok (IsGiven P) (some a) p)
optional-Yields P expect (array vs) name h =
    Yields-bind (expect (array vs) name) _ h (λ a p. Yields-ok (IsGiven P) (some a) p)
optional-Yields P expect (object plain fs) name h =
    Yields-bind (expect (object plain fs) name) _ h (λ a p. Yields-ok (IsGiven P) (some a) p)

length-IsNonEmpty : (s : Text) → (length s == 0) ≡ false → IsNonEmpty s
length-IsNonEmpty [] h e = cc
length-IsNonEmpty (c ∷ s) h e = cc

fail_if-Yields : (b : Bool) (e : FrameError) → Yields (λ _. b ≡ false) (fail_if b e)
fail_if-Yields true e = record { at = λ u h. cc }
fail_if-Yields false e = record { at = λ u h. refl }

pub expect_non_empty_string-Yields :
    (v : Value) (name : Text) → Yields IsNonEmpty (expect_non_empty_string v name)
unfolding expect_non_empty_string
expect_non_empty_string-Yields v name =
    Yields-bind (expect_string v name) _ (Yields-any (expect_string v name)) λ s _.
      Yields-bind (fail_if (length s == 0) _) _ (fail_if-Yields _ _)
        λ _ h. Yields-ok IsNonEmpty s (length-IsNonEmpty s h)

pub expect_positive_integer-Yields :
    (v : Value) (name : Text) → Yields (λ n. 0 < n) (expect_positive_integer v name)
unfolding expect_positive_integer
expect_positive_integer-Yields (number (natural (suc n))) name =
    Yields-ok (λ n. 0 < n) (suc n) (omega arith)
expect_positive_integer-Yields _ name = Yields-err _ _

expect_base64-Yields :
    (v : Value) (name : Text) → Yields (λ s. is_base64 s ≡ true) (expect_base64 v name)
unfolding expect_base64
expect_base64-Yields v name =
    Yields-bind (expect_string v name) _ (Yields-any (expect_string v name)) λ s _.
      Yields-bind (fail_if (not (is_base64 s)) _) _ (fail_if-Yields _ _)
        λ _ h. Yields-ok (λ s. is_base64 s ≡ true) s (ground arith)

pub expect_relay_json_value-Yields :
    (v : Value) (name : Text) → Yields IsJson (expect_relay_json_value v name)
unfolding expect_relay_json_value
expect_relay_json_value-Yields v name =
    Yields-if (is_relay_json_value v) _ _ (λ h. Yields-ok IsJson v h) (Yields-err IsJson _)

pub expect_relay_json_object-Yields :
    (v : Value) (name : Text) → Yields IsJsonObject (expect_relay_json_object v name)
unfolding expect_relay_json_object
expect_relay_json_object-Yields v name =
    Yields-if (is_plain_record v && is_relay_json_value v) _ _
      (λ h. Yields-ok IsJsonObject v (&&-true _ _ h)) (Yields-err IsJsonObject _)

json_value-Yields :
    (name : Text) (fields : Fields)
    → Yields IsPayload (
        if has (text "value") fields && is_relay_json_value (get (text "value") fields)
        then ok (json (get (text "value") fields))
        else err (not_json (name ++ text ".value")))
json_value-Yields name fields =
    let v = get (text "value") fields in
    Yields-if (has (text "value") fields && is_relay_json_value v) (ok (json v)) _
      (λ h.
        Yields-ok IsPayload (json v)
          (&&-true (has (text "value") fields) (is_relay_json_value v) h).1)
      (Yields-err IsPayload _)

payload_of-Yields : (name : Text) (fields : Fields) → Yields IsPayload (payload_of name fields)
unfolding payload_of
payload_of-Yields name fields =
    Yields-if (is_string (get (text "encoding") fields) (text "json")) _ _
      (λ _. json_value-Yields name fields)
      (Yields-if (is_string (get (text "encoding") fields) (text "base64")) _ _
        (λ _.
          Yields-bind (expect_base64 (get (text "dataB64") fields) _) _ (expect_base64-Yields _ _)
            (λ s h. Yields-ok IsPayload (base64 s) h))
        (Yields-err IsPayload _))

pub expect_relay_payload-Yields :
    (v : Value) (name : Text) → Yields IsPayload (expect_relay_payload v name)
unfolding expect_relay_payload
expect_relay_payload-Yields v name =
    expect_record-Yields IsPayload v _ (payload_of name) (payload_of-Yields name)

frame_error_of-Yields :
    (name : Text) (fields : Fields) → Yields IsError (frame_error_of name fields)
unfolding frame_error_of
frame_error_of-Yields name fields =
    Yields-bind _ _ (Yields-any (expect_relay_error_code (get (text "code") fields) _)) λ c _.
      Yields-bind _ _ (expect_non_empty_string-Yields (get (text "message") fields) _) λ m hm.
        Yields-bind _ _
          (optional-Yields IsJson expect_relay_json_value (get (text "data") fields) _
            (expect_relay_json_value-Yields _ _))
          λ d hd. Yields-ok IsError _ (record { message = hm; details = hd })

pub expect_relay_frame_error-Yields :
    (v : Value) (name : Text) → Yields IsError (expect_relay_frame_error v name)
unfolding expect_relay_frame_error
expect_relay_frame_error-Yields v name =
    expect_record-Yields IsError v _ (frame_error_of name) (frame_error_of-Yields name)

cancel_target_of-Yields :
    (name : Text) (fields : Fields) → Yields IsTarget (cancel_target_of name fields)
unfolding cancel_target_of
cancel_target_of-Yields name fields =
    Yields-if (is_string (get (text "kind") fields) (text "rpc")) _ _
      (λ _. id_target (text "id") (text ".id") rpc (λ id h. h))
      (Yields-if (is_string (get (text "kind") fields) (text "stream")) _ _
        (λ _. id_target (text "streamId") (text ".streamId") stream (λ id h. h))
        (Yields-err IsTarget _))
  where
    id_target :
        (key suffix : Text) (target : Text → RelayCancelTarget)
        → ((id : Text) → IsNonEmpty id → IsTarget (target id))
        → Yields IsTarget
            (expect_non_empty_string (get key fields) (name ++ suffix) >>= λ id. ok (target id))
    id_target key suffix target h =
        Yields-bind (expect_non_empty_string (get key fields) (name ++ suffix)) _
          (expect_non_empty_string-Yields (get key fields) (name ++ suffix))
          (λ id n. Yields-ok IsTarget (target id) (h id n))

pub expect_relay_cancel_target-Yields :
    (v : Value) (name : Text) → Yields IsTarget (expect_relay_cancel_target v name)
unfolding expect_relay_cancel_target
expect_relay_cancel_target-Yields v name =
    expect_record-Yields IsTarget v _ (cancel_target_of name) (cancel_target_of-Yields name)
