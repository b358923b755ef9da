-- ===== src/Tunnel/StreamMux/Delivery.antt =====
-- What `handleData` acknowledges and what it keeps.
use kb_1_daemon.Prelude.{
  ℕ, ◌+◌, ◌≡◌, refl, sym, ap, ap₂, ◌∙◌, ◌⊎◌, inl, inr, Bool, true, false, Bool-cases, Option-cases,
  List, [], ◌∷◌, ◌++◌, append-nil, append_assoc, Option, none, some, Text, text, length, get_elem?,
  ltb, ◌==◌, ==_self, if◌then◌else◌, arith, All, ◌<◌, ltb→lt, text_eq,
}
use kb_1_daemon.Tunnel.Base64.{Bytes}
use kb_1_daemon.Tunnel.Codec.{DataEnvelope, ingest, Ingested, buffered, message, throws}
use kb_1_daemon.Tunnel.StreamMux.{
  Deps, Effect, sent_ack, sent_close, delivered, closed_socket, MuxStream, StreamMap, StreamMux,
  put, log_effect, find_stream, get_ref, close_socket, forget, tear_down, write_loopback,
  receive_ingested, pass_on, hold, handle_data, stream_retry_safe, oversized_ws_frame, limit_of,
}
use kb_1_daemon.Tunnel.StreamMux.Heap.{get-set_at_self, get_ref-delete_ref}
use kb_1_daemon.Tunnel.StreamMux.Invariant.{IsMux, IsLive, IsSettled, tear_down-same}
use kb_1_daemon.Tunnel.StreamMux.Events.{find-found}

abbrev pub collect : {B : Type 0} → (Effect → List B) → List Effect → List B
collect f [] = []
collect f (e ∷ es) = f e ++ collect f es

pub collect-append :
    {B : Type 0} (f : Effect → List B) (es : List Effect) (e : Effect)
    → collect f (es ++ e ∷ []) ≡ collect f es ++ f e
collect-append f [] e = append-nil (f e)
collect-append f (d ∷ es) e =
    ap (λ l. f d ++ l) (collect-append f es e) ∙ sym (append_assoc (f d) (collect f es) (f e))

abbrev pub ack_of : Effect → List (Text × ℕ)
ack_of (sent_ack id seq) = (id, seq) ∷ []
ack_of _ = []

abbrev pub delivery_to : ℕ → Effect → List Bytes
delivery_to r (delivered q bytes) = if q == r then bytes ∷ [] else []
delivery_to r _ = []

-- The acknowledgements that were sent.
unfoldable pub acks : StreamMux → List (Text × ℕ)
acks m = collect ack_of m.log

-- The messages that the socket with the number r was given.
unfoldable pub deliveries : ℕ → StreamMux → List Bytes
deliveries r m = collect (delivery_to r) m.log

abbrev pub waiting : Option MuxStream → List Bytes
waiting none = []
waiting (some s) = s.pending_inbound

-- Those, and the ones that wait for the socket.
unfoldable pub received : ℕ → StreamMux → List Bytes
received r m = deliveries r m ++ waiting (get_elem? m.heap r)

-- The message that a frame completes.
abbrev pub completed : Ingested → List Bytes
completed (message bytes) = bytes ∷ []
completed _ = []

module _ (deps : Deps) where
  close_socket-acks :
      (r code : ℕ) (reason : Text) (m : StreamMux)
      → acks (close_socket deps r code reason m) ≡ acks m
  unfolding acks
  close_socket-acks r code reason m = elim (Bool-cases (deps.is_ws_open m.log r)) [
    | inl e ↦ rw e (collect-append ack_of m.log (closed_socket r code reason) ∙ append-nil _)
    | inr e ↦ rw e
  ]

  tear_down-acks :
      (id : Text) (code : ℕ) (reason : Text) (m : StreamMux)
      → acks (tear_down deps id code reason m) ≡ acks m
  unfolding tear_down acks
  tear_down-acks id code reason m = elim (Option-cases (get_ref id m.streams)) [
    | inl e ↦ rw e
    | inr (r, e) ↦ rw e (
        let closed = close_socket deps r 1002 reason (forget id m) in
        collect-append ack_of closed.log (sent_close id code reason)
        ∙ append-nil _
        ∙ close_socket-acks r 1002 reason (forget id m))
  ]

  -- Torn down, and not acknowledged.
  abbrev IsRefused : DataEnvelope → StreamMux → StreamMux → Type 0
  IsRefused frame m n = (get_ref frame.stream_id n.streams ≡ none) × (acks n ≡ acks m)

  -- Acknowledged, and kept.
  abbrev IsKept : DataEnvelope → ℕ → List Bytes → StreamMux → StreamMux → Type 0
  IsKept frame r new m n =
      (acks n ≡ acks m ++ (frame.stream_id, frame.seq) ∷ []) × (received r n ≡ received r m ++ new)

  tear_down-IsRefused :
      (frame : DataEnvelope) (code : ℕ) (reason : Text) (m n : StreamMux)
      → acks n ≡ acks m
      → IsRefused frame m (tear_down deps frame.stream_id code reason n)
  tear_down-IsRefused frame code reason m n e = (
    ap (get_ref frame.stream_id) (tear_down-same deps frame.stream_id code reason n).1
        ∙ get_ref-delete_ref frame.stream_id n.streams,
    tear_down-acks frame.stream_id code reason n ∙ e,
  )

  -- Why it may be refused: the codec refuses the frame, the socket its message, or the message overflows
  -- the buffer of a socket that has not opened.
  abbrev pub HasCause : StreamMux → ℕ → MuxStream → Ingested → Type 0
  HasCause m r s throws = Unit
  HasCause m r s buffered = ⊥
  HasCause m r s (message bytes) =
      ((s.loopback_open ≡ true) × (deps.accepts m.log r bytes ≡ false))
      ⊎ ((s.loopback_open ≡ false) × (limit_of deps < s.pending_inbound_bytes + length bytes))

  get_ref-IsSettled :
      (id : Text) (heap : List MuxStream) (l : StreamMap) (r : ℕ) (s : MuxStream)
      → All (IsLive heap) l
      → get_ref id l ≡ some r
      → get_elem? heap r ≡ some s
      → IsSettled s
  unfolding get_ref
  get_ref-IsSettled id heap [] r s h e f = absurd cc
  get_ref-IsSettled id heap ((k, q) ∷ l) r s (v, h) e f = elim (Bool-cases (text_eq k id)) [
    | inl b ↦
        let here : q ≡ r = ground arith in
        let g : get_elem? heap r ≡ some v.object = rw (sym here) v.found in
        let same : v.object ≡ s = cc in rw (sym same) v.settled
    | inr b ↦ get_ref-IsSettled id heap l r s h (ground arith) f
  ]

  module _ (frame : DataEnvelope) (r : ℕ) (s t : MuxStream) (m : StreamMux)
      (f : get_elem? m.heap r ≡ some s) (p : t.pending_inbound ≡ s.pending_inbound) where
    received_before : received r m ≡ deliveries r m ++ s.pending_inbound
    unfolding received
    received_before = ap (λ o. deliveries r m ++ waiting o) f

    received_after :
        (u : MuxStream) (log : List Effect)
        → received r (record (put r u m) { log = log })
          ≡ collect (delivery_to r) log ++ u.pending_inbound
    unfolding received deliveries
    received_after u log =
        ap (λ o. collect (delivery_to r) log ++ waiting o) (get-set_at_self r s u m.heap f)

    hold-IsKept : (bytes : Bytes) → IsKept frame r (bytes ∷ []) m (hold frame r t bytes m)
    unfolding acks deliveries
    hold-IsKept bytes = (
      collect-append ack_of m.log (sent_ack frame.stream_id frame.seq),
      received_after _ _
          ∙ ap₂ (λ l q. l ++ (q ++ bytes ∷ []))
              (collect-append (delivery_to r) m.log (sent_ack frame.stream_id frame.seq)
                ∙ append-nil _)
              p
          ∙ sym (append_assoc (collect (delivery_to r) m.log) s.pending_inbound (bytes ∷ []))
          ∙ ap (λ l. l ++ bytes ∷ []) (sym received_before),
    )

    buffer-IsKept :
        IsKept frame r [] m (log_effect (sent_ack frame.stream_id frame.seq) (put r t m))
    unfolding acks deliveries
    buffer-IsKept = (
      collect-append ack_of m.log (sent_ack frame.stream_id frame.seq),
      received_after t _
          ∙ ap₂ (λ l q. l ++ q)
              (collect-append (delivery_to r) m.log (sent_ack frame.stream_id frame.seq)
                ∙ append-nil _)
              p
          ∙ sym received_before
          ∙ sym (append-nil _),
    )

    write-IsKept :
        (bytes : Bytes)
        → s.pending_inbound ≡ []
        → IsKept frame r (bytes ∷ []) m (
            log_effect
              (sent_ack frame.stream_id frame.seq)
              (log_effect (delivered r bytes) (put r t m)))
    unfolding acks deliveries
    write-IsKept bytes q =
        let log = m.log ++ delivered r bytes ∷ [] in
        let given : collect (delivery_to r) log ≡ collect (delivery_to r) m.log ++ bytes ∷ [] =
          collect-append (delivery_to r) m.log (delivered r bytes)
          ∙ ap (λ b. collect (delivery_to r) m.log ++ (if b then bytes ∷ [] else [])) (==_self r) in
        (
          collect-append ack_of log (sent_ack frame.stream_id frame.seq)
              ∙ ap (λ l. l ++ (frame.stream_id, frame.seq) ∷ [])
                  (collect-append ack_of m.log (delivered r bytes) ∙ append-nil _),
          received_after t _
              ∙ ap₂ (λ l q. l ++ q)
                  (collect-append (delivery_to r) log (sent_ack frame.stream_id frame.seq)
                    ∙ append-nil _
                    ∙ given)
                  (p ∙ q)
              ∙ append-nil _
              ∙ ap (λ l. l ++ bytes ∷ [])
                  (sym (
                    received_before
                    ∙ ap (λ l. collect (delivery_to r) m.log ++ l) q
                    ∙ append-nil _)),
        )

    put-acks : acks (put r t m) ≡ acks m
    unfolding acks
    put-acks = refl

    module _ (same : t.loopback_open ≡ s.loopback_open)
        (count : t.pending_inbound_bytes ≡ s.pending_inbound_bytes) (settled : IsSettled s) where
      pass_on-outcome :
          (bytes : Bytes) (b : Bool)
          → s.loopback_open ≡ b
          → (IsRefused frame m (pass_on deps frame r t bytes m b) × HasCause m r s (message bytes))
            ⊎ IsKept frame r (bytes ∷ []) m (pass_on deps frame r t bytes m b)
      unfolding write_loopback
      pass_on-outcome bytes true o = elim (Bool-cases (deps.accepts m.log r bytes)) [
        | inl e ↦ rw e (
            inr (
              write-IsKept bytes
                (elim settled [ inl g ↦ absurd (ground (arith, o, g)) | inr g ↦ g ])))
        | inr e ↦ rw e (
            inl (
              tear_down-IsRefused frame stream_retry_safe (text "loopback delivery failed") m
                  (put r t m) put-acks,
              inl (o, refl),
            ))
      ]
      pass_on-outcome bytes false o =
          elim (Bool-cases (ltb (limit_of deps) (t.pending_inbound_bytes + length bytes))) [
            | inl e ↦ rw e (
                inl (
                  tear_down-IsRefused frame stream_retry_safe
                      (text "pending inbound buffer overflow") m (put r t m) put-acks,
                  inr (
                    o,
                    rw (sym count)
                        (ltb→lt (limit_of deps) (t.pending_inbound_bytes + length bytes) e),
                  ),
                ))
            | inr e ↦ rw e (inr (hold-IsKept bytes))
          ]

      receive_ingested-outcome :
          (error : Text) (o : Ingested)
          → (IsRefused frame m (receive_ingested deps error frame r t m o) × HasCause m r s o)
            ⊎ IsKept frame r (completed o) m (receive_ingested deps error frame r t m o)
      receive_ingested-outcome error throws =
          inl (tear_down-IsRefused frame oversized_ws_frame error m (put r t m) put-acks, tt)
      receive_ingested-outcome error buffered = inr buffer-IsKept
      receive_ingested-outcome error (message bytes) =
          pass_on-outcome bytes t.loopback_open (sym same)

  -- In a well-formed mux, a data frame for a stream r of the map has one of two outcomes. Either the stream
  -- is torn down and nothing is acknowledged, because the codec refuses the frame, the open socket refuses the
  -- message, or the message overflows the buffer of a socket that has not opened. Or the frame is
  -- acknowledged, once, and the message that it completes, if any, is added to those that the socket was
  -- given or that wait for it.
  pub handle_data-outcome :
      (error : Text) (frame : DataEnvelope) (m : StreamMux) (r : ℕ) (s : MuxStream)
      → IsMux deps m
      → find_stream frame.stream_id m ≡ some (r, s)
      → let n = handle_data deps error frame m in
        let taken = (ingest s.codec frame).1 in
        ((get_ref frame.stream_id n.streams ≡ none) × (acks n ≡ acks m) × HasCause m r s taken)
        ⊎ ((acks n ≡ acks m ++ (frame.stream_id, frame.seq) ∷ [])
            × (received r n ≡ received r m ++ completed taken))
  unfolding handle_data
  handle_data-outcome error frame m r s h e =
      let found = find-found m.heap (get_ref frame.stream_id m.streams) r s e in
      let settled =
        get_ref-IsSettled frame.stream_id m.heap m.streams r s h.entries found.0 found.1 in
      let taken = ingest s.codec frame in
      rw e
        (elim (receive_ingested-outcome frame r s (record s { codec = taken.0 }) m found.1 refl refl
          refl settled error taken.1) [
            | inl ((gone, silent), why) ↦ inl (gone, silent, why)
            | inr kept ↦ inr kept
          ])
