-- ===== src/Tunnel/StreamMux/Steps.antt =====
-- The frames that carry data and acknowledgements, and every step together.
use kb_1_daemon.Prelude.{
  ℕ, ◌+◌, ◌≡◌, refl, sym, ap, ◌∙◌, inl, Bool, true, false, [], ◌∷◌, ◌++◌, Option, none, some, Text,
  length, get_elem?, ltb, ltb-false,
}
use kb_1_daemon.Tunnel.Base64.{Bytes}
use kb_1_daemon.Tunnel.Codec.{
  DataEnvelope, ingest, Ingested, buffered, message, throws, on_ack, has_pending_outbound,
}
use kb_1_daemon.Tunnel.Codec.Window.{on_ack-IsSound}
use kb_1_daemon.Tunnel.Codec.Sending.{ingest-SameSender, ingest-IsSound}
use kb_1_daemon.Tunnel.StreamMux.{
  Deps, MuxStream, StreamMux, limit_of, put, find_stream, get_ref, write_loopback, receive_ingested,
  after_write, hold_unless, pass_on, oversized_ws_frame, handle_data, data_for, handle_data_ack,
  ack_for, stream_retry_safe, Step, opens, data_comes, ack_comes, close_comes, is_disposed,
  socket_opens, socket_sends, socket_closes,
}
use kb_1_daemon.Tunnel.StreamMux.Heap.{get-All}
use kb_1_daemon.Tunnel.StreamMux.Invariant.{
  IsStream, IsSettled, IsMux, put-IsMux, logged-IsMux, tear_down-IsMux,
}
use kb_1_daemon.Tunnel.StreamMux.Events.{
  find-found, total_bytes-append, write_loopback-same, handle_open-IsMux, flush_outbound-IsMux,
  loopback_message-IsMux, loopback_opens-IsMux, loopback_closes-IsMux, handle_close-IsMux,
  dispose_all-IsMux,
}

module _ (deps : Deps) where
  after_write-IsMux :
      (frame : DataEnvelope) (w : StreamMux × Bool)
      → IsMux deps w.0
      → IsMux deps (after_write deps frame w)
  after_write-IsMux frame (m, true) h = logged-IsMux deps m _ refl refl h
  after_write-IsMux frame (m, false) h =
      tear_down-IsMux deps frame.stream_id stream_retry_safe _ m h

  -- An object that the codec has changed.
  module _ (frame : DataEnvelope) (r : ℕ) (s t : MuxStream) (m : StreamMux)
      (f : get_elem? m.heap r ≡ some s) (n : t.stream_id ≡ s.stream_id)
      (keep : IsSettled s → IsSettled t) (i : IsStream deps t) (h : IsMux deps m) where
    hold_unless-IsMux :
        (bytes : Bytes) (b : Bool)
        → t.loopback_open ≡ false
        → ltb (limit_of deps) (t.pending_inbound_bytes + length bytes) ≡ b
        → IsMux deps (hold_unless deps frame r t bytes m b)
    hold_unless-IsMux bytes true o e =
        tear_down-IsMux deps frame.stream_id stream_retry_safe _ (put r t m)
          (put-IsMux deps r s t m f n keep i h)
    hold_unless-IsMux bytes false o e =
        let u : MuxStream = record t {
          pending_inbound = t.pending_inbound ++ bytes ∷ [];
          pending_inbound_bytes = t.pending_inbound_bytes + length bytes;
        } in
        logged-IsMux deps (put r u m) _ refl refl (
          put-IsMux deps r s u m f n (λ k. inl o)
            (record {
              windowed = i.windowed;
              pressed = i.pressed;
              counted = rw i.counted (sym (total_bytes-append t.pending_inbound bytes));
              bounded = ltb-false (limit_of deps) (t.pending_inbound_bytes + length bytes) e;
            })
            h)

    pass_on-IsMux :
        (bytes : Bytes) (b : Bool)
        → t.loopback_open ≡ b
        → IsMux deps (pass_on deps frame r t bytes m b)
    pass_on-IsMux bytes true o =
        let w = write_loopback deps r bytes (put r t m) in
        let same = write_loopback-same deps r bytes (put r t m) in
        after_write-IsMux frame w
          (logged-IsMux deps (put r t m) w.0 same.0 same.1 (put-IsMux deps r s t m f n keep i h))
    pass_on-IsMux bytes false o = hold_unless-IsMux bytes _ o refl

    receive_ingested-IsMux :
        (error : Text) (o : Ingested) → IsMux deps (receive_ingested deps error frame r t m o)
    receive_ingested-IsMux error throws =
        tear_down-IsMux deps frame.stream_id oversized_ws_frame error (put r t m)
          (put-IsMux deps r s t m f n keep i h)
    receive_ingested-IsMux error buffered =
        logged-IsMux deps (put r t m) _ refl refl (put-IsMux deps r s t m f n keep i h)
    receive_ingested-IsMux error (message bytes) = pass_on-IsMux bytes _ refl

  pub ingest-IsStream :
      (s : MuxStream) (frame : DataEnvelope)
      → IsStream deps s
      → IsStream deps (record s { codec = (ingest s.codec frame).0 })
  unfolding has_pending_outbound
  ingest-IsStream s frame i = record {
    windowed = ingest-IsSound s.codec frame i.windowed;
    pressed = i.pressed ∙ ap (λ q. ltb 0 (length q)) (sym (ingest-SameSender s.codec frame).0);
    counted = i.counted;
    bounded = i.bounded;
  }

  data_for-IsMux :
      (error : Text) (frame : DataEnvelope) (m : StreamMux) (o : Option (ℕ × MuxStream))
      → find_stream frame.stream_id m ≡ o
      → IsMux deps m
      → IsMux deps (data_for deps error frame m o)
  data_for-IsMux error frame m none e h = h
  data_for-IsMux error frame m (some (r, s)) e h =
      let f = (find-found m.heap (get_ref frame.stream_id m.streams) r s e).1 in
      let taken = ingest s.codec frame in
      let i = ingest-IsStream s frame (get-All (IsStream deps) r s m.heap h.objects f) in
      receive_ingested-IsMux frame r s (record s { codec = taken.0 }) m f refl (λ k. k) i h error
        taken.1

  handle_data-IsMux :
      (error : Text) (frame : DataEnvelope) (m : StreamMux)
      → IsMux deps m
      → IsMux deps (handle_data deps error frame m)
  unfolding handle_data
  handle_data-IsMux error frame m h = data_for-IsMux error frame m _ refl h

  ack_for-IsMux :
      (id : Text) (seq : ℕ) (m : StreamMux) (o : Option (ℕ × MuxStream))
      → find_stream id m ≡ o
      → IsMux deps m
      → IsMux deps (ack_for seq m o)
  ack_for-IsMux id seq m none e h = h
  ack_for-IsMux id seq m (some (r, s)) e h =
      let f = (find-found m.heap (get_ref id m.streams) r s e).1 in
      let i = get-All (IsStream deps) r s m.heap h.objects f in
      flush_outbound-IsMux deps r s (record s { codec = on_ack s.codec seq }) m f refl (λ k. k)
        (on_ack-IsSound s.codec seq i.windowed) i.counted i.bounded h

  handle_data_ack-IsMux :
      (id : Text) (seq : ℕ) (m : StreamMux) → IsMux deps m → IsMux deps (handle_data_ack id seq m)
  unfolding handle_data_ack
  handle_data_ack-IsMux id seq m h = ack_for-IsMux id seq m _ refl h

  -- From a well-formed mux, every frame from the tunnel and every event of a socket leads to a well-formed
  -- one: every stream's codec keeps to its window, it counts as paused exactly while frames are
  -- queued, and the messages that wait for the socket are counted and within the limit; every id in the
  -- map has an object made for it, with waiting messages only if its socket has not opened.
  pub Step-IsMux : {m n : StreamMux} → Step deps m n → IsMux deps m → IsMux deps n
  Step-IsMux (opens id m) h = handle_open-IsMux deps id m h
  Step-IsMux (data_comes error frame m) h = handle_data-IsMux error frame m h
  Step-IsMux (ack_comes id seq m) h = handle_data_ack-IsMux id seq m h
  Step-IsMux (close_comes id reason m) h = handle_close-IsMux deps id reason m h
  Step-IsMux (is_disposed reason m) h = dispose_all-IsMux deps reason m h
  Step-IsMux (socket_opens r s m f) h = loopback_opens-IsMux deps r s m f h
  Step-IsMux (socket_sends from r s d m n f e) h = loopback_message-IsMux deps from r s d m n f e h
  Step-IsMux (socket_closes to_string r s code reason m f) h =
      loopback_closes-IsMux deps to_string s code reason m h
