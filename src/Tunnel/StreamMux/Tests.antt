-- ===== src/Tunnel/StreamMux/Tests.antt =====
-- A mux with one stream, whose socket takes everything.
use kb_1_daemon.Prelude.{
  ◌≡◌, refl, ◌⊎◌, true, List, map, ◌<◌, [], ◌∷◌, ◌++◌, none, some, Text, text, get_elem?,
}
use kb_1_daemon.Tunnel.Base64.{bytes_to_base64}
use kb_1_daemon.Tunnel.Codec.{
  DataEnvelope, create_codec, ingest, has_pending_outbound, pull_sendable, pull_from, count_sent,
  is_blocked,
}
use kb_1_daemon.Tunnel.Codec.Sending.{frames}
use kb_1_daemon.Tunnel.StreamMux.{
  Deps, opened, delivered, MuxStream, StreamMux, empty_mux, new_stream, get_ref, delete_ref,
  handle_open, handle_close, handle_data, loopback_opens, loopback_closes, other_reason,
  reason_text, write_loopback, write_pending, opens, flush_outbound, sent_data, paused_socket,
}
use kb_1_daemon.Tunnel.StreamMux.Invariant.{IsMux}
use kb_1_daemon.Tunnel.StreamMux.Steps.{Step-IsMux}
use kb_1_daemon.Tunnel.StreamMux.Flush.{signal_of, flush_outbound_lem}
use kb_1_daemon.Tunnel.StreamMux.Delivery.{
  acks, deliveries, received, completed, HasCause, handle_data-outcome,
}
use kb_1_daemon.Tunnel.StreamMux.Opening.{loopback_opens-outcome}

abbrev deps : Deps
deps = record {
  accepts = λ log r bytes. true;
  is_ws_open = λ log r. true;
  chunk_bytes = some 2;
  window_bytes = some 8;
}

abbrev id : Text
id = text "a"

abbrev stream : MuxStream
stream = new_stream deps id

abbrev mux : StreamMux
mux = record { streams = (id, 0) ∷ []; heap = stream ∷ []; log = opened id ∷ [] }

abbrev frame : DataEnvelope
frame = record { stream_id = id; seq = 0; bytes_b64 = bytes_to_base64 (7 ∷ []); fin = true }

empty-IsMux : IsMux deps empty_mux
empty-IsMux = record { objects = tt; entries = tt }

mux-IsMux : IsMux deps mux
unfolding handle_open get_ref
mux-IsMux = Step-IsMux deps (opens id empty_mux) empty-IsMux

-- Two frames of two bytes are queued, of which the window lets one pass.
abbrev queueing : MuxStream
queueing = record stream {
  codec = record stream.codec {
    window_bytes = 3;
    tx_seq = 2;
    outbound =
        record { frame = frame; bytes = 2 }
        ∷ record { frame = record frame { seq = 1 }; bytes = 2 }
        ∷ [];
  };
}

flush_outbound_lem_example :
    (sent : List DataEnvelope) × (t : MuxStream) × (get_elem? (flush_outbound 0 queueing mux).heap 0
      ≡ some t)
    × ((flush_outbound 0 queueing mux).log
        ≡ mux.log ++ (map sent_data sent ++ signal_of queueing.paused t.paused 0))
    × (sent ++ frames t.codec.outbound ≡ frames queueing.codec.outbound)
    × (t.paused ≡ has_pending_outbound t.codec)
    × ((t.codec.outbound ≡ []) ⊎ (0 < t.codec.unacked))
flush_outbound_lem_example = flush_outbound_lem 0 stream queueing mux refl

-- The first is sent, and the socket is paused.
sends_and_pauses :
    (flush_outbound 0 queueing mux).log ≡ opened id ∷ sent_data frame ∷ paused_socket 0 ∷ []
unfolding flush_outbound pull_sendable pull_from count_sent is_blocked has_pending_outbound
    create_codec
sends_and_pauses = refl

handle_data-outcome_example :
    let n = handle_data deps [] frame mux in
    let taken = (ingest stream.codec frame).1 in
    ((get_ref id n.streams ≡ none) × (acks n ≡ acks mux) × HasCause deps mux 0 stream taken)
    ⊎ ((acks n ≡ acks mux ++ (id, 0) ∷ []) × (received 0 n ≡ received 0 mux ++ completed taken))
unfolding get_ref
handle_data-outcome_example = handle_data-outcome deps [] frame mux 0 stream mux-IsMux refl

-- One message waits.
abbrev holding : MuxStream
holding = record stream { pending_inbound = (7 ∷ []) ∷ []; pending_inbound_bytes = 1 }

abbrev waiting_mux : StreamMux
waiting_mux = record mux { heap = holding ∷ [] }

loopback_opens-outcome_example :
    let n = loopback_opens deps 0 holding waiting_mux in
    ((deliveries 0 n ≡ deliveries 0 waiting_mux ++ (7 ∷ []) ∷ [])
      × (get_elem? n.heap 0
          ≡ some (record holding {
            loopback_open = true;
            pending_inbound = [];
            pending_inbound_bytes = 0;
          })))
    ⊎ (get_ref id n.streams ≡ none)
loopback_opens-outcome_example = loopback_opens-outcome deps 0 holding waiting_mux refl

opens_and_delivers :
    (loopback_opens deps 0 holding waiting_mux).log ≡ opened id ∷ delivered 0 (7 ∷ []) ∷ []
unfolding loopback_opens write_pending write_loopback
opens_and_delivers = refl

-- The stream is closed and its id is opened again. The "close" event of the first socket, which comes late,
-- ends the second stream.
abbrev reopened : StreamMux
reopened = handle_open deps id (handle_close deps id [] mux)

late_close : (loopback_closes (λ b. b) stream (some 1000) other_reason reopened).streams ≡ []
unfolding loopback_closes handle_open handle_close get_ref delete_ref reason_text
late_close = refl
