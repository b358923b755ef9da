-- ===== src/Tunnel/StreamMux/Flush.antt =====
-- `flushOutbound`: what it sends to the tunnel, and when it pauses the loopback socket or lets it go on.
use kb_1_daemon.Prelude.{
  ℕ, ◌<◌, ◌≡◌, refl, sym, ◌∙◌, ◌⊎◌, inl, inr, Bool, true, false, Bool-cases, List, [], ◌∷◌, ◌++◌,
  append-nil, append_assoc, map, some, get_elem?,
}
use kb_1_daemon.Tunnel.Codec.{DataEnvelope, pull_sendable, has_pending_outbound}
use kb_1_daemon.Tunnel.Codec.Sending.{frames, pull_sendable_lem}
use kb_1_daemon.Tunnel.StreamMux.{
  Effect, sent_data, paused_socket, resumed_socket, MuxStream, StreamMux, emit_all, adjust_pause,
  flush_outbound,
}
use kb_1_daemon.Tunnel.StreamMux.Heap.{get-set_at_self}

-- What the socket is told when its stream becomes paused or is no longer so.
abbrev pub signal_of : Bool → Bool → ℕ → List Effect
signal_of false true r = paused_socket r ∷ []
signal_of true false r = resumed_socket r ∷ []
signal_of false false r = []
signal_of true true r = []

abbrev Adjusted : ℕ → MuxStream → Bool → StreamMux → Type 0
Adjusted r t pending m =
    (get_elem? (adjust_pause r t pending m).heap r ≡ some (record t { paused = pending }))
    × ((adjust_pause r t pending m).log ≡ m.log ++ signal_of t.paused pending r)

adjust_pause_lem :
    (r : ℕ) (old t : MuxStream) (pending : Bool) (m : StreamMux)
    → get_elem? m.heap r ≡ some old
    → Adjusted r t pending m
adjust_pause_lem r old t true m f = elim (Bool-cases t.paused) [
  | inl q ↦
      rw q (get-set_at_self r old (record t { paused = true }) m.heap f, sym (append-nil m.log))
  | inr q ↦ rw q (get-set_at_self r old (record t { paused = true }) m.heap f, refl)
]
adjust_pause_lem r old t false m f = elim (Bool-cases t.paused) [
  | inl q ↦ rw q (get-set_at_self r old (record t { paused = false }) m.heap f, refl)
  | inr q ↦
      rw q (get-set_at_self r old (record t { paused = false }) m.heap f, sym (append-nil m.log))
]

-- `flushOutbound` for a stream that has the number `r` sends the tunnel a front part of the queue, in order, and
-- leaves the rest in the queue. After it the stream is paused exactly while frames are queued, and the socket has
-- been told so exactly if that has changed. And if frames are still queued, some bytes are unacknowledged, whose
-- acknowledgement flushes again.
pub flush_outbound_lem :
    (r : ℕ) (old s : MuxStream) (m : StreamMux)
    → get_elem? m.heap r ≡ some old
    → (sent : List DataEnvelope) × (t : MuxStream) × (get_elem? (flush_outbound r s m).heap r
        ≡ some t)
      × ((flush_outbound r s m).log
          ≡ m.log ++ (map sent_data sent ++ signal_of s.paused t.paused r))
      × (sent ++ frames t.codec.outbound ≡ frames s.codec.outbound)
      × (t.paused ≡ has_pending_outbound t.codec)
      × ((t.codec.outbound ≡ []) ⊎ (0 < t.codec.unacked))
unfolding flush_outbound
flush_outbound_lem r old s m f =
    let pulled = pull_sendable s.codec in
    let pending = has_pending_outbound pulled.0 in
    let (order, goes_on) = pull_sendable_lem s.codec in
    let (there, told) =
      adjust_pause_lem r old (record s { codec = pulled.0 }) pending (emit_all pulled.1 m) f in
    (
      pulled.1,
      record s { codec = pulled.0; paused = pending },
      there,
      told ∙ append_assoc m.log (map sent_data pulled.1) (signal_of s.paused pending r),
      order,
      refl,
      goes_on,
    )
