-- ===== src/Tunnel/Codec/Tests.antt =====
-- A message of five bytes, in chunks of two, and a codec in the middle of sending it.
use kb_1_daemon.Prelude.{
  ◌≡◌, refl, [], ◌∷◌, ◌⊎◌, ◌++◌, ◌+◌, ◌<◌, ℕ, List, Bool, length, none, some, true, false, arith,
  text,
}
use kb_1_daemon.Tunnel.Base64.{Bytes}
use kb_1_daemon.Tunnel.Codec.{
  DocumentStreamCodec, Outbound, create_codec, enqueue, enqueue_chunks, envelope, pull_sendable,
  on_ack, ingest, reset_inbound, or_default, get_seq,
}
use kb_1_daemon.Tunnel.Codec.Window.{IsSound}
use kb_1_daemon.Tunnel.Codec.Sending.{frames, queue_bytes, methods-IsSound, pull_sendable_lem}
use kb_1_daemon.Tunnel.Codec.RoundTrip.{receive, arrives, queued, enqueue-deliver}

abbrev five : Bytes
five = 1 ∷ 2 ∷ 3 ∷ 4 ∷ 5 ∷ []

abbrev sender : DocumentStreamCodec
sender = record {
  stream_id = text "s";
  chunk_bytes = 2;
  window_bytes = 4;
  message_byte_limit = 8;
  tx_seq = 2;
  unacked = 2;
  unacked_by_seq = (0, 2) ∷ [];
  outbound = record { frame = envelope (text "s") 1 (9 ∷ []) true; bytes = 1 } ∷ [];
  inbound = [];
  inbound_bytes = 0;
}

sender-IsSound : IsSound sender
sender-IsSound = (
  1,
  record {
    numbered = (refl, refl);
    older = (omega arith, tt);
    chunked = (omega arith, tt);
    counted = refl;
    bounded = omega arith;
  },
)

abbrev chunk_at : ℕ → Bytes → Bool → Outbound
chunk_at seq chunk fin = record { frame = envelope (text "s") seq chunk fin; bytes = length chunk }

abbrev sender_queued : DocumentStreamCodec
sender_queued = record sender {
  tx_seq = 5;
  outbound =
      sender.outbound
      ++ chunk_at 2 (1 ∷ 2 ∷ []) false
        ∷ chunk_at 3 (3 ∷ 4 ∷ []) false
        ∷ chunk_at 4 (5 ∷ []) true
        ∷ [];
}

enqueue-five : enqueue sender five ≡ some sender_queued
unfolding enqueue enqueue_chunks
enqueue-five = refl

methods-IsSound_example :
    IsSound (create_codec (text "t") none (some 10) none)
    × IsSound sender_queued
    × IsSound (pull_sendable sender).0
    × IsSound (on_ack sender 0)
    × IsSound (ingest sender (envelope (text "s") 7 five false)).0
    × (sender_queued.unacked ≡ sender.unacked)
    × ((ingest sender (envelope (text "s") 7 five false)).0.unacked ≡ sender.unacked)
    × ((pull_sendable sender).0.unacked + queue_bytes (pull_sendable sender).0.outbound
        ≡ sender.unacked + queue_bytes sender.outbound)
    × ((on_ack sender 0).unacked + or_default (get_seq 0 sender.unacked_by_seq) 0 ≡ sender.unacked)
methods-IsSound_example =
    methods-IsSound (text "t") none (some 10) none sender sender_queued five 0
      (envelope (text "s") 7 five false) sender-IsSound enqueue-five

pull_sendable_example :
    ((pull_sendable sender).1 ++ frames (pull_sendable sender).0.outbound ≡ frames sender.outbound)
    × (((pull_sendable sender).0.outbound ≡ []) ⊎ (0 < (pull_sendable sender).0.unacked))
pull_sendable_example = pull_sendable_lem sender

enqueue-deliver_example :
    (fs : List Outbound) × (0 < length fs)
    × (enqueue sender five ≡ some (queued sender fs))
    × (receive (reset_inbound sender) (frames fs)
        ≡ (reset_inbound sender, arrives (frames fs) five))
enqueue-deliver_example =
    enqueue-deliver sender sender five (omega arith) (omega arith)
      (omega arith, (omega arith, (omega arith, (omega arith, (omega arith, tt)))))
