-- ===== src/Tunnel/Codec/Sending.antt =====
-- The laws of a codec's methods, as its users see them.
use mathlib.Core.List.{map}
use kb_1_daemon.Prelude.{
  ℕ, ◌+◌, ◌<◌, ◌≡◌, refl, ap, ◌⊎◌, inl, inr, List, [], ◌∷◌, ◌++◌, Option, some, arith, Text,
  Bool-cases,
}
use kb_1_daemon.Tunnel.Base64.{Bytes}
use kb_1_daemon.Tunnel.Codec.{
  DocumentStreamCodec, DataEnvelope, Outbound, enqueue, count_sent, is_blocked, pull_from,
  pull_sendable, on_ack, ingest, create_codec, or_default, get_seq,
}
use kb_1_daemon.Tunnel.Codec.Window.{
  IsSound, pull_from-IsSound, enqueue-IsSound, enqueue-unacked, on_ack-IsSound, on_ack-unacked,
}

-- The receiving half of a codec leaves the sending half alone.
abbrev pub SameSender : DocumentStreamCodec → DocumentStreamCodec → Type 0
SameSender c d =
    (d.outbound ≡ c.outbound)
    × (d.tx_seq ≡ c.tx_seq)
    × (d.unacked_by_seq ≡ c.unacked_by_seq)
    × (d.chunk_bytes ≡ c.chunk_bytes)
    × (d.unacked ≡ c.unacked)
    × (d.window_bytes ≡ c.window_bytes)

pub ingest-SameSender :
    (c : DocumentStreamCodec) (frame : DataEnvelope) → SameSender c (ingest c frame).0
unfolding ingest
ingest-SameSender c frame =
    (ground arith, ground arith, ground arith, ground arith, ground arith, ground arith)

SameSender-IsSound : (c d : DocumentStreamCodec) → SameSender c d → IsSound c → IsSound d
SameSender-IsSound c d (q, t, m, k, u, v) (next, w) = (
  next,
  record {
    numbered = rw (q, t) w.numbered;
    older = rw m w.older;
    chunked = rw (q, k) w.chunked;
    counted = rw (u, m) w.counted;
    bounded = rw (u, v, k) w.bounded;
  },
)

pub create_codec-IsSound :
    (id : Text) (chunk window limit : Option ℕ) → IsSound (create_codec id chunk window limit)
unfolding create_codec
create_codec-IsSound id chunk window limit =
    (0, record { numbered = refl; older = tt; chunked = tt; counted = refl; bounded = omega arith })

pub pull_sendable-IsSound : (c : DocumentStreamCodec) → IsSound c → IsSound (pull_sendable c).0
unfolding pull_sendable
pull_sendable-IsSound c (k, w) = pull_from-IsSound c c.outbound k w

-- The bytes of the frames of a queue.
abbrev pub queue_bytes : List Outbound → ℕ
queue_bytes [] = 0
queue_bytes (q ∷ qs) = q.bytes + queue_bytes qs

pull_from-queue_bytes :
    (c : DocumentStreamCodec) (qs : List Outbound)
    → (pull_from c qs).0.unacked + queue_bytes (pull_from c qs).0.outbound
      ≡ c.unacked + queue_bytes qs
unfolding pull_from count_sent
pull_from-queue_bytes c [] = refl
pull_from-queue_bytes c (q ∷ qs) = elim (Bool-cases (is_blocked c q)) [
  | inl b ↦ rw b refl
  | inr b ↦ rw b (omega (arith, pull_from-queue_bytes (count_sent c q) qs))
]

pub ingest-IsSound :
    (c : DocumentStreamCodec) (frame : DataEnvelope) → IsSound c → IsSound (ingest c frame).0
ingest-IsSound c frame h = SameSender-IsSound c _ (ingest-SameSender c frame) h

-- A new codec is sound, and every method keeps it so, `enqueue` where it ends: `unacked` is exactly
-- the sum of the map of the frames sent and not acknowledged, it is at most the larger of the window
-- and one chunk, and the queued frames are numbered in sequence after every frame sent. `enqueue` and
-- `ingest` do not change `unacked`, `pullSendable` adds exactly the bytes of the frames that leave the
-- queue, and `onAck` takes away exactly the bytes that the map has under the number, 0 if none.
pub methods-IsSound :
    (id : Text) (chunk window limit : Option ℕ) (c d : DocumentStreamCodec) (bytes : Bytes)
    (seq : ℕ) (frame : DataEnvelope)
    → IsSound c
    → enqueue c bytes ≡ some d
    → IsSound (create_codec id chunk window limit)
      × IsSound d
      × IsSound (pull_sendable c).0
      × IsSound (on_ack c seq)
      × IsSound (ingest c frame).0
      × (d.unacked ≡ c.unacked)
      × ((ingest c frame).0.unacked ≡ c.unacked)
      × ((pull_sendable c).0.unacked + queue_bytes (pull_sendable c).0.outbound
          ≡ c.unacked + queue_bytes c.outbound)
      × ((on_ack c seq).unacked + or_default (get_seq seq c.unacked_by_seq) 0 ≡ c.unacked)
unfolding pull_sendable
methods-IsSound id chunk window limit c d bytes seq frame h e = (
  create_codec-IsSound id chunk window limit,
  enqueue-IsSound c bytes e h,
  pull_sendable-IsSound c h,
  on_ack-IsSound c seq h,
  ingest-IsSound c frame h,
  enqueue-unacked c bytes e,
  let (_, _, _, _, u, _) = ingest-SameSender c frame in u,
  pull_from-queue_bytes c c.outbound,
  on_ack-unacked c seq h,
)

abbrev pub frames : List Outbound → List DataEnvelope
frames = map (λ q. q.frame)

pull_from-frames :
    (c : DocumentStreamCodec) (qs : List Outbound)
    → (pull_from c qs).1 ++ frames (pull_from c qs).0.outbound ≡ frames qs
unfolding pull_from
pull_from-frames c [] = refl
pull_from-frames c (q ∷ qs) = elim (Bool-cases (is_blocked c q)) [
  | inl b ↦ rw b
  | inr b ↦ rw b (ap (λ l. q.frame ∷ l) (pull_from-frames (count_sent c q) qs))
]

pull_from_progress :
    (c : DocumentStreamCodec) (qs : List Outbound)
    → ((pull_from c qs).0.outbound ≡ []) ⊎ (0 < (pull_from c qs).0.unacked)
unfolding pull_from
pull_from_progress c [] = inl refl
pull_from_progress c (q ∷ qs) = elim (Bool-cases (is_blocked c q)) [
  | inl b ↦ rw b (inr (unfold is_blocked in ground arith))
  | inr b ↦ rw b (pull_from_progress (count_sent c q) qs)
]

-- `pullSendable` loses no frame and keeps their order: what it returns, followed by what stays
-- queued, is what was queued. And it never stops a stream for good: after it nothing is queued, or
-- some bytes are unacknowledged, whose acknowledgement calls it again.
pub pull_sendable_lem :
    (c : DocumentStreamCodec)
    → ((pull_sendable c).1 ++ frames (pull_sendable c).0.outbound ≡ frames c.outbound)
      × (((pull_sendable c).0.outbound ≡ []) ⊎ (0 < (pull_sendable c).0.unacked))
unfolding pull_sendable
pull_sendable_lem c = (pull_from-frames c c.outbound, pull_from_progress c c.outbound)
