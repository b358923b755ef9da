-- ===== src/Tunnel/PendingFrames.antt =====
-- `PendingFrameBuffer` of packages/tunnel-protocol/src/index.ts. A frame is the list of its bytes.
pub mod Invariant
mod Tests
use kb_1_daemon.Prelude.{
  ℕ, ◌+◌, ◌*◌, List, [], ◌∷◌, ◌++◌, Option, none, some, length, ltb, if◌then◌else◌,
}

abbrev pub Bytes : Type 0
Bytes = List ℕ

pub data OverflowReason : Type 0 where
  frames bytes : OverflowReason

pub data PushResult : Type 0 where
  accepted : (queued_frames queued_bytes : ℕ) → PushResult
  refused : (reason : OverflowReason) (queued_frames queued_bytes : ℕ) → PushResult

pub record PendingFrameBuffer : Type 0 where
  pub max_frames : ℕ
  pub max_bytes : ℕ
  pub queue : List Bytes
  pub queued_bytes : ℕ

abbrev pub default_max_frames : ℕ
default_max_frames = 64

abbrev pub default_max_bytes : ℕ
default_max_bytes = 1024 * 1024

-- `options.maxFrames ?? TUNNEL_PENDING_STREAM_FRAME_LIMIT`
or_default : Option ℕ → ℕ → ℕ
or_default none n = n
or_default (some m) n = m

unfoldable pub create : Option ℕ → Option ℕ → PendingFrameBuffer
unfolding or_default
create frame_option byte_option = record {
  max_frames = or_default frame_option default_max_frames;
  max_bytes = or_default byte_option default_max_bytes;
  queue = [];
  queued_bytes = 0;
}

unfoldable pub push : PendingFrameBuffer → Bytes → PendingFrameBuffer × PushResult
push b frame =
    if ltb b.max_frames (length b.queue + 1)
    then (b, refused frames (length b.queue) b.queued_bytes)
    else if ltb b.max_bytes (b.queued_bytes + length frame)
    then (b, refused bytes (length b.queue) b.queued_bytes)
    else (
      record b { queue = b.queue ++ frame ∷ []; queued_bytes = b.queued_bytes + length frame },
      accepted (length (b.queue ++ frame ∷ [])) (b.queued_bytes + length frame),
    )

unfoldable pub drain : PendingFrameBuffer → PendingFrameBuffer × List Bytes
drain b = (record b { queue = []; queued_bytes = 0 }, b.queue)

unfoldable pub clear : PendingFrameBuffer → PendingFrameBuffer
clear b = record b { queue = []; queued_bytes = 0 }
