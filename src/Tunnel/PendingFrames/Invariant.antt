-- ===== src/Tunnel/PendingFrames/Invariant.antt =====
-- The buffer counts its bytes, and stays within both limits.
use kb_1_daemon.Prelude.{ℕ, ◌+◌, ◌≤◌, ◌≡◌, List, [], ◌∷◌, ◌++◌, arith, length, length-append}
use kb_1_daemon.Tunnel.PendingFrames.{Bytes, PendingFrameBuffer, push, drain, clear}

abbrev pub total_bytes : List Bytes → ℕ
total_bytes [] = 0
total_bytes (f ∷ fs) = length f + total_bytes fs

total_bytes-append : (fs gs : List Bytes) → total_bytes (fs ++ gs) ≡ total_bytes fs + total_bytes gs
total_bytes-append [] gs = omega arith
total_bytes-append (f ∷ fs) gs = omega (arith, total_bytes-append fs gs)

pub record IsBounded (b : PendingFrameBuffer) : Type 0 where
  pub counted : b.queued_bytes ≡ total_bytes b.queue
  pub few_frames : length b.queue ≤ b.max_frames
  pub few_bytes : b.queued_bytes ≤ b.max_bytes

-- A push, accepted or refused, a drain and a clear keep the byte count exact and both the frames
-- and the bytes within their limits.
pub operations-IsBounded :
    (b : PendingFrameBuffer) (frame : Bytes)
    → IsBounded b
    → IsBounded (push b frame).0 × IsBounded (drain b).0 × IsBounded (clear b)
unfolding push drain clear
operations-IsBounded b frame h = (
  ground (arith, total_bytes-append b.queue (frame ∷ []), length-append b.queue (frame ∷ [])),
  omega arith,
  omega arith,
)
