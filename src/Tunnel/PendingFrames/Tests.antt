-- ===== src/Tunnel/PendingFrames/Tests.antt =====
-- A small buffer.
use kb_1_daemon.Prelude.{[], ◌∷◌, arith}
use kb_1_daemon.Tunnel.PendingFrames.{PendingFrameBuffer, push, drain, clear}
use kb_1_daemon.Tunnel.PendingFrames.Invariant.{IsBounded, operations-IsBounded}

abbrev small : PendingFrameBuffer
small = record { max_frames = 2; max_bytes = 4; queue = (7 ∷ 8 ∷ []) ∷ []; queued_bytes = 2 }

operations-IsBounded_example :
    IsBounded (push small (1 ∷ [])).0 × IsBounded (drain small).0 × IsBounded (clear small)
operations-IsBounded_example = operations-IsBounded small (1 ∷ []) (omega arith)
