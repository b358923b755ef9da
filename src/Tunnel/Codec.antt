-- ===== src/Tunnel/Codec.antt =====
-- `DocumentStreamCodec` of packages/tunnel-protocol/src/index.ts, with a method for each function.
pub mod Window
pub mod Sending
pub mod RoundTrip
mod Tests
use mathlib.Core.List.{flatten}
use kb_1_daemon.Prelude.{
  ℕ, zero, suc, ◌+◌, ◌-◌, ◌*◌, ◌/◌, Bool, true, false, ◌&&◌, List, [], ◌∷◌, ◌++◌, Option, none,
  some, Text, length, take, drop, ltb, ◌==◌, if◌then◌else◌,
}
use kb_1_daemon.Tunnel.Base64.{Bytes, bytes_to_base64, base64_to_bytes}

-- `TunnelWebSocketDataEnvelope`
pub record DataEnvelope : Type 0 where
  pub stream_id : Text
  pub seq : ℕ
  pub bytes_b64 : Text
  pub fin : Bool

pub record Outbound : Type 0 where
  pub frame : DataEnvelope
  pub bytes : ℕ

-- Settings first, then what the sender keeps, then what the receiver keeps.
pub record DocumentStreamCodec : Type 0 where
  pub stream_id : Text
  pub chunk_bytes : ℕ
  pub window_bytes : ℕ
  pub message_byte_limit : ℕ
  pub tx_seq : ℕ
  pub unacked : ℕ
  pub unacked_by_seq : List (ℕ × ℕ)
  pub outbound : List Outbound
  pub inbound : List Bytes
  pub inbound_bytes : ℕ

abbrev pub frame_byte_limit : ℕ
frame_byte_limit = 256 * 1024

abbrev pub default_chunk_bytes : ℕ
default_chunk_bytes = (frame_byte_limit - 1024) / 4 * 3

abbrev pub default_window_bytes : ℕ
default_window_bytes = 4 * 1024 * 1024

abbrev pub default_message_byte_limit : ℕ
default_message_byte_limit = 8 * 1024 * 1024

abbrev pub or_default : Option ℕ → ℕ → ℕ
or_default none n = n
or_default (some m) n = m

unfoldable pub create_codec : Text → Option ℕ → Option ℕ → Option ℕ → DocumentStreamCodec
create_codec stream_id chunk window limit = record {
  stream_id = stream_id;
  chunk_bytes = or_default chunk default_chunk_bytes;
  window_bytes = or_default window default_window_bytes;
  message_byte_limit = or_default limit default_message_byte_limit;
  tx_seq = 0;
  unacked = 0;
  unacked_by_seq = [];
  outbound = [];
  inbound = [];
  inbound_bytes = 0;
}

abbrev pub is_empty : Bytes → Bool
is_empty [] = true
is_empty (b ∷ bs) = false

abbrev pub envelope : Text → ℕ → Bytes → Bool → DataEnvelope
envelope id seq chunk fin = record {
  stream_id = id;
  seq = seq;
  bytes_b64 = bytes_to_base64 chunk;
  fin = fin;
}

abbrev pub queue_chunk : DocumentStreamCodec → Bytes → Bool → DocumentStreamCodec
queue_chunk c chunk fin = record c {
  tx_seq = c.tx_seq + 1;
  outbound =
      c.outbound
      ++ record { frame = envelope c.stream_id c.tx_seq chunk fin; bytes = length chunk } ∷ [];
}

-- The loop of `enqueue` over the bytes that are left. It ends if chunks are not empty; `none` says
-- that the rounds ran out.
pub enqueue_chunks : ℕ → Bytes → DocumentStreamCodec → Option DocumentStreamCodec
enqueue_chunks rounds [] c = some c
enqueue_chunks zero (b ∷ bs) c = none
enqueue_chunks (suc rounds) (b ∷ bs) c =
    let rest = drop c.chunk_bytes (b ∷ bs) in
    enqueue_chunks rounds rest (queue_chunk c (take c.chunk_bytes (b ∷ bs)) (is_empty rest))

-- As many rounds as bytes are enough: `RoundTrip.enqueue-deliver`.
unfoldable pub enqueue : DocumentStreamCodec → Bytes → Option DocumentStreamCodec
unfolding enqueue_chunks
enqueue c [] = some (queue_chunk c [] true)
enqueue c (b ∷ bs) = enqueue_chunks (length (b ∷ bs)) (b ∷ bs) c

-- `Map.set`
pub set_seq : ℕ → ℕ → List (ℕ × ℕ) → List (ℕ × ℕ)
set_seq seq n [] = (seq, n) ∷ []
set_seq seq n ((s, m) ∷ rest) = if s == seq then (s, n) ∷ rest else (s, m) ∷ set_seq seq n rest

-- What one frame adds to the window.
unfoldable pub count_sent : DocumentStreamCodec → Outbound → DocumentStreamCodec
unfolding set_seq
count_sent c next = record c {
  unacked = c.unacked + next.bytes;
  unacked_by_seq =
      if ltb 0 next.bytes
      then set_seq next.frame.seq next.bytes c.unacked_by_seq
      else c.unacked_by_seq;
}

unfoldable pub is_blocked : DocumentStreamCodec → Outbound → Bool
is_blocked c next = ltb 0 c.unacked && ltb c.window_bytes (c.unacked + next.bytes)

-- The loop of `pullSendable` over the queue.
unfoldable pub pull_from :
    DocumentStreamCodec → List Outbound → DocumentStreamCodec × List DataEnvelope
unfolding count_sent is_blocked
pull_from c [] = (record c { outbound = [] }, [])
pull_from c (next ∷ rest) =
    let sent = pull_from (count_sent c next) rest in
    if is_blocked c next
    then (record c { outbound = next ∷ rest }, [])
    else (sent.0, next.frame ∷ sent.1)

unfoldable pub pull_sendable : DocumentStreamCodec → DocumentStreamCodec × List DataEnvelope
unfolding pull_from
pull_sendable c = pull_from c c.outbound

unfoldable pub has_pending_outbound : DocumentStreamCodec → Bool
has_pending_outbound c = ltb 0 (length c.outbound)

-- `throws` stands for the exceptions of `atob`, of the size check and of `Uint8Array.set`.
pub data Ingested : Type 0 where
  buffered : Ingested
  message : Bytes → Ingested
  throws : Ingested

abbrev pub total_bytes : List Bytes → ℕ
total_bytes [] = 0
total_bytes (chunk ∷ chunks) = length chunk + total_bytes chunks

abbrev pub zeros : ℕ → Bytes
zeros zero = []
zeros (suc n) = 0 ∷ zeros n

-- `concatBytes`: the chunks, in an array of the given size; `none` if they do not fit.
unfoldable pub concat_bytes : List Bytes → ℕ → Option Bytes
concat_bytes chunks total =
    if ltb total (total_bytes chunks)
    then none
    else some (flatten chunks ++ zeros (total - total_bytes chunks))

abbrev pub reset_inbound : DocumentStreamCodec → DocumentStreamCodec
reset_inbound c = record c { inbound = []; inbound_bytes = 0 }

pub complete : DocumentStreamCodec → Option Bytes → DocumentStreamCodec × Ingested
complete c none = (c, throws)
complete c (some bytes) = (reset_inbound c, message bytes)

pub ingest_chunk : DocumentStreamCodec → Bytes → Bool → DocumentStreamCodec × Ingested
unfolding complete
ingest_chunk c chunk fin =
    if ltb c.message_byte_limit (c.inbound_bytes + length chunk)
    then (reset_inbound c, throws)
    else let c' = record c {
      inbound = c.inbound ++ chunk ∷ [];
      inbound_bytes = c.inbound_bytes + length chunk;
    } in
      if fin then complete c' (concat_bytes c'.inbound c'.inbound_bytes) else (c', buffered)

unfoldable pub ingest : DocumentStreamCodec → DataEnvelope → DocumentStreamCodec × Ingested
unfolding ingest_chunk
ingest c frame = elim (base64_to_bytes frame.bytes_b64) [
  | none ↦ (c, throws)
  | some chunk ↦ ingest_chunk c chunk frame.fin
]

-- `unackedBySeq.get(seq)` and `unackedBySeq.delete(seq)`
unfoldable pub get_seq : ℕ → List (ℕ × ℕ) → Option ℕ
get_seq seq [] = none
get_seq seq ((s, n) ∷ rest) = if s == seq then some n else get_seq seq rest

unfoldable pub delete_seq : ℕ → List (ℕ × ℕ) → List (ℕ × ℕ)
delete_seq seq [] = []
delete_seq seq ((s, n) ∷ rest) = if s == seq then rest else (s, n) ∷ delete_seq seq rest

-- `-` on ℕ stops at 0, as the `Math.max` does.
unfoldable pub on_ack : DocumentStreamCodec → ℕ → DocumentStreamCodec
on_ack c seq = elim (get_seq seq c.unacked_by_seq) [
  | none ↦ c
  | some bytes ↦ record c {
    unacked = c.unacked - bytes;
    unacked_by_seq = delete_seq seq c.unacked_by_seq;
  }
]

unfoldable pub can_send : DocumentStreamCodec → Bool
can_send c = ltb c.unacked c.window_bytes
