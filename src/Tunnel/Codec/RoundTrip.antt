-- ===== src/Tunnel/Codec/RoundTrip.antt =====
-- What one codec queues for a message, another one puts together again.
use mathlib.Core.List.{flatten}
use kb_1_daemon.Prelude.{
  ℕ, zero, suc, ◌+◌, ◌-◌, ◌≤◌, ◌<◌, ◌≡◌, refl, sym, ap, ap₂, ◌∙◌, Bool, true, false, List, [], ◌∷◌,
  ◌++◌, append-nil, append_assoc, some, arith, Text, length, take, drop, length-take, length-drop,
  take-append-drop, All, le→ltb-false,
}
use kb_1_daemon.Tunnel.Base64.{Bytes}
use kb_1_daemon.Tunnel.Base64.RoundTrip.{IsByte, base64_to_bytes-bytes_to_base64}
use kb_1_daemon.Tunnel.Codec.{
  DocumentStreamCodec, DataEnvelope, Outbound, envelope, queue_chunk, is_empty, enqueue_chunks,
  enqueue, Ingested, buffered, message, total_bytes, concat_bytes, reset_inbound, complete,
  ingest_chunk, ingest,
}
use kb_1_daemon.Tunnel.Codec.Sending.{frames}

-- Frames given to a codec one after the other, with what it says to each.
pub receive : DocumentStreamCodec → List DataEnvelope → DocumentStreamCodec × List Ingested
receive c [] = (c, [])
receive c (f ∷ fs) =
    let (c', said) = ingest c f in let (d, rest) = receive c' fs in (d, said ∷ rest)

-- A message comes out at its last frame, and nothing before.
abbrev pub arrives : List DataEnvelope → Bytes → List Ingested
arrives [] bytes = []
arrives (f ∷ []) bytes = message bytes ∷ []
arrives (f ∷ g ∷ fs) bytes = buffered ∷ arrives (g ∷ fs) bytes

-- The frames of a message that is cut into chunks of `size` bytes.
pub chunk_frames : ℕ → Bytes → ℕ → Text → ℕ → List Outbound
chunk_frames rounds [] size id seq = []
chunk_frames zero (b ∷ bs) size id seq = []
chunk_frames (suc rounds) (b ∷ bs) size id seq =
    let rest = drop size (b ∷ bs) in
    record {
      frame = envelope id seq (take size (b ∷ bs)) (is_empty rest);
      bytes = length (take size (b ∷ bs));
    }
    ∷ chunk_frames rounds rest size id (seq + 1)

abbrev pub queued : DocumentStreamCodec → List Outbound → DocumentStreamCodec
queued c fs = record c { tx_seq = c.tx_seq + length fs; outbound = c.outbound ++ fs }

rest_fits :
    (rounds size b : ℕ) (bs : Bytes)
    → 0 < size
    → length (b ∷ bs) ≤ suc rounds
    → length (drop size (b ∷ bs)) ≤ rounds
rest_fits rounds size b bs p h = omega (arith, length-drop size (b ∷ bs))

enqueue_chunks_lem :
    (rounds : ℕ) (bytes : Bytes) (c : DocumentStreamCodec)
    → 0 < c.chunk_bytes
    → length bytes ≤ rounds
    → enqueue_chunks rounds bytes c
      ≡ some (queued c (chunk_frames rounds bytes c.chunk_bytes c.stream_id c.tx_seq))
unfolding enqueue_chunks chunk_frames
enqueue_chunks_lem rounds [] c p h =
    ap₂ (λ t o. some (record c { tx_seq = t; outbound = o })) (omega arith)
      (sym (append-nil c.outbound))
enqueue_chunks_lem zero (b ∷ bs) c p h = absurd (omega arith)
enqueue_chunks_lem (suc rounds) (b ∷ bs) c p h =
    enqueue_chunks_lem rounds (drop c.chunk_bytes (b ∷ bs))
      (queue_chunk c (take c.chunk_bytes (b ∷ bs)) (is_empty (drop c.chunk_bytes (b ∷ bs)))) p
      (rest_fits rounds c.chunk_bytes b bs p h)
    ∙ ap₂ (λ t o. some (record c { tx_seq = t; outbound = o })) (omega arith)
        (append_assoc c.outbound _ _)

All-take : (n : ℕ) (bs : Bytes) → All IsByte bs → All IsByte (take n bs)
All-take zero bs h = tt
All-take (suc n) [] h = tt
All-take (suc n) (b ∷ bs) (p, h) = (p, All-take n bs h)

All-drop : (n : ℕ) (bs : Bytes) → All IsByte bs → All IsByte (drop n bs)
All-drop zero bs h = h
All-drop (suc n) [] h = tt
All-drop (suc n) (b ∷ bs) (p, h) = All-drop n bs h

ingest-envelope :
    (c : DocumentStreamCodec) (id : Text) (seq : ℕ) (chunk : Bytes) (fin : Bool)
    → All IsByte chunk
    → ingest c (envelope id seq chunk fin) ≡ ingest_chunk c chunk fin
unfolding ingest
ingest-envelope c id seq chunk fin h = rw (base64_to_bytes-bytes_to_base64 chunk h, ingest) refl

total_bytes-append :
    (xs : List Bytes) (ys : Bytes) → total_bytes (xs ++ ys ∷ []) ≡ total_bytes xs + length ys
total_bytes-append [] ys = omega arith
total_bytes-append (x ∷ xs) ys = omega (arith, total_bytes-append xs ys)

flatten-append : (xs : List Bytes) (ys : Bytes) → flatten (xs ++ ys ∷ []) ≡ flatten xs ++ ys
unfolding flatten
flatten-append [] ys = append-nil ys
flatten-append (x ∷ xs) ys =
    ap (λ t. x ++ t) (flatten-append xs ys) ∙ sym (append_assoc x (flatten xs) ys)

concat_bytes_lem :
    (chunks : List Bytes) (total : ℕ)
    → total ≡ total_bytes chunks
    → concat_bytes chunks total ≡ some (flatten chunks)
unfolding concat_bytes
concat_bytes_lem chunks total e =
    rw (e, le→ltb-false (total_bytes chunks) (total_bytes chunks) (omega arith))
      (let z : total_bytes chunks - total_bytes chunks ≡ 0 = omega arith in
        rw z (ap some (append-nil (flatten chunks))))

-- What a receiver holds of a message that is not complete.
abbrev holds : DocumentStreamCodec → List Bytes → DocumentStreamCodec
holds c chunks = record c { inbound = chunks; inbound_bytes = total_bytes chunks }

ingest_chunk_more :
    (c : DocumentStreamCodec) (chunks : List Bytes) (chunk : Bytes)
    → total_bytes chunks + length chunk ≤ c.message_byte_limit
    → ingest_chunk (holds c chunks) chunk false ≡ (holds c (chunks ++ chunk ∷ []), buffered)
unfolding ingest_chunk
ingest_chunk_more c chunks chunk h =
    rw (le→ltb-false c.message_byte_limit (total_bytes chunks + length chunk) h) (
      ap (λ t. (record c { inbound = chunks ++ chunk ∷ []; inbound_bytes = t }, buffered))
        (sym (total_bytes-append chunks chunk)))

ingest_chunk_last :
    (c : DocumentStreamCodec) (chunks : List Bytes) (chunk : Bytes)
    → total_bytes chunks + length chunk ≤ c.message_byte_limit
    → ingest_chunk (holds c chunks) chunk true
      ≡ (reset_inbound c, message (flatten chunks ++ chunk))
unfolding ingest_chunk complete
ingest_chunk_last c chunks chunk h =
    rw (le→ltb-false c.message_byte_limit (total_bytes chunks + length chunk) h) (
      rw
        (
          concat_bytes_lem (chunks ++ chunk ∷ []) (total_bytes chunks + length chunk)
              (sym (total_bytes-append chunks chunk)),
          flatten-append chunks chunk,
        )
        refl)

receive-chunk_frames :
    (rounds : ℕ) (chunk rest : Bytes) (r : DocumentStreamCodec) (held : List Bytes) (size : ℕ)
    (id : Text) (seq : ℕ)
    → 0 < size
    → length rest ≤ rounds
    → total_bytes held + length chunk + length rest ≤ r.message_byte_limit
    → All IsByte chunk
    → All IsByte rest
    → let fs =
        envelope id seq chunk (is_empty rest)
        ∷ frames (chunk_frames rounds rest size id (seq + 1)) in
      receive (holds r held) fs ≡ (reset_inbound r, arrives fs (flatten held ++ (chunk ++ rest)))
unfolding chunk_frames receive flatten
receive-chunk_frames rounds chunk [] r held size id seq p h q wc wr =
    ap (λ t. (t.0, t.1 ∷ []))
      (ingest-envelope (holds r held) id seq chunk true wc
        ∙ ingest_chunk_last r held chunk (omega arith))
    ∙ ap (λ t. (reset_inbound r, message (flatten held ++ t) ∷ [])) (sym (append-nil chunk))
receive-chunk_frames zero chunk (d ∷ ds) r held size id seq p h q wc wr = absurd (omega arith)
receive-chunk_frames (suc n) chunk (d ∷ ds) r held size id seq p h q wc wr =
    let first = take size (d ∷ ds) in
    let rest = drop size (d ∷ ds) in
    let fs = frames (chunk_frames (suc n) (d ∷ ds) size id (seq + 1)) in
    let again =
      receive-chunk_frames n first rest r (held ++ chunk ∷ []) size id (seq + 1) p
        (rest_fits n size d ds p h)
        (omega (
          arith,
          total_bytes-append held chunk,
          length-take size (d ∷ ds),
          length-drop size (d ∷ ds),
        ))
        (All-take size (d ∷ ds) wr) (All-drop size (d ∷ ds) wr) in
    ap (λ t. ((receive t.0 fs).0, t.1 ∷ (receive t.0 fs).1))
      (ingest-envelope (holds r held) id seq chunk false wc
        ∙ ingest_chunk_more r held chunk (omega arith))
    ∙ ap (λ t. (t.0, buffered ∷ t.1)) again
    ∙ ap (λ t. (reset_inbound r, buffered ∷ arrives fs t))
        (ap₂ (λ s t. s ++ t) (flatten-append held chunk) (take-append-drop size (d ∷ ds))
          ∙ append_assoc (flatten held) chunk (d ∷ ds))

queued_frames : DocumentStreamCodec → Bytes → List Outbound
queued_frames c [] = record { frame = envelope c.stream_id c.tx_seq [] true; bytes = 0 } ∷ []
queued_frames c (b ∷ bs) =
    chunk_frames (length (b ∷ bs)) (b ∷ bs) c.chunk_bytes c.stream_id c.tx_seq

receive-queued_frames :
    (c r : DocumentStreamCodec) (bytes : Bytes)
    → 0 < c.chunk_bytes
    → length bytes ≤ r.message_byte_limit
    → All IsByte bytes
    → receive (reset_inbound r) (frames (queued_frames c bytes))
      ≡ (reset_inbound r, arrives (frames (queued_frames c bytes)) bytes)
unfolding queued_frames chunk_frames flatten
receive-queued_frames c r [] p h w =
    receive-chunk_frames 0 [] [] r [] c.chunk_bytes c.stream_id c.tx_seq p (omega arith)
      (omega arith) tt tt
receive-queued_frames c r (b ∷ bs) p h w =
    let size = c.chunk_bytes in
    receive-chunk_frames (length bs) (take size (b ∷ bs)) (drop size (b ∷ bs)) r [] size c.stream_id
      c.tx_seq p (rest_fits (length bs) size b bs p (omega arith))
      (omega (arith, length-take size (b ∷ bs), length-drop size (b ∷ bs)))
      (All-take size (b ∷ bs) w) (All-drop size (b ∷ bs) w)
    ∙ ap (λ t. (reset_inbound r, arrives (frames (queued_frames c (b ∷ bs))) t))
        (take-append-drop size (b ∷ bs))

-- If chunks are not empty: `enqueue` of a message of bytes ends, and appends one frame or more to the queue. A codec that holds no part of a
-- message and whose limit is not less than the message's length, given those frames in order,
-- buffers all but the last, returns exactly the message at the last, and is then as it was.
pub enqueue-deliver :
    (c r : DocumentStreamCodec) (bytes : Bytes)
    → 0 < c.chunk_bytes
    → length bytes ≤ r.message_byte_limit
    → All IsByte bytes
    → (fs : List Outbound) × (0 < length fs)
      × (enqueue c bytes ≡ some (queued c fs))
      × (receive (reset_inbound r) (frames fs) ≡ (reset_inbound r, arrives (frames fs) bytes))
unfolding enqueue queued_frames chunk_frames
enqueue-deliver c r [] p h w =
    (queued_frames c [], omega arith, refl, receive-queued_frames c r [] p h w)
enqueue-deliver c r (b ∷ bs) p h w = (
  queued_frames c (b ∷ bs),
  omega arith,
  enqueue_chunks_lem (length (b ∷ bs)) (b ∷ bs) c p (omega arith),
  receive-queued_frames c r (b ∷ bs) p h w,
)
