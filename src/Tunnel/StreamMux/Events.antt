-- ===== src/Tunnel/StreamMux/Events.antt =====
-- The events of the sockets keep the mux well formed, and so do the frames that open and close.
use kb_1_daemon.Prelude.{
  ℕ, ◌+◌, ◌≤◌, ◌≡◌, refl, sym, ap, ◌∙◌, inl, inr, Bool, true, false, Bool-cases, Option-cases, List,
  [], ◌∷◌, ◌++◌, Option, none, some, Text, text, length, get_elem?, All-append, arith,
}
use kb_1_daemon.Tunnel.Base64.{Bytes}
use kb_1_daemon.Tunnel.Codec.{
  DocumentStreamCodec, create_codec, total_bytes, enqueue, pull_sendable, has_pending_outbound,
}
use kb_1_daemon.Tunnel.Codec.Window.{IsSound, enqueue-IsSound}
use kb_1_daemon.Tunnel.Codec.Sending.{pull_sendable-IsSound, create_codec-IsSound}
use kb_1_daemon.Tunnel.StreamMux.{
  Deps, MuxStream, StreamMap, StreamMux, new_stream, limit_of, put, emit_all, object_of,
  with_object, get_ref, delete_ref, set_at, handle_open, close_socket, forget, write_loopback,
  write_pending, opened_stream, drained_stream, loopback_opens, adjust_pause, flush_outbound,
  loopback_message, MessageData, CloseReason, send_bytes, flush_queued, to_bytes, loopback_closes,
  handle_close, close_sockets, dispose_all, stream_retry_safe,
}
use kb_1_daemon.Tunnel.StreamMux.Heap.{set_at-All, get-All, get_last, set_at_twice}
use kb_1_daemon.Tunnel.StreamMux.Invariant.{
  IsStream, IsSettled, IsLive, IsMux, IsLive-delete_ref, IsLive-append, All-map, put-IsMux,
  logged-IsMux, close_socket-same, tear_down-same, forget-IsMux,
}

with-found :
    (q r : ℕ) (s : MuxStream) (o : Option MuxStream)
    → with_object q o ≡ some (r, s)
    → (q ≡ r) × (o ≡ some s)
with-found q r s none e = absurd cc
with-found q r s (some t) e = (cc, cc)

pub find-found :
    (heap : List MuxStream) (o : Option ℕ) (r : ℕ) (s : MuxStream)
    → object_of heap o ≡ some (r, s)
    → (o ≡ some r) × (get_elem? heap r ≡ some s)
find-found heap none r s e = absurd cc
find-found heap (some q) r s e =
    let f = with-found q r s (get_elem? heap q) e in (ap some f.0, rw (sym f.0) f.1)

pub total_bytes-append :
    (xs : List Bytes) (b : Bytes) → total_bytes (xs ++ b ∷ []) ≡ total_bytes xs + length b
total_bytes-append [] b = omega arith
total_bytes-append (x ∷ xs) b = omega (arith, total_bytes-append xs b)

pub write_loopback-same :
    (deps : Deps) (r : ℕ) (b : Bytes) (m : StreamMux)
    → ((write_loopback deps r b m).0.heap ≡ m.heap)
      × ((write_loopback deps r b m).0.streams ≡ m.streams)
unfolding write_loopback
write_loopback-same deps r b m = ground arith

pub write_pending-same :
    (deps : Deps) (r : ℕ) (bs : List Bytes) (m : StreamMux)
    → ((write_pending deps r bs m).0.heap ≡ m.heap)
      × ((write_pending deps r bs m).0.streams ≡ m.streams)
unfolding write_pending
write_pending-same deps r [] m = (refl, refl)
write_pending-same deps r (b ∷ bs) m =
    let w = write_loopback deps r b m in
    let one = write_loopback-same deps r b m in
    let later = write_pending-same deps r bs w.0 in
    elim (Bool-cases w.1) [ inl e ↦ rw e (later.0 ∙ one.0, later.1 ∙ one.1) | inr e ↦ rw e one ]

module _ (deps : Deps) where
  new_stream-IsStream : (id : Text) → IsStream deps (new_stream deps id)
  unfolding has_pending_outbound create_codec
  new_stream-IsStream id = record {
    windowed = create_codec-IsSound id deps.chunk_bytes deps.window_bytes none;
    pressed = refl;
    counted = refl;
    bounded = omega arith;
  }

  pub handle_open-IsMux :
      (id : Text) (m : StreamMux) → IsMux deps m → IsMux deps (handle_open deps id m)
  unfolding handle_open
  handle_open-IsMux id m h = elim (Option-cases (get_ref id m.streams)) [
    | inr (r, e) ↦ rw e h
    | inl e ↦ rw e (
        let new = new_stream deps id in
        let heap = m.heap ++ new ∷ [] in
        let entry : IsLive heap (id, length m.heap) = record {
          object = new;
          found = get_last new m.heap;
          named = refl;
          settled = inr refl;
        } in
        record {
          objects =
              All-append (IsStream deps) m.heap (new ∷ []) h.objects (new_stream-IsStream id, tt);
          entries =
              All-append (IsLive heap) m.streams ((id, length m.heap) ∷ [])
                (All-map (IsLive m.heap) (IsLive heap) m.streams (IsLive-append m.heap (new ∷ []))
                  h.entries)
                (entry, tt);
        })
  ]

  adjust_pause-IsMux :
      (r : ℕ) (s t : MuxStream) (pending : Bool) (m : StreamMux)
      → get_elem? m.heap r ≡ some s
      → t.stream_id ≡ s.stream_id
      → (IsSettled s → IsSettled t)
      → IsStream deps (record t { paused = pending })
      → IsMux deps m
      → IsMux deps (adjust_pause r t pending m)
  adjust_pause-IsMux r s t pending m f n keep i h =
      let with_pause : (b : Bool) → b ≡ pending → IsStream deps (record t { paused = b }) = λ b e.
        record {
          windowed = i.windowed;
          pressed = e ∙ i.pressed;
          counted = i.counted;
          bounded = i.bounded;
        } in
      elim (Bool-cases pending) [
        | inl p ↦ elim (Bool-cases t.paused) [
          | inl q ↦
              rw (p, q)
                (put-IsMux deps r s (record t { paused = true }) m f n keep
                  (with_pause true (sym p)) h)
          | inr q ↦
              rw (p, q)
                (logged-IsMux deps (put r (record t { paused = true }) m) _ refl refl (
                  put-IsMux deps r s (record t { paused = true }) m f n keep
                    (with_pause true (sym p)) h))
        ]
        | inr p ↦ elim (Bool-cases t.paused) [
          | inl q ↦
              rw (p, q)
                (logged-IsMux deps (put r (record t { paused = false }) m) _ refl refl (
                  put-IsMux deps r s (record t { paused = false }) m f n keep
                    (with_pause false (sym p)) h))
          | inr q ↦
              rw (p, q)
                (put-IsMux deps r s (record t { paused = false }) m f n keep
                  (with_pause false (sym p)) h)
        ]
      ]

  pub flush_outbound-IsMux :
      (r : ℕ) (s t : MuxStream) (m : StreamMux)
      → get_elem? m.heap r ≡ some s
      → t.stream_id ≡ s.stream_id
      → (IsSettled s → IsSettled t)
      → IsSound t.codec
      → t.pending_inbound_bytes ≡ total_bytes t.pending_inbound
      → t.pending_inbound_bytes ≤ limit_of deps
      → IsMux deps m
      → IsMux deps (flush_outbound r t m)
  unfolding flush_outbound
  flush_outbound-IsMux r s t m f n keep w c b h =
      let pulled = pull_sendable t.codec in
      adjust_pause-IsMux r s (record t { codec = pulled.0 }) (has_pending_outbound pulled.0)
        (emit_all pulled.1 m) f n keep
        (record {
          windowed = pull_sendable-IsSound t.codec w;
          pressed = refl;
          counted = c;
          bounded = b;
        })
        (logged-IsMux deps m _ refl refl h)

  flush_queued-IsMux :
      (r : ℕ) (s : MuxStream) (bytes : Bytes) (m n : StreamMux) (o : Option DocumentStreamCodec)
      → get_elem? m.heap r ≡ some s
      → enqueue s.codec bytes ≡ o
      → flush_queued r s m o ≡ some n
      → IsMux deps m
      → IsMux deps n
  flush_queued-IsMux r s bytes m n none f q e h = absurd cc
  flush_queued-IsMux r s bytes m n (some c) f q e h =
      let i = get-All (IsStream deps) r s m.heap h.objects f in
      let t : MuxStream = record s { codec = c } in
      let flushed =
        flush_outbound-IsMux r s t m f refl (λ k. k) (enqueue-IsSound s.codec bytes q i.windowed)
          i.counted i.bounded h in
      let same : flush_outbound r t m ≡ n = cc in rw (sym same) flushed

  send_bytes-IsMux :
      (r : ℕ) (s : MuxStream) (m n : StreamMux) (o : Option Bytes)
      → get_elem? m.heap r ≡ some s
      → send_bytes r s m o ≡ some n
      → IsMux deps m
      → IsMux deps n
  send_bytes-IsMux r s m n none f e h = let same : m ≡ n = cc in rw (sym same) h
  send_bytes-IsMux r s m n (some bytes) f e h =
      flush_queued-IsMux r s bytes m n (enqueue s.codec bytes) f refl e h

  pub loopback_message-IsMux :
      (from : Text → Bytes) (r : ℕ) (s : MuxStream) (d : MessageData) (m n : StreamMux)
      → get_elem? m.heap r ≡ some s
      → loopback_message from r s d m ≡ some n
      → IsMux deps m
      → IsMux deps n
  unfolding loopback_message
  loopback_message-IsMux from r s d m n f e h = send_bytes-IsMux r s m n (to_bytes from d) f e h

  pub loopback_opens-IsMux :
      (r : ℕ) (s : MuxStream) (m : StreamMux)
      → get_elem? m.heap r ≡ some s
      → IsMux deps m
      → IsMux deps (loopback_opens deps r s m)
  unfolding loopback_opens
  loopback_opens-IsMux r s m f h =
      let i = get-All (IsStream deps) r s m.heap h.objects f in
      let opened : StreamMux = put r (opened_stream s) m in
      let w = write_pending deps r s.pending_inbound opened in
      let same = write_pending-same deps r s.pending_inbound opened in
      elim (Bool-cases w.1) [
        | inl e ↦ rw e (
            logged-IsMux deps (put r (drained_stream s) m) _
              (ap (set_at r (drained_stream s)) same.0
                ∙ set_at_twice r (opened_stream s) (drained_stream s) m.heap)
              same.1
              (put-IsMux deps r s (drained_stream s) m f refl (λ k. inr refl)
                (record {
                  windowed = i.windowed;
                  pressed = i.pressed;
                  counted = refl;
                  bounded = omega arith;
                })
                h))
        | inr e ↦ rw e (
            let torn =
              tear_down-same deps s.stream_id stream_retry_safe (text "loopback delivery failed")
                w.0 in
            let lost : StreamMux = record opened { streams = delete_ref s.stream_id m.streams } in
            logged-IsMux deps lost _ (torn.0 ∙ same.0) (torn.1 ∙ ap (delete_ref s.stream_id) same.1)
              (record {
                objects =
                    set_at-All (IsStream deps) r (opened_stream s) m.heap
                      (record {
                        windowed = i.windowed;
                        pressed = i.pressed;
                        counted = i.counted;
                        bounded = i.bounded;
                      })
                      h.objects;
                entries = IsLive-delete_ref m.heap r s (opened_stream s) m.streams f h.entries;
              }))
      ]

  pub loopback_closes-IsMux :
      (to_string : Bytes → Text) (s : MuxStream) (code : Option ℕ) (reason : CloseReason)
      (m : StreamMux)
      → IsMux deps m
      → IsMux deps (loopback_closes to_string s code reason m)
  unfolding loopback_closes
  loopback_closes-IsMux to_string s code reason m h =
      elim (Option-cases (get_ref s.stream_id m.streams)) [
        | inl e ↦ rw e h
        | inr (r, e) ↦ rw e (
            logged-IsMux deps (forget s.stream_id m) _ refl refl
              (forget-IsMux deps s.stream_id m h))
      ]

  pub handle_close-IsMux :
      (id reason : Text) (m : StreamMux) → IsMux deps m → IsMux deps (handle_close deps id reason m)
  unfolding handle_close
  handle_close-IsMux id reason m h = elim (Option-cases (get_ref id m.streams)) [
    | inl e ↦ rw e h
    | inr (r, e) ↦ rw e (
        let same = close_socket-same deps r 1000 reason (forget id m) in
        logged-IsMux deps (forget id m) _ same.0 same.1 (forget-IsMux deps id m h))
  ]

  close_sockets-same :
      (reason : Text) (l : StreamMap) (m : StreamMux)
      → (close_sockets deps reason l m).heap ≡ m.heap
  unfolding close_sockets
  close_sockets-same reason [] m = refl
  close_sockets-same reason ((id, r) ∷ l) m =
      close_sockets-same reason l (close_socket deps r 1001 reason m)
      ∙ (close_socket-same deps r 1001 reason m).0

  pub dispose_all-IsMux :
      (reason : Text) (m : StreamMux) → IsMux deps m → IsMux deps (dispose_all deps reason m)
  unfolding dispose_all
  dispose_all-IsMux reason m h =
      logged-IsMux deps (record m { streams = [] }) _ (close_sockets-same reason m.streams m) refl
        (record { objects = h.objects; entries = tt })
