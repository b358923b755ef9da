-- ===== src/Tunnel/StreamMux/Opening.antt =====
-- The messages that wait for a socket, when it opens.
use kb_1_daemon.Prelude.{
  ℕ, ◌≡◌, refl, sym, ap, ◌∙◌, ◌⊎◌, inl, inr, true, false, Bool-cases, List, [], ◌∷◌, ◌++◌,
  append-nil, append_assoc, none, some, text, get_elem?, ==_self, if◌then◌else◌, arith,
}
use kb_1_daemon.Tunnel.Base64.{Bytes}
use kb_1_daemon.Tunnel.StreamMux.{
  Deps, delivered, MuxStream, StreamMux, put, log_effect, get_ref, write_loopback, write_pending,
  opened_stream, drained_stream, loopback_opens, stream_retry_safe,
}
use kb_1_daemon.Tunnel.StreamMux.Heap.{get-set_at_self, get_ref-delete_ref}
use kb_1_daemon.Tunnel.StreamMux.Invariant.{tear_down-same}
use kb_1_daemon.Tunnel.StreamMux.Events.{write_pending-same}
use kb_1_daemon.Tunnel.StreamMux.Delivery.{collect, collect-append, delivery_to, deliveries}

module _ (deps : Deps) where
  write_pending-on :
      (r : ℕ) (b : Bytes) (bs : List Bytes) (m : StreamMux)
      → deps.accepts m.log r b ≡ true
      → write_pending deps r (b ∷ bs) m ≡ write_pending deps r bs (log_effect (delivered r b) m)
  unfolding write_pending write_loopback
  write_pending-on r b bs m g = rw g

  write_pending-off :
      (r : ℕ) (b : Bytes) (bs : List Bytes) (m : StreamMux)
      → deps.accepts m.log r b ≡ false
      → (write_pending deps r (b ∷ bs) m).1 ≡ false
  unfolding write_pending write_loopback
  write_pending-off r b bs m g = rw g

  log_effect-deliveries :
      (r : ℕ) (b : Bytes) (m : StreamMux)
      → deliveries r (log_effect (delivered r b) m) ≡ deliveries r m ++ b ∷ []
  unfolding deliveries
  log_effect-deliveries r b m =
      collect-append (delivery_to r) m.log (delivered r b)
      ∙ ap (λ c. collect (delivery_to r) m.log ++ (if c then b ∷ [] else [])) (==_self r)

  write_pending-deliveries :
      (r : ℕ) (bs : List Bytes) (m : StreamMux)
      → (write_pending deps r bs m).1 ≡ true
      → deliveries r (write_pending deps r bs m).0 ≡ deliveries r m ++ bs
  unfolding write_pending
  write_pending-deliveries r [] m e = sym (append-nil _)
  write_pending-deliveries r (b ∷ bs) m e = elim (Bool-cases (deps.accepts m.log r b)) [
    | inl g ↦
        let on = write_pending-on r b bs m g in
        ap (λ w. deliveries r w.0) on
        ∙ write_pending-deliveries r bs (log_effect (delivered r b) m) (sym (ap (λ w. w.1) on) ∙ e)
        ∙ ap (λ l. l ++ bs) (log_effect-deliveries r b m)
        ∙ append_assoc (deliveries r m) (b ∷ []) bs
    | inr g ↦ let off = write_pending-off r b bs m g in absurd (ground (arith, off, e))
  ]

  put-deliveries :
      (r q : ℕ) (t : MuxStream) (m : StreamMux) → deliveries r (put q t m) ≡ deliveries r m
  unfolding deliveries
  put-deliveries r q t m = refl

  -- When a socket opens, either the messages that wait for it are all given to it, in their order and after
  -- those that it was given before, and none waits any more; or its stream is torn down.
  pub loopback_opens-outcome :
      (r : ℕ) (s : MuxStream) (m : StreamMux)
      → get_elem? m.heap r ≡ some s
      → let n = loopback_opens deps r s m in
        ((deliveries r n ≡ deliveries r m ++ s.pending_inbound)
          × (get_elem? n.heap r
              ≡ some (record s {
                loopback_open = true;
                pending_inbound = [];
                pending_inbound_bytes = 0;
              })))
        ⊎ (get_ref s.stream_id n.streams ≡ none)
  unfolding loopback_opens
  loopback_opens-outcome r s m f =
      let opened : StreamMux = put r (opened_stream s) m in
      let w = write_pending deps r s.pending_inbound opened in
      let same = write_pending-same deps r s.pending_inbound opened in
      elim (Bool-cases w.1) [
        | inl e ↦ rw e (
            inl (
              put-deliveries r r (drained_stream s) w.0
                  ∙ write_pending-deliveries r s.pending_inbound opened e
                  ∙ ap (λ l. l ++ s.pending_inbound) (put-deliveries r r (opened_stream s) m),
              get-set_at_self r (opened_stream s) (drained_stream s) w.0.heap
                  (ap (λ h. get_elem? h r) same.0 ∙ get-set_at_self r s (opened_stream s) m.heap f),
            ))
        | inr e ↦ rw e (
            inr (
              ap (get_ref s.stream_id)
                (tear_down-same deps s.stream_id stream_retry_safe (text "loopback delivery failed")
                  w.0).1
              ∙ get_ref-delete_ref s.stream_id w.0.streams))
      ]
