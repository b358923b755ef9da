-- ===== src/Tunnel/StreamMux/Invariant.antt =====
-- What holds of the mux after every frame and every event of a socket.
use kb_1_daemon.Prelude.{
  ℕ, ◌≤◌, ◌≡◌, refl, sym, ap, ◌∙◌, ◌⊎◌, inl, inr, true, false, Bool-cases, Option-cases, List, [],
  ◌∷◌, ◌++◌, some, Text, text_eq, text_eq_self, get_elem?, All, ◌==◌, arith,
}
use kb_1_daemon.Tunnel.Codec.{total_bytes, has_pending_outbound}
use kb_1_daemon.Tunnel.Codec.Window.{IsSound}
use kb_1_daemon.Tunnel.StreamMux.{
  Deps, MuxStream, StreamMap, StreamMux, limit_of, put, get_ref, delete_ref, set_at, close_socket,
  forget, tear_down,
}
use kb_1_daemon.Tunnel.StreamMux.Heap.{
  set_at-All, get-set_at_self, get-set_at_other, get-append, delete_ref-All, delete_ref_absent,
}

-- Of every stream object, also one that the map has lost: its codec keeps to its window, it counts as
-- paused exactly while frames are queued, and the messages that wait are counted and within the limit.
pub record IsStream (deps : Deps) (s : MuxStream) : Type 0 where
  pub windowed : IsSound s.codec
  pub pressed : s.paused ≡ has_pending_outbound s.codec
  pub counted : s.pending_inbound_bytes ≡ total_bytes s.pending_inbound
  pub bounded : s.pending_inbound_bytes ≤ limit_of deps

-- Messages wait only until the socket opens.
abbrev pub IsSettled : MuxStream → Type 0
IsSettled s = (s.loopback_open ≡ false) ⊎ (s.pending_inbound ≡ [])

-- An id in the map has an object that was made for it.
pub record IsLive (heap : List MuxStream) (entry : Text × ℕ) : Type 0 where
  pub object : MuxStream
  pub found : get_elem? heap entry.1 ≡ some object
  pub named : object.stream_id ≡ entry.0
  pub settled : IsSettled object

pub record IsMux (deps : Deps) (m : StreamMux) : Type 0 where
  pub objects : All (IsStream deps) m.heap
  pub entries : All (IsLive m.heap) m.streams

-- Objects that are found are the same.
same_object :
    (heap : List MuxStream) (r : ℕ) (s : MuxStream) (e : Text × ℕ) (l : IsLive heap e)
    → get_elem? heap r ≡ some s
    → (e.1 == r) ≡ true
    → l.object ≡ s
same_object heap r s e l f b =
    let here : e.1 ≡ r = ground arith in
    let g : get_elem? heap r ≡ some l.object = rw (sym here) l.found in cc

IsLive-set_at_other :
    (heap : List MuxStream) (r : ℕ) (t : MuxStream) (e : Text × ℕ)
    → (e.1 == r) ≡ false
    → IsLive heap e
    → IsLive (set_at r t heap) e
IsLive-set_at_other heap r t e b l = record {
  object = l.object;
  found = get-set_at_other r e.1 t heap (λ q. absurd (ground (arith, q))) ∙ l.found;
  named = l.named;
  settled = l.settled;
}

-- An object may be replaced by one of the same name that is settled if it was.
IsLive-set_at :
    (heap : List MuxStream) (r : ℕ) (s t : MuxStream) (e : Text × ℕ)
    → get_elem? heap r ≡ some s
    → t.stream_id ≡ s.stream_id
    → (IsSettled s → IsSettled t)
    → IsLive heap e
    → IsLive (set_at r t heap) e
IsLive-set_at heap r s t e f n keep l = elim (Bool-cases (e.1 == r)) [
  | inl b ↦
      let here : e.1 ≡ r = ground arith in
      let same = same_object heap r s e l f b in
      record {
        object = t;
        found = rw here (get-set_at_self r s t heap f);
        named = n ∙ ap (λ o. o.stream_id) (sym same) ∙ l.named;
        settled = keep (rw (sym same) l.settled);
      }
  | inr b ↦ IsLive-set_at_other heap r t e b l
]

-- It may be any one, if the map forgets its name.
pub IsLive-delete_ref :
    (heap : List MuxStream) (r : ℕ) (s t : MuxStream) (m : StreamMap)
    → get_elem? heap r ≡ some s
    → All (IsLive heap) m
    → All (IsLive (set_at r t heap)) (delete_ref s.stream_id m)
unfolding delete_ref
IsLive-delete_ref heap r s t [] f h = tt
IsLive-delete_ref heap r s t ((k, q) ∷ m) f (l, h) = elim (Bool-cases (text_eq k s.stream_id)) [
  | inl e ↦ rw e (IsLive-delete_ref heap r s t m f h)
  | inr e ↦ rw e (
    elim (Bool-cases (q == r)) [
      | inl b ↦
          let name : k ≡ s.stream_id =
            sym l.named ∙ ap (λ o. o.stream_id) (same_object heap r s (k, q) l f b) in
          let bad : text_eq k s.stream_id ≡ true = rw name (text_eq_self s.stream_id) in
          absurd (ground (arith, bad, e))
      | inr b ↦ IsLive-set_at_other heap r t (k, q) b l
    ],
    IsLive-delete_ref heap r s t m f h,
  )
]

pub IsLive-append :
    (heap later : List MuxStream) (e : Text × ℕ) → IsLive heap e → IsLive (heap ++ later) e
IsLive-append heap later e l = record {
  object = l.object;
  found = get-append e.1 l.object heap later l.found;
  named = l.named;
  settled = l.settled;
}

pub All-map :
    (P Q : Text × ℕ → Type 0) (m : StreamMap) → ((e : Text × ℕ) → P e → Q e) → All P m → All Q m
All-map P Q [] f h = tt
All-map P Q (e ∷ m) f (p, h) = (f e p, All-map P Q m f h)

module _ (deps : Deps) where
  pub put-IsMux :
      (r : ℕ) (s t : MuxStream) (m : StreamMux)
      → get_elem? m.heap r ≡ some s
      → t.stream_id ≡ s.stream_id
      → (IsSettled s → IsSettled t)
      → IsStream deps t
      → IsMux deps m
      → IsMux deps (put r t m)
  put-IsMux r s t m f n keep i h = record {
    objects = set_at-All (IsStream deps) r t m.heap i h.objects;
    entries =
        All-map (IsLive m.heap) (IsLive (set_at r t m.heap)) m.streams
          (λ e. IsLive-set_at m.heap r s t e f n keep) h.entries;
  }

  pub forget-IsMux : (id : Text) (m : StreamMux) → IsMux deps m → IsMux deps (forget id m)
  forget-IsMux id m h = record {
    objects = h.objects;
    entries = delete_ref-All (IsLive m.heap) id m.streams h.entries;
  }

  -- The log does not matter.
  pub logged-IsMux :
      (m n : StreamMux) → n.heap ≡ m.heap → n.streams ≡ m.streams → IsMux deps m → IsMux deps n
  logged-IsMux m n e f h = record { objects = rw e h.objects; entries = rw (e, f) h.entries }

  pub close_socket-same :
      (r code : ℕ) (reason : Text) (m : StreamMux)
      → ((close_socket deps r code reason m).heap ≡ m.heap)
        × ((close_socket deps r code reason m).streams ≡ m.streams)
  close_socket-same r code reason m = ground arith

  pub tear_down-same :
      (id : Text) (code : ℕ) (reason : Text) (m : StreamMux)
      → ((tear_down deps id code reason m).heap ≡ m.heap)
        × ((tear_down deps id code reason m).streams ≡ delete_ref id m.streams)
  unfolding tear_down
  tear_down-same id code reason m = elim (Option-cases (get_ref id m.streams)) [
    | inl e ↦ rw e (refl, sym (delete_ref_absent id m.streams e))
    | inr (r, e) ↦ rw e (close_socket-same r 1002 reason (forget id m))
  ]

  pub tear_down-IsMux :
      (id : Text) (code : ℕ) (reason : Text) (m : StreamMux)
      → IsMux deps m
      → IsMux deps (tear_down deps id code reason m)
  tear_down-IsMux id code reason m h =
      let same = tear_down-same id code reason m in
      logged-IsMux (forget id m) (tear_down deps id code reason m) same.0 same.1
        (forget-IsMux id m h)
