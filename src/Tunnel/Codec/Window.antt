-- ===== src/Tunnel/Codec/Window.antt =====
-- The send window: what is counted as unacknowledged, and its bound.
use mathlib.Core.Path.{subst}
use kb_1_daemon.Prelude.{
  ℕ, zero, suc, ◌+◌, ◌≤◌, ◌<◌, max, ◌≡◌, refl, Bool, true, false, List, [], ◌∷◌, ◌++◌, some, arith,
  length, length-take, take, drop, All, All-append, Bool-cases, inl, inr, Option-cases, ltb,
  ltb-false, ◌==◌, if◌then◌else◌, ◌&&◌, ◌∙◌, sym, ap,
}
use kb_1_daemon.Tunnel.Base64.{Bytes}
use kb_1_daemon.Tunnel.Codec.{
  DocumentStreamCodec, Outbound, queue_chunk, enqueue_chunks, enqueue, set_seq, count_sent,
  is_blocked, pull_from, or_default, get_seq, delete_seq, on_ack,
}

abbrev pub sum_bytes : List (ℕ × ℕ) → ℕ
sum_bytes [] = 0
sum_bytes ((s, n) ∷ rest) = n + sum_bytes rest

-- The queued frames carry the numbers from `k` up to, but not including, `n`.
abbrev pub IsNumbered : ℕ → List Outbound → ℕ → Type 0
IsNumbered k [] n = k ≡ n
IsNumbered k (q ∷ qs) n = (q.frame.seq ≡ k) × IsNumbered (suc k) qs n

abbrev pub IsOlder : ℕ → List (ℕ × ℕ) → Type 0
IsOlder k = All (λ e. e.0 < k)

abbrev pub IsChunked : ℕ → List Outbound → Type 0
IsChunked size = All (λ q. q.bytes ≤ size)

-- The codec `c` with the queue `queue`, whose first frame has the number `next`: the window counts
-- exactly the bytes that are still to be acknowledged, and it is passed by one chunk at most.
pub record IsWindowed (c : DocumentStreamCodec) (queue : List Outbound) (next : ℕ) : Type 0 where
  pub numbered : IsNumbered next queue c.tx_seq
  pub older : IsOlder next c.unacked_by_seq
  pub chunked : IsChunked c.chunk_bytes queue
  pub counted : c.unacked ≡ sum_bytes c.unacked_by_seq
  pub bounded : c.unacked ≤ max c.window_bytes c.chunk_bytes

some_inj : (c d : DocumentStreamCodec) → some c ≡ some d → c ≡ d
some_inj c d e = cc

sum_bytes-set_seq :
    (s n : ℕ) (m : List (ℕ × ℕ)) → IsOlder s m → sum_bytes (set_seq s n m) ≡ sum_bytes m + n
unfolding set_seq
sum_bytes-set_seq s n [] h = omega arith
sum_bytes-set_seq s n ((t, k) ∷ m) (lt, h) = ground (arith, sum_bytes-set_seq s n m h)

IsOlder-suc : (k : ℕ) (m : List (ℕ × ℕ)) → IsOlder k m → IsOlder (suc k) m
IsOlder-suc k [] h = tt
IsOlder-suc k (e ∷ m) (lt, h) = (omega arith, IsOlder-suc k m h)

IsOlder-set_seq : (s n : ℕ) (m : List (ℕ × ℕ)) → IsOlder s m → IsOlder (suc s) (set_seq s n m)
unfolding set_seq
IsOlder-set_seq s n [] h = (omega arith, tt)
IsOlder-set_seq s n ((t, k) ∷ m) (lt, h) = elim (Bool-cases (t == s)) [
  | inl e ↦ rw e (omega arith, IsOlder-suc s m h)
  | inr e ↦ rw e (omega arith, IsOlder-set_seq s n m h)
]

sent_sum :
    (s n k : ℕ) (m : List (ℕ × ℕ))
    → s ≡ k
    → IsOlder k m
    → sum_bytes (if ltb 0 n then set_seq s n m else m) ≡ sum_bytes m + n
sent_sum s n k m e h = elim (Bool-cases (ltb 0 n)) [
  | inl p ↦ rw (p, e) (sum_bytes-set_seq k n m h)
  | inr p ↦ rw p (let z = ltb-false 0 n p in omega arith)
]

sent-IsOlder :
    (s n k : ℕ) (m : List (ℕ × ℕ))
    → s ≡ k
    → IsOlder k m
    → IsOlder (suc k) (if ltb 0 n then set_seq s n m else m)
sent-IsOlder s n k m e h = elim (Bool-cases (ltb 0 n)) [
  | inl p ↦ rw (p, e) (IsOlder-set_seq k n m h)
  | inr p ↦ rw p (IsOlder-suc k m h)
]

within :
    (unacked bytes window chunk : ℕ)
    → (ltb 0 unacked && ltb window (unacked + bytes)) ≡ false
    → bytes ≤ chunk
    → unacked + bytes ≤ max window chunk
within unacked bytes window chunk free small = ground arith

-- Sending one frame that the window lets through.
count_sent-IsWindowed :
    (c : DocumentStreamCodec) (q : Outbound) (qs : List Outbound) (k : ℕ)
    → is_blocked c q ≡ false
    → IsWindowed c (q ∷ qs) k
    → IsWindowed (count_sent c q) qs (suc k)
unfolding count_sent is_blocked
count_sent-IsWindowed c q qs k free w = record {
  numbered = w.numbered.1;
  older = sent-IsOlder q.frame.seq q.bytes k c.unacked_by_seq w.numbered.0 w.older;
  chunked = w.chunked.1;
  counted = omega (arith, sent_sum q.frame.seq q.bytes k c.unacked_by_seq w.numbered.0 w.older);
  bounded = within c.unacked q.bytes c.window_bytes c.chunk_bytes free w.chunked.0;
}

abbrev pub IsSound : DocumentStreamCodec → Type 0
IsSound c = (next : ℕ) × IsWindowed c c.outbound next

pub pull_from-IsSound :
    (c : DocumentStreamCodec) (qs : List Outbound) (k : ℕ)
    → IsWindowed c qs k
    → IsSound (pull_from c qs).0
unfolding pull_from
pull_from-IsSound c [] k w = (
  k,
  record {
    numbered = w.numbered;
    older = w.older;
    chunked = tt;
    counted = w.counted;
    bounded = w.bounded;
  },
)
pull_from-IsSound c (q ∷ qs) k w = elim (Bool-cases (is_blocked c q)) [
  | inl b ↦ rw b (
    k,
    record {
      numbered = w.numbered;
      older = w.older;
      chunked = w.chunked;
      counted = w.counted;
      bounded = w.bounded;
    },
  )
  | inr b ↦
      rw b (pull_from-IsSound (count_sent c q) qs (suc k) (count_sent-IsWindowed c q qs k b w))
]

IsNumbered-append :
    (k n : ℕ) (qs : List Outbound) (q : Outbound)
    → q.frame.seq ≡ n
    → IsNumbered k qs n
    → IsNumbered k (qs ++ q ∷ []) (n + 1)
IsNumbered-append k n [] q e h = (e ∙ sym h, omega arith)
IsNumbered-append k n (p ∷ qs) q e (s, h) = (s, IsNumbered-append (suc k) n qs q e h)

queue_chunk-IsSound :
    (c : DocumentStreamCodec) (chunk : Bytes) (fin : Bool)
    → length chunk ≤ c.chunk_bytes
    → IsSound c
    → IsSound (queue_chunk c chunk fin)
queue_chunk-IsSound c chunk fin small (k, w) = (
  k,
  record {
    numbered = IsNumbered-append k c.tx_seq c.outbound _ refl w.numbered;
    older = w.older;
    chunked = All-append (λ q. q.bytes ≤ c.chunk_bytes) c.outbound _ w.chunked (small, tt);
    counted = w.counted;
    bounded = w.bounded;
  },
)

enqueue_chunks-IsSound :
    (rounds : ℕ) (bytes : Bytes) (c : DocumentStreamCodec) {d : DocumentStreamCodec}
    → enqueue_chunks rounds bytes c ≡ some d
    → IsSound c
    → IsSound d
unfolding enqueue_chunks
enqueue_chunks-IsSound rounds [] c {d = d} e w = subst IsSound (some_inj c d e) w
enqueue_chunks-IsSound zero (b ∷ bs) c e w = cc
enqueue_chunks-IsSound (suc rounds) (b ∷ bs) c e w =
    enqueue_chunks-IsSound rounds (drop c.chunk_bytes (b ∷ bs)) _ e (
      queue_chunk-IsSound c (take c.chunk_bytes (b ∷ bs)) _
        (omega (arith, length-take c.chunk_bytes (b ∷ bs))) w)

pub enqueue-IsSound :
    (c : DocumentStreamCodec) (bytes : Bytes) {d : DocumentStreamCodec}
    → enqueue c bytes ≡ some d
    → IsSound c
    → IsSound d
unfolding enqueue
enqueue-IsSound c [] {d = d} e w =
    subst IsSound (some_inj (queue_chunk c [] true) d e)
      (queue_chunk-IsSound c [] true (omega arith) w)
enqueue-IsSound c (b ∷ bs) e w = enqueue_chunks-IsSound (length (b ∷ bs)) (b ∷ bs) c e w

enqueue_chunks-unacked :
    (rounds : ℕ) (bytes : Bytes) (c : DocumentStreamCodec) {d : DocumentStreamCodec}
    → enqueue_chunks rounds bytes c ≡ some d
    → d.unacked ≡ c.unacked
unfolding enqueue_chunks
enqueue_chunks-unacked rounds [] c {d = d} e = sym (ap (λ k. k.unacked) (some_inj c d e))
enqueue_chunks-unacked zero (b ∷ bs) c e = cc
enqueue_chunks-unacked (suc rounds) (b ∷ bs) c e =
    enqueue_chunks-unacked rounds (drop c.chunk_bytes (b ∷ bs)) _ e

pub enqueue-unacked :
    (c : DocumentStreamCodec) (bytes : Bytes) {d : DocumentStreamCodec}
    → enqueue c bytes ≡ some d
    → d.unacked ≡ c.unacked
unfolding enqueue
enqueue-unacked c [] {d = d} e = sym (ap (λ k. k.unacked) (some_inj (queue_chunk c [] true) d e))
enqueue-unacked c (b ∷ bs) e = enqueue_chunks-unacked (length (b ∷ bs)) (b ∷ bs) c e

sum_bytes-delete_seq :
    (s n : ℕ) (m : List (ℕ × ℕ))
    → get_seq s m ≡ some n
    → sum_bytes (delete_seq s m) + n ≡ sum_bytes m
unfolding get_seq delete_seq
sum_bytes-delete_seq s n [] e = cc
sum_bytes-delete_seq s n ((t, k) ∷ m) e = ground (arith, sum_bytes-delete_seq s n m)

IsOlder-delete_seq : (k s : ℕ) (m : List (ℕ × ℕ)) → IsOlder k m → IsOlder k (delete_seq s m)
unfolding delete_seq
IsOlder-delete_seq k s [] h = tt
IsOlder-delete_seq k s ((t, n) ∷ m) (lt, h) = elim (Bool-cases (t == s)) [
  | inl e ↦ rw e h
  | inr e ↦ rw e (lt, IsOlder-delete_seq k s m h)
]

pub on_ack-IsSound : (c : DocumentStreamCodec) (seq : ℕ) → IsSound c → IsSound (on_ack c seq)
unfolding on_ack
on_ack-IsSound c seq (k, w) = elim (Option-cases (get_seq seq c.unacked_by_seq)) [
  | inl e ↦ rw (e, on_ack) (k, w)
  | inr (n, e) ↦
      let s = sum_bytes-delete_seq seq n c.unacked_by_seq e in
      rw (e, on_ack)
        (
          k,
          record {
            numbered = w.numbered;
            older = IsOlder-delete_seq k seq c.unacked_by_seq w.older;
            chunked = w.chunked;
            counted = omega arith;
            bounded = omega arith;
          },
        )
]

pub on_ack-unacked :
    (c : DocumentStreamCodec) (seq : ℕ)
    → IsSound c
    → (on_ack c seq).unacked + or_default (get_seq seq c.unacked_by_seq) 0 ≡ c.unacked
unfolding on_ack
on_ack-unacked c seq (k, w) = elim (Option-cases (get_seq seq c.unacked_by_seq)) [
  | inl e ↦ rw (e, on_ack) (omega arith)
  | inr (n, e) ↦
      let s = sum_bytes-delete_seq seq n c.unacked_by_seq e in
      let counted = w.counted in rw (e, on_ack) (omega arith)
]
