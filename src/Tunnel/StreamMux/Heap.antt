-- ===== src/Tunnel/StreamMux/Heap.antt =====
-- The heap of streams and the map into it: what an update leaves as it was.
use kb_1_daemon.Prelude.{
  ℕ, zero, suc, ◌≡◌, ◌≢◌, refl, sym, ap, inl, inr, Bool-cases, List, [], ◌∷◌, ◌++◌, none, some,
  Text, text_eq, length, get_elem?, All, arith,
}
use kb_1_daemon.Tunnel.StreamMux.{MuxStream, StreamMap, get_ref, delete_ref, set_at}

pub set_at-All :
    (P : MuxStream → Type 0) (r : ℕ) (s : MuxStream) (heap : List MuxStream)
    → P s
    → All P heap
    → All P (set_at r s heap)
unfolding set_at
set_at-All P r s [] p h = tt
set_at-All P zero s (t ∷ heap) p (q, h) = (p, h)
set_at-All P (suc r) s (t ∷ heap) p (q, h) = (q, set_at-All P r s heap p h)

pub get-All :
    (P : MuxStream → Type 0) (r : ℕ) (s : MuxStream) (heap : List MuxStream)
    → All P heap
    → get_elem? heap r ≡ some s
    → P s
get-All P r s [] h e = absurd cc
get-All P zero s (t ∷ heap) (q, h) e = (let same : t ≡ s = cc in rw (sym same) q)
get-All P (suc r) s (t ∷ heap) (q, h) e = get-All P r s heap h e

pub get-set_at_self :
    (r : ℕ) (s t : MuxStream) (heap : List MuxStream)
    → get_elem? heap r ≡ some s
    → get_elem? (set_at r t heap) r ≡ some t
unfolding set_at
get-set_at_self r s t [] e = absurd cc
get-set_at_self zero s t (u ∷ heap) e = refl
get-set_at_self (suc r) s t (u ∷ heap) e = get-set_at_self r s t heap e

pub get-set_at_other :
    (r q : ℕ) (t : MuxStream) (heap : List MuxStream)
    → q ≢ r
    → get_elem? (set_at r t heap) q ≡ get_elem? heap q
unfolding set_at
get-set_at_other r q t [] n = refl
get-set_at_other zero zero t (u ∷ heap) n = absurd (n refl)
get-set_at_other zero (suc q) t (u ∷ heap) n = refl
get-set_at_other (suc r) zero t (u ∷ heap) n = refl
get-set_at_other (suc r) (suc q) t (u ∷ heap) n = get-set_at_other r q t heap (λ e. n (ap suc e))

pub get-append :
    (r : ℕ) (s : MuxStream) (heap later : List MuxStream)
    → get_elem? heap r ≡ some s
    → get_elem? (heap ++ later) r ≡ some s
get-append r s [] later e = absurd cc
get-append zero s (t ∷ heap) later e = e
get-append (suc r) s (t ∷ heap) later e = get-append r s heap later e

pub get_last :
    (s : MuxStream) (heap : List MuxStream) → get_elem? (heap ++ s ∷ []) (length heap) ≡ some s
get_last s [] = refl
get_last s (t ∷ heap) = get_last s heap

pub delete_ref-All :
    (P : Text × ℕ → Type 0) (id : Text) (m : StreamMap) → All P m → All P (delete_ref id m)
unfolding delete_ref
delete_ref-All P id [] h = tt
delete_ref-All P id ((k, r) ∷ m) (p, h) = elim (Bool-cases (text_eq k id)) [
  | inl e ↦ rw e (delete_ref-All P id m h)
  | inr e ↦ rw e (p, delete_ref-All P id m h)
]

pub get_ref-delete_ref : (id : Text) (m : StreamMap) → get_ref id (delete_ref id m) ≡ none
unfolding get_ref delete_ref
get_ref-delete_ref id [] = refl
get_ref-delete_ref id ((k, r) ∷ m) = elim (Bool-cases (text_eq k id)) [
  | inl e ↦ rw e (get_ref-delete_ref id m)
  | inr e ↦ rw e (rw e (get_ref-delete_ref id m))
]

pub delete_ref_absent : (id : Text) (m : StreamMap) → get_ref id m ≡ none → delete_ref id m ≡ m
unfolding get_ref delete_ref
delete_ref_absent id [] h = refl
delete_ref_absent id ((k, r) ∷ m) h = elim (Bool-cases (text_eq k id)) [
  | inl e ↦ absurd (ground arith)
  | inr e ↦ rw e (ap (λ l. (k, r) ∷ l) (delete_ref_absent id m (ground arith)))
]

pub set_at_twice :
    (r : ℕ) (s t : MuxStream) (heap : List MuxStream)
    → set_at r t (set_at r s heap) ≡ set_at r t heap
unfolding set_at
set_at_twice r s t [] = refl
set_at_twice zero s t (u ∷ heap) = refl
set_at_twice (suc r) s t (u ∷ heap) = ap (λ l. u ∷ l) (set_at_twice r s t heap)
