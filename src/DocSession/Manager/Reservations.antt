-- ===== src/DocSession/Manager/Reservations.antt =====
-- Which paths a change reserves: `reserveExactPaths` and `reserveSubtrees`.
use kb_1_daemon.Prelude.{
  ◌≡◌, refl, sym, ◌⊎◌, inl, inr, Bool, true, false, ◌||◌, List, [], ◌∷◌, ◌++◌, append_assoc, All,
  Text, text_eq, text_eq_self, any, starts_with, arith,
}
use kb_1_daemon.VaultCore.Path.{slash}
use kb_1_daemon.VaultCore.Path.Validate.{starts_with-append}
use kb_1_daemon.DocSession.Manager.{
  Mutation, stable_path, delete_session, idle_close, delete_subtree, move_session, move_subtree,
  close_all, is_at_or_below, is_reserved_by, Manager, has_path_reservation,
}

-- The path is the folder or in it.
abbrev pub IsUnder : Text → Text → Type 0
IsUnder folder p = (p ≡ folder) ⊎ ((rest : Text) × (p ≡ folder ++ slash ∷ rest))

-- The paths that a change is about; `close` is about none.
abbrev pub Covers : Mutation → Text → Type 0
Covers (stable_path path) p = p ≡ path
Covers (delete_session path) p = p ≡ path
Covers (idle_close path) p = p ≡ path
Covers (delete_subtree folder) p = IsUnder folder p
Covers (move_session from to) p = (p ≡ from) ⊎ (p ≡ to)
Covers (move_subtree from to) p = IsUnder from p ⊎ IsUnder to p
Covers close_all p = true ≡ false

-- All paths of all changes that wait or run are reserved.
abbrev pub IsReserving : Manager → Type 0
IsReserving m = All (λ t. (p : Text) → Covers t p → has_path_reservation p m ≡ true) m.mutations

first_reserved : (p path : Text) → p ≡ path → any (text_eq p) (path ∷ []) ≡ true
first_reserved p path e = rw (e, text_eq_self path) refl

either_reserved :
    (p from to : Text) → (p ≡ from) ⊎ (p ≡ to) → any (text_eq p) (from ∷ to ∷ []) ≡ true
either_reserved p from to (inl e) = rw (e, text_eq_self from) refl
either_reserved p from to (inr e) =
    let same : text_eq p to ≡ true = rw e (text_eq_self to) in ground arith

under_reserved : (folder p : Text) → IsUnder folder p → is_at_or_below folder p ≡ true
under_reserved folder p (inl e) = rw (e, text_eq_self folder) refl
under_reserved folder p (inr (rest, e)) =
    let below : starts_with (folder ++ slash ∷ []) p ≡ true =
      rw (e, sym (append_assoc folder (slash ∷ []) rest))
        (starts_with-append (folder ++ slash ∷ []) rest) in
    ground arith

covered_reserved : (t : Mutation) (p : Text) → Covers t p → is_reserved_by p t ≡ true
covered_reserved (stable_path path) p e = first_reserved p path e
covered_reserved (delete_session path) p e = first_reserved p path e
covered_reserved (idle_close path) p e = first_reserved p path e
covered_reserved (delete_subtree folder) p e = under_reserved folder p e
covered_reserved (move_session from to) p e = either_reserved p from to e
covered_reserved (move_subtree from to) p (inl e) =
    let here = under_reserved from p e in ground arith
covered_reserved (move_subtree from to) p (inr e) = let here = under_reserved to p e in ground arith
covered_reserved close_all p e = absurd (cc)

later_reserved : (a b : Bool) → b ≡ true → (a || b) ≡ true
later_reserved a b e = ground arith

queue_reserved :
    (whole ts : List Mutation)
    → ((p : Text) → any (is_reserved_by p) ts ≡ true → any (is_reserved_by p) whole ≡ true)
    → All (λ t. (p : Text) → Covers t p → any (is_reserved_by p) whole ≡ true) ts
queue_reserved whole [] into = tt
queue_reserved whole (t ∷ ts) into = (
  λ p c. into p (rw (covered_reserved t p c) refl),
  queue_reserved whole ts (λ p e. into p (later_reserved (is_reserved_by p t) _ e)),
)

pub manager-IsReserving : (m : Manager) → IsReserving m
unfolding has_path_reservation
manager-IsReserving m = queue_reserved m.mutations m.mutations (λ p e. e)
