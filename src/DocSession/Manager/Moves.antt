-- ===== src/DocSession/Manager/Moves.antt =====
-- Moves and deletions, and the close of all sessions, keep the invariant.
use kb_1_daemon.Prelude.{
  ℕ, ◌≡◌, ◌≢◌, refl, sym, ap, ◌∙◌, ◌⊎◌, inl, inr, Bool, true, false, Bool-cases, List, Option, none,
  some, Text, text_eq, text_eq→eq, text_eq_self, ==_iff, arith, get_entry, set_entry, delete_entry,
}
use kb_1_daemon.DocSession.Manager.{
  Manager, Phase, operation_on_disk, all_closes, source_stat, session_moves, session_deletes,
  subtree_deletes, subtree_stat, delete_subtree, move_session, session_at,
}
use kb_1_daemon.DocSession.Manager.Mutations.{
  delete_path, is_conflict, move_or_disk, move_if_file, after_source_stat, source_stat_read,
  after_disk, disk_operation_ends, rekeyed, rekey_session, move_ends, after_move, session_moved,
  all_settled, after_all_close, all_closed, delete_ends, after_delete, session_deleted,
}
use kb_1_daemon.DocSession.Manager.Folders.{
  after_stat_failure, stat_fails, subtree_delete_ends, after_subtree_delete,
  subtree_session_deleted,
}
use kb_1_daemon.DocSession.Manager.Lookups.{at, at-set, delete-Fewer}
use kb_1_daemon.DocSession.Manager.Invariant.{
  IsManager, IsOnePath, IsOnly, IsPhase, IsFirst, IsTurn,
}
use kb_1_daemon.DocSession.Manager.Handlers.{
  reservation_of, fewer-IsQuiet, schedule_unless_used-IsQuiet, schedule_all-IsQuiet,
}
use kb_1_daemon.DocSession.Manager.Changes.{
  quiet-IsOnePath, ended, awaits-IsManager, chosen, gone_at, delete_next-IsManager,
}

-- Without a conflict, the destination is free or has the session itself.
no_conflict : (d : Option ℕ) (s : ℕ) → is_conflict d (some s) ≡ false → (d ≡ some s) ⊎ (d ≡ none)
no_conflict none s e = inr refl
no_conflict (some d) s e = let same : d ≡ s = ground (arith, ==_iff d s) in inl (ap some same)

moves_or_disk :
    (from to : Text) (o : Option ℕ) (m : Manager)
    → IsPhase (source_stat from to o) m
    → IsFirst (move_session from to) m.mutations
    → IsOnePath m
    → is_conflict (session_at to m) o ≡ false
    → IsManager (move_or_disk from to m o)
moves_or_disk from to none m r h i c = awaits-IsManager m (move_session from to, h, refl) i
moves_or_disk from to (some s) m (kept, only, r) h i c = record {
  sound = record { numbered = i.numbered; one_path = i.one_path };
  belongs = h;
  running = (
    record { reserved = reservation_of m _ refl from kept.reserved; holds = kept.holds },
    record { only = only.only; old = only.old },
    record { reserved = reservation_of m _ refl to r; holds = no_conflict (session_at to m) s c },
  );
}

move_if_file-IsManager :
    (b : Bool) (from to : Text) (o : Option ℕ) (m : Manager)
    → IsPhase (source_stat from to o) m
    → IsFirst (move_session from to) m.mutations
    → IsOnePath m
    → IsManager (move_if_file b from to o m)
move_if_file-IsManager false from to o m r h i =
    awaits-IsManager m (move_session from to, h, refl) i
move_if_file-IsManager true from to o m r h i =
    chosen (is_conflict (session_at to m) o) _ _ (λ c. ended m i)
      (λ c. moves_or_disk from to o m r h i c)

after_source_stat-IsManager :
    (b : Bool) (m : Manager) (f : Phase)
    → IsPhase f m
    → IsTurn f m.mutations
    → IsManager m
    → IsManager (after_source_stat b m f)
after_source_stat-IsManager b m (source_stat from to o) r h i =
    move_if_file-IsManager b from to o m r h i.sound
after_source_stat-IsManager b m _ r h i = i

pub source_stat_read-IsManager :
    (b : Bool) (m : Manager) → IsManager m → IsManager (source_stat_read b m)
unfolding source_stat_read
source_stat_read-IsManager b m i = after_source_stat-IsManager b m m.phase i.running i.belongs i

after_stat_failure-IsManager :
    (m : Manager) (f : Phase) → IsManager m → IsManager (after_stat_failure m f)
after_stat_failure-IsManager m (source_stat from to o) i = ended m i.sound
after_stat_failure-IsManager m (subtree_stat from to) i = ended m i.sound
after_stat_failure-IsManager m _ i = i

pub stat_fails-IsManager : (m : Manager) → IsManager m → IsManager (stat_fails m)
unfolding stat_fails
stat_fails-IsManager m i = after_stat_failure-IsManager m m.phase i

after_disk-IsManager : (m : Manager) (f : Phase) → IsManager m → IsManager (after_disk m f)
after_disk-IsManager m operation_on_disk i = ended m i.sound
after_disk-IsManager m _ i = i

pub disk_operation_ends-IsManager : (m : Manager) → IsManager m → IsManager (disk_operation_ends m)
unfolding disk_operation_ends
disk_operation_ends-IsManager m i = after_disk-IsManager m m.phase i

delete_ends-IsOnePath :
    (b : Bool) (p : Text) (m : Manager) → IsOnePath m → IsOnePath (delete_ends b p m)
delete_ends-IsOnePath true p m i =
    quiet-IsOnePath m _ (fewer-IsQuiet m _ (delete-Fewer p m.sessions)) i
delete_ends-IsOnePath false p m i = i

after_delete-IsManager :
    (b : Bool) (m : Manager) (f : Phase) → IsManager m → IsManager (after_delete b m f)
after_delete-IsManager b m (session_deletes p s) i = ended _ (delete_ends-IsOnePath b p m i.sound)
after_delete-IsManager b m _ i = i

pub session_deleted-IsManager :
    (b : Bool) (m : Manager) → IsManager m → IsManager (session_deleted b m)
unfolding session_deleted
session_deleted-IsManager b m i = after_delete-IsManager b m m.phase i

subtree_delete_ends-IsManager :
    (b : Bool) (p : Text) (o : Option ℕ) (ps : List Text) (m : Manager) (folder : Text)
    → IsFirst (delete_subtree folder) m.mutations
    → IsOnePath m
    → IsManager (subtree_delete_ends b p o ps m)
subtree_delete_ends-IsManager true p none ps m folder h i = delete_next-IsManager ps m folder h i
subtree_delete_ends-IsManager true p (some s) ps m folder h i =
    delete_next-IsManager ps (delete_path p m) folder h (delete_ends-IsOnePath true p m i)
subtree_delete_ends-IsManager false p o ps m folder h i = ended m i

after_subtree_delete-IsManager :
    (b : Bool) (m : Manager) (f : Phase)
    → IsTurn f m.mutations
    → IsManager m
    → IsManager (after_subtree_delete b m f)
after_subtree_delete-IsManager b m (subtree_deletes p o ps) (folder, h) i =
    subtree_delete_ends-IsManager b p o ps m folder h i.sound
after_subtree_delete-IsManager b m _ h i = i

pub subtree_session_deleted-IsManager :
    (b : Bool) (m : Manager) → IsManager m → IsManager (subtree_session_deleted b m)
unfolding subtree_session_deleted
subtree_session_deleted-IsManager b m i = after_subtree_delete-IsManager b m m.phase i.belongs i

-- After a move, `to` has the session, and other paths have what they had.
pub moved_at :
    (from to q : Text) (s t : ℕ) (m : Manager)
    → IsOnly from s m
    → at q (set_entry text_eq to s (delete_entry text_eq from m.sessions)) ≡ some t
    → ((to ≡ q) × (s ≡ t)) ⊎ ((at q m.sessions ≡ some t) × (s ≢ t))
moved_at from to q s t m o e =
    let found = at-set q to s (delete_entry text_eq from m.sessions) in
    elim (Bool-cases (text_eq to q)) [
      | inl b ↦
          let two : some s ≡ some t = sym (found ∙ rw b refl) ∙ e in inl (text_eq→eq to q b, cc)
      | inr b ↦
          let (n, d) = gone_at from q t m.sessions (sym (found ∙ rw b refl) ∙ e) in
          inr (
            d,
            λ x.
                let same : q ≡ from = o.only q (d ∙ ap some (sym x)) in
                let here : text_eq from q ≡ true = rw same (text_eq_self from) in
                let no : true ≡ false = sym here ∙ n in cc,
          )
    ]

pub rekeyed-IsOnePath :
    (from to : Text) (s : ℕ) (m : Manager)
    → IsOnly from s m
    → IsOnePath m
    → IsOnePath (rekeyed from to s m)
rekeyed-IsOnePath from to s m o i = record {
  numbered = λ q t e. elim (moved_at from to q s t m o e) [
    | inl (x, y) ↦ let l = o.old in omega arith
    | inr (x, y) ↦ i.numbered q t x
  ];
  one_path = λ q r t d e. elim (moved_at from to q s t m o d) [
    | inl (x, y) ↦ elim (moved_at from to r s t m o e) [
      | inl (z, w) ↦ sym x ∙ z
      | inr (z, w) ↦ absurd (w y)
    ]
    | inr (x, y) ↦ elim (moved_at from to r s t m o e) [
      | inl (z, w) ↦ absurd (y w)
      | inr (z, w) ↦ i.one_path q r t x z
    ]
  ];
}

module _ (is_opened : ℕ → Bool) where
  move_ends-IsOnePath :
      (b : Bool) (from to : Text) (s : ℕ) (m : Manager)
      → IsOnly from s m
      → IsOnePath m
      → IsOnePath (move_ends is_opened b from to s m)
  unfolding rekey_session
  move_ends-IsOnePath true from to s m o i =
      quiet-IsOnePath (rekeyed from to s m) _
        (schedule_unless_used-IsQuiet is_opened s to (rekeyed from to s m))
        (rekeyed-IsOnePath from to s m o i)
  move_ends-IsOnePath false from to s m o i = i

  after_move-IsManager :
      (b : Bool) (m : Manager) (f : Phase)
      → IsPhase f m
      → IsManager m
      → IsManager (after_move is_opened b m f)
  after_move-IsManager b m (session_moves from to s) (k, o, j) i =
      ended _ (move_ends-IsOnePath b from to s m o i.sound)
  after_move-IsManager b m _ r i = i

  pub session_moved-IsManager :
      (b : Bool) (m : Manager) → IsManager m → IsManager (session_moved is_opened b m)
  unfolding session_moved
  session_moved-IsManager b m i = after_move-IsManager b m m.phase i.running i

  all_settled-IsOnePath :
      (b : Bool) (m : Manager) → IsOnePath m → IsOnePath (all_settled is_opened b m)
  unfolding get_entry
  all_settled-IsOnePath true m i = record {
    numbered = λ p s e. absurd cc;
    one_path = λ p q s d e. absurd cc;
  }
  all_settled-IsOnePath false m i =
      let n : Manager = record m { closing = false } in
      quiet-IsOnePath n _ (schedule_all-IsQuiet is_opened m.sessions n)
        (record { numbered = i.numbered; one_path = i.one_path })

  after_all_close-IsManager :
      (b : Bool) (m : Manager) (f : Phase)
      → IsManager m
      → IsManager (after_all_close is_opened b m f)
  after_all_close-IsManager b m all_closes i = ended _ (all_settled-IsOnePath b m i.sound)
  after_all_close-IsManager b m _ i = i

  pub all_closed-IsManager :
      (b : Bool) (m : Manager) → IsManager m → IsManager (all_closed is_opened b m)
  unfolding all_closed
  all_closed-IsManager b m i = after_all_close-IsManager b m m.phase i
