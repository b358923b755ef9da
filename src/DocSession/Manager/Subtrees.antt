-- ===== src/DocSession/Manager/Subtrees.antt =====
-- The steps of a move of a folder keep the invariant.
use kb_1_daemon.Prelude.{
  ℕ, ◌≡◌, refl, sym, ap, ◌∙◌, inl, inr, Bool, true, false, Bool-cases, List, [], ◌∷◌, any, Option,
  none, some, Text, text_eq, text_eq_self, text_eq_iff, arith, get_entry, delete_entry,
}
use kb_1_daemon.DocSession.Manager.{
  Manager, move_subtree, Phase, subtree_stat, subtree_moves, session_at,
}
use kb_1_daemon.DocSession.Manager.Mutations.{
  awaits, schedule_unless_used, rekeyed, rekey_session, paths_below,
}
use kb_1_daemon.DocSession.Manager.Folders.{
  with_session, sessions_at, is_collision, move_matches, move_if_directory, after_subtree_stat,
  subtree_stat_read, go_on_moving, destination, move_waiting, after_subtree_move,
  subtree_session_moved, after_subtree_failure, subtree_move_fails,
}
use kb_1_daemon.DocSession.Manager.Lookups.{Sessions, at, at-Fewer}
use kb_1_daemon.DocSession.Manager.Invariant.{
  IsManager, IsOnePath, IsWaiting, IsPhase, IsFirst, IsTurn,
}
use kb_1_daemon.DocSession.Manager.Handlers.{IsQuiet, schedule_unless_used-IsQuiet}
use kb_1_daemon.DocSession.Manager.Changes.{
  quiet-IsOnePath, ended, awaits-IsManager, chosen, gone_at,
}
use kb_1_daemon.DocSession.Manager.Moves.{moved_at, rekeyed-IsOnePath}

with_found :
    (m : Manager) (r : Text) (o : Option ℕ) (later : Sessions) (p : Text) (s : ℕ)
    → session_at r m ≡ o
    → (at p later ≡ some s → at p m.sessions ≡ some s)
    → at p (with_session r o later) ≡ some s
    → at p m.sessions ≡ some s
unfolding get_entry
with_found m r none later p s e f g = f g
with_found m r (some t) later p s e f g = elim (Bool-cases (text_eq r p)) [
  | inl b ↦
      let same : r ≡ p = ground (arith, text_eq_iff r p) in
      let two : some t ≡ some s =
        (let x : at p ((r, t) ∷ later) ≡ some t = rw b refl in sym x ∙ g) in
      rw (sym same) (e ∙ two)
  | inr b ↦ f (let x : at p ((r, t) ∷ later) ≡ at p later = rw b refl in sym x ∙ g)
]

-- What waits stands for its path.
found_at :
    (m : Manager) (ps : List Text) (p : Text) (s : ℕ)
    → at p (sessions_at m ps) ≡ some s
    → at p m.sessions ≡ some s
unfolding get_entry
found_at m [] p s e = absurd cc
found_at m (r ∷ ps) p s e =
    with_found m r (session_at r m) (sessions_at m ps) p s refl (found_at m ps p s) e

matches-IsWaiting :
    (m : Manager) (ps : List Text) (f : Phase)
    → IsOnePath m
    → IsWaiting (sessions_at m ps) (awaits f m)
matches-IsWaiting m ps f i p s e =
    let here = found_at m ps p s e in
    (
      record { only = λ q d. i.one_path q p s d here; old = i.numbered p s here },
      λ q d. i.one_path q p s (found_at m ps q s d) here,
    )

move_matches-IsManager :
    (from to : Text) (m : Manager) (matches : Sessions)
    → IsFirst (move_subtree from to) m.mutations
    → IsOnePath m
    → ((f : Phase) → IsWaiting matches (awaits f m))
    → IsManager (move_matches from to m matches)
move_matches-IsManager from to m [] h i w = awaits-IsManager m (move_subtree from to, h, refl) i
move_matches-IsManager from to m (e ∷ matches) h i w = record {
  sound = record { numbered = i.numbered; one_path = i.one_path };
  belongs = h;
  running = w (subtree_moves from to (e ∷ matches));
}

module _ (sort : List Text → List Text) where
  move_if_directory-IsManager :
      (b : Bool) (from to : Text) (m : Manager)
      → IsFirst (move_subtree from to) m.mutations
      → IsOnePath m
      → IsManager (move_if_directory sort b from to m)
  move_if_directory-IsManager false from to m h i =
      awaits-IsManager m (move_subtree from to, h, refl) i
  move_if_directory-IsManager true from to m h i =
      let ps = sort (paths_below from m.sessions) in
      chosen (any (is_collision to (sessions_at m ps)) m.sessions) _ _ (λ c. ended m i)
        (λ c.
          move_matches-IsManager from to m (sessions_at m ps) h i (λ f. matches-IsWaiting m ps f i))

  after_subtree_stat-IsManager :
      (b : Bool) (m : Manager) (f : Phase)
      → IsTurn f m.mutations
      → IsManager m
      → IsManager (after_subtree_stat sort b m f)
  after_subtree_stat-IsManager b m (subtree_stat from to) h i =
      move_if_directory-IsManager b from to m h i.sound
  after_subtree_stat-IsManager b m _ h i = i

  pub subtree_stat_read-IsManager :
      (b : Bool) (m : Manager) → IsManager m → IsManager (subtree_stat_read sort b m)
  unfolding subtree_stat_read
  subtree_stat_read-IsManager b m i = after_subtree_stat-IsManager b m m.phase i.belongs i

go_on_moving-IsManager :
    (from to : Text) (n : Manager) (waiting : Sessions)
    → IsFirst (move_subtree from to) n.mutations
    → IsOnePath n
    → ((f : Phase) → IsWaiting waiting (awaits f n))
    → IsManager (go_on_moving from to n waiting)
go_on_moving-IsManager from to n [] h i w = ended n i
go_on_moving-IsManager from to n (e ∷ waiting) h i w = record {
  sound = record { numbered = i.numbered; one_path = i.one_path };
  belongs = h;
  running = w (subtree_moves from to (e ∷ waiting));
}

-- When one session has moved, the others still wait.
still-IsWaiting :
    (m n : Manager) (f : Phase) (p to : Text) (s : ℕ) (waiting : Sessions)
    → IsQuiet (rekeyed p to s m) n
    → IsWaiting waiting m
    → at p waiting ≡ some s
    → IsWaiting (delete_entry text_eq p waiting) (awaits f n)
still-IsWaiting m n f p to s waiting quiet w e q u d =
    let (other, there) = gone_at p q u waiting d in
    let o = (w p s e).0 in
    let mine = w q u there in
    (
      record {
        only = λ r x.
            elim (moved_at p to r s u m o
              (at-Fewer (rekeyed p to s m).sessions n.sessions r u quiet.fewer x)) [
                | inl (y, z) ↦
                    let same : q ≡ p = (w p s e).1 q (there ∙ ap some (sym z)) in
                    let yes : text_eq p q ≡ true = rw same (text_eq_self p) in
                    absurd (let no : true ≡ false = sym yes ∙ other in cc)
                | inr (y, z) ↦ mine.0.only r y
              ];
        old = let l = mine.0.old in let g = quiet.next in omega arith;
      },
      λ r x. mine.1 r (gone_at p r u waiting x).1,
    )

module _ (is_opened : ℕ → Bool) where
  move_waiting-IsManager :
      (p from to : Text) (waiting : Sessions) (m : Manager) (o : Option ℕ)
      → at p waiting ≡ o
      → IsWaiting waiting m
      → IsFirst (move_subtree from to) m.mutations
      → IsManager m
      → IsManager (move_waiting is_opened p from to waiting m o)
  unfolding rekey_session
  move_waiting-IsManager p from to waiting m none e w h i = i
  move_waiting-IsManager p from to waiting m (some s) e w h i =
      let there = destination from to p in
      let quiet = schedule_unless_used-IsQuiet is_opened s there (rekeyed p there s m) in
      go_on_moving-IsManager from to (schedule_unless_used is_opened s there (rekeyed p there s m))
        (delete_entry text_eq p waiting) (h.0, quiet.mutations ∙ h.1)
        (quiet-IsOnePath (rekeyed p there s m) _ quiet
          (rekeyed-IsOnePath p there s m (w p s e).0 i.sound))
        (λ f. still-IsWaiting m _ f p there s waiting quiet w e)

  after_subtree_move-IsManager :
      (p : Text) (m : Manager) (f : Phase)
      → IsPhase f m
      → IsTurn f m.mutations
      → IsManager m
      → IsManager (after_subtree_move is_opened p m f)
  after_subtree_move-IsManager p m (subtree_moves from to waiting) w h i =
      move_waiting-IsManager p from to waiting m (get_entry text_eq p waiting) refl w h i
  after_subtree_move-IsManager p m _ w h i = i

  pub subtree_session_moved-IsManager :
      (p : Text) (m : Manager) → IsManager m → IsManager (subtree_session_moved is_opened p m)
  unfolding subtree_session_moved
  subtree_session_moved-IsManager p m i =
      after_subtree_move-IsManager p m m.phase i.running i.belongs i

after_subtree_failure-IsManager :
    (m : Manager) (f : Phase) → IsManager m → IsManager (after_subtree_failure m f)
after_subtree_failure-IsManager m (subtree_moves from to waiting) i = ended m i.sound
after_subtree_failure-IsManager m _ i = i

pub subtree_move_fails-IsManager : (m : Manager) → IsManager m → IsManager (subtree_move_fails m)
unfolding subtree_move_fails
subtree_move_fails-IsManager m i = after_subtree_failure-IsManager m m.phase i
