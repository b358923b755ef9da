-- ===== src/VaultCore/FileHistory/Flush/Commits.antt =====
-- A flush commits the selected versions in their order, and forgets exactly those that it committed.
use kb_1_daemon.Prelude.{
  ℕ, suc, ◌+◌, ◌≡◌, refl, sym, ap, ◌∙◌, List, [], ◌∷◌, ◌++◌, Option, none, some, Text, length, true,
  arith, ok,
}
use kb_1_daemon.VaultCore.Path.{Platform}
use kb_1_daemon.VaultCore.FileHistory.{PendingHistoryEntry, Host}
use kb_1_daemon.VaultCore.FileHistory.Pending.{PendingHistoryMap, delete_pending}
use kb_1_daemon.VaultCore.FileHistory.Git.{
  Command, Outcome, ensure_git_repository, commit_pending_entry,
}
use kb_1_daemon.VaultCore.FileHistory.Flush.{
  History, Selected, select_pending_entries, after_commit, flush_loop, loop_result, flush_if_ready,
  flush_selected, flush_file_history,
}

abbrev pub without : Selected → PendingHistoryMap → PendingHistoryMap
without [] pending = pending
without ((key, entry) ∷ done) pending = without done (delete_pending key pending)

module _ {W : Type 0} (exec : W → Command → W × Outcome) (h : Host) (random_id : Text → Text)
    (platform : Platform) (sort : Selected → Selected) (now : Option ℕ) where
  -- The versions are committed one after the other, each commit with success.
  abbrev pub Commits : W → Selected → W → Type 0
  Commits w [] u = w ≡ u
  Commits w ((key, entry) ∷ done) u =
      (v : W) × (commit_pending_entry exec h random_id entry now w ≡ (v, some tt))
      × Commits v done u

  -- All versions are committed, or one is not and the loop throws.
  abbrev pub IsEnd : W → W → Selected → ℕ → Option ℕ → Type 0
  IsEnd u w [] count result = (w ≡ u) × (result ≡ some count)
  IsEnd u w ((key, entry) ∷ rest) count result =
      (commit_pending_entry exec h random_id entry now u ≡ (w, none)) × (result ≡ none)

  pub record IsFlush (w : W) (selected : Selected) (pending : PendingHistoryMap) (count : ℕ)
      (last : W × PendingHistoryMap × Option ℕ) : Type 0 where
    pub done : Selected
    pub rest : Selected
    pub world : W
    pub split : selected ≡ done ++ rest
    pub commits : Commits w done world
    pub kept : last.1 ≡ without done pending
    pub end_of_loop : IsEnd world last.0 rest (count + length done) last.2

  after_commit-IsFlush :
      (key : Text) (entry : PendingHistoryEntry) (selected : Selected) (count : ℕ)
      (pending : PendingHistoryMap) (w : W) (r : W × Option (Unit {0}))
      → commit_pending_entry exec h random_id entry now w ≡ r
      → ((v : W)
          → IsFlush v selected (delete_pending key pending) (count + 1) (
              flush_loop exec h random_id platform sort now selected
                (count + 1)
                (delete_pending key pending)
                v))
      → IsFlush w ((key, entry) ∷ selected) pending count (
          after_commit exec h random_id platform sort r pending (
            flush_loop exec h random_id platform sort now selected
              (count + 1)
              (delete_pending key pending)))
  after_commit-IsFlush key entry selected count pending w (v, none) e next = record {
    done = [];
    rest = (key, entry) ∷ selected;
    world = w;
    split = refl;
    commits = refl;
    kept = refl;
    end_of_loop = (e, refl);
  }
  after_commit-IsFlush key entry selected count pending w (v, some tt) e next =
      let n = next v in
      record {
        done = (key, entry) ∷ n.done;
        rest = n.rest;
        world = n.world;
        split = ap (λ l. (key, entry) ∷ l) n.split;
        commits = (v, e, n.commits);
        kept = n.kept;
        end_of_loop =
            let sum : count + 1 + length n.done ≡ count + suc (length n.done) = omega arith in
            rw (sym sum) n.end_of_loop;
      }

  flush_loop-IsFlush :
      (selected : Selected) (count : ℕ) (pending : PendingHistoryMap) (w : W)
      → IsFlush w selected pending count
          (flush_loop exec h random_id platform sort now selected count pending w)
  unfolding flush_loop
  flush_loop-IsFlush [] count pending w = record {
    done = [];
    rest = [];
    world = w;
    split = refl;
    commits = refl;
    kept = refl;
    end_of_loop = (
      refl,
      (let e : count ≡ count + length {A = Text × PendingHistoryEntry} [] = omega arith in
          ap some e),
    );
  }
  flush_loop-IsFlush ((key, entry) ∷ selected) count pending w =
      after_commit-IsFlush key entry selected count pending w _ refl
        (λ v. flush_loop-IsFlush selected (count + 1) (delete_pending key pending) v)

  -- When something is selected and Git is ready: the selected versions are committed in their order up to the
  -- first that fails, exactly the committed ones are pending no more, and the call gives their count or
  -- throws if one failed.
  pub flush_file_history-IsFlush :
      (paths : Option (List Text)) (s : History W) (key : Text) (entry : PendingHistoryEntry)
      (more : Selected) (w : W)
      → select_pending_entries exec h random_id platform sort s.pending paths
        ≡ ok ((key, entry) ∷ more)
      → ensure_git_repository exec h random_id s.git_ready s.world ≡ (w, true)
      → (last : W × PendingHistoryMap × Option ℕ) × IsFlush w ((key, entry) ∷ more) s.pending 0 last
        × (flush_file_history exec h random_id platform sort paths now s ≡ (
          record { world = last.0; pending = last.1; git_ready = true },
          loop_result exec h random_id platform sort last.2,
        ))
  unfolding flush_file_history
  flush_file_history-IsFlush paths s key entry more w e g =
      let selected = (key, entry) ∷ more in
      (
        flush_loop exec h random_id platform sort now selected 0 s.pending w,
        flush_loop-IsFlush selected 0 s.pending w,
        ap (flush_selected exec h random_id platform sort now s) e
            ∙ ap (flush_if_ready exec h random_id platform sort now selected s.pending) g,
      )
