-- ===== src/VaultCore/FileHistory/Committed/Termination.antt =====
-- Following a note through the log comes to an end, and no commit is counted twice.
use kb_1_daemon.Prelude.{
  ℕ, zero, suc, ◌<◌, ◌≡◌, ◌≢◌, refl, sym, ap, ◌∙◌, inl, inr, Bool, true, false, ◌||◌, Bool-cases,
  Option-cases, List, [], ◌∷◌, ◌++◌, map, Option, none, some, Text, text, text_eq, text_eq_iff, any,
  All, All-append, arith,
}
use mathlib.Core.List.{map-append}
use kb_1_daemon.VaultCore.Path.{Platform}
use kb_1_daemon.VaultCore.FileHistory.{FileHistoryEntry, Host}
use kb_1_daemon.VaultCore.FileHistory.Committed.{
  HistoryLogRecord, CommittedHistoryRecord, HistoryCommitScope, unmatched, matched, is_create,
  log_records, Found, nothing_found, Turn, next_record, return_entries, next_segment,
  history_marker_path, records_of_output, read_history_log_segment, add_entry, follow, visit_scope,
  visit_entry, visit, take_turn, scan_records, after_scan, read_segments, read_committed_history,
}

abbrev pub IsDistinct : List Text → Type 0
IsDistinct [] = Unit
IsDistinct (x ∷ xs) = All (λ y. y ≢ x) xs × IsDistinct xs

IsDistinct-append :
    (xs : List Text) (y : Text) → IsDistinct xs → All (λ x. x ≢ y) xs → IsDistinct (xs ++ y ∷ [])
IsDistinct-append [] y d n = (tt, tt)
IsDistinct-append (x ∷ xs) y (f, d) (n, ns) =
    (All-append (λ z. z ≢ x) xs (y ∷ []) f ((λ e. n (sym e)), tt), IsDistinct-append xs y d ns)

any-All : (y : Text) (xs : List Text) → any (text_eq y) xs ≡ false → All (λ x. x ≢ y) xs
any-All y [] h = tt
any-All y (x ∷ xs) h =
    ((λ e. absurd (ground (arith, e, h, text_eq_iff y x))), any-All y xs (ground arith))

abbrev commit_ids : List CommittedHistoryRecord → List Text
commit_ids = map (λ c. c.commit_id)

abbrev IsEarlier : CommittedHistoryRecord → Type 0
IsEarlier c = is_create c.entry.operation ≡ false

-- Only the last one may be the creation of the note.
abbrev pub IsUntilCreation : List CommittedHistoryRecord → Type 0
IsUntilCreation [] = Unit
IsUntilCreation (c ∷ []) = Unit
IsUntilCreation (c ∷ d ∷ cs) = IsEarlier c × IsUntilCreation (d ∷ cs)

until-All : (cs : List CommittedHistoryRecord) → All IsEarlier cs → IsUntilCreation cs
until-All [] h = tt
until-All (c ∷ []) h = tt
until-All (c ∷ d ∷ cs) (e, h) = (e, until-All (d ∷ cs) h)

until-append :
    (cs : List CommittedHistoryRecord) (c : CommittedHistoryRecord)
    → All IsEarlier cs
    → IsUntilCreation (cs ++ c ∷ [])
until-append [] c h = tt
until-append (b ∷ []) c (e, h) = (e, tt)
until-append (b ∷ d ∷ cs) c (e, h) = (e, until-append (d ∷ cs) c h)

-- No commit twice, and nothing after the creation.
pub record IsHistory (cs : List CommittedHistoryRecord) : Type 0 where
  pub distinct : IsDistinct (commit_ids cs)
  pub until_creation : IsUntilCreation cs

record IsOpen (w : Found) : Type 0 where
  seen : w.seen_commit_ids ≡ commit_ids w.entries
  distinct : IsDistinct (commit_ids w.entries)
  earlier : All IsEarlier w.entries

open-IsHistory : (w : Found) → IsOpen w → IsHistory w.entries
open-IsHistory w o = record {
  distinct = o.distinct;
  until_creation = until-All w.entries o.earlier;
}

abbrev IsTurn : Text → Found → Turn → Type 0
IsTurn id w next_record = IsOpen w
IsTurn id w return_entries = IsHistory w.entries
IsTurn id w (next_segment path revision) = IsOpen w × (revision ≡ id ++ text "^")

module _ (h : Host) (platform : Platform) (git_log : Text → Text → Option Text → Option Text) where
  IsDistinct-add :
      (w : Found) (c : CommittedHistoryRecord)
      → IsOpen w
      → any (text_eq c.commit_id) w.seen_commit_ids ≡ false
      → IsDistinct (commit_ids (w.entries ++ c ∷ []))
  IsDistinct-add w c o e =
      let fresh : All (λ x. x ≢ c.commit_id) (commit_ids w.entries) =
        any-All c.commit_id (commit_ids w.entries)
          (ap (any (text_eq c.commit_id)) (sym o.seen) ∙ e) in
      rw (map-append (λ (d : CommittedHistoryRecord). d.commit_id) w.entries (c ∷ []))
        (IsDistinct-append (commit_ids w.entries) c.commit_id o.distinct fresh)

  add-IsHistory :
      (current : Text) (r : HistoryLogRecord) (parsed : FileHistoryEntry) (w : Found)
      → IsOpen w
      → IsHistory (add_entry h platform git_log current r parsed w).entries
  add-IsHistory current r parsed w o =
      elim (Bool-cases (any (text_eq r.commit_id) w.seen_commit_ids)) [
        | inl e ↦ rw e (open-IsHistory w o)
        | inr e ↦ rw e (record {
          distinct = IsDistinct-add w _ o e;
          until_creation = until-append w.entries _ o.earlier;
        })
      ]

  add-IsOpen :
      (current : Text) (r : HistoryLogRecord) (parsed : FileHistoryEntry) (w : Found)
      → is_create parsed.operation ≡ false
      → IsOpen w
      → IsOpen (add_entry h platform git_log current r parsed w)
  add-IsOpen current r parsed w n o =
      elim (Bool-cases (any (text_eq r.commit_id) w.seen_commit_ids)) [
        | inl e ↦ rw e o
        | inr e ↦ rw e (record {
          seen =
              ap (λ l. l ++ r.commit_id ∷ []) o.seen
              ∙ sym (map-append (λ (d : CommittedHistoryRecord). d.commit_id) w.entries _);
          distinct = IsDistinct-add w _ o e;
          earlier = All-append IsEarlier w.entries _ o.earlier (n, tt);
        })
      ]

  follow-IsTurn :
      (r : HistoryLogRecord) (previous : Option Text) (w : Found)
      → IsOpen w
      → IsTurn r.commit_id w (follow h platform git_log r previous)
  follow-IsTurn r none w o = o
  follow-IsTurn r (some path) w o = (o, refl)

  visit_scope-IsTurn :
      (current : Text) (r : HistoryLogRecord) (parsed : FileHistoryEntry) (w : Found)
      (scope : HistoryCommitScope)
      → IsOpen w
      → let v = visit_scope h platform git_log current r parsed w scope in
        IsTurn r.commit_id v.0 v.1
  visit_scope-IsTurn current r parsed w unmatched o = o
  visit_scope-IsTurn current r parsed w (matched previous stops) o =
      elim (Bool-cases (is_create parsed.operation || stops)) [
        | inl e ↦ rw e (add-IsHistory current r parsed w o)
        | inr e ↦ rw e (follow-IsTurn r previous _ (add-IsOpen current r parsed w (ground arith) o))
      ]

  visit_entry-IsTurn :
      (current : Text) (r : HistoryLogRecord) (w : Found) (parsed : Option FileHistoryEntry)
      → IsOpen w
      → let v = visit_entry h platform git_log current r w parsed in IsTurn r.commit_id v.0 v.1
  visit_entry-IsTurn current r w none o = o
  visit_entry-IsTurn current r w (some parsed) o = visit_scope-IsTurn current r parsed w _ o

  visit-IsTurn :
      (rel current : Text) (r : HistoryLogRecord) (w : Found)
      → IsOpen w
      → let v = visit h platform git_log rel current r w in IsTurn r.commit_id v.0 v.1
  unfolding visit
  visit-IsTurn rel current r w o = visit_entry-IsTurn current r w _ o

  module _ (age : Text → ℕ) where
    abbrev IsYounger : ℕ → List HistoryLogRecord → Type 0
    IsYounger bound = All (λ r. age r.commit_id < bound)

    abbrev IsNext : ℕ → Found → Option (Text × Text) → Type 0
    IsNext bound w none = IsHistory w.entries
    IsNext bound w (some (path, revision)) =
        IsOpen w × ((c : Text) × (revision ≡ c ++ text "^") × (age c < bound))

    take_turn-IsNext :
        (bound : ℕ) (id : Text) (w : Found) (t : Turn) (later : Found × Option (Text × Text))
        → IsTurn id w t
        → age id < bound
        → (IsOpen w → IsNext bound later.0 later.1)
        → let s = take_turn h platform git_log (w, t) later in IsNext bound s.0 s.1
    take_turn-IsNext bound id w next_record later i y next = next i
    take_turn-IsNext bound id w return_entries later i y next = i
    take_turn-IsNext bound id w (next_segment path revision) later (o, e) y next = (o, (id, e, y))

    scan-IsNext :
        (bound : ℕ) (rel current : Text) (records : List HistoryLogRecord) (w : Found)
        → IsYounger bound records
        → IsOpen w
        → let s = scan_records h platform git_log rel current records w in IsNext bound s.0 s.1
    unfolding scan_records
    scan-IsNext bound rel current [] w y o = open-IsHistory w o
    scan-IsNext bound rel current (r ∷ records) w (y, ys) o =
        let v = visit h platform git_log rel current r w in
        take_turn-IsNext bound r.commit_id v.0 v.1 _ (visit-IsTurn rel current r w o) y
          (λ p. scan-IsNext bound rel current records v.0 ys p)

    module _
        (older : (path marker commit_id stdout : Text)
          → git_log path marker (some (commit_id ++ text "^")) ≡ some stdout
          → IsYounger (age commit_id) (log_records stdout)) where
      abbrev Returns : Option (List CommittedHistoryRecord) → Type 0
      Returns result = (cs : List CommittedHistoryRecord) × (result ≡ some cs) × IsHistory cs

      segment-IsYounger :
          (bound : ℕ) (output : Option Text) (records : List HistoryLogRecord)
          → ((stdout : Text) → output ≡ some stdout → IsYounger bound (log_records stdout))
          → records_of_output h platform git_log output ≡ some records
          → IsYounger bound records
      segment-IsYounger bound none records y e = absurd cc
      segment-IsYounger bound (some stdout) records y e =
          let same : log_records stdout ≡ records = cc in rw (sym same) (y stdout refl)

      after_scan-Returns :
          (again : Text → Text → Found → Option (List CommittedHistoryRecord)) (bound : ℕ)
          (w : Found) (next : Option (Text × Text))
          → IsNext bound w next
          → ((path c : Text) (found : Found)
              → age c < bound
              → IsOpen found
              → Returns (again path (c ++ text "^") found))
          → Returns (after_scan h platform git_log again (w, next))
      after_scan-Returns again bound w none i f = (w.entries, refl, i)
      after_scan-Returns again bound w (some (path, revision)) (o, (c, e, y)) f =
          rw e (f path c w y o)

      read_segments-Returns :
          (rounds bound : ℕ) (rel current : Text) (revision : Option Text) (w : Found)
          → bound < rounds
          → ((stdout : Text)
              → git_log current (history_marker_path h platform git_log current) revision
                ≡ some stdout
              → IsYounger bound (log_records stdout))
          → IsOpen w
          → Returns (read_segments h platform git_log rounds rel current revision w)
      unfolding read_segments read_history_log_segment
      read_segments-Returns zero bound rel current revision w b y o = absurd (omega arith)
      read_segments-Returns (suc rounds) bound rel current revision w b y o =
          let again : Text → Text → Found → Option (List CommittedHistoryRecord) =
            λ path next found. read_segments h platform git_log rounds rel path (some next) found in
          let output = git_log current (history_marker_path h platform git_log current) revision in
          elim (Option-cases (records_of_output h platform git_log output)) [
            | inl e ↦ rw e (w.entries, refl, open-IsHistory w o)
            | inr (records, e) ↦ rw e (
                after_scan-Returns again bound _ _
                  (scan-IsNext bound rel current records w
                    (segment-IsYounger bound output records y e) o)
                  (λ path c found smaller p.
                    read_segments-Returns rounds (age c) rel path (some (c ++ text "^")) found
                      (omega arith)
                      (λ stdout q.
                        older path (history_marker_path h platform git_log path) c stdout q)
                      p))
          ]

-- If Git logs for `c^` only commits of a smaller age than c, and no commit's age is above a bound, more
-- rounds than the bound are enough: the loops end, with a history in which no commit stands twice and
-- nothing follows the creation of the note.
pub read_committed_history-returns :
    (h : Host) (platform : Platform) (git_log : Text → Text → Option Text → Option Text)
    (age : Text → ℕ) (bound rounds : ℕ) (has_git_repository : Bool) (rel : Text)
    → ((path marker commit_id stdout : Text)
        → git_log path marker (some (commit_id ++ text "^")) ≡ some stdout
        → All (λ (r : HistoryLogRecord). age r.commit_id < age commit_id) (log_records stdout))
    → ((path marker stdout : Text)
        → git_log path marker none ≡ some stdout
        → All (λ (r : HistoryLogRecord). age r.commit_id < bound) (log_records stdout))
    → bound < rounds
    → (cs : List CommittedHistoryRecord) × (read_committed_history h platform git_log rounds
          has_git_repository rel
        ≡ some cs)
      × IsHistory cs
unfolding read_committed_history
read_committed_history-returns h platform git_log age bound rounds false rel older young b =
    ([], refl, record { distinct = tt; until_creation = tt })
read_committed_history-returns h platform git_log age bound rounds true rel older young b =
    read_segments-Returns h platform git_log age older rounds bound rel rel none nothing_found b
      (λ stdout e. young rel _ stdout e) (record { seen = refl; distinct = tt; earlier = tt })
