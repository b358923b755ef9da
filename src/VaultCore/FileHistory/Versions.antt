-- ===== src/VaultCore/FileHistory/Versions.antt =====
-- `readFileHistoryVersion`: the content of one version of a note.
-- What `readCommittedHistory` gives for a path is an argument: Committed.antt has it, with rounds that are enough.
use kb_1_daemon.Prelude.{
  ◌≡◌, refl, sym, ap, ◌∙◌, ◌⊎◌, inl, inr, Bool, true, false, ◌&&◌, Bool-cases, List, [], ◌∷◌,
  Option, none, some, Text, text_eq, text_eq→eq, &&-true, length, ltb, if◌then◌else◌, arith, Result,
  ok, err,
}
use kb_1_daemon.VaultCore.Path.{Platform, file, InvalidPathError, validate_vault_path}
use kb_1_daemon.VaultCore.FileHistory.{FileHistoryEntry, PendingHistoryEntry, Host}
use kb_1_daemon.VaultCore.FileHistory.Committed.{CommittedHistoryRecord}
use kb_1_daemon.VaultCore.FileHistory.Pending.{PendingHistoryMap, pending_entry_to_history_entry}
use kb_1_daemon.VaultCore.FileHistory.Git.{git_blob_content_hash_format}

pub record FileHistoryVersion : Type 0 where
  pub entry : FileHistoryEntry
  pub content : Option Text

-- The content is available if it is there.
pub data ReadVersionError : Type 0 where
  invalid_path : InvalidPathError → ReadVersionError
  not_found : ReadVersionError

abbrev pub VersionResult : Type 0
VersionResult = Result ReadVersionError FileHistoryVersion

unfoldable pub find_pending : Text → Text → PendingHistoryMap → Option PendingHistoryEntry
find_pending rel id [] = none
find_pending rel id ((key, e) ∷ pending) =
    if text_eq e.path rel && text_eq e.id id then some e else find_pending rel id pending

unfoldable pub find_committed : Text → List CommittedHistoryRecord → Option CommittedHistoryRecord
find_committed id [] = none
find_committed id (c ∷ committed) =
    if text_eq c.entry.id id then some c else find_committed id committed

some_if : (b : Bool) (x y : Text) → (if b then some x else none) ≡ some y → (b ≡ true) × (x ≡ y)
some_if true x y e = (refl, cc)
some_if false x y e = absurd cc

abbrev found_version : FileHistoryVersion → VersionResult
found_version v = ok v

ok_inj : (v w : FileHistoryVersion) → found_version v ≡ ok w → v ≡ w
ok_inj v w e = cc

find_pending-parts :
    (rel id : Text) (m : PendingHistoryMap) (e : PendingHistoryEntry)
    → find_pending rel id m ≡ some e
    → (e.path ≡ rel) × (e.id ≡ id)
unfolding find_pending
find_pending-parts rel id [] e f = absurd cc
find_pending-parts rel id ((k, d) ∷ m) e f =
    elim (Bool-cases (text_eq d.path rel && text_eq d.id id)) [
      | inl b ↦
          let same : d ≡ e = ground arith in
          rw (sym same)
            (text_eq→eq d.path rel (&&-true _ _ b).0, text_eq→eq d.id id (&&-true _ _ b).1)
      | inr b ↦ find_pending-parts rel id m e (ground arith)
    ]

find_committed-id :
    (id : Text) (cs : List CommittedHistoryRecord) (c : CommittedHistoryRecord)
    → find_committed id cs ≡ some c
    → c.entry.id ≡ id
unfolding find_committed
find_committed-id id [] c f = absurd cc
find_committed-id id (d ∷ cs) c f = elim (Bool-cases (text_eq d.entry.id id)) [
  | inl b ↦ let same : d ≡ c = ground arith in rw (sym same) (text_eq→eq d.entry.id id b)
  | inr b ↦ find_committed-id id cs c (ground arith)
]

-- `git show`, which may fail, is an argument: for a commit and a path it prints the content.
module _ (h : Host) (platform : Platform) (pending : PendingHistoryMap)
    (committed_history : Text → List CommittedHistoryRecord)
    (git_show : Text → Text → Option Text) where
  abbrev pub is_verified : Text → Text → Text → Bool
  is_verified content format hash =
      text_eq format git_blob_content_hash_format
      && ltb 0 (length hash)
      && text_eq (h.hash_content content) hash

  abbrev pub verified_content : CommittedHistoryRecord → Text → Option Text → Option Text
  verified_content c content none = some content
  verified_content c content (some format) =
      if is_verified content format c.entry.content_hash then some content else none

  abbrev pub shown_content : CommittedHistoryRecord → Option Text → Option Text
  shown_content c none = none
  shown_content c (some content) = verified_content c content c.content_hash_format

  abbrev pub committed_version : Option CommittedHistoryRecord → VersionResult
  committed_version none = err not_found
  committed_version (some c) =
      ok (record {
        entry = c.entry;
        content = shown_content c (git_show c.commit_id c.content_path);
      })

  abbrev pub version_or_committed : Text → Text → Option PendingHistoryEntry → VersionResult
  version_or_committed rel id (some e) =
      ok (record { entry = pending_entry_to_history_entry h e; content = some e.content })
  version_or_committed rel id none = committed_version (find_committed id (committed_history rel))

  abbrev pub read_if_valid : Text → Result InvalidPathError Text → VersionResult
  read_if_valid id (err e) = err (invalid_path e)
  read_if_valid [] (ok rel) = err not_found
  read_if_valid (c ∷ id) (ok rel) =
      version_or_committed rel (c ∷ id) (find_pending rel (c ∷ id) pending)

  unfoldable pub read_file_history_version : Text → Text → VersionResult
  read_file_history_version path id = read_if_valid id (validate_vault_path platform path file)

  -- A pending version of the note, or a committed one whose content is what Git shows and, if the commit
  -- names a format, has the hash that the commit names.
  abbrev pub IsVersionOf : Text → Text → FileHistoryVersion → Text → Type 0
  IsVersionOf rel id v content =
      ((e : PendingHistoryEntry) × (find_pending rel id pending ≡ some e)
        × (e.path ≡ rel)
        × (e.id ≡ id)
        × (v.entry ≡ pending_entry_to_history_entry h e)
        × (content ≡ e.content))
      ⊎ ((c : CommittedHistoryRecord) × (find_committed id (committed_history rel) ≡ some c)
          × (c.entry.id ≡ id)
          × (v.entry ≡ c.entry)
          × (git_show c.commit_id c.content_path ≡ some content)
          × ((c.content_hash_format ≡ none)
              ⊎ ((c.content_hash_format ≡ some git_blob_content_hash_format)
                  × (h.hash_content content ≡ c.entry.content_hash))))

  verified_lem :
      (c : CommittedHistoryRecord) (shown content : Text) (format : Option Text)
      → verified_content c shown format ≡ some content
      → (shown ≡ content)
        × ((format ≡ none)
            ⊎ ((format ≡ some git_blob_content_hash_format)
                × (h.hash_content content ≡ c.entry.content_hash)))
  verified_lem c shown content none e = (cc, inl refl)
  verified_lem c shown content (some format) e =
      let (verified, same) =
        some_if (is_verified shown format c.entry.content_hash) shown content e in
      let facts =
        &&-true (text_eq format git_blob_content_hash_format && ltb 0 (length c.entry.content_hash))
          _ verified in
      (
        same,
        inr (
          ap some (text_eq→eq format git_blob_content_hash_format (&&-true _ _ facts.0).0),
          ap h.hash_content (sym same) ∙ text_eq→eq _ c.entry.content_hash facts.1,
        ),
      )

  shown_lem :
      (c : CommittedHistoryRecord) (o : Option Text) (content : Text)
      → shown_content c o ≡ some content
      → (o ≡ some content)
        × ((c.content_hash_format ≡ none)
            ⊎ ((c.content_hash_format ≡ some git_blob_content_hash_format)
                × (h.hash_content content ≡ c.entry.content_hash)))
  shown_lem c none content e = absurd cc
  shown_lem c (some shown) content e =
      let (same, checked) = verified_lem c shown content c.content_hash_format e in
      (ap some same, checked)

  committed_lem :
      (rel id content : Text) (v : FileHistoryVersion) (o : Option CommittedHistoryRecord)
      → find_committed id (committed_history rel) ≡ o
      → committed_version o ≡ ok v
      → v.content ≡ some content
      → IsVersionOf rel id v content
  committed_lem rel id content v none f e a = absurd cc
  committed_lem rel id content v (some c) f e a =
      let shown = shown_content c (git_show c.commit_id c.content_path) in
      let same : record { entry = c.entry; content = shown } ≡ v = ok_inj _ v e in
      let (seen, checked) =
        shown_lem c (git_show c.commit_id c.content_path) content (ap (λ w. w.content) same ∙ a) in
      inr (
        c,
        f,
        find_committed-id id (committed_history rel) c f,
        sym (ap (λ w. w.entry) same),
        seen,
        checked,
      )

  found_lem :
      (rel id content : Text) (v : FileHistoryVersion) (o : Option PendingHistoryEntry)
      → find_pending rel id pending ≡ o
      → version_or_committed rel id o ≡ ok v
      → v.content ≡ some content
      → IsVersionOf rel id v content
  found_lem rel id content v none f e a =
      committed_lem rel id content v (find_committed id (committed_history rel)) refl e a
  found_lem rel id content v (some p) f e a =
      let same : record { entry = pending_entry_to_history_entry h p; content = some p.content }
          ≡ v =
        ok_inj _ v e in
      let (at, named) = find_pending-parts rel id pending p f in
      let texts : some p.content ≡ some content = ap (λ w. w.content) same ∙ a in
      inl (p, f, at, named, sym (ap (λ w. w.entry) same), cc)

  read_if_valid_lem :
      (id rel content : Text) (v : FileHistoryVersion)
      → read_if_valid id (ok rel) ≡ ok v
      → v.content ≡ some content
      → IsVersionOf rel id v content
  read_if_valid_lem [] rel content v e a = absurd cc
  read_if_valid_lem (c ∷ id) rel content v e a =
      found_lem rel (c ∷ id) content v (find_pending rel (c ∷ id) pending) refl e a

-- A content that is given for an id is the one of the pending version of this note with this id, or what Git
-- shows for a committed version with this id in the note's history, and then it has the hash that the
-- commit names, unless the commit names no hash format.
pub read_file_history_version-IsVersionOf :
    (h : Host) (platform : Platform) (pending : PendingHistoryMap)
    (committed_history : Text → List CommittedHistoryRecord) (git_show : Text → Text → Option Text)
    (path rel id content : Text) (v : FileHistoryVersion)
    → validate_vault_path platform path file ≡ ok rel
    → read_file_history_version h platform pending committed_history git_show path id ≡ ok v
    → v.content ≡ some content
    → IsVersionOf h platform pending committed_history git_show rel id v content
unfolding read_file_history_version
read_file_history_version-IsVersionOf h platform pending committed git_show path rel id content v p
      e a =
    read_if_valid_lem h platform pending committed git_show id rel content v
      (ap (read_if_valid h platform pending committed git_show id) (sym p) ∙ e) a
