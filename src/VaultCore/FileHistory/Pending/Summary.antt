-- ===== src/VaultCore/FileHistory/Pending/Summary.antt =====
-- The summary of the changes of a note in a bucket, which the change by change merging comes to.
use kb_1_daemon.Prelude.{
  ◌≡◌, refl, sym, ap, ◌∙◌, inl, inr, Bool, true, false, ◌&&◌, ◌||◌, Bool-cases, List, [], ◌∷◌, ◌++◌,
  Option, none, some, Text, text, text_eq, text_eq_iff, utf8_length, any, All, if◌then◌else◌, arith,
  Result, ok, err,
}
use kb_1_daemon.VaultCore.Path.{Platform, file, InvalidPathError, validate_vault_path}
use kb_1_daemon.VaultCore.FileHistory.{
  VaultActor, FileHistoryOperation, create, update, move, rename, PendingHistoryEntry, Host,
}
use kb_1_daemon.VaultCore.FileHistory.Pending.{
  PendingHistoryMap, RecordFileHistoryInput, or_unknown, is_creation, bucket_of, add_contributor,
  merged, first_version, next_version, record_file_history,
}
use kb_1_daemon.VaultCore.FileHistory.Pending.Contributors.{
  contributors_of, first_of_each, contributors_of_lem,
}

module _ (h : Host) (platform : Platform) where
  -- The calls, one after the other.
  unfoldable pub record_all : List RecordFileHistoryInput → PendingHistoryMap → PendingHistoryMap
  record_all [] m = m
  record_all (input ∷ inputs) m = record_all inputs (record_file_history h platform input m).0

  abbrev pub is_in : Text → Text → Text → Result InvalidPathError Text → Bool
  is_in path bucket input_bucket (err e) = false
  is_in path bucket input_bucket (ok rel) = text_eq rel path && text_eq input_bucket bucket

  -- The changes of a note in a bucket.
  unfoldable pub changes_of :
      Text → Text → List RecordFileHistoryInput → List RecordFileHistoryInput
  changes_of path bucket [] = []
  changes_of path bucket (input ∷ inputs) =
      let later = changes_of path bucket inputs in
      if is_in path bucket (bucket_of h input) (validate_vault_path platform input.path file)
      then input ∷ later
      else later

  abbrev pub last_change :
      RecordFileHistoryInput → List RecordFileHistoryInput → RecordFileHistoryInput
  last_change input [] = input
  last_change input (next ∷ inputs) = last_change next inputs

  abbrev pub any_creation : List RecordFileHistoryInput → Bool
  any_creation inputs = any (λ (input : RecordFileHistoryInput). is_creation input.operation) inputs

  -- The summary of the changes: the id of the first, the content, the size, the hash and the time of the last,
  -- a creation if one of them is, the operation of the last else, and the contributors in the order of their
  -- first changes, each once.
  unfoldable pub summary : Text → Text → List RecordFileHistoryInput → Option PendingHistoryEntry
  summary path bucket [] = none
  summary path bucket (first ∷ inputs) =
      let last = last_change first inputs in
      some (record {
        id = text "pending-" ++ first.random_id;
        path = path;
        from_path = none;
        operation = if any_creation (first ∷ inputs) then create else last.operation;
        bucket_start = bucket;
        created_at = bucket;
        updated_at = h.iso last.now;
        content = last.content;
        size = utf8_length last.content;
        content_hash = h.hash_content last.content;
        content_hash_format = none;
        contributors = first_of_each h [] (first ∷ inputs);
      })

  merge_all : PendingHistoryEntry → List RecordFileHistoryInput → PendingHistoryEntry
  merge_all entry [] = entry
  merge_all entry (input ∷ inputs) = merge_all (merged h input entry) inputs

  unfoldable pub extend :
      Text → Option PendingHistoryEntry → List RecordFileHistoryInput → Option PendingHistoryEntry
  extend path entry [] = entry
  extend path entry (input ∷ inputs) = extend path (some (next_version h path input entry)) inputs

  -- The entry that a last change c leaves; `created` says whether there was a creation.
  abbrev version :
      Text → Text → Text → Bool → RecordFileHistoryInput → List VaultActor → PendingHistoryEntry
  version id path bucket created c actors = record {
    id = id;
    path = path;
    from_path = none;
    operation = if created then create else c.operation;
    bucket_start = bucket;
    created_at = bucket;
    updated_at = h.iso c.now;
    content = c.content;
    size = utf8_length c.content;
    content_hash = h.hash_content c.content;
    content_hash_format = none;
    contributors = actors;
  }

  creation_kept :
      (operation : FileHistoryOperation)
      → (if is_creation operation then create else operation) ≡ operation
  creation_kept create = refl
  creation_kept update = refl
  creation_kept move = refl
  creation_kept rename = refl

  merged_operation :
      (created : Bool) (old new : FileHistoryOperation)
      → (created || is_creation old) ≡ created
      → (if is_creation (if created then create else old) then create else new)
        ≡ (if created || is_creation new then create else new)
  merged_operation true old new k = refl
  merged_operation false old new k = rw k (sym (creation_kept new))

  merged-version :
      (id path bucket : Text) (created : Bool) (c d : RecordFileHistoryInput)
      (actors : List VaultActor)
      → (created || is_creation c.operation) ≡ created
      → merged h d (version id path bucket created c actors)
        ≡ version id path bucket
            (created || is_creation d.operation)
            d
            (add_contributor h actors (or_unknown d.actor))
  merged-version id path bucket created c d actors k =
      ap
        (λ o.
          record (version id path bucket created d
            (add_contributor h actors (or_unknown d.actor))) { operation = o })
        (merged_operation created c.operation d.operation k)

  or_again : (a b : Bool) → ((a || b) || b) ≡ (a || b)
  or_again a b = ground arith

  or_assoc : (a b c : Bool) → ((a || b) || c) ≡ (a || (b || c))
  or_assoc a b c = ground arith

  or_false : (a : Bool) → a ≡ (a || false)
  or_false a = ground arith

  merge_all-version :
      (id path bucket : Text) (created : Bool) (c : RecordFileHistoryInput)
      (actors : List VaultActor) (cs : List RecordFileHistoryInput)
      → (created || is_creation c.operation) ≡ created
      → merge_all (version id path bucket created c actors) cs
        ≡ version id path bucket
            (created || any_creation cs)
            (last_change c cs)
            (contributors_of h actors cs)
  unfolding merge_all
  merge_all-version id path bucket created c actors [] k =
      ap (λ b. version id path bucket b c actors) (or_false created)
  merge_all-version id path bucket created c actors (d ∷ cs) k =
      ap (λ e. merge_all e cs) (merged-version id path bucket created c d actors k)
      ∙ merge_all-version id path bucket (created || is_creation d.operation) d _ cs
          (or_again created (is_creation d.operation))
      ∙ ap
          (λ b.
            version id path bucket b (last_change d cs)
              (contributors_of h (add_contributor h actors (or_unknown d.actor)) cs))
          (or_assoc created (is_creation d.operation) (any_creation cs))

  extend-some :
      (path : Text) (e : PendingHistoryEntry) (cs : List RecordFileHistoryInput)
      → extend path (some e) cs ≡ some (merge_all e cs)
  unfolding extend merge_all
  extend-some path e [] = refl
  extend-some path e (c ∷ cs) = extend-some path (merged h c e) cs

  pub extend-summary :
      (path bucket : Text) (cs : List RecordFileHistoryInput)
      → All (λ c. bucket_of h c ≡ bucket) cs
      → extend path none cs ≡ summary path bucket cs
  unfolding extend summary
  extend-summary path bucket [] b = refl
  extend-summary path bucket (c ∷ cs) (b, bs) =
      let id = text "pending-" ++ c.random_id in
      let actors = or_unknown c.actor ∷ [] in
      let created = is_creation c.operation in
      extend-some path (first_version h path c) cs
      ∙ ap (λ o. some (merge_all (record (first_version h path c) { operation = o }) cs))
          (sym (creation_kept c.operation))
      ∙ ap (λ k. some (merge_all (version id path k created c actors) cs)) b
      ∙ ap some (merge_all-version id path bucket created c actors cs (ground arith))
      ∙ ap (λ l. some (version id path bucket (created || any_creation cs) (last_change c cs) l))
          (contributors_of_lem h c cs)

  pub changes-bucket :
      (path bucket : Text) (inputs : List RecordFileHistoryInput)
      → All (λ c. bucket_of h c ≡ bucket) (changes_of path bucket inputs)
  unfolding changes_of
  changes-bucket path bucket [] = tt
  changes-bucket path bucket (c ∷ inputs) =
      elim (Bool-cases
        (is_in path bucket (bucket_of h c) (validate_vault_path platform c.path file))) [
          | inl e ↦ rw e (
            in_bucket (validate_vault_path platform c.path file) (bucket_of h c) e,
            changes-bucket path bucket inputs,
          )
          | inr e ↦ rw e (changes-bucket path bucket inputs)
        ]
    where
      in_bucket :
          (r : Result InvalidPathError Text) (b : Text) → is_in path bucket b r ≡ true → b ≡ bucket
      in_bucket (err x) b e = absurd (ground (arith, e))
      in_bucket (ok rel) b e = ground (arith, text_eq_iff b bucket)
