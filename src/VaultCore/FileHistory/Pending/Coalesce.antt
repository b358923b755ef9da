-- ===== src/VaultCore/FileHistory/Pending/Coalesce.antt =====
-- What stands pending after any changes, against a summary of the changes that fell into one bucket.
use kb_1_daemon.Prelude.{
  ℕ, ◌≡◌, refl, ap, ap₂, ◌∙◌, inl, inr, false, ◌&&◌, Bool-cases, List, [], ◌∷◌, ◌++◌, some, Text,
  text_eq, text_eq_iff, text_eq→eq, &&-true, Lacks, ◌==◌, if◌then◌else◌, get_entry,
  get_entry-set_entry, arith, Result, ok, err,
}
use kb_1_daemon.VaultCore.Path.{Platform, file, InvalidPathError, validate_vault_path}
use kb_1_daemon.VaultCore.FileHistory.{Host}
use kb_1_daemon.VaultCore.FileHistory.Pending.{
  PendingHistoryMap, get_pending, RecordFileHistoryInput, pending_key, bucket_of, bucket_start_iso,
  normalize_bucket_window_ms, next_version, record_version, record_if_valid, record_file_history,
}
use kb_1_daemon.VaultCore.FileHistory.Pending.Summary.{
  record_all, is_in, changes_of, summary, extend, extend-summary, changes-bucket,
}

-- A NUL ends the path, so that a key has one path and one bucket.
no_nul : (s b t : Text) → Lacks 0 s → text_eq s (b ++ 0 ∷ t) ≡ false
no_nul [] [] t h = refl
no_nul [] (d ∷ b) t h = refl
no_nul (c ∷ s) [] t (n, h) = ground arith
no_nul (c ∷ s) (d ∷ b) t (n, h) = ground (arith, no_nul s b t h)

nul_first : (s b t : Text) → Lacks 0 s → text_eq (b ++ 0 ∷ t) s ≡ false
nul_first [] [] t h = refl
nul_first [] (d ∷ b) t h = refl
nul_first (c ∷ s) [] t (n, h) = ground arith
nul_first (c ∷ s) (d ∷ b) t (n, h) = ground (arith, nul_first s b t h)

key_eq :
    (a b s t : Text)
    → Lacks 0 s
    → Lacks 0 t
    → text_eq (pending_key a s) (pending_key b t) ≡ (text_eq a b && text_eq s t)
key_eq [] [] s t h k = refl
key_eq [] (d ∷ b) s t h k = ground (arith, no_nul s b t h)
key_eq (c ∷ a) [] s t h k = ground (arith, nul_first t a s k)
key_eq (c ∷ a) (d ∷ b) s t h k = ground (arith, key_eq a b s t h k)

module _ (h : Host) (platform : Platform) (no_nul_in_iso : (t : ℕ) → Lacks 0 (h.iso t)) where
  bucket-Lacks : (c : RecordFileHistoryInput) → Lacks 0 (bucket_of h c)
  unfolding bucket_start_iso
  bucket-Lacks c = elim (Bool-cases (normalize_bucket_window_ms c.coalesce_window_ms == 0)) [
    | inl e ↦ rw e (no_nul_in_iso _)
    | inr e ↦ rw e (no_nul_in_iso _)
  ]

  get-recorded :
      (path bucket : Text) (c : RecordFileHistoryInput) (m : PendingHistoryMap)
      (r : Result InvalidPathError Text)
      → Lacks 0 bucket
      → get_pending (pending_key path bucket) (record_if_valid h c m r).0 ≡ (
          if is_in h platform path bucket (bucket_of h c) r
          then some (next_version h path c (get_pending (pending_key path bucket) m))
          else get_pending (pending_key path bucket) m)
  unfolding record_version
  get-recorded path bucket c m (err x) l = refl
  get-recorded path bucket c m (ok rel) l =
      let at = bucket_of h c in
      let key = pending_key rel at in
      let same = key_eq rel path at bucket (bucket-Lacks c) l in
      let put =
        get_entry-set_entry text_eq text_eq_iff (pending_key path bucket) key
          (next_version h rel c (get_pending key m)) m in
      elim (Bool-cases (text_eq rel path && text_eq at bucket)) [
        | inl e ↦
            let p : rel ≡ path = text_eq→eq rel path (&&-true _ _ e).0 in
            let b : at ≡ bucket = text_eq→eq at bucket (&&-true _ _ e).1 in
            rw e (
              put
              ∙ ap
                  (λ t.
                    if t
                    then some (next_version h rel c (get_pending key m))
                    else get_pending (pending_key path bucket) m)
                  (same ∙ e)
              ∙ ap₂ (λ q k. some (next_version h q c (get_pending (pending_key q k) m))) p b)
        | inr e ↦ rw e (
            put
            ∙ ap
                (λ t.
                  if t
                  then some (next_version h rel c (get_pending key m))
                  else get_pending (pending_key path bucket) m)
                (same ∙ e))
      ]

  record-get :
      (path bucket : Text) (c : RecordFileHistoryInput) (m : PendingHistoryMap)
      → Lacks 0 bucket
      → get_pending (pending_key path bucket) (record_file_history h platform c m).0 ≡ (
          if is_in h platform path bucket (bucket_of h c) (validate_vault_path platform c.path file)
          then some (next_version h path c (get_pending (pending_key path bucket) m))
          else get_pending (pending_key path bucket) m)
  unfolding record_file_history
  record-get path bucket c m l =
      get-recorded path bucket c m (validate_vault_path platform c.path file) l

  record_all-extend :
      (path bucket : Text) (inputs : List RecordFileHistoryInput) (m : PendingHistoryMap)
      → Lacks 0 bucket
      → get_pending (pending_key path bucket) (record_all h platform inputs m)
        ≡ extend h platform path
            (get_pending (pending_key path bucket) m)
            (changes_of h platform path bucket inputs)
  unfolding record_all changes_of extend
  record_all-extend path bucket [] m l = refl
  record_all-extend path bucket (c ∷ inputs) m l =
      let test =
        is_in h platform path bucket (bucket_of h c) (validate_vault_path platform c.path file) in
      let step = record-get path bucket c m l in
      elim (Bool-cases test) [
        | inl e ↦ rw e (
            record_all-extend path bucket inputs _ l
            ∙ ap (λ o. extend h platform path o (changes_of h platform path bucket inputs))
                (step ∙ rw e))
        | inr e ↦ rw e (
            record_all-extend path bucket inputs _ l
            ∙ ap (λ o. extend h platform path o (changes_of h platform path bucket inputs))
                (step ∙ rw e))
      ]

-- If the texts that `toISOString` gives have no NUL: after any calls of `recordFileHistory`, what is pending
-- for a note and a bucket is the summary of the valid calls for that note in that bucket.
pub record_all-summary :
    (h : Host) (platform : Platform) (path bucket : Text) (inputs : List RecordFileHistoryInput)
    → ((t : ℕ) → Lacks 0 (h.iso t))
    → Lacks 0 bucket
    → get_pending (pending_key path bucket) (record_all h platform inputs [])
      ≡ summary h platform path bucket (changes_of h platform path bucket inputs)
unfolding get_entry
record_all-summary h platform path bucket inputs n l =
    record_all-extend h platform n path bucket inputs [] l
    ∙ extend-summary h platform path bucket (changes_of h platform path bucket inputs)
        (changes-bucket h platform path bucket inputs)
