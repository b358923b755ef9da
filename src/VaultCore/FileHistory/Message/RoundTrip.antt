-- ===== src/VaultCore/FileHistory/Message/RoundTrip.antt =====
-- A version is read from its commit as it was written.
use mathlib.Core.List.{map-append}
use kb_1_daemon.Prelude.{
  ℕ, ◌≡◌, refl, ap, ap₂, ◌∙◌, inl, inr, false, Bool-cases, List, [], ◌∷◌, ◌++◌, map, Option, none,
  some, Text, text, text_eq, All, trim_start,
}
use kb_1_daemon.VaultCore.FileHistory.{
  VaultActor, FileHistoryOperation, create, update, move, rename, FileHistoryEntry,
  PendingHistoryEntry, Host, operation_text, file_history_operation, actor_of_value,
  parse_actor_json, actor_for_contributors,
}
use kb_1_daemon.VaultCore.FileHistory.Message.{
  Trailer, has_line_break, path_trailers, from_trailers, format_trailers, contributor_trailer,
  bucket_end, trailers, commit_message, commit_values, value_of, values_of, given, legacy_path,
  json_path, path_value, commit_path_value, keep_actors, some_actors, entry_from_commit_values,
}
use kb_1_daemon.VaultCore.FileHistory.Message.Trailers.{trimmed}
use kb_1_daemon.VaultCore.FileHistory.Message.Readable.{
  IsReadable, IsPath, IsActor, IsOptional, IsValue,
}
use kb_1_daemon.VaultCore.FileHistory.Message.Lines.{message_text, commit_values-message}
use kb_1_daemon.VaultCore.FileHistory.Message.Actors.{operation-operation_text, actor_of_parts}

module _ (h : Host) where
  -- Keys that the trailers of a path do not have are looked up behind them.
  skip_path :
      (key path_key path : Text) (rest : List Trailer)
      → text_eq (path_key ++ text "-JSON") key ≡ false
      → text_eq path_key key ≡ false
      → value_of key (map trimmed (path_trailers h path_key path) ++ rest) ≡ value_of key rest
  unfolding value_of
  skip_path key path_key path rest j k = elim (Bool-cases (has_line_break path)) [
    | inl e ↦ rw (e, j) refl
    | inr e ↦ rw (e, j, k) refl
  ]

  skip_path-all :
      (key path_key path : Text) (rest : List Trailer)
      → text_eq (path_key ++ text "-JSON") key ≡ false
      → text_eq path_key key ≡ false
      → values_of key (map trimmed (path_trailers h path_key path) ++ rest) ≡ values_of key rest
  unfolding values_of
  skip_path-all key path_key path rest j k = elim (Bool-cases (has_line_break path)) [
    | inl e ↦ rw (e, j) refl
    | inr e ↦ rw (e, j, k) refl
  ]

  skip_from :
      (key : Text) (from : Option Text) (rest : List Trailer)
      → text_eq (text "KB1-From-Path-JSON") key ≡ false
      → text_eq (text "KB1-From-Path") key ≡ false
      → value_of key (map trimmed (from_trailers h from) ++ rest) ≡ value_of key rest
  skip_from key none rest j k = refl
  skip_from key (some path) rest j k = skip_path key (text "KB1-From-Path") path rest j k

  skip_from-all :
      (key : Text) (from : Option Text) (rest : List Trailer)
      → text_eq (text "KB1-From-Path-JSON") key ≡ false
      → text_eq (text "KB1-From-Path") key ≡ false
      → values_of key (map trimmed (from_trailers h from) ++ rest) ≡ values_of key rest
  skip_from-all key none rest j k = refl
  skip_from-all key (some path) rest j k = skip_path-all key (text "KB1-From-Path") path rest j k

  no_contributor :
      (key : Text) (actors : List VaultActor)
      → text_eq (text "KB1-Contributor") key ≡ false
      → value_of key (map trimmed (map (contributor_trailer h) actors)) ≡ none
  unfolding value_of
  no_contributor key [] k = refl
  no_contributor key (a ∷ actors) k = rw k (no_contributor key actors k)

  contributors_read :
      (actors : List VaultActor)
      → All (IsActor h) actors
      → keep_actors (
          map
            (parse_actor_json h)
            (values_of (text "KB1-Contributor") (map trimmed (map (contributor_trailer h) actors))))
        ≡ actors
  unfolding values_of parse_actor_json
  contributors_read [] i = refl
  contributors_read (a ∷ actors) (i, is) =
      ap
        (λ s. keep_actors (
          actor_of_value (h.parse s)
          ∷ map (parse_actor_json h) (
              values_of (text "KB1-Contributor")
                (map trimmed (map (contributor_trailer h) actors)))))
        i.json.not_padded
      ∙ ap
          (λ v. keep_actors (
            actor_of_value v
            ∷ map (parse_actor_json h) (
                values_of (text "KB1-Contributor")
                  (map trimmed (map (contributor_trailer h) actors)))))
          i.parses
      ∙ ap
          (λ o. keep_actors (
            o
            ∷ map (parse_actor_json h) (
                values_of (text "KB1-Contributor")
                  (map trimmed (map (contributor_trailer h) actors)))))
          (actor_of_parts a.kind a.id a.name a.client)
      ∙ ap (λ l. a ∷ l) (contributors_read actors is)

  module _ (e : PendingHistoryEntry) (now : Option ℕ) (r : IsReadable h e now) where
    -- The trailers that every message has, and the last ones.
    abbrev last_trailers : List Trailer
    last_trailers =
        map trimmed
          (format_trailers h e.content_hash_format ++ map (contributor_trailer h) e.contributors)

    abbrev fixed_trailers : List Trailer
    fixed_trailers =
        (text "KB1-Operation", trim_start (operation_text e.operation))
        ∷ (text "KB1-History-ID", trim_start e.id)
        ∷ (text "KB1-Bucket-Start", trim_start e.bucket_start)
        ∷ (text "KB1-Bucket-End", trim_start (bucket_end h e now))
        ∷ (text "KB1-Size", trim_start (h.decimal e.size))
        ∷ (text "KB1-Content-SHA256", trim_start e.content_hash)
        ∷ last_trailers

    shape :
        map trimmed (trailers h e now)
        ≡ map trimmed (path_trailers h (text "KB1-Path") e.path)
          ++ (map trimmed (from_trailers h e.from_path) ++ fixed_trailers)
    shape =
        map-append trimmed (path_trailers h (text "KB1-Path") e.path) _
        ∙ ap (λ l. map trimmed (path_trailers h (text "KB1-Path") e.path) ++ l)
            (map-append trimmed (from_trailers h e.from_path) _)

    value_behind :
        (key : Text)
        → text_eq (text "KB1-Path-JSON") key ≡ false
        → text_eq (text "KB1-Path") key ≡ false
        → text_eq (text "KB1-From-Path-JSON") key ≡ false
        → text_eq (text "KB1-From-Path") key ≡ false
        → value_of key (map trimmed (trailers h e now)) ≡ value_of key fixed_trailers
    value_behind key a b c d =
        ap (value_of key) shape
        ∙ skip_path key (text "KB1-Path") e.path _ a b
        ∙ skip_from key e.from_path fixed_trailers c d

    path_read :
        commit_path_value h (map trimmed (trailers h e now)) (text "KB1-Path") ≡ given e.path
    unfolding commit_path_value value_of
    path_read = ap (λ s. json_path (h.parse s)) r.path.json.not_padded ∙ ap json_path r.path.parses

  format_read :
      (format : Option Text) (actors : List VaultActor)
      → IsOptional IsValue format
      → value_of
          (text "KB1-Content-Hash-Format")
          (map trimmed (format_trailers h format ++ map (contributor_trailer h) actors))
        ≡ format
  unfolding value_of
  format_read none actors i = no_contributor (text "KB1-Content-Hash-Format") actors refl
  format_read (some format) actors i = ap some i.not_padded

  format_skipped :
      (format : Option Text) (actors : List VaultActor)
      → values_of
          (text "KB1-Contributor")
          (map trimmed (format_trailers h format ++ map (contributor_trailer h) actors))
        ≡ values_of (text "KB1-Contributor") (map trimmed (map (contributor_trailer h) actors))
  unfolding values_of
  format_skipped none actors = refl
  format_skipped (some format) actors = refl

  no_other :
      (key : Text) (format : Option Text) (actors : List VaultActor)
      → text_eq (text "KB1-Content-Hash-Format") key ≡ false
      → text_eq (text "KB1-Contributor") key ≡ false
      → value_of key (map trimmed (format_trailers h format ++ map (contributor_trailer h) actors))
        ≡ none
  unfolding value_of
  no_other key none actors j k = no_contributor key actors k
  no_other key (some format) actors j k = rw j (no_contributor key actors k)

  from_path_read :
      (from : Option Text) (rest : List Trailer)
      → IsOptional (IsPath h) from
      → value_of (text "KB1-From-Path-JSON") rest ≡ none
      → value_of (text "KB1-From-Path") rest ≡ none
      → commit_path_value h (map trimmed (from_trailers h from) ++ rest) (text "KB1-From-Path")
        ≡ legacy_path from
  unfolding commit_path_value value_of
  from_path_read none rest i a b = rw (a, b) refl
  from_path_read (some path) rest i a b =
      ap (λ s. json_path (h.parse s)) i.json.not_padded ∙ ap json_path i.parses

  from_read :
      (e : PendingHistoryEntry) (now : Option ℕ) (r : IsReadable h e now)
      → commit_path_value h (map trimmed (trailers h e now)) (text "KB1-From-Path")
        ≡ legacy_path e.from_path
  unfolding commit_path_value value_of
  from_read e now r =
      ap (λ v. commit_path_value h v (text "KB1-From-Path")) (shape e now r)
      ∙ ap₂ (path_value h)
          (skip_path (text "KB1-From-Path-JSON") (text "KB1-Path") e.path _ refl refl)
          (skip_path (text "KB1-From-Path") (text "KB1-Path") e.path _ refl refl)
      ∙ from_path_read e.from_path (fixed_trailers e now r) r.from_path
          (no_other (text "KB1-From-Path-JSON") e.content_hash_format e.contributors refl refl)
          (no_other (text "KB1-From-Path") e.content_hash_format e.contributors refl refl)

  operation-not_padded :
      (operation : FileHistoryOperation)
      → trim_start (operation_text operation) ≡ operation_text operation
  unfolding trim_start
  operation-not_padded create = refl
  operation-not_padded update = refl
  operation-not_padded move = refl
  operation-not_padded rename = refl

  -- The entry from the values that it needs.
  entry_of_values :
      (rel commit_id committed_at : Text) (values : List Trailer)
      (op id start finish size hash : Text) (operation : FileHistoryOperation) (n : ℕ)
      (actors : List VaultActor)
      → value_of (text "KB1-Operation") values ≡ some op
      → file_history_operation op ≡ some operation
      → value_of (text "KB1-History-ID") values ≡ some id
      → value_of (text "KB1-Bucket-Start") values ≡ some start
      → value_of (text "KB1-Bucket-End") values ≡ some finish
      → value_of (text "KB1-Size") values ≡ some size
      → h.number_value size ≡ some n
      → value_of (text "KB1-Content-SHA256") values ≡ some hash
      → keep_actors (map (parse_actor_json h) (values_of (text "KB1-Contributor") values)) ≡ actors
      → entry_from_commit_values h rel commit_id committed_at values
        ≡ some (record {
          id = id;
          path = rel;
          operation = operation;
          actor = actor_for_contributors h actors;
          integration_id = (actor_for_contributors h actors).client;
          contributors = some_actors actors;
          pending = false;
          commit_id = some commit_id;
          created_at = start;
          updated_at = finish;
          size = n;
          content_hash = hash;
        })
  unfolding entry_from_commit_values
  entry_of_values rel commit_id committed_at values op id start finish size hash operation n actors
        a b c d e f g i j =
      rw (a, b, c, d, e, f, g, i, j) refl

  -- The entry of a readable version, as it is read from its commit for the path `rel`.
  abbrev pub version_of : PendingHistoryEntry → Option ℕ → Text → Text → FileHistoryEntry
  version_of e now rel commit_id = record {
    id = e.id;
    path = rel;
    operation = e.operation;
    actor = actor_for_contributors h e.contributors;
    integration_id = (actor_for_contributors h e.contributors).client;
    contributors = some_actors e.contributors;
    pending = false;
    commit_id = some commit_id;
    created_at = e.bucket_start;
    updated_at = bucket_end h e now;
    size = e.size;
    content_hash = e.content_hash;
  }

  -- For an entry whose texts stand on a line each and whose JSON texts parse to what they were made from:
  -- from the message of its commit, the version is read with its id, operation, contributors, times,
  -- size and hash, and the path, the path that it was moved from and the hash format are read as they were.
  pub read-commit_message :
      (e : PendingHistoryEntry) (now : Option ℕ) (rel commit_id committed_at : Text)
      → IsReadable h e now
      → let values = commit_values (message_text (commit_message h e now)) in
        (entry_from_commit_values h rel commit_id committed_at values
          ≡ some (version_of e now rel commit_id))
        × (commit_path_value h values (text "KB1-Path") ≡ given e.path)
        × (commit_path_value h values (text "KB1-From-Path") ≡ legacy_path e.from_path)
        × (value_of (text "KB1-Content-Hash-Format") values ≡ e.content_hash_format)
  unfolding value_of values_of
  read-commit_message e now rel commit_id committed_at r =
      let written = map trimmed (trailers h e now) in
      let same = commit_values-message h e now r in
      let behind = value_behind e now r in
      let read : entry_from_commit_values h rel commit_id committed_at written
          ≡ some (version_of e now rel commit_id) =
        entry_of_values rel commit_id committed_at written (operation_text e.operation) e.id
          e.bucket_start (bucket_end h e now) (h.decimal e.size) e.content_hash e.operation e.size
          e.contributors
          (behind (text "KB1-Operation") refl refl refl refl
            ∙ ap some (operation-not_padded e.operation))
          (operation-operation_text e.operation)
          (behind (text "KB1-History-ID") refl refl refl refl ∙ ap some r.id.not_padded)
          (behind (text "KB1-Bucket-Start") refl refl refl refl ∙ ap some r.bucket_start.not_padded)
          (behind (text "KB1-Bucket-End") refl refl refl refl ∙ ap some r.bucket_end.not_padded)
          (behind (text "KB1-Size") refl refl refl refl ∙ ap some r.size.not_padded) r.number
          (behind (text "KB1-Content-SHA256") refl refl refl refl
            ∙ ap some r.content_hash.not_padded)
          (ap (λ l. keep_actors (map (parse_actor_json h) l))
              (ap (values_of (text "KB1-Contributor")) (shape e now r)
                ∙ skip_path-all (text "KB1-Contributor") (text "KB1-Path") e.path _ refl refl
                ∙ skip_from-all (text "KB1-Contributor") e.from_path _ refl refl
                ∙ format_skipped e.content_hash_format e.contributors)
            ∙ contributors_read e.contributors r.contributors) in
      let from : commit_path_value h written (text "KB1-From-Path") ≡ legacy_path e.from_path =
        from_read e now r in
      (
        ap (entry_from_commit_values h rel commit_id committed_at) same ∙ read,
        ap (λ v. commit_path_value h v (text "KB1-Path")) same ∙ path_read e now r,
        ap (λ v. commit_path_value h v (text "KB1-From-Path")) same ∙ from,
        ap (value_of (text "KB1-Content-Hash-Format")) same
            ∙ behind (text "KB1-Content-Hash-Format") refl refl refl refl
            ∙ format_read e.content_hash_format e.contributors r.format,
      )
