-- ===== src/VaultCore/FileHistory/Message/Lines.antt =====
-- The message is split into the lines that it was joined from.
use kb_1_daemon.Prelude.{
  ℕ, ◌≡◌, refl, ap, ◌∙◌, inl, inr, Bool-cases, List, [], ◌∷◌, ◌++◌, map, Option, none, some, Text,
  text, split-join, All, All-append, Lacks, trim_start,
}
use kb_1_daemon.VaultCore.FileHistory.{
  VaultActor, PendingHistoryEntry, Host, FileHistoryOperation, actor_label, operation_text, create,
  update, move, rename, truthy,
}
use kb_1_daemon.VaultCore.FileHistory.Message.{
  CommitMessage, Trailer, trailer_line, line_feed, has_line_break, commit_path_display,
  path_trailers, from_trailers, format_trailers, contributor_trailer, bucket_end, trailers,
  display_from, from_line, preamble, commit_message, trailer_head, is_key_unit, has_terminator,
  read_lines, strip_carriage_return, commit_values,
}
use kb_1_daemon.VaultCore.FileHistory.Message.Trailers.{
  IsTrailer, trimmed, read_lines-trailers, read_lines-preamble,
}
use kb_1_daemon.VaultCore.FileHistory.Message.Readable.{
  IsValue, IsOneLine, terminator-IsOneLine, break-IsOneLine, IsOneLine-append, IsPath, IsOptional,
  IsActor, IsReadable, strip_of_IsOneLine, IsGood, good, IsGood-value, IsGood-legacy, op_one,
}

module _ (h : Host) where
  path_trailers-IsGood :
      (path : Text) → IsPath h path → All IsGood (path_trailers h (text "KB1-Path") path)
  unfolding is_key_unit has_terminator
  path_trailers-IsGood path i = (
    IsGood-value b'P' (text "ath-JSON") _ refl refl i.json,
    IsGood-legacy b'P' (text "ath") path refl refl i.plain,
  )

  from_trailers-IsGood :
      (from : Option Text) → IsOptional (IsPath h) from → All IsGood (from_trailers h from)
  unfolding is_key_unit has_terminator
  from_trailers-IsGood none i = tt
  from_trailers-IsGood (some path) i = (
    IsGood-value b'F' (text "rom-Path-JSON") _ refl refl i.json,
    IsGood-legacy b'F' (text "rom-Path") path refl refl i.plain,
  )

  format_trailers-IsGood :
      (format : Option Text) → IsOptional IsValue format → All IsGood (format_trailers h format)
  unfolding is_key_unit has_terminator
  format_trailers-IsGood none i = tt
  format_trailers-IsGood (some format) i =
      (IsGood-value b'C' (text "ontent-Hash-Format") format refl refl i, tt)

  contributors-IsGood :
      (actors : List VaultActor)
      → All (IsActor h) actors
      → All IsGood (map (contributor_trailer h) actors)
  unfolding is_key_unit has_terminator
  contributors-IsGood [] i = tt
  contributors-IsGood (a ∷ actors) (i, is) =
      (IsGood-value b'C' (text "ontributor") _ refl refl i.json, contributors-IsGood actors is)

  operation-IsGood :
      (operation : FileHistoryOperation) → IsGood (text "KB1-Operation", operation_text operation)
  unfolding is_key_unit has_terminator trim_start
  operation-IsGood create = good b'O' (text "peration") _ refl refl refl (op_one create)
  operation-IsGood update = good b'O' (text "peration") _ refl refl refl (op_one update)
  operation-IsGood move = good b'O' (text "peration") _ refl refl refl (op_one move)
  operation-IsGood rename = good b'O' (text "peration") _ refl refl refl (op_one rename)

  trailers-IsGood :
      (e : PendingHistoryEntry) (now : Option ℕ)
      → IsReadable h e now
      → All IsGood (trailers h e now)
  unfolding is_key_unit has_terminator
  trailers-IsGood e now r =
      All-append IsGood (path_trailers h (text "KB1-Path") e.path) _
        (path_trailers-IsGood e.path r.path)
        (All-append IsGood (from_trailers h e.from_path) _
          (from_trailers-IsGood e.from_path r.from_path)
          (
            operation-IsGood e.operation,
            (
              IsGood-value b'H' (text "istory-ID") e.id refl refl r.id,
              (
                IsGood-value b'B' (text "ucket-Start") e.bucket_start refl refl r.bucket_start,
                (
                  IsGood-value b'B' (text "ucket-End") _ refl refl r.bucket_end,
                  (
                    IsGood-value b'S' (text "ize") _ refl refl r.size,
                    (
                      IsGood-value b'C' (text "ontent-SHA256") e.content_hash refl refl
                          r.content_hash,
                      All-append IsGood (format_trailers h e.content_hash_format) _
                          (format_trailers-IsGood e.content_hash_format r.format)
                          (contributors-IsGood e.contributors r.contributors),
                    ),
                  ),
                ),
              ),
            ),
          ))

  display-IsOneLine : (path : Text) → IsPath h path → IsOneLine (commit_path_display h path)
  unfolding commit_path_display
  display-IsOneLine path i = elim (Bool-cases (has_line_break path)) [
    | inl e ↦ rw e (terminator-IsOneLine _ i.json.one_line)
    | inr e ↦ rw e (break-IsOneLine path e)
  ]

  -- A line for a reader: one line, and no trailer.
  abbrev IsPlain : Text → Type 0
  IsPlain l = IsOneLine l × (trailer_head l ≡ none)

  labelled : (label s : Text) → IsOneLine label → IsOneLine s → IsOneLine (label ++ s)
  labelled label s = IsOneLine-append label s

  from_line-IsPlain : (d : Text) → IsOneLine d → All IsPlain (from_line h (truthy (some d)))
  unfolding trailer_head has_terminator
  from_line-IsPlain [] i = tt
  from_line-IsPlain (c ∷ d) i =
      ((labelled (text "From: ") (c ∷ d) (terminator-IsOneLine (text "From: ") refl) i, refl), tt)

  display_from-IsPlain :
      (from : Option Text)
      → IsOptional (IsPath h) from
      → All IsPlain (from_line h (display_from h from))
  display_from-IsPlain none i = tt
  display_from-IsPlain (some path) i =
      from_line-IsPlain (commit_path_display h path) (display-IsOneLine path i)

  labels-IsPlain :
      (actors : List VaultActor)
      → All (IsActor h) actors
      → All IsPlain (map (λ a. text "- " ++ actor_label a) actors)
  unfolding trailer_head has_terminator
  labels-IsPlain [] i = tt
  labels-IsPlain (a ∷ actors) (i, is) = (
    (labelled (text "- ") (actor_label a) (terminator-IsOneLine (text "- ") refl) i.label, refl),
    labels-IsPlain actors is,
  )

  preamble-IsPlain :
      (e : PendingHistoryEntry) (now : Option ℕ)
      → IsReadable h e now
      → All IsPlain (preamble h e now)
  unfolding trailer_head has_terminator
  preamble-IsPlain e now r = (
    (
      labelled (text "Path: ") _ (terminator-IsOneLine (text "Path: ") refl)
          (display-IsOneLine e.path r.path),
      refl,
    ),
    All-append IsPlain (from_line h (display_from h e.from_path)) _
        (display_from-IsPlain e.from_path r.from_path)
        (
          (
            IsOneLine-append (text "Bucket: " ++ e.bucket_start ++ text " - ") (bucket_end h e now)
                (IsOneLine-append (text "Bucket: " ++ e.bucket_start) (text " - ")
                  (labelled (text "Bucket: ") e.bucket_start
                    (terminator-IsOneLine (text "Bucket: ") refl)
                    (terminator-IsOneLine e.bucket_start r.bucket_start.one_line))
                  (terminator-IsOneLine (text " - ") refl))
                (terminator-IsOneLine _ r.bucket_end.one_line),
            refl,
          ),
          (
            ((tt, tt), refl),
            (
              (terminator-IsOneLine (text "Contributors:") refl, refl),
              All-append IsPlain (map (λ a. text "- " ++ actor_label a) e.contributors) ([] ∷ [])
                  (labels-IsPlain e.contributors r.contributors) (((tt, tt), refl), tt),
            ),
          ),
        ),
  )

  subject-IsPlain :
      (e : PendingHistoryEntry) (now : Option ℕ)
      → IsReadable h e now
      → IsPlain (commit_message h e now).subject
  unfolding trailer_head has_terminator commit_message
  subject-IsPlain e now r =
      let op = operation_text e.operation in
      (
        IsOneLine-append (text "KB-1 history: " ++ op ++ text " ") (commit_path_display h e.path)
            (IsOneLine-append (text "KB-1 history: " ++ op) (text " ")
              (labelled (text "KB-1 history: ") op
                (terminator-IsOneLine (text "KB-1 history: ") refl) (op_one e.operation))
              (terminator-IsOneLine (text " ") refl))
            (display-IsOneLine e.path r.path),
        refl,
      )

-- The message as Git keeps it: the subject, an empty line, and the body.
abbrev pub message_text : CommitMessage → Text
message_text m = m.subject ++ line_feed ∷ line_feed ∷ m.body

All-weaken : (P Q : Text → Type 0) (ls : List Text) → ((l : Text) → P l → Q l) → All P ls → All Q ls
All-weaken P Q [] f h = tt
All-weaken P Q (l ∷ ls) f (p, h) = (f l p, All-weaken P Q ls f h)

All-trailers :
    (Q : Trailer → Type 0) (ts : List Trailer)
    → ((t : Trailer) → IsGood t → Q t)
    → All IsGood ts
    → All Q ts
All-trailers Q [] f h = tt
All-trailers Q (t ∷ ts) f (p, h) = (f t p, All-trailers Q ts f h)

All-lines : (ts : List Trailer) → All IsGood ts → All IsOneLine (map trailer_line ts)
All-lines [] h = tt
All-lines (t ∷ ts) (g, h) = (g.1, All-lines ts h)

-- What is read from the message is what was written into it.
pub commit_values-message :
    (h : Host) (e : PendingHistoryEntry) (now : Option ℕ)
    → IsReadable h e now
    → commit_values (message_text (commit_message h e now)) ≡ map trimmed (trailers h e now)
unfolding commit_values commit_message
commit_values-message h e now r =
    let subject = (commit_message h e now).subject in
    let front = subject ∷ [] ∷ preamble h e now in
    let ts = trailers h e now in
    let lines = front ++ map trailer_line ts in
    let plain : All (IsPlain h) front = (
      subject-IsPlain h e now r,
      (((tt, tt), unfold trailer_head in refl), preamble-IsPlain h e now r),
    ) in
    let one : All IsOneLine lines =
      All-append IsOneLine front (map trailer_line ts)
        (All-weaken (IsPlain h) IsOneLine front (λ l p. p.0) plain)
        (All-lines ts (trailers-IsGood h e now r)) in
    ap (λ ls. read_lines none (map strip_carriage_return ls))
      (split-join line_feed lines (λ q. cc)
        (All-weaken IsOneLine (Lacks line_feed) lines (λ l p. p.0) one))
    ∙ ap (read_lines none) (strip_of_IsOneLine lines one)
    ∙ read_lines-preamble front (map trailer_line ts)
        (All-weaken (IsPlain h) (λ l. trailer_head l ≡ none) front (λ l p. p.1) plain)
    ∙ read_lines-trailers ts none
        (All-trailers IsTrailer ts (λ t g. g.0) (trailers-IsGood h e now r))
