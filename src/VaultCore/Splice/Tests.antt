-- ===== src/VaultCore/Splice/Tests.antt =====
-- A text with a line end of two units, spliced after an anchor.
use kb_1_daemon.Prelude.{
  ◌≡◌, refl, ℕ, not, ◌&&◌, ltb, length, take, drop, ◌==◌, if◌then◌else◌, ◌≤◌, ◌++◌, ◌∷◌, [], none,
  some, Text, text, utf8_length, utf8_after,
}
use kb_1_daemon.VaultCore.Splice.{
  AnchoredSpliceRequest, spliced, ambiguous, splice_bytes_limit, document_bytes_limit, replace_crlf,
  lf_normalize, normalize_from, normalize_with_raw_offsets, index_of, offsets_from,
  find_all_substring_offsets, or_empty, choose, splice_at, apply_anchored_splice, prepend_content,
  ends_with_line_ending, lf, cr,
}
use kb_1_daemon.VaultCore.Splice.Normalize.{value-normalize_with_raw_offsets}
use kb_1_daemon.VaultCore.Splice.Occurrences.{occurrences, find_all_substring_offsets_lem}
use kb_1_daemon.VaultCore.Splice.Prepend.{IsInsertionPoint, prepend_content_lem}
use kb_1_daemon.VaultCore.Splice.Apply.{IsSplice, apply-IsSplice}

abbrev content : Text
content = text "ab" ++ cr ∷ lf ∷ text "b"

-- The old text `\nb` of the request stands as `\r\nb` in the content.
abbrev request : AnchoredSpliceRequest
request = record {
  old_text = lf ∷ text "b";
  new_text = text "c";
  before = some (text "b");
  after = none;
  occurrence = none;
}

apply_request : apply_anchored_splice content request ≡ spliced (text "abc")
unfolding apply_anchored_splice lf_normalize replace_crlf normalize_with_raw_offsets normalize_from
    find_all_substring_offsets offsets_from index_of choose splice_at utf8_length utf8_after
apply_request = refl

-- Both b's are meant.
apply_b :
    apply_anchored_splice content (record request { old_text = text "b"; before = none })
    ≡ ambiguous 2
unfolding apply_anchored_splice lf_normalize replace_crlf normalize_with_raw_offsets normalize_from
    find_all_substring_offsets offsets_from index_of choose splice_at utf8_length utf8_after
apply_b = refl

apply-IsSplice_example :
    IsSplice content
      (text "abc")
      (lf_normalize (lf ∷ text "b"))
      (lf_normalize (text "c"))
      (or_empty (some (text "b")))
      (or_empty none)
    × (utf8_length (text "abc") ≤ document_bytes_limit)
    × (utf8_length (lf_normalize (lf ∷ text "b")) ≤ splice_bytes_limit)
    × (utf8_length (lf_normalize (text "c")) ≤ splice_bytes_limit)
apply-IsSplice_example = apply-IsSplice content (text "abc") request apply_request

find_all_example :
    find_all_substring_offsets (text "aaa") (text "aa")
    ≡ (if length (text "aa") == 0 then [] else occurrences (text "aa") 0 (text "aaa"))
find_all_example = find_all_substring_offsets_lem (text "aaa") (text "aa")

value_example : (normalize_with_raw_offsets content).value ≡ lf_normalize content
value_example = value-normalize_with_raw_offsets content

abbrev note : Text
note = text "---" ++ lf ∷ text "---" ++ lf ∷ text "b"

prepend_example :
    (point : ℕ) × IsInsertionPoint note point
    × (prepend_content note (text "a")
        ≡ take point note
          ++ (if ltb 0 point
                && ltb 0 (length (lf_normalize (text "a")))
                && not (ends_with_line_ending (take point note))
              then lf ∷ []
              else [])
          ++ lf_normalize (text "a")
          ++ drop point note)
prepend_example = prepend_content_lem note (text "a")
