-- ===== src/VaultCore/Artifact/Tests.antt =====
-- A Markdown file in a folder with a dot in its name.
use kb_1_daemon.Prelude.{◌≡◌, refl, true, Text, text}
use kb_1_daemon.VaultCore.Artifact.{
  classify_artifact_path, lookup, after_last, leaf_of, artifact_extension, classify_extension,
}
use kb_1_daemon.VaultCore.Artifact.Kinds.{is_consistent, classify_artifact_path_lem}

abbrev as_it_is : Text → Text
as_it_is s = s

classify_note : (classify_artifact_path as_it_is (text "v1.2/note.md")).editable ≡ true
unfolding classify_artifact_path artifact_extension classify_extension leaf_of after_last lookup
classify_note = refl

classify_artifact_path_example :
    is_consistent (classify_artifact_path as_it_is (text "v1.2/note.md")) ≡ true
classify_artifact_path_example = classify_artifact_path_lem as_it_is (text "v1.2/note.md")
