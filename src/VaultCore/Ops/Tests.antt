-- ===== src/VaultCore/Ops/Tests.antt =====
-- A vault with a folder and a note, and operations on it.
use kb_1_daemon.Prelude.{◌≡◌, refl, true, false, [], ◌∷◌, none, some, ◌⊎◌, Text, text, ok, err}
use kb_1_daemon.Tunnel.Relay.Value.{object, end}
use kb_1_daemon.VaultCore.Path.{posix, file, validate_vault_path, relative_descendant_path}
use kb_1_daemon.VaultCore.Artifact.{
  classify_artifact_path, artifact_extension, classify_extension, leaf_of, after_last, lookup,
}
use kb_1_daemon.VaultCore.Metadata.{
  already_exists, not_found, path_collision, MetadataFormat, is_within,
}
use kb_1_daemon.VaultCore.Nodes.{
  file_node, folder_node, enoent, enotdir, node_at, set_node, ancestors_from, stat_or_null,
  make_folders, write_file, remove, rename,
}
use kb_1_daemon.VaultCore.Ops.{
  Vault, fails, throws, create, no_faults, with_nodes, write_at, write_vault_file, read_vault_file,
  move_path, move_vault_path,
}
use kb_1_daemon.VaultCore.Ops.Steady.{writes, perform, IsLateCollision, perform-fails}
use kb_1_daemon.VaultCore.Ops.Writes.{read-write_vault_file}
use kb_1_daemon.VaultCore.Ops.Moves.{IsFromFault, move-unchanged}

abbrev same_text : Text → Text
same_text s = s

-- Every text is read as an object without fields.
abbrev no_folders : MetadataFormat
no_folders = record {
  parse_yaml = λ s. some (object true end);
  stringify_yaml = λ v. [];
  sort = λ m. m;
}

abbrev vault : Vault
vault = record {
  nodes = (text "a", folder_node) ∷ (text "a/n.md", file_node (1 ∷ [])) ∷ [];
  metadata = none;
  audits = [];
}

refused :
    perform posix same_text no_faults same_text no_folders
      (writes (text "a/n.md") (text "x") false)
      vault
    ≡ err (fails already_exists, vault)
unfolding write_vault_file write_at validate_vault_path stat_or_null classify_artifact_path
    artifact_extension classify_extension leaf_of after_last lookup ancestors_from node_at
refused = refl

perform-fails_example :
    (vault ≡ vault) ⊎ ((already_exists ≡ path_collision) × IsLateCollision no_faults)
perform-fails_example =
    perform-fails posix same_text no_faults same_text no_folders
      (writes (text "a/n.md") (text "x") false) vault vault already_exists refused

abbrev written : Vault
written = record vault {
  nodes =
      (text "a", folder_node)
      ∷ (text "a/n.md", file_node (1 ∷ []))
      ∷ (text "b", folder_node)
      ∷ (text "b/m.md", file_node (text "hi"))
      ∷ [];
  audits =
      record { operation = create; entity_kind = file; path = text "b/m.md"; from_path = none }
      ∷ [];
}

writes_new :
    write_vault_file posix same_text no_faults same_text (text "b/m.md") (text "hi") false vault
    ≡ ok written
unfolding write_vault_file write_at validate_vault_path stat_or_null classify_artifact_path
    artifact_extension classify_extension leaf_of after_last lookup ancestors_from node_at
    make_folders write_file set_node
writes_new = refl

read-write_vault_file_example :
    read_vault_file posix same_text same_text (text "b/m.md") written ≡ ok (text "hi")
read-write_vault_file_example =
    read-write_vault_file posix same_text no_faults same_text same_text (text "b/m.md") (text "hi")
      false vault written refl writes_new

no_source :
    move_vault_path posix same_text no_faults no_folders
      (text "a/x.md")
      (text "b.md")
      file
      true
      vault
    ≡ err (fails not_found, vault)
unfolding move_vault_path validate_vault_path stat_or_null ancestors_from node_at
no_source = refl

apart : is_within (text "b.md") (text "a/x.md") ≡ false
unfolding is_within relative_descendant_path
apart = refl

move-unchanged_example : (vault ≡ vault) ⊎ IsFromFault no_faults (fails not_found)
move-unchanged_example =
    move-unchanged posix same_text no_faults no_folders (text "a/x.md") (text "b.md") file true
      vault vault (fails not_found) apart no_source

-- A note that is moved onto itself with `overwrite` is removed before the rename throws.
moved_onto_itself :
    move_vault_path posix same_text no_faults no_folders
      (text "a/n.md")
      (text "a/n.md")
      file
      true
      vault
    ≡ err (throws enoent, with_nodes vault ((text "a", folder_node) ∷ []))
unfolding move_vault_path move_path validate_vault_path stat_or_null ancestors_from node_at
    make_folders remove is_within relative_descendant_path rename
moved_onto_itself = refl

-- The note is written, the audit log is not, as a folder stands in its place or a file in that of `.kb1`: the
-- client is told that the path collides.
written_all_the_same :
    write_vault_file posix same_text
      (record no_faults { audit = some enotdir })
      same_text
      (text "b/m.md")
      (text "hi")
      false
      vault
    ≡ err (fails path_collision, record written { audits = [] })
unfolding write_vault_file write_at validate_vault_path stat_or_null classify_artifact_path
    artifact_extension classify_extension leaf_of after_last lookup ancestors_from node_at
    make_folders write_file set_node
written_all_the_same = refl
