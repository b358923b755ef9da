-- ===== src/VaultCore/Path/Tests.antt =====
-- Paths of path.ts at concrete inputs.
use kb_1_daemon.Prelude.{◌≡◌, refl, ◌≢◌, ◌↔◌, false, none, [], ◌∷◌, ◌++◌, Text, text, ok, err}
use kb_1_daemon.VaultCore.Path.{
  posix, win32, file, dot_segment, reserved_segment, bad_file_name, absolute, slash, resolve_onto,
  absolute_path, resolve_vault_path, validate_vault_path, is_internal_vault_path,
  relative_descendant_path,
}
use kb_1_daemon.VaultCore.Path.Legal.{IsVaultPath}
use kb_1_daemon.VaultCore.Path.Validate.{validate_iff, is_internal-validate}
use kb_1_daemon.VaultCore.Path.Resolve.{resolve-validate}

abbrev note : Text
note = text "notes/plan.md"

accepts : validate_vault_path posix note file ≡ ok note
unfolding validate_vault_path
accepts = refl

rejects :
    (validate_vault_path posix (text "a/../b.md") file
      ≡ err (record { input = text "a/../b.md"; reason = dot_segment }))
    × (validate_vault_path posix (text "a/.git/x.md") file
        ≡ err (record { input = text "a/.git/x.md"; reason = reserved_segment (text ".git") }))
    × (validate_vault_path posix (text "a/readme") file
        ≡ err (record { input = text "a/readme"; reason = bad_file_name }))
    × (validate_vault_path win32 (text "c:/readme.md") file
        ≡ err (record { input = text "c:/readme.md"; reason = absolute }))
unfolding validate_vault_path
rejects = (refl, refl, refl, refl)

validate_iff_example :
    (validate_vault_path posix note file ≡ ok note) ↔ ((note ≡ note) × IsVaultPath posix file note)
validate_iff_example = validate_iff posix note file note

is_internal-validate_example : is_internal_vault_path note ≡ false
is_internal-validate_example = is_internal-validate posix note file accepts

root_nonempty : resolve_onto [] (text "/home/me/vault") ≢ []
unfolding resolve_onto
root_nonempty e = cc

resolve-validate_example :
    resolve_vault_path [] (text "/home/me/vault") note
    ≡ ok (absolute_path (resolve_onto [] (text "/home/me/vault")) ++ slash ∷ note)
resolve-validate_example =
    resolve-validate [] (text "/home/me/vault") posix file note note root_nonempty accepts

siblings_are_apart : relative_descendant_path (text "a") (text "ab/c") ≡ none
unfolding relative_descendant_path
siblings_are_apart = refl
