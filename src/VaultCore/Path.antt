-- ===== src/VaultCore/Path.antt =====
-- packages/vault-core/src/path.ts: which paths name something in a vault, and where it lies.
-- `path` is Node's: `is_absolute` follows its POSIX and Windows versions, `resolve` the POSIX one.
pub mod Legal
pub mod Validate
pub mod Resolve
mod Tests
use kb_1_daemon.Prelude.{
  ℕ, ◌+◌, ◌-◌, Bool, true, false, ◌&&◌, ◌||◌, not, List, [], ◌∷◌, ◌++◌, Option, none, some, Text,
  text, text_eq, starts_with, ends_with, includes, split, join, length, drop, any, ltb, leb, ◌==◌,
  if◌then◌else◌, Result, ok, err, fail_if, ◌>>=◌, ◌>>◌,
}
use mathlib.Core.List.{reverse, tail}

pub data Platform : Type 0 where
  posix win32 : Platform

pub data VaultPathKind : Type 0 where
  file folder artifact : VaultPathKind

-- The `reason` of an `InvalidPathError`.
pub data Reason : Type 0 where
  empty_path too_long backslash absolute slash_end : Reason
  empty_segment dot_segment long_segment bad_file_name escapes_root : Reason
  reserved_segment : Text → Reason

pub record InvalidPathError : Type 0 where
  pub input : Text
  pub reason : Reason

abbrev pub max_path_length : ℕ
max_path_length = 1024

abbrev pub max_segment_length : ℕ
max_segment_length = 255

abbrev pub slash : ℕ
slash = b'/'

abbrev pub backslash_unit : ℕ
backslash_unit = 92

abbrev pub dot : ℕ
dot = b'.'

abbrev pub internal_vault_path_segments : List Text
internal_vault_path_segments =
    text ".git" ∷ text ".gitattributes" ∷ text ".gitignore" ∷ text ".gitmodules" ∷ text ".kb1" ∷ []

unfoldable pub is_internal_segment : Text → Bool
is_internal_segment segment = any (text_eq segment) internal_vault_path_segments

-- A separator of Windows paths, and the letter of a drive.
is_separator : ℕ → Bool
is_separator c = c == slash || c == backslash_unit

is_letter : ℕ → Bool
is_letter c = (leb b'A' c && leb c b'Z') || (leb b'a' c && leb c b'z')

win32_absolute : Text → Bool
unfolding is_separator is_letter
win32_absolute [] = false
win32_absolute (a ∷ b ∷ c ∷ rest) = is_separator a || (is_letter a && b == b':' && is_separator c)
win32_absolute (a ∷ rest) = is_separator a

pub is_absolute : Platform → Text → Bool
unfolding win32_absolute
is_absolute posix s = starts_with (slash ∷ []) s
is_absolute win32 s = win32_absolute s

-- The body of the loop over the segments.
check_segment : Text → Result Reason (Unit {0})
check_segment segment = do
  fail_if (length segment == 0) empty_segment
  fail_if (text_eq segment (text ".") || text_eq segment (text "..")) dot_segment
  fail_if (ltb max_segment_length (length segment)) long_segment
  fail_if (is_internal_segment segment) (reserved_segment segment)

pub check_segments : List Text → Result Reason (Unit {0})
unfolding check_segment
check_segments [] = ok tt
check_segments (segment ∷ segments) = do check_segment segment; check_segments segments

-- `segments[segments.length - 1]`
pub last_segment : List Text → Text
last_segment [] = []
last_segment (s ∷ []) = s
last_segment (s ∷ t ∷ ts) = last_segment (t ∷ ts)

-- What follows the first dot: `none` where `indexOf` gives -1.
after_dot : Text → Option Text
after_dot [] = none
after_dot (c ∷ s) = if c == dot then some s else after_dot s

-- There is a dot, and something follows it.
has_ext : Option Text → Bool
has_ext none = false
has_ext (some []) = false
has_ext (some (c ∷ s)) = true

-- `dot <= 0 || dot === filename.length - 1` is false
is_file_name : Text → Bool
unfolding after_dot has_ext
is_file_name [] = false
is_file_name (c ∷ s) = if c == dot then false else has_ext (after_dot s)

pub check_kind : VaultPathKind → List Text → Result Reason (Unit {0})
unfolding last_segment is_file_name
check_kind file segments = fail_if (not (is_file_name (last_segment segments))) bad_file_name
check_kind folder segments = ok tt
check_kind artifact segments = ok tt

pub check_path : Platform → Text → VaultPathKind → Result Reason Text
unfolding is_absolute check_segments check_kind
check_path platform input kind = do
  fail_if (length input == 0) empty_path
  fail_if (ltb max_path_length (length input)) too_long
  fail_if (includes backslash_unit input) backslash
  fail_if (is_absolute posix input || is_absolute platform input) absolute
  fail_if (starts_with (slash ∷ []) input || ends_with (slash ∷ []) input) slash_end
  check_segments (split slash input)
  check_kind kind (split slash input)
  ok input

abbrev blame : Text → Result Reason Text → Result InvalidPathError Text
blame input (ok p) = ok p
blame input (err r) = err (record { input = input; reason = r })

unfoldable pub validate_vault_path : Platform → Text → VaultPathKind → Result InvalidPathError Text
unfolding check_path is_internal_segment
validate_vault_path platform input kind = blame input (check_path platform input kind)

-- `undefined` is `none`.
unfoldable pub validate_optional_vault_path :
    Platform → Option Text → VaultPathKind → Result InvalidPathError (Option Text)
unfolding validate_vault_path
validate_optional_vault_path platform none kind = ok none
validate_optional_vault_path platform (some []) kind = ok none
validate_optional_vault_path platform (some (c ∷ s)) kind = do
  p ← validate_vault_path platform (c ∷ s) kind
  ok (some p)

unfoldable pub is_internal_vault_path : Text → Bool
unfolding is_internal_segment
is_internal_vault_path input =
    if length input == 0 then false else any is_internal_segment (split slash input)

unfoldable pub relative_descendant_path : Text → Text → Option Text
relative_descendant_path parent child =
    if text_eq child parent
    then some []
    else if starts_with (parent ++ slash ∷ []) child
    then some (drop (length (parent ++ slash ∷ [])) child)
    else none

-- One round of Node's `normalizeString`, over a stack with its top at the head.
push_segment : List Text → Text → List Text
push_segment stack part =
    if length part == 0 || text_eq part (text ".")
    then stack
    else if text_eq part (text "..")
    then tail stack
    else part ∷ stack

push_segments : List Text → List Text → List Text
unfolding push_segment
push_segments stack [] = stack
push_segments stack (part ∷ parts) = push_segments (push_segment stack part) parts

-- `path.resolve` with one more argument, from the segments so far.
unfoldable pub resolve_onto : List Text → Text → List Text
unfolding push_segments
resolve_onto stack s =
    push_segments (if starts_with (slash ∷ []) s then [] else stack) (split slash s)

abbrev pub absolute_path : List Text → Text
absolute_path stack = slash ∷ join slash (reverse stack)

-- `cwd` holds the segments of the process's working directory, the last one first.
unfoldable pub resolve_vault_path : List Text → Text → Text → Result InvalidPathError Text
unfolding resolve_onto
resolve_vault_path cwd root rel_path =
    let stack = resolve_onto cwd root in
    let resolved_root = absolute_path stack in
    let resolved = absolute_path (resolve_onto stack rel_path) in
    if not (text_eq resolved resolved_root)
      && not (starts_with (resolved_root ++ slash ∷ []) resolved)
    then err (record { input = rel_path; reason = escapes_root })
    else ok resolved
