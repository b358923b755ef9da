-- ===== src/VaultCore/FileHistory/Message/Readable.antt =====
-- What the round trip asks of the texts of a version, and which trailers are read again.
use kb_1_daemon.Prelude.{
  ℕ, ◌≡◌, ◌≢◌, refl, ap, ◌∙◌, ◌⊎◌, inl, inr, Bool, true, false, Bool-cases, List, [], ◌∷◌, ◌++◌,
  map, Option, none, some, Text, text, includes-Lacks, all, All, All-append, Lacks,
  ends_with_of_Lacks, if◌then◌else◌, arith, trim_start,
}
use kb_1_daemon.Tunnel.Relay.Value.{string}
use kb_1_daemon.VaultCore.FileHistory.{
  VaultActor, PendingHistoryEntry, Host, FileHistoryOperation, actor_value, actor_label,
  operation_text, create, update, move, rename,
}
use kb_1_daemon.VaultCore.FileHistory.Message.{
  Trailer, trailer_line, line_feed, carriage_return, has_line_break, bucket_end, is_key_unit,
  has_terminator, strip_carriage_return,
}
use kb_1_daemon.VaultCore.FileHistory.Message.Trailers.{IsTrailer}

-- A value that a trailer keeps as it is.
pub record IsValue (s : Text) : Type 0 where
  pub not_padded : trim_start s ≡ s
  pub one_line : has_terminator s ≡ false

abbrev pub IsOneLine : Text → Type 0
IsOneLine s = Lacks line_feed s × Lacks carriage_return s

pub terminator-IsOneLine : (s : Text) → has_terminator s ≡ false → IsOneLine s
unfolding has_terminator
terminator-IsOneLine [] h = (tt, tt)
terminator-IsOneLine (c ∷ s) h =
    let rest = terminator-IsOneLine s (ground arith) in
    ((λ e. absurd (ground (arith, e, h)), rest.0), (λ e. absurd (ground (arith, e, h)), rest.1))

pub break-IsOneLine : (s : Text) → has_line_break s ≡ false → IsOneLine s
unfolding has_line_break
break-IsOneLine s h =
    (includes-Lacks line_feed s (ground arith), includes-Lacks carriage_return s (ground arith))

pub IsOneLine-append : (s t : Text) → IsOneLine s → IsOneLine t → IsOneLine (s ++ t)
IsOneLine-append s t a b =
    (All-append (λ c. c ≢ line_feed) s t a.0 b.0, All-append (λ c. c ≢ carriage_return) s t a.1 b.1)

-- A path whose JSON text is one line and parses to it. A path that has no line break, but another line
-- terminator, is not meant here.
pub record IsPath (h : Host) (path : Text) : Type 0 where
  pub json : IsValue (h.stringify (string path))
  pub parses : h.parse (h.stringify (string path)) ≡ some (string path)
  pub plain : (has_line_break path ≡ true) ⊎ (has_terminator (trim_start path) ≡ false)

abbrev pub IsOptional : (Text → Type 0) → Option Text → Type 0
IsOptional P none = Unit
IsOptional P (some s) = P s

pub record IsActor (h : Host) (a : VaultActor) : Type 0 where
  pub json : IsValue (h.stringify (actor_value a))
  pub parses : h.parse (h.stringify (actor_value a)) ≡ some (actor_value a)
  pub label : IsOneLine (actor_label a)

-- What the round trip asks of an entry.
pub record IsReadable (h : Host) (e : PendingHistoryEntry) (now : Option ℕ) : Type 0 where
  pub path : IsPath h e.path
  pub from_path : IsOptional (IsPath h) e.from_path
  pub id : IsValue e.id
  pub bucket_start : IsValue e.bucket_start
  pub bucket_end : IsValue (bucket_end h e now)
  pub size : IsValue (h.decimal e.size)
  pub number : h.number_value (h.decimal e.size) ≡ some e.size
  pub content_hash : IsValue e.content_hash
  pub format : IsOptional IsValue e.content_hash_format
  pub contributors : All (IsActor h) e.contributors

pub strip_of_IsOneLine :
    (lines : List Text) → All IsOneLine lines → map strip_carriage_return lines ≡ lines
unfolding strip_carriage_return
strip_of_IsOneLine [] h = refl
strip_of_IsOneLine (l ∷ lines) (i, h) =
    rw (ends_with_of_Lacks carriage_return l i.1) (ap (λ t. l ∷ t) (strip_of_IsOneLine lines h))

pub all-All : (p : ℕ → Bool) (s : Text) → all p s ≡ true → All (λ c. p c ≡ true) s
all-All p [] h = tt
all-All p (c ∷ s) h = (ground arith, all-All p s (ground arith))

-- A trailer that is read again, on one line.
abbrev pub IsGood : Trailer → Type 0
IsGood t = IsTrailer t × IsOneLine (trailer_line t)

pub good :
    (first : ℕ) (units value : Text)
    → all is_key_unit (first ∷ units) ≡ true
    → has_terminator (first ∷ units) ≡ false
    → has_terminator (trim_start value) ≡ false
    → IsOneLine value
    → IsGood (text "KB1-" ++ first ∷ units, value)
unfolding has_terminator
good first units value k l t v =
    let key = text "KB1-" ++ first ∷ units in
    let head : IsOneLine key =
      IsOneLine-append (text "KB1-") (first ∷ units) (terminator-IsOneLine (text "KB1-") refl)
        (terminator-IsOneLine (first ∷ units) l) in
    (
      record {
        key = record {
          first = first;
          units = units;
          spelt = refl;
          legal = all-All is_key_unit (first ∷ units) k;
        };
        one_line = t;
      },
      IsOneLine-append (key ++ text ": ") value
          (IsOneLine-append key (text ": ") head (terminator-IsOneLine (text ": ") refl)) v,
    )

pub IsGood-value :
    (first : ℕ) (units value : Text)
    → all is_key_unit (first ∷ units) ≡ true
    → has_terminator (first ∷ units) ≡ false
    → IsValue value
    → IsGood (text "KB1-" ++ first ∷ units, value)
IsGood-value first units value k l v =
    good first units value k l (ap has_terminator v.not_padded ∙ v.one_line)
      (terminator-IsOneLine value v.one_line)

pub IsGood-legacy :
    (first : ℕ) (units path : Text)
    → all is_key_unit (first ∷ units) ≡ true
    → has_terminator (first ∷ units) ≡ false
    → (has_line_break path ≡ true) ⊎ (has_terminator (trim_start path) ≡ false)
    → All IsGood (if has_line_break path then [] else (text "KB1-" ++ first ∷ units, path) ∷ [])
IsGood-legacy first units path k l p = elim (Bool-cases (has_line_break path)) [
  | inl e ↦ rw e tt
  | inr e ↦ rw e (elim p [
    | inl broken ↦ absurd (ground (arith, e, broken))
    | inr t ↦ (good first units path k l t (break-IsOneLine path e), tt)
  ])
]

pub op_one : (operation : FileHistoryOperation) → IsOneLine (operation_text operation)
unfolding has_terminator
op_one create = terminator-IsOneLine (text "create") refl
op_one update = terminator-IsOneLine (text "update") refl
op_one move = terminator-IsOneLine (text "move") refl
op_one rename = terminator-IsOneLine (text "rename") refl
