-- ===== src/VaultCore/Artifact.antt =====
-- packages/vault-core/src/artifact.ts: what a file is taken for, by its extension. The string method
-- `toLowerCase` is an argument.
pub mod Kinds
mod Tests
use kb_1_daemon.Prelude.{
  ℕ, zero, suc, Bool, true, false, List, [], ◌∷◌, Option, none, some, Text, text, text_eq, length,
  drop, ◌==◌, ◌-◌, leb, if◌then◌else◌,
}

pub data ArtifactKind : Type 0 where
  text_file attachment : ArtifactKind

pub data ArtifactPreview : Type 0 where
  markdown plain_text image audio video pdf download : ArtifactPreview

pub record ArtifactInfo : Type 0 where
  pub kind : ArtifactKind
  pub content_type : Text
  pub editable : Bool
  pub preview : ArtifactPreview

-- An entry of the two tables.
pub record ArtifactType : Type 0 where
  pub content_type : Text
  pub preview : ArtifactPreview

abbrev pub text_artifact_extensions : List (Text × ArtifactType)
text_artifact_extensions =
    (text ".md", record { content_type = text "text/markdown; charset=utf-8"; preview = markdown })
    ∷ (
      text ".markdown",
      record { content_type = text "text/markdown; charset=utf-8"; preview = markdown },
    )
    ∷ (
      text ".mdown",
      record { content_type = text "text/markdown; charset=utf-8"; preview = markdown },
    )
    ∷ (
      text ".mkdn",
      record { content_type = text "text/markdown; charset=utf-8"; preview = markdown },
    )
    ∷ (
      text ".txt",
      record { content_type = text "text/plain; charset=utf-8"; preview = plain_text },
    )
    ∷ (
      text ".log",
      record { content_type = text "text/plain; charset=utf-8"; preview = plain_text },
    )
    ∷ (text ".csv", record { content_type = text "text/csv; charset=utf-8"; preview = plain_text })
    ∷ (
      text ".tsv",
      record {
        content_type = text "text/tab-separated-values; charset=utf-8";
        preview = plain_text;
      },
    )
    ∷ (
      text ".html",
      record { content_type = text "text/html; charset=utf-8"; preview = plain_text },
    )
    ∷ (text ".htm", record { content_type = text "text/html; charset=utf-8"; preview = plain_text })
    ∷ (text ".css", record { content_type = text "text/css; charset=utf-8"; preview = plain_text })
    ∷ (
      text ".js",
      record { content_type = text "text/javascript; charset=utf-8"; preview = plain_text },
    )
    ∷ (
      text ".jsx",
      record { content_type = text "text/javascript; charset=utf-8"; preview = plain_text },
    )
    ∷ (
      text ".ts",
      record { content_type = text "text/typescript; charset=utf-8"; preview = plain_text },
    )
    ∷ (
      text ".tsx",
      record { content_type = text "text/typescript; charset=utf-8"; preview = plain_text },
    )
    ∷ (
      text ".json",
      record { content_type = text "application/json; charset=utf-8"; preview = plain_text },
    )
    ∷ (
      text ".yml",
      record { content_type = text "application/yaml; charset=utf-8"; preview = plain_text },
    )
    ∷ (
      text ".yaml",
      record { content_type = text "application/yaml; charset=utf-8"; preview = plain_text },
    )
    ∷ (
      text ".xml",
      record { content_type = text "application/xml; charset=utf-8"; preview = plain_text },
    )
    ∷ (
      text ".toml",
      record { content_type = text "application/toml; charset=utf-8"; preview = plain_text },
    )
    ∷ (
      text ".ini",
      record { content_type = text "text/plain; charset=utf-8"; preview = plain_text },
    )
    ∷ (
      text ".sh",
      record { content_type = text "text/x-shellscript; charset=utf-8"; preview = plain_text },
    )
    ∷ (
      text ".py",
      record { content_type = text "text/x-python; charset=utf-8"; preview = plain_text },
    )
    ∷ (
      text ".rb",
      record { content_type = text "text/x-ruby; charset=utf-8"; preview = plain_text },
    )
    ∷ (text ".go", record { content_type = text "text/x-go; charset=utf-8"; preview = plain_text })
    ∷ (
      text ".rs",
      record { content_type = text "text/x-rust; charset=utf-8"; preview = plain_text },
    )
    ∷ (
      text ".java",
      record { content_type = text "text/x-java-source; charset=utf-8"; preview = plain_text },
    )
    ∷ (text ".c", record { content_type = text "text/x-c; charset=utf-8"; preview = plain_text })
    ∷ (
      text ".cpp",
      record { content_type = text "text/x-c++; charset=utf-8"; preview = plain_text },
    )
    ∷ (text ".h", record { content_type = text "text/x-c; charset=utf-8"; preview = plain_text })
    ∷ (
      text ".hpp",
      record { content_type = text "text/x-c++; charset=utf-8"; preview = plain_text },
    )
    ∷ []

abbrev pub attachment_artifact_extensions : List (Text × ArtifactType)
attachment_artifact_extensions =
    (text ".png", record { content_type = text "image/png"; preview = image })
    ∷ (text ".jpg", record { content_type = text "image/jpeg"; preview = image })
    ∷ (text ".jpeg", record { content_type = text "image/jpeg"; preview = image })
    ∷ (text ".gif", record { content_type = text "image/gif"; preview = image })
    ∷ (text ".webp", record { content_type = text "image/webp"; preview = image })
    ∷ (text ".avif", record { content_type = text "image/avif"; preview = image })
    ∷ (text ".apng", record { content_type = text "image/apng"; preview = image })
    ∷ (text ".svg", record { content_type = text "application/octet-stream"; preview = download })
    ∷ (text ".mp3", record { content_type = text "audio/mpeg"; preview = audio })
    ∷ (text ".wav", record { content_type = text "audio/wav"; preview = audio })
    ∷ (text ".ogg", record { content_type = text "audio/ogg"; preview = audio })
    ∷ (text ".flac", record { content_type = text "audio/flac"; preview = audio })
    ∷ (text ".m4a", record { content_type = text "audio/mp4"; preview = audio })
    ∷ (text ".aac", record { content_type = text "audio/aac"; preview = audio })
    ∷ (text ".mp4", record { content_type = text "video/mp4"; preview = video })
    ∷ (text ".webm", record { content_type = text "video/webm"; preview = video })
    ∷ (text ".mov", record { content_type = text "video/quicktime"; preview = video })
    ∷ (text ".m4v", record { content_type = text "video/x-m4v"; preview = video })
    ∷ (text ".pdf", record { content_type = text "application/pdf"; preview = pdf })
    ∷ (text ".zip", record { content_type = text "application/zip"; preview = download })
    ∷ (text ".gz", record { content_type = text "application/gzip"; preview = download })
    ∷ (text ".tgz", record { content_type = text "application/gzip"; preview = download })
    ∷ (text ".tar", record { content_type = text "application/x-tar"; preview = download })
    ∷ []

-- An entry of a table. Every extension is empty or starts with a dot, so no inherited property is met.
unfoldable pub lookup : {A : Type 0} → Text → List (Text × A) → Option A
lookup key [] = none
lookup key ((k, a) ∷ table) = if text_eq k key then some a else lookup key table

-- `s.lastIndexOf(c) + 1` for one code unit: 0 if it is not there.
abbrev pub past : ℕ → Bool → ℕ
past zero here = if here then 1 else 0
past (suc n) here = suc (suc n)

unfoldable pub after_last : ℕ → Text → ℕ
after_last c [] = 0
after_last c (d ∷ s) = past (after_last c s) (d == c)

unfoldable pub leaf_of : Text → Text
leaf_of rel_path = drop (after_last b'/' rel_path) rel_path

abbrev pub text_info : ArtifactType → ArtifactInfo
text_info t = record {
  kind = text_file;
  content_type = t.content_type;
  editable = true;
  preview = t.preview;
}

abbrev pub attachment_info : ArtifactType → ArtifactInfo
attachment_info t = record {
  kind = attachment;
  content_type = t.content_type;
  editable = false;
  preview = t.preview;
}

abbrev pub unknown_info : ArtifactInfo
unknown_info = record {
  kind = attachment;
  content_type = text "application/octet-stream";
  editable = false;
  preview = download;
}

-- The entries of the two tables, if there are any.
abbrev pub info_of : Option ArtifactType → Option ArtifactType → ArtifactInfo
info_of (some t) other = text_info t
info_of none (some t) = attachment_info t
info_of none none = unknown_info

unfoldable pub classify_extension : Text → ArtifactInfo
classify_extension extension =
    info_of (lookup extension text_artifact_extensions)
      (lookup extension attachment_artifact_extensions)

module _ (to_lower_case : Text → Text) where
  -- `dot <= 0` is the case where the last dot, if there is one, is the first unit.
  unfoldable pub artifact_extension : Text → Text
  artifact_extension rel_path =
      let leaf = leaf_of rel_path in
      let dot = after_last b'.' leaf in
      if leb dot 1 then [] else to_lower_case (drop (dot - 1) leaf)

  unfoldable pub classify_artifact_path : Text → ArtifactInfo
  classify_artifact_path rel_path = classify_extension (artifact_extension rel_path)
