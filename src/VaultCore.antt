-- ===== src/VaultCore.antt =====
-- packages/vault-core/src: paths, texts, artifacts and files of a vault.
pub mod Path
pub mod Artifact
pub mod Splice
pub mod Metadata
pub mod Nodes
pub mod Ops
pub mod Search
pub mod Entries
pub mod FileHistory
