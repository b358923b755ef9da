-- ===== src/DocSession.antt =====
-- packages/doc-session/src: the live sessions of the documents.
pub mod Manager
