-- ===== src/Lib.antt =====
-- KB-1 Local: a local knowledge base of Markdown files, served by a daemon.
--
-- The program's core is packages/vault-core, which names, reads and writes the files of a vault.
-- Every operation that takes a path from a client validates it first and resolves it under the
-- vault's root afterwards; both steps stand in packages/vault-core/src/path.ts. A tunnel to a relay
-- carries documents as streams of frames, and requests as JSON frames: packages/tunnel-protocol. The
-- client of the tunnel, packages/tunnel-client, joins each stream to a socket of the daemon.
--
-- A string is the list of its UTF-16 code units (Prelude/Strings.antt, and Prelude/Utf8.antt for its
-- length in UTF-8), an exception is an error value (Prelude/Results.antt), and a Map is an
-- association list in insertion order.
--
-- VaultCore/Path.antt models path.ts: validate_vault_path is validateVaultPath,
-- validate_optional_vault_path is validateOptionalVaultPath, is_internal_vault_path is
-- isInternalVaultPath, relative_descendant_path is relativeDescendantPath, and resolve_vault_path
-- is resolveVaultPath. Node's isAbsolute is modelled for POSIX and for Windows, and its resolve for
-- POSIX only; the segments of the working directory are an argument.
--
-- The files under Tunnel, but for StreamMux, model packages/tunnel-protocol/src/index.ts. PendingFrames.antt is the
-- class PendingFrameBuffer and PendingRequests.antt the class RelayPendingRequestTable, whose clock is
-- an argument. Base64.antt is bytesToBase64 and base64ToBytes with their loops, and
-- the platform's btoa and atob; the loop over the chunks runs on as many rounds as there are bytes.
-- Codec.antt is the class DocumentStreamCodec: a state record and a function for each method; the loop
-- of enqueue runs on fuel, the number of bytes, which is enough if chunks are not empty. Relay/Value.antt
-- has the values that JSON.parse gives, Relay/Frame.antt the frames' types, Relay/Expect.antt
-- the expect functions, Relay/Parse.antt parseRelayFrame, Relay/Encode.antt the object of a frame, and
-- Relay/Wire.antt encodeRelayFrame, decodeRelayFrame and decodeTunnelMessage, whose JSON.parse and
-- JSON.stringify are arguments.
--
-- VaultCore/Splice.antt models packages/vault-core/src/splice.ts. The loop of findAllSubstringOffsets
-- runs on the haystack's length plus one rounds and the one over the lines of the frontmatter on
-- the content's length, which is enough since every round moves on. VaultCore/Artifact.antt models
-- artifact.ts, where the method toLowerCase is an argument.
--
-- VaultCore/Metadata.antt models folder-metadata-options.ts and the functions of vault-ops.ts on the
-- metadata of folders, which stands in .kb1/folders.yml; the YAML library's parser and printer are
-- arguments. VaultCore/Nodes.antt models the files and folders below the root and the calls of
-- node:fs, with the exceptions ENOTDIR, EEXIST, EISDIR and ENOENT. VaultCore/Ops.antt models the
-- operations of vault-ops.ts that change the vault or read from it, named as in the source: each takes a
-- vault and gives a vault and a value, or a failure and the vault that it leaves behind. What the write of the
-- audit log, the read and write of the metadata file and the rename of a move throw is an argument, Faults.
--
-- VaultCore/Search.antt models packages/vault-core/src/search.ts. What readdir lists and what the files
-- hold is a value, so the walk is a recursion on it; the stat of the folder that is searched may throw. The method toLocaleLowerCase and the sort by localeCompare
-- are arguments. A client's number is one of the cases that the two clamp functions tell apart.
--
-- Tunnel/StreamMux.antt models packages/tunnel-client/src/stream-mux.ts: handle_open, handle_data,
-- handle_data_ack, handle_close and dispose_all are the methods, and loopback_opens, loopback_message and loopback_closes the
-- callbacks that handleOpen registers. Each takes the mux and gives the mux, whose log has all that was sent to
-- the tunnel and the sockets. The stream objects stand in a heap, since a callback keeps its object when the map has
-- lost it. Whether a socket accepts a message and whether it is open depends on the log and is an argument.
--
-- VaultCore/Entries.antt models walkEntries of vault-ops.ts: walk_entries is the call for a folder and walk_rows the
-- loop over what readdir and stat give for it. Entries/Tree.antt has getVaultInfo and listVaultTree around it.
--
-- VaultCore/FileHistory.antt and the files under it model packages/vault-core/src/file-history.ts. Message.antt has commitMessage and
-- what reads a message again, Committed.antt readCommittedHistory, Pending.antt recordFileHistory, Listing.antt
-- listFileHistory, Versions.antt readFileHistoryVersion, Git.antt the commands of a commit, and Flush.antt
-- flushFileHistory, moveFileHistory and moveFolderHistory. The record Host has the functions of JavaScript and the platform
-- that are called. Git and the file system are one world: a function takes it and a command, and gives the world and the
-- outcome. The loop of readCommittedHistory runs on rounds, one for each move that it follows back; more
-- rounds than there are generations of commits are enough.
--
-- DocSession/Manager.antt, Manager/Mutations.antt and Manager/Folders.antt model packages/doc-session/src/manager.ts. A function is
-- the code between two awaits, and Step of Manager/Runs.antt has all of them, in any order. The changes of the structure stand in a queue, since each
-- waits for structureMutationTail; the reservations that are held are those of the queue. The sessions' own methods answer
-- by arguments.
--
-- Not modelled are the document sessions themselves, the snapshots, the servers and the user interface.
pub mod Prelude
pub mod VaultCore
pub mod Tunnel
pub mod DocSession
