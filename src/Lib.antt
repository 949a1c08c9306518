-- ===== src/Lib.antt =====
-- multidesk: the device daemon of MultiAgentDesk, and what is verified of it.
--
-- The daemon keeps accounts, profiles and sessions of provider command lines in a SQLite database and
-- serves local clients over an authenticated connection. A request passes the authorizer
-- (internal/app/authorization.go), then the service (internal/app/session_service.go), which records
-- mutations in a ledger and calls the store (internal/storage) and the runtime (internal/runtime). The
-- rules of the entities are in internal/domain. One client at a time controls a session, by a lease
-- with a revision; observers replay a session's output from a bounded ring.
--
-- The modules follow the packages.
--
-- Prelude: what the others share. A Go string or byte slice is a list of bytes (Text); an int64 is its
--   bit pattern below 2^64, with signed comparison slt and wrapping successor inc64; a time is a count
--   of nanoseconds from Go's zero time, so IsZero is a comparison with 0.
-- Domain.Errors, Domain.Id, Domain.Capability, Domain.Provider, Domain.Lease, Domain.Session:
--   internal/domain/errors.go, types.go, provider.go, lease.go, session.go, one function for each Go
--   function, with an error as its stable code. intersectCapabilities and capabilitiesSubset of
--   internal/device/auth.go are with the capabilities.
-- Domain.Account: internal/domain/account.go, less usage snapshots, which hold floating-point numbers.
-- Storage.Rows, Storage.Registry (with Accounts, Profiles and Pages): internal/storage/accounts.go,
--   less the usage snapshots. A table is a list of rows. Base64, JSON, the text of times and SHA-256
--   are an argument of the pages (Codec), and so is the order of other writers between two statements.
-- Storage.Driver, Storage.Table, Storage.Leases, Storage.Links, Storage.Sessions: withTx of
--   internal/storage/store.go, and the tables controller_leases and sessions with the queries of
--   internal/storage/repository.go and the checks of migrations/device. A table is a function from
--   keys to rows; a Driver is what the database answers (whether it begins, runs and commits).
-- Storage.Approvals (with Creating, Finishing and Recovery): creating an approval, claiming,
--   completing and failing the dispatch of its answer, and the recovery of a restart, of
--   internal/storage/repository.go. Other writers of the table may come between the read and the write
--   of a completion or a failure, and are an argument.
-- Codex.Approvals: RespondApproval of internal/providers/codex/runtime.go. The service holds its lock
--   over it, so a history is a list of calls; a write to the process that
--   RespondServerRequest begins counts as sent whether or not it fails.
-- Storage.Vault (with Revocation): the vault's tables, of internal/storage/vault_records.go: the
--   configuration, items, and the two steps of a revocation. Saving an item for an enrollment is not
--   modelled.
-- Storage.Previews (with Consuming and Deleting): internal/storage/session_preview.go, over the
--   columns that its queries read of the other tables. A query on one of them that fails finds no row,
--   or the driver does not run the transaction. Cleaning up compares times as texts, and what a time
--   is written as is an argument.
-- Vault.Fields, Vault.Crypto, Vault.Manager, Vault.Sealing: internal/vault/vault.go. AES-GCM,
--   Argon2id, SHA-256 and the JSON decoder are an argument (Crypto), and so are the random bytes.
-- Runtime.Leases: Acquire, Heartbeat, Release and requireLease of internal/runtime/manager.go; each
--   holds the manager's mutex, so a history of all clients is a list of calls.
-- Runtime.Ring: internal/runtime/ring.go.
-- Runtime.Input: Input of internal/runtime/manager.go, with the delivery to a provider as an argument.
-- App.Methods, App.Authorization, App.Idempotency: the method tables, Authorize of
--   internal/app/authorization.go, Handle and withIdempotency of internal/app/session_service.go. The
--   functions that Handle dispatches to are an argument over the state that they change.
-- Device.Nonces, Device.Json, Device.Frames: markNonce of internal/device/auth.go, and validateJSON,
--   marshalFrame, writeFrame, writeAll and readFrame of internal/device/protocol.go. The tokens that
--   Go's decoder gives of a frame, with its error where it gives one, and the writer of a connection are arguments.
-- The Examples modules apply the theorems to concrete values.
--
-- Loops are structural recursion, but for three with fuel, and the client that follows the cursors of
-- a listing, which is given a number of pages. RingBuffer.Append and writeAll have one unit for each
-- byte of the data, which is enough because a round takes at least one byte; the theorems on them
-- state that they return. consumeJSONValue has two units for each token and one more; that this is
-- enough is a part of the theorem on what it accepts. Where the program's answer depends on the
-- database, the clock, the random source, SHA-256 or the JSON codec, that answer is an argument.
-- Durations are added to times without Go's saturation.
--
-- Not modelled: the handshake, provider processes, files and sockets, usage snapshots, enrollment, and
-- the command line.
pub mod Prelude
pub mod Domain
pub mod Storage
pub mod Vault
pub mod Codex
pub mod Runtime
pub mod App
pub mod Device
