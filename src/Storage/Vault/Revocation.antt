-- ===== src/Storage/Vault/Revocation.antt =====
-- internal/storage/vault_records.go: a revocation is reserved before the credential's home is
-- touched, and finalized after that. `active` is the number of sessions that use the credential.
use multi_agent_desk.Prelude.{
  ℕ, Bool, true, false, not, Option, none, some, ◌==◌, if◌then◌else◌, inc64, Text, text_eq,
}
use multi_agent_desk.Domain.Errors.{Code, Result, ok, err, ◌>>=◌, ◌>>◌, refuse_if}
use multi_agent_desk.Domain.Id.{validate_id}
use multi_agent_desk.Domain.Provider.{codex}
use multi_agent_desk.Storage.Driver.{Driver, with_tx}
use multi_agent_desk.Storage.Table.{Table, put}
use multi_agent_desk.Storage.Links.{CredentialStatus, CredentialRow, is_account}
use multi_agent_desk.Storage.Vault.{Binding, VaultRows, credential_row}

abbrev pub is_revoked : CredentialStatus → Bool
is_revoked CredentialStatus.revoked = true
is_revoked _ = false

-- `DELETE FROM t WHERE key = k`.
unfoldable pub delete {ℓ} : {A : Type ℓ} → Table A → Text → Table A
delete t k j = if text_eq k j then none else t j

unfoldable pub unbind : Text → Option Binding → Option Binding
unbind id none = none
unbind id (some b) =
    if not b.internal
    then (if is_account b.credential_instance_id id
        then some (record b { credential_instance_id = none; revision = inc64 b.revision })
        else some b)
    else some b

-- What is done if a check passes.
abbrev pub if_ok :
    Result (Unit {0}) → VaultRows → Result (Unit {0}) × VaultRows → Result (Unit {0}) × VaultRows
if_ok (err e) t next = (err e, t)
if_ok (ok _) t next = next

unfoldable pub reserve : Driver → ℕ → Text → VaultRows → Result (Unit {0} × VaultRows)
reserve d active id t = do
  refuse_if (not d.runs) Code.conflict
  row ← credential_row t id
  refuse_if (not (text_eq row.provider codex)) Code.conflict
  if is_revoked row.status then ok (tt, t) else (do
    refuse_if (not (active == 0)) Code.conflict
    ok (
      tt,
      record t { credentials = put t.credentials id (record row { revocation_reserved = true }) },
    ))

unfoldable pub reserve_revocation :
    Driver → ℕ → Text → ℕ → VaultRows → Result (Unit {0}) × VaultRows
reserve_revocation d active id at t =
    if_ok (validate_id id >> refuse_if (at == 0) Code.invalid_argument) t
      (with_tx d t (reserve d active id))

-- The item is deleted, the profiles are unbound, the status is set and the reservation cleared.
unfoldable pub finalized : CredentialRow → Text → VaultRows → VaultRows
finalized row id t = record t {
  items = delete t.items id;
  profiles = λ k. unbind id (t.profiles k);
  credentials =
      put t.credentials id
        (record row { status = CredentialStatus.revoked; revocation_reserved = false });
}

-- A revoked credential's bindings and reservation are cleared again.
unfoldable pub replayed : CredentialRow → Text → VaultRows → VaultRows
replayed row id t = record t {
  profiles = λ k. unbind id (t.profiles k);
  credentials = put t.credentials id (record row { revocation_reserved = false });
}

unfoldable pub finalize : Driver → ℕ → Text → VaultRows → Result (Unit {0} × VaultRows)
finalize d active id t = do
  refuse_if (not d.runs) Code.conflict
  row ← credential_row t id
  refuse_if (not (text_eq row.provider codex)) Code.conflict
  if is_revoked row.status then ok (tt, replayed row id t) else (do
    refuse_if (not row.revocation_reserved) Code.conflict
    refuse_if (not (active == 0)) Code.conflict
    ok (tt, finalized row id t))

-- The instance that is read back afterwards is left out of the result.
unfoldable pub finalize_revocation :
    Driver → ℕ → Text → ℕ → VaultRows → Result (Unit {0}) × VaultRows
finalize_revocation d active id at t =
    if_ok (validate_id id >> refuse_if (at == 0) Code.invalid_argument) t
      (with_tx d t (finalize d active id))
