-- ===== src/Storage/Vault.antt =====
-- internal/storage/vault_records.go: the vault's configuration and its items, with the columns of
-- `credential_instances` and `runtime_profiles` that these queries read or write. What other tables
-- answer (how many sessions use a credential, and whether Codex state blocks an initialization) is
-- an argument.
pub mod Revocation
pub mod Matching
pub mod Keeping
pub mod Revoking
pub mod Revoked
mod Examples
use multi_agent_desk.Prelude.{
  ℕ, Bool, true, false, not, ◌&&◌, ◌||◌, Option, none, some, ltb, ◌==◌, if◌then◌else◌, is_some, slt,
  inc64, length, Text, text_eq, bytes,
}
use multi_agent_desk.Domain.Errors.{Code, Result, ok, err, ◌>>=◌, ◌>>◌, refuse_if}
use multi_agent_desk.Domain.Id.{validate_id, hex_decode}
use multi_agent_desk.Domain.Provider.{codex}
use multi_agent_desk.Storage.Driver.{Driver, with_tx}
use multi_agent_desk.Storage.Table.{Table, put}
use multi_agent_desk.Storage.Links.{CredentialStatus, CredentialRow, is_account, unusable}

pub record VaultConfig : Type 0 where
  pub format_version : ℕ
  pub kdf_name : Text
  pub kdf_salt : Text
  pub argon_time : ℕ
  pub argon_memory_kib : ℕ
  pub argon_parallelism : ℕ
  pub key_check_nonce : Text
  pub key_check_ciphertext : Text
  pub initialized_at : ℕ
  pub initialized_by_device : Text
  pub init_request_digest : Text

pub record VaultItem : Type 0 where
  pub credential_instance_id : Text
  pub account_id : Text
  pub device_id : Text
  pub provider : Text
  pub envelope_version : ℕ
  pub credential_revision : ℕ
  pub cipher_name : Text
  pub payload_nonce : Text
  pub payload_ciphertext : Text
  pub wrap_name : Text
  pub wrap_nonce : Text
  pub wrapped_dek : Text
  pub aad_digest : Text
  pub secret_digest : Text
  pub created_at : ℕ
  pub updated_at : ℕ

-- The binding of a profile to a credential.
pub record Binding : Type 0 where
  pub credential_instance_id : Option Text
  pub internal : Bool
  pub revision : ℕ

pub record VaultRows : Type 0 where
  pub config : Option VaultConfig
  pub items : Table VaultItem
  pub credentials : Table CredentialRow
  pub profiles : Table Binding

abbrev pub is_ok {ℓ} : {A : Type ℓ} → Result A → Bool
is_ok (ok _) = true
is_ok (err _) = false

abbrev pub cipher : Text
cipher = bytes "aes-256-gcm"

unfoldable pub valid_vault_config : VaultConfig → Bool
valid_vault_config value =
    not (
      not (value.format_version == 1)
      || not (text_eq value.kdf_name (bytes "argon2id-v19"))
      || not (length value.kdf_salt == 16)
      || not (value.argon_time == 3)
      || not (value.argon_memory_kib == 65536)
      || ltb value.argon_parallelism 1
      || ltb 4 value.argon_parallelism
      || not (length value.key_check_nonce == 12)
      || not (length value.key_check_ciphertext == 49)
      || not (is_ok (validate_id value.initialized_by_device))
      || not (length value.init_request_digest == 64)
      || value.initialized_at == 0)
    && is_some (hex_decode value.init_request_digest)

unfoldable pub valid_vault_item : VaultItem → Bool
valid_vault_item value =
    not (
      not (is_ok (validate_id value.credential_instance_id))
      || not (is_ok (validate_id value.account_id))
      || not (is_ok (validate_id value.device_id))
      || not (text_eq value.provider codex)
      || not (value.envelope_version == 1)
      || slt value.credential_revision 1
      || not (text_eq value.cipher_name cipher)
      || not (text_eq value.wrap_name cipher)
      || not (length value.payload_nonce == 12)
      || ltb (length value.payload_ciphertext) 18
      || ltb 65552 (length value.payload_ciphertext)
      || not (length value.wrap_nonce == 12)
      || not (length value.wrapped_dek == 48)
      || not (length value.aad_digest == 64)
      || not (length value.secret_digest == 64)
      || value.created_at == 0
      || ltb value.updated_at value.created_at)
    && is_some (hex_decode value.aad_digest)
    && is_some (hex_decode value.secret_digest)

unfoldable pub vault_config : Bool → VaultRows → Result VaultConfig
vault_config reads t = do
  refuse_if (not reads) Code.vault_corrupt
  elim t.config [
    | none ↦ err Code.not_found
    | some value ↦ (do refuse_if (not (valid_vault_config value)) Code.vault_corrupt; ok value)
  ]

-- Whether it is a replay, and the configuration afterwards.
unfoldable pub initialized :
    Driver → Bool → VaultConfig → Option VaultConfig → Result (Bool × Option VaultConfig)
initialized d blocked config (some existing) = do
  refuse_if (not d.runs || not (valid_vault_config existing)) Code.vault_corrupt
  refuse_if
      (not (text_eq existing.initialized_by_device config.initialized_by_device)
        || not (text_eq existing.init_request_digest config.init_request_digest))
      Code.vault_already_initialized
  ok (true, some existing)
initialized d blocked config none = do
  refuse_if (not d.runs) Code.vault_corrupt
  refuse_if blocked Code.conflict
  ok (false, some config)

unfoldable pub write_config : Driver → Bool → VaultConfig → VaultRows → Result (Bool × VaultRows)
write_config d blocked config t = do
  (replay, config') ← initialized d blocked config t.config
  ok (replay, record t { config = config' })

unfoldable pub initialize_vault : Driver → Bool → VaultConfig → VaultRows → Result Bool × VaultRows
initialize_vault d blocked config t =
    if valid_vault_config config
    then with_tx d t (write_config d blocked config)
    else (err Code.invalid_argument, t)

unfoldable pub vault_item : Bool → VaultRows → Text → Result VaultItem
vault_item reads t id = do
  refuse_if (not reads) Code.vault_corrupt
  elim (t.items id) [
    | none ↦ err Code.not_found
    | some value ↦ (do refuse_if (not (valid_vault_item value)) Code.vault_corrupt; ok value)
  ]

-- `INSERT ... ON CONFLICT DO UPDATE`: an item that is there keeps its identity and its creation.
unfoldable pub upserted : Option VaultItem → VaultItem → VaultItem
upserted none item = item
upserted (some old) item = record old {
  credential_revision = item.credential_revision;
  payload_nonce = item.payload_nonce;
  payload_ciphertext = item.payload_ciphertext;
  wrap_nonce = item.wrap_nonce;
  wrapped_dek = item.wrapped_dek;
  aad_digest = item.aad_digest;
  secret_digest = item.secret_digest;
  updated_at = item.updated_at;
}

unfoldable pub credential_row : VaultRows → Text → Result CredentialRow
credential_row t id = elim (t.credentials id) [ none ↦ err Code.not_found | some row ↦ ok row ]

unfoldable pub check_revision : CredentialRow → ℕ → VaultItem → Result (Unit {0})
check_revision row expected item = do
  refuse_if (not (is_some row.account_id)) Code.not_found
  refuse_if
      (not (row.credential_revision == expected)
        || not (is_account row.account_id item.account_id)
        || not (text_eq row.device_id item.device_id)
        || not (text_eq row.provider codex)
        || not (item.credential_revision == inc64 expected))
      Code.credential_revision_conflict
  refuse_if (unusable row.status) Code.credential_revision_conflict
  refuse_if row.revocation_reserved Code.credential_revision_conflict

unfoldable pub write_item :
    Driver → ℕ → VaultItem → CredentialStatus → VaultRows → Result (Unit {0} × VaultRows)
write_item d expected item status t = do
  refuse_if (not d.runs) Code.conflict
  row ← credential_row t item.credential_instance_id
  check_revision row expected item
  ok (
    tt,
    record t {
      items =
          put t.items item.credential_instance_id
            (upserted (t.items item.credential_instance_id) item);
      credentials =
          put t.credentials item.credential_instance_id
            (record row { credential_revision = item.credential_revision; status = status });
    },
  )

unfoldable pub replace_vault_item_cas :
    Driver → ℕ → VaultItem → CredentialStatus → VaultRows → Result (Unit {0}) × VaultRows
replace_vault_item_cas d expected item status t =
    if valid_vault_item item
    then with_tx d t (write_item d expected item status)
    else (err Code.invalid_argument, t)
