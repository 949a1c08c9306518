-- ===== src/Vault/Sealing.antt =====
-- internal/vault/vault.go: `sealCredential` without an enrollment, and `ReadCredential`.
use multi_agent_desk.Prelude.{
  ℕ, ◌+◌, ◌-◌, ◌%◌, ◌^◌, Bool, not, ◌||◌, Option, none, some, ltb, ◌==◌, slt, inc64, length, Text,
  text_eq,
}
use multi_agent_desk.Domain.Errors.{Code, Result, ok, err, ◌>>=◌, ◌>>◌, refuse_if}
use multi_agent_desk.Domain.Id.{hex_encode}
use multi_agent_desk.Domain.Provider.{codex}
use multi_agent_desk.Storage.Driver.{Driver}
use multi_agent_desk.Storage.Links.{CredentialStatus}
use multi_agent_desk.Storage.Vault.{
  VaultItem, VaultRows, cipher, replace_vault_item_cas, vault_item,
}
use multi_agent_desk.Vault.Fields.{CredentialMetadata, credential_aad}
use multi_agent_desk.Vault.Crypto.{Crypto, new_gcm, validate_json_object}
use multi_agent_desk.Vault.Manager.{Manager, current_kek}

abbrev pub max_payload_size : ℕ
max_payload_size = 65536

-- The random bytes of one item.
pub record Fresh : Type 0 where
  pub dek : Text
  pub payload_nonce : Text
  pub wrap_nonce : Text

unfoldable pub sealed_item : Crypto → Text → Fresh → CredentialMetadata → Text → VaultItem
sealed_item c kek fresh metadata plaintext =
    let next_revision = inc64 metadata.expected_revision in
    let aad = credential_aad metadata next_revision in
    record {
      credential_instance_id = metadata.credential_instance_id;
      account_id = metadata.account_id;
      device_id = metadata.device_id;
      provider = codex;
      envelope_version = 1;
      credential_revision = next_revision;
      cipher_name = cipher;
      payload_nonce = fresh.payload_nonce;
      payload_ciphertext = c.seal fresh.dek fresh.payload_nonce plaintext aad;
      wrap_name = cipher;
      wrap_nonce = fresh.wrap_nonce;
      wrapped_dek = c.seal kek fresh.wrap_nonce fresh.dek aad;
      aad_digest = hex_encode (c.sha256 aad);
      secret_digest = hex_encode (c.sha256 plaintext);
      created_at = metadata.created_at;
      updated_at = metadata.updated_at;
    }

unfoldable pub sealing_kek : Crypto → Fresh → CredentialMetadata → Text → Manager → Result Text
sealing_kek c fresh metadata plaintext m = do
  refuse_if
      (not m.persistent
        || not (text_eq metadata.provider codex)
        || slt metadata.expected_revision 1
        || ltb (length plaintext) 2
        || ltb max_payload_size (length plaintext)
        || metadata.created_at == 0
        || metadata.updated_at == 0)
      Code.invalid_argument
  refuse_if (not (validate_json_object (c.tokens plaintext))) Code.invalid_argument
  kek ← current_kek m
  refuse_if (not (new_gcm fresh.dek)) Code.conflict
  refuse_if (not (new_gcm kek)) Code.conflict
  ok kek

abbrev pub saved_revision : ℕ → Result (Unit {0}) × VaultRows → Result ℕ × VaultRows
saved_revision revision (err e, t) = (err e, t)
saved_revision revision (ok _, t) = (ok revision, t)

abbrev pub seal_with :
    Crypto
    → Driver
    → Fresh
    → CredentialMetadata
    → Text
    → Result Text
    → VaultRows
    → Result ℕ × VaultRows
seal_with c d fresh metadata plaintext (err e) t = (err e, t)
seal_with c d fresh metadata plaintext (ok kek) t =
    saved_revision (inc64 metadata.expected_revision) (
      replace_vault_item_cas d metadata.expected_revision
        (sealed_item c kek fresh metadata plaintext) CredentialStatus.healthy t)

unfoldable pub seal_credential :
    Crypto → Driver → Fresh → CredentialMetadata → Text → Manager → VaultRows → Result ℕ × VaultRows
seal_credential c d fresh metadata plaintext m t =
    seal_with c d fresh metadata plaintext (sealing_kek c fresh metadata plaintext m) t

-- The identity that the item says it has.
unfoldable pub metadata_of : VaultItem → CredentialMetadata
metadata_of item = record {
  credential_instance_id = item.credential_instance_id;
  account_id = item.account_id;
  device_id = item.device_id;
  provider = item.provider;
  expected_revision = (item.credential_revision + 2 ^ 64 - 1) % 2 ^ 64;
  created_at = 0;
  updated_at = 0;
}

abbrev pub or_corrupt : Option Text → Result Text
or_corrupt none = err Code.vault_corrupt
or_corrupt (some plain) = ok plain

unfoldable pub open_item : Crypto → Text → VaultItem → Result (Text × ℕ)
open_item c kek item = do
  let aad = credential_aad (metadata_of item) item.credential_revision
  refuse_if (not (text_eq (hex_encode (c.sha256 aad)) item.aad_digest)) Code.vault_corrupt
  refuse_if (not (new_gcm kek)) Code.vault_corrupt
  dek ← or_corrupt (c.unseal kek item.wrap_nonce item.wrapped_dek aad)
  refuse_if (not (new_gcm dek)) Code.vault_corrupt
  plain ← or_corrupt (c.unseal dek item.payload_nonce item.payload_ciphertext aad)
  refuse_if (not (validate_json_object (c.tokens plain))) Code.vault_corrupt
  refuse_if (not (text_eq (hex_encode (c.sha256 plain)) item.secret_digest)) Code.vault_corrupt
  ok (plain, item.credential_revision)

unfoldable pub read_credential : Crypto → Bool → Text → Manager → VaultRows → Result (Text × ℕ)
read_credential c reads credential_id m t = do
  kek ← current_kek m
  item ← vault_item reads t credential_id
  open_item c kek item
