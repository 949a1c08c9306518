-- ===== src/Storage/Vault/Examples.antt =====
-- A revocation at a concrete credential.
use multi_agent_desk.Prelude.{
  ◌≡◌, refl, ap, none, some, [], ◌∷◌, Text, text_eq, bytes, if◌then◌else◌, arith, true,
}
use multi_agent_desk.Domain.Errors.{ok}
use multi_agent_desk.Domain.Id.{
  validate_id, valid_id_at, last_index_byte, valid_id_prefix, hex_decode, decodes_to,
}
use multi_agent_desk.Domain.Provider.{codex}
use multi_agent_desk.Storage.Driver.{Driver, with_tx, commit}
use multi_agent_desk.Storage.Links.{CredentialStatus, CredentialRow}
use multi_agent_desk.Storage.Vault.{VaultItem, VaultRows, credential_row, cipher}
use multi_agent_desk.Storage.Vault.Revocation.{finalize_revocation, finalize}
use multi_agent_desk.Storage.Vault.Revoked.{Call, run, NoWayBack, revoked_forever}

abbrev serving : Driver
serving = record { begins = true; runs = true; commits = true }

abbrev id : Text
id = bytes "credential_00000000000000000000000000000002"

abbrev reserved : CredentialRow
reserved = record {
  device_id = bytes "device_00000000000000000000000000000001";
  provider = codex;
  account_id = some (bytes "account_00000000000000000000000000000001");
  status = CredentialStatus.healthy;
  credential_revision = 2;
  revocation_reserved = true;
}

abbrev item : VaultItem
item = record {
  credential_instance_id = id;
  account_id = bytes "account_00000000000000000000000000000001";
  device_id = bytes "device_00000000000000000000000000000001";
  provider = codex;
  envelope_version = 1;
  credential_revision = 3;
  cipher_name = cipher;
  payload_nonce = [];
  payload_ciphertext = [];
  wrap_name = cipher;
  wrap_nonce = [];
  wrapped_dek = [];
  aad_digest = [];
  secret_digest = [];
  created_at = 60;
  updated_at = 60;
}

abbrev rows : VaultRows
rows = record {
  config = none;
  items = λ k. if text_eq id k then some item else none;
  credentials = λ k. if text_eq id k then some reserved else none;
  profiles = λ k. none;
}

abbrev revoked_rows : VaultRows
revoked_rows = (finalize_revocation serving 0 id 80 rows).1

is_finalized_at : (finalize_revocation serving 0 id 80 rows).0 ≡ ok tt
unfolding finalize_revocation finalize validate_id valid_id_at last_index_byte valid_id_prefix
    hex_decode decodes_to with_tx commit credential_row text_eq
is_finalized_at = refl

revoked_forever_example : NoWayBack id (
    run
      (Call.reserves serving 0 id 90 ∷ Call.replaces serving 2 item CredentialStatus.healthy ∷ [])
      revoked_rows)
unfolding text_eq
revoked_forever_example =
    revoked_forever serving 0 id 80 rows revoked_rows
      (Call.reserves serving 0 id 90 ∷ Call.replaces serving 2 item CredentialStatus.healthy ∷ [])
      (λ row stored revoked. absurd (ground arith)) (ap (λ r. (r, revoked_rows)) is_finalized_at)
