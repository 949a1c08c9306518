-- ===== src/Vault/Examples.antt =====
-- The theorems about the vault at a concrete cipher and credential.
use multi_agent_desk.Prelude.{
  ◌-◌, ◌≡◌, ◌∙◌, refl, ap, inl, none, some, List, [], ◌∷◌, ◌++◌, length, length-append, take,
  take-append, Text, text_eq, bytes, if◌then◌else◌, arith, true, false,
}
use multi_agent_desk.Domain.Errors.{ok}
use multi_agent_desk.Domain.Provider.{codex}
use multi_agent_desk.Device.Json.{Token}
use multi_agent_desk.Storage.Driver.{Driver}
use multi_agent_desk.Storage.Links.{CredentialStatus, CredentialRow}
use multi_agent_desk.Storage.Vault.{VaultItem, VaultRows}
use multi_agent_desk.Storage.Vault.Revocation.{reserve_revocation, reserve}
use multi_agent_desk.Vault.Fields.{CredentialMetadata}
use multi_agent_desk.Vault.Fields.Injective.{SameBinding, IsBounded, credential_aad_inj}
use multi_agent_desk.Vault.Crypto.{Crypto, Opens}
use multi_agent_desk.Vault.Manager.{VaultState, Manager, Initialization, config_for}
use multi_agent_desk.Vault.Sealing.{Fresh, sealed_item, seal_credential, read_credential}
use multi_agent_desk.Vault.Crypto.{validate_json_object, new_gcm}
use multi_agent_desk.Vault.Manager.{
  init_request_digest, parallelism, current_kek, unlock, unlock_key, lock, opens_check, is_unlocked,
}
use multi_agent_desk.Vault.Fields.{credential_aad, decimal, encode_field, encode_fields, format_int}
use multi_agent_desk.Vault.Sealing.{sealing_kek}
use multi_agent_desk.Device.Json.{consume, more, closes_object, closes_array, seen_key}
use multi_agent_desk.Device.Frames.{put_uint32}
use multi_agent_desk.Domain.Id.{
  validate_id, hex_encode, hex_decode, decodes_to, last_index_byte, valid_id_at, valid_id_prefix,
}
use multi_agent_desk.Storage.Driver.{with_tx, commit}
use multi_agent_desk.Storage.Table.{put}
use multi_agent_desk.Storage.Vault.{
  vault_config, valid_vault_config, initialized, replace_vault_item_cas, valid_vault_item,
  write_item, credential_row, check_revision, upserted,
}
use multi_agent_desk.Vault.History.{Call, run, step, Ready, read_after_seal}

abbrev zeros : Text
zeros = 0 ∷ 0 ∷ 0 ∷ 0 ∷ 0 ∷ 0 ∷ 0 ∷ 0 ∷ 0 ∷ 0 ∷ 0 ∷ 0 ∷ 0 ∷ 0 ∷ 0 ∷ 0 ∷ []

-- A cipher that hides nothing, and adds a tag of sixteen bytes.
abbrev plain_cipher : Crypto
plain_cipher = record {
  derive = λ password salt time memory lanes. zeros ++ zeros;
  seal = λ key nonce plain aad. plain ++ zeros;
  unseal = λ key nonce text aad. some (take (length text - 16) text);
  sha256 = λ text. zeros ++ zeros;
  tokens = λ text. Token.open_object ∷ Token.close_object ∷ [];
}

plain_cipher-Opens : Opens plain_cipher
plain_cipher-Opens key nonce plain aad =
    let size : length (plain ++ zeros) - 16 ≡ length plain =
      let l = length-append plain zeros in omega arith in
    ap (λ n. some (take n (plain ++ zeros))) size ∙ ap some (take-append plain zeros)

abbrev client : Text
client = bytes "client_00000000000000000000000000000009"

abbrev credential : Text
credential = bytes "credential_00000000000000000000000000000002"

abbrev start : Initialization
start = record {
  client_id = client;
  request_key = bytes "first";
  password = bytes "hunter2";
  at = 50;
  salt = zeros;
  nonce = take 12 zeros;
  cpus = 8;
}

abbrev row : CredentialRow
row = record {
  device_id = bytes "device_00000000000000000000000000000001";
  provider = codex;
  account_id = some (bytes "account_00000000000000000000000000000001");
  status = CredentialStatus.unknown;
  credential_revision = 1;
  revocation_reserved = false;
}

abbrev rows : VaultRows
rows = record {
  config = some (config_for plain_cipher start);
  items = λ k. none;
  credentials = λ k. if text_eq credential k then some row else none;
  profiles = λ k. none;
}

abbrev metadata : CredentialMetadata
metadata = record {
  credential_instance_id = credential;
  account_id = bytes "account_00000000000000000000000000000001";
  device_id = bytes "device_00000000000000000000000000000001";
  provider = codex;
  expected_revision = 1;
  created_at = 60;
  updated_at = 60;
}

abbrev open_manager : Manager
open_manager = record {
  persistent = true;
  state = VaultState.unlocked;
  unlock_epoch = 1;
  kek = zeros ++ zeros;
}

abbrev serving : Driver
serving = record { begins = true; runs = true; commits = true }

abbrev fresh : Fresh
fresh = record { dek = zeros ++ zeros; payload_nonce = take 12 zeros; wrap_nonce = take 12 zeros }

abbrev sealed_rows : VaultRows
sealed_rows = (seal_credential plain_cipher serving fresh metadata (bytes "{}") open_manager rows).1

is_sealed_at :
    (seal_credential plain_cipher serving fresh metadata (bytes "{}") open_manager rows).0 ≡ ok 2
unfolding seal_credential sealing_kek text_eq validate_json_object consume more closes_object
    current_kek new_gcm replace_vault_item_cas valid_vault_item validate_id sealed_item hex_encode
    with_tx write_item credential_row check_revision put_uint32 closes_array seen_key hex_decode
    decodes_to last_index_byte valid_id_at valid_id_prefix upserted commit put credential_aad
    decimal encode_field encode_fields format_int
is_sealed_at = refl

is_sealed :
    seal_credential plain_cipher serving fresh metadata (bytes "{}") open_manager rows
    ≡ (ok 2, sealed_rows)
is_sealed = ap (λ a. (a, sealed_rows)) is_sealed_at

-- The vault is locked, a revocation is asked for another id, and the vault is unlocked again.
abbrev calls : List Call
calls = Call.locks ∷ Call.reserves serving 0 client 70 ∷ Call.unlocks true (bytes "hunter2") ∷ []

is_Ready : Ready plain_cipher (bytes "hunter2") (config_for plain_cipher start) (open_manager, rows)
is_Ready = record {
  persistent = refl;
  configured = refl;
  matching = λ id item none_there. absurd (none_ne item none_there);
  keyed = λ open_now. refl;
}
  where
    none_ne : (item : VaultItem) → none ≡ some item → ⊥
    none_ne item h = ground arith

is_opened : (run plain_cipher calls (open_manager, sealed_rows)).0.state ≡ VaultState.unlocked
unfolding seal_credential sealing_kek text_eq validate_json_object consume more closes_object
    current_kek new_gcm replace_vault_item_cas valid_vault_item validate_id sealed_item hex_encode
    with_tx write_item credential_row check_revision put_uint32 closes_array seen_key hex_decode
    decodes_to last_index_byte valid_id_at valid_id_prefix upserted commit put credential_aad
    decimal encode_field encode_fields format_int run step lock unlock unlock_key vault_config
    valid_vault_config reserve_revocation reserve config_for init_request_digest parallelism
    opens_check initialized
is_opened = refl

read_after_seal_example :
    read_credential plain_cipher true credential
      (run plain_cipher calls (open_manager, sealed_rows)).0
      (run plain_cipher calls (open_manager, sealed_rows)).1
    ≡ ok (bytes "{}", 2)
read_after_seal_example =
    read_after_seal plain_cipher (bytes "hunter2") (config_for plain_cipher start) serving fresh
      metadata (bytes "{}") open_manager rows sealed_rows 2 calls plain_cipher-Opens is_Ready
      (λ old none_there. absurd (none_ne old none_there)) is_sealed (tt, (tt, (inl refl, tt)))
      (ap is_unlocked is_opened)
  where
    none_ne : (item : VaultItem) → none ≡ some item → ⊥
    none_ne item h = ground arith

credential_aad_inj_example : SameBinding metadata metadata 2 2
credential_aad_inj_example =
    credential_aad_inj metadata metadata 2 2 bounded bounded (omega arith) (omega arith) refl
  where
    bounded : IsBounded metadata
    bounded = record {
      credential = omega arith;
      account = omega arith;
      device = omega arith;
      provider = omega arith;
    }
