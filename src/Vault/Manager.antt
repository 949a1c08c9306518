-- ===== src/Vault/Manager.antt =====
-- internal/vault/vault.go: `Manager`, without the nil receivers. Random bytes and the number of
-- processors are arguments; the random source of Go never fails. `reads` is false where a query
-- fails.
use multi_agent_desk.Prelude.{
  ℕ, Bool, true, false, not, ◌||◌, Option, none, some, [], ◌∷◌, ltb, ◌==◌, if◌then◌else◌, inc64,
  length, Text, text_eq, bytes,
}
use multi_agent_desk.Domain.Errors.{Code, Result, ok, err, ◌>>=◌, ◌>>◌, refuse_if}
use multi_agent_desk.Domain.Id.{validate_id, hex_encode}
use multi_agent_desk.Domain.Session.{is_empty}
use multi_agent_desk.Storage.Driver.{Driver}
use multi_agent_desk.Storage.Vault.{VaultConfig, VaultRows, vault_config, initialize_vault, is_ok}
use multi_agent_desk.Vault.Fields.{encode_fields}
use multi_agent_desk.Vault.Crypto.{Crypto, new_gcm}

pub data VaultState : Type 0 where
  uninitialized locked unlocked corrupt : VaultState

-- `persistent` is whether there is a store; an empty `kek` is a nil slice.
pub record Manager : Type 0 where
  pub persistent : Bool
  pub state : VaultState
  pub unlock_epoch : ℕ
  pub kek : Text

abbrev pub max_password_size : ℕ
max_password_size = 1024

abbrev pub key_check_plaintext : Text
key_check_plaintext = bytes "MultiAgentDesk Vault v1 key check"

abbrev pub key_check_aad : Text
key_check_aad = bytes "vault_config:v1"

unfoldable pub new_manager : Manager
new_manager = record { persistent = false; state = VaultState.locked; unlock_epoch = 0; kek = [] }

unfoldable pub manager_state : Result VaultConfig → Result VaultState
manager_state (ok config) = ok VaultState.locked
manager_state (err Code.not_found) = ok VaultState.uninitialized
manager_state (err e) = err e

unfoldable pub new_persistent_manager : Bool → VaultRows → Result Manager
new_persistent_manager reads t = do
  state ← manager_state (vault_config reads t)
  ok (record { persistent = true; state = state; unlock_epoch = 0; kek = [] })

unfoldable pub parallelism : ℕ → ℕ
parallelism count = if ltb count 1 then 1 else if ltb 4 count then 4 else count

unfoldable pub init_request_digest : Crypto → Text → Text → Text
init_request_digest c client_id request_key =
    hex_encode (c.sha256 (encode_fields (client_id ∷ request_key ∷ [])))

-- What one call of `Initialize` is given.
pub record Initialization : Type 0 where
  pub client_id : Text
  pub request_key : Text
  pub password : Text
  pub at : ℕ
  pub salt : Text
  pub nonce : Text
  pub cpus : ℕ

unfoldable pub config_for : Crypto → Initialization → VaultConfig
config_for c i =
    let key = c.derive i.password i.salt 3 65536 (parallelism i.cpus) in
    record {
      format_version = 1;
      kdf_name = bytes "argon2id-v19";
      kdf_salt = i.salt;
      argon_time = 3;
      argon_memory_kib = 65536;
      argon_parallelism = parallelism i.cpus;
      key_check_nonce = i.nonce;
      key_check_ciphertext = c.seal key i.nonce key_check_plaintext key_check_aad;
      initialized_at = i.at;
      initialized_by_device = i.client_id;
      init_request_digest = init_request_digest c i.client_id i.request_key;
    }

unfoldable pub check_initialization : Crypto → Manager → Initialization → Result (Unit {0})
check_initialization c m i = do
  refuse_if
      (not m.persistent
        || not (is_ok (validate_id i.client_id))
        || is_empty i.request_key
        || ltb 128 (length i.request_key)
        || ltb (length i.password) 1
        || ltb max_password_size (length i.password)
        || i.at == 0)
      Code.invalid_argument
  refuse_if (not (new_gcm (c.derive i.password i.salt 3 65536 (parallelism i.cpus)))) Code.conflict

-- The rest of `Initialize`: also a replayed initialization forgets the key and locks.
abbrev pub after_initialization :
    Manager → Result Bool × VaultRows → Result VaultState × Manager × VaultRows
after_initialization m (err e, t) = (err e, m, t)
after_initialization m (ok _, t) =
    (ok VaultState.locked, record m { state = VaultState.locked; kek = [] }, t)

abbrev pub initialize_checked :
    Result (Unit {0})
    → Driver
    → Bool
    → VaultConfig
    → Manager
    → VaultRows
    → Result VaultState × Manager × VaultRows
initialize_checked (err e) d blocked config m t = (err e, m, t)
initialize_checked (ok _) d blocked config m t =
    after_initialization m (initialize_vault d blocked config t)

unfoldable pub initialize :
    Crypto
    → Driver
    → Bool
    → Initialization
    → Manager
    → VaultRows
    → Result VaultState × Manager × VaultRows
initialize c d blocked i m t =
    initialize_checked (check_initialization c m i) d blocked (config_for c i) m t

-- Whether the key opens the key check.
unfoldable pub opens_check : Option Text → Bool
opens_check none = false
opens_check (some plain) = text_eq plain key_check_plaintext

abbrev pub uninitialized_is_locked : Result VaultConfig → Result VaultConfig
uninitialized_is_locked (err Code.not_found) = err Code.vault_locked
uninitialized_is_locked r = r

abbrev pub key_of : Crypto → Text → VaultConfig → Text
key_of c secret config =
    c.derive secret config.kdf_salt config.argon_time config.argon_memory_kib
      config.argon_parallelism

unfoldable pub unlock_key : Crypto → Bool → Text → VaultRows → Result Text
unlock_key c reads secret t = do
  config ← uninitialized_is_locked (vault_config reads t)
  refuse_if (not (new_gcm (key_of c secret config))) Code.vault_unlock_failed
  refuse_if
      (not (
        opens_check (
          c.unseal (key_of c secret config) config.key_check_nonce config.key_check_ciphertext
            key_check_aad)))
      Code.vault_unlock_failed
  ok (key_of c secret config)

abbrev pub with_key : Manager → Result Text → Result (Unit {0}) × Manager
with_key m (err e) = (err e, m)
with_key m (ok key) = (
  ok tt,
  record m { kek = key; state = VaultState.unlocked; unlock_epoch = inc64 m.unlock_epoch },
)

unfoldable pub unlock : Crypto → Bool → Text → VaultRows → Manager → Result (Unit {0}) × Manager
unlock c reads secret t m =
    if ltb (length secret) 1 || ltb max_password_size (length secret)
    then (err Code.invalid_argument, m)
    else if not m.persistent
    then (ok tt, record m { state = VaultState.unlocked; unlock_epoch = inc64 m.unlock_epoch })
    else with_key m (unlock_key c reads secret t)

abbrev pub lock_state : Bool → VaultState → VaultState
lock_state false state = VaultState.locked
lock_state true VaultState.uninitialized = VaultState.uninitialized
lock_state true VaultState.corrupt = VaultState.corrupt
lock_state true state = VaultState.locked

unfoldable pub lock : Manager → Manager
lock m = record m { kek = []; state = lock_state m.persistent m.state }

abbrev pub is_unlocked : VaultState → Bool
is_unlocked VaultState.unlocked = true
is_unlocked _ = false

unfoldable pub require_unlocked : Manager → Result (Unit {0})
require_unlocked m = refuse_if (not (is_unlocked m.state)) Code.vault_locked

unfoldable pub current_kek : Manager → Result Text
current_kek m = do
  refuse_if (not (is_unlocked m.state) || not (length m.kek == 32)) Code.vault_locked
  ok m.kek
