-- ===== src/Storage/Vault/Matching.antt =====
-- The items of the vault belong to the credentials under whose ids they stand.
use multi_agent_desk.Prelude.{
  ℕ, true, false, not, ◌≡◌, ◌∙◌, refl, sym, ap, Option, none, some, Text, text_eq_iff, arith,
}
use multi_agent_desk.Domain.Errors.{Code, Result, ok, err, bind-ok, refuse_if, ◌>>=◌}
use multi_agent_desk.Domain.Provider.{codex}
use multi_agent_desk.Storage.Driver.{Driver}
use multi_agent_desk.Storage.Table.{put}
use multi_agent_desk.Storage.Links.{CredentialStatus, CredentialRow, is_account, unusable}
use multi_agent_desk.Storage.Vault.{
  VaultItem, VaultRows, cipher, upserted, credential_row, check_revision, write_item,
  valid_vault_item,
}

pub record Matches (id : Text) (row : CredentialRow) (item : VaultItem) : Type 0 where
  pub named : item.credential_instance_id ≡ id
  pub account : row.account_id ≡ some item.account_id
  pub device : row.device_id ≡ item.device_id
  pub provider : item.provider ≡ codex
  pub version : item.envelope_version ≡ 1
  pub payload_cipher : item.cipher_name ≡ cipher
  pub wrap_cipher : item.wrap_name ≡ cipher

pub record Matched (t : VaultRows) (id : Text) (item : VaultItem) : Type 0 where
  pub row : CredentialRow
  pub stored : t.credentials id ≡ some row
  pub matches : Matches id row item

abbrev pub Matching : VaultRows → Type 0
Matching t = (id : Text) (item : VaultItem) → t.items id ≡ some item → Matched t id item

pub record Checked (row : CredentialRow) (item : VaultItem) : Type 0 where
  pub account : row.account_id ≡ some item.account_id
  pub device : row.device_id ≡ item.device_id
  pub live : row.revocation_reserved ≡ false
  pub usable : unusable row.status ≡ false

account_lem : (o : Option Text) (a : Text) → is_account o a ≡ true → o ≡ some a
account_lem none a h = absurd (ground arith)
account_lem (some b) a h = ap some ((text_eq_iff b a).0 h)

check_revision-Checked :
    (row : CredentialRow) (expected : ℕ) (item : VaultItem) {done : Unit {0}}
    → check_revision row expected item ≡ ok done
    → Checked row item
unfolding check_revision
check_revision-Checked row expected item h = record {
  account = account_lem row.account_id item.account_id (ground arith);
  device = (text_eq_iff row.device_id item.device_id).0 (ground arith);
  live = ground arith;
  usable = ground arith;
}

pub upserted-Matches :
    (id : Text) (old : Option VaultItem) (item : VaultItem) (row row' : CredentialRow)
    → ((i : VaultItem) → old ≡ some i → Matches id row i)
    → Matches id row item
    → row'.account_id ≡ row.account_id
    → row'.device_id ≡ row.device_id
    → Matches id row' (upserted old item)
unfolding upserted
upserted-Matches id none item row row' was new account device = record {
  named = new.named;
  account = account ∙ new.account;
  device = device ∙ new.device;
  provider = new.provider;
  version = new.version;
  payload_cipher = new.payload_cipher;
  wrap_cipher = new.wrap_cipher;
}
upserted-Matches id (some i) item row row' was new account device =
    let there = was i refl in
    record {
      named = there.named;
      account = account ∙ there.account;
      device = device ∙ there.device;
      provider = there.provider;
      version = there.version;
      payload_cipher = there.payload_cipher;
      wrap_cipher = there.wrap_cipher;
    }

pub record IsSealable (item : VaultItem) : Type 0 where
  pub provider : item.provider ≡ codex
  pub version : item.envelope_version ≡ 1
  pub payload_cipher : item.cipher_name ≡ cipher
  pub wrap_cipher : item.wrap_name ≡ cipher

pub valid_vault_item-IsSealable :
    (item : VaultItem) → valid_vault_item item ≡ true → IsSealable item
unfolding valid_vault_item
valid_vault_item-IsSealable item h = record {
  provider = (text_eq_iff item.provider codex).0 (ground arith);
  version = ground arith;
  payload_cipher = (text_eq_iff item.cipher_name cipher).0 (ground arith);
  wrap_cipher = (text_eq_iff item.wrap_name cipher).0 (ground arith);
}

-- What a write of an item that succeeds has done.
pub record Written (item : VaultItem) (t t' : VaultRows) : Type 0 where
  pub row : CredentialRow
  pub row' : CredentialRow
  pub found : t.credentials item.credential_instance_id ≡ some row
  pub matches : Matches item.credential_instance_id row item
  pub account : row'.account_id ≡ row.account_id
  pub device : row'.device_id ≡ row.device_id
  pub live : row.revocation_reserved ≡ false
  pub usable : unusable row.status ≡ false
  pub items :
      t'.items
      ≡ put t.items item.credential_instance_id
          (upserted (t.items item.credential_instance_id) item)
  pub credentials : t'.credentials ≡ put t.credentials item.credential_instance_id row'
  pub config : t'.config ≡ t.config

rows_of : Result (Unit {0} × VaultRows) → VaultRows → VaultRows
rows_of (err e) t = t
rows_of (ok (done, t)) _ = t

pub credential_row_lem :
    (t : VaultRows) (id : Text) (row : CredentialRow)
    → credential_row t id ≡ ok row
    → t.credentials id ≡ some row
unfolding credential_row
credential_row_lem t id row h = ground arith

pub write_item-Written :
    (d : Driver) (expected : ℕ) (item : VaultItem) (status : CredentialStatus) (t t' : VaultRows)
    (done : Unit {0})
    → valid_vault_item item ≡ true
    → write_item d expected item status t ≡ ok (done, t')
    → Written item t t'
unfolding write_item rows_of
write_item-Written d expected item status t t' done valid wrote =
    let id = item.credential_instance_id in
    let result : CredentialRow → VaultRows = λ row. record t {
      items = put t.items id (upserted (t.items id) item);
      credentials =
          put t.credentials id
            (record row { credential_revision = item.credential_revision; status = status });
    } in
    let ready =
      bind-ok (refuse_if (not d.runs) Code.conflict)
        (λ ran. credential_row t id >>= λ row.
          check_revision row expected item >>= λ checked. ok (tt, result row))
        wrote in
    let found =
      bind-ok (credential_row t id)
        (λ row. check_revision row expected item >>= λ checked. ok (tt, result row)) ready.rest in
    let checked =
      bind-ok (check_revision found.value expected item) (λ checked. ok (tt, result found.value))
        found.rest in
    let same : result found.value ≡ t' = ap (λ r. rows_of r t) checked.rest in
    let match = check_revision-Checked found.value expected item checked.first in
    let sealable = valid_vault_item-IsSealable item valid in
    record {
      row = found.value;
      row' = record found.value { credential_revision = item.credential_revision; status = status };
      found = credential_row_lem t id found.value found.first;
      matches = record {
        named = refl;
        account = match.account;
        device = match.device;
        provider = sealable.provider;
        version = sealable.version;
        payload_cipher = sealable.payload_cipher;
        wrap_cipher = sealable.wrap_cipher;
      };
      account = refl;
      device = refl;
      live = match.live;
      usable = match.usable;
      items = ap (λ u. u.items) (sym same);
      credentials = ap (λ u. u.credentials) (sym same);
      config = ap (λ u. u.config) (sym same);
    }
