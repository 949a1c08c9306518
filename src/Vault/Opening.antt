-- ===== src/Vault/Opening.antt =====
-- An item that was sealed is opened by the same key.
use multi_agent_desk.Prelude.{
  some_inj, ℕ, ◌<◌, ◌≤◌, true, not, ◌||◌, ◌≡◌, ◌∙◌, refl, sym, ap, inl, inr, ◌⊎◌, some, ◌==◌, inc64,
  length, Text, text_eq_iff, Option-cases, Bool-cases, arith,
}
use mathlib.Core.Path.{subst}
use multi_agent_desk.Domain.Errors.{Code, Result, ok, err, result_cases}
use multi_agent_desk.Domain.Id.{hex_encode}
use multi_agent_desk.Domain.Provider.{codex}
use multi_agent_desk.Storage.Driver.{Driver, with_tx-ok}
use multi_agent_desk.Storage.Table.{put_self}
use multi_agent_desk.Storage.Links.{CredentialStatus, CredentialRow}
use multi_agent_desk.Storage.Vault.{
  VaultItem, VaultRows, upserted, write_item, replace_vault_item_cas, vault_item, valid_vault_item,
}
use multi_agent_desk.Storage.Vault.Matching.{Matches, Matching, Written, write_item-Written}
use multi_agent_desk.Storage.Vault.Keeping.{Written-Matching}
use multi_agent_desk.Vault.Fields.{CredentialMetadata, credential_aad}
use multi_agent_desk.Vault.Crypto.{Crypto, Opens, new_gcm, validate_json_object}
use multi_agent_desk.Vault.Manager.{Manager, current_kek, is_unlocked}
use multi_agent_desk.Vault.Sealing.{
  Fresh, sealed_item, sealing_kek, saved_revision, seal_credential, metadata_of, open_item,
  read_credential,
}

credential_aad_fields :
    (m n : CredentialMetadata) (revision : ℕ)
    → m.credential_instance_id ≡ n.credential_instance_id
    → m.account_id ≡ n.account_id
    → m.device_id ≡ n.device_id
    → m.provider ≡ n.provider
    → credential_aad m revision ≡ credential_aad n revision
unfolding credential_aad
credential_aad_fields m n revision id account device provider =
    rw (id, account, device, provider) refl

-- An upserted item is the new one, but for the time of its creation.
upserted-Matches_lem :
    (id : Text) (row : CredentialRow) (old item : VaultItem)
    → Matches id row old
    → Matches id row item
    → upserted (some old) item ≡ record item { created_at = old.created_at }
unfolding upserted
upserted-Matches_lem id row old item was new =
    let account = some_inj (sym was.account ∙ new.account) in
    λ i. record item {
      credential_instance_id = (was.named ∙ sym new.named) i;
      account_id = account i;
      device_id = (sym was.device ∙ new.device) i;
      provider = (was.provider ∙ sym new.provider) i;
      envelope_version = (was.version ∙ sym new.version) i;
      cipher_name = (was.payload_cipher ∙ sym new.payload_cipher) i;
      wrap_name = (was.wrap_cipher ∙ sym new.wrap_cipher) i;
      created_at = old.created_at;
    }

valid_created :
    (item : VaultItem) (k : ℕ)
    → valid_vault_item item ≡ true
    → 0 < k
    → k ≤ item.updated_at
    → valid_vault_item (record item { created_at = k }) ≡ true
unfolding valid_vault_item
valid_created item k valid positive before = ground arith

open_item-sealed :
    (c : Crypto) (kek : Text) (fresh : Fresh) (metadata : CredentialMetadata) (plain : Text) (k : ℕ)
    → Opens c
    → metadata.provider ≡ codex
    → new_gcm kek ≡ true
    → new_gcm fresh.dek ≡ true
    → validate_json_object (c.tokens plain) ≡ true
    → open_item c kek (record (sealed_item c kek fresh metadata plain) { created_at = k })
      ≡ ok (plain, inc64 metadata.expected_revision)
unfolding open_item sealed_item metadata_of
open_item-sealed c kek fresh metadata plain k opens codex_provider wraps encrypts json =
    let revision = inc64 metadata.expected_revision in
    let aad = credential_aad metadata revision in
    let same =
      credential_aad_fields
        (metadata_of (record (sealed_item c kek fresh metadata plain) { created_at = k })) metadata
        revision refl refl refl (sym codex_provider) in
    rw
      (
        same,
        (text_eq_iff (hex_encode (c.sha256 aad)) (hex_encode (c.sha256 aad))).1 refl,
        wraps,
        opens kek fresh.wrap_nonce fresh.dek aad,
        encrypts,
        opens fresh.dek fresh.payload_nonce plain aad,
        json,
        (text_eq_iff (hex_encode (c.sha256 plain)) (hex_encode (c.sha256 plain))).1 refl,
      )
      refl

-- What a sealing that succeeds found and left.
pub record Sealed (c : Crypto) (metadata : CredentialMetadata) (plain : Text) (m : Manager)
    (t t' : VaultRows) : Type 0 where
  pub kek : Text
  pub fresh : Fresh
  pub created : ℕ
  pub current : current_kek m ≡ ok kek
  pub provider : metadata.provider ≡ codex
  pub wraps : new_gcm kek ≡ true
  pub encrypts : new_gcm fresh.dek ≡ true
  pub json : validate_json_object (c.tokens plain) ≡ true
  pub stored :
      t'.items metadata.credential_instance_id
      ≡ some (record (sealed_item c kek fresh metadata plain) { created_at = created })
  pub valid :
      valid_vault_item (record (sealed_item c kek fresh metadata plain) { created_at = created })
      ≡ true
  pub matching : Matching t'
  pub config : t'.config ≡ t.config

-- The item that is there, if any, was not created after the new one is sealed.
abbrev pub NotBefore : CredentialMetadata → VaultRows → Type 0
NotBefore metadata t =
    (old : VaultItem)
    → t.items metadata.credential_instance_id ≡ some old
    → (0 < old.created_at) × (old.created_at ≤ metadata.updated_at)

record Checks (c : Crypto) (fresh : Fresh) (metadata : CredentialMetadata) (plain : Text)
    (m : Manager) (kek : Text) : Type 0 where
  current : current_kek m ≡ ok kek
  provider : metadata.provider ≡ codex
  wraps : new_gcm kek ≡ true
  encrypts : new_gcm fresh.dek ≡ true
  json : validate_json_object (c.tokens plain) ≡ true

kek_cases : (m : Manager) → ((e : Code) × (current_kek m ≡ err e)) ⊎ (current_kek m ≡ ok m.kek)
unfolding current_kek
kek_cases m = elim (Bool-cases (not (is_unlocked m.state) || not (length m.kek == 32))) [
  | inl refused ↦ inl (Code.vault_locked, rw refused refl)
  | inr fine ↦ inr (rw fine refl)
]

sealing_kek-Checks :
    (c : Crypto) (fresh : Fresh) (metadata : CredentialMetadata) (plain : Text) (m : Manager)
    (kek : Text)
    → sealing_kek c fresh metadata plain m ≡ ok kek
    → Checks c fresh metadata plain m kek
unfolding sealing_kek
sealing_kek-Checks c fresh metadata plain m kek h = elim (kek_cases m) [
  | inl (e, refused) ↦ absurd (ground (arith, refused))
  | inr there ↦
      let same : m.kek ≡ kek = ground arith in
      record {
        current = there ∙ ap ok same;
        provider = (text_eq_iff metadata.provider codex).0 (ground arith);
        wraps = rw (sym same) (ground arith);
        encrypts = ground arith;
        json = ground arith;
      }
]

replace-Written :
    (d : Driver) (expected : ℕ) (item : VaultItem) (status : CredentialStatus) (t t' : VaultRows)
    {done : Unit {0}}
    → replace_vault_item_cas d expected item status t ≡ (ok done, t')
    → (valid_vault_item item ≡ true) × Written item t t'
unfolding replace_vault_item_cas
replace-Written d expected item status t t' h = elim (Bool-cases (valid_vault_item item)) [
  | inl valid ↦
      let ran = rw valid at h in
      let wrote = with_tx-ok d t (write_item d expected item status) (ap (λ r. r.0) ran) in
      (
        valid,
        write_item-Written d expected item status t t' tt valid
            (wrote ∙ ap (λ u. ok (tt, u)) (ap (λ r. r.1) ran)),
      )
  | inr refused ↦ absurd (err_ne (ap (λ r. r.0) (rw refused at h)))
]
  where
    err_ne : Path (Result (Unit {0})) (err Code.invalid_argument) (ok tt) → ⊥
    err_ne e = ground arith

saved_lem :
    (revision r : ℕ) (x : Result (Unit {0}) × VaultRows) (t' : VaultRows)
    → saved_revision revision x ≡ (ok r, t')
    → (x ≡ (ok tt, t')) × (revision ≡ r)
saved_lem revision r (err e, t) t' h = absurd (err_ne (ap (λ p. p.0) h))
  where
    err_ne : Path (Result ℕ) (err e) (ok r) → ⊥
    err_ne e = ground arith
saved_lem revision r (ok _, t) t' h = (ap (λ p. (ok tt, p.1)) h, number (ap (λ p. p.0) h))
  where
    number : Path (Result ℕ) (ok revision) (ok r) → revision ≡ r
    number e = ground arith

-- The row that stands there after the write.
Written-row :
    (item : VaultItem) (t t' : VaultRows)
    → Matching t
    → valid_vault_item item ≡ true
    → Written item t t'
    → ((old : VaultItem)
        → t.items item.credential_instance_id ≡ some old
        → (0 < old.created_at) × (old.created_at ≤ item.updated_at))
    → (k : ℕ) × (t'.items item.credential_instance_id ≡ some (record item { created_at = k }))
      × (valid_vault_item (record item { created_at = k }) ≡ true)
unfolding upserted
Written-row item t t' m valid w before =
    let id = item.credential_instance_id in
    let there : t'.items id ≡ some (upserted (t.items id) item) =
      ap (λ items. items id) w.items ∙ put_self t.items id (upserted (t.items id) item) in
    elim (Option-cases (t.items id)) [
      | inl none_there ↦
          (item.created_at, there ∙ ap (λ o. some (upserted o item)) none_there, valid)
      | inr (old, old_there) ↦
          let was = m id old old_there in
          let matches =
            subst (λ r. Matches id r old) (some_inj (sym was.stored ∙ w.found)) was.matches in
          (
            old.created_at,
            there
                ∙ ap (λ o. some (upserted o item)) old_there
                ∙ ap some (upserted-Matches_lem id w.row old item matches w.matches),
            valid_created item old.created_at valid (before old old_there).0
                (before old old_there).1,
          )
    ]

pub seal-Sealed :
    (c : Crypto) (d : Driver) (fresh : Fresh) (metadata : CredentialMetadata) (plain : Text)
    (m : Manager) (t t' : VaultRows) (r : ℕ)
    → Matching t
    → NotBefore metadata t
    → seal_credential c d fresh metadata plain m t ≡ (ok r, t')
    → Sealed c metadata plain m t t' × (inc64 metadata.expected_revision ≡ r)
unfolding seal_credential sealed_item
seal-Sealed c d fresh metadata plain m t t' r matching before h =
    elim (result_cases (sealing_kek c fresh metadata plain m)) [
      | inl (e, refused) ↦ absurd (err_ne e (ap (λ p. p.0) (rw (refused, seal_credential) at h)))
      | inr (kek, ready) ↦
          let saved =
            saved_lem (inc64 metadata.expected_revision) r
              (replace_vault_item_cas d metadata.expected_revision
                (sealed_item c kek fresh metadata plain) CredentialStatus.healthy t)
              t' (rw (ready, seal_credential) at h) in
          let w =
            replace-Written d metadata.expected_revision (sealed_item c kek fresh metadata plain)
              CredentialStatus.healthy t t' saved.0 in
          let checks = sealing_kek-Checks c fresh metadata plain m kek ready in
          let row =
            Written-row (sealed_item c kek fresh metadata plain) t t' matching w.0 w.1 before in
          (
            record {
              kek = kek;
              fresh = fresh;
              created = row.0;
              current = checks.current;
              provider = checks.provider;
              wraps = checks.wraps;
              encrypts = checks.encrypts;
              json = checks.json;
              stored = row.1;
              valid = row.2;
              matching =
                  Written-Matching (sealed_item c kek fresh metadata plain) t t' matching w.1;
              config = w.1.config;
            },
            saved.1,
          )
    ]
  where
    err_ne : (e : Code) → Path (Result ℕ) (err e) (ok r) → ⊥
    err_ne e h = ground arith

-- An item that was sealed and still stands is read with the key that sealed it.
pub read-Sealed :
    (c : Crypto) (metadata : CredentialMetadata) (plain : Text) (m m' : Manager)
    (t t' t'' : VaultRows)
    → Opens c
    → (s : Sealed c metadata plain m t t')
    → t''.items metadata.credential_instance_id ≡ t'.items metadata.credential_instance_id
    → current_kek m' ≡ ok s.kek
    → read_credential c true metadata.credential_instance_id m' t''
      ≡ ok (plain, inc64 metadata.expected_revision)
unfolding read_credential vault_item
read-Sealed c metadata plain m m' t t' t'' opens s same current =
    rw (current, same ∙ s.stored, s.valid)
      (open_item-sealed c s.kek s.fresh metadata plain s.created opens s.provider s.wraps s.encrypts
        s.json)
