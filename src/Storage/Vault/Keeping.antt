-- ===== src/Storage/Vault/Keeping.antt =====
-- The operations on the vault's tables keep the items with the owners of their credentials, and
-- touch no other credential's item.
use multi_agent_desk.Prelude.{
  some_inj, ℕ, Bool, true, ◌≡◌, ◌≢◌, ◌∙◌, refl, sym, ap, inl, inr, ◌⊎◌, Option-cases, Option, none,
  some, Text, text_eq, text_eq_iff, Bool-cases, arith, ◌==◌,
}
use mathlib.Core.Path.{subst}
use multi_agent_desk.Domain.Errors.{Code, Result, ok, err, bind-ok, refuse_if, ◌>>◌}
use multi_agent_desk.Domain.Id.{validate_id}
use multi_agent_desk.Storage.Driver.{Driver, with_tx, with_tx-keeps}
use multi_agent_desk.Storage.Table.{Table, put, put-at, put_self}
use multi_agent_desk.Storage.Links.{CredentialStatus, CredentialRow}
use multi_agent_desk.Storage.Vault.{
  VaultConfig, VaultItem, VaultRows, upserted, credential_row, write_item, replace_vault_item_cas,
  valid_vault_item, initialized, write_config, initialize_vault, valid_vault_config,
}
use multi_agent_desk.Storage.Vault.Revocation.{if_ok, reserve, reserve_revocation, is_revoked}
use multi_agent_desk.Storage.Vault.Matching.{
  Matches, Matched, Matching, Written, write_item-Written, upserted-Matches,
}

pub record Owned (t : Table CredentialRow) (k : Text) (row : CredentialRow) : Type 0 where
  pub now : CredentialRow
  pub stored : t k ≡ some now
  pub account : now.account_id ≡ row.account_id
  pub device : now.device_id ≡ row.device_id

abbrev pub SameOwner : Table CredentialRow → Table CredentialRow → Type 0
SameOwner t t' = (k : Text) (row : CredentialRow) → t k ≡ some row → Owned t' k row

pub SameOwner-refl : (t : Table CredentialRow) → SameOwner t t
SameOwner-refl t k row stored = record { now = row; stored = stored; account = refl; device = refl }

pub put-SameOwner :
    (t : Table CredentialRow) (id : Text) (row row' : CredentialRow)
    → t id ≡ some row
    → row'.account_id ≡ row.account_id
    → row'.device_id ≡ row.device_id
    → SameOwner t (put t id row')
unfolding put
put-SameOwner t id row row' there account device k old stored = elim (Bool-cases (text_eq id k)) [
  | inl same ↦
      let one : id ≡ k = (text_eq_iff id k).0 same in
      let rows : row ≡ old = some_inj (sym there ∙ rw one stored) in
      record {
        now = row';
        stored = rw same;
        account = account ∙ ap (λ r. r.account_id) rows;
        device = device ∙ ap (λ r. r.device_id) rows;
      }
  | inr differs ↦ record { now = old; stored = rw differs stored; account = refl; device = refl }
]

pub Matched-SameOwner :
    (t t' : VaultRows) (id : Text) (item : VaultItem)
    → SameOwner t.credentials t'.credentials
    → Matched t id item
    → Matched t' id item
Matched-SameOwner t t' id item owners m =
    let o = owners id m.row m.stored in
    record {
      row = o.now;
      stored = o.stored;
      matches = record {
        named = m.matches.named;
        account = o.account ∙ m.matches.account;
        device = o.device ∙ m.matches.device;
        provider = m.matches.provider;
        version = m.matches.version;
        payload_cipher = m.matches.payload_cipher;
        wrap_cipher = m.matches.wrap_cipher;
      };
    }

Written-SameOwner :
    (item : VaultItem) (t t' : VaultRows)
    → Written item t t'
    → SameOwner t.credentials t'.credentials
Written-SameOwner item t t' w = subst (SameOwner t.credentials) (sym w.credentials) (
    put-SameOwner t.credentials item.credential_instance_id w.row w.row' w.found w.account w.device)

pub Written-Matching :
    (item : VaultItem) (t t' : VaultRows) → Matching t → Written item t t' → Matching t'
Written-Matching item t t' m w id stored_item stored =
    put-at t.items item.credential_instance_id (upserted (t.items item.credential_instance_id) item)
      id (λ o. o ≡ some stored_item → Matched t' id stored_item)
      (λ same e.
        subst (λ i. Matched t' id i) (some_inj e)
          (subst (λ k. Matched t' k (upserted (t.items item.credential_instance_id) item)) same
            (record {
              row = w.row';
              stored = rw w.credentials (put_self t.credentials item.credential_instance_id w.row');
              matches =
                  upserted-Matches item.credential_instance_id (t.items item.credential_instance_id)
                    item w.row w.row'
                    (λ i there.
                      let old = m item.credential_instance_id i there in
                      subst (λ r. Matches item.credential_instance_id r i)
                        (some_inj (sym old.stored ∙ w.found)) old.matches)
                    w.matches w.account w.device;
            })))
      (λ e.
        Matched-SameOwner t t' id stored_item (Written-SameOwner item t t' w) (m id stored_item e))
      (rw w.items at stored)

-- What a call leaves for the item of `id`.
pub record Steady (id : Text) (t t' : VaultRows) : Type 0 where
  pub matching : Matching t'
  pub config : (c : VaultConfig) → t.config ≡ some c → t'.config ≡ some c
  pub item : t'.items id ≡ t.items id

pub Steady-refl : (id : Text) (t : VaultRows) → Matching t → Steady id t t
Steady-refl id t m = record { matching = m; config = λ c e. e; item = refl }

pub Steady-trans : (id : Text) (t u v : VaultRows) → Steady id t u → Steady id u v → Steady id t v
Steady-trans id t u v p q = record {
  matching = q.matching;
  config = λ c e. q.config c (p.config c e);
  item = q.item ∙ p.item;
}

pub replace-Steady :
    (id : Text) (d : Driver) (expected : ℕ) (item : VaultItem) (status : CredentialStatus)
    (t : VaultRows)
    → item.credential_instance_id ≢ id
    → Matching t
    → Steady id t (replace_vault_item_cas d expected item status t).1
unfolding replace_vault_item_cas
replace-Steady id d expected item status t other m = elim (Bool-cases (valid_vault_item item)) [
  | inl valid ↦ rw valid (
      with_tx-keeps (Steady id t) d t (write_item d expected item status) (Steady-refl id t m)
        (λ done t' wrote.
          let w = write_item-Written d expected item status t t' done valid wrote in
          record {
            matching = Written-Matching item t t' m w;
            config = λ c e. w.config ∙ e;
            item =
                ap (λ items. items id) w.items
                ∙ put-at t.items item.credential_instance_id
                    (upserted (t.items item.credential_instance_id) item) id (λ o. o ≡ t.items id)
                    (λ same. absurd (other same)) refl;
          }))
  | inr refused ↦ rw refused (Steady-refl id t m)
]

-- The configuration is written once.
pub initialized-keeps :
    (d : Driver) (blocked : Bool) (config c : VaultConfig) (old new : Option VaultConfig)
    (replay : Bool)
    → initialized d blocked config old ≡ ok (replay, new)
    → old ≡ some c
    → new ≡ some c
unfolding initialized
initialized-keeps d blocked config c none new replay h e = absurd (ground arith)
initialized-keeps d blocked config c (some old) new replay h e = ground arith

config_of : Result (Bool × VaultRows) → VaultRows → VaultRows
config_of (err e) t = t
config_of (ok (replay, t)) _ = t

pub initialize-Steady :
    (id : Text) (d : Driver) (blocked : Bool) (config : VaultConfig) (t : VaultRows)
    → Matching t
    → Steady id t (initialize_vault d blocked config t).1
unfolding initialize_vault write_config config_of
initialize-Steady id d blocked config t m = elim (Bool-cases (valid_vault_config config)) [
  | inl valid ↦ rw valid (
      with_tx-keeps (Steady id t) d t (write_config d blocked config) (Steady-refl id t m)
        (λ replay t' wrote.
          let b =
            bind-ok (initialized d blocked config t.config)
              (λ p. ok (p.0, record t { config = p.1 })) wrote in
          subst (Steady id t) (ap (λ r. config_of r t) b.rest) (record {
            matching = λ k item stored.
                Matched-SameOwner t (record t { config = b.value.1 }) k item
                  (SameOwner-refl t.credentials) (m k item stored);
            config =
                λ c e. initialized-keeps d blocked config c t.config b.value.1 b.value.0 b.first e;
            item = refl;
          })))
  | inr refused ↦ rw refused (Steady-refl id t m)
]

pub owners-Steady :
    (id : Text) (t t' : VaultRows)
    → Matching t
    → t'.items ≡ t.items
    → t'.config ≡ t.config
    → SameOwner t.credentials t'.credentials
    → Steady id t t'
owners-Steady id t t' m items config owners = record {
  matching = λ k item stored. Matched-SameOwner t t' k item owners (m k item (rw items at stored));
  config = λ c e. config ∙ e;
  item = ap (λ i. i id) items;
}

pub if_ok-keeps {κ} :
    (P : VaultRows → Type κ) (checked : Result (Unit {0})) (t : VaultRows)
    (next : Result (Unit {0}) × VaultRows)
    → P t
    → P next.1
    → P (if_ok checked t next).1
if_ok-keeps P (err e) t next before after = before
if_ok-keeps P (ok _) t next before after = after

pub reserve_cases :
    (d : Driver) (active : ℕ) (other : Text) (t t' : VaultRows) (done : Unit {0})
    → reserve d active other t ≡ ok (done, t')
    → (t' ≡ t)
      ⊎ ((row : CredentialRow) × (t.credentials other ≡ some row)
          × (t' ≡ record t {
            credentials = put t.credentials other (record row { revocation_reserved = true });
          }))
unfolding reserve credential_row
reserve_cases d active other t t' done h = elim (Option-cases (t.credentials other)) [
  | inl missing ↦ absurd (ground arith)
  | inr (row, there) ↦ elim (Bool-cases (is_revoked row.status)) [
    | inl revoked ↦ inl (ground arith)
    | inr live ↦ inr (row, there, ground arith)
  ]
]

pub reserve-Steady :
    (id : Text) (d : Driver) (active : ℕ) (other : Text) (at : ℕ) (t : VaultRows)
    → Matching t
    → Steady id t (reserve_revocation d active other at t).1
unfolding reserve_revocation
reserve-Steady id d active other at t m =
    if_ok-keeps (Steady id t) (validate_id other >> refuse_if (at == 0) Code.invalid_argument) t
      (with_tx d t (reserve d active other)) (Steady-refl id t m)
      (with_tx-keeps (Steady id t) d t (reserve d active other) (Steady-refl id t m)
        (λ done t' wrote. elim (reserve_cases d active other t t' done wrote) [
          | inl same ↦ subst (Steady id t) (sym same) (Steady-refl id t m)
          | inr (row, there, same) ↦ subst (Steady id t) (sym same) (
              owners-Steady id t
                (record t {
                  credentials = put t.credentials other (record row { revocation_reserved = true });
                })
                m refl refl
                (put-SameOwner t.credentials other row (record row { revocation_reserved = true })
                  there refl refl))
        ]))
