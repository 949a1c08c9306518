-- ===== src/Storage/Vault/Revoked.antt =====
-- A revoked credential stays revoked and without an item.
use multi_agent_desk.Prelude.{
  some_inj, ℕ, Bool, true, false, ◌≡◌, ◌∙◌, refl, sym, ap, inl, inr, Option, none, some, Text, List,
  [], ◌∷◌, Bool-cases, arith, ◌==◌,
}
use mathlib.Core.Path.{subst}
use multi_agent_desk.Domain.Errors.{Code, Result, ok, err, bind-ok, result_cases, refuse_if, ◌>>◌}
use multi_agent_desk.Domain.Id.{validate_id}
use multi_agent_desk.Storage.Driver.{Driver, with_tx, with_tx-ok, with_tx-keeps}
use multi_agent_desk.Storage.Table.{Table, put, put-at, put_self}
use multi_agent_desk.Storage.Links.{CredentialStatus, CredentialRow, unusable}
use multi_agent_desk.Storage.Vault.{
  VaultConfig, VaultItem, VaultRows, upserted, write_item, initialized, write_config,
  replace_vault_item_cas, valid_vault_item, initialize_vault, valid_vault_config, vault_item, is_ok,
}
use multi_agent_desk.Storage.Vault.Revocation.{
  if_ok, delete, reserve, reserve_revocation, finalized, replayed, finalize, finalize_revocation,
  is_revoked,
}
use multi_agent_desk.Storage.Vault.Matching.{Written, write_item-Written}
use multi_agent_desk.Storage.Vault.Keeping.{if_ok-keeps, reserve_cases}
use multi_agent_desk.Storage.Vault.Revoking.{Finalized, finalize-Finalized, delete_self}

-- The calls that write the vault's tables.
pub data Call : Type 0 where
  initializes : Driver → Bool → VaultConfig → Call
  replaces : Driver → ℕ → VaultItem → CredentialStatus → Call
  reserves : Driver → ℕ → Text → ℕ → Call
  finalizes : Driver → ℕ → Text → ℕ → Call

unfoldable pub step : Call → VaultRows → VaultRows
step (Call.initializes d blocked config) t = (initialize_vault d blocked config t).1
step (Call.replaces d expected item status) t = (replace_vault_item_cas d expected item status t).1
step (Call.reserves d active id at) t = (reserve_revocation d active id at t).1
step (Call.finalizes d active id at) t = (finalize_revocation d active id at t).1

unfoldable pub run : List Call → VaultRows → VaultRows
run [] t = t
run (call ∷ calls) t = run calls (step call t)

abbrev HasRevoked : Option CredentialRow → Type 0
HasRevoked o = (row : CredentialRow) × (o ≡ some row) × (is_revoked row.status ≡ true)

record Gone (id : Text) (t : VaultRows) : Type 0 where
  revoked : HasRevoked (t.credentials id)
  item : t.items id ≡ none

unusable_revoked : (s : CredentialStatus) → is_revoked s ≡ true → unusable s ≡ true
unusable_revoked s h = ground arith

Written-refused :
    (item : VaultItem) (t t' : VaultRows)
    → Gone item.credential_instance_id t
    → Written item t t'
    → ⊥
Written-refused item t t' g w =
    let same : g.revoked.0 ≡ w.row = some_inj (sym g.revoked.1 ∙ w.found) in
    let status = subst (λ r. is_revoked r.status ≡ true) same g.revoked.2 in
    let u = unusable_revoked w.row.status status in false_ne (sym w.usable ∙ u)
  where
    false_ne : Path Bool false true → ⊥
    false_ne e = ground arith

Written-Gone :
    (id : Text) (item : VaultItem) (t t' : VaultRows) → Gone id t → Written item t t' → Gone id t'
Written-Gone id item t t' g w = record {
  revoked = rw w.credentials (
      put-at t.credentials item.credential_instance_id w.row' id HasRevoked
        (λ same. absurd (Written-refused item t t' (rw same g) w)) g.revoked);
  item = rw w.items (
      put-at t.items item.credential_instance_id
        (upserted (t.items item.credential_instance_id) item) id (λ o. o ≡ none)
        (λ same. absurd (Written-refused item t t' (rw same g) w)) g.item);
}

replace-Gone :
    (id : Text) (d : Driver) (expected : ℕ) (item : VaultItem) (status : CredentialStatus)
    (t : VaultRows)
    → Gone id t
    → Gone id (replace_vault_item_cas d expected item status t).1
unfolding replace_vault_item_cas
replace-Gone id d expected item status t g = elim (Bool-cases (valid_vault_item item)) [
  | inl valid ↦ rw valid (
      with_tx-keeps (Gone id) d t (write_item d expected item status) g (λ done t' wrote.
        Written-Gone id item t t' g
          (write_item-Written d expected item status t t' done valid wrote)))
  | inr refused ↦ rw refused g
]

config_of : Result (Bool × VaultRows) → VaultRows → VaultRows
config_of (err e) t = t
config_of (ok (replay, t)) _ = t

initialize-Gone :
    (id : Text) (d : Driver) (blocked : Bool) (config : VaultConfig) (t : VaultRows)
    → Gone id t
    → Gone id (initialize_vault d blocked config t).1
unfolding initialize_vault write_config config_of
initialize-Gone id d blocked config t g = elim (Bool-cases (valid_vault_config config)) [
  | inl valid ↦ rw valid (
      with_tx-keeps (Gone id) d t (write_config d blocked config) g (λ replay t' wrote.
        let b =
          bind-ok (initialized d blocked config t.config) (λ p. ok (p.0, record t { config = p.1 }))
            wrote in
        subst (Gone id) (ap (λ r. config_of r t) b.rest)
          (record { revoked = g.revoked; item = g.item })))
  | inr refused ↦ rw refused g
]

-- A row that is written back with the status that it had.
put-HasRevoked :
    (id other : Text) (t : VaultRows) (row row' : CredentialRow)
    → t.credentials other ≡ some row
    → (is_revoked row.status ≡ true → is_revoked row'.status ≡ true)
    → HasRevoked (t.credentials id)
    → HasRevoked (put t.credentials other row' id)
put-HasRevoked id other t row row' there status (old, stored, revoked) =
    put-at t.credentials other row' id HasRevoked
      (λ same. (
        row',
        refl,
        status (
            subst (λ r. is_revoked r.status ≡ true)
              (some_inj (sym stored ∙ ap t.credentials (sym same) ∙ there)) revoked),
      ))
      (old, stored, revoked)

reserve-Gone :
    (id : Text) (d : Driver) (active : ℕ) (other : Text) (at : ℕ) (t : VaultRows)
    → Gone id t
    → Gone id (reserve_revocation d active other at t).1
unfolding reserve_revocation
reserve-Gone id d active other at t g =
    if_ok-keeps (Gone id) (validate_id other >> refuse_if (at == 0) Code.invalid_argument) t
      (with_tx d t (reserve d active other)) g
      (with_tx-keeps (Gone id) d t (reserve d active other) g (λ done t' wrote.
        elim (reserve_cases d active other t t' done wrote) [
          | inl same ↦ subst (Gone id) (sym same) g
          | inr (row, there, same) ↦ subst (Gone id) (sym same) (record {
            revoked =
                put-HasRevoked id other t row (record row { revocation_reserved = true }) there
                  (λ s. s) g.revoked;
            item = g.item;
          })
        ]))

delete-none : (t : Table VaultItem) (k j : Text) → t j ≡ none → delete t k j ≡ none
unfolding delete
delete-none t k j h = ground arith

Finalized-Gone :
    (id other : Text) (t t' : VaultRows) → Finalized other t t' → Gone id t → Gone id t'
unfolding finalized replayed
Finalized-Gone id other t t' f g = elim f.how [
  | inl (was, same) ↦ subst (Gone id) (sym same) (record {
    revoked =
        put-HasRevoked id other t f.row (record f.row { revocation_reserved = false }) f.there
          (λ s. s) g.revoked;
    item = g.item;
  })
  | inr same ↦ subst (Gone id) (sym same) (record {
    revoked =
        put-HasRevoked id other t f.row
          (record f.row { status = CredentialStatus.revoked; revocation_reserved = false }) f.there
          (λ s. refl) g.revoked;
    item = delete-none t.items other id g.item;
  })
]

finalize-Gone :
    (id : Text) (d : Driver) (active : ℕ) (other : Text) (at : ℕ) (t : VaultRows)
    → Gone id t
    → Gone id (finalize_revocation d active other at t).1
unfolding finalize_revocation
finalize-Gone id d active other at t g =
    if_ok-keeps (Gone id) (validate_id other >> refuse_if (at == 0) Code.invalid_argument) t
      (with_tx d t (finalize d active other)) g
      (with_tx-keeps (Gone id) d t (finalize d active other) g (λ done t' wrote.
        Finalized-Gone id other t t' (finalize-Finalized d active other t t' done wrote) g))

step-Gone : (id : Text) (call : Call) (t : VaultRows) → Gone id t → Gone id (step call t)
unfolding step
step-Gone id (Call.initializes d blocked config) t g = initialize-Gone id d blocked config t g
step-Gone id (Call.replaces d expected item status) t g = replace-Gone id d expected item status t g
step-Gone id (Call.reserves d active other at) t g = reserve-Gone id d active other at t g
step-Gone id (Call.finalizes d active other at) t g = finalize-Gone id d active other at t g

run-Gone : (id : Text) (calls : List Call) (t : VaultRows) → Gone id t → Gone id (run calls t)
unfolding run
run-Gone id [] t g = g
run-Gone id (call ∷ calls) t g = run-Gone id calls (step call t) (step-Gone id call t g)

-- A credential that was revoked before has no item.
abbrev pub RevokedHaveNone : Text → VaultRows → Type 0
RevokedHaveNone id t =
    (row : CredentialRow)
    → t.credentials id ≡ some row
    → is_revoked row.status ≡ true
    → t.items id ≡ none

finalize_starts :
    (id : Text) (t t' : VaultRows) → RevokedHaveNone id t → Finalized id t t' → Gone id t'
unfolding finalized replayed
finalize_starts id t t' before f = elim f.how [
  | inl (was, same) ↦ subst (Gone id) (sym same) (record {
    revoked = (
      record f.row { revocation_reserved = false },
      put_self t.credentials id (record f.row { revocation_reserved = false }),
      was,
    );
    item = before f.row f.there was;
  })
  | inr same ↦ subst (Gone id) (sym same) (record {
    revoked = (
      record f.row { status = CredentialStatus.revoked; revocation_reserved = false },
      put_self t.credentials id
          (record f.row { status = CredentialStatus.revoked; revocation_reserved = false }),
      refl,
    );
    item = delete_self t.items id;
  })
]

finalize_revocation-Gone :
    (d : Driver) (active : ℕ) (id : Text) (at : ℕ) (t t' : VaultRows)
    → RevokedHaveNone id t
    → finalize_revocation d active id at t ≡ (ok tt, t')
    → Gone id t'
unfolding finalize_revocation
finalize_revocation-Gone d active id at t t' before h =
    started (validate_id id >> refuse_if (at == 0) Code.invalid_argument) h
  where
    started :
        (checked : Result (Unit {0}))
        → if_ok checked t (with_tx d t (finalize d active id)) ≡ (ok tt, t')
        → Gone id t'
    started (err e) h = absurd (err_ne e (ap (λ r. r.0) h))
      where
        err_ne : (e : Code) → Path (Result (Unit {0})) (err e) (ok tt) → ⊥
        err_ne e h = ground arith
    started (ok _) h = finalize_starts id t t' before (
        finalize-Finalized d active id t t' tt (
          with_tx-ok d t (finalize d active id) (ap (λ r. r.0) h)
          ∙ ap (λ u. ok (tt, u)) (ap (λ r. r.1) h)))

refuse-Gone :
    (d : Driver) (expected : ℕ) (item : VaultItem) (status : CredentialStatus) (t : VaultRows)
    → Gone item.credential_instance_id t
    → is_ok (replace_vault_item_cas d expected item status t).0 ≡ false
unfolding replace_vault_item_cas
refuse-Gone d expected item status t g = elim (Bool-cases (valid_vault_item item)) [
  | inr refused ↦ rw refused refl
  | inl valid ↦ rw valid (elim (result_cases (with_tx d t (write_item d expected item status)).0) [
    | inl (e, failed) ↦ rw failed refl
    | inr (done, ran) ↦ absurd (
        Written-refused item t (with_tx d t (write_item d expected item status)).1 g (
          write_item-Written d expected item status t
            (with_tx d t (write_item d expected item status)).1 done valid
            (with_tx-ok d t (write_item d expected item status) ran)))
  ])
]

-- What is left of a credential whose revocation was finalized.
pub record NoWayBack (id : Text) (t : VaultRows) : Type 0 where
  pub unread : (reads : Bool) → is_ok (vault_item reads t id) ≡ false
  pub unsealed :
      (d : Driver) (expected : ℕ) (item : VaultItem) (status : CredentialStatus)
      → item.credential_instance_id ≡ id
      → is_ok (replace_vault_item_cas d expected item status t).0 ≡ false

unread_lem :
    (t : VaultRows) (id : Text) (reads : Bool)
    → t.items id ≡ none
    → is_ok (vault_item reads t id) ≡ false
unfolding vault_item
unread_lem t id false none_there = refl
unread_lem t id true none_there = rw none_there refl

-- Once the revocation of a credential is finalized with success, its item cannot be read and no
-- item can be saved for it, after any calls that initialize the vault, save items, and reserve or
-- finalize revocations. It is assumed that a credential that was already revoked had no item.
pub revoked_forever :
    (d : Driver) (active : ℕ) (id : Text) (at : ℕ) (t t' : VaultRows) (calls : List Call)
    → RevokedHaveNone id t
    → finalize_revocation d active id at t ≡ (ok tt, t')
    → NoWayBack id (run calls t')
revoked_forever d active id at t t' calls before done =
    let gone = run-Gone id calls t' (finalize_revocation-Gone d active id at t t' before done) in
    record {
      unread = λ reads. unread_lem (run calls t') id reads gone.item;
      unsealed = λ d' expected item status same.
          refuse-Gone d' expected item status (run calls t')
            (subst (λ k. Gone k (run calls t')) (sym same) gone);
    }
