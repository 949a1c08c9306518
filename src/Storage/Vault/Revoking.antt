-- ===== src/Storage/Vault/Revoking.antt =====
-- A finalized revocation deletes the item, and nothing brings it back.
use multi_agent_desk.Prelude.{
  ℕ, true, false, ◌≡◌, ◌≢◌, refl, sym, inl, inr, ◌⊎◌, none, some, Text, text_eq_iff, Bool-cases,
  Option-cases, arith, ◌==◌,
}
use mathlib.Core.Path.{subst}
use multi_agent_desk.Domain.Errors.{Code, ok, refuse_if, ◌>>◌}
use multi_agent_desk.Domain.Id.{validate_id}
use multi_agent_desk.Storage.Driver.{Driver, with_tx, with_tx-keeps}
use multi_agent_desk.Storage.Table.{Table}
use multi_agent_desk.Storage.Links.{CredentialStatus, CredentialRow}
use multi_agent_desk.Storage.Vault.{VaultItem, VaultRows, credential_row}
use multi_agent_desk.Storage.Vault.Revocation.{
  delete, finalized, replayed, finalize, finalize_revocation, is_revoked,
}
use multi_agent_desk.Storage.Vault.Matching.{Matching}
use multi_agent_desk.Storage.Vault.Keeping.{
  Steady, Steady-refl, put-SameOwner, Matched-SameOwner, if_ok-keeps, owners-Steady,
}

pub record Finalized (other : Text) (t t' : VaultRows) : Type 0 where
  pub row : CredentialRow
  pub there : t.credentials other ≡ some row
  pub how :
      ((is_revoked row.status ≡ true) × (t' ≡ replayed row other t)) ⊎ (t' ≡ finalized row other t)

pub finalize-Finalized :
    (d : Driver) (active : ℕ) (other : Text) (t t' : VaultRows) (done : Unit {0})
    → finalize d active other t ≡ ok (done, t')
    → Finalized other t t'
unfolding finalize credential_row
finalize-Finalized d active other t t' done h = elim (Option-cases (t.credentials other)) [
  | inl missing ↦ absurd (ground arith)
  | inr (row, there) ↦ elim (Bool-cases (is_revoked row.status)) [
    | inl was ↦ record { row = row; there = there; how = inl (was, ground arith) }
    | inr live ↦ record { row = row; there = there; how = inr (ground arith) }
  ]
]

delete_other : (t : Table VaultItem) (k j : Text) → k ≢ j → delete t k j ≡ t j
unfolding delete
delete_other t k j differs = ground (arith, text_eq_iff k j)

pub delete_self : (t : Table VaultItem) (k : Text) → delete t k k ≡ none
unfolding delete
delete_self t k = ground (arith, text_eq_iff k k)

pub delete_found :
    (t : Table VaultItem) (k j : Text) (item : VaultItem)
    → delete t k j ≡ some item
    → t j ≡ some item
unfolding delete
delete_found t k j item h = ground arith

finalized-Steady :
    (id other : Text) (row : CredentialRow) (t : VaultRows)
    → other ≢ id
    → Matching t
    → t.credentials other ≡ some row
    → Steady id t (finalized row other t)
unfolding finalized
finalized-Steady id other row t differs m there = record {
  matching = λ k item stored.
      Matched-SameOwner t (finalized row other t) k item
        (put-SameOwner t.credentials other row
          (record row { status = CredentialStatus.revoked; revocation_reserved = false }) there refl
          refl)
        (m k item (delete_found t.items other k item stored));
  config = λ c e. e;
  item = delete_other t.items other id differs;
}

replayed-Steady :
    (id other : Text) (row : CredentialRow) (t : VaultRows)
    → Matching t
    → t.credentials other ≡ some row
    → Steady id t (replayed row other t)
unfolding replayed
replayed-Steady id other row t m there = owners-Steady id t (replayed row other t) m refl refl (
    put-SameOwner t.credentials other row (record row { revocation_reserved = false }) there refl
      refl)

pub finalize-Steady :
    (id : Text) (d : Driver) (active : ℕ) (other : Text) (at : ℕ) (t : VaultRows)
    → other ≢ id
    → Matching t
    → Steady id t (finalize_revocation d active other at t).1
unfolding finalize_revocation
finalize-Steady id d active other at t differs m =
    if_ok-keeps (Steady id t) (validate_id other >> refuse_if (at == 0) Code.invalid_argument) t
      (with_tx d t (finalize d active other)) (Steady-refl id t m)
      (with_tx-keeps (Steady id t) d t (finalize d active other) (Steady-refl id t m)
        (λ done t' wrote.
          let f = finalize-Finalized d active other t t' done wrote in
          elim f.how [
            | inl (was, same) ↦
                subst (Steady id t) (sym same) (replayed-Steady id other f.row t m f.there)
            | inr same ↦
                subst (Steady id t) (sym same) (finalized-Steady id other f.row t differs m f.there)
          ]))
