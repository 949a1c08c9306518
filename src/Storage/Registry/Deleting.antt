-- ===== src/Storage/Registry/Deleting.antt =====
-- Deletions, and the operations on profiles, keep what holds of the stored accounts and profiles.
use multi_agent_desk.Prelude.{
  ℕ, ◌≡◌, ◌∙◌, refl, inl, inr, Bool, true, false, ◌&&◌, ◌||◌, List, [], ◌∷◌, All, ◌==◌, Bool-cases,
  arith, Text, text_eq, text_eq_iff, slt,
}
use mathlib.Core.Path.{subst}
use multi_agent_desk.Domain.Errors.{ok, result_cases}
use multi_agent_desk.Domain.Account.{Account}
use multi_agent_desk.Storage.Driver.{Driver, with_tx-keeps}
use multi_agent_desk.Storage.Rows.{any, without, All-without, All-map, All-both, find-without}
use multi_agent_desk.Storage.Registry.{
  Profile, Registry, is_account, account, insert_profile, validate_public_profile,
}
use multi_agent_desk.Storage.Registry.Accounts
use multi_agent_desk.Storage.Registry.Profiles
use multi_agent_desk.Storage.Registry.Consistent.{Owned, Consistent, Distinct-without}
use multi_agent_desk.Storage.Registry.Keeping.{account_lem, insert-Consistent, validate_lem}

-- The columns that are compared are those of `r`.
same_rows :
    (r r' : Registry)
    → r'.accounts ≡ r.accounts
    → r'.profiles ≡ r.profiles
    → Consistent r
    → Consistent r'
same_rows r r' accounts profiles c = record {
  owned = rw (accounts, profiles) c.owned;
  distinct = rw profiles c.distinct;
}

without-Consistent :
    (r r' : Registry) (q : Profile → Bool)
    → r'.accounts ≡ r.accounts
    → r'.profiles ≡ without q r.profiles
    → Consistent r
    → Consistent r'
without-Consistent r r' q accounts profiles c = record {
  owned =
      rw (accounts, profiles)
        (All-map (λ p. Owned r.accounts p × (q p ≡ false)) (Owned r.accounts) (without q r.profiles)
          (λ p o. o.0) (All-without (Owned r.accounts) q r.profiles c.owned));
  distinct = rw profiles (Distinct-without q r.profiles c.distinct);
}

any-false : (p : Profile → Bool) (ps : List Profile) → any p ps ≡ false → All (λ x. p x ≡ false) ps
unfolding any
any-false p [] h = tt
any-false p (x ∷ ps) h = (ground arith, any-false p ps (ground arith))

-- An account that no profile has is deleted.
drop-Consistent :
    (r r' : Registry) (id : Text) (expected : ℕ)
    → r'.accounts ≡ without (λ b. text_eq b.id id && b.revision == expected) r.accounts
    → r'.profiles ≡ r.profiles
    → any (λ p. text_eq p.account_id id) r.profiles ≡ false
    → Consistent r
    → Consistent r'
drop-Consistent r r' id expected accounts profiles unused c = record {
  owned =
      rw (accounts, profiles)
        (All-map (λ p. Owned r.accounts p × (text_eq p.account_id id ≡ false))
          (Owned (without (λ b. text_eq b.id id && b.revision == expected) r.accounts)) r.profiles
          (λ p (o, other). record {
            owner = o.owner;
            found =
                find-without (is_account p.account_id)
                  (λ b. text_eq b.id id && b.revision == expected) r.accounts
                  (λ b gone. differs p.account_id b expected other gone)
                ∙ o.found;
            provider = o.provider;
          })
          (All-both (Owned r.accounts) (λ p. text_eq p.account_id id ≡ false) r.profiles c.owned
            (any-false (λ p. text_eq p.account_id id) r.profiles unused)));
  distinct = rw profiles c.distinct;
}
  where
    differs :
        (k : Text) (b : Account) (n : ℕ)
        → text_eq k id ≡ false
        → (text_eq b.id id && b.revision == n) ≡ true
        → text_eq b.id k ≡ false
    differs k b n other gone =
        ground (arith, text_eq_iff k id, text_eq_iff b.id id, text_eq_iff b.id k)

remove_account-Consistent :
    (d : Driver) (id : Text) (expected at : ℕ) (r r' : Registry) (done : Unit {0})
    → Consistent r
    → Accounts.remove_account d id expected at r ≡ ok (done, r')
    → Consistent r'
unfolding Accounts.remove_account
remove_account-Consistent d id expected at r r' done c h =
    let unused : any (λ p. text_eq p.account_id id) (without (Accounts.owned_by id) r.profiles)
        ≡ false =
      ground arith in
    let accounts : r'.accounts
        ≡ without (λ b. text_eq b.id id && b.revision == expected) r.accounts =
      ground arith in
    let profiles : r'.profiles ≡ without (Accounts.owned_by id) r.profiles = ground arith in
    let mid =
      without-Consistent r (record r { profiles = without (Accounts.owned_by id) r.profiles })
        (Accounts.owned_by id) refl refl c in
    drop-Consistent (record r { profiles = without (Accounts.owned_by id) r.profiles }) r' id
      expected accounts profiles unused mid

pub deletes_account-Consistent :
    (d : Driver) (id : Text) (expected at : ℕ) (r : Registry)
    → Consistent r
    → Consistent (Accounts.delete_account d id expected at r).1
unfolding Accounts.delete_account
deletes_account-Consistent d id expected at r c = elim (Bool-cases (slt expected 1 || at == 0)) [
  | inl refused ↦ rw refused c
  | inr fine ↦ rw fine (
      with_tx-keeps Consistent d r (Accounts.remove_account d id expected at) c
        (λ done r' wrote. remove_account-Consistent d id expected at r r' done c wrote))
]

remove_profile-Consistent :
    (d : Driver) (id : Text) (expected at : ℕ) (r r' : Registry) (done : Unit {0})
    → Consistent r
    → Profiles.remove_profile d id expected at r ≡ ok (done, r')
    → Consistent r'
unfolding Profiles.remove_profile
remove_profile-Consistent d id expected at r r' done c h =
    without-Consistent r r' (λ q. text_eq q.id id && q.revision == expected) (ground arith)
      (ground arith) c

pub deletes_profile-Consistent :
    (d : Driver) (id : Text) (expected at : ℕ) (r : Registry)
    → Consistent r
    → Consistent (Profiles.delete_profile d id expected at r).1
unfolding Profiles.delete_profile
deletes_profile-Consistent d id expected at r c = elim (Bool-cases (slt expected 1 || at == 0)) [
  | inl refused ↦ rw refused c
  | inr fine ↦ rw fine (
      with_tx-keeps Consistent d r (Profiles.remove_profile d id expected at) c
        (λ done r' wrote. remove_profile-Consistent d id expected at r r' done c wrote))
]

insert_for-Consistent :
    (d : Driver) (id : Text) (p : Profile) (r r' : Registry) (saved : Profile)
    → p.account_id ≡ id
    → Consistent r
    → Profiles.insert_for_account d id p r ≡ ok (saved, r')
    → Consistent r'
unfolding Profiles.insert_for_account
insert_for-Consistent d id p r r' saved mine c h = elim (result_cases (account true r id)) [
  | inl (e, missing) ↦ absurd (ground (arith, missing))
  | inr (a, there) ↦
      let provider : text_eq a.provider p.provider ≡ true = ground (arith, there) in
      elim (result_cases (insert_profile p r.profiles)) [
        | inl (e, taken) ↦ absurd (ground (arith, there, taken))
        | inr (rows', inserted) ↦
            let written : record r { profiles = rows' } ≡ r' = ground (arith, there, inserted) in
            subst Consistent written (
              insert-Consistent r p rows' c inserted (record {
                owner = a;
                found = rw mine (account_lem r id a there);
                provider = (text_eq_iff a.provider p.provider).0 provider;
              }))
      ]
]

pub creates_profile-Consistent :
    (d : Driver) (json_valid : Text → Bool) (a : Account) (p : Profile) (r : Registry)
    → Consistent r
    → Consistent (Profiles.create_profile d json_valid a p r).1
unfolding Profiles.create_profile
creates_profile-Consistent d json_valid a p r c =
    elim (result_cases (validate_public_profile json_valid p a)) [
      | inl (e, refused) ↦ rw (refused, Profiles.create_profile) c
      | inr (p', fine) ↦
          rw (fine, Profiles.create_profile)
            (with_tx-keeps Consistent d r (Profiles.insert_for_account d a.id p') c
              (λ saved r' wrote.
                insert_for-Consistent d a.id p' r r' saved (validate_lem json_valid p p' a fine).0 c
                  wrote))
    ]
