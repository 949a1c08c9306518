-- ===== src/Storage/Registry/Keeping.antt =====
-- Every operation keeps what holds of the stored accounts and profiles.
use multi_agent_desk.Prelude.{
  ℕ, ◌≡◌, ◌∙◌, refl, sym, ap, inl, inr, Bool, true, false, not, ◌||◌, Option, none, some, List, ◌∷◌,
  ◌==◌, Bool-cases, arith, Text, text_eq_iff, slt,
}
use mathlib.Core.Path.{subst}
use multi_agent_desk.Domain.Errors.{
  Code, Result, ok, err, bind-ok, ok_inj, result_cases, refuse_if, ◌>>=◌,
}
use multi_agent_desk.Domain.Account.{Account, new_account, public_provider}
use multi_agent_desk.Storage.Driver.{Driver, with_tx-keeps}
use multi_agent_desk.Storage.Rows.{find, any, modify}
use multi_agent_desk.Storage.Registry.{
  Profile, Registry, is_account, has_key, clashes, account, insert_account, insert_profile,
  validate_public_profile,
}
use multi_agent_desk.Storage.Registry.Accounts
use multi_agent_desk.Storage.Registry.Consistent.{
  Owned, Consistent, clashes-Apart, find-cons, find-modify, Owned-accounts,
}

pub account_lem :
    (r : Registry) (id : Text) (a : Account)
    → account true r id ≡ ok a
    → find (is_account id) r.accounts ≡ some a
unfolding account
account_lem r id a h = ground arith

insert_profile_lem :
    (new : Profile) (rows rows' : List Profile)
    → insert_profile new rows ≡ ok rows'
    → (any (clashes new) rows ≡ false) × (rows' ≡ new ∷ rows)
unfolding insert_profile
insert_profile_lem new rows rows' h = (ground arith, ground arith)

insert_account_lem :
    (new : Account) (rows rows' : List Account)
    → insert_account new rows ≡ ok rows'
    → (any (is_account new.id) rows ≡ false) × (rows' ≡ new ∷ rows)
unfolding insert_account
insert_account_lem new rows rows' h = (ground arith, ground arith)

find_new : (a : Account) (rows : List Account) → find (is_account a.id) (a ∷ rows) ≡ some a
unfolding find
find_new a rows = rw ((text_eq_iff a.id a.id).1 refl) refl

-- A public profile belongs to the account that it is validated for.
pub validate_lem :
    (json_valid : Text → Bool) (p p' : Profile) (a : Account)
    → validate_public_profile json_valid p a ≡ ok p'
    → (p'.account_id ≡ a.id) × (p'.provider ≡ a.provider)
unfolding validate_public_profile
validate_lem json_valid p p' a h =
    let account_of : p'.account_id ≡ p.account_id = ground arith in
    let provider_of : p'.provider ≡ p.provider = ground arith in
    (
      account_of ∙ (text_eq_iff p.account_id a.id).0 (ground arith),
      provider_of ∙ (text_eq_iff p.provider a.provider).0 (ground arith),
    )

pub insert-Consistent :
    (r : Registry) (new : Profile) (rows' : List Profile)
    → Consistent r
    → insert_profile new r.profiles ≡ ok rows'
    → Owned r.accounts new
    → Consistent (record r { profiles = rows' })
insert-Consistent r new rows' c h o =
    let (free, same) = insert_profile_lem new r.profiles rows' h in
    rw same
      (record { owned = (o, c.owned); distinct = (clashes-Apart new r.profiles free, c.distinct) })

new_account-Consistent :
    (r : Registry) (a : Account) (rows' : List Account)
    → Consistent r
    → insert_account a r.accounts ≡ ok rows'
    → Consistent (record r { accounts = rows' })
new_account-Consistent r a rows' c h =
    let (fresh, same) = insert_account_lem a r.accounts rows' h in
    rw same (record {
      owned =
          Owned-accounts r.accounts (a ∷ r.accounts) r.profiles
            (λ k b found. (b, find-cons k a b r.accounts fresh found, refl)) c.owned;
      distinct = c.distinct;
    })

modify-Consistent :
    (r : Registry) (q : Account → Bool) (f : Account → Account)
    → ((x : Account) → (f x).id ≡ x.id)
    → ((x : Account) → (f x).provider ≡ x.provider)
    → Consistent r
    → Consistent (record r { accounts = modify q f r.accounts })
modify-Consistent r q f ids providers c = record {
  owned =
      Owned-accounts r.accounts (modify q f r.accounts) r.profiles
        (λ k a found. find-modify k q f r.accounts a ids providers found) c.owned;
  distinct = c.distinct;
}

-- The operations on accounts.
create-Consistent :
    (a : Account) (p : Profile) (o : Option Profile) (r r' : Registry) (both : Account × Profile)
    → p.account_id ≡ a.id
    → p.provider ≡ a.provider
    → Consistent r
    → Accounts.create_or_replay a p o r ≡ ok (both, r')
    → Consistent r'
unfolding Accounts.create_or_replay
create-Consistent a p (some q) r r' both mine provider c h = subst Consistent (replayed h) c
  where
    replayed : Accounts.create_or_replay a p (some q) r ≡ ok (both, r') → r ≡ r'
    replayed h = ground arith
create-Consistent a p none r r' both mine provider c h =
    let one =
      bind-ok (insert_account a r.accounts)
        (λ accounts'. insert_profile p r.profiles >>= λ profiles'.
          ok ((a, p), record r { accounts = accounts'; profiles = profiles' }))
        h in
    let two =
      bind-ok (insert_profile p r.profiles)
        (λ profiles'. ok ((a, p), record r { accounts = one.value; profiles = profiles' }))
        one.rest in
    let mid = new_account-Consistent r a one.value c one.first in
    let found : find (is_account a.id) one.value ≡ some a =
      rw ((insert_account_lem a r.accounts one.value one.first).1) (find_new a r.accounts) in
    let final =
      insert-Consistent (record r { accounts = one.value }) p two.value mid two.first
        (record { owner = a; found = rw mine found; provider = sym provider }) in
    subst Consistent (ap (λ x. x.1) (ok_inj two.rest)) final

check_new_lem :
    (json_valid : Text → Bool) (a : Account) (p : Profile) (both : Account × Profile)
    → Accounts.check_new json_valid a p ≡ ok both
    → (both.1.account_id ≡ both.0.id) × (both.1.provider ≡ both.0.provider)
unfolding Accounts.check_new
check_new_lem json_valid a p both h =
    let one =
      bind-ok (Accounts.if_valid (new_account a))
        (λ a'.
          refuse_if (not (public_provider a.provider) || a.internal) Code.invalid_argument >>= λ _.
          validate_public_profile json_valid p a' >>= λ p'. ok (a', p'))
        h in
    let two =
      bind-ok (refuse_if (not (public_provider a.provider) || a.internal) Code.invalid_argument)
        (λ _. validate_public_profile json_valid p one.value >>= λ p'. ok (one.value, p'))
        one.rest in
    let three =
      bind-ok (validate_public_profile json_valid p one.value) (λ p'. ok (one.value, p'))
        two.rest in
    subst (λ b. (b.1.account_id ≡ b.0.id) × (b.1.provider ≡ b.0.provider)) (ok_inj three.rest)
      (validate_lem json_valid p three.value one.value three.first)

pub creates-Consistent :
    (d : Driver) (json_valid : Text → Bool) (a : Account) (p : Profile) (r : Registry)
    → Consistent r
    → Consistent (Accounts.create_account_with_default_profile d json_valid a p r).1
unfolding Accounts.create_account_with_default_profile Accounts.insert_both
creates-Consistent d json_valid a p r c = elim (result_cases (Accounts.check_new json_valid a p)) [
  | inl (e, refused) ↦ rw (refused, Accounts.create_account_with_default_profile) c
  | inr ((a', p'), fine) ↦
      let mine = check_new_lem json_valid a p (a', p') fine in
      rw (fine, Accounts.create_account_with_default_profile)
        (with_tx-keeps Consistent d r (Accounts.insert_both d (a', p')) c (λ both r' wrote.
          let ran =
            bind-ok (refuse_if (not d.runs) Code.conflict)
              (λ _. Accounts.create_or_replay a' p' (find (has_key p'.selector_key) r.profiles) r)
              wrote in
          create-Consistent a' p' (find (has_key p'.selector_key) r.profiles) r r' both mine.0
            mine.1 c ran.rest))
]

update_at-Consistent :
    (d : Driver) (id : Text) (expected : ℕ) (f : Account → Account) (r r' : Registry)
    → ((x : Account) → (f x).id ≡ x.id)
    → ((x : Account) → (f x).provider ≡ x.provider)
    → Consistent r
    → Accounts.update_at d id expected f r ≡ ok r'
    → Consistent r'
unfolding Accounts.update_at
update_at-Consistent d id expected f r r' ids providers c h =
    let ran =
      bind-ok (refuse_if (not d.runs) Code.conflict)
        (λ _.
          refuse_if (not (any (Accounts.at_revision id expected) r.accounts)) Code.sync_conflict
          >>= λ _.
              ok (record r { accounts = modify (Accounts.at_revision id expected) f r.accounts }))
        h in
    let met =
      bind-ok
        (refuse_if (not (any (Accounts.at_revision id expected) r.accounts)) Code.sync_conflict)
        (λ _. ok (record r { accounts = modify (Accounts.at_revision id expected) f r.accounts }))
        ran.rest in
    subst Consistent (ok_inj met.rest)
      (modify-Consistent r (Accounts.at_revision id expected) f ids providers c)

pub updates-Consistent :
    (d : Driver) (reads : Bool) (others : Registry → Registry) (id : Text) (expected : ℕ)
    (patch : Accounts.AccountPatch) (at : ℕ) (r : Registry)
    → Consistent r
    → Consistent (others r)
    → Consistent (Accounts.update_account d reads others id expected patch at r).1
unfolding Accounts.update_account Accounts.save_patched
updates-Consistent d reads others id expected patch at r c co =
    elim (result_cases (Accounts.patch_account reads r id expected patch at)) [
      | inl (e, refused) ↦ rw refused c
      | inr (a, fine) ↦
          rw fine
            (elim (result_cases
              (Accounts.update_at d id expected (Accounts.save_patched a) (others r))) [
                | inl (e, failed) ↦ rw failed co
                | inr (r', done) ↦ rw done (
                    update_at-Consistent d id expected (Accounts.save_patched a) (others r) r'
                      (λ x. refl) (λ x. refl) co done)
              ])
    ]

read_account-rows :
    (reads : Bool) (id : Text) (r : Registry) (x : Result Registry)
    → Consistent r
    → ((r' : Registry) → x ≡ ok r' → Consistent r')
    → Consistent (Accounts.read_account reads id r x).1
read_account-rows reads id r (ok r') c after = after r' refl
read_account-rows reads id r (err e) c after = ground arith

pub enables-Consistent :
    (d : Driver) (reads : Bool) (id : Text) (expected : ℕ) (enabled : Bool) (at : ℕ) (r : Registry)
    → Consistent r
    → Consistent (Accounts.set_account_enabled_revision d reads id expected enabled at r).1
unfolding Accounts.set_account_enabled_revision Accounts.enabled_account
enables-Consistent d reads id expected enabled at r c =
    elim (Bool-cases (slt expected 1 || at == 0)) [
      | inl refused ↦ rw refused c
      | inr fine ↦ rw fine (
          read_account-rows reads id r
            (Accounts.update_at d id expected (Accounts.enabled_account enabled at) r) c
            (λ r' done.
              update_at-Consistent d id expected (Accounts.enabled_account enabled at) r r'
                (λ x. refl) (λ x. refl) c done))
    ]
