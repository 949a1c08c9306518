-- ===== src/Storage/Registry/History.antt =====
-- Over any history, the stored accounts and profiles are consistent.
use multi_agent_desk.Prelude.{
  ℕ, ◌≡◌, refl, inl, inr, Bool, true, false, not, ◌&&◌, ◌||◌, List, [], ◌∷◌, All, ◌==◌, Bool-cases,
  Option-cases, arith, Text, text_eq, text_eq_iff, slt,
}
use mathlib.Core.Path.{subst}
use multi_agent_desk.Domain.Errors.{Result, ok, err, result_cases}
use multi_agent_desk.Domain.Account.{Account}
use multi_agent_desk.Storage.Driver.{Driver}
use multi_agent_desk.Storage.Rows.{find, any, modify, All-modify, find-holds}
use multi_agent_desk.Storage.Registry.{Profile, Registry, is_profile, clashes}
use multi_agent_desk.Storage.Registry.Accounts
use multi_agent_desk.Storage.Registry.Profiles
use multi_agent_desk.Storage.Registry.Consistent.{
  Owned, Apart, Apart-sym, Distinct, Consistent, Free, same_key, Distinct-modify,
}
use multi_agent_desk.Storage.Registry.Keeping.{
  creates-Consistent, updates-Consistent, enables-Consistent,
}
use multi_agent_desk.Storage.Registry.Deleting.{
  deletes_account-Consistent, deletes_profile-Consistent, creates_profile-Consistent,
}

clash-Free :
    (id : Text) (expected : ℕ) (p old : Profile) (ps : List Profile)
    → Profiles.at_revision id expected old ≡ true
    → any (λ q. not (is_profile id q) && clashes (Profiles.save_patched p old) q) ps ≡ false
    → All (Free id (Profiles.at_revision id expected) (Profiles.save_patched p)) ps
unfolding any
clash-Free id expected p old [] met h = tt
clash-Free id expected p old (q ∷ ps) met h =
    let here : (not (is_profile id q) && clashes (Profiles.save_patched p old) q) ≡ false =
      ground arith in
    (λ other x at. apart q x here other at, clash-Free id expected p old ps met (ground arith))
  where
    apart :
        (q x : Profile)
        → (not (is_profile id q) && clashes (Profiles.save_patched p old) q) ≡ false
        → text_eq q.id id ≡ false
        → Profiles.at_revision id expected x ≡ true
        → Apart (Profiles.save_patched p x) q
    apart q x here other at =
        unfold Profiles.save_patched in
        unfold same_key in
        record {
          ids = ground (arith, text_eq_iff x.id id, text_eq_iff q.id id, text_eq_iff x.id q.id);
          keys = ground (
            arith,
            text_eq_iff p.selector_key q.selector_key,
            text_eq_iff q.selector_key p.selector_key,
          );
        }

update_at-Consistent :
    (d : Driver) (id : Text) (expected : ℕ) (p : Profile) (r r' : Registry)
    → Consistent r
    → Profiles.update_at d id expected p r ≡ ok r'
    → Consistent r'
unfolding Profiles.update_at
update_at-Consistent d id expected p r r' c h =
    elim (Option-cases (find (Profiles.at_revision id expected) r.profiles)) [
      | inl missing ↦ absurd (ground (arith, missing))
      | inr (old, there) ↦
          let free : any (λ q. not (is_profile id q) && clashes (Profiles.save_patched p old) q)
                r.profiles
              ≡ false =
            ground (arith, there) in
          let written : record r {
            profiles =
                modify (Profiles.at_revision id expected) (Profiles.save_patched p) r.profiles;
          }
              ≡ r' =
            ground (arith, there) in
          subst Consistent written (
            saved r c (
              clash-Free id expected p old r.profiles
                (find-holds (Profiles.at_revision id expected) r.profiles old there) free))
    ]
  where
    saved :
        (r : Registry)
        → Consistent r
        → All (Free id (Profiles.at_revision id expected) (Profiles.save_patched p)) r.profiles
        → Consistent (record r {
          profiles = modify (Profiles.at_revision id expected) (Profiles.save_patched p) r.profiles;
        })
    saved r c free = record {
      owned =
          All-modify (Owned r.accounts) (Owned r.accounts) (Profiles.at_revision id expected)
            (Profiles.save_patched p) r.profiles
            (λ x met o.
              unfold Profiles.save_patched in
              record { owner = o.owner; found = o.found; provider = o.provider })
            (λ x missed o. o) c.owned;
      distinct =
          Distinct-modify id (Profiles.at_revision id expected) (Profiles.save_patched p) r.profiles
            (λ x met. ground arith) free c.distinct;
    }

-- A change that keeps ids, keys and visibility.
Distinct-kept :
    (q : Profile → Bool) (f : Profile → Profile) (ps : List Profile)
    → ((x y : Profile) → Apart x y → Apart (f x) y)
    → Distinct ps
    → Distinct (modify q f ps)
unfolding modify
Distinct-kept q f [] keeps d = tt
Distinct-kept q f (x ∷ ps) keeps d = elim (Bool-cases (q x)) [
  | inl met ↦ rw met (
    All-modify (Apart x) (Apart (f x)) q f ps
        (λ y m a. Apart-sym (f y) (f x) (keeps y (f x) (Apart-sym (f x) y (keeps x y a))))
        (λ y m a. keeps x y a) d.0,
    Distinct-kept q f ps keeps d.1,
  )
  | inr missed ↦ rw missed (
    All-modify (Apart x) (Apart x) q f ps (λ y m a. Apart-sym (f y) x (keeps y x (Apart-sym x y a)))
        (λ y m a. a) d.0,
    Distinct-kept q f ps keeps d.1,
  )
]

enabled-Apart :
    (enabled : Bool) (at : ℕ) (x y : Profile)
    → Apart x y
    → Apart (Profiles.enabled_profile enabled at x) y
unfolding Profiles.enabled_profile same_key
enabled-Apart enabled at x y a = record { ids = a.ids; keys = a.keys }

enable_at-Consistent :
    (d : Driver) (id : Text) (expected : ℕ) (enabled : Bool) (at : ℕ) (r r' : Registry)
    → Consistent r
    → Profiles.enable_at d id expected enabled at r ≡ ok r'
    → Consistent r'
unfolding Profiles.enable_at
enable_at-Consistent d id expected enabled at r r' c h =
    let written : record r {
      profiles =
          modify (Profiles.at_revision id expected) (Profiles.enabled_profile enabled at)
            r.profiles;
    }
        ≡ r' =
      ground arith in
    subst Consistent written (record {
      owned =
          All-modify (Owned r.accounts) (Owned r.accounts) (Profiles.at_revision id expected)
            (Profiles.enabled_profile enabled at) r.profiles
            (λ x met o.
              unfold Profiles.enabled_profile in
              record { owner = o.owner; found = o.found; provider = o.provider })
            (λ x missed o. o) c.owned;
      distinct =
          Distinct-kept (Profiles.at_revision id expected) (Profiles.enabled_profile enabled at)
            r.profiles (enabled-Apart enabled at) c.distinct;
    })

read_profile-rows :
    (reads : Bool) (id : Text) (r : Registry) (x : Result Registry)
    → Consistent r
    → ((r' : Registry) → x ≡ ok r' → Consistent r')
    → Consistent (Profiles.read_profile reads id r x).1
read_profile-rows reads id r (ok r') c after = after r' refl
read_profile-rows reads id r (err e) c after = ground arith

enables_profile-Consistent :
    (d : Driver) (reads : Bool) (id : Text) (expected : ℕ) (enabled : Bool) (at : ℕ) (r : Registry)
    → Consistent r
    → Consistent (Profiles.set_profile_enabled d reads id expected enabled at r).1
unfolding Profiles.set_profile_enabled
enables_profile-Consistent d reads id expected enabled at r c =
    elim (Bool-cases (slt expected 1 || at == 0)) [
      | inl refused ↦ rw refused c
      | inr fine ↦ rw fine (
          read_profile-rows reads id r (Profiles.enable_at d id expected enabled at r) c
            (λ r' done. enable_at-Consistent d id expected enabled at r r' c done))
    ]

updates_profile-Consistent :
    (d : Driver) (reads : Bool) (others : Registry → Registry) (id : Text) (expected : ℕ)
    (patch : Profiles.ProfilePatch) (at : ℕ) (r : Registry)
    → Consistent r
    → Consistent (others r)
    → Consistent (Profiles.update_profile d reads others id expected patch at r).1
unfolding Profiles.update_profile
updates_profile-Consistent d reads others id expected patch at r c co =
    elim (result_cases (Profiles.patch_profile reads r id expected patch at)) [
      | inl (e, refused) ↦ rw refused c
      | inr (p, fine) ↦
          rw fine (elim (result_cases (Profiles.update_at d id expected p (others r))) [
            | inl (e, failed) ↦ rw (failed, Profiles.write_patched) co
            | inr (r', done) ↦
                rw (done, Profiles.write_patched)
                  (update_at-Consistent d id expected p (others r) r' co done)
          ])
    ]

-- The calls that write accounts and profiles.
pub data Call : Type 0 where
  creates : Driver → (Text → Bool) → Account → Profile → Call
  updates : Driver → Bool → (Registry → Registry) → Text → ℕ → Accounts.AccountPatch → ℕ → Call
  enables : Driver → Bool → Text → ℕ → Bool → ℕ → Call
  deletes : Driver → Text → ℕ → ℕ → Call
  creates_profile : Driver → (Text → Bool) → Account → Profile → Call
  updates_profile :
      Driver → Bool → (Registry → Registry) → Text → ℕ → Profiles.ProfilePatch → ℕ → Call
  enables_profile : Driver → Bool → Text → ℕ → Bool → ℕ → Call
  deletes_profile : Driver → Text → ℕ → ℕ → Call

unfoldable pub step : Call → Registry → Registry
step (Call.creates d json_valid a p) r =
    (Accounts.create_account_with_default_profile d json_valid a p r).1
step (Call.updates d reads others id expected patch at) r =
    (Accounts.update_account d reads others id expected patch at r).1
step (Call.enables d reads id expected enabled at) r =
    (Accounts.set_account_enabled_revision d reads id expected enabled at r).1
step (Call.deletes d id expected at) r = (Accounts.delete_account d id expected at r).1
step (Call.creates_profile d json_valid a p) r = (Profiles.create_profile d json_valid a p r).1
step (Call.updates_profile d reads others id expected patch at) r =
    (Profiles.update_profile d reads others id expected patch at r).1
step (Call.enables_profile d reads id expected enabled at) r =
    (Profiles.set_profile_enabled d reads id expected enabled at r).1
step (Call.deletes_profile d id expected at) r = (Profiles.delete_profile d id expected at r).1

unfoldable pub run : List Call → Registry → Registry
run [] r = r
run (call ∷ calls) r = run calls (step call r)

-- The writers between the read and the write of an update keep consistency too.
abbrev pub Fair : Call → Type 0
Fair (Call.updates d reads others id expected patch at) =
    (r : Registry) → Consistent r → Consistent (others r)
Fair (Call.updates_profile d reads others id expected patch at) =
    (r : Registry) → Consistent r → Consistent (others r)
Fair _ = Unit

step-Consistent : (call : Call) (r : Registry) → Fair call → Consistent r → Consistent (step call r)
unfolding step
step-Consistent (Call.creates d json_valid a p) r fair c = creates-Consistent d json_valid a p r c
step-Consistent (Call.updates d reads others id expected patch at) r fair c =
    updates-Consistent d reads others id expected patch at r c (fair r c)
step-Consistent (Call.enables d reads id expected enabled at) r fair c =
    enables-Consistent d reads id expected enabled at r c
step-Consistent (Call.deletes d id expected at) r fair c =
    deletes_account-Consistent d id expected at r c
step-Consistent (Call.creates_profile d json_valid a p) r fair c =
    creates_profile-Consistent d json_valid a p r c
step-Consistent (Call.updates_profile d reads others id expected patch at) r fair c =
    updates_profile-Consistent d reads others id expected patch at r c (fair r c)
step-Consistent (Call.enables_profile d reads id expected enabled at) r fair c =
    enables_profile-Consistent d reads id expected enabled at r c
step-Consistent (Call.deletes_profile d id expected at) r fair c =
    deletes_profile-Consistent d id expected at r c

-- Over any history of calls that create, update, enable, disable and delete accounts and profiles,
-- every stored profile has a stored account of its provider, no two profiles have the same id, and
-- no two public profiles have the same selector key, if that holds at first and the other writers
-- between the read and the write of an update keep it.
pub run-Consistent :
    (calls : List Call) (r : Registry) → All Fair calls → Consistent r → Consistent (run calls r)
unfolding run
run-Consistent [] r fair c = c
run-Consistent (call ∷ calls) r fair c =
    run-Consistent calls (step call r) fair.1 (step-Consistent call r fair.0 c)
