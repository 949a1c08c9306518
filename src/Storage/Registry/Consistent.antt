-- ===== src/Storage/Registry/Consistent.antt =====
-- What holds of the stored accounts and profiles at all times.
use multi_agent_desk.Prelude.{
  some_inj, ◌≡◌, ◌∙◌, refl, sym, ap, inl, inr, Bool, true, false, not, ◌&&◌, none, some, List, [],
  ◌∷◌, All, if◌then◌else◌, Bool-cases, arith, Text, text_eq, text_eq_iff,
}
use multi_agent_desk.Domain.Session.{is_empty}
use multi_agent_desk.Domain.Account.{Account}
use multi_agent_desk.Storage.Rows.{
  find, any, modify, without, All-modify, All-without, All-map, All-both, find-any,
}
use multi_agent_desk.Storage.Registry.{Profile, Registry, is_account, clashes}

-- The account of a profile is there, with its provider.
pub record Owned (accounts : List Account) (p : Profile) : Type 0 where
  pub owner : Account
  pub found : find (is_account p.account_id) accounts ≡ some owner
  pub provider : owner.provider ≡ p.provider

unfoldable pub same_key : Profile → Profile → Bool
same_key p q =
    not (is_empty p.selector_key)
    && text_eq p.selector_key q.selector_key
    && not p.internal
    && not q.internal

-- Two profiles have different ids, and different keys if both are public.
pub record Apart (p q : Profile) : Type 0 where
  pub ids : text_eq p.id q.id ≡ false
  pub keys : same_key p q ≡ false

abbrev pub Distinct : List Profile → Type 0
Distinct [] = Unit
Distinct (p ∷ ps) = All (Apart p) ps × Distinct ps

pub record Consistent (r : Registry) : Type 0 where
  pub owned : All (Owned r.accounts) r.profiles
  pub distinct : Distinct r.profiles

pub text_eq_sym : (s t : Text) → text_eq s t ≡ text_eq t s
text_eq_sym s t = ground (arith, text_eq_iff s t, text_eq_iff t s)

pub Apart-sym : (p q : Profile) → Apart p q → Apart q p
unfolding same_key
Apart-sym p q a = record {
  ids = text_eq_sym q.id p.id ∙ a.ids;
  keys =
      let k = a.keys in
      ground (
        arith,
        text_eq_iff p.selector_key q.selector_key,
        text_eq_iff q.selector_key p.selector_key,
      );
}

-- A row that is inserted meets no other's id or key.
pub clashes-Apart :
    (new : Profile) (ps : List Profile) → any (clashes new) ps ≡ false → All (Apart new) ps
unfolding any
clashes-Apart new [] h = tt
clashes-Apart new (q ∷ ps) h =
    let here : clashes new q ≡ false = ground arith in
    let there : any (clashes new) ps ≡ false = ground arith in
    (apart new q here, clashes-Apart new ps there)
  where
    apart : (new q : Profile) → clashes new q ≡ false → Apart new q
    apart new q h = record {
      ids = text_eq_sym new.id q.id ∙ id_free new q h;
      keys = key_free new q h;
    }
      where
        id_free : (new q : Profile) → clashes new q ≡ false → text_eq q.id new.id ≡ false
        id_free new q h = ground arith

        key_free : (new q : Profile) → clashes new q ≡ false → same_key new q ≡ false
        key_free new q h =
            unfold same_key in
            ground (
              arith,
              text_eq_iff new.selector_key q.selector_key,
              text_eq_iff q.selector_key new.selector_key,
            )

pub Distinct-without :
    (p : Profile → Bool) (ps : List Profile) → Distinct ps → Distinct (without p ps)
unfolding without
Distinct-without p [] d = tt
Distinct-without p (q ∷ ps) d = elim (Bool-cases (p q)) [
  | inl met ↦ rw met (Distinct-without p ps d.1)
  | inr missed ↦ rw missed (
    All-map (λ x. Apart q x × (p x ≡ false)) (Apart q) (without p ps) (λ x a. a.0)
        (All-without (Apart q) p ps d.0),
    Distinct-without p ps d.1,
  )
]

-- The rows that are met have the id, and when changed are apart from the rows of other ids.
abbrev pub Free : Text → (Profile → Bool) → (Profile → Profile) → Profile → Type 0
Free id p f q = text_eq q.id id ≡ false → (x : Profile) → p x ≡ true → Apart (f x) q

other_id :
    (id : Text) (x y : Profile) → text_eq x.id id ≡ true → Apart x y → text_eq y.id id ≡ false
other_id id x y same a =
    let differs = a.ids in
    ground (arith, text_eq_iff x.id id, text_eq_iff y.id id, text_eq_iff x.id y.id)

pub Distinct-modify :
    (id : Text) (p : Profile → Bool) (f : Profile → Profile) (ps : List Profile)
    → ((x : Profile) → p x ≡ true → text_eq x.id id ≡ true)
    → All (Free id p f) ps
    → Distinct ps
    → Distinct (modify p f ps)
unfolding modify
Distinct-modify id p f [] named free d = tt
Distinct-modify id p f (x ∷ ps) named free d = elim (Bool-cases (p x)) [
  | inl met ↦ rw met (
    All-modify (λ y. Apart x y × Free id p f y) (Apart (f x)) p f ps
        (λ y met_y (a, h).
          absurd (false_ne (sym (other_id id x y (named x met) a) ∙ named y met_y)))
        (λ y missed_y (a, h). h (other_id id x y (named x met) a) x met)
        (All-both (Apart x) (Free id p f) ps d.0 free.1),
    Distinct-modify id p f ps named free.1 d.1,
  )
  | inr missed ↦ rw missed (
    All-modify (Apart x) (Apart x) p f ps
        (λ y met_y a.
          Apart-sym (f y) x (free.0 (other_id id y x (named y met_y) (Apart-sym x y a)) y met_y))
        (λ y missed_y a. a) d.0,
    Distinct-modify id p f ps named free.1 d.1,
  )
]
  where
    false_ne : Path Bool false true → ⊥
    false_ne e = ground arith

-- What the lookups of an account meet after a change of the table.
pub find-cons :
    (k : Text) (new a : Account) (rows : List Account)
    → any (is_account new.id) rows ≡ false
    → find (is_account k) rows ≡ some a
    → find (is_account k) (new ∷ rows) ≡ some a
unfolding find
find-cons k new a rows fresh found = elim (Bool-cases (text_eq new.id k)) [
  | inl same ↦
      absurd (false_ne (sym fresh ∙ taken (rw (sym ((text_eq_iff new.id k).0 same)) at found)))
  | inr differs ↦ rw differs found
]
  where
    false_ne : Path Bool false true → ⊥
    false_ne e = ground arith

    taken : find (is_account new.id) rows ≡ some a → any (is_account new.id) rows ≡ true
    taken h = find-any (is_account new.id) rows a h

pub find-modify :
    (k : Text) (q : Account → Bool) (f : Account → Account) (rows : List Account) (a : Account)
    → ((x : Account) → (f x).id ≡ x.id)
    → ((x : Account) → (f x).provider ≡ x.provider)
    → find (is_account k) rows ≡ some a
    → (b : Account) × (find (is_account k) (modify q f rows) ≡ some b) × (b.provider ≡ a.provider)
unfolding find modify
find-modify k q f [] a ids providers found = absurd (none_ne found)
  where
    none_ne : none ≡ some a → ⊥
    none_ne h = ground arith
find-modify k q f (x ∷ rows) a ids providers found =
    let kept : ((if q x then f x else x).id ≡ x.id)
        × ((if q x then f x else x).provider ≡ x.provider) =
      elim (Bool-cases (q x)) [
        | inl met ↦ rw met (ids x, providers x)
        | inr missed ↦ rw missed (refl, refl)
      ] in
    elim (Bool-cases (text_eq x.id k)) [
      | inl here ↦
          let same : x ≡ a = some_inj (rw (here, find) at found) in
          ((if q x then f x else x), rw (kept.0, here) refl, kept.1 ∙ ap (λ y. y.provider) same)
      | inr later ↦
          let (b, there, provider) =
            find-modify k q f rows a ids providers (rw (later, find) at found) in
          (b, rw (kept.0, later) there, provider)
    ]

pub Owned-accounts :
    (accounts accounts' : List Account) (ps : List Profile)
    → ((k : Text) (a : Account)
        → find (is_account k) accounts ≡ some a
        → (b : Account) × (find (is_account k) accounts' ≡ some b) × (b.provider ≡ a.provider))
    → All (Owned accounts) ps
    → All (Owned accounts') ps
Owned-accounts accounts accounts' ps moves all =
    All-map (Owned accounts) (Owned accounts') ps
      (λ p o.
        let (b, found, provider) = moves p.account_id o.owner o.found in
        record { owner = b; found = found; provider = provider ∙ o.provider })
      all
