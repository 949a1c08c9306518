-- ===== src/Domain/Account/Selectors.antt =====
-- A selector names the same profile whatever its case, with an `@` before it or none.
use multi_agent_desk.Prelude.{
  ℕ, suc, ◌⊎◌, ◌≡◌, ◌∙◌, ◌↔◌, refl, sym, ap, inl, inr, true, false, [], ◌∷◌, length, Text, arith,
  Bool-cases,
}
use multi_agent_desk.Domain.Errors.{Code, Result, ok, err}
use multi_agent_desk.Domain.Id.{all_bytes}
use multi_agent_desk.Domain.Account.{
  is_letter, alias_byte, matches_alias, lower_byte, to_lower, canonical_selector_alias, at_sign,
  trim_at, has_two_ats, parse_profile_selector,
}

lower_byte-alias_byte : (c : ℕ) → alias_byte c ≡ true → alias_byte (lower_byte c) ≡ true
unfolding alias_byte lower_byte
lower_byte-alias_byte c h = ground arith

lower_byte-is_letter : (c : ℕ) → is_letter c ≡ true → is_letter (lower_byte c) ≡ true
unfolding lower_byte
lower_byte-is_letter c h = ground arith

lower_byte-lower_byte : (c : ℕ) → lower_byte (lower_byte c) ≡ lower_byte c
unfolding lower_byte
lower_byte-lower_byte c = ground arith

to_lower-to_lower : (t : Text) → to_lower (to_lower t) ≡ to_lower t
unfolding to_lower
to_lower-to_lower [] = refl
to_lower-to_lower (c ∷ t) = rw (lower_byte-lower_byte c, to_lower-to_lower t) refl

length-to_lower : (t : Text) → length (to_lower t) ≡ length t
unfolding to_lower
length-to_lower [] = refl
length-to_lower (c ∷ t) = ap (λ n. suc n) (length-to_lower t)

all_bytes-to_lower :
    (t : Text) → all_bytes alias_byte t ≡ true → all_bytes alias_byte (to_lower t) ≡ true
unfolding all_bytes to_lower
all_bytes-to_lower [] h = refl
all_bytes-to_lower (c ∷ t) h = ground (arith, lower_byte-alias_byte c, all_bytes-to_lower t)

matches_alias-to_lower : (t : Text) → matches_alias t ≡ true → matches_alias (to_lower t) ≡ true
unfolding matches_alias to_lower
matches_alias-to_lower [] h = h
matches_alias-to_lower (c ∷ t) h =
    ground (arith, lower_byte-is_letter c, all_bytes-to_lower t, length-to_lower t)

canonical_selector_alias_iff :
    (alias key : Text)
    → (canonical_selector_alias alias ≡ ok key)
      ↔ ((matches_alias alias ≡ true) × (key ≡ to_lower alias))
unfolding canonical_selector_alias
canonical_selector_alias_iff alias key =
    (λ h. (ground arith, ground arith), λ (m, k). rw (m, k) refl)

trim_at_cases : (t : Text) → (t ≡ trim_at t) ⊎ (t ≡ at_sign ∷ trim_at t)
unfolding trim_at
trim_at_cases [] = inl refl
trim_at_cases (c ∷ t) = ground arith

alias_first : (t : Text) → matches_alias t ≡ true → (trim_at t ≡ t) × (has_two_ats t ≡ false)
unfolding matches_alias trim_at has_two_ats
alias_first [] h = absurd (ground arith)
alias_first (c ∷ []) h = (ground arith, refl)
alias_first (c ∷ d ∷ t) h = (ground arith, ground arith)

at_alias : (t : Text) → matches_alias t ≡ true → has_two_ats (at_sign ∷ t) ≡ false
unfolding matches_alias has_two_ats
at_alias [] h = refl
at_alias (c ∷ t) h = ground arith

parse_trimmed :
    (selector key : Text)
    → parse_profile_selector selector ≡ ok key
    → canonical_selector_alias (trim_at selector) ≡ ok key
unfolding parse_profile_selector
parse_trimmed selector key h = elim (Bool-cases (has_two_ats selector)) [
  | inl two ↦ absurd (err_ne (rw (two, parse_profile_selector) at h))
  | inr one ↦ rw (one, parse_profile_selector) at h
]
  where
    err_ne : Path (Result Text) (err Code.alias_invalid) (ok key) → ⊥
    err_ne e = ground arith

parse_of_alias :
    (selector alias key : Text)
    → has_two_ats selector ≡ false
    → trim_at selector ≡ alias
    → canonical_selector_alias alias ≡ ok key
    → parse_profile_selector selector ≡ ok key
unfolding parse_profile_selector
parse_of_alias selector alias key one trimmed h = rw (one, trimmed) h

trim_at_sign : (t : Text) → trim_at (at_sign ∷ t) ≡ t
unfolding trim_at
trim_at_sign t = refl

-- A selector is accepted exactly if it is an alias, or an `@` and an alias, and then names the
-- lower-case alias.
pub parse_profile_selector_iff :
    (selector key : Text)
    → (parse_profile_selector selector ≡ ok key) ↔ (
        (alias : Text) × ((selector ≡ alias) ⊎ (selector ≡ at_sign ∷ alias))
        × (matches_alias alias ≡ true)
        × (key ≡ to_lower alias))
parse_profile_selector_iff selector key = (
  λ h.
      let c =
        (canonical_selector_alias_iff (trim_at selector) key).0 (parse_trimmed selector key h) in
      (trim_at selector, trim_at_cases selector, c.0, c.1),
  λ (alias, written, matches, lower).
      let c = (canonical_selector_alias_iff alias key).1 (matches, lower) in
      elim written [
        | inl same ↦
            let f = alias_first alias matches in
            parse_of_alias selector alias key (rw same f.1) (rw same f.0) c
        | inr at ↦
            parse_of_alias selector alias key (rw at (at_alias alias matches))
              (ap trim_at at ∙ trim_at_sign alias) c
      ],
)

-- The key that an alias has is an alias of the same key.
pub canonical_selector_alias_idem :
    (alias key : Text)
    → canonical_selector_alias alias ≡ ok key
    → canonical_selector_alias key ≡ ok key
canonical_selector_alias_idem alias key h =
    let c = (canonical_selector_alias_iff alias key).0 h in
    (canonical_selector_alias_iff key key).1 (
      rw c.1 (matches_alias-to_lower alias c.0),
      c.1 ∙ sym (to_lower-to_lower alias) ∙ ap to_lower (sym c.1),
    )
