-- ===== src/Domain/Capability/Canonical.antt =====
-- `CanonicalCapabilities` computes a normal form of a set of capabilities.
use multi_agent_desk.Prelude.{
  ◌≡◌, refl, sym, ap, ◌∙◌, inl, inr, true, false, ◌||◌, List, [], ◌∷◌, if◌then◌else◌, All, Text,
  text_eq, text_eq_iff, arith, Bool-cases,
}
use mathlib.Core.Path.{subst}
use multi_agent_desk.Domain.Errors.{Code, Result, ok, err}
use multi_agent_desk.Domain.Capability.{
  valid_capabilities, has_capability, note_seen, sort_result, sort_capabilities,
  canonical_capabilities,
}
use multi_agent_desk.Domain.Capability.Order.{
  IsSorted, SameMembers, IsSorted-unique, has-insert_sorted, insert-IsSorted, has_first,
  has_nothing,
}

-- No value stands in the list twice.
abbrev Distinct : List Text → Type 0
Distinct [] = Unit
Distinct (c ∷ rest) = (has_capability rest c ≡ false) × Distinct rest

abbrev pub AllKnown : List Text → Type 0
AllKnown values = All (λ c. has_capability valid_capabilities c ≡ true) values

-- What the first loop has seen.
abbrev Seen : List Text → List Text → Result (List Text) → Type 0
Seen values seen (ok out) =
    AllKnown values
    × Distinct out
    × ((d : Text) → has_capability out d ≡ (has_capability values d || has_capability seen d))
Seen values seen (err e) = (e ≡ Code.invalid_argument) × ¬ AllKnown values

has-cons :
    (c : Text) (xs : List Text) (d : Text)
    → has_capability (c ∷ xs) d ≡ (text_eq c d || has_capability xs d)
unfolding has_capability
has-cons c xs d = ground arith

has-nil :
    (xs : List Text) (d : Text) → has_capability xs d ≡ (has_capability [] d || has_capability xs d)
unfolding has_capability
has-nil xs d = refl

abbrev seen_with : List Text → Text → List Text
seen_with seen c = if has_capability seen c then seen else c ∷ seen

seen_with-Distinct : (seen : List Text) (c : Text) → Distinct seen → Distinct (seen_with seen c)
seen_with-Distinct seen c h = elim (Bool-cases (has_capability seen c)) [
  | inl old ↦ rw old h
  | inr new ↦ rw new (new, h)
]

has-seen_with :
    (seen : List Text) (c d : Text)
    → has_capability (seen_with seen c) d ≡ (text_eq c d || has_capability seen d)
has-seen_with seen c d = elim (Bool-cases (has_capability seen c)) [
  | inl old ↦ elim (Bool-cases (text_eq c d)) [
    | inl same ↦
        let hit : has_capability seen d ≡ true = rw ((text_eq_iff c d).0 same) at old in
        rw (old, same) hit
    | inr differs ↦ rw (old, differs)
  ]
  | inr new ↦ rw new (has-cons c seen d)
]

Seen-cons :
    (c : Text) (rest seen : List Text) (r : Result (List Text))
    → has_capability valid_capabilities c ≡ true
    → Seen rest (seen_with seen c) r
    → Seen (c ∷ rest) seen r
Seen-cons c rest seen (ok out) known (all, distinct, members) = (
  (known, all),
  distinct,
  λ d. ground (arith, members d, has-seen_with seen c d, has-cons c rest d),
)
Seen-cons c rest seen (err e) known (code, bad) = (code, λ all. bad all.1)

note_seen-Seen :
    (values seen : List Text) → Distinct seen → Seen values seen (note_seen values seen)
unfolding note_seen
note_seen-Seen [] seen h = (tt, h, λ d. has-nil seen d)
note_seen-Seen (c ∷ rest) seen h = elim (Bool-cases (has_capability valid_capabilities c)) [
  | inl known ↦ rw known (
      Seen-cons c rest seen _ known
        (note_seen-Seen rest (seen_with seen c) (seen_with-Distinct seen c h)))
  | inr unknown ↦ rw unknown (refl, λ all. cc (all.0))
]

has-sort :
    (xs : List Text) (d : Text) → has_capability (sort_capabilities xs) d ≡ has_capability xs d
unfolding sort_capabilities
has-sort [] d = refl
has-sort (c ∷ xs) d =
    ground (arith, has-insert_sorted c (sort_capabilities xs) d, has-sort xs d, has-cons c xs d)

sort-IsSorted : (xs : List Text) → Distinct xs → IsSorted (sort_capabilities xs)
unfolding sort_capabilities
sort-IsSorted [] h = tt
sort-IsSorted (c ∷ xs) h =
    insert-IsSorted c (sort_capabilities xs) (has-sort xs c ∙ h.0) (sort-IsSorted xs h.1)

-- What the canonical form is, and when there is none.
abbrev pub Canonical : List Text → Result (List Text) → Type 0
Canonical values (ok out) = AllKnown values × IsSorted out × SameMembers out values
Canonical values (err e) = (e ≡ Code.invalid_argument) × ¬ AllKnown values

sort_result-Canonical :
    (values : List Text) (r : Result (List Text))
    → Seen values [] r
    → Canonical values (sort_result r)
sort_result-Canonical values (ok out) (all, distinct, members) =
    (all, sort-IsSorted out distinct, λ c. has-sort out c ∙ members c ∙ without c)
  where
    without :
        (c : Text) → (has_capability values c || has_capability [] c) ≡ has_capability values c
    without c = ground (arith, has_nothing c)
sort_result-Canonical values (err e) h = h

-- The result is strictly sorted, without repetition, and has the members of the input, which are
-- all known; an unknown capability, and nothing else, is refused as an invalid argument.
pub canonical_capabilities-Canonical :
    (values : List Text) → Canonical values (canonical_capabilities values)
unfolding canonical_capabilities
canonical_capabilities-Canonical values =
    sort_result-Canonical values _ (note_seen-Seen values [] tt)

Canonical-cases :
    (v w : List Text) (r s : Result (List Text))
    → Canonical v r
    → Canonical w s
    → (AllKnown v → AllKnown w)
    → (AllKnown w → AllKnown v)
    → SameMembers v w
    → r ≡ s
Canonical-cases v w (ok out) (ok out') (_, sorted, members) (_, sorted', members') to from same =
    ap ok (IsSorted-unique out out' sorted sorted' (λ c. members c ∙ same c ∙ sym (members' c)))
Canonical-cases v w (ok out) (err e) (known, _, _) (_, bad) to from same = absurd (bad (to known))
Canonical-cases v w (err e) (ok out) (_, bad) (known, _, _) to from same = absurd (bad (from known))
Canonical-cases v w (err e) (err e') (code, _) (code', _) to from same = ap err (code ∙ sym code')

has-later :
    (c : Text) (xs : List Text) (d : Text)
    → has_capability xs d ≡ true
    → has_capability (c ∷ xs) d ≡ true
unfolding has_capability
has-later c xs d h = ground arith

-- Every member of the list is known.
AllKnown-member :
    (xs : List Text) (d : Text)
    → AllKnown xs
    → has_capability xs d ≡ true
    → has_capability valid_capabilities d ≡ true
unfolding has_capability
AllKnown-member [] d all h = cc
AllKnown-member (c ∷ xs) d all h = elim (Bool-cases (text_eq c d)) [
  | inl same ↦ rw (← (text_eq_iff c d).0 same) (all.0)
  | inr differs ↦ AllKnown-member xs d all.1 (ground arith)
]

AllKnown-of_members :
    (xs ys : List Text)
    → ((d : Text) → has_capability xs d ≡ true → has_capability ys d ≡ true)
    → AllKnown ys
    → AllKnown xs
AllKnown-of_members [] ys sub all = tt
AllKnown-of_members (c ∷ xs) ys sub all = (
  AllKnown-member ys c all (sub c (has_first c xs)),
  AllKnown-of_members xs ys (λ d h. sub d (has-later c xs d h)) all,
)

-- The canonical form depends on the set of capabilities only: not on the order of the input, nor on
-- repetitions.
pub canonical_same_members :
    (v w : List Text)
    → ((c : Text) → has_capability v c ≡ has_capability w c)
    → canonical_capabilities v ≡ canonical_capabilities w
canonical_same_members v w same =
    Canonical-cases v w _ _ (canonical_capabilities-Canonical v)
      (canonical_capabilities-Canonical w) (AllKnown-of_members w v (λ d h. same d ∙ h))
      (AllKnown-of_members v w (λ d h. sym (same d) ∙ h)) same

-- Canonical capabilities stay as they are, so the daemon and the client agree on a list.
pub canonical_idem :
    (values out : List Text)
    → canonical_capabilities values ≡ ok out
    → canonical_capabilities out ≡ ok out
canonical_idem values out h =
    let c : Canonical values (ok out) =
      subst (Canonical values) h (canonical_capabilities-Canonical values) in
    canonical_same_members out values (c.2) ∙ h

Canonical-sorted-at :
    (xs : List Text) (r : Result (List Text))
    → IsSorted xs
    → AllKnown xs
    → Canonical xs r
    → r ≡ ok xs
Canonical-sorted-at xs (ok out) sorted all (_, sorted', members) =
    ap ok (IsSorted-unique out xs sorted' sorted members)
Canonical-sorted-at xs (err e) sorted all (_, bad) = absurd (bad all)

-- A strictly sorted list of known capabilities is its own canonical form.
pub canonical_sorted :
    (xs : List Text) → IsSorted xs → AllKnown xs → canonical_capabilities xs ≡ ok xs
canonical_sorted xs sorted all =
    Canonical-sorted-at xs _ sorted all (canonical_capabilities-Canonical xs)
