-- ===== src/Domain/Capability/Order.antt =====
-- The order of Go strings is strict and total, and a strictly sorted list is known by its members.
use multi_agent_desk.Prelude.{
  ◌≡◌, refl, sym, ◌⊎◌, inl, inr, true, false, List, [], ◌∷◌, if◌then◌else◌, All, Text, text_eq,
  text_eq_iff, arith, Bool-cases,
}
use multi_agent_desk.Domain.Capability.{has_capability, text_lt, insert_sorted}

pub text_lt_irrefl : (s : Text) → text_lt s s ≡ false
unfolding text_lt
text_lt_irrefl [] = refl
text_lt_irrefl (a ∷ s) = ground (arith, text_lt_irrefl s)

pub text_lt_trans : (s t u : Text) → text_lt s t ≡ true → text_lt t u ≡ true → text_lt s u ≡ true
unfolding text_lt
text_lt_trans s t [] h k = cc
text_lt_trans [] t (c ∷ u) h k = refl
text_lt_trans (a ∷ s) [] (c ∷ u) h k = cc
text_lt_trans (a ∷ s) (b ∷ t) (c ∷ u) h k = ground (arith, text_lt_trans s t u)

pub text_lt-total : (s t : Text) → (text_lt s t ≡ true) ⊎ (s ≡ t) ⊎ (text_lt t s ≡ true)
unfolding text_lt
text_lt-total [] [] = inr (inl refl)
text_lt-total [] (b ∷ t) = inl refl
text_lt-total (a ∷ s) [] = inr (inr refl)
text_lt-total (a ∷ s) (b ∷ t) = ground (arith, text_lt-total s t)

abbrev pub Above : Text → List Text → Type 0
Above x xs = All (λ y. text_lt x y ≡ true) xs

abbrev pub IsSorted : List Text → Type 0
IsSorted [] = Unit
IsSorted (x ∷ xs) = Above x xs × IsSorted xs

Above-trans : (x y : Text) (xs : List Text) → text_lt x y ≡ true → Above y xs → Above x xs
Above-trans x y [] h a = tt
Above-trans x y (z ∷ xs) h a = (text_lt_trans x y z h a.0, Above-trans x y xs h a.1)

pub text_lt-asym : (s t : Text) → text_lt s t ≡ true → text_lt t s ≡ false
text_lt-asym s t h = elim (Bool-cases (text_lt t s)) [
  | inl back ↦ cc (text_lt_irrefl s, text_lt_trans s t s h back)
  | inr ahead ↦ ahead
]

pub Above-not_member : (x : Text) (xs : List Text) → Above x xs → has_capability xs x ≡ false
unfolding has_capability
Above-not_member x [] a = refl
Above-not_member x (y ∷ xs) a = elim (Bool-cases (text_eq y x)) [
  | inl same ↦ let e : y ≡ x = (text_eq_iff y x).0 same in cc (text_lt_irrefl x, rw e at a.0)
  | inr differs ↦ rw differs (Above-not_member x xs a.1)
]

pub has-insert_sorted :
    (c : Text) (xs : List Text) (d : Text)
    → has_capability (insert_sorted c xs) d ≡ (if text_eq c d then true else has_capability xs d)
unfolding has_capability insert_sorted
has-insert_sorted c [] d = refl
has-insert_sorted c (x ∷ xs) d = ground (arith, has-insert_sorted c xs d)

insert-Above :
    (c x : Text) (xs : List Text) → text_lt x c ≡ true → Above x xs → Above x (insert_sorted c xs)
unfolding insert_sorted
insert-Above c x [] h a = (h, tt)
insert-Above c x (y ∷ xs) h a = elim (Bool-cases (text_lt c y)) [
  | inl before ↦ rw before (h, a)
  | inr after ↦ rw after (a.0, insert-Above c x xs h a.1)
]

pub insert-IsSorted :
    (c : Text) (xs : List Text)
    → has_capability xs c ≡ false
    → IsSorted xs
    → IsSorted (insert_sorted c xs)
unfolding insert_sorted has_capability
insert-IsSorted c [] new s = (tt, tt)
insert-IsSorted c (x ∷ xs) new s = elim (text_lt-total c x) [
  | inl before ↦ rw before ((before, Above-trans c x xs before s.0), s)
  | inr (inl same) ↦ cc ((text_eq_iff x c).1 (sym same), new)
  | inr (inr after) ↦
      let rest_new : has_capability xs c ≡ false = ground arith in
      rw (text_lt-asym x c after) (insert-Above c x xs after s.0, insert-IsSorted c xs rest_new s.1)
]

abbrev pub SameMembers : List Text → List Text → Type 0
SameMembers xs ys = (c : Text) → has_capability xs c ≡ has_capability ys c

tails-SameMembers :
    (x : Text) (xs ys : List Text)
    → Above x xs
    → Above x ys
    → SameMembers (x ∷ xs) (x ∷ ys)
    → SameMembers xs ys
unfolding has_capability
tails-SameMembers x xs ys a b same c = elim (Bool-cases (text_eq x c)) [
  | inl e ↦
      let hit : x ≡ c = (text_eq_iff x c).0 e in
      rw (← hit, Above-not_member x xs a, Above-not_member x ys b)
  | inr differs ↦ ground (arith, same c)
]

pub has_first : (x : Text) (xs : List Text) → has_capability (x ∷ xs) x ≡ true
unfolding has_capability
has_first x xs = rw ((text_eq_iff x x).1 refl)

pub has_nothing : (c : Text) → has_capability [] c ≡ false
unfolding has_capability
has_nothing c = refl

-- The least member of one list cannot lie below the least of the other.
least-not-below :
    (x y : Text) (xs ys : List Text)
    → Above y ys
    → SameMembers (x ∷ xs) (y ∷ ys)
    → text_lt x y ≡ true
    → ⊥
least-not-below x y xs ys b same below =
    let out : has_capability (y ∷ ys) x ≡ false =
      Above-not_member x (y ∷ ys) (below, Above-trans x y ys below b) in
    cc (has_first x xs, same x)

-- A strictly sorted list is determined by its members.
pub IsSorted-unique : (xs ys : List Text) → IsSorted xs → IsSorted ys → SameMembers xs ys → xs ≡ ys
IsSorted-unique [] [] s t same = refl
IsSorted-unique [] (y ∷ ys) s t same = cc (has_first y ys, same y, has_nothing y)
IsSorted-unique (x ∷ xs) [] s t same = cc (has_first x xs, same x, has_nothing x)
IsSorted-unique (x ∷ xs) (y ∷ ys) s t same = elim (text_lt-total x y) [
  | inl below ↦ absurd (least-not-below x y xs ys t.0 same below)
  | inr (inl e) ↦
      let above : Above x ys = rw e t.0 in
      let members : SameMembers (x ∷ xs) (x ∷ ys) = rw (← e) at same in
      let tails : xs ≡ ys =
        IsSorted-unique xs ys s.1 t.1 (tails-SameMembers x xs ys s.0 above members) in
      cc
  | inr (inr above) ↦ absurd (least-not-below y x ys xs s.0 (λ c. sym (same c)) above)
]
