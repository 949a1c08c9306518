-- ===== src/Storage/Rows.antt =====
-- A table as the list of its rows, with the SQL statements as tests on a row.
use multi_agent_desk.Prelude.{
  ◌≡◌, refl, inl, inr, Bool, true, false, ◌||◌, Option, none, some, List, [], ◌∷◌, All,
  if◌then◌else◌, Bool-cases, arith,
}

module _ {ℓ} {A : Type ℓ} where
  -- `SELECT ... WHERE p`, where one row at most is met.
  unfoldable pub find : (A → Bool) → List A → Option A
  find p [] = none
  find p (x ∷ xs) = if p x then some x else find p xs

  unfoldable pub any : (A → Bool) → List A → Bool
  any p [] = false
  any p (x ∷ xs) = p x || any p xs

  -- `UPDATE ... WHERE p`.
  unfoldable pub modify : (A → Bool) → (A → A) → List A → List A
  modify p f [] = []
  modify p f (x ∷ xs) = (if p x then f x else x) ∷ modify p f xs

  -- `DELETE ... WHERE p`, or the rows of a `SELECT` that p does not meet.
  unfoldable pub without : (A → Bool) → List A → List A
  without p [] = []
  without p (x ∷ xs) = if p x then without p xs else x ∷ without p xs

  pub find-any : (p : A → Bool) (xs : List A) (x : A) → find p xs ≡ some x → any p xs ≡ true
  unfolding find any
  find-any p [] x h = absurd (ground arith)
  find-any p (y ∷ xs) x h = ground (arith, find-any p xs x)

  pub find-without :
      (p q : A → Bool) (xs : List A)
      → ((x : A) → q x ≡ true → p x ≡ false)
      → find p (without q xs) ≡ find p xs
  unfolding find without
  find-without p q [] apart = refl
  find-without p q (x ∷ xs) apart = elim (Bool-cases (q x)) [
    | inl gone ↦ rw (gone, apart x gone) (find-without p q xs apart)
    | inr kept ↦ rw (kept, find-without p q xs apart) refl
  ]

  pub find-holds : (p : A → Bool) (xs : List A) (x : A) → find p xs ≡ some x → p x ≡ true
  unfolding find
  find-holds p [] x h = absurd (ground arith)
  find-holds p (y ∷ xs) x h = elim (Bool-cases (p y)) [
    | inl met ↦ ground arith
    | inr missed ↦ find-holds p xs x (rw (missed, find) at h)
  ]

  pub All-modify {κ μ} :
      (P : A → Type κ) (Q : A → Type μ) (p : A → Bool) (f : A → A) (xs : List A)
      → ((x : A) → p x ≡ true → P x → Q (f x))
      → ((x : A) → p x ≡ false → P x → Q x)
      → All P xs
      → All Q (modify p f xs)
  unfolding modify
  All-modify P Q p f [] changed kept all = tt
  All-modify P Q p f (x ∷ xs) changed kept all = elim (Bool-cases (p x)) [
    | inl met ↦ rw met (changed x met all.0, All-modify P Q p f xs changed kept all.1)
    | inr missed ↦ rw missed (kept x missed all.0, All-modify P Q p f xs changed kept all.1)
  ]

  pub All-both {κ μ} :
      (P : A → Type κ) (Q : A → Type μ) (xs : List A)
      → All P xs
      → All Q xs
      → All (λ x. P x × Q x) xs
  All-both P Q [] ps qs = tt
  All-both P Q (x ∷ xs) ps qs = ((ps.0, qs.0), All-both P Q xs ps.1 qs.1)

  pub All-without {κ} :
      (P : A → Type κ) (p : A → Bool) (xs : List A)
      → All P xs
      → All (λ x. P x × (p x ≡ false)) (without p xs)
  unfolding without
  All-without P p [] all = tt
  All-without P p (x ∷ xs) all = elim (Bool-cases (p x)) [
    | inl met ↦ rw met (All-without P p xs all.1)
    | inr missed ↦ rw missed ((all.0, missed), All-without P p xs all.1)
  ]

  pub All-map {κ μ} :
      (P : A → Type κ) (Q : A → Type μ) (xs : List A) → ((x : A) → P x → Q x) → All P xs → All Q xs
  All-map P Q [] step all = tt
  All-map P Q (x ∷ xs) step all = (step x all.0, All-map P Q xs step all.1)
