-- ===== src/Storage/Registry/Pages/Order.antt =====
-- The order of the rows is strict, and what stands after a row in it is what the row's cursor
-- selects.
use multi_agent_desk.Prelude.{
  ℕ, ◌≡◌, ◌∙◌, refl, sym, ap, inl, inr, Bool, true, false, not, ◌&&◌, List, [], ◌∷◌, ◌++◌, All,
  if◌then◌else◌, Bool-cases, arith, Text, text_eq, text_eq_iff,
}
use multi_agent_desk.Domain.Capability.Order.{
  text_lt_irrefl, text_lt_trans, text_lt-total, text_lt-asym,
}
use multi_agent_desk.Storage.Rows.{without, All-without, All-map}
use multi_agent_desk.Storage.Registry.Pages.{
  Codec, PageCursor, before, insert_row, order_by, after_cursor, select,
}

module _ {ℓ} {A : Type ℓ} (c : Codec) (id : A → Text) (created_at : A → ℕ) where
  abbrev lt : A → A → Bool
  lt = before c id created_at

  before_trans : (x y z : A) → lt x y ≡ true → lt y z ≡ true → lt x z ≡ true
  unfolding before
  before_trans x y z h k =
      let at = λ (a : A). c.format_time (created_at a) in
      ground (
        arith,
        text_eq_iff (at x) (at y),
        text_eq_iff (at y) (at z),
        text_eq_iff (at x) (at z),
        text_lt_trans (at x) (at y) (at z),
        text_lt_trans (id x) (id y) (id z),
      )

  before_asym : (x y : A) → lt x y ≡ true → lt y x ≡ false
  unfolding before
  before_asym x y h =
      let at = λ (a : A). c.format_time (created_at a) in
      ground (
        arith,
        text_eq_iff (at x) (at y),
        text_eq_iff (at y) (at x),
        text_lt_irrefl (at x),
        text_lt_irrefl (at y),
        text_lt-asym (at x) (at y),
        text_lt-asym (id x) (id y),
      )

  before_total : (x y : A) → text_eq (id x) (id y) ≡ false → lt x y ≡ false → lt y x ≡ true
  unfolding before
  before_total x y differ h =
      let at = λ (a : A). c.format_time (created_at a) in
      elim (text_lt-total (at x) (at y)) [
        | inl earlier ↦ absurd (false_ne (sym h ∙ rw earlier refl))
        | inr (inl same) ↦
            let eq : text_eq (at x) (at y) ≡ true = (text_eq_iff (at x) (at y)).1 same in
            let back : text_eq (at y) (at x) ≡ true = (text_eq_iff (at y) (at x)).1 (sym same) in
            elim (text_lt-total (id x) (id y)) [
              | inl less ↦ ground arith
              | inr (inl one) ↦ absurd (false_ne (sym differ ∙ (text_eq_iff (id x) (id y)).1 one))
              | inr (inr more) ↦ ground arith
            ]
        | inr (inr later) ↦ rw later refl
      ]
    where
      false_ne : Path Bool false true → ⊥
      false_ne e = cc

  abbrev pub Above : A → List A → Type 0
  Above x xs = All (λ y. lt x y ≡ true) xs

  abbrev pub IsSorted : List A → Type 0
  IsSorted [] = Unit
  IsSorted (x ∷ xs) = Above x xs × IsSorted xs

  -- No two rows have the same id.
  abbrev pub DistinctIds : List A → Type 0
  DistinctIds [] = Unit
  DistinctIds (x ∷ xs) = All (λ y. text_eq (id x) (id y) ≡ false) xs × DistinctIds xs

  Above-trans : (x y : A) (xs : List A) → lt x y ≡ true → Above y xs → Above x xs
  Above-trans x y xs h above =
      All-map (λ z. lt y z ≡ true) (λ z. lt x z ≡ true) xs (λ z k. before_trans x y z h k) above

  All-insert {κ} :
      (P : A → Type κ) (a : A) (xs : List A)
      → P a
      → All P xs
      → All P (insert_row c id created_at a xs)
  unfolding insert_row
  All-insert P a [] pa all = (pa, tt)
  All-insert P a (x ∷ xs) pa all = elim (Bool-cases (lt a x)) [
    | inl first ↦ rw first (pa, all)
    | inr later ↦ rw later (all.0, All-insert P a xs pa all.1)
  ]

  All-order_by {κ} : (P : A → Type κ) (xs : List A) → All P xs → All P (order_by c id created_at xs)
  unfolding order_by
  All-order_by P [] all = tt
  All-order_by P (x ∷ xs) all =
      All-insert P x (order_by c id created_at xs) all.0 (All-order_by P xs all.1)

  insert-IsSorted :
      (a : A) (xs : List A)
      → All (λ y. text_eq (id a) (id y) ≡ false) xs
      → IsSorted xs
      → IsSorted (insert_row c id created_at a xs)
  unfolding insert_row
  insert-IsSorted a [] new s = (tt, tt)
  insert-IsSorted a (x ∷ xs) new s = elim (Bool-cases (lt a x)) [
    | inl first ↦ rw first ((first, Above-trans a x xs first s.0), s)
    | inr later ↦ rw later (
      All-insert (λ y. lt x y ≡ true) a xs (before_total a x new.0 later) s.0,
      insert-IsSorted a xs new.1 s.1,
    )
  ]

  pub order_by-IsSorted : (xs : List A) → DistinctIds xs → IsSorted (order_by c id created_at xs)
  unfolding order_by
  order_by-IsSorted [] d = tt
  order_by-IsSorted (x ∷ xs) d =
      insert-IsSorted x (order_by c id created_at xs)
        (All-order_by (λ y. text_eq (id x) (id y) ≡ false) xs d.0) (order_by-IsSorted xs d.1)

  insert_front : (a : A) (xs : List A) → Above a xs → insert_row c id created_at a xs ≡ a ∷ xs
  unfolding insert_row
  insert_front a [] above = refl
  insert_front a (x ∷ xs) above = rw above.0 refl

  Above-without : (q : A → Bool) (a : A) (xs : List A) → Above a xs → Above a (without q xs)
  Above-without q a xs above =
      All-map (λ y. (lt a y ≡ true) × (q y ≡ false)) (λ y. lt a y ≡ true) (without q xs)
        (λ y h. h.0) (All-without (λ y. lt a y ≡ true) q xs above)

  without-insert :
      (q : A → Bool) (a : A) (xs : List A)
      → IsSorted xs
      → without q (insert_row c id created_at a xs)
        ≡ (if q a then without q xs else insert_row c id created_at a (without q xs))
  unfolding without insert_row
  without-insert q a [] s = refl
  without-insert q a (x ∷ xs) s = elim (Bool-cases (lt a x)) [
    | inl first ↦
        let front =
          insert_front a (without q (x ∷ xs))
            (Above-without q a (x ∷ xs) (first, Above-trans a x xs first s.0)) in
        elim (Bool-cases (q a)) [
          | inl gone ↦ rw (first, gone) refl
          | inr kept ↦ rw (first, kept) (sym front)
        ]
    | inr later ↦ elim (Bool-cases (q x)) [
      | inl gone ↦ rw (later, gone) (without-insert q a xs s.1)
      | inr kept ↦ elim (Bool-cases (q a)) [
        | inl gone ↦ rw (later, kept, without-insert q a xs s.1, gone) refl
        | inr stays ↦ rw (later, kept, without-insert q a xs s.1, stays, later) refl
      ]
    ]
  ]

  order_by-without :
      (q : A → Bool) (xs : List A)
      → DistinctIds xs
      → order_by c id created_at (without q xs) ≡ without q (order_by c id created_at xs)
  unfolding order_by without
  order_by-without q [] d = refl
  order_by-without q (x ∷ xs) d =
      let inserted = without-insert q x (order_by c id created_at xs) (order_by-IsSorted xs d.1) in
      elim (Bool-cases (q x)) [
        | inl gone ↦ rw (gone, inserted, gone) (order_by-without q xs d.1)
        | inr kept ↦ rw (kept, inserted, kept, order_by-without q xs d.1) refl
      ]

  without-and :
      (p q : A → Bool) (xs : List A)
      → without (λ a. not (p a && q a)) xs ≡ without (λ a. not (q a)) (without (λ a. not (p a)) xs)
  unfolding without
  without-and p q [] = refl
  without-and p q (x ∷ xs) = ground (arith, without-and p q xs)

  DistinctIds-without : (q : A → Bool) (xs : List A) → DistinctIds xs → DistinctIds (without q xs)
  unfolding without
  DistinctIds-without q [] d = tt
  DistinctIds-without q (x ∷ xs) d = elim (Bool-cases (q x)) [
    | inl gone ↦ rw gone (DistinctIds-without q xs d.1)
    | inr kept ↦ rw kept (
      All-map (λ y. (text_eq (id x) (id y) ≡ false) × (q y ≡ false))
          (λ y. text_eq (id x) (id y) ≡ false) (without q xs) (λ y h. h.0)
          (All-without (λ y. text_eq (id x) (id y) ≡ false) q xs d.0),
      DistinctIds-without q xs d.1,
    )
  ]

  -- All rows that match, in order.
  abbrev pub sorted : (A → Bool) → List A → List A
  sorted matches rows = order_by c id created_at (without (λ a. not (matches a)) rows)

  pub sorted-IsSorted :
      (matches : A → Bool) (rows : List A) → DistinctIds rows → IsSorted (sorted matches rows)
  sorted-IsSorted matches rows d =
      order_by-IsSorted (without (λ a. not (matches a)) rows)
        (DistinctIds-without (λ a. not (matches a)) rows d)

  pub All-sorted {κ} :
      (P : A → Type κ) (matches : A → Bool) (rows : List A)
      → All P rows
      → All P (sorted matches rows)
  All-sorted P matches rows all = All-order_by P (without (λ a. not (matches a)) rows) (
      All-map (λ a. P a × (not (matches a) ≡ false)) P (without (λ a. not (matches a)) rows)
        (λ a h. h.0) (All-without P (λ a. not (matches a)) rows all))

  pub select-sorted :
      (matches : A → Bool) (cursor : PageCursor) (rows : List A)
      → DistinctIds rows
      → select c id created_at matches cursor rows
        ≡ without (λ a. not (after_cursor c id created_at cursor a)) (sorted matches rows)
  unfolding select
  select-sorted matches cursor rows d =
      ap (order_by c id created_at) (without-and matches (after_cursor c id created_at cursor) rows)
      ∙ order_by-without (λ a. not (after_cursor c id created_at cursor a))
          (without (λ a. not (matches a)) rows) (DistinctIds-without (λ a. not (matches a)) rows d)

  -- What is left behind a row.
  pub without-behind :
      (z : A) (front back : List A)
      → IsSorted (front ++ (z ∷ back))
      → without (λ a. not (lt z a)) (front ++ (z ∷ back)) ≡ back
  unfolding without
  without-behind z [] back s = rw (irrefl z) (all_behind back s.0)
    where
      irrefl : (z : A) → lt z z ≡ false
      irrefl z = elim (Bool-cases (lt z z)) [ inl h ↦ before_asym z z h | inr h ↦ h ]

      all_behind : (back : List A) → Above z back → without (λ a. not (lt z a)) back ≡ back
      all_behind [] above = refl
      all_behind (y ∷ back) above = rw above.0 (ap (λ l. y ∷ l) (all_behind back above.1))
  without-behind z (x ∷ front) back s =
      rw (before_asym x z (reaches front s.0)) (without-behind z front back s.1)
    where
      reaches : (front : List A) → Above x (front ++ (z ∷ back)) → lt x z ≡ true
      reaches [] above = above.0
      reaches (y ∷ front) above = reaches front above.1
