-- ===== src/Storage/Table.antt =====
-- A table whose primary key is a text, as the function from keys to rows.
use multi_agent_desk.Prelude.{
  ◌≡◌, Option, some, if◌then◌else◌, Text, text_eq, text_eq_iff, arith, Bool-cases, inl, inr,
}

abbrev pub Table {ℓ} : Type ℓ → Type ℓ
Table A = Text → Option A

module _ {ℓ} {A : Type ℓ} where
  unfoldable pub put : Table A → Text → A → Table A
  put t k row j = if text_eq k j then some row else t j

  pub put_self : (t : Table A) (k : Text) (row : A) → put t k row k ≡ some row
  unfolding put
  put_self t k row = ground (arith, text_eq_iff k k)

  -- A write is seen at its own key only.
  pub put-at {κ} :
      (t : Table A) (k : Text) (row : A) (j : Text) (P : Option A → Type κ)
      → (k ≡ j → P (some row))
      → P (t j)
      → P (put t k row j)
  unfolding put
  put-at t k row j P written other = elim (Bool-cases (text_eq k j)) [
    | inl same ↦ rw same (written ((text_eq_iff k j).0 same))
    | inr differs ↦ rw differs other
  ]
