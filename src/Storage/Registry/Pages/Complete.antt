-- ===== src/Storage/Registry/Pages/Complete.antt =====
-- A client that follows the cursors sees every row once, in order.
use multi_agent_desk.Prelude.{
  ℕ, zero, suc, ◌+◌, ◌<◌, ◌≤◌, ◌≡◌, ◌∙◌, refl, sym, ap, inl, inr, Bool, true, false, not, some,
  List, [], ◌∷◌, ◌++◌, All, ltb, if◌then◌else◌, length, length-drop, take, drop, take-append-drop,
  Bool-cases, arith, Text, text_eq_iff,
}
use mathlib.Core.List.{append_assoc}
use mathlib.Core.Path.{subst, fun_ext}
use multi_agent_desk.Domain.Errors.{Code, Result, ok, err, ◌>>=◌}
use multi_agent_desk.Domain.Id.{validate_id}
use multi_agent_desk.Domain.Session.{is_empty}
use multi_agent_desk.Domain.Account.{is_valid_id}
use multi_agent_desk.Storage.Rows.{without}
use multi_agent_desk.Storage.Registry.Pages.{
  Codec, PageCursor, no_cursor, encode_page_cursor, decode_page_cursor, Page, last, before,
  after_cursor, select, page_of, list_rows,
}
use multi_agent_desk.Storage.Registry.Pages.Order.{
  IsSorted, DistinctIds, sorted, sorted-IsSorted, select-sorted, without-behind, All-sorted,
}

last-cons {ℓ} :
    {A : Type ℓ} (x : A) (l : List A)
    → (z : A) × (front : List A) × (last (x ∷ l) ≡ some z) × (x ∷ l ≡ front ++ (z ∷ []))
unfolding last
last-cons x [] = (x, [], refl, refl)
last-cons x (y ∷ l) =
    let (z, front, at_end, whole) = last-cons y l in (z, x ∷ front, at_end, ap (λ r. x ∷ r) whole)

take-take-suc {ℓ} : {A : Type ℓ} (n : ℕ) (l : List A) → take n (take (suc n) l) ≡ take n l
take-take-suc zero l = refl
take-take-suc (suc n) [] = refl
take-take-suc (suc n) (x ∷ l) = ap (λ r. x ∷ r) (take-take-suc n l)

longer_take {ℓ} :
    {A : Type ℓ} (n : ℕ) (l : List A) → ltb n (length (take (suc n) l)) ≡ ltb n (length l)
longer_take zero [] = refl
longer_take zero (x ∷ l) = ground arith
longer_take (suc n) [] = refl
longer_take (suc n) (x ∷ l) = let h = longer_take n l in ground arith

take_all {ℓ} : {A : Type ℓ} (n : ℕ) (l : List A) → ltb n (length l) ≡ false → take (suc n) l ≡ l
take_all n [] h = refl
take_all zero (x ∷ l) h = absurd (ground arith)
take_all (suc n) (x ∷ l) h = ap (λ r. x ∷ r) (take_all n l (ground arith))

cut {ℓ} :
    {A : Type ℓ} (n : ℕ) (l : List A)
    → 0 < n
    → ltb n (length l) ≡ true
    → (z : A) × (front : List A) × (last (take n l) ≡ some z) × (take n l ≡ front ++ (z ∷ []))
cut zero l h k = absurd (omega arith)
cut (suc n) [] h k = absurd (ground arith)
cut (suc n) (x ∷ l) h k = last-cons x (take n l)

All-at {ℓ κ} :
    {A : Type ℓ} (P : A → Type κ) (front : List A) (z : A) (back : List A)
    → All P (front ++ (z ∷ back))
    → P z
All-at P [] z back all = all.0
All-at P (x ∷ front) z back all = All-at P front z back all.1

-- Following the cursors from one, for at most so many pages.
unfoldable pub walk {ℓ} : {A : Type ℓ} → (Text → Result (Page A)) → ℕ → Text → Result (List A)
walk list zero value = err Code.resource_exhausted
walk list (suc pages) value = do
  page ← list value
  let rest = walk list pages page.next_cursor
  if is_empty page.next_cursor then ok page.items else (do more ← rest; ok (page.items ++ more))

module _ {ℓ} {A : Type ℓ} (c : Codec) (id : A → Text) (created_at : A → ℕ) (filter : Text) where
  abbrev cursor_of : A → PageCursor
  cursor_of a = record {
    version = 1;
    at = c.format_time (created_at a);
    id = id a;
    filter = filter;
  }

  -- The cursor of a row is read back, and is neither empty nor too long.
  pub record IsReadable (a : A) : Type 0 where
    pub written : is_empty (c.base64 (c.marshal (cursor_of a))) ≡ false
    pub decoded : c.unbase64 (c.base64 (c.marshal (cursor_of a))) ≡ some (c.marshal (cursor_of a))
    pub short : length (c.marshal (cursor_of a)) ≤ 1024
    pub read : c.unmarshal (c.marshal (cursor_of a)) ≡ some (cursor_of a)
    pub valid_id : is_valid_id (validate_id (id a)) ≡ true
    pub parses : c.parses_time (c.format_time (created_at a)) ≡ true
    pub timed : is_empty (c.format_time (created_at a)) ≡ false

  decode-encode :
      (a : A)
      → IsReadable a
      → decode_page_cursor c (encode_page_cursor c (created_at a) (id a) filter) filter
        ≡ ok (cursor_of a)
  unfolding decode_page_cursor encode_page_cursor
  decode-encode a r =
      let short : ltb 1024 (length (c.marshal (cursor_of a))) ≡ false =
        let s = r.short in ground arith in
      rw
        (
          r.written,
          r.decoded,
          short,
          r.read,
          (text_eq_iff filter filter).1 refl,
          r.valid_id,
          r.parses,
        )
        refl

  encoded :
      (a : A) → IsReadable a → is_empty (encode_page_cursor c (created_at a) (id a) filter) ≡ false
  unfolding encode_page_cursor
  encoded a r = r.written

  after-cursor_of :
      (z a : A)
      → IsReadable z
      → after_cursor c id created_at (cursor_of z) a ≡ before c id created_at z a
  unfolding after_cursor before
  after-cursor_of z a r =
      let at = λ (x : A). c.format_time (created_at x) in
      rw r.timed (ground (arith, text_eq_iff (at z) (at a), text_eq_iff (at a) (at z)))

  module _ (matches : A → Bool) (limit : ℕ) (rows : List A) (positive : 0 < limit)
      (distinct : DistinctIds c id created_at rows) (readable : All IsReadable rows) where
    next_select :
        (front : List A) (z : A) (back : List A)
        → sorted c id created_at matches rows ≡ front ++ (z ∷ back)
        → IsReadable z
        → select c id created_at matches (cursor_of z) rows ≡ back
    next_select front z back split r =
        select-sorted c id created_at matches (cursor_of z) rows distinct
        ∙ ap (λ q. without (λ a. not (q a)) (sorted c id created_at matches rows))
            (fun_ext (λ a. after-cursor_of z a r))
        ∙ ap (without (λ a. not (before c id created_at z a))) split
        ∙ without-behind c id created_at z front back (
            subst (IsSorted c id created_at) split
              (sorted-IsSorted c id created_at matches rows distinct))

    page_whole :
        (back : List A)
        → ltb limit (length back) ≡ false
        → page_of c id created_at filter limit (take (limit + 1) back)
          ≡ record { items = back; next_cursor = [] }
    unfolding page_of
    page_whole back h =
        let one : limit + 1 ≡ suc limit = omega arith in rw (one, take_all limit back h, h) refl

    page_cut :
        (back : List A) (z : A)
        → ltb limit (length back) ≡ true
        → last (take limit back) ≡ some z
        → page_of c id created_at filter limit (take (limit + 1) back) ≡ record {
          items = take limit back;
          next_cursor = encode_page_cursor c (created_at z) (id z) filter;
        }
    unfolding page_of
    page_cut back z h at_end =
        let one : limit + 1 ≡ suc limit = omega arith in
        rw (one, longer_take limit back, h, take-take-suc limit back, at_end) refl

    list_rows-selected :
        (value : Text) (cursor : PageCursor) (back : List A)
        → decode_page_cursor c value filter ≡ ok cursor
        → select c id created_at matches cursor rows ≡ back
        → list_rows c id created_at true matches filter limit value rows
          ≡ ok (page_of c id created_at filter limit (take (limit + 1) back))
    unfolding list_rows
    list_rows-selected value cursor back decoded rest = rw (decoded, rest) refl

    abbrev list : Text → Result (Page A)
    list value = list_rows c id created_at true matches filter limit value rows

    walk_from :
        (pages : ℕ) (value : Text) (cursor : PageCursor) (front back : List A)
        → sorted c id created_at matches rows ≡ front ++ back
        → decode_page_cursor c value filter ≡ ok cursor
        → select c id created_at matches cursor rows ≡ back
        → length back < pages
        → walk list pages value ≡ ok back
    unfolding walk
    walk_from zero value cursor front back split decoded rest fuel = absurd (omega arith)
    walk_from (suc pages) value cursor front back split decoded rest fuel =
        elim (Bool-cases (ltb limit (length back))) [
          | inr whole ↦
              rw (list_rows-selected value cursor back decoded rest, page_whole back whole) refl
          | inl longer ↦
              let (z, front', at_end, items) = cut limit back positive longer in
              let back' = drop limit back in
              let split' : sorted c id created_at matches rows ≡ (front ++ front') ++ (z ∷ back') =
                split
                ∙ ap (λ l. front ++ l)
                    (sym (take-append-drop limit back)
                      ∙ ap (λ l. l ++ back') items
                      ∙ append_assoc front' (z ∷ []) back')
                ∙ sym (append_assoc front front' (z ∷ back')) in
              let r = All-at IsReadable (front ++ front') z back' (
                subst (All IsReadable) split'
                  (All-sorted c id created_at IsReadable matches rows readable)) in
              let next =
                walk_from pages (encode_page_cursor c (created_at z) (id z) filter) (cursor_of z)
                  ((front ++ front') ++ (z ∷ [])) back'
                  (split' ∙ sym (append_assoc (front ++ front') (z ∷ []) back')) (decode-encode z r)
                  (next_select (front ++ front') z back' split' r)
                  (ground (arith, length-drop limit back)) in
              rw
                (
                  list_rows-selected value cursor back decoded rest,
                  page_cut back z longer at_end,
                  encoded z r,
                  next,
                )
                (ap ok (take-append-drop limit back))
        ]

    pub pages_complete :
        walk list (suc (length (sorted c id created_at matches rows))) []
        ≡ ok (sorted c id created_at matches rows)
    unfolding decode_page_cursor without after_cursor
    pages_complete =
        walk_from (suc (length (sorted c id created_at matches rows))) [] no_cursor []
          (sorted c id created_at matches rows) refl from_start everything (omega arith)
      where
        from_start : decode_page_cursor c [] filter ≡ ok no_cursor
        from_start = refl

        kept_all : (l : List A) → without (λ a. not true) l ≡ l
        kept_all [] = refl
        kept_all (a ∷ l) = ap (λ l. a ∷ l) (kept_all l)

        everything :
            select c id created_at matches no_cursor rows ≡ sorted c id created_at matches rows
        everything =
            select-sorted c id created_at matches no_cursor rows distinct
            ∙ kept_all (sorted c id created_at matches rows)
