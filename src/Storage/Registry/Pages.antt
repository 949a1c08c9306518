-- ===== src/Storage/Registry/Pages.antt =====
-- internal/storage/accounts.go: `ListAccountPage` and `ListProfiles`. The two differ in the filter;
-- what they share stands in a section over a row's id and the time of its creation.
pub mod Order
pub mod Complete
pub mod Listing
use multi_agent_desk.Prelude.{
  ℕ, zero, suc, ◌+◌, Bool, true, false, not, ◌&&◌, ◌||◌, Option, none, some, List, [], ◌∷◌, ◌++◌,
  ltb, ◌==◌, if◌then◌else◌, slt, length, take, Text, text_eq, bytes,
}
use multi_agent_desk.Domain.Errors.{Code, Result, ok, err, ◌>>=◌, ◌>>◌, refuse_if}
use multi_agent_desk.Domain.Id.{validate_id, hex_encode}
use multi_agent_desk.Domain.Capability.{text_lt}
use multi_agent_desk.Domain.Session.{is_empty}
use multi_agent_desk.Domain.Account.{Account, is_valid_id, public_provider}
use multi_agent_desk.Storage.Rows.{without}
use multi_agent_desk.Storage.Registry.{Profile, Registry}

pub record PageCursor : Type 0 where
  pub version : ℕ
  pub at : Text
  pub id : Text
  pub filter : Text

-- What the standard library does: Base64, JSON, RFC 3339 times and SHA-256.
pub record Codec : Type 0 where
  pub base64 : Text → Text
  pub unbase64 : Text → Option Text
  pub marshal : PageCursor → Text
  pub unmarshal : Text → Option PageCursor
  pub format_time : ℕ → Text
  pub parses_time : Text → Bool
  pub sha256 : Text → Text

unfoldable pub page_limit : ℕ → Result ℕ
page_limit limit =
    if limit == 0
    then ok 50
    else (do refuse_if (slt limit 1 || slt 200 limit) Code.invalid_argument; ok limit)

-- Two parts, joined by a zero byte.
unfoldable pub cursor_filter : Codec → Text → Text → Text
cursor_filter c kind part = hex_encode (c.sha256 (kind ++ (0 ∷ part)))

unfoldable pub encode_page_cursor : Codec → ℕ → Text → Text → Text
encode_page_cursor c at id filter =
    c.base64 (c.marshal (record { version = 1; at = c.format_time at; id = id; filter = filter }))

abbrev pub or_invalid {ℓ} : {A : Type ℓ} → Option A → Result A
or_invalid none = err Code.invalid_argument
or_invalid (some a) = ok a

abbrev pub no_cursor : PageCursor
no_cursor = record { version = 0; at = []; id = []; filter = [] }

unfoldable pub decode_page_cursor : Codec → Text → Text → Result PageCursor
decode_page_cursor c value filter = if is_empty value then ok no_cursor else (do
  raw ← or_invalid (c.unbase64 value)
  refuse_if (ltb 1024 (length raw)) Code.invalid_argument
  cursor ← or_invalid (c.unmarshal raw)
  refuse_if
      (not (cursor.version == 1)
        || not (text_eq cursor.filter filter)
        || not (is_valid_id (validate_id cursor.id)))
      Code.invalid_argument
  refuse_if (not (c.parses_time cursor.at)) Code.invalid_argument
  ok cursor)

pub record Page {ℓ} (A : Type ℓ) : Type ℓ where
  pub items : List A
  pub next_cursor : Text

unfoldable pub last {ℓ} : {A : Type ℓ} → List A → Option A
last [] = none
last (x ∷ []) = some x
last (x ∷ y ∷ rest) = last (y ∷ rest)

module _ {ℓ} {A : Type ℓ} (c : Codec) (id : A → Text) (created_at : A → ℕ) where
  -- `ORDER BY created_at, id`, on the columns as they are stored.
  unfoldable pub before : A → A → Bool
  before a b =
      text_lt (c.format_time (created_at a)) (c.format_time (created_at b))
      || text_eq (c.format_time (created_at a)) (c.format_time (created_at b))
        && text_lt (id a) (id b)

  unfoldable pub insert_row : A → List A → List A
  insert_row a [] = a ∷ []
  insert_row a (b ∷ rest) = if before a b then a ∷ b ∷ rest else b ∷ insert_row a rest

  unfoldable pub order_by : List A → List A
  order_by [] = []
  order_by (a ∷ rest) = insert_row a (order_by rest)

  -- `? = '' OR created_at > ? OR (created_at = ? AND id > ?)`.
  unfoldable pub after_cursor : PageCursor → A → Bool
  after_cursor cursor a =
      is_empty cursor.at
      || text_lt cursor.at (c.format_time (created_at a))
      || text_eq (c.format_time (created_at a)) cursor.at && text_lt cursor.id (id a)

  unfoldable pub select : (A → Bool) → PageCursor → List A → List A
  select matches cursor rows =
      order_by (without (λ a. not (matches a && after_cursor cursor a)) rows)

  -- One row more than the page tells whether there is a next one. A page that is cut is not empty,
  -- so its last row is there.
  unfoldable pub page_of : Text → ℕ → List A → Page A
  page_of filter limit items =
      if ltb limit (length items)
      then record {
        items = take limit items;
        next_cursor = elim (last (take limit items)) [
          | none ↦ []
          | some a ↦ encode_page_cursor c (created_at a) (id a) filter
        ];
      }
      else record { items = items; next_cursor = [] }

  unfoldable pub list_rows : Bool → (A → Bool) → Text → ℕ → Text → List A → Result (Page A)
  list_rows reads matches filter limit value rows = do
    cursor ← decode_page_cursor c value filter
    refuse_if (not reads) Code.conflict
    ok (page_of filter limit (take (limit + 1) (select matches cursor rows)))

abbrev pub matches_account : Text → Account → Bool
matches_account provider a = not a.internal && (is_empty provider || text_eq a.provider provider)

unfoldable pub list_account_page : Codec → Bool → Text → ℕ → Text → Registry → Result (Page Account)
list_account_page c reads provider limit value r = do
  limit' ← page_limit limit
  refuse_if (not (is_empty provider) && not (public_provider provider)) Code.invalid_argument
  list_rows c (λ a. a.id) (λ a. a.created_at) reads (matches_account provider)
      (cursor_filter c (bytes "accounts") provider) limit' value r.accounts

abbrev pub matches_profile : Text → Profile → Bool
matches_profile account_id p =
    not p.internal && (is_empty account_id || text_eq p.account_id account_id)

unfoldable pub list_profiles : Codec → Bool → Text → ℕ → Text → Registry → Result (Page Profile)
list_profiles c reads account_id limit value r = do
  limit' ← page_limit limit
  refuse_if (not (is_empty account_id) && not (is_valid_id (validate_id account_id)))
      Code.invalid_argument
  list_rows c (λ p. p.id) (λ p. p.created_at) reads (matches_profile account_id)
      (cursor_filter c (bytes "profiles") account_id) limit' value r.profiles
