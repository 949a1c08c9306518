-- ===== src/Storage/Registry/Pages/Listing.antt =====
-- A client that follows the cursors of `ListProfiles` sees every profile of the filter once.
use multi_agent_desk.Prelude.{
  ℕ, suc, ◌<◌, ◌≡◌, ◌∙◌, refl, sym, ap, true, false, not, ◌&&◌, List, [], ◌∷◌, All, length, arith,
  Text, text_eq, bytes,
}
use mathlib.Core.Path.{fun_ext}
use multi_agent_desk.Domain.Errors.{ok}
use multi_agent_desk.Domain.Id.{validate_id}
use multi_agent_desk.Domain.Session.{is_empty}
use multi_agent_desk.Domain.Account.{is_valid_id}
use multi_agent_desk.Storage.Rows.{All-map}
use multi_agent_desk.Storage.Registry.{Profile, Registry}
use multi_agent_desk.Storage.Registry.Consistent.{Apart, Distinct, Consistent}
use multi_agent_desk.Storage.Registry.Pages.{
  Codec, page_limit, cursor_filter, list_rows, matches_profile, list_profiles,
}
use multi_agent_desk.Storage.Registry.Pages.Order.{DistinctIds, sorted}
use multi_agent_desk.Storage.Registry.Pages.Complete.{IsReadable, walk, pages_complete}

abbrev pub id : Profile → Text
id p = p.id

abbrev pub created_at : Profile → ℕ
created_at p = p.created_at

distinct_ids : (c : Codec) (ps : List Profile) → Distinct ps → DistinctIds c id created_at ps
distinct_ids c [] d = tt
distinct_ids c (p ∷ ps) d = (
  All-map (Apart p) (λ q. text_eq p.id q.id ≡ false) ps (λ q a. a.ids) d.0,
  distinct_ids c ps d.1,
)

page_limit-positive : (limit taken : ℕ) → page_limit limit ≡ ok taken → 0 < taken
unfolding page_limit
page_limit-positive limit taken h = ground arith

-- The profiles of an account, or all if it is empty, in the order of the listing.
abbrev pub listed : Codec → Text → Registry → List Profile
listed c account_id r = sorted c id created_at (matches_profile account_id) r.profiles

list_rows-list_profiles :
    (c : Codec) (account_id value : Text) (limit taken : ℕ) (r : Registry)
    → page_limit limit ≡ ok taken
    → (not (is_empty account_id) && not (is_valid_id (validate_id account_id))) ≡ false
    → list_rows c id created_at true
        (matches_profile account_id)
        (cursor_filter c (bytes "profiles") account_id)
        taken
        value
        r.profiles
      ≡ list_profiles c true account_id limit value r
unfolding list_profiles
list_rows-list_profiles c account_id value limit taken r h valid = rw (h, valid) refl

-- A client that lists the profiles of an account, or all, and follows the cursors while nothing
-- else changes gets every public profile of them once, in the order of the stored times of creation
-- and ids, whatever limit from 1 to 200 it asks for, or the default. The stored registry is
-- consistent, the account is empty or an id, and the cursor of each stored profile is read back. A
-- page more than there are profiles is enough.
pub profiles_complete :
    (c : Codec) (account_id : Text) (limit taken : ℕ) (r : Registry)
    → page_limit limit ≡ ok taken
    → (not (is_empty account_id) && not (is_valid_id (validate_id account_id))) ≡ false
    → All (IsReadable c id created_at (cursor_filter c (bytes "profiles") account_id)) r.profiles
    → Consistent r
    → walk
        (λ value. list_profiles c true account_id limit value r)
        (suc (length (listed c account_id r)))
        []
      ≡ ok (listed c account_id r)
profiles_complete c account_id limit taken r h valid readable consistent =
    ap (λ list. walk list (suc (length (listed c account_id r))) [])
      (fun_ext (λ value. sym (list_rows-list_profiles c account_id value limit taken r h valid)))
    ∙ pages_complete c id created_at (cursor_filter c (bytes "profiles") account_id)
        (matches_profile account_id) taken r.profiles (page_limit-positive limit taken h)
        (distinct_ids c r.profiles consistent.distinct) readable
