-- ===== src/Domain/Account.antt =====
-- internal/domain/account.go: accounts and the aliases that select a profile. Usage snapshots hold
-- floating-point numbers and are left out.
pub mod Selectors
use multi_agent_desk.Prelude.{
  ℕ, ◌+◌, Bool, true, false, not, ◌&&◌, ◌||◌, List, [], ◌∷◌, ltb, leb, ◌==◌, if◌then◌else◌, slt,
  length, drop, map, Text, text_eq, bytes,
}
use multi_agent_desk.Domain.Errors.{Code, Result, ok, err, ◌>>=◌, ◌>>◌, refuse_if}
use multi_agent_desk.Domain.Id.{validate_id, all_bytes}
use multi_agent_desk.Domain.Provider.{fake, codex, claude, provider_known}

pub record Account : Type 0 where
  pub id : Text
  pub provider : Text
  pub display_name : Text
  pub provider_subject_digest : Text
  pub subscription_hint : Text
  pub internal : Bool
  pub enabled : Bool
  pub revision : ℕ
  pub created_at : ℕ
  pub updated_at : ℕ

abbrev pub is_valid_id : Result (Unit {0}) → Bool
is_valid_id (ok _) = true
is_valid_id (err _) = false

abbrev pub same_bool : Bool → Bool → Bool
same_bool true b = b
same_bool false b = not b

unfoldable pub public_provider : Text → Bool
public_provider provider = text_eq provider codex || text_eq provider claude

unfoldable pub new_account : Account → Result Account
new_account account = do
  refuse_if
      (not (is_valid_id (validate_id account.id))
        || not (provider_known account.provider)
        || ltb (length account.display_name) 1
        || ltb 128 (length account.display_name)
        || ltb 128 (length account.provider_subject_digest)
        || ltb 64 (length account.subscription_hint)
        || slt account.revision 1
        || account.created_at == 0
        || ltb account.updated_at account.created_at)
      Code.invalid_argument
  refuse_if (not (same_bool account.internal (text_eq account.provider fake))) Code.invalid_argument
  ok account

abbrev pub is_upper : ℕ → Bool
is_upper c = leb b'A' c && leb c b'Z'

abbrev pub is_letter : ℕ → Bool
is_letter c = is_upper c || leb b'a' c && leb c b'z'

unfoldable pub alias_byte : ℕ → Bool
alias_byte c = is_letter c || leb b'0' c && leb c b'9' || c == b'_' || c == b'-'

-- `^[A-Za-z][A-Za-z0-9_-]{0,31}$`.
unfoldable pub matches_alias : Text → Bool
matches_alias [] = false
matches_alias (c ∷ rest) = is_letter c && leb (length rest) 31 && all_bytes alias_byte rest

unfoldable pub lower_byte : ℕ → ℕ
lower_byte c = if is_upper c then c + 32 else c

-- `strings.ToLower` of ASCII bytes.
unfoldable pub to_lower : Text → Text
to_lower [] = []
to_lower (c ∷ rest) = lower_byte c ∷ to_lower rest

unfoldable pub canonical_selector_alias : Text → Result Text
canonical_selector_alias alias = do
  refuse_if (not (matches_alias alias)) Code.alias_invalid
  ok (to_lower alias)

abbrev pub at_sign : ℕ
at_sign = b'@'

-- `strings.TrimPrefix(selector, "@")`.
unfoldable pub trim_at : Text → Text
trim_at [] = []
trim_at (c ∷ rest) = if c == at_sign then rest else c ∷ rest

unfoldable pub has_two_ats : Text → Bool
has_two_ats (a ∷ b ∷ _) = a == at_sign && b == at_sign
has_two_ats _ = false

unfoldable pub parse_profile_selector : Text → Result Text
parse_profile_selector selector = do
  refuse_if (has_two_ats selector) Code.alias_invalid
  canonical_selector_alias (trim_at selector)
