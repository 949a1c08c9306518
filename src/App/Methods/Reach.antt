-- ===== src/App/Methods/Reach.antt =====
-- Which methods of the ledger and of the registry a client can reach.
use multi_agent_desk.Prelude.{
  ◌≡◌, ◌≢◌, ◌↔◌, refl, Bool, true, false, not, ◌&&◌, ◌||◌, List, [], ◌∷◌, Text, text_eq,
  text_eq_iff, bytes, arith,
}
use multi_agent_desk.Domain.Errors.{Code, Result, ok, err}
use multi_agent_desk.App.Methods.{
  among, among-checked, all_of, first_rule, required_capability, ledger_methods,
  requires_idempotency, registry_methods, registry_method,
}

is_ok : Result Text → Bool
is_ok (ok c) = true
is_ok (err e) = false

abbrev edit : Text
edit = bytes "profiles.edit"

ledger-checked : all_of (λ m. is_ok (required_capability m) || text_eq m edit) ledger_methods ≡ true
unfolding all_of is_ok required_capability first_rule among text_eq
ledger-checked = refl

edit-unknown : required_capability (bytes "profiles.edit") ≡ err Code.method_not_found
unfolding required_capability first_rule among text_eq
edit-unknown = refl

-- A client can reach every method of the ledger but `profiles.edit`, which no capability covers.
pub ledger_reached :
    (method : Text)
    → requires_idempotency method ≡ true
    → (required_capability method ≡ err Code.method_not_found) ↔ (method ≡ bytes "profiles.edit")
unfolding requires_idempotency is_ok
ledger_reached method h =
    let c =
      among-checked (λ m. is_ok (required_capability m) || text_eq m edit) ledger_methods method
        ledger-checked h in
    (λ unknown. (text_eq_iff method edit).0 (ground arith), λ same. rw same edit-unknown)

-- The methods of the registry that the ledger records.
abbrev pub recorded_registry : List Text
recorded_registry =
    bytes "accounts.create"
    ∷ bytes "accounts.disable"
    ∷ bytes "profiles.create"
    ∷ bytes "profiles.delete"
    ∷ []

registry-checked :
    all_of
      (λ m.
        is_ok (required_capability m)
        && (not (requires_idempotency m) || among recorded_registry m))
      registry_methods
    ≡ true
unfolding all_of is_ok required_capability requires_idempotency first_rule among text_eq
registry-checked = refl

recorded-checked : all_of requires_idempotency recorded_registry ≡ true
unfolding all_of requires_idempotency among text_eq
recorded-checked = refl

-- A method of the registry can be reached, and the ledger records it exactly if it creates or
-- disables an account or creates or deletes a profile; so updates, enabling, account deletion,
-- logins, logouts and refreshes run again when they are sent again.
pub registry_recorded :
    (method : Text)
    → registry_method method ≡ true
    → (required_capability method ≢ err Code.method_not_found)
      × ((requires_idempotency method ≡ true) ↔ (among recorded_registry method ≡ true))
unfolding registry_method is_ok
registry_recorded method h =
    let c =
      among-checked
        (λ m.
          is_ok (required_capability m)
          && (not (requires_idempotency m) || among recorded_registry m))
        registry_methods method registry-checked h in
    (
      λ unknown. ground arith,
      (
        λ ledger. ground arith,
        among-checked requires_idempotency recorded_registry method recorded-checked,
      ),
    )
