-- ===== src/Domain/Errors.antt =====
-- internal/domain/errors.go. An error is its stable code: the message is fixed at each place, and
-- the wrapped cause is not shown to callers. Codes with one text have one constructor.
use multi_agent_desk.Prelude.{if◌then◌else◌, ◌≡◌, ◌⊎◌, inl, inr, refl, ap, Bool, arith}

pub data Code : Type 0 where
  invalid_argument not_found already_exists conflict unauthenticated permission_denied : Code
  unsupported_version method_not_found frame_too_large deadline_exceeded : Code
  resource_exhausted daemon_unavailable schema_incompatible invalid_transition : Code
  lease_required lease_held stale_lease replay_unavailable vault_locked : Code
  vault_already_initialized vault_corrupt vault_unlock_failed provider_failed : Code
  unsupported_platform materialization_conflict quarantined provider_unsupported : Code
  provider_control_unsupported provider_resume_unsupported provider_version_unsupported : Code
  provider_protocol_error usage_unavailable approval_request_unknown : Code
  approval_lease_required approval_dispatch_ambiguous credential_writer_conflict : Code
  credential_revision_conflict credential_recovery_required alias_invalid alias_conflict : Code
  account_not_found account_disabled profile_not_found profile_disabled : Code
  profile_binding_changed profile_in_use active_sessions : Code
  provider_capability_unavailable provider_cleanup_required usage_not_observed_yet : Code
  usage_stale sync_conflict identity_confirmation_required : Code
  identity_confirmation_mismatch confirmation_expired provider_platform_unsupported : Code
  schema_compatible_identity_acceptance_pending : Code

pub data Result {ℓ} (Value : Type ℓ) : Type ℓ where
  err : Code → Result Value
  ok : Value → Result Value

-- `if bad { return err }`.
abbrev pub refuse_if : Bool → Code → Result (Unit {0})
refuse_if bad code = if bad then err code else ok tt

infixl 5 ◌>>=◌
abbrev pub ◌>>=◌ {ℓ κ} :
    {Value : Type ℓ} {Next : Type κ} → Result Value → (Value → Result Next) → Result Next
err code >>= rest = err code
ok value >>= rest = rest value

infixl 5 ◌>>◌
abbrev pub ◌>>◌ {κ} : {Next : Type κ} → Result (Unit {0}) → Result Next → Result Next
first >> rest = first >>= λ done. rest

-- A chain that succeeds: the value of its first part, with which the rest succeeds.
pub record Bound {ℓ κ} {A : Type ℓ} {B : Type κ} (m : Result A) (f : A → Result B) (b : B)
    : Type (ℓ ⊔ κ) where
  pub value : A
  pub first : m ≡ ok value
  pub rest : f value ≡ ok b

pub bind-ok {ℓ κ} :
    {A : Type ℓ} {B : Type κ} (m : Result A) (f : A → Result B) {b : B}
    → (m >>= f) ≡ ok b
    → Bound m f b
bind-ok (ok a) f h = record { value = a; first = refl; rest = h }
bind-ok (err e) f h = absurd (ground arith)

pub result_cases {ℓ} :
    {A : Type ℓ} (r : Result A) → ((e : Code) × (r ≡ err e)) ⊎ ((a : A) × (r ≡ ok a))
result_cases (err e) = inl (e, refl)
result_cases (ok a) = inr (a, refl)

ok_or {ℓ} : {A : Type ℓ} → Result A → A → A
ok_or (err code) other = other
ok_or (ok value) other = value

pub ok_inj {ℓ} : {A : Type ℓ} {a b : A} → Path (Result A) (ok a) (ok b) → a ≡ b
unfolding ok_or
ok_inj {a} h = ap (λ r. ok_or r a) h

pub err_ne_ok {ℓ} : {A : Type ℓ} {code : Code} {a : A} → Path (Result A) (err code) (ok a) → ⊥
err_ne_ok h = cc
