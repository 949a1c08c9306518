-- ===== src/App/Methods.antt =====
-- internal/app: the methods, what they need (`RequiredCapability`, authorization.go), which are
-- kept in the ledger (`requiresIdempotency`, session_service.go), and which are the registry's
-- (`registryMethod`, account_service.go).
pub mod Reach
use multi_agent_desk.Prelude.{
  ◌≡◌, inl, inr, Bool, true, false, ◌&&◌, ◌||◌, Bool-cases, arith, text_eq_iff, List, [], ◌∷◌,
  if◌then◌else◌, Text, text_eq, bytes,
}
use multi_agent_desk.Domain.Errors.{Code, Result, ok, err}
use multi_agent_desk.Domain.Capability.{
  metadata_read, provider_metadata_read, provider_auth, provider_usage_read, approval_read,
  approval_respond, session_observe, vault_control, session_start, session_control_acquire,
  session_control, terminal_control, session_resume, client_admin,
}

-- A `case` of a `switch` on the method.
unfoldable pub among : List Text → Text → Bool
among [] method = false
among (m ∷ rest) method = text_eq method m || among rest method

-- The cases of `RequiredCapability`, in their order.
abbrev pub Rule : Type 0
Rule = List Text × Text

abbrev pub rules : List Rule
rules =
    (
      bytes "daemon.status"
          ∷ bytes "vault.status"
          ∷ bytes "sessions.list"
          ∷ bytes "sessions.show"
          ∷ bytes "sessions.observe"
          ∷ bytes "accounts.list"
          ∷ bytes "accounts.show"
          ∷ bytes "profiles.list"
          ∷ bytes "profiles.show"
          ∷ bytes "profiles.resolveAlias"
          ∷ bytes "usage.list"
          ∷ bytes "sessions.preview"
          ∷ [],
      metadata_read,
    )
    ∷ (bytes "credentials.status" ∷ [], metadata_read)
    ∷ (
      bytes "provider.describe" ∷ bytes "provider.health" ∷ bytes "profile.validate" ∷ [],
      provider_metadata_read,
    )
    ∷ (
      bytes "auth.begin"
          ∷ bytes "auth.complete"
          ∷ bytes "auth.confirm"
          ∷ bytes "auth.cancel"
          ∷ bytes "auth.status"
          ∷ bytes "auth.logout"
          ∷ [],
      provider_auth,
    )
    ∷ (bytes "usage.read" ∷ [], provider_usage_read)
    ∷ (bytes "approval.list" ∷ bytes "approval.observe" ∷ [], approval_read)
    ∷ (bytes "approval.respond" ∷ [], approval_respond)
    ∷ (bytes "sessions.attach" ∷ bytes "sessions.detach" ∷ [], session_observe)
    ∷ (bytes "vault.initialize" ∷ bytes "vault.unlock" ∷ bytes "vault.lock" ∷ [], vault_control)
    ∷ (bytes "sessions.start" ∷ bytes "session.start" ∷ [], session_start)
    ∷ (bytes "control.acquire" ∷ [], session_control_acquire)
    ∷ (
      bytes "control.heartbeat"
          ∷ bytes "control.release"
          ∷ bytes "sessions.stop"
          ∷ bytes "sessions.kill"
          ∷ bytes "session.stop"
          ∷ [],
      session_control,
    )
    ∷ (
      bytes "terminal.input"
          ∷ bytes "terminal.resize"
          ∷ bytes "session.input"
          ∷ bytes "session.resize"
          ∷ [],
      terminal_control,
    )
    ∷ (bytes "sessions.resume" ∷ bytes "session.resume" ∷ [], session_resume)
    ∷ (
      bytes "client.create"
          ∷ bytes "client.list"
          ∷ bytes "client.rotate"
          ∷ bytes "client.revoke"
          ∷ bytes "accounts.create"
          ∷ bytes "accounts.update"
          ∷ bytes "accounts.disable"
          ∷ bytes "accounts.enable"
          ∷ bytes "accounts.delete"
          ∷ bytes "profiles.create"
          ∷ bytes "profiles.update"
          ∷ bytes "profiles.disable"
          ∷ bytes "profiles.enable"
          ∷ bytes "profiles.delete"
          ∷ bytes "profiles.validate"
          ∷ bytes "provider.login.begin"
          ∷ bytes "provider.login.status"
          ∷ bytes "provider.login.cancel"
          ∷ bytes "provider.logout"
          ∷ bytes "provider.shell"
          ∷ bytes "usage.refresh"
          ∷ [],
      client_admin,
    )
    ∷ []

unfoldable pub first_rule : List Rule → Text → Result Text
first_rule [] method = err Code.method_not_found
first_rule ((methods, capability) ∷ rest) method =
    if among methods method then ok capability else first_rule rest method

unfoldable pub required_capability : Text → Result Text
required_capability method = first_rule rules method

abbrev pub ledger_methods : List Text
ledger_methods =
    bytes "sessions.start"
    ∷ bytes "session.start"
    ∷ bytes "sessions.attach"
    ∷ bytes "sessions.detach"
    ∷ bytes "control.acquire"
    ∷ bytes "terminal.input"
    ∷ bytes "terminal.resize"
    ∷ bytes "session.input"
    ∷ bytes "session.resize"
    ∷ bytes "sessions.stop"
    ∷ bytes "session.stop"
    ∷ bytes "sessions.kill"
    ∷ bytes "sessions.resume"
    ∷ bytes "session.resume"
    ∷ bytes "accounts.create"
    ∷ bytes "accounts.disable"
    ∷ bytes "profiles.create"
    ∷ bytes "profiles.edit"
    ∷ bytes "profiles.delete"
    ∷ bytes "auth.begin"
    ∷ bytes "auth.complete"
    ∷ bytes "auth.confirm"
    ∷ bytes "auth.cancel"
    ∷ bytes "auth.logout"
    ∷ bytes "approval.respond"
    ∷ []

unfoldable pub requires_idempotency : Text → Bool
requires_idempotency method = among ledger_methods method

abbrev pub registry_methods : List Text
registry_methods =
    bytes "accounts.create"
    ∷ bytes "accounts.list"
    ∷ bytes "accounts.show"
    ∷ bytes "accounts.update"
    ∷ bytes "accounts.disable"
    ∷ bytes "accounts.enable"
    ∷ bytes "accounts.delete"
    ∷ bytes "profiles.create"
    ∷ bytes "profiles.list"
    ∷ bytes "profiles.show"
    ∷ bytes "profiles.resolveAlias"
    ∷ bytes "profiles.update"
    ∷ bytes "profiles.disable"
    ∷ bytes "profiles.enable"
    ∷ bytes "profiles.delete"
    ∷ bytes "profiles.validate"
    ∷ bytes "provider.login.begin"
    ∷ bytes "provider.login.status"
    ∷ bytes "provider.login.cancel"
    ∷ bytes "provider.logout"
    ∷ bytes "provider.shell"
    ∷ bytes "usage.list"
    ∷ bytes "usage.refresh"
    ∷ []

unfoldable pub registry_method : Text → Bool
registry_method method = among registry_methods method

unfoldable pub all_of : (Text → Bool) → List Text → Bool
all_of P [] = true
all_of P (m ∷ rest) = P m && all_of P rest

-- A check that holds of each listed method holds of a method that is among them.
pub among-checked :
    (P : Text → Bool) (ms : List Text) (method : Text)
    → all_of P ms ≡ true
    → among ms method ≡ true
    → P method ≡ true
unfolding among all_of
among-checked P [] method h a = cc
among-checked P (m ∷ rest) method h a = elim (Bool-cases (text_eq method m)) [
  | inl same ↦ rw ((text_eq_iff method m).0 same) (ground arith)
  | inr differs ↦ among-checked P rest method (ground arith) (ground arith)
]
