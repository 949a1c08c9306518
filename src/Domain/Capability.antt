-- ===== src/Domain/Capability.antt =====
-- internal/domain/types.go: capabilities, and internal/device/auth.go where they are granted. A
-- capability is a Go string, known or not.
pub mod Order
pub mod Canonical
pub mod Grants
use multi_agent_desk.Prelude.{
  Bool, true, false, not, ◌&&◌, ◌||◌, List, [], ◌∷◌, ltb, ◌==◌, if◌then◌else◌, Text, text_eq, bytes,
}
use multi_agent_desk.Domain.Errors.{Code, Result, ok, err}

abbrev pub metadata_read : Text
metadata_read = bytes "metadata.read"

abbrev pub provider_metadata_read : Text
provider_metadata_read = bytes "provider.metadata.read"

abbrev pub provider_auth : Text
provider_auth = bytes "provider.auth"

abbrev pub provider_usage_read : Text
provider_usage_read = bytes "provider.usage.read"

abbrev pub approval_read : Text
approval_read = bytes "approval.read"

abbrev pub approval_respond : Text
approval_respond = bytes "approval.respond"

abbrev pub session_observe : Text
session_observe = bytes "session.observe"

abbrev pub vault_control : Text
vault_control = bytes "vault.control"

abbrev pub session_start : Text
session_start = bytes "session.start"

abbrev pub session_control_acquire : Text
session_control_acquire = bytes "session.control.acquire"

abbrev pub session_control : Text
session_control = bytes "session.control"

abbrev pub terminal_control : Text
terminal_control = bytes "terminal.control"

abbrev pub session_resume : Text
session_resume = bytes "session.resume"

abbrev pub client_admin : Text
client_admin = bytes "client.admin"

unfoldable pub valid_capabilities : List Text
valid_capabilities =
    metadata_read ∷ provider_metadata_read ∷ provider_auth ∷ provider_usage_read ∷ approval_read
    ∷ approval_respond ∷ session_observe ∷ vault_control ∷ session_start ∷ session_control_acquire
    ∷ session_control ∷ terminal_control ∷ session_resume ∷ client_admin ∷ []

unfoldable pub has_capability : List Text → Text → Bool
has_capability [] target = false
has_capability (c ∷ rest) target = if text_eq c target then true else has_capability rest target

-- Go's order on strings.
unfoldable pub text_lt : Text → Text → Bool
text_lt s [] = false
text_lt [] (_ ∷ _) = true
text_lt (a ∷ s) (b ∷ t) = ltb a b || a == b && text_lt s t

-- The loop that fills `seen`, a set.
unfoldable pub note_seen : List Text → List Text → Result (List Text)
note_seen [] seen = ok seen
note_seen (c ∷ rest) seen =
    let next = note_seen rest (if has_capability seen c then seen else c ∷ seen) in
    if has_capability valid_capabilities c then next else err Code.invalid_argument

unfoldable pub insert_sorted : Text → List Text → List Text
insert_sorted c [] = c ∷ []
insert_sorted c (x ∷ rest) = if text_lt c x then c ∷ x ∷ rest else x ∷ insert_sorted c rest

-- `sort.Slice` over the keys of the map.
unfoldable pub sort_capabilities : List Text → List Text
unfolding insert_sorted
sort_capabilities [] = []
sort_capabilities (c ∷ rest) = insert_sorted c (sort_capabilities rest)

abbrev pub sort_result : Result (List Text) → Result (List Text)
sort_result (ok seen) = ok (sort_capabilities seen)
sort_result (err e) = err e

unfoldable pub canonical_capabilities : List Text → Result (List Text)
unfolding note_seen sort_capabilities
canonical_capabilities values = sort_result (note_seen values [])

unfoldable pub intersect_capabilities : List Text → List Text → List Text
intersect_capabilities [] allowed = []
intersect_capabilities (c ∷ rest) allowed =
    if has_capability allowed c
    then c ∷ intersect_capabilities rest allowed
    else intersect_capabilities rest allowed

unfoldable pub capabilities_subset : List Text → List Text → Bool
capabilities_subset [] allowed = true
capabilities_subset (c ∷ rest) allowed =
    if not (has_capability allowed c) then false else capabilities_subset rest allowed
