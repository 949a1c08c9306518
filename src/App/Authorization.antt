-- ===== src/App/Authorization.antt =====
-- internal/app/authorization.go: `Authorize`; internal/device/protocol.go: `AuthContext`. The store
-- of clients is an argument; a request is refused unless every check of it passes.
use multi_agent_desk.Prelude.{
  ℕ, ◌<◌, ◌≤◌, ◌≡◌, ◌↔◌, Bool, true, false, not, ◌&&◌, ◌||◌, Option, none, some, List, ltb, ◌==◌,
  Text, arith,
}
use multi_agent_desk.Domain.Errors.{Code, Result, ok, err, ◌>>=◌, ◌>>◌, refuse_if, bind-ok}
use multi_agent_desk.Domain.Capability.{has_capability}
use multi_agent_desk.App.Methods.{required_capability}

-- A status is a string.
pub data ClientStatus : Type 0 where
  active revoked : ClientStatus
  other : Text → ClientStatus

abbrev pub is_active : ClientStatus → Bool
is_active ClientStatus.active = true
is_active _ = false

pub record ClientIdentity : Type 0 where
  pub id : Text
  pub name : Text
  pub public_key : Text
  pub revision : ℕ
  pub status : ClientStatus
  pub caps : List Text
  pub created_at : ℕ
  pub updated_at : ℕ

pub record AuthContext : Type 0 where
  pub client_id : Text
  pub identity_revision : ℕ
  pub granted_capabilities : List Text
  pub connection_id : Text
  pub authenticated_at : ℕ
  pub expires_at : ℕ

unfoldable pub has : AuthContext → Text → Bool
has auth capability = has_capability auth.granted_capabilities capability

unfoldable pub valid_at : AuthContext → ℕ → Bool
valid_at auth now = not (ltb now auth.authenticated_at) && ltb now auth.expires_at

-- `err != nil || client.Status != active || client.Revision != auth.IdentityRevision`.
unfoldable pub check_client : Result ClientIdentity → AuthContext → Result ClientIdentity
check_client (err e) auth = err Code.unauthenticated
check_client (ok client) auth = do
  refuse_if (not (is_active client.status) || not (client.revision == auth.identity_revision))
      Code.unauthenticated
  ok client

-- `lookup` is `none` where `a.Clients` is nil.
unfoldable pub authorize :
    Option (Text → Result ClientIdentity) → AuthContext → ℕ → Text → Result (Unit {0})
authorize none auth now method = do
  capability ← required_capability method
  err Code.unauthenticated
authorize (some lookup) auth now method = do
  capability ← required_capability method
  refuse_if (not (valid_at auth now) || not (has auth capability)) Code.unauthenticated
  client ← check_client (lookup auth.client_id) auth
  refuse_if (not (has_capability client.caps capability)) Code.permission_denied
  ok tt

-- What must hold for a request to be carried out.
pub record Authorized (lookup : Text → Result ClientIdentity) (auth : AuthContext) (now : ℕ)
    (method : Text) : Type 0 where
  pub capability : Text
  pub needs : required_capability method ≡ ok capability
  pub in_time : (auth.authenticated_at ≤ now) × (now < auth.expires_at)
  pub granted : has_capability auth.granted_capabilities capability ≡ true
  pub client : ClientIdentity
  pub stored : lookup auth.client_id ≡ ok client
  pub current : (client.status ≡ ClientStatus.active) × (client.revision ≡ auth.identity_revision)
  pub still_granted : has_capability client.caps capability ≡ true

check_client-ok :
    (r : Result ClientIdentity) (auth : AuthContext) (client : ClientIdentity)
    → (check_client r auth ≡ ok client) ↔ (
        (r ≡ ok client)
        × (client.status ≡ ClientStatus.active)
        × (client.revision ≡ auth.identity_revision))
unfolding check_client
check_client-ok r auth client = ground arith

authorize-Authorized :
    (lookup : Text → Result ClientIdentity) (auth : AuthContext) (now : ℕ) (method : Text)
    → authorize (some lookup) auth now method ≡ ok tt
    → Authorized lookup auth now method
unfolding authorize valid_at has
authorize-Authorized lookup auth now method h =
    let needs = bind-ok (required_capability method) _ h in
    let checked =
      bind-ok
        (refuse_if (not (valid_at auth now) || not (has auth needs.value)) Code.unauthenticated) _
        needs.rest in
    let found = bind-ok (check_client (lookup auth.client_id) auth) _ checked.rest in
    let (stored, live, same) =
      (check_client-ok (lookup auth.client_id) auth found.value).0 found.first in
    record {
      capability = needs.value;
      needs = needs.first;
      in_time = ground arith;
      granted = ground arith;
      client = found.value;
      stored = stored;
      current = (live, same);
      still_granted = ground arith;
    }

-- A request is authorized exactly if its method needs a capability that the connection was granted
-- within its time, and the client is stored, active, of the same revision, and still has it.
pub authorize_iff :
    (lookup : Text → Result ClientIdentity) (auth : AuthContext) (now : ℕ) (method : Text)
    → (authorize (some lookup) auth now method ≡ ok tt) ↔ Authorized lookup auth now method
unfolding authorize valid_at has
authorize_iff lookup auth now method = (
  authorize-Authorized lookup auth now method,
  λ a.
      let found =
        (check_client-ok (lookup auth.client_id) auth a.client).1
          (a.stored, a.current.0, a.current.1) in
      ground arith,
)
