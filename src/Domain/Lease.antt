-- ===== src/Domain/Lease.antt =====
-- internal/domain/lease.go. A time is a count of nanoseconds from Go's zero time, so `IsZero` is
-- `== 0` and `Before` is `<`; a duration and a revision are `int64` patterns.
pub mod Grants
use multi_agent_desk.Prelude.{
  ℕ, ◌+◌, Bool, true, false, not, ◌&&◌, ◌||◌, Option, none, some, ltb, ◌==◌, if◌then◌else◌, is_some,
  slt, inc64, Text, text_eq,
}
use multi_agent_desk.Domain.Errors.{Code, Result, ok, err, ◌>>=◌, ◌>>◌, refuse_if}
use multi_agent_desk.Domain.Id.{validate_id}

abbrev pub default_lease_duration : ℕ
default_lease_duration = 30000000000

abbrev pub default_lease_heartbeat : ℕ
default_lease_heartbeat = 10000000000

pub record ControllerLease : Type 0 where
  pub session_id : Text
  pub holder_device_id : Text
  pub revision : ℕ
  pub expires_at : ℕ
  pub last_heartbeat : ℕ
  pub released_at : Option ℕ

unfoldable pub active : ControllerLease → ℕ → Bool
active l at = not (is_some l.released_at) && slt 0 l.revision && ltb at l.expires_at

-- The checks on a stored lease before it may be replaced; the result is the next revision.
unfoldable pub next_revision : Option ControllerLease → Text → ℕ → Result ℕ
unfolding active
next_revision none session_id at = ok 1
next_revision (some current) session_id at = do
  refuse_if (not (text_eq current.session_id session_id)) Code.conflict
  refuse_if (slt current.revision 1 || ltb at current.last_heartbeat) Code.invalid_argument
  refuse_if (active current at) Code.lease_held
  ok (inc64 current.revision)

unfoldable pub acquire_controller_lease :
    Option ControllerLease → Text → Text → ℕ → ℕ → Result ControllerLease
unfolding next_revision
acquire_controller_lease current session_id holder_id at duration = do
  validate_id session_id
  validate_id holder_id
  refuse_if (at == 0 || not (slt 0 duration)) Code.invalid_argument
  revision ← next_revision current session_id at
  ok (record {
    session_id = session_id;
    holder_device_id = holder_id;
    revision = revision;
    expires_at = at + duration;
    last_heartbeat = at;
    released_at = none;
  })

unfoldable pub require : ControllerLease → Text → ℕ → ℕ → Result (Unit {0})
unfolding active
require l holder_id revision at = do
  refuse_if (l.revision == 0) Code.lease_required
  refuse_if (not (revision == l.revision)) Code.stale_lease
  refuse_if (not (text_eq l.holder_device_id holder_id)) Code.permission_denied
  refuse_if (at == 0 || ltb at l.last_heartbeat) Code.invalid_argument
  refuse_if (not (active l at)) Code.lease_required

unfoldable pub heartbeat : ControllerLease → Text → ℕ → ℕ → ℕ → Result ControllerLease
unfolding require
heartbeat l holder_id revision at duration = do
  require l holder_id revision at
  refuse_if (not (slt 0 duration)) Code.invalid_argument
  ok (record l { last_heartbeat = at; expires_at = at + duration })

unfoldable pub release : ControllerLease → Text → ℕ → ℕ → Result ControllerLease
unfolding require
release l holder_id revision at = do
  require l holder_id revision at
  ok (record l {
    revision = inc64 l.revision;
    expires_at = at;
    last_heartbeat = at;
    released_at = some at;
  })

unfoldable pub require_control : ControllerLease → Text → ℕ → ℕ → Result (Unit {0})
unfolding require
require_control l holder_id revision at = require l holder_id revision at
