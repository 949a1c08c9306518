-- ===== src/Domain/Lease/Grants.antt =====
-- What a successful lease operation says of the lease that it returns.
use multi_agent_desk.Prelude.{
  ℕ, ◌+◌, ◌≤◌, ◌<◌, ◌≡◌, true, false, Option, none, some, slt, inc64, Text, text_eq_iff, arith,
}
use multi_agent_desk.Domain.Errors.{ok}
use multi_agent_desk.Domain.Lease.{
  ControllerLease, active, acquire_controller_lease, heartbeat, release, require,
}

-- A free session starts at revision 1; a lease that has ended is followed by its successor.
abbrev pub Follows : Option ControllerLease → ℕ → ℕ → Type 0
Follows none at revision = revision ≡ 1
Follows (some current) at revision =
    (slt 0 current.revision ≡ true)
    × (current.last_heartbeat ≤ at)
    × (active current at ≡ false)
    × (revision ≡ inc64 current.revision)

abbrev pub Granted : Option ControllerLease → Text → Text → ℕ → ℕ → ControllerLease → Type 0
Granted current session_id holder_id at duration lease =
    (lease.session_id ≡ session_id)
    × (lease.holder_device_id ≡ holder_id)
    × (lease.expires_at ≡ at + duration)
    × (lease.last_heartbeat ≡ at)
    × (lease.released_at ≡ none)
    × (0 < at)
    × (slt 0 duration ≡ true)
    × Follows current at lease.revision

pub acquire-Granted :
    (current : Option ControllerLease) (session_id holder_id : Text) (at duration : ℕ)
    {lease : ControllerLease}
    → acquire_controller_lease current session_id holder_id at duration ≡ ok lease
    → Granted current session_id holder_id at duration lease
unfolding acquire_controller_lease
acquire-Granted none session_id holder_id at duration h = ground arith
acquire-Granted (some current) session_id holder_id at duration h = ground arith

-- `require` accepts exactly the holder of a lease that is in force, at its revision.
abbrev pub InControl : ControllerLease → Text → ℕ → ℕ → Type 0
InControl l holder_id revision at =
    (slt 0 l.revision ≡ true)
    × (l.revision ≡ revision)
    × (l.holder_device_id ≡ holder_id)
    × (0 < at)
    × (l.last_heartbeat ≤ at)
    × (at < l.expires_at)
    × (l.released_at ≡ none)

pub require-InControl :
    (l : ControllerLease) (holder_id : Text) (revision at : ℕ)
    → require l holder_id revision at ≡ ok tt
    → InControl l holder_id revision at
unfolding require
require-InControl l holder_id revision at h =
    ground (arith, text_eq_iff l.holder_device_id holder_id)

pub InControl-require :
    (l : ControllerLease) (holder_id : Text) (revision at : ℕ)
    → InControl l holder_id revision at
    → require l holder_id revision at ≡ ok tt
unfolding require
InControl-require l holder_id revision at h =
    ground (arith, text_eq_iff l.holder_device_id holder_id)

pub heartbeat-ok :
    (l : ControllerLease) (holder_id : Text) (revision at duration : ℕ) {l' : ControllerLease}
    → heartbeat l holder_id revision at duration ≡ ok l'
    → InControl l holder_id revision at
      × (slt 0 duration ≡ true)
      × (l' ≡ record l { last_heartbeat = at; expires_at = at + duration })
unfolding heartbeat
heartbeat-ok l holder_id revision at duration h =
    ground (arith, text_eq_iff l.holder_device_id holder_id)

pub release-ok :
    (l : ControllerLease) (holder_id : Text) (revision at : ℕ) {l' : ControllerLease}
    → release l holder_id revision at ≡ ok l'
    → InControl l holder_id revision at
      × (l' ≡ record l {
        revision = inc64 l.revision;
        expires_at = at;
        last_heartbeat = at;
        released_at = some at;
      })
unfolding release
release-ok l holder_id revision at h = ground (arith, text_eq_iff l.holder_device_id holder_id)
