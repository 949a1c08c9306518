-- ===== src/Storage/Leases.antt =====
-- internal/storage/repository.go: the table `controller_leases`, with its checks in
-- migrations/device: the key is the session, and a revision is at least 1.
pub mod Saves
use multi_agent_desk.Prelude.{
  ℕ, Bool, true, false, not, ◌&&◌, ◌||◌, Option, none, some, ◌==◌, if◌then◌else◌, is_some, slt,
  Text,
}
use multi_agent_desk.Domain.Errors.{Code, Result, ok, err, ◌>>=◌, ◌>>◌, refuse_if}
use multi_agent_desk.Domain.Lease.{ControllerLease}
use multi_agent_desk.Storage.Driver.{Driver, with_tx}
use multi_agent_desk.Storage.Table.{Table, put}

abbrev pub Leases : Type 0
Leases = Table ControllerLease

unfoldable pub controller_lease : Driver → Leases → Text → Result ControllerLease
controller_lease d t session_id =
    if d.runs
    then (elim (t session_id) [ none ↦ err Code.not_found | some row ↦ ok row ])
    else err Code.conflict

-- The row that `WHERE session_id = ? AND lease_revision = ?` selects.
unfoldable pub selects : Option ControllerLease → ℕ → Bool
selects none expected = false
selects (some row) expected = row.revision == expected

unfoldable pub insert_lease : Driver → ControllerLease → Leases → Result (Unit {0} × Leases)
unfolding put
insert_lease d lease t = do
  refuse_if (not (lease.revision == 1)) Code.stale_lease
  refuse_if (not d.runs || is_some (t lease.session_id)) Code.stale_lease
  ok (tt, put t lease.session_id lease)

unfoldable pub update_lease : Driver → ControllerLease → ℕ → Leases → Result (Unit {0} × Leases)
unfolding put selects
update_lease d lease expected t = do
  refuse_if (not d.runs) Code.conflict
  refuse_if (not (selects (t lease.session_id) expected)) Code.stale_lease
  refuse_if (slt lease.revision 1) Code.conflict
  ok (tt, put t lease.session_id lease)

unfoldable pub save_controller_lease :
    Driver → Leases → ControllerLease → ℕ → Result (Unit {0}) × Leases
unfolding with_tx insert_lease update_lease
save_controller_lease d t lease expected =
    with_tx d t (if expected == 0 then insert_lease d lease else update_lease d lease expected)
