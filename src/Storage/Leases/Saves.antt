-- ===== src/Storage/Leases/Saves.antt =====
-- What a save of a lease may have done to the table.
use multi_agent_desk.Prelude.{ℕ, ◌≡◌, refl, true, ◌⊎◌, Option, none, some, slt, Text, arith}
use multi_agent_desk.Domain.Errors.{Code, Result, ok, err}
use multi_agent_desk.Domain.Lease.{ControllerLease}
use multi_agent_desk.Storage.Driver.{Driver}
use multi_agent_desk.Storage.Table.{put}
use multi_agent_desk.Storage.Leases.{Leases, controller_lease, save_controller_lease}

-- The first lease of a session, or one over the row that was read.
abbrev pub Replaces : Option ControllerLease → ControllerLease → ℕ → Type 0
Replaces none lease expected = (expected ≡ 0) × (lease.revision ≡ 1)
Replaces (some row) lease expected = (row.revision ≡ expected) × (slt 0 lease.revision ≡ true)

abbrev pub Saves : Leases → ControllerLease → ℕ → Result (Unit {0}) × Leases → Type 0
Saves t lease expected (r, t') =
    ((e : Code) × (r ≡ err e) × (t' ≡ t))
    ⊎ ((r ≡ ok tt)
        × (t' ≡ put t lease.session_id lease)
        × Replaces (t lease.session_id) lease expected)

save-at :
    (d : Driver) (t : Leases) (lease : ControllerLease) (expected : ℕ)
    (row : Option ControllerLease)
    → t lease.session_id ≡ row
    → Saves t lease expected (save_controller_lease d t lease expected)
unfolding save_controller_lease
save-at d t lease expected none h = ground arith
save-at d t lease expected (some row) h = ground arith

pub save-Saves :
    (d : Driver) (t : Leases) (lease : ControllerLease) (expected : ℕ)
    → Saves t lease expected (save_controller_lease d t lease expected)
save-Saves d t lease expected = save-at d t lease expected (t lease.session_id) refl

pub controller_lease-ok :
    (d : Driver) (t : Leases) (id : Text) {row : ControllerLease}
    → controller_lease d t id ≡ ok row
    → t id ≡ some row
unfolding controller_lease
controller_lease-ok d t id h = ground arith

pub controller_lease-not_found :
    (d : Driver) (t : Leases) (id : Text)
    → controller_lease d t id ≡ err Code.not_found
    → t id ≡ none
unfolding controller_lease
controller_lease-not_found d t id h = ground arith
