-- ===== src/Runtime/Input/Examples.antt =====
-- The theorems about input at one session with a fake provider.
use multi_agent_desk.Prelude.{
  ℕ, ◌≡◌, ◌≢◌, true, none, some, List, [], ◌∷◌, ◌++◌, slt, Text, text_eq, bytes, arith,
  if◌then◌else◌,
}
use multi_agent_desk.Domain.Errors.{ok}
use multi_agent_desk.Domain.Provider.{fake}
use multi_agent_desk.Domain.Session.{SessionStatus, Session}
use multi_agent_desk.Domain.Lease.{ControllerLease}
use multi_agent_desk.Runtime.Input.{
  InputRequest, InputResult, Providers, View, Inputs, input, expected_sequence,
}
use multi_agent_desk.Runtime.Input.Order.{Call, input_off_sequence}

abbrev desk : Text
desk = bytes "session_00000000000000000000000000000001"

abbrev alice : Text
alice = bytes "client_0000000000000000000000000000000a"

-- The process keeps what it is given.
abbrev echo : Providers (List Text)
echo = record {
  codex_input = none;
  process = λ w session_id. some (λ payload w'. (ok tt, w' ++ payload ∷ []));
}

abbrev running : Session
running = record {
  id = desk;
  device_id = bytes "device_00000000000000000000000000000001";
  account_id = [];
  provider = fake;
  credential_instance_id = bytes "credential_00000000000000000000000000000002";
  runtime_profile_id = bytes "profile_00000000000000000000000000000003";
  workspace_id = bytes "workspace_00000000000000000000000000000004";
  provider_session_id = [];
  resumed_from_session_id = [];
  status = SessionStatus.running;
  started_at = 1;
  ended_at = none;
  exit_code = none;
  capability_snapshot = [];
  failure_code = [];
}

abbrev lease : ControllerLease
lease = record {
  session_id = desk;
  holder_device_id = alice;
  revision = 1;
  expires_at = 100;
  last_heartbeat = 1;
  released_at = none;
}

abbrev view : View
view = record {
  now = 10;
  read = record { begins = true; runs = true; commits = true };
  reads = true;
  leases = λ k. if text_eq desk k then some lease else none;
  sessions = λ k. if text_eq desk k then some running else none;
}

abbrev typed : ℕ → Text → Call
typed n payload = record {
  view = view;
  request = record {
    session_id = desk;
    client_id = alice;
    revision = 1;
    sequence = n;
    payload = payload;
  };
}

-- The first line is sent twice, and the third before the second.
abbrev calls : List Call
calls = typed 1 (bytes "a") ∷ typed 1 (bytes "a") ∷ typed 3 (bytes "c") ∷ typed 2 (bytes "b") ∷ []

abbrev start : Inputs (List Text)
start = (λ k. 0, [])

abbrev key : Text
key = bytes "session_00000000000000000000000000000001:client_0000000000000000000000000000000a"

abbrev early : InputRequest
early = record {
  session_id = desk;
  client_id = alice;
  revision = 1;
  sequence = 3;
  payload = bytes "c";
}

too_high : 3 ≢ expected_sequence 0
unfolding expected_sequence
too_high h = ground arith

input_off_sequence_example :
    ((input echo view early start).1 ≡ start)
    × ((a : InputResult)
        → (input echo view early start).0 ≡ ok a
        → (a.duplicate ≡ true) × (slt 3 (expected_sequence 0) ≡ true))
input_off_sequence_example = input_off_sequence echo view early start too_high
