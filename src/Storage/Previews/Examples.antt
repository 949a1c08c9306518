-- ===== src/Storage/Previews/Examples.antt =====
-- The theorem about previews at a concrete preview.
use multi_agent_desk.Prelude.{
  ◌≡◌, ◌⊎◌, refl, true, false, none, some, List, [], ◌∷◌, if◌then◌else◌, Text, text_eq, bytes,
}
use multi_agent_desk.Domain.Errors.{Code, ok, err}
use multi_agent_desk.Domain.Id.{
  validate_id, hex_decode, decodes_to, valid_id_at, valid_id_prefix, last_index_byte,
}
use multi_agent_desk.Domain.Provider.{codex, provider_known}
use multi_agent_desk.Domain.Capability.{canonical_capabilities}
use multi_agent_desk.Domain.Session.{SessionStatus, Session, new_session, terminal}
use multi_agent_desk.Storage.Driver.{Driver, with_tx, commit}
use multi_agent_desk.Storage.Table.{put}
use multi_agent_desk.Storage.Links.{
  Links, CredentialStatus, validate_session_links, validate_account_for_provider, check_account,
  check_profile, check_credential,
}
use multi_agent_desk.Storage.Sessions.{session, row_check, known_status}
use multi_agent_desk.Storage.Previews.{
  Preview, ConsumeRequest, Seen, PreviewRows, valid_fingerprint,
}
use multi_agent_desk.Storage.Previews.Consuming.{
  check_request, confirms, matches_preview, account_current, profile_current, credential_current,
  check_current, reserved, reserve_session, consume_preview, owned_preview, consume_stored,
  consume_session_start_preview,
}
use multi_agent_desk.Storage.Previews.SingleUse.{Call, run, single_use}

abbrev serving : Driver
serving = record { begins = true; runs = true; commits = true }

abbrev account_id : Text
account_id = bytes "account_00000000000000000000000000000001"

abbrev profile_id : Text
profile_id = bytes "profile_00000000000000000000000000000001"

abbrev credential_id : Text
credential_id = bytes "credential_00000000000000000000000000000001"

abbrev device_id : Text
device_id = bytes "device_00000000000000000000000000000001"

abbrev workspace_id : Text
workspace_id = bytes "workspace_00000000000000000000000000000001"

abbrev digest : Text
digest = bytes "0123456789abcdef0123456789abcdef0123456789abcdef0123456789abcdef"

abbrev preview : Preview
preview = record {
  id = bytes "preview_00000000000000000000000000000001";
  client_id = bytes "client_00000000000000000000000000000001";
  provider = codex;
  account_id = account_id;
  account_revision = 1;
  runtime_profile_id = profile_id;
  profile_revision = 1;
  credential_instance_id = credential_id;
  credential_revision = 1;
  device_id = device_id;
  workspace_id = workspace_id;
  workspace_updated_at = 10;
  usage_snapshot_id = [];
  provider_version = bytes "1";
  binary_fingerprint = digest;
  schema_fingerprint = digest;
  capability_digest = digest;
  created_at = 20;
  expires_at = 100;
  consumed = none;
}

abbrev started : Session
started = record {
  id = bytes "session_00000000000000000000000000000001";
  device_id = device_id;
  account_id = account_id;
  provider = codex;
  credential_instance_id = credential_id;
  runtime_profile_id = profile_id;
  workspace_id = workspace_id;
  provider_session_id = [];
  resumed_from_session_id = [];
  status = SessionStatus.starting;
  started_at = 50;
  ended_at = none;
  exit_code = none;
  capability_snapshot = [];
  failure_code = [];
}

abbrev request : ConsumeRequest
request = record {
  preview_id = preview.id;
  client_id = preview.client_id;
  request_digest = digest;
  at = 50;
  binary_fingerprint = digest;
  schema_fingerprint = digest;
  capability_digest = digest;
  confirmation = record {
    confirmed = true;
    account_id = account_id;
    account_revision = 1;
    runtime_profile_id = profile_id;
    profile_revision = 1;
    credential_instance_id = credential_id;
    credential_revision = 1;
    device_id = device_id;
    workspace_id = workspace_id;
    usage_snapshot_id = [];
    provider_version = bytes "1";
  };
  session = started;
}

abbrev links : Links
links = record {
  reads = true;
  accounts = λ k. some (record { provider = codex; enabled = true });
  profiles =
      λ k. some (record { device_id = device_id; provider = codex; account_id = some account_id });
  credentials = λ k. some (record {
    device_id = device_id;
    provider = codex;
    account_id = some account_id;
    status = CredentialStatus.healthy;
    credential_revision = 1;
    revocation_reserved = false;
  });
  workspaces = λ k. some device_id;
}

abbrev seen : Seen
seen = record {
  links = links;
  accounts =
      λ k. some (record { provider = codex; enabled = true; internal = false; revision = 1 });
  profiles = λ k. some (record {
    account_id = account_id;
    device_id = device_id;
    credential_instance_id = credential_id;
    provider = codex;
    enabled = true;
    internal = false;
    revision = 1;
  });
  credentials = λ k. some (record {
    account_id = account_id;
    device_id = device_id;
    provider = codex;
    status = CredentialStatus.healthy;
    credential_revision = 1;
  });
  workspaces = λ k. some (record { device_id = device_id; updated_at = 10 });
  usage = λ k. none;
  latest_usage = λ k. none;
  sealed = λ k n. true;
  revoking = λ k. false;
}

abbrev rows : PreviewRows
rows = record {
  previews = λ k. if text_eq preview.id k then some preview else none;
  sessions = λ k. none;
}

abbrev again : ConsumeRequest
again = record request {
  at = 60;
  session = record started { id = bytes "session_00000000000000000000000000000002" };
}

abbrev calls : List Call
calls = Call.consumes serving seen true again ∷ Call.deletes true (λ n. n ∷ []) 90 ∷ []

starts : (consume_session_start_preview serving seen true request rows).0 ≡ ok started
unfolding consume_session_start_preview check_request valid_fingerprint validate_id valid_id_at
    last_index_byte valid_id_prefix hex_decode decodes_to with_tx commit text_eq put consume_stored
    owned_preview consume_preview confirms matches_preview check_current account_current
    profile_current credential_current validate_session_links validate_account_for_provider
    check_account check_profile check_credential reserve_session reserved row_check known_status
    session new_session terminal provider_known canonical_capabilities
starts = refl

single_use_example :
    let later = run calls (consume_session_start_preview serving seen true request rows).1 in
    ((consume_session_start_preview serving seen true again later).1 ≡ later)
    × ((digest ≡ digest)
        ⊎ ((e : Code) × ((consume_session_start_preview serving seen true again later).0 ≡ err e)))
single_use_example =
    single_use serving seen true request rows started calls serving seen true again starts
      (tt, (tt, tt)) refl
