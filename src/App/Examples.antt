-- ===== src/App/Examples.antt =====
-- The theorems about requests at a concrete client.
use multi_agent_desk.Prelude.{
  ℕ, ◌+◌, ◌≡◌, ◌≢◌, ◌↔◌, refl, true, false, none, some, [], ◌∷◌, Text, text_eq, bytes, arith,
  if◌then◌else◌, ◌&&◌, length,
}
use multi_agent_desk.Domain.Errors.{Code, Result, ok, err}
use multi_agent_desk.Domain.Id.{validate_id}
use multi_agent_desk.Domain.Capability.{vault_control}
use multi_agent_desk.Storage.Driver.{Driver}
use multi_agent_desk.App.Methods.{required_capability, requires_idempotency, registry_method, among}
use multi_agent_desk.App.Methods.Reach.{ledger_reached}
use multi_agent_desk.App.Authorization.{
  ClientStatus, ClientIdentity, AuthContext, authorize, Authorized, authorize_iff,
}
use multi_agent_desk.App.Idempotency.{
  Request, Ledger, Codec, Env, fresh, stored, Dispatch, handle, digest_text, put_record, new_record,
  run_fresh,
}
use multi_agent_desk.App.Idempotency.AtMostOnce.{run, at_most_once}
use multi_agent_desk.App.Idempotency.Saving.{new_request_recorded, unrecorded_effect}

ledger_edit : requires_idempotency (bytes "profiles.edit") ≡ true
unfolding requires_idempotency among text_eq
ledger_edit = refl

ledger_reached_example :
    (required_capability (bytes "profiles.edit") ≡ err Code.method_not_found)
    ↔ (bytes "profiles.edit" ≡ bytes "profiles.edit")
ledger_reached_example = ledger_reached (bytes "profiles.edit") ledger_edit

registry_update : registry_method (bytes "accounts.update") ≡ true
unfolding registry_method among text_eq
registry_update = refl

abbrev alice : Text
alice = bytes "client_0000000000000000000000000000000a"

abbrev alice_row : ClientIdentity
alice_row = record {
  id = alice;
  name = bytes "alice";
  public_key = [];
  revision = 2;
  status = ClientStatus.active;
  caps = vault_control ∷ [];
  created_at = 1;
  updated_at = 1;
}

abbrev lookup : Text → Result ClientIdentity
lookup id = if text_eq id alice then ok alice_row else err Code.not_found

abbrev connection : AuthContext
connection = record {
  client_id = alice;
  identity_revision = 2;
  granted_capabilities = vault_control ∷ [];
  connection_id = [];
  authenticated_at = 10;
  expires_at = 20;
}

authorize_iff_example :
    (authorize (some lookup) connection 15 (bytes "vault.lock") ≡ ok tt)
    ↔ Authorized lookup connection 15 (bytes "vault.lock")
authorize_iff_example = authorize_iff lookup connection 15 (bytes "vault.lock")

-- A digest of 32 bytes, and results that are their own encoding.
abbrev digest : Text → Text
digest t =
    length t
    ∷ 1
    ∷ 2
    ∷ 3
    ∷ 4
    ∷ 5
    ∷ 6
    ∷ 7
    ∷ 8
    ∷ 9
    ∷ 10
    ∷ 11
    ∷ 12
    ∷ 13
    ∷ 14
    ∷ 15
    ∷ 16
    ∷ 17
    ∷ 18
    ∷ 19
    ∷ 20
    ∷ 21
    ∷ 22
    ∷ 23
    ∷ 24
    ∷ 25
    ∷ 26
    ∷ 27
    ∷ 28
    ∷ 29
    ∷ 30
    ∷ 31
    ∷ []

abbrev plain : Codec Text
plain = record { sha256 = digest; marshal = some; json_valid = λ t. true }

-- Each request that is carried out is counted.
abbrev count : Dispatch ℕ Text
count r n = (ok (bytes "{}"), n + 1)

abbrev serving : Driver
serving = record { begins = true; runs = true; commits = true }

abbrev env : Env
env = record { now = 5; reads = true; saves = serving; rereads = true; others = λ t. t }

abbrev failing : Env
failing = record {
  now = 5;
  reads = true;
  saves = record { begins = true; runs = true; commits = false };
  rereads = true;
  others = λ t. t;
}

abbrev disable : Request
disable = record {
  method = bytes "accounts.disable";
  idempotency_key = bytes "k1";
  body = bytes "a";
}

abbrev other_body : Request
other_body = record {
  method = bytes "accounts.disable";
  idempotency_key = bytes "k1";
  body = bytes "ab";
}

abbrev empty : Ledger
empty client method key = none

in_ledger : requires_idempotency (bytes "accounts.disable") ≡ true
unfolding requires_idempotency among text_eq
in_ledger = refl

alice_valid : validate_id alice ≡ ok tt
unfolding validate_id
alice_valid = refl

new_request_recorded_example : handle plain count env alice disable (0, empty) ≡ (
  ok (fresh (bytes "{}")),
  (1, put_record empty (new_record plain env alice disable (bytes "{}"))),
)
new_request_recorded_example =
    new_request_recorded plain count env alice disable 0 empty (bytes "{}") (bytes "{}") in_ledger
      alice_valid (omega arith, omega arith) (omega arith, omega arith) refl
      (refl, refl, omega arith) (omega arith, refl) (refl, refl, refl, refl) refl refl

abbrev after : ℕ × Ledger
after = (1, put_record empty (new_record plain env alice disable (bytes "{}")))

at_most_once_example : handle plain count env alice other_body (run plain count [] after) ≡ (
  if true && text_eq (digest_text plain disable) (digest_text plain other_body)
      then ok (stored (bytes "{}"))
      else err Code.conflict,
  run plain count [] after,
)
at_most_once_example =
    at_most_once plain count env alice disable 0 empty (bytes "{}") after [] env other_body
      (bytes "{}") in_ledger new_request_recorded_example refl tt refl refl

unrecorded_effect_example :
    let first = handle plain count failing alice disable (0, empty) in
    ((b : Text) → first.0 ≢ ok (fresh b))
    × (first.1 ≡ (1, empty))
    × (handle plain count env alice disable first.1
        ≡ run_fresh plain count env alice disable (1, empty))
unrecorded_effect_example =
    unrecorded_effect plain count failing alice disable 0 empty (bytes "{}") env in_ledger refl refl
      refl refl refl refl refl
