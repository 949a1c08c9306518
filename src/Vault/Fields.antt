-- ===== src/Vault/Fields.antt =====
-- internal/vault/vault.go: `encodeFields` and `credentialAAD`, the bytes that bind an encrypted
-- item to its credential.
pub mod Injective
use multi_agent_desk.Prelude.{
  ℕ, zero, suc, ◌+◌, ◌-◌, ◌/◌, ◌%◌, ◌^◌, Option, none, some, List, [], ◌∷◌, ◌++◌, ltb, is_neg,
  if◌then◌else◌, length, Text, bytes,
}
use multi_agent_desk.Device.Frames.{put_uint32}

-- The length as 32 bits, big-endian, and the bytes.
unfoldable pub encode_field : Text → Text
encode_field field = put_uint32 (length field) ++ field

unfoldable pub encode_fields : List Text → Text
encode_fields [] = []
encode_fields (field ∷ fields) = encode_field field ++ encode_fields fields

-- The decimal digits of a number, before those of `digits`.
unfoldable pub decimal : ℕ → ℕ → Text → Text
decimal zero n digits = digits
decimal (suc fuel) n digits =
    let rest = decimal fuel (n / 10) ((48 + n % 10) ∷ digits) in
    if ltb n 10 then (48 + n) ∷ digits else rest

-- `strconv.FormatInt(n, 10)`; an `int64` has at most twenty digits.
unfoldable pub format_int : ℕ → Text
format_int n = if is_neg n then b'-' ∷ decimal 20 (2 ^ 64 - n) [] else decimal 20 n []

pub record CredentialMetadata : Type 0 where
  pub credential_instance_id : Text
  pub account_id : Text
  pub device_id : Text
  pub provider : Text
  pub expected_revision : ℕ
  pub created_at : ℕ
  pub updated_at : ℕ

unfoldable pub credential_aad : CredentialMetadata → ℕ → Text
credential_aad metadata revision = encode_fields (
    bytes "1"
    ∷ metadata.device_id
    ∷ metadata.provider
    ∷ metadata.credential_instance_id
    ∷ metadata.account_id
    ∷ format_int revision
    ∷ [])
