-- ===== src/Vault/Crypto.antt =====
-- What internal/vault/vault.go calls of the cryptographic packages, and of Go's JSON decoder.
use multi_agent_desk.Prelude.{
  ℕ, ◌+◌, Bool, false, ◌||◌, ◌≡◌, Option, some, List, [], ◌∷◌, ◌==◌, length, Text,
}
use multi_agent_desk.Device.Json.{Token, Reading, consume, at_end}

pub record Crypto : Type 0 where
  -- `argon2.IDKey`: password, salt, time, memory and lanes; 32 bytes
  pub derive : Text → Text → ℕ → ℕ → ℕ → Text
  -- `Seal` and `Open` of AES-GCM: key, nonce, text, additional data
  pub seal : Text → Text → Text → Text → Text
  pub unseal : Text → Text → Text → Text → Option Text
  -- `sha256.Sum256`
  pub sha256 : Text → Text
  pub tokens : Text → List Token

-- `Open` gives back what `Seal` was given.
abbrev pub Opens : Crypto → Type 0
Opens c =
    (key nonce plain aad : Text) → c.unseal key nonce (c.seal key nonce plain aad) aad ≡ some plain

-- `aes.NewCipher` refuses a key of another size.
unfoldable pub new_gcm : Text → Bool
new_gcm key = length key == 16 || length key == 24 || length key == 32

-- `validateJSONObject`, over the tokens: the members of one object, and then the end. Two units of
-- fuel for each token are enough.
unfoldable pub validate_json_object : List Token → Bool
validate_json_object (Token.open_object ∷ rest) =
    at_end (consume (Reading.members []) (length rest + length rest + 2) rest)
validate_json_object _ = false
