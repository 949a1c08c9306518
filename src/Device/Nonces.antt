-- ===== src/Device/Nonces.antt =====
-- internal/device/auth.go: `markNonce`, over the map `seen` as a list of keys and times. A time is
-- a count of nanoseconds; `now.Sub(at)` is never positive where `at` is later.
pub mod Replays
use multi_agent_desk.Prelude.{
  ℕ, ◌+◌, ◌-◌, Bool, true, false, ◌||◌, List, [], ◌∷◌, ◌++◌, ltb, leb, if◌then◌else◌, length, Text,
  text_eq,
}

-- 30 minutes.
abbrev pub connection_lifetime : ℕ
connection_lifetime = 1800000000000

abbrev pub max_nonces : ℕ
max_nonces = 4096

pub record Seen : Type 0 where
  pub key : Text
  pub at : ℕ

unfoldable pub nonce_key : Text → Text → Text
nonce_key id nonce = id ++ (58 ∷ nonce)

unfoldable pub drop_old : ℕ → List Seen → List Seen
drop_old now [] = []
drop_old now (s ∷ rest) =
    if ltb connection_lifetime (now - s.at) then drop_old now rest else s ∷ drop_old now rest

unfoldable pub has_key : Text → List Seen → Bool
has_key key [] = false
has_key key (s ∷ rest) = text_eq s.key key || has_key key rest

unfoldable pub mark_key : ℕ → Text → List Seen → Bool × List Seen
mark_key now key kept =
    if has_key key kept || leb max_nonces (length kept)
    then (false, kept)
    else (true, record { key = key; at = now } ∷ kept)

unfoldable pub mark_nonce : ℕ → Text → Text → List Seen → Bool × List Seen
mark_nonce now id nonce seen = mark_key now (nonce_key id nonce) (drop_old now seen)
