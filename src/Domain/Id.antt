-- ===== src/Domain/Id.antt =====
-- internal/domain/types.go: opaque identifiers, `prefix_` and 32 hexadecimal digits. The prefix is
-- walked by bytes where the source walks runes: a byte above 127 is refused either way.
pub mod Generation
use multi_agent_desk.Prelude.{
  ℕ, suc, ◌+◌, ◌-◌, ◌*◌, ◌/◌, ◌%◌, Bool, true, false, not, ◌&&◌, ◌||◌, Option, none, some, [], ◌∷◌,
  ◌++◌, ltb, leb, ◌==◌, if◌then◌else◌, length, take, drop, Text,
}
use multi_agent_desk.Domain.Errors.{Code, Result, ok, err, ◌>>◌, refuse_if}

abbrev pub underscore : ℕ
underscore = b'_'

unfoldable pub prefix_byte : ℕ → Bool
prefix_byte r =
    not ((ltb r b'a' || ltb b'z' r) && (ltb r b'0' || ltb b'9' r) && not (r == underscore))

unfoldable pub all_bytes : (ℕ → Bool) → Text → Bool
all_bytes p [] = true
all_bytes p (r ∷ rest) = p r && all_bytes p rest

unfoldable pub valid_id_prefix : Text → Bool
unfolding all_bytes prefix_byte
valid_id_prefix prefix =
    not (length prefix == 0 || ltb 24 (length prefix)) && all_bytes prefix_byte prefix

-- `strings.LastIndexByte`.
unfoldable pub last_index_byte : Text → ℕ → Option ℕ
last_index_byte [] c = none
last_index_byte (b ∷ rest) c = elim (last_index_byte rest c) [
  | some i ↦ some (suc i)
  | none ↦ if b == c then some 0 else none
]

unfoldable pub hex_value : ℕ → Option ℕ
hex_value c =
    if leb b'0' c && leb c b'9'
    then some (c - 48)
    else if leb b'a' c && leb c b'f'
    then some (c - 87)
    else if leb b'A' c && leb c b'F'
    then some (c - 55)
    else none

abbrev hex_byte : Option ℕ → Option ℕ → Option ℕ
hex_byte (some h) (some l) = some (h * 16 + l)
hex_byte (some h) none = none
hex_byte none _ = none

abbrev push_byte : Option ℕ → Option Text → Option Text
push_byte (some b) (some rest) = some (b ∷ rest)
push_byte (some b) none = none
push_byte none _ = none

-- `hex.DecodeString`; `none` is its error, also for an odd length.
unfoldable pub hex_decode : Text → Option Text
unfolding hex_value
hex_decode [] = some []
hex_decode (_ ∷ []) = none
hex_decode (h ∷ l ∷ rest) = push_byte (hex_byte (hex_value h) (hex_value l)) (hex_decode rest)

unfoldable pub hex_digit : ℕ → ℕ
hex_digit n = if ltb n 10 then n + 48 else n + 87

-- `hex.EncodeToString`.
unfoldable pub hex_encode : Text → Text
unfolding hex_digit
hex_encode [] = []
hex_encode (b ∷ rest) = hex_digit (b / 16) ∷ hex_digit (b % 16) ∷ hex_encode rest

-- `err != nil || len(decoded) != n`.
unfoldable pub decodes_to : ℕ → Option Text → Bool
decodes_to n none = false
decodes_to n (some decoded) = length decoded == n

-- `value[:separator]` and `value[separator+1:]`, for the separator that was found.
unfoldable pub valid_id_at : Text → Option ℕ → Bool
unfolding valid_id_prefix hex_decode decodes_to
valid_id_at value none = false
valid_id_at value (some separator) =
    let random_part = drop (separator + 1) value in
    ltb 0 separator
    && valid_id_prefix (take separator value)
    && length random_part == 32
    && decodes_to 16 (hex_decode random_part)

unfoldable pub validate_id : Text → Result (Unit {0})
unfolding valid_id_at last_index_byte
validate_id value =
    refuse_if (not (valid_id_at value (last_index_byte value underscore))) Code.invalid_argument

-- `random` is what `rand.Read` filled, or its error.
unfoldable pub new_id : Text → Option Text → Result Text
unfolding valid_id_prefix hex_encode
new_id prefix none = do
  refuse_if (not (valid_id_prefix prefix)) Code.invalid_argument
  err Code.conflict
new_id prefix (some random) = do
  refuse_if (not (valid_id_prefix prefix)) Code.invalid_argument
  ok (prefix ++ underscore ∷ hex_encode random)
