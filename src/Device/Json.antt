-- ===== src/Device/Json.antt =====
-- internal/device/protocol.go: `validateJSON` and `consumeJSONValue`, over the tokens that Go's
-- decoder gives of a frame. A missing token is the end of the input; `broken` is an error of the
-- decoder.
pub mod Values
pub mod Accepted
use multi_agent_desk.Prelude.{
  ℕ, suc, zero, ◌+◌, Bool, true, false, ◌||◌, Option, none, some, List, [], ◌∷◌, if◌then◌else◌,
  length, Text, text_eq,
}

-- A string is a key or a value; `scalar` is a number, a Boolean or null.
pub data Token : Type 0 where
  open_object close_object open_array close_array scalar broken : Token
  string : Text → Token

-- What is being read: a value, the members of an object that has had some keys, or the elements of
-- an array.
pub data Reading : Type 0 where
  value : Reading
  members : List Text → Reading
  elements : Reading

-- `decoder.More`: there is a next token, and it does not close. Before an error it may answer
-- either, and the error comes next in both cases.
unfoldable pub more : List Token → Bool
more [] = false
more (Token.close_object ∷ rest) = false
more (Token.close_array ∷ rest) = false
more (_ ∷ rest) = true

unfoldable pub seen_key : Text → List Text → Bool
seen_key key [] = false
seen_key key (k ∷ rest) = text_eq k key || seen_key key rest

-- The closing token that must come after the last member, or the last element.
unfoldable pub closes_object : List Token → Option (List Token)
closes_object (Token.close_object ∷ rest) = some rest
closes_object _ = none

unfoldable pub closes_array : List Token → Option (List Token)
closes_array (Token.close_array ∷ rest) = some rest
closes_array _ = none

abbrev pub then_read :
    Option (List Token) → (List Token → Option (List Token)) → Option (List Token)
then_read none next = none
then_read (some rest) next = next rest

-- The tokens that are left, or `none` for an error. The fuel bounds the depth of the calls.
unfoldable pub consume : Reading → ℕ → List Token → Option (List Token)
consume reading zero ts = none
consume Reading.value (suc n) [] = none
consume Reading.value (suc n) (Token.open_object ∷ rest) = consume (Reading.members []) n rest
consume Reading.value (suc n) (Token.open_array ∷ rest) = consume Reading.elements n rest
consume Reading.value (suc n) (Token.close_object ∷ rest) = none
consume Reading.value (suc n) (Token.close_array ∷ rest) = none
consume Reading.value (suc n) (Token.broken ∷ rest) = none
consume Reading.value (suc n) (Token.scalar ∷ rest) = some rest
consume Reading.value (suc n) (Token.string t ∷ rest) = some rest
consume (Reading.members seen) (suc n) (Token.string key ∷ rest) =
    let later =
      then_read (consume Reading.value n rest) (λ r. consume (Reading.members (key ∷ seen)) n r) in
    if seen_key key seen then none else later
consume (Reading.members seen) (suc n) ts = if more ts then none else closes_object ts
consume Reading.elements (suc n) ts =
    let later = then_read (consume Reading.value n ts) (λ r. consume Reading.elements n r) in
    if more ts then later else closes_array ts

-- After the value, nothing but the end is accepted: not a token, and not an error of the decoder.
abbrev pub at_end : Option (List Token) → Bool
at_end (some []) = true
at_end _ = false

-- Two units of fuel for each token are enough.
unfoldable pub validate_json : List Token → Bool
validate_json ts = at_end (consume Reading.value (length ts + length ts + 1) ts)
