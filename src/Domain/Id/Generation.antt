-- ===== src/Domain/Id/Generation.antt =====
-- Identifiers that `NewID` makes are those that `ValidateID` accepts.
use multi_agent_desk.Prelude.{
  ℕ, suc, ◌+◌, ◌/◌, ◌%◌, ◌<◌, ◌≡◌, refl, sym, ap, ◌∙◌, true, false, none, some, [], ◌∷◌, ◌++◌, ltb,
  ◌==◌, length, take, drop, Text, All, arith,
}
use mathlib.Core.Path.{subst}
use multi_agent_desk.Domain.Errors.{ok}
use multi_agent_desk.Domain.Id.{
  underscore, all_bytes, valid_id_prefix, last_index_byte, hex_value, hex_digit, hex_decode,
  hex_encode, decodes_to, valid_id_at, validate_id, new_id,
}

abbrev pub IsByte : ℕ → Type 0
IsByte b = b < 256

-- The test on each byte decides it.
pub all_bytes-IsByte : (t : Text) → all_bytes (λ b. ltb b 256) t ≡ true → All IsByte t
unfolding all_bytes
all_bytes-IsByte [] h = tt
all_bytes-IsByte (b ∷ rest) h = (ground arith, all_bytes-IsByte rest (ground arith))

hex_value-hex_digit : (n : ℕ) → n < 16 → hex_value (hex_digit n) ≡ some n
unfolding hex_value hex_digit
hex_value-hex_digit n h = ground arith

hex_digit-ne_underscore : (n : ℕ) → n < 16 → (hex_digit n == underscore) ≡ false
unfolding hex_digit
hex_digit-ne_underscore n h = ground arith

-- Decoding what was encoded gives the bytes back.
pub hex_decode-hex_encode :
    (bytes : Text) → All IsByte bytes → hex_decode (hex_encode bytes) ≡ some bytes
unfolding hex_decode hex_encode
hex_decode-hex_encode [] h = refl
hex_decode-hex_encode (b ∷ rest) (hb, hr) =
    let high = hex_value-hex_digit (b / 16) (omega arith) in
    let low = hex_value-hex_digit (b % 16) (omega arith) in
    rw (high, low, hex_decode-hex_encode rest hr) (ap (λ x. some (x ∷ rest)) (omega arith))

pub length-hex_encode : (bytes : Text) → length (hex_encode bytes) ≡ length bytes + length bytes
unfolding hex_encode
length-hex_encode [] = refl
length-hex_encode (c ∷ rest) = ground (arith, length-hex_encode rest)

last_index-hex :
    (bytes : Text) → All IsByte bytes → last_index_byte (hex_encode bytes) underscore ≡ none
unfolding last_index_byte hex_encode
last_index-hex [] h = refl
last_index-hex (b ∷ rest) (hb, hr) =
    let high = hex_digit-ne_underscore (b / 16) (omega arith) in
    let low = hex_digit-ne_underscore (b % 16) (omega arith) in
    rw (last_index-hex rest hr, low, high) refl

last_index-prefix :
    (prefix t : Text)
    → last_index_byte t underscore ≡ none
    → last_index_byte (prefix ++ underscore ∷ t) underscore ≡ some (length prefix)
unfolding last_index_byte
last_index-prefix [] t h = rw h refl
last_index-prefix (c ∷ prefix) t h = rw (last_index-prefix prefix t h) refl

take-prefix : (prefix t : Text) → take (length prefix) (prefix ++ t) ≡ prefix
take-prefix [] t = refl
take-prefix (c ∷ prefix) t = ap (λ x. c ∷ x) (take-prefix prefix t)

drop-prefix : (prefix : Text) (c : ℕ) (t : Text) → drop (length prefix + 1) (prefix ++ c ∷ t) ≡ t
drop-prefix [] c t = refl
drop-prefix (b ∷ prefix) c t =
    let step : suc (length prefix + 1) ≡ suc (length prefix) + 1 = omega arith in
    subst (λ n. drop n (b ∷ prefix ++ c ∷ t) ≡ t) step (drop-prefix prefix c t)

valid-nonempty : (prefix : Text) → valid_id_prefix prefix ≡ true → ltb 0 (length prefix) ≡ true
unfolding valid_id_prefix
valid-nonempty prefix h = ground arith

valid_at_prefix :
    (prefix random : Text)
    → valid_id_prefix prefix ≡ true
    → length random ≡ 16
    → All IsByte random
    → valid_id_at (prefix ++ underscore ∷ hex_encode random) (some (length prefix)) ≡ true
unfolding valid_id_at decodes_to
valid_at_prefix prefix random valid sixteen byte =
    let nonempty : ltb 0 (length prefix) ≡ true = valid-nonempty prefix valid in
    let doubled : (length (hex_encode random) == 32) ≡ true =
      let l = length-hex_encode random in ground arith in
    let whole : (length random == 16) ≡ true = ground arith in
    rw
      (
        take-prefix prefix (underscore ∷ hex_encode random),
        drop-prefix prefix underscore (hex_encode random),
        nonempty,
        valid,
        doubled,
        hex_decode-hex_encode random byte,
        whole,
      )
      refl

new_id-ok :
    (prefix random id : Text)
    → new_id prefix (some random) ≡ ok id
    → (valid_id_prefix prefix ≡ true) × (id ≡ prefix ++ underscore ∷ hex_encode random)
unfolding new_id
new_id-ok prefix random id h = ground arith

-- An identifier that `NewID` makes of 16 random bytes is one that `ValidateID` accepts.
pub new_id_valid :
    (prefix random id : Text)
    → length random ≡ 16
    → All IsByte random
    → new_id prefix (some random) ≡ ok id
    → validate_id id ≡ ok tt
unfolding validate_id
new_id_valid prefix random id sixteen byte h =
    let (valid, made) = new_id-ok prefix random id h in
    let accepted = valid_at_prefix prefix random valid sixteen byte in
    rw (made, last_index-prefix prefix (hex_encode random) (last_index-hex random byte), accepted)
      refl

-- Identifiers that are made of different prefixes or of different random bytes differ.
pub new_id_injective :
    (prefix random prefix' random' id : Text)
    → All IsByte random
    → All IsByte random'
    → new_id prefix (some random) ≡ ok id
    → new_id prefix' (some random') ≡ ok id
    → (prefix ≡ prefix') × (random ≡ random')
new_id_injective prefix random prefix' random' id byte byte' h h' =
    let (_, made) = new_id-ok prefix random id h in
    let (_, made') = new_id-ok prefix' random' id h' in
    let same = sym made ∙ made' in
    let at =
      sym (last_index-prefix prefix (hex_encode random) (last_index-hex random byte))
      ∙ ap (λ x. last_index_byte x underscore) same
      ∙ last_index-prefix prefix' (hex_encode random') (last_index-hex random' byte') in
    let n : length prefix ≡ length prefix' = ground arith in
    let digits : hex_encode random ≡ hex_encode random' =
      sym (drop-prefix prefix underscore (hex_encode random))
      ∙ ap (λ x. drop (length prefix + 1) x) same
      ∙ ap (λ k. drop (k + 1) (prefix' ++ underscore ∷ hex_encode random')) n
      ∙ drop-prefix prefix' underscore (hex_encode random') in
    let decoded =
      sym (hex_decode-hex_encode random byte)
      ∙ ap hex_decode digits
      ∙ hex_decode-hex_encode random' byte' in
    (
      sym (take-prefix prefix (underscore ∷ hex_encode random))
          ∙ ap (λ x. take (length prefix) x) same
          ∙ ap (λ k. take k (prefix' ++ underscore ∷ hex_encode random')) n
          ∙ take-prefix prefix' (underscore ∷ hex_encode random'),
      ground arith,
    )
