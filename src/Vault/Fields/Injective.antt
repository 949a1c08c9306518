-- ===== src/Vault/Fields/Injective.antt =====
-- The additional data of an item determines what it is bound to.
use multi_agent_desk.Prelude.{
  ℕ, zero, suc, ◌+◌, ◌-◌, ◌*◌, ◌/◌, ◌%◌, ◌^◌, ◌<◌, ◌≤◌, ◌≡◌, ◌∙◌, refl, sym, ap, inl, inr, false,
  List, [], ◌∷◌, ◌++◌, ltb, is_neg, length, take, drop, take-append, drop-append, All, Text, bytes,
  Bool-cases, arith,
}
use multi_agent_desk.Device.Frames.{put_uint32, uint32}
use multi_agent_desk.Vault.Fields.{
  encode_field, encode_fields, decimal, format_int, CredentialMetadata, credential_aad,
}

-- `len` of a field fits the 32 bits that it is written in.
abbrev pub IsShort : Text → Type 0
IsShort field = length field < 2 ^ 32

first_length : (a r : Text) → IsShort a → uint32 (encode_field a ++ r) ≡ length a
unfolding encode_field put_uint32 uint32
first_length a r short = omega arith

first : Text → Text
first t = take (uint32 t) (drop 4 t)

later : Text → Text
later t = drop (uint32 t) (drop 4 t)

first-encode_field : (a r : Text) → IsShort a → first (encode_field a ++ r) ≡ a
unfolding first
first-encode_field a r short = rw (first_length a r short) (body a r)
  where
    body : (a r : Text) → take (length a) (drop 4 (encode_field a ++ r)) ≡ a
    body a r = unfold encode_field in unfold put_uint32 in take-append a r

later-encode_field : (a r : Text) → IsShort a → later (encode_field a ++ r) ≡ r
unfolding later
later-encode_field a r short = rw (first_length a r short) (body a r)
  where
    body : (a r : Text) → drop (length a) (drop 4 (encode_field a ++ r)) ≡ r
    body a r = unfold encode_field in unfold put_uint32 in drop-append a r

encode_field-nonempty : (a r : Text) → 4 ≤ length (encode_field a ++ r)
unfolding encode_field put_uint32
encode_field-nonempty a r = omega arith

-- The encoding of fields whose lengths fit 32 bits determines them.
pub encode_fields_inj :
    (fs gs : List Text)
    → All IsShort fs
    → All IsShort gs
    → encode_fields fs ≡ encode_fields gs
    → fs ≡ gs
unfolding encode_fields
encode_fields_inj [] [] sa sb e = refl
encode_fields_inj [] (b ∷ gs) sa sb e =
    absurd
      (let n = encode_field-nonempty b (encode_fields gs) in let l = ap length e in omega arith)
encode_fields_inj (a ∷ fs) [] sa sb e =
    absurd
      (let n = encode_field-nonempty a (encode_fields fs) in let l = ap length e in omega arith)
encode_fields_inj (a ∷ fs) (b ∷ gs) sa sb e =
    let heads : a ≡ b =
      sym (first-encode_field a (encode_fields fs) sa.0)
      ∙ ap first e
      ∙ first-encode_field b (encode_fields gs) sb.0 in
    let rests : encode_fields fs ≡ encode_fields gs =
      sym (later-encode_field a (encode_fields fs) sa.0)
      ∙ ap later e
      ∙ later-encode_field b (encode_fields gs) sb.0 in
    let tails = encode_fields_inj fs gs sa.1 sb.1 rests in rw (heads, tails) refl

-- The number that digits stand for, after `acc`.
value : ℕ → Text → ℕ
value acc [] = acc
value acc (d ∷ digits) = value (acc * 10 + (d - 48)) digits

ten_to : ℕ → ℕ
ten_to zero = 1
ten_to (suc n) = 10 * ten_to n

value-decimal :
    (fuel n : ℕ) (digits : Text)
    → n < ten_to fuel
    → value 0 (decimal fuel n digits) ≡ value n digits
unfolding decimal value ten_to
value-decimal zero n digits h = ap (λ k. value k digits) (omega arith)
value-decimal (suc fuel) n digits h = elim (Bool-cases (ltb n 10)) [
  | inl small ↦ rw small (ap (λ k. value k digits) (omega arith))
  | inr large ↦ rw large (
      value-decimal fuel (n / 10) ((48 + n % 10) ∷ digits) (omega arith)
      ∙ ap (λ k. value k digits) (omega arith))
]

format_int_inj : (m n : ℕ) → m < 2 ^ 63 → n < 2 ^ 63 → format_int m ≡ format_int n → m ≡ n
unfolding format_int value
format_int_inj m n hm hn e =
    let positive_m : is_neg m ≡ false = ground arith in
    let positive_n : is_neg n ≡ false = ground arith in
    let digits : decimal 20 m [] ≡ decimal 20 n [] = rw (positive_m, positive_n) at e in
    sym (value-decimal 20 m [] (bound m hm))
    ∙ ap (value 0) digits
    ∙ value-decimal 20 n [] (bound n hn)
  where
    bound : (k : ℕ) → k < 2 ^ 63 → k < ten_to 20
    bound k h = unfold ten_to in omega arith

-- What an item's additional data says of its credential.
pub record SameBinding (m n : CredentialMetadata) (r s : ℕ) : Type 0 where
  pub credential : m.credential_instance_id ≡ n.credential_instance_id
  pub account : m.account_id ≡ n.account_id
  pub device : m.device_id ≡ n.device_id
  pub provider : m.provider ≡ n.provider
  pub revision : r ≡ s

-- The fields of the metadata fit the 32 bits of their lengths.
pub record IsBounded (m : CredentialMetadata) : Type 0 where
  pub credential : IsShort m.credential_instance_id
  pub account : IsShort m.account_id
  pub device : IsShort m.device_id
  pub provider : IsShort m.provider

decimal-length :
    (fuel n : ℕ) (digits : Text) → length (decimal fuel n digits) ≤ fuel + length digits + 1
unfolding decimal
decimal-length zero n digits = omega arith
decimal-length (suc fuel) n digits = elim (Bool-cases (ltb n 10)) [
  | inl small ↦ rw small (omega arith)
  | inr large ↦
      rw large (let l = decimal-length fuel (n / 10) ((48 + n % 10) ∷ digits) in omega arith)
]

format_int-IsShort : (n : ℕ) → IsShort (format_int n)
unfolding format_int
format_int-IsShort n = elim (Bool-cases (is_neg n)) [
  | inl negative ↦ rw negative (let l = decimal-length 20 (2 ^ 64 - n) [] in omega arith)
  | inr positive ↦ rw positive (let l = decimal-length 20 n [] in omega arith)
]

head_of : Text → List Text → Text
head_of other [] = other
head_of other (t ∷ _) = t

-- Two credentials have the same additional data only if they are the same credential of the same
-- account, device and provider at the same revision, where the ids and the provider are shorter
-- than 2^32 bytes and the revisions are positive int64 numbers.
pub credential_aad_inj :
    (m n : CredentialMetadata) (r s : ℕ)
    → IsBounded m
    → IsBounded n
    → r < 2 ^ 63
    → s < 2 ^ 63
    → credential_aad m r ≡ credential_aad n s
    → SameBinding m n r s
unfolding credential_aad head_of
credential_aad_inj m n r s bm bn hr hs e =
    let fields =
      encode_fields_inj
        (bytes "1"
          ∷ m.device_id
          ∷ m.provider
          ∷ m.credential_instance_id
          ∷ m.account_id
          ∷ format_int r
          ∷ [])
        (bytes "1"
          ∷ n.device_id
          ∷ n.provider
          ∷ n.credential_instance_id
          ∷ n.account_id
          ∷ format_int s
          ∷ [])
        (
          omega arith,
          (bm.device, (bm.provider, (bm.credential, (bm.account, (format_int-IsShort r, tt))))),
        )
        (
          omega arith,
          (bn.device, (bn.provider, (bn.credential, (bn.account, (format_int-IsShort s, tt))))),
        )
        e in
    record {
      device = ap (λ l. head_of [] (drop 1 l)) fields;
      provider = ap (λ l. head_of [] (drop 2 l)) fields;
      credential = ap (λ l. head_of [] (drop 3 l)) fields;
      account = ap (λ l. head_of [] (drop 4 l)) fields;
      revision = format_int_inj r s hr hs (ap (λ l. head_of [] (drop 5 l)) fields);
    }
