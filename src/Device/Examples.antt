-- ===== src/Device/Examples.antt =====
-- The theorems about the device protocol at concrete values.
use multi_agent_desk.Prelude.{
  ◌≤◌, ◌≡◌, ◌≢◌, ◌↔◌, refl, sym, ap, ◌∙◌, true, false, none, some, List, [], ◌∷◌, ◌++◌, length,
  take, Text, bytes, arith,
}
use multi_agent_desk.Domain.Errors.{ok}
use multi_agent_desk.Device.Json.{Token, consume, validate_json}
use multi_agent_desk.Device.Json.Values.{Sort, Json, print, distinct}
use multi_agent_desk.Device.Json.Accepted.{validate_json_iff}
use multi_agent_desk.Device.Frames.{
  Write, max_frame_bytes, put_uint32, write_all, write_bytes, write_body, write_marshalled,
  marshal_frame, write_frame, read_frame,
}
use multi_agent_desk.Device.Frames.Transfer.{Faithful, frame_round_trip, write_frame_returns}
use multi_agent_desk.Device.Nonces.{
  Seen, max_nonces, nonce_key, drop_old, has_key, mark_key, mark_nonce,
}
use multi_agent_desk.Device.Nonces.Replays.{Hello, run, nonce_once, nonces_bounded}

abbrev alice : Text
alice = bytes "client_0000000000000000000000000000000a"

abbrev marked : List Seen
marked = record { key = nonce_key alice (bytes "n1"); at = 100 } ∷ []

first_time : mark_nonce 100 alice (bytes "n1") [] ≡ (true, marked)
unfolding mark_nonce drop_old mark_key has_key
first_time = refl

-- Another handshake of the client comes between.
abbrev hellos : List Hello
hellos = record { now = 120; client_id = alice; nonce = bytes "n2" } ∷ []

nonce_once_example : (mark_nonce 130 alice (bytes "n1") (run hellos marked)).0 ≡ false
nonce_once_example =
    nonce_once 100 alice (bytes "n1") [] marked hellos 130 first_time (omega arith, tt)
      (omega arith)

nonces_bounded_example : length (run hellos marked) ≤ max_nonces
nonces_bounded_example = nonces_bounded hellos marked (omega arith)

-- The tokens of `{"a": {"a": 1}}` have no key twice in one object.
abbrev nested : List Token
nested =
    Token.open_object
    ∷ Token.string (bytes "a")
    ∷ Token.open_object
    ∷ Token.string (bytes "a")
    ∷ Token.scalar
    ∷ Token.close_object
    ∷ Token.close_object
    ∷ []

validate_json_iff_example :
    (validate_json nested ≡ true)
    ↔ ((v : Json Sort.a_value) × (distinct [] v ≡ true) × (nested ≡ print v []))
validate_json_iff_example = validate_json_iff nested

-- A writer that takes at most three bytes at once, and a decoder that sees one value.
abbrev three : Write Text
three t w = (some (length (take 3 t)), w ++ take 3 t)

take-length-take : (t : Text) → take (length (take 3 t)) t ≡ take 3 t
take-length-take [] = refl
take-length-take (a ∷ []) = refl
take-length-take (a ∷ b ∷ []) = refl
take-length-take (a ∷ b ∷ c ∷ t) = refl

three-Faithful : Faithful three (λ w. w)
three-Faithful t w n took bound =
    let same : n ≡ length (take 3 t) = ground arith in
    ap (λ s. w ++ s) (sym (ap (λ k. take k t) same ∙ take-length-take t))

abbrev one_value : Text → List Token
one_value t = Token.scalar ∷ []

abbrev body : Text
body = bytes "12345"

sends : (write_frame three (some body) []).0 ≡ some (ok tt)
unfolding write_frame write_marshalled marshal_frame write_body write_bytes write_all put_uint32
sends = refl

-- As of `1 x`.
error_refused : validate_json (Token.scalar ∷ Token.broken ∷ []) ≡ false
unfolding validate_json consume
error_refused = refl

frame_round_trip_example :
    (length body ≤ max_frame_bytes)
    × ((write_frame three (some body) []).1 ≡ [] ++ (put_uint32 5 ++ body))
    × (read_frame one_value ((put_uint32 5 ++ body) ++ bytes "tail") ≡ ok (body, bytes "tail"))
unfolding validate_json consume
frame_round_trip_example =
    frame_round_trip three (λ w. w) three-Faithful one_value body (bytes "tail") [] sends

write_frame_returns_example : (write_frame three (some body) []).0 ≢ none
write_frame_returns_example = write_frame_returns three (some body) []
