-- ===== src/Device/Frames.antt =====
-- internal/device/protocol.go: `marshalFrame`, `writeFrame`, `writeAll` and `readFrame`. The JSON
-- encoder and the tokens of Go's decoder are arguments; a writer is a function on its state, and a
-- reader is the bytes that are still to come.
pub mod Transfer
use multi_agent_desk.Prelude.{
  ℕ, zero, suc, ◌+◌, ◌*◌, ◌/◌, ◌%◌, ◌^◌, Bool, true, false, not, ◌||◌, Option, none, some, List, [],
  ◌∷◌, ◌++◌, ltb, ◌==◌, if◌then◌else◌, length, take, drop, Text,
}
use multi_agent_desk.Domain.Errors.{Code, Result, ok, err, ◌>>=◌, ◌>>◌, refuse_if}
use multi_agent_desk.Device.Json.{Token, validate_json}

abbrev pub max_frame_bytes : ℕ
max_frame_bytes = 262144

-- `binary.BigEndian.PutUint32` of `uint32(n)`.
unfoldable pub put_uint32 : ℕ → Text
put_uint32 n = n / 2 ^ 24 % 256 ∷ n / 2 ^ 16 % 256 ∷ n / 2 ^ 8 % 256 ∷ n % 256 ∷ []

-- `binary.BigEndian.Uint32`.
unfoldable pub uint32 : Text → ℕ
uint32 (a ∷ b ∷ c ∷ d ∷ _) = ((a * 256 + b) * 256 + c) * 256 + d
uint32 _ = 0

-- One call of `Write`: how many bytes it took, or an error.
abbrev pub Write {ℓ} : Type ℓ → Type ℓ
Write W = Text → W → Option ℕ × W

unfoldable pub marshal_frame : Option Text → Result Text
marshal_frame none = err Code.invalid_argument
marshal_frame (some encoded) = do
  refuse_if (ltb max_frame_bytes (length encoded)) Code.frame_too_large
  ok encoded

module _ {ℓ} {W : Type ℓ} (write : Write W) where
  -- Whether all was written; `none` if the fuel is spent.
  unfoldable pub write_all : ℕ → Text → W → Option Bool × W
  write_all fuel [] w = (some true, w)
  write_all zero (b ∷ data_bytes) w = (none, w)
  write_all (suc fuel) (b ∷ data_bytes) w =
      let data' = b ∷ data_bytes in
      elim ((write data' w).0) [
        | none ↦ (some false, (write data' w).1)
        | some n ↦
            let rest = write_all fuel (drop n data') (write data' w).1 in
            if n == 0 || ltb (length data') n then (some false, (write data' w).1) else rest
      ]

  -- A round takes at least one byte, so the length of the data is fuel enough.
  unfoldable pub write_bytes : Text → W → Option Bool × W
  write_bytes data_bytes w = write_all (length data_bytes) data_bytes w

  unfoldable pub write_body : Text → Option Bool × W → Option (Result (Unit {0})) × W
  write_body body (none, w) = (none, w)
  write_body body (some false, w) = (some (err Code.daemon_unavailable), w)
  write_body body (some true, w) = elim (write_bytes body w).0 [
    | none ↦ (none, (write_bytes body w).1)
    | some true ↦ (some (ok tt), (write_bytes body w).1)
    | some false ↦ (some (err Code.daemon_unavailable), (write_bytes body w).1)
  ]

  unfoldable pub write_marshalled : Result Text → W → Option (Result (Unit {0})) × W
  write_marshalled (err e) w = (some (err e), w)
  write_marshalled (ok body) w = write_body body (write_bytes (put_uint32 (length body)) w)

  unfoldable pub write_frame : Option Text → W → Option (Result (Unit {0})) × W
  write_frame encoded w = write_marshalled (marshal_frame encoded) w

-- `io.ReadFull` of `n` bytes.
unfoldable pub read_full : ℕ → Text → Result (Text × Text)
read_full n stream =
    if ltb (length stream) n then err Code.daemon_unavailable else ok (take n stream, drop n stream)

-- The body of the next frame, and what comes after it.
unfoldable pub read_frame : (Text → List Token) → Text → Result (Text × Text)
read_frame tokens stream = do
  (header, rest) ← read_full 4 stream
  refuse_if (uint32 header == 0 || ltb max_frame_bytes (uint32 header)) Code.frame_too_large
  (body, later) ← read_full (uint32 header) rest
  refuse_if (not (validate_json (tokens body))) Code.invalid_argument
  ok (body, later)
