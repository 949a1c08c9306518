-- ===== src/Runtime/Ring.antt =====
-- internal/runtime/ring.go: output retained by bytes. Each method holds `r.mu`. The nil receiver is
-- left out, and a clone of a chunk is the chunk: the model has no shared slices.
pub mod Invariant
pub mod Splitting
pub mod Eviction
pub mod Retention
pub mod Replays
pub mod History
mod Examples
use multi_agent_desk.Prelude.{
  ℕ, zero, suc, ◌+◌, ◌-◌, ◌*◌, Bool, true, false, not, ◌||◌, Option, none, some, List, [], ◌∷◌,
  ◌++◌, ltb, ◌==◌, if◌then◌else◌, length, take, drop, slt, inc64, Text,
}
use multi_agent_desk.Domain.Errors.{Code, Result, ok, err, ◌>>=◌, ◌>>◌, refuse_if}

abbrev pub default_ring_bytes : ℕ
default_ring_bytes = 4 * 1024 * 1024

abbrev pub default_chunk_size : ℕ
default_chunk_size = 4 * 1024

pub record Chunk : Type 0 where
  pub sequence : ℕ
  pub data_bytes : Text
  pub truncated : Bool

pub record Replay : Type 0 where
  pub chunks : List Chunk
  pub truncated : Bool
  pub next_sequence : ℕ

pub record RingBuffer : Type 0 where
  pub capacity : ℕ
  pub chunk_size : ℕ
  pub chunks : List Chunk
  pub bytes : ℕ
  pub next : ℕ

unfoldable pub new_ring_buffer : ℕ → ℕ → Result RingBuffer
new_ring_buffer capacity chunk_size = do
  refuse_if (not (slt 0 capacity) || not (slt 0 chunk_size) || slt capacity chunk_size)
      Code.invalid_argument
  ok (record { capacity = capacity; chunk_size = chunk_size; chunks = []; bytes = 0; next = 0 })

-- `NewDefaultRingBuffer` drops the error, and would give nil for bad bounds.
unfoldable pub new_default_ring_buffer : Option RingBuffer
unfolding new_ring_buffer
new_default_ring_buffer = elim (new_ring_buffer default_ring_bytes default_chunk_size) [
  | ok ring ↦ some ring
  | err _ ↦ none
]

-- `n` of the loop body.
abbrev pub piece : RingBuffer → Text → ℕ
piece r rest = if ltb (length rest) r.chunk_size then length rest else r.chunk_size

abbrev pub next_chunk : RingBuffer → Text → Chunk
next_chunk r rest = record {
  sequence = inc64 r.next;
  data_bytes = take (piece r rest) rest;
  truncated = false;
}

abbrev pub push_chunk : RingBuffer → Chunk → RingBuffer
push_chunk r chunk = record r {
  next = chunk.sequence;
  chunks = r.chunks ++ chunk ∷ [];
  bytes = r.bytes + length chunk.data_bytes;
}

-- `for len(data) > 0`, on fuel.
unfoldable pub split_loop : ℕ → RingBuffer → Text → List Chunk → Option (RingBuffer × List Chunk)
split_loop fuel r [] added = some (r, added)
split_loop zero r (b ∷ rest) added = none
split_loop (suc fuel) r (b ∷ rest) added =
    let chunk = next_chunk r (b ∷ rest) in
    split_loop fuel (push_chunk r chunk) (drop (piece r (b ∷ rest)) (b ∷ rest))
      (added ++ chunk ∷ [])

-- `for r.bytes > r.capacity && len(r.chunks) > 0`.
unfoldable pub evict_loop : ℕ → List Chunk → ℕ → List Chunk × ℕ
evict_loop capacity [] bytes = ([], bytes)
evict_loop capacity (c ∷ rest) bytes = elim (ltb capacity bytes) [
  | true ↦ evict_loop capacity rest (bytes - length c.data_bytes)
  | false ↦ (c ∷ rest, bytes)
]

unfoldable pub evict : RingBuffer → RingBuffer
unfolding evict_loop
evict r =
    let (chunks, bytes) = evict_loop r.capacity r.chunks r.bytes in
    record r { chunks = chunks; bytes = bytes }

abbrev pub finish_append : Option (RingBuffer × List Chunk) → Option (RingBuffer × List Chunk)
finish_append none = none
finish_append (some (r, added)) = some (evict r, added)

-- A round takes at least one byte, so the length of the data is fuel enough.
unfoldable pub append : RingBuffer → Text → Option (RingBuffer × List Chunk)
unfolding split_loop evict
append r [] = some (r, [])
append r (b ∷ rest) = finish_append (split_loop (length (b ∷ rest)) r (b ∷ rest) [])

unfoldable pub since : ℕ → List Chunk → List Chunk
since from [] = []
since from (c ∷ rest) = if slt c.sequence from then since from rest else c ∷ since from rest

replay_from : RingBuffer → Chunk → ℕ → Replay × Option Code
unfolding since
replay_from r oldest from =
    if slt from oldest.sequence
    then (
      record { chunks = r.chunks; truncated = true; next_sequence = inc64 r.next },
      some Code.replay_unavailable,
    )
    else (
      record { chunks = since from r.chunks; truncated = false; next_sequence = inc64 r.next },
      none,
    )

replay_retained : RingBuffer → List Chunk → ℕ → Replay × Option Code
unfolding replay_from
replay_retained r [] from =
    (record { chunks = []; truncated = false; next_sequence = inc64 r.next }, none)
replay_retained r (oldest ∷ _) from =
    replay_from r oldest (if from == 0 then oldest.sequence else from)

-- The result is returned beside the error, and is not empty in one case.
unfoldable pub replay : RingBuffer → ℕ → Replay × Option Code
unfolding replay_retained
replay r from =
    if slt from 0
    then (record { chunks = []; truncated = false; next_sequence = 0 }, some Code.invalid_argument)
    else replay_retained r r.chunks from

unfoldable pub snapshot : RingBuffer → Replay
unfolding replay
snapshot r = (replay r 0).0
