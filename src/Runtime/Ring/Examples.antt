-- ===== src/Runtime/Ring/Examples.antt =====
-- The theorems about the ring at small rings.
use multi_agent_desk.Prelude.{
  ℕ, ◌+◌, ◌<◌, ◌≤◌, ◌≡◌, refl, ◌⊎◌, none, some, List, [], ◌∷◌, ◌++◌, true, false, length, Text,
  arith, bytes,
}
use multi_agent_desk.Domain.Errors.{Code, ok}
use multi_agent_desk.Runtime.Ring.{Chunk, RingBuffer, new_ring_buffer, append, replay}
use multi_agent_desk.Runtime.Ring.Invariant.{contents, RingInv}
use multi_agent_desk.Runtime.Ring.Retention.{append_retains}
use multi_agent_desk.Runtime.Ring.Replays.{
  replay_after_append, replay_from_boundary, replay_dropped,
}
use multi_agent_desk.Runtime.Ring.History.{append_all, append_all_retains}

-- Eight bytes in chunks of three.
abbrev small_ring : RingBuffer
small_ring = record { capacity = 8; chunk_size = 3; chunks = []; bytes = 0; next = 0 }

made : new_ring_buffer 8 3 ≡ ok small_ring
unfolding new_ring_buffer
made = refl

abbrev chunk : ℕ → Text → Chunk
chunk sequence written = record { sequence = sequence; data_bytes = written; truncated = false }

-- After "abcd" and "efgh": the first chunk would still fit, the quota is just met.
abbrev full_ring : RingBuffer
full_ring = record {
  capacity = 8;
  chunk_size = 3;
  chunks =
      chunk 1 (bytes "abc")
      ∷ chunk 2 (bytes "d")
      ∷ chunk 3 (bytes "efg")
      ∷ chunk 4 (bytes "h")
      ∷ [];
  bytes = 8;
  next = 4;
}

full-RingInv : RingInv 0 full_ring
full-RingInv = record {
  loaded = record {
    chunked = omega arith;
    roomy = omega arith;
    runs = omega arith;
    fits = omega arith;
    counted = refl;
  };
  bounded = omega arith;
}

abbrev last_chunks : List Chunk
last_chunks = chunk 3 (bytes "efg") ∷ chunk 4 (bytes "h") ∷ chunk 5 (bytes "xy") ∷ []

-- After "xy" the first chunk is gone.
abbrev turned_ring : RingBuffer
turned_ring = record {
  capacity = 8;
  chunk_size = 3;
  chunks = chunk 2 (bytes "d") ∷ last_chunks;
  bytes = 7;
  next = 5;
}

turned-RingInv : RingInv 1 turned_ring
turned-RingInv = record {
  loaded = record {
    chunked = omega arith;
    roomy = omega arith;
    runs = omega arith;
    fits = omega arith;
    counted = refl;
  };
  bounded = omega arith;
}

turns : append full_ring (bytes "xy") ≡ some (turned_ring, chunk 5 (bytes "xy") ∷ [])
unfolding append
turns = refl

append_retains_example :
    (after : RingBuffer) × (added : List Chunk) × (dropped : Text) × (n' : ℕ) × (append full_ring
        (bytes "xy")
      ≡ some (after, added))
    × RingInv n' after
    × (contents added ≡ bytes "xy")
    × (contents full_ring.chunks ++ bytes "xy" ≡ dropped ++ contents after.chunks)
    × (length (contents after.chunks) ≤ 8)
    × ((dropped ≡ []) ⊎ (8 < length (contents after.chunks) + 3))
append_retains_example = append_retains 0 full_ring (bytes "xy") full-RingInv (omega arith)

replay_after_append_example :
    replay turned_ring 5
    ≡ (record { chunks = chunk 5 (bytes "xy") ∷ []; truncated = false; next_sequence = 6 }, none)
replay_after_append_example =
    replay_after_append 0 full_ring (bytes "xy") turned_ring (chunk 5 (bytes "xy") ∷ [])
      full-RingInv (omega arith) (omega arith) turns

replay_from_boundary_example :
    replay turned_ring 3
    ≡ (record { chunks = last_chunks; truncated = false; next_sequence = 6 }, none)
replay_from_boundary_example =
    replay_from_boundary 1 turned_ring (chunk 2 (bytes "d") ∷ []) last_chunks turned-RingInv
      (omega arith) refl

replay_dropped_example : replay turned_ring 1 ≡ (
  record { chunks = turned_ring.chunks; truncated = true; next_sequence = 6 },
  some Code.replay_unavailable,
)
replay_dropped_example =
    replay_dropped 1 turned_ring 1 turned-RingInv (omega arith) (λ e. cc) (omega arith)
      (omega arith)

append_all_retains_example :
    (final : RingBuffer) × (dropped : Text) × (append_all small_ring
        (bytes "abcd" ∷ bytes "efgh" ∷ bytes "xy" ∷ [])
      ≡ some final)
    × (bytes "abcdefghxy" ≡ dropped ++ contents final.chunks)
    × (length (contents final.chunks) ≤ 8)
append_all_retains_example =
    append_all_retains 8 3 small_ring (bytes "abcd" ∷ bytes "efgh" ∷ bytes "xy" ∷ []) made
      (omega arith)
