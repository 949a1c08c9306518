-- ===== src/Runtime/Ring/History.antt =====
-- A ring against the whole output that was ever appended to it.
use multi_agent_desk.Prelude.{
  ℕ, ◌+◌, ◌<◌, ◌≤◌, ◌≡◌, refl, ap, sym, ◌∙◌, Option, none, some, List, [], ◌∷◌, ◌++◌, length,
  sign_bit, Text, arith, length-append,
}
use mathlib.Core.List.{append-nil, append_assoc}
use multi_agent_desk.Domain.Errors.{ok}
use multi_agent_desk.Runtime.Ring.{Chunk, RingBuffer, new_ring_buffer, append}
use multi_agent_desk.Runtime.Ring.Invariant.{contents, RingInv, total-contents}
use multi_agent_desk.Runtime.Ring.Retention.{appended, Appended-whole}

-- `Append` after `Append`.
abbrev pub next_append :
    Option (RingBuffer × List Chunk) → (RingBuffer → Option RingBuffer) → Option RingBuffer
next_append none k = none
next_append (some (r, _)) k = k r

unfoldable pub append_all : RingBuffer → List Text → Option RingBuffer
append_all r [] = some r
append_all r (w ∷ writes) = next_append (append r w) (λ r'. append_all r' writes)

abbrev pub output : List Text → Text
output [] = []
output (w ∷ writes) = w ++ output writes

-- A new ring is empty, and its bounds are in order.
pub new-RingInv :
    (capacity chunk_size : ℕ) {r : RingBuffer}
    → new_ring_buffer capacity chunk_size ≡ ok r
    → RingInv 0 r × (r.chunks ≡ []) × (r.next ≡ 0) × (r.capacity ≡ capacity)
unfolding new_ring_buffer
new-RingInv capacity chunk_size h = ground arith

record Retained (r : RingBuffer) (writes : List Text) : Type 0 where
  final : RingBuffer
  dropped : Text
  n : ℕ
  ends : append_all r writes ≡ some final
  inv : RingInv n final
  suffix : contents r.chunks ++ output writes ≡ dropped ++ contents final.chunks
  same_capacity : final.capacity ≡ r.capacity

retained :
    (n : ℕ) (r : RingBuffer) (writes : List Text)
    → RingInv n r
    → r.next + length (output writes) < sign_bit
    → Retained r writes
unfolding append_all
retained n r [] v room = record {
  final = r;
  dropped = [];
  n = n;
  ends = refl;
  inv = v;
  suffix = append-nil (contents r.chunks);
  same_capacity = refl;
}
retained n r (w ∷ writes) v room =
    let longer = length-append w (output writes) in
    let a = appended n r w v (omega arith) in
    let rest = retained (n + length a.old) a.after writes a.inv (omega (arith, a.little)) in
    record {
      final = rest.final;
      dropped = contents a.old ++ rest.dropped;
      n = rest.n;
      ends = ap (λ o. next_append o (λ r'. append_all r' writes)) a.ends ∙ rest.ends;
      inv = rest.inv;
      suffix =
          sym (append_assoc (contents r.chunks) w (output writes))
          ∙ ap (λ c. c ++ output writes) (Appended-whole a)
          ∙ append_assoc (contents a.old) (contents a.after.chunks) (output writes)
          ∙ ap (λ c. contents a.old ++ c) rest.suffix
          ∙ sym (append_assoc (contents a.old) rest.dropped (contents rest.final.chunks));
      same_capacity = rest.same_capacity ∙ a.same_capacity;
    }

-- A ring retains a suffix of all that was appended since it was made, at most its capacity.
pub append_all_retains :
    (capacity chunk_size : ℕ) (r : RingBuffer) (writes : List Text)
    → new_ring_buffer capacity chunk_size ≡ ok r
    → length (output writes) < sign_bit
    → (final : RingBuffer) × (dropped : Text) × (append_all r writes ≡ some final)
      × (output writes ≡ dropped ++ contents final.chunks)
      × (length (contents final.chunks) ≤ capacity)
append_all_retains capacity chunk_size r writes made room =
    let (v, empty, start, cap) = new-RingInv capacity chunk_size made in
    let h = retained 0 r writes v (omega arith) in
    let sized = total-contents h.final.chunks in
    let none_yet : contents r.chunks ≡ [] = ap contents empty in
    (
      h.final,
      h.dropped,
      h.ends,
      ap (λ c. c ++ output writes) (sym none_yet) ∙ h.suffix,
      omega (arith, h.inv.bounded, h.inv.loaded.counted, h.same_capacity),
    )
