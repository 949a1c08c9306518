-- ===== src/Runtime/Ring/Replays.antt =====
-- What `Replay` returns.
use multi_agent_desk.Prelude.{
  ℕ, suc, ◌+◌, ◌<◌, ◌≤◌, ◌≡◌, ◌≢◌, refl, ap, sym, none, some, List, [], ◌∷◌, true, false, ◌++◌,
  length, sign_bit, inc64, Text, arith, length-append,
}
use mathlib.Core.Path.{subst, subst₂}
use multi_agent_desk.Domain.Errors.{Code}
use multi_agent_desk.Runtime.Ring.{Chunk, RingBuffer, append, since, replay_retained, replay}
use multi_agent_desk.Runtime.Ring.Invariant.{
  Runs, contents, RingInv, Runs-le, Runs-length, total-contents,
}
use multi_agent_desk.Runtime.Ring.Retention.{appended}

-- Chunks numbered from `from` on are all returned.
since-all :
    (from n next : ℕ) (cs : List Chunk)
    → Runs n cs next
    → from ≤ suc n
    → next < sign_bit
    → since from cs ≡ cs
unfolding since
since-all from n next [] h le small = refl
since-all from n next (c ∷ cs) h le small =
    let bound = Runs-le (suc n) next cs h.1 in
    let rest = since-all from (suc n) next cs h.1 (omega arith) small in ground arith

-- Those before `from` are left out.
since-cut :
    (n next : ℕ) (old kept : List Chunk)
    → Runs n (old ++ kept) next
    → next + 1 < sign_bit
    → since (suc (n + length old)) (old ++ kept) ≡ kept
unfolding since
since-cut n next [] kept h small = since-all (suc (n + 0)) n next kept h (omega arith) (omega arith)
since-cut n next (c ∷ old) kept h small =
    let bound = Runs-le (suc n) next (old ++ kept) h.1 in
    let rest = since-cut (suc n) next old kept h.1 small in
    let e : suc n + length old ≡ n + suc (length old) = omega arith in
    let rest' : since (suc (n + suc (length old))) (old ++ kept) ≡ kept =
      subst (λ k. since (suc k) (old ++ kept) ≡ kept) e rest in
    let sized = Runs-length (suc n) next (old ++ kept) h.1 in
    let longer = length-append old kept in ground arith

-- The list in front is the ring's own: only its first number is looked at.
retained_from_boundary :
    (n : ℕ) (r : RingBuffer) (old kept : List Chunk)
    → Runs n (old ++ kept) r.next
    → r.next + 1 < sign_bit
    → r.chunks ≡ old ++ kept
    → replay_retained r (old ++ kept) (suc (n + length old))
      ≡ (record { chunks = kept; truncated = false; next_sequence = inc64 r.next }, none)
unfolding replay_retained
retained_from_boundary n r [] [] h small parts = refl
retained_from_boundary n r [] (c ∷ kept) h small parts =
    let bound = Runs-le (suc n) r.next kept h.1 in
    let all = since-cut n r.next [] (c ∷ kept) h small in rw parts (ground arith)
retained_from_boundary n r (c ∷ old) kept h small parts =
    let sized = Runs-length (suc n) r.next (old ++ kept) h.1 in
    let longer = length-append old kept in
    let cut = since-cut n r.next (c ∷ old) kept h small in rw parts (ground arith)

-- Whatever the retained chunks are cut into, a replay from the number of the second part's first
-- chunk returns that part, not truncated, while the sequence numbers are below 2^63.
pub replay_from_boundary :
    (n : ℕ) (r : RingBuffer) (old kept : List Chunk)
    → RingInv n r
    → r.next + 1 < sign_bit
    → r.chunks ≡ old ++ kept
    → replay r (suc (n + length old))
      ≡ (record { chunks = kept; truncated = false; next_sequence = inc64 r.next }, none)
unfolding replay
replay_from_boundary n r old kept v small parts =
    let runs : Runs n (old ++ kept) r.next = subst (λ l. Runs n l r.next) parts v.loaded.runs in
    let sized = Runs-length n r.next (old ++ kept) runs in
    let longer = length-append old kept in
    let inner = retained_from_boundary n r old kept runs small parts in
    let inner' : replay_retained r r.chunks (suc (n + length old))
        ≡ (record { chunks = kept; truncated = false; next_sequence = inc64 r.next }, none) =
      subst
        (λ l.
          replay_retained r l (suc (n + length old))
          ≡ (record { chunks = kept; truncated = false; next_sequence = inc64 r.next }, none))
        (sym parts) inner in
    ground arith

-- An observer that has seen every chunk so far and replays from the next number gets exactly the
-- chunks of the next `Append`: none is missing and none comes twice, if the data fits the quota and
-- the sequence numbers stay below 2^63.
pub replay_after_append :
    (n : ℕ) (r : RingBuffer) (written : Text) (after : RingBuffer) (added : List Chunk)
    → RingInv n r
    → r.next + length written + 1 < sign_bit
    → length written ≤ r.capacity
    → append r written ≡ some (after, added)
    → replay after (inc64 r.next)
      ≡ (record { chunks = added; truncated = false; next_sequence = inc64 after.next }, none)
replay_after_append n r written after added v room small h =
    let a = appended n r written v (omega arith) in
    let same : a.after ≡ after = cc a.ends in
    let same' : a.added ≡ added = cc a.ends in
    let sized = total-contents a.added in
    let held : length (contents a.added) ≡ length written = ap length a.holds in
    let (mid, parts) = a.newest (omega arith) in
    let runs = Runs-length n r.next r.chunks v.loaded.runs in
    let lengths : length (r.chunks ++ a.added) ≡ length (a.old ++ a.after.chunks) =
      ap length a.parts in
    let left = length-append r.chunks a.added in
    let right = length-append a.old a.after.chunks in
    let kept : length a.after.chunks ≡ length (mid ++ a.added) = ap length parts in
    let cut = length-append mid a.added in
    let next : suc (n + length a.old + length mid) ≡ inc64 r.next = omega (arith, a.little) in
    let done =
      replay_from_boundary (n + length a.old) a.after mid a.added a.inv (omega (arith, a.little))
        parts in
    let there : replay a.after (inc64 r.next) ≡ (
      record { chunks = a.added; truncated = false; next_sequence = inc64 a.after.next },
      none,
    ) =
      subst
        (λ k. replay a.after k ≡ (
          record { chunks = a.added; truncated = false; next_sequence = inc64 a.after.next },
          none,
        ))
        next done in
    subst₂
      (λ q l.
        replay q (inc64 r.next)
        ≡ (record { chunks = l; truncated = false; next_sequence = inc64 q.next }, none))
      same same' there

retained_dropped :
    (n : ℕ) (r : RingBuffer) (from : ℕ) (cs : List Chunk)
    → Runs n cs r.next
    → r.next < sign_bit
    → cs ≢ []
    → 0 < from
    → from ≤ n
    → replay_retained r cs from ≡ (
      record { chunks = r.chunks; truncated = true; next_sequence = inc64 r.next },
      some Code.replay_unavailable,
    )
unfolding replay_retained
retained_dropped n r from [] h small some_chunks positive gone = absurd (some_chunks refl)
retained_dropped n r from (c ∷ cs) h small some_chunks positive gone =
    let bound = Runs-le (suc n) r.next cs h.1 in ground arith

-- A positive number that is no longer retained is refused, and all that is retained, which is
-- something, comes with the error, while the sequence numbers are below 2^63.
pub replay_dropped :
    (n : ℕ) (r : RingBuffer) (from : ℕ)
    → RingInv n r
    → r.next < sign_bit
    → r.chunks ≢ []
    → 0 < from
    → from ≤ n
    → replay r from ≡ (
      record { chunks = r.chunks; truncated = true; next_sequence = inc64 r.next },
      some Code.replay_unavailable,
    )
unfolding replay
replay_dropped n r from v small some_chunks positive gone =
    let bound = Runs-le n r.next r.chunks v.loaded.runs in
    let inner = retained_dropped n r from r.chunks v.loaded.runs small some_chunks positive gone in
    ground arith
