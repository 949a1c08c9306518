-- ===== src/Runtime/Ring/Retention.antt =====
-- What `Append` retains.
use multi_agent_desk.Prelude.{
  ℕ, ◌+◌, ◌<◌, ◌≤◌, ◌≡◌, refl, ap, sym, ◌∙◌, ◌⊎◌, inl, inr, some, List, [], ◌∷◌, ◌++◌, length, All,
  sign_bit, Text, arith,
}
use mathlib.Core.Path.{subst, subst₂}
use mathlib.Core.List.{append-nil}
use multi_agent_desk.Runtime.Ring.{Chunk, RingBuffer, evict_loop, evict, append, finish_append}
use multi_agent_desk.Runtime.Ring.Invariant.{
  Runs, total, contents, Fits, Loaded, RingInv, contents-append, total-contents,
}
use multi_agent_desk.Runtime.Ring.Splitting.{split}
use multi_agent_desk.Runtime.Ring.Eviction.{Evicted, evicts, evict_loop-keeps, Runs-cut, All-cut}

-- What one `Append` does: the chunks `added` hold the data and follow the last one; `old` is
-- dropped.
pub record Appended (n : ℕ) (r : RingBuffer) (written : Text) : Type 0 where
  pub after : RingBuffer
  pub added : List Chunk
  pub old : List Chunk
  pub ends : append r written ≡ some (after, added)
  pub inv : RingInv (n + length old) after
  pub holds : contents added ≡ written
  pub follows : Runs r.next added after.next
  pub parts : r.chunks ++ added ≡ old ++ after.chunks
  pub needed : (old ≡ []) ⊎ (r.capacity < total after.chunks + r.chunk_size)
  pub same_capacity : after.capacity ≡ r.capacity
  pub little : after.next ≤ r.next + length written
  pub newest : total added ≤ r.capacity → (mid : List Chunk) × (after.chunks ≡ mid ++ added)

Evicted-RingInv :
    (n : ℕ) (r : RingBuffer) (w : Loaded n r) (e : Evicted r.capacity r.chunk_size r.bytes r.chunks)
    → RingInv (n + length e.old) (record r { chunks = e.kept; bytes = total e.kept })
Evicted-RingInv n r w e = record {
  loaded = record {
    chunked = w.chunked;
    roomy = w.roomy;
    runs = Runs-cut n r.next e.old e.kept (subst (λ l. Runs n l r.next) e.parts w.runs);
    fits =
        All-cut (Fits r.chunk_size) e.old e.kept (subst (All (Fits r.chunk_size)) e.parts w.fits);
    counted = refl;
  };
  bounded = e.fits;
}

evict-kept :
    (r : RingBuffer) (e : Evicted r.capacity r.chunk_size r.bytes r.chunks)
    → evict r ≡ record r { chunks = e.kept; bytes = total e.kept }
unfolding evict
evict-kept r e = rw e.ends

newest_kept :
    (before chunks kept fresh : List Chunk) (capacity bytes : ℕ)
    → chunks ≡ before ++ fresh
    → bytes ≡ total chunks
    → total fresh ≤ capacity
    → evict_loop capacity chunks bytes ≡ (kept, total kept)
    → (mid : List Chunk) × (kept ≡ mid ++ fresh)
newest_kept before chunks kept fresh capacity bytes grown counted small ends =
    let (mid, e) = evict_loop-keeps capacity bytes before fresh (rw (← grown) counted) small in
    let left : (evict_loop capacity chunks bytes).0 ≡ mid ++ fresh = rw grown e in
    (mid, sym (ap (λ (p : List Chunk × ℕ). p.0) ends) ∙ left)

pub appended :
    (n : ℕ) (r : RingBuffer) (written : Text)
    → RingInv n r
    → r.next + length written < sign_bit
    → Appended n r written
unfolding append
appended n r [] v room = record {
  after = r;
  added = [];
  old = [];
  ends = refl;
  inv = let e : n ≡ n + 0 = omega arith in subst (λ k. RingInv k r) e v;
  holds = refl;
  follows = refl;
  parts = append-nil r.chunks;
  needed = inl refl;
  same_capacity = refl;
  little = omega arith;
  newest = λ _. (r.chunks, sym (append-nil r.chunks));
}
appended n r (b ∷ rest) v room =
    let s = split n (length (b ∷ rest)) r (b ∷ rest) [] v.loaded room (omega arith) in
    let e =
      evicts s.after.capacity s.after.chunk_size s.after.bytes s.after.chunks s.loaded.counted
        s.loaded.fits in
    record {
      after = record (s.after) { chunks = e.kept; bytes = total e.kept };
      added = s.fresh;
      old = e.old;
      ends = ap finish_append s.ends ∙ ap (λ q. some (q, s.fresh)) (evict-kept s.after e);
      inv = Evicted-RingInv n s.after s.loaded e;
      holds = s.holds;
      follows = s.follows;
      parts = sym s.grown ∙ e.parts;
      needed =
          subst₂ (λ c z. (e.old ≡ []) ⊎ (c < total e.kept + z)) s.same_capacity s.same_chunk_size
            e.needed;
      same_capacity = s.same_capacity;
      little = s.little;
      newest = λ small.
          newest_kept r.chunks s.after.chunks e.kept s.fresh s.after.capacity s.after.bytes s.grown
            s.loaded.counted (rw s.same_capacity small) e.ends;
    }

-- Nothing is lost but what is dropped at the old end.
pub Appended-whole :
    {n : ℕ} {r : RingBuffer} {written : Text} (a : Appended n r written)
    → contents r.chunks ++ written ≡ contents a.old ++ contents a.after.chunks
Appended-whole {r} a =
    ap (λ w. contents r.chunks ++ w) (sym a.holds)
    ∙ sym (contents-append r.chunks a.added)
    ∙ ap contents a.parts
    ∙ contents-append a.old a.after.chunks

-- `Append` returns, and keeps the invariant. What is retained is a suffix of all the output, within
-- the quota; it is cut by no more than a chunk too much. The sequence numbers stay below 2^63.
pub append_retains :
    (n : ℕ) (r : RingBuffer) (written : Text)
    → RingInv n r
    → r.next + length written < sign_bit
    → (after : RingBuffer) × (added : List Chunk) × (dropped : Text) × (n' : ℕ) × (append r written
        ≡ some (after, added))
      × RingInv n' after
      × (contents added ≡ written)
      × (contents r.chunks ++ written ≡ dropped ++ contents after.chunks)
      × (length (contents after.chunks) ≤ r.capacity)
      × ((dropped ≡ []) ⊎ (r.capacity < length (contents after.chunks) + r.chunk_size))
append_retains n r written v room =
    let a = appended n r written v room in
    let counted = a.inv.loaded.counted in
    let sized = total-contents a.after.chunks in
    (
      a.after,
      a.added,
      contents a.old,
      n + length a.old,
      a.ends,
      a.inv,
      a.holds,
      Appended-whole a,
      omega (arith, a.inv.bounded, a.same_capacity),
      needed a.old a.after.chunks a.needed sized,
    )
  where
    needed :
        (old k : List Chunk)
        → (old ≡ []) ⊎ (r.capacity < total k + r.chunk_size)
        → total k ≡ length (contents k)
        → (contents old ≡ []) ⊎ (r.capacity < length (contents k) + r.chunk_size)
    needed old k (inl e) sized = inl (ap contents e)
    needed old k (inr h) sized = inr (omega arith)
