-- ===== src/Runtime/Ring/Splitting.antt =====
-- The first loop of `Append` ends, and cuts its data into chunks that follow the retained ones.
use multi_agent_desk.Prelude.{
  ℕ, zero, suc, ◌+◌, ◌<◌, ◌≤◌, ◌≡◌, refl, ap, sym, ◌∙◌, some, List, [], ◌∷◌, ◌++◌, length, drop,
  sign_bit, inc64, Text, arith, length-drop, length-take_le, take-append-drop,
}
use mathlib.Core.Path.{subst}
use mathlib.Core.List.{append-nil, append_assoc}
use multi_agent_desk.Runtime.Ring.{Chunk, RingBuffer, piece, next_chunk, push_chunk, split_loop}
use multi_agent_desk.Runtime.Ring.Invariant.{
  Runs, contents, Fits, Loaded, total-append, Runs-append, All-append,
}

-- What the loop leaves: the ring with the chunks `fresh` behind the old ones, which hold `rest`.
pub record Split (n fuel : ℕ) (r : RingBuffer) (rest : Text) (added : List Chunk) : Type 0 where
  pub after : RingBuffer
  pub fresh : List Chunk
  pub ends : split_loop fuel r rest added ≡ some (after, added ++ fresh)
  pub loaded : Loaded n after
  pub grown : after.chunks ≡ r.chunks ++ fresh
  pub follows : Runs r.next fresh after.next
  pub holds : contents fresh ≡ rest
  pub same_capacity : after.capacity ≡ r.capacity
  pub same_chunk_size : after.chunk_size ≡ r.chunk_size
  pub little : after.next ≤ r.next + length rest

piece_bounds :
    (r : RingBuffer) (b : ℕ) (rest : Text)
    → 0 < r.chunk_size
    → (0 < piece r (b ∷ rest))
      × (piece r (b ∷ rest) ≤ length (b ∷ rest))
      × (piece r (b ∷ rest) ≤ r.chunk_size)
piece_bounds r b rest h = ground arith

inc64-suc : (n : ℕ) → n < sign_bit → inc64 n ≡ suc n
inc64-suc n h = omega arith

module _ (n : ℕ) (r : RingBuffer) (b : ℕ) (rest : Text) (w : Loaded n r)
    (room : r.next + length (b ∷ rest) < sign_bit) where
  chunk_length : length (next_chunk r (b ∷ rest)).data_bytes ≡ piece r (b ∷ rest)
  chunk_length = length-take_le (piece r (b ∷ rest)) (b ∷ rest) (piece_bounds r b rest w.chunked).1

  numbered : (next_chunk r (b ∷ rest)).sequence ≡ suc r.next
  numbered = inc64-suc r.next (omega arith)

  push-Loaded : Loaded n (push_chunk r (next_chunk r (b ∷ rest)))
  push-Loaded =
      let chunk = next_chunk r (b ∷ rest) in
      let bounds = piece_bounds r b rest w.chunked in
      record {
        chunked = w.chunked;
        roomy = w.roomy;
        runs = Runs-append n r.next _ r.chunks (chunk ∷ []) w.runs (numbered, sym numbered);
        fits =
            All-append (Fits r.chunk_size) r.chunks (chunk ∷ []) w.fits
              ((omega (arith, chunk_length), omega (arith, chunk_length)), tt);
        counted = omega (arith, total-append r.chunks (chunk ∷ []), w.counted);
      }

Split-nil :
    (n fuel : ℕ) (r : RingBuffer) (added : List Chunk)
    → Loaded n r
    → split_loop fuel r [] added ≡ some (r, added)
    → Split n fuel r [] added
Split-nil n fuel r added w ends = record {
  after = r;
  fresh = [];
  ends = ends ∙ ap (λ l. some (r, l)) (sym (append-nil added));
  loaded = w;
  grown = sym (append-nil r.chunks);
  follows = refl;
  holds = refl;
  same_capacity = refl;
  same_chunk_size = refl;
  little = omega arith;
}

-- With fuel for each byte, and numbers left, the loop ends.
pub split :
    (n fuel : ℕ) (r : RingBuffer) (rest : Text) (added : List Chunk)
    → Loaded n r
    → r.next + length rest < sign_bit
    → length rest ≤ fuel
    → Split n fuel r rest added
unfolding split_loop
split n zero r [] added w room enough = Split-nil n zero r added w refl
split n (suc fuel) r [] added w room enough = Split-nil n (suc fuel) r added w refl
split n zero r (b ∷ rest) added w room enough = absurd (omega arith)
split n (suc fuel) r (b ∷ rest) added w room enough =
    let chunk = next_chunk r (b ∷ rest) in
    let later = drop (piece r (b ∷ rest)) (b ∷ rest) in
    let bounds = piece_bounds r b rest w.chunked in
    let shorter = length-drop (piece r (b ∷ rest)) (b ∷ rest) in
    let s =
      split n fuel (push_chunk r chunk) later (added ++ chunk ∷ []) (push-Loaded n r b rest w room)
        (omega (arith, numbered n r b rest w room)) (omega arith) in
    record {
      after = s.after;
      fresh = chunk ∷ s.fresh;
      ends = s.ends ∙ ap (λ l. some (s.after, l)) (append_assoc added (chunk ∷ []) s.fresh);
      loaded = s.loaded;
      grown = s.grown ∙ append_assoc r.chunks (chunk ∷ []) s.fresh;
      follows = (
        numbered n r b rest w room,
        subst (λ k. Runs k s.fresh s.after.next) (numbered n r b rest w room) s.follows,
      );
      holds =
          ap (λ l. chunk.data_bytes ++ l) s.holds
          ∙ take-append-drop (piece r (b ∷ rest)) (b ∷ rest);
      same_capacity = s.same_capacity;
      same_chunk_size = s.same_chunk_size;
      little = omega (arith, numbered n r b rest w room, s.little);
    }
