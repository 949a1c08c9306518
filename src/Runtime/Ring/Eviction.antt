-- ===== src/Runtime/Ring/Eviction.antt =====
-- The second loop of `Append` drops the oldest chunks, as few as the quota asks.
use multi_agent_desk.Prelude.{
  ℕ, suc, ◌+◌, ◌-◌, ◌<◌, ◌≤◌, ◌≡◌, refl, ap, ◌⊎◌, inl, inr, List, [], ◌∷◌, ◌++◌, ltb, length, All,
  arith, Bool-cases,
}
use mathlib.Core.Path.{subst}
use multi_agent_desk.Runtime.Ring.{Chunk, evict_loop}
use multi_agent_desk.Runtime.Ring.Invariant.{Runs, total, Fits}

-- `old` is dropped and `kept` stays; the newest of `old` did not fit beside `kept`.
pub record Evicted (capacity size bytes : ℕ) (chunks : List Chunk) : Type 0 where
  pub old : List Chunk
  pub kept : List Chunk
  pub ends : evict_loop capacity chunks bytes ≡ (kept, total kept)
  pub parts : chunks ≡ old ++ kept
  pub fits : total kept ≤ capacity
  pub needed : (old ≡ []) ⊎ (capacity < total kept + size)

evicts-needed :
    (capacity size len : ℕ) (old kept rest : List Chunk)
    → rest ≡ old ++ kept
    → capacity < len + total rest
    → len ≤ size
    → (old ≡ []) ⊎ (capacity < total kept + size)
    → capacity < total kept + size
evicts-needed capacity size len old kept rest parts over small (inl none_old) =
    let same : rest ≡ kept = rw none_old at parts in
    let totals : total rest ≡ total kept = ap total same in omega arith
evicts-needed capacity size len old kept rest parts over small (inr needed) = needed

pub evicts :
    (capacity size bytes : ℕ) (chunks : List Chunk)
    → bytes ≡ total chunks
    → All (Fits size) chunks
    → Evicted capacity size bytes chunks
unfolding evict_loop
evicts capacity size bytes [] counted fit = record {
  old = [];
  kept = [];
  ends = ap (λ b. ([], b)) counted;
  parts = refl;
  fits = omega arith;
  needed = inl refl;
}
evicts capacity size bytes (c ∷ rest) counted fit = elim (Bool-cases (ltb capacity bytes)) [
  | inl over ↦
      let e = evicts capacity size (bytes - length c.data_bytes) rest (omega arith) fit.1 in
      record {
        old = c ∷ e.old;
        kept = e.kept;
        ends = rw (over, evict_loop) e.ends;
        parts = ap (λ l. c ∷ l) e.parts;
        fits = e.fits;
        needed = inr (
            evicts-needed capacity size (length c.data_bytes) e.old e.kept rest e.parts
              (ground arith) fit.0.1 e.needed);
      }
  | inr under ↦ record {
    old = [];
    kept = c ∷ rest;
    ends = rw (under, evict_loop) (ap (λ b. (c ∷ rest, b)) counted);
    parts = refl;
    fits = ground arith;
    needed = inl refl;
  }
]

-- A run that is cut in two: the second part starts where the first ends.
pub Runs-cut :
    (n next : ℕ) (old kept : List Chunk)
    → Runs n (old ++ kept) next
    → Runs (n + length old) kept next
Runs-cut n next [] kept h = let e : n ≡ n + 0 = omega arith in subst (λ k. Runs k kept next) e h
Runs-cut n next (c ∷ old) kept h =
    let e : suc n + length old ≡ n + suc (length old) = omega arith in
    subst (λ k. Runs k kept next) e (Runs-cut (suc n) next old kept h.1)

pub All-cut : (P : Chunk → Type 0) (old kept : List Chunk) → All P (old ++ kept) → All P kept
All-cut P [] kept h = h
All-cut P (c ∷ old) kept h = All-cut P old kept h.1

-- The newest chunks stay, if they alone fit the quota.
pub evict_loop-keeps :
    (capacity bytes : ℕ) (xs ys : List Chunk)
    → bytes ≡ total (xs ++ ys)
    → total ys ≤ capacity
    → (mid : List Chunk) × ((evict_loop capacity (xs ++ ys) bytes).0 ≡ mid ++ ys)
unfolding evict_loop
evict_loop-keeps capacity bytes [] [] counted fit = ([], refl)
evict_loop-keeps capacity bytes [] (y ∷ ys) counted fit = ([], ground arith)
evict_loop-keeps capacity bytes (x ∷ xs) ys counted fit = elim (Bool-cases (ltb capacity bytes)) [
  | inl over ↦
      let (mid, e) =
        evict_loop-keeps capacity (bytes - length x.data_bytes) xs ys (omega arith) fit in
      (mid, rw (over, evict_loop) e)
  | inr under ↦ (x ∷ xs, rw (under, evict_loop) refl)
]
