-- ===== src/Runtime/Ring/Invariant.antt =====
-- What holds of a ring between two calls, and in the loops of `Append`.
use multi_agent_desk.Prelude.{
  ℕ, suc, ◌+◌, ◌<◌, ◌≤◌, ◌≡◌, refl, ap, sym, ◌∙◌, List, [], ◌∷◌, ◌++◌, length, All, Text, arith,
  length-append,
}
use mathlib.Core.List.{append_assoc}
use multi_agent_desk.Runtime.Ring.{Chunk, RingBuffer}

-- The chunks are numbered `n + 1`, `n + 2`, … up to `next`.
abbrev pub Runs : ℕ → List Chunk → ℕ → Type 0
Runs n [] next = n ≡ next
Runs n (c ∷ rest) next = (c.sequence ≡ suc n) × Runs (suc n) rest next

abbrev pub total : List Chunk → ℕ
total [] = 0
total (c ∷ rest) = length c.data_bytes + total rest

-- The retained output.
abbrev pub contents : List Chunk → Text
contents [] = []
contents (c ∷ rest) = c.data_bytes ++ contents rest

abbrev pub Fits : ℕ → Chunk → Type 0
Fits size c = (0 < length c.data_bytes) × (length c.data_bytes ≤ size)

-- `n` chunks have been dropped so far. The last field fails only inside `Append`.
pub record Loaded (n : ℕ) (r : RingBuffer) : Type 0 where
  pub chunked : 0 < r.chunk_size
  pub roomy : r.chunk_size ≤ r.capacity
  pub runs : Runs n r.chunks r.next
  pub fits : All (Fits r.chunk_size) r.chunks
  pub counted : r.bytes ≡ total r.chunks

pub record RingInv (n : ℕ) (r : RingBuffer) : Type 0 where
  pub loaded : Loaded n r
  pub bounded : r.bytes ≤ r.capacity

pub total-append : (xs ys : List Chunk) → total (xs ++ ys) ≡ total xs + total ys
total-append [] ys = omega arith
total-append (x ∷ xs) ys = omega (arith, total-append xs ys)

pub contents-append : (xs ys : List Chunk) → contents (xs ++ ys) ≡ contents xs ++ contents ys
contents-append [] ys = refl
contents-append (x ∷ xs) ys =
    ap (λ r. x.data_bytes ++ r) (contents-append xs ys) ∙ sym (append_assoc x.data_bytes _ _)

pub total-contents : (xs : List Chunk) → total xs ≡ length (contents xs)
total-contents [] = refl
total-contents (x ∷ xs) = omega (arith, total-contents xs, length-append x.data_bytes (contents xs))

pub Runs-append : (n m k : ℕ) (xs ys : List Chunk) → Runs n xs m → Runs m ys k → Runs n (xs ++ ys) k
Runs-append n m k [] ys h g = rw h g
Runs-append n m k (x ∷ xs) ys (e, h) g = (e, Runs-append (suc n) m k xs ys h g)

pub Runs-le : (n m : ℕ) (xs : List Chunk) → Runs n xs m → n ≤ m
Runs-le n m [] h = omega arith
Runs-le n m (x ∷ xs) h = omega (arith, Runs-le (suc n) m xs h.1)

pub All-append : (P : Chunk → Type 0) (xs ys : List Chunk) → All P xs → All P ys → All P (xs ++ ys)
All-append P [] ys h g = g
All-append P (x ∷ xs) ys h g = (h.0, All-append P xs ys h.1 g)

pub Runs-length : (n m : ℕ) (xs : List Chunk) → Runs n xs m → n + length xs ≡ m
Runs-length n m [] h = omega arith
Runs-length n m (x ∷ xs) h = omega (arith, Runs-length (suc n) m xs h.1)
