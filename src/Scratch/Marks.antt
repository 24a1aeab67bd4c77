-- ===== src/Scratch/Marks.antt =====
-- `mark` and `rewind_to`, and when a row of `get` calls is granted.
use reflex_llm.Base.{ℕ, ◌+◌, ◌≤◌, ◌≡◌, List, [], ◌∷◌, length, arith, refl}
use reflex_llm.Scratch.{ScratchPool, align_256, get, mark, rewind_to, gets_all, granted}
use reflex_llm.Scratch.Bounds.{IsValid}

get_keeps :
    (size : ℕ) (p : ScratchPool)
    → let q = (get size p).1 in
      (q.base ≡ p.base) × (q.capacity ≡ p.capacity) × (p.offset ≤ q.offset)
unfolding get
get_keeps size p = ground arith

gets_all_keeps :
    (sizes : List ℕ) (p : ScratchPool)
    → let q = gets_all sizes p in
      (q.base ≡ p.base) × (q.capacity ≡ p.capacity) × (p.offset ≤ q.offset)
unfolding gets_all
gets_all_keeps [] p = ground arith
gets_all_keeps (size ∷ sizes) p =
    ground (arith, get_keeps size p, gets_all_keeps sizes (get size p).1)

-- A mark that is taken in a valid pool brings it back exactly: after any row of `get` calls, granted
-- or refused, `rewind_to` at the mark gives the pool as it was.
pub rewind_to-mark :
    (sizes : List ℕ) (p : ScratchPool) → IsValid p → rewind_to (mark p) (gets_all sizes p) ≡ p
unfolding rewind_to mark
rewind_to-mark sizes p v = ground (arith, gets_all_keeps sizes p)

abbrev pub total : List ℕ → ℕ
total [] = 0
total (size ∷ sizes) = align_256 size + total sizes

granted-le : (sizes : List ℕ) (p : ScratchPool) → granted sizes p ≤ length sizes
unfolding granted
granted-le [] p = omega arith
granted-le (size ∷ sizes) p = ground (arith, granted-le sizes (get size p).1)

granted_fits :
    (sizes : List ℕ) (p : ScratchPool)
    → p.offset + total sizes ≤ p.capacity
    → granted sizes p ≡ length sizes
unfolding granted get
granted_fits [] p h = refl
granted_fits (size ∷ sizes) p h = ground (arith, granted_fits sizes (get size p).1)

fits_granted :
    (sizes : List ℕ) (p : ScratchPool)
    → IsValid p
    → granted sizes p ≡ length sizes
    → p.offset + total sizes ≤ p.capacity
unfolding granted get
fits_granted [] p v h = omega arith
fits_granted (size ∷ sizes) p v h =
    ground (arith, granted-le sizes (get size p).1, fits_granted sizes (get size p).1)

-- In a valid pool a row of `get` calls is granted in full exactly when the sizes, each rounded up to
-- 256 bytes, fit together between the cursor and the capacity.
pub granted_iff :
    (sizes : List ℕ) (p : ScratchPool)
    → IsValid p
    → ((granted sizes p ≡ length sizes) → p.offset + total sizes ≤ p.capacity)
      × (p.offset + total sizes ≤ p.capacity → granted sizes p ≡ length sizes)
granted_iff sizes p v = (fits_granted sizes p v, granted_fits sizes p)
