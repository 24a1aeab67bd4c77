-- ===== src/Scratch/Bounds.antt =====
-- The blocks of the scratch pool lie inside the allocation and apart from one another.
use reflex_llm.Base.{ℕ, ◌+◌, ◌≤◌, ◌≡◌, List, [], ◌∷◌, All, All-mono, arith}
use reflex_llm.Base.Int.{ℤ}
use reflex_llm.Scratch.{
  ScratchPool, align_256, get, reset, rewind_to, Op, gets, resets, rewinds, step, run, Block,
  keep_below, live_step, live,
}

abbrev pub IsValid : ScratchPool → Type 0
IsValid p = p.offset ≤ p.capacity

step-IsValid : (o : Op) (p : ScratchPool) → IsValid p → IsValid (step o p)
unfolding step get reset rewind_to
step-IsValid (gets size) p v = ground arith
step-IsValid resets p v = omega arith
step-IsValid (rewinds saved) p v = ground arith

-- The blocks lie in [lo, hi).
abbrev pub Within : ℕ → ℕ → List Block → Type 0
Within lo hi = All λ b. (lo ≤ b.start) × (b.start + b.size ≤ hi)

-- Newest first: each block ends before the newer ones begin.
abbrev pub Apart : List Block → Type 0
Apart [] = Unit {0}
Apart (b ∷ bs) = All (λ (c : Block). c.start + c.size ≤ b.start) bs × Apart bs

keep_below-All :
    (P : Block → Type 0) (top : ℕ) (bs : List Block) → All P bs → All P (keep_below top bs)
unfolding keep_below
keep_below-All P top [] h = tt
keep_below-All P top (b ∷ bs) h = ground (arith, keep_below-All P top bs h.1)

keep_below-Within :
    (lo hi top : ℕ) (bs : List Block) → Within lo hi bs → Within lo top (keep_below top bs)
unfolding keep_below
keep_below-Within lo hi top [] h = tt
keep_below-Within lo hi top (b ∷ bs) h = ground (arith, keep_below-Within lo hi top bs h.1)

keep_below-Apart : (top : ℕ) (bs : List Block) → Apart bs → Apart (keep_below top bs)
unfolding keep_below
keep_below-Apart top [] h = tt
keep_below-Apart top (b ∷ bs) h = ground (
  arith,
  keep_below-All (λ (c : Block). c.start + c.size ≤ b.start) top bs h.0,
  keep_below-Apart top bs h.1,
)

base-rewind_to : (saved : ℤ) (p : ScratchPool) → (rewind_to saved p).base ≡ p.base
unfolding rewind_to
base-rewind_to saved p = ground arith

pub record IsLive (p : ScratchPool) (bs : List Block) : Type 0 where
  pub valid : IsValid p
  pub within : Within p.base (p.base + p.offset) bs
  pub apart : Apart bs

-- Every block ends at or below the cursor.
ends : (lo hi : ℕ) (bs : List Block) → Within lo hi bs → All (λ b. b.start + b.size ≤ hi) bs
ends lo hi bs = All-mono _ _ bs (λ b h. h.1)

Within-mono : (lo hi top : ℕ) (bs : List Block) → hi ≤ top → Within lo hi bs → Within lo top bs
Within-mono lo hi top bs le = All-mono _ _ bs (λ b h. omega arith)

get-IsLive :
    (size : ℕ) (p : ScratchPool) (bs : List Block)
    → IsLive p bs
    → IsLive (step (gets size) p) (live_step (gets size) p bs)
unfolding step get live_step
get-IsLive size p bs v = ground (
  arith,
  ends p.base (p.base + p.offset) bs v.within,
  Within-mono p.base (p.base + p.offset) (p.base + (p.offset + align_256 size)) bs,
)

step-IsLive :
    (o : Op) (p : ScratchPool) (bs : List Block)
    → IsLive p bs
    → IsLive (step o p) (live_step o p bs)
unfolding step live_step reset
step-IsLive (gets size) p bs v = get-IsLive size p bs v
step-IsLive resets p bs v = record {
  valid = omega arith;
  within = keep_below-Within _ _ _ bs v.within;
  apart = keep_below-Apart _ bs v.apart;
}
step-IsLive (rewinds saved) p bs v = record {
  valid = step-IsValid (rewinds saved) p v.valid;
  within = rw (base-rewind_to saved p) (keep_below-Within _ _ _ bs v.within);
  apart = keep_below-Apart _ bs v.apart;
}

-- After any row of `get`, `reset` and `rewind_to` calls, with any sizes and any saved offsets, the
-- offset is within the capacity, and the blocks handed out and not given up since (by a cursor that
-- went below their end) lie inside [base, base + offset), no two of them sharing an address.
pub live-IsLive :
    (os : List Op) (p : ScratchPool) (bs : List Block)
    → IsLive p bs
    → IsLive (run os p) (live os p bs)
unfolding run live
live-IsLive [] p bs v = v
live-IsLive (o ∷ os) p bs v = live-IsLive os (step o p) (live_step o p bs) (step-IsLive o p bs v)
