-- ===== src/Scratch.antt =====
-- include/jllm_memory.h `ScratchPool` and src/memory/pool.cpp: the bump allocator of the decode
-- buffers. Sizes are int64_t and not negative; `cudaMalloc` is an argument, the address that it
-- returns or `none` for an error.
pub mod Bounds
pub mod Marks
mod Tests
use reflex_llm.Base.{
  ℕ, suc, ◌+◌, ◌*◌, ◌/◌, Bool, true, false, ◌||◌, Option, none, some, List, [], ◌∷◌, ltb, leb,
  if◌then◌else◌,
}
use reflex_llm.Base.Int.{ℤ, pos, negsuc, pos_part, ltb_ℤ}

-- `base` 0 is `nullptr`.
pub record ScratchPool : Type 0 where
  pub base : ℕ
  pub capacity : ℕ
  pub offset : ℕ

pub init : Option ℕ → ℕ → ScratchPool → Bool × ScratchPool
init none size_bytes p = (false, p)
init (some base) size_bytes p = (true, record { base = base; capacity = size_bytes; offset = 0 })

pub destroy : ScratchPool → ScratchPool
destroy p = record { base = 0; capacity = 0; offset = 0 }

-- `(size + 255) & ~255`
abbrev pub align_256 : ℕ → ℕ
align_256 size = (size + 255) / 256 * 256

-- The pointer, or `none` for `nullptr` when the pool is exhausted.
pub get : ℕ → ScratchPool → Option ℕ × ScratchPool
get size p =
    if ltb p.capacity (p.offset + align_256 size)
    then (none, p)
    else (some (p.base + p.offset), record p { offset = p.offset + align_256 size })

pub reset : ScratchPool → ScratchPool
reset p = record p { offset = 0 }

pub mark : ScratchPool → ℤ
mark p = pos p.offset

pub rewind_to : ℤ → ScratchPool → ScratchPool
rewind_to saved p =
    if ltb_ℤ saved (pos 0) || ltb_ℤ (pos p.capacity) saved
    then p
    else record p { offset = pos_part saved }

-- What a decode step may do with the pool between two resets.
pub data Op : Type 0 where
  gets : ℕ → Op
  resets : Op
  rewinds : ℤ → Op

pub step : Op → ScratchPool → ScratchPool
step (gets size) p = (get size p).1
step resets p = reset p
step (rewinds saved) p = rewind_to saved p

pub run : List Op → ScratchPool → ScratchPool
run [] p = p
run (o ∷ os) p = run os (step o p)

-- A block that `get` handed out: its first address, and its rounded size.
pub record Block : Type 0 where
  pub start : ℕ
  pub size : ℕ

-- The blocks that are still below the cursor, newest first.
pub keep_below : ℕ → List Block → List Block
keep_below top [] = []
keep_below top (b ∷ bs) =
    if leb (b.start + b.size) top then b ∷ keep_below top bs else keep_below top bs

-- A block joins at its `get`; `reset` and `rewind_to` give up those that no longer lie below.
pub live_step : Op → ScratchPool → List Block → List Block
live_step (gets size) p bs = elim (get size p).0 [
  | none ↦ bs
  | some a ↦ record { start = a; size = align_256 size } ∷ bs
]
live_step resets p bs = keep_below (p.base + (reset p).offset) bs
live_step (rewinds saved) p bs = keep_below (p.base + (rewind_to saved p).offset) bs

pub live : List Op → ScratchPool → List Block → List Block
live [] p bs = bs
live (o ∷ os) p bs = live os (step o p) (live_step o p bs)

pub gets_all : List ℕ → ScratchPool → ScratchPool
gets_all [] p = p
gets_all (size ∷ sizes) p = gets_all sizes (get size p).1

-- How many of a row of `get` calls return a pointer.
pub granted : List ℕ → ScratchPool → ℕ
granted [] p = 0
granted (size ∷ sizes) p = elim (get size p).0 [
  | none ↦ granted sizes (get size p).1
  | some a ↦ suc (granted sizes (get size p).1)
]
