-- ===== src/Scratch/Tests.antt =====
-- Tests of the scratch pool, and its theorems at concrete pools.
use reflex_llm.Base.{◌≡◌, refl, List, [], ◌∷◌, some, none, false, arith}
use reflex_llm.Base.Int.{pos, negsuc}
use reflex_llm.Scratch.{
  ScratchPool, init, get, reset, mark, rewind_to, Op, gets, rewinds, step, run, keep_below,
  live_step, live, gets_all,
}
use reflex_llm.Scratch.Bounds.{IsLive, live-IsLive}
use reflex_llm.Scratch.Marks.{rewind_to-mark}

abbrev pool : ScratchPool
pool = record { base = 4096; capacity = 1024; offset = 0 }

abbrev script : List Op
script = gets 100 ∷ gets 300 ∷ rewinds (pos 256) ∷ gets 10 ∷ gets 900 ∷ rewinds (negsuc 0) ∷ []

get_rounds_up : get 100 pool ≡ (some 4096, record pool { offset = 256 })
unfolding get
get_rounds_up = refl

get_exhausted : (get 1025 pool).0 ≡ none
unfolding get
get_exhausted = refl

init_fails : init none 64 pool ≡ (false, pool)
unfolding init
init_fails = refl

live-script :
    live script pool []
    ≡ record { start = 4352; size = 256 } ∷ record { start = 4096; size = 256 } ∷ []
unfolding live live_step keep_below step get reset rewind_to
live-script = refl

pool-IsLive : IsLive pool []
pool-IsLive = record { valid = omega arith; within = tt; apart = tt }

live-IsLive_example : IsLive (run script pool) (live script pool [])
live-IsLive_example = live-IsLive script pool [] pool-IsLive

rewind_to-mark_example : rewind_to (mark pool) (gets_all (100 ∷ 2000 ∷ 300 ∷ []) pool) ≡ pool
rewind_to-mark_example = rewind_to-mark (100 ∷ 2000 ∷ 300 ∷ []) pool (omega arith)
