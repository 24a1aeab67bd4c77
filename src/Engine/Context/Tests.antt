-- ===== src/Engine/Context/Tests.antt =====
-- Tests of the choice of the context on a board with 8 GB, and its theorem there.
use reflex_llm.Base.{◌*◌, ◌≤◌, ◌≡◌, refl, ◌⊎◌, true, some, codes, same_bytes, arith}
use reflex_llm.Base.Int.{pos, negsuc, ◌≤ℤ◌}
use reflex_llm.KvCache.{entry_bytes}
use reflex_llm.Gguf.Config.{int_of}
use reflex_llm.Engine.Context.{
  MemoryBudget, max_kv_mb, max_context, context, kv_overflow_context, load_context, kv_cfg,
  load_context-Fits,
}

abbrev orin : MemoryBudget
orin = record {
  total_mb = pos 7633;
  os_mb = pos 1500;
  cma_mb = pos 256;
  cuda_ctx_mb = pos 300;
  model_mb = pos 2300;
  scratch_mb = pos 0;
  safety_mb = pos 256;
}

left_for_cache : max_kv_mb orin ≡ pos 3021
unfolding max_kv_mb
left_for_cache = refl

-- A model of 36 layers with 8 heads of 128: the cap for long heads.
capped : load_context orin 36 8 128 true (pos 0) (pos 40960) ≡ pos 4096
unfolding load_context context max_context max_kv_mb int_of
capped = refl

asked_for : load_context orin 36 8 128 true (pos 100000) (pos 40960) ≡ pos 40960
unfolding load_context context max_context max_kv_mb int_of
asked_for = refl

-- A budget that is used up gives a context below zero.
used_up :
    load_context (record orin { model_mb = pos 7000 }) 36 8 128 true (pos 0) (pos 40960)
    ≡ negsuc 23878
unfolding load_context context max_context max_kv_mb int_of
used_up = refl

quarter : kv_overflow_context (λ _. pos 7) (some (codes "1")) 4096 ≡ 1024
unfolding kv_overflow_context same_bytes
quarter = refl

load_context-Fits_example :
    (36 * 4096 * entry_bytes (kv_cfg orin 36 8 128 true 4096 0) ≤ 3021 * 1048576)
    × (pos 4096 ≤ℤ pos 40960)
    × ((pos 4096 ≤ℤ pos 0) ⊎ ((pos 0 ≤ℤ pos 0) × (pos 4096 ≤ℤ pos 8192)))
load_context-Fits_example =
    load_context-Fits orin 36 8 128 true (pos 0) (pos 40960) 3021 4096 0 left_for_cache
      (omega arith) capped
