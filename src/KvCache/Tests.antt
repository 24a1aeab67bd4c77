-- ===== src/KvCache/Tests.antt =====
-- Tests of the KV cache, and its theorems at a pool of two layers and six positions.
use reflex_llm.Base.{ℕ, ◌≡◌, refl, some, Bool, true, arith}
use reflex_llm.Base.Int.{pos}
use reflex_llm.KvCache.{
  Mem, Outcomes, init, zeros, memcpy, for_layers, Config, KvCachePool, entry_bytes, key_ptr,
  val_ptr, gpu, cpu, evict, gather_layer, gather_used_to_host, scatter_from_host,
}
use reflex_llm.KvCache.Layout.{ptr, shift, InPools, ptr-InPools, ptr_injective}
use reflex_llm.KvCache.Scales.{HasScales}
use reflex_llm.KvCache.RoundTrip.{scatter-gather}
use reflex_llm.KvCache.Init.{IsReady, init-IsReady}
use reflex_llm.KvCache.Evict.{byte_at, evict-val-is-key}

abbrev tiny : Config
tiny = record {
  n_layers = 2;
  n_kv_heads = 1;
  head_dim = 2;
  max_context = 4;
  overflow_context = 2;
  kv_type_bytes = 1;
}

-- Byte `a` of the pool is `a` itself.
abbrev counting : Mem
counting a = a

abbrev full : KvCachePool
full = record {
  cfg = tiny;
  gpu_pool = some counting;
  cpu_pool = some zeros;
  kv_scales = true;
  used_tokens = 4;
  gpu_tokens = pos 4;
}

abbrev blank : KvCachePool
blank = record full { gpu_pool = some zeros; used_tokens = 0; gpu_tokens = pos 0 }

abbrev works : ℕ → ℕ → Bool
works l k = true

key_ptr_overflow : key_ptr tiny 1 5 ≡ cpu 10
unfolding key_ptr entry_bytes
key_ptr_overflow = refl

val_ptr_fast : val_ptr tiny 1 3 ≡ gpu 30
unfolding val_ptr entry_bytes
val_ptr_fast = refl

gather_bytes : (gather_used_to_host works full zeros 2).1 4 ≡ 8
unfolding gather_used_to_host gather_layer for_layers memcpy entry_bytes
gather_bytes = refl

ptr-InPools_example : InPools tiny (shift (ptr tiny 1 true 5) 1)
unfolding entry_bytes
ptr-InPools_example = ptr-InPools tiny 1 true 5 1 (omega arith) (omega arith) (omega arith)

ptr_injective_example : (◌≡◌ {A = ℕ} 1 1) × (true ≡ true) × (◌≡◌ {A = ℕ} 5 5) × (◌≡◌ {A = ℕ} 1 1)
unfolding entry_bytes
ptr_injective_example =
    ptr_injective tiny 1 1 true true 5 5 1 1 (omega arith) (omega arith) (omega arith) (omega arith)
      refl

scatter-gather_example :
    (scatter_from_host works (gather_used_to_host works full zeros 2).1 2 true blank).0 ≡ true
scatter-gather_example =
    (scatter-gather full blank zeros counting zeros 2 refl refl refl (omega arith) (omega arith)).0

scales : HasScales full
scales = record { allocated = refl; int8 = refl }

evict-val-is-key_example :
    byte_at (evict works 2 full) (shift (val_ptr tiny 1 5) 0)
    ≡ byte_at full (shift (key_ptr tiny 1 3) 0)
unfolding entry_bytes
evict-val-is-key_example =
    evict-val-is-key works full counting zeros 4 1 1 0 refl refl refl (omega arith) (omega arith)
      (omega arith) refl (omega arith) (omega arith)

abbrev all_granted : Outcomes
all_granted = record { fast = true; cleared = true; overflow = true; scales = true }

init_works : (init tiny all_granted blank).0 ≡ true
unfolding init
init_works = refl

init-IsReady_example : IsReady tiny (init tiny all_granted blank).1
init-IsReady_example = init-IsReady tiny all_granted blank init_works
