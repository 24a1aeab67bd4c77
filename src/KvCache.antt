-- ===== src/KvCache.antt =====
-- include/jllm_memory.h `KVCachePool` and src/memory/kv_cache.cpp: the pre-allocated KV cache.
-- A pool is its bytes, a function of the offset from the pool's first address. CUDA and `malloc`
-- enter as arguments: whether each call succeeds. A copy that fails is taken to write nothing.
mod Memory
pub mod Layers
pub mod Layout
pub mod Scales
pub mod Slabs
pub mod Gather
pub mod Scatter
pub mod RoundTrip
pub mod Evict
pub mod Compact
pub mod Init
mod Tests
unfoldable pub use Memory.{Mem, memcpy, memset, zeros}
pub use Memory.{memcpy_hit, memcpy_miss}
unfoldable pub use Layers.{for_layers}
use reflex_llm.Base.{
  ℕ, ◌+◌, ◌-◌, ◌*◌, ◌/◌, Bool, true, false, not, ◌&&◌, ◌||◌, Option, none, some, ltb, leb, ◌==◌,
  if◌then◌else◌,
}
use reflex_llm.Base.Int.{ℤ, pos, negsuc, pos_part, sub_ℕ, ltb_ℤ}

pub record Config : Type 0 where
  pub n_layers : ℕ
  pub n_kv_heads : ℕ
  pub head_dim : ℕ
  pub max_context : ℕ
  pub overflow_context : ℕ
  pub kv_type_bytes : ℕ

-- `kv_scales` says whether the scale array is allocated.
pub record KvCachePool : Type 0 where
  pub cfg : Config
  pub gpu_pool : Option Mem
  pub cpu_pool : Option Mem
  pub kv_scales : Bool
  pub used_tokens : ℕ
  pub gpu_tokens : ℤ

unfoldable pub entry_bytes : Config → ℕ
entry_bytes c = 2 * c.n_kv_heads * c.head_dim * c.kv_type_bytes

unfoldable pub max_tokens : KvCachePool → ℕ
max_tokens p = p.cfg.max_context + p.cfg.overflow_context

unfoldable pub packed_used_bytes : Config → ℕ → ℕ
packed_used_bytes c used = if used == 0 then 0 else c.n_layers * used * entry_bytes c

-- What the allocator and CUDA answer to `init`.
pub record Outcomes : Type 0 where
  pub fast : Bool
  pub cleared : Bool
  pub overflow : Bool
  pub scales : Bool

-- The overflow pool: without it, its context is 0.
init_overflow : Config → Outcomes → KvCachePool → KvCachePool
init_overflow c o p =
    if ltb 0 c.overflow_context && ltb 0 (c.n_layers * entry_bytes c * c.overflow_context)
    then (if o.overflow
        then record p { cpu_pool = some zeros }
        else record p { cfg = record c { overflow_context = 0 }; cpu_pool = none })
    else p

init_scales : Config → Outcomes → KvCachePool → KvCachePool
init_scales c o p = if c.kv_type_bytes == 1 then record p { kv_scales = o.scales } else p

pub init : Config → Outcomes → KvCachePool → Bool × KvCachePool
unfolding init_overflow init_scales
init c o p =
    let opened = record p { cfg = c; gpu_pool = some zeros } in
    let ready = init_scales c o (init_overflow c o opened) in
    if not o.fast
    then (false, record p { cfg = c })
    else (if not o.cleared
        then (false, record p { cfg = c; gpu_pool = none })
        else (true, record ready { used_tokens = 0; gpu_tokens = pos 0 }))

pub destroy : KvCachePool → KvCachePool
destroy p = record p {
  gpu_pool = none;
  cpu_pool = none;
  kv_scales = false;
  used_tokens = 0;
  gpu_tokens = pos 0;
}

pub clear : KvCachePool → KvCachePool
clear p = record p { used_tokens = 0; gpu_tokens = pos 0 }

-- A pointer into one of the two pools: the offset from its first byte.
pub data Place : Type 0 where
  gpu : ℕ → Place
  cpu : ℕ → Place

pub key_ptr : Config → ℕ → ℕ → Place
key_ptr c layer at =
    let eb = entry_bytes c / 2 in
    if ltb at c.max_context
    then gpu (layer * (c.max_context * entry_bytes c) + at * eb)
    else cpu (layer * (c.overflow_context * entry_bytes c) + (at - c.max_context) * eb)

-- Values are stored after all keys of the layer.
pub val_ptr : Config → ℕ → ℕ → Place
val_ptr c layer at =
    let eb = entry_bytes c / 2 in
    if ltb at c.max_context
    then gpu (layer * (c.max_context * entry_bytes c) + c.max_context * eb + at * eb)
    else cpu (
        layer * (c.overflow_context * entry_bytes c)
        + c.overflow_context * eb
        + (at - c.max_context) * eb)

pub used_bytes : KvCachePool → ℕ
used_bytes p = p.used_tokens * entry_bytes p.cfg * p.cfg.n_layers

pub capacity_bytes : KvCachePool → ℕ
capacity_bytes p = (p.cfg.max_context + p.cfg.overflow_context) * entry_bytes p.cfg * p.cfg.n_layers

-- One round of `evict`: the copy to the overflow pool, then the shift inside the fast pool. `src`
-- and `src + n_tokens * eb` may overlap; the copy is taken to read before it writes. `cuda l k` says
-- whether the layer's k-th copy succeeds, which is not looked at: one that fails copies nothing.
evict_layer : Config → (n : ℕ) → ℤ → (ℕ → ℕ → Bool) → ℕ → Mem × Mem → Mem × Mem
evict_layer c n remaining cuda l (fast, over) =
    let eb = entry_bytes c in
    let src = l * c.max_context * eb in
    let dst = l * c.overflow_context * eb in
    let copied = memcpy over dst fast src (n * eb) in
    let shifted = memcpy fast src fast (src + n * eb) (pos_part remaining * eb) in
    (
      if ltb_ℤ (pos 0) remaining && cuda l 1 then shifted else fast,
      if cuda l 0 then copied else over,
    )

evict_loop : Config → ℕ → ℤ → (ℕ → ℕ → Bool) → (rounds l : ℕ) → Mem × Mem → Mem × Mem
evict_loop c n remaining cuda ℕ.zero l m = m
evict_loop c n remaining cuda (ℕ.suc rounds) l m =
    evict_loop c n remaining cuda rounds (l + 1) (evict_layer c n remaining cuda l m)

-- `gpu_pool` is allocated whenever `cpu_pool` is.
pub evict : (ℕ → ℕ → Bool) → ℕ → KvCachePool → KvCachePool
unfolding evict_loop evict_layer
evict cuda n p = elim p.cpu_pool [
  | none ↦ p
  | some over ↦ elim p.gpu_pool [
    | none ↦ p
    | some fast ↦
        let remaining = sub_ℕ p.gpu_tokens n in
        let moved = evict_loop p.cfg n remaining cuda p.cfg.n_layers 0 (fast, over) in
        if n == 0
        then p
        else record p { gpu_pool = some moved.0; cpu_pool = some moved.1; gpu_tokens = remaining }
  ]
]

-- One layer of `gather_used_to_host`; `cuda l k` says whether the layer's k-th copy succeeds.
unfoldable pub gather_layer : Config → ℕ → (ℕ → ℕ → Bool) → Mem → ℕ → Mem → Bool × Mem
gather_layer c used cuda fast l dst =
    let eb = entry_bytes c in
    let half_eb = eb / 2 in
    let key_used_bytes = used * half_eb in
    let src_keys = l * (c.max_context * eb) in
    let src_vals = src_keys + c.max_context * half_eb in
    let dst_keys = l * (used * eb) in
    let dst_vals = dst_keys + key_used_bytes in
    let keys = memcpy dst dst_keys fast src_keys key_used_bytes in
    let both = memcpy keys dst_vals fast src_vals key_used_bytes in
    if cuda l 0 then (if cuda l 1 then (true, both) else (false, keys)) else (false, dst)

unfoldable pub gather_used_to_host : (ℕ → ℕ → Bool) → KvCachePool → Mem → ℕ → Bool × Mem
unfolding gather_layer
gather_used_to_host cuda p dst used = elim p.gpu_pool [
  | none ↦ (false, dst)
  | some fast ↦
      let rounds = for_layers p.cfg.n_layers 0 (gather_layer p.cfg used cuda fast) dst in
      if used == 0 || ltb p.cfg.max_context used then (false, dst) else rounds
]

-- One layer of `scatter_from_host`.
pub scatter_layer : Config → ℕ → Bool → (ℕ → ℕ → Bool) → Mem → ℕ → Mem → Bool × Mem
scatter_layer c used zero_remaining cuda src l fast =
    let eb = entry_bytes c in
    let half_eb = eb / 2 in
    let key_used_bytes = used * half_eb in
    let key_unused_bytes = (c.max_context - used) * half_eb in
    let dst_keys = l * (c.max_context * eb) in
    let dst_vals = dst_keys + c.max_context * half_eb in
    let src_keys = l * (used * eb) in
    let src_vals = src_keys + key_used_bytes in
    let keys = memcpy fast dst_keys src src_keys key_used_bytes in
    let both = memcpy keys dst_vals src src_vals key_used_bytes in
    let cleared = memset both (dst_keys + key_used_bytes) 0 key_unused_bytes in
    let all = memset cleared (dst_vals + key_used_bytes) 0 key_unused_bytes in
    if cuda l 0
    then (if cuda l 1
        then (if zero_remaining && ltb 0 key_unused_bytes
            then (if cuda l 2
                then (if cuda l 3 then (true, all) else (false, cleared))
                else (false, both))
            else (true, both))
        else (false, keys))
    else (false, fast)

-- The tokens are counted only when every layer went through.
pub scatter_from_host : (ℕ → ℕ → Bool) → Mem → ℕ → Bool → KvCachePool → Bool × KvCachePool
unfolding scatter_layer
scatter_from_host cuda src used zero_remaining p = elim p.gpu_pool [
  | none ↦ (false, p)
  | some fast ↦
      let layer = scatter_layer p.cfg used zero_remaining cuda src in
      let rounds = for_layers p.cfg.n_layers 0 layer fast in
      let filled = record p { gpu_pool = some rounds.1 } in
      if used == 0 || ltb p.cfg.max_context used
      then (false, p)
      else (if rounds.0
          then (true, record filled { used_tokens = used; gpu_tokens = pos used })
          else (false, filled))
]

pub kv_scales_bytes : Config → ℕ
kv_scales_bytes c =
    if c.kv_type_bytes == 1 then 2 * c.n_layers * c.max_context * c.n_kv_heads * 4 else 0

-- The index into the array of floats, or `none` for `nullptr`.
pub kv_scale_ptr : KvCachePool → ℤ → ℤ → Bool → Option ℕ
kv_scale_ptr p layer at is_value =
    let per_kv_region = p.cfg.max_context * p.cfg.n_kv_heads in
    let per_layer = 2 * per_kv_region in
    let start = if is_value then per_kv_region else 0 in
    if not p.kv_scales
    then none
    else (if not (p.cfg.kv_type_bytes == 1)
        then none
        else (if ltb_ℤ layer (pos 0) || not (ltb_ℤ layer (pos p.cfg.n_layers))
            then none
            else (if ltb_ℤ at (pos 0) || not (ltb_ℤ at (pos p.cfg.max_context))
                then none
                else some (pos_part layer * per_layer + start + pos_part at * p.cfg.n_kv_heads))))
