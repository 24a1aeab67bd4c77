-- ===== src/KvCache/Scales.antt =====
-- `kv_scale_ptr`: the rows of scales of the INT8 cache.
use reflex_llm.Base.{ℕ, ◌+◌, ◌*◌, ◌≤◌, ◌<◌, ◌≡◌, ◌⊎◌, Bool, true, false, Option, none, some, arith}
use reflex_llm.Base.Int.{ℤ, pos, negsuc, ◌≤ℤ◌}
use reflex_llm.KvCache.{KvCachePool, kv_scale_ptr, kv_scales_bytes}
use reflex_llm.KvCache.Layers.{slab_next}
use reflex_llm.KvCache.Layout.{bit, bit-lt, bit_injective, digit_unique}

-- The scales are there: INT8 mode, and the allocation went through.
pub record HasScales (p : KvCachePool) : Type 0 where
  pub allocated : p.kv_scales ≡ true
  pub int8 : p.cfg.kv_type_bytes ≡ 1

row : KvCachePool → ℕ → Bool → ℕ → ℕ
row p l v a = ((l * 2 + bit v) * p.cfg.max_context + a) * p.cfg.n_kv_heads

kv_scale_ptr-row :
    (p : KvCachePool) (l a : ℕ) (v : Bool)
    → HasScales p
    → l < p.cfg.n_layers
    → a < p.cfg.max_context
    → kv_scale_ptr p (pos l) (pos a) v ≡ some (row p l v a)
unfolding kv_scale_ptr row
kv_scale_ptr-row p l a true s h k = ground arith
kv_scale_ptr-row p l a false s h k = ground arith

-- Outside the layers or the fast positions the pointer is `nullptr`, whatever the mode.
pub kv_scale_ptr-none :
    (p : KvCachePool) (l a : ℤ) (v : Bool)
    → ((pos p.cfg.n_layers ≤ℤ l) ⊎ (l ≤ℤ negsuc 0))
      ⊎ ((pos p.cfg.max_context ≤ℤ a) ⊎ (a ≤ℤ negsuc 0))
    → kv_scale_ptr p l a v ≡ none
unfolding kv_scale_ptr
kv_scale_ptr-none p l a v h = ground arith

-- The float of one head, in the scale row of a layer and position.
abbrev pub head_index : Option ℕ → ℕ → Option ℕ
head_index none head = none
head_index (some start) head = some (start + head)

-- In INT8 mode every layer, fast position, key or value and head has a float inside the array that
-- `init` allocates (four bytes to a float).
pub kv_scale_ptr_bound :
    (p : KvCachePool) (l a head : ℕ) (v : Bool)
    → HasScales p
    → l < p.cfg.n_layers
    → a < p.cfg.max_context
    → head < p.cfg.n_kv_heads
    → (i : ℕ) × (head_index (kv_scale_ptr p (pos l) (pos a) v) head ≡ some i)
      × (4 * i + 4 ≤ kv_scales_bytes p.cfg)
unfolding row kv_scales_bytes
kv_scale_ptr_bound p l a head v s h k m = (
  row p l v a + head,
  ground (arith, kv_scale_ptr-row p l a v s h k),
  ground (
    arith,
    s.int8,
    slab_next p.cfg.n_kv_heads ((l * 2 + bit v) * p.cfg.max_context + a)
        (p.cfg.n_layers * 2 * p.cfg.max_context)
        (omega (
          arith,
          slab_next p.cfg.max_context (l * 2 + bit v) (p.cfg.n_layers * 2)
              (omega (arith, bit-lt v)),
        )),
  ),
)

-- No float serves two heads: equal indices mean the same layer, key or value, position and head.
pub kv_scale_ptr_injective :
    (p : KvCachePool) (l l' a a' head head' : ℕ) (v v' : Bool)
    → HasScales p
    → l < p.cfg.n_layers
    → l' < p.cfg.n_layers
    → a < p.cfg.max_context
    → a' < p.cfg.max_context
    → head < p.cfg.n_kv_heads
    → head' < p.cfg.n_kv_heads
    → head_index (kv_scale_ptr p (pos l) (pos a) v) head
      ≡ head_index (kv_scale_ptr p (pos l') (pos a') v') head'
    → (l ≡ l') × (v ≡ v') × (a ≡ a') × (head ≡ head')
unfolding row
kv_scale_ptr_injective p l l' a a' head head' v v' s h h' k k' m m' e =
    (layers.0, bit_injective v v' layers.1, positions.1, heads.1)
  where
    heads :
        ((l * 2 + bit v) * p.cfg.max_context + a ≡ (l' * 2 + bit v') * p.cfg.max_context + a')
        × (head ≡ head')
    heads =
        digit_unique p.cfg.n_kv_heads _ _ head head' m m'
          (ground (arith, kv_scale_ptr-row p l a v s h k, kv_scale_ptr-row p l' a' v' s h' k'))

    positions : (l * 2 + bit v ≡ l' * 2 + bit v') × (a ≡ a')
    positions = digit_unique p.cfg.max_context _ _ a a' k k' heads.0

    layers : (l ≡ l') × (bit v ≡ bit v')
    layers = digit_unique 2 l l' (bit v) (bit v') (bit-lt v) (bit-lt v') positions.0
