-- ===== src/KvCache/Gather.antt =====
-- `gather_used_to_host`: packing the populated positions of the fast pool into a host buffer.
use reflex_llm.Base.{
  ℕ, ◌+◌, ◌-◌, ◌*◌, ◌≤◌, ◌<◌, ◌≡◌, ◌⊎◌, Bool, true, false, some, arith, ◌∙◌, if◌then◌else◌, ltb,
}
use reflex_llm.KvCache.{
  Mem, memcpy, for_layers, Config, KvCachePool, entry_bytes, gather_layer, gather_used_to_host,
}
use reflex_llm.KvCache.Layers.{for_layers_succeeds, for_layers_hit, slab_next}
use reflex_llm.KvCache.Layout.{half, slot}
use reflex_llm.KvCache.Slabs.{copy_twice, width, offset, slot_offset, offset-lt}

module _ (c : Config) (used : ℕ) (cuda : ℕ → ℕ → Bool) (fast : Mem) where
  packed : ℕ → ℕ → ℕ → ℕ
  packed l x old =
      if ltb x (used * half c)
      then fast (l * (c.max_context * entry_bytes c) + x)
      else fast (l * (c.max_context * entry_bytes c) + c.max_context * half c + (x - used * half c))

  gather_layer_frame :
      (l a : ℕ) (m : Mem)
      → (a < l * (used * entry_bytes c)) ⊎ (l * (used * entry_bytes c) + used * entry_bytes c ≤ a)
      → (gather_layer c used cuda fast l m).1 a ≡ m a
  unfolding gather_layer memcpy
  gather_layer_frame l a m h = ground (arith, width c used)

  gather_layer_hit :
      (l x : ℕ) (m : Mem)
      → x < used * entry_bytes c
      → (gather_layer c used cuda fast l m).0 ≡ true
      → (gather_layer c used cuda fast l m).1 (l * (used * entry_bytes c) + x)
        ≡ packed l x (m (l * (used * entry_bytes c) + x))
  unfolding gather_layer packed
  gather_layer_hit l x m h e = ground (
    arith,
    width c used,
    copy_twice m fast (l * (used * entry_bytes c)) (l * (c.max_context * entry_bytes c))
        (l * (c.max_context * entry_bytes c) + c.max_context * half c) (used * half c) x,
  )

  -- The byte of a slot in the packed buffer is the byte of the same slot in the pool.
  packed-slot :
      (l a j old : ℕ) (v : Bool)
      → a < used
      → j < half c
      → packed l (offset c used v a + j) old ≡ fast (slot c c.max_context l v a + j)
  unfolding packed
  packed-slot l a j old true h k = ground (arith, slab_next (half c) a used h)
  packed-slot l a j old false h k = ground (arith, slab_next (half c) a used h)

  pub gather_rounds :
      (dst : Mem) (n l a j : ℕ) (v : Bool)
      → l < n
      → a < used
      → j < half c
      → (for_layers n 0 (gather_layer c used cuda fast) dst).0 ≡ true
      → (for_layers n 0 (gather_layer c used cuda fast) dst).1 (slot c used l v a + j)
        ≡ fast (slot c c.max_context l v a + j)
  gather_rounds dst n l a j v h k m e = rw (slot_offset c used l v a j) (
      for_layers_hit (used * entry_bytes c) (gather_layer c used cuda fast) packed
        gather_layer_frame gather_layer_hit n 0 l (offset c used v a + j) dst (omega arith)
        (omega arith) (offset-lt c used v a j k m) e
      ∙ packed-slot l a j _ v k m)

-- When the call succeeds, the count is between 1 and `max_context`, and byte `j` of every key and
-- value below the count is in the packed buffer, at the place where a pool of `used` positions would
-- have it.
pub gather_lem :
    (cuda : ℕ → ℕ → Bool) (p : KvCachePool) (dst : Mem) (used l a j : ℕ) (v : Bool) (fast : Mem)
    → p.gpu_pool ≡ some fast
    → (gather_used_to_host cuda p dst used).0 ≡ true
    → l < p.cfg.n_layers
    → a < used
    → j < half p.cfg
    → (0 < used)
      × (used ≤ p.cfg.max_context)
      × ((gather_used_to_host cuda p dst used).1 (slot p.cfg used l v a + j)
          ≡ fast (slot p.cfg p.cfg.max_context l v a + j))
unfolding gather_used_to_host
gather_lem cuda p dst used l a j v fast g e h k m =
    ground (arith, gather_rounds p.cfg used cuda fast dst p.cfg.n_layers l a j v h k m)

pub gather_succeeds :
    (p : KvCachePool) (dst : Mem) (used : ℕ) (fast : Mem)
    → p.gpu_pool ≡ some fast
    → 0 < used
    → used ≤ p.cfg.max_context
    → (gather_used_to_host (λ l k. true) p dst used).0 ≡ true
unfolding gather_used_to_host gather_layer
gather_succeeds p dst used fast g h k = ground (
  arith,
  for_layers_succeeds (gather_layer p.cfg used (λ l k. true) fast) (λ l m. ground arith)
      p.cfg.n_layers 0 dst,
)
