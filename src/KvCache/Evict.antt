-- ===== src/KvCache/Evict.antt =====
-- `evict`: what reaches the overflow pool.
use reflex_llm.Base.{
  ℕ, zero, suc, ◌+◌, ◌*◌, ◌≤◌, ◌<◌, ◌≡◌, refl, ◌∙◌, ap, sym, Bool, true, false, some, arith,
  ℕ_discrete,
}
use reflex_llm.Base.Int.{ℤ, pos, pos_part, sub_ℕ}
use reflex_llm.KvCache.{
  Mem, memcpy, Config, KvCachePool, entry_bytes, Place, gpu, cpu, key_ptr, val_ptr, evict_layer,
  evict_loop, evict,
}
use reflex_llm.KvCache.Layers.{slab_next}
use reflex_llm.KvCache.Layout.{half, slot, shift, entry_bytes-half, ptr_fast, ptr_overflow}
use reflex_llm.KvCache.Scatter.{byte}

mul_mono : (a b h : ℕ) → a ≤ b → a * h ≤ b * h
mul_mono a b h le = grind arith

module _ (c : Config) (n : ℕ) (remaining : ℤ) (cuda : ℕ → ℕ → Bool) (fits : n ≤ c.overflow_context)
    (held : pos_part remaining ≤ c.max_context) where
  evict_layer_fast :
      (l a : ℕ) (m : Mem × Mem)
      → l * c.max_context * entry_bytes c + c.max_context * entry_bytes c ≤ a
      → (evict_layer c n remaining cuda l m).0 a ≡ m.0 a
  unfolding evict_layer memcpy
  evict_layer_fast l a (fast, over) h =
      ground (arith, mul_mono (pos_part remaining) c.max_context (entry_bytes c) held)

  evict_layer_below :
      (l a : ℕ) (m : Mem × Mem)
      → a < l * c.overflow_context * entry_bytes c
      → (evict_layer c n remaining cuda l m).1 a ≡ m.1 a
  unfolding evict_layer memcpy
  evict_layer_below l a (fast, over) h = ground arith

  evict_layer_hit :
      (l x : ℕ) (m : Mem × Mem)
      → cuda l 0 ≡ true
      → x < n * entry_bytes c
      → (evict_layer c n remaining cuda l m).1 (l * c.overflow_context * entry_bytes c + x)
        ≡ m.0 (l * c.max_context * entry_bytes c + x)
  unfolding evict_layer memcpy
  evict_layer_hit l x (fast, over) w h = ground arith

  evict_loop_below :
      (rounds l a : ℕ) (m : Mem × Mem)
      → a < l * c.overflow_context * entry_bytes c
      → (evict_loop c n remaining cuda rounds l m).1 a ≡ m.1 a
  unfolding evict_loop
  evict_loop_below zero l a m h = refl
  evict_loop_below (suc rounds) l a m h =
      evict_loop_below rounds (l + 1) a (evict_layer c n remaining cuda l m)
        (omega (arith, slab_next (c.overflow_context * entry_bytes c) l (l + 1)))
      ∙ evict_layer_below l a m h

  evict_loop_hit :
      (rounds l k x : ℕ) (m : Mem × Mem)
      → l ≤ k
      → k < l + rounds
      → cuda k 0 ≡ true
      → x < n * entry_bytes c
      → (evict_loop c n remaining cuda rounds l m).1 (k * c.overflow_context * entry_bytes c + x)
        ≡ m.0 (k * c.max_context * entry_bytes c + x)
  unfolding evict_loop
  evict_loop_hit zero l k x m lo hi w h = absurd (omega arith)
  evict_loop_hit (suc rounds) l k x m lo hi w h = elim (ℕ_discrete l k) [
    | yes same ↦ rw (← same) (
        evict_loop_below rounds (l + 1) _ (evict_layer c n remaining cuda l m) (
          omega (
            arith,
            slab_next (c.overflow_context * entry_bytes c) l (l + 1),
            mul_mono n c.overflow_context (entry_bytes c) fits,
          ))
        ∙ evict_layer_hit l x m (ap (λ (i : ℕ). cuda i 0) same ∙ w) h)
    | no other ↦
        evict_loop_hit rounds (l + 1) k x (evict_layer c n remaining cuda l m) (omega arith)
          (omega arith) w h
        ∙ evict_layer_fast l _ m
            (omega (arith, slab_next (c.max_context * entry_bytes c) l k (omega arith)))
  ]

remaining-le : (held n top : ℕ) → held ≤ top → pos_part (sub_ℕ (pos held) n) ≤ top
remaining-le held n top h = ground arith

evicted :
    (cuda : ℕ → ℕ → Bool) (n : ℕ) (p : KvCachePool) (fast over : Mem)
    → p.gpu_pool ≡ some fast
    → p.cpu_pool ≡ some over
    → 0 < n
    → (evict cuda n p).cpu_pool
      ≡ some (evict_loop p.cfg n (sub_ℕ p.gpu_tokens n) cuda p.cfg.n_layers 0 (fast, over)).1
unfolding evict
evicted cuda n p fast over gf gc h = ground arith

-- The byte at a place of a pool.
abbrev pub byte_at : KvCachePool → Place → ℕ
byte_at p (gpu a) = byte p.gpu_pool a
byte_at p (cpu a) = byte p.cpu_pool a

-- `evict` copies whole entries, while `key_ptr` and `val_ptr` keep the values behind all the keys of
-- a layer. So when as many tokens are evicted as the overflow pool has room for, from a fast pool of
-- at least twice that room, and the layer's copy succeeds, then the place that `val_ptr` gives for the
-- value of the a-th overflow position holds what was, before, behind `key_ptr` of position
-- `overflow_context + a`: a key.
pub evict-val-is-key :
    (cuda : ℕ → ℕ → Bool) (p : KvCachePool) (fast over : Mem) (held l a j : ℕ)
    → p.gpu_pool ≡ some fast
    → p.cpu_pool ≡ some over
    → p.gpu_tokens ≡ pos held
    → held ≤ p.cfg.max_context
    → 2 * p.cfg.overflow_context ≤ p.cfg.max_context
    → l < p.cfg.n_layers
    → cuda l 0 ≡ true
    → a < p.cfg.overflow_context
    → j < half p.cfg
    → byte_at
        (evict cuda p.cfg.overflow_context p)
        (shift (val_ptr p.cfg l (p.cfg.max_context + a)) j)
      ≡ byte_at p (shift (key_ptr p.cfg l (p.cfg.overflow_context + a)) j)
evict-val-is-key cuda p fast over held l a j gf gc gt fit twice hl works ha hj =
    ap (byte_at (evict cuda n p)) to ∙ moved ∙ sym (ap (byte_at p) from ∙ behind)
  where
    n : ℕ
    n = p.cfg.overflow_context

    to : shift (val_ptr p.cfg l (p.cfg.max_context + a)) j ≡ cpu (slot p.cfg n l true a + j)
    to =
        ptr_overflow p.cfg l true (p.cfg.max_context + a) j (omega arith)
        ∙ ap (λ (i : ℕ). cpu (slot p.cfg n l true i + j)) (omega arith)

    from :
        shift (key_ptr p.cfg l (n + a)) j ≡ gpu (slot p.cfg p.cfg.max_context l false (n + a) + j)
    from = ptr_fast p.cfg l false (n + a) j (omega arith)

    x : ℕ
    x = n * half p.cfg + a * half p.cfg + j

    there : slot p.cfg n l true a + j ≡ l * n * entry_bytes p.cfg + x
    there = omega arith

    here :
        l * p.cfg.max_context * entry_bytes p.cfg + x
        ≡ slot p.cfg p.cfg.max_context l false (n + a) + j
    here = omega arith

    behind :
        byte_at p (gpu (slot p.cfg p.cfg.max_context l false (n + a) + j))
        ≡ fast (slot p.cfg p.cfg.max_context l false (n + a) + j)
    behind = rw gf refl

    inside : x < n * entry_bytes p.cfg
    inside =
        omega (arith, ap (λ (e : ℕ). n * e) (entry_bytes-half p.cfg), slab_next (half p.cfg) a n ha)

    moved :
        byte (evict cuda n p).cpu_pool (slot p.cfg n l true a + j)
        ≡ fast (slot p.cfg p.cfg.max_context l false (n + a) + j)
    moved =
        rw (evicted cuda n p fast over gf gc (omega arith), there)
          (evict_loop_hit p.cfg n (sub_ℕ p.gpu_tokens n) cuda (omega arith)
              (rw gt (remaining-le held n p.cfg.max_context fit)) p.cfg.n_layers 0 l x (fast, over)
              (omega arith) (omega arith) works inside
            ∙ ap fast here)
