-- ===== src/KvCache/Scatter.antt =====
-- `scatter_from_host`: a packed buffer back into the fast pool.
use reflex_llm.Base.{
  ℕ, ◌+◌, ◌-◌, ◌*◌, ◌≤◌, ◌<◌, ◌≡◌, ◌⊎◌, Bool, true, false, Option, none, some, arith, ◌∙◌,
  if◌then◌else◌, ltb, refl,
}
use reflex_llm.Base.Int.{pos}
use reflex_llm.KvCache.{
  Mem, memcpy, memset, for_layers, Config, KvCachePool, entry_bytes, scatter_layer,
  scatter_from_host,
}
use reflex_llm.KvCache.Layers.{for_layers_succeeds, for_layers_hit, slab_next}
use reflex_llm.KvCache.Layout.{half, slot}
use reflex_llm.KvCache.Slabs.{width, offset, slot_offset, offset-lt}

-- What the two copies of a layer leave, in a slab of two halves of `half` bytes.
scatter_twice :
    (fast src : Mem) (d s u n h x : ℕ)
    → u + n ≡ h
    → x < h + h
    → memcpy (memcpy fast d src s u) (d + h) src (s + u) u (d + x) ≡ (
        if ltb x u
        then src (s + x)
        else (if ltb x h
            then fast (d + x)
            else (if ltb x (h + u) then src (s + u + (x - h)) else fast (d + x))))
unfolding memcpy
scatter_twice fast src d s u n h x e k = ground arith

clear_twice :
    (both : Mem) (d u n h x : ℕ)
    → u + n ≡ h
    → x < h + h
    → memset (memset both (d + u) 0 n) (d + h + u) 0 n (d + x) ≡ (
        if ltb x u
        then both (d + x)
        else (if ltb x h then 0 else (if ltb x (h + u) then both (d + x) else 0)))
unfolding memset
clear_twice both d u n h x e k = ground arith

unused : (used context h : ℕ) → used ≤ context → used * h + (context - used) * h ≡ context * h
unused used context h le = grind arith

mul_mono : (a b h : ℕ) → a ≤ b → a * h ≤ b * h
mul_mono a b h le = grind arith

module _ (c : Config) (used : ℕ) (zero_remaining : Bool) (cuda : ℕ → ℕ → Bool) (src : Mem)
    (fits : used ≤ c.max_context) where
  -- The byte that a layer holds afterwards at place `x` of its slab.
  filled : ℕ → ℕ → ℕ → ℕ
  filled l x old =
      let kept = if zero_remaining then 0 else old in
      let from = l * (used * entry_bytes c) in
      if ltb x (used * half c)
      then src (from + x)
      else (if ltb x (c.max_context * half c)
          then kept
          else (if ltb x (c.max_context * half c + used * half c)
              then src (from + used * half c + (x - c.max_context * half c))
              else kept))

  scatter_layer_frame :
      (l a : ℕ) (m : Mem)
      → (a < l * (c.max_context * entry_bytes c))
        ⊎ (l * (c.max_context * entry_bytes c) + c.max_context * entry_bytes c ≤ a)
      → (scatter_layer c used zero_remaining cuda src l m).1 a ≡ m a
  unfolding scatter_layer memcpy memset
  scatter_layer_frame l a m h =
      ground (arith, width c c.max_context, unused used c.max_context (half c) fits)

  scatter_layer_hit :
      (l x : ℕ) (m : Mem)
      → x < c.max_context * entry_bytes c
      → (scatter_layer c used zero_remaining cuda src l m).0 ≡ true
      → (scatter_layer c used zero_remaining cuda src l m).1
          (l * (c.max_context * entry_bytes c) + x)
        ≡ filled l x (m (l * (c.max_context * entry_bytes c) + x))
  unfolding scatter_layer filled
  scatter_layer_hit l x m h e =
      let d = l * (c.max_context * entry_bytes c) in
      let s = l * (used * entry_bytes c) in
      let u = used * half c in
      let n = (c.max_context - used) * half c in
      let w = c.max_context * half c in
      ground (
        arith,
        width c c.max_context,
        unused used c.max_context (half c) fits,
        scatter_twice m src d s u n w x,
        clear_twice (memcpy (memcpy m d src s u) (d + w) src (s + u) u) d u n w x,
      )

  filled_used :
      (l a j old : ℕ) (v : Bool)
      → a < used
      → j < half c
      → filled l (offset c c.max_context v a + j) old ≡ src (slot c used l v a + j)
  unfolding filled
  filled_used l a j old true h k =
      ground (arith, slab_next (half c) a used h, unused used c.max_context (half c) fits)
  filled_used l a j old false h k = ground (arith, slab_next (half c) a used h)

  filled_rest :
      (l a j old : ℕ) (v : Bool)
      → used ≤ a
      → a < c.max_context
      → j < half c
      → filled l (offset c c.max_context v a + j) old ≡ (if zero_remaining then 0 else old)
  unfolding filled
  filled_rest l a j old true h k m = ground (
    arith,
    slab_next (half c) a c.max_context k,
    mul_mono used a (half c) h,
    unused used c.max_context (half c) fits,
  )
  filled_rest l a j old false h k m =
      ground (arith, slab_next (half c) a c.max_context k, mul_mono used a (half c) h)

  scatter_rounds :
      (fast : Mem) (n l a j : ℕ) (v : Bool)
      → l < n
      → a < c.max_context
      → j < half c
      → (for_layers n 0 (scatter_layer c used zero_remaining cuda src) fast).0 ≡ true
      → (for_layers n 0 (scatter_layer c used zero_remaining cuda src) fast).1
          (slot c c.max_context l v a + j)
        ≡ filled l (offset c c.max_context v a + j) (fast (slot c c.max_context l v a + j))
  scatter_rounds fast n l a j v h k m e = rw (slot_offset c c.max_context l v a j) (
      for_layers_hit (c.max_context * entry_bytes c) (scatter_layer c used zero_remaining cuda src)
        filled scatter_layer_frame scatter_layer_hit n 0 l (offset c c.max_context v a + j) fast
        (omega arith) (omega arith) (offset-lt c c.max_context v a j k m) e)

abbrev pub byte : Option Mem → ℕ → ℕ
byte none a = 0
byte (some m) a = m a

-- What `scatter_from_host` does when it succeeds.
pub record Scattered (src : Mem) (used : ℕ) (zero_remaining : Bool) (p q : KvCachePool)
    : Type 0 where
  pub fits : used ≤ p.cfg.max_context
  pub cfg_kept : q.cfg ≡ p.cfg
  pub used_set : q.used_tokens ≡ used
  pub gpu_set : q.gpu_tokens ≡ pos used
  pub written :
      (l a j : ℕ) (v : Bool)
      → l < p.cfg.n_layers
      → a < used
      → j < half p.cfg
      → byte q.gpu_pool (slot p.cfg p.cfg.max_context l v a + j) ≡ src (slot p.cfg used l v a + j)
  pub rest :
      (l a j : ℕ) (v : Bool)
      → l < p.cfg.n_layers
      → used ≤ a
      → a < p.cfg.max_context
      → j < half p.cfg
      → byte q.gpu_pool (slot p.cfg p.cfg.max_context l v a + j)
        ≡ (if zero_remaining then 0 else byte p.gpu_pool (slot p.cfg p.cfg.max_context l v a + j))

scattered :
    (cuda : ℕ → ℕ → Bool) (p : KvCachePool) (src : Mem) (used : ℕ) (zero_remaining : Bool)
    (fast : Mem)
    → p.gpu_pool ≡ some fast
    → (scatter_from_host cuda src used zero_remaining p).0 ≡ true
    → (used ≤ p.cfg.max_context)
      × ((for_layers p.cfg.n_layers 0 (scatter_layer p.cfg used zero_remaining cuda src) fast).0
          ≡ true)
      × ((scatter_from_host cuda src used zero_remaining p).1 ≡ record p {
        gpu_pool =
            some
              (for_layers p.cfg.n_layers 0
                (scatter_layer p.cfg used zero_remaining cuda src)
                fast).1;
        used_tokens = used;
        gpu_tokens = pos used;
      })
unfolding scatter_from_host
scattered cuda p src used zero_remaining fast g e = ground arith

-- When `scatter_from_host` succeeds, the pool counts `used` tokens; every key and value of the
-- positions below `used` holds the packed buffer's bytes; and those of the positions from `used` up
-- to `max_context` are 0 if `zero_remaining` was asked, and as they were otherwise.
pub scatter_lem :
    (cuda : ℕ → ℕ → Bool) (p : KvCachePool) (src : Mem) (used : ℕ) (zero_remaining : Bool)
    (fast : Mem)
    → p.gpu_pool ≡ some fast
    → (scatter_from_host cuda src used zero_remaining p).0 ≡ true
    → Scattered src used zero_remaining p (scatter_from_host cuda src used zero_remaining p).1
scatter_lem cuda p src used zero_remaining fast g e =
    let (fits, rounds, after) = scattered cuda p src used zero_remaining fast g e in
    rw after (record {
      fits = fits;
      cfg_kept = refl;
      used_set = refl;
      gpu_set = refl;
      written = λ l a j v h k m.
          scatter_rounds p.cfg used zero_remaining cuda src fits fast p.cfg.n_layers l a j v h
            (omega arith) m rounds
          ∙ filled_used p.cfg used zero_remaining cuda src fits l a j _ v k m;
      rest = λ l a j v h k b m. rw g (
          scatter_rounds p.cfg used zero_remaining cuda src fits fast p.cfg.n_layers l a j v h b m
            rounds
          ∙ filled_rest p.cfg used zero_remaining cuda src fits l a j _ v k b m);
    })

module _ (p : KvCachePool) (used : ℕ) (fast : Mem) (g : p.gpu_pool ≡ some fast)
    (positive : 0 < used) (fits : used ≤ p.cfg.max_context) where
  pub scatter_succeeds :
      (src : Mem) (zero_remaining : Bool)
      → (scatter_from_host (λ l k. true) src used zero_remaining p).0 ≡ true
  unfolding scatter_from_host scatter_layer
  scatter_succeeds src zero_remaining = ground (
    arith,
    for_layers_succeeds (scatter_layer p.cfg used zero_remaining (λ l k. true) src)
        (λ l m. ground arith) p.cfg.n_layers 0 fast,
  )
