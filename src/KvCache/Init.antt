-- ===== src/KvCache/Init.antt =====
-- What `init` leaves.
use reflex_llm.Base.{
  ◌*◌, ◌≡◌, ◌<◌, ◌⊎◌, inl, inr, refl, Bool, true, false, not, ◌&&◌, some, arith, ltb, ◌==◌, if_elim,
  ap,
}
use reflex_llm.Base.Int.{pos}
use reflex_llm.KvCache.{
  zeros, Config, KvCachePool, Outcomes, entry_bytes, init, init_overflow, init_scales,
}

-- A pool that is ready for a conversation under configuration `c`.
pub record IsReady (c : Config) (q : KvCachePool) : Type 0 where
  pub shape : (q.cfg ≡ c) ⊎ (q.cfg ≡ record c { overflow_context = 0 })
  pub cleared : q.gpu_pool ≡ some zeros
  pub empty : (q.used_tokens ≡ 0) × (q.gpu_tokens ≡ pos 0)
  pub overflow :
      0 < q.cfg.overflow_context
      → 0 < c.n_layers * entry_bytes c * c.overflow_context
      → q.cpu_pool ≡ some zeros

-- The same, before the counts are set.
record IsBacked (c : Config) (q : KvCachePool) : Type 0 where
  shape : (q.cfg ≡ c) ⊎ (q.cfg ≡ record c { overflow_context = 0 })
  cleared : q.gpu_pool ≡ some zeros
  overflow :
      0 < q.cfg.overflow_context
      → 0 < c.n_layers * entry_bytes c * c.overflow_context
      → q.cpu_pool ≡ some zeros

init_overflow-IsBacked :
    (c : Config) (o : Outcomes) (p : KvCachePool)
    → p.cfg ≡ c
    → p.gpu_pool ≡ some zeros
    → IsBacked c (init_overflow c o p)
unfolding init_overflow
init_overflow-IsBacked c o p same clear =
    if_elim (IsBacked c)
      (ltb 0 c.overflow_context && ltb 0 (c.n_layers * entry_bytes c * c.overflow_context))
      (λ wanted.
        if_elim (IsBacked c) o.overflow
          (λ got. record { shape = inl same; cleared = clear; overflow = λ h k. refl })
          (λ failed. record {
            shape = inr refl;
            cleared = clear;
            overflow = λ h k. absurd (omega arith);
          }))
      (λ unwanted. record {
        shape = inl same;
        cleared = clear;
        overflow =
            λ h k. absurd (clash (ap (λ (d : Config). d.overflow_context) same) h k unwanted);
      })
  where
    clash :
        p.cfg.overflow_context ≡ c.overflow_context
        → 0 < p.cfg.overflow_context
        → 0 < c.n_layers * entry_bytes c * c.overflow_context
        → (ltb 0 c.overflow_context && ltb 0 (c.n_layers * entry_bytes c * c.overflow_context))
          ≡ false
        → ⊥
    clash same h k e = ground arith

init_scales-IsBacked :
    (c : Config) (o : Outcomes) (p : KvCachePool) → IsBacked c p → IsBacked c (init_scales c o p)
unfolding init_scales
init_scales-IsBacked c o p b =
    if_elim (IsBacked c) (c.kv_type_bytes == 1)
      (λ int8. record { shape = b.shape; cleared = b.cleared; overflow = b.overflow }) (λ fp16. b)

-- The outcome of a call that may fail.
record Result (c : Config) (r : Bool × KvCachePool) : Type 0 where
  ready : r.0 ≡ true → IsReady c r.1

-- A call that succeeds leaves the fast pool cleared and no tokens, the configuration asked for but
-- that the overflow context may be 0, and zeros behind every overflow position that is left (unless
-- a position has no bytes).
pub init-IsReady :
    (c : Config) (o : Outcomes) (p : KvCachePool) → (init c o p).0 ≡ true → IsReady c (init c o p).1
unfolding init init_overflow init_scales
init-IsReady c o p e = result.ready e
  where
    opened : KvCachePool
    opened = record p { cfg = c; gpu_pool = some zeros }

    backed : IsBacked c (init_scales c o (init_overflow c o opened))
    backed =
        init_scales-IsBacked c o (init_overflow c o opened)
          (init_overflow-IsBacked c o opened refl refl)

    result : Result c (init c o p)
    result =
        if_elim (Result c) (not o.fast) (λ f. record { ready = λ h. absurd (cc) })
          λ f.
            if_elim (Result c) (not o.cleared) (λ g. record { ready = λ h. absurd (cc) })
              λ g. record {
                ready = λ h. record {
                  shape = backed.shape;
                  cleared = backed.cleared;
                  empty = (refl, refl);
                  overflow = backed.overflow;
                };
              }
