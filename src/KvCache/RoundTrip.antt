-- ===== src/KvCache/RoundTrip.antt =====
-- A gather from one pool and a scatter into another of the same shape.
use reflex_llm.Base.{ℕ, ◌+◌, ◌≤◌, ◌<◌, ◌≡◌, ◌∙◌, subst, Bool, true, some}
use reflex_llm.KvCache.{Mem, Config, KvCachePool, gather_used_to_host, scatter_from_host}
use reflex_llm.KvCache.Layout.{half, slot}
use reflex_llm.KvCache.Gather.{gather_lem, gather_succeeds}
use reflex_llm.KvCache.Scatter.{byte, Scattered, scatter_lem, scatter_succeeds}

-- Where no copy fails, packing `used` positions of a pool (at least one, at most `max_context`) into
-- any buffer and scattering them, with `zero_remaining`, into another pool of the same configuration
-- succeeds; the second pool then has every key and value of the first below `used`, and zeros from
-- there up to `max_context`.
pub scatter-gather :
    (p q : KvCachePool) (dst fast old : Mem) (used : ℕ)
    → p.gpu_pool ≡ some fast
    → q.gpu_pool ≡ some old
    → p.cfg ≡ q.cfg
    → 0 < used
    → used ≤ q.cfg.max_context
    → let packed = (gather_used_to_host (λ l k. true) p dst used).1 in
      let r = scatter_from_host (λ l k. true) packed used true q in
      (r.0 ≡ true)
      × (r.1.used_tokens ≡ used)
      × ((l a j : ℕ) (v : Bool)
          → l < q.cfg.n_layers
          → a < used
          → j < half q.cfg
          → byte r.1.gpu_pool (slot q.cfg q.cfg.max_context l v a + j)
            ≡ fast (slot q.cfg q.cfg.max_context l v a + j))
      × ((l a j : ℕ) (v : Bool)
          → l < q.cfg.n_layers
          → used ≤ a
          → a < q.cfg.max_context
          → j < half q.cfg
          → byte r.1.gpu_pool (slot q.cfg q.cfg.max_context l v a + j) ≡ 0)
scatter-gather p q dst fast old used gp gq same h k = (
  done,
  s.used_set,
  λ l a j v hl ha hj. s.written l a j v hl ha hj ∙ packed l a j v hl ha hj,
  s.rest,
)
  where
    buffer : Mem
    buffer = (gather_used_to_host (λ l k. true) p dst used).1

    done : (scatter_from_host (λ l k. true) buffer used true q).0 ≡ true
    done = scatter_succeeds q used old gq h k buffer true

    s : Scattered buffer used true q (scatter_from_host (λ l k. true) buffer used true q).1
    s = scatter_lem (λ l k. true) q buffer used true old gq done

    fits : used ≤ p.cfg.max_context
    fits = rw same k

    packed :
        (l a j : ℕ) (v : Bool)
        → l < q.cfg.n_layers
        → a < used
        → j < half q.cfg
        → buffer (slot q.cfg used l v a + j) ≡ fast (slot q.cfg q.cfg.max_context l v a + j)
    packed =
        subst
          (λ (c : Config).
            (l a j : ℕ) (v : Bool)
            → l < c.n_layers
            → a < used
            → j < half c
            → buffer (slot c used l v a + j) ≡ fast (slot c c.max_context l v a + j))
          same
          λ l a j v hl ha hj.
            (gather_lem (λ l k. true) p dst used l a j v fast gp
              (gather_succeeds p dst used fast gp h fits) hl ha hj).2
