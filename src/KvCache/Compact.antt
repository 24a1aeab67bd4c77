-- ===== src/KvCache/Compact.antt =====
-- The compaction in `Engine::try_hydrate_kv` (src/engine/decode.cu): a packed buffer of `used`
-- positions is cut to one of `matched` positions.
use reflex_llm.Base.{
  ℕ, ◌+◌, ◌*◌, ◌/◌, ◌≤◌, ◌<◌, ◌≡◌, ◌∙◌, ap, sym, refl, else_false, Bool, true, false, some, arith,
  ltb, ◌==◌, ◌||◌,
}
use reflex_llm.Base.Int.{pos}
use reflex_llm.KvCache.{
  Mem, memcpy, zeros, for_layers, Config, KvCachePool, entry_bytes, gather_layer,
  gather_used_to_host,
}
use reflex_llm.KvCache.Layout.{half, slot}
use reflex_llm.KvCache.Gather.{gather_lem, gather_succeeds}

-- One round of the loop; no step of it can fail.
compact_layer : Config → (used matched : ℕ) → (staging : Mem) → ℕ → Mem → Bool × Mem
compact_layer c used matched staging l compact =
    let eb = entry_bytes c in
    let half_eb = eb / 2 in
    let matched_keys_bytes = matched * half_eb in
    let src_keys = l * (used * eb) in
    let src_vals = src_keys + used * half_eb in
    let dst_keys = l * (matched * eb) in
    let dst_vals = dst_keys + matched_keys_bytes in
    let keys = memcpy compact dst_keys staging src_keys matched_keys_bytes in
    (true, memcpy keys dst_vals staging src_vals matched_keys_bytes)

-- A vector starts with zeros.
pub compact : Config → (used matched : ℕ) → (staging : Mem) → Mem
unfolding compact_layer
compact c used matched staging =
    (for_layers c.n_layers 0 (compact_layer c used matched staging) zeros).1

module _ (c : Config) (used matched : ℕ) (staging : Mem) (positive : 0 < matched)
    (fits : matched ≤ used) where
  -- The packed buffer as a pool of `used` positions.
  narrow : KvCachePool
  narrow = record {
    cfg = record c { max_context = used };
    gpu_pool = some staging;
    cpu_pool = some zeros;
    kv_scales = false;
    used_tokens = used;
    gpu_tokens = pos used;
  }

  as_gather :
      compact c used matched staging ≡ (gather_used_to_host (λ l k. true) narrow zeros matched).1
  unfolding compact compact_layer gather_used_to_host gather_layer narrow entry_bytes
  as_gather = sym (
      ap (λ (r : Bool × Mem). r.1)
        (else_false (matched == 0 || ltb used matched) _ _ (ground arith)))

  -- Byte `j` of every key and value of the first `matched` positions is where a packed buffer of
  -- `matched` positions has it.
  pub compact_lem :
      (l a j : ℕ) (v : Bool)
      → l < c.n_layers
      → a < matched
      → j < half c
      → compact c used matched staging (slot c matched l v a + j) ≡ staging (slot c used l v a + j)
  unfolding narrow entry_bytes
  compact_lem l a j v h k m =
      ap (λ (f : Mem). f (slot c matched l v a + j)) as_gather
      ∙ (gather_lem (λ l k. true) narrow zeros matched l a j v staging refl
          (gather_succeeds narrow zeros matched staging refl positive fits) h k m).2
