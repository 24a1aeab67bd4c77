-- ===== src/Engine/Hydrate.antt =====
-- `Engine::try_hydrate_kv`. Token ids are natural numbers below 2 ^ 31, in `int` and in `uint32_t`.
use reflex_llm.Base.{
  same_bytes, ℕ, suc, Bool, true, false, not, ◌&&◌, ◌||◌, none, some, List, [], ◌∷◌, length, get_or,
  ltb, ◌==◌, if◌then◌else◌,
}
use reflex_llm.KvCache.{Mem, Config, KvCachePool, scatter_from_host}
use reflex_llm.KvCache.Compact.{compact}
use reflex_llm.Persistence.Header.{Header}
use reflex_llm.Persistence.Files.{Files}
use reflex_llm.Persistence.Load.{LoadCalls, load_kv_from_file, peek_kv_header}
use reflex_llm.ConversationId.{validate_conversation_id, path_for_conv_id}

-- The loop that counts `matched`.
unfoldable pub common_prefix : List ℕ → List ℕ → ℕ
common_prefix [] ps = 0
common_prefix (c ∷ cs) [] = 0
common_prefix (c ∷ cs) (p ∷ ps) = let rest = common_prefix cs ps in if c == p then suc rest else 0

-- A vector of bytes as a memory.
unfoldable pub mem_of : List ℕ → Mem
mem_of bytes a = get_or bytes a 0

unfoldable pub has_shape : Config → Header → Bool
has_shape c h =
    (h.n_layers == c.n_layers)
    && ((h.n_kv_heads == c.n_kv_heads)
        && ((h.head_dim == c.head_dim)
            && ((h.max_context == c.max_context) && (h.kv_type_bytes == c.kv_type_bytes))))

-- The answers of one call.
pub record HydrateCalls : Type 0 where
  pub peek : LoadCalls
  pub load : LoadCalls
  pub cuda : ℕ → ℕ → Bool

abbrev pub is_empty : List ℕ → Bool
is_empty [] = true
is_empty (x ∷ xs) = false

-- The compaction and the scatter, once `matched` is known.
unfoldable pub scatter_matched :
    HydrateCalls → (used matched : ℕ) → (staging : List ℕ) → KvCachePool → ℕ × KvCachePool
scatter_matched calls used matched staging pool =
    let r =
      scatter_from_host calls.cuda (compact pool.cfg used matched (mem_of staging)) matched true
        pool in
    if matched == 0 then (0, pool) else (if not r.0 then (0, r.1) else (matched, r.1))

unfoldable pub hydrate_loaded :
    HydrateCalls → Header → (prompt cached staging : List ℕ) → KvCachePool → ℕ × KvCachePool
unfolding scatter_matched
hydrate_loaded calls hdr prompt cached staging pool =
    let rest = scatter_matched calls hdr.used_tokens (common_prefix cached prompt) staging pool in
    if not (length cached == hdr.used_tokens) then (0, pool) else rest

-- From the header on. The load gets a buffer of `body_bytes`.
unfoldable pub hydrate_file :
    HydrateCalls
    → (path fingerprint : List ℕ) → Files
    → Header
    → (prompt : List ℕ) → KvCachePool
    → ℕ × KvCachePool
unfolding hydrate_loaded
hydrate_file calls path fingerprint fs hdr prompt pool =
    let loaded : ℕ × KvCachePool = elim (load_kv_from_file calls.load path true hdr.body_bytes fs) [
      | none ↦ (0, pool)
      | some (hdr₂, cached, staging) ↦ hydrate_loaded calls hdr prompt cached staging pool
    ] in
    if not (same_bytes hdr.model_hash fingerprint)
    then (0, pool)
    else (if not (has_shape pool.cfg hdr)
        then (0, pool)
        else (if (hdr.used_tokens == 0) || ltb pool.cfg.max_context hdr.used_tokens
            then (0, pool)
            else loaded))

-- The number of prompt tokens whose keys and values are in the pool afterwards, and the pool.
unfoldable pub try_hydrate_kv :
    HydrateCalls
    → (dir fingerprint : List ℕ) → Files
    → (prompt conv_id : List ℕ) → KvCachePool
    → ℕ × KvCachePool
unfolding hydrate_file
try_hydrate_kv calls dir fingerprint fs prompt conv_id pool =
    let path = path_for_conv_id dir conv_id in
    let peeked : ℕ × KvCachePool = elim (peek_kv_header calls.peek path fs) [
      | none ↦ (0, pool)
      | some hdr ↦ hydrate_file calls path fingerprint fs hdr prompt pool
    ] in
    if is_empty conv_id || not (validate_conversation_id conv_id)
    then (0, pool)
    else (if is_empty prompt then (0, pool) else peeked)
