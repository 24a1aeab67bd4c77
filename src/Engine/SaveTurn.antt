-- ===== src/Engine/SaveTurn.antt =====
-- The end of `Engine::generate`: the KV cache of a tagged conversation is saved.
use reflex_llm.Base.{
  ℕ, suc, zero, ◌+◌, Bool, true, false, not, ◌||◌, none, some, List, [], ◌∷◌, length, ltb,
  if◌then◌else◌,
}
use reflex_llm.KvCache.{Mem, zeros, Config, KvCachePool, packed_used_bytes, gather_used_to_host}
use reflex_llm.Persistence.Header.{Header, kvcache_magic, kvcache_version}
use reflex_llm.Persistence.Files.{FilePath, Files, update}
use reflex_llm.Persistence.Save.{SaveCalls, save_kv_to_file}
use reflex_llm.Persistence.Budget.{
  DirEntry, CacheEntry, enforce_kv_cache_budget, cleanup_stale_tmp_files,
}
use reflex_llm.ConversationId.{validate_conversation_id, path_for_conv_id}
use reflex_llm.Engine.Hydrate.{is_empty}

-- The first `n` bytes of a memory from `a` on, as a vector.
unfoldable pub bytes_of : Mem → (a n : ℕ) → List ℕ
bytes_of m a zero = []
bytes_of m a (suc n) = m a ∷ bytes_of m (a + 1) n

-- `reserved` is zero.
abbrev pub zero_bytes : ℕ → List ℕ
zero_bytes zero = []
zero_bytes (suc n) = 0 ∷ zero_bytes n

unfoldable pub turn_header : Config → (fingerprint : List ℕ) → (committed_tokens : ℕ) → Header
turn_header c fingerprint committed = record {
  magic = kvcache_magic;
  version = kvcache_version;
  n_layers = c.n_layers;
  n_kv_heads = c.n_kv_heads;
  head_dim = c.head_dim;
  kv_type_bytes = c.kv_type_bytes;
  max_context = c.max_context;
  used_tokens = committed;
  body_bytes = packed_used_bytes c committed;
  model_hash = fingerprint;
  reserved = zero_bytes 56;
}

-- The answers of one turn end: of CUDA, of the save's system calls, and of what follows a save. The
-- directory is read twice then, for the temporary files and for the budget.
pub record TurnCalls : Type 0 where
  pub cuda : ℕ → ℕ → Bool
  pub ensures_dir : Bool
  pub save : SaveCalls
  pub now : ℕ
  pub stale_s : ℕ
  pub max_bytes : ℕ
  pub unlinks : FilePath → Bool
  pub sort : List CacheEntry → List CacheEntry
  pub first_listing : List DirEntry
  pub second_listing : List DirEntry

unfoldable pub remove_files : List CacheEntry → Files → Files
remove_files [] fs = fs
remove_files (e ∷ es) fs = remove_files es (update fs e.path none)

-- `cleanup_stale_tmp_files` and `enforce_kv_cache_budget`, after a save.
unfoldable pub tidy : TurnCalls → (path : FilePath) → Files → Files
unfolding remove_files
tidy calls path fs =
    let stale = cleanup_stale_tmp_files calls.now calls.stale_s calls.unlinks calls.first_listing in
    let evicted =
      enforce_kv_cache_budget calls.sort calls.max_bytes path calls.unlinks calls.second_listing in
    remove_files evicted.gone (remove_files stale.0 fs)

unfoldable pub save_packed :
    TurnCalls
    → (path fingerprint : List ℕ) → Config
    → (kv_tokens : List ℕ) → (staging : List ℕ) → Files
    → Bool × Files
unfolding tidy turn_header
save_packed calls path fingerprint c kv_tokens staging fs =
    let committed = length kv_tokens in
    let saved =
      save_kv_to_file calls.save path (turn_header c fingerprint committed) (some kv_tokens)
        committed staging (packed_used_bytes c committed) fs in
    if saved.0 then (true, tidy calls path saved.1) else (false, saved.1)

-- Whether the turn was saved, and the files.
unfoldable pub save_turn :
    TurnCalls
    → (dir fingerprint : List ℕ) → (kv_int8 : Bool) → KvCachePool
    → (kv_tokens conv_id : List ℕ) → Files
    → Bool × Files
unfolding save_packed bytes_of
save_turn calls dir fingerprint kv_int8 pool kv_tokens conv_id fs =
    let path = path_for_conv_id dir conv_id in
    let committed = length kv_tokens in
    let gathered = gather_used_to_host calls.cuda pool zeros committed in
    let staging = bytes_of gathered.1 0 (packed_used_bytes pool.cfg committed) in
    let written = save_packed calls path fingerprint pool.cfg kv_tokens staging fs in
    if is_empty conv_id || not (validate_conversation_id conv_id)
    then (false, fs)
    else (if ltb committed 4
        then (false, fs)
        else (if ltb pool.cfg.max_context committed
            then (false, fs)
            else (if kv_int8
                then (false, fs)
                else (if not calls.ensures_dir
                    then (false, fs)
                    else (if gathered.0 then written else (false, fs))))))
