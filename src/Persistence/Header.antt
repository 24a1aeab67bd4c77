-- ===== src/Persistence/Header.antt =====
-- src/persistence/kv_cache_file.h: `KVCacheFileHeader`, packed into 128 bytes.
use reflex_llm.Base.{
  ℕ, ◌<◌, ◌^◌, ◌≡◌, List, ◌++◌, take, drop, length, arith, append_assoc, take-length, drop-length,
  length-append,
}
use reflex_llm.Persistence.Bytes.{le, un_le, un_le-le_32, un_le-le_64}

abbrev pub kvcache_magic : ℕ
kvcache_magic = 0x4D4C4C4A

abbrev pub kvcache_version : ℕ
kvcache_version = 2

pub record Header : Type 0 where
  pub magic : ℕ
  pub version : ℕ
  pub n_layers : ℕ
  pub n_kv_heads : ℕ
  pub head_dim : ℕ
  pub kv_type_bytes : ℕ
  pub max_context : ℕ
  pub used_tokens : ℕ
  pub body_bytes : ℕ
  pub model_hash : List ℕ
  pub reserved : List ℕ

abbrev pub header_bytes : ℕ
header_bytes = 128

-- The bytes of the packed struct.
unfoldable pub encode : Header → List ℕ
unfolding le
encode h =
    le 4 h.magic
    ++ (le 4 h.version
        ++ (le 4 h.n_layers
            ++ (le 4 h.n_kv_heads
                ++ (le 4 h.head_dim
                    ++ (le 4 h.kv_type_bytes
                        ++ (le 4 h.max_context
                            ++ (le 4 h.used_tokens
                                ++ (le 8 h.body_bytes ++ (h.model_hash ++ h.reserved)))))))))

unfoldable pub decode : List ℕ → Header
unfolding un_le
decode bs = record {
  magic = un_le (take 4 bs);
  version = un_le (take 4 (drop 4 bs));
  n_layers = un_le (take 4 (drop 8 bs));
  n_kv_heads = un_le (take 4 (drop 12 bs));
  head_dim = un_le (take 4 (drop 16 bs));
  kv_type_bytes = un_le (take 4 (drop 20 bs));
  max_context = un_le (take 4 (drop 24 bs));
  used_tokens = un_le (take 4 (drop 28 bs));
  body_bytes = un_le (take 8 (drop 32 bs));
  model_hash = take 32 (drop 40 bs);
  reserved = take 56 (drop 72 bs);
}

-- The fields fit their C types.
pub record Fits (h : Header) : Type 0 where
  pub magic_32 : h.magic < 2 ^ 32
  pub version_32 : h.version < 2 ^ 32
  pub n_layers_32 : h.n_layers < 2 ^ 32
  pub n_kv_heads_32 : h.n_kv_heads < 2 ^ 32
  pub head_dim_32 : h.head_dim < 2 ^ 32
  pub kv_type_bytes_32 : h.kv_type_bytes < 2 ^ 32
  pub max_context_32 : h.max_context < 2 ^ 32
  pub used_tokens_32 : h.used_tokens < 2 ^ 32
  pub body_bytes_64 : h.body_bytes < 2 ^ 64
  pub model_hash_32 : length h.model_hash ≡ 32
  pub reserved_56 : length h.reserved ≡ 56

pub length-encode : (h : Header) → Fits h → length (encode h) ≡ 128
unfolding encode
length-encode h f = omega (arith, length-append h.model_hash h.reserved)

-- Reading back the bytes of a header gives the header, whatever follows in the file.
pub decode-encode : (h : Header) (rest : List ℕ) → Fits h → decode (encode h ++ rest) ≡ h
unfolding encode decode
decode-encode h rest f = λ i. record {
  magic = un_le-le_32 h.magic f.magic_32 i;
  version = un_le-le_32 h.version f.version_32 i;
  n_layers = un_le-le_32 h.n_layers f.n_layers_32 i;
  n_kv_heads = un_le-le_32 h.n_kv_heads f.n_kv_heads_32 i;
  head_dim = un_le-le_32 h.head_dim f.head_dim_32 i;
  kv_type_bytes = un_le-le_32 h.kv_type_bytes f.kv_type_bytes_32 i;
  max_context = un_le-le_32 h.max_context f.max_context_32 i;
  used_tokens = un_le-le_32 h.used_tokens f.used_tokens_32 i;
  body_bytes = un_le-le_64 h.body_bytes f.body_bytes_64 i;
  model_hash = hash i;
  reserved = reserved i;
}
  where
    hash : take 32 ((h.model_hash ++ h.reserved) ++ rest) ≡ h.model_hash
    hash = rw append_assoc (take-length h.model_hash (h.reserved ++ rest) 32 f.model_hash_32)

    reserved : take 56 (drop 32 ((h.model_hash ++ h.reserved) ++ rest)) ≡ h.reserved
    reserved =
        rw (append_assoc, drop-length h.model_hash (h.reserved ++ rest) 32 f.model_hash_32)
          (take-length h.reserved rest 56 f.reserved_56)
