-- ===== src/Gguf/Config.antt =====
-- `load_gguf_config` (src/engine/model.cpp). A float is the word of its bits.
pub mod Entries
pub mod Metadata
pub mod Standard
use reflex_llm.Base.{
  ℕ, zero, suc, ◌+◌, ◌*◌, ◌-◌, ◌/◌, ◌%◌, ◌^◌, ◌≤◌, ◌<◌, Bool, true, false, ◌&&◌, ◌||◌, List, [],
  ◌∷◌, length, take, drop, get_or, Option, none, some, min, codes, c_str, contains, same_bytes, ltb,
  leb, ◌==◌, if◌then◌else◌,
}
use reflex_llm.Base.Int.{ℤ, pos, negsuc}
use reflex_llm.Gguf.Reader.{M, ◌>>=◌, ◌>>◌, return, read, read_u32, read_u64, seek, seeked}
use reflex_llm.Gguf.TensorTable.{
  TensorInfo, skip_string, skip_strings, Parsed, cannot_open, fault, parsed, parse_tensor_infos,
}

pub record ModelConfig : Type 0 where
  pub name : List ℕ
  pub n_layers : ℤ
  pub n_heads : ℤ
  pub n_kv_heads : ℤ
  pub head_dim : ℤ
  pub hidden_dim : ℤ
  pub intermediate_dim : ℤ
  pub vocab_size : ℤ
  pub max_seq_len : ℤ
  pub rope_theta : ℕ
  pub rms_eps : ℕ
  pub rope_neox : Bool

-- `ModelConfig cfg = {}`: 1e-5f is 0x3727C5AC.
abbrev pub default_config : List ℕ → ModelConfig
default_config path = record {
  name = path;
  n_layers = pos 0;
  n_heads = pos 0;
  n_kv_heads = pos 0;
  head_dim = pos 0;
  hidden_dim = pos 0;
  intermediate_dim = pos 0;
  vocab_size = pos 0;
  max_seq_len = pos 0;
  rope_theta = 0;
  rms_eps = 0x3727C5AC;
  rope_neox = false;
}

-- A word of 32 bits stored in an int.
unfoldable pub int_of : ℕ → ℤ
int_of v = if ltb v (2 ^ 31) then pos v else negsuc (2 ^ 32 - 1 - v)

-- The size that the skipping of a long key knows for an element.
unfoldable pub rough_size : ℕ → ℕ
rough_size at =
    if leb at 1 || (at == 7) then 1 else (if leb at 3 then 2 else (if leb at 6 then 4 else 8))

unfoldable pub skip_rough_array : M (Unit {0})
unfolding rough_size skip_strings read_u32 read_u64 seek
skip_rough_array = do
  at ← read_u32
  al ← read_u64
  (if at == 8 then skip_strings al else seek ((al * rough_size at) % 2 ^ 64))

unfoldable pub skip_long : ℕ → M (Unit {0})
unfolding skip_rough_array skip_string seek
skip_long type =
    if leb type 1 || (type == 7)
    then seek 1
    else (if leb type 3
        then seek 2
        else (if leb type 6
            then seek 4
            else (if leb 10 type && leb type 12
                then seek 8
                else (if type == 8
                    then skip_string
                    else (if type == 9 then skip_rough_array else seek 8)))))

abbrev pub has : List ℕ → List ℕ → Bool
has key part = contains part (c_str key)

-- A value of type 4, by the key.
unfoldable pub put_u32 : (key : List ℕ) → ℕ → ModelConfig → ModelConfig
unfolding int_of contains c_str
put_u32 key val cfg =
    if has key (codes "block_count")
    then record cfg { n_layers = int_of val }
    else (if has key (codes "head_count_kv")
        then record cfg { n_kv_heads = int_of val }
        else (if has key (codes "head_count")
            then record cfg { n_heads = int_of val }
            else (if has key (codes "attention.key_length")
                then record cfg { head_dim = int_of val }
                else (if has key (codes "attention.value_length")
                    then record cfg { head_dim = int_of val }
                    else (if has key (codes "embedding_length")
                        then record cfg { hidden_dim = int_of val }
                        else (if has key (codes "feed_forward_length")
                            then record cfg { intermediate_dim = int_of val }
                            else (if has key (codes "vocab_size")
                                then record cfg { vocab_size = int_of val }
                                else (if has key (codes "context_length")
                                    then record cfg { max_seq_len = int_of val }
                                    else cfg))))))))

-- A value of type 6.
unfoldable pub put_f32 : (key : List ℕ) → ℕ → ModelConfig → ModelConfig
unfolding contains c_str
put_f32 key val cfg =
    if has key (codes "rope.freq_base")
    then record cfg { rope_theta = val }
    else (if has key (codes "layer_norm_rms_epsilon") || has key (codes "rms_norm_eps")
        then record cfg { rms_eps = val }
        else cfg)

-- A read of text, which may find fewer bytes: the rest of the buffer is zero.
unfoldable pub read_some : ℕ → M (List ℕ)
read_some n file at = let found = take n (drop at file) in some (found, at + length found)

unfoldable pub any_of : List (List ℕ) → List ℕ → Bool
any_of [] arch = false
any_of (a ∷ rest) arch = same_bytes arch a || any_of rest arch

-- The architectures with the NeoX rotation.
abbrev pub neox : List (List ℕ)
neox =
    codes "qwen"
    ∷ codes "qwen2"
    ∷ codes "qwen3"
    ∷ codes "qwen2moe"
    ∷ codes "qwen3moe"
    ∷ codes "gemma"
    ∷ codes "gemma2"
    ∷ codes "gemma3"
    ∷ codes "phi2"
    ∷ codes "phi3"
    ∷ codes "gptneox"
    ∷ codes "olmo"
    ∷ codes "olmo2"
    ∷ []

-- An architecture that was read short ends in zeros and is none of these.
unfoldable pub put_architecture : (str_len : ℕ) → List ℕ → ModelConfig → ModelConfig
unfolding any_of
put_architecture str_len arch cfg = record cfg {
  rope_neox = (length arch == str_len) && any_of neox arch;
}

-- A value of type 8.
unfoldable pub put_string : (key : List ℕ) (str_len : ℕ) → ModelConfig → M ModelConfig
unfolding put_architecture read_some seek contains c_str
put_string key str_len cfg =
    if has key (codes "general.name") && ltb str_len 256
    then read_some str_len >>= (λ name. return (record cfg { name = c_str name }))
    else (if has key (codes "general.architecture")
        then read_some str_len >>= (λ arch. return (put_architecture str_len arch cfg))
        else seek str_len >> return cfg)

-- A value of another type is taken to have 8 bytes, "rough skip".
unfoldable pub read_value : (key : List ℕ) (vtype : ℕ) → ModelConfig → M ModelConfig
unfolding put_u32 put_f32 put_string read_u32 read_u64 seek
read_value key vtype cfg =
    if vtype == 4
    then read_u32 >>= (λ val. return (put_u32 key val cfg))
    else (if vtype == 6
        then read_u32 >>= (λ val. return (put_f32 key val cfg))
        else (if vtype == 8
            then read_u64 >>= (λ str_len. put_string key str_len cfg)
            else seek 8 >> return cfg))

unfoldable pub read_entry : (key_len : ℕ) → ModelConfig → M ModelConfig
unfolding skip_long read_value read read_u32 seek
read_entry key_len cfg =
    if ltb 255 key_len
    then seek key_len >> (read_u32 >>= (λ type. skip_long type >> return cfg))
    else read key_len >>= λ key. read_u32 >>= λ vtype. read_value key vtype cfg

unfoldable pub read_entries : ℕ → ModelConfig → M ModelConfig
unfolding read_entry read_u64
read_entries zero cfg = return cfg
read_entries (suc n) cfg = do key_len ← read_u64; cfg' ← read_entry key_len cfg; read_entries n cfg'

-- 256 entries at most; without the magic the caller returns at once.
unfoldable pub read_metadata : ModelConfig → M (Bool × ModelConfig)
unfolding read_entries read_u32 read_u64
read_metadata cfg = do
  magic ← read_u32
  version ← read_u32
  n_tensors ← read_u64
  n_kv ← read_u64
  (if magic == 0x46554747
      then read_entries (min n_kv 256) cfg >>= (λ cfg'. return (true, cfg'))
      else return (false, cfg))

-- What is missing is derived or set: 10000.0f is 0x461C4000, and 0.0f is either zero.
unfoldable pub derive_head_dim : ModelConfig → ModelConfig
derive_head_dim cfg = elim cfg.head_dim [
  | pos zero ↦ elim cfg.n_heads [
    | pos (suc n) ↦ elim cfg.hidden_dim [
      | pos (suc h) ↦ record cfg { head_dim = pos (suc h / suc n) }
      | other ↦ cfg
    ]
    | other ↦ cfg
  ]
  | other ↦ cfg
]

abbrev pub is_zero : ℤ → Bool
is_zero (pos n) = n == 0
is_zero (negsuc n) = false

unfoldable pub fill_defaults : ModelConfig → ModelConfig
fill_defaults cfg = record cfg {
  rope_theta =
      if (cfg.rope_theta == 0) || (cfg.rope_theta == 0x80000000)
      then 0x461C4000
      else cfg.rope_theta;
  max_seq_len = if is_zero cfg.max_seq_len then pos 2048 else cfg.max_seq_len;
  n_kv_heads = if is_zero cfg.n_kv_heads then cfg.n_heads else cfg.n_kv_heads;
}

-- `static_cast<int>(std::max(s0, s1))` and the like, on words read as int64_t.
abbrev pub max_signed : ℕ → ℕ → ℕ
max_signed a b =
    if ltb a (2 ^ 63)
    then (if ltb b (2 ^ 63) then (if ltb a b then b else a) else a)
    else (if ltb b (2 ^ 63) then b else (if ltb a b then b else a))

abbrev pub vocab_of : (hidden_dim : ℕ) → TensorInfo → ℕ
vocab_of hidden_dim t =
    let s0 = get_or t.shape 0 0 in
    let s1 = if leb 2 t.n_dims then get_or t.shape 1 0 else 0 in
    if s0 == hidden_dim then s1 else (if s1 == hidden_dim then s0 else max_signed s0 s1)

-- The first tensor of that name gives the size.
unfoldable pub vocab_from : (hidden_dim : ℕ) → List TensorInfo → ℤ
unfolding int_of same_bytes c_str
vocab_from hidden_dim [] = pos 0
vocab_from hidden_dim (t ∷ ts) =
    if same_bytes (c_str t.name) (codes "token_embd.weight")
    then int_of (vocab_of hidden_dim t % 2 ^ 32)
    else vocab_from hidden_dim ts

unfoldable pub default_vocab : ModelConfig → ModelConfig
default_vocab cfg = if is_zero cfg.vocab_size then record cfg { vocab_size = pos 32000 } else cfg

-- `none` where the behaviour is not defined.
unfoldable pub derive_vocab : (file : Option (List ℕ)) → ModelConfig → Option ModelConfig
unfolding vocab_from default_vocab parse_tensor_infos
derive_vocab file cfg = elim cfg.hidden_dim [
  | pos (suc h) ↦
      if is_zero cfg.vocab_size
      then elim (parse_tensor_infos file) [
        | cannot_open ↦ some (default_vocab cfg)
        | fault ↦ none
        | parsed tensors offset ↦
            some (default_vocab (record cfg { vocab_size = vocab_from (suc h) tensors }))
      ]
      else some cfg
  | other ↦ some cfg
]

unfoldable pub finish_config : (file : Option (List ℕ)) → Bool × ModelConfig → Option ModelConfig
unfolding derive_head_dim fill_defaults derive_vocab
finish_config file (false, cfg) = some cfg
finish_config file (true, cfg) = derive_vocab file (fill_defaults (derive_head_dim cfg))

unfoldable pub load_gguf_config : (path : List ℕ) (file : Option (List ℕ)) → Option ModelConfig
unfolding read_metadata finish_config
load_gguf_config path none = some (default_config path)
load_gguf_config path (some file) = elim (read_metadata (default_config path) file 0) [
  | none ↦ none
  | some (found, p) ↦ finish_config (some file) found
]
