-- ===== src/Gguf/Config/Standard.antt =====
-- The configuration that the usual entries of a file give.
use reflex_llm.Base.{ℕ, ◌^◌, ◌<◌, true, List, [], ◌∷◌, codes}
use reflex_llm.Base.Int.{pos}
use reflex_llm.Persistence.Bytes.{le}
use reflex_llm.Gguf.TensorTable.Document.{Document, Value, Tensor, scalar, text}
use reflex_llm.Gguf.Config.{ModelConfig}

-- The numbers of a model.
pub record Shape : Type 0 where
  pub layers : ℕ
  pub heads : ℕ
  pub kv_heads : ℕ
  pub key_length : ℕ
  pub hidden : ℕ
  pub feed_forward : ℕ
  pub vocab : ℕ
  pub context : ℕ
  pub theta : ℕ
  pub eps : ℕ

abbrev word : ℕ → Value
word v = scalar 4 (le 4 v)

abbrev float : ℕ → Value
float v = scalar 6 (le 4 v)

-- The document of a model of the architecture qwen3.
abbrev pub document : Shape → List Tensor → Document
document s tensors = record {
  magic = 0x46554747;
  version = 3;
  kvs =
      (codes "general.architecture", text (codes "qwen3"))
      ∷ (codes "qwen3.block_count", word s.layers)
      ∷ (codes "qwen3.context_length", word s.context)
      ∷ (codes "qwen3.embedding_length", word s.hidden)
      ∷ (codes "qwen3.feed_forward_length", word s.feed_forward)
      ∷ (codes "qwen3.attention.head_count", word s.heads)
      ∷ (codes "qwen3.attention.head_count_kv", word s.kv_heads)
      ∷ (codes "qwen3.rope.freq_base", float s.theta)
      ∷ (codes "qwen3.attention.layer_norm_rms_epsilon", float s.eps)
      ∷ (codes "qwen3.attention.key_length", word s.key_length)
      ∷ (codes "qwen3.vocab_size", word s.vocab)
      ∷ [];
  tensors = tensors;
}

-- The sizes are positive ints, and the floats are words that are not a zero.
pub record IsShape (s : Shape) : Type 0 where
  pub layers_int : s.layers < 2 ^ 31
  pub heads_int : s.heads < 2 ^ 31
  pub kv_heads_int : (0 < s.kv_heads) × (s.kv_heads < 2 ^ 31)
  pub key_length_int : (0 < s.key_length) × (s.key_length < 2 ^ 31)
  pub hidden_int : s.hidden < 2 ^ 31
  pub feed_forward_int : s.feed_forward < 2 ^ 31
  pub vocab_int : (0 < s.vocab) × (s.vocab < 2 ^ 31)
  pub context_int : (0 < s.context) × (s.context < 2 ^ 31)
  pub theta_word : (0 < s.theta) × (s.theta < 2 ^ 31)
  pub eps_word : s.eps < 2 ^ 32

abbrev pub configured : List ℕ → Shape → ModelConfig
configured path s = record {
  name = path;
  n_layers = pos s.layers;
  n_heads = pos s.heads;
  n_kv_heads = pos s.kv_heads;
  head_dim = pos s.key_length;
  hidden_dim = pos s.hidden;
  intermediate_dim = pos s.feed_forward;
  vocab_size = pos s.vocab;
  max_seq_len = pos s.context;
  rope_theta = s.theta;
  rms_eps = s.eps;
  rope_neox = true;
}
