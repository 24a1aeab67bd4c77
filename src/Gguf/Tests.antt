-- ===== src/Gguf/Tests.antt =====
-- Tests of the loader, and its theorems at a file with two tensors.
use reflex_llm.Base.{
  ℕ, ◌+◌, ◌-◌, ◌^◌, ◌%◌, ◌≤◌, ◌<◌, ◌≡◌, ◌↔◌, refl, sym, Bool, true, [], ◌∷◌, ◌++◌, length, map,
  none, some, codes, contains, starts_with, same_bytes, arith,
}
use reflex_llm.Persistence.Bytes.{le, un_le}
use reflex_llm.Gguf.TensorTable.{parsed, fault, parse_tensor_infos, gguf_scalar_size}
use reflex_llm.Gguf.TensorTable.Document.{
  Document, DocumentFits, Tensor, scalar, text, scalars, texts, encode, info_of,
}
use reflex_llm.Gguf.TensorTable.RoundTrip.{parse-encode}
use reflex_llm.Gguf.Weights.{
  ModelWeights, no_layer, Place, in_layer, wq, k_norm, loaded, load_and_map_weights, place_of,
  blk_layer, signed, unsigned, read_decimal, starts_with_digit, skip_blanks, slot_of,
}
use reflex_llm.Gguf.Weights.Names.{tensor_name, decimal, decimal_in}
use reflex_llm.Gguf.Weights.Placed.{
  pointer, pointer_at, wanted, address_for, load_and_map_weights-wanted,
}
use reflex_llm.Gguf.Weights.Named.{load_and_map_weights-tensor_name}
use reflex_llm.Base.{inl, inr, All}
use reflex_llm.Base.Int.{pos}
use reflex_llm.Gguf.Config.{default_config, load_gguf_config}
use reflex_llm.Gguf.Config.Entries.{IsPlain}
use reflex_llm.Gguf.Config.Standard.{Shape}
use reflex_llm.Gguf.Region.{
  no_region, resolve_mapped_weight_device_ptr, load_gguf_weights, load_gguf_weights-resolves,
}

abbrev embedding : Tensor
embedding = record { name = codes "token_embd.weight"; dims = 4 ∷ 7 ∷ []; type = 0; offset = 0 }

abbrev query : Tensor
query = record { name = codes "blk.12.attn_q.weight"; dims = 4 ∷ []; type = 12; offset = 128 }

abbrev small : Document
small = record {
  magic = 0x46554747;
  version = 3;
  kvs =
      (codes "a", scalar 4 (1 ∷ 0 ∷ 0 ∷ 0 ∷ []))
      ∷ (codes "b", texts ((1 ∷ []) ∷ [] ∷ []))
      ∷ (codes "c", scalars 2 1 (5 ∷ 5 ∷ []))
      ∷ (codes "d", text (9 ∷ 8 ∷ []))
      ∷ [];
  tensors = embedding ∷ query ∷ [];
}

small_fits : DocumentFits small
unfolding gguf_scalar_size
small_fits = omega arith

small_size : length (encode small ++ (7 ∷ [])) < 2 ^ 63
unfolding encode le
small_size = omega arith

query_name : tensor_name 12 wq ≡ codes "blk.12.attn_q.weight"
unfolding tensor_name decimal decimal_in
query_name = refl

-- A name without the point behind the number is taken all the same.
no_point : place_of 20 (codes "blk.3attn_k_norm.weight") ≡ in_layer 3 k_norm
unfolding place_of blk_layer signed unsigned read_decimal starts_with_digit skip_blanks slot_of
    contains starts_with same_bytes
no_point = refl

-- A fifth dimension has no place in the array of the shape.
five_dims :
    parse_tensor_infos (
      some
        (encode (record small { tensors = (record query { dims = 1 ∷ 1 ∷ 1 ∷ 1 ∷ 1 ∷ [] }) ∷ [] })))
    ≡ fault
unfolding encode parse_tensor_infos le un_le
five_dims = refl

parse_small :
    parse_tensor_infos (some (encode small ++ (7 ∷ 7 ∷ [])))
    ≡ parsed (map info_of small.tensors) 256
unfolding encode parse_tensor_infos le un_le
parse_small = refl

parse-encode_example :
    (offset : ℕ) × (parse_tensor_infos (some (encode small ++ (7 ∷ [])))
      ≡ parsed (map info_of small.tensors) offset)
    × (offset % 32 ≡ 0)
    × (length (encode small) ≤ offset)
    × (offset < length (encode small) + 32)
parse-encode_example = parse-encode small (7 ∷ []) small_fits small_size

abbrev nothing : ModelWeights
nothing = record {
  tok_embd = none;
  output_norm = none;
  embd_type = 0;
  output = none;
  output_type = 12;
  layers = λ _. no_layer;
  n_layers = 0;
}

-- The file has no output tensor, so the output is the embedding.
load_and_map_weights-wanted_example :
    (offset : ℕ) × (w' : ModelWeights) × (ok : Bool) × (load_and_map_weights
        (some (encode small ++ (7 ∷ [])))
        (some 4096)
        20
        nothing
      ≡ loaded w' ok)
    × (offset % 32 ≡ 0)
    × (length (encode small) ≤ offset)
    × (offset < length (encode small) + 32)
    × (pointer_at Place.output w'
        ≡ wanted Place.output (address_for 20 (4096 + offset) (embedding ∷ query ∷ [])))
load_and_map_weights-wanted_example =
    load_and_map_weights-wanted small (7 ∷ []) 4096 20 nothing Place.output small_fits small_size
      (refl, refl, refl)

load_and_map_weights-tensor_name_example :
    (offset : ℕ) × (w' : ModelWeights) × (ok : Bool) × (load_and_map_weights
        (some (encode small ++ (7 ∷ [])))
        (some 4096)
        20
        nothing
      ≡ loaded w' ok)
    × (offset % 32 ≡ 0)
    × (length (encode small) ≤ offset)
    × (offset < length (encode small) + 32)
    × (pointer wq (w'.layers 12) ≡ some (4096 + offset + 128))
load_and_map_weights-tensor_name_example =
    load_and_map_weights-tensor_name small (7 ∷ []) 4096 20 nothing 12 wq (embedding ∷ []) query []
      small_fits small_size (refl, refl, refl) refl (sym query_name) (omega arith) (omega arith)
      (tt)

load_gguf_weights-resolves_example :
    (resolve_mapped_weight_device_ptr 4100
        (load_gguf_weights 64 true (some 4096) true true 9000 no_region).1
      ≡ some 9004)
    ↔ ((4096 ≤ 4100) × (4100 < 4096 + 64) × (◌≡◌ {A = ℕ} 9004 (9000 + (4100 - 4096))))
load_gguf_weights-resolves_example =
    load_gguf_weights-resolves 64 4096 9000 4100 9004 no_region (omega arith) (omega arith)

-- Two layers, a head size derived from the heads, and a name.
abbrev tiny : Document
tiny = record {
  magic = 0x46554747;
  version = 3;
  kvs =
      (codes "x.block_count", scalar 4 (2 ∷ 0 ∷ 0 ∷ 0 ∷ []))
      ∷ (codes "x.attention.head_count", scalar 4 (4 ∷ 0 ∷ 0 ∷ 0 ∷ []))
      ∷ (codes "general.name", text (codes "tiny"))
      ∷ (codes "x.embedding_length", scalar 4 (32 ∷ 0 ∷ 0 ∷ 0 ∷ []))
      ∷ (codes "x.size", scalar 10 (1 ∷ 0 ∷ 0 ∷ 0 ∷ 0 ∷ 0 ∷ 0 ∷ 0 ∷ []))
      ∷ [];
  tensors = (record embedding { dims = 32 ∷ 100 ∷ [] }) ∷ [];
}

tiny_fits : DocumentFits tiny
unfolding gguf_scalar_size
tiny_fits = omega arith

tiny_size : length (encode tiny ++ []) < 2 ^ 63
unfolding encode le
tiny_size = omega arith

tiny-IsPlain : All IsPlain tiny.kvs
tiny-IsPlain = (
  (omega arith, inl (refl, refl)),
  (
    (omega arith, inl (refl, refl)),
    (
      (omega arith, omega arith),
      (
        (omega arith, inl (refl, refl)),
        ((omega arith, inr (inr (omega arith, omega arith, refl))), tt),
      ),
    ),
  ),
)

load_tiny :
    load_gguf_config (codes "m.gguf") (some (encode tiny))
    ≡ some (record (default_config (codes "tiny")) {
      n_layers = pos 2;
      n_heads = pos 4;
      n_kv_heads = pos 4;
      head_dim = pos 8;
      hidden_dim = pos 32;
      vocab_size = pos 100;
      max_seq_len = pos 2048;
      rope_theta = 0x461C4000;
    })
unfolding encode load_gguf_config le un_le
load_tiny = refl

abbrev shape : Shape
shape = record {
  layers = 28;
  heads = 16;
  kv_heads = 8;
  key_length = 128;
  hidden = 1024;
  feed_forward = 3072;
  vocab = 151936;
  context = 40960;
  theta = 0x49742400;
  eps = 0x358637BD;
}
