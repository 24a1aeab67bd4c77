-- ===== src/Engine/Materialize/Tests.antt =====
-- Tests of the copies on the device, and their theorems at a model of two layers.
use reflex_llm.Base.{ℕ, ◌+◌, ◌*◌, ◌≡◌, refl, true, false, none, some, [], ltb}
use reflex_llm.KvCache.{Mem}
use reflex_llm.Gguf.Weights.{LayerWeights, no_layer}
use reflex_llm.Engine.Materialize.{
  Dims, Device, Answers, Progress, kquant_tensor_bytes, layer_quant_weight_bytes, specs,
  total_bytes, lay_out, align_up_size, block_bytes, copy_layer_quant_weights_to_device, copy_layers,
  copy_pieces, set_pointers, materialize_layer_weights,
}
use reflex_llm.Engine.Materialize.Copied.{Outcome, copy_layer-Outcome}

abbrev dims : Dims
dims = record {
  hidden_dim = 256;
  n_heads = 2;
  n_kv_heads = 1;
  head_dim = 128;
  intermediate_dim = 512;
}

abbrev host : Mem
host a = a + 1

-- Six weights of Q4_K and one of Q6_K.
abbrev weights : LayerWeights
weights = record no_layer {
  wq = some 1000000;
  wk = some 2000000;
  wv = some 3000000;
  wo = some 4000000;
  w_gate = some 5000000;
  w_up = some 6000000;
  w_down = some 7000000;
  type_wq = 12;
  type_wk = 12;
  type_wv = 14;
  type_wo = 12;
  type_w_gate = 12;
  type_w_up = 12;
  type_w_down = 12;
}

abbrev device : Device
device = record { memory = λ _. 0; owned = []; live = [] }

abbrev all_work : Answers
all_work = record { malloc = λ _. some 65536; copied = λ _. true }

-- The fourth copy fails.
abbrev fourth_fails : Answers
fourth_fails = record { malloc = λ _. some 65536; copied = λ i. ltb i 3 }

layer_size : layer_quant_weight_bytes weights dims ≡ 340224
unfolding layer_quant_weight_bytes total_bytes specs kquant_tensor_bytes block_bytes
layer_size = refl

copy_fails : (copy_layer_quant_weights_to_device fourth_fails host dims weights device).0 ≡ false
unfolding copy_layer_quant_weights_to_device specs lay_out copy_pieces set_pointers align_up_size
    kquant_tensor_bytes block_bytes
copy_fails = refl

copy_works :
    (copy_layer_quant_weights_to_device all_work host dims weights device).1.0.wk ≡ some 102400
unfolding copy_layer_quant_weights_to_device specs lay_out copy_pieces set_pointers align_up_size
    kquant_tensor_bytes block_bytes
copy_works = refl

copy_layer-Outcome_example :
    Outcome all_work host dims weights device
      (copy_layer_quant_weights_to_device all_work host dims weights device)
copy_layer-Outcome_example = copy_layer-Outcome all_work host dims weights device

-- Each layer has its own arena.
abbrev answers : ℕ → Answers
answers l = record { malloc = λ _. some (65536 + l * 1048576); copied = λ _. true }

abbrev two_layers : Progress
two_layers = record { layers = λ _. weights; device = device; total = 0; copied_layers = 0 }

-- With 129 MB free one layer of a MB fits.
one_fits :
    (materialize_layer_weights true true none answers host dims 2 129 two_layers).1.copied_layers
    ≡ 1
unfolding materialize_layer_weights copy_layers layer_quant_weight_bytes total_bytes
    copy_layer_quant_weights_to_device specs lay_out copy_pieces set_pointers align_up_size
    kquant_tensor_bytes block_bytes
one_fits = refl

-- With all layers wanted on the device, that is a failure.
both_wanted :
    (materialize_layer_weights true false none answers host dims 2 129 two_layers).0 ≡ none
unfolding materialize_layer_weights copy_layers layer_quant_weight_bytes total_bytes
    copy_layer_quant_weights_to_device specs lay_out copy_pieces set_pointers align_up_size
    kquant_tensor_bytes block_bytes
both_wanted = refl
