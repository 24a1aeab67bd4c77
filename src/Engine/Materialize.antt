-- ===== src/Engine/Materialize.antt =====
-- The copies of the layers' weights on the device (src/engine/decode.cu): `kquant_tensor_bytes`,
-- `copy_layer_quant_weights_to_device` and `materialize_layer_weights`. Dimensions are natural numbers:
-- the code refuses what is not positive, as it does 0 here. What `cudaMalloc` and `cudaMemcpy` answer
-- are arguments; the release of host pages, a hint to the kernel, is left out.
pub mod Arena
pub mod Copied
pub mod Fits
mod Tests
use reflex_llm.Base.{
  ℕ, zero, suc, ◌+◌, ◌-◌, ◌*◌, ◌/◌, ◌%◌, Bool, true, false, not, ◌&&◌, ◌||◌, Option, none, some,
  List, [], ◌∷◌, ◌++◌, map, min, leb, ltb, ◌==◌, if◌then◌else◌,
}
use reflex_llm.KvCache.{Mem, memcpy}
use reflex_llm.Gguf.Weights.{LayerWeights}

-- The fields of `ModelConfig` that give the shapes.
pub record Dims : Type 0 where
  pub hidden_dim : ℕ
  pub n_heads : ℕ
  pub n_kv_heads : ℕ
  pub head_dim : ℕ
  pub intermediate_dim : ℕ

-- Q4_K, Q5_K and Q6_K; 0 for other types.
unfoldable pub block_bytes : (ggml_type : ℕ) → ℕ
block_bytes ggml_type =
    if ggml_type == 12
    then 144
    else (if ggml_type == 13 then 176 else (if ggml_type == 14 then 210 else 0))

unfoldable pub kquant_tensor_bytes : (ggml_type rows cols : ℕ) → ℕ
unfolding block_bytes
kquant_tensor_bytes ggml_type rows cols =
    if (rows == 0) || ((cols == 0) || not (cols % 256 == 0))
    then 0
    else rows * (cols / 256) * block_bytes ggml_type

unfoldable pub align_up_size : (value alignment : ℕ) → ℕ
align_up_size value alignment = (value + alignment - 1) / alignment * alignment

-- A weight to copy: where it is, and its size (`sizes[i]`).
pub record Spec : Type 0 where
  pub src : Option ℕ
  pub bytes : ℕ

unfoldable pub specs : LayerWeights → Dims → List Spec
unfolding kquant_tensor_bytes
specs lw d =
    let q = d.n_heads * d.head_dim in
    let kv = d.n_kv_heads * d.head_dim in
    let h = d.hidden_dim in
    let i = d.intermediate_dim in
    (record { src = lw.wq; bytes = kquant_tensor_bytes lw.type_wq q h })
    ∷ (record { src = lw.wk; bytes = kquant_tensor_bytes lw.type_wk kv h })
    ∷ (record { src = lw.wv; bytes = kquant_tensor_bytes lw.type_wv kv h })
    ∷ (record { src = lw.wo; bytes = kquant_tensor_bytes lw.type_wo h q })
    ∷ (record { src = lw.w_gate; bytes = kquant_tensor_bytes lw.type_w_gate i h })
    ∷ (record { src = lw.w_up; bytes = kquant_tensor_bytes lw.type_w_up i h })
    ∷ (record { src = lw.w_down; bytes = kquant_tensor_bytes lw.type_w_down h i })
    ∷ []

unfoldable pub total_bytes : List Spec → ℕ
total_bytes [] = 0
total_bytes (s ∷ ss) = s.bytes + total_bytes ss

unfoldable pub layer_quant_weight_bytes : LayerWeights → Dims → ℕ
unfolding specs total_bytes
layer_quant_weight_bytes lw d = total_bytes (specs lw d)

-- A weight's place in the arena.
pub record Piece : Type 0 where
  pub src : ℕ
  pub offset : ℕ
  pub size : ℕ

-- The pieces from `arena_bytes` on and the size of the arena; `none` where a weight is missing or of
-- a type or shape that is not known.
unfoldable pub lay_out : (arena_bytes : ℕ) → List Spec → Option (List Piece × ℕ)
unfolding align_up_size
lay_out arena_bytes [] = some ([], arena_bytes)
lay_out arena_bytes (s ∷ ss) =
    let rest = lay_out (arena_bytes + align_up_size s.bytes 256) ss in
    if s.bytes == 0 then none else elim s.src [
      | none ↦ none
      | some src ↦ elim rest [
        | none ↦ none
        | some (ps, all) ↦
            some ((record { src = src; offset = arena_bytes; size = s.bytes }) ∷ ps, all)
      ]
    ]

-- The copies, up to the first that fails. `ok` says which succeed.
unfoldable pub copy_pieces :
    (ok : ℕ → Bool) (i : ℕ) (host : Mem) (arena : ℕ) → List Piece → Mem → Bool × Mem
copy_pieces ok i host arena [] device = (true, device)
copy_pieces ok i host arena (p ∷ ps) device =
    let rest =
      copy_pieces ok (suc i) host arena ps (memcpy device (arena + p.offset) host p.src p.size) in
    if ok i then rest else (false, device)

-- `*specs[i].dst = copied[i]`
unfoldable pub set_pointers : List ℕ → LayerWeights → LayerWeights
set_pointers (a ∷ b ∷ c ∷ d ∷ e ∷ f ∷ g ∷ []) lw = record lw {
  wq = some a;
  wk = some b;
  wv = some c;
  wo = some d;
  w_gate = some e;
  w_up = some f;
  w_down = some g;
}
set_pointers other lw = lw

-- `live` are the allocations that are not freed.
pub record Device : Type 0 where
  pub memory : Mem
  pub owned : List ℕ
  pub live : List ℕ

-- What the calls for one layer answer.
pub record Answers : Type 0 where
  pub malloc : ℕ → Option ℕ
  pub copied : ℕ → Bool

unfoldable pub copy_layer_quant_weights_to_device :
    Answers → (host : Mem) → Dims → LayerWeights → Device → Bool × (LayerWeights × Device)
unfolding specs lay_out copy_pieces set_pointers
copy_layer_quant_weights_to_device answers host d lw dev = elim (lay_out 0 (specs lw d)) [
  | none ↦ (false, (lw, dev))
  | some (ps, arena_bytes) ↦ elim (answers.malloc arena_bytes) [
    | none ↦ (false, (lw, dev))
    | some arena ↦
        let done = copy_pieces answers.copied 0 host arena ps dev.memory in
        if done.0
        then (
          true,
          (
            set_pointers (map {A = Piece} (λ p. arena + p.offset) ps) lw,
            (record {
              memory = done.1;
              owned = dev.owned ++ (arena ∷ []);
              live = arena ∷ dev.live;
            }),
          ),
        )
        else (false, (lw, record dev { memory = done.1 }))
  ]
]

abbrev pub megabytes : ℕ → ℕ
megabytes bytes = (bytes + 1024 * 1024 - 1) / (1024 * 1024)

-- The layers, the device, the bytes copied and the layers copied.
pub record Progress : Type 0 where
  pub layers : ℕ → LayerWeights
  pub device : Device
  pub total : ℕ
  pub copied_layers : ℕ

abbrev pub put_layer : ℕ → LayerWeights → (ℕ → LayerWeights) → ℕ → LayerWeights
put_layer l lw layers k = if k == l then lw else layers k

-- The loop from layer l on, for n layers at most. A budget below zero is 0 here, since a layer is
-- copied only where 128 MB and more are free.
unfoldable pub copy_layers :
    (ℕ → Answers) → (host : Mem) → Dims → (n l free_mb : ℕ) → Progress → Progress
unfolding layer_quant_weight_bytes copy_layer_quant_weights_to_device
copy_layers answers host d zero l free_mb p = p
copy_layers answers host d (suc n) l free_mb p =
    let bytes = layer_quant_weight_bytes (p.layers l) d in
    let mb = megabytes bytes in
    let done = copy_layer_quant_weights_to_device (answers l) host d (p.layers l) p.device in
    let rest = copy_layers answers host d n (suc l) (free_mb - mb) (record {
      layers = put_layer l done.1.0 p.layers;
      device = done.1.1;
      total = p.total + bytes;
      copied_layers = suc p.copied_layers;
    }) in
    if bytes == 0
    then p
    else (if ltb free_mb (mb + 128)
        then p
        else (if done.0 then rest else record p { device = done.1.1 }))

-- `JLLM_DEVICE_LAYERS` is a number of layers, or `none` for -1; `mapped` is JLLM_MAPPED_WEIGHTS, `fast`
-- JLLM_FAST_GEMV. `none` is (size_t)-1, the failure where all layers have to be on the device.
unfoldable pub materialize_layer_weights :
    (fast mapped : Bool) (limit : Option ℕ)
    → (ℕ → Answers)
    → (host : Mem) → Dims
    → (n_layers free_mb : ℕ) → Progress
    → Option ℕ × Progress
unfolding copy_layers
materialize_layer_weights fast mapped limit answers host d n_layers free_mb p =
    let cap : ℕ = elim limit [ none ↦ n_layers | some n ↦ min n n_layers ] in
    let end = copy_layers answers host d cap 0 free_mb p in
    let no_layers : Bool = elim limit [ some zero ↦ true | other ↦ false ] in
    if not fast || no_layers
    then (some 0, p)
    else (if not mapped && ltb cap n_layers
        then (none, p)
        else (if not mapped && ltb end.copied_layers n_layers
            then (none, end)
            else (some end.total, end)))
