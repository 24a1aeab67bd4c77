-- ===== src/Gguf/Weights.antt =====
-- `load_and_map_weights` (src/engine/model.cpp): a pointer into the mapped file for each tensor that
-- the decoder knows by name. Addresses are numbers, and `none` is a null pointer.
pub mod Names
pub mod Named
pub mod Placed
use reflex_llm.Base.{
  ℕ, zero, suc, ◌+◌, ◌*◌, ◌-◌, ◌≤◌, ◌<◌, Bool, true, false, ◌&&◌, ◌||◌, List, [], ◌∷◌, Option, none,
  some, codes, c_str, contains, same_bytes, ltb, leb, ◌==◌, if◌then◌else◌,
}
use reflex_llm.Gguf.TensorTable.{TensorInfo, Parsed, cannot_open, fault, parsed, parse_tensor_infos}

pub record LayerWeights : Type 0 where
  pub wq : Option ℕ
  pub wk : Option ℕ
  pub wv : Option ℕ
  pub wo : Option ℕ
  pub w_gate : Option ℕ
  pub w_up : Option ℕ
  pub w_down : Option ℕ
  pub rms_attn : Option ℕ
  pub rms_ffn : Option ℕ
  pub q_norm : Option ℕ
  pub k_norm : Option ℕ
  pub type_wq : ℕ
  pub type_wk : ℕ
  pub type_wv : ℕ
  pub type_wo : ℕ
  pub type_w_gate : ℕ
  pub type_w_up : ℕ
  pub type_w_down : ℕ
  pub rms_type : ℕ
  pub qk_norm_type : ℕ

-- `layers` is an array of `n_layers`.
pub record ModelWeights : Type 0 where
  pub tok_embd : Option ℕ
  pub output_norm : Option ℕ
  pub embd_type : ℕ
  pub output : Option ℕ
  pub output_type : ℕ
  pub layers : ℕ → LayerWeights
  pub n_layers : ℕ

-- `memset` to zero, which resets the types too.
abbrev pub no_layer : LayerWeights
no_layer = record {
  wq = none;
  wk = none;
  wv = none;
  wo = none;
  w_gate = none;
  w_up = none;
  w_down = none;
  rms_attn = none;
  rms_ffn = none;
  q_norm = none;
  k_norm = none;
  type_wq = 0;
  type_wk = 0;
  type_wv = 0;
  type_wo = 0;
  type_w_gate = 0;
  type_w_up = 0;
  type_w_down = 0;
  rms_type = 0;
  qk_norm_type = 0;
}

-- The digits at the front of a text, and whether there is one (`%d` of `sscanf`). What `sscanf` does
-- with a number that does not fit an int is undefined in C; here it is that number.
unfoldable pub read_decimal : (acc : ℕ) → List ℕ → ℕ
read_decimal acc [] = acc
read_decimal acc (c ∷ cs) =
    let more = read_decimal (acc * 10 + (c - 48)) cs in if leb 48 c && leb c 57 then more else acc

unfoldable pub starts_with_digit : List ℕ → Bool
starts_with_digit [] = false
starts_with_digit (c ∷ cs) = leb 48 c && leb c 57

unfoldable pub skip_blanks : List ℕ → List ℕ
skip_blanks [] = []
skip_blanks (c ∷ cs) =
    let rest = skip_blanks cs in if (c == 32) || (leb 9 c && leb c 13) then rest else c ∷ cs

-- A number with a sign in front, if it is not negative.
unfoldable pub unsigned : List ℕ → Option ℕ
unfolding read_decimal starts_with_digit
unsigned cs = if starts_with_digit cs then some (read_decimal 0 cs) else none

unfoldable pub signed : List ℕ → Option ℕ
unfolding unsigned
signed [] = none
signed (c ∷ cs) =
    if c == b'-'
    then elim (unsigned cs) [ none ↦ none | some zero ↦ some 0 | some (suc n) ↦ none ]
    else (if c == b'+' then unsigned cs else unsigned (c ∷ cs))

-- `sscanf(name, "blk.%d.", &layer) == 1 && layer >= 0`: the point behind the number is not asked for.
unfoldable pub blk_layer : List ℕ → Option ℕ
unfolding signed skip_blanks
blk_layer (b ∷ l ∷ k ∷ p ∷ rest) =
    if (b == b'b') && ((l == b'l') && ((k == b'k') && (p == b'.')))
    then signed (skip_blanks rest)
    else none
blk_layer other = none

-- The fields of a layer that hold a tensor.
pub data Slot : Type 0 where
  wq : Slot
  wk : Slot
  wv : Slot
  wo : Slot
  w_gate : Slot
  w_up : Slot
  w_down : Slot
  q_norm : Slot
  k_norm : Slot
  rms_attn : Slot
  rms_ffn : Slot

-- The tests of `strstr`, in their order.
unfoldable pub slot_of : List ℕ → Option Slot
unfolding contains
slot_of name =
    if contains (codes "attn_q.weight") name
    then some wq
    else (if contains (codes "attn_k.weight") name
        then some wk
        else (if contains (codes "attn_v.weight") name
            then some wv
            else (if contains (codes "attn_output.weight") name
                then some wo
                else (if contains (codes "ffn_gate.weight") name
                    then some w_gate
                    else (if contains (codes "ffn_up.weight") name
                        then some w_up
                        else (if contains (codes "ffn_down.weight") name
                            then some w_down
                            else (if contains (codes "attn_q_norm.weight") name
                                then some q_norm
                                else (if contains (codes "attn_k_norm.weight") name
                                    then some k_norm
                                    else (if contains (codes "attn_norm.weight") name
                                        then some rms_attn
                                        else (if contains (codes "ffn_norm.weight") name
                                            then some rms_ffn
                                            else none))))))))))

-- 0 for F32, 1 for F16
abbrev pub norm_type : ℕ → ℕ
norm_type type = if type == 0 then 0 else 1

unfoldable pub fill : Slot → (ptr type : ℕ) → LayerWeights → LayerWeights
fill wq p t w = record w { wq = some p; type_wq = t }
fill wk p t w = record w { wk = some p; type_wk = t }
fill wv p t w = record w { wv = some p; type_wv = t }
fill wo p t w = record w { wo = some p; type_wo = t }
fill w_gate p t w = record w { w_gate = some p; type_w_gate = t }
fill w_up p t w = record w { w_up = some p; type_w_up = t }
fill w_down p t w = record w { w_down = some p; type_w_down = t }
fill q_norm p t w = record w { q_norm = some p; qk_norm_type = norm_type t }
fill k_norm p t w = record w { k_norm = some p; qk_norm_type = norm_type t }
fill rms_attn p t w = record w { rms_attn = some p; rms_type = norm_type t }
fill rms_ffn p t w = record w { rms_ffn = some p; rms_type = norm_type t }

unfoldable pub update_layer : ℕ → LayerWeights → (ℕ → LayerWeights) → ℕ → LayerWeights
update_layer l w layers k = if k == l then w else layers k

-- Where the tensor of a name belongs.
pub data Place : Type 0 where
  in_layer : ℕ → Slot → Place
  token_embd : Place
  output_norm : Place
  output : Place
  nowhere : Place

unfoldable pub place_of : (n_layers : ℕ) → List ℕ → Place
unfolding blk_layer slot_of
place_of n_layers name =
    let top =
      if same_bytes name (codes "token_embd.weight")
      then token_embd
      else (if same_bytes name (codes "output_norm.weight")
          then Place.output_norm
          else (if same_bytes name (codes "output.weight") then Place.output else nowhere)) in
    elim (blk_layer name) [
      | none ↦ top
      | some l ↦
          if ltb l n_layers
          then elim (slot_of name) [ none ↦ nowhere | some s ↦ in_layer l s ]
          else top
    ]

-- The weights and the count of tensors mapped.
abbrev pub Mapping : Type 0
Mapping = ModelWeights × ℕ

unfoldable pub put : Place → (ptr type : ℕ) → Mapping → Mapping
unfolding fill update_layer
put (in_layer l s) p t (w, mapped) =
    (record w { layers = update_layer l (fill s p t (w.layers l)) w.layers }, mapped + 1)
put token_embd p t (w, mapped) = (record w { tok_embd = some p; embd_type = t }, mapped + 1)
put Place.output_norm p t (w, mapped) = (record w { output_norm = some p }, mapped + 1)
put Place.output p t (w, mapped) = (record w { output = some p; output_type = t }, mapped + 1)
put nowhere p t m = m

-- The loop over the tensors. `blob` is the address of the mapping plus the data offset.
unfoldable pub map_tensors : (n_layers blob : ℕ) → List TensorInfo → Mapping → Mapping
unfolding put place_of
map_tensors n_layers blob [] m = m
map_tensors n_layers blob (t ∷ ts) m =
    map_tensors n_layers blob ts (put (place_of n_layers (c_str t.name)) (blob + t.offset) t.type m)

-- Without an output tensor the embedding serves.
unfoldable pub tie : ModelWeights → ModelWeights
tie w = elim w.output [
  | some p ↦ w
  | none ↦ elim w.tok_embd [
    | none ↦ w
    | some p ↦ record w { output = some p; output_type = w.embd_type }
  ]
]

-- What the caller holds, and what the call returns; `unreadable` where the table of tensors is not well
-- formed enough to be read.
pub data Loaded : Type 0 where
  failed : Loaded
  unreadable : Loaded
  loaded : ModelWeights → Bool → Loaded

-- The file that `fopen` finds, and the address of its mapping, if `open` and `mmap` succeed.
unfoldable pub load_and_map_weights :
    (file : Option (List ℕ)) (mapping : Option ℕ) (n_layers : ℕ) → ModelWeights → Loaded
unfolding map_tensors tie parse_tensor_infos
load_and_map_weights file mapping n_layers w = elim (parse_tensor_infos file) [
  | cannot_open ↦ failed
  | fault ↦ unreadable
  | parsed tensors data_offset ↦ elim mapping [
    | none ↦ failed
    | some blob ↦
        let m =
          map_tensors n_layers (blob + data_offset) tensors
            (record w { layers = λ _. no_layer; n_layers = n_layers }, 0) in
        loaded (tie m.0) (ltb 0 m.1)
  ]
]
