-- ===== src/Gguf/Weights/Named.antt =====
-- A tensor of a layer is found by its name.
use reflex_llm.Base.{
  ℕ, ◌+◌, ◌^◌, ◌%◌, ◌≤◌, ◌<◌, ◌≡◌, ap, ◌∙◌, Bool, true, false, List, [], ◌∷◌, ◌++◌, length, map,
  map-append, take, take_all, none, some, c_str, arith, All,
}
use reflex_llm.Gguf.TensorTable.Document.{Document, DocumentFits, Tensor, encode, info_of}
use reflex_llm.Gguf.Weights.{ModelWeights, Slot, in_layer, place_of, loaded, load_and_map_weights}
use reflex_llm.Gguf.Weights.Names.{tensor_name, place_of-tensor_name, c_str-tensor_name}
use reflex_llm.Gguf.Weights.Placed.{
  pointer, IsEmpty, same_place, placed, last_for, last_for-append, load_and_map_weights-wanted,
}

-- No tensor of a list is given to a slot of a layer.
abbrev pub Elsewhere : (n_layers n : ℕ) → Slot → List Tensor → Type 0
Elsewhere n_layers n s =
    All (λ u. same_place (in_layer n s) (place_of n_layers (c_str (take 255 u.name))) ≡ false)

same_place_refl : (n : ℕ) (s : Slot) → same_place (in_layer n s) (in_layer n s) ≡ true
same_place_refl n s = ground arith

Elsewhere-map :
    (n_layers n : ℕ) (s : Slot) (ts : List Tensor)
    → Elsewhere n_layers n s ts
    → All
        (λ u. same_place (in_layer n s) (place_of n_layers (c_str u.name)) ≡ false)
        (map info_of ts)
Elsewhere-map n_layers n s [] h = tt
Elsewhere-map n_layers n s (t ∷ ts) h = (h.0, Elsewhere-map n_layers n s ts h.1)

kept_name :
    (n_layers n : ℕ) (s : Slot) (name : List ℕ)
    → name ≡ tensor_name n s
    → length name ≤ 255
    → n < n_layers
    → same_place (in_layer n s) (place_of n_layers (c_str (take 255 name))) ≡ true
kept_name n_layers n s name e l h =
    ap (λ k. same_place (in_layer n s) (place_of n_layers k))
      (ap c_str (take_all 255 name l ∙ e) ∙ c_str-tensor_name n s)
    ∙ ap (same_place (in_layer n s)) (place_of-tensor_name n_layers n s h)
    ∙ same_place_refl n s

-- A tensor named blk.N.<slot>.weight, where the model has a layer N and no later tensor goes to that
-- slot, is what the slot of layer N points to after the load of a file of fewer than 2 ^ 63 bytes that
-- begins with the document, if the mapping succeeds.
pub load_and_map_weights-tensor_name :
    (d : Document) (rest : List ℕ) (blob n_layers : ℕ) (w : ModelWeights) (n : ℕ) (s : Slot)
    (before : List Tensor) (t : Tensor) (after : List Tensor)
    → DocumentFits d
    → length (encode d ++ rest) < 2 ^ 63
    → IsEmpty w
    → d.tensors ≡ before ++ t ∷ after
    → t.name ≡ tensor_name n s
    → length t.name ≤ 255
    → n < n_layers
    → Elsewhere n_layers n s after
    → (offset : ℕ) × (w' : ModelWeights) × (ok : Bool) × (load_and_map_weights
          (some (encode d ++ rest))
          (some blob)
          n_layers
          w
        ≡ loaded w' ok)
      × (offset % 32 ≡ 0)
      × (length (encode d) ≤ offset)
      × (offset < length (encode d) + 32)
      × (pointer s (w'.layers n) ≡ some (blob + offset + t.offset))
load_and_map_weights-tensor_name d rest blob n_layers w n s before t after f z e parts named l h k =
    let (offset, w', ok, run, aligned, low, high, at) =
      load_and_map_weights-wanted d rest blob n_layers w (in_layer n s) f z e in
    let split : map info_of d.tensors ≡ map info_of before ++ info_of t ∷ map info_of after =
      ap (map info_of) parts ∙ map-append info_of before (t ∷ after) in
    let last =
      ap (last_for n_layers (in_layer n s)) split
      ∙ last_for-append n_layers (in_layer n s) (map info_of before) (info_of t) (map info_of after)
          (kept_name n_layers n s t.name named l h) (Elsewhere-map n_layers n s after k) in
    (offset, w', ok, run, aligned, low, high, at ∙ ap (λ o. placed (blob + offset) o none) last)
