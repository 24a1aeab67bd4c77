-- ===== src/Gguf/Weights/Placed.antt =====
-- Every pointer that the loader leaves is that of the last tensor in the file that belongs there.
use reflex_llm.Base.{
  ℕ, ◌+◌, ◌^◌, ◌%◌, ◌≤◌, ◌<◌, ◌≡◌, refl, fun_ext, ap, sym, ◌∙◌, inl, inr, Bool, true, false, ◌&&◌,
  List, [], ◌∷◌, ◌++◌, length, map, Option, none, some, c_str, ◌==◌, ltb, if◌then◌else◌, Bool-cases,
  arith, All,
}
use reflex_llm.Gguf.TensorTable.{TensorInfo}
use reflex_llm.Gguf.TensorTable.Document.{Document, DocumentFits, Tensor, encode, info_of}
use reflex_llm.Gguf.TensorTable.RoundTrip.{parse-encode}
use reflex_llm.Gguf.Weights.{
  LayerWeights, ModelWeights, no_layer, Slot, wq, wk, wv, wo, w_gate, w_up, w_down, q_norm, k_norm,
  rms_attn, rms_ffn, fill, update_layer, Place, in_layer, token_embd, nowhere, place_of, Mapping,
  put, map_tensors, tie, loaded, load_and_map_weights,
}

abbrev pub slot_no : Slot → ℕ
slot_no wq = 0
slot_no wk = 1
slot_no wv = 2
slot_no wo = 3
slot_no w_gate = 4
slot_no w_up = 5
slot_no w_down = 6
slot_no q_norm = 7
slot_no k_norm = 8
slot_no rms_attn = 9
slot_no rms_ffn = 10

-- The pointer in a slot.
abbrev pub pointer : Slot → LayerWeights → Option ℕ
pointer wq w = w.wq
pointer wk w = w.wk
pointer wv w = w.wv
pointer wo w = w.wo
pointer w_gate w = w.w_gate
pointer w_up w = w.w_up
pointer w_down w = w.w_down
pointer q_norm w = w.q_norm
pointer k_norm w = w.k_norm
pointer rms_attn w = w.rms_attn
pointer rms_ffn w = w.rms_ffn

abbrev pub same_place : Place → Place → Bool
same_place (in_layer l s) (in_layer k r) = (l == k) && (slot_no s == slot_no r)
same_place token_embd token_embd = true
same_place Place.output_norm Place.output_norm = true
same_place Place.output Place.output = true
same_place p q = false

-- The pointer at a place.
abbrev pub pointer_at : Place → ModelWeights → Option ℕ
pointer_at (in_layer l s) w = pointer s (w.layers l)
pointer_at token_embd w = w.tok_embd
pointer_at Place.output_norm w = w.output_norm
pointer_at Place.output w = w.output
pointer_at nowhere w = none

pointer-fill :
    (s r : Slot) (p t : ℕ) (w : LayerWeights)
    → pointer s (fill r p t w) ≡ (if slot_no s == slot_no r then some p else pointer s w)
unfolding fill
pointer-fill s r p t w = ground arith

pointer-put :
    (q r : Place) (p t : ℕ) (m : Mapping)
    → pointer_at q (put r p t m).0 ≡ (if same_place q r then some p else pointer_at q m.0)
unfolding put update_layer
pointer-put (in_layer l s) (in_layer k r) p t (w, c) = elim (Bool-cases (l == k)) [
  | inl same ↦
      let e : l ≡ k = ground arith in
      rw (same, pointer-fill s r p t (w.layers k))
        (ap (λ (j : ℕ). if slot_no s == slot_no r then some p else pointer s (w.layers j)) (sym e))
  | inr other ↦ rw other refl
]
pointer-put q r p t m = ground arith

-- The last tensor of a list that belongs at a place.
unfoldable pub last_for : (n_layers : ℕ) → Place → List TensorInfo → Option TensorInfo
last_for n_layers q [] = none
last_for n_layers q (t ∷ ts) = elim (last_for n_layers q ts) [
  | some u ↦ some u
  | none ↦ if same_place q (place_of n_layers (c_str t.name)) then some t else none
]

-- The address of a tensor, or the pointer that was there.
abbrev pub placed : (blob : ℕ) → Option TensorInfo → Option ℕ → Option ℕ
placed blob none old = old
placed blob (some t) old = some (blob + t.offset)

pub pointer-map_tensors :
    (n_layers blob : ℕ) (q : Place) (ts : List TensorInfo) (m : Mapping)
    → pointer_at q (map_tensors n_layers blob ts m).0
      ≡ placed blob (last_for n_layers q ts) (pointer_at q m.0)
unfolding map_tensors last_for
pointer-map_tensors n_layers blob q [] m = refl
pointer-map_tensors n_layers blob q (t ∷ ts) m =
    let here = place_of n_layers (c_str t.name) in
    pointer-map_tensors n_layers blob q ts (put here (blob + t.offset) t.type m)
    ∙ ap (placed blob (last_for n_layers q ts)) (pointer-put q here (blob + t.offset) t.type m)
    ∙ settle (last_for n_layers q ts) (same_place q here)
  where
    settle :
        (o : Option TensorInfo) (b : Bool)
        → placed blob o (if b then some (blob + t.offset) else pointer_at q m.0)
          ≡ placed blob
              (elim o [ some u ↦ some u | none ↦ if b then some t else none ])
              (pointer_at q m.0)
    settle none true = refl
    settle none false = refl
    settle (some u) b = refl

-- Before a load nothing points anywhere.
abbrev pub IsEmpty : ModelWeights → Type 0
IsEmpty w = (w.tok_embd ≡ none) × (w.output_norm ≡ none) × (w.output ≡ none)

-- What each place should hold, given what belongs there: the output falls back on the embedding.
abbrev pub wanted : Place → (Place → Option ℕ) → Option ℕ
wanted Place.output f = elim (f Place.output) [ some p ↦ some p | none ↦ f token_embd ]
wanted (in_layer l s) f = f (in_layer l s)
wanted token_embd f = f token_embd
wanted Place.output_norm f = f Place.output_norm
wanted nowhere f = f nowhere

pointer-tie : (q : Place) (w : ModelWeights) → pointer_at q (tie w) ≡ wanted q (λ r. pointer_at r w)
unfolding tie
pointer-tie q w = ground arith

pointer-start :
    (q : Place) (n : ℕ) (w : ModelWeights)
    → IsEmpty w
    → pointer_at q (record w { layers = λ _. no_layer; n_layers = n }) ≡ none
pointer-start (in_layer l wq) n w e = refl
pointer-start (in_layer l s) n w e = refl
pointer-start token_embd n w e = e.0
pointer-start Place.output_norm n w e = e.1
pointer-start Place.output n w e = e.2
pointer-start nowhere n w e = refl

-- The address of the last tensor of a document that belongs at a place.
abbrev pub address_for : (n_layers blob : ℕ) → List Tensor → Place → Option ℕ
address_for n_layers blob tensors q = placed blob (last_for n_layers q (map info_of tensors)) none

-- Loading a file of fewer than 2 ^ 63 bytes that begins with the bytes of a document into empty
-- weights, where the mapping succeeds, leaves at each place the address (behind the data offset, the
-- next multiple of 32) of the last tensor whose name belongs there, or null; and at the output, if
-- none does, that of the embedding.
pub load_and_map_weights-wanted :
    (d : Document) (rest : List ℕ) (blob n_layers : ℕ) (w : ModelWeights) (q : Place)
    → DocumentFits d
    → length (encode d ++ rest) < 2 ^ 63
    → IsEmpty w
    → (offset : ℕ) × (w' : ModelWeights) × (ok : Bool) × (load_and_map_weights
          (some (encode d ++ rest))
          (some blob)
          n_layers
          w
        ≡ loaded w' ok)
      × (offset % 32 ≡ 0)
      × (length (encode d) ≤ offset)
      × (offset < length (encode d) + 32)
      × (pointer_at q w' ≡ wanted q (address_for n_layers (blob + offset) d.tensors))
unfolding load_and_map_weights
load_and_map_weights-wanted d rest blob n_layers w q f s e =
    let (offset, run, aligned, low, high) = parse-encode d rest f s in
    let start : Mapping = (record w { layers = λ _. no_layer; n_layers = n_layers }, 0) in
    let m = map_tensors n_layers (blob + offset) (map info_of d.tensors) start in
    let each = λ (r : Place).
      pointer-map_tensors n_layers (blob + offset) r (map info_of d.tensors) start
      ∙ ap (placed (blob + offset) (last_for n_layers r (map info_of d.tensors)))
          (pointer-start r n_layers w e) in
    (
      offset,
      tie m.0,
      ltb 0 m.1,
      rw (run, load_and_map_weights) refl,
      aligned,
      low,
      high,
      pointer-tie q m.0 ∙ ap (wanted q) (fun_ext each),
    )

-- The tensors behind one that belongs elsewhere do not hide it.
pub last_for-append :
    (n_layers : ℕ) (q : Place) (xs : List TensorInfo) (t : TensorInfo) (ys : List TensorInfo)
    → same_place q (place_of n_layers (c_str t.name)) ≡ true
    → All (λ u. same_place q (place_of n_layers (c_str u.name)) ≡ false) ys
    → last_for n_layers q (xs ++ t ∷ ys) ≡ some t
unfolding last_for
last_for-append n_layers q (x ∷ xs) t ys h k = rw (last_for-append n_layers q xs t ys h k) refl
last_for-append n_layers q [] t ys h k = rw (none_behind ys k, h) refl
  where
    none_behind :
        (us : List TensorInfo)
        → All (λ u. same_place q (place_of n_layers (c_str u.name)) ≡ false) us
        → last_for n_layers q us ≡ none
    none_behind [] k = refl
    none_behind (u ∷ us) k = rw (none_behind us k.1, k.0) refl
