-- ===== src/Gguf/TensorTable/Document.antt =====
-- What a GGUF file says, and the bytes that say it (the format's specification, for the types of
-- values that the reader knows).
use reflex_llm.Base.{ℕ, ◌*◌, ◌^◌, ◌<◌, ◌≤◌, ◌-◌, ◌≡◌, List, [], ◌∷◌, ◌++◌, length, take, All}
use reflex_llm.Persistence.Bytes.{le}
use reflex_llm.Gguf.TensorTable.{TensorInfo, gguf_scalar_size, ones}

-- An array holds values of one fixed size, given as their bytes, or strings.
pub data Value : Type 0 where
  scalar : (type : ℕ) (bytes : List ℕ) → Value
  text : List ℕ → Value
  scalars : (type n : ℕ) (bytes : List ℕ) → Value
  texts : List (List ℕ) → Value

pub record Tensor : Type 0 where
  pub name : List ℕ
  pub dims : List ℕ
  pub type : ℕ
  pub offset : ℕ

pub record Document : Type 0 where
  pub magic : ℕ
  pub version : ℕ
  pub kvs : List (List ℕ × Value)
  pub tensors : List Tensor

unfoldable pub encode_text : List ℕ → List ℕ
encode_text t = le 8 (length t) ++ t

unfoldable pub encode_texts : List (List ℕ) → List ℕ
unfolding encode_text
encode_texts [] = []
encode_texts (t ∷ ts) = encode_text t ++ encode_texts ts

unfoldable pub encode_value : Value → List ℕ
unfolding encode_texts
encode_value (scalar type bytes) = le 4 type ++ bytes
encode_value (text t) = le 4 8 ++ encode_text t
encode_value (scalars type n bytes) = le 4 9 ++ (le 4 type ++ (le 8 n ++ bytes))
encode_value (texts ts) = le 4 9 ++ (le 4 8 ++ (le 8 (length ts) ++ encode_texts ts))

unfoldable pub encode_kvs : List (List ℕ × Value) → List ℕ
unfolding encode_value
encode_kvs [] = []
encode_kvs ((key, v) ∷ kvs) = (le 8 (length key) ++ (key ++ encode_value v)) ++ encode_kvs kvs

unfoldable pub encode_dims : List ℕ → List ℕ
encode_dims [] = []
encode_dims (d ∷ ds) = le 8 d ++ encode_dims ds

unfoldable pub encode_tensor : Tensor → List ℕ
unfolding encode_dims encode_text
encode_tensor t =
    encode_text t.name
    ++ (le 4 (length t.dims) ++ (encode_dims t.dims ++ (le 4 t.type ++ le 8 t.offset)))

unfoldable pub encode_tensors : List Tensor → List ℕ
unfolding encode_tensor
encode_tensors [] = []
encode_tensors (t ∷ ts) = encode_tensor t ++ encode_tensors ts

-- The file up to the padding in front of the tensors' bytes.
unfoldable pub encode : Document → List ℕ
unfolding encode_kvs encode_tensors
encode d =
    le 4 d.magic
    ++ (le 4 d.version
        ++ (le 8 (length d.tensors)
            ++ (le 8 (length d.kvs) ++ (encode_kvs d.kvs ++ encode_tensors d.tensors))))

-- A text shorter than 2 ^ 63 bytes.
abbrev pub Short : List ℕ → Type 0
Short t = length t < 2 ^ 63

-- A value whose parts fit their words.
abbrev pub Fits : Value → Type 0
Fits (scalar type bytes) =
    (type < 2 ^ 32) × (0 < gguf_scalar_size type) × (length bytes ≡ gguf_scalar_size type)
Fits (text t) = Short t
Fits (scalars type n bytes) =
    (type < 2 ^ 32)
    × (0 < gguf_scalar_size type)
    × (n < 2 ^ 64)
    × Short bytes
    × (length bytes ≡ n * gguf_scalar_size type)
Fits (texts ts) = (length ts < 2 ^ 64) × All Short ts

abbrev pub KvFits : List ℕ × Value → Type 0
KvFits kv = Short kv.0 × Fits kv.1

-- A tensor whose parts fit their words, with at most four dimensions.
abbrev pub TensorFits : Tensor → Type 0
TensorFits t =
    Short t.name
    × (length t.dims ≤ 4)
    × All (λ d. d < 2 ^ 64) t.dims
    × (t.type < 2 ^ 32)
    × (t.offset < 2 ^ 64)

pub record DocumentFits (d : Document) : Type 0 where
  pub magic_32 : d.magic < 2 ^ 32
  pub version_32 : d.version < 2 ^ 32
  pub tensors_64 : length d.tensors < 2 ^ 64
  pub kvs_64 : length d.kvs < 2 ^ 64
  pub kvs_fit : All KvFits d.kvs
  pub tensors_fit : All TensorFits d.tensors

-- What the reader keeps of a tensor: 255 bytes of its name, and a shape filled up with ones.
abbrev pub info_of : Tensor → TensorInfo
info_of t = record {
  name = take 255 t.name;
  n_dims = length t.dims;
  shape = t.dims ++ ones (4 - length t.dims);
  type = t.type;
  offset = t.offset;
}
