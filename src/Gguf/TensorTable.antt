-- ===== src/Gguf/TensorTable.antt =====
-- `parse_tensor_infos` (src/engine/model.cpp): the tensors that a GGUF file lists, and where their
-- bytes start.
pub mod Document
pub mod RoundTrip
use reflex_llm.Base.{
  ℕ, zero, suc, ◌+◌, ◌-◌, ◌*◌, ◌/◌, ◌%◌, ◌^◌, List, [], ◌∷◌, ◌++◌, length, Option, none, some, min,
  ltb, leb, ◌==◌, if◌then◌else◌, ◌||◌,
}
use reflex_llm.Gguf.Reader.{
  M, ◌>>=◌, ◌>>◌, return, undefined, read, read_u32, read_u64, seek, seeked,
}

-- The shape is kept as the words read, of which there are four.
pub record TensorInfo : Type 0 where
  pub name : List ℕ
  pub n_dims : ℕ
  pub shape : List ℕ
  pub type : ℕ
  pub offset : ℕ

-- The size of a value of fixed size; 0 for strings, arrays and unknown types.
unfoldable pub gguf_scalar_size : ℕ → ℕ
gguf_scalar_size type =
    if (type == 0) || ((type == 1) || (type == 7))
    then 1
    else (if (type == 2) || (type == 3)
        then 2
        else (if (type == 4) || ((type == 5) || (type == 6))
            then 4
            else (if (type == 10) || ((type == 11) || (type == 12)) then 8 else 0)))

unfoldable pub skip_string : M (Unit {0})
unfolding read_u64 seek
skip_string = do slen ← read_u64; seek slen

unfoldable pub skip_strings : ℕ → M (Unit {0})
unfolding skip_string
skip_strings zero = return (tt)
skip_strings (suc n) = do skip_string; skip_strings n

-- Eight bytes for each element, "best guess".
unfoldable pub skip_eights : ℕ → M (Unit {0})
unfolding seek
skip_eights zero = return (tt)
skip_eights (suc n) = do seek 8; skip_eights n

-- The length in bytes is computed in 64 bits.
unfoldable pub skip_array : M (Unit {0})
unfolding read_u32 read_u64 gguf_scalar_size skip_strings skip_eights
skip_array = do
  atype ← read_u32
  alen ← read_u64
  (if ltb 0 (gguf_scalar_size atype)
      then seek ((alen * gguf_scalar_size atype) % 2 ^ 64)
      else (if atype == 8 then skip_strings alen else skip_eights alen))

unfoldable pub skip_value : ℕ → M (Unit {0})
unfolding skip_array
skip_value vtype =
    if ltb 0 (gguf_scalar_size vtype)
    then seek (gguf_scalar_size vtype)
    else (if vtype == 8 then skip_string else (if vtype == 9 then skip_array else seek 8))

unfoldable pub skip_kv : M (Unit {0})
unfolding skip_value
skip_kv = do key_len ← read_u64; seek key_len; vtype ← read_u32; skip_value vtype

unfoldable pub skip_kvs : ℕ → M (Unit {0})
unfolding skip_kv
skip_kvs zero = return (tt)
skip_kvs (suc n) = do skip_kv; skip_kvs n

unfoldable pub read_dims : ℕ → M (List ℕ)
unfolding read_u64
read_dims zero = return []
read_dims (suc n) = do d ← read_u64; ds ← read_dims n; return (d ∷ ds)

-- `shape[d] = 1` from n_dims up to 4
unfoldable pub ones : ℕ → List ℕ
ones zero = []
ones (suc n) = 1 ∷ ones n

-- What is longer than the array of the name is passed over.
unfoldable pub cut_name : ℕ → List ℕ → M (List ℕ)
unfolding seek
cut_name name_len name =
    if ltb 255 name_len then seek (name_len - 255) >> return name else return name

-- The name is an array of 256 bytes.
unfoldable pub read_name : M (List ℕ)
unfolding read_u64 read cut_name
read_name = do name_len ← read_u64; name ← read (min name_len 255); cut_name name_len name

-- A fifth dimension would be written behind the array of the shape.
unfoldable pub read_shape : ℕ → M (List ℕ)
unfolding read_dims ones
read_shape n_dims =
    if ltb 4 n_dims
    then undefined
    else read_dims n_dims >>= λ dims. return (dims ++ ones (4 - n_dims))

unfoldable pub read_tensor_info : M TensorInfo
unfolding read_name read_shape
read_tensor_info = do
  name ← read_name
  n_dims ← read_u32
  shape ← read_shape n_dims
  type ← read_u32
  offset ← read_u64
  return record { name = name; n_dims = n_dims; shape = shape; type = type; offset = offset }

unfoldable pub read_tensor_infos : ℕ → M (List TensorInfo)
unfolding read_tensor_info
read_tensor_infos zero = return []
read_tensor_infos (suc n) = do t ← read_tensor_info; ts ← read_tensor_infos n; return (t ∷ ts)

-- The tensors of an open file. The magic and the version are read and not looked at.
unfoldable pub tensor_infos : M (List TensorInfo)
unfolding read_tensor_infos skip_kvs
tensor_infos = do
  magic ← read_u32
  version ← read_u32
  n_tensors ← read_u64
  n_kv ← read_u64
  skip_kvs n_kv
  read_tensor_infos n_tensors

-- -1; or the tensors and the data offset; `fault` where the file ends too early or a tensor has
-- more than four dimensions.
pub data Parsed : Type 0 where
  cannot_open : Parsed
  fault : Parsed
  parsed : List TensorInfo → ℕ → Parsed

unfoldable pub data_offset : ℕ → ℕ
data_offset cur = (cur + 32 - 1) / 32 * 32

-- The file is what `fopen` finds.
unfoldable pub parse_tensor_infos : Option (List ℕ) → Parsed
unfolding tensor_infos data_offset
parse_tensor_infos none = cannot_open
parse_tensor_infos (some file) = elim (tensor_infos file 0) [
  | none ↦ fault
  | some (tensors, cur) ↦ parsed tensors (data_offset cur)
]
