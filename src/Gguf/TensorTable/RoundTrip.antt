-- ===== src/Gguf/TensorTable/RoundTrip.antt =====
-- The reader finds in the bytes of a document the document's tensors.
use reflex_llm.Base.{
  ℕ, zero, suc, ◌+◌, ◌-◌, ◌*◌, ◌/◌, ◌%◌, ◌^◌, ◌≤◌, ◌<◌, ◌≡◌, refl, ap, sym, ◌∙◌, subst, inl, inr,
  List, [], ◌∷◌, ◌++◌, length, map, le_of_not-ltb, take, drop, All, append-nil, take-append-drop,
  length-take, length-drop, none, some, min, arith, ltb, lt→ltb, le→ltb, Bool-cases,
}
use reflex_llm.Persistence.Bytes.{le}
use reflex_llm.Gguf.Reader.{◌>>=◌, ◌>>◌, return, read, read_u32, read_u64, seek}
use reflex_llm.Gguf.Reader.Reads.{
  Reads, return-Reads, read-Reads, seek-Reads, bind-Reads, then-Reads, read_u32-Reads,
  read_u64-Reads, read_u64_lem, last-Reads, then-branch, else-branch,
}
use reflex_llm.Gguf.TensorTable.{
  TensorInfo, gguf_scalar_size, skip_string, skip_strings, skip_array, skip_value, skip_kv,
  skip_kvs, read_dims, ones, read_name, cut_name, read_shape, read_tensor_info, read_tensor_infos,
  tensor_infos, parse_tensor_infos, parsed, fault, data_offset,
}
use reflex_llm.Gguf.TensorTable.Document.{
  Value, scalar, text, scalars, texts, Tensor, Document, DocumentFits, encode_text, encode_texts,
  encode_value, encode_kvs, encode_dims, encode_tensor, encode_tensors, encode, Short, Fits, KvFits,
  TensorFits, info_of,
}

pub Short-lt : (t : List ℕ) → Short t → length t < 2 ^ 64
Short-lt t h = omega arith

pub skip_string-Reads : (t : List ℕ) → Short t → Reads skip_string (encode_text t) (tt)
unfolding skip_string encode_text
skip_string-Reads t h =
    read_u64-Reads seek (length t) t (tt) (Short-lt t h) (seek-Reads t (length t) refl)

pub skip_strings-Reads :
    (ts : List (List ℕ)) → All Short ts → Reads (skip_strings (length ts)) (encode_texts ts) (tt)
unfolding skip_strings encode_texts
skip_strings-Reads [] h = return-Reads (tt)
skip_strings-Reads (t ∷ ts) h =
    bind-Reads skip_string (λ _. skip_strings (length ts)) (encode_text t) (encode_texts ts) (tt)
      (tt) (skip_string-Reads t h.0) (skip_strings-Reads ts h.1)

skip_scalar-Reads :
    (type : ℕ) (bytes : List ℕ)
    → 0 < gguf_scalar_size type
    → length bytes ≡ gguf_scalar_size type
    → Reads (skip_value type) bytes (tt)
unfolding skip_value
skip_scalar-Reads type bytes p l =
    then-branch _ _ _ bytes (tt) (lt→ltb _ _ p) (seek-Reads bytes (gguf_scalar_size type) l)

skip_scalars-Reads :
    (type n : ℕ) (bytes : List ℕ)
    → Fits (scalars type n bytes)
    → Reads skip_array (le 4 type ++ (le 8 n ++ bytes)) (tt)
unfolding skip_array
skip_scalars-Reads type n bytes h =
    let l : length bytes ≡ (n * gguf_scalar_size type) % 2 ^ 64 = omega arith in
    read_u32-Reads _ type (le 8 n ++ bytes) (tt) h.0 (
      read_u64-Reads _ n bytes (tt) h.2
        (then-branch _ _ _ bytes (tt) (lt→ltb _ _ h.1) (seek-Reads bytes _ l)))

skip_texts-Reads :
    (ts : List (List ℕ))
    → Fits (texts ts)
    → Reads skip_array (le 4 8 ++ (le 8 (length ts) ++ encode_texts ts)) (tt)
unfolding skip_array gguf_scalar_size
skip_texts-Reads ts h =
    read_u32-Reads _ 8 (le 8 (length ts) ++ encode_texts ts) (tt) (omega arith)
      (read_u64-Reads _ (length ts) (encode_texts ts) (tt) h.0 (skip_strings-Reads ts h.1))

skip_value-Reads : (v : Value) → Fits v → Reads (read_u32 >>= skip_value) (encode_value v) (tt)
unfolding encode_value skip_value gguf_scalar_size
skip_value-Reads (scalar type bytes) h =
    read_u32-Reads skip_value type bytes (tt) h.0 (skip_scalar-Reads type bytes h.1 h.2)
skip_value-Reads (text t) h =
    read_u32-Reads skip_value 8 (encode_text t) (tt) (omega arith) (skip_string-Reads t h)
skip_value-Reads (scalars type n bytes) h =
    read_u32-Reads skip_value 9 (le 4 type ++ (le 8 n ++ bytes)) (tt) (omega arith)
      (skip_scalars-Reads type n bytes h)
skip_value-Reads (texts ts) h =
    read_u32-Reads skip_value 9 (le 4 8 ++ (le 8 (length ts) ++ encode_texts ts)) (tt) (omega arith)
      (skip_texts-Reads ts h)

skip_kv-Reads :
    (key : List ℕ) (v : Value)
    → KvFits (key, v)
    → Reads skip_kv (le 8 (length key) ++ (key ++ encode_value v)) (tt)
unfolding skip_kv
skip_kv-Reads key v h =
    read_u64-Reads _ (length key) (key ++ encode_value v) (tt) (Short-lt key h.0)
      (then-Reads (length key) _ key (encode_value v) (tt) refl (skip_value-Reads v h.1))

skip_kvs-Reads :
    (kvs : List (List ℕ × Value))
    → All KvFits kvs
    → Reads (skip_kvs (length kvs)) (encode_kvs kvs) (tt)
unfolding skip_kvs encode_kvs
skip_kvs-Reads [] h = return-Reads (tt)
skip_kvs-Reads ((key, v) ∷ kvs) h =
    bind-Reads skip_kv (λ _. skip_kvs (length kvs)) _ (encode_kvs kvs) (tt) (tt)
      (skip_kv-Reads key v h.0) (skip_kvs-Reads kvs h.1)

read_dims-Reads :
    (ds : List ℕ) → All (λ d. d < 2 ^ 64) ds → Reads (read_dims (length ds)) (encode_dims ds) ds
unfolding read_dims encode_dims
read_dims-Reads [] h = return-Reads []
read_dims-Reads (d ∷ ds) h = read_u64-Reads _ d (encode_dims ds) (d ∷ ds) h.0 (
    last-Reads (read_dims (length ds)) (λ (xs : List ℕ). d ∷ xs) (encode_dims ds) ds
      (read_dims-Reads ds h.1))

drop_all : (n : ℕ) (xs : List ℕ) → length xs ≤ n → drop n xs ≡ []
drop_all zero [] h = refl
drop_all zero (x ∷ xs) h = absurd (omega arith)
drop_all (suc n) [] h = refl
drop_all (suc n) (x ∷ xs) h = drop_all n xs (omega arith)

cut_name-Reads :
    (name kept : List ℕ) → Short name → Reads (cut_name (length name) kept) (drop 255 name) kept
unfolding cut_name
cut_name-Reads name kept h = elim (Bool-cases (ltb 255 (length name))) [
  | inl long ↦ then-branch _ _ _ (drop 255 name) kept long (
      subst (λ (k : List ℕ). Reads (seek (length name - 255) >> return kept) k kept)
        (append-nil (drop 255 name))
        (then-Reads (length name - 255) (return kept) (drop 255 name) [] kept (length-drop 255 name)
          (return-Reads kept)))
  | inr short ↦ else-branch _ _ _ (drop 255 name) kept short (
      subst (λ (k : List ℕ). Reads (return kept) k kept)
        (sym (drop_all 255 name (le_of_not-ltb 255 (length name) short))) (return-Reads kept))
]

read_name-Reads : (name : List ℕ) → Short name → Reads read_name (encode_text name) (take 255 name)
unfolding read_name encode_text
read_name-Reads name h = read_u64-Reads _ (length name) name (take 255 name) (Short-lt name h) (
    subst
      (λ (k : List ℕ).
        Reads (read (min (length name) 255) >>= cut_name (length name)) k (take 255 name))
      (take-append-drop 255 name)
      (bind-Reads (read (min (length name) 255)) (cut_name (length name)) (take 255 name)
        (drop 255 name) (take 255 name) (take 255 name)
        (read-Reads (take 255 name) _ (omega (arith, length-take 255 name)))
        (cut_name-Reads name (take 255 name) h)))

read_shape-Reads :
    (ds : List ℕ)
    → length ds ≤ 4
    → All (λ d. d < 2 ^ 64) ds
    → Reads (read_shape (length ds)) (encode_dims ds) (ds ++ ones (4 - length ds))
unfolding read_shape
read_shape-Reads ds l h =
    else-branch _ _ _ (encode_dims ds) (ds ++ ones (4 - length ds)) (le→ltb 4 (length ds) l) (
      last-Reads (read_dims (length ds)) (λ (xs : List ℕ). xs ++ ones (4 - length ds))
        (encode_dims ds) ds (read_dims-Reads ds h))

read_tensor_info-Reads :
    (t : Tensor) → TensorFits t → Reads read_tensor_info (encode_tensor t) (info_of t)
unfolding read_tensor_info encode_tensor
read_tensor_info-Reads t h =
    bind-Reads read_name _ (encode_text t.name) _ (take 255 t.name) (info_of t)
      (read_name-Reads t.name h.0)
      (read_u32-Reads _ (length t.dims) _ (info_of t) (omega arith) (
        bind-Reads (read_shape (length t.dims)) _ (encode_dims t.dims) _
          (t.dims ++ ones (4 - length t.dims)) (info_of t) (read_shape-Reads t.dims h.1 h.2)
          (read_u32-Reads _ t.type _ (info_of t) h.3
            (last-Reads read_u64 _ (le 8 t.offset) t.offset (read_u64_lem t.offset h.4)))))

read_tensor_infos-Reads :
    (ts : List Tensor)
    → All TensorFits ts
    → Reads (read_tensor_infos (length ts)) (encode_tensors ts) (map info_of ts)
unfolding read_tensor_infos encode_tensors
read_tensor_infos-Reads [] h = return-Reads []
read_tensor_infos-Reads (t ∷ ts) h =
    bind-Reads read_tensor_info _ (encode_tensor t) (encode_tensors ts) (info_of t)
      (info_of t ∷ map info_of ts) (read_tensor_info-Reads t h.0)
      (last-Reads (read_tensor_infos (length ts)) (λ (xs : List TensorInfo). info_of t ∷ xs)
        (encode_tensors ts) (map info_of ts) (read_tensor_infos-Reads ts h.1))

tensor_infos-Reads :
    (d : Document) → DocumentFits d → Reads tensor_infos (encode d) (map info_of d.tensors)
unfolding tensor_infos encode
tensor_infos-Reads d f =
    let ts = map info_of d.tensors in
    read_u32-Reads _ d.magic _ ts f.magic_32 (
      read_u32-Reads _ d.version _ ts f.version_32 (
        read_u64-Reads _ (length d.tensors) _ ts f.tensors_64 (
          read_u64-Reads _ (length d.kvs) _ ts f.kvs_64 (
            bind-Reads (skip_kvs (length d.kvs)) (λ _. read_tensor_infos (length d.tensors))
              (encode_kvs d.kvs) (encode_tensors d.tensors) (tt) ts (skip_kvs-Reads d.kvs f.kvs_fit)
              (read_tensor_infos-Reads d.tensors f.tensors_fit)))))

-- In a file of fewer than 2 ^ 63 bytes that begins with the bytes of a document, whatever follows,
-- the parser finds the document's tensors (names cut at 255 bytes, shapes filled up with ones), and
-- the least multiple of 32 that is not below the document's length as the data offset.
pub parse-encode :
    (d : Document) (rest : List ℕ)
    → DocumentFits d
    → length (encode d ++ rest) < 2 ^ 63
    → (offset : ℕ) × (parse_tensor_infos (some (encode d ++ rest))
        ≡ parsed (map info_of d.tensors) offset)
      × (offset % 32 ≡ 0)
      × (length (encode d) ≤ offset)
      × (offset < length (encode d) + 32)
unfolding parse_tensor_infos data_offset
parse-encode d rest f s =
    let run = tensor_infos-Reads d f (encode d ++ rest) rest 0 s (omega arith) refl in
    let z : 0 + length (encode d) ≡ length (encode d) = omega arith in
    (
      (length (encode d) + 32 - 1) / 32 * 32,
      ap (λ o. elim o [ none ↦ fault | some (ts, cur) ↦ parsed ts (data_offset cur) ])
          (run ∙ ap (λ (k : ℕ). some (map info_of d.tensors, k)) z),
      omega arith,
      omega arith,
      omega arith,
    )
