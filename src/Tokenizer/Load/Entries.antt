-- ===== src/Tokenizer/Load/Entries.antt =====
-- What each kind of value in a document's metadata says of the tokenizer, and that the loader reads it.
use reflex_llm.Base.{
  ℕ, ◌^◌, ◌≤◌, ◌<◌, ◌≡◌, ◌≢◌, refl, ap, ◌∙◌, inl, inr, Bool, true, false, ◌&&◌, List, ◌++◌, length,
  All, codes, ◌==◌, if◌then◌else◌, arith, Bool-cases,
}
use reflex_llm.Persistence.Bytes.{le, un_le}
use reflex_llm.Gguf.Reader.{M, ◌>>=◌, read_u32}
use reflex_llm.Gguf.Reader.Reads.{Reads, read_u32-Reads, last-Reads}
use reflex_llm.Gguf.TensorTable.{gguf_scalar_size}
use reflex_llm.Gguf.TensorTable.Document.{
  Value, scalar, text, scalars, texts, encode_text, encode_texts, encode_value, Short, Fits,
}
use reflex_llm.Tokenizer.Encode.{Tokenizer}
use reflex_llm.Tokenizer.Load.{
  read_string, without_ranks, read_id, read_flag, is_key, is_byte_level, read_value,
}
use reflex_llm.Tokenizer.Load.Readers.{
  put_merges, is_set, read_string-Reads, read_tokens-Reads, read_ranks-Reads, passed-Reads,
  skip_texts-Reads, skip_scalars-Reads, skip_text-Reads, skip_scalar-Reads, read_id-Reads,
  read_flag-Reads, this_type, other_type, either_type,
}

-- What an entry says of the tokenizer.
abbrev pub says : List ℕ → Value → Tokenizer → Tokenizer
says key (scalar type bytes) t =
    if is_key key (codes "tokenizer.ggml.bos_token_id") && (type == 4)
    then record t { bos_id = un_le bytes }
    else (if is_key key (codes "tokenizer.ggml.eos_token_id") && (type == 4)
        then record t { eos_id = un_le bytes }
        else (if is_key key (codes "tokenizer.ggml.add_bos_token") && (type == 7)
            then record t { add_bos = is_set bytes }
            else (if is_key key (codes "tokenizer.ggml.add_eos_token") && (type == 7)
                then record t { add_eos = is_set bytes }
                else t)))
says key (text s) t =
    if is_key key (codes "tokenizer.ggml.model")
    then record t { byte_encode = is_byte_level s }
    else t
says key (scalars type n bytes) t = t
says key (texts ts) t =
    if is_key key (codes "tokenizer.ggml.tokens")
    then record t { vocab = ts }
    else (if is_key key (codes "tokenizer.ggml.merges")
        then put_merges 0 ts (without_ranks t)
        else t)

-- The loader passes over arrays of values of 4 bytes and of strings, and takes every array under two
-- of the keys for strings.
abbrev pub IsKnownValue : List ℕ → Value → Type 0
IsKnownValue key (scalar type bytes) = Unit
IsKnownValue key (text s) = Unit
IsKnownValue key (scalars type n bytes) =
    (gguf_scalar_size type ≡ 4)
    × (is_key key (codes "tokenizer.ggml.tokens") ≡ false)
    × (is_key key (codes "tokenizer.ggml.merges") ≡ false)
IsKnownValue key (texts ts) = Unit

abbrev pub IsKnown : List ℕ × Value → Type 0
IsKnown kv = (length kv.0 ≤ 1024) × IsKnownValue kv.0 kv.1

text_value-Reads :
    (key s : List ℕ) (t : Tokenizer)
    → Short s
    → Reads (read_value key 8 t) (encode_text s) (says key (text s) t)
unfolding read_value
text_value-Reads key s t h =
    let bs = encode_text s in
    let t' = says key (text s) t in
    other_type (is_key key (codes "tokenizer.ggml.tokens")) (8 == 9) _ _ bs t' t' refl (
      other_type (is_key key (codes "tokenizer.ggml.merges")) (8 == 9) _ _ bs t' t' refl (
        this_type (is_key key (codes "tokenizer.ggml.model")) (8 == 8) _ _ bs _ t refl
          (last-Reads read_string (λ (m : List ℕ). record t { byte_encode = is_byte_level m }) bs s
            (read_string-Reads s h))
          (other_type (is_key key (codes "tokenizer.ggml.bos_token_id")) (8 == 4) _ _ bs t t refl (
            other_type (is_key key (codes "tokenizer.ggml.eos_token_id")) (8 == 4) _ _ bs t t refl (
              other_type (is_key key (codes "tokenizer.ggml.add_bos_token")) (8 == 7) _ _ bs t t
                refl
                (other_type (is_key key (codes "tokenizer.ggml.add_eos_token")) (8 == 7) _ _ bs t t
                  refl (passed-Reads 8 bs t (skip_text-Reads s h))))))))

texts_value-Reads :
    (key : List ℕ) (ts : List (List ℕ)) (t : Tokenizer)
    → length ts < 2 ^ 64
    → All Short ts
    → Reads
        (read_value key 9 t)
        (le 4 8 ++ (le 8 (length ts) ++ encode_texts ts))
        (says key (texts ts) t)
unfolding read_value
texts_value-Reads key ts t n h =
    let bs = le 4 8 ++ (le 8 (length ts) ++ encode_texts ts) in
    let other =
      if is_key key (codes "tokenizer.ggml.merges") then put_merges 0 ts (without_ranks t) else t in
    this_type (is_key key (codes "tokenizer.ggml.tokens")) (9 == 9) _ _ bs (record t { vocab = ts })
      other refl (read_tokens-Reads ts t n h)
      (this_type (is_key key (codes "tokenizer.ggml.merges")) (9 == 9) _ _ bs
        (put_merges 0 ts (without_ranks t)) t refl (read_ranks-Reads ts t n h)
        (other_type (is_key key (codes "tokenizer.ggml.model")) (9 == 8) _ _ bs t t refl (
          other_type (is_key key (codes "tokenizer.ggml.bos_token_id")) (9 == 4) _ _ bs t t refl (
            other_type (is_key key (codes "tokenizer.ggml.eos_token_id")) (9 == 4) _ _ bs t t refl (
              other_type (is_key key (codes "tokenizer.ggml.add_bos_token")) (9 == 7) _ _ bs t t
                refl
                (other_type (is_key key (codes "tokenizer.ggml.add_eos_token")) (9 == 7) _ _ bs t t
                  refl (passed-Reads 9 bs t (skip_texts-Reads ts n h))))))))

-- A branch on a key that is not the one wanted.
other_key :
    {A : Type 0} (b c : Bool) (m n : M A) (bs : List ℕ) (d : A)
    → b ≡ false
    → Reads n bs d
    → Reads (if b && c then m else n) bs d
other_key b c m n bs d e q = rw e q

scalars_value-Reads :
    (key : List ℕ) (type n : ℕ) (bytes : List ℕ) (t : Tokenizer)
    → Fits (scalars type n bytes)
    → IsKnownValue key (scalars type n bytes)
    → Reads (read_value key 9 t) (le 4 type ++ (le 8 n ++ bytes)) t
unfolding read_value
scalars_value-Reads key type n bytes t f k =
    let bs = le 4 type ++ (le 8 n ++ bytes) in
    other_key (is_key key (codes "tokenizer.ggml.tokens")) (9 == 9) _ _ bs t k.1 (
      other_key (is_key key (codes "tokenizer.ggml.merges")) (9 == 9) _ _ bs t k.2 (
        other_type (is_key key (codes "tokenizer.ggml.model")) (9 == 8) _ _ bs t t refl (
          other_type (is_key key (codes "tokenizer.ggml.bos_token_id")) (9 == 4) _ _ bs t t refl (
            other_type (is_key key (codes "tokenizer.ggml.eos_token_id")) (9 == 4) _ _ bs t t refl (
              other_type (is_key key (codes "tokenizer.ggml.add_bos_token")) (9 == 7) _ _ bs t t
                refl
                (other_type (is_key key (codes "tokenizer.ggml.add_eos_token")) (9 == 7) _ _ bs t t
                  refl (passed-Reads 9 bs t (skip_scalars-Reads type n bytes f k.0))))))))

-- The types that a size says are not, or are.
size_of : (type n k : ℕ) → n ≡ gguf_scalar_size type → n ≢ gguf_scalar_size k → (type == k) ≡ false
size_of type n k e d = elim (Bool-cases (type == k)) [
  | inr different ↦ different
  | inl same ↦ absurd (d (e ∙ ap gguf_scalar_size (eq_of_same type k same)))
]
  where
    eq_of_same : (a b : ℕ) → (a == b) ≡ true → a ≡ b
    eq_of_same a b h = ground arith

scalar_value-Reads :
    (key : List ℕ) (type : ℕ) (bytes : List ℕ) (t : Tokenizer)
    → Fits (scalar type bytes)
    → Reads (read_value key type t) bytes (says key (scalar type bytes) t)
unfolding read_value gguf_scalar_size
scalar_value-Reads key type bytes t f =
    let some_size : length bytes ≢ 0 = λ z. omega (arith, z) in
    let nine = size_of type (length bytes) 9 f.2 some_size in
    let eight = size_of type (length bytes) 8 f.2 some_size in
    let t' = says key (scalar type bytes) t in
    other_type (is_key key (codes "tokenizer.ggml.tokens")) (type == 9) _ _ bytes t' t' nine (
      other_type (is_key key (codes "tokenizer.ggml.merges")) (type == 9) _ _ bytes t' t' nine (
        other_type (is_key key (codes "tokenizer.ggml.model")) (type == 8) _ _ bytes t' t' eight (
          either_type (is_key key (codes "tokenizer.ggml.bos_token_id")) (type == 4) _ _ bytes _ _
            (λ four.
              last-Reads (read_id t.bos_id) (λ (id : ℕ). record t { bos_id = id }) bytes
                (un_le bytes) (read_id-Reads t.bos_id bytes (size type 4 four f.2)))
            (either_type (is_key key (codes "tokenizer.ggml.eos_token_id")) (type == 4) _ _ bytes _
              _
              (λ four.
                last-Reads (read_id t.eos_id) (λ (id : ℕ). record t { eos_id = id }) bytes
                  (un_le bytes) (read_id-Reads t.eos_id bytes (size type 4 four f.2)))
              (either_type (is_key key (codes "tokenizer.ggml.add_bos_token")) (type == 7) _ _ bytes
                _ _
                (λ seven.
                  last-Reads read_flag (λ (v : Bool). record t { add_bos = v }) bytes (is_set bytes)
                    (read_flag-Reads bytes (size type 7 seven f.2)))
                (either_type (is_key key (codes "tokenizer.ggml.add_eos_token")) (type == 7) _ _
                  bytes _ _
                  (λ seven.
                    last-Reads read_flag (λ (v : Bool). record t { add_eos = v }) bytes
                      (is_set bytes) (read_flag-Reads bytes (size type 7 seven f.2)))
                  (passed-Reads type bytes t (skip_scalar-Reads type bytes f.1 f.2))))))))
  where
    size :
        (a k : ℕ)
        → (a == k) ≡ true
        → length bytes ≡ gguf_scalar_size a
        → length bytes ≡ gguf_scalar_size k
    size a k h e = let same : a ≡ k = ground arith in e ∙ ap gguf_scalar_size same

pub read_value-Reads :
    (key : List ℕ) (v : Value) (t : Tokenizer)
    → Fits v
    → IsKnownValue key v
    → Reads (read_u32 >>= λ vtype. read_value key vtype t) (encode_value v) (says key v t)
unfolding encode_value
read_value-Reads key (scalar type bytes) t f k =
    read_u32-Reads _ type bytes _ f.0 (scalar_value-Reads key type bytes t f)
read_value-Reads key (text s) t f k =
    read_u32-Reads _ 8 (encode_text s) _ (omega arith) (text_value-Reads key s t f)
read_value-Reads key (scalars type n bytes) t f k =
    read_u32-Reads _ 9 (le 4 type ++ (le 8 n ++ bytes)) _ (omega arith)
      (scalars_value-Reads key type n bytes t f k)
read_value-Reads key (texts ts) t f k =
    read_u32-Reads _ 9 (le 4 8 ++ (le 8 (length ts) ++ encode_texts ts)) _ (omega arith)
      (texts_value-Reads key ts t f.0 f.1)
