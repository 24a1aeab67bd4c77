-- ===== src/Gguf/Config/Entries.antt =====
-- The entries of a document's metadata are read one by one, where the loader knows the sizes of their
-- values.
use reflex_llm.Base.{
  ℕ, suc, ◌+◌, ◌^◌, ◌≤◌, ◌<◌, ◌≡◌, refl, ap, sym, ◌∙◌, subst, inl, inr, ◌⊎◌, false, ◌&&◌, List, [],
  ◌∷◌, ◌++◌, length, take, drop, take-length, All, codes, c_str, ltb, ◌==◌, if◌then◌else◌, arith,
  le→ltb, length-append,
}
use reflex_llm.Persistence.Bytes.{le, un_le}
use reflex_llm.Gguf.Reader.{◌>>=◌, ◌>>◌, return, read, read_u32, read_u64, seek}
use reflex_llm.Gguf.Reader.Reads.{
  Reads, return-Reads, read-Reads, seek-Reads, bind-Reads, word-Reads, read_u32-Reads,
  read_u64-Reads, last-Reads, else-branch, if-Reads,
}
use reflex_llm.Gguf.TensorTable.Document.{
  Value, scalar, text, scalars, texts, encode_text, encode_value, encode_kvs, Short, KvFits,
}
use reflex_llm.Gguf.Config.{
  ModelConfig, put_u32, put_f32, read_some, put_architecture, put_string, read_value, read_entry,
  read_entries, has,
}

-- A word of 4 bytes, a text, or a value of 8 bytes, under a key of 255 bytes at most.
abbrev pub IsPlainValue : Value → Type 0
IsPlainValue (scalar type bytes) =
    ((type ≡ 4) × (length bytes ≡ 4))
    ⊎ (((type ≡ 6) × (length bytes ≡ 4)) ⊎ ((10 ≤ type) × (type ≤ 12) × (length bytes ≡ 8)))
IsPlainValue (text t) = Short t
IsPlainValue (scalars type n bytes) = ⊥
IsPlainValue (texts ts) = ⊥

abbrev pub IsPlain : List ℕ × Value → Type 0
IsPlain kv = (length kv.0 ≤ 255) × IsPlainValue kv.1

-- What an entry says of the configuration.
abbrev pub says : List ℕ → Value → ModelConfig → ModelConfig
says key (scalar type bytes) cfg =
    if type == 4
    then put_u32 key (un_le bytes) cfg
    else (if type == 6 then put_f32 key (un_le bytes) cfg else cfg)
says key (text t) cfg =
    if has key (codes "general.name") && ltb (length t) 256
    then record cfg { name = c_str t }
    else (if has key (codes "general.architecture") then put_architecture (length t) t cfg else cfg)
says key (scalars type n bytes) cfg = cfg
says key (texts ts) cfg = cfg

abbrev pub says_all : List (List ℕ × Value) → ModelConfig → ModelConfig
says_all [] cfg = cfg
says_all ((key, v) ∷ kvs) cfg = says_all kvs (says key v cfg)

read_some-Reads : (t : List ℕ) → Reads (read_some (length t)) t t
unfolding read_some
read_some-Reads t file rest at s h e =
    let found : take (length t) (drop at file) ≡ t =
      ap (take (length t)) e ∙ take-length t rest (length t) refl in
    rw found refl

seek-return-Reads :
    (n : ℕ) (bytes : List ℕ) (cfg : ModelConfig)
    → length bytes ≡ n
    → Reads (seek n >> return cfg) bytes cfg
seek-return-Reads n bytes cfg l = last-Reads (seek n) (λ _. cfg) bytes (tt) (seek-Reads bytes n l)

put_string-Reads :
    (key t : List ℕ) (cfg : ModelConfig)
    → Reads (put_string key (length t) cfg) t (says key (text t) cfg)
unfolding put_string
put_string-Reads key t cfg =
    if-Reads (has key (codes "general.name") && ltb (length t) 256) _ _ t _ _
      (last-Reads (read_some (length t)) (λ (name : List ℕ). record cfg { name = c_str name }) t t
        (read_some-Reads t))
      (if-Reads (has key (codes "general.architecture")) _ _ t _ _
        (last-Reads (read_some (length t)) (λ (arch : List ℕ). put_architecture (length t) arch cfg)
          t t (read_some-Reads t))
        (seek-return-Reads (length t) t cfg refl))

-- Any type but 4, 6 and 8 is passed over as 8 bytes.
read_other-Reads :
    (key : List ℕ) (type : ℕ) (bytes : List ℕ) (cfg : ModelConfig)
    → (type == 4) ≡ false
    → (type == 6) ≡ false
    → (type == 8) ≡ false
    → length bytes ≡ 8
    → Reads (read_value key type cfg) bytes cfg
unfolding read_value
read_other-Reads key type bytes cfg four six eight l = else-branch (type == 4) _ _ bytes cfg four (
    else-branch (type == 6) _ _ bytes cfg six
      (else-branch (type == 8) _ _ bytes cfg eight (seek-return-Reads 8 bytes cfg l)))

read_text-Reads :
    (key t : List ℕ) (cfg : ModelConfig)
    → Short t
    → Reads (read_value key 8 cfg) (encode_text t) (says key (text t) cfg)
unfolding read_value encode_text
read_text-Reads key t cfg h =
    read_u64-Reads (λ str_len. put_string key str_len cfg) (length t) t (says key (text t) cfg)
      (omega arith) (put_string-Reads key t cfg)

read_scalar-Reads :
    (key : List ℕ) (type : ℕ) (bytes : List ℕ) (cfg : ModelConfig)
    → IsPlainValue (scalar type bytes)
    → Reads (read_value key type cfg) bytes (says key (scalar type bytes) cfg)
unfolding read_value
read_scalar-Reads key type bytes cfg (inl (e, l)) =
    subst (λ (k : ℕ). Reads (read_value key k cfg) bytes (says key (scalar k bytes) cfg)) (sym e)
      (last-Reads read_u32 (λ (v : ℕ). put_u32 key v cfg) bytes (un_le bytes) (word-Reads bytes l))
read_scalar-Reads key type bytes cfg (inr (inl (e, l))) =
    subst (λ (k : ℕ). Reads (read_value key k cfg) bytes (says key (scalar k bytes) cfg)) (sym e)
      (last-Reads read_u32 (λ (v : ℕ). put_f32 key v cfg) bytes (un_le bytes) (word-Reads bytes l))
read_scalar-Reads key type bytes cfg (inr (inr (low, high, l))) =
    let four : (type == 4) ≡ false = ground arith in
    let six : (type == 6) ≡ false = ground arith in
    let eight : (type == 8) ≡ false = ground arith in
    let v : says key (scalar type bytes) cfg ≡ cfg = rw (four, six) refl in
    subst (λ (c : ModelConfig). Reads (read_value key type cfg) bytes c) (sym v)
      (read_other-Reads key type bytes cfg four six eight l)

read_value-Reads :
    (key : List ℕ) (v : Value) (cfg : ModelConfig)
    → KvFits (key, v)
    → IsPlainValue v
    → Reads (read_u32 >>= λ vtype. read_value key vtype cfg) (encode_value v) (says key v cfg)
unfolding encode_value
read_value-Reads key (scalar type bytes) cfg f h =
    read_u32-Reads (λ vtype. read_value key vtype cfg) type bytes (says key (scalar type bytes) cfg)
      f.1.0 (read_scalar-Reads key type bytes cfg h)
read_value-Reads key (text t) cfg f h =
    read_u32-Reads (λ vtype. read_value key vtype cfg) 8 (encode_text t) (says key (text t) cfg)
      (omega arith) (read_text-Reads key t cfg h)
read_value-Reads key (scalars type n bytes) cfg f h = absurd h
read_value-Reads key (texts ts) cfg f h = absurd h

-- One entry.
read_entry-Reads :
    (key : List ℕ) (v : Value) (cfg : ModelConfig)
    → KvFits (key, v)
    → IsPlain (key, v)
    → Reads
        (read_u64 >>= λ key_len. read_entry key_len cfg)
        (le 8 (length key) ++ (key ++ encode_value v))
        (says key v cfg)
unfolding read_entry
read_entry-Reads key v cfg f h =
    read_u64-Reads (λ key_len. read_entry key_len cfg) (length key) (key ++ encode_value v)
      (says key v cfg) (omega arith)
      (else-branch _ _ _ (key ++ encode_value v) (says key v cfg) (le→ltb 255 (length key) h.0) (
        bind-Reads (read (length key)) (λ k. read_u32 >>= λ vtype. read_value k vtype cfg) key
          (encode_value v) key (says key v cfg) (read-Reads key (length key) refl)
          (read_value-Reads key v cfg f h.1)))

split_entry :
    (n : ℕ) (cfg : ModelConfig) (file : List ℕ) (at : ℕ)
    → read_entries (suc n) cfg file at
      ≡ ((read_u64 >>= λ key_len. read_entry key_len cfg) >>= λ cfg'. read_entries n cfg') file at
unfolding read_entries
split_entry n cfg file at = ground arith

pub read_entries-Reads :
    (kvs : List (List ℕ × Value)) (cfg : ModelConfig)
    → All KvFits kvs
    → All IsPlain kvs
    → Reads (read_entries (length kvs) cfg) (encode_kvs kvs) (says_all kvs cfg)
unfolding encode_kvs read_entries
read_entries-Reads [] cfg f h = return-Reads cfg
read_entries-Reads ((key, v) ∷ kvs) cfg f h = λ file rest at s b e.
    split_entry (length kvs) cfg file at
    ∙ bind-Reads (read_u64 >>= λ key_len. read_entry key_len cfg)
        (λ cfg'. read_entries (length kvs) cfg') (le 8 (length key) ++ (key ++ encode_value v))
        (encode_kvs kvs) (says key v cfg) (says_all kvs (says key v cfg))
        (read_entry-Reads key v cfg f.0 h.0) (read_entries-Reads kvs (says key v cfg) f.1 h.1) file
        rest at s b e

-- A value of another size is passed over as eight bytes all the same: together with a shorter one, the
-- bytes that follow it are swallowed.
pub read_entry_swallows :
    (key : List ℕ) (type : ℕ) (bytes next : List ℕ) (cfg : ModelConfig)
    → length key ≤ 255
    → type < 2 ^ 32
    → (type == 4) ≡ false
    → (type == 6) ≡ false
    → (type == 8) ≡ false
    → length bytes + length next ≡ 8
    → Reads
        (read_u64 >>= λ key_len. read_entry key_len cfg)
        (le 8 (length key) ++ (key ++ (le 4 type ++ (bytes ++ next))))
        cfg
unfolding read_entry
read_entry_swallows key type bytes next cfg k t four six eight l =
    let l' : length (bytes ++ next) ≡ 8 = omega (arith, length-append bytes next) in
    read_u64-Reads (λ key_len. read_entry key_len cfg) (length key) _ cfg (omega arith)
      (else-branch _ _ _ (key ++ (le 4 type ++ (bytes ++ next))) cfg (le→ltb 255 (length key) k) (
        bind-Reads (read (length key)) (λ n. read_u32 >>= λ vtype. read_value n vtype cfg) key
          (le 4 type ++ (bytes ++ next)) key cfg (read-Reads key (length key) refl)
          (read_u32-Reads (λ vtype. read_value key vtype cfg) type (bytes ++ next) cfg t
            (read_other-Reads key type (bytes ++ next) cfg four six eight l'))))
