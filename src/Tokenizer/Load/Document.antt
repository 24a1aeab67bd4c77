-- ===== src/Tokenizer/Load/Document.antt =====
-- The tokenizer that a document's metadata says.
use reflex_llm.Base.{
  ℕ, ◌^◌, ◌<◌, ◌≡◌, refl, ap, Bool, true, false, none, some, List, [], ◌∷◌, ◌++◌, length, All, ◌==◌,
  ltb, le→ltb, arith, append_assoc,
}
use reflex_llm.Persistence.Bytes.{le}
use reflex_llm.Gguf.Reader.{◌>>=◌, read, read_u32}
use reflex_llm.Gguf.Reader.Reads.{
  Reads, return-Reads, read-Reads, bind-Reads, read_u32-Reads, read_u64-Reads, last-Reads,
  then-branch, else-branch,
}
use reflex_llm.Gguf.TensorTable.Document.{
  Value, Document, DocumentFits, encode_value, encode_kvs, encode_tensors, encode, KvFits,
}
use reflex_llm.Tokenizer.Encode.{Tokenizer}
use reflex_llm.Tokenizer.Load.{
  read_value, read_entry, read_entries, read_metadata, build_tables, has_tokens, load_from_gguf,
}
use reflex_llm.Tokenizer.Load.Entries.{says, IsKnown, read_value-Reads}

abbrev pub says_all : List (List ℕ × Value) → Tokenizer → Tokenizer
says_all [] t = t
says_all ((key, v) ∷ kvs) t = says_all kvs (says key v t)

read_entry-Reads :
    (key : List ℕ) (v : Value) (t : Tokenizer)
    → KvFits (key, v)
    → IsKnown (key, v)
    → Reads (read_entry t) (le 8 (length key) ++ (key ++ encode_value v)) (says key v t)
unfolding read_entry
read_entry-Reads key v t f h =
    read_u64-Reads _ (length key) (key ++ encode_value v) (says key v t) (omega arith) (
      else-branch (ltb 1024 (length key)) _ _ (key ++ encode_value v) (says key v t)
        (le→ltb 1024 (length key) h.0)
        (bind-Reads (read (length key)) (λ k. read_u32 >>= λ vtype. read_value k vtype t) key
          (encode_value v) key (says key v t) (read-Reads key (length key) refl)
          (read_value-Reads key v t f.1 h.1)))

read_entries-Reads :
    (kvs : List (List ℕ × Value)) (t : Tokenizer)
    → All KvFits kvs
    → All IsKnown kvs
    → Reads (read_entries (length kvs) t) (encode_kvs kvs) (says_all kvs t)
unfolding encode_kvs read_entries
read_entries-Reads [] t f h = return-Reads t
read_entries-Reads ((key, v) ∷ kvs) t f h =
    bind-Reads (read_entry t) (λ t'. read_entries (length kvs) t')
      (le 8 (length key) ++ (key ++ encode_value v)) (encode_kvs kvs) (says key v t)
      (says_all kvs (says key v t)) (read_entry-Reads key v t f.0 h.0)
      (read_entries-Reads kvs (says key v t) f.1 h.1)

metadata_bytes : Document → List ℕ
metadata_bytes d =
    le 4 d.magic
    ++ (le 4 d.version ++ (le 8 (length d.tensors) ++ (le 8 (length d.kvs) ++ encode_kvs d.kvs)))

read_metadata-Reads :
    (d : Document) (t : Tokenizer)
    → DocumentFits d
    → d.magic ≡ 0x46554747
    → All IsKnown d.kvs
    → Reads (read_metadata t) (metadata_bytes d) (true, says_all d.kvs t)
unfolding read_metadata metadata_bytes
read_metadata-Reads d t f m h =
    let found : Bool × Tokenizer = (true, says_all d.kvs t) in
    read_u32-Reads _ d.magic _ found f.magic_32 (
      read_u32-Reads _ d.version _ found f.version_32 (
        read_u64-Reads _ (length d.tensors) _ found f.tensors_64 (
          read_u64-Reads _ (length d.kvs) (encode_kvs d.kvs) found f.kvs_64 (
            then-branch (d.magic == 0x46554747) _ _ (encode_kvs d.kvs) found (ground arith) (
              last-Reads (read_entries (length d.kvs) t) (λ (u : Tokenizer). (true, u))
                (encode_kvs d.kvs) (says_all d.kvs t) (read_entries-Reads d.kvs t f.kvs_fit h))))))

encode-metadata :
    (d : Document) (rest : List ℕ)
    → encode d ++ rest ≡ metadata_bytes d ++ (encode_tensors d.tensors ++ rest)
unfolding encode metadata_bytes
encode-metadata d rest = simp append_assoc

-- From a file of fewer than 2 ^ 63 bytes that begins with a document with the right magic, keys of at
-- most 1024 bytes, and no arrays but those of strings and, under other keys than those of the tokens
-- and the merges, of values of 4 bytes, the loader gets what the entries say, in their order, with the
-- tables built from it, and answers whether there are tokens.
pub load_from_gguf-encode :
    (sort : List (List ℕ × ℕ) → List (List ℕ × ℕ)) (t : Tokenizer) (d : Document) (rest : List ℕ)
    → DocumentFits d
    → length (encode d ++ rest) < 2 ^ 63
    → d.magic ≡ 0x46554747
    → All IsKnown d.kvs
    → load_from_gguf sort (some (encode d ++ rest)) t
      ≡ some (has_tokens sort (says_all d.kvs t), build_tables sort (says_all d.kvs t))
unfolding load_from_gguf
load_from_gguf-encode sort t d rest f s m h =
    let read =
      read_metadata-Reads d t f m h (encode d ++ rest) (encode_tensors d.tensors ++ rest) 0 s
        (omega arith) (encode-metadata d rest) in
    ap
      (λ o. elim o [
        | none ↦ none
        | some ((false, u), pos) ↦ some (false, u)
        | some ((true, u), pos) ↦ some (has_tokens sort u, build_tables sort u)
      ])
      read
