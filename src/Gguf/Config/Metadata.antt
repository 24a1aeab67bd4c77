-- ===== src/Gguf/Config/Metadata.antt =====
-- The configuration that a document's metadata says, where the loader knows the sizes of its values.
use reflex_llm.Base.{
  ℕ, suc, ◌^◌, ◌≤◌, ◌<◌, ◌≡◌, sym, subst, Bool, true, List, ◌++◌, length, map, All, some, min, ◌==◌,
  if◌then◌else◌, arith, append_assoc,
}
use reflex_llm.Base.Int.{pos}
use reflex_llm.Persistence.Bytes.{le}
use reflex_llm.Gguf.Reader.Reads.{Reads, read_u32-Reads, read_u64-Reads, last-Reads, then-branch}
use reflex_llm.Gguf.TensorTable.{parsed, parse_tensor_infos, TensorInfo}
use reflex_llm.Gguf.TensorTable.Document.{
  Document, DocumentFits, encode_kvs, encode, encode_tensors, info_of,
}
use reflex_llm.Gguf.TensorTable.RoundTrip.{parse-encode}
use reflex_llm.Gguf.Config.{
  ModelConfig, default_config, read_entries, read_metadata, derive_head_dim, fill_defaults,
  derive_vocab, finish_config, load_gguf_config, is_zero, default_vocab, vocab_from,
}
use reflex_llm.Gguf.Config.Entries.{IsPlain, says_all, read_entries-Reads}

-- The vocabulary size of a configuration that has none, from the tensors of a readable file.
abbrev pub with_vocab : List TensorInfo → ModelConfig → ModelConfig
with_vocab tensors cfg = elim cfg.hidden_dim [
  | pos (suc h) ↦
      if is_zero cfg.vocab_size
      then default_vocab (record cfg { vocab_size = vocab_from (suc h) tensors })
      else cfg
  | other ↦ cfg
]

derive_vocab-parsed :
    (file : List ℕ) (tensors : List TensorInfo) (offset : ℕ) (cfg : ModelConfig)
    → parse_tensor_infos (some file) ≡ parsed tensors offset
    → derive_vocab (some file) cfg ≡ some (with_vocab tensors cfg)
unfolding derive_vocab
derive_vocab-parsed file tensors offset cfg e = ground arith

metadata_bytes : Document → List ℕ
metadata_bytes d =
    le 4 d.magic
    ++ (le 4 d.version ++ (le 8 (length d.tensors) ++ (le 8 (length d.kvs) ++ encode_kvs d.kvs)))

read_metadata-Reads :
    (d : Document) (cfg : ModelConfig)
    → DocumentFits d
    → d.magic ≡ 0x46554747
    → length d.kvs ≤ 256
    → All IsPlain d.kvs
    → Reads (read_metadata cfg) (metadata_bytes d) (true, says_all d.kvs cfg)
unfolding read_metadata metadata_bytes
read_metadata-Reads d cfg f m n h =
    let found : Bool × ModelConfig = (true, says_all d.kvs cfg) in
    let count : min (length d.kvs) 256 ≡ length d.kvs = omega arith in
    read_u32-Reads _ d.magic _ found f.magic_32 (
      read_u32-Reads _ d.version _ found f.version_32 (
        read_u64-Reads _ (length d.tensors) _ found f.tensors_64 (
          read_u64-Reads _ (length d.kvs) (encode_kvs d.kvs) found f.kvs_64 (
            then-branch (d.magic == 0x46554747) _ _ (encode_kvs d.kvs) found (ground arith) (
              last-Reads (read_entries (min (length d.kvs) 256) cfg)
                (λ (c : ModelConfig). (true, c)) (encode_kvs d.kvs) (says_all d.kvs cfg)
                (subst
                  (λ (k : ℕ). Reads (read_entries k cfg) (encode_kvs d.kvs) (says_all d.kvs cfg))
                  (sym count) (read_entries-Reads d.kvs cfg f.kvs_fit h)))))))

encode-metadata :
    (d : Document) (rest : List ℕ)
    → encode d ++ rest ≡ metadata_bytes d ++ (encode_tensors d.tensors ++ rest)
unfolding encode metadata_bytes
encode-metadata d rest = simp append_assoc

-- From a file of fewer than 2 ^ 63 bytes that begins with a document with the right magic, at most 256
-- entries, keys of at most 255 bytes, and values that are words, floats, texts or of 8 bytes, the
-- configuration is what the entries say, in their order, with the defaults, and the size of the
-- vocabulary derived from the document's tensors where no entry gives it.
pub load_gguf_config-encode :
    (path : List ℕ) (d : Document) (rest : List ℕ)
    → DocumentFits d
    → length (encode d ++ rest) < 2 ^ 63
    → d.magic ≡ 0x46554747
    → length d.kvs ≤ 256
    → All IsPlain d.kvs
    → load_gguf_config path (some (encode d ++ rest))
      ≡ some (
          with_vocab
            (map info_of d.tensors)
            (fill_defaults (derive_head_dim (says_all d.kvs (default_config path)))))
unfolding load_gguf_config finish_config
load_gguf_config-encode path d rest f s m n h =
    let (offset, run, aligned, low, high) = parse-encode d rest f s in
    let cfg = says_all d.kvs (default_config path) in
    let read =
      read_metadata-Reads d (default_config path) f m n h (encode d ++ rest)
        (encode_tensors d.tensors ++ rest) 0 s (omega arith) (encode-metadata d rest) in
    rw (read, load_gguf_config)
      (derive_vocab-parsed (encode d ++ rest) (map info_of d.tensors) offset
        (fill_defaults (derive_head_dim cfg)) run)
