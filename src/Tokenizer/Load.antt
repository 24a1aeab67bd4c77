-- ===== src/Tokenizer/Load.antt =====
-- `Tokenizer::load_from_gguf` (src/engine/tokenizer.cpp): the vocabulary, the ranks and the flags from
-- the metadata of a file, and the tables that are built from the vocabulary. The ids of BOS and EOS
-- are kept as the words that are read. `sorted_by_len_`, which nothing reads, is left out.
pub mod Tables
pub mod Specials
pub mod Readers
pub mod Entries
pub mod Document
pub mod Decodes
mod Tests
use reflex_llm.Base.{
  ℕ, zero, suc, ◌+◌, ◌-◌, ◌≡◌, Bool, true, false, not, ◌&&◌, ◌||◌, Option, none, some, List, [],
  ◌∷◌, ◌++◌, length, take, drop, max, ltb, leb, ◌==◌, if◌then◌else◌, codes, c_str, same_bytes,
  starts_with,
}
use reflex_llm.Gguf.Reader.{M, ◌>>=◌, ◌>>◌, return, read, read_u32, read_u64, seek, seeked}
use reflex_llm.Gguf.TensorTable.{gguf_scalar_size, skip_string, skip_strings}
use reflex_llm.Tokenizer.Merge.{Ranks, bpe_key}
use reflex_llm.Tokenizer.Encode.{Tokenizer}

abbrev zeros : ℕ → List ℕ
zeros zero = []
zeros (suc n) = 0 ∷ zeros n

-- A read into a string of n zeros, of which it fills what it finds. An allocation of any size succeeds.
unfoldable pub read_text : ℕ → M (List ℕ)
read_text n file pos =
    let found = take n (drop pos file) in
    some (found ++ zeros (n - length found), pos + length found)

unfoldable pub read_string : M (List ℕ)
unfolding read_u64 read_text
read_string = do str_len ← read_u64; read_text str_len

-- The tokens of an array. A second array of tokens is read as if none were there before.
unfoldable pub read_strings : ℕ → M (List (List ℕ))
unfolding read_string
read_strings zero = return []
read_strings (suc n) = do s ← read_string; ss ← read_strings n; return (s ∷ ss)

-- The two sides of the first space.
unfoldable pub split_merge : List ℕ → Option (List ℕ × List ℕ)
split_merge [] = none
split_merge (c ∷ cs) =
    let rest : Option (List ℕ × List ℕ) = elim (split_merge cs) [
      | none ↦ none
      | some (left, right) ↦ some (c ∷ left, right)
    ] in
    if c == 32 then some ([], cs) else rest

abbrev pub set_rank : List ℕ → ℕ → Ranks → Ranks
set_rank key rank ranks other = if same_bytes other key then some rank else ranks other

-- Merge number m.
unfoldable pub put_merge : (m : ℕ) → List ℕ → Tokenizer → Tokenizer
unfolding split_merge same_bytes
put_merge m merge t = elim (split_merge merge) [
  | none ↦ t
  | some (left, right) ↦ record t {
    bpe_ranks = set_rank (bpe_key left right) m t.bpe_ranks;
    has_ranks = true;
  }
]

-- `bpe_ranks_.clear()`
abbrev pub without_ranks : Tokenizer → Tokenizer
without_ranks t = record t { bpe_ranks = λ _. none; has_ranks = false }

unfoldable pub read_merges : (m n : ℕ) → Tokenizer → M Tokenizer
unfolding read_string put_merge
read_merges m zero t = return t
read_merges m (suc n) t = do merge ← read_string; read_merges (suc m) n (put_merge m merge t)

-- A word that keeps its value at the end of the file, and that a part of a word leaves undefined.
unfoldable pub read_id : ℕ → M ℕ
unfolding read_u32
read_id old file pos = elim (drop pos file) [ [] ↦ some (old, pos) | b ∷ bs ↦ read_u32 file pos ]

-- `uint8_t v = 0`, and a read of it.
unfoldable pub read_flag : M Bool
read_flag file pos = elim (drop pos file) [
  | [] ↦ some (false, pos)
  | b ∷ bs ↦ some (not (b == 0), suc pos)
]

-- Four bytes for each element that is not a string, "guess".
unfoldable pub skip_fours : ℕ → M (Unit {0})
unfolding seek
skip_fours zero = return (tt)
skip_fours (suc n) = do seek 4; skip_fours n

unfoldable pub skip_rough_array : M (Unit {0})
unfolding read_u32 read_u64 skip_strings skip_fours
skip_rough_array = do
  atype ← read_u32
  alen ← read_u64
  (if atype == 8 then skip_strings alen else skip_fours alen)

-- The sizes of the switch are those of `gguf_scalar_size`.
unfoldable pub skip_value : ℕ → M (Unit {0})
unfolding skip_rough_array skip_string gguf_scalar_size seek
skip_value vtype =
    if ltb 0 (gguf_scalar_size vtype)
    then seek (gguf_scalar_size vtype)
    else (if vtype == 8 then skip_string else (if vtype == 9 then skip_rough_array else seek 8))

abbrev pub is_key : List ℕ → List ℕ → Bool
is_key key name = same_bytes (c_str key) name

unfoldable pub read_tokens : Tokenizer → M Tokenizer
unfolding read_u32 read_u64 read_strings
read_tokens t = do
  arr_type ← read_u32
  arr_len ← read_u64
  vocab ← read_strings arr_len
  return record t { vocab = vocab }

unfoldable pub read_ranks : Tokenizer → M Tokenizer
unfolding read_u32 read_u64 read_merges
read_ranks t = do arr_type ← read_u32; arr_len ← read_u64; read_merges 0 arr_len (without_ranks t)

abbrev pub is_byte_level : List ℕ → Bool
is_byte_level model = same_bytes model (codes "gpt2") || same_bytes model (codes "qwen2")

-- The value of an entry, by its key and its type.
unfoldable pub read_value : (key : List ℕ) (vtype : ℕ) → Tokenizer → M Tokenizer
unfolding read_tokens read_ranks read_string read_id read_flag skip_value same_bytes c_str
read_value key vtype t =
    if is_key key (codes "tokenizer.ggml.tokens") && (vtype == 9)
    then read_tokens t
    else (if is_key key (codes "tokenizer.ggml.merges") && (vtype == 9)
        then read_ranks t
        else (if is_key key (codes "tokenizer.ggml.model") && (vtype == 8)
            then read_string >>= (λ model. return (record t { byte_encode = is_byte_level model }))
            else (if is_key key (codes "tokenizer.ggml.bos_token_id") && (vtype == 4)
                then read_id t.bos_id >>= (λ id. return (record t { bos_id = id }))
                else (if is_key key (codes "tokenizer.ggml.eos_token_id") && (vtype == 4)
                    then read_id t.eos_id >>= (λ id. return (record t { eos_id = id }))
                    else (if is_key key (codes "tokenizer.ggml.add_bos_token") && (vtype == 7)
                        then read_flag >>= (λ v. return (record t { add_bos = v }))
                        else (if is_key key (codes "tokenizer.ggml.add_eos_token") && (vtype == 7)
                            then read_flag >>= (λ v. return (record t { add_eos = v }))
                            else skip_value vtype >> return t))))))

-- Of an entry whose key is too long the type is passed over, and not the value.
unfoldable pub read_entry : Tokenizer → M Tokenizer
unfolding read_value read read_u32 read_u64 seek
read_entry t = do
  key_len ← read_u64
  (if ltb 1024 key_len
      then seek key_len >> (seek 4 >> return t)
      else read key_len >>= λ key. read_u32 >>= λ vtype. read_value key vtype t)

unfoldable pub read_entries : ℕ → Tokenizer → M Tokenizer
unfolding read_entry
read_entries zero t = return t
read_entries (suc n) t = do t' ← read_entry t; read_entries n t'

-- Without the magic the answer is false.
unfoldable pub read_metadata : Tokenizer → M (Bool × Tokenizer)
unfolding read_entries read_u32 read_u64
read_metadata t = do
  magic ← read_u32
  version ← read_u32
  n_tensors ← read_u64
  n_kv ← read_u64
  (if magic == 0x46554747
      then read_entries n_kv t >>= (λ t'. return (true, t'))
      else return (false, t))

-- `token_to_id_`: the last place of a string in the vocabulary.
unfoldable pub last_index : (i : ℕ) → List (List ℕ) → List ℕ → Option ℕ
unfolding same_bytes
last_index i [] s = none
last_index i (tok ∷ toks) s = elim (last_index (suc i) toks s) [
  | none ↦ if same_bytes tok s then some i else none
  | some j ↦ some j
]

unfoldable pub is_special : List ℕ → Bool
unfolding starts_with same_bytes
is_special tok =
    leb 5 (length tok)
    && ((starts_with (codes "<|") tok && same_bytes (drop (length tok - 2) tok) (codes "|>"))
        || (same_bytes tok (codes "<think>") || same_bytes tok (codes "</think>")))

unfoldable pub specials_from : (i : ℕ) → List (List ℕ) → List (List ℕ × ℕ)
unfolding is_special
specials_from i [] = []
specials_from i (tok ∷ toks) =
    let rest = specials_from (suc i) toks in if is_special tok then (tok, i) ∷ rest else rest

unfoldable pub longest : List (List ℕ) → ℕ
longest [] = 0
longest (tok ∷ toks) = max (length tok) (longest toks)

-- `sort` is std::sort by size, the longest first; how it arranges equal sizes is left open.
module _ (sort : List (List ℕ × ℕ) → List (List ℕ × ℕ)) where
  unfoldable pub build_tables : Tokenizer → Tokenizer
  unfolding last_index specials_from longest
  build_tables t = record t {
    token_to_id = last_index 0 t.vocab;
    special_tokens = sort (specials_from 0 t.vocab);
    max_token_len = longest t.vocab;
  }

  unfoldable pub has_tokens : Tokenizer → Bool
  has_tokens t = ltb 0 (length t.vocab)

  -- `none` where the behaviour is not defined. The file is what `fopen` finds.
  unfoldable pub load_from_gguf : Option (List ℕ) → Tokenizer → Option (Bool × Tokenizer)
  unfolding read_metadata build_tables has_tokens
  load_from_gguf none t = some (false, t)
  load_from_gguf (some file) t = elim (read_metadata t file 0) [
    | none ↦ none
    | some ((false, t'), pos) ↦ some (false, t')
    | some ((true, t'), pos) ↦ some (has_tokens t', build_tables t')
  ]
