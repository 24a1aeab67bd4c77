-- ===== src/Persistence/Load.antt =====
-- `read_all`, `load_kv_from_file` and `peek_kv_header`. What the system calls answer is an argument;
-- what they deliver are the file's bytes from the cursor on.
pub mod Checks
pub mod RoundTrip
pub mod Refusals
use reflex_llm.Base.{
  ℕ, zero, suc, ◌+◌, ◌-◌, ◌*◌, ◌%◌, ◌^◌, Bool, true, false, not, Option, none, some, List, [], ◌∷◌,
  ◌++◌, take, drop, length, min, ltb, ◌==◌, if◌then◌else◌,
}
use reflex_llm.Persistence.Bytes.{decode_tokens}
use reflex_llm.Persistence.Header.{Header, header_bytes, kvcache_magic, kvcache_version, decode}
use reflex_llm.Persistence.Files.{FilePath, Files}

-- What `read_all` ends with: whether all bytes came, those it got, and the rest of the file.
pub record Read : Type 0 where
  pub all : Bool
  pub got : List ℕ
  pub rest : List ℕ

-- `calls k` is the value of the k-th `read`, 0 for an error or the end of the file; a call delivers at
-- most the bytes asked for, and none past the end.
unfoldable pub read_all : (ℕ → ℕ) → (fuel k bytes : ℕ) → (got rest : List ℕ) → Read
read_all calls fuel k zero got rest = record { all = true; got = got; rest = rest }
read_all calls zero k (suc bytes) got rest = record { all = false; got = got; rest = rest }
read_all calls (suc fuel) k (suc bytes) got rest =
    elim (min (min (calls k) (suc bytes)) (length rest)) [
      | zero ↦ record { all = false; got = got; rest = rest }
      | suc n ↦
          read_all calls fuel (k + 1) (suc bytes - suc n) (got ++ take (suc n) rest)
            (drop (suc n) rest)
    ]

-- The answers of one `load_kv_from_file` or `peek_kv_header`.
pub record LoadCalls : Type 0 where
  pub opens : Bool
  pub header_read : ℕ
  pub stats : Bool
  pub token_reads : ℕ → ℕ
  pub seeks : Bool
  pub body_reads : ℕ → ℕ

-- `size_t` arithmetic
abbrev pub expected_size : Header → ℕ
expected_size h = (header_bytes + h.used_tokens * 4 + h.body_bytes) % 2 ^ 64

-- The header, the tokens (where `out_tokens` is given) and the body, or `none` for `false`. What a
-- load that fails has left in its out-parameters is not modelled: no caller reads it.
abbrev pub Loaded : Type 0
Loaded = Option (Header × List ℕ × List ℕ)

read_body : LoadCalls → Header → (tokens rest : List ℕ) → Loaded
read_body calls h tokens rest =
    let body = read_all calls.body_reads h.body_bytes 0 h.body_bytes [] rest in
    if body.all then some (h, tokens, body.got) else none

read_tokens : LoadCalls → (out_tokens : Bool) → Header → (rest : List ℕ) → Loaded
read_tokens calls out_tokens h rest =
    let tokens_bytes = h.used_tokens * 4 in
    let tokens = read_all calls.token_reads tokens_bytes 0 tokens_bytes [] rest in
    let tail = read_body calls h (decode_tokens h.used_tokens tokens.got) tokens.rest in
    let skipped = read_body calls h [] (drop tokens_bytes rest) in
    if out_tokens
    then (if tokens.all then tail else none)
    else (if ltb 0 tokens_bytes then (if calls.seeks then skipped else none) else skipped)

load_file : LoadCalls → (out_tokens : Bool) → (kv_capacity : ℕ) → (file : List ℕ) → Loaded
load_file calls out_tokens kv_capacity file =
    let h = decode file in
    let tail = read_tokens calls out_tokens h (drop header_bytes file) in
    if not (min (min calls.header_read header_bytes) (length file) == header_bytes)
    then none
    else (if not (h.magic == kvcache_magic)
        then none
        else (if not (h.version == kvcache_version)
            then none
            else (if ltb kv_capacity h.body_bytes
                then none
                else (if not calls.stats
                    then none
                    else (if not (length file == expected_size h) then none else tail)))))

pub load_kv_from_file :
    LoadCalls → FilePath → (out_tokens : Bool) → (kv_capacity : ℕ) → Files → Loaded
load_kv_from_file calls path out_tokens kv_capacity fs = elim (fs path) [
  | none ↦ none
  | some file ↦ if calls.opens then load_file calls out_tokens kv_capacity file else none
]

peek_file : LoadCalls → (file : List ℕ) → Option Header
peek_file calls file =
    let h = decode file in
    if not (min (min calls.header_read header_bytes) (length file) == header_bytes)
    then none
    else (if not (h.magic == kvcache_magic)
        then none
        else (if not (h.version == kvcache_version)
            then none
            else (if not calls.stats
                then none
                else (if not (length file == expected_size h) then none else some h))))

pub peek_kv_header : LoadCalls → FilePath → Files → Option Header
peek_kv_header calls path fs = elim (fs path) [
  | none ↦ none
  | some file ↦ if calls.opens then peek_file calls file else none
]
