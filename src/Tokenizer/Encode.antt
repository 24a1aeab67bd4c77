-- ===== src/Tokenizer/Encode.antt =====
-- `Tokenizer::encode`, and both forms of `Tokenizer::decode`. The tables that the loader fills are a
-- record. No special token is empty: the loader takes none of fewer than five bytes.
use reflex_llm.Base.{
  ℕ, zero, suc, ◌%◌, Bool, not, ◌&&◌, ◌||◌, Option, none, some, List, [], ◌∷◌, ◌++◌, length, take,
  drop, get_elem?, starts_with, min, ◌==◌, if◌then◌else◌,
}
use reflex_llm.Tokenizer.Symbols.{symbol_len, split_utf8_symbols}
use reflex_llm.Tokenizer.Bytes.{encode_bytes_gpt2, decode_bytes}
use reflex_llm.Tokenizer.Pieces.{pretokenize_ascii}
use reflex_llm.Tokenizer.Merge.{Ranks, merge_all}

-- `has_ranks` is `!bpe_ranks_.empty()`.
pub record Tokenizer : Type 0 where
  pub vocab : List (List ℕ)
  pub token_to_id : List ℕ → Option ℕ
  pub has_ranks : Bool
  pub bpe_ranks : Ranks
  pub special_tokens : List (List ℕ × ℕ)
  pub max_token_len : ℕ
  pub byte_encode : Bool
  pub add_bos : Bool
  pub add_eos : Bool
  pub bos_id : ℕ
  pub eos_id : ℕ

-- The ids of those strings that have one.
unfoldable pub lookup_all : Tokenizer → List (List ℕ) → List ℕ
lookup_all t [] = []
lookup_all t (s ∷ ss) =
    let rest = lookup_all t ss in elim (t.token_to_id s) [ none ↦ rest | some id ↦ id ∷ rest ]

-- A merged symbol, or else the parts of it that `split_utf8_symbols` gives as well.
unfoldable pub symbol_tokens : Tokenizer → List ℕ → List ℕ
unfolding lookup_all
symbol_tokens t sym = elim (t.token_to_id sym) [
  | none ↦ lookup_all t (split_utf8_symbols (length sym) sym)
  | some id ↦ id ∷ []
]

unfoldable pub all_symbols : Tokenizer → List (List ℕ) → List ℕ
unfolding symbol_tokens
all_symbols t [] = []
all_symbols t (s ∷ ss) = symbol_tokens t s ++ all_symbols t ss

-- The longest prefix of at most `len` bytes that has an id, and its length.
unfoldable pub longest_match : Tokenizer → (len : ℕ) → List ℕ → Option (ℕ × ℕ)
longest_match t zero piece = none
longest_match t (suc n) piece =
    let rest = longest_match t n piece in
    elim (t.token_to_id (take (suc n) piece)) [ none ↦ rest | some id ↦ some (id, suc n) ]

-- Without ranks: the longest match each time, or a symbol that is left out.
unfoldable pub greedy : Tokenizer → (fuel : ℕ) → List ℕ → List ℕ
unfolding longest_match
greedy t zero piece = []
greedy t (suc fuel) [] = []
greedy t (suc fuel) (c ∷ cs) =
    elim (longest_match t (min t.max_token_len (length (c ∷ cs))) (c ∷ cs)) [
      | none ↦ greedy t fuel (drop (symbol_len c cs) (c ∷ cs))
      | some (id, n) ↦ id ∷ greedy t fuel (drop n (c ∷ cs))
    ]

unfoldable pub piece_tokens : Tokenizer → List ℕ → List ℕ
unfolding greedy all_symbols
piece_tokens t raw =
    let piece = if t.byte_encode then encode_bytes_gpt2 raw else raw in
    let symbols = split_utf8_symbols (length piece) piece in
    if not t.has_ranks
    then greedy t (length piece) piece
    else all_symbols t (merge_all t.bpe_ranks (length symbols) symbols)

unfoldable pub all_pieces : Tokenizer → List (List ℕ) → List ℕ
unfolding piece_tokens
all_pieces t [] = []
all_pieces t (p ∷ ps) = piece_tokens t p ++ all_pieces t ps

unfoldable pub encode_plain : Tokenizer → List ℕ → List ℕ
unfolding all_pieces
encode_plain t plain = all_pieces t (pretokenize_ascii (length plain) plain)

-- The first special token that the text begins with: its id and length.
unfoldable pub special_at : List (List ℕ × ℕ) → (text : List ℕ) → Option (ℕ × ℕ)
special_at [] text = none
special_at (sp ∷ sps) text =
    let rest = special_at sps text in
    if starts_with sp.0 text then some (sp.1, length sp.0) else rest

-- The bytes before the next special token.
unfoldable pub plain_len : List (List ℕ × ℕ) → (text : List ℕ) → ℕ
unfolding special_at
plain_len sps [] = 0
plain_len sps (c ∷ cs) =
    let rest = plain_len sps cs in elim (special_at sps (c ∷ cs)) [ none ↦ suc rest | some sp ↦ 0 ]

unfoldable pub encode_text : Tokenizer → (fuel : ℕ) → List ℕ → List ℕ
unfolding plain_len encode_plain
encode_text t zero text = []
encode_text t (suc fuel) [] = []
encode_text t (suc fuel) (c ∷ cs) = elim (special_at t.special_tokens (c ∷ cs)) [
  | none ↦
      let n = suc (plain_len t.special_tokens cs) in
      encode_plain t (take n (c ∷ cs)) ++ encode_text t fuel (drop n (c ∷ cs))
  | some (id, n) ↦ id ∷ encode_text t fuel (drop n (c ∷ cs))
]

unfoldable pub encode : Tokenizer → List ℕ → List ℕ
unfolding encode_text
encode t text =
    (if t.add_bos then t.bos_id ∷ [] else [])
    ++ (encode_text t (length text) text ++ (if t.add_eos then t.eos_id ∷ [] else []))

-- `tok.size() == 6`, and `<0x` in front.
unfoldable pub is_byte_token : List ℕ → Bool
is_byte_token tok = (length tok == 6) && starts_with (60 ∷ 48 ∷ 120 ∷ []) tok

-- `scan` is what `sscanf(tok, "<0x%02X>", ...)` answers.
unfoldable pub decode_token : Tokenizer → (scan : List ℕ → Option ℕ) → (token_id : ℕ) → List ℕ
unfolding is_byte_token
decode_token t scan id = elim (get_elem? t.vocab id) [
  | none ↦ []
  | some tok ↦
      let text = if t.byte_encode then decode_bytes tok else tok in
      if is_byte_token tok then elim (scan tok) [ none ↦ text | some b ↦ b % 256 ∷ [] ] else text
]

unfoldable pub decode_ids : Tokenizer → (scan : List ℕ → Option ℕ) → List ℕ → List ℕ
unfolding decode_token
decode_ids t scan [] = []
decode_ids t scan (id ∷ ids) =
    let rest = decode_ids t scan ids in
    if (id == t.bos_id) || (id == t.eos_id) then rest else decode_token t scan id ++ rest
