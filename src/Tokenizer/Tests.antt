-- ===== src/Tokenizer/Tests.antt =====
-- Tests of the tokenizer, and its theorems at a vocabulary of single bytes.
use reflex_llm.Base.{
  ℕ, zero, suc, ◌+◌, ◌≡◌, ◌<◌, refl, ap, sym, ◌∙◌, List, [], ◌∷◌, none, some, true, false, arith,
  get_elem?, same_bytes, eq_of_same_bytes, Bool-cases, inl, inr, else_false, subst, starts_with,
  if◌then◌else◌,
}
use reflex_llm.Tokenizer.Symbols.{
  concat, split_utf8_symbols, symbol_len, utf8_len, utf8_from_codepoint,
}
use reflex_llm.Tokenizer.Bytes.{
  is_kept, moved_before, byte_point, byte_encoder, decoder_below, byte_decoder, encode_bytes_gpt2,
  byte_decoder-byte_encoder,
}
use reflex_llm.Tokenizer.Pieces.{
  pretokenize_ascii, piece_len, contraction_len, lead_len, class_len, run_len, is_other, is_alpha,
  is_digit, is_space,
}
use reflex_llm.Tokenizer.Merge.{
  Ranks, merge_all, merge_at, best_pair, rank_of, int_max, NoneBelow, merge_all_complete,
}
use reflex_llm.Tokenizer.Encode.{
  Tokenizer, encode_plain, all_pieces, piece_tokens, all_symbols, symbol_tokens, lookup_all,
  is_byte_token,
}
use reflex_llm.Tokenizer.RoundTrip.{Faithful}

-- "I'm 42 é": the letter at the end is two bytes.
abbrev text : List ℕ
text = 73 ∷ 39 ∷ 109 ∷ 32 ∷ 52 ∷ 50 ∷ 32 ∷ 195 ∷ 169 ∷ []

pieces_of_text :
    pretokenize_ascii 9 text
    ≡ (73 ∷ []) ∷ (39 ∷ 109 ∷ []) ∷ (32 ∷ 52 ∷ 50 ∷ []) ∷ (32 ∷ 195 ∷ 169 ∷ []) ∷ []
unfolding pretokenize_ascii piece_len contraction_len lead_len class_len run_len is_other is_alpha
    is_digit is_space starts_with
pieces_of_text = refl

-- A space is 0x120, the first byte that moves after the control characters and one more.
space_symbol : byte_encoder 32 ≡ 196 ∷ 160 ∷ []
unfolding byte_encoder byte_point is_kept moved_before utf8_from_codepoint
space_symbol = refl

-- The only pair with a rank is "ab".
abbrev ranks : Ranks
ranks key = if same_bytes key (97 ∷ 10 ∷ 98 ∷ []) then some 0 else none

abbrev symbols : List (List ℕ)
symbols = (97 ∷ []) ∷ (97 ∷ []) ∷ (98 ∷ []) ∷ []

merged_ab : merge_all ranks 3 symbols ≡ (97 ∷ []) ∷ (97 ∷ 98 ∷ []) ∷ []
unfolding merge_all best_pair merge_at rank_of same_bytes
merged_ab = refl

merge_all_complete_example :
    (concat (merge_all ranks 3 symbols) ≡ concat symbols)
    × NoneBelow ranks int_max (merge_all ranks 3 symbols)
merge_all_complete_example = merge_all_complete ranks 3 symbols (omega arith)

-- Id `b` is the symbol of byte `b`.
abbrev pub table : (n b : ℕ) → List (List ℕ)
table zero b = []
table (suc n) b = byte_encoder b ∷ table n (b + 1)

abbrev bytewise : Tokenizer
bytewise = record {
  vocab = table 256 0;
  token_to_id = byte_decoder;
  has_ranks = true;
  bpe_ranks = λ key. none;
  special_tokens = [];
  max_token_len = 2;
  byte_encode = true;
  add_bos = false;
  add_eos = false;
  bos_id = 256;
  eos_id = 257;
}

pub get_elem?-table : (n b i : ℕ) → i < n → get_elem? (table n b) i ≡ some (byte_encoder (b + i))
get_elem?-table zero b i h = absurd (omega arith)
get_elem?-table (suc n) b zero h = ap (λ (k : ℕ). some (byte_encoder k)) (omega arith)
get_elem?-table (suc n) b (suc i) h =
    let same : b + 1 + i ≡ b + suc i = omega arith in
    get_elem?-table n (b + 1) i (omega arith) ∙ ap (λ (k : ℕ). some (byte_encoder k)) same

decoder_below-some :
    (n : ℕ) (s : List ℕ) (b : ℕ) → decoder_below n s ≡ some b → (b < n) × (byte_encoder b ≡ s)
unfolding decoder_below
decoder_below-some zero s b e = absurd (cc)
decoder_below-some (suc n) s b e = elim (Bool-cases (same_bytes (byte_encoder n) s)) [
  | inl same ↦
      let here : n ≡ b = ground (arith, same, e) in
      (omega arith, ap byte_encoder (sym here) ∙ eq_of_same_bytes (byte_encoder n) s same)
  | inr other ↦
      let (lt, eq) =
        decoder_below-some n s b (
          sym (else_false (same_bytes (byte_encoder n) s) (some n) (decoder_below n s) other)
          ∙ e) in
      (omega arith, eq)
]

byte_decoder-some :
    (s : List ℕ) (b : ℕ) → byte_decoder s ≡ some b → (b < 256) × (byte_encoder b ≡ s)
unfolding byte_decoder
byte_decoder-some s b e = decoder_below-some 256 s b e

pub not_byte_token : (b : ℕ) → is_byte_token (byte_encoder b) ≡ false
unfolding is_byte_token byte_encoder utf8_from_codepoint starts_with
not_byte_token b = ground arith

bytewise-Faithful : Faithful bytewise
bytewise-Faithful = record {
  byte_level = refl;
  ranked = refl;
  own_token = λ s id e.
      let (lt, same) = byte_decoder-some s id e in
      get_elem?-table 256 0 id lt ∙ ap some (ap byte_encoder (omega arith) ∙ same);
  no_byte_token = λ s id e.
      subst (λ (x : List ℕ). is_byte_token x ≡ false) (byte_decoder-some s id e).1
        (not_byte_token id);
  every_byte = λ b h. (b, byte_decoder-byte_encoder b h);
}

hi_tokens : encode_plain bytewise (104 ∷ 105 ∷ []) ≡ 104 ∷ 105 ∷ []
unfolding encode_plain all_pieces piece_tokens all_symbols symbol_tokens lookup_all
    pretokenize_ascii piece_len contraction_len lead_len class_len run_len is_other is_alpha
    is_digit is_space merge_all best_pair rank_of merge_at split_utf8_symbols symbol_len utf8_len
    encode_bytes_gpt2 byte_decoder decoder_below byte_encoder byte_point is_kept moved_before
    utf8_from_codepoint same_bytes starts_with
hi_tokens = refl
