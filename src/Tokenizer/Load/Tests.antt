-- ===== src/Tokenizer/Load/Tests.antt =====
-- Tests of the loader of the tokenizer, and its theorems at two documents.
use reflex_llm.Base.{
  ℕ, zero, suc, ◌+◌, ◌^◌, ◌≤◌, ◌<◌, ◌≡◌, ◌↔◌, refl, ap, sym, subst, ◌⊎◌, inl, inr, true, false,
  none, some, List, [], ◌∷◌, ◌++◌, length, All, In, All-mono, codes, c_str, same_bytes, starts_with,
  leb, if◌then◌else◌, if_elim, arith,
}
use reflex_llm.Persistence.Bytes.{le, un_le}
use reflex_llm.Gguf.TensorTable.{gguf_scalar_size}
use reflex_llm.Gguf.TensorTable.Document.{
  Document, DocumentFits, scalar, text, scalars, texts, encode, Short,
}
use reflex_llm.Tokenizer.Encode.{
  Tokenizer, special_at, encode_plain, all_pieces, piece_tokens, all_symbols, symbol_tokens,
  lookup_all, decode_ids, is_byte_token,
}
use reflex_llm.Tokenizer.RoundTrip.{NotEnd}
use reflex_llm.Tokenizer.Bytes.{byte_encoder, byte_point, is_kept, moved_before, encode_bytes_gpt2}
use reflex_llm.Tokenizer.Symbols.{split_utf8_symbols, symbol_len, utf8_len, utf8_from_codepoint}
use reflex_llm.Tokenizer.Pieces.{
  pretokenize_ascii, piece_len, contraction_len, lead_len, class_len, run_len, is_other, is_alpha,
  is_digit, is_space,
}
use reflex_llm.Tokenizer.Merge.{merge_all, best_pair, rank_of, merge_at}
use reflex_llm.Tokenizer.Tests.{table, not_byte_token}
use reflex_llm.Tokenizer.Load.{
  load_from_gguf, build_tables, has_tokens, specials_from, is_special, last_index, put_merge,
  split_merge,
}
use reflex_llm.Tokenizer.Load.Entries.{IsKnown}
use reflex_llm.Tokenizer.Load.Document.{says_all, load_from_gguf-encode}
use reflex_llm.Tokenizer.Load.Specials.{
  Special, Descending, SortsBySize, LongestSpecial, special_at-LongestSpecial,
}
use reflex_llm.Tokenizer.Load.Decodes.{IsByteLevel, loaded-decodes}

-- Insertion by size, the longest first.
abbrev insert : Special → List Special → List Special
insert c [] = c ∷ []
insert c (f ∷ r) = if leb (length f.0) (length c.0) then c ∷ f ∷ r else f ∷ insert c r

abbrev by_size : List Special → List Special
by_size [] = []
by_size (c ∷ cs) = insert c (by_size cs)

In-insert : (c : Special) (h : List Special) (x : Special) → In x (insert c h) ↔ ((x ≡ c) ⊎ In x h)
In-insert c [] x = (λ i. i, λ i. i)
In-insert c (f ∷ r) x =
    let rest = In-insert c r x in
    if_elim (λ l. In x l ↔ ((x ≡ c) ⊎ In x (f ∷ r))) (leb (length f.0) (length c.0))
      (λ _. (λ i. i, λ i. i)) (λ _. (there rest, back rest))
  where
    Rest : Type 0
    Rest = In x (insert c r) ↔ ((x ≡ c) ⊎ In x r)

    there : Rest → (x ≡ f) ⊎ In x (insert c r) → (x ≡ c) ⊎ ((x ≡ f) ⊎ In x r)
    there rest (inl e) = inr (inl e)
    there rest (inr i) = elim (rest.0 i) [ inl e ↦ inl e | inr j ↦ inr (inr j) ]

    back : Rest → (x ≡ c) ⊎ ((x ≡ f) ⊎ In x r) → (x ≡ f) ⊎ In x (insert c r)
    back rest (inl e) = inr (rest.1 (inl e))
    back rest (inr (inl e)) = inl e
    back rest (inr (inr i)) = inr (rest.1 (inr i))

insert-AtMost :
    (n : ℕ) (c : Special) (h : List Special)
    → length c.0 ≤ n
    → All (λ b. length b.0 ≤ n) h
    → All (λ b. length b.0 ≤ n) (insert c h)
insert-AtMost n c [] l a = (l, tt)
insert-AtMost n c (f ∷ r) l a =
    let rest = insert-AtMost n c r l a.1 in
    if_elim (All (λ b. length b.0 ≤ n)) (leb (length f.0) (length c.0)) (λ _. (l, a))
      (λ _. (a.0, rest))

insert-Descending : (c : Special) (h : List Special) → Descending h → Descending (insert c h)
insert-Descending c [] d = (tt, tt)
insert-Descending c (f ∷ r) d =
    let rest = insert-Descending c r d.1 in
    if_elim Descending (leb (length f.0) (length c.0))
      (λ low.
        let l : length f.0 ≤ length c.0 = ground arith in
        ((l, All-mono _ _ r (λ b k. omega (arith, k, l)) d.0), d))
      (λ high. (insert-AtMost (length f.0) c r (ground arith) d.0, rest))

by_size-Descending : (l : List Special) → Descending (by_size l)
by_size-Descending [] = tt
by_size-Descending (c ∷ cs) = insert-Descending c (by_size cs) (by_size-Descending cs)

In-by_size : (l : List Special) (x : Special) → In x (by_size l) ↔ In x l
In-by_size [] x = (λ i. i, λ i. i)
In-by_size (c ∷ cs) x =
    let rest = In-by_size cs x in
    let here = In-insert c (by_size cs) x in
    (
      λ i. elim (here.0 i) [ inl e ↦ inl e | inr j ↦ inr (rest.0 j) ],
      λ i. here.1 (elim i [ inl e ↦ inl e | inr j ↦ inr (rest.1 j) ]),
    )

by_size-SortsBySize : SortsBySize by_size
by_size-SortsBySize = record { descending = by_size-Descending; In-sort = In-by_size }

abbrev specials : List (List ℕ)
specials = codes "a" ∷ codes "<|im|>" ∷ codes "<|" ∷ codes "<|im|>s|>" ∷ codes "<think>" ∷ []

longest_first : special_at (by_size (specials_from 0 specials)) (codes "<|im|>s|>x") ≡ some (3, 9)
unfolding special_at specials_from is_special starts_with same_bytes
longest_first = refl

special_at-LongestSpecial_example :
    LongestSpecial specials
      (codes "<|im|>x")
      (special_at (by_size (specials_from 0 specials)) (codes "<|im|>x"))
special_at-LongestSpecial_example =
    special_at-LongestSpecial by_size specials (codes "<|im|>x") by_size-SortsBySize

abbrev initial : Tokenizer
initial = record {
  vocab = [];
  token_to_id = λ _. none;
  has_ranks = false;
  bpe_ranks = λ _. none;
  special_tokens = [];
  max_token_len = 0;
  byte_encode = true;
  add_bos = true;
  add_eos = false;
  bos_id = 1;
  eos_id = 2;
}

abbrev words : Document
words = record {
  magic = 0x46554747;
  version = 3;
  kvs =
      (codes "general.name", text (codes "m"))
      ∷ (codes "x", scalars 6 2 (0 ∷ 0 ∷ 0 ∷ 0 ∷ 0 ∷ 0 ∷ 128 ∷ 63 ∷ []))
      ∷ (codes "tokenizer.ggml.model", text (codes "llama"))
      ∷ (codes "tokenizer.ggml.tokens", texts specials)
      ∷ (codes "tokenizer.ggml.merges", texts (codes "a b" ∷ codes "ab" ∷ []))
      ∷ (codes "tokenizer.ggml.eos_token_id", scalar 4 (4 ∷ 0 ∷ 0 ∷ 0 ∷ []))
      ∷ (codes "tokenizer.ggml.add_bos_token", scalar 7 (0 ∷ []))
      ∷ [];
  tensors = [];
}

words_fits : DocumentFits words
unfolding gguf_scalar_size
words_fits = omega arith

words_size : length (encode words ++ []) < 2 ^ 63
unfolding encode le
words_size = omega arith

words-IsKnown : All IsKnown words.kvs
unfolding gguf_scalar_size same_bytes c_str
words-IsKnown = (
  (omega arith, tt),
  (
    (omega arith, (refl, refl, refl)),
    (
      (omega arith, tt),
      ((omega arith, tt), ((omega arith, tt), ((omega arith, tt), ((omega arith, tt), tt)))),
    ),
  ),
)

load_from_gguf-encode_example :
    load_from_gguf by_size (some (encode words ++ [])) initial
    ≡ some (
      has_tokens by_size (says_all words.kvs initial),
      build_tables by_size (says_all words.kvs initial),
    )
load_from_gguf-encode_example =
    load_from_gguf-encode by_size initial words [] words_fits words_size refl words-IsKnown

abbrev loaded_words : Tokenizer
loaded_words = says_all words.kvs initial

words_loaded :
    (loaded_words.vocab ≡ specials)
    × (loaded_words.bpe_ranks (codes "a" ++ (10 ∷ codes "b")) ≡ some 0)
    × (loaded_words.bpe_ranks (codes "ab") ≡ none)
    × (loaded_words.byte_encode ≡ false)
    × (loaded_words.eos_id ≡ 4)
    × (loaded_words.add_bos ≡ false)
unfolding put_merge split_merge same_bytes c_str un_le
words_loaded = (refl, refl, refl, refl, refl, refl)

-- A vocabulary of the symbols of the bytes and the two ends.
abbrev symbols : List (List ℕ)
symbols = table 256 0

abbrev bytes : Document
bytes = record {
  magic = 0x46554747;
  version = 3;
  kvs =
      (codes "tokenizer.ggml.model", text (codes "gpt2"))
      ∷ (codes "tokenizer.ggml.tokens", texts symbols)
      ∷ (codes "tokenizer.ggml.merges", texts (codes "h i" ∷ []))
      ∷ (codes "tokenizer.ggml.bos_token_id", scalar 4 (0 ∷ 1 ∷ 0 ∷ 0 ∷ []))
      ∷ (codes "tokenizer.ggml.eos_token_id", scalar 4 (1 ∷ 1 ∷ 0 ∷ 0 ∷ []))
      ∷ [];
  tensors = [];
}

symbol_Short : (b : ℕ) → Short (byte_encoder b)
unfolding byte_encoder utf8_from_codepoint
symbol_Short b = ground arith

symbols_Short : (n b : ℕ) → All Short (table n b)
symbols_Short zero b = tt
symbols_Short (suc n) b = (symbol_Short b, symbols_Short n (b + 1))

bytes_fits : DocumentFits bytes
unfolding gguf_scalar_size
bytes_fits = record {
  magic_32 = omega arith;
  version_32 = omega arith;
  tensors_64 = omega arith;
  kvs_64 = omega arith;
  kvs_fit = (
    (omega arith, omega arith),
    (
      (omega arith, (omega arith, symbols_Short 256 0)),
      (
        (omega arith, (omega arith, (omega arith, tt))),
        (
          (omega arith, (omega arith, omega arith, refl)),
          ((omega arith, (omega arith, omega arith, refl)), tt),
        ),
      ),
    ),
  );
  tensors_fit = tt;
}

bytes_length : leb (length (encode bytes ++ [])) 10000 ≡ true
unfolding encode le byte_encoder byte_point is_kept moved_before utf8_from_codepoint
bytes_length = refl

bytes_size : length (encode bytes ++ []) < 2 ^ 63
bytes_size =
    let bounded : length (encode bytes ++ []) ≤ 10000 = ground (arith, bytes_length) in
    omega (arith, bounded)

abbrev loaded_bytes : Tokenizer
loaded_bytes = build_tables by_size (says_all bytes.kvs initial)

bytes_vocab : loaded_bytes.vocab ≡ symbols
unfolding build_tables put_merge split_merge same_bytes c_str
bytes_vocab = refl

bytes-IsKnown : All IsKnown bytes.kvs
bytes-IsKnown = (
  (omega arith, tt),
  ((omega arith, tt), ((omega arith, tt), ((omega arith, tt), ((omega arith, tt), tt)))),
)

bytes_loaded :
    load_from_gguf by_size (some (encode bytes ++ [])) initial ≡ some (true, loaded_bytes)
unfolding has_tokens put_merge split_merge same_bytes c_str
bytes_loaded =
    load_from_gguf-encode by_size initial bytes [] bytes_fits bytes_size refl bytes-IsKnown

In-table : (n b i : ℕ) → i < n → In (byte_encoder (b + i)) (table n b)
In-table zero b i h = absurd (omega arith)
In-table (suc n) b zero h = inl (ap byte_encoder (omega arith))
In-table (suc n) b (suc i) h =
    let same : b + 1 + i ≡ b + suc i = omega arith in
    inr (
      subst (λ (k : ℕ). In (byte_encoder k) (table n (b + 1))) same
        (In-table n (b + 1) i (omega arith)))

no_byte_tokens : (n b : ℕ) → All (λ s. is_byte_token s ≡ false) (table n b)
no_byte_tokens zero b = tt
no_byte_tokens (suc n) b = (not_byte_token b, no_byte_tokens n (b + 1))

symbols-IsByteLevel : IsByteLevel symbols
symbols-IsByteLevel = (
  no_byte_tokens 256 0,
  λ b h.
      let same : 0 + b ≡ b = omega arith in
      subst (λ (k : ℕ). In (byte_encoder k) symbols) same (In-table 256 0 b h),
)

-- "hi" is not merged, as the vocabulary has no "hi"; its parts are looked up.
hi_loaded : encode_plain loaded_bytes (104 ∷ 105 ∷ []) ≡ 104 ∷ 105 ∷ []
unfolding encode_plain all_pieces piece_tokens all_symbols symbol_tokens lookup_all
    pretokenize_ascii piece_len contraction_len lead_len class_len run_len is_other is_alpha
    is_digit is_space merge_all best_pair rank_of merge_at split_utf8_symbols symbol_len utf8_len
    encode_bytes_gpt2 byte_encoder byte_point is_kept moved_before utf8_from_codepoint same_bytes
    starts_with build_tables last_index put_merge split_merge c_str un_le
hi_loaded = refl

hi-NotEnd : All (NotEnd loaded_bytes) (104 ∷ 105 ∷ [])
unfolding un_le same_bytes c_str build_tables put_merge split_merge
hi-NotEnd = (
  (λ e. absurd (omega (arith, e)), λ e. absurd (omega (arith, e))),
  ((λ e. absurd (omega (arith, e)), λ e. absurd (omega (arith, e))), tt),
)

loaded-decodes_example :
    decode_ids loaded_bytes (λ _. none) (encode_plain loaded_bytes (104 ∷ 105 ∷ []))
    ≡ 104 ∷ 105 ∷ []
unfolding build_tables put_merge split_merge same_bytes c_str
loaded-decodes_example =
    loaded-decodes by_size (encode bytes ++ []) initial loaded_bytes (λ _. none) (104 ∷ 105 ∷ [])
      bytes_loaded refl refl (subst IsByteLevel (sym bytes_vocab) symbols-IsByteLevel)
      (omega arith, (omega arith, tt)) (subst (All (NotEnd loaded_bytes)) (sym hi_loaded) hi-NotEnd)
