-- ===== src/Tokenizer/RoundTrip.antt =====
-- What is encoded decodes to itself.
use reflex_llm.Base.{
  ℕ, ◌<◌, ◌≡◌, ◌≢◌, refl, ap, sym, ◌∙◌, subst, inl, inr, true, false, not, ◌||◌, Option, some, List,
  [], ◌∷◌, ◌++◌, length, map, append-nil, append_assoc, get_elem?, arith, All, All-append,
  All-append_left, All-append_right, not_of_eq, ◌==◌, if◌then◌else◌, then_true, else_false,
  Option-cases, Bool-cases,
}
use reflex_llm.Tokenizer.Symbols.{concat, concat-split, split_utf8_symbols}
use reflex_llm.Tokenizer.Bytes.{
  byte_encoder, encode_bytes_gpt2, decode_bytes, decode_bytes-encode_bytes_gpt2,
}
use reflex_llm.Tokenizer.Coded.{
  AreBytes, Coded, byte_Coded, encode_bytes-append, encode_bytes_injective, split-encode_bytes,
  map-Coded, merge_all-Coded,
}
use reflex_llm.Tokenizer.Pieces.{pretokenize_ascii, concat-pretokenize_ascii}
use reflex_llm.Tokenizer.Merge.{merge_all, concat-merge_all}
use reflex_llm.Tokenizer.Encode.{
  Tokenizer, greedy, lookup_all, symbol_tokens, all_symbols, piece_tokens, all_pieces, encode_plain,
  is_byte_token, decode_token, decode_ids,
}

-- The tables of a byte-level vocabulary with ranks: ids stand for the strings that they are of, every
-- byte has a token, and no token has the form <0xNN>.
pub record Faithful (t : Tokenizer) : Type 0 where
  pub byte_level : t.byte_encode ≡ true
  pub ranked : t.has_ranks ≡ true
  pub own_token : (s : List ℕ) (id : ℕ) → t.token_to_id s ≡ some id → get_elem? t.vocab id ≡ some s
  pub no_byte_token : (s : List ℕ) (id : ℕ) → t.token_to_id s ≡ some id → is_byte_token s ≡ false
  pub every_byte : (b : ℕ) → b < 256 → (id : ℕ) × (t.token_to_id (byte_encoder b) ≡ some id)

-- Not an id that decoding leaves out.
abbrev pub NotEnd : Tokenizer → ℕ → Type 0
NotEnd t id = (id ≢ t.bos_id) × (id ≢ t.eos_id)

module _ (t : Tokenizer) (scan : List ℕ → Option ℕ) (f : Faithful t) where
  decode_ids-append :
      (xs ys : List ℕ) → decode_ids t scan (xs ++ ys) ≡ decode_ids t scan xs ++ decode_ids t scan ys
  unfolding decode_ids
  decode_ids-append [] ys = refl
  decode_ids-append (x ∷ xs) ys = elim (Bool-cases ((x == t.bos_id) || (x == t.eos_id))) [
    | inl end ↦
        then_true _ _ _ end
        ∙ (decode_ids-append xs ys
            ∙ ap (λ (z : List ℕ). z ++ decode_ids t scan ys)
                (sym (then_true ((x == t.bos_id) || (x == t.eos_id)) (decode_ids t scan xs) _ end)))
    | inr other ↦
        else_false _ _ _ other
        ∙ (ap (◌++◌ (decode_token t scan x)) (decode_ids-append xs ys)
            ∙ (sym (append_assoc (decode_token t scan x) _ _)
                ∙ ap (λ (z : List ℕ). z ++ decode_ids t scan ys)
                    (sym (
                      else_false ((x == t.bos_id) || (x == t.eos_id)) (decode_ids t scan xs) _
                        other))))
  ]

  decode_ids-first :
      (id : ℕ) (ids : List ℕ)
      → NotEnd t id
      → decode_ids t scan (id ∷ ids) ≡ decode_token t scan id ++ decode_ids t scan ids
  unfolding decode_ids
  decode_ids-first id ids n =
      else_false ((id == t.bos_id) || (id == t.eos_id)) _ _ (ground (arith, n.0, n.1))

  decode_token-own :
      (s : List ℕ) (id : ℕ) (c : Coded s)
      → t.token_to_id s ≡ some id
      → decode_token t scan id ≡ c.bytes
  unfolding decode_token
  decode_token-own s id c e =
      rw (f.own_token s id e, decode_token)
        (else_false (is_byte_token s) _ _ (f.no_byte_token s id e)
          ∙ (then_true t.byte_encode (decode_bytes s) s f.byte_level
              ∙ (ap decode_bytes c.coded ∙ decode_bytes-encode_bytes_gpt2 c.bytes c.small)))

  lookup_all-first :
      (s : List ℕ) (ss : List (List ℕ)) (id : ℕ)
      → t.token_to_id s ≡ some id
      → lookup_all t (s ∷ ss) ≡ id ∷ lookup_all t ss
  unfolding lookup_all
  lookup_all-first s ss id e = rw (e, lookup_all) refl

  -- The ids of single bytes.
  lookup_all-bytes :
      (bs : List ℕ)
      → AreBytes bs
      → All (NotEnd t) (lookup_all t (map byte_encoder bs))
      → decode_ids t scan (lookup_all t (map byte_encoder bs)) ≡ bs
  unfolding lookup_all decode_ids byte_Coded
  lookup_all-bytes [] h n = refl
  lookup_all-bytes (b ∷ bs) h n =
      let (id, e) = f.every_byte b h.0 in
      let first = lookup_all-first (byte_encoder b) (map byte_encoder bs) id e in
      let m = subst (All (NotEnd t)) first n in
      ap (decode_ids t scan) first
      ∙ (decode_ids-first id _ m.0
          ∙ (ap (λ (x : List ℕ). x ++ decode_ids t scan (lookup_all t (map byte_encoder bs)))
                (decode_token-own (byte_encoder b) id (byte_Coded b h.0) e)
              ∙ ap (◌∷◌ b) (lookup_all-bytes bs h.1 m.1)))

  symbol_tokens-Coded :
      (s : List ℕ) (c : Coded s)
      → All (NotEnd t) (symbol_tokens t s)
      → decode_ids t scan (symbol_tokens t s) ≡ c.bytes
  unfolding symbol_tokens decode_ids
  symbol_tokens-Coded s c n = elim (Option-cases (t.token_to_id s)) [
    | inl e ↦
        let parts : symbol_tokens t s ≡ lookup_all t (map byte_encoder c.bytes) =
          rw (e, symbol_tokens)
            (ap (lookup_all t) (
              ap (λ (x : List ℕ). split_utf8_symbols (length x) x) c.coded
              ∙ split-encode_bytes _ c.bytes c.small (omega arith))) in
        ap (decode_ids t scan) parts
        ∙ lookup_all-bytes c.bytes c.small (subst (All (NotEnd t)) parts n)
    | inr (id, e) ↦
        let one : symbol_tokens t s ≡ id ∷ [] = rw (e, symbol_tokens) refl in
        ap (decode_ids t scan) one
        ∙ (decode_ids-first id [] (subst (All (NotEnd t)) one n).0
            ∙ (append-nil (decode_token t scan id) ∙ decode_token-own s id c e))
  ]

  -- The symbols of a text decode to bytes, which encode to the symbols.
  all_symbols-Coded :
      (ss : List (List ℕ))
      → All Coded ss
      → All (NotEnd t) (all_symbols t ss)
      → (encode_bytes_gpt2 (decode_ids t scan (all_symbols t ss)) ≡ concat ss)
        × AreBytes (decode_ids t scan (all_symbols t ss))
  unfolding all_symbols decode_ids encode_bytes_gpt2
  all_symbols-Coded [] h n = (refl, tt)
  all_symbols-Coded (s ∷ ss) h n =
      let (rest, small) =
        all_symbols-Coded ss h.1 (All-append_right (NotEnd t) (symbol_tokens t s) _ n) in
      let both : decode_ids t scan (symbol_tokens t s ++ all_symbols t ss)
          ≡ h.0.bytes ++ decode_ids t scan (all_symbols t ss) =
        decode_ids-append (symbol_tokens t s) (all_symbols t ss)
        ∙ ap (λ (x : List ℕ). x ++ decode_ids t scan (all_symbols t ss))
            (symbol_tokens-Coded s h.0 (All-append_left (NotEnd t) (symbol_tokens t s) _ n)) in
      (
        ap encode_bytes_gpt2 both
            ∙ (encode_bytes-append h.0.bytes _
                ∙ (ap
                      (λ (x : List ℕ).
                        x ++ encode_bytes_gpt2 (decode_ids t scan (all_symbols t ss)))
                      (sym h.0.coded)
                    ∙ ap (◌++◌ s) rest)),
        subst AreBytes (sym both) (All-append (λ b. b < 256) h.0.bytes _ h.0.small small),
      )

  -- The merged symbols of a piece.
  merged : List ℕ → List (List ℕ)
  merged raw =
      let symbols = split_utf8_symbols (length (encode_bytes_gpt2 raw)) (encode_bytes_gpt2 raw) in
      merge_all t.bpe_ranks (length symbols) symbols

  piece_tokens-merged : (raw : List ℕ) → piece_tokens t raw ≡ all_symbols t (merged raw)
  unfolding piece_tokens merged
  piece_tokens-merged raw =
      ap tokens_of (then_true t.byte_encode (encode_bytes_gpt2 raw) raw f.byte_level)
      ∙ else_false (not t.has_ranks) _ _ (not_of_eq t.has_ranks f.ranked)
    where
      tokens_of : List ℕ → List ℕ
      tokens_of piece =
          let symbols = split_utf8_symbols (length piece) piece in
          if not t.has_ranks
          then greedy t (length piece) piece
          else all_symbols t (merge_all t.bpe_ranks (length symbols) symbols)

  merged_Coded : (raw : List ℕ) → AreBytes raw → All Coded (merged raw)
  unfolding merged
  merged_Coded raw h =
      merge_all-Coded t.bpe_ranks _ _
        (subst (All Coded) (sym (split-encode_bytes _ raw h (omega arith))) (map-Coded raw h))

  concat-merged : (raw : List ℕ) → concat (merged raw) ≡ encode_bytes_gpt2 raw
  unfolding merged
  concat-merged raw =
      concat-merge_all t.bpe_ranks _ _ ∙ concat-split _ (encode_bytes_gpt2 raw) (omega arith)

  piece_tokens-decodes :
      (raw : List ℕ)
      → AreBytes raw
      → All (NotEnd t) (piece_tokens t raw)
      → decode_ids t scan (piece_tokens t raw) ≡ raw
  piece_tokens-decodes raw h n =
      let same = piece_tokens-merged raw in
      let (text, small) =
        all_symbols-Coded (merged raw) (merged_Coded raw h) (subst (All (NotEnd t)) same n) in
      ap (decode_ids t scan) same
      ∙ encode_bytes_injective (decode_ids t scan (all_symbols t (merged raw))) raw small h
          (text ∙ concat-merged raw)

  all_pieces-decodes :
      (ps : List (List ℕ))
      → AreBytes (concat ps)
      → All (NotEnd t) (all_pieces t ps)
      → decode_ids t scan (all_pieces t ps) ≡ concat ps
  unfolding all_pieces decode_ids
  all_pieces-decodes [] h n = refl
  all_pieces-decodes (p ∷ ps) h n =
      decode_ids-append (piece_tokens t p) (all_pieces t ps)
      ∙ (ap (λ (x : List ℕ). x ++ decode_ids t scan (all_pieces t ps))
            (piece_tokens-decodes p (All-append_left (λ b. b < 256) p (concat ps) h)
              (All-append_left (NotEnd t) (piece_tokens t p) _ n))
          ∙ ap (◌++◌ p) (
              all_pieces-decodes ps (All-append_right (λ b. b < 256) p (concat ps) h)
                (All-append_right (NotEnd t) (piece_tokens t p) _ n)))

  -- With a byte-level vocabulary with ranks in which every byte has a token, and whatever `sscanf`
  -- answers, any plain text of bytes of which no token is BOS or EOS decodes to itself.
  pub decode_ids-encode_plain :
      (plain : List ℕ)
      → AreBytes plain
      → All (NotEnd t) (encode_plain t plain)
      → decode_ids t scan (encode_plain t plain) ≡ plain
  unfolding encode_plain
  decode_ids-encode_plain plain h n =
      let whole = concat-pretokenize_ascii (length plain) plain (omega arith) in
      all_pieces-decodes (pretokenize_ascii (length plain) plain) (subst AreBytes (sym whole) h) n
      ∙ whole
