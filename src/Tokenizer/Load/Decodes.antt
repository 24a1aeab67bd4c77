-- ===== src/Tokenizer/Load/Decodes.antt =====
-- A tokenizer that was loaded decodes what it encodes.
use reflex_llm.Base.{
  ℕ, zero, suc, [], ◌∷◌, inl, inr, ◌≡◌, ◌<◌, refl, ap, sym, ◌∙◌, subst, Bool, true, false, Option,
  none, some, List, get_elem?, All, In, In-All, arith,
}
use reflex_llm.Tokenizer.Bytes.{byte_encoder}
use reflex_llm.Tokenizer.Coded.{AreBytes}
use reflex_llm.Tokenizer.Encode.{Tokenizer, encode_plain, decode_ids, is_byte_token}
use reflex_llm.Tokenizer.RoundTrip.{Faithful, NotEnd, decode_ids-encode_plain}
use reflex_llm.Tokenizer.Load.{last_index, read_metadata, build_tables, has_tokens, load_from_gguf}
use reflex_llm.Tokenizer.Load.Tables.{last_index-own, last_index-found}
use reflex_llm.Tokenizer.Load.Specials.{Special}

-- The vocabulary of a byte-level tokenizer: every byte has a token, and no token has the form <0xNN>.
abbrev pub IsByteLevel : List (List ℕ) → Type 0
IsByteLevel vocab =
    All (λ s. is_byte_token s ≡ false) vocab × ((b : ℕ) → b < 256 → In (byte_encoder b) vocab)

In-get_elem? : (xs : List (List ℕ)) (i : ℕ) (x : List ℕ) → get_elem? xs i ≡ some x → In x xs
In-get_elem? [] i x e = absurd (cc)
In-get_elem? (y ∷ ys) zero x e = inl (cc)
In-get_elem? (y ∷ ys) (suc i) x e = inr (In-get_elem? ys i x e)

module _ (sort : List Special → List Special) where
  -- What is loaded with success has its ids from its vocabulary.
  loaded_ids :
      (file : List ℕ) (t u : Tokenizer)
      → load_from_gguf sort (some file) t ≡ some (true, u)
      → u.token_to_id ≡ last_index 0 u.vocab
  unfolding load_from_gguf build_tables
  loaded_ids file t u e = from_metadata (read_metadata t file 0) e
    where
      from_metadata :
          (o : Option ((Bool × Tokenizer) × ℕ))
          → Path
              (Option (Bool × Tokenizer))
              (elim o [
                | none ↦ none
                | some ((false, t'), pos) ↦ some (false, t')
                | some ((true, t'), pos) ↦ some (has_tokens sort t', build_tables sort t')
              ])
              (some (true, u))
          → u.token_to_id ≡ last_index 0 u.vocab
      from_metadata none h = absurd (cc)
      from_metadata (some ((false, t'), pos)) h = absurd (cc)
      from_metadata (some ((true, t'), pos)) h =
          let same : build_tables sort t' ≡ u = cc in
          subst (λ (k : Tokenizer). k.token_to_id ≡ last_index 0 k.vocab) same refl

  loaded-Faithful :
      (u : Tokenizer)
      → u.token_to_id ≡ last_index 0 u.vocab
      → u.byte_encode ≡ true
      → u.has_ranks ≡ true
      → IsByteLevel u.vocab
      → Faithful u
  loaded-Faithful u ids byte_level ranked v = record {
    byte_level = byte_level;
    ranked = ranked;
    own_token = own;
    no_byte_token = λ s id e.
        In-All (λ (k : List ℕ). is_byte_token k ≡ false) u.vocab v.0 s
          (In-get_elem? u.vocab id s (own s id e));
    every_byte = λ b h.
        let (id, found) = last_index-found 0 u.vocab (byte_encoder b) (v.1 b h) in
        (id, ap (λ f. f (byte_encoder b)) ids ∙ found);
  }
    where
      own : (s : List ℕ) (id : ℕ) → u.token_to_id s ≡ some id → get_elem? u.vocab id ≡ some s
      own s id e =
          let (j, at, found) = last_index-own 0 u.vocab s id (sym (ap (λ f. f s) ids) ∙ e) in
          let same : j ≡ id = omega (arith, at) in
          subst (λ (k : ℕ). get_elem? u.vocab k ≡ some s) same found

  -- Whatever the file, where it loads with success as a byte-level tokenizer with ranks, whose
  -- vocabulary has a token for every byte and none of the form <0xNN>, any plain text of bytes that has
  -- no BOS or EOS among its tokens decodes to itself.
  pub loaded-decodes :
      (file : List ℕ) (t u : Tokenizer) (scan : List ℕ → Option ℕ) (plain : List ℕ)
      → load_from_gguf sort (some file) t ≡ some (true, u)
      → u.byte_encode ≡ true
      → u.has_ranks ≡ true
      → IsByteLevel u.vocab
      → AreBytes plain
      → All (NotEnd u) (encode_plain u plain)
      → decode_ids u scan (encode_plain u plain) ≡ plain
  loaded-decodes file t u scan plain e byte_level ranked v bytes no_end =
      decode_ids-encode_plain u scan (loaded-Faithful u (loaded_ids file t u e) byte_level ranked v)
        plain bytes no_end
