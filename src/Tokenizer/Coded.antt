-- ===== src/Tokenizer/Coded.antt =====
-- Symbols that stand for bytes, and that merging keeps them so.
use reflex_llm.Base.{
  ℕ, zero, suc, ◌≤◌, ◌<◌, ◌≡◌, refl, ap, sym, ◌∙◌, none, List, [], ◌∷◌, ◌++◌, length, take, drop,
  map, length-append, append-nil, append_assoc, take-length, drop-length, arith, All, All-append,
  option_elim,
}
use reflex_llm.Tokenizer.Symbols.{head_len, split_utf8_symbols}
use reflex_llm.Tokenizer.Bytes.{
  byte_encoder, encode_bytes_gpt2, decode_bytes, decode_bytes-encode_bytes_gpt2,
  length-byte_encoder, head_len-byte_encoder,
}
use reflex_llm.Tokenizer.Merge.{Ranks, merge_at, merge_all, best_pair, int_max}

-- A string of bytes.
abbrev pub AreBytes : List ℕ → Type 0
AreBytes = All (λ (b : ℕ). b < 256)

pub encode_bytes-append :
    (xs ys : List ℕ) → encode_bytes_gpt2 (xs ++ ys) ≡ encode_bytes_gpt2 xs ++ encode_bytes_gpt2 ys
unfolding encode_bytes_gpt2
encode_bytes-append [] ys = refl
encode_bytes-append (x ∷ xs) ys =
    ap (◌++◌ (byte_encoder x)) (encode_bytes-append xs ys) ∙ sym (append_assoc (byte_encoder x) _ _)

pub encode_bytes_injective :
    (xs ys : List ℕ)
    → AreBytes xs
    → AreBytes ys
    → encode_bytes_gpt2 xs ≡ encode_bytes_gpt2 ys
    → xs ≡ ys
encode_bytes_injective xs ys h k e =
    sym (decode_bytes-encode_bytes_gpt2 xs h)
    ∙ (ap decode_bytes e ∙ decode_bytes-encode_bytes_gpt2 ys k)

-- The first symbol is split off whole.
split-symbol :
    (fuel : ℕ) (tok s rest : List ℕ)
    → tok ≡ s ++ rest
    → head_len tok ≡ length s
    → 0 < length s
    → split_utf8_symbols (suc fuel) tok ≡ s ∷ split_utf8_symbols fuel rest
unfolding split_utf8_symbols
split-symbol fuel [] s rest e n h = absurd (omega (arith, n))
split-symbol fuel (c ∷ cs) s rest e n h =
    ap (λ (k : ℕ). take k (c ∷ cs) ∷ split_utf8_symbols fuel (drop k (c ∷ cs))) n
    ∙ (ap (λ (tok : List ℕ). take (length s) tok ∷ split_utf8_symbols fuel (drop (length s) tok)) e
        ∙ (ap (λ (x : List ℕ). x ∷ split_utf8_symbols fuel (drop (length s) (s ++ rest)))
              (take-length s rest (length s) refl)
            ∙ ap (λ (x : List ℕ). s ∷ split_utf8_symbols fuel x)
                (drop-length s rest (length s) refl)))

split-nil : (fuel : ℕ) → split_utf8_symbols fuel [] ≡ []
unfolding split_utf8_symbols
split-nil zero = refl
split-nil (suc fuel) = refl

pub split-encode_bytes :
    (fuel : ℕ) (bs : List ℕ)
    → AreBytes bs
    → length (encode_bytes_gpt2 bs) ≤ fuel
    → split_utf8_symbols fuel (encode_bytes_gpt2 bs) ≡ map byte_encoder bs
unfolding encode_bytes_gpt2
split-encode_bytes fuel [] h k = split-nil fuel
split-encode_bytes zero (b ∷ bs) h k =
    absurd
      (omega (arith, length-append (byte_encoder b) (encode_bytes_gpt2 bs), length-byte_encoder b))
split-encode_bytes (suc fuel) (b ∷ bs) h k =
    split-symbol fuel _ (byte_encoder b) (encode_bytes_gpt2 bs) refl
      (head_len-byte_encoder b (encode_bytes_gpt2 bs) h.0) (length-byte_encoder b)
    ∙ ap (◌∷◌ (byte_encoder b)) (
        split-encode_bytes fuel bs h.1 (
          omega
            (arith, length-append (byte_encoder b) (encode_bytes_gpt2 bs), length-byte_encoder b)))

-- A symbol that stands for bytes.
pub record Coded (s : List ℕ) : Type 0 where
  pub bytes : List ℕ
  pub small : AreBytes bytes
  pub coded : s ≡ encode_bytes_gpt2 bytes

coded_append : (s r : List ℕ) → Coded s → Coded r → Coded (s ++ r)
coded_append s r c d = record {
  bytes = c.bytes ++ d.bytes;
  small = All-append (λ b. b < 256) c.bytes d.bytes c.small d.small;
  coded =
      ap (λ (x : List ℕ). x ++ r) c.coded
      ∙ (ap (◌++◌ (encode_bytes_gpt2 c.bytes)) d.coded ∙ sym (encode_bytes-append c.bytes d.bytes));
}

unfoldable pub byte_Coded : (b : ℕ) → b < 256 → Coded (byte_encoder b)
unfolding encode_bytes_gpt2
byte_Coded b h = record {
  bytes = b ∷ [];
  small = (h, tt);
  coded = sym (append-nil (byte_encoder b));
}

pub map-Coded : (bs : List ℕ) → AreBytes bs → All Coded (map byte_encoder bs)
map-Coded [] h = tt
map-Coded (b ∷ bs) h = (byte_Coded b h.0, map-Coded bs h.1)

merge_at-Coded : (i : ℕ) (ss : List (List ℕ)) → All Coded ss → All Coded (merge_at i ss)
unfolding merge_at
merge_at-Coded i [] h = tt
merge_at-Coded i (s ∷ []) h = h
merge_at-Coded zero (s ∷ r ∷ ss) h = (coded_append s r h.0 h.1.0, h.1.1)
merge_at-Coded (suc i) (s ∷ r ∷ ss) h = (h.0, merge_at-Coded i (r ∷ ss) h.1)

pub merge_all-Coded :
    (ranks : Ranks) (fuel : ℕ) (ss : List (List ℕ))
    → All Coded ss
    → All Coded (merge_all ranks fuel ss)
unfolding merge_all
merge_all-Coded ranks zero ss h = h
merge_all-Coded ranks (suc fuel) ss h =
    option_elim (All Coded) (best_pair ranks 0 int_max none ss) (λ e. h)
      (λ i e. merge_all-Coded ranks fuel (merge_at i ss) (merge_at-Coded i ss h))
