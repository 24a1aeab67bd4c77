-- ===== src/Tokenizer/Bytes.antt =====
-- `byte_encoder`, `byte_decoder`, `encode_bytes_gpt2`, and the decoding of a token.
use reflex_llm.Base.{
  same_bytes, same_bytes_refl, eq_of_same_bytes, ℕ, zero, suc, ◌+◌, ◌≤◌, ◌<◌, ◌≡◌, ◌≢◌, refl, ap,
  sym, ◌∙◌, Bool, true, false, not, ◌&&◌, ◌||◌, Option, none, some, List, [], ◌∷◌, ◌++◌, take, drop,
  length, length-append, append-nil, append_assoc, take-length, drop-length, arith, All, leb,
  if◌then◌else◌, then_true, else_false, ℕ_discrete, dec_lt, Bool-cases, inl, inr,
}
use reflex_llm.Tokenizer.Symbols.{
  utf8_from_codepoint, symbol_len, head_len, head_len-utf8_from_codepoint,
  utf8_from_codepoint_injective,
}

-- The bytes that `bs` starts with.
unfoldable pub is_kept : (b : ℕ) → Bool
is_kept b = (leb 33 b && leb b 126) || ((leb 0xA1 b && leb b 0xAC) || (leb 0xAE b && leb b 0xFF))

-- The counter `n` before byte `b`: how many bytes below it are not kept.
unfoldable pub moved_before : (b : ℕ) → ℕ
moved_before zero = 0
moved_before (suc b) = let n = moved_before b in if is_kept b then n else suc n

unfoldable pub byte_point : (b : ℕ) → ℕ
unfolding is_kept moved_before
byte_point b = if is_kept b then b else 256 + moved_before b

unfoldable pub byte_encoder : (b : ℕ) → List ℕ
unfolding byte_point
byte_encoder b = utf8_from_codepoint (byte_point b)

-- The map filled from 0 up to 255, so that a later byte with the same symbol would win.
unfoldable pub decoder_below : (n : ℕ) → List ℕ → Option ℕ
decoder_below zero s = none
decoder_below (suc n) s =
    let rest = decoder_below n s in if same_bytes (byte_encoder n) s then some n else rest

unfoldable pub byte_decoder : List ℕ → Option ℕ
unfolding decoder_below
byte_decoder s = decoder_below 256 s

unfoldable pub encode_bytes_gpt2 : List ℕ → List ℕ
encode_bytes_gpt2 [] = []
encode_bytes_gpt2 (b ∷ bs) = byte_encoder b ++ encode_bytes_gpt2 bs

-- The loop of `Tokenizer::decode`; `none` where it returns the token itself.
unfoldable pub decode_loop : (fuel : ℕ) (decoded_any : Bool) → (out tok : List ℕ) → Option (List ℕ)
decode_loop zero any out tok = some out
decode_loop (suc fuel) any out [] = some out
decode_loop (suc fuel) any out (c ∷ cs) =
    let n = symbol_len c cs in
    let cp = take n (c ∷ cs) in
    let skipped = decode_loop fuel any (out ++ cp) (drop n (c ∷ cs)) in
    elim (byte_decoder cp) [
      | none ↦ if not any then none else skipped
      | some b ↦ decode_loop fuel true (out ++ (b ∷ [])) (drop n (c ∷ cs))
    ]

-- A token's bytes where `byte_encode_` is set.
unfoldable pub decode_bytes : (tok : List ℕ) → List ℕ
unfolding decode_loop
decode_bytes tok = elim (decode_loop (length tok) false [] tok) [ none ↦ tok | some out ↦ out ]

moved_mono : (b a : ℕ) → a ≤ b → moved_before a ≤ moved_before b
unfolding moved_before
moved_mono zero a h = let e : a ≡ 0 = omega arith in rw e (omega arith)
moved_mono (suc b) a h = elim (ℕ_discrete a (suc b)) [
  | yes e ↦ rw e (omega arith)
  | no n ↦ ground (arith, moved_mono b a (apart n))
]
  where
    apart : (a ≢ suc b) → a ≤ b
    apart n = ground arith

-- Before `b` there are at most `b` bytes.
moved_bound : (b : ℕ) → moved_before b ≤ b
unfolding moved_before
moved_bound zero = omega arith
moved_bound (suc b) = ground (arith, moved_bound b)

byte_point_bound : (b : ℕ) → b < 256 → byte_point b < 512
unfolding byte_point
byte_point_bound b h = ground (arith, moved_bound b)

moved_suc : (b : ℕ) → is_kept b ≡ false → moved_before (suc b) ≡ suc (moved_before b)
unfolding moved_before
moved_suc b e = else_false (is_kept b) _ _ e

both_moved :
    (a b : ℕ) → is_kept a ≡ false → is_kept b ≡ false → moved_before a ≡ moved_before b → a ≡ b
both_moved a b e f h = elim (ℕ_discrete a b) [
  | yes same ↦ same
  | no other ↦ elim (dec_lt a b) [
    | yes lt ↦ absurd (omega (arith, moved_mono b (suc a) lt, moved_suc a e, h))
    | no ge ↦ absurd (omega (arith, moved_mono a (suc b) (apart other ge), moved_suc b f, h))
  ]
]
  where
    apart : a ≢ b → ¬ (a < b) → suc b ≤ a
    apart n g = ground arith

byte_point_injective : (a b : ℕ) → a < 256 → b < 256 → byte_point a ≡ byte_point b → a ≡ b
unfolding byte_point
byte_point_injective a b h k e = elim (Bool-cases (is_kept a)) [
  | inl ka ↦ elim (Bool-cases (is_kept b)) [
    | inl kb ↦
        rw
          (
            then_true (is_kept a) a (256 + moved_before a) ka,
            then_true (is_kept b) b (256 + moved_before b) kb,
          )
          at e
    | inr mb ↦ absurd (
        omega (
          arith,
          h,
          e,
          then_true (is_kept a) a (256 + moved_before a) ka,
          else_false (is_kept b) b (256 + moved_before b) mb,
        ))
  ]
  | inr ma ↦ elim (Bool-cases (is_kept b)) [
    | inl kb ↦ absurd (
        omega (
          arith,
          k,
          e,
          else_false (is_kept a) a (256 + moved_before a) ma,
          then_true (is_kept b) b (256 + moved_before b) kb,
        ))
    | inr mb ↦ both_moved a b ma mb (
        omega (
          arith,
          e,
          else_false (is_kept a) a (256 + moved_before a) ma,
          else_false (is_kept b) b (256 + moved_before b) mb,
        ))
  ]
]

byte_encoder_injective : (a b : ℕ) → a < 256 → b < 256 → byte_encoder a ≡ byte_encoder b → a ≡ b
unfolding byte_encoder
byte_encoder_injective a b h k e = byte_point_injective a b h k (
    utf8_from_codepoint_injective (byte_point a) (byte_point b)
      (omega (arith, byte_point_bound a h)) (omega (arith, byte_point_bound b k)) e)

decoder_below-byte_encoder : (n b : ℕ) → n ≤ 256 → b < n → decoder_below n (byte_encoder b) ≡ some b
unfolding decoder_below
decoder_below-byte_encoder zero b h k = absurd (omega arith)
decoder_below-byte_encoder (suc n) b h k =
    elim (Bool-cases (same_bytes (byte_encoder n) (byte_encoder b))) [
      | inl same ↦
          then_true _ _ _ same
          ∙ ap some
              (byte_encoder_injective n b (omega arith) (omega arith) (eq_of_same_bytes _ _ same))
      | inr other ↦
          else_false _ _ _ other ∙ decoder_below-byte_encoder n b (omega arith) (less other)
    ]
  where
    less : same_bytes (byte_encoder n) (byte_encoder b) ≡ false → b < n
    less f = elim (ℕ_discrete b n) [
      | yes e ↦ absurd (cc (f, same_bytes_refl (byte_encoder n), e))
      | no g ↦ ground arith
    ]

-- The decoder gives back every byte.
pub byte_decoder-byte_encoder : (b : ℕ) → b < 256 → byte_decoder (byte_encoder b) ≡ some b
unfolding byte_decoder
byte_decoder-byte_encoder b h = decoder_below-byte_encoder 256 b (omega arith) h

-- One round of the decoding loop, on a symbol of a byte.
decode_loop-symbol :
    (fuel : ℕ) (any : Bool) (out tok s rest : List ℕ) (b : ℕ)
    → tok ≡ s ++ rest
    → head_len tok ≡ length s
    → byte_decoder s ≡ some b
    → 0 < length s
    → decode_loop (suc fuel) any out tok ≡ decode_loop fuel true (out ++ (b ∷ [])) rest
unfolding decode_loop
decode_loop-symbol fuel any out [] s rest b e n d h = absurd (omega (arith, h, n))
decode_loop-symbol fuel any out (c ∷ cs) s rest b e n d h =
    ap (λ (cp : List ℕ). after cp (drop (symbol_len c cs) (c ∷ cs)))
      (ap (λ (k : ℕ). take k (c ∷ cs)) n
        ∙ (ap (take (length s)) e ∙ take-length s rest (length s) refl))
    ∙ (ap (after s) (
          ap (λ (k : ℕ). drop k (c ∷ cs)) n
          ∙ (ap (drop (length s)) e ∙ drop-length s rest (length s) refl))
        ∙ ap decided d)
  where
    choose : List ℕ → List ℕ → Option ℕ → Option (List ℕ)
    choose cp r o = elim o [
      | none ↦ if not any then none else decode_loop fuel any (out ++ cp) r
      | some x ↦ decode_loop fuel true (out ++ (x ∷ [])) r
    ]

    after : List ℕ → List ℕ → Option (List ℕ)
    after cp r = choose cp r (byte_decoder cp)

    decided : Option ℕ → Option (List ℕ)
    decided o = choose s rest o

pub length-byte_encoder : (b : ℕ) → 0 < length (byte_encoder b)
unfolding byte_encoder utf8_from_codepoint
length-byte_encoder b = ground arith

pub head_len-byte_encoder :
    (b : ℕ) (rest : List ℕ) → b < 256 → head_len (byte_encoder b ++ rest) ≡ length (byte_encoder b)
unfolding byte_encoder
head_len-byte_encoder b rest h =
    head_len-utf8_from_codepoint (byte_point b) rest (omega (arith, byte_point_bound b h))

decode_loop-nil :
    (fuel : ℕ) (any : Bool) (out : List ℕ) → decode_loop fuel any out [] ≡ some (out ++ [])
unfolding decode_loop
decode_loop-nil zero any out = ap some (sym (append-nil out))
decode_loop-nil (suc fuel) any out = ap some (sym (append-nil out))

decode_loop-encode :
    (bs : List ℕ) (fuel : ℕ) (any : Bool) (out : List ℕ)
    → All (λ b. b < 256) bs
    → length (encode_bytes_gpt2 bs) ≤ fuel
    → decode_loop fuel any out (encode_bytes_gpt2 bs) ≡ some (out ++ bs)
unfolding encode_bytes_gpt2
decode_loop-encode [] fuel any out h k = decode_loop-nil fuel any out
decode_loop-encode (b ∷ bs) zero any out h k =
    absurd
      (omega (arith, length-append (byte_encoder b) (encode_bytes_gpt2 bs), length-byte_encoder b))
decode_loop-encode (b ∷ bs) (suc fuel) any out h k =
    decode_loop-symbol fuel any out (byte_encoder b ++ encode_bytes_gpt2 bs) (byte_encoder b)
      (encode_bytes_gpt2 bs) b refl (head_len-byte_encoder b (encode_bytes_gpt2 bs) h.0)
      (byte_decoder-byte_encoder b h.0) (length-byte_encoder b)
    ∙ (decode_loop-encode bs fuel true (out ++ (b ∷ [])) h.1 (
          omega
            (arith, length-append (byte_encoder b) (encode_bytes_gpt2 bs), length-byte_encoder b))
        ∙ ap some (append_assoc out (b ∷ []) bs))

-- Decoding the symbols of a string of bytes gives the bytes back.
pub decode_bytes-encode_bytes_gpt2 :
    (bs : List ℕ) → All (λ b. b < 256) bs → decode_bytes (encode_bytes_gpt2 bs) ≡ bs
unfolding decode_bytes
decode_bytes-encode_bytes_gpt2 bs h =
    rw
      (decode_loop-encode bs (length (encode_bytes_gpt2 bs)) false [] h (omega arith), decode_bytes)
      refl
