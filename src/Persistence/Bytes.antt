-- ===== src/Persistence/Bytes.antt =====
-- Little-endian words, as the code writes them by copying memory (kv_cache_file.h is packed, and the
-- program runs on aarch64 only).
use reflex_llm.Base.{
  ℕ, zero, suc, ◌+◌, ◌*◌, ◌/◌, ◌%◌, ◌^◌, ◌<◌, ◌≡◌, refl, List, [], ◌∷◌, ◌++◌, take, drop, length,
  arith, All,
}

-- The `n` bytes of a word, lowest first.
unfoldable pub le : ℕ → ℕ → List ℕ
le zero v = []
le (suc n) v = v % 256 ∷ le n (v / 256)

unfoldable pub un_le : List ℕ → ℕ
un_le [] = 0
un_le (b ∷ bs) = b + 256 * un_le bs

pub un_le-le_32 : (v : ℕ) → v < 2 ^ 32 → un_le (le 4 v) ≡ v
unfolding le un_le
un_le-le_32 v h = omega arith

pub un_le-le_64 : (v : ℕ) → v < 2 ^ 64 → un_le (le 8 v) ≡ v
unfolding le un_le
un_le-le_64 v h = omega arith

-- An array of `uint32_t`.
unfoldable pub encode_tokens : List ℕ → List ℕ
encode_tokens [] = []
encode_tokens (t ∷ ts) = le 4 t ++ encode_tokens ts

unfoldable pub decode_tokens : ℕ → List ℕ → List ℕ
decode_tokens zero bs = []
decode_tokens (suc n) bs = un_le (take 4 bs) ∷ decode_tokens n (drop 4 bs)

pub length-encode_tokens : (ts : List ℕ) → length (encode_tokens ts) ≡ 4 * length ts
unfolding encode_tokens le
length-encode_tokens [] = omega arith
length-encode_tokens (t ∷ ts) = omega (arith, length-encode_tokens ts)

-- Reading back an array of 32-bit tokens gives the tokens.
pub decode-encode_tokens :
    (ts : List ℕ) → All (λ t. t < 2 ^ 32) ts → decode_tokens (length ts) (encode_tokens ts) ≡ ts
unfolding decode_tokens encode_tokens le
decode-encode_tokens [] h = refl
decode-encode_tokens (t ∷ ts) h = λ i. un_le-le_32 t h.0 i ∷ decode-encode_tokens ts h.1 i
