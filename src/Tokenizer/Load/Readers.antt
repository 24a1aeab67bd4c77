-- ===== src/Tokenizer/Load/Readers.antt =====
-- What the loader's readers find in the bytes of a document's values.
use reflex_llm.Base.{
  ℕ, zero, suc, ◌+◌, ◌-◌, ◌*◌, ◌^◌, ◌<◌, ◌≡◌, refl, ap, ◌∙◌, subst, inl, inr, Bool, true, false,
  not, ◌&&◌, List, [], ◌∷◌, ◌++◌, length, take, drop, take-length, take-append-drop, length-take,
  length-drop, append-nil, All, lt→ltb, ◌==◌, if◌then◌else◌, arith, Bool-cases, some,
}
use reflex_llm.Persistence.Bytes.{le, un_le}
use reflex_llm.Gguf.Reader.{M, ◌>>◌, return, read_u32}
use reflex_llm.Gguf.Reader.Reads.{
  Reads, return-Reads, seek-Reads, bind-Reads, then-Reads, word-Reads, read_u32-Reads,
  read_u64-Reads, last-Reads, then-branch, else-branch, if-Reads,
}
use reflex_llm.Gguf.TensorTable.{gguf_scalar_size}
use reflex_llm.Gguf.TensorTable.Document.{scalars, encode_text, encode_texts, Short, Fits}
use reflex_llm.Gguf.TensorTable.RoundTrip.{Short-lt, skip_string-Reads, skip_strings-Reads}
use reflex_llm.Tokenizer.Encode.{Tokenizer}
use reflex_llm.Tokenizer.Load.{
  read_text, read_string, read_strings, put_merge, without_ranks, read_merges, read_id, read_flag,
  skip_fours, skip_rough_array, skip_value, read_tokens, read_ranks,
}

abbrev pub put_merges : (m : ℕ) → List (List ℕ) → Tokenizer → Tokenizer
put_merges m [] t = t
put_merges m (s ∷ ss) t = put_merges (suc m) ss (put_merge m s t)

abbrev pub is_set : List ℕ → Bool
is_set [] = false
is_set (b ∷ bs) = not (b == 0)

read_text-Reads : (s : List ℕ) → Reads (read_text (length s)) s s
unfolding read_text
read_text-Reads s file rest at b h e =
    let found : take (length s) (drop at file) ≡ s =
      ap (take (length s)) e ∙ take-length s rest (length s) refl in
    let none_left : length s - length s ≡ 0 = omega arith in
    rw (found, none_left) (ap (λ (x : List ℕ). some (x, at + length s)) (append-nil s))

pub read_string-Reads : (s : List ℕ) → Short s → Reads read_string (encode_text s) s
unfolding read_string encode_text
read_string-Reads s h = read_u64-Reads read_text (length s) s s (Short-lt s h) (read_text-Reads s)

read_strings-Reads :
    (ts : List (List ℕ)) → All Short ts → Reads (read_strings (length ts)) (encode_texts ts) ts
unfolding read_strings encode_texts
read_strings-Reads [] h = return-Reads []
read_strings-Reads (s ∷ ss) h =
    bind-Reads read_string _ (encode_text s) (encode_texts ss) s (s ∷ ss) (read_string-Reads s h.0)
      (last-Reads (read_strings (length ss)) (λ (xs : List (List ℕ)). s ∷ xs) (encode_texts ss) ss
        (read_strings-Reads ss h.1))

read_merges-Reads :
    (m : ℕ) (ts : List (List ℕ)) (t : Tokenizer)
    → All Short ts
    → Reads (read_merges m (length ts) t) (encode_texts ts) (put_merges m ts t)
unfolding read_merges encode_texts
read_merges-Reads m [] t h = return-Reads t
read_merges-Reads m (s ∷ ss) t h =
    bind-Reads read_string _ (encode_text s) (encode_texts ss) s
      (put_merges (suc m) ss (put_merge m s t)) (read_string-Reads s h.0)
      (read_merges-Reads (suc m) ss (put_merge m s t) h.1)

skip_fours-Reads : (n : ℕ) (bytes : List ℕ) → length bytes ≡ n * 4 → Reads (skip_fours n) bytes (tt)
unfolding skip_fours
skip_fours-Reads zero [] l = return-Reads (tt)
skip_fours-Reads zero (b ∷ bs) l = absurd (omega arith)
skip_fours-Reads (suc n) bytes l =
    subst (λ (k : List ℕ). Reads (skip_fours (suc n)) k (tt)) (take-append-drop 4 bytes)
      (then-Reads 4 (skip_fours n) (take 4 bytes) (drop 4 bytes) (tt)
        (omega (arith, length-take 4 bytes))
        (skip_fours-Reads n (drop 4 bytes) (omega (arith, length-drop 4 bytes))))

module _ {ℓ} {A : Type ℓ} (b c : Bool) (m n : M A) (bs : List ℕ) (a d : A) where
  -- A branch on a key and a type, where the type is the one wanted, and where it is another one.
  pub this_type :
      c ≡ true
      → Reads m bs a
      → Reads n bs d
      → Reads (if b && c then m else n) bs (if b then a else d)
  this_type e p q = elim (Bool-cases b) [ inl holds ↦ rw (holds, e) p | inr fails ↦ rw fails q ]

  pub other_type : c ≡ false → Reads n bs d → Reads (if b && c then m else n) bs d
  other_type e q = elim (Bool-cases b) [ inl holds ↦ rw (holds, e) q | inr fails ↦ rw fails q ]

  -- A branch on both, whose reader may use the type.
  pub either_type :
      (c ≡ true → Reads m bs a)
      → Reads n bs d
      → Reads (if b && c then m else n) bs (if b && c then a else d)
  either_type p q = elim (Bool-cases c) [
    | inl same ↦ if-Reads (b && c) m n bs a d (p same) q
    | inr other ↦ elim (Bool-cases b) [ inl holds ↦ rw (holds, other) q | inr fails ↦ rw fails q ]
  ]

pub read_tokens-Reads :
    (ts : List (List ℕ)) (t : Tokenizer)
    → length ts < 2 ^ 64
    → All Short ts
    → Reads
        (read_tokens t)
        (le 4 8 ++ (le 8 (length ts) ++ encode_texts ts))
        (record t { vocab = ts })
unfolding read_tokens
read_tokens-Reads ts t n h =
    let done : Tokenizer = record t { vocab = ts } in
    read_u32-Reads _ 8 (le 8 (length ts) ++ encode_texts ts) done (omega arith) (
      read_u64-Reads _ (length ts) (encode_texts ts) done n (
        last-Reads (read_strings (length ts)) (λ (v : List (List ℕ)). record t { vocab = v })
          (encode_texts ts) ts (read_strings-Reads ts h)))

pub read_ranks-Reads :
    (ts : List (List ℕ)) (t : Tokenizer)
    → length ts < 2 ^ 64
    → All Short ts
    → Reads
        (read_ranks t)
        (le 4 8 ++ (le 8 (length ts) ++ encode_texts ts))
        (put_merges 0 ts (without_ranks t))
unfolding read_ranks
read_ranks-Reads ts t n h =
    let done = put_merges 0 ts (without_ranks t) in
    read_u32-Reads _ 8 (le 8 (length ts) ++ encode_texts ts) done (omega arith) (
      read_u64-Reads _ (length ts) (encode_texts ts) done n
        (read_merges-Reads 0 ts (without_ranks t) h))

-- What is passed over says nothing.
pub passed-Reads :
    (vtype : ℕ) (bs : List ℕ) (t : Tokenizer)
    → Reads (skip_value vtype) bs (tt)
    → Reads (skip_value vtype >> return t) bs t
passed-Reads vtype bs t r = last-Reads (skip_value vtype) (λ _. t) bs (tt) r

pub skip_texts-Reads :
    (ts : List (List ℕ))
    → length ts < 2 ^ 64
    → All Short ts
    → Reads (skip_value 9) (le 4 8 ++ (le 8 (length ts) ++ encode_texts ts)) (tt)
unfolding skip_value gguf_scalar_size skip_rough_array
skip_texts-Reads ts n h =
    read_u32-Reads _ 8 (le 8 (length ts) ++ encode_texts ts) (tt) (omega arith)
      (read_u64-Reads _ (length ts) (encode_texts ts) (tt) n (skip_strings-Reads ts h))

pub skip_scalars-Reads :
    (type n : ℕ) (bytes : List ℕ)
    → Fits (scalars type n bytes)
    → gguf_scalar_size type ≡ 4
    → Reads (skip_value 9) (le 4 type ++ (le 8 n ++ bytes)) (tt)
unfolding skip_value gguf_scalar_size skip_rough_array
skip_scalars-Reads type n bytes f four =
    let other : (type == 8) ≡ false = not_text type four in
    let l : length bytes ≡ n * 4 = f.4 ∙ ap (λ (k : ℕ). n * k) four in
    read_u32-Reads _ type (le 8 n ++ bytes) (tt) f.0 (
      read_u64-Reads _ n bytes (tt) f.2
        (else-branch (type == 8) _ _ bytes (tt) other (skip_fours-Reads n bytes l)))
  where
    not_text : (k : ℕ) → gguf_scalar_size k ≡ 4 → (k == 8) ≡ false
    not_text k e = elim (Bool-cases (k == 8)) [
      | inr different ↦ different
      | inl same ↦ absurd (ground arith)
    ]

pub skip_text-Reads : (s : List ℕ) → Short s → Reads (skip_value 8) (encode_text s) (tt)
unfolding skip_value gguf_scalar_size
skip_text-Reads s h = skip_string-Reads s h

pub skip_scalar-Reads :
    (type : ℕ) (bytes : List ℕ)
    → 0 < gguf_scalar_size type
    → length bytes ≡ gguf_scalar_size type
    → Reads (skip_value type) bytes (tt)
unfolding skip_value
skip_scalar-Reads type bytes p l =
    then-branch _ _ _ bytes (tt) (lt→ltb _ _ p) (seek-Reads bytes (gguf_scalar_size type) l)

pub read_id-Reads :
    (old : ℕ) (bytes : List ℕ) → length bytes ≡ 4 → Reads (read_id old) bytes (un_le bytes)
unfolding read_id
read_id-Reads old [] l = absurd (omega arith)
read_id-Reads old (b ∷ bs) l = λ file rest at s h e.
    ap (λ (k : List ℕ). elim k [ [] ↦ some (old, at) | x ∷ xs ↦ read_u32 file at ]) e
    ∙ word-Reads (b ∷ bs) l file rest at s h e

pub read_flag-Reads : (bytes : List ℕ) → length bytes ≡ 1 → Reads read_flag bytes (is_set bytes)
unfolding read_flag
read_flag-Reads [] l = absurd (omega arith)
read_flag-Reads (b ∷ c ∷ bs) l = absurd (omega arith)
read_flag-Reads (b ∷ []) l = λ file rest at s h e.
    let z : suc at ≡ at + 1 = omega arith in
    ap (λ (k : List ℕ). elim k [ [] ↦ some (false, at) | x ∷ xs ↦ some (not (x == 0), suc at) ]) e
    ∙ ap (λ (k : ℕ). some (not (b == 0), k)) z
