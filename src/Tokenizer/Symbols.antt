-- ===== src/Tokenizer/Symbols.antt =====
-- `utf8_from_codepoint`, `utf8_len` and `split_utf8_symbols`.
use reflex_llm.Base.{
  ℕ, zero, suc, ◌+◌, ◌-◌, ◌*◌, ◌/◌, ◌%◌, ◌≤◌, ◌<◌, ◌≡◌, refl, ap, sym, ◌∙◌, List, [], ◌∷◌, ◌++◌,
  take, drop, length, length-drop, append_assoc, take-append-drop, arith, ltb, leb, ◌==◌,
  if◌then◌else◌, if_elim,
}

-- `cp >> 6` is `cp / 64`, `cp & 0x3F` is `cp % 64`, and the marks of the high bits are added: the
-- bits that they set are clear.
unfoldable pub utf8_from_codepoint : (cp : ℕ) → List ℕ
utf8_from_codepoint cp =
    if leb cp 0x7F
    then cp ∷ []
    else (if leb cp 0x7FF
        then (0xC0 + cp / 64) ∷ (0x80 + cp % 64) ∷ []
        else (if leb cp 0xFFFF
            then (0xE0 + cp / 4096) ∷ (0x80 + cp / 64 % 64) ∷ (0x80 + cp % 64) ∷ []
            else (0xF0 + cp / 262144)
              ∷ (0x80 + cp / 4096 % 64)
              ∷ (0x80 + cp / 64 % 64)
              ∷ (0x80 + cp % 64)
              ∷ []))

-- The masks keep the high bits of a byte, so each test is a division.
unfoldable pub utf8_len : (c : ℕ) → ℕ
utf8_len c =
    if c / 128 == 0
    then 1
    else (if c / 32 == 6 then 2 else (if c / 16 == 14 then 3 else (if c / 8 == 30 then 4 else 1)))

-- The bytes of the symbol that `c ∷ cs` begins with: one where the text is too short.
unfoldable pub symbol_len : (c : ℕ) → List ℕ → ℕ
unfolding utf8_len
symbol_len c cs = if ltb (suc (length cs)) (utf8_len c) then 1 else utf8_len c

unfoldable pub split_utf8_symbols : (fuel : ℕ) → List ℕ → List (List ℕ)
unfolding symbol_len
split_utf8_symbols zero text = []
split_utf8_symbols (suc fuel) [] = []
split_utf8_symbols (suc fuel) (c ∷ cs) =
    take (symbol_len c cs) (c ∷ cs) ∷ split_utf8_symbols fuel (drop (symbol_len c cs) (c ∷ cs))

abbrev pub concat : List (List ℕ) → List ℕ
concat [] = []
concat (s ∷ ss) = s ++ concat ss

pub concat-append : (ss ts : List (List ℕ)) → concat (ss ++ ts) ≡ concat ss ++ concat ts
concat-append [] ts = refl
concat-append (s ∷ ss) ts =
    ap (◌++◌ s) (concat-append ss ts) ∙ sym (append_assoc s (concat ss) (concat ts))

pub symbol_len-positive : (c : ℕ) (cs : List ℕ) → 0 < symbol_len c cs
unfolding symbol_len utf8_len
symbol_len-positive c cs = ground arith

-- The symbols of a text, put together, are the text: one byte of fuel for each byte is enough.
pub concat-split :
    (fuel : ℕ) (text : List ℕ) → length text ≤ fuel → concat (split_utf8_symbols fuel text) ≡ text
unfolding split_utf8_symbols
concat-split zero [] h = refl
concat-split zero (c ∷ cs) h = absurd (omega arith)
concat-split (suc fuel) [] h = refl
concat-split (suc fuel) (c ∷ cs) h =
    ap (◌++◌ (take (symbol_len c cs) (c ∷ cs))) (
      concat-split fuel (drop (symbol_len c cs) (c ∷ cs))
        (omega (arith, length-drop (symbol_len c cs) (c ∷ cs), symbol_len-positive c cs)))
    ∙ take-append-drop (symbol_len c cs) (c ∷ cs)

-- The bytes of a text's first symbol.
abbrev pub head_len : List ℕ → ℕ
head_len [] = 0
head_len (c ∷ cs) = symbol_len c cs

record IsSymbol (s : List ℕ) : Type 0 where
  whole : (rest : List ℕ) → head_len (s ++ rest) ≡ length s

-- An encoded code point at the front of a text is its first symbol.
pub head_len-utf8_from_codepoint :
    (cp : ℕ) (rest : List ℕ)
    → cp < 0x200000
    → head_len (utf8_from_codepoint cp ++ rest) ≡ length (utf8_from_codepoint cp)
unfolding utf8_from_codepoint symbol_len utf8_len
head_len-utf8_from_codepoint cp rest h =
    (if_elim IsSymbol (leb cp 0x7F) (λ a. record { whole = λ r. ground arith })
        λ a.
          if_elim IsSymbol (leb cp 0x7FF) (λ b. record { whole = λ r. ground arith })
            λ b.
              if_elim IsSymbol (leb cp 0xFFFF) (λ c. record { whole = λ r. ground arith })
                λ c. record { whole = λ r. ground arith }).whole
      rest

abbrev point_of : List ℕ → ℕ
point_of [] = 0
point_of (a ∷ []) = a
point_of (a ∷ b ∷ []) = (a - 192) * 64 + (b - 128)
point_of (a ∷ b ∷ c ∷ s) = 0

record HasPoint (cp : ℕ) (s : List ℕ) : Type 0 where
  point : point_of s ≡ cp

point_of-utf8 : (cp : ℕ) → cp < 0x800 → point_of (utf8_from_codepoint cp) ≡ cp
unfolding utf8_from_codepoint
point_of-utf8 cp h =
    (if_elim (HasPoint cp) (leb cp 0x7F) (λ a. record { point = refl })
      λ a.
        if_elim (HasPoint cp) (leb cp 0x7FF) (λ b. record { point = omega arith })
          λ b. absurd (ground arith)).point

pub utf8_from_codepoint_injective :
    (a b : ℕ) → a < 0x800 → b < 0x800 → utf8_from_codepoint a ≡ utf8_from_codepoint b → a ≡ b
utf8_from_codepoint_injective a b h k e =
    sym (point_of-utf8 a h) ∙ (ap point_of e ∙ point_of-utf8 b k)
