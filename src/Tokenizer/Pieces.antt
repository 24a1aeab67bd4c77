-- ===== src/Tokenizer/Pieces.antt =====
-- `pretokenize_ascii`. The classes of characters are those of the C locale.
use reflex_llm.Base.{
  ℕ, zero, suc, ◌+◌, ◌≤◌, ◌<◌, ◌≡◌, refl, ap, ◌∙◌, Bool, true, not, ◌&&◌, ◌||◌, List, [], ◌∷◌, ◌++◌,
  length, take, drop, length-drop, take-append-drop, starts_with, arith, ltb, leb, ◌==◌,
  if◌then◌else◌,
}
use reflex_llm.Tokenizer.Symbols.{concat}

unfoldable pub is_space : ℕ → Bool
is_space c = (leb 9 c && leb c 13) || (c == 32)

unfoldable pub is_alpha : ℕ → Bool
is_alpha c = (leb 65 c && leb c 90) || (leb 97 c && leb c 122)

unfoldable pub is_digit : ℕ → Bool
is_digit c = leb 48 c && leb c 57

-- s, t, re, ve, m, ll, d
abbrev pub contractions : List (List ℕ)
contractions =
    (115 ∷ [])
    ∷ (116 ∷ [])
    ∷ (114 ∷ 101 ∷ [])
    ∷ (118 ∷ 101 ∷ [])
    ∷ (109 ∷ [])
    ∷ (108 ∷ 108 ∷ [])
    ∷ (100 ∷ [])
    ∷ []

-- The bytes of the first contraction that the text begins with, 0 for none.
unfoldable pub contraction_len : List (List ℕ) → (text : List ℕ) → ℕ
contraction_len [] text = 0
contraction_len (s ∷ ss) text =
    let rest = contraction_len ss text in if starts_with s text then length s else rest

-- `while (i < text.size() && p(text[i])) i++;`
unfoldable pub run_len : (ℕ → Bool) → List ℕ → ℕ
run_len p [] = 0
run_len p (c ∷ cs) = let rest = run_len p cs in if p c then suc rest else 0

unfoldable pub is_other : ℕ → Bool
unfolding is_space is_alpha is_digit
is_other c = not (is_space c) && (not (is_alpha c) && not (is_digit c))

-- The run that a text begins with, by the class of its first byte.
unfoldable pub class_len : List ℕ → ℕ
unfolding run_len is_other
class_len [] = 0
class_len (c ∷ cs) =
    if is_alpha c
    then run_len is_alpha (c ∷ cs)
    else (if is_digit c
        then run_len is_digit (c ∷ cs)
        else (if not (is_space c) then run_len is_other (c ∷ cs) else run_len is_space (c ∷ cs)))

-- 1 for a space that goes with what follows it.
unfoldable pub lead_len : (c : ℕ) → List ℕ → ℕ
unfolding is_space
lead_len c [] = 0
lead_len c (d ∷ ds) = if (c == 32) && not (is_space d) then 1 else 0

-- The bytes of the first piece of `c ∷ cs`. 39 is the apostrophe.
unfoldable pub piece_len : (c : ℕ) → List ℕ → ℕ
unfolding contraction_len lead_len class_len
piece_len c cs =
    let contraction = contraction_len contractions cs in
    let lead = lead_len c cs in
    if (c == 39) && ltb 0 contraction
    then suc contraction
    else lead + class_len (drop lead (c ∷ cs))

unfoldable pub pretokenize_ascii : (fuel : ℕ) → List ℕ → List (List ℕ)
unfolding piece_len
pretokenize_ascii zero text = []
pretokenize_ascii (suc fuel) [] = []
pretokenize_ascii (suc fuel) (c ∷ cs) =
    take (piece_len c cs) (c ∷ cs) ∷ pretokenize_ascii fuel (drop (piece_len c cs) (c ∷ cs))

run_len-positive : (p : ℕ → Bool) (c : ℕ) (cs : List ℕ) → p c ≡ true → 0 < run_len p (c ∷ cs)
unfolding run_len
run_len-positive p c cs e = ground arith

class_len-positive : (c : ℕ) (cs : List ℕ) → 0 < class_len (c ∷ cs)
unfolding class_len is_other
class_len-positive c cs = ground (
  arith,
  run_len-positive is_alpha c cs,
  run_len-positive is_digit c cs,
  run_len-positive is_space c cs,
  run_len-positive is_other c cs,
)

-- Every piece has a byte, so that the loop advances.
pub piece_len-positive : (c : ℕ) (cs : List ℕ) → 0 < piece_len c cs
unfolding piece_len lead_len
piece_len-positive c [] = ground (arith, class_len-positive c [])
piece_len-positive c (d ∷ ds) = ground (arith, class_len-positive c (d ∷ ds))

-- The pieces of a text, put together, are the text: each round of the loop takes at least a byte, so
-- a round for each byte is enough.
pub concat-pretokenize_ascii :
    (fuel : ℕ) (text : List ℕ) → length text ≤ fuel → concat (pretokenize_ascii fuel text) ≡ text
unfolding pretokenize_ascii
concat-pretokenize_ascii zero [] h = refl
concat-pretokenize_ascii zero (c ∷ cs) h = absurd (omega arith)
concat-pretokenize_ascii (suc fuel) [] h = refl
concat-pretokenize_ascii (suc fuel) (c ∷ cs) h =
    ap (◌++◌ (take (piece_len c cs) (c ∷ cs))) (
      concat-pretokenize_ascii fuel (drop (piece_len c cs) (c ∷ cs))
        (omega (arith, length-drop (piece_len c cs) (c ∷ cs), piece_len-positive c cs)))
    ∙ take-append-drop (piece_len c cs) (c ∷ cs)
