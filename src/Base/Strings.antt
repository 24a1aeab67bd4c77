-- ===== src/Base/Strings.antt =====
-- Strings as lists of bytes: equality and prefixes.
use Prim.Native.Nat.{ℕ, ◌≤◌}
use Prim.Native.Char.{code}
use Prim.Native.String.{String}
use mathlib.Core.Path.{◌≡◌, refl, ap, ◌∙◌}
use mathlib.Core.Bool.{Bool, true, false}
use mathlib.Core.Logic.{inl, inr}
use mathlib.Core.List.{List, [], ◌∷◌}
use native.Mathlib.Omega.{arith}
use reflex_llm.Base.Tests.{◌==◌, if◌then◌else◌, Bool-cases}
use reflex_llm.Base.Lists.{length}

-- `memcmp(...) == 0`, or `==` on strings
unfoldable pub same_bytes : List ℕ → List ℕ → Bool
same_bytes [] [] = true
same_bytes [] (b ∷ ys) = false
same_bytes (a ∷ xs) [] = false
same_bytes (a ∷ xs) (b ∷ ys) = let rest = same_bytes xs ys in if a == b then rest else false

pub same_bytes_refl : (bs : List ℕ) → same_bytes bs bs ≡ true
unfolding same_bytes
same_bytes_refl [] = refl
same_bytes_refl (b ∷ bs) = ground (arith, same_bytes_refl bs)

pub eq_of_same_bytes : (xs ys : List ℕ) → same_bytes xs ys ≡ true → xs ≡ ys
unfolding same_bytes
eq_of_same_bytes [] [] e = refl
eq_of_same_bytes [] (b ∷ ys) e = absurd (cc)
eq_of_same_bytes (a ∷ xs) [] e = absurd (cc)
eq_of_same_bytes (a ∷ xs) (b ∷ ys) e = elim (Bool-cases (a == b)) [
  | inl same ↦
      let head : a ≡ b = ground arith in
      ap (λ (x : ℕ). x ∷ xs) head ∙ ap (◌∷◌ b) (eq_of_same_bytes xs ys (rw (same, same_bytes) at e))
  | inr other ↦ absurd (cc (rw (other, same_bytes) at e))
]

-- `text.compare(0, s.size(), s) == 0`
unfoldable pub starts_with : (s text : List ℕ) → Bool
starts_with [] text = true
starts_with (a ∷ s) [] = false
starts_with (a ∷ s) (b ∷ text) = let rest = starts_with s text in if a == b then rest else false

pub starts_with-length : (s text : List ℕ) → starts_with s text ≡ true → length s ≤ length text
unfolding starts_with
starts_with-length [] text e = omega arith
starts_with-length (a ∷ s) [] e = absurd (cc)
starts_with-length (a ∷ s) (b ∷ text) e = ground (arith, starts_with-length s text)

-- The bytes of an ASCII text.
abbrev pub codes : String → List ℕ
codes String.[] = []
codes (String.◌∷◌ c s) = code c ∷ codes s

-- The part of a buffer up to its first NUL.
unfoldable pub c_str : List ℕ → List ℕ
c_str [] = []
c_str (c ∷ cs) = let rest = c_str cs in if c == 0 then [] else c ∷ rest

-- `strstr(text, s) != nullptr`, or `text.find(s) != npos`
unfoldable pub contains : (s text : List ℕ) → Bool
unfolding starts_with
contains s [] = starts_with s []
contains s (c ∷ text) =
    let rest = contains s text in if starts_with s (c ∷ text) then true else rest

pub contains-skip :
    (a c : ℕ) (s text : List ℕ)
    → (a == c) ≡ false
    → contains (a ∷ s) (c ∷ text) ≡ contains (a ∷ s) text
unfolding contains starts_with
contains-skip a c s text e = rw e refl
