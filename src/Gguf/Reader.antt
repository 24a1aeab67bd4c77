-- ===== src/Gguf/Reader.antt =====
-- Reading a file with `fread` and `fseek`, as `parse_tensor_infos` (src/engine/model.cpp) does.
--
-- A read that does not find all its bytes leaves the variable that it should fill undefined; `none`
-- says that such a variable, or memory outside an array, is used.
pub mod Reads
use reflex_llm.Base.{
  ℕ, ◌+◌, ◌-◌, ◌^◌, List, length, take, drop, Option, none, some, leb, ltb, if◌then◌else◌,
}
use reflex_llm.Persistence.Bytes.{un_le}

abbrev pub M {ℓ} : Type ℓ → Type ℓ
M A = (file : List ℕ) (pos : ℕ) → Option (A × ℕ)

infixl 5 ◌>>=◌ ◌>>◌
abbrev pub ◌>>=◌ {ℓ κ} : {A : Type ℓ} {B : Type κ} → M A → (A → M B) → M B
◌>>=◌ m f file pos = elim (m file pos) [ none ↦ none | some (a, pos') ↦ f a file pos' ]

abbrev pub ◌>>◌ {ℓ} : {B : Type ℓ} → M (Unit {0}) → M B → M B
m >> k = m >>= λ _. k

abbrev pub return {ℓ} : {A : Type ℓ} → A → M A
return a file pos = some (a, pos)

-- The behaviour is not defined.
abbrev pub undefined {ℓ} : {A : Type ℓ} → M A
undefined file pos = none

-- `fread` of n bytes.
unfoldable pub read : ℕ → M (List ℕ)
read n file pos =
    if leb n (length (drop pos file)) then some (take n (drop pos file), pos + n) else none

unfoldable pub read_u32 : M ℕ
unfolding read
read_u32 = do bs ← read 4; return (un_le bs)

unfoldable pub read_u64 : M ℕ
unfolding read
read_u64 = do bs ← read 8; return (un_le bs)

-- The position after `fseek(f, n, SEEK_CUR)` with a 64-bit word, which is read as a signed offset. A
-- seek to a position that is negative or too large fails and moves nothing.
unfoldable pub seeked : ℕ → ℕ → ℕ
seeked n pos =
    if ltb n (2 ^ 63)
    then (if ltb (pos + n) (2 ^ 63) then pos + n else pos)
    else (if leb (2 ^ 64 - n) pos then pos - (2 ^ 64 - n) else pos)

unfoldable pub seek : ℕ → M (Unit {0})
unfolding seeked
seek n file pos = some (tt, seeked n pos)
