-- ===== src/Gguf/Weights/Names.antt =====
-- The names that llama.cpp's converters give the tensors of a layer, and the place that the loader
-- finds for them.
use reflex_llm.Base.{
  ℕ, zero, suc, ◌+◌, ◌*◌, ◌-◌, ◌/◌, ◌%◌, ◌≤◌, ◌<◌, ◌≡◌, refl, ap, sym, ◌∙◌, inl, inr, true, false,
  List, [], ◌∷◌, ◌++◌, append_assoc, All, All-append, some, codes, c_str, contains, contains-skip,
  ltb, leb, ◌==◌, if◌then◌else◌, Bool-cases, arith, lt→ltb,
}
use reflex_llm.Gguf.Weights.{
  Slot, wq, wk, wv, wo, w_gate, w_up, w_down, q_norm, k_norm, rms_attn, rms_ffn, slot_of, signed,
  unsigned, read_decimal, starts_with_digit, skip_blanks, blk_layer, place_of, in_layer,
}

-- A number in decimal, with a digit for each unit of fuel at most.
unfoldable pub decimal_in : (fuel n : ℕ) → List ℕ
decimal_in zero n = []
decimal_in (suc f) n =
    let front = decimal_in f (n / 10) in
    if ltb n 10 then (48 + n) ∷ [] else front ++ ((48 + n % 10) ∷ [])

unfoldable pub decimal : ℕ → List ℕ
unfolding decimal_in
decimal n = decimal_in (suc n) n

abbrev pub suffix : Slot → List ℕ
suffix wq = codes ".attn_q.weight"
suffix wk = codes ".attn_k.weight"
suffix wv = codes ".attn_v.weight"
suffix wo = codes ".attn_output.weight"
suffix w_gate = codes ".ffn_gate.weight"
suffix w_up = codes ".ffn_up.weight"
suffix w_down = codes ".ffn_down.weight"
suffix q_norm = codes ".attn_q_norm.weight"
suffix k_norm = codes ".attn_k_norm.weight"
suffix rms_attn = codes ".attn_norm.weight"
suffix rms_ffn = codes ".ffn_norm.weight"

unfoldable pub tensor_name : ℕ → Slot → List ℕ
unfolding decimal
tensor_name n s = codes "blk." ++ (decimal n ++ suffix s)

abbrev IsDigit : ℕ → Type 0
IsDigit c = (48 ≤ c) × (c ≤ 57)

decimal_in-IsDigit : (f n : ℕ) → All IsDigit (decimal_in f n)
unfolding decimal_in
decimal_in-IsDigit zero n = tt
decimal_in-IsDigit (suc f) n = elim (Bool-cases (ltb n 10)) [
  | inl small ↦ let h : n < 10 = ground arith in rw small ((omega arith, omega arith), tt)
  | inr large ↦ rw large (
      All-append IsDigit (decimal_in f (n / 10)) ((48 + n % 10) ∷ [])
        (decimal_in-IsDigit f (n / 10)) ((omega arith, omega arith), tt))
]

back : (n : ℕ) → n / 10 * 10 + n % 10 ≡ n
back n = omega arith

read_digit :
    (acc d : ℕ) (tail : List ℕ)
    → d < 10
    → read_decimal acc ((48 + d) ∷ tail) ≡ read_decimal (acc * 10 + d) tail
unfolding read_decimal
read_digit acc d tail h =
    let e : acc * 10 + (48 + d - 48) ≡ acc * 10 + d = omega arith in
    let low : leb 48 (48 + d) ≡ true = ground arith in
    let high : leb (48 + d) 57 ≡ true = ground arith in
    rw (low, high) (ap (λ (k : ℕ). read_decimal k tail) e)

-- Reading the decimal of a number leads to the number.
read-decimal_in :
    (f n : ℕ) (tail : List ℕ)
    → n < f
    → read_decimal 0 (decimal_in f n ++ tail) ≡ read_decimal n tail
unfolding decimal_in
read-decimal_in zero n tail h = absurd (omega arith)
read-decimal_in (suc f) n tail h = elim (Bool-cases (ltb n 10)) [
  | inl small ↦
      let e : 0 * 10 + n ≡ n = omega arith in
      rw small (read_digit 0 n tail (ground arith) ∙ ap (λ (k : ℕ). read_decimal k tail) e)
  | inr large ↦ rw large (
      ap (read_decimal 0) (append_assoc (decimal_in f (n / 10)) ((48 + n % 10) ∷ []) tail)
      ∙ read-decimal_in f (n / 10) ((48 + n % 10) ∷ tail) (ground arith)
      ∙ read_digit (n / 10) (n % 10) tail (omega arith)
      ∙ ap (λ (k : ℕ). read_decimal k tail) (back n))
]

decimal_in-head :
    (f n : ℕ) → n < f → (c : ℕ) × (cs : List ℕ) × (decimal_in f n ≡ c ∷ cs) × IsDigit c
unfolding decimal_in
decimal_in-head zero n h = absurd (omega arith)
decimal_in-head (suc f) n h = elim (Bool-cases (ltb n 10)) [
  | inl small ↦
      let l : n < 10 = ground arith in (48 + n, [], rw small refl, (omega arith, omega arith))
  | inr large ↦
      let (c, cs, e, d) = decimal_in-head f (n / 10) (ground arith) in
      (c, cs ++ ((48 + n % 10) ∷ []), rw (large, e) refl, d)
]

-- `%d` reads a number that is written in decimal.
signed_digits :
    (c : ℕ) (cs : List ℕ)
    → IsDigit c
    → signed (skip_blanks (c ∷ cs)) ≡ some (read_decimal 0 (c ∷ cs))
unfolding signed skip_blanks unsigned starts_with_digit
signed_digits c cs h = ground arith

signed-decimal :
    (n : ℕ) (tail : List ℕ)
    → read_decimal n tail ≡ n
    → signed (skip_blanks (decimal n ++ tail)) ≡ some n
unfolding decimal
signed-decimal n tail stop =
    let (c, cs, e, d) = decimal_in-head (suc n) n (omega arith) in
    let text : decimal_in (suc n) n ++ tail ≡ c ∷ (cs ++ tail) = ap (λ xs. xs ++ tail) e in
    ap (λ xs. signed (skip_blanks xs)) text
    ∙ signed_digits c (cs ++ tail) d
    ∙ ap (λ xs. some (read_decimal 0 xs)) (sym text)
    ∙ ap some (read-decimal_in (suc n) n tail (omega arith) ∙ stop)

suffix-stops : (n : ℕ) (s : Slot) → read_decimal n (suffix s) ≡ n
unfolding read_decimal
suffix-stops n wq = refl
suffix-stops n s = refl

blk_layer-tensor_name : (n : ℕ) (s : Slot) → blk_layer (tensor_name n s) ≡ some n
unfolding blk_layer tensor_name
blk_layer-tensor_name n s = signed-decimal n (suffix s) (suffix-stops n s)

-- A pattern that begins with a letter passes over the number in front of it.
contains-digits :
    (a : ℕ) (p ds tail : List ℕ)
    → 57 < a
    → All IsDigit ds
    → contains (a ∷ p) (ds ++ tail) ≡ contains (a ∷ p) tail
contains-digits a p [] tail l h = refl
contains-digits a p (d ∷ ds) tail l h =
    contains-skip a d p (ds ++ tail) (ground (arith, h)) ∙ contains-digits a p ds tail l h.1

contains-tensor_name :
    (a : ℕ) (p : List ℕ) (n : ℕ) (s : Slot)
    → 57 < a
    → (a == 98) ≡ false
    → (a == 107) ≡ false
    → (a == 108) ≡ false
    → contains (a ∷ p) (tensor_name n s) ≡ contains (a ∷ p) (suffix s)
unfolding tensor_name decimal
contains-tensor_name a p n s l b k j =
    contains-skip a 98 p _ b
    ∙ contains-skip a 108 p _ j
    ∙ contains-skip a 107 p _ k
    ∙ contains-skip a 46 p _ (ground arith)
    ∙ contains-digits a p (decimal_in (suc n) n) (suffix s) l (decimal_in-IsDigit (suc n) n)

contains_a :
    (p : List ℕ) (n : ℕ) (s : Slot)
    → contains (97 ∷ p) (tensor_name n s) ≡ contains (97 ∷ p) (suffix s)
contains_a p n s = contains-tensor_name 97 p n s (omega arith) refl refl refl

contains_f :
    (p : List ℕ) (n : ℕ) (s : Slot)
    → contains (102 ∷ p) (tensor_name n s) ≡ contains (102 ∷ p) (suffix s)
contains_f p n s = contains-tensor_name 102 p n s (omega arith) refl refl refl

slot_of-suffix : (s : Slot) → slot_of (suffix s) ≡ some s
unfolding slot_of
slot_of-suffix wq = refl
slot_of-suffix s = refl

slot_of-tensor_name : (n : ℕ) (s : Slot) → slot_of (tensor_name n s) ≡ some s
unfolding slot_of
slot_of-tensor_name n s = simp (contains_a, contains_f) (slot_of-suffix s)

-- The name of a tensor of a layer that the model has leads to the layer and the slot.
pub place_of-tensor_name :
    (n_layers n : ℕ) (s : Slot) → n < n_layers → place_of n_layers (tensor_name n s) ≡ in_layer n s
unfolding place_of
place_of-tensor_name n_layers n s h =
    rw (blk_layer-tensor_name n s, place_of, lt→ltb n n_layers h, slot_of-tensor_name n s) refl

c_str_digits : (ds tail : List ℕ) → All IsDigit ds → c_str (ds ++ tail) ≡ ds ++ c_str tail
unfolding c_str
c_str_digits [] tail h = refl
c_str_digits (d ∷ ds) tail h =
    let ne : (d == 0) ≡ false = ground (arith, h) in rw ne (ap (◌∷◌ d) (c_str_digits ds tail h.1))

c_str-suffix : (s : Slot) → c_str (suffix s) ≡ suffix s
unfolding c_str
c_str-suffix wq = refl
c_str-suffix s = refl

pub c_str-tensor_name : (n : ℕ) (s : Slot) → c_str (tensor_name n s) ≡ tensor_name n s
unfolding c_str tensor_name decimal
c_str-tensor_name n s =
    ap (λ xs. codes "blk." ++ xs)
      (c_str_digits (decimal_in (suc n) n) (suffix s) (decimal_in-IsDigit (suc n) n)
        ∙ ap (λ xs. decimal_in (suc n) n ++ xs) (c_str-suffix s))
