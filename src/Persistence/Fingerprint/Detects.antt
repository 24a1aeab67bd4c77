-- ===== src/Persistence/Fingerprint/Detects.antt =====
-- A change of one byte changes the fingerprint.
use Prim.Native.Nat.{digits, differ, bit_xor-bitwise}
use reflex_llm.Base.{
  ℕ, zero, suc, ◌+◌, ◌*◌, ◌/◌, ◌%◌, ◌^◌, ◌≤◌, ◌<◌, ◌≡◌, ◌≢◌, inl, inr, refl, sym, ap, ◌∙◌, bit_xor,
  arith, List, [], ◌∷◌, ◌++◌, length, All, ℕ-cases, if_elim, take, min, not, ltb, ◌==◌, Bool, true,
  false,
}
use reflex_llm.Persistence.Bytes.{le, un_le, un_le-le_64}
use reflex_llm.Persistence.Fingerprint.{
  fnv_prime, fnv_offset, fnv_step, fnv, zero_bytes, fingerprint_of, FingerprintCalls,
  compute_model_fingerprint,
}

abbrev xor_digits : ℕ → ℕ → ℕ → ℕ
xor_digits n a b = digits (λ b. b) differ n a b

xor_digits_fuel : (n m a b : ℕ) → a ≤ n → a ≤ m → xor_digits n a b ≡ xor_digits m a b
xor_digits_fuel zero zero a b p q = refl
xor_digits_fuel zero (suc m) zero b p q = refl
xor_digits_fuel zero (suc m) (suc a) b p q = absurd (omega arith)
xor_digits_fuel (suc n) zero zero b p q = refl
xor_digits_fuel (suc n) zero (suc a) b p q = absurd (omega arith)
xor_digits_fuel (suc n) (suc m) zero b p q = refl
xor_digits_fuel (suc n) (suc m) (suc a) b p q =
    omega (arith, xor_digits_fuel n m (suc a / 2) (b / 2) (omega arith) (omega arith))

-- Of two binary digits.
differ_lem : (x y : ℕ) → x < 2 → y < 2 → differ x y ≡ (x + y) % 2
differ_lem zero y h k = omega arith
differ_lem (suc zero) zero h k = refl
differ_lem (suc zero) (suc zero) h k = refl
differ_lem (suc zero) (suc (suc y)) h k = absurd (omega arith)
differ_lem (suc (suc x)) y h k = absurd (omega arith)

xor_zero : (b : ℕ) → bit_xor 0 b ≡ b
xor_zero b = bit_xor-bitwise 0 b

xor_step : (a b : ℕ) → bit_xor a b ≡ bit_xor (a / 2) (b / 2) * 2 + (a % 2 + b % 2) % 2
xor_step zero b = omega (arith, xor_zero b, xor_zero (b / 2))
xor_step (suc a) b = omega (
  arith,
  bit_xor-bitwise (suc a) b,
  bit_xor-bitwise (suc a / 2) (b / 2),
  xor_digits_fuel a (suc a / 2) (suc a / 2) (b / 2) (omega arith) (omega arith),
  differ_lem (suc a % 2) (b % 2) (omega arith) (omega arith),
)

-- Exclusive or can be undone on either side.
xor_cancel_left : (n a b c : ℕ) → a ≤ n → bit_xor a b ≡ bit_xor a c → b ≡ c
xor_cancel_left zero a b c h e = let z : a ≡ 0 = omega arith in rest z
  where
    rest : a ≡ 0 → b ≡ c
    rest z =
        sym (xor_zero b)
        ∙ (ap (λ (x : ℕ). bit_xor x b) (sym z) ∙ (e ∙ (ap (λ (x : ℕ). bit_xor x c) z ∙ xor_zero c)))
xor_cancel_left (suc n) a b c h e =
    let halves : bit_xor (a / 2) (b / 2) ≡ bit_xor (a / 2) (c / 2) =
      omega (arith, e, xor_step a b, xor_step a c) in
    omega (
      arith,
      e,
      xor_step a b,
      xor_step a c,
      xor_cancel_left n (a / 2) (b / 2) (c / 2) (omega arith) halves,
    )

xor_cancel_right : (n a b c : ℕ) → a + b ≤ n → bit_xor a c ≡ bit_xor b c → a ≡ b
xor_cancel_right zero a b c h e = omega arith
xor_cancel_right (suc n) a b c h e = elim (ℕ-cases (a + b)) [
  | inl z ↦ omega (arith, z)
  | inr (k, s) ↦
      let halves : bit_xor (a / 2) (c / 2) ≡ bit_xor (b / 2) (c / 2) =
        omega (arith, e, xor_step a c, xor_step b c) in
      omega (
        arith,
        e,
        xor_step a c,
        xor_step b c,
        xor_cancel_right n (a / 2) (b / 2) (c / 2) (omega (arith, s)) halves,
      )
]

abbrev power : ℕ → ℕ
power zero = 1
power (suc w) = 2 * power w

xor_bound : (w a b : ℕ) → a < power w → b < power w → bit_xor a b < power w
xor_bound zero a b h k = let z : a ≡ 0 = omega arith in rest z
  where
    rest : a ≡ 0 → bit_xor a b < 1
    rest z = omega (arith, ap (λ (x : ℕ). bit_xor x b) z, xor_zero b)
xor_bound (suc w) a b h k =
    omega (arith, xor_step a b, xor_bound w (a / 2) (b / 2) (omega arith) (omega arith))

-- Multiplying by the prime loses nothing in 64 bits: 14886173955864302971 undoes it.
undo :
    (x r q : ℕ)
    → x < 2 ^ 64
    → x * fnv_prime ≡ q * 2 ^ 64 + r
    → r < 2 ^ 64
    → r * 14886173955864302971 % 2 ^ 64 ≡ x
undo x r q h e k = omega arith

times_prime_injective :
    (x y : ℕ) → x < 2 ^ 64 → y < 2 ^ 64 → x * fnv_prime % 2 ^ 64 ≡ y * fnv_prime % 2 ^ 64 → x ≡ y
times_prime_injective x y h k e =
    sym (undo x (x * fnv_prime % 2 ^ 64) (x * fnv_prime / 2 ^ 64) h (omega arith) (omega arith))
    ∙ (ap (λ (r : ℕ). r * 14886173955864302971 % 2 ^ 64) e
        ∙ undo y (y * fnv_prime % 2 ^ 64) (y * fnv_prime / 2 ^ 64) k (omega arith) (omega arith))

fnv_step_bound : (h b : ℕ) → fnv_step h b < 2 ^ 64
unfolding fnv_step
fnv_step_bound h b = omega arith

fnv_injective :
    (bs : List ℕ) (h k : ℕ)
    → h < 2 ^ 64
    → k < 2 ^ 64
    → All (λ (b : ℕ). b < 256) bs
    → fnv h bs ≡ fnv k bs
    → h ≡ k
unfolding fnv
fnv_injective [] h k p q s e = e
fnv_injective (b ∷ bs) h k p q s e =
    let steps : fnv_step h b ≡ fnv_step k b =
      fnv_injective bs (fnv_step h b) (fnv_step k b) (fnv_step_bound h b) (fnv_step_bound k b) s.1
        e in
    xor_cancel_right (h + k) h k b (omega arith) (same_xor steps)
  where
    same_xor : fnv_step h b ≡ fnv_step k b → bit_xor h b ≡ bit_xor k b
    same_xor e =
        times_prime_injective (bit_xor h b) (bit_xor k b) (xor_bound 64 h b p (omega (arith, s.0)))
          (xor_bound 64 k b q (omega (arith, s.0))) e

fnv-append : (xs ys : List ℕ) (h : ℕ) → fnv h (xs ++ ys) ≡ fnv (fnv h xs) ys
unfolding fnv
fnv-append [] ys h = refl
fnv-append (x ∷ xs) ys h = fnv-append xs ys (fnv_step h x)

fnv_bound : (bs : List ℕ) (h : ℕ) → h < 2 ^ 64 → fnv h bs < 2 ^ 64
unfolding fnv
fnv_bound [] h p = p
fnv_bound (b ∷ bs) h p = fnv_bound bs (fnv_step h b) (fnv_step_bound h b)

-- One byte decides the hash of two heads that agree elsewhere.
fnv_one_byte :
    (xs ys : List ℕ) (x y h : ℕ)
    → h < 2 ^ 64
    → x < 256
    → y < 256
    → All (λ (b : ℕ). b < 256) ys
    → fnv h (xs ++ (x ∷ ys)) ≡ fnv h (xs ++ (y ∷ ys))
    → x ≡ y
unfolding fnv fnv_step
fnv_one_byte xs ys x y h p q r s e =
    xor_cancel_left (fnv h xs) (fnv h xs) x y (omega arith) (same_xor steps)
  where
    tails : fnv (fnv_step (fnv h xs) x) ys ≡ fnv (fnv_step (fnv h xs) y) ys
    tails = sym (fnv-append xs (x ∷ ys) h) ∙ (e ∙ fnv-append xs (y ∷ ys) h)

    steps : fnv_step (fnv h xs) x ≡ fnv_step (fnv h xs) y
    steps = fnv_injective ys _ _ (fnv_step_bound (fnv h xs) x) (fnv_step_bound (fnv h xs) y) s tails

    same_xor :
        fnv_step (fnv h xs) x ≡ fnv_step (fnv h xs) y → bit_xor (fnv h xs) x ≡ bit_xor (fnv h xs) y
    same_xor e =
        times_prime_injective _ _ (xor_bound 64 (fnv h xs) x (fnv_bound xs h p) (omega arith))
          (xor_bound 64 (fnv h xs) y (fnv_bound xs h p) (omega arith)) e

fingerprint_hash :
    (size : ℕ) (head : List ℕ)
    → un_le (take 8 (fingerprint_of size head)) ≡ fnv (fnv fnv_offset (le 8 size)) head
unfolding fingerprint_of le
fingerprint_hash size head =
    un_le-le_64 (fnv (fnv fnv_offset (le 8 size)) head)
      (fnv_bound head _ (fnv_bound (le 8 size) fnv_offset (omega arith)))

-- A hash that was computed.
record Hashed (file : List ℕ) (r : Bool × List ℕ) : Type 0 where
  hashed : r.0 ≡ true → r.1 ≡ fingerprint_of (length file) (take 256 file)

compute-Hashed :
    (c : FingerprintCalls) (file : List ℕ) → Hashed file (compute_model_fingerprint c file)
unfolding compute_model_fingerprint
compute-Hashed c file =
    if_elim (Hashed file) (not c.opens) (λ e. failed)
      λ e.
        if_elim (Hashed file) (not c.stats) (λ e. failed)
          λ e.
            if_elim (Hashed file) (ltb (length file) 256) (λ e. failed)
              λ e.
                if_elim (Hashed file) (not (min c.head_read 256 == 256)) (λ e. failed)
                  λ e. record { hashed = λ h. refl }
  where
    failed : Hashed file (false, zero_bytes 32)
    failed = record { hashed = λ h. absurd (cc) }

-- Two model files of the same size, whose first 256 bytes agree in all but one place, have different
-- fingerprints, if both could be computed.
pub compute_model_fingerprint_detects :
    (c d : FingerprintCalls) (a b xs ys : List ℕ) (x y : ℕ)
    → length a ≡ length b
    → take 256 a ≡ xs ++ (x ∷ ys)
    → take 256 b ≡ xs ++ (y ∷ ys)
    → x ≢ y
    → x < 256
    → y < 256
    → All (λ (z : ℕ). z < 256) ys
    → (compute_model_fingerprint c a).0 ≡ true
    → (compute_model_fingerprint d b).0 ≡ true
    → (compute_model_fingerprint c a).1 ≢ (compute_model_fingerprint d b).1
compute_model_fingerprint_detects c d a b xs ys x y n p q other k l s u v e = other (
    fnv_one_byte xs ys x y start (fnv_bound (le 8 (length a)) fnv_offset (omega arith)) k l s (
      sym (ap (fnv start) p)
      ∙ (sym (fingerprint_hash (length a) (take 256 a))
          ∙ (ap (λ (f : List ℕ). un_le (take 8 f))
                (sym ((compute-Hashed c a).hashed u) ∙ (e ∙ (compute-Hashed d b).hashed v))
              ∙ (fingerprint_hash (length b) (take 256 b)
                  ∙ (ap (λ (m : ℕ). fnv (fnv fnv_offset (le 8 m)) (take 256 b)) (sym n)
                      ∙ ap (fnv start) q))))))
  where
    start : ℕ
    start = fnv fnv_offset (le 8 (length a))
