-- ===== src/Persistence/Fingerprint.antt =====
-- `compute_model_fingerprint`: FNV-1a of the file's size and its first 256 bytes.
pub mod Detects
use reflex_llm.Base.{
  ℕ, zero, suc, ◌+◌, ◌*◌, ◌/◌, ◌%◌, ◌^◌, bit_xor, Bool, true, false, not, Option, none, some, List,
  [], ◌∷◌, ◌++◌, length, take, min, ltb, ◌==◌, if◌then◌else◌,
}
use reflex_llm.Persistence.Bytes.{le}

abbrev pub fnv_offset : ℕ
fnv_offset = 0xcbf29ce484222325

abbrev pub fnv_prime : ℕ
fnv_prime = 0x100000001b3

-- `h ^= b; h *= FNV_PRIME;` in `uint64_t`
unfoldable pub fnv_step : (h b : ℕ) → ℕ
fnv_step h b = bit_xor h b * fnv_prime % 2 ^ 64

unfoldable pub fnv : (h : ℕ) → List ℕ → ℕ
unfolding fnv_step
fnv h [] = h
fnv h (b ∷ bs) = fnv (fnv_step h b) bs

abbrev pub zero_bytes : ℕ → List ℕ
zero_bytes zero = []
zero_bytes (suc n) = 0 ∷ zero_bytes n

-- The eight bytes of the size, low byte first, and the head; the hash is written low byte first.
unfoldable pub fingerprint_of : (size : ℕ) (head : List ℕ) → List ℕ
unfolding fnv le
fingerprint_of size head = le 8 (fnv (fnv fnv_offset (le 8 size)) head) ++ zero_bytes 24

-- The answers of one call: of `open`, of `fstat` and of `read`.
pub record FingerprintCalls : Type 0 where
  pub opens : Bool
  pub stats : Bool
  pub head_read : ℕ

-- Whether it worked, and the hash; the hash is zero where it did not.
unfoldable pub compute_model_fingerprint : FingerprintCalls → (file : List ℕ) → Bool × List ℕ
unfolding fingerprint_of
compute_model_fingerprint calls file =
    let failed : Bool × List ℕ = (false, zero_bytes 32) in
    if not calls.opens
    then failed
    else (if not calls.stats
        then failed
        else (if ltb (length file) 256
            then failed
            else (if not (min calls.head_read 256 == 256)
                then failed
                else (true, fingerprint_of (length file) (take 256 file)))))
