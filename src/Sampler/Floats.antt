-- ===== src/Sampler/Floats.antt =====
-- What the sampler uses of `float`.
use reflex_llm.Base.{◌≡◌, Bool, true, false}

-- `number` says that a value is not a NaN, `finite` is `finite_bits`, and `lt`, `le` and `eq` are
-- `<`, `<=` and `==`. `<` is false at a NaN; it is a strict order, and a weak one on the numbers; -INFINITY is below every finite value.
pub record Floats : Type 1 where
  pub F : Type 0
  pub number : F → Bool
  pub finite : F → Bool
  pub lt : F → F → Bool
  pub le : F → F → Bool
  pub eq : F → F → Bool
  pub add : F → F → F
  pub sub : F → F → F
  pub mul : F → F → F
  pub div : F → F → F
  pub exp : F → F
  pub zero : F
  pub one : F
  pub infinity_below : F
  pub lt_irrefl : (a : F) → lt a a ≡ false
  pub lt_trans : (a b c : F) → lt a b ≡ true → lt b c ≡ true → lt a c ≡ true
  pub not-lt_trans :
      (a b c : F) → number b ≡ true → lt a b ≡ false → lt b c ≡ false → lt a c ≡ false
  pub finite-number : (a : F) → finite a ≡ true → number a ≡ true
  pub below-finite : (a : F) → finite a ≡ true → lt infinity_below a ≡ true
