-- ===== src/Guards/Steps.antt =====
-- How the guards answer.
use reflex_llm.Base.{
  ℕ, ◌+◌, ◌/◌, ◌%◌, ◌≤◌, ◌≡◌, refl, ◌∙◌, ◌⊎◌, inl, inr, Bool, true, false, not, Option, List, arith,
  ◌==◌, if◌then◌else◌, if_elim, eq_of_not,
}
use reflex_llm.Base.Int.{ℤ, pos, ◌≤ℤ◌, ltb_ℤ}
use reflex_llm.Guards.{
  real_free_mb, can_extend, ThermalState, hottest, thermal_backoff_us, check_memory_and_thermal,
}

backoff_at : ℤ → ℕ
backoff_at t =
    if ltb_ℤ (pos 95000) t
    then 200000
    else (if ltb_ℤ (pos 90000) t
        then 100000
        else (if ltb_ℤ (pos 85000) t then 50000 else (if ltb_ℤ (pos 80000) t then 10000 else 0)))

backoff_at_mono : (s t : ℤ) → s ≤ℤ t → backoff_at s ≤ backoff_at t
unfolding backoff_at
backoff_at_mono s t h = ground arith

hottest_mono :
    (a b : ThermalState)
    → a.cpu_temp ≤ℤ b.cpu_temp
    → a.gpu_temp ≤ℤ b.gpu_temp
    → hottest a ≤ℤ hottest b
unfolding hottest
hottest_mono a b h k = ground arith

-- A hotter chip never sleeps less: if neither temperature falls, the back-off does not.
pub thermal_backoff_us_mono :
    (a b : ThermalState)
    → a.cpu_temp ≤ℤ b.cpu_temp
    → a.gpu_temp ≤ℤ b.gpu_temp
    → thermal_backoff_us a ≤ thermal_backoff_us b
unfolding thermal_backoff_us backoff_at
thermal_backoff_us_mono a b h k = backoff_at_mono (hottest a) (hottest b) (hottest_mono a b h k)

-- What a check has found.
pub record Guarded (meminfo : Option (List (List ℕ))) (ts : ThermalState) (bytes at : ℕ)
    (r : Bool × ℕ) : Type 0 where
  pub goes_on : r.0 ≡ true → pos (bytes / 1048576 + 258) ≤ℤ real_free_mb meminfo
  pub stops : r.0 ≡ false → real_free_mb meminfo ≤ℤ pos (bytes / 1048576 + 257)
  pub slept : (r.1 ≡ 0) ⊎ (at % 10 ≡ 0)
  pub short : r.1 ≤ 200000
  pub cool : ts.cpu_temp ≤ℤ pos 80000 → ts.gpu_temp ≤ℤ pos 80000 → r.1 ≡ 0

backoff_bound : (t : ℤ) → backoff_at t ≤ 200000
unfolding backoff_at
backoff_bound t = ground arith

backoff_cool : (t : ℤ) → t ≤ℤ pos 80000 → backoff_at t ≡ 0
unfolding backoff_at
backoff_cool t h = ground arith

hottest_bound : (ts : ThermalState) (t : ℤ) → ts.cpu_temp ≤ℤ t → ts.gpu_temp ≤ℤ t → hottest ts ≤ℤ t
unfolding hottest
hottest_bound ts t h k = ground arith

thermal_backoff-at : (ts : ThermalState) → thermal_backoff_us ts ≡ backoff_at (hottest ts)
unfolding thermal_backoff_us backoff_at
thermal_backoff-at ts = refl

extends :
    (meminfo : Option (List (List ℕ))) (bytes : ℕ)
    → (can_extend meminfo 256 bytes ≡ true → pos (bytes / 1048576 + 258) ≤ℤ real_free_mb meminfo)
      × (can_extend meminfo 256 bytes ≡ false → real_free_mb meminfo ≤ℤ pos (bytes / 1048576 + 257))
unfolding can_extend
extends meminfo bytes = (λ h. ground arith, λ h. ground arith)

-- Of the memory left, the temperatures and the position: the loop goes on exactly when more than 256 MB
-- stay free beside the token's memory, rounded up to the next whole megabyte. It then sleeps at every
-- tenth position at most, for a fifth of a second at most, and not at all while both temperatures are
-- at 80 degrees or less.
pub check-Guarded :
    (meminfo : Option (List (List ℕ))) (ts : ThermalState) (bytes at : ℕ)
    → Guarded meminfo ts bytes at (check_memory_and_thermal meminfo ts bytes at)
unfolding check_memory_and_thermal
check-Guarded meminfo ts bytes at =
    if_elim (Guarded meminfo ts bytes at) (not (can_extend meminfo 256 bytes))
      (λ e. record {
        goes_on = λ h. absurd (cc);
        stops = λ h. (extends meminfo bytes).1 (ground arith);
        slept = inl refl;
        short = omega arith;
        cool = λ h k. refl;
      })
      (λ e.
        if_elim (Guarded meminfo ts bytes at) (at % 10 == 0)
          (λ tenth. record {
            goes_on = λ h. (extends meminfo bytes).0 (eq_of_not _ e);
            stops = λ h. absurd (cc);
            slept = inr (ground arith);
            short = omega (arith, thermal_backoff-at ts, backoff_bound (hottest ts));
            cool = λ h k.
                thermal_backoff-at ts
                ∙ backoff_cool (hottest ts) (hottest_bound ts (pos 80000) h k);
          })
          (λ other. record {
            goes_on = λ h. (extends meminfo bytes).0 (eq_of_not _ e);
            stops = λ h. absurd (cc);
            slept = inl refl;
            short = omega arith;
            cool = λ h k. refl;
          }))
