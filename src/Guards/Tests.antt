-- ===== src/Guards/Tests.antt =====
-- Tests of the guards, and their theorems at a meminfo of one line.
use reflex_llm.Base.{ℕ, ◌≡◌, refl, List, [], ◌∷◌, ◌++◌, Option, none, some, false, starts_with}
use reflex_llm.Base.Int.{pos}
use reflex_llm.Guards.{
  mem_available, skip_colon, read_digits, parse_meminfo_field, real_free_mb, can_extend,
  ThermalState, hottest, thermal_backoff_us, check_memory_and_thermal,
}
use reflex_llm.Guards.Steps.{Guarded, check-Guarded}

-- "MemAvailable:  2048000"
abbrev meminfo : Option (List (List ℕ))
meminfo = some ((mem_available ++ (58 ∷ 32 ∷ 32 ∷ 50 ∷ 48 ∷ 52 ∷ 56 ∷ 48 ∷ 48 ∷ 48 ∷ [])) ∷ [])

reads_2000 : real_free_mb meminfo ≡ pos 2000
unfolding real_free_mb parse_meminfo_field skip_colon read_digits starts_with
reads_2000 = refl

-- Without the file nothing is free, and the loop stops.
no_meminfo : can_extend none 0 0 ≡ false
unfolding can_extend real_free_mb parse_meminfo_field
no_meminfo = refl

abbrev warm : ThermalState
warm = record { cpu_temp = pos 70000; gpu_temp = pos 86000 }

abbrev hot : ThermalState
hot = record { cpu_temp = pos 96000; gpu_temp = pos 86000 }

warm_backoff : thermal_backoff_us warm ≡ 50000
unfolding thermal_backoff_us hottest
warm_backoff = refl

check-Guarded_example :
    Guarded meminfo warm 147456 20 (check_memory_and_thermal meminfo warm 147456 20)
check-Guarded_example = check-Guarded meminfo warm 147456 20
