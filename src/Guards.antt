-- ===== src/Guards.antt =====
-- The guards of the decode loop: `check_memory_and_thermal` (src/engine/decode.cu), the OOM guard
-- (src/memory/budget.cpp) and the thermal back-off (src/jetson/thermal.cpp).
pub mod Steps
mod Tests
use reflex_llm.Base.{
  ℕ, zero, suc, ◌+◌, ◌-◌, ◌*◌, ◌/◌, ◌%◌, Bool, true, false, not, ◌&&◌, ◌||◌, Option, none, some,
  List, [], ◌∷◌, length, drop, starts_with, ltb, leb, ◌==◌, if◌then◌else◌,
}
use reflex_llm.Base.Int.{ℤ, pos, negsuc, ltb_ℤ}

-- The spaces and colons after a field's name. 32 is the space, 58 the colon.
unfoldable pub skip_colon : List ℕ → List ℕ
skip_colon [] = []
skip_colon (c ∷ cs) = let rest = skip_colon cs in if (c == 32) || (c == 58) then rest else c ∷ cs

-- The digits that `strtoll` reads from here; the kernel writes no sign and no other blank.
unfoldable pub read_digits : (value : ℕ) → List ℕ → ℕ
read_digits value [] = value
read_digits value (c ∷ cs) =
    let rest = read_digits (value * 10 + (c - 48)) cs in
    if leb 48 c && leb c 57 then rest else value

-- The first line that the field's name begins; -1 without one, or where the file does not open.
unfoldable pub parse_meminfo_field : (lines : Option (List (List ℕ))) → (field : List ℕ) → ℤ
unfolding skip_colon read_digits
parse_meminfo_field none field = negsuc 0
parse_meminfo_field (some []) field = negsuc 0
parse_meminfo_field (some (line ∷ lines)) field =
    let rest = parse_meminfo_field (some lines) field in
    if starts_with field line
    then pos (read_digits 0 (skip_colon (drop (length field) line)) / 1024)
    else rest

-- MemAvailable
abbrev pub mem_available : List ℕ
mem_available = 77 ∷ 101 ∷ 109 ∷ 65 ∷ 118 ∷ 97 ∷ 105 ∷ 108 ∷ 97 ∷ 98 ∷ 108 ∷ 101 ∷ []

unfoldable pub real_free_mb : (meminfo : Option (List (List ℕ))) → ℤ
unfolding parse_meminfo_field
real_free_mb meminfo = parse_meminfo_field meminfo mem_available

unfoldable pub can_extend :
    (meminfo : Option (List (List ℕ))) → (safety_mb additional_bytes : ℕ) → Bool
unfolding real_free_mb
can_extend meminfo safety_mb additional_bytes =
    let needed_mb = additional_bytes / (1024 * 1024) + 1 in
    ltb_ℤ (pos (needed_mb + safety_mb)) (real_free_mb meminfo)

-- The temperatures, in thousandths of a degree: the files have that unit, and the thresholds are whole
-- degrees.
pub record ThermalState : Type 0 where
  pub cpu_temp : ℤ
  pub gpu_temp : ℤ

unfoldable pub hottest : ThermalState → ℤ
hottest ts = if ltb_ℤ ts.cpu_temp ts.gpu_temp then ts.gpu_temp else ts.cpu_temp

unfoldable pub thermal_backoff_us : ThermalState → ℕ
unfolding hottest
thermal_backoff_us ts =
    if ltb_ℤ (pos 95000) (hottest ts)
    then 200000
    else (if ltb_ℤ (pos 90000) (hottest ts)
        then 100000
        else (if ltb_ℤ (pos 85000) (hottest ts)
            then 50000
            else (if ltb_ℤ (pos 80000) (hottest ts) then 10000 else 0)))

-- Whether the loop goes on, and the microseconds slept.
unfoldable pub check_memory_and_thermal :
    (meminfo : Option (List (List ℕ))) → ThermalState → (kv_per_token_bytes at : ℕ) → Bool × ℕ
unfolding can_extend thermal_backoff_us
check_memory_and_thermal meminfo ts kv_per_token_bytes at =
    let backoff = thermal_backoff_us ts in
    if not (can_extend meminfo 256 kv_per_token_bytes)
    then (false, 0)
    else (if at % 10 == 0 then (true, backoff) else (true, 0))
