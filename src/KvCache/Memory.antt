-- ===== src/KvCache/Memory.antt =====
-- Memory as bytes at offsets, with `memcpy` and `memset` (and their CUDA forms).
use reflex_llm.Base.{ℕ, ◌+◌, ◌-◌, ◌≤◌, ◌<◌, ◌≡◌, ◌⊎◌, ◌&&◌, leb, ltb, if◌then◌else◌, arith}

abbrev pub Mem : Type 0
Mem = ℕ → ℕ

abbrev pub zeros : Mem
zeros a = 0

unfoldable pub memcpy : Mem → ℕ → Mem → ℕ → ℕ → Mem
memcpy dst d src s n a = if leb d a && ltb a (d + n) then src (s + (a - d)) else dst a

unfoldable pub memset : Mem → ℕ → ℕ → ℕ → Mem
memset dst d v n a = if leb d a && ltb a (d + n) then v else dst a

-- Inside the range, counted from its start.
pub memcpy_hit :
    (dst : Mem) (d : ℕ) (src : Mem) (s n x : ℕ) → x < n → memcpy dst d src s n (d + x) ≡ src (s + x)
unfolding memcpy
memcpy_hit dst d src s n x h = ground arith

pub memcpy_miss :
    (dst : Mem) (d : ℕ) (src : Mem) (s n a : ℕ)
    → (a < d) ⊎ (d + n ≤ a)
    → memcpy dst d src s n a ≡ dst a
unfolding memcpy
memcpy_miss dst d src s n a h = ground arith

pub memset_hit : (dst : Mem) (d v n a : ℕ) → d ≤ a → a < d + n → memset dst d v n a ≡ v
unfolding memset
memset_hit dst d v n a h k = ground arith

pub memset_miss : (dst : Mem) (d v n a : ℕ) → (a < d) ⊎ (d + n ≤ a) → memset dst d v n a ≡ dst a
unfolding memset
memset_miss dst d v n a h = ground arith
