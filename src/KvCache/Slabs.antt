-- ===== src/KvCache/Slabs.antt =====
-- One layer of a pool or of a packed buffer: a half of keys and a half of values.
use reflex_llm.Base.{
  ℕ, ◌+◌, ◌-◌, ◌*◌, ◌≤◌, ◌<◌, ◌≡◌, ◌⊎◌, Bool, true, false, arith, ap, ◌∙◌, if◌then◌else◌, ltb,
}
use reflex_llm.KvCache.{Mem, memcpy, Config, entry_bytes}
use reflex_llm.KvCache.Layers.{slab_next}
use reflex_llm.KvCache.Layout.{half, slot, entry_bytes-half}

-- Two copies of `n` bytes, one after the other, from two places.
pub copy_twice :
    (dst src : Mem) (d s t n x : ℕ)
    → x < n + n
    → memcpy (memcpy dst d src s n) (d + n) src t n (d + x)
      ≡ (if ltb x n then src (s + x) else src (t + (x - n)))
unfolding memcpy
copy_twice dst src d s t n x h = ground arith

pub copy_twice_frame :
    (dst src : Mem) (d s t n a : ℕ)
    → (a < d) ⊎ (d + (n + n) ≤ a)
    → memcpy (memcpy dst d src s n) (d + n) src t n a ≡ dst a
unfolding memcpy
copy_twice_frame dst src d s t n a h = ground arith

pub width : (c : Config) (n : ℕ) → n * entry_bytes c ≡ n * half c + n * half c
width c n = ap (λ (e : ℕ). n * e) (entry_bytes-half c) ∙ omega arith

-- A slot's place inside its layer.
abbrev pub offset : Config → ℕ → Bool → ℕ → ℕ
offset c w v a = (if v then w * half c else 0) + a * half c

pub slot_offset :
    (c : Config) (w l : ℕ) (v : Bool) (a j : ℕ)
    → slot c w l v a + j ≡ l * (w * entry_bytes c) + (offset c w v a + j)
slot_offset c w l v a j = omega arith

pub offset-lt :
    (c : Config) (w : ℕ) (v : Bool) (a j : ℕ)
    → a < w
    → j < half c
    → offset c w v a + j < w * entry_bytes c
offset-lt c w true a j h k = omega (arith, width c w, slab_next (half c) a w h)
offset-lt c w false a j h k = omega (arith, width c w, slab_next (half c) a w h)
