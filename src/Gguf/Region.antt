-- ===== src/Gguf/Region.antt =====
-- The region of host memory that the device sees too (src/engine/model.cpp). Addresses are numbers, 0
-- is the null pointer, and the one region registered is a value that each operation returns.
use reflex_llm.Base.{
  ℕ, ◌+◌, ◌-◌, ◌≤◌, ◌<◌, ◌≡◌, ◌↔◌, sym, subst, Bool, true, not, ◌&&◌, ◌||◌, Option, none, some, ltb,
  leb, ◌==◌, if◌then◌else◌, arith,
}

pub record MappedWeightRegion : Type 0 where
  pub host_base : ℕ
  pub device_base : ℕ
  pub bytes : ℕ

abbrev pub no_region : MappedWeightRegion
no_region = record { host_base = 0; device_base = 0; bytes = 0 }

unfoldable pub register_mapped_weight_region :
    (host_base device_base bytes : ℕ) → MappedWeightRegion → MappedWeightRegion
register_mapped_weight_region host_base device_base bytes r = record {
  host_base = host_base;
  device_base = device_base;
  bytes = bytes;
}

unfoldable pub clear_mapped_weight_region :
    (host_base : ℕ) → MappedWeightRegion → MappedWeightRegion
clear_mapped_weight_region host_base r = if r.host_base == host_base then no_region else r

unfoldable pub resolve_mapped_weight_device_ptr : (host_ptr : ℕ) → MappedWeightRegion → Option ℕ
resolve_mapped_weight_device_ptr p r =
    if (p == 0) || ((r.host_base == 0) || (r.device_base == 0))
    then none
    else (if ltb p r.host_base || leb (r.host_base + r.bytes) p
        then none
        else some (r.device_base + (p - r.host_base)))

-- The pointers that resolve once a region is registered are those into it, each to the same offset of
-- the device's region.
pub resolve-register :
    (host device bytes p q : ℕ) (r : MappedWeightRegion)
    → 0 < host
    → 0 < device
    → (resolve_mapped_weight_device_ptr p (register_mapped_weight_region host device bytes r)
        ≡ some q)
      ↔ ((host ≤ p) × (p < host + bytes) × (q ≡ device + (p - host)))
unfolding register_mapped_weight_region resolve_mapped_weight_device_ptr
resolve-register host device bytes p q r h d =
    (λ e. (ground arith, ground arith, ground arith), λ k. ground arith)

-- `load_gguf_weights`: whether `open` succeeds, what `mmap` answers, whether the environment allows
-- the mapping into the device, whether the registration succeeds, and the device's pointer, 0 if it is
-- not given. A failure behind `mmap` is not fatal.
unfoldable pub load_gguf_weights :
    (size : ℕ) (opened : Bool) (mapping : Option ℕ) (enabled registered : Bool) (device : ℕ)
    → MappedWeightRegion
    → Option ℕ × MappedWeightRegion
unfolding register_mapped_weight_region
load_gguf_weights size opened mapping enabled registered device r =
    if not opened then (none, r) else elim mapping [
      | none ↦ (none, r)
      | some mapped ↦ (
        some mapped,
        (if enabled && (registered && not (device == 0))
            then register_mapped_weight_region mapped device size r
            else r),
      )
    ]

-- Where every call succeeds, the bytes of the file and no others have an address on the device.
pub load_gguf_weights-resolves :
    (size mapped device p q : ℕ) (r : MappedWeightRegion)
    → 0 < mapped
    → 0 < device
    → (resolve_mapped_weight_device_ptr p
          (load_gguf_weights size true (some mapped) true true device r).1
        ≡ some q)
      ↔ ((mapped ≤ p) × (p < mapped + size) × (q ≡ device + (p - mapped)))
unfolding load_gguf_weights
load_gguf_weights-resolves size mapped device p q r h d =
    let e : (load_gguf_weights size true (some mapped) true true device r).1
        ≡ register_mapped_weight_region mapped device size r =
      ground arith in
    subst
      (λ (s : MappedWeightRegion).
        (resolve_mapped_weight_device_ptr p s ≡ some q)
        ↔ ((mapped ≤ p) × (p < mapped + size) × (q ≡ device + (p - mapped))))
      (sym e) (resolve-register mapped device size p q r h d)
