-- ===== src/KvCache/Layout.antt =====
-- Where the keys and values of a position lie: `key_ptr` and `val_ptr`.
use reflex_llm.Base.{
  ℕ, ◌+◌, ◌-◌, ◌*◌, ◌/◌, ◌≤◌, ◌<◌, ◌≡◌, Bool, true, false, arith, dec_lt, if◌then◌else◌, ap, ◌∙◌,
}
use reflex_llm.KvCache.Layers.{slab_next}
use reflex_llm.KvCache.{Config, entry_bytes, Place, gpu, cpu, key_ptr, val_ptr}

-- The bytes of a key, and as many of a value.
abbrev pub half : Config → ℕ
half c = entry_bytes c / 2

pub entry_bytes-half : (c : Config) → entry_bytes c ≡ half c + half c
unfolding entry_bytes
entry_bytes-half c = omega arith

-- The first byte of a slot in a pool with room for `width` positions in each layer.
abbrev pub slot : Config → (width layer : ℕ) → Bool → ℕ → ℕ
slot c width layer is_value at =
    layer * (width * entry_bytes c) + (if is_value then width * half c else 0) + at * half c

abbrev pub ptr : Config → ℕ → Bool → ℕ → Place
ptr c layer is_value at = if is_value then val_ptr c layer at else key_ptr c layer at

abbrev pub shift : Place → ℕ → Place
shift (gpu a) n = gpu (a + n)
shift (cpu a) n = cpu (a + n)

-- A place is inside the pools as `init` allocates them.
abbrev pub InPools : Config → Place → Type 0
InPools c (gpu a) = a < c.n_layers * entry_bytes c * c.max_context
InPools c (cpu a) = a < c.n_layers * entry_bytes c * c.overflow_context

digit_lt : (h i k j m : ℕ) → j < h → i < k → i * h + j < k * h + m
digit_lt h i k j m p q = omega (arith, slab_next h i k q)

pub digit_unique :
    (h i i' j j' : ℕ) → j < h → j' < h → i * h + j ≡ i' * h + j' → (i ≡ i') × (j ≡ j')
digit_unique h i i' j j' p q e = elim (dec_lt i i') [
  | yes lt ↦ absurd (omega (arith, digit_lt h i i' j j' p lt))
  | no ge ↦ elim (dec_lt i' i) [
    | yes gt ↦ absurd (omega (arith, digit_lt h i' i j' j q gt))
    | no le ↦ let same : i ≡ i' = omega arith in (same, omega (arith, ap (λ (t : ℕ). t * h) same))
  ]
]

abbrev pub bit : Bool → ℕ
bit true = 1
bit false = 0

pub bit-lt : (v : Bool) → bit v < 2
bit-lt true = omega arith
bit-lt false = omega arith

pub bit_injective : (v w : Bool) → bit v ≡ bit w → v ≡ w
bit_injective v w e = ground arith

-- Slots follow one another: half a layer of keys, half a layer of values.
pub slot_as_index :
    (c : Config) (w l : ℕ) (v : Bool) (a : ℕ) → slot c w l v a ≡ ((l * 2 + bit v) * w + a) * half c
slot_as_index c w l true a =
    ap (λ (e : ℕ). l * (w * e) + w * half c + a * half c) (entry_bytes-half c) ∙ omega arith
slot_as_index c w l false a =
    ap (λ (e : ℕ). l * (w * e) + 0 + a * half c) (entry_bytes-half c) ∙ omega arith

pub slot_injective :
    (c : Config) (w l l' : ℕ) (v v' : Bool) (a a' j j' : ℕ)
    → a < w
    → a' < w
    → j < half c
    → j' < half c
    → slot c w l v a + j ≡ slot c w l' v' a' + j'
    → (l ≡ l') × (v ≡ v') × (a ≡ a') × (j ≡ j')
slot_injective c w l l' v v' a a' j j' p p' q q' e =
    (layers.0, bit_injective v v' layers.1, positions.1, bytes.1)
  where
    bytes : ((l * 2 + bit v) * w + a ≡ (l' * 2 + bit v') * w + a') × (j ≡ j')
    bytes =
        digit_unique (half c) _ _ j j' q q'
          (omega (arith, slot_as_index c w l v a, slot_as_index c w l' v' a'))

    positions : (l * 2 + bit v ≡ l' * 2 + bit v') × (a ≡ a')
    positions = digit_unique w _ _ a a' p p' bytes.0

    layers : (l ≡ l') × (bit v ≡ bit v')
    layers = digit_unique 2 l l' (bit v) (bit v') (bit-lt v) (bit-lt v') positions.0

slot_bound :
    (c : Config) (n w l : ℕ) (v : Bool) (a j : ℕ)
    → l < n
    → a < w
    → j < half c
    → slot c w l v a + j < n * entry_bytes c * w
slot_bound c n w l v a j p q r = omega (
  arith,
  slot_as_index c w l v a,
  ap (λ (e : ℕ). n * e * w) (entry_bytes-half c),
  slab_next (half c) ((l * 2 + bit v) * w + a) (n * 2 * w)
      (omega (arith, slab_next w (l * 2 + bit v) (n * 2) (omega (arith, bit-lt v)))),
)

pub ptr_fast :
    (c : Config) (l : ℕ) (v : Bool) (a j : ℕ)
    → a < c.max_context
    → shift (ptr c l v a) j ≡ gpu (slot c c.max_context l v a + j)
unfolding key_ptr val_ptr
ptr_fast c l true a j h = ground arith
ptr_fast c l false a j h = ground arith

pub ptr_overflow :
    (c : Config) (l : ℕ) (v : Bool) (a j : ℕ)
    → c.max_context ≤ a
    → shift (ptr c l v a) j ≡ cpu (slot c c.overflow_context l v (a - c.max_context) + j)
unfolding key_ptr val_ptr
ptr_overflow c l true a j h = ground arith
ptr_overflow c l false a j h = ground arith

-- Any byte of any slot lies inside the pool that `init` allocates: in the fast pool below
-- `max_context`, in the overflow pool from there up to the number of tokens held.
pub ptr-InPools :
    (c : Config) (l : ℕ) (v : Bool) (a j : ℕ)
    → l < c.n_layers
    → a < c.max_context + c.overflow_context
    → j < half c
    → InPools c (shift (ptr c l v a) j)
ptr-InPools c l v a j p q r = elim (dec_lt a c.max_context) [
  | yes lt ↦ rw (ptr_fast c l v a j lt) (slot_bound c c.n_layers c.max_context l v a j p lt r)
  | no ge ↦
      rw (ptr_overflow c l v a j (omega arith))
        (slot_bound c c.n_layers c.overflow_context l v (a - c.max_context) j p (omega arith) r)
]

-- No byte belongs to two slots: if byte `j` of one slot is byte `j'` of another, they are the same
-- layer, the same of key and value, the same position, and the same byte.
pub ptr_injective :
    (c : Config) (l l' : ℕ) (v v' : Bool) (a a' j j' : ℕ)
    → a < c.max_context + c.overflow_context
    → a' < c.max_context + c.overflow_context
    → j < half c
    → j' < half c
    → shift (ptr c l v a) j ≡ shift (ptr c l' v' a') j'
    → (l ≡ l') × (v ≡ v') × (a ≡ a') × (j ≡ j')
ptr_injective c l l' v v' a a' j j' p p' q q' e = elim (dec_lt a c.max_context) [
  | yes lt ↦ elim (dec_lt a' c.max_context) [
    | yes lt' ↦
        slot_injective c c.max_context l l' v v' a a' j j' lt lt' q q'
          (ground (arith, ptr_fast c l v a j lt, ptr_fast c l' v' a' j' lt'))
    | no ge' ↦ absurd (cc (ptr_fast c l v a j lt, ptr_overflow c l' v' a' j' (omega arith)))
  ]
  | no ge ↦ elim (dec_lt a' c.max_context) [
    | yes lt' ↦ absurd (cc (ptr_overflow c l v a j (omega arith), ptr_fast c l' v' a' j' lt'))
    | no ge' ↦ both (omega arith) (omega arith)
  ]
]
  where
    both : c.max_context ≤ a → c.max_context ≤ a' → (l ≡ l') × (v ≡ v') × (a ≡ a') × (j ≡ j')
    both ge ge' =
        let r : (l ≡ l') × (v ≡ v') × (a - c.max_context ≡ a' - c.max_context) × (j ≡ j') =
          slot_injective c c.overflow_context l l' v v' (a - c.max_context) (a' - c.max_context) j
            j' (omega arith) (omega arith) q q'
            (ground (arith, ptr_overflow c l v a j ge, ptr_overflow c l' v' a' j' ge')) in
        (r.0, r.1, omega arith, r.3)
