-- ===== src/Gguf/Reader/Reads.antt =====
-- What a reader consumes from a file: the bytes at its position, and no others.
use reflex_llm.Base.{
  ℕ, zero, suc, ◌+◌, ◌/◌, ◌^◌, ◌≤◌, ◌<◌, ◌≡◌, refl, ap, sym, ◌∙◌, subst, List, [], ◌++◌, length,
  take, drop, append_assoc, append-nil, Option, none, some, arith, length-append, length-drop,
  take-length, drop-length, drop-drop, Bool, true, false, if◌then◌else◌, then_true, else_false,
}
use reflex_llm.Persistence.Bytes.{le, un_le, un_le-le_32, un_le-le_64}
use reflex_llm.Gguf.Reader.{M, ◌>>=◌, ◌>>◌, return, read, read_u32, read_u64, seek, seeked}

-- Where the file goes on with `bs`, the reader gives `a` and stands behind them. Files have fewer
-- than 2 ^ 63 bytes.
abbrev pub Reads {ℓ} : {A : Type ℓ} → M A → List ℕ → A → Type ℓ
Reads m bs a =
    (file rest : List ℕ) (pos : ℕ)
    → length file < 2 ^ 63
    → pos ≤ length file
    → drop pos file ≡ bs ++ rest
    → m file pos ≡ some (a, pos + length bs)

pub bound_of_drop :
    (file bs rest : List ℕ) (pos : ℕ)
    → pos ≤ length file
    → drop pos file ≡ bs ++ rest
    → pos + length bs ≤ length file
bound_of_drop file bs rest pos h e =
    omega (arith, ap length e, length-drop pos file, length-append bs rest)

pub drop_of_drop :
    (file bs rest : List ℕ) (pos : ℕ)
    → drop pos file ≡ bs ++ rest
    → drop (pos + length bs) file ≡ rest
drop_of_drop file bs rest pos e =
    sym (drop-drop pos (length bs) (pos + length bs) file refl)
    ∙ ap (drop (length bs)) e
    ∙ drop-length bs rest (length bs) refl

pub return-Reads {ℓ} : {A : Type ℓ} (a : A) → Reads (return a) [] a
return-Reads a file rest pos s h e =
    let z : pos ≡ pos + 0 = omega arith in ap (λ (p : ℕ). some (a, p)) z

pub read-Reads : (bs : List ℕ) (n : ℕ) → length bs ≡ n → Reads (read n) bs bs
unfolding read
read-Reads bs n l file rest pos s h e =
    let t : take n (drop pos file) ≡ bs = ap (take n) e ∙ take-length bs rest n l in
    let b = bound_of_drop file bs rest pos h e in ground (arith, t, b, length-drop pos file)

pub seek-Reads : (bs : List ℕ) (n : ℕ) → length bs ≡ n → Reads (seek n) bs (tt)
unfolding seek seeked
seek-Reads bs n l file rest pos s h e =
    let b = bound_of_drop file bs rest pos h e in ground (arith, b)

module _ {ℓ κ} {A : Type ℓ} {B : Type κ} (m : M A) (f : A → M B) (bs cs : List ℕ) (a : A)
    (b : B) where
  pub bind-Reads : Reads m bs a → Reads (f a) cs b → Reads (m >>= f) (bs ++ cs) b
  bind-Reads p q file rest pos s h e =
      let e' = e ∙ append_assoc bs cs rest in
      let one = p file (cs ++ rest) pos s h e' in
      let two =
        q file rest (pos + length bs) s (bound_of_drop file bs (cs ++ rest) pos h e')
          (drop_of_drop file bs (cs ++ rest) pos e') in
      let l : pos + length bs + length cs ≡ pos + length (bs ++ cs) =
        omega (arith, length-append bs cs) in
      let run : Option (A × ℕ) → Option (B × ℕ) =
        λ o. elim o [ none ↦ none | some (x, pos') ↦ f x file pos' ] in
      ap run one ∙ two ∙ ap (λ (k : ℕ). some (b, k)) l

pub then-Reads {ℓ} :
    {B : Type ℓ} (n : ℕ) (k : M B) (bs cs : List ℕ) (b : B)
    → length bs ≡ n
    → Reads k cs b
    → Reads (seek n >> k) (bs ++ cs) b
then-Reads n k bs cs b l q = bind-Reads (seek n) (λ _. k) bs cs (tt) b (seek-Reads bs n l) q

pub length-le : (n v : ℕ) → length (le n v) ≡ n
unfolding le
length-le zero v = refl
length-le (suc n) v = ap suc (length-le n (v / 256))

-- A reader whose value is a function of the bytes that another reads.
pub map-Reads {ℓ κ} :
    {A : Type ℓ} {B : Type κ} (m : M A) (g : A → B) (bs : List ℕ) (a : A) (b : B)
    → g a ≡ b
    → Reads m bs a
    → Reads (m >>= λ x. return (g x)) bs b
map-Reads m g bs a b e p file rest pos s h d =
    ap (λ o. elim o [ none ↦ none | some (x, pos') ↦ some (g x, pos') ]) (p file rest pos s h d)
    ∙ ap (λ x. some (x, pos + length bs)) e

pub word-Reads : (bytes : List ℕ) → length bytes ≡ 4 → Reads read_u32 bytes (un_le bytes)
unfolding read_u32
word-Reads bytes l = map-Reads (read 4) un_le bytes bytes (un_le bytes) refl (read-Reads bytes 4 l)

pub read_u32_lem : (v : ℕ) → v < 2 ^ 32 → Reads read_u32 (le 4 v) v
unfolding read_u32
read_u32_lem v h =
    map-Reads (read 4) un_le (le 4 v) (le 4 v) v (un_le-le_32 v h)
      (read-Reads (le 4 v) 4 (length-le 4 v))

pub read_u64_lem : (v : ℕ) → v < 2 ^ 64 → Reads read_u64 (le 8 v) v
unfolding read_u64
read_u64_lem v h =
    map-Reads (read 8) un_le (le 8 v) (le 8 v) v (un_le-le_64 v h)
      (read-Reads (le 8 v) 8 (length-le 8 v))

module _ {ℓ} {B : Type ℓ} (f : ℕ → M B) (v : ℕ) (cs : List ℕ) (b : B) where
  pub read_u32-Reads : v < 2 ^ 32 → Reads (f v) cs b → Reads (read_u32 >>= f) (le 4 v ++ cs) b
  read_u32-Reads h q = bind-Reads read_u32 f (le 4 v) cs v b (read_u32_lem v h) q

  pub read_u64-Reads : v < 2 ^ 64 → Reads (f v) cs b → Reads (read_u64 >>= f) (le 8 v ++ cs) b
  read_u64-Reads h q = bind-Reads read_u64 f (le 8 v) cs v b (read_u64_lem v h) q

-- A conditional reader reads what the branch taken reads.
module _ {ℓ} {A : Type ℓ} (b : Bool) (m n : M A) (bs : List ℕ) (a : A) where
  pub then-branch : b ≡ true → Reads m bs a → Reads (if b then m else n) bs a
  then-branch e r = subst (λ k. Reads k bs a) (sym (then_true b m n e)) r

  pub else-branch : b ≡ false → Reads n bs a → Reads (if b then m else n) bs a
  else-branch e r = subst (λ k. Reads k bs a) (sym (else_false b m n e)) r

-- A reader that ends by returning a value built from what it read last.
module _ {ℓ κ} {A : Type ℓ} {B : Type κ} (m : M A) (g : A → B) (bs : List ℕ) (a : A) where
  pub last-Reads : Reads m bs a → Reads (m >>= λ x. return (g x)) bs (g a)
  last-Reads r =
      subst (λ k. Reads (m >>= λ x. return (g x)) k (g a)) (append-nil bs)
        (bind-Reads m (λ x. return (g x)) bs [] a (g a) r (return-Reads (g a)))

-- Both branches, where the value branches alike.
pub if-Reads {ℓ} :
    {A : Type ℓ} (b : Bool) (m n : M A) (bs : List ℕ) (a c : A)
    → Reads m bs a
    → Reads n bs c
    → Reads (if b then m else n) bs (if b then a else c)
if-Reads true m n bs a c p q = p
if-Reads false m n bs a c p q = q
