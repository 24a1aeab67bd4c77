-- ===== src/Persistence/Load/Checks.antt =====
-- What `peek_kv_header` and `load_kv_from_file` refuse.
use reflex_llm.Base.{
  ℕ, zero, suc, ◌+◌, ◌-◌, ◌≤◌, ◌<◌, ◌≡◌, refl, Bool, true, not, some, List, ◌++◌, take, drop,
  length, length-drop, min, arith, ltb, ◌==◌, guard_passed, then_passed, eq_of_not-ne,
  le_of_not-ltb, subst, ℕ-cases, inl, inr, sym, ap, ◌∙◌, append-nil, append_assoc, take-take-drop,
  drop-drop,
}
use reflex_llm.Persistence.Header.{Header, header_bytes, kvcache_magic, kvcache_version, decode}
use reflex_llm.Persistence.Files.{FilePath, Files}
use reflex_llm.Persistence.Load.{
  read_all, LoadCalls, expected_size, read_body, read_tokens, load_file, load_kv_from_file,
  peek_file, peek_kv_header,
}

-- A header that the code takes for valid, for a file of this size.
pub record IsAccepted (h : Header) (file : List ℕ) : Type 0 where
  pub decoded : decode file ≡ h
  pub magic_right : h.magic ≡ kvcache_magic
  pub version_right : h.version ≡ kvcache_version
  pub size_right : length file ≡ expected_size h
  pub not_short : header_bytes ≤ length file

-- `peek_kv_header` gives a header only if the file has it, with the right magic and version, and has
-- the size that the header announces (in `size_t` arithmetic).
pub peek-IsAccepted :
    (calls : LoadCalls) (path : FilePath) (fs : Files) (file : List ℕ) (h : Header)
    → fs path ≡ some file
    → peek_kv_header calls path fs ≡ some h
    → IsAccepted h file
unfolding peek_kv_header peek_file
peek-IsAccepted calls path fs file h here e = ground arith

-- A row of reads that succeeds has the next `bytes` bytes of the file, and leaves what follows them.
pub read_all-got :
    (calls : ℕ → ℕ) (fuel k bytes : ℕ) (got rest : List ℕ)
    → let r = read_all calls fuel k bytes got rest in
      r.all ≡ true
      → (r.got ≡ got ++ take bytes rest) × (r.rest ≡ drop bytes rest) × (bytes ≤ length rest)
unfolding read_all
read_all-got calls fuel k zero got rest e = (sym (append-nil got), refl, omega arith)
read_all-got calls zero k (suc bytes) got rest e = absurd (ground arith)
read_all-got calls (suc fuel) k (suc bytes) got rest e =
    elim (ℕ-cases (min (min (calls k) (suc bytes)) (length rest))) [
      | inl z ↦ absurd (cc (rw (z, read_all) at e))
      | inr (n, s) ↦
          let (g, r, le) =
            read_all-got calls fuel (k + 1) (suc bytes - suc n) (got ++ take (suc n) rest)
              (drop (suc n) rest) (rw (s, read_all) at e) in
          rw (s, read_all)
            (
              g
                  ∙ (append_assoc got _ _
                      ∙ ap (◌++◌ got) (
                          take-take-drop (suc n) (suc bytes - suc n) (suc bytes) rest
                            (omega (arith, s)))),
              r ∙ drop-drop (suc n) (suc bytes - suc n) (suc bytes) rest (omega (arith, s)),
              omega (arith, s, length-drop (suc n) rest),
            )
    ]

-- With fuel for its bytes, and a file that has them, a row of reads fails only if a call fails.
pub read_all_succeeds :
    (calls : ℕ → ℕ) (fuel k bytes : ℕ) (got rest : List ℕ)
    → bytes ≤ fuel
    → bytes ≤ length rest
    → ((i : ℕ) → 0 < calls i)
    → (read_all calls fuel k bytes got rest).all ≡ true
unfolding read_all
read_all_succeeds calls fuel k zero got rest h l every = refl
read_all_succeeds calls zero k (suc bytes) got rest h l every = absurd (omega arith)
read_all_succeeds calls (suc fuel) k (suc bytes) got rest h l every =
    elim (ℕ-cases (min (min (calls k) (suc bytes)) (length rest))) [
      | inl z ↦ absurd (omega (arith, z, every k))
      | inr (n, s) ↦
          rw (s, read_all)
            (read_all_succeeds calls fuel (k + 1) (suc bytes - suc n) (got ++ take (suc n) rest)
              (drop (suc n) rest) (omega arith) (omega (arith, s, length-drop (suc n) rest)) every)
    ]

-- What the two rows of reads give: the header unchanged, and as many body bytes as it announces.
read_tokens-some :
    (calls : LoadCalls) (out : Bool) (h : Header) (rest : List ℕ) (h' : Header)
    (tokens body : List ℕ)
    → read_tokens calls out h rest ≡ some (h', tokens, body)
    → h' ≡ h
unfolding read_tokens read_body
read_tokens-some calls out h rest h' tokens body e = ground arith

-- The guards of `load_file`, in order.
load_file-some :
    (calls : LoadCalls) (out : Bool) (capacity : ℕ) (file : List ℕ) {r : Header × List ℕ × List ℕ}
    → load_file calls out capacity file ≡ some r
    → IsAccepted (decode file) file
      × ((decode file).body_bytes ≤ capacity)
      × (read_tokens calls out (decode file) (drop header_bytes file) ≡ some r)
unfolding load_file
load_file-some calls out capacity file {r} e =
    let h = decode file in
    let (c₁, e₁) =
      guard_passed (not (min (min calls.header_read header_bytes) (length file) == header_bytes)) _
        e in
    let (c₂, e₂) = guard_passed (not (h.magic == kvcache_magic)) _ e₁ in
    let (c₃, e₃) = guard_passed (not (h.version == kvcache_version)) _ e₂ in
    let (c₄, e₄) = guard_passed (ltb capacity h.body_bytes) _ e₃ in
    let (c₅, e₅) = guard_passed (not calls.stats) _ e₄ in
    let (c₆, e₆) = guard_passed (not (length file == expected_size h)) _ e₅ in
    (
      record {
        decoded = refl;
        magic_right = eq_of_not-ne h.magic _ c₂;
        version_right = eq_of_not-ne h.version _ c₃;
        size_right = eq_of_not-ne (length file) _ c₆;
        not_short = short (eq_of_not-ne _ header_bytes c₁);
      },
      le_of_not-ltb capacity _ c₄,
      e₆,
    )
  where
    short :
        min (min calls.header_read header_bytes) (length file) ≡ header_bytes
        → header_bytes ≤ length file
    short m = omega arith

-- What `load_kv_from_file` gives passed the same checks, and its body fits the buffer.
pub load-IsAccepted :
    (calls : LoadCalls) (path : FilePath) (out : Bool) (capacity : ℕ) (fs : Files) (file : List ℕ)
    (h : Header) (tokens body : List ℕ)
    → fs path ≡ some file
    → load_kv_from_file calls path out capacity fs ≡ some (h, tokens, body)
    → IsAccepted h file × (h.body_bytes ≤ capacity)
unfolding load_kv_from_file
load-IsAccepted calls path out capacity fs file h tokens body here e =
    let (opened, e₁) =
      then_passed calls.opens (load_file calls out capacity file)
        (rw (here, load_kv_from_file) at e) in
    let (accepted, fits, e₂) = load_file-some calls out capacity file e₁ in
    let same = read_tokens-some calls out (decode file) _ h tokens body e₂ in
    (subst (λ k. IsAccepted k file) (sym same) accepted, rw same fits)
