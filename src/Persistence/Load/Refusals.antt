-- ===== src/Persistence/Load/Refusals.antt =====
-- Files that are cut short, and a size that wraps.
use reflex_llm.Base.{
  ℕ, ◌+◌, ◌-◌, ◌*◌, ◌^◌, ◌<◌, ◌≡◌, refl, sym, ap, ◌∙◌, inl, inr, true, none, some, List, [], ◌++◌,
  take, length, length-take, take-append, append-nil, arith, Option-cases, min, not, ◌==◌,
  guard_skip, then_true, not-ne_of_eq, not_of_eq,
}
use reflex_llm.Persistence.Bytes.{encode_tokens}
use reflex_llm.Persistence.Header.{
  Header, Fits, header_bytes, kvcache_magic, kvcache_version, encode, decode, decode-encode,
  length-encode,
}
use reflex_llm.Persistence.Files.{FilePath, Files}
use reflex_llm.Persistence.Load.{
  LoadCalls, expected_size, load_kv_from_file, peek_file, peek_kv_header,
}
use reflex_llm.Persistence.Load.Checks.{IsAccepted, peek-IsAccepted, load-IsAccepted}
use reflex_llm.Persistence.Load.RoundTrip.{AllWork, Describes}

module _ (c : LoadCalls) (h : Header) (tokens body : List ℕ) (d : Describes h tokens body) where
  -- A saved file cut to `n` bytes passes no check.
  cut-not-IsAccepted :
      (n : ℕ) (k : Header)
      → n < 128 + 4 * length tokens + length body
      → ¬ IsAccepted k (take n (encode h ++ (encode_tokens tokens ++ body)))
  cut-not-IsAccepted n k short a = absurd (
      omega (
        arith,
        a.not_short,
        a.size_right,
        size,
        length-take n (encode h ++ (encode_tokens tokens ++ body)),
        d.used_right,
        d.body_right,
        d.size_small,
      ))
    where
      front :
          take n (encode h ++ (encode_tokens tokens ++ body))
          ≡ encode h ++ take (n - length (encode h)) (encode_tokens tokens ++ body)
      front = take-append n (encode h) _ (
          omega (
            arith,
            length-encode h d.fits,
            a.not_short,
            length-take n (encode h ++ (encode_tokens tokens ++ body)),
          ))

      same : k ≡ h
      same = sym a.decoded ∙ (ap decode front ∙ decode-encode h _ d.fits)

      size : expected_size k ≡ expected_size h
      size = ap expected_size same

  -- A file that a save wrote, cut to fewer bytes than it has, is refused by both readers, whatever
  -- the system calls answer.
  pub load-cut :
      (n capacity : ℕ) (path : FilePath) (fs : Files)
      → n < 128 + 4 * length tokens + length body
      → fs path ≡ some (take n (encode h ++ (encode_tokens tokens ++ body)))
      → (peek_kv_header c path fs ≡ none) × (load_kv_from_file c path true capacity fs ≡ none)
  load-cut n capacity path fs short here = (
    elim (Option-cases (peek_kv_header c path fs)) [
      | inl e ↦ e
      | inr (k, e) ↦ absurd (cut-not-IsAccepted n k short (peek-IsAccepted c path fs _ k here e))
    ],
    elim (Option-cases (load_kv_from_file c path true capacity fs)) [
      | inl e ↦ e
      | inr ((k, ts, b), e) ↦
          absurd (
            cut-not-IsAccepted n k short
              (load-IsAccepted c path true capacity fs _ k ts b here e).0)
    ],
  )

-- The size check is in `size_t` arithmetic and `peek_kv_header` has no bound on `body_bytes`. So a
-- file that is a header alone passes it whenever the header's token bytes and body add up to 2 ^ 64.
pub peek_wraps :
    (c : LoadCalls) (h : Header) (path : FilePath) (fs : Files)
    → AllWork c
    → Fits h
    → h.magic ≡ kvcache_magic
    → h.version ≡ kvcache_version
    → h.used_tokens * 4 + h.body_bytes ≡ 2 ^ 64
    → fs path ≡ some (encode h)
    → peek_kv_header c path fs ≡ some h
unfolding peek_kv_header peek_file
peek_wraps c h path fs ok fits magic version wraps here =
    rw (here, peek_kv_header)
      (then_true c.opens _ none ok.opened
        ∙ rw decoded (
            guard_skip
              (not (min (min c.header_read header_bytes) (length (encode h)) == header_bytes)) _
              (not-ne_of_eq _ _ (omega (arith, length-encode h fits, ok.header_whole)))
              (guard_skip (not (h.magic == kvcache_magic)) _ (not-ne_of_eq h.magic _ magic) (
                guard_skip (not (h.version == kvcache_version)) _ (not-ne_of_eq h.version _ version)
                  (guard_skip (not c.stats) _ (not_of_eq _ ok.statted) (
                    guard_skip (not (length (encode h) == expected_size h)) _
                      (not-ne_of_eq _ _ (omega (arith, length-encode h fits))) refl))))))
  where
    decoded : decode (encode h) ≡ h
    decoded = ap decode (sym (append-nil (encode h))) ∙ decode-encode h [] fits
