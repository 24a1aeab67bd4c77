-- ===== src/Persistence/Load/RoundTrip.antt =====
-- Loading what was saved.
use reflex_llm.Base.{
  ℕ, ◌+◌, ◌*◌, ◌^◌, ◌≤◌, ◌<◌, ◌≡◌, refl, sym, ap, ◌∙◌, true, none, some, List, [], ◌++◌, take,
  length, length-append, All, take-length, drop-length, take_all, arith, min, not, ltb, ◌==◌,
  guard_skip, then_true, not-ne_of_eq, not_of_eq, le→ltb,
}
use reflex_llm.Persistence.Bytes.{
  encode_tokens, decode_tokens, length-encode_tokens, decode-encode_tokens,
}
use reflex_llm.Persistence.Header.{
  Header, Fits, header_bytes, kvcache_magic, kvcache_version, encode, decode-encode, length-encode,
}
use reflex_llm.Persistence.Files.{FilePath, Files}
use reflex_llm.Persistence.Save.{SaveCalls, save_kv_to_file}
use reflex_llm.Persistence.Save.Atomic.{save-atomic}
use reflex_llm.Persistence.Load.{
  LoadCalls, expected_size, read_all, read_body, read_tokens, load_file, load_kv_from_file,
  peek_file, peek_kv_header,
}
use reflex_llm.Persistence.Load.Checks.{read_all-got, read_all_succeeds}

-- No system call fails. The header comes in one read, as `load_kv_from_file` asks for; how the reads of
-- the tokens and of the body split them is left open, but each brings something.
pub record AllWork (c : LoadCalls) : Type 0 where
  pub opened : c.opens ≡ true
  pub header_whole : header_bytes ≤ c.header_read
  pub statted : c.stats ≡ true
  pub tokens_come : (i : ℕ) → 0 < c.token_reads i
  pub body_comes : (i : ℕ) → 0 < c.body_reads i

-- A header as the engine writes it, for these tokens and this body.
pub record Describes (h : Header) (tokens body : List ℕ) : Type 0 where
  pub fits : Fits h
  pub magic_right : h.magic ≡ kvcache_magic
  pub version_right : h.version ≡ kvcache_version
  pub used_right : h.used_tokens ≡ length tokens
  pub body_right : h.body_bytes ≡ length body
  pub size_small : header_bytes + 4 * length tokens + length body < 2 ^ 64
  pub tokens_32 : All (λ t. t < 2 ^ 32) tokens

module _ (c : LoadCalls) (ok : AllWork c) (h : Header) (tokens body : List ℕ)
    (d : Describes h tokens body) where
  file : List ℕ
  file = encode h ++ (encode_tokens tokens ++ body)

  length-file : length file ≡ 128 + 4 * length tokens + length body
  unfolding file
  length-file = omega (
    arith,
    length-append (encode h) (encode_tokens tokens ++ body),
    length-append (encode_tokens tokens) body,
    length-encode h d.fits,
    length-encode_tokens tokens,
  )

  read_body-whole : read_body c h tokens body ≡ some (h, tokens, body)
  unfolding read_body
  read_body-whole = ground (
    arith,
    read_all_succeeds c.body_reads h.body_bytes 0 h.body_bytes [] body (omega arith)
        (omega (arith, d.body_right)) ok.body_comes,
    read_all-got c.body_reads h.body_bytes 0 h.body_bytes [] body,
    take_all h.body_bytes body,
    d.body_right,
  )

  read_tokens-whole : read_tokens c true h (encode_tokens tokens ++ body) ≡ some (h, tokens, body)
  unfolding read_tokens
  read_tokens-whole =
      let row =
        read_all c.token_reads (h.used_tokens * 4) 0 (h.used_tokens * 4) []
          (encode_tokens tokens ++ body) in
      let came : row.all ≡ true =
        read_all_succeeds c.token_reads _ 0 _ [] _ (omega arith) (omega (arith, bytes, count))
          ok.tokens_come in
      let (g, r, le) = read_all-got c.token_reads _ 0 _ [] _ came in
      let tokens_got : decode_tokens h.used_tokens row.got ≡ tokens =
        rw
          (g, take-length (encode_tokens tokens) body (h.used_tokens * 4) (sym count), d.used_right)
          (decode-encode_tokens tokens d.tokens_32) in
      let rest_got : row.rest ≡ body =
        r ∙ drop-length (encode_tokens tokens) body (h.used_tokens * 4) (sym count) in
      rw (came, tokens_got, rest_got) read_body-whole
    where
      bytes : length (encode_tokens tokens ++ body) ≡ 4 * length tokens + length body
      bytes = omega (arith, length-append (encode_tokens tokens) body, length-encode_tokens tokens)

      count : h.used_tokens * 4 ≡ length (encode_tokens tokens)
      count = omega (arith, d.used_right, length-encode_tokens tokens)

  load_file-whole :
      (capacity : ℕ)
      → length body ≤ capacity
      → load_file c true capacity file ≡ some (h, tokens, body)
  unfolding load_file file
  load_file-whole capacity le =
      rw
        (
          decode-encode h (encode_tokens tokens ++ body) d.fits,
          drop-length (encode h) (encode_tokens tokens ++ body) 128 (length-encode h d.fits),
        )
        (guard_skip (not (min (min c.header_read header_bytes) (length file) == header_bytes)) _
          (not-ne_of_eq _ _ (omega (arith, length-file, ok.header_whole)))
          (guard_skip (not (h.magic == kvcache_magic)) _ (not-ne_of_eq h.magic _ d.magic_right) (
            guard_skip (not (h.version == kvcache_version)) _
              (not-ne_of_eq h.version _ d.version_right)
              (guard_skip (ltb capacity h.body_bytes) _
                (le→ltb capacity h.body_bytes (omega (arith, d.body_right)))
                (guard_skip (not c.stats) _ (not_of_eq _ ok.statted) (
                  guard_skip (not (length file == expected_size h)) _
                    (not-ne_of_eq (length file) _ size) read_tokens-whole))))))
    where
      size : length file ≡ expected_size h
      size = omega (arith, length-file, d.used_right, d.body_right, d.size_small)

  peek_file-whole : peek_file c file ≡ some h
  unfolding peek_file file
  peek_file-whole = rw (decode-encode h (encode_tokens tokens ++ body) d.fits) (
      guard_skip (not (min (min c.header_read header_bytes) (length file) == header_bytes)) _
        (not-ne_of_eq _ _ (omega (arith, length-file, ok.header_whole)))
        (guard_skip (not (h.magic == kvcache_magic)) _ (not-ne_of_eq h.magic _ d.magic_right) (
          guard_skip (not (h.version == kvcache_version)) _
            (not-ne_of_eq h.version _ d.version_right)
            (guard_skip (not c.stats) _ (not_of_eq _ ok.statted) (
              guard_skip (not (length file == expected_size h)) _
                (not-ne_of_eq (length file) _ size) refl)))))
    where
      size : length file ≡ expected_size h
      size = omega (arith, length-file, d.used_right, d.body_right, d.size_small)

  pub load-whole :
      (path : FilePath) (fs : Files) (capacity : ℕ)
      → fs path ≡ some (encode h ++ (encode_tokens tokens ++ body))
      → length body ≤ capacity
      → load_kv_from_file c path true capacity fs ≡ some (h, tokens, body)
  unfolding load_kv_from_file file
  load-whole path fs capacity here le =
      rw (here, load_kv_from_file)
        (then_true c.opens _ none ok.opened ∙ load_file-whole capacity le)

  pub peek-whole :
      (path : FilePath) (fs : Files)
      → fs path ≡ some (encode h ++ (encode_tokens tokens ++ body))
      → peek_kv_header c path fs ≡ some h
  unfolding peek_kv_header file
  peek-whole path fs here =
      rw (here, peek_kv_header) (then_true c.opens _ none ok.opened ∙ peek_file-whole)

  -- For a header with the right magic and version, with fields of their widths, that counts the tokens
  -- (of 32 bits each) and the body's bytes, for a file below 2 ^ 64 bytes: once a save of these has
  -- reported success, however its writes were split, then peeking gives the header, and loading into a
  -- buffer with room for the body gives the header, the tokens and the body; where the file opens, stat
  -- works, the header comes in one read, and each read of the tokens and of the body brings something.
  pub load-save :
      (calls : SaveCalls) (path : FilePath) (fs : Files) (capacity : ℕ)
      → length body ≤ capacity
      → let r = save_kv_to_file calls path h (some tokens) (length tokens) body (length body) fs in
        r.0 ≡ true
        → (peek_kv_header c path r.1 ≡ some h)
          × (load_kv_from_file c path true capacity r.1 ≡ some (h, tokens, body))
  load-save calls path fs capacity le e =
      let saved =
        ((save-atomic calls path h (some tokens) (length tokens) body (length body) fs d.fits).saved
          e).0 in
      let exact =
        saved
        ∙ ap (λ (ts : List ℕ). some (encode h ++ (encode_tokens ts ++ take (length body) body)))
            (take_all (length tokens) tokens (omega arith))
        ∙ ap (λ (b : List ℕ). some (encode h ++ (encode_tokens tokens ++ b)))
            (take_all (length body) body (omega arith)) in
      (peek-whole path _ exact, load-whole path _ capacity exact le)
