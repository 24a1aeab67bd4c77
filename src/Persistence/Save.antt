-- ===== src/Persistence/Save.antt =====
-- `write_all` and `save_kv_to_file`. What the system calls answer is an argument.
pub mod Atomic
use reflex_llm.Base.{
  ℕ, zero, suc, ◌+◌, ◌*◌, ◌≤◌, ◌≡◌, Bool, true, false, not, ◌&&◌, Option, none, some, List, [], ◌∷◌,
  ◌++◌, take, drop, length, ltb, ◌==◌, if◌then◌else◌,
}
use reflex_llm.Persistence.Bytes.{encode_tokens}
use reflex_llm.Persistence.Header.{Header, header_bytes, encode}
use reflex_llm.Persistence.Files.{FilePath, Files, update}

-- `calls k` is the value of the k-th `write`, 0 for an error (the code treats both alike); a call
-- takes at most the bytes that it is offered. The bytes written so far, and whether all are out.
unfoldable pub write_all : (ℕ → ℕ) → (fuel k : ℕ) → (done rest : List ℕ) → Bool × List ℕ
write_all calls fuel k done [] = (true, done)
write_all calls zero k done (b ∷ bs) = (false, done)
write_all calls (suc fuel) k done (b ∷ bs) = elim (calls k) [
  | zero ↦ (false, done)
  | suc n ↦ write_all calls fuel (k + 1) (done ++ take (suc n) (b ∷ bs)) (drop (suc n) (b ∷ bs))
]

-- The answers of one `save_kv_to_file`.
pub record SaveCalls : Type 0 where
  pub opens : Bool
  pub header_write : ℕ
  pub token_writes : ℕ → ℕ
  pub body_writes : ℕ → ℕ
  pub syncs : Bool
  pub renames : Bool
  pub unlinks : Bool

-- ".tmp"
abbrev pub tmp_suffix : List ℕ
tmp_suffix = b'.' ∷ b't' ∷ b'm' ∷ b'p' ∷ []

-- `close(fd); unlink(tmp); return false;` with `content` in the temporary file.
unfoldable pub give_up : SaveCalls → Files → FilePath → List ℕ → Bool × Files
give_up calls fs tmp content =
    if calls.unlinks then (false, update fs tmp none) else (false, update fs tmp (some content))

-- The part that runs once the temporary file is open. Each row of writes has fuel for its bytes.
unfoldable pub write_and_rename :
    SaveCalls → Files → (path tmp : FilePath) → Header → (tokens body : List ℕ) → Bool × Files
unfolding give_up
write_and_rename calls fs path tmp hdr tokens body =
    let header = take calls.header_write (encode hdr) in
    let after_tokens = write_all calls.token_writes (length tokens) 0 header tokens in
    let after_body = write_all calls.body_writes (length body) 0 after_tokens.1 body in
    if not (calls.header_write == header_bytes)
    then give_up calls fs tmp header
    else (if not after_tokens.0
        then give_up calls fs tmp after_tokens.1
        else (if not after_body.0
            then give_up calls fs tmp after_body.1
            else (if not calls.syncs
                then give_up calls fs tmp after_body.1
                else (if not calls.renames
                    then give_up calls fs tmp after_body.1
                    else (true, update (update fs tmp none) path (some after_body.1))))))

abbrev pub is_none {ℓ} : {A : Type ℓ} → Option A → Bool
is_none none = true
is_none (some a) = false

-- The token bytes that are written: `n_tokens` of them, none where the pointer is `nullptr`.
abbrev pub token_bytes : Option (List ℕ) → ℕ → List ℕ
token_bytes none n = []
token_bytes (some ts) n = encode_tokens (take n ts)

-- `tokens` is `none` for a null pointer; `body_bytes` bytes of `host_kv` are written.
unfoldable pub save_kv_to_file :
    SaveCalls
    → FilePath
    → Header
    → Option (List ℕ)
    → (n_tokens : ℕ) → (host_kv : List ℕ) → (body_bytes : ℕ) → Files
    → Bool × Files
unfolding write_and_rename
save_kv_to_file calls path hdr tokens n_tokens host_kv body_bytes fs =
    let written =
      write_and_rename calls fs path (path ++ tmp_suffix) hdr (token_bytes tokens n_tokens)
        (take body_bytes host_kv) in
    if not (hdr.body_bytes == body_bytes)
    then (false, fs)
    else (if not (hdr.used_tokens == n_tokens)
        then (false, fs)
        else (if ltb 0 n_tokens && is_none tokens
            then (false, fs)
            else (if not calls.opens then (false, fs) else written)))
