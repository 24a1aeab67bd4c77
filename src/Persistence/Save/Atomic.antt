-- ===== src/Persistence/Save/Atomic.antt =====
-- A save replaces the file in one step or leaves it alone.
use reflex_llm.Base.{
  ℕ, zero, suc, ◌+◌, ◌≤◌, ◌<◌, ◌≡◌, ◌≢◌, refl, sym, ap, ◌∙◌, inl, inr, Bool, true, false, Option,
  none, some, List, [], ◌∷◌, ◌++◌, append_assoc, take, drop, length, length-append, length-drop,
  take-append-drop, take_all, arith, append-nil, ℕ-cases, ◌==◌, ltb, ◌&&◌, if_elim, subst, not,
}
use reflex_llm.Persistence.Header.{Header, header_bytes, Fits, encode, length-encode}
use reflex_llm.Persistence.Files.{FilePath, Files, update, update_self, update_ne}
use reflex_llm.Persistence.Save.{
  write_all, SaveCalls, tmp_suffix, give_up, write_and_rename, is_none, token_bytes,
  save_kv_to_file,
}

-- A row of writes that succeeds has put out every byte, in order, however the calls split them.
pub write_all-done :
    (calls : ℕ → ℕ) (fuel k : ℕ) (done rest : List ℕ)
    → (write_all calls fuel k done rest).0 ≡ true
    → (write_all calls fuel k done rest).1 ≡ done ++ rest
unfolding write_all
write_all-done calls fuel k done [] e = sym (append-nil done)
write_all-done calls zero k done (b ∷ bs) e = cc
write_all-done calls (suc fuel) k done (b ∷ bs) e = elim (ℕ-cases (calls k)) [
  | inl z ↦ absurd (ground (arith, z))
  | inr (n, s) ↦
      rw (s, write_all)
        (write_all-done calls fuel (k + 1) (done ++ take (suc n) (b ∷ bs)) (drop (suc n) (b ∷ bs))
            (rw (s, write_all) at e)
          ∙ (append_assoc done _ _ ∙ ap (◌++◌ done) (take-append-drop (suc n) (b ∷ bs))))
]

-- With fuel for its bytes a row of writes fails only if a call fails: the fuel never runs out.
pub write_all_succeeds :
    (calls : ℕ → ℕ) (fuel k : ℕ) (done rest : List ℕ)
    → length rest ≤ fuel
    → ((i : ℕ) → 0 < calls i)
    → (write_all calls fuel k done rest).0 ≡ true
unfolding write_all
write_all_succeeds calls fuel k done [] h all = refl
write_all_succeeds calls zero k done (b ∷ bs) h all = absurd (omega arith)
write_all_succeeds calls (suc fuel) k done (b ∷ bs) h all = elim (ℕ-cases (calls k)) [
  | inl z ↦ absurd (omega (arith, all k))
  | inr (n, s) ↦
      rw (s, write_all)
        (write_all_succeeds calls fuel (k + 1) (done ++ take (suc n) (b ∷ bs))
          (drop (suc n) (b ∷ bs)) (omega (arith, length-drop n bs)) all)
]

not-false : {b : Bool} → not b ≡ false → b ≡ true
not-false {b} e = ground arith

path-ne-tmp : (path : FilePath) → path ≢ path ++ tmp_suffix
path-ne-tmp path e = absurd (omega (arith, ap length e, length-append path tmp_suffix))

-- What a save may do to the files: all of it, or nothing to the file itself; never anything to a
-- file but that one and the temporary one.
pub record Outcome (fs : Files) (path : FilePath) (content : List ℕ) (r : Bool × Files)
    : Type 0 where
  pub saved : r.0 ≡ true → (r.1 path ≡ some content) × (r.1 (path ++ tmp_suffix) ≡ none)
  pub kept : r.0 ≡ false → r.1 path ≡ fs path
  pub others : (q : FilePath) → q ≢ path → q ≢ path ++ tmp_suffix → r.1 q ≡ fs q

untouched : (fs : Files) (path : FilePath) (content : List ℕ) → Outcome fs path content (false, fs)
untouched fs path content = record { saved = λ e. cc; kept = λ e. refl; others = λ q a b. refl }

renamed :
    (fs : Files) (path : FilePath) (content : List ℕ)
    → Outcome fs path content
        (true, update (update fs (path ++ tmp_suffix) none) path (some content))
renamed fs path content = record {
  saved = λ e. (
    update_self _ path _,
    update_ne _ path _ _ (λ e. path-ne-tmp path (sym e)) ∙ update_self fs _ none,
  );
  kept = λ e. cc;
  others = λ q a b. update_ne _ path q _ a ∙ update_ne fs _ q none b;
}

failed :
    (fs : Files) (path : FilePath) (content : List ℕ) (left : Option (List ℕ))
    → Outcome fs path content (false, update fs (path ++ tmp_suffix) left)
failed fs path content left = record {
  saved = λ e. cc;
  kept = λ e. update_ne fs _ path left (path-ne-tmp path);
  others = λ q a b. update_ne fs _ q left b;
}

give_up-Outcome :
    (calls : SaveCalls) (fs : Files) (path : FilePath) (content partial : List ℕ)
    → Outcome fs path content (give_up calls fs (path ++ tmp_suffix) partial)
unfolding give_up
give_up-Outcome calls fs path content partial =
    if_elim (Outcome fs path content) calls.unlinks (λ e. failed fs path content none)
      (λ e. failed fs path content (some partial))

module _ (calls : SaveCalls) (fs : Files) (path : FilePath) (hdr : Header) (ok : Fits hdr)
    (tokens body : List ℕ) where
  after_header : Bool × List ℕ
  after_header =
      write_all calls.token_writes (length tokens) 0 (take calls.header_write (encode hdr)) tokens

  after_body : Bool × List ℕ
  after_body = write_all calls.body_writes (length body) 0 after_header.1 body

  whole :
      not (calls.header_write == header_bytes) ≡ false
      → not after_header.0 ≡ false
      → not after_body.0 ≡ false
      → after_body.1 ≡ encode hdr ++ (tokens ++ body)
  unfolding after_header after_body
  whole h t b =
      write_all-done calls.body_writes _ 0 _ body (not-false b)
      ∙ (ap (λ (xs : List ℕ). xs ++ body)
            (write_all-done calls.token_writes _ 0 _ tokens (not-false t)
              ∙ ap (λ (xs : List ℕ). xs ++ tokens)
                  (take_all calls.header_write (encode hdr) (ground (arith, length-encode hdr ok))))
          ∙ append_assoc (encode hdr) tokens body)

  abbrev Q : Bool × Files → Type 0
  Q = Outcome fs path (encode hdr ++ (tokens ++ body))

  bad : (partial : List ℕ) → Q (give_up calls fs (path ++ tmp_suffix) partial)
  bad = give_up-Outcome calls fs path (encode hdr ++ (tokens ++ body))

  write_and_rename-Outcome :
      Outcome fs path
        (encode hdr ++ (tokens ++ body))
        (write_and_rename calls fs path (path ++ tmp_suffix) hdr tokens body)
  unfolding write_and_rename after_header after_body
  write_and_rename-Outcome =
      if_elim Q (not (calls.header_write == header_bytes)) (λ h. bad _)
        λ h.
          if_elim Q (not after_header.0) (λ t. bad after_header.1)
            λ t.
              if_elim Q (not after_body.0) (λ b. bad after_body.1)
                λ b.
                  if_elim Q (not calls.syncs) (λ s. bad after_body.1)
                    λ s.
                      if_elim Q (not calls.renames) (λ r. bad after_body.1)
                        λ r.
                          subst
                            (λ (c : List ℕ). Outcome fs path c (
                              true,
                              update (update fs (path ++ tmp_suffix) none) path (some after_body.1),
                            ))
                            (whole h t b) (renamed fs path after_body.1)

-- Whatever the system calls answer: if the save reports success, the file is the header, the token
-- bytes and the body, and the temporary file is gone; if it reports failure, the file is what it was
-- before; and no file but these two is touched.
pub save-atomic :
    (calls : SaveCalls) (path : FilePath) (hdr : Header) (tokens : Option (List ℕ)) (n_tokens : ℕ)
    (host_kv : List ℕ) (body_bytes : ℕ) (fs : Files)
    → Fits hdr
    → Outcome fs path
        (encode hdr ++ (token_bytes tokens n_tokens ++ take body_bytes host_kv))
        (save_kv_to_file calls path hdr tokens n_tokens host_kv body_bytes fs)
unfolding save_kv_to_file
save-atomic calls path hdr tokens n_tokens host_kv body_bytes fs ok =
    if_elim (Outcome fs path content) (not (hdr.body_bytes == body_bytes)) (λ _. skip)
      λ _.
        if_elim (Outcome fs path content) (not (hdr.used_tokens == n_tokens)) (λ _. skip)
          λ _.
            if_elim (Outcome fs path content) (ltb 0 n_tokens && is_none tokens) (λ _. skip)
              λ _.
                if_elim (Outcome fs path content) (not calls.opens) (λ _. skip)
                  λ _.
                    write_and_rename-Outcome calls fs path hdr ok (token_bytes tokens n_tokens)
                      (take body_bytes host_kv)
  where
    content : List ℕ
    content = encode hdr ++ (token_bytes tokens n_tokens ++ take body_bytes host_kv)

    skip : Outcome fs path content (false, fs)
    skip = untouched fs path content
