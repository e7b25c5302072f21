-- ===== src/Crypt/Layout.antt =====
-- The encrypted message: the IV, the tag, and the encrypted bytes.
use umtp.Base.{
  ℕ, zero, suc, ◌+◌, ◌<◌, ◌^◌, ◌≡◌, ◌≢◌, ◌⊎◌, inl, inr, refl, sym, ap, ap₂, ◌∙◌, arith, some, List,
  [], ◌∷◌, ◌++◌, length, length-append, take, drop, replicate, sub32, ==_ne,
}
use mathlib.Core.List.{append_assoc}
use umtp.Crypt.{
  Evp, Pbkdf2, iv_size, tag_size, encrypt, decrypt, verify_failed, success, Decrypted, laid_out,
  ready_key, gen_key, passwd_default, dludp_encrypt, dludp_decrypt,
}
use umtp.Crypt.Seal.{Documented, encrypt-Encrypts, decrypt-Decrypts_one, decrypt-Decrypts_zero}

take-append : (xs ys : List ℕ) (n : ℕ) → length xs ≡ n → take n (xs ++ ys) ≡ xs
take-append [] ys n e = rw (sym e) refl
take-append (x ∷ xs) ys zero e = absurd (omega arith)
take-append (x ∷ xs) ys (suc n) e = ap (◌∷◌ x) (take-append xs ys n (omega arith))

drop-append : (xs ys : List ℕ) (n : ℕ) → length xs ≡ n → drop n (xs ++ ys) ≡ ys
drop-append [] ys n e = rw (sym e) refl
drop-append (x ∷ xs) ys zero e = absurd (omega arith)
drop-append (x ∷ xs) ys (suc n) e = drop-append xs ys n (omega arith)

-- The key that both sides derive.
abbrev pub shared_key : Pbkdf2 → List ℕ
shared_key pbkdf2 = gen_key pbkdf2 passwd_default

-- The static array is zero, as at first, or it holds that key.
abbrev pub IsKey : Pbkdf2 → List ℕ → Type 0
IsKey pbkdf2 key = (key ≡ replicate 32 0) ⊎ (key ≡ shared_key pbkdf2)

ready_key-IsKey :
    (pbkdf2 : Pbkdf2) (key : List ℕ) → IsKey pbkdf2 key → ready_key pbkdf2 key ≡ shared_key pbkdf2
unfolding ready_key
ready_key-IsKey pbkdf2 key (inl e) = rw e refl
ready_key-IsKey pbkdf2 key (inr e) = ap (ready_key pbkdf2) e ∙ same (shared_key pbkdf2) refl
  where
    same : (k : List ℕ) → k ≡ shared_key pbkdf2 → ready_key pbkdf2 k ≡ shared_key pbkdf2
    same [] e = refl
    same (zero ∷ ks) e = refl
    same (suc k ∷ ks) e = rw (==_ne (suc k) 0 (omega arith)) e

module _ {Ctx : Type 0} (evp : Evp Ctx) (pbkdf2 : Pbkdf2) where
  -- The parts that `dludp_decrypt` takes a message apart into.
  decrypt-parts :
      (key iv tag out : List ℕ)
      → length iv ≡ iv_size
      → length tag ≡ tag_size
      → length out < 2 ^ 31
      → dludp_decrypt evp pbkdf2 key (iv ++ tag ++ out) (length (iv ++ tag ++ out))
        ≡ (decrypt evp (some out) (length out) tag (ready_key pbkdf2 key) iv, ready_key pbkdf2 key)
  unfolding dludp_decrypt
  decrypt-parts key iv tag out iv_whole tag_whole small =
      let call : List ℕ → List ℕ → List ℕ → ℕ → Decrypted × List ℕ =
        λ i t o len. (decrypt evp (some o) len t (ready_key pbkdf2 key) i, ready_key pbkdf2 key) in
      let body : List ℕ = iv ++ tag ++ out in
      let apart : body ≡ iv ++ (tag ++ out) = append_assoc iv tag out in
      let head : length (iv ++ tag) ≡ 32 =
        omega (arith, length-append iv tag, iv_whole, tag_whole) in
      ap₂ (λ i t. call i t (drop 32 body) (sub32 (length body) 32))
        (ap (take 16) apart ∙ take-append iv (tag ++ out) 16 iv_whole)
        (ap (λ bs. take 16 (drop 16 bs)) apart
          ∙ ap (take 16) (drop-append iv (tag ++ out) 16 iv_whole)
          ∙ take-append tag out 16 tag_whole)
      ∙ ap₂ (call iv tag) (drop-append (iv ++ tag) out 32 head)
          (omega (arith, length-append (iv ++ tag) out, head, small))

  module _ (doc : Documented evp) where
    -- The message that `dludp_encrypt` writes.
    abbrev pub sealed : (iv input : List ℕ) → List ℕ
    sealed iv input =
        let key = shared_key pbkdf2 in
        iv ++ doc.tag key iv (doc.seal key iv input) ++ doc.seal key iv input

    encrypt-sealed :
        (key iv input : List ℕ)
        → IsKey pbkdf2 key
        → 0 < length input
        → dludp_encrypt evp pbkdf2 iv key input (length input)
          ≡ (some (sealed iv input), shared_key pbkdf2)
    unfolding dludp_encrypt
    encrypt-sealed key iv input is_key pos =
        let shared : List ℕ = shared_key pbkdf2 in
        ap (λ k. (laid_out iv (encrypt evp (some input) (length input) k iv), k))
          (ready_key-IsKey pbkdf2 key is_key)
        ∙ ap (λ r. (laid_out iv r, shared))
            (encrypt-Encrypts evp shared iv input (doc.seal shared iv input)
              (doc.tag shared iv (doc.seal shared iv input)) (doc.encrypts shared iv input))
        ∙ rw
            (==_ne (length (doc.seal shared iv input)) 0
              (omega (arith, doc.length-seal shared iv input, pos)))
            refl

    -- With an OpenSSL that behaves as documented, an IV of sixteen bytes, and on both sides a static
    -- array that is zero or holds the key of the password: a message of at least one byte and less
    -- than 2 ^ 31 is encrypted into one that is 32 bytes longer, and that is decrypted into the
    -- message; both arrays hold the key afterwards.
    pub decrypt-encrypt :
        (key key' iv input : List ℕ)
        → IsKey pbkdf2 key
        → IsKey pbkdf2 key'
        → length iv ≡ iv_size
        → 0 < length input
        → length input < 2 ^ 31
        → (body : List ℕ) × (dludp_encrypt evp pbkdf2 iv key input (length input)
            ≡ (some body, shared_key pbkdf2))
          × (length body ≡ 32 + length input)
          × (dludp_decrypt evp pbkdf2 key' body (length body) ≡ (success input, shared_key pbkdf2))
    decrypt-encrypt key key' iv input is_key is_key' iv_whole pos small =
        let shared : List ℕ = shared_key pbkdf2 in
        let out : List ℕ = doc.seal shared iv input in
        let tag : List ℕ = doc.tag shared iv out in
        (
          sealed iv input,
          encrypt-sealed key iv input is_key pos,
          omega (
            arith,
            length-append (iv ++ tag) out,
            length-append iv tag,
            iv_whole,
            doc.length-tag shared iv out,
            doc.length-seal shared iv input,
          ),
          decrypt-parts key' iv tag out iv_whole (doc.length-tag shared iv out)
                (omega (arith, doc.length-seal shared iv input, small))
              ∙ ap (λ k. (decrypt evp (some out) (length out) tag k iv, k))
                  (ready_key-IsKey pbkdf2 key' is_key')
              ∙ ap (λ d. (d, shared))
                  (decrypt-Decrypts_one evp shared iv out tag (doc.unseal shared iv out)
                    (doc.verifies shared iv out))
              ∙ ap (λ bs. (success bs, shared)) (doc.unseal-seal shared iv input),
        )

    -- With an OpenSSL that behaves as documented, a message with an IV and a tag of sixteen bytes is
    -- refused, with -1, if the tag is not that of the key, the IV and the encrypted bytes.
    pub decrypt-tampered :
        (key iv tag out : List ℕ)
        → IsKey pbkdf2 key
        → length iv ≡ iv_size
        → length tag ≡ tag_size
        → length out < 2 ^ 31
        → tag ≢ doc.tag (shared_key pbkdf2) iv out
        → dludp_decrypt evp pbkdf2 key (iv ++ tag ++ out) (length (iv ++ tag ++ out))
          ≡ (verify_failed, shared_key pbkdf2)
    decrypt-tampered key iv tag out is_key iv_whole tag_whole small wrong =
        let shared : List ℕ = shared_key pbkdf2 in
        decrypt-parts key iv tag out iv_whole tag_whole small
        ∙ ap (λ k. (decrypt evp (some out) (length out) tag k iv, k))
            (ready_key-IsKey pbkdf2 key is_key)
        ∙ ap (λ d. (d, shared))
            (decrypt-Decrypts_zero evp shared iv out tag (doc.unseal shared iv out)
              (doc.rejects shared iv out tag wrong))
