-- ===== src/Crypt/Seal.antt =====
-- `encrypt` and `decrypt` on an OpenSSL that behaves as documented for AES-256-GCM.
use umtp.Base.{
  ℕ, ◌≡◌, ◌≢◌, refl, ap, ◌∙◌, Option, some, none, List, [], ◌++◌, length, if◌then◌else◌, ◌>>=◌,
}
use mathlib.Core.List.{append-nil}
use umtp.Crypt.{
  positive, Evp, iv_size, tag_size, encrypt_init, encrypt_update_in, encrypt_finish, encrypt,
  decrypt_init, decrypt_update_in, decrypt_finish, Decrypted, err_out, verify_failed, success,
  decrypt,
}

-- The sequence of calls that `encrypt` makes succeeds, and gives the bytes `out` and `tag`.
pub record Encrypts {Ctx : Type 0} (evp : Evp Ctx) (key iv in_bytes out tag : List ℕ) : Type 0 where
  pub c0 : Ctx
  pub c1 : Ctx
  pub c2 : Ctx
  pub c3 : Ctx
  pub c4 : Ctx
  pub c5 : Ctx
  pub new : evp.ctx_new ≡ some c0
  pub cipher : evp.encrypt_init_cipher c0 ≡ (1, c1)
  pub ivlen : evp.set_ivlen c1 iv_size ≡ (1, c2)
  pub keyed : evp.encrypt_init_key c2 key iv ≡ (1, c3)
  pub updated : evp.encrypt_update c3 in_bytes (length in_bytes) ≡ (1, out, c4)
  pub final : evp.encrypt_final c4 ≡ (1, [], c5)
  pub tagged : evp.get_tag c5 tag_size ≡ (1, tag)

-- The sequence of calls that `decrypt` makes gives the bytes `out`, and at last `verified`.
pub record Decrypts {Ctx : Type 0} (evp : Evp Ctx) (key iv in_bytes tag out : List ℕ) (verified : ℕ)
    : Type 0 where
  pub c0 : Ctx
  pub c1 : Ctx
  pub c2 : Ctx
  pub c3 : Ctx
  pub c4 : Ctx
  pub c5 : Ctx
  pub c6 : Ctx
  pub new : evp.ctx_new ≡ some c0
  pub cipher : evp.decrypt_init_cipher c0 ≡ (1, c1)
  pub ivlen : evp.set_ivlen c1 iv_size ≡ (1, c2)
  pub keyed : evp.decrypt_init_key c2 key iv ≡ (1, c3)
  pub updated : evp.decrypt_update c3 in_bytes (length in_bytes) ≡ (1, out, c4)
  pub tagged : evp.set_tag c4 tag_size tag ≡ (1, c5)
  pub final : evp.decrypt_final c5 ≡ (verified, [], c6)

-- What the code relies on: a cipher that keeps the length, the tag of a key, an IV and encrypted
-- bytes, and a final call that fails for any other tag.
pub record Documented {Ctx : Type 0} (evp : Evp Ctx) : Type 0 where
  pub seal : (key iv in_bytes : List ℕ) → List ℕ
  pub unseal : (key iv in_bytes : List ℕ) → List ℕ
  pub tag : (key iv in_bytes : List ℕ) → List ℕ
  pub unseal-seal : (key iv in_bytes : List ℕ) → unseal key iv (seal key iv in_bytes) ≡ in_bytes
  pub length-seal : (key iv in_bytes : List ℕ) → length (seal key iv in_bytes) ≡ length in_bytes
  pub length-tag : (key iv in_bytes : List ℕ) → length (tag key iv in_bytes) ≡ tag_size
  pub encrypts :
      (key iv in_bytes : List ℕ)
      → Encrypts evp key iv in_bytes (seal key iv in_bytes) (tag key iv (seal key iv in_bytes))
  pub verifies :
      (key iv in_bytes : List ℕ)
      → Decrypts evp key iv in_bytes (tag key iv in_bytes) (unseal key iv in_bytes) 1
  pub rejects :
      (key iv in_bytes t : List ℕ)
      → t ≢ tag key iv in_bytes
      → Decrypts evp key iv in_bytes t (unseal key iv in_bytes) 0

module _ {Ctx : Type 0} (evp : Evp Ctx) where
  pub encrypt-Encrypts :
      (key iv in_bytes out tag : List ℕ)
      → Encrypts evp key iv in_bytes out tag
      → encrypt evp (some in_bytes) (length in_bytes) key iv ≡ some (out, tag)
  unfolding encrypt encrypt_init encrypt_update_in encrypt_finish
  encrypt-Encrypts key iv in_bytes out tag e =
      rw (e.new, e.cipher, e.ivlen, e.keyed, e.updated, e.final, e.tagged)
        (ap (λ bs. some (bs, tag)) (append-nil out))

  abbrev decrypting : (key iv in_bytes tag : List ℕ) → Option Decrypted
  decrypting key iv in_bytes tag = decrypt_init evp key iv >>= λ ctx.
      decrypt_update_in evp ctx (some in_bytes) (length in_bytes) >>= λ updated.
      decrypt_finish evp updated tag

  decrypt-decrypting :
      (key iv in_bytes tag : List ℕ) (d : Decrypted)
      → decrypting key iv in_bytes tag ≡ some d
      → decrypt evp (some in_bytes) (length in_bytes) tag key iv ≡ d
  unfolding decrypt
  decrypt-decrypting key iv in_bytes tag d e =
      ap (λ r. elim r as (λ x. Decrypted) [ none ↦ err_out | some d ↦ d ]) e

  decrypting-Decrypts :
      (key iv in_bytes tag out : List ℕ) (verified : ℕ)
      → Decrypts evp key iv in_bytes tag out verified
      → decrypting key iv in_bytes tag
        ≡ some (if positive verified then success (out ++ []) else verify_failed)
  unfolding decrypt_init decrypt_update_in decrypt_finish
  decrypting-Decrypts key iv in_bytes tag out verified d =
      rw (d.new, d.cipher, d.ivlen, d.keyed, d.updated, d.tagged, d.final) refl

  pub decrypt-Decrypts_one :
      (key iv in_bytes tag out : List ℕ)
      → Decrypts evp key iv in_bytes tag out 1
      → decrypt evp (some in_bytes) (length in_bytes) tag key iv ≡ success out
  decrypt-Decrypts_one key iv in_bytes tag out d =
      decrypt-decrypting key iv in_bytes tag (success out) (
        decrypting-Decrypts key iv in_bytes tag out 1 d
        ∙ ap (λ bs. some (success bs)) (append-nil out))

  pub decrypt-Decrypts_zero :
      (key iv in_bytes tag out : List ℕ)
      → Decrypts evp key iv in_bytes tag out 0
      → decrypt evp (some in_bytes) (length in_bytes) tag key iv ≡ verify_failed
  decrypt-Decrypts_zero key iv in_bytes tag out d =
      decrypt-decrypting key iv in_bytes tag verify_failed
        (decrypting-Decrypts key iv in_bytes tag out 0 d)
