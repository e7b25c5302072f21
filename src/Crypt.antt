-- ===== src/Crypt.antt =====
-- core/crypt.c and include/crypt.h, with `dludp_encrypt` and `dludp_decrypt` of core/dl_udp.c: how the
-- calls of OpenSSL are put together, and the layout of an encrypted message. The calls are parameters:
-- functions of a context to the number that they return, an `int`, with what they write and the
-- context after them.
pub mod Seal
pub mod Layout
mod Tests
use umtp.Base.{
  ℕ, zero, suc, ◌+◌, ◌^◌, Bool, true, false, not, ◌&&◌, Option, none, some, List, [], ◌∷◌, ◌++◌,
  ltb, ◌==◌, if◌then◌else◌, ◌>>=◌, length, take, drop, replicate, sub32,
}

abbrev pub key_size : ℕ
key_size = 32

abbrev pub iv_size : ℕ
iv_size = 16

abbrev pub tag_size : ℕ
tag_size = 16

-- An input is the bytes at its pointer and an `int` as its 32-bit pattern; `none` is a NULL context.
pub record Evp (Ctx : Type 0) : Type 0 where
  pub ctx_new : Option Ctx
  pub encrypt_init_cipher : Ctx → ℕ × Ctx
  pub decrypt_init_cipher : Ctx → ℕ × Ctx
  pub set_ivlen : Ctx → ℕ → ℕ × Ctx
  pub encrypt_init_key : Ctx → (key iv : List ℕ) → ℕ × Ctx
  pub decrypt_init_key : Ctx → (key iv : List ℕ) → ℕ × Ctx
  pub encrypt_update : Ctx → List ℕ → ℕ → ℕ × List ℕ × Ctx
  pub decrypt_update : Ctx → List ℕ → ℕ → ℕ × List ℕ × Ctx
  pub encrypt_final : Ctx → ℕ × List ℕ × Ctx
  pub decrypt_final : Ctx → ℕ × List ℕ × Ctx
  pub get_tag : Ctx → ℕ → ℕ × List ℕ
  pub set_tag : Ctx → ℕ → List ℕ → ℕ × Ctx

-- `PKCS5_PBKDF2_HMAC_SHA1`: the key of a password, a salt, a number of rounds and a size.
abbrev pub Pbkdf2 : Type 0
Pbkdf2 = (passwd salt : List ℕ) (iterations size : ℕ) → List ℕ

-- "umtp_v0.1"
abbrev pub key_salt : List ℕ
key_salt = 117 ∷ 109 ∷ 116 ∷ 112 ∷ 95 ∷ 118 ∷ 48 ∷ 46 ∷ 49 ∷ []

pub gen_key : Pbkdf2 → List ℕ → List ℕ
gen_key pbkdf2 passwd = pbkdf2 passwd key_salt 1000 key_size

-- `if(1 != ...) goto err_out;`, and `if(!...)` in `decrypt`.
abbrev pub must_be_one : {A : Type 0} → ℕ → A → Option A
must_be_one ret a = if ret == 1 then some a else none

abbrev pub must_hold : {A : Type 0} → ℕ → A → Option A
must_hold ret a = if ret == 0 then none else some a

-- A positive `int`.
abbrev pub positive : ℕ → Bool
positive ret = not (ret == 0) && ltb ret (2 ^ 31)

-- What `decrypt` returns: 0 from `err_out`, -1, or the length of the bytes at `out`.
pub data Decrypted : Type 0 where
  err_out verify_failed : Decrypted
  success : List ℕ → Decrypted

module _ {Ctx : Type 0} (evp : Evp Ctx) where
  -- The context up to the key, the IV and their sizes.
  pub encrypt_init : (key iv : List ℕ) → Option Ctx
  encrypt_init key iv = evp.ctx_new >>= λ ctx.
      let cipher = evp.encrypt_init_cipher ctx in
      must_be_one cipher.0 cipher.1 >>= λ ctx.
      let ivlen = evp.set_ivlen ctx iv_size in
      must_be_one ivlen.0 ivlen.1 >>= λ ctx.
      let keyed = evp.encrypt_init_key ctx key iv in must_be_one keyed.0 keyed.1

  -- `in` may be NULL.
  pub encrypt_update_in : Ctx → Option (List ℕ) → (in_len : ℕ) → Option (List ℕ × Ctx)
  encrypt_update_in ctx none in_len = some ([], ctx)
  encrypt_update_in ctx (some in_bytes) in_len =
      let (ret, out, ctx') = evp.encrypt_update ctx in_bytes in_len in must_be_one ret (out, ctx')

  pub encrypt_finish : List ℕ × Ctx → Option (List ℕ × List ℕ)
  encrypt_finish (out, ctx) =
      let final = evp.encrypt_final ctx in
      must_be_one final.0 final.2 >>= λ ctx.
      let tagged = evp.get_tag ctx tag_size in must_be_one tagged.0 (out ++ final.1, tagged.1)

  -- The bytes at `out` and at `tag`; `none` is `err_out`, which returns 0.
  pub encrypt : Option (List ℕ) → (in_len : ℕ) (key iv : List ℕ) → Option (List ℕ × List ℕ)
  unfolding encrypt_init encrypt_update_in encrypt_finish
  encrypt in_bytes in_len key iv =
      encrypt_init key iv >>= λ ctx. encrypt_update_in ctx in_bytes in_len >>= encrypt_finish

  pub decrypt_init : (key iv : List ℕ) → Option Ctx
  decrypt_init key iv = evp.ctx_new >>= λ ctx.
      let cipher = evp.decrypt_init_cipher ctx in
      must_hold cipher.0 cipher.1 >>= λ ctx.
      let ivlen = evp.set_ivlen ctx iv_size in
      must_hold ivlen.0 ivlen.1 >>= λ ctx.
      let keyed = evp.decrypt_init_key ctx key iv in must_hold keyed.0 keyed.1

  pub decrypt_update_in : Ctx → Option (List ℕ) → (in_len : ℕ) → Option (List ℕ × Ctx)
  decrypt_update_in ctx none in_len = some ([], ctx)
  decrypt_update_in ctx (some in_bytes) in_len =
      let (ret, out, ctx') = evp.decrypt_update ctx in_bytes in_len in must_hold ret (out, ctx')

  -- The comparison of the tag.
  pub decrypt_finish : List ℕ × Ctx → List ℕ → Option Decrypted
  decrypt_finish (out, ctx) tag =
      let tagged = evp.set_tag ctx tag_size tag in
      must_hold tagged.0 tagged.1 >>= λ ctx.
      let final = evp.decrypt_final ctx in
      some (if positive final.0 then success (out ++ final.1) else verify_failed)

  pub decrypt : Option (List ℕ) → (in_len : ℕ) (tag key iv : List ℕ) → Decrypted
  unfolding decrypt_init decrypt_update_in decrypt_finish
  decrypt in_bytes in_len tag key iv =
      let done = decrypt_init key iv >>= λ ctx.
      decrypt_update_in ctx in_bytes in_len >>= λ updated. decrypt_finish updated tag in
      elim done [ none ↦ err_out | some d ↦ d ]

-- "Hello Umtp"
abbrev pub passwd_default : List ℕ
passwd_default = 72 ∷ 101 ∷ 108 ∷ 108 ∷ 111 ∷ 32 ∷ 85 ∷ 109 ∷ 116 ∷ 112 ∷ []

-- The static array `key` after the test of its first byte.
pub ready_key : Pbkdf2 → List ℕ → List ℕ
unfolding gen_key
ready_key pbkdf2 [] = gen_key pbkdf2 passwd_default
ready_key pbkdf2 (k ∷ ks) = if k == 0 then gen_key pbkdf2 passwd_default else k ∷ ks

-- A length that is not positive is `none`.
abbrev pub laid_out : List ℕ → Option (List ℕ × List ℕ) → Option (List ℕ)
laid_out iv none = none
laid_out iv (some (out, tag)) = if length out == 0 then none else some (iv ++ tag ++ out)

module _ {Ctx : Type 0} (evp : Evp Ctx) (pbkdf2 : Pbkdf2) where
  -- `iv` is what `RAND_bytes` wrote, and `key` the static array. The result is what is in `output`
  -- and the array.
  pub dludp_encrypt : (iv key input : List ℕ) (input_len : ℕ) → Option (List ℕ) × List ℕ
  unfolding encrypt ready_key
  dludp_encrypt iv key input input_len =
      let key' = ready_key pbkdf2 key in
      (laid_out iv (encrypt evp (some input) input_len key' iv), key')

  pub dludp_decrypt : (key input : List ℕ) (input_len : ℕ) → Decrypted × List ℕ
  unfolding decrypt ready_key
  dludp_decrypt key input input_len =
      let key' = ready_key pbkdf2 key in
      let iv = take iv_size input in
      let tag = take tag_size (drop iv_size input) in
      (
        decrypt evp (some (drop (iv_size + tag_size) input)) (sub32 input_len (iv_size + tag_size))
            tag key' iv,
        key',
      )
