-- ===== src/Crypt/Tests.antt =====
-- The theorems at a toy cipher, which sends every byte through, with a tag of sixteen zeros.
use umtp.Base.{
  none, ◌+◌, ℕ, zero, suc, ap, ◌≡◌, ◌≢◌, inl, refl, arith, true, false, some, List, [], ◌∷◌, length,
  replicate, if◌then◌else◌, Bool,
}
use umtp.Datalink.{UmtpDl, datagram, signature, six_bytes, dludp_send_data, dludp_recv_data}
use umtp.Datalink.Frame.{seven}
use umtp.Datalink.Sealed.{sealing, opening, recv_data-send_data_sealed}
use umtp.Crypt.{Evp, Pbkdf2}
use umtp.Crypt.Seal.{Documented}

-- Whether all bytes are zero, and there are sixteen.
abbrev is_zeros : ℕ → List ℕ → Bool
is_zeros zero [] = true
is_zeros zero (b ∷ bs) = false
is_zeros (suc n) [] = false
is_zeros (suc n) (zero ∷ bs) = is_zeros n bs
is_zeros (suc n) (suc b ∷ bs) = false

-- The context is the number that the final call returns.
abbrev plain_evp : Evp ℕ
plain_evp = record {
  ctx_new = some 1;
  encrypt_init_cipher = λ c. (1, c);
  decrypt_init_cipher = λ c. (1, c);
  set_ivlen = λ c n. (1, c);
  encrypt_init_key = λ c key iv. (1, c);
  decrypt_init_key = λ c key iv. (1, c);
  encrypt_update = λ c bs n. (1, bs, c);
  decrypt_update = λ c bs n. (1, bs, c);
  encrypt_final = λ c. (1, [], c);
  decrypt_final = λ c. (c, [], c);
  get_tag = λ c n. (1, replicate 16 0);
  set_tag = λ c n tag. (1, if is_zeros 16 tag then 1 else 0);
}

is_zeros-false : (n : ℕ) (tag : List ℕ) → tag ≢ replicate n 0 → is_zeros n tag ≡ false
is_zeros-false zero [] ne = absurd (ne refl)
is_zeros-false zero (b ∷ bs) ne = refl
is_zeros-false (suc n) [] ne = refl
is_zeros-false (suc n) (zero ∷ bs) ne = is_zeros-false n bs (λ e. ne (ap (◌∷◌ 0) e))
is_zeros-false (suc n) (suc b ∷ bs) ne = refl

abbrev plain_documented : Documented plain_evp
plain_documented = record {
  seal = λ key iv bs. bs;
  unseal = λ key iv bs. bs;
  tag = λ key iv bs. replicate 16 0;
  unseal-seal = λ key iv bs. refl;
  length-seal = λ key iv bs. refl;
  length-tag = λ key iv bs. refl;
  encrypts = λ key iv bs. record {
    c0 = 1;
    c1 = 1;
    c2 = 1;
    c3 = 1;
    c4 = 1;
    c5 = 1;
    new = refl;
    cipher = refl;
    ivlen = refl;
    keyed = refl;
    updated = refl;
    final = refl;
    tagged = refl;
  };
  verifies = λ key iv bs. record {
    c0 = 1;
    c1 = 1;
    c2 = 1;
    c3 = 1;
    c4 = 1;
    c5 = 1;
    c6 = 1;
    new = refl;
    cipher = refl;
    ivlen = refl;
    keyed = refl;
    updated = refl;
    tagged = refl;
    final = refl;
  };
  rejects = λ key iv bs t ne. record {
    c0 = 1;
    c1 = 1;
    c2 = 1;
    c3 = 1;
    c4 = 1;
    c5 = 0;
    c6 = 0;
    new = refl;
    cipher = refl;
    ivlen = refl;
    keyed = refl;
    updated = refl;
    tagged = ap (λ b. (1, if b then 1 else 0)) (is_zeros-false 16 t ne);
    final = refl;
  };
}

abbrev plain_pbkdf2 : Pbkdf2
plain_pbkdf2 passwd salt iterations size = replicate size 7

abbrev first : List ℕ → ℕ
first [] = 0
first (b ∷ bs) = b

abbrev iv : List ℕ
iv = replicate 16 5

-- A data link that encrypts and decrypts with that cipher, at 127.0.0.1.
abbrev sealed_link : UmtpDl
sealed_link = record {
  intf = none;
  socket = some 3;
  port = 11784;
  ip = some 1;
  addr = 16777343;
  broadcast_addr = 4294967295;
  encrypt = some (sealing plain_evp plain_pbkdf2 iv (replicate 32 0));
  decrypt = some (opening plain_evp plain_pbkdf2 (replicate 32 0));
}

recv_data-send_data_sealed_example :
    let src = seven 0 0 0 0 0 0 0 0 in
    (body : List ℕ) × (dludp_send_data sealed_link (six_bytes 33554559 2094 src) (1 ∷ 2 ∷ []) 2
      ≡ datagram 33554559 2094 (signature ∷ body))
    × (length (signature ∷ body) ≡ 2 + 33)
    × (dludp_recv_data sealed_link src 33554559 2094 (signature ∷ body)
        ≡ some (six_bytes 33554559 2094 src, 1 ∷ 2 ∷ []))
recv_data-send_data_sealed_example =
    recv_data-send_data_sealed plain_evp plain_pbkdf2 plain_documented 0 0 0 0 0 0 0 0 sealed_link
      sealed_link iv (replicate 32 0) (replicate 32 0) (1 ∷ 2 ∷ []) 3 33554559 2094 33554559 2094
      refl refl refl refl (inl refl) (inl refl) (omega arith) (omega arith) (omega arith)
      (omega arith) (inl (omega arith))
