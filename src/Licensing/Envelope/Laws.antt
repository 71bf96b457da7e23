-- ===== src/Licensing/Envelope/Laws.antt =====
-- app/core/crypto.py of Project-source/forge-server: what an envelope gives back.
use navtra_license.Prelude.{
  ℕ, ◌≡◌, refl, ap, subst, List, [], ◌∷◌, ◌++◌, some, arith, length, take, drop, nat_eq,
}
use navtra_license.Licensing.Envelope.{
  Aead, Base64Text, EnvelopeDraws, load_kek, encrypt_secret, decrypt_secret,
}

-- The documented laws: a decoded text is what was encoded; with a key of 32 bytes and any nonce of 12,
-- `encrypt` returns, and `decrypt` with the same key and nonce returns the plaintext.
pub record EnvelopeLaws (A : Aead) (B : Base64Text) : Type 0 where
  pub b64decode-b64encode : (bytes : List ℕ) → B.b64decode (B.b64encode bytes) ≡ some bytes
  pub decrypt-encrypt :
      (key nonce plaintext : List ℕ)
      → length key ≡ 32
      → length nonce ≡ 12
      → (sealed : List ℕ) × (A.encrypt key nonce plaintext ≡ some sealed)
        × (A.decrypt key nonce sealed ≡ some plaintext)

module _ {ℓ} {A : Type ℓ} where
  take-append : (xs ys : List A) → take (length xs) (xs ++ ys) ≡ xs
  take-append [] ys = refl
  take-append (x ∷ xs) ys = ap (λ t. x ∷ t) (take-append xs ys)

  drop-append : (xs ys : List A) → drop (length xs) (xs ++ ys) ≡ ys
  drop-append [] ys = refl
  drop-append (x ∷ xs) ys = drop-append xs ys

  -- The two parts of a blob.
  pub take_nonce : (n : ℕ) (xs ys : List A) → length xs ≡ n → take n (xs ++ ys) ≡ xs
  take_nonce n xs ys e = subst (λ k. take k (xs ++ ys) ≡ xs) e (take-append xs ys)

  pub drop_nonce : (n : ℕ) (xs ys : List A) → length xs ≡ n → drop n (xs ++ ys) ≡ ys
  drop_nonce n xs ys e = subst (λ k. drop k (xs ++ ys) ≡ ys) e (drop-append xs ys)

module _ (A : Aead) (B : Base64Text) (L : EnvelopeLaws A B) where
  kek_size : (kek_b64 kek : List ℕ) → load_kek A B kek_b64 ≡ some kek → length kek ≡ 32
  unfolding load_kek
  kek_size [] kek e = cc
  kek_size (c ∷ cs) kek e = ground arith

  -- With a key-encryption key that loads, a data key of 32 bytes and nonces of 12, every secret is
  -- sealed, and the two columns that are stored give the same secret back.
  pub decrypt_secret-encrypt_secret :
      (d : EnvelopeDraws) (plaintext kek_b64 kek : List ℕ)
      → load_kek A B kek_b64 ≡ some kek
      → length d.dek ≡ 32
      → length d.data_nonce ≡ 12
      → length d.dek_nonce ≡ 12
      → (ciphertext wrapped : List ℕ) × (encrypt_secret A B d plaintext kek_b64
          ≡ some (ciphertext, wrapped))
        × (decrypt_secret A B ciphertext wrapped kek_b64 ≡ some plaintext)
  unfolding encrypt_secret decrypt_secret
  decrypt_secret-encrypt_secret d plaintext kek_b64 kek loads dek_size data_size nonce_size =
      let (ciphertext, seals, opens) =
        L.decrypt-encrypt d.dek d.data_nonce plaintext dek_size data_size in
      let (wrapped, wraps, unwraps) =
        L.decrypt-encrypt kek d.dek_nonce d.dek (kek_size kek_b64 kek loads) nonce_size in
      (
        B.b64encode (d.data_nonce ++ ciphertext),
        B.b64encode (d.dek_nonce ++ wrapped),
        rw (loads, seals, wraps) refl,
        rw
            (
              loads,
              L.b64decode-b64encode (d.dek_nonce ++ wrapped),
              L.b64decode-b64encode (d.data_nonce ++ ciphertext),
              take_nonce 12 d.dek_nonce wrapped nonce_size,
              drop_nonce 12 d.dek_nonce wrapped nonce_size,
              unwraps,
              take_nonce 12 d.data_nonce ciphertext data_size,
              drop_nonce 12 d.data_nonce ciphertext data_size,
            )
            opens,
      )
