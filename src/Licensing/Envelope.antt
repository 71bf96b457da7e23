-- ===== src/Licensing/Envelope.antt =====
-- `_load_kek`, `encrypt_secret` and `decrypt_secret` of Project-source/forge-server/app/core/crypto.py,
-- over bytes and texts as code points. A raised error is none. AES-GCM is that of `cryptography`, and
-- base64 that of the standard library.
pub mod Laws
use navtra_license.Prelude.{
  ℕ, List, [], ◌∷◌, ◌++◌, Option, none, some, ◌==◌, nat_eq, if◌then◌else◌, length, take, drop,
}
use navtra_license.Licensing.Token.{◌>>=◌}

-- `AESGCM(key)`: `encrypt` and `decrypt` of a key and a nonce, without associated data. The constructor
-- raises on a key of a wrong length, and `decrypt` where the tag does not fit.
pub record Aead : Type 0 where
  pub encrypt : List ℕ → List ℕ → List ℕ → Option (List ℕ)
  pub decrypt : List ℕ → List ℕ → List ℕ → Option (List ℕ)

-- `base64.b64encode(…).decode()` and `base64.b64decode`
pub record Base64Text : Type 0 where
  pub b64encode : List ℕ → List ℕ
  pub b64decode : List ℕ → Option (List ℕ)

-- What `encrypt_secret` draws: the key of the record and the two nonces.
pub record EnvelopeDraws : Type 0 where
  pub dek : List ℕ
  pub data_nonce : List ℕ
  pub dek_nonce : List ℕ

module _ (A : Aead) (B : Base64Text) where
  abbrev sized_kek : List ℕ → Option (List ℕ)
  sized_kek kek = if length kek == 32 then some kek else none

  -- `_load_kek`
  unfoldable pub load_kek : List ℕ → Option (List ℕ)
  load_kek [] = none
  load_kek (c ∷ kek_b64) = do kek ← B.b64decode (c ∷ kek_b64); sized_kek kek

  unfoldable pub encrypt_secret : EnvelopeDraws → List ℕ → List ℕ → Option (List ℕ × List ℕ)
  encrypt_secret d plaintext kek_b64 = do
    kek ← load_kek kek_b64
    ciphertext ← A.encrypt d.dek d.data_nonce plaintext
    wrapped ← A.encrypt kek d.dek_nonce d.dek
    some (B.b64encode (d.data_nonce ++ ciphertext), B.b64encode (d.dek_nonce ++ wrapped))

  unfoldable pub decrypt_secret : List ℕ → List ℕ → List ℕ → Option (List ℕ)
  decrypt_secret ciphertext_b64 wrapped_dek_b64 kek_b64 = do
    kek ← load_kek kek_b64
    wrapped ← B.b64decode wrapped_dek_b64
    dek ← A.decrypt kek (take 12 wrapped) (drop 12 wrapped)
    blob ← B.b64decode ciphertext_b64
    A.decrypt dek (take 12 blob) (drop 12 blob)
