-- ===== src/Tests/Envelope.antt =====
-- The envelope with a cipher that prepends its key.
use navtra_license.Prelude.{
  ℕ, zero, ◌≡◌, refl, List, [], ◌∷◌, ◌++◌, Option, none, some, length, take, drop, ◌==◌, nat_eq,
  text_eq, if◌then◌else◌, arith, suc,
}
use navtra_license.Licensing.Envelope.{
  Aead, Base64Text, EnvelopeDraws, load_kek, encrypt_secret, decrypt_secret,
}
use navtra_license.Licensing.Envelope.Laws.{
  EnvelopeLaws, take_nonce, drop_nonce, decrypt_secret-encrypt_secret,
}

abbrev aead0 : Aead
aead0 = record {
  encrypt = λ key nonce plaintext. if length key == 32 then some (key ++ plaintext) else none;
  decrypt = λ key nonce sealed. if take 32 sealed == key then some (drop 32 sealed) else none;
}

abbrev strip : List ℕ → Option (List ℕ)
strip [] = none
strip (c ∷ bytes) = some bytes

abbrev base64_text0 : Base64Text
base64_text0 = record { b64encode = λ bytes. b'=' ∷ bytes; b64decode = strip }

laws0 : EnvelopeLaws aead0 base64_text0
laws0 = record {
  b64decode-b64encode = λ bytes. refl;
  decrypt-encrypt = λ key nonce plaintext key_size nonce_size. (
    key ++ plaintext,
    rw key_size (ground arith),
    rw (take_nonce 32 key plaintext key_size, drop_nonce 32 key plaintext key_size) (ground arith),
  );
}

abbrev bytes0 : ℕ → List ℕ
bytes0 zero = []
bytes0 (suc n) = n ∷ bytes0 n

abbrev draws0 : EnvelopeDraws
draws0 = record { dek = bytes0 32; data_nonce = bytes0 12; dek_nonce = bytes0 12 }

loads0 : load_kek aead0 base64_text0 (bytes0 33) ≡ some (bytes0 32)
unfolding load_kek nat_eq
loads0 = refl

envelope_example :
    (ciphertext wrapped : List ℕ) × (encrypt_secret aead0 base64_text0 draws0
        (7 ∷ 8 ∷ [])
        (bytes0 33)
      ≡ some (ciphertext, wrapped))
    × (decrypt_secret aead0 base64_text0 ciphertext wrapped (bytes0 33) ≡ some (7 ∷ 8 ∷ []))
envelope_example =
    decrypt_secret-encrypt_secret aead0 base64_text0 laws0 draws0 (7 ∷ 8 ∷ []) (bytes0 33)
      (bytes0 32) loads0 refl refl refl
