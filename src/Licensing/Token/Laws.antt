-- ===== src/Licensing/Token/Laws.antt =====
-- Tokens read back as they were built, and both readers agree.
use mathlib.Core.Option.{some-injective}
use navtra_license.Prelude.{
  ℕ, ◌<◌, ◌≡◌, refl, ap, ◌∙◌, true, false, Option, none, some, List, [], ◌∷◌, ◌++◌, String, nat_eq,
  arith, All, All-append,
}
use navtra_license.Licensing.Base64.{b64u_encode, b64u_decode, rstrip}
use navtra_license.Licensing.Base64.Laws.{
  IsByte, IsPlain, b64u_encode-IsPlain, b64u_decode-b64u_encode,
}
use navtra_license.Licensing.Token.{
  Codec, Dict, is_space, strip, split_dots, two_parts, build_forge_blob, verify_ed25519,
  parse_and_verify, sdk_parse_and_verify, ◌>>=◌,
}

abbrev NotSpace : ℕ → Type 0
NotSpace c = (32 < c) × (c < 128)

is_space-NotSpace : (c : ℕ) → NotSpace c → is_space c ≡ false
unfolding nat_eq
is_space-NotSpace c h = ground arith

rstrip_none : (cs : List ℕ) → All NotSpace cs → rstrip is_space cs ≡ cs
unfolding rstrip
rstrip_none [] h = refl
rstrip_none (c ∷ []) (h, hs) = rw (is_space-NotSpace c h)
rstrip_none (c ∷ d ∷ ds) (h, hs) = rw (rstrip_none (d ∷ ds) hs)

strip_none : (cs : List ℕ) → All NotSpace cs → strip cs ≡ cs
unfolding strip
strip_none [] h = refl
strip_none (c ∷ cs) h = rw (rstrip_none (c ∷ cs) h, is_space-NotSpace c h.0)

split_dots_none : (cs : List ℕ) → All IsPlain cs → split_dots cs ≡ cs ∷ []
unfolding split_dots
split_dots_none [] h = refl
split_dots_none (c ∷ cs) (h, hs) = ground (arith, split_dots_none cs hs)

split_dots-append :
    (cs ds : List ℕ) → All IsPlain cs → split_dots (cs ++ (b'.' ∷ ds)) ≡ cs ∷ split_dots ds
unfolding split_dots nat_eq
split_dots-append [] ds h = refl
split_dots-append (c ∷ cs) ds (h, hs) = ground (arith, split_dots-append cs ds hs)

plain_NotSpace : (cs : List ℕ) → All IsPlain cs → All NotSpace cs
plain_NotSpace [] h = tt
plain_NotSpace (c ∷ cs) (h, hs) = ((h.0, h.1), plain_NotSpace cs hs)

bind_inv {ℓ κ} :
    {A : Type ℓ} {B : Type κ} (m : Option A) (f : A → Option B) {b : B}
    → (m >>= f) ≡ some b
    → (a : A) × (m ≡ some a) × (f a ≡ some b)
bind_inv none f e = cc
bind_inv (some a) f e = (a, refl, e)

module _ (C : Codec) where
  -- A token that was built from a payload and a signature, both written as bytes, reads back under a
  -- key file that loads as what the codec reads of the payload's canonical bytes, with the signature
  -- checked over those bytes.
  pub parse_and_verify-build_forge_blob :
      (payload : Dict) (signature : List ℕ) (pem : String) (key : C.PublicKey) {read : Dict}
      → C.loads (C.dumps payload) ≡ some read
      → All IsByte (C.dumps payload)
      → All IsByte signature
      → C.load_pem pem ≡ some key
      → parse_and_verify C (build_forge_blob C payload signature) pem
        ≡ some (C.verifies key signature (C.dumps payload), read)
  unfolding parse_and_verify build_forge_blob
  parse_and_verify-build_forge_blob payload signature pem key canonical hb hs loaded =
      let left = b64u_encode (C.dumps payload) in
      let right = b64u_encode signature in
      let plain_left = b64u_encode-IsPlain (C.dumps payload) hb in
      let plain_right = b64u_encode-IsPlain signature hs in
      rw (
        strip_none (left ++ (b'.' ∷ right)) (
            All-append NotSpace left (b'.' ∷ right) (plain_NotSpace left plain_left)
              (omega arith, plain_NotSpace right plain_right)),
        split_dots-append left right plain_left,
        split_dots_none right plain_right,
        b64u_decode-b64u_encode (C.dumps payload) hb,
        b64u_decode-b64u_encode signature hs,
        canonical,
        loaded,
      )

  -- The SDK's reader and the server's agree on every blob and every key file, errors included.
  pub sdk_parse_and_verify-eq :
      (blob : List ℕ) (pem : String) → sdk_parse_and_verify C blob pem ≡ parse_and_verify C blob pem
  unfolding sdk_parse_and_verify parse_and_verify
  sdk_parse_and_verify-eq blob pem = ground arith

  -- A payload is accepted as signed only if the signature that the blob carries verifies, under the
  -- given key, over the very bytes that the payload was read from.
  pub parse_and_verify_sound :
      (blob : List ℕ) (pem : String) (payload : Dict)
      → parse_and_verify C blob pem ≡ some (true, payload)
      → (bytes signature : List ℕ) × (key : C.PublicKey) × (C.loads bytes ≡ some payload)
        × (C.load_pem pem ≡ some key)
        × (C.verifies key signature bytes ≡ true)
  unfolding parse_and_verify verify_ed25519
  parse_and_verify_sound blob pem payload e =
      let (parts, _, e1) = bind_inv (two_parts (split_dots (strip blob))) _ e in
      let (bytes, _, e2) = bind_inv (b64u_decode parts.0) _ e1 in
      let (signature, _, e3) = bind_inv (b64u_decode parts.1) _ e2 in
      let (read, loaded, e4) = bind_inv (C.loads bytes) _ e3 in
      let (valid, checked, e5) = bind_inv (verify_ed25519 C pem bytes signature) _ e4 in
      let (key, opened, e6) = bind_inv (C.load_pem pem) _ checked in
      let same : (valid, read) ≡ (true, payload) = some-injective _ _ e5 in
      let hit : C.verifies key signature bytes ≡ valid = some-injective _ _ e6 in
      (bytes, signature, key, loaded ∙ ap (λ r. some r.1) same, opened, hit ∙ ap (λ r. r.0) same)
