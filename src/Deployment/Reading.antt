-- ===== src/Deployment/Reading.antt =====
-- How verify_offline reads the blob of an issued license: the documented behaviour of the codec, of
-- Ed25519 and of ISO times that it rests on, and the fields of the payload.
use navtra_license.Prelude.{
  ℕ, ◌<◌, ◌≡◌, ◌≢◌, refl, ◌∙◌, ap, true, false, List, [], ◌∷◌, none, some, String, arith, All,
  nat_eq, option_eq, contains, string_eq, if◌then◌else◌, Bool-cases, inl, inr,
}
use navtra_license.Models.{License, Customer, Product, status_eq}
use navtra_license.Licensing.Base64.Laws.{IsByte}
use navtra_license.Licensing.Token.{
  Dict, Json, str, null, get, build_forge_blob, sdk_parse_and_verify,
}
use navtra_license.Licensing.Token.Laws.{parse_and_verify-build_forge_blob, sdk_parse_and_verify-eq}
use navtra_license.Sdk.Verifier.{
  Iso, Request, verdict, revoked, unlocked, verify_offline, after_signature, check_payload,
  is_revoked, listed, mismatched, is_text, parse_value, parse_dt, check_term,
}
use navtra_license.Services.External.{External, Settings}
use navtra_license.Services.Issuance.{build_payload}

module _ (X : External) where
  -- The public key in the product belongs to the private key: what that signs, it verifies.
  pub record Pair (private pem : String) : Type 0 where
    pub key : X.codec.PublicKey
    pub loads : X.codec.load_pem pem ≡ some key
    pub verifies : (m : List ℕ) → X.codec.verifies key (X.sign private m) m ≡ true
    pub bytes : (m : List ℕ) → All IsByte (X.sign private m)

module _ (X : External) (I : Iso) where
  -- `fromisoformat` reads what `isoformat` writes.
  pub record ReadsTimes : Type 0 where
    pub parse-isoformat : (t : ℕ) → I.parse (X.isoformat t) ≡ some t
    pub isoformat_ne : (t : ℕ) → X.isoformat t ≢ ""

-- The fields that the offline check reads.
abbrev pub checked_fields : List String
checked_fields = "binding" ∷ "bound_fingerprint" ∷ "license_id" ∷ "active_until" ∷ []

module _ (X : External) (S : Settings) where
  -- The JSON codec writes bytes, and reads a payload of the license back with the fields that the
  -- check reads.
  pub record ReadsBack (lic : License) : Type 0 where
    pub reads :
        (c : Customer) (p : Product) (issuer : String)
        → let d = build_payload X S lic c p issuer in
          (read : Dict) × (X.codec.loads (X.codec.dumps d) ≡ some read)
          × ((key : String) (default : Json)
              → contains checked_fields key ≡ true
              → get read key default ≡ get d key default)
    pub bytes : (d : Dict) → All IsByte (X.codec.dumps d)

module _ (X : External) (S : Settings) (I : Iso) where
  verify_signed :
      (r : Request) (read : Dict)
      → sdk_parse_and_verify X.codec r.blob r.master_public_pem ≡ some (true, read)
      → r.state ≡ none
      → (verify_offline I X.codec r).verdict ≡ check_payload I r read
  unfolding verify_offline after_signature
  verify_signed r read parsed fresh = ground arith

  pub verify_sealed :
      (lic : License) (c : Customer) (p : Product) (issuer private : String) (r : Request)
      → ReadsBack X S lic
      → Pair X private r.master_public_pem
      → r.blob
        ≡ build_forge_blob X.codec
            (build_payload X S lic c p issuer)
            (X.sign private (X.codec.dumps (build_payload X S lic c p issuer)))
      → r.state ≡ none
      → (read : Dict) × ((key : String) (default : Json)
          → contains checked_fields key ≡ true
          → get read key default ≡ get (build_payload X S lic c p issuer) key default)
        × ((verify_offline I X.codec r).verdict ≡ check_payload I r read)
  verify_sealed lic c p issuer private r law pair same fresh =
      let payload = build_payload X S lic c p issuer in
      let (read, loaded, alike) = law.reads c p issuer in
      let checked =
        parse_and_verify-build_forge_blob X.codec payload (X.sign private (X.codec.dumps payload))
          r.master_public_pem pair.key loaded (law.bytes payload) (pair.bytes _) pair.loads in
      let parsed : sdk_parse_and_verify X.codec r.blob r.master_public_pem ≡ some (true, read) =
        ap (λ b. sdk_parse_and_verify X.codec b r.master_public_pem) same
        ∙ sdk_parse_and_verify-eq X.codec _ r.master_public_pem
        ∙ checked
        ∙ ap (λ v. some (v, read)) (pair.verifies _) in
      (read, alike, verify_signed r read parsed fresh)

  -- They are among the checked ones.
  pub checked :
      (contains checked_fields "binding" ≡ true)
      × (contains checked_fields "bound_fingerprint" ≡ true)
      × (contains checked_fields "license_id" ≡ true)
      × (contains checked_fields "active_until" ≡ true)
  unfolding string_eq
  checked = (refl, refl, refl, refl)

  pub payload_fields :
      (lic : License) (c : Customer) (p : Product) (issuer deployment_id : String) (until : ℕ)
      → lic.binding ≡ "hard"
      → lic.bound_fingerprint ≡ some deployment_id
      → lic.active_until ≡ some until
      → let payload = build_payload X S lic c p issuer in
        (get payload "binding" (str "hard") ≡ str "hard")
        × (get payload "bound_fingerprint" null ≡ str deployment_id)
        × (get payload "license_id" null ≡ str (X.uuid_text lic.license_id))
        × (get payload "active_until" null ≡ str (X.isoformat until))
  unfolding build_payload get string_eq
  payload_fields lic c p issuer deployment_id until hard bound ends =
      (ap str hard, rw bound refl, refl, rw ends refl)

  bound_here :
      (read : Dict) (fingerprint : String)
      → get read "binding" (str "hard") ≡ str "hard"
      → get read "bound_fingerprint" null ≡ str fingerprint
      → mismatched read fingerprint ≡ false
  unfolding mismatched is_text
  bound_here read fingerprint hard bound = ground arith

  listed_id :
      (read : Dict) (ids : List String) (id : String)
      → get read "license_id" null ≡ str id
      → is_revoked read ids ≡ some (contains ids id)
  unfolding is_revoked listed
  listed_id read [] id named = refl
  listed_id read (i ∷ is) id named = rw named refl

  read_end :
      ReadsTimes X I
      → (v : Json) (until : ℕ) → v ≡ str (X.isoformat until)
      → parse_value I v ≡ some (some until)
  unfolding parse_value parse_dt
  read_end law v until ends =
      rw (ends, law.parse-isoformat until) (ground (arith, law.isoformat_ne until))

  -- What the SDK makes of a payload with these fields.
  pub check_fields :
      ReadsTimes X I
      → (r : Request) (read : Dict) (id : String) (until : ℕ)
      → get read "binding" (str "hard") ≡ str "hard"
      → get read "bound_fingerprint" null ≡ str r.local_fingerprint
      → get read "license_id" null ≡ str id
      → get read "active_until" null ≡ str (X.isoformat until)
      → check_payload I r read ≡ (
          if contains r.revoked_license_ids id
          then some (verdict revoked "crl" read)
          else some (check_term r.now read (some until)))
  unfolding check_payload
  check_fields law r read id until hard bound named ends =
      let here = bound_here read r.local_fingerprint hard bound in
      let found = listed_id read r.revoked_license_ids id named in
      let end = read_end law (get read "active_until" null) until ends in
      elim (Bool-cases (contains r.revoked_license_ids id)) [
        | inl e ↦ rw (here, found, e) refl
        | inr e ↦ rw (here, found, e, end) refl
      ]

  pub in_term :
      (now until : ℕ) (read : Dict)
      → now < until
      → unlocked (check_term now read (some until)).status ≡ true
  unfolding check_term unlocked
  in_term now until read early = ground arith
