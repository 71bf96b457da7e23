-- ===== src/Sdk/Facade/Laws.antt =====
-- What the environment of a shipped product can change: nothing of the offline verdict.
use navtra_license.Prelude.{
  ℕ, ◌≡◌, ◌↔◌, [], refl, sym, ap, ◌∙◌, true, false, List, ◌∷◌, Option, none, some, String, arith,
  inl, inr, Option-cases, Bool-cases, ◌==◌, string_eq,
}
use navtra_license.Licensing.Token.{Codec, Dict, Json, str, strs, null, get, sdk_parse_and_verify}
use navtra_license.Sdk.Host.{Host, filled}
use navtra_license.Sdk.Fingerprint.{dev_env, in_dev, deployment_fingerprint}
use navtra_license.Sdk.Fingerprint.Laws.{inject, in_dev-inject, injected_uid}
use navtra_license.Sdk.Verifier.{Iso, Verdict}
use navtra_license.Sdk.Facade.{
  EmbeddedKeys, ForgeVerifier, load_keys, key_pair, new_verifier, verify_here, revoked_from_crl,
  crl_entries, string_list,
}

baked_keys :
    (parse : String → Option EmbeddedKeys) (h : Host) (baked : Option EmbeddedKeys)
    → in_dev h ≡ false
    → load_keys parse h baked ≡ baked
unfolding load_keys in_dev
baked_keys parse h baked off = elim (Option-cases (filled (h.env dev_env))) [
  | inl unset_ ↦ rw (load_keys, unset_) refl
  | inr (v, set_) ↦ absurd (ground (arith, rw (in_dev, set_) at off))
]

module _ (I : Iso) (C : Codec) (sha256 : String → String) (blob : List ℕ) (revoked : List String)
    (now : ℕ) where
  -- The offline check of a verifier, where it could be made.
  abbrev pub verdict_of_new : Option ForgeVerifier → Option (Option Verdict)
  verdict_of_new none = none
  verdict_of_new (some v) = some (verify_here I C v blob revoked now)

  -- The same license for the same keys on a host with the same fingerprint.
  same_fingerprint :
      (keys : Option EmbeddedKeys) (edge_url : Option String) (path first second : String)
      (g h : Host)
      → deployment_fingerprint sha256 g ≡ deployment_fingerprint sha256 h
      → verdict_of_new (new_verifier sha256 g keys edge_url path first second)
        ≡ verdict_of_new (new_verifier sha256 h keys edge_url path first second)
  unfolding new_verifier verify_here
  same_fingerprint keys edge_url path first second g h same = elim (Option-cases (key_pair keys)) [
    | inl missing ↦ rw (new_verifier, missing) refl
    | inr ((m, e), there) ↦ rw (new_verifier, there, same) refl
  ]

  -- Outside of development, whatever the two variables of the environment say that would replace the
  -- deployment uid and the embedded keys, the verdict on a license is the same.
  pub inject-verdict :
      (parse : String → Option EmbeddedKeys) (baked : Option EmbeddedKeys)
      (edge_url : Option String) (path first second : String) (uid keys : Option String) (h : Host)
      → in_dev h ≡ false
      → verdict_of_new (
          new_verifier sha256
            (inject uid keys h)
            (load_keys parse (inject uid keys h) baked)
            edge_url
            path
            first
            second)
        ≡ verdict_of_new
            (new_verifier sha256 h (load_keys parse h baked) edge_url path first second)
  inject-verdict parse baked edge_url path first second uid keys h off =
      ap
        (λ k. verdict_of_new (new_verifier sha256 (inject uid keys h) k edge_url path first second))
        (baked_keys parse (inject uid keys h) baked (in_dev-inject uid keys h ∙ off))
      ∙ (same_fingerprint baked edge_url path first second (inject uid keys h) h
            (injected_uid sha256 uid keys h off).0
          ∙ ap (λ k. verdict_of_new (new_verifier sha256 h k edge_url path first second))
              (sym (baked_keys parse h baked off)))

string_list_inv : (list : Json) (ids : List String) → string_list list ≡ some ids → list ≡ strs ids
string_list_inv (strs ss) ids e = ground arith
string_list_inv null ids e = absurd (ground arith)
string_list_inv (str t) ids e = absurd (ground arith)
string_list_inv (Json.num n) ids e = absurd (ground arith)
string_list_inv (Json.pairs ps) ids e = absurd (ground arith)
string_list_inv (Json.other t) ids e = absurd (ground arith)

-- The entries of a payload, where there are any, are those of its `revoked`, and its `kind` is `crl`.
entries_inv :
    (I : Iso) (C : Codec) (payload : Dict) (id : String) (ids : List String) (j : Json)
    → get payload "kind" null ≡ j
    → crl_entries I C payload ≡ some (id ∷ ids)
    → (j ≡ str "crl") × (get payload "revoked" (strs []) ≡ strs (id ∷ ids))
unfolding crl_entries
entries_inv I C payload id ids (str kind) k e = elim (Bool-cases (kind == "crl")) [
  | inl is ↦
      let same : kind ≡ "crl" = ground arith in
      (ap str same, string_list_inv _ (id ∷ ids) (rw (crl_entries, k, is) at e))
  | inr other ↦ absurd (ground (arith, rw (crl_entries, k, other) at e))
]
entries_inv I C payload id ids null k e = absurd (ground (arith, rw (crl_entries, k) at e))
entries_inv I C payload id ids (Json.num n) k e = absurd (ground (arith, rw (crl_entries, k) at e))
entries_inv I C payload id ids (strs n) k e = absurd (ground (arith, rw (crl_entries, k) at e))
entries_inv I C payload id ids (Json.pairs n) k e =
    absurd (ground (arith, rw (crl_entries, k) at e))
entries_inv I C payload id ids (Json.other n) k e =
    absurd (ground (arith, rw (crl_entries, k) at e))

entries_of :
    (I : Iso) (C : Codec) (payload : Dict) (ids : List String)
    → get payload "kind" null ≡ str "crl"
    → get payload "revoked" (strs []) ≡ strs ids
    → crl_entries I C payload ≡ some ids
unfolding crl_entries string_eq
entries_of I C payload ids k l = rw (crl_entries, k, l) refl

pub revoked_from_crl-signed :
    (I : Iso) (C : Codec) (v : ForgeVerifier) (crl_blob : List ℕ) (id : String) (ids : List String)
    → (revoked_from_crl I C v crl_blob ≡ some (id ∷ ids)) ↔ (
        (payload : Dict) × (sdk_parse_and_verify C crl_blob v.master_pub ≡ some (true, payload))
        × (get payload "kind" null ≡ str "crl")
        × (get payload "revoked" (strs []) ≡ strs (id ∷ ids)))
unfolding revoked_from_crl
revoked_from_crl-signed I C v crl_blob id ids = (listed, answered)
  where
    listed :
        revoked_from_crl I C v crl_blob ≡ some (id ∷ ids)
        → (payload : Dict) × (sdk_parse_and_verify C crl_blob v.master_pub ≡ some (true, payload))
          × (get payload "kind" null ≡ str "crl")
          × (get payload "revoked" (strs []) ≡ strs (id ∷ ids))
    listed e = elim (Option-cases (sdk_parse_and_verify C crl_blob v.master_pub)) [
      | inl bad ↦ absurd (ground (arith, rw (revoked_from_crl, bad) at e))
      | inr ((valid, payload), good) ↦ elim (Bool-cases valid) [
        | inr unsigned ↦ absurd (ground (arith, rw (revoked_from_crl, good, unsigned) at e))
        | inl signed ↦
            let (kind, list) =
              entries_inv I C payload id ids (get payload "kind" null) refl
                (rw (revoked_from_crl, good, signed) at e) in
            (payload, rw signed at good, kind, list)
      ]
    ]

    answered :
        ((payload : Dict) × (sdk_parse_and_verify C crl_blob v.master_pub ≡ some (true, payload))
          × (get payload "kind" null ≡ str "crl")
          × (get payload "revoked" (strs []) ≡ strs (id ∷ ids)))
        → revoked_from_crl I C v crl_blob ≡ some (id ∷ ids)
    answered (payload, good, kind, list) =
        rw (revoked_from_crl, good) (entries_of I C payload (id ∷ ids) kind list)
