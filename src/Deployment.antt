-- ===== src/Deployment.antt =====
-- The server and the SDK together: app/services/issuance.py and app/services/crl.py of
-- Project-source/forge-server on one side, verify_offline of verifier-sdk/python/forge_verifier on the other.
pub mod Reading
use mathlib.Core.Option.{some-injective}
use navtra_license.Prelude.{
  ℕ, ◌<◌, ◌≡◌, ◌≢◌, refl, sym, ◌∙◌, ap, subst, Bool, true, false, List, [], ◌∷◌, Option, none, some,
  String, arith, All, filter_by, nat_eq, option_eq, contains, ◌==◌, string_eq, if◌then◌else◌,
  Bool-cases, inl, inr, Result, ok, err,
}
use navtra_license.Models.{
  License, Customer, Product, offline, master, SigningKey, Status, status_eq,
}
use navtra_license.World.{World, one_or_none}
use navtra_license.Audit.{Ctx}
use navtra_license.Licensing.Base64.Laws.{IsByte}
use navtra_license.Licensing.Token.{
  Dict, Json, str, null, get, Codec, build_forge_blob, parse_and_verify, sdk_parse_and_verify,
}
use navtra_license.Licensing.Token.Laws.{parse_and_verify-build_forge_blob, sdk_parse_and_verify-eq}
use navtra_license.Sdk.Verifier.{
  Iso, Request, Verdict, verdict, revoked, unlocked, verify_offline, after_signature, check_payload,
  is_revoked, listed, mismatched, is_text, parse_value, parse_dt, check_term,
}
use navtra_license.Services.External.{External, Settings}
use navtra_license.Services.Keys.{get_active, decrypt_private}
use navtra_license.Services.Crl.{revoked_ids}
use navtra_license.Services.Licenses.{has_id, revoke, delete_license}
use navtra_license.Services.Licenses.Laws.{revoke-delete_license-listed}
use navtra_license.Services.Issuance.{Fresh, Terms, build_payload, sealed_blob, issue_offline}
use navtra_license.Services.Issuance.Laws.{Sealed, issue_offline-Sealed}
use Reading.{
  ReadsBack, checked, Pair, ReadsTimes, verify_sealed, payload_fields, check_fields, in_term,
}

module _ (X : External) (S : Settings) (I : Iso) where
  -- An offline license as it was issued, in a product that embeds the public half of the key that
  -- signed it, without saved state.
  module _ {R : Type 0} where
    pub record Deployed (deployment_id : String) (w w' : World R) (lic : License) (r : Request)
        : Type 0 where
      pub issued : Sealed X S deployment_id w w' lic
      pub pair : Pair X issued.private r.master_public_pem
      pub installed : lic.offline_blob ≡ some r.blob
      pub host : r.local_fingerprint ≡ deployment_id
      pub no_state : r.state ≡ none

  module _ {R : Type 0} where
    -- What the product says of a deployed license.
    verdict_of :
        ReadsTimes X I
        → (deployment_id : String) (w w' : World R) (lic : License) (r : Request)
        → ReadsBack X S lic
        → (d : Deployed deployment_id w w' lic r)
        → (read : Dict) × ((verify_offline I X.codec r).verdict ≡ (
            if contains r.revoked_license_ids (X.uuid_text lic.license_id)
            then some (verdict revoked "crl" read)
            else some (check_term r.now read (some d.issued.until))))
    verdict_of times deployment_id w w' lic r codec d =
        let sealed = d.issued in
        let in_check = checked X S I in
        let (hard, bound, named, ends) =
          payload_fields X S I lic sealed.customer sealed.product sealed.key.key_id deployment_id
            sealed.until sealed.is_hard sealed.bound sealed.ends in
        let same = some-injective _ _ (sym d.installed ∙ sealed.blob) in
        let (read, alike, verdict_is) =
          verify_sealed X S I lic sealed.customer sealed.product sealed.key.key_id sealed.private r
            codec d.pair same d.no_state in
        (
          read,
          verdict_is
              ∙ check_fields X S I times r read (X.uuid_text lic.license_id) sealed.until
                  (alike "binding" (str "hard") in_check.0 ∙ hard)
                  (alike "bound_fingerprint" null in_check.1 ∙ bound ∙ ap str (sym d.host))
                  (alike "license_id" null in_check.2 ∙ named)
                  (alike "active_until" null in_check.3 ∙ ends),
        )

    -- The product's key file belongs to the master key that is active.
    abbrev pub Embeds : World R → String → Type 0
    Embeds w pem =
        (key : SigningKey) (private : String)
        → get_active master w.db ≡ some key
        → decrypt_private X S key ≡ some private
        → Pair X private pem

    deploy :
        (f : Fresh) (t : Terms) (deployment_id : String) (cluster_id : Option String)
        (actor_id : Option ℕ) (ctx : Ctx) (w w' : World R) (lic : License) (r : Request)
        → issue_offline X S f t deployment_id cluster_id actor_id ctx w ≡ (ok lic, w')
        → Embeds w r.master_public_pem
        → lic.offline_blob ≡ some r.blob
        → r.local_fingerprint ≡ deployment_id
        → r.state ≡ none
        → Deployed deployment_id w w' lic r
    deploy f t deployment_id cluster_id actor_id ctx w w' lic r e embeds installed host fresh =
        let sealed =
          issue_offline-Sealed X S f t deployment_id cluster_id actor_id ctx w w' lic e in
        record {
          issued = sealed;
          pair = embeds sealed.key sealed.private sealed.active sealed.decrypts;
          installed = installed;
          host = host;
          no_state = fresh;
        }

    -- What `issue_offline` returns unlocks the product: on the host it is bound to, with a key file that
    -- belongs to the active master key, a codec and ISO times that read back what they write, no saved
    -- state, and the id not among the revoked ones, `verify_offline` gives an unlocking verdict at
    -- every time before the end of the license.
    pub issue_offline-unlocked :
        ReadsTimes X I
        → (f : Fresh) (t : Terms) (deployment_id : String) (cluster_id : Option String)
          (actor_id : Option ℕ) (ctx : Ctx) (w w' : World R) (lic : License) (r : Request)
          (until : ℕ)
        → issue_offline X S f t deployment_id cluster_id actor_id ctx w ≡ (ok lic, w')
        → ReadsBack X S lic
        → Embeds w r.master_public_pem
        → lic.offline_blob ≡ some r.blob
        → r.local_fingerprint ≡ deployment_id
        → r.state ≡ none
        → contains r.revoked_license_ids (X.uuid_text lic.license_id) ≡ false
        → lic.active_until ≡ some until
        → r.now < until
        → (v : Verdict) × ((verify_offline I X.codec r).verdict ≡ some v)
          × (unlocked v.status ≡ true)
    issue_offline-unlocked times f t deployment_id cluster_id actor_id ctx w w' lic r until e codec
          embeds installed host fresh clean ends early =
        let d =
          deploy f t deployment_id cluster_id actor_id ctx w w' lic r e embeds installed host
            fresh in
        let (read, is) = verdict_of times deployment_id w w' lic r codec d in
        let same : d.issued.until ≡ until = some-injective _ _ (sym d.issued.ends ∙ ends) in
        (
          check_term r.now read (some d.issued.until),
          is ∙ rw clean refl,
          in_term X S I r.now d.issued.until read (subst (λ n. r.now < n) (sym same) early),
        )

    -- An issued offline license that is stored, not yet revoked and without a revocation row is
    -- revoked, and then `delete_license` is called with any id: with the revoked ids that the next list
    -- of the tables carries, `verify_offline` of its blob is `revoked` at every time, on the host it is
    -- bound to, with a key file of the active master key, a codec and ISO times that read back what
    -- they write, and no saved state.
    pub revoke-verify_offline :
        ReadsTimes X I
        → (f : Fresh) (t : Terms) (deployment_id : String) (cluster_id : Option String)
          (actor_id : Option ℕ) (ctx : Ctx) (w w' : World R) (lic : License) (r : Request)
        → issue_offline X S f t deployment_id cluster_id actor_id ctx w ≡ (ok lic, w')
        → ReadsBack X S lic
        → Embeds w r.master_public_pem
        → lic.offline_blob ≡ some r.blob
        → r.local_fingerprint ≡ deployment_id
        → r.state ≡ none
        → (now : ℕ) (text reason text2 : String) (v : World R) {id : ℕ} {row : License}
        → X.parse_uuid text ≡ some id
        → one_or_none (filter_by (has_id id) v.db.licenses) ≡ ok (some row)
        → row.license_id ≡ lic.license_id
        → (row.status == Status.revoked) ≡ false
        → one_or_none (filter_by (λ x. x.license_id == some row.id) v.db.revocations) ≡ ok none
        → row.mode ≡ offline
        → r.revoked_license_ids
          ≡ revoked_ids
              (delete_license X text2 actor_id ctx
                (revoke X now text reason actor_id ctx v).1).1.committed
        → (read : Dict) × ((verify_offline I X.codec r).verdict ≡ some (verdict revoked "crl" read))
    revoke-verify_offline times f t deployment_id cluster_id actor_id ctx w w' lic r e codec embeds
          installed host fresh now text reason text2 v {id} {row} parsed found same live clean mode
          imported =
        let d =
          deploy f t deployment_id cluster_id actor_id ctx w w' lic r e embeds installed host
            fresh in
        let (read, is) = verdict_of times deployment_id w w' lic r codec d in
        let named =
          revoke-delete_license-listed X now text reason actor_id ctx v text2 actor_id ctx parsed
            found live clean mode in
        let in_list : contains r.revoked_license_ids (X.uuid_text lic.license_id) ≡ true =
          ap (λ n. contains r.revoked_license_ids (X.uuid_text n)) (sym same)
          ∙ ap (λ ids. contains ids (X.uuid_text row.license_id)) imported
          ∙ named in
        (read, is ∙ rw in_list refl)
