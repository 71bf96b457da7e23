-- ===== src/Admin/Licenses.antt =====
-- app/api/admin/v1/licenses.py, crl.py and settings.py of Project-source/forge-server, each behind the
-- permission that its route asks for.
pub mod Laws
use navtra_license.Prelude.{
  ℕ, Bool, List, [], ◌∷◌, Option, none, some, String, is_none, filter_by, map, or_raise, ◌==◌,
  string_eq, resource_not_found, system_internal_error, key_not_found,
}
use navtra_license.Models.{License, SigningKey, CrlBundle, Mode, Status, Purpose}
use navtra_license.World.{M, Db, ◌>>=◌, ◌>>◌, pure, lift, query, select_one}
use navtra_license.Audit.{Ctx}
use navtra_license.Services.External.{External, Settings}
use navtra_license.Services.Repository.{newest_first, list_page}
use navtra_license.Services.Crl.{generate, get_latest_blob}
use navtra_license.Services.Issuance.{Terms, Fresh, issue_online, issue_offline}
use navtra_license.Services.Licenses.{has_id, revoke, delete_license}
use navtra_license.Admin.Permissions.P
use navtra_license.Admin.Sessions.{SessionStore, SessionSettings}
use navtra_license.Admin.Access.{
  CurrentUser, HttpRequest, audit_ctx, get_current_user, require_perm,
}

-- `_out`
pub record LicenseOut : Type 0 where
  pub id : String
  pub license_id : String
  pub customer_id : String
  pub product_id : String
  pub mode : Mode
  pub term_preset : String
  pub subscription : String
  pub active_from : ℕ
  pub active_until : Option ℕ
  pub status : Status
  pub binding : String
  pub seat_limit : ℕ
  pub seat_used : ℕ
  pub features : List String
  pub quotas : String
  pub issued_at : ℕ

pub record KeyOut : Type 0 where
  pub id : String
  pub key_id : String
  pub alg : String
  pub purpose : Purpose
  pub is_active : Bool
  pub created_at : String

-- The texts of an answer are there for the mode of the license that was issued.
pub record IssueOnlineOut : Type 0 where
  pub license_id : String
  pub online_code : Option String
  pub active_from : ℕ
  pub active_until : Option ℕ
  pub seat_limit : ℕ
  pub status : Status

pub record IssueOfflineOut : Type 0 where
  pub license_id : String
  pub offline_blob : Option (List ℕ)
  pub bound_fingerprint : Option String
  pub active_from : ℕ
  pub active_until : Option ℕ
  pub status : Status

abbrev pub online_out : External → License → IssueOnlineOut
online_out X l = record {
  license_id = X.uuid_text l.license_id;
  online_code = l.online_code;
  active_from = l.active_from;
  active_until = l.active_until;
  seat_limit = l.seat_limit;
  status = l.status;
}

abbrev pub offline_out : External → License → IssueOfflineOut
offline_out X l = record {
  license_id = X.uuid_text l.license_id;
  offline_blob = l.offline_blob;
  bound_fingerprint = l.bound_fingerprint;
  active_from = l.active_from;
  active_until = l.active_until;
  status = l.status;
}

-- `if not blob`
abbrev written_blob : Option (List ℕ) → Option (List ℕ)
written_blob none = none
written_blob (some []) = none
written_blob (some (c ∷ cs)) = some (c ∷ cs)

abbrev pub license_out : External → License → LicenseOut
license_out X l = record {
  id = X.uuid_text l.id;
  license_id = X.uuid_text l.license_id;
  customer_id = X.uuid_text l.customer_id;
  product_id = X.uuid_text l.product_id;
  mode = l.mode;
  term_preset = l.term_preset;
  subscription = l.subscription;
  active_from = l.active_from;
  active_until = l.active_until;
  status = l.status;
  binding = l.binding;
  seat_limit = l.seat_limit;
  seat_used = l.seat_used;
  features = l.features;
  quotas = l.quotas;
  issued_at = l.issued_at;
}

abbrev pub key_out : External → SigningKey → KeyOut
key_out X k = record {
  id = X.uuid_text k.id;
  key_id = k.key_id;
  alg = k.alg;
  purpose = k.purpose;
  is_active = k.is_active;
  created_at = X.isoformat k.created_at;
}

-- What `export_public` tells of a key.
pub record PublicKeyOut : Type 0 where
  pub key_id : String
  pub alg : String
  pub purpose : Purpose
  pub public_key : String

abbrev pub public_key_out : SigningKey → PublicKeyOut
public_key_out k = record {
  key_id = k.key_id;
  alg = k.alg;
  purpose = k.purpose;
  public_key = k.public_key;
}

module _ (X : External) (E : Settings) (S : SessionSettings) {R : Type 0} (T : SessionStore R) where
  -- A route with `user: CurrentUser = Depends(require_perm(permission))`, asked at the second `now`.
  unfoldable pub guarded : {A : Type 0} → String → (CurrentUser → M R A) → HttpRequest → ℕ → M R A
  guarded permission handler q now = do
    who ← get_current_user S T q.cookie now
    user ← lift (require_perm permission who)
    handler user

  unfoldable pub issue_online_route : Fresh → Terms → ℕ → HttpRequest → ℕ → M R IssueOnlineOut
  unfolding guarded
  issue_online_route f t seat_limit q now =
      guarded P.license_issue
        (λ user. do
          lic ← issue_online X E f t seat_limit (some user.user_id) (audit_ctx q)
          pure (online_out X lic))
        q now

  unfoldable pub issue_offline_route :
      Fresh → Terms → String → Option String → HttpRequest → ℕ → M R IssueOfflineOut
  unfolding guarded
  issue_offline_route f t deployment_id cluster_id q now =
      guarded P.license_issue
        (λ user. do
          lic ← issue_offline X E f t deployment_id cluster_id (some user.user_id) (audit_ctx q)
          pure (offline_out X lic))
        q now

  unfoldable pub list_licenses : ℕ → ℕ → HttpRequest → ℕ → M R (List LicenseOut × ℕ)
  unfolding guarded
  list_licenses page page_size q now =
      guarded P.license_read
        (λ user. query λ db.
          let answer =
            list_page (λ l. is_none l.deleted_at) (λ l. l.created_at) page page_size db.licenses in
          (map (license_out X) answer.0, answer.1))
        q now

  unfoldable pub get_license : String → HttpRequest → ℕ → M R LicenseOut
  unfolding guarded
  get_license license_id q now =
      guarded P.license_read
        (λ user. do
          id ← lift (or_raise (X.parse_uuid license_id) system_internal_error)
          row ← select_one (λ db. db.licenses) (has_id id)
          lic ← lift (or_raise row resource_not_found)
          pure (license_out X lic))
        q now

  unfoldable pub revoke_license :
      ℕ → String → String → HttpRequest → ℕ → M R (Status × Option String)
  unfolding guarded
  revoke_license at license_id reason q now =
      guarded P.license_revoke
        (λ user. do
          lic ← revoke X at license_id reason (some user.user_id) (audit_ctx q)
          pure (lic.status, elim lic.revoked_at [ none ↦ none | some t ↦ some (X.isoformat t) ]))
        q now

  unfoldable pub delete_license_route : String → HttpRequest → ℕ → M R (Unit {0})
  unfolding guarded
  delete_license_route license_id q now =
      guarded P.license_delete
        (λ user. delete_license X license_id (some user.user_id) (audit_ctx q)) q now

  unfoldable pub generate_crl : ℕ → (ℕ → String) → HttpRequest → ℕ → M R (ℕ × ℕ × List ℕ)
  unfolding guarded
  generate_crl at version_text q now =
      guarded P.crl_generate
        (λ user. do
          bundle ← generate X E at version_text (some user.user_id) (audit_ctx q)
          pure (bundle.version, bundle.entry_count, bundle.signed_blob))
        q now

  unfoldable pub latest_crl : HttpRequest → ℕ → M R (List ℕ)
  unfolding guarded
  latest_crl q now =
      guarded P.license_read
        (λ user. do blob ← get_latest_blob; lift (or_raise (written_blob blob) resource_not_found))
        q now

  unfoldable pub list_keys : HttpRequest → ℕ → M R (List KeyOut)
  unfolding guarded
  list_keys q now =
      guarded P.key_read
        (λ user. query λ db. map (key_out X) (
          newest_first (λ k. k.created_at) (filter_by (λ k. is_none k.deleted_at) db.signing_keys)))
        q now

  unfoldable pub export_public : String → HttpRequest → ℕ → M R PublicKeyOut
  unfolding guarded
  export_public key_id q now =
      guarded P.key_read
        (λ user. do
          row ← select_one (λ db. db.signing_keys) (λ k. k.key_id == key_id)
          k ← lift (or_raise row key_not_found)
          pure (public_key_out k))
        q now
