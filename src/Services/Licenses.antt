-- ===== src/Services/Licenses.antt =====
-- `revoke` of app/services/issuance.py, and `delete_license` of app/api/admin/v1/licenses.py, in
-- Project-source/forge-server.
pub mod Laws
use navtra_license.Prelude.{
  ℕ, Bool, ◌&&◌, not, List, [], ◌∷◌, ◌++◌, Option, none, some, String, validation_failed,
  resource_not_found, system_internal_error, or_raise, is_some, is_none, filter_by, update_where,
  contains, map, ◌==◌, nat_eq, option_eq, string_eq, if◌then◌else◌,
}
use navtra_license.Models.{License, Binding, Revocation, Status, status_eq}
use navtra_license.World.{M, Db, ◌>>=◌, ◌>>◌, pure, lift, raise, modify, commit, select_one}
use navtra_license.Audit.{Ctx, Event, log}
use navtra_license.Services.External.{External}

-- `BaseRepository.get`
abbrev pub has_id : ℕ → License → Bool
has_id id l = l.id == id && is_none l.deleted_at

abbrev pub license_event : (X : External) → String → License → Option ℕ → Option String → Event
license_event X action lic actor_id reason = record {
  action = action;
  result = "success";
  actor_id = actor_id;
  resource_type = some "license";
  resource_id = some (X.uuid_text lic.license_id);
  reason = reason;
  metadata = [];
}

-- `reason or None`
abbrev pub or_none : String → Option String
or_none s = if s == "" then none else some s

-- The columns that `revoke` assigns.
abbrev pub revoked_at : ℕ → String → License → License
revoked_at now reason l = record l {
  status = Status.revoked;
  revoked_at = some now;
  revoke_reason = some reason;
}

abbrev pub revocation_of : (X : External) → License → String → Revocation
revocation_of X lic reason = record {
  license_id = some lic.id;
  license_public_id = some (X.uuid_text lic.license_id);
  mode = some lic.mode;
  reason = some reason;
  crl_version = none;
}

-- `DELETE FROM licenses` with what the foreign keys do: ON DELETE CASCADE for bindings, leases and
-- alerts (a lease also falls with its binding), SET NULL for revocations.
unfoldable pub delete_row : ℕ → Db → Db
delete_row id db = record db {
  licenses = filter_by (λ l. not (l.id == id)) db.licenses;
  bindings = filter_by (λ b. not (b.license_id == id)) db.bindings;
  leases =
      filter_by
        (λ l.
          not (l.license_id == id)
          && not (
              contains (map (λ b. b.id) (filter_by (λ b. b.license_id == id) db.bindings))
                l.binding_id))
        db.leases;
  clone_alerts = filter_by (λ a. not (a.license_id == id)) db.clone_alerts;
  revocations =
      update_where (λ r. r.license_id == some id) (λ r. record r { license_id = none })
        db.revocations;
}

module _ (X : External) {R : Type 0} where
  -- `if not await self.revocations.get_by_license(lic.id): self.db.add(Revocation(…))`
  unfoldable pub add_revocation : License → String → M R (Unit {0})
  add_revocation lic reason = do
    row ← select_one (λ db. db.revocations) (λ r. r.license_id == some lic.id)
    modify λ db. record db {
      revocations =
          if is_none row
          then db.revocations ++ (revocation_of X lic reason ∷ [])
          else db.revocations;
    }

  -- `revoke` from the change of the status on.
  unfoldable pub revoke_row : ℕ → License → String → Option ℕ → Ctx → M R License
  revoke_row now lic reason actor_id ctx = do
    modify λ db. record db {
      licenses = update_where (λ l. l.id == lic.id) (revoked_at now reason) db.licenses;
    }
    add_revocation lic reason
    log (license_event X "license.revoke" lic actor_id (or_none reason)) ctx
    commit
    pure (revoked_at now reason lic)

  -- `revoke`, at the instant `now`
  unfoldable pub revoke : ℕ → String → String → Option ℕ → Ctx → M R License
  revoke now license_db_id reason actor_id ctx = do
    id ← lift (or_raise (X.parse_uuid license_db_id) validation_failed)
    row ← select_one (λ db. db.licenses) (has_id id)
    lic ← lift (or_raise row resource_not_found)
    if lic.status == Status.revoked then pure lic else revoke_row now lic reason actor_id ctx

  -- `delete_license`: an id that is no UUID is an unhandled `ValueError`.
  unfoldable pub delete_license : String → Option ℕ → Ctx → M R (Unit {0})
  delete_license license_id actor_id ctx = do
    id ← lift (or_raise (X.parse_uuid license_id) system_internal_error)
    row ← select_one (λ db. db.licenses) (has_id id)
    lic ← lift (or_raise row resource_not_found)
    modify (delete_row lic.id)
    log (license_event X "license.delete" lic actor_id none) ctx
    commit
