-- ===== src/Admin/Alerts.antt =====
-- app/api/admin/v1/clone_alerts.py of Project-source/forge-server.
use Prim.Native.String.{◌++◌ as ◌<>◌}
use navtra_license.Prelude.{
  ℕ, Bool, true, ◌&&◌, ◌||◌, not, List, [], ◌∷◌, ◌++◌, Option, none, some, String, codes, length,
  ltb, take, take_text, is_none, filter_by, map, update_where, or_raise, ◌==◌, nat_eq, string_eq,
  if◌then◌else◌, resource_not_found, system_internal_error,
}
use navtra_license.Models.{License, Binding, CloneAlert, Status, BindingStatus, Metadata, status_eq}
use navtra_license.World.{M, Db, ◌>>=◌, ◌>>◌, pure, lift, query, modify, commit, select_one}
use navtra_license.Services.External.{External}
use navtra_license.Services.Repository.{newest_first}
use navtra_license.Admin.Access.{non_empty}

-- `_mask`
abbrev pub mask_text : Option String → Option String
mask_text v = elim (non_empty v) [
  | none ↦ none
  | some s ↦ some (if ltb 8 (length (codes s)) then take_text 8 s <> "…" else s)
]

pub record AlertOut : Type 0 where
  pub id : String
  pub license_id : String
  pub detected_at : String
  pub alive_identities : ℕ
  pub seat_limit : ℕ
  pub sample : Metadata
  pub status : String

-- A binding as it is shown.
pub record BindingOut : Type 0 where
  pub id : String
  pub fingerprint : Option String
  pub deployment_uid : Option String
  pub install_id : Option String
  pub cluster_id : Option String
  pub status : BindingStatus
  pub first_seen_at : String
  pub last_seen_at : String
  pub last_heartbeat_at : Option String

-- The licenses of the join: not deleted, and none of `revoked`, `expired` and `locked`.
abbrev pub counts_for_alerts : License → Bool
counts_for_alerts l =
    is_none l.deleted_at
    && not (l.status == Status.revoked || (l.status == Status.expired || l.status == Status.locked))

unfoldable licenses_of : CloneAlert → List License → List (CloneAlert × License)
licenses_of a [] = []
licenses_of a (l ∷ ls) =
    let rest = licenses_of a ls in
    if l.id == a.license_id && counts_for_alerts l then (a, l) ∷ rest else rest

unfoldable join_licenses : List CloneAlert → List License → List (CloneAlert × License)
unfolding licenses_of
join_licenses [] ls = []
join_licenses (a ∷ rest) ls = licenses_of a ls ++ join_licenses rest ls

-- `if status: q = q.where(…)`
abbrev with_status : Option String → CloneAlert × License → Bool
with_status none row = true
with_status (some s) row = row.0.status == s

-- The rows of the query.
unfoldable pub alert_rows : Option String → Db → List (CloneAlert × License)
unfolding join_licenses
alert_rows status db = take 200 (
    newest_first (λ row. row.0.detected_at)
      (filter_by (with_status (non_empty status)) (join_licenses db.clone_alerts db.licenses)))

abbrev is_binding_of : ℕ → Binding → Bool
is_binding_of id b = b.license_id == id && is_none b.deleted_at

module _ (X : External) where
  -- `_alert_out`
  abbrev pub alert_out : CloneAlert × License → AlertOut
  alert_out (a, l) = record {
    id = X.uuid_text a.id;
    license_id = X.uuid_text l.license_id;
    detected_at = X.isoformat a.detected_at;
    alive_identities = a.alive_identities;
    seat_limit = a.seat_limit;
    sample = a.sample;
    status = a.status;
  }

  abbrev pub binding_out : Binding → BindingOut
  binding_out b = record {
    id = X.uuid_text b.id;
    fingerprint = mask_text (some b.fingerprint);
    deployment_uid = b.deployment_uid;
    install_id = mask_text b.install_id;
    cluster_id = b.cluster_id;
    status = b.status;
    first_seen_at = X.isoformat b.first_seen_at;
    last_seen_at = X.isoformat b.last_seen_at;
    last_heartbeat_at = elim b.last_heartbeat_at [ none ↦ none | some t ↦ some (X.isoformat t) ];
  }

module _ (X : External) {R : Type 0} where
  unfoldable pub list_clone_alerts : Option String → M R (List AlertOut)
  list_clone_alerts status = query λ db. map (alert_out X) (alert_rows status db)

  unfoldable pub resolve_clone_alert : String → M R (String × String)
  resolve_clone_alert alert_id = do
    id ← lift (or_raise (X.parse_uuid alert_id) system_internal_error)
    row ← select_one (λ db. db.clone_alerts) (λ a. a.id == id)
    alert ← lift (or_raise row resource_not_found)
    modify λ db. record db {
      clone_alerts =
          update_where (λ a. a.id == alert.id) (λ a. record a { status = "resolved" })
            db.clone_alerts;
    }
    commit
    pure (alert_id, "resolved")

  unfoldable pub list_bindings : String → M R (List BindingOut)
  list_bindings license_id = do
    id ← lift (or_raise (X.parse_uuid license_id) system_internal_error)
    query λ db.
        map (binding_out X)
          (newest_first (λ b. b.last_seen_at) (filter_by (is_binding_of id) db.bindings))
