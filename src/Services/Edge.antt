-- ===== src/Services/Edge.antt =====
-- app/services/edge.py of Project-source/forge-server: online activation and renewal on forge-edge.
-- The values that a request draws (clock readings, tokens, keys of new rows, the replies of the seat
-- lock) are arguments. Renewal has a child of its own.
pub mod Routes
pub mod Match
pub mod Validate
pub mod Seats
pub mod Laws
use Prim.Native.String.{◌++◌ as ◌<>◌}
use navtra_license.Prelude.{
  ℕ, zero, suc, ◌+◌, ◌-◌, ◌*◌, Bool, true, false, ◌&&◌, not, List, [], ◌∷◌, ◌++◌, Option, none,
  some, String, Result, ok, err, license_revoked, license_expired, resource_not_found,
  license_seat_lock_busy, license_seat_exceeded, license_binding_mismatch, system_internal_error,
  or_raise, is_some, is_none, leb, ltb, length, filter_by, update_where, take, ◌==◌, string_eq,
  nat_eq, option_eq, if◌then◌else◌, codes,
}
use navtra_license.Models.{
  License, Binding, Lease, CloneAlert, Revocation, Mode, online, Status, issued, BindingStatus,
  Signals, text, number, missing, MetaValue, edge_lease, mode_eq, status_eq, binding_status_eq,
}
use navtra_license.World.{
  M, Db, World, ◌>>=◌, ◌>>◌, pure, lift, raise, raise_when, query, modify, commit, select_one,
}
use navtra_license.Audit.{Ctx, Event, log}
use navtra_license.Licensing.Token.{Dict, Json, str, null, strs, other, Codec, build_forge_blob}
use navtra_license.Services.External.{External, Settings, second}
use navtra_license.Services.Keys.{require_active, decrypt_private}
use navtra_license.Services.Leases.{LeaseCache, Draws, Granted, mint_lease}
use Match.{match_binding, or_text, or_signals}

pub record Request : Type 0 where
  pub online_code : String
  pub fingerprint : String
  pub cluster_id : Option String
  pub install_id : Option String
  pub signals : Option Signals
  pub deployment_uid : Option String

-- `_check_revoked`
abbrev pub check_revoked : {R : Type 0} → ℕ → M R (Unit {0})
check_revoked id = do
  row ← select_one (λ db. db.revocations) (λ r. r.license_id == some id)
  raise_when (is_some row) license_revoked

abbrev past : ℕ → Option ℕ → Bool
past now none = false
past now (some until) = leb until now

-- `_assert_valid_window`
unfoldable pub assert_valid_window : ℕ → License → Result (Unit {0})
assert_valid_window now lic =
    if is_some lic.deleted_at
    then err license_revoked
    else if lic.status == Status.revoked
    then err license_revoked
    else if past now lic.active_until
    then err license_expired
    else ok tt

-- `_active_bindings`
abbrev pub is_active_of : ℕ → Binding → Bool
is_active_of id b = b.license_id == id && (b.status == BindingStatus.active && is_none b.deleted_at)

unfoldable pub active_bindings : ℕ → Db → List Binding
active_bindings id db = filter_by (is_active_of id) db.bindings

-- `for _ in range(50): got = await lock_redis.set(…); if got: break`, from the attempt `i` on.
unfoldable pub acquire_lock : ℕ → ℕ → (ℕ → Bool) → Bool
acquire_lock zero i replies = false
acquire_lock (suc attempts) i replies =
    let rest = acquire_lock attempts (suc i) replies in if replies i then true else rest

abbrev shortened : ℕ → String → MetaValue
shortened n s = text (take n (codes s) ++ codes "…")

abbrev nullable : Option String → MetaValue
nullable none = missing
nullable (some s) = text (codes s)

-- An entry on a license.
abbrev license_event :
    (X : External) → String → String → License → Option String → List (String × MetaValue) → Event
license_event X action result lic reason metadata = record {
  action = action;
  result = result;
  actor_id = none;
  resource_type = some "license";
  resource_id = some (X.uuid_text lic.license_id);
  reason = reason;
  metadata = metadata;
}

-- The existing binding takes over the caller's identity: the columns that `activate` assigns.
abbrev pub adopt : ℕ → Request → Binding → Binding → Binding
adopt now q seen b = record b {
  install_id = or_text seen.install_id q.install_id;
  signals = or_signals q.signals seen.signals;
  deployment_uid = or_text q.deployment_uid seen.deployment_uid;
  fingerprint = q.fingerprint;
  last_heartbeat_at = some now;
}

-- Both ids are given and differ.
unfoldable pub install_clash : Option String → Option String → Bool
install_clash none b = false
install_clash (some a) none = false
install_clash (some a) (some b) = not (a == "") && (not (b == "") && not (a == b))

-- The license after one more seat: the columns that `activate` assigns.
abbrev pub seat_taken : ℕ → License → License → License
seat_taken now seen l = record l {
  seat_used = seen.seat_used + 1;
  status = if seen.status == issued then Status.active else l.status;
  activated_at = if seen.status == issued then some now else l.activated_at;
}

abbrev pub new_binding : Draws → Request → License → Binding
new_binding d q lic = record {
  id = d.binding_id;
  license_id = lic.id;
  fingerprint = q.fingerprint;
  cluster_id = q.cluster_id;
  status = BindingStatus.active;
  first_seen_at = d.bound_at;
  last_seen_at = d.bound_at;
  lease_expires_at = none;
  install_id = q.install_id;
  signals = q.signals;
  deployment_uid = q.deployment_uid;
  last_heartbeat_at = some d.bound_at;
  deleted_at = none;
}

abbrev pub seat_alert : Draws → Request → Ctx → License → ℕ → CloneAlert
seat_alert d q ctx lic active_count = record {
  id = d.alert_id;
  license_id = lic.id;
  detected_at = d.bound_at;
  alive_identities = active_count + 1;
  seat_limit = lic.seat_limit;
  sample =
      ("attempted_fingerprint", text (take 12 (codes q.fingerprint)))
      ∷ ("deployment_uid", nullable q.deployment_uid)
      ∷ ("ip", nullable ctx.ip)
      ∷ [];
  status = "open";
}

abbrev pub has_code : String → License → Bool
has_code online_code l = l.online_code == some online_code && is_none l.deleted_at

-- `get_by_online_code`, and the test of its mode.
abbrev pub find_license : {R : Type 0} → String → M R License
find_license online_code = do
  row ← select_one (λ db. db.licenses) (has_code online_code)
  lic ← lift (or_raise row resource_not_found)
  raise_when (not (lic.mode == online)) resource_not_found
  pure lic

module _ (X : External) (S : Settings) {R : Type 0} (K : LeaseCache R) where
  -- An active binding of the same identity: no new seat, unless the install ids clash.
  unfoldable pub reuse_binding : Draws → Request → Ctx → License → Binding → M R ℕ
  reuse_binding d q ctx lic b =
      if install_clash b.install_id q.install_id
      then (do
        log
            (license_event X "license.install_id_mismatch" "failure" lic
              (some "INSTALL_ID_MISMATCH") [])
            ctx
        commit
        raise license_binding_mismatch)
      else (do
        modify λ db. record db {
          bindings = update_where (λ r. r.id == b.id) (adopt d.bound_at q b) db.bindings;
        }
        pure b.id)

  -- A new identity while every seat is taken: an alert, and no seat.
  unfoldable pub refuse_seat : Draws → Request → Ctx → License → ℕ → M R ℕ
  refuse_seat d q ctx lic active_count = do
    modify λ db. record db {
      clone_alerts = db.clone_alerts ++ (seat_alert d q ctx lic active_count ∷ []);
    }
    log
        (license_event X "license.seat_exceeded" "failure" lic (some "LICENSE_SEAT_EXCEEDED")
          (("attempted_fingerprint", shortened 8 q.fingerprint) ∷ []))
        ctx
    commit
    raise license_seat_exceeded

  unfoldable pub take_seat : Draws → Request → License → M R ℕ
  take_seat d q lic = do
    modify λ db. record db {
      bindings = db.bindings ++ (new_binding d q lic ∷ []);
      licenses = update_where (λ l. l.id == lic.id) (seat_taken d.bound_at lic) db.licenses;
    }
    pure d.binding_id

  -- With the binding that matched, if any, and the number of active bindings.
  unfoldable pub seat_for : Draws → Request → Ctx → License → ℕ → Option Binding → M R ℕ
  seat_for d q ctx lic active_count (some b) = reuse_binding d q ctx lic b
  seat_for d q ctx lic active_count none =
      if leb lic.seat_limit active_count
      then refuse_seat d q ctx lic active_count
      else take_seat d q lic

  -- The seat accounting under the lock; it gives the key of the binding.
  unfoldable pub account_seat : Draws → Request → Ctx → License → M R ℕ
  account_seat d q ctx lic = do
    bindings ← query (active_bindings lic.id)
    seat_for d q ctx lic (length bindings)
        (match_binding bindings q.fingerprint q.deployment_uid q.signals)

  activation_event : Request → License → Event
  activation_event q lic = license_event X "license.activated" "success" lic none (
      ("fingerprint", shortened 8 q.fingerprint)
      ∷ ("cluster_id", nullable q.cluster_id)
      ∷ ("deployment_uid", nullable q.deployment_uid)
      ∷ [])

  -- `activate` from the seat lock on.
  unfoldable pub activate_under_lock : Draws → Request → Ctx → License → M R Granted
  unfolding activation_event
  activate_under_lock d q ctx lic = do
    raise_when (not (acquire_lock 50 0 d.lock_replies)) license_seat_lock_busy
    binding_id ← account_seat d q ctx lic
    granted ← mint_lease X S K d lic binding_id q.fingerprint
    log (activation_event q lic) ctx
    commit
    pure granted

  -- `activate`
  unfoldable pub activate : Draws → Request → Ctx → M R Granted
  activate d q ctx = do
    lic ← find_license q.online_code
    lift (assert_valid_window d.checked_at lic)
    check_revoked lic.id
    activate_under_lock d q ctx lic
