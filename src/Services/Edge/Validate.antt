-- ===== src/Services/Edge/Validate.antt =====
-- `EdgeService.validate`: renewal of a lease. The service never commits.
pub mod Caller
pub mod Laws
use navtra_license.Prelude.{
  ℕ, Bool, true, false, ◌&&◌, ◌||◌, not, List, Option, none, some, String, Result, ok, err, is_some,
  is_none, license_lease_expired, license_binding_mismatch, license_revoked, or_raise, update_where,
  ◌==◌, string_eq, nat_eq, if◌then◌else◌,
}
use navtra_license.Models.{License, Binding, Lease, BindingStatus, binding_status_eq}
use navtra_license.World.{
  M, World, Db, ◌>>=◌, ◌>>◌, pure, lift, raise_when, modify, query, select_one,
}
use navtra_license.Services.External.{External, Settings}
use navtra_license.Services.Edge.{assert_valid_window, check_revoked, install_clash}
use navtra_license.Services.Leases.{LeaseCache, HotLease, Draws, Granted, mint_lease, cache_key}

-- The lease row of a token's hash that is not revoked.
abbrev pub is_lease_of : String → Lease → Bool
is_lease_of th l = l.token_hash == th && not l.revoked

-- From the cache, or else from the row.
unfoldable pub binding_key : Option HotLease → Option Lease → Option ℕ
binding_key (some hot) row = some hot.binding_id
binding_key none (some row) = some row.binding_id
binding_key none none = none

-- Neither the fingerprint nor the install id speaks against the caller.
unfoldable pub same_host : Binding → String → Option String → Bool
same_host b fingerprint install_id =
    (is_some b.deployment_uid || (b.fingerprint == fingerprint))
    && not (install_clash b.install_id install_id)

abbrev pub heartbeat : ℕ → ℕ → Db → Db
heartbeat now id db = record db {
  bindings =
      update_where (λ b. b.id == id) (λ b. record b { last_heartbeat_at = some now }) db.bindings;
}

module _ (X : External) (S : Settings) {R : Type 0} (K : LeaseCache R) where
  -- The binding behind a token.
  unfoldable pub find_binding : Draws → String → M R Binding
  find_binding d validation_token = do
    cached ← λ w. (ok (K.get w.cache d.checked_at (cache_key X S K validation_token)), w)
    row ← select_one (λ db. db.leases) (is_lease_of (X.sha256 validation_token))
    id ← lift (or_raise (binding_key cached row) license_lease_expired)
    found ← select_one (λ db. db.bindings) (λ b. b.id == id)
    b ← lift (or_raise found license_binding_mismatch)
    raise_when (not (b.status == BindingStatus.active)) license_binding_mismatch
    pure b

  -- `validate` from the heartbeat on.
  unfoldable pub renewal : Draws → Binding → M R Granted
  renewal d b = do
    found ← select_one (λ db. db.licenses) (λ l. l.id == b.license_id)
    lic ← lift (or_raise found license_revoked)
    lift (assert_valid_window d.bound_at lic)
    check_revoked lic.id
    mint_lease X S K d lic b.id b.fingerprint

  unfoldable pub validate : Draws → String → String → Option String → M R Granted
  validate d validation_token fingerprint install_id = do
    b ← find_binding d validation_token
    raise_when (not (same_host b fingerprint install_id)) license_binding_mismatch
    modify (heartbeat d.bound_at b.id)
    renewal d b
