-- ===== src/Services/Leases.antt =====
-- `_mint_lease` of app/services/edge.py in Project-source/forge-server: a lease, its row, and the hot
-- lease in the cache. The values that a request draws are arguments.
use Prim.Native.String.{◌++◌ as ◌<>◌}
use navtra_license.Prelude.{
  ℕ, ◌+◌, ◌*◌, Bool, false, List, [], ◌∷◌, ◌++◌, Option, none, some, String, ok,
  system_internal_error, or_raise, update_where, ◌==◌, string_eq, nat_eq, option_eq,
}
use navtra_license.Models.{License, edge_lease, mode_eq, status_eq, binding_status_eq}
use navtra_license.World.{M, World, ◌>>=◌, ◌>>◌, pure, lift}
use navtra_license.Licensing.Token.{Dict, Json, str, null, strs, other, build_forge_blob}
use navtra_license.Services.External.{External, Settings, second}
use navtra_license.Services.Keys.{require_active, decrypt_private}

-- What the lease cache keeps under a token's hash.
pub record HotLease : Type 0 where
  pub license_db_id : ℕ
  pub binding_id : ℕ
  pub fingerprint : String

-- The Redis client of the application's cache: `set key value ex` and `get`, at an instant.
pub record LeaseCache (R : Type 0) : Type 0 where
  pub get : R → ℕ → String → Option HotLease
  pub set : R → ℕ → String → HotLease → ℕ → R

-- What one request draws: the clock at the window check, in the seat section and at the lease, a
-- random token, the keys of new rows, and the reply of each `SET NX` on the seat lock.
pub record Draws : Type 0 where
  pub checked_at : ℕ
  pub bound_at : ℕ
  pub minted_at : ℕ
  pub validation_token : String
  pub binding_id : ℕ
  pub alert_id : ℕ
  pub lock_replies : ℕ → Bool

-- What `activate` and `validate` return.
pub record Granted : Type 0 where
  pub validation_token : String
  pub lease_token : List ℕ
  pub expires_at : ℕ
  pub grace_until : ℕ
  pub features : List String
  pub quotas : String
  pub active_until : Option ℕ

module _ (X : External) (S : Settings) {R : Type 0} (K : LeaseCache R) where
  abbrev iso? : Option ℕ → Json
  iso? none = null
  iso? (some t) = str (X.isoformat t)

  -- The payload of a lease.
  unfoldable pub lease_payload : License → String → ℕ → ℕ → ℕ → Dict
  lease_payload lic fingerprint now expires grace =
      ("license_id", str (X.uuid_text lic.license_id))
      ∷ ("fingerprint", str fingerprint)
      ∷ ("features", strs lic.features)
      ∷ ("quotas", other lic.quotas)
      ∷ ("active_until", iso? lic.active_until)
      ∷ ("lease_expires_at", str (X.isoformat expires))
      ∷ ("grace_until", str (X.isoformat grace))
      ∷ ("issued_at", str (X.isoformat now))
      ∷ ("kind", str "lease")
      ∷ []

  abbrev pub expires_of : ℕ → ℕ
  expires_of now = now + S.lease_ttl_seconds * second

  abbrev pub grace_of : ℕ → ℕ
  grace_of now = expires_of now + S.lease_grace_seconds * second

  abbrev pub cache_key : String → String
  cache_key token = "forge:lease:" <> X.sha256 token

  -- The new lease row, the binding's columns, and the hot lease in the cache.
  unfoldable pub record_lease : Draws → License → ℕ → String → World R → World R
  record_lease d lic binding_id fingerprint w = record w {
    db = record (w.db) {
      leases =
          w.db.leases
          ++ (record {
            license_id = lic.id;
            binding_id = binding_id;
            token_hash = X.sha256 d.validation_token;
            expires_at = expires_of d.minted_at;
            grace_until = grace_of d.minted_at;
            revoked = false;
          }
              ∷ []);
      bindings =
          update_where (λ b. b.id == binding_id)
            (λ b. record b {
              last_seen_at = d.minted_at;
              lease_expires_at = some (expires_of d.minted_at);
            })
            w.db.bindings;
    };
    cache =
        K.set w.cache d.minted_at (cache_key d.validation_token)
          (record { license_db_id = lic.id; binding_id = binding_id; fingerprint = fingerprint })
          (S.lease_ttl_seconds + S.lease_grace_seconds);
  }

  -- `_mint_lease`, for a binding with this key and fingerprint.
  unfoldable pub mint_lease : Draws → License → ℕ → String → M R Granted
  mint_lease d lic binding_id fingerprint = do
    let now = d.minted_at
    let payload = lease_payload lic fingerprint now (expires_of now) (grace_of now)
    edge_key ← require_active edge_lease
    private ← lift (or_raise (decrypt_private X S edge_key) system_internal_error)
    let sig = X.sign private (X.codec.dumps payload)
    λ w. (ok tt, record_lease d lic binding_id fingerprint w)
    pure (record {
      validation_token = d.validation_token;
      lease_token = build_forge_blob X.codec payload sig;
      expires_at = expires_of now;
      grace_until = grace_of now;
      features = lic.features;
      quotas = lic.quotas;
      active_until = lic.active_until;
    })
