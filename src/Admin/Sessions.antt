-- ===== src/Admin/Sessions.antt =====
-- app/services/session_service.py of Project-source/forge-server, on a store of sessions in Redis.
-- Instants are whole seconds. A value is the session before `json.dumps`. The store has two families
-- of keys, sessions by sid and the sids of a user; a cookie that spells a key of the other family
-- (`user:…`) is answered by an error of Redis.
pub mod Laws
pub mod Runs
use navtra_license.Prelude.{
  ℕ, ◌+◌, ◌-◌, min, Bool, List, [], ◌∷◌, Option, none, some, String, leb, if◌then◌else◌,
}

pub record Session : Type 0 where
  pub user_id : ℕ
  pub role : String
  pub ip : String
  pub ua : String
  pub twofa_verified : Bool
  pub permissions : List String
  pub created_at : ℕ
  pub last_activity_at : ℕ
  pub absolute_expiry : ℕ

-- The commands that the service sends: GET, SET with EX, and DEL on sessions; SADD, SREM, SMEMBERS and
-- DEL on the index of a user.
pub record SessionStore (R : Type 0) : Type 0 where
  pub get : R → ℕ → String → Option Session
  pub set : R → ℕ → String → Session → ℕ → R
  pub delete : R → String → R
  pub sadd : R → ℕ → String → R
  pub srem : R → ℕ → String → R
  pub smembers : R → ℕ → List String
  pub delete_index : R → ℕ → R

pub record SessionSettings : Type 0 where
  pub absolute_ttl_seconds : ℕ
  pub idle_ttl_seconds : ℕ

-- What `create` is called with.
pub record NewSession : Type 0 where
  pub user_id : ℕ
  pub role : String
  pub ip : String
  pub ua : String
  pub twofa_verified : Bool
  pub permissions : List String

abbrev pub session_of : SessionSettings → ℕ → NewSession → Session
session_of S now n = record {
  user_id = n.user_id;
  role = n.role;
  ip = n.ip;
  ua = n.ua;
  twofa_verified = n.twofa_verified;
  permissions = n.permissions;
  created_at = now;
  last_activity_at = now;
  absolute_expiry = now + S.absolute_ttl_seconds;
}

module _ (S : SessionSettings) {R : Type 0} (T : SessionStore R) where
  -- `create`, with the sid that it draws
  unfoldable pub create : String → ℕ → NewSession → R → R
  create sid now n r =
      T.sadd (T.set r now sid (session_of S now n) S.idle_ttl_seconds) n.user_id sid

  destroy_known : Option Session → String → R → R
  destroy_known none sid r = T.delete r sid
  destroy_known (some found) sid r = T.delete (T.srem r found.user_id sid) sid

  unfoldable pub destroy : String → ℕ → R → R
  unfolding destroy_known
  destroy sid now r = destroy_known (T.get r now sid) sid r

  -- The rest of `get` on a session that was found.
  unfoldable pub renew : Session → String → ℕ → R → Option Session × R
  renew found sid now r = if leb found.absolute_expiry now then (none, destroy sid now r) else (
    some (record found { last_activity_at = now }),
    T.set r now sid (record found { last_activity_at = now })
        (min S.idle_ttl_seconds (found.absolute_expiry - now)),
  )

  renew_found : Option Session → String → ℕ → R → Option Session × R
  unfolding renew
  renew_found none sid now r = (none, r)
  renew_found (some found) sid now r = renew found sid now r

  unfoldable pub get : String → ℕ → R → Option Session × R
  unfolding renew_found
  get sid now r = renew_found (T.get r now sid) sid now r

  -- The loop of `destroy_all_for_user`.
  unfoldable pub delete_all : List String → R → R
  delete_all [] r = r
  delete_all (sid ∷ sids) r = delete_all sids (T.delete r sid)

  unfoldable pub destroy_all_for_user : R → ℕ → R
  unfolding delete_all
  destroy_all_for_user r user_id = T.delete_index (delete_all (T.smembers r user_id) r) user_id
