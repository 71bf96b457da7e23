-- ===== src/Admin/Auth.antt =====
-- app/services/auth_service.py of Project-source/forge-server. `now` is the clock in seconds, and what
-- the code draws at random is an argument. A change of the `User` object is a change of its row.
pub mod Laws
pub mod Reset
pub mod Routes
use Prim.Native.String
use Prim.Native.String.{◌++◌ as ◌<>◌}
use navtra_license.Prelude.{
  ℕ, Bool, true, false, not, List, [], ◌∷◌, Option, none, some, String, Result, ok, err, Code,
  or_raise, update_where, ◌==◌, nat_eq, string_eq, if◌then◌else◌, auth_invalid_credentials,
  auth_account_disabled, auth_2fa_required, auth_2fa_invalid, auth_password_reset_token_invalid,
  system_internal_error,
}
use navtra_license.Models.{User}
use navtra_license.World.{
  M, World, Db, ◌>>=◌, ◌>>◌, pure, lift, raise, raise_when, modify, select_one, change_cache,
}
use navtra_license.Services.External.{External}
use navtra_license.Services.Passwords.{
  Argon, PasswordPolicy, hash_password, verify_password, validate_password_policy,
}
use navtra_license.Services.Users.{has_email, has_user_id}
use navtra_license.Admin.Sessions.{SessionStore, SessionSettings}
use navtra_license.Admin.Limits.{
  Counters, LoginSettings, record_login_failure, assert_not_locked, clear_login_failures,
}
use navtra_license.Admin.Access.{non_empty}

-- GET, SET with EX and DEL on the keys `pwreset:…`, whose values are user ids.
pub record ResetTokens (R : Type 0) : Type 0 where
  pub get : R → ℕ → String → Option String
  pub set : R → ℕ → String → String → ℕ → R
  pub delete : R → String → R

-- `pyotp.TOTP(secret)`: `verify(code, valid_window=1)` at an instant, and `provisioning_uri` for a name
-- and an issuer.
pub record Totp : Type 0 where
  pub verify : String → String → ℕ → Bool
  pub provisioning_uri : String → String → String → String

pub record AuthSettings : Type 0 where
  pub login : LoginSettings
  pub session : SessionSettings
  pub policy : PasswordPolicy
  pub reset_token_ttl_seconds : ℕ
  pub twofa_issuer : String
  pub forge_field_encryption_key : String

-- The libraries and the Redis databases behind the service.
pub record AuthDeps (R : Type 0) : Type 1 where
  pub external : External
  pub argon : Argon
  pub totp : Totp
  pub settings : AuthSettings
  pub sessions : SessionStore R
  pub counters : Counters R
  pub tokens : ResetTokens R

module _ {R : Type 0} (A : AuthDeps R) where
  -- `_decrypt_totp_secret`: a column that is null makes `decrypt_secret` raise.
  abbrev pub decrypt_totp_secret : User → Result String
  decrypt_totp_secret u = elim u.twofa_secret_ciphertext [
    | none ↦ err system_internal_error
    | some ciphertext ↦ elim u.twofa_dek_wrapped [
      | none ↦ err system_internal_error
      | some dek ↦
          or_raise (A.external.decrypt_secret ciphertext dek A.settings.forge_field_encryption_key)
            system_internal_error
    ]
  ]

  abbrev verify_with : Result String → String → ℕ → Result Bool
  verify_with (ok secret) code now = ok (A.totp.verify secret code now)
  verify_with (err e) code now = err e

  -- `_verify_totp`
  unfoldable pub verify_totp : User → String → ℕ → Result Bool
  verify_totp u code now = elim (non_empty u.twofa_secret_ciphertext) [
    | none ↦ ok false
    | some ciphertext ↦ verify_with (decrypt_totp_secret u) code now
  ]

  -- The password of a user that may not be there.
  abbrev pub valid_password : Option User → String → Result Bool
  valid_password none password = ok false
  valid_password (some u) password = verify_password A.argon password u.password_hash

  -- `record_login_failure`, then `raise`.
  abbrev pub fail_login : {B : Type 0} → String → ℕ → Code → M R B
  fail_login email now code = do
    change_cache (record_login_failure A.counters A.settings.login email now)
    raise code

  abbrev pub check_code : String → ℕ → User → Option String → M R (Unit {0})
  check_code email now u none = raise auth_2fa_required
  check_code email now u (some code) = do
    good ← lift (verify_totp u code now)
    if good then pure tt else fail_login email now auth_2fa_invalid

  -- The second factor, where it is enabled.
  unfoldable pub second_factor : String → ℕ → User → Option String → M R (Unit {0})
  second_factor email now u code =
      if u.twofa_enabled then check_code email now u (non_empty code) else pure tt

  abbrev pub known_user : String → ℕ → Option User → Bool → M R User
  known_user email now none valid = fail_login email now auth_invalid_credentials
  known_user email now (some u) valid =
      if valid then pure u else fail_login email now auth_invalid_credentials

  unfoldable pub authenticate : String → String → Option String → ℕ → M R User
  unfolding second_factor
  authenticate email password code now = do
    λ w. (assert_not_locked A.counters email now w.cache, w)
    user ← select_one (λ db. db.users) (has_email email)
    valid ← lift (valid_password user password)
    u ← known_user email now user valid
    raise_when (not u.is_active) auth_account_disabled
    second_factor email now u code
    change_cache (clear_login_failures A.counters email)
    pure u

  -- A change of the columns of one user.
  abbrev pub update_row : ℕ → (User → User) → Db → Db
  update_row id f db = record db { users = update_where (λ v. v.id == id) f db.users }

  -- `encrypt_secret` under the key of the settings.
  abbrev pub encrypt_field : String → M R (String × String)
  encrypt_field secret = lift (
      or_raise (A.external.encrypt_secret secret A.settings.forge_field_encryption_key)
        system_internal_error)

  -- `begin_2fa_setup`, with the secret that `random_base32` draws
  unfoldable pub begin_2fa_setup : String → User → M R (String × String)
  begin_2fa_setup secret u = do
    sealed ← encrypt_field secret
    modify (
        update_row u.id (λ v. record v {
          twofa_secret_ciphertext = some sealed.0;
          twofa_dek_wrapped = some sealed.1;
        }))
    pure (secret, A.totp.provisioning_uri secret u.email A.settings.twofa_issuer)

  -- `"\n".join(backup)`
  join_lines : List String → String
  join_lines [] = ""
  join_lines (s ∷ []) = s
  join_lines (s ∷ t ∷ rest) = s <> ("\n" <> join_lines (t ∷ rest))

  -- `confirm_2fa`, with the eight codes that it draws
  unfoldable pub confirm_2fa : List String → User → String → ℕ → M R (List String)
  unfolding join_lines
  confirm_2fa backup u code now = do
    good ← lift (verify_with (decrypt_totp_secret u) code now)
    raise_when (not good) auth_2fa_invalid
    modify (update_row u.id (λ v. record v { twofa_enabled = true }))
    sealed ← encrypt_field (join_lines backup)
    modify (
        update_row u.id (λ v. record v {
          backup_codes_ciphertext = some sealed.0;
          backup_codes_dek_wrapped = some sealed.1;
        }))
    pure backup

  -- `f"pwreset:{self._hash_token(token)}"`
  abbrev pub reset_key : String → String
  reset_key token = "pwreset:" <> A.external.sha256 token

  abbrev send_token : Option User → String → ℕ → M R (Option String)
  send_token none token now = pure none
  send_token (some u) token now = if not u.is_active then pure none else (do
    change_cache (λ r.
        A.tokens.set r now (reset_key token) (A.external.uuid_text u.id)
          A.settings.reset_token_ttl_seconds)
    pure (some token))

  -- `request_password_reset`, with the token that it draws
  unfoldable pub request_password_reset : String → String → ℕ → M R (Option String)
  request_password_reset email token now = do
    user ← select_one (λ db. db.users) (has_email email)
    send_token user token now

  abbrev pub with_hash : String → User → User
  with_hash hash v = record v { password_hash = hash }

  unfoldable pub confirm_password_reset : String → String → String → ℕ → M R User
  confirm_password_reset salt token new_password now = do
    user_id ← λ w. (
      or_raise (non_empty (A.tokens.get w.cache now (reset_key token)))
          auth_password_reset_token_invalid,
      w,
    )
    id ← lift (or_raise (A.external.parse_uuid user_id) system_internal_error)
    row ← select_one (λ db. db.users) (has_user_id id)
    u ← lift (or_raise row auth_password_reset_token_invalid)
    lift (validate_password_policy A.settings.policy new_password u.email u.username)
    modify (update_row u.id (with_hash (hash_password A.argon salt new_password)))
    change_cache (λ r. A.tokens.delete r (reset_key token))
    pure (with_hash (hash_password A.argon salt new_password) u)
