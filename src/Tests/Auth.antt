-- ===== src/Tests/Auth.antt =====
-- Logins, sessions, rate limits and permissions.
use navtra_license.Prelude.{
  ◌+◌, min, ◌≡◌, ◌≢◌, refl, true, false, [], ◌∷◌, none, some, ok, err, rate_limit_exceeded,
  auth_account_locked, auth_password_reset_token_invalid, ◌==◌, string_eq, nat_eq, text_eq,
  filter_by, count_by, lower, lower_text, lower_letter, if◌then◌else◌, arith, Code, ◌⊎◌,
}
use navtra_license.Models.{User, License}
use navtra_license.Services.Licenses.{revoke}
use navtra_license.Admin.Licenses.{guarded}
use navtra_license.Admin.Licenses.Laws.{Authorized, guarded-Authorized}
use navtra_license.World.{World, M}
use navtra_license.Services.Passwords.{Argon, Verification, validate_password_policy, char_classes}
use navtra_license.Admin.Permissions.P
use navtra_license.Admin.Permissions.{permissions_for, role_perms, platform_roles}
use navtra_license.Admin.Sessions.{
  Session, SessionSettings, NewSession, session_of, create, get, renew, destroy_all_for_user,
  delete_all,
}
use navtra_license.Admin.Sessions.Runs.{SessionRun, SessionOp, Bounded, get-Bounded, logged_out}
use navtra_license.Admin.Limits.{hit, record_login_failure, clear_login_failures, assert_not_locked}
use navtra_license.Admin.Limits.Laws.{failures}
use navtra_license.Admin.Limits.Windows.{Hits, let_in, within_limit}
use navtra_license.Admin.Access.{CurrentUser, HttpRequest, require_perm}
use navtra_license.Admin.Access.Laws.{super_admin_only}
use navtra_license.Admin.Auth.{
  AuthDeps, Totp, authenticate, confirm_password_reset, second_factor, verify_totp,
}
use navtra_license.Admin.Auth.Laws.{Authenticated, authenticate-Authenticated}
use navtra_license.Admin.Auth.Reset.{Replaced, confirm_password_reset_once, locked_out}
use navtra_license.Tests.{external0, settings0, ctx0, tables0, is_ok, value, runs}
use navtra_license.Tests.Admin.{user0}
use navtra_license.Tests.Redis.{
  Redis, empty, store0, store0_laws, counters0, counters0_laws, tokens0, tokens0_laws,
}

abbrev session_settings0 : SessionSettings
session_settings0 = record { absolute_ttl_seconds = 100; idle_ttl_seconds = 30 }

abbrev new_session0 : NewSession
new_session0 = record {
  user_id = 2;
  role = "admin";
  ip = "";
  ua = "";
  twofa_verified = false;
  permissions = [];
}

abbrev one_login : Redis
one_login = create session_settings0 store0 "sid-1" 10 new_session0 empty

abbrev two_logins : Redis
two_logins =
    create session_settings0 store0 "sid-2" 12 (record new_session0 { user_id = 4 }) one_login

abbrev login_run : SessionRun session_settings0 store0 (λ u. true) empty one_login
login_run =
    SessionRun.then empty one_login one_login (SessionOp.logs_in "sid-1" 10 new_session0 empty refl)
      (SessionRun.done one_login)

abbrev logins_run : SessionRun session_settings0 store0 (λ u. true) empty two_logins
logins_run =
    SessionRun.then empty one_login two_logins
      (SessionOp.logs_in "sid-1" 10 new_session0 empty refl)
      (SessionRun.then one_login two_logins two_logins
        (SessionOp.logs_in "sid-2" 12 (record new_session0 { user_id = 4 }) one_login refl)
        (SessionRun.done two_logins))

abbrev asked0 : Session
asked0 = record (session_of session_settings0 10 new_session0) { last_activity_at = 20 }

asks0 : (get session_settings0 store0 "sid-1" 20 one_login).0 ≡ some asked0
unfolding get create renew string_eq
asks0 = refl

session_ends_example : Bounded session_settings0 store0 one_login "sid-1" 20 asked0
session_ends_example =
    get-Bounded session_settings0 store0 store0_laws (λ u. true) empty one_login "sid-1" 20 asked0
      (λ t sid. refl) login_run asks0

abbrev left0 : Session
left0 = record (session_of session_settings0 12 (record new_session0 { user_id = 4 })) {
  last_activity_at = 20;
}

leaves0 :
    (get session_settings0 store0 "sid-2" 20
      (destroy_all_for_user session_settings0 store0 two_logins 2)).0
    ≡ some left0
unfolding get create renew destroy_all_for_user delete_all string_eq nat_eq
leaves0 = refl

logout_example : left0.user_id ≢ 2
logout_example =
    logged_out session_settings0 store0 store0_laws 2 (λ u. true) (λ u. false) empty two_logins
      (destroy_all_for_user session_settings0 store0 two_logins 2) "sid-2" 20 left0 (λ t sid. refl)
      logins_run refl (SessionRun.done _) leaves0

-- Two hits in the first window, of which one is let in.
abbrev hit_once : Redis
hit_once = (hit counters0 "k" 1 60 rate_limit_exceeded 5 empty).1

abbrev hit_twice : Redis
hit_twice = (hit counters0 "k" 1 60 rate_limit_exceeded 59 hit_once).1

window_example :
    let_in (hit counters0 "k" 1 60 rate_limit_exceeded 59 hit_once).0
      + (let_in (hit counters0 "k" 1 60 rate_limit_exceeded 5 empty).0 + 0)
    ≡ min 2 1
unfolding counters0_laws
window_example =
    within_limit counters0 counters0_laws "k" 1 60 0 2
      (let_in (hit counters0 "k" 1 60 rate_limit_exceeded 59 hit_once).0
        + (let_in (hit counters0 "k" 1 60 rate_limit_exceeded 5 empty).0 + 0))
      empty hit_twice (omega arith) refl
      (Hits.hits rate_limit_exceeded 59 1
        (let_in (hit counters0 "k" 1 60 rate_limit_exceeded 5 empty).0 + 0) empty hit_once refl
        (Hits.hits rate_limit_exceeded 5 0 0 empty empty refl (Hits.opens empty)))

-- Passwords that are their own hashes, and one code that is right.
abbrev argon0 : Argon
argon0 = record {
  hash = λ salt p. p;
  verify = λ stored p. if stored == p then Verification.matches else Verification.mismatch;
  check_needs_rehash = λ h. some false;
}

abbrev totp0 : Totp
totp0 = record {
  verify = λ secret code now. code == "123456";
  provisioning_uri = λ secret name issuer. secret;
}

abbrev pub auth0 : AuthDeps Redis
auth0 = record {
  external = external0;
  argon = argon0;
  totp = totp0;
  settings = record {
    login = record {
      login_max_per_ip_per_min = 10;
      login_lock_threshold = 2;
      login_lock_seconds = 900;
    };
    session = session_settings0;
    policy = record { min_length = 4; require_char_classes = 1; forbid_identity = true };
    reset_token_ttl_seconds = 900;
    twofa_issuer = "Forge";
    forge_field_encryption_key = "kek";
  };
  sessions = store0;
  counters = counters0;
  tokens = tokens0;
}

abbrev operator0 : User
operator0 = record user0 {
  password_hash = "pw";
  twofa_enabled = true;
  twofa_secret_ciphertext = some "secret";
  twofa_dek_wrapped = some "dek";
}

abbrev world3 : World Redis
world3 = record {
  db = record tables0 { users = operator0 ∷ [] };
  committed = record tables0 { users = operator0 ∷ [] };
  cache = record empty { tokens = λ k. if k == "pwreset:token" then some "a" else none };
}

logged_in : is_ok (authenticate auth0 "Root@example.com" "pw" (some "123456") 20 world3).0 ≡ true
unfolding authenticate assert_not_locked filter_by string_eq lower_text lower_letter second_factor
    verify_totp
logged_in = refl

sign_in_example :
    let answer = authenticate auth0 "Root@example.com" "pw" (some "123456") 20 world3 in
    Authenticated auth0 "Root@example.com" "pw" (some "123456") 20 world3 (value answer.0 logged_in)
    × (answer.1
        ≡ record world3 { cache = clear_login_failures counters0 "Root@example.com" world3.cache })
sign_in_example =
    authenticate-Authenticated auth0 "Root@example.com" "pw" (some "123456") 20 world3
      (authenticate auth0 "Root@example.com" "pw" (some "123456") 20 world3).1
      (value (authenticate auth0 "Root@example.com" "pw" (some "123456") 20 world3).0 logged_in)
      (runs (authenticate auth0 "Root@example.com" "pw" (some "123456") 20 world3) logged_in)

lockout_example :
    (authenticate auth0 "root@example.com" "pw" none 12 (record {
      db = tables0;
      committed = tables0;
      cache = record_login_failure counters0 auth0.settings.login "root@example.com" 11 (
          failures counters0 counters0_laws auth0.settings.login "root@example.com"
            (10 ∷ [])
            empty);
    })).0
    ≡ err auth_account_locked
unfolding counters0_laws
lockout_example =
    locked_out auth0 counters0_laws "root@example.com" "pw" none 10 [] 11 12 empty tables0 tables0
      refl tt (omega arith) (omega arith) (omega arith)

reset_done : is_ok (confirm_password_reset auth0 "salt" "token" "longer" 20 world3).0 ≡ true
unfolding confirm_password_reset string_eq filter_by nat_eq validate_password_policy char_classes
    count_by text_eq lower
reset_done = refl

reset_example :
    let answer = confirm_password_reset auth0 "salt" "token" "longer" 20 world3 in
    Replaced auth0 "salt" "token" "longer" 20 world3 (value answer.0 reset_done) answer.1
    × (confirm_password_reset auth0 "salt" "token" "other" 21 answer.1
        ≡ (err auth_password_reset_token_invalid, answer.1))
reset_example =
    confirm_password_reset_once auth0 tokens0_laws "salt" "token" "longer" 20 world3
      (confirm_password_reset auth0 "salt" "token" "longer" 20 world3).1
      (value (confirm_password_reset auth0 "salt" "token" "longer" 20 world3).0 reset_done) "salt"
      "other" 21 (runs (confirm_password_reset auth0 "salt" "token" "longer" 20 world3) reset_done)

abbrev root0 : CurrentUser
root0 = record {
  user_id = 2;
  role = "super_admin";
  permissions = permissions_for "super_admin";
  twofa_verified = true;
}

root_passes : require_perm P.license_revoke root0 ≡ ok root0
unfolding require_perm permissions_for role_perms platform_roles string_eq
root_passes = refl

restricted_example : root0.role ≡ "super_admin"
unfolding string_eq
restricted_example = super_admin_only P.license_revoke root0 root0 refl refl root_passes

abbrev cookie0 : HttpRequest
cookie0 = record {
  client_host = none;
  user_agent = none;
  request_id = "req";
  cookie = some "sid-1";
}

abbrev revoking : CurrentUser → M Redis License
revoking user = revoke external0 200 "a" "fraud" (some user.user_id) ctx0

abbrev world4 : World Redis
world4 = record { db = tables0; committed = tables0; cache = one_login }

guarded_example :
    ((c : Code) × ((guarded external0 settings0 session_settings0 store0 P.license_revoke revoking
          cookie0 20 world4).0
        ≡ err c)
      × ((guarded external0 settings0 session_settings0 store0 P.license_revoke revoking cookie0 20
            world4).1.db
          ≡ world4.db)
      × ((guarded external0 settings0 session_settings0 store0 P.license_revoke revoking cookie0 20
            world4).1.committed
          ≡ world4.committed))
    ⊎ ((user : CurrentUser) × (v : World Redis) × Authorized session_settings0 store0
          P.license_revoke cookie0 20 world4 user
        × (v.db ≡ world4.db)
        × (v.committed ≡ world4.committed)
        × (guarded external0 settings0 session_settings0 store0 P.license_revoke revoking cookie0 20
              world4
            ≡ revoking user v))
guarded_example =
    guarded-Authorized session_settings0 store0 external0 settings0 P.license_revoke revoking
      cookie0 20 world4
