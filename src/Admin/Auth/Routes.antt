-- ===== src/Admin/Auth/Routes.antt =====
-- app/api/admin/v1/auth.py of Project-source/forge-server: login, logout and the second factor. The
-- cookie that a response sets carries the sid.
use Prim.Native.String.{◌++◌ as ◌<>◌}
use navtra_license.Prelude.{
  ℕ, List, [], Option, none, some, String, Code, auth_account_disabled, auth_account_locked,
  auth_2fa_required, auth_2fa_invalid, or_raise, rate_limit_login_blocked, system_internal_error,
  Bool,
}
use navtra_license.Models.{User}
use navtra_license.World.{
  M, ◌>>=◌, ◌>>◌, pure, lift, modify, commit, select_one, change_cache, on_failure,
}
use navtra_license.Audit.{Ctx, Event, log}
use navtra_license.Services.Users.{has_user_id}
use navtra_license.Admin.Permissions.{permissions_for}
use navtra_license.Admin.Sessions.{NewSession, create, destroy}
use navtra_license.Admin.Limits.{hit}
use navtra_license.Admin.Access.{
  CurrentUser, HttpRequest, user_agent_of, non_empty, get_current_user,
}
use navtra_license.Admin.Auth.{AuthDeps, authenticate, begin_2fa_setup, confirm_2fa, update_row}

-- schemas/auth.py
pub record LoginRequest : Type 0 where
  pub email : String
  pub password : String
  pub code : Option String

pub record MeOut : Type 0 where
  pub id : String
  pub email : String
  pub username : String
  pub role : String
  pub avatar : Option String
  pub twofa_enabled : Bool
  pub permissions : List String

-- `getattr(exc, "code", "AUTH_INVALID_CREDENTIALS")` on what `authenticate` raises.
code_name : Code → String
code_name auth_account_disabled = "AUTH_ACCOUNT_DISABLED"
code_name auth_account_locked = "AUTH_ACCOUNT_LOCKED"
code_name auth_2fa_required = "AUTH_2FA_REQUIRED"
code_name auth_2fa_invalid = "AUTH_2FA_INVALID"
code_name _ = "AUTH_INVALID_CREDENTIALS"

-- `f"{ip}"` and `ip or ""`
abbrev pub ip_text : Option String → String
ip_text none = "None"
ip_text (some ip) = ip

abbrev ip_or_empty : Option String → String
ip_or_empty none = ""
ip_or_empty (some ip) = ip

-- The audit fields that the login writes itself: the header is not cut here.
abbrev login_ctx : HttpRequest → String → Ctx
login_ctx q actor_name = record {
  actor_type = "user";
  actor_name = some actor_name;
  ip = q.client_host;
  user_agent = some (user_agent_of q);
  request_id = some q.request_id;
}

unfoldable login_event : String → Option ℕ → Option String → Event
login_event result actor_id reason = record {
  action = "login";
  result = result;
  actor_id = actor_id;
  resource_type = none;
  resource_id = none;
  reason = reason;
  metadata = [];
}

-- What a login draws: the sid, the clock in seconds, and in microseconds.
pub record LoginDraws : Type 0 where
  pub sid : String
  pub now : ℕ
  pub at : ℕ

abbrev pub session_for : HttpRequest → User → NewSession
session_for q u = record {
  user_id = u.id;
  role = u.role;
  ip = ip_or_empty q.client_host;
  ua = user_agent_of q;
  twofa_verified = u.twofa_enabled;
  permissions = permissions_for u.role;
}

module _ {R : Type 0} (A : AuthDeps R) where
  -- `MeOut(…)` with the avatar left to its default.
  abbrev pub login_out : User → MeOut
  login_out u = record {
    id = A.external.uuid_text u.id;
    email = u.email;
    username = u.username;
    role = u.role;
    avatar = none;
    twofa_enabled = u.twofa_enabled;
    permissions = permissions_for u.role;
  }

  -- The rate limit per address.
  unfoldable pub login_limit : HttpRequest → ℕ → M R (Unit {0})
  login_limit q now w =
      let answer =
        hit A.counters ("login_ip:" <> ip_text q.client_host)
          A.settings.login.login_max_per_ip_per_min 60 rate_limit_login_blocked now w.cache in
      (answer.0, record w { cache = answer.1 })

  -- `except Exception`: the failure is logged and committed.
  unfoldable pub login_failed : HttpRequest → String → Code → M R (Unit {0})
  unfolding code_name login_event
  login_failed q email code = do
    log (login_event "failure" none (some (code_name code))) (login_ctx q email)
    commit

  -- After `authenticate`.
  unfoldable pub open_session : HttpRequest → LoginDraws → User → M R MeOut
  unfolding login_event
  open_session q d u = do
    modify (update_row A u.id (λ v. record v { last_login_at = some d.at }))
    change_cache (create A.settings.session A.sessions d.sid d.now (session_for q u))
    log (login_event "success" (some u.id) none) (login_ctx q u.username)
    commit
    pure (login_out u)

  unfoldable pub login : LoginRequest → HttpRequest → LoginDraws → M R MeOut
  unfolding login_limit login_failed open_session
  login body q d = do
    login_limit q d.now
    u ←
        on_failure (authenticate A body.email body.password body.code d.now)
          (login_failed q body.email)
    open_session q d u

  abbrev destroy_cookie : Option String → ℕ → R → R
  destroy_cookie none now r = r
  destroy_cookie (some sid) now r = destroy A.settings.session A.sessions sid now r

  unfoldable pub logout : HttpRequest → ℕ → M R (Unit {0})
  logout q now = do
    user ← get_current_user A.settings.session A.sessions q.cookie now
    change_cache (destroy_cookie (non_empty q.cookie) now)

  -- A row that is not there has no attributes.
  abbrev pub own_row : CurrentUser → Code → M R User
  own_row user missing_code = do
    row ← select_one (λ db. db.users) (has_user_id user.user_id)
    lift (or_raise row missing_code)

  unfoldable pub twofa_setup : String → CurrentUser → M R (String × String)
  twofa_setup secret user = do
    u ← own_row user system_internal_error
    answer ← begin_2fa_setup A secret u
    commit
    pure answer

  unfoldable pub twofa_verify :
      List String → CurrentUser → String → HttpRequest → ℕ → M R (List String)
  twofa_verify backup user code q now = do
    u ← own_row user system_internal_error
    codes_ ← confirm_2fa A backup u code now
    log
        (record {
          action = "2fa_enable";
          result = "success";
          actor_id = some user.user_id;
          resource_type = none;
          resource_id = none;
          reason = none;
          metadata = [];
        })
        (record {
          actor_type = "user";
          actor_name = some u.username;
          ip = none;
          user_agent = none;
          request_id = some q.request_id;
        })
    commit
    pure codes_
