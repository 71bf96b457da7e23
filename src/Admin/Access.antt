-- ===== src/Admin/Access.antt =====
-- app/api/deps.py and app/permissions/deps.py of Project-source/forge-server: who asks, and whether they
-- may.
pub mod Laws
use navtra_license.Prelude.{
  ℕ, Bool, ◌||◌, List, Option, none, some, String, Result, ok, err, contains, or_raise, ◌==◌,
  string_eq, take_text, auth_required, perm_denied, if◌then◌else◌,
}
use navtra_license.World.{M, ◌>>=◌, pure, lift, with_cache}
use navtra_license.Audit.{Ctx}
use navtra_license.Admin.Permissions.{role_has}
use navtra_license.Admin.Sessions.{Session, SessionStore, SessionSettings, get}

pub record CurrentUser : Type 0 where
  pub user_id : ℕ
  pub role : String
  pub permissions : List String
  pub twofa_verified : Bool

-- What the handlers read of a request: the address of the client, the header `user-agent`, the id that
-- the middleware gave it, and the session cookie.
pub record HttpRequest : Type 0 where
  pub client_host : Option String
  pub user_agent : Option String
  pub request_id : String
  pub cookie : Option String

-- `headers.get("user-agent", "")`
abbrev pub user_agent_of : HttpRequest → String
user_agent_of q = elim q.user_agent [ none ↦ "" | some ua ↦ ua ]

abbrev pub audit_ctx : HttpRequest → Ctx
audit_ctx q = record {
  actor_type = "user";
  actor_name = none;
  ip = q.client_host;
  user_agent = some (take_text 512 (user_agent_of q));
  request_id = some q.request_id;
}

-- `if not sid`
abbrev pub non_empty : Option String → Option String
non_empty none = none
non_empty (some s) = if s == "" then none else some s

abbrev pub current_user : Session → CurrentUser
current_user s = record {
  user_id = s.user_id;
  role = s.role;
  permissions = s.permissions;
  twofa_verified = s.twofa_verified;
}

unfoldable pub get_current_user :
    (S : SessionSettings) {R : Type 0} (T : SessionStore R) → Option String → ℕ → M R CurrentUser
get_current_user S T cookie now = do
  sid ← lift (or_raise (non_empty cookie) auth_required)
  found ← with_cache (get S T sid now)
  session ← lift (or_raise found auth_required)
  pure (current_user session)

-- `require_perm`
unfoldable pub require_perm : String → CurrentUser → Result CurrentUser
require_perm permission user =
    if contains user.permissions "*" || contains user.permissions permission
    then ok user
    else (if role_has user.role permission then ok user else err perm_denied)
