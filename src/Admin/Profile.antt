-- ===== src/Admin/Profile.antt =====
-- app/api/admin/v1/me.py of Project-source/forge-server: what an operator changes of its own account.
use navtra_license.Prelude.{
  ℕ, Bool, not, List, Option, none, some, String, ◌==◌, nat_eq, string_eq, Field, unset, null,
  value, assign, if◌then◌else◌, auth_required, auth_invalid_credentials, resource_conflict,
  lower_text,
}
use navtra_license.Models.{User}
use navtra_license.World.{M, ◌>>=◌, ◌>>◌, pure, lift, raise_when, modify, commit, select_one}
use navtra_license.Services.Passwords.{hash_password, verify_password}
use navtra_license.Services.Users.{has_email_ever}
use navtra_license.Admin.Access.{CurrentUser}
use navtra_license.Admin.Auth.{AuthDeps, update_row, with_hash}
use navtra_license.Admin.Auth.Routes.{MeOut, own_row}

-- schemas/auth.py
pub record ProfileUpdate : Type 0 where
  pub username : Field String
  pub email : Field String
  pub avatar : Field String

pub record PasswordChange : Type 0 where
  pub current_password : String
  pub new_password : String

-- `body.avatar or None`, where it was sent.
abbrev pub new_avatar : Field String → Option String → Option String
new_avatar unset old = old
new_avatar null old = none
new_avatar (value a) old = if a == "" then none else some a

-- The email that was sent, in lower case.
abbrev pub new_email : Field String → String → String
new_email (value e) old = lower_text e
new_email _ old = old

abbrev pub apply_profile : ProfileUpdate → User → User
apply_profile body u = record u {
  username = assign body.username u.username;
  email = new_email body.email u.email;
  avatar = new_avatar body.avatar u.avatar;
}

-- The row that has the email belongs to somebody else.
abbrev pub taken_by_other : Option User → ℕ → Bool
taken_by_other none id = Bool.false
taken_by_other (some u) id = not (u.id == id)

module _ {R : Type 0} (A : AuthDeps R) where
  -- `_me_out`
  abbrev pub me_out : User → List String → MeOut
  me_out u permissions = record {
    id = A.external.uuid_text u.id;
    email = u.email;
    username = u.username;
    role = u.role;
    avatar = u.avatar;
    twofa_enabled = u.twofa_enabled;
    permissions = permissions;
  }

  unfoldable pub me : CurrentUser → M R MeOut
  me user = do u ← own_row A user auth_required; pure (me_out u user.permissions)

  -- The test of a new email.
  unfoldable pub check_email : CurrentUser → Field String → M R (Unit {0})
  check_email user unset = pure tt
  check_email user null = pure tt
  check_email user (value e) = do
    existing ← select_one (λ db. db.users) (has_email_ever (lower_text e))
    raise_when (taken_by_other existing user.user_id) resource_conflict

  unfoldable pub update_my_profile : ProfileUpdate → CurrentUser → M R MeOut
  unfolding check_email
  update_my_profile body user = do
    u ← own_row A user auth_required
    check_email user body.email
    modify (update_row A u.id (apply_profile body))
    commit
    pure (me_out (apply_profile body u) user.permissions)

  unfoldable pub change_my_password : String → PasswordChange → CurrentUser → M R (Unit {0})
  change_my_password salt body user = do
    u ← own_row A user auth_required
    good ← lift (verify_password A.argon body.current_password u.password_hash)
    raise_when (not good) auth_invalid_credentials
    modify (update_row A u.id (with_hash A (hash_password A.argon salt body.new_password)))
    commit

-- `my_permissions`
abbrev pub my_permissions : CurrentUser → List String × String
my_permissions user = (user.permissions, user.role)
