-- ===== src/Services/Users.antt =====
-- app/api/admin/v1/users.py of Project-source/forge-server, with the lookups of
-- app/repositories/user.py. `actor` is the operator of the request: `require_perm` has let it in, and
-- its `user_id` is the text of a key. The sessions of a user live in the cache; `logout` is their
-- global end.
pub mod Laws
pub mod Requests
use navtra_license.Prelude.{
  ℕ, map, ◌&&◌, ◌||◌, not, Bool, true, false, List, [], ◌∷◌, ◌++◌, Option, none, some, String,
  codes, leb, is_none, is_some, count_by, filter_by, update_where, take, drop, length, or_raise,
  ◌==◌, nat_eq, string_eq, resource_not_found, resource_conflict, system_internal_error,
  user_self_lockout, user_last_super_admin, ok, lower_text, Field, unset, field_value, is_null,
  assign, if◌then◌else◌,
}
use navtra_license.Models.{User, Metadata, text, flag}
use navtra_license.World.{
  M, Db, ◌>>=◌, ◌>>◌, pure, lift, raise_when, query, modify, commit, select_one, one_or_none,
}
use navtra_license.Audit.{Ctx, Event, log}
use navtra_license.Services.External.{External}
use navtra_license.Services.Repository.{list_page}
use navtra_license.Services.Passwords.{Argon, hash_password}

-- schemas/user.py: the bodies, after validation, and `UserOut`.
pub record UserCreate : Type 0 where
  pub email : String
  pub username : String
  pub role : String
  pub password : Option String

pub record UserUpdate : Type 0 where
  pub username : Field String
  pub role : Field String
  pub is_active : Field Bool

pub record UserOut : Type 0 where
  pub id : String
  pub email : String
  pub username : String
  pub role : String
  pub is_active : Bool
  pub twofa_enabled : Bool
  pub last_login_at : Option ℕ
  pub created_at : ℕ

abbrev pub has_user_id : ℕ → User → Bool
has_user_id id u = u.id == id && is_none u.deleted_at

-- `get_by_email`, among the live rows or among all.
abbrev pub has_email : String → User → Bool
has_email email u = u.email == lower_text email && is_none u.deleted_at

abbrev pub has_email_ever : String → User → Bool
has_email_ever email u = u.email == lower_text email

abbrev pub is_active_super_admin : User → Bool
is_active_super_admin u = u.role == "super_admin" && (u.is_active && is_none u.deleted_at)

-- `_active_super_admins`
abbrev pub active_super_admins : Db → ℕ
active_super_admins db = count_by is_active_super_admin db.users

-- `BaseRepository.soft_delete`
abbrev pub soft_delete : ℕ → ℕ → User → User
soft_delete now actor u = record u { deleted_at = some now; updated_by = some actor }

-- `pw = body.password or email`: an empty text is no password.
abbrev pub password_or : Option String → String → String
password_or none email = email
password_or (some p) email = if p == "" then email else p

abbrev pub user_event : String → ℕ → String → Metadata → Event
user_event action actor email metadata = record {
  action = action;
  result = "success";
  actor_id = some actor;
  resource_type = some "user";
  resource_id = some email;
  reason = none;
  metadata = metadata;
}

-- The tests of `update_user` on a body and a row.
abbrev pub demoting : UserUpdate → User → Bool
demoting body u = elim (field_value body.role) [
  | none ↦ false
  | some role ↦ not (role == "super_admin") && u.role == "super_admin"
]

abbrev pub disabling : UserUpdate → User → Bool
disabling body u = elim (field_value body.is_active) [
  | none ↦ false
  | some active ↦ not active && u.is_active
]

abbrev pub role_changed : UserUpdate → User → Bool
role_changed body u = elim (field_value body.role) [
  | none ↦ false
  | some role ↦ not (role == u.role)
]

-- A null for a column that takes none fails the flush of the commit.
abbrev pub names_null : UserUpdate → Bool
names_null body = is_null body.username || (is_null body.role || is_null body.is_active)

-- The loop of `setattr`.
abbrev pub apply_update : ℕ → UserUpdate → User → User
apply_update actor body u = record u {
  username = assign body.username u.username;
  role = assign body.role u.role;
  is_active = assign body.is_active u.is_active;
  updated_by = some actor;
}

abbrev pub with_password : ℕ → String → User → User
with_password actor hash u = record u { password_hash = hash; updated_by = some actor }

module _ (X : External) where
  -- `_out`
  abbrev pub user_out : User → UserOut
  user_out u = record {
    id = X.uuid_text u.id;
    email = u.email;
    username = u.username;
    role = u.role;
    is_active = u.is_active;
    twofa_enabled = u.twofa_enabled;
    last_login_at = u.last_login_at;
    created_at = u.created_at;
  }

  unfoldable pub list_users : {R : Type 0} → ℕ → ℕ → M R (List UserOut × ℕ)
  list_users page page_size = query λ db.
      let answer =
        list_page (λ u. is_none u.deleted_at) (λ u. u.created_at) page page_size db.users in
      (map user_out answer.0, answer.1)

  abbrev pub created_user : Argon → String → ℕ → ℕ → ℕ → UserCreate → User
  created_user G salt now id actor body = record {
    id = id;
    email = lower_text body.email;
    username = body.username;
    password_hash = hash_password G salt (password_or body.password (lower_text body.email));
    role = body.role;
    avatar = none;
    is_active = true;
    twofa_enabled = false;
    twofa_secret_ciphertext = none;
    twofa_dek_wrapped = none;
    backup_codes_ciphertext = none;
    backup_codes_dek_wrapped = none;
    last_login_at = none;
    created_at = now;
    created_by = some actor;
    updated_by = none;
    deleted_at = none;
  }

  -- `create_user`, with the salt, the instant and the key of the row that it draws
  unfoldable pub create_user :
      {R : Type 0} → Argon → String → ℕ → ℕ → ℕ → UserCreate → Ctx → M R UserOut
  create_user G salt now id actor body ctx = do
    existing ← select_one (λ db. db.users) (has_email_ever (lower_text body.email))
    raise_when (is_some existing) resource_conflict
    modify λ db. record db { users = db.users ++ (created_user G salt now id actor body ∷ []) }
    log
        (user_event "user.create" actor (lower_text body.email)
          (("role", text (codes body.role)) ∷ []))
        ctx
    commit
    pure (user_out (created_user G salt now id actor body))

  -- `users.get(uuid.UUID(user_id))`, and `RESOURCE_NOT_FOUND` where there is none
  unfoldable pub get_user : {R : Type 0} → String → M R User
  get_user user_id = do
    id ← lift (or_raise (X.parse_uuid user_id) system_internal_error)
    row ← select_one (λ db. db.users) (has_user_id id)
    lift (or_raise row resource_not_found)

module _ (X : External) {R : Type 0} (logout : R → ℕ → R) where
  -- `SessionService().destroy_all_for_user(str(u.id))`
  abbrev pub end_sessions : ℕ → M R (Unit {0})
  end_sessions id w = (ok tt, record w { cache = logout w.cache id })

  abbrev pub end_sessions_when : Bool → ℕ → M R (Unit {0})
  end_sessions_when b id = if b then end_sessions id else pure tt

  unfoldable pub update_user : ℕ → String → UserUpdate → Ctx → M R UserOut
  unfolding get_user
  update_user actor user_id body ctx = do
    u ← get_user X user_id
    raise_when (u.id == actor && (disabling body u || demoting body u)) user_self_lockout
    admins ← query active_super_admins
    raise_when ((disabling body u || demoting body u) && (u.role == "super_admin" && leb admins 1))
        user_last_super_admin
    raise_when (names_null body) system_internal_error
    modify λ db. record db {
      users = update_where (λ v. v.id == u.id) (apply_update actor body) db.users;
    }
    log
        (user_event "user.update" actor u.email (
          ("role", text (codes (apply_update actor body u).role))
          ∷ ("is_active", flag (apply_update actor body u).is_active)
          ∷ []))
        ctx
    commit
    end_sessions_when (role_changed body u || disabling body u) u.id
    pure (user_out X (apply_update actor body u))

  unfoldable pub reset_password : Argon → String → ℕ → String → Option String → Ctx → M R (Unit {0})
  unfolding get_user
  reset_password G salt actor user_id new_password ctx = do
    u ← get_user X user_id
    modify λ db. record db {
      users =
          update_where (λ v. v.id == u.id)
            (with_password actor (hash_password G salt (password_or new_password u.email)))
            db.users;
    }
    log (user_event "user.reset_password" actor u.email []) ctx
    commit
    end_sessions u.id

  unfoldable pub delete_user : ℕ → ℕ → String → Ctx → M R (Unit {0})
  unfolding get_user
  delete_user now actor user_id ctx = do
    u ← get_user X user_id
    raise_when (u.id == actor) user_self_lockout
    admins ← query active_super_admins
    raise_when (u.role == "super_admin" && leb admins 1) user_last_super_admin
    modify λ db. record db {
      users = update_where (λ v. v.id == u.id) (soft_delete now actor) db.users;
    }
    log (user_event "user.delete" actor u.email []) ctx
    commit
    end_sessions u.id
