-- ===== src/Admin/Bootstrap.antt =====
-- app/cli/__init__.py of Project-source/forge-server: what the commands do in the database.
use navtra_license.Prelude.{ℕ, Bool, true, false, [], ◌∷◌, ◌++◌, Option, none, some, String}
use navtra_license.Models.{User, Purpose}
use navtra_license.World.{M, ◌>>=◌, ◌>>◌, pure, modify, commit, select_one}
use navtra_license.Audit.{log}
use navtra_license.Services.External.{External, Settings}
use navtra_license.Services.Keys.{NewKey, ensure_keys, require_active}
use navtra_license.Services.Passwords.{Argon, hash_password}
use navtra_license.Services.Users.{has_email_ever}

abbrev pub default_email : String
default_email = "forge@navtra.ai"

-- What the default super admin draws: the salt, the key of the row and the clock.
pub record NewAdmin : Type 0 where
  pub salt : String
  pub row_id : ℕ
  pub at : ℕ

abbrev pub default_admin : Argon → NewAdmin → User
default_admin G n = record {
  id = n.row_id;
  email = default_email;
  username = "Admin";
  password_hash = hash_password G n.salt default_email;
  role = "super_admin";
  avatar = none;
  is_active = true;
  twofa_enabled = false;
  twofa_secret_ciphertext = none;
  twofa_dek_wrapped = none;
  backup_codes_ciphertext = none;
  backup_codes_dek_wrapped = none;
  last_login_at = none;
  created_at = n.at;
  created_by = none;
  updated_by = none;
  deleted_at = none;
}

module _ (X : External) (S : Settings) {R : Type 0} where
  -- The super admin, where no row has the email; `str(user.id)` is `None` before the flush.
  unfoldable pub add_admin : Argon → NewAdmin → Option User → M R Bool
  add_admin G n (some u) = pure false
  add_admin G n none = do
    modify λ db. record db { users = db.users ++ (default_admin G n ∷ []) }
    log
        (record {
          action = "bootstrap_super_admin";
          result = "success";
          actor_id = none;
          resource_type = some "user";
          resource_id = some "None";
          reason = none;
          metadata = [];
        })
        (record {
          actor_type = "cli";
          actor_name = some "Admin";
          ip = none;
          user_agent = none;
          request_id = none;
        })
    pure true

  -- `_bootstrap`: whether the admin was created, and the ids of the keys
  unfoldable pub bootstrap : Argon → NewAdmin → NewKey → NewKey → M R (Bool × (String × String))
  unfolding add_admin
  bootstrap G n m e = do
    existing ← select_one (λ db. db.users) (has_email_ever default_email)
    created ← add_admin G n existing
    key_ids ← ensure_keys X S m e
    commit
    pure (created, key_ids)

  -- `_ensure_keys`
  unfoldable pub init_keys : NewKey → NewKey → M R (String × String)
  init_keys m e = do key_ids ← ensure_keys X S m e; commit; pure key_ids

  -- `_export_public`
  unfoldable pub export_public_key : Purpose → M R String
  export_public_key purpose = do key ← require_active purpose; pure key.public_key
