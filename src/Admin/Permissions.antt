-- ===== src/Admin/Permissions.antt =====
-- app/permissions/registry.py and app/permissions/roles.py of Project-source/forge-server. A set of
-- permissions is a list, of which only membership is used.
pub mod P
pub mod Laws
use navtra_license.Prelude.{
  Bool, true, false, ◌&&◌, ◌||◌, List, [], ◌∷◌, Option, none, some, String, contains, find_first,
  ◌==◌, string_eq, if◌then◌else◌,
}
use navtra_license.Services.Crl.{sorted}
use navtra_license.Admin.Permissions.P

-- `ALL_PERMISSIONS`
abbrev pub all_permissions : List String
all_permissions =
    P.license_read ∷ P.license_issue ∷ P.license_update ∷ P.license_revoke ∷ P.license_delete
    ∷ P.product_read ∷ P.product_write ∷ P.product_delete ∷ P.customer_read ∷ P.customer_write
    ∷ P.customer_delete ∷ P.user_read ∷ P.user_write ∷ P.user_delete ∷ P.audit_read ∷ P.audit_export
    ∷ P.key_read ∷ P.key_manage ∷ P.settings_read ∷ P.settings_write ∷ P.crl_generate ∷ []

-- `PLATFORM_ROLES`
unfoldable pub admin_permissions : List String
admin_permissions =
    P.license_read ∷ P.license_issue ∷ P.license_update ∷ P.product_read ∷ P.product_write
    ∷ P.customer_read ∷ P.customer_write ∷ P.crl_generate ∷ []

unfoldable pub auditor_permissions : List String
auditor_permissions = P.audit_read ∷ P.audit_export ∷ P.license_read ∷ []

unfoldable pub platform_roles : List (String × List String)
platform_roles =
    ("super_admin", "*" ∷ []) ∷ ("admin", admin_permissions) ∷ ("auditor", auditor_permissions) ∷ []

-- `PLATFORM_ROLES.get(role, set())`
abbrev perms_of : List (String × List String) → String → List String
perms_of [] role = []
perms_of ((name, perms) ∷ rest) role = if role == name then perms else perms_of rest role

unfoldable pub role_perms : String → List String
role_perms role = perms_of platform_roles role

unfoldable pub role_has : String → String → Bool
role_has role permission = contains (role_perms role) "*" || contains (role_perms role) permission

-- `_permissions_for` of app/services/auth_service.py
unfoldable pub permissions_for : String → List String
permissions_for role = if contains (role_perms role) "*" then "*" ∷ [] else sorted (role_perms role)

-- `assert_registry_consistent`: false where it raises.
unfoldable pub registered : List String → Bool
registered [] = true
registered (p ∷ ps) = (p == "*" || contains all_permissions p) && registered ps

unfoldable pub registry_consistent : List (String × List String) → Bool
unfolding registered
registry_consistent [] = true
registry_consistent ((role, perms) ∷ rest) = registered perms && registry_consistent rest
