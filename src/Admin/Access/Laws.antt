-- ===== src/Admin/Access/Laws.antt =====
-- A session made at a login may do what its role may, and no more.
use navtra_license.Prelude.{
  ◌≡◌, refl, ◌||◌, String, ok, err, contains, string_eq, arith, inl, inr, Bool-cases, ◌∙◌, sym,
  perm_denied, if◌then◌else◌,
}
use navtra_license.Services.Crl.Laws.{contains-sorted}
use navtra_license.Admin.Permissions.{role_has, role_perms, permissions_for}
use navtra_license.Admin.Permissions.Laws.{Restricted, only_super_admin}
use navtra_license.Admin.Access.{CurrentUser, require_perm}

-- What a login stores for a role lets the same through as the role.
snapshot :
    (role permission : String)
    → (contains (permissions_for role) "*" || contains (permissions_for role) permission)
      ≡ role_has role permission
unfolding permissions_for role_has
snapshot role permission = elim (Bool-cases (contains (role_perms role) "*")) [
  | inl all_ ↦ rw all_ (ground arith)
  | inr some_ ↦
      rw
        (
          some_,
          contains-sorted "*" (role_perms role),
          contains-sorted permission (role_perms role),
          some_,
        )
        refl
]

-- With the permissions that a login stores for the role, a request passes where the role has the
-- permission, and is refused with PERM_DENIED where it has not.
pub require_perm-role_has :
    (permission : String) (user : CurrentUser)
    → user.permissions ≡ permissions_for user.role
    → require_perm permission user
      ≡ (if role_has user.role permission then ok user else err perm_denied)
unfolding require_perm
require_perm-role_has permission user same =
    rw (same, snapshot user.role permission)
      (elim (Bool-cases (role_has user.role permission)) [
        | inl has ↦ rw has refl
        | inr has_not ↦ rw has_not refl
      ])

-- With the permissions that a login stores for the role, only a super admin passes where a license is
-- revoked or deleted, a product, customer or operator is deleted, operators are read or changed, or
-- keys and settings are read or changed.
pub super_admin_only :
    (permission : String) (user who : CurrentUser)
    → user.permissions ≡ permissions_for user.role
    → Restricted permission
    → require_perm permission user ≡ ok who
    → user.role ≡ "super_admin"
super_admin_only permission user who same restricted passes =
    elim (Bool-cases (role_has user.role permission)) [
      | inl has ↦ only_super_admin permission user.role restricted has
      | inr has_not ↦
          let refused : require_perm permission user ≡ err perm_denied =
            require_perm-role_has permission user same ∙ rw has_not refl in
          absurd (ground (arith, sym refused ∙ passes))
    ]
