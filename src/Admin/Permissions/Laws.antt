-- ===== src/Admin/Permissions/Laws.antt =====
-- Which roles have which permissions.
use navtra_license.Prelude.{
  ◌≡◌, refl, Bool, true, false, ◌||◌, List, [], ◌∷◌, String, contains, not, ◌&&◌, ◌==◌, string_eq,
  arith, inl, inr, Bool-cases,
}
use navtra_license.Admin.Permissions.P
use navtra_license.Admin.Permissions.{
  admin_permissions, auditor_permissions, platform_roles, role_perms, role_has, registry_consistent,
}

-- What is left to the super admin.
abbrev pub restricted_permissions : List String
restricted_permissions =
    P.license_revoke ∷ P.license_delete ∷ P.product_delete ∷ P.customer_delete ∷ P.user_read
    ∷ P.user_write ∷ P.user_delete ∷ P.key_read ∷ P.key_manage ∷ P.settings_read ∷ P.settings_write
    ∷ []

abbrev pub Restricted : String → Type 0
Restricted p = contains restricted_permissions p ≡ true

-- None of the permissions is among those of a role.
abbrev withheld : List String → List String → Bool
withheld perms [] = true
withheld perms (p ∷ ps) = not (contains perms "*" || contains perms p) && withheld perms ps

contains-withheld :
    (perms ps : List String) (p : String)
    → withheld perms ps ≡ true
    → contains ps p ≡ true
    → (contains perms "*" || contains perms p) ≡ false
contains-withheld perms [] p h e = absurd (ground arith)
contains-withheld perms (x ∷ xs) p h e = elim (Bool-cases (p == x)) [
  | inl same ↦ let is : x ≡ p = ground arith in let h' = rw is at h in ground arith
  | inr other ↦ contains-withheld perms xs p (ground (arith, h)) (ground (arith, other, e))
]

admins_without : withheld admin_permissions restricted_permissions ≡ true
unfolding admin_permissions string_eq
admins_without = refl

auditors_without : withheld auditor_permissions restricted_permissions ≡ true
unfolding auditor_permissions string_eq
auditors_without = refl

pub only_super_admin :
    (p role : String) → Restricted p → role_has role p ≡ true → role ≡ "super_admin"
unfolding role_has role_perms platform_roles
only_super_admin p role restricted has = elim (Bool-cases (role == "super_admin")) [
  | inl is ↦ ground arith
  | inr no_ ↦ elim (Bool-cases (role == "admin")) [
    | inl admin ↦ absurd (
        ground (
          arith,
          rw (no_, admin) at has,
          contains-withheld admin_permissions restricted_permissions p admins_without restricted,
        ))
    | inr not_admin ↦ elim (Bool-cases (role == "auditor")) [
      | inl auditor ↦ absurd (
          ground (
            arith,
            rw (no_, not_admin, auditor) at has,
            contains-withheld auditor_permissions restricted_permissions p auditors_without
                restricted,
          ))
      | inr none_ ↦ absurd (ground (arith, rw (no_, not_admin, none_) at has))
    ]
  ]
]

consistent : registry_consistent platform_roles ≡ true
unfolding registry_consistent platform_roles admin_permissions auditor_permissions string_eq
consistent = refl
