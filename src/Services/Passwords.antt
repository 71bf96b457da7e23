-- ===== src/Services/Passwords.antt =====
-- app/core/security.py of Project-source/forge-server. argon2 is a parameter; a random salt is an
-- argument.
use navtra_license.Prelude.{
  ℕ, Bool, true, false, ◌&&◌, ◌||◌, List, [], ◌∷◌, String, Result, ok, err, Option, none, some,
  codes, lower, length, ltb, contains, count_by, ◌==◌, nat_eq, text_eq, string_eq,
  auth_password_weak, system_internal_error, if◌then◌else◌,
}

-- How `PasswordHasher.verify` ends: true, `VerifyMismatchError`, `InvalidHashError`, or another of
-- its errors.
pub data Verification : Type 0 where
  matches mismatch invalid_hash fails : Verification

-- `PasswordHasher`: `hash salt password`, `verify stored password`, and `check_needs_rehash`, which
-- may raise `InvalidHashError`.
pub record Argon : Type 0 where
  pub hash : String → String → String
  pub verify : String → String → Verification
  pub check_needs_rehash : String → Option Bool

abbrev pub hash_password : Argon → String → String → String
hash_password G salt plaintext = G.hash salt plaintext

abbrev verification_result : Verification → Result Bool
verification_result matches = ok true
verification_result mismatch = ok false
verification_result invalid_hash = ok false
verification_result fails = err system_internal_error

abbrev pub verify_password : Argon → String → String → Result Bool
verify_password G plaintext stored_hash = verification_result (G.verify stored_hash plaintext)

abbrev pub needs_rehash : Argon → String → Bool
needs_rehash G stored_hash = elim (G.check_needs_rehash stored_hash) [ none ↦ true | some b ↦ b ]

-- `_WEAK`
abbrev weak_passwords : List (List ℕ)
weak_passwords =
    codes "password"
    ∷ codes "123456"
    ∷ codes "12345678"
    ∷ codes "qwerty"
    ∷ codes "admin"
    ∷ codes "forge"
    ∷ codes "letmein"
    ∷ []

abbrev char_groups : List (List ℕ)
char_groups =
    codes "ABCDEFGHIJKLMNOPQRSTUVWXYZ"
    ∷ codes "abcdefghijklmnopqrstuvwxyz"
    ∷ codes "0123456789"
    ∷ codes "!@#$%^&*()-_=+[]{};:,.<>?/|"
    ∷ []

-- `any(c in group for c in password)`
unfoldable pub uses_group : List ℕ → List ℕ → Bool
uses_group [] group = false
uses_group (c ∷ password) group = contains group c || uses_group password group

unfoldable pub char_classes : List ℕ → ℕ
unfolding uses_group
char_classes password = count_by (uses_group password) char_groups

-- The settings of the policy.
pub record PasswordPolicy : Type 0 where
  pub min_length : ℕ
  pub require_char_classes : ℕ
  pub forbid_identity : Bool

abbrev pub equals_identity : List ℕ → String → String → Bool
equals_identity low email username = low == lower (codes username) || low == lower (codes email)

-- `validate_password_policy`; the reasons in the details of the error are left out.
unfoldable pub validate_password_policy :
    PasswordPolicy → String → String → String → Result (Unit {0})
validate_password_policy policy password email username =
    let low = lower (codes password) in
    if ltb (length (codes password)) policy.min_length
    then err auth_password_weak
    else (if ltb (char_classes (codes password)) policy.require_char_classes
        then err auth_password_weak
        else (if contains weak_passwords low
            then err auth_password_weak
            else (if policy.forbid_identity && equals_identity low email username
                then err auth_password_weak
                else ok tt)))

-- `hmac.compare_digest`, whose time does not depend on the texts.
abbrev pub constant_time_equals : String → String → Bool
constant_time_equals a b = a == b
