-- ===== src/Tests/Admin.antt =====
-- Issuance, revocation, deletion and the list of revoked licenses.
use navtra_license.Services.Users.{active_super_admins}
use navtra_license.Prelude.{
  ◌⊎◌, err, system_internal_error, ◌∷◌, [], ◌≤◌, arith, count_by, ℕ, ◌≡◌, refl, true, false, [],
  none, some, String, ok, contains, nat_eq, string_eq, option_eq, ◌==◌, filter_by, count_by,
}
use navtra_license.Models.{
  SigningKey, User, edge_lease, CrlBundle, mode_eq, status_eq, purpose_eq, master, Status,
}
use navtra_license.World.{World, one_or_none}
use navtra_license.Audit.{log}
use navtra_license.Services.Keys.Laws.{ensure_keys_twice}
use navtra_license.Services.Keys.{NewKey, ensure_keys, get_active, decrypt_private, kek_for}
use navtra_license.Services.Crl.{generate, publish, revoked_ids, version_taken}
use navtra_license.Services.Crl.Laws.{Published, generate-Published, generate-total}
use navtra_license.Services.Licenses.{has_id, revoke, delete_license}
use navtra_license.Services.Licenses.Laws.{Gone, revoke-delete_license-listed, delete_license-Gone}
use navtra_license.Services.Issuance.{
  Terms, Fresh, issue_offline, seal, resolve, compute_active_until, hex_run,
}
use navtra_license.Services.Issuance.Laws.{Sealed, issue_offline-Sealed}
use navtra_license.Tests.{
  external0, settings0, license1, key0, tables0, world0, ctx0, is_ok, value, runs,
}

master_key : get_active master tables0 ≡ some key0
unfolding get_active filter_by purpose_eq
master_key = refl

generated : is_ok (generate external0 settings0 100 (λ v. "1") none ctx0 world0).0 ≡ true
unfolding generate get_active filter_by purpose_eq decrypt_private publish version_taken count_by
    log
generated = refl

crl_example :
    Published external0 settings0 100
      (value (generate external0 settings0 100 (λ v. "1") none ctx0 world0).0 generated)
      world0
      (generate external0 settings0 100 (λ v. "1") none ctx0 world0).1
crl_example =
    generate-Published external0 settings0 100 (λ v. "1") none ctx0 world0
      (generate external0 settings0 100 (λ v. "1") none ctx0 world0).1
      (value (generate external0 settings0 100 (λ v. "1") none ctx0 world0).0 generated)
      (runs (generate external0 settings0 100 (λ v. "1") none ctx0 world0) generated)

pub found1 : one_or_none (filter_by (has_id 2) tables0.licenses) ≡ ok (some license1)
unfolding filter_by nat_eq
found1 = refl

pub live1 : (license1.status == Status.revoked) ≡ false
unfolding status_eq
live1 = refl

pub clean1 :
    one_or_none (filter_by (λ r. r.license_id == some license1.id) tables0.revocations) ≡ ok none
unfolding filter_by
clean1 = refl

parsed1 : external0.parse_uuid "a" ≡ some 2
unfolding string_eq
parsed1 = refl

listed_example :
    contains
      (revoked_ids
        (delete_license external0 "a" none ctx0
          (revoke external0 200 "a" "fraud" none ctx0 world0).1).1.committed)
      "a"
    ≡ true
listed_example =
    revoke-delete_license-listed external0 200 "a" "fraud" none ctx0 world0 "a" none ctx0 parsed1
      found1 live1 clean1 refl

deleted : is_ok (delete_license external0 "a" none ctx0 world0).0 ≡ true
unfolding delete_license string_eq filter_by nat_eq log
deleted = refl

deletion_example :
    (id : ℕ) × (external0.parse_uuid "a" ≡ some id)
    × Gone id (delete_license external0 "a" none ctx0 world0).1.committed
    × (revoked_ids (delete_license external0 "a" none ctx0 world0).1.committed
        ≡ revoked_ids tables0)
deletion_example =
    delete_license-Gone external0 "a" none ctx0 world0
      (delete_license external0 "a" none ctx0 world0).1
      (runs (delete_license external0 "a" none ctx0 world0) deleted)

abbrev pub terms0 : Terms
terms0 = record {
  customer_id = "b";
  product_id = "b";
  term_preset = "1y";
  subscription = "Enterprise";
  quotas = "{}";
  features = [];
}

abbrev pub fresh0 : Fresh
fresh0 = record { now = 100; id = 3; license_id = 13; online_code = "code-3" }

abbrev pub fingerprint0 : String
fingerprint0 = "0123456789abcdef0123456789abcdef0123456789abcdef0123456789abcdef"

issued :
    is_ok (issue_offline external0 settings0 fresh0 terms0 fingerprint0 none none ctx0 world0).0
    ≡ true
unfolding issue_offline hex_run resolve string_eq filter_by nat_eq get_active purpose_eq
    compute_active_until seal decrypt_private log
issued = refl

sealed_example :
    Sealed external0 settings0 fingerprint0 world0
      (issue_offline external0 settings0 fresh0 terms0 fingerprint0 none none ctx0 world0).1
      (value
        (issue_offline external0 settings0 fresh0 terms0 fingerprint0 none none ctx0 world0).0
        issued)
sealed_example =
    issue_offline-Sealed external0 settings0 fresh0 terms0 fingerprint0 none none ctx0 world0
      (issue_offline external0 settings0 fresh0 terms0 fingerprint0 none none ctx0 world0).1
      (value (issue_offline external0 settings0 fresh0 terms0 fingerprint0 none none ctx0 world0).0
        issued)
      (runs (issue_offline external0 settings0 fresh0 terms0 fingerprint0 none none ctx0 world0)
        issued)

opened : decrypt_private external0 settings0 key0 ≡ some "private"
unfolding decrypt_private
opened = refl

total_example :
    (bundle : CrlBundle) × (w' : World ℕ) × (generate external0 settings0 100
        (λ v. "1")
        none
        ctx0
        world0
      ≡ (ok bundle, w'))
total_example =
    generate-total external0 settings0 100 (λ v. "1") none ctx0 world0 master_key opened tt

abbrev drawn0 : NewKey
drawn0 = record { private_pem = "private"; public_pem = "pem"; row_id = 9; at = 1 }

keys_example :
    (((ensure_keys external0 settings0 drawn0 drawn0 world0).0 ≡ err system_internal_error)
      × (((get_active master world0.db ≡ none)
            × (external0.encrypt_secret "private" (kek_for external0 settings0 master) ≡ none))
          ⊎ ((get_active edge_lease world0.db ≡ none)
              × (external0.encrypt_secret "private" (kek_for external0 settings0 edge_lease)
                  ≡ none))))
    ⊎ ((k : SigningKey) × (l : SigningKey) × (v : World ℕ) × (ensure_keys external0 settings0 drawn0
            drawn0 world0
          ≡ (ok (k.key_id, l.key_id), v))
        × (get_active master v.db ≡ some k)
        × (get_active edge_lease v.db ≡ some l)
        × (ensure_keys external0 settings0 drawn0 drawn0 v ≡ (ok (k.key_id, l.key_id), v)))
keys_example = ensure_keys_twice external0 settings0 drawn0 drawn0 drawn0 drawn0 world0

abbrev pub user0 : User
user0 = record {
  id = 2;
  email = "root@example.com";
  username = "Root";
  password_hash = "hash";
  role = "super_admin";
  avatar = none;
  is_active = true;
  twofa_enabled = false;
  twofa_secret_ciphertext = none;
  twofa_dek_wrapped = none;
  backup_codes_ciphertext = none;
  backup_codes_dek_wrapped = none;
  last_login_at = none;
  created_at = 0;
  created_by = none;
  updated_by = none;
  deleted_at = none;
}

-- Two super admins.
abbrev pub world2 : World ℕ
world2 = record world0 { db = record tables0 { users = user0 ∷ record user0 { id = 4 } ∷ [] } }

pub some_admin : 1 ≤ active_super_admins world2.db
unfolding count_by string_eq
some_admin = omega arith
