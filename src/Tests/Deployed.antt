-- ===== src/Tests/Deployed.antt =====
-- An issued license in the SDK, before and after its revocation.
use navtra_license.Prelude.{
  ℕ, ◌≡◌, refl, subst, Bool-cases, inl, inr, true, false, List, [], ◌∷◌, none, some, String, ok,
  All, contains, arith, nat_eq, string_eq, text_eq, option_eq, ◌==◌, filter_by, if◌then◌else◌,
}
use navtra_license.Models.{Customer, Product, License, mode_eq, purpose_eq, status_eq, Status}
use navtra_license.World.{World, one_or_none}
use navtra_license.Audit.{log}
use navtra_license.Licensing.Token.{Dict, Json, str, get}
use navtra_license.Sdk.Verifier.{Request, Verdict, verdict, revoked, unlocked, verify_offline}
use navtra_license.Services.External.{External}
use navtra_license.Services.Keys.{get_active, decrypt_private}
use navtra_license.Services.Crl.{revoked_ids}
use navtra_license.Services.Licenses.{has_id, revoke, delete_license}
use navtra_license.Services.Issuance.{
  offline_license, sealed_blob, build_payload, issue_offline, seal, resolve, compute_active_until,
  hex_run,
}
use navtra_license.Deployment.Reading.{ReadsBack, ReadsTimes, Pair, checked_fields}
use navtra_license.Deployment.{Embeds, issue_offline-unlocked, revoke-verify_offline}
use navtra_license.Tests.{external0, settings0, key0, tables0, world0, ctx0, product0, customer0}
use navtra_license.Tests.Admin.{terms0, fresh0, fingerprint0}
use navtra_license.Tests.Sdk.{iso0, iso0-IsIso, format}

-- What the codec of this test reads: the checked fields of the license below.
abbrev payload1 : Dict
payload1 =
    ("binding", str "hard")
    ∷ ("bound_fingerprint", str fingerprint0)
    ∷ ("license_id", str "a")
    ∷ ("active_until", str (format 101))
    ∷ []

abbrev external1 : External
external1 = record external0 {
  codec = record {
    dumps = λ _. 123 ∷ 125 ∷ [];
    loads = λ _. some payload1;
    PublicKey = String;
    load_pem = λ pem. some pem;
    verifies = λ key signature m. signature == 9 ∷ [];
  };
  sign = λ key m. 9 ∷ [];
  isoformat = format;
  parse_uuid = λ s. if s == "a" then some 3 else some 1;
}

abbrev row1 : License
row1 =
    offline_license external1 settings0 fresh0 terms0 fingerprint0 none customer0 product0 key0
      (some 101) none

abbrev blob1 : List ℕ
blob1 = sealed_blob external1 settings0 row1 customer0 product0 key0 "private"

abbrev issued1 : License
issued1 = record row1 { offline_blob = some blob1 }

issues1 : issue_offline external1 settings0 fresh0 terms0 fingerprint0 none none ctx0 world0 ≡ (
  ok issued1,
  (issue_offline external1 settings0 fresh0 terms0 fingerprint0 none none ctx0 world0).1,
)
unfolding issue_offline hex_run resolve string_eq filter_by nat_eq get_active purpose_eq
    compute_active_until seal decrypt_private log
issues1 = refl

abbrev request1 : Request
request1 = record {
  blob = blob1;
  master_public_pem = "pem";
  local_fingerprint = fingerprint0;
  revoked_license_ids = [];
  now = 50;
  state = none;
  crl_version = none;
  crl_generated_at = none;
  max_crl_age_days = none;
  clock_skew_minutes = 10;
}

times1 : ReadsTimes external1 iso0
times1 = record { parse-isoformat = iso0-IsIso.parse-format; isoformat_ne = iso0-IsIso.format_ne }

pair1 : (private : String) → Pair external1 private "pem"
unfolding text_eq
pair1 private = record {
  key = "pem";
  loads = refl;
  verifies = λ m. refl;
  bytes = λ m. (omega arith, tt);
}

embeds1 : Embeds external1 settings0 iso0 world0 "pem"
embeds1 key private active opened = pair1 private

-- What holds of the listed texts holds of a text that is among them.
of_listed :
    (P : String → Type 0) (xs : List String) (key : String)
    → All P xs
    → contains xs key ≡ true
    → P key
of_listed P [] key h e = absurd (ground arith)
of_listed P (x ∷ xs) key (h, hs) e = elim (Bool-cases (key == x)) [
  | inl hit ↦ let same : x ≡ key = ground arith in subst P same h
  | inr miss ↦ of_listed P xs key hs (ground arith)
]

alike1 :
    (c : Customer) (p : Product) (issuer : String)
    → All
        (λ key.
          (default : Json)
          → get payload1 key default
            ≡ get (build_payload external1 settings0 issued1 c p issuer) key default)
        checked_fields
unfolding build_payload get string_eq
alike1 c p issuer = ((λ _. refl), ((λ _. refl), ((λ _. refl), ((λ _. refl), tt))))

reads1 : ReadsBack external1 settings0 issued1
reads1 = record {
  reads = λ c p issuer. (
    payload1,
    refl,
    λ key default e.
        of_listed
          (λ key.
            (default : Json)
            → get payload1 key default
              ≡ get (build_payload external1 settings0 issued1 c p issuer) key default)
          checked_fields key (alike1 c p issuer) e default,
  );
  bytes = λ d. (omega arith, (omega arith, tt));
}

unlocked_example :
    (v : Verdict) × ((verify_offline iso0 external1.codec request1).verdict ≡ some v)
    × (unlocked v.status ≡ true)
unlocked_example =
    issue_offline-unlocked external1 settings0 iso0 times1 fresh0 terms0 fingerprint0 none none ctx0
      world0 (issue_offline external1 settings0 fresh0 terms0 fingerprint0 none none ctx0 world0).1
      issued1 request1 101 issues1 reads1 embeds1 refl refl refl refl refl (omega arith)

-- The issued license among the tables, then revoked.
abbrev world1 : World ℕ
world1 = record world0 { db = record tables0 { licenses = issued1 ∷ [] } }

parsed1 : external1.parse_uuid "a" ≡ some 3
unfolding string_eq
parsed1 = refl

found1 : one_or_none (filter_by (has_id 3) world1.db.licenses) ≡ ok (some issued1)
unfolding filter_by nat_eq
found1 = refl

live1 : (issued1.status == Status.revoked) ≡ false
unfolding status_eq
live1 = refl

clean1 : one_or_none (filter_by (λ x. x.license_id == some 3) world1.db.revocations) ≡ ok none
unfolding filter_by
clean1 = refl

abbrev request2 : Request
request2 = record request1 {
  revoked_license_ids =
      revoked_ids
        (delete_license external1 "a" none ctx0
          (revoke external1 200 "a" "fraud" none ctx0 world1).1).1.committed;
}

revoked_example :
    (read : Dict) × ((verify_offline iso0 external1.codec request2).verdict
      ≡ some (verdict revoked "crl" read))
revoked_example =
    revoke-verify_offline external1 settings0 iso0 times1 fresh0 terms0 fingerprint0 none none ctx0
      world0 (issue_offline external1 settings0 fresh0 terms0 fingerprint0 none none ctx0 world0).1
      issued1 request2 issues1 reads1 embeds1 refl refl refl 200 "a" "fraud" "a" world1 parsed1
      found1 refl live1 clean1 refl refl
