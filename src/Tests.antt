-- ===== src/Tests.antt =====
-- Concrete keys, codecs, tables and requests, on which the children run the theorems.
pub mod Token
pub mod Sdk
pub mod Online
pub mod Server
pub mod Admin
pub mod Deployed
pub mod Redis
pub mod Auth
pub mod Catalog
pub mod Envelope
pub mod Errors
pub mod Host
use navtra_license.Prelude.{
  ℕ, ◌+◌, arith, ◌≡◌, refl, Bool, true, false, List, [], ◌∷◌, Option, none, some, String, Result,
  ok, err, ◌==◌, text_eq, string_eq, if◌then◌else◌,
}
use navtra_license.Models.{
  License, Binding, Lease, SigningKey, Customer, Product, Status, BindingStatus, online, offline,
  master, edge_lease,
}
use navtra_license.World.{World, Db, M}
use navtra_license.Audit.{Ctx}
use navtra_license.Licensing.Token.{Dict, str, strs, Codec}
use navtra_license.Services.External.{External, Settings}
use navtra_license.Services.Edge.{Request}
use navtra_license.Services.Leases.{HotLease, LeaseCache, Draws}

-- The one payload that the test codec knows, `{"license_id": "a", ...}`.
abbrev pub payload0 : Dict
payload0 =
    ("license_id", str "a")
    ∷ ("binding", str "hard")
    ∷ ("bound_fingerprint", str "fp-1")
    ∷ ("active_until", str "later")
    ∷ []

abbrev pub codec0 : Codec
codec0 = record {
  dumps = λ _. 123 ∷ 125 ∷ [];
  loads = λ _. some payload0;
  PublicKey = String;
  load_pem = λ pem. some pem;
  verifies = λ key signature m. signature == 9 ∷ m;
}

abbrev pub external0 : External
external0 = record {
  codec = codec0;
  sha256 = λ s. s;
  sign = λ key m. 9 ∷ m;
  decrypt_secret = λ ciphertext dek kek. some ciphertext;
  encrypt_secret = λ secret kek. if kek == "" then none else some (secret, "dek");
  uuid_text = λ n. "a";
  parse_uuid = λ s. if s == "a" then some 2 else some 1;
  isoformat = λ t. "later";
  add_years_months = λ t years months. t + years + months;
}

abbrev pub settings0 : Settings
settings0 = record {
  lease_ttl_seconds = 300;
  lease_grace_seconds = 600;
  offline_perpetual_years = 99;
  forge_field_encryption_key = "kek";
  forge_edge_kek = "";
}

-- A cache that never has a hot lease.
abbrev pub cache0 : LeaseCache ℕ
cache0 = record { get = λ r now key. none; set = λ r now key lease ttl. r + 1 }

abbrev pub license0 : License
license0 = record {
  id = 1;
  license_id = 11;
  customer_id = 1;
  product_id = 1;
  signing_key_id = 1;
  mode = online;
  online_code = some "code-1";
  offline_blob = none;
  term_preset = "1y";
  active_from = 0;
  active_until = some 1000000000;
  subscription = "Enterprise";
  quotas = "{}";
  features = [];
  scope = "customer_x_product";
  binding = "hard";
  bound_fingerprint = none;
  cluster_id = none;
  seat_limit = 2;
  seat_used = 1;
  status = Status.active;
  alg = "ed25519";
  issued_by = none;
  issued_at = 0;
  created_at = 0;
  activated_at = none;
  revoked_at = none;
  revoke_reason = none;
  deleted_at = none;
}

abbrev pub license1 : License
license1 = record license0 {
  id = 2;
  license_id = 12;
  mode = offline;
  online_code = none;
  seat_limit = 1;
  seat_used = 0;
}

abbrev pub binding0 : Binding
binding0 = record {
  id = 5;
  license_id = 1;
  fingerprint = "fp-1";
  cluster_id = none;
  status = BindingStatus.active;
  first_seen_at = 0;
  last_seen_at = 0;
  lease_expires_at = none;
  install_id = some "install-1";
  signals = none;
  deployment_uid = none;
  last_heartbeat_at = some 0;
  deleted_at = none;
}

abbrev pub key0 : SigningKey
key0 = record {
  id = 1;
  key_id = "master-1";
  alg = "ed25519";
  public_key = "pem";
  private_key_ciphertext = "private";
  dek_wrapped = "dek";
  purpose = master;
  is_active = true;
  created_at = 0;
  deleted_at = none;
}

abbrev pub product0 : Product
product0 = record {
  id = 1;
  slug = "p";
  name = "P";
  description = none;
  features_template = [];
  quotas_template = "{}";
  default_alg = "ed25519";
  is_active = true;
  created_at = 0;
  created_by = none;
  updated_by = none;
  deleted_at = none;
}

abbrev pub customer0 : Customer
customer0 = record {
  id = 1;
  name = "C";
  contact_name = none;
  contact_email = none;
  notes = none;
  created_at = 0;
  created_by = none;
  updated_by = none;
  deleted_at = none;
}

abbrev pub tables0 : Db
tables0 = record {
  licenses = license0 ∷ license1 ∷ [];
  bindings = binding0 ∷ [];
  leases =
      record {
        license_id = 1;
        binding_id = 5;
        token_hash = "token";
        expires_at = 300;
        grace_until = 600;
        revoked = false;
      }
      ∷ [];
  clone_alerts = [];
  revocations = [];
  crl_bundles = [];
  signing_keys = key0 ∷ record key0 { id = 2; purpose = edge_lease } ∷ [];
  products = product0 ∷ [];
  customers = customer0 ∷ [];
  users = [];
  audit_log = [];
}

abbrev pub world0 : World ℕ
world0 = record { db = tables0; committed = tables0; cache = 0 }

abbrev pub ctx0 : Ctx
ctx0 = record {
  actor_type = "client";
  actor_name = none;
  ip = none;
  user_agent = none;
  request_id = none;
}

abbrev pub draws0 : Draws
draws0 = record {
  checked_at = 100;
  bound_at = 100;
  minted_at = 100;
  validation_token = "token-2";
  binding_id = 6;
  alert_id = 7;
  lock_replies = λ i. true;
}

-- A second host for the first license.
abbrev pub request0 : Request
request0 = record {
  online_code = "code-1";
  fingerprint = "fp-2";
  cluster_id = none;
  install_id = none;
  signals = none;
  deployment_uid = none;
}

abbrev pub is_ok : {A : Type 0} → Result A → Bool
is_ok (ok a) = true
is_ok (err e) = false

pub value : {A : Type 0} (r : Result A) → is_ok r ≡ true → A
value (ok a) e = a
value (err c) e = absurd (ground arith)

-- What a handler that succeeds gives.
pub runs :
    {R A : Type 0} (p : Result A × World R) (e : is_ok p.0 ≡ true) → p ≡ (ok (value p.0 e), p.1)
unfolding value
runs (ok a, w) e = refl
runs (err c, w) e = absurd (ground arith)
