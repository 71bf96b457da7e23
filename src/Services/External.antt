-- ===== src/Services/External.antt =====
-- What the services take from outside the repository: hashing, Ed25519, secrets at rest, the
-- text of identifiers and instants, and the settings of app/settings.py.
use navtra_license.Prelude.{ℕ, String, List, Option}
use navtra_license.Licensing.Token.{Codec}

-- `encrypt_secret` is none where it raises: on a key-encryption key that is empty or of the wrong size;
-- `decrypt_secret` also on a wrong key. Keys in PEM are texts. The envelope is that of
-- Licensing/Envelope, taken with its draws.
pub record External : Type 1 where
  pub codec : Codec
  pub sha256 : String → String
  pub sign : String → List ℕ → List ℕ
  pub decrypt_secret : String → String → String → Option String
  pub encrypt_secret : String → String → Option (String × String)
  pub uuid_text : ℕ → String
  -- `uuid.UUID(value)`, which raises `ValueError`.
  pub parse_uuid : String → Option ℕ
  pub isoformat : ℕ → String
  -- `relativedelta(years=…, months=…)` added to an instant.
  pub add_years_months : ℕ → ℕ → ℕ → ℕ

pub record Settings : Type 0 where
  pub lease_ttl_seconds : ℕ
  pub lease_grace_seconds : ℕ
  pub offline_perpetual_years : ℕ
  pub forge_field_encryption_key : String
  pub forge_edge_kek : String

abbrev pub second : ℕ
second = 1000000
