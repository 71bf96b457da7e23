-- ===== src/Models.antt =====
-- The ORM rows, Project-source/forge-server/app/models/*.py. Primary keys are numbers (uuid7 gives
-- fresh ones), instants are microseconds, texts that the program only compares are `String`.
-- Columns that no modelled operation reads or writes are left out.
use navtra_license.Prelude.{ℕ, String, Bool, Option, List, Eq}

-- `MODES`, `STATUSES`, `BINDING_STATUSES`
pub data Mode : Type 0 where
  online offline : Mode

pub data Status : Type 0 where
  issued active expiring expired revoked locked : Status

pub data BindingStatus : Type 0 where
  active released blocked dead : BindingStatus

-- The values of a metadata dict that the program writes.
pub data MetaValue : Type 0 where
  text : List ℕ → MetaValue
  number : ℕ → MetaValue
  flag : Bool → MetaValue
  missing : MetaValue

abbrev pub Metadata : Type 0
Metadata = List (String × MetaValue)

-- models/license.py
pub record License : Type 0 where
  pub id : ℕ
  pub license_id : ℕ
  pub customer_id : ℕ
  pub product_id : ℕ
  pub signing_key_id : ℕ
  pub mode : Mode
  pub online_code : Option String
  pub offline_blob : Option (List ℕ)
  pub term_preset : String
  pub active_from : ℕ
  pub active_until : Option ℕ
  pub subscription : String
  pub quotas : String
  pub features : List String
  pub scope : String
  pub binding : String
  pub bound_fingerprint : Option String
  pub cluster_id : Option String
  pub seat_limit : ℕ
  pub seat_used : ℕ
  pub status : Status
  pub alg : String
  pub issued_by : Option ℕ
  pub issued_at : ℕ
  pub created_at : ℕ
  pub activated_at : Option ℕ
  pub revoked_at : Option ℕ
  pub revoke_reason : Option String
  pub deleted_at : Option ℕ

-- A signal vector: signal name and its hash.
abbrev pub Signals : Type 0
Signals = List (String × String)

-- `FingerprintBinding`, `CloneAlert` and `Lease` of models/binding.py
pub record Binding : Type 0 where
  pub id : ℕ
  pub license_id : ℕ
  pub fingerprint : String
  pub cluster_id : Option String
  pub status : BindingStatus
  pub first_seen_at : ℕ
  pub last_seen_at : ℕ
  pub lease_expires_at : Option ℕ
  pub install_id : Option String
  pub signals : Option Signals
  pub deployment_uid : Option String
  pub last_heartbeat_at : Option ℕ
  pub deleted_at : Option ℕ

pub record CloneAlert : Type 0 where
  pub id : ℕ
  pub license_id : ℕ
  pub detected_at : ℕ
  pub alive_identities : ℕ
  pub seat_limit : ℕ
  pub sample : Metadata
  pub status : String

pub record Lease : Type 0 where
  pub license_id : ℕ
  pub binding_id : ℕ
  pub token_hash : String
  pub expires_at : ℕ
  pub grace_until : ℕ
  pub revoked : Bool

-- models/revocation.py
pub record Revocation : Type 0 where
  pub license_id : Option ℕ
  pub license_public_id : Option String
  pub mode : Option Mode
  pub reason : Option String
  pub crl_version : Option ℕ

pub record CrlBundle : Type 0 where
  pub version : ℕ
  pub signed_blob : List ℕ
  pub entry_count : ℕ
  pub deleted_at : Option ℕ

-- models/signing_key.py; `PURPOSES`
pub data Purpose : Type 0 where
  master edge_lease : Purpose

pub record SigningKey : Type 0 where
  pub id : ℕ
  pub key_id : String
  pub alg : String
  pub public_key : String
  pub private_key_ciphertext : String
  pub dek_wrapped : String
  pub purpose : Purpose
  pub is_active : Bool
  pub created_at : ℕ
  pub deleted_at : Option ℕ

-- models/audit.py
pub record AuditLog : Type 0 where
  pub action : String
  pub result : String
  pub actor_type : String
  pub actor_id : Option ℕ
  pub actor_name : Option String
  pub resource_type : Option String
  pub resource_id : Option String
  pub reason : Option String
  pub ip : Option String
  pub user_agent : Option String
  pub request_id : Option String
  pub metadata : Metadata

-- models/user.py; `ROLES`. A session and a database row may hold any text as a role.
pub record User : Type 0 where
  pub id : ℕ
  pub email : String
  pub username : String
  pub password_hash : String
  pub role : String
  pub avatar : Option String
  pub is_active : Bool
  pub twofa_enabled : Bool
  pub twofa_secret_ciphertext : Option String
  pub twofa_dek_wrapped : Option String
  pub backup_codes_ciphertext : Option String
  pub backup_codes_dek_wrapped : Option String
  pub last_login_at : Option ℕ
  pub created_at : ℕ
  pub created_by : Option ℕ
  pub updated_by : Option ℕ
  pub deleted_at : Option ℕ

-- models/product.py and models/customer.py; a JSON object that is only passed on is a text.
pub record Product : Type 0 where
  pub id : ℕ
  pub slug : String
  pub name : String
  pub description : Option String
  pub features_template : List String
  pub quotas_template : String
  pub default_alg : String
  pub is_active : Bool
  pub created_at : ℕ
  pub created_by : Option ℕ
  pub updated_by : Option ℕ
  pub deleted_at : Option ℕ

pub record Customer : Type 0 where
  pub id : ℕ
  pub name : String
  pub contact_name : Option String
  pub contact_email : Option String
  pub notes : Option String
  pub created_at : ℕ
  pub created_by : Option ℕ
  pub updated_by : Option ℕ
  pub deleted_at : Option ℕ

Mode-discrete : Discrete Mode
Mode-discrete = hlevel

Status-discrete : Discrete Status
Status-discrete = hlevel

BindingStatus-discrete : Discrete BindingStatus
BindingStatus-discrete = hlevel

Purpose-discrete : Discrete Purpose
Purpose-discrete = hlevel

instance unfoldable pub mode_eq : Eq Mode
unfolding Mode-discrete
mode_eq = record { dec = Mode-discrete }

instance unfoldable pub status_eq : Eq Status
unfolding Status-discrete
status_eq = record { dec = Status-discrete }

instance unfoldable pub binding_status_eq : Eq BindingStatus
unfolding BindingStatus-discrete
binding_status_eq = record { dec = BindingStatus-discrete }

instance unfoldable pub purpose_eq : Eq Purpose
unfolding Purpose-discrete
purpose_eq = record { dec = Purpose-discrete }
