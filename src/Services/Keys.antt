-- ===== src/Services/Keys.antt =====
-- `KeyManager` of app/licensing/keys.py in Project-source/forge-server.
pub mod Laws
use Prim.Native.String.{◌++◌ as ◌<>◌}
use navtra_license.Prelude.{
  take_text, ℕ, true, ◌++◌, Bool, ◌&&◌, List, [], ◌∷◌, Option, none, some, String, key_not_found,
  system_internal_error, or_raise, is_none, leb, filter_by, ◌==◌, string_eq, nat_eq, if◌then◌else◌,
}
use navtra_license.Models.{SigningKey, Purpose, master, edge_lease, purpose_eq}
use navtra_license.World.{M, Db, ◌>>=◌, ◌>>◌, pure, lift, query, modify}
use navtra_license.Services.External.{External, Settings}

-- `.order_by(created_at.desc()).scalars().first()`: the newest, the first of those that tie.
abbrev newer : SigningKey → Option SigningKey → SigningKey
newer k none = k
newer k (some l) = if leb l.created_at k.created_at then k else l

unfoldable pub newest : List SigningKey → Option SigningKey
newest [] = none
newest (k ∷ ks) = some (newer k (newest ks))

abbrev pub usable : Purpose → SigningKey → Bool
usable p k = k.purpose == p && (k.is_active && is_none k.deleted_at)

unfoldable pub get_active : Purpose → Db → Option SigningKey
unfolding newest
get_active p db = newest (filter_by (usable p) db.signing_keys)

abbrev pub require_active : {R : Type 0} → Purpose → M R SigningKey
require_active p = do key ← query (get_active p); lift (or_raise key key_not_found)

module _ (X : External) (S : Settings) where
  -- `_kek_for`
  unfoldable pub kek_for : Purpose → String
  kek_for edge_lease =
      if S.forge_edge_kek == "" then S.forge_field_encryption_key else S.forge_edge_kek
  kek_for master = S.forge_field_encryption_key

  unfoldable pub decrypt_private : SigningKey → Option String
  decrypt_private k = X.decrypt_secret k.private_key_ciphertext k.dek_wrapped (kek_for k.purpose)

  -- `KeyManager.sign`
  abbrev pub sign : {R : Type 0} → Purpose → List ℕ → M R (List ℕ × SigningKey)
  sign p message = do
    key ← require_active p
    private ← lift (or_raise (decrypt_private key) system_internal_error)
    pure (X.sign private message, key)

-- What the creation of a key draws: the pair of `generate_ed25519`, the row's key and the clock.
pub record NewKey : Type 0 where
  pub private_pem : String
  pub public_pem : String
  pub row_id : ℕ
  pub at : ℕ

module _ (X : External) (S : Settings) where
  -- `_key_id`
  pub key_id_of : String → String → String
  key_id_of alg public_pem = alg <> ("-" <> take_text 12 (X.sha256 public_pem))

  -- The row, with the two columns that `encrypt_secret` gives.
  abbrev pub sealed_key : Purpose → NewKey → String × String → SigningKey
  sealed_key p n sealed = record {
    id = n.row_id;
    key_id = key_id_of "ed25519" n.public_pem;
    alg = "ed25519";
    public_key = n.public_pem;
    private_key_ciphertext = sealed.0;
    dek_wrapped = sealed.1;
    purpose = p;
    is_active = true;
    created_at = n.at;
    deleted_at = none;
  }

  -- None where the private key cannot be encrypted, which raises.
  unfoldable pub new_key : Purpose → NewKey → Option SigningKey
  new_key p n = elim (X.encrypt_secret n.private_pem (kek_for X S p)) [
    | none ↦ none
    | some sealed ↦ some (sealed_key p n sealed)
  ]

  -- One round of the loop.
  unfoldable pub ensure_key : {R : Type 0} → Purpose → NewKey → Option SigningKey → M R String
  ensure_key p n (some k) = pure k.key_id
  ensure_key p n none = do
    key ← lift (or_raise (new_key p n) system_internal_error)
    modify λ db. record db { signing_keys = db.signing_keys ++ (key ∷ []) }
    pure key.key_id

  -- `ensure_keys`: the ids of the master key and of the edge key.
  unfoldable pub ensure_keys : {R : Type 0} → NewKey → NewKey → M R (String × String)
  ensure_keys m e = do
    old_master ← query (get_active master)
    master_id ← ensure_key master m old_master
    old_edge ← query (get_active edge_lease)
    edge_id ← ensure_key edge_lease e old_edge
    pure (master_id, edge_id)
