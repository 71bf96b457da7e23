-- ===== src/Services/Crl.antt =====
-- app/services/crl.py of Project-source/forge-server: the signed list of the revoked offline licenses.
pub mod Laws
use navtra_license.Prelude.{
  ℕ, suc, ◌+◌, Bool, true, false, ◌&&◌, not, List, [], ◌∷◌, ◌++◌, map, Option, none, some, String,
  system_internal_error, or_raise, is_some, is_none, leb, ltb, length, filter_by, update_where,
  count_by, ◌==◌, nat_eq, option_eq, if◌then◌else◌, codes,
}
use navtra_license.Models.{CrlBundle, Revocation, offline, number, mode_eq, master}
use navtra_license.World.{M, Db, ◌>>=◌, ◌>>◌, pure, lift, raise_when, query, modify, commit}
use navtra_license.Audit.{Ctx, log}
use navtra_license.Licensing.Token.{Dict, str, num, strs, build_forge_blob}
use navtra_license.Services.External.{External, Settings}
use navtra_license.Services.Keys.{sign}

-- `.order_by(version.desc()).scalars().first()`
abbrev pub higher : CrlBundle → Option CrlBundle → CrlBundle
higher b none = b
higher b (some c) = if leb c.version b.version then b else c

unfoldable pub highest : List CrlBundle → Option CrlBundle
highest [] = none
highest (b ∷ bs) = some (higher b (highest bs))

-- `_latest_bundle`
unfoldable pub latest_bundle : Db → Option CrlBundle
latest_bundle db = highest (filter_by (λ b. is_none b.deleted_at) db.crl_bundles)

blob_of : Option CrlBundle → Option (List ℕ)
blob_of none = none
blob_of (some b) = some b.signed_blob

-- `get_latest_blob`
unfoldable pub get_latest_blob : {R : Type 0} → M R (Option (List ℕ))
unfolding blob_of
get_latest_blob = do latest ← query latest_bundle; pure (blob_of latest)

-- `<` on texts: by code points.
unfoldable pub before : List ℕ → List ℕ → Bool
before s [] = false
before [] (c ∷ cs) = true
before (b ∷ bs) (c ∷ cs) =
    let rest = before bs cs in if ltb b c then true else if b == c then rest else false

unfoldable pub insert : String → List String → List String
insert s [] = s ∷ []
insert s (t ∷ ts) =
    let rest = insert s ts in if before (codes t) (codes s) then t ∷ rest else s ∷ t ∷ ts

-- `sorted`
unfoldable pub sorted : List String → List String
sorted [] = []
sorted (s ∷ ss) = insert s (sorted ss)

-- `mode == "offline"` and a public id that is not null.
unfoldable pub publishable : Revocation → Bool
publishable r = r.mode == some offline && is_some r.license_public_id

abbrev pub with_id : Option String → List String → List String
with_id none ids = ids
with_id (some id) ids = id ∷ ids

unfoldable pub public_ids : List Revocation → List String
public_ids [] = []
public_ids (r ∷ rs) = with_id r.license_public_id (public_ids rs)

-- The license ids of the next list.
unfoldable pub revoked_ids : Db → List String
revoked_ids db = sorted (public_ids (filter_by publishable db.revocations))

abbrev pub next_after : Option CrlBundle → ℕ
next_after none = 1
next_after (some b) = b.version + 1

unfoldable pub next_version : Db → ℕ
next_version db = next_after (latest_bundle db)

unfoldable pub version_taken : ℕ → Db → Bool
version_taken v db = ltb 0 (count_by (λ b. b.version == v) db.crl_bundles)

abbrev pub unstamped : Revocation → Bool
unstamped r = publishable r && is_none r.crl_version

abbrev pub stamp : ℕ → Revocation → Revocation
stamp v r = record r { crl_version = some v }

abbrev pub new_bundle : ℕ → List ℕ → ℕ → CrlBundle
new_bundle version blob count = record {
  version = version;
  signed_blob = blob;
  entry_count = count;
  deleted_at = none;
}

-- The new row is flushed before the next query; its version is a unique column.
unfoldable pub publish : {R : Type 0} → ℕ → CrlBundle → M R (Unit {0})
publish version bundle = do
  taken ← query (version_taken version)
  raise_when taken system_internal_error
  modify λ db. record db {
    crl_bundles = db.crl_bundles ++ (bundle ∷ []);
    revocations = update_where unstamped (stamp version) db.revocations;
  }

module _ (X : External) where
  unfoldable pub crl_payload : ℕ → ℕ → List String → Dict
  crl_payload version now ids =
      ("kind", str "crl")
      ∷ ("version", num version)
      ∷ ("generated_at", str (X.isoformat now))
      ∷ ("revoked", strs ids)
      ∷ ("alg", str "ed25519")
      ∷ []

module _ (X : External) (S : Settings) {R : Type 0} where
  -- `generate`, at the instant `now`; `version_text` is `str(version)`.
  unfoldable pub generate : ℕ → (ℕ → String) → Option ℕ → Ctx → M R CrlBundle
  generate now version_text actor_id ctx = do
    ids ← query revoked_ids
    version ← query next_version
    let payload = crl_payload X version now ids
    signed ← sign X S master (X.codec.dumps payload)
    let bundle = new_bundle version (build_forge_blob X.codec payload signed.0) (length ids)
    publish version bundle
    log
        (record {
          action = "crl.generate";
          result = "success";
          actor_id = actor_id;
          resource_type = some "crl";
          resource_id = some (version_text version);
          reason = none;
          metadata = ("entry_count", number (length ids)) ∷ [];
        })
        ctx
    commit
    pure bundle
