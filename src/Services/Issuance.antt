-- ===== src/Services/Issuance.antt =====
-- `IssuanceService` of app/services/issuance.py, but for `revoke`, and app/licensing/payload.py, in
-- Project-source/forge-server. The clock and the fresh keys that a call draws are arguments, and the
-- id of the acting user is that of the session, already parsed.
pub mod Laws
use navtra_license.Prelude.{
  ℕ, zero, suc, ◌+◌, Bool, true, false, ◌&&◌, ◌||◌, not, List, [], ◌∷◌, ◌++◌, Option, none, some,
  String, Result, ok, err, validation_failed, resource_not_found, issue_product_inactive,
  issue_deployment_id_invalid, issue_invalid_term, system_internal_error, or_raise, is_none, leb,
  take, ◌==◌, nat_eq, string_eq, if◌then◌else◌, codes, update_where,
}
use navtra_license.Models.{
  License, Customer, Product, Mode, online, offline, Status, issued, SigningKey, Binding, text,
  number, MetaValue, Metadata, master, mode_eq,
}
use navtra_license.World.{
  M, World, Db, ◌>>=◌, ◌>>◌, pure, lift, raise_when, modify, commit, select_one,
}
use navtra_license.Audit.{Ctx, Event, log}
use navtra_license.Licensing.Token.{Dict, Json, null, str, num, strs, other, build_forge_blob}
use navtra_license.Services.External.{External, Settings}
use navtra_license.Services.Keys.{require_active, decrypt_private}

-- `_FINGERPRINT_RE.match`: n hex digits, and `$` matches before a last line break too.
abbrev pub is_hex : ℕ → Bool
is_hex c = (leb 48 c && leb c 57) || (leb 97 c && leb c 102)

unfoldable pub hex_run : ℕ → List ℕ → Bool
hex_run zero [] = true
hex_run zero (c ∷ []) = c == 10
hex_run zero (c ∷ d ∷ cs) = false
hex_run (suc n) [] = false
hex_run (suc n) (c ∷ cs) = is_hex c && hex_run n cs

-- What `IssueOnlineRequest` and `IssueOfflineRequest` share.
pub record Terms : Type 0 where
  pub customer_id : String
  pub product_id : String
  pub term_preset : String
  pub subscription : String
  pub quotas : String
  pub features : List String

-- The clock, and the keys and the code of the new row.
pub record Fresh : Type 0 where
  pub now : ℕ
  pub id : ℕ
  pub license_id : ℕ
  pub online_code : String

module _ (X : External) (S : Settings) where
  -- `compute_active_until`
  unfoldable pub compute_active_until : String → ℕ → Mode → Result (Option ℕ)
  compute_active_until term_preset from mode =
      if term_preset == "perpetual"
      then (if mode == online
          then ok none
          else ok (some (X.add_years_months from S.offline_perpetual_years 0)))
      else if term_preset == "1m"
      then ok (some (X.add_years_months from 0 1))
      else if term_preset == "3m"
      then ok (some (X.add_years_months from 0 3))
      else if term_preset == "6m"
      then ok (some (X.add_years_months from 0 6))
      else if term_preset == "1y"
      then ok (some (X.add_years_months from 1 0))
      else if term_preset == "3y"
      then ok (some (X.add_years_months from 3 0))
      else if term_preset == "5y"
      then ok (some (X.add_years_months from 5 0))
      else err issue_invalid_term

  abbrev text? : Option String → Json
  text? none = null
  text? (some s) = str s

  abbrev iso? : Option ℕ → Json
  iso? none = null
  iso? (some t) = str (X.isoformat t)

  abbrev mode_text : Mode → String
  mode_text online = "online"
  mode_text offline = "offline"

  -- `build_payload`
  unfoldable pub build_payload : License → Customer → Product → String → Dict
  build_payload lic customer product issuer_key_id =
      ("version", num 1)
      ∷ ("license_id", str (X.uuid_text lic.license_id))
      ∷ ("cluster_id", text? lic.cluster_id)
      ∷ ("customer", str customer.name)
      ∷ ("product", str product.slug)
      ∷ ("active_from", str (X.isoformat lic.active_from))
      ∷ ("active_until", iso? lic.active_until)
      ∷ ("subscription", str lic.subscription)
      ∷ ("quotas", other lic.quotas)
      ∷ ("features", strs lic.features)
      ∷ ("mode", str (mode_text lic.mode))
      ∷ ("scope", str lic.scope)
      ∷ ("binding", str lic.binding)
      ∷ ("bound_fingerprint", text? lic.bound_fingerprint)
      ∷ ("alg", str lic.alg)
      ∷ ("issuer", str issuer_key_id)
      ∷ ("issued_at", str (X.isoformat lic.issued_at))
      ∷ []

  -- `_resolve`
  unfoldable pub resolve : {R : Type 0} → String → String → M R (Customer × Product)
  resolve customer_id product_id = do
    cid ← lift (or_raise (X.parse_uuid customer_id) validation_failed)
    customer ← select_one (λ db. db.customers) (λ c. c.id == cid && is_none c.deleted_at)
    pid ← lift (or_raise (X.parse_uuid product_id) validation_failed)
    product ← select_one (λ db. db.products) (λ p. p.id == pid && is_none p.deleted_at)
    c ← lift (or_raise customer resource_not_found)
    p ← lift (or_raise product resource_not_found)
    raise_when (not p.is_active) issue_product_inactive
    pure (c, p)

  issue_event : String → License → Option ℕ → Metadata → Event
  issue_event action lic actor_id metadata = record {
    action = action;
    result = "success";
    actor_id = actor_id;
    resource_type = some "license";
    resource_id = some (X.uuid_text lic.license_id);
    reason = none;
    metadata = metadata;
  }

  -- The columns that both kinds of license get alike; `scope` has the default of the model.
  abbrev pub new_license :
      Fresh → Terms → Customer → Product → SigningKey → Option ℕ → Option ℕ → License
  new_license f t customer product key active_until actor_id = record {
    id = f.id;
    license_id = f.license_id;
    customer_id = customer.id;
    product_id = product.id;
    signing_key_id = key.id;
    mode = online;
    online_code = some f.online_code;
    offline_blob = none;
    term_preset = t.term_preset;
    active_from = f.now;
    active_until = active_until;
    subscription = t.subscription;
    quotas = t.quotas;
    features = t.features;
    scope = "customer_x_product";
    binding = "hard";
    bound_fingerprint = none;
    cluster_id = none;
    seat_limit = 1;
    seat_used = 0;
    status = issued;
    alg = "ed25519";
    issued_by = actor_id;
    issued_at = f.now;
    created_at = f.now;
    activated_at = none;
    revoked_at = none;
    revoke_reason = none;
    deleted_at = none;
  }

  -- `issue_online`
  unfoldable pub issue_online : {R : Type 0} → Fresh → Terms → ℕ → Option ℕ → Ctx → M R License
  unfolding issue_event
  issue_online f t seat_limit actor_id ctx = do
    parties ← resolve t.customer_id t.product_id
    key ← require_active master
    until ← lift (compute_active_until t.term_preset f.now online)
    let lic = record (new_license f t parties.0 parties.1 key until actor_id) {
      seat_limit = seat_limit;
    }
    modify λ db. record db { licenses = db.licenses ++ (lic ∷ []) }
    log
        (issue_event "license.issue_online" lic actor_id (
          ("product", text (codes parties.1.slug))
          ∷ ("customer", text (codes parties.0.name))
          ∷ ("seat_limit", number seat_limit)
          ∷ ("term", text (codes t.term_preset))
          ∷ []))
        ctx
    commit
    pure lic

  -- The row of an offline license, before it is signed.
  abbrev pub offline_license :
      Fresh
      → Terms
      → String
      → Option String
      → Customer
      → Product
      → SigningKey
      → Option ℕ
      → Option ℕ
      → License
  offline_license f t deployment_id cluster_id customer product key until actor_id =
      record (new_license f t customer product key until actor_id) {
        mode = offline;
        online_code = none;
        bound_fingerprint = some deployment_id;
        cluster_id = cluster_id;
        seat_used = 1;
        status = Status.active;
      }

  abbrev pub sealed_blob : License → Customer → Product → SigningKey → String → List ℕ
  sealed_blob lic customer product key private =
      let payload = build_payload lic customer product key.key_id in
      build_forge_blob X.codec payload (X.sign private (X.codec.dumps payload))

  -- `issue_offline` from `self.db.add(lic)` on.
  unfoldable pub seal :
      {R : Type 0}
      → License
      → Customer
      → Product
      → SigningKey
      → String
      → Option ℕ
      → Ctx
      → M R License
  unfolding issue_event
  seal lic customer product key deployment_id actor_id ctx = do
    modify λ db. record db { licenses = db.licenses ++ (lic ∷ []) }
    private ← lift (or_raise (decrypt_private X S key) system_internal_error)
    let blob = sealed_blob lic customer product key private
    modify λ db. record db {
      licenses =
          update_where (λ l. l.id == lic.id) (λ l. record l { offline_blob = some blob })
            db.licenses;
    }
    log
        (issue_event "license.issue_offline" lic actor_id (
          ("product", text (codes product.slug))
          ∷ ("customer", text (codes customer.name))
          ∷ ("term", text (codes lic.term_preset))
          ∷ ("fingerprint", text (take 8 (codes deployment_id) ++ codes "…"))
          ∷ []))
        ctx
    commit
    pure (record lic { offline_blob = some blob })

  -- `issue_offline`
  unfoldable pub issue_offline :
      {R : Type 0} → Fresh → Terms → String → Option String → Option ℕ → Ctx → M R License
  issue_offline f t deployment_id cluster_id actor_id ctx = do
    raise_when (not (hex_run 64 (codes deployment_id))) issue_deployment_id_invalid
    parties ← resolve t.customer_id t.product_id
    key ← require_active master
    until ← lift (compute_active_until t.term_preset f.now offline)
    seal (offline_license f t deployment_id cluster_id parties.0 parties.1 key until actor_id)
        parties.0 parties.1 key deployment_id actor_id ctx
