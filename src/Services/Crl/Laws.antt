-- ===== src/Services/Crl/Laws.antt =====
-- The list that `generate` publishes: whom it names, its version, and what an importer reads.
use navtra_license.Prelude.{
  ℕ, ◌≤◌, ◌<◌, ◌≡◌, refl, sym, ◌∙◌, ap, subst, Bool, true, false, ◌||◌, List, [], ◌∷◌, ◌++◌, Option,
  none, some, String, arith, All, All-map, filter_by, update_where, count_by, contains, ◌==◌,
  nat_eq, string_eq, option_eq, is_none, Bool-cases, inl, inr, ok, Among, length,
}
use navtra_license.Models.{CrlBundle, Revocation, SigningKey, offline, mode_eq, master}
use navtra_license.World.{World, Db, ◌>>◌, pure, commit}
use navtra_license.World.Triples.{continue_inv}
use navtra_license.Audit.{Ctx, Event, log}
use navtra_license.Licensing.Token.{build_forge_blob}
use navtra_license.Services.External.{External, Settings}
use navtra_license.Services.Keys.{sign, get_active, decrypt_private}
use navtra_license.Services.Crl.{
  next_after, higher, highest, latest_bundle, insert, sorted, publishable, public_ids, with_id,
  revoked_ids, next_version, version_taken, unstamped, stamp, crl_payload, new_bundle, publish,
  generate,
}

contains-insert :
    (s t : String) (ts : List String) → contains (insert t ts) s ≡ (s == t || contains ts s)
unfolding insert
contains-insert s t [] = refl
contains-insert s t (u ∷ us) = ground (arith, contains-insert s t us)

-- Sorting loses no id and adds none.
pub contains-sorted : (s : String) (ts : List String) → contains (sorted ts) s ≡ contains ts s
unfolding sorted
contains-sorted s [] = refl
contains-sorted s (t ∷ ts) = contains-insert s t (sorted ts) ∙ ground (arith, contains-sorted s ts)

with_id-head :
    (s : String) (o : Option String) (ids : List String)
    → o ≡ some s
    → contains (with_id o ids) s ≡ true
with_id-head s none ids e = absurd (ground arith)
with_id-head s (some t) ids e = ground arith

with_id-tail :
    (s : String) (o : Option String) (ids : List String)
    → contains ids s ≡ true
    → contains (with_id o ids) s ≡ true
with_id-tail s none ids e = e
with_id-tail s (some t) ids e = ground arith

publishable_row :
    (s : String) (r : Revocation)
    → r.mode ≡ some offline
    → r.license_public_id ≡ some s
    → publishable r ≡ true
unfolding publishable
publishable_row s r mode id = ground arith

listed_row :
    (s : String) (r : Revocation) (rs : List Revocation)
    → Among r rs
    → r.mode ≡ some offline
    → r.license_public_id ≡ some s
    → contains (public_ids (filter_by publishable rs)) s ≡ true
unfolding public_ids filter_by
listed_row s r [] m mode id = elim m [ ]
listed_row s r (x ∷ xs) (inl same) mode id =
    let here : publishable x ≡ true =
      publishable_row s x (ap (λ v. v.mode) (sym same) ∙ mode)
        (ap (λ v. v.license_public_id) (sym same) ∙ id) in
    rw here (with_id-head s x.license_public_id _ (ap (λ v. v.license_public_id) (sym same) ∙ id))
listed_row s r (x ∷ xs) (inr later) mode id =
    let rest = listed_row s r xs later mode id in
    elim (Bool-cases (publishable x)) [
      | inl e ↦ rw e (with_id-tail s x.license_public_id _ rest)
      | inr e ↦ rw e rest
    ]

-- Every offline revocation with a public id is listed.
pub revoked_ids_complete :
    (s : String) (r : Revocation) (db : Db)
    → Among r db.revocations
    → r.mode ≡ some offline
    → r.license_public_id ≡ some s
    → contains (revoked_ids db) s ≡ true
unfolding revoked_ids
revoked_ids_complete s r db m mode id =
    contains-sorted s (public_ids (filter_by publishable db.revocations))
    ∙ listed_row s r db.revocations m mode id

blank : (r : Revocation) → publishable (record r { license_id = none }) ≡ publishable r
unfolding publishable
blank r = refl

-- Setting the key of the license to null unlists nobody.
pub public_ids-update_where :
    (p : Revocation → Bool) (rs : List Revocation)
    → public_ids (filter_by publishable (update_where p (λ r. record r { license_id = none }) rs))
      ≡ public_ids (filter_by publishable rs)
unfolding public_ids filter_by update_where
public_ids-update_where p [] = refl
public_ids-update_where p (r ∷ rs) =
    let rest = public_ids-update_where p rs in
    elim (Bool-cases (p r)) [
      | inl hit ↦ elim (Bool-cases (publishable r)) [
        | inl e ↦ rw (hit, blank r ∙ e, e, rest) refl
        | inr e ↦ rw (hit, blank r ∙ e, e, rest) refl
      ]
      | inr miss ↦ elim (Bool-cases (publishable r)) [
        | inl e ↦ rw (miss, e, rest) refl
        | inr e ↦ rw (miss, e, rest) refl
      ]
    ]

higher_le :
    (b t c : CrlBundle) → higher b (some t) ≡ c → (b.version ≤ c.version) × (t.version ≤ c.version)
higher_le b t c e = (ground arith, ground arith)

highest_le :
    (bs : List CrlBundle) (c : CrlBundle)
    → highest bs ≡ some c
    → All (λ b. b.version ≤ c.version) bs
unfolding highest
highest_le [] c e = tt
highest_le (b ∷ []) c e = (ground arith, tt)
highest_le (b ∷ b2 ∷ bs) c e =
    let (low, high) = higher_le b (higher b2 (highest bs)) c (ground arith) in
    (
      low,
      All-map (λ x. x.version ≤ (higher b2 (highest bs)).version) (λ x. x.version ≤ c.version)
          (b2 ∷ bs) (λ x h. omega arith) (highest_le (b2 ∷ bs) (higher b2 (highest bs)) refl),
    )

next_after-above : (bs : List CrlBundle) → All (λ b. b.version < next_after (highest bs)) bs
unfolding highest
next_after-above [] = tt
next_after-above (b ∷ bs) =
    All-map (λ x. x.version ≤ (higher b (highest bs)).version)
      (λ x. x.version < next_after (highest (b ∷ bs))) (b ∷ bs) (λ x h. omega arith)
      (highest_le (b ∷ bs) (higher b (highest bs)) refl)

-- The next version is above every version in use.
pub next_version-above :
    (db : Db)
    → All (λ b. b.version < next_version db) (filter_by (λ b. is_none b.deleted_at) db.crl_bundles)
unfolding next_version latest_bundle
next_version-above db = next_after-above _

module _ (X : External) (S : Settings) {R : Type 0} where
  sign_inv :
      (message : List ℕ) (w w' : World R) (signed : List ℕ × SigningKey)
      → sign X S master message w ≡ (ok signed, w')
      → w' ≡ w
  sign_inv message w w' signed e = ground arith

  publish_inv :
      (version : ℕ) (bundle : CrlBundle) (w w' : World R)
      → publish version bundle w ≡ (ok tt, w')
      → (version_taken version w.db ≡ false)
        × (w'.db.crl_bundles ≡ w.db.crl_bundles ++ (bundle ∷ []))
        × (w'.db.revocations ≡ update_where unstamped (stamp version) w.db.revocations)
        × (w'.db.licenses ≡ w.db.licenses)
  unfolding publish
  publish_inv version bundle w w' e = (ground arith, ground arith, ground arith, ground arith)

  finish_inv :
      (event : Event) (ctx : Ctx) (b bundle : CrlBundle) (v w' : World R)
      → (log event ctx >> (commit >> pure b)) v ≡ (ok bundle, w')
      → (b ≡ bundle)
        × (w'.committed.licenses ≡ v.db.licenses)
        × (w'.committed.revocations ≡ v.db.revocations)
        × (w'.committed.crl_bundles ≡ v.db.crl_bundles)
  unfolding log
  finish_inv event ctx b bundle v w' e = (ground arith, ground arith, ground arith, ground arith)

  -- The effects of a generation of the list.
  pub record Published (now : ℕ) (bundle : CrlBundle) (w w' : World R) : Type 0 where
    pub signature : List ℕ
    pub blob :
        bundle.signed_blob
        ≡ build_forge_blob X.codec (crl_payload X bundle.version now (revoked_ids w.db)) signature
    pub counted : bundle.entry_count ≡ length (revoked_ids w.db)
    pub above :
        All
          (λ b. b.version < bundle.version)
          (filter_by (λ b. is_none b.deleted_at) w.db.crl_bundles)
    pub fresh : version_taken bundle.version w.db ≡ false
    pub kept : w'.committed.crl_bundles ≡ w.db.crl_bundles ++ (bundle ∷ [])
    pub stamped :
        w'.committed.revocations ≡ update_where unstamped (stamp bundle.version) w.db.revocations
    pub licenses_kept : w'.committed.licenses ≡ w.db.licenses

  -- A generation that succeeds is committed: the new bundle's version is above those of the bundles
  -- that are not deleted and is free, its blob is the payload with the sorted ids of all offline
  -- revocations and a signature, it is added to the bundles, every revocation that had no version and
  -- is published is stamped with it, and the licenses are unchanged.
  pub generate-Published :
      (now : ℕ) (version_text : ℕ → String) (actor_id : Option ℕ) (ctx : Ctx) (w w' : World R)
      (bundle : CrlBundle)
      → generate X S now version_text actor_id ctx w ≡ (ok bundle, w')
      → Published now bundle w w'
  unfolding generate
  generate-Published now version_text actor_id ctx w w' bundle e =
      let message = X.codec.dumps (crl_payload X (next_version w.db) now (revoked_ids w.db)) in
      let (signed, w1, s1, e1) = continue_inv (sign X S master message w) _ e in
      let same = sign_inv message w w1 signed s1 in
      let made =
        new_bundle (next_version w.db)
          (build_forge_blob X.codec (crl_payload X (next_version w.db) now (revoked_ids w.db))
            signed.0)
          (length (revoked_ids w.db)) in
      let (_, w2, s2, e2) = continue_inv (publish (next_version w.db) made w1) _ e1 in
      let (free, bundles, revs, lics) = publish_inv (next_version w.db) made w1 w2 s2 in
      let (eq, lic, rev, crl) = finish_inv _ ctx made bundle w2 w' e2 in
      subst (λ b. Published now b w w') eq
        (record {
          signature = signed.0;
          blob = refl;
          counted = refl;
          above = next_version-above w.db;
          fresh = ap (λ (v : World R). version_taken (next_version w.db) v.db) (sym same) ∙ free;
          kept = crl ∙ bundles ∙ ap (λ (v : World R). v.db.crl_bundles ++ (made ∷ [])) same;
          stamped =
              rev
              ∙ revs
              ∙ ap
                  (λ (v : World R).
                    update_where unstamped (stamp (next_version w.db)) v.db.revocations)
                  same;
          licenses_kept = lic ∙ lics ∙ ap (λ (v : World R). v.db.licenses) same;
        })

none_deleted :
    (bs : List CrlBundle)
    → All (λ b. b.deleted_at ≡ none) bs
    → filter_by (λ b. is_none b.deleted_at) bs ≡ bs
unfolding filter_by
none_deleted [] h = refl
none_deleted (b ∷ bs) (h, hs) = rw (h, none_deleted bs hs) refl

none_at :
    (v : ℕ) (bs : List CrlBundle)
    → All (λ b. b.version < v) bs
    → count_by (λ b. b.version == v) bs ≡ 0
unfolding count_by
none_at v [] h = refl
none_at v (b ∷ bs) (h, hs) = ground (arith, none_at v bs hs)

-- Where no bundle was ever deleted, the next version is free.
next_version-free :
    (db : Db)
    → All (λ b. b.deleted_at ≡ none) db.crl_bundles
    → version_taken (next_version db) db ≡ false
unfolding version_taken
next_version-free db kept =
    let above =
      subst (λ bs. All (λ b. b.version < next_version db) bs) (none_deleted db.crl_bundles kept)
        (next_version-above db) in
    rw (none_at (next_version db) db.crl_bundles above) refl

module _ (X : External) (S : Settings) {R : Type 0} where
  -- With an active master key whose private key can be decrypted, and no bundle marked as deleted, a
  -- generation succeeds.
  pub generate-total :
      (now : ℕ) (version_text : ℕ → String) (actor_id : Option ℕ) (ctx : Ctx) (w : World R)
      {key : SigningKey} {private : String}
      → get_active master w.db ≡ some key
      → decrypt_private X S key ≡ some private
      → All (λ b. b.deleted_at ≡ none) w.db.crl_bundles
      → (bundle : CrlBundle) × (w' : World R) × (generate X S now version_text actor_id ctx w
          ≡ (ok bundle, w'))
  unfolding generate publish log
  generate-total now version_text actor_id ctx w {key} {private} active usable kept =
      rw (active, usable, next_version-free w.db kept) (_, _, refl)
