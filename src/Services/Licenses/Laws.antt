-- ===== src/Services/Licenses/Laws.antt =====
-- Revocation and deletion: what the next list of revoked licenses says, and what a deletion leaves.
use navtra_license.Prelude.{
  ℕ, ◌≡◌, refl, sym, ◌∙◌, ap, subst, Bool, true, false, List, [], ◌∷◌, ◌++◌, Option, none, some,
  String, inl, inr, arith, All, filter_by, count_by, contains, ◌==◌, nat_eq, string_eq, option_eq,
  Bool-cases, Option-cases, Result, ok, Among,
}
use navtra_license.Models.{AuditLog, License, Revocation, Status, status_eq, offline}
use navtra_license.World.{World, Db, one_or_none}
use navtra_license.World.Triples.{select-All, Row-cases}
use navtra_license.Audit.{Ctx, log}
use navtra_license.Services.External.{External}
use navtra_license.Services.Crl.{revoked_ids}
use navtra_license.Services.Crl.Laws.{revoked_ids_complete, public_ids-update_where}
use navtra_license.Services.Licenses.{
  has_id, revocation_of, delete_row, add_revocation, revoke_row, revoke, delete_license,
}

Among-end : (r : Revocation) (rs : List Revocation) → Among r (rs ++ (r ∷ []))
Among-end r [] = inl refl
Among-end r (x ∷ xs) = inr (Among-end r xs)

-- Deleting a license changes nothing of the list of revoked ids.
pub revoked_ids-delete_row : (id : ℕ) (db : Db) → revoked_ids (delete_row id db) ≡ revoked_ids db
unfolding revoked_ids delete_row
revoked_ids-delete_row id db =
    rw (public_ids-update_where (λ r. r.license_id == some id) db.revocations) refl

count_by-filter_by :
    {A : Type 0} (p q : A → Bool) (xs : List A)
    → ((a : A) → q a ≡ true → p a ≡ false)
    → count_by p (filter_by q xs) ≡ 0
unfolding count_by filter_by
count_by-filter_by p q [] h = refl
count_by-filter_by p q (x ∷ xs) h = elim (Bool-cases (q x)) [
  | inl e ↦ rw (e, h x e, count_by-filter_by p q xs h) refl
  | inr e ↦ rw e (count_by-filter_by p q xs h)
]

everything : {A : Type 0} (xs : List A) → All (λ _. Unit {0}) xs
everything [] = tt
everything (x ∷ xs) = (tt, everything xs)

-- No license has the key, and no binding, lease or alert refers to it.
pub record Gone (id : ℕ) (db : Db) : Type 0 where
  pub licenses : count_by (λ l. l.id == id) db.licenses ≡ 0
  pub bindings : count_by (λ b. b.license_id == id) db.bindings ≡ 0
  pub leases : count_by (λ l. l.license_id == id) db.leases ≡ 0
  pub clone_alerts : count_by (λ a. a.license_id == id) db.clone_alerts ≡ 0

delete_row-Gone :
    (n id : ℕ) (db : Db) (entries : List AuditLog)
    → n ≡ id
    → Gone id (record (delete_row n db) { audit_log = entries })
unfolding delete_row
delete_row-Gone n id db entries same = record {
  licenses = count_by-filter_by _ _ db.licenses (λ l e. ground arith);
  bindings = count_by-filter_by _ _ db.bindings (λ b e. ground arith);
  leases = count_by-filter_by _ _ db.leases (λ l e. ground arith);
  clone_alerts = count_by-filter_by _ _ db.clone_alerts (λ a e. ground arith);
}

module _ (X : External) {R : Type 0} where
  delete_license_ids :
      (text : String) (actor_id : Option ℕ) (ctx : Ctx) (w : World R)
      → w.committed ≡ w.db
      → revoked_ids (delete_license X text actor_id ctx w).1.committed ≡ revoked_ids w.db
  unfolding delete_license log delete_row revoked_ids
  delete_license_ids text actor_id ctx w same = elim (Option-cases (X.parse_uuid text)) [
    | inl bad ↦ rw (bad, same) refl
    | inr (id, good) ↦ elim (Row-cases (one_or_none (filter_by (has_id id) w.db.licenses))) [
      | inl (c, bad) ↦ rw (good, bad, same) refl
      | inr (inl absent) ↦ rw (good, absent, same) refl
      | inr (inr (lic, row)) ↦ rw (good, row) (revoked_ids-delete_row lic.id w.db)
    ]
  ]

  revoke_world :
      (now : ℕ) (text reason : String) (actor_id : Option ℕ) (ctx : Ctx) (w : World R) {id : ℕ}
      {lic : License}
      → X.parse_uuid text ≡ some id
      → one_or_none (filter_by (has_id id) w.db.licenses) ≡ ok (some lic)
      → (lic.status == Status.revoked) ≡ false
      → one_or_none (filter_by (λ r. r.license_id == some lic.id) w.db.revocations) ≡ ok none
      → let after = (revoke X now text reason actor_id ctx w).1 in
        (after.committed ≡ after.db)
        × (after.db.revocations ≡ w.db.revocations ++ (revocation_of X lic reason ∷ []))
  unfolding revoke revoke_row add_revocation log
  revoke_world now text reason actor_id ctx w parsed row live clean =
      rw (parsed, row, live, clean) (refl, refl)

  -- A license that its key finds, that is offline, not yet revoked and without a revocation row, is
  -- revoked, and then `delete_license` is called with any id: whatever that answers, the ids that
  -- the next list of the committed tables carries include the id of the license.
  pub revoke-delete_license-listed :
      (now : ℕ) (text reason : String) (actor_id : Option ℕ) (ctx : Ctx) (w : World R)
      (text2 : String) (actor2 : Option ℕ) (ctx2 : Ctx) {id : ℕ} {lic : License}
      → X.parse_uuid text ≡ some id
      → one_or_none (filter_by (has_id id) w.db.licenses) ≡ ok (some lic)
      → (lic.status == Status.revoked) ≡ false
      → one_or_none (filter_by (λ r. r.license_id == some lic.id) w.db.revocations) ≡ ok none
      → lic.mode ≡ offline
      → let revoked = (revoke X now text reason actor_id ctx w).1 in
        contains
          (revoked_ids (delete_license X text2 actor2 ctx2 revoked).1.committed)
          (X.uuid_text lic.license_id)
        ≡ true
  revoke-delete_license-listed now text reason actor_id ctx w text2 actor2 ctx2 {id} {lic} parsed
        row live clean mode =
      let after = (revoke X now text reason actor_id ctx w).1 in
      let (stored, rows) = revoke_world now text reason actor_id ctx w parsed row live clean in
      let entry = revocation_of X lic reason in
      ap (λ ids. contains ids (X.uuid_text lic.license_id))
        (delete_license_ids text2 actor2 ctx2 after stored)
      ∙ revoked_ids_complete (X.uuid_text lic.license_id) entry after.db
          (subst (Among entry) (sym rows) (Among-end entry w.db.revocations)) (ap some mode) refl

  -- A deletion that succeeds had an id that parses; in the committed tables no license has that key,
  -- no binding, lease or alert refers to it, and the list of revoked ids is what it was.
  pub delete_license-Gone :
      (text : String) (actor_id : Option ℕ) (ctx : Ctx) (w w' : World R)
      → delete_license X text actor_id ctx w ≡ (ok tt, w')
      → (id : ℕ) × (X.parse_uuid text ≡ some id)
        × Gone id w'.committed
        × (revoked_ids w'.committed ≡ revoked_ids w.db)
  unfolding delete_license log revoked_ids delete_row
  delete_license-Gone text actor_id ctx w w' e = elim (Option-cases (X.parse_uuid text)) [
    | inl bad ↦ absurd (ground arith)
    | inr (id, good) ↦ elim (Row-cases (one_or_none (filter_by (has_id id) w.db.licenses))) [
      | inl (c, bad) ↦ absurd (ground arith)
      | inr (inl absent) ↦ absurd (ground arith)
      | inr (inr (lic, row)) ↦
          let (_, test) =
            select-All (λ _. Unit {0}) (has_id id) w.db.licenses (everything w.db.licenses) row in
          let same : lic.id ≡ id = ground arith in
          let e' = rw (good, row) at e in
          let both =
            subst
              (λ (p : Result (Unit {0}) × World R).
                Gone id p.1.committed × (revoked_ids p.1.committed ≡ revoked_ids w.db))
              e' (delete_row-Gone lic.id id w.db _ same, revoked_ids-delete_row lic.id w.db) in
          (id, good, both.0, both.1)
    ]
  ]
