-- ===== src/Services/Edge/Validate/Laws.antt =====
-- What a renewal vouches for, and what it leaves in the tables.
use navtra_license.Prelude.{
  ℕ, ◌≡◌, ◌≢◌, refl, ◌∙◌, none, inl, inr, Bool, true, not, Option, some, String, ok, or_raise,
  license_revoked, license_binding_mismatch, arith, filter_by, ◌==◌, string_eq, nat_eq, option_eq,
  Option-cases,
}
use navtra_license.Models.{
  License, Binding, BindingStatus, status_eq, binding_status_eq, edge_lease,
}
use navtra_license.World.{M, World, Db, ◌>>=◌, request, one_or_none, select_one, raise_when, lift}
use navtra_license.World.Triples.{
  looks, Triple, bind, Holds-both, raise_when-keeps, Row-cases, continue_inv,
}
use navtra_license.Services.External.{External, Settings}
use navtra_license.Services.Keys.{get_active, decrypt_private}
use navtra_license.Services.Edge.{assert_valid_window, check_revoked}
use navtra_license.Services.Leases.{LeaseCache, Draws, Granted, mint_lease, record_lease}
use navtra_license.Services.Edge.Validate.Caller.{Behind, find_binding_inv, host_inv}
use navtra_license.Services.Edge.Validate.{find_binding, validate, same_host, heartbeat, renewal}

check_revoked_looks : {R : Type 0} (id : ℕ) (w : World R) → (check_revoked id w).1 ≡ w
check_revoked_looks id w =
    elim (Row-cases (one_or_none (filter_by (λ r. r.license_id == some id) w.db.revocations))) [
      | inl (c, e) ↦ rw e
      | inr (inl e) ↦ rw e
      | inr (inr (row, e)) ↦ rw e
    ]

module _ (X : External) (S : Settings) {R : Type 0} (K : LeaseCache R) where
  find_binding_looks :
      (d : Draws) (token : String) (w : World R) → (find_binding X S K d token w).1 ≡ w
  unfolding find_binding
  find_binding_looks d token w = ground arith

module _ (X : External) (S : Settings) {R : Type 0} (K : LeaseCache R) (saved : Db) where
  abbrev Stays : World R → Type 0
  Stays w = w.committed ≡ saved

  mint_lease-Stays :
      (d : Draws) (lic : License) (id : ℕ) (fp : String)
      → Triple Stays (mint_lease X S K d lic id fp) (λ _. Stays) Stays
  unfolding mint_lease record_lease
  mint_lease-Stays d lic id fp w i = elim (Option-cases (get_active edge_lease w.db)) [
    | inl e ↦ rw e i
    | inr (k, e) ↦ elim (Option-cases (decrypt_private X S k)) [
      | inl f ↦ rw (e, f) i
      | inr (private, f) ↦ rw (e, f) i
    ]
  ]

  renewal-Stays : (d : Draws) (b : Binding) → Triple Stays (renewal X S K d b) (λ _. Stays) Stays
  unfolding renewal
  renewal-Stays d b =
      keep (select_one (λ db. db.licenses) (λ l. l.id == b.license_id)) _
        (looks Stays _ (λ w. refl))
        (λ found. keep (lift (or_raise found license_revoked)) _ (looks Stays _ (λ w. refl)) (λ lic.
          keep (lift (assert_valid_window d.bound_at lic)) _ (looks Stays _ (λ w. refl)) (λ _.
            keep (check_revoked lic.id) _ (looks Stays _ (check_revoked_looks lic.id))
              (λ _. mint_lease-Stays d lic b.id b.fingerprint))))
    where
      keep :
          {A B : Type 0} (m : M R A) (f : A → M R B)
          → Triple Stays m (λ _. Stays) Stays
          → ((a : A) → Triple Stays (f a) (λ _. Stays) Stays)
          → Triple Stays (m >>= f) (λ _. Stays) Stays
      keep = bind Stays (λ _. Stays) (λ _. Stays) Stays

  validate-Stays :
      (d : Draws) (token fingerprint : String) (install_id : Option String)
      → Triple Stays (validate X S K d token fingerprint install_id) (λ _. Stays) Stays
  unfolding validate
  validate-Stays d token fingerprint install_id =
      bind Stays (λ _. Stays) (λ _. Stays) Stays (find_binding X S K d token) _
        (looks Stays _ (find_binding_looks X S K d token))
        (λ b.
          bind Stays (λ _. Stays) (λ _. Stays) Stays
            (raise_when (not (same_host b fingerprint install_id)) license_binding_mismatch) _
            (raise_when-keeps Stays Stays _ _ (λ _ h. h))
            (λ _ w h. renewal-Stays d b (record w { db = heartbeat d.bound_at b.id w.db }) h))

module _ (X : External) (S : Settings) {R : Type 0} (K : LeaseCache R) where
  -- Whatever a renewal answers, the tables of the session and the committed ones are after its
  -- request what was committed before it.
  pub validate_rolled_back :
      (d : Draws) (token fingerprint : String) (install_id : Option String) (w : World R)
      → let after = (request (validate X S K d token fingerprint install_id) w).1 in
        (after.db ≡ w.committed) × (after.committed ≡ w.committed)
  validate_rolled_back d token fingerprint install_id w =
      let kept =
        Holds-both (λ v. v.committed ≡ w.committed)
          (validate X S K d token fingerprint install_id w)
          (validate-Stays X S K w.committed d token fingerprint install_id w refl) in
      (kept, kept)

  -- The binding and the license behind a renewal, and the tests that they passed.
  pub record Renewable (d : Draws) (token fingerprint : String) (install_id : Option String)
      (w : World R) : Type 0 where
    pub binding : Binding
    pub lic : License
    pub behind : Behind X S K d token w binding
    pub active : binding.status ≡ BindingStatus.active
    pub same_fingerprint : binding.deployment_uid ≡ none → binding.fingerprint ≡ fingerprint
    pub same_install :
        (one other : String)
        → binding.install_id ≡ some one
        → install_id ≡ some other
        → one ≢ ""
        → other ≢ ""
        → one ≡ other
    pub found :
        one_or_none (filter_by (λ l. l.id == binding.license_id) w.db.licenses) ≡ ok (some lic)
    pub window : assert_valid_window d.bound_at lic ≡ ok tt
    pub not_revoked :
        one_or_none (filter_by (λ r. r.license_id == some lic.id) w.db.revocations) ≡ ok none

  passed_when :
      (t : Bool) (w w' : World R)
      → raise_when {R = R} (not t) license_binding_mismatch w ≡ (ok tt, w')
      → (t ≡ true) × (w' ≡ w)
  passed_when t w w' e = ground arith

  renewal_inv :
      (d : Draws) (b : Binding) (w w' : World R) (g : Granted)
      → renewal X S K d b w ≡ (ok g, w')
      → (lic : License) × (one_or_none (filter_by (λ l. l.id == b.license_id) w.db.licenses)
          ≡ ok (some lic))
        × (assert_valid_window d.bound_at lic ≡ ok tt)
        × (one_or_none (filter_by (λ r. r.license_id == some lic.id) w.db.revocations) ≡ ok none)
  unfolding renewal
  renewal_inv d b w w' g e =
      elim (Row-cases (one_or_none (filter_by (λ l. l.id == b.license_id) w.db.licenses))) [
        | inl (c, f) ↦ absurd (ground arith)
        | inr (inl f) ↦ absurd (ground arith)
        | inr (inr (lic, f)) ↦ (lic, f, ground arith, ground arith)
      ]

  -- A renewal succeeds only with a token whose hot lease, or else whose unrevoked lease row, names a
  -- binding of the table that is active; that has the caller's fingerprint, unless it has a deployment
  -- uid, and the caller's install id, where both have one; and whose license is in the table, is in its
  -- window, and has no revocation row.
  pub validate-Renewable :
      (d : Draws) (token fingerprint : String) (install_id : Option String) (w w' : World R)
      (g : Granted)
      → validate X S K d token fingerprint install_id w ≡ (ok g, w')
      → Renewable d token fingerprint install_id w
  unfolding validate
  validate-Renewable d token fingerprint install_id w w' g e =
      let (b, v, found, rest) = continue_inv (find_binding X S K d token w) _ e in
      let (same, active, behind) = find_binding_inv X S K d token w v b found in
      let (_, u, passed, last) =
        continue_inv
          (raise_when (not (same_host b fingerprint install_id)) license_binding_mismatch v) _
          rest in
      let (host, still) = passed_when (same_host b fingerprint install_id) v u passed in
      let fits = host_inv b fingerprint install_id host in
      let unchanged : u ≡ w = still ∙ same in
      let (lic, row, window, clean) =
        renewal_inv d b (record u { db = heartbeat d.bound_at b.id u.db }) w' g last in
      record {
        binding = b;
        lic = lic;
        behind = behind;
        active = active;
        same_fingerprint = fits.0;
        same_install = fits.1;
        found = rw unchanged at row;
        window = window;
        not_revoked = rw unchanged at clean;
      }
