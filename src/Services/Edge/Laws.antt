-- ===== src/Services/Edge/Laws.antt =====
-- What `activate` vouches for, and its error paths.
use navtra_license.Prelude.{
  ℕ, zero, suc, ◌+◌, ◌≤◌, ◌<◌, ◌≡◌, refl, ◌∙◌, subst, length-update_where, Bool, true, [], ◌∷◌,
  ◌++◌, none, some, String, Result, ok, err, license_seat_exceeded, license_binding_mismatch, arith,
  filter_by, leb, length, ◌==◌, nat_eq, option_eq, string_eq, Bool-cases, inl, inr, if◌then◌else◌,
}
use navtra_license.Models.{License, Binding, online, mode_eq, CloneAlert}
use navtra_license.World.{World, one_or_none, lift}
use navtra_license.World.Triples.{continue_inv}
use navtra_license.Audit.{Ctx, log}
use navtra_license.Services.External.{External, Settings}
use navtra_license.Services.Edge.Match.{match_binding}
use navtra_license.Services.Edge.{
  Request, has_code, find_license, assert_valid_window, check_revoked, acquire_lock, seat_alert,
  account_seat, seat_for, active_bindings, install_clash, reuse_binding, refuse_seat,
  activate_under_lock, activate,
}
use navtra_license.Services.Leases.{LeaseCache, Draws, Granted}

-- The seat lock is held after a reply that granted it, within the attempts.
acquire_lock_inv :
    (n i : ℕ) (replies : ℕ → Bool)
    → acquire_lock n i replies ≡ true
    → (k : ℕ) × (i ≤ k) × (k < i + n) × (replies k ≡ true)
unfolding acquire_lock
acquire_lock_inv zero i replies e = absurd (ground arith)
acquire_lock_inv (suc n) i replies e = elim (Bool-cases (replies i)) [
  | inl got ↦ (i, omega arith, omega arith, got)
  | inr missed ↦
      let (k, low, high, got) = acquire_lock_inv n (suc i) replies (rw missed at e) in
      (k, omega arith, omega arith, got)
]

module _ (X : External) (S : Settings) {R : Type 0} (K : LeaseCache R) where
  -- The license behind an online code that may be activated now.
  pub record Admitted (d : Draws) (code : String) (w : World R) : Type 0 where
    pub lic : License
    pub found : one_or_none (filter_by (has_code code) w.db.licenses) ≡ ok (some lic)
    pub is_online : lic.mode ≡ online
    pub window : assert_valid_window d.checked_at lic ≡ ok tt
    pub not_revoked :
        one_or_none (filter_by (λ r. r.license_id == some lic.id) w.db.revocations) ≡ ok none
    pub attempt : ℕ
    pub in_time : attempt < 50
    pub lock_granted : d.lock_replies attempt ≡ true

  find_license_inv :
      (code : String) (w w' : World R) (lic : License)
      → find_license code w ≡ (ok lic, w')
      → (w' ≡ w)
        × (one_or_none (filter_by (has_code code) w.db.licenses) ≡ ok (some lic))
        × (lic.mode ≡ online)
  find_license_inv code w w' lic e = ground arith

  check_revoked_inv :
      (id : ℕ) (w w' : World R)
      → check_revoked id w ≡ (ok tt, w')
      → (w' ≡ w)
        × (one_or_none (filter_by (λ r. r.license_id == some id) w.db.revocations) ≡ ok none)
  check_revoked_inv id w w' e = ground arith

  lift_inv :
      {A : Type 0} (r : Result A) (w w' : World R) (a : A)
      → lift {R = R} r w ≡ (ok a, w')
      → (r ≡ ok a) × (w' ≡ w)
  lift_inv r w w' a e = ground arith

  under_lock_inv :
      (d : Draws) (q : Request) (ctx : Ctx) (lic : License) (w w' : World R) (g : Granted)
      → activate_under_lock X S K d q ctx lic w ≡ (ok g, w')
      → acquire_lock 50 0 d.lock_replies ≡ true
  unfolding activate_under_lock
  under_lock_inv d q ctx lic w w' g e = elim (Bool-cases (acquire_lock 50 0 d.lock_replies)) [
    | inl got ↦ got
    | inr missed ↦ absurd (ground arith)
  ]

  -- An activation succeeds only for a license of mode online that has the code, is not deleted,
  -- revoked or past its end, has no revocation row, and whose seat lock one of fifty attempts got.
  pub activate-Admitted :
      (d : Draws) (q : Request) (ctx : Ctx) (w w' : World R) (g : Granted)
      → activate X S K d q ctx w ≡ (ok g, w')
      → Admitted d q.online_code w
  unfolding activate
  activate-Admitted d q ctx w w' g e =
      let (lic, w1, s1, e1) = continue_inv (find_license q.online_code w) _ e in
      let (u1, found, mode) = find_license_inv q.online_code w w1 lic s1 in
      let (_, w2, s2, e2) = continue_inv (lift (assert_valid_window d.checked_at lic) w1) _ e1 in
      let (window, u2) = lift_inv (assert_valid_window d.checked_at lic) w1 w2 tt s2 in
      let (_, w3, s3, e3) = continue_inv (check_revoked lic.id w2) _ e2 in
      let (u3, clean) = check_revoked_inv lic.id w2 w3 s3 in
      let (k, _, high, got) =
        acquire_lock_inv 50 0 d.lock_replies (under_lock_inv d q ctx lic w3 w' g e3) in
      record {
        lic = lic;
        found = found;
        is_online = mode;
        window = window;
        not_revoked =
            subst
              (λ (v : World R).
                one_or_none (filter_by (λ r. r.license_id == some lic.id) v.db.revocations)
                ≡ ok none)
              (u2 ∙ u1) clean;
        attempt = k;
        in_time = omega arith;
        lock_granted = got;
      }

  -- An identity that no active binding has, on a license whose limit its active bindings reach, gets
  -- `license_seat_exceeded`; one alert on that license with the number of identities is committed in
  -- spite of it, and the licenses, bindings and leases that are committed are those of before.
  pub account_seat_full :
      (d : Draws) (q : Request) (ctx : Ctx) (lic : License) (w : World R)
      → let bindings = active_bindings lic.id w.db in
        match_binding bindings q.fingerprint q.deployment_uid q.signals ≡ none
        → lic.seat_limit ≤ length (active_bindings lic.id w.db)
        → let after = account_seat X S K d q ctx lic w in
          (after.0 ≡ err license_seat_exceeded)
          × (alert : CloneAlert) × (after.1.committed.clone_alerts
              ≡ w.db.clone_alerts ++ (alert ∷ []))
          × (alert.alive_identities ≡ length (active_bindings lic.id w.db) + 1)
          × (alert.license_id ≡ lic.id)
          × (after.1.committed.licenses ≡ w.db.licenses)
          × (after.1.committed.bindings ≡ w.db.bindings)
          × (after.1.committed.leases ≡ w.db.leases)
  unfolding account_seat seat_for refuse_seat log
  account_seat_full d q ctx lic w unknown full =
      let taken : leb lic.seat_limit (length (active_bindings lic.id w.db)) ≡ true = ground arith in
      rw (unknown, taken)
        (
          refl,
          seat_alert d q ctx lic (length (active_bindings lic.id w.db)),
          refl,
          refl,
          refl,
          refl,
          refl,
          refl,
        )

  -- An identity that an active binding has takes no seat: the licenses and the number of bindings
  -- stay as they are, and the answer is the key of the binding, or `license_binding_mismatch` where
  -- the install ids clash.
  pub account_seat_known :
      (d : Draws) (q : Request) (ctx : Ctx) (lic : License) (b : Binding) (w : World R)
      → match_binding (active_bindings lic.id w.db) q.fingerprint q.deployment_uid q.signals
        ≡ some b
      → let after = account_seat X S K d q ctx lic w in
        (after.0 ≡ (
          if install_clash b.install_id q.install_id
          then err license_binding_mismatch
          else ok b.id))
        × (after.1.db.licenses ≡ w.db.licenses)
        × (length after.1.db.bindings ≡ length w.db.bindings)
  unfolding account_seat seat_for reuse_binding log
  account_seat_known d q ctx lic b w known =
      elim (Bool-cases (install_clash b.install_id q.install_id)) [
        | inl clash ↦ rw (known, clash) (refl, refl, refl)
        | inr agree ↦ rw (known, agree) (refl, refl, length-update_where _ _ w.db.bindings)
      ]
