-- ===== src/Services/Worker/Sweep.antt =====
-- The sweep leaves no license past its end in a running status, and flips none that forge-edge would
-- still serve.
use navtra_license.Prelude.{
  ℕ, ◌≤◌, ◌≡◌, refl, true, ◌⊎◌, List, [], ◌∷◌, ok, err, license_expired, license_revoked, arith,
  count_by, update_where,
}
use navtra_license.Models.{License, status_eq}
use navtra_license.World.{World}
use navtra_license.Services.Edge.{assert_valid_window}
use navtra_license.Services.Worker.{sweepable, expire, sweep_expired_licenses}

swept-count :
    (now : ℕ) (ls : List License)
    → count_by (sweepable now) (update_where (sweepable now) expire ls) ≡ 0
unfolding count_by update_where status_eq
swept-count now [] = refl
swept-count now (l ∷ ls) = ground (arith, swept-count now ls)

module _ {R : Type 0} where
  -- A second sweep at the same instant finds nothing to flip.
  pub sweep_twice :
      (now : ℕ) (w : World R)
      → (sweep_expired_licenses now (sweep_expired_licenses now w).1).0 ≡ ok 0
  unfolding sweep_expired_licenses
  sweep_twice now w = rw (swept-count now w.db.licenses)

-- A license that the sweep flips is one that forge-edge already refuses at that instant.
pub sweepable-refused :
    (now : ℕ) (l : License)
    → sweepable now l ≡ true
    → (assert_valid_window now l ≡ err license_expired)
      ⊎ (assert_valid_window now l ≡ err license_revoked)
unfolding assert_valid_window
sweepable-refused now l h = ground arith

-- A license that the sweep flips is refused by forge-edge, as flipped, at that instant and every
-- later one.
pub expire-refused :
    (now later : ℕ) (l : License)
    → now ≤ later
    → sweepable now l ≡ true
    → (assert_valid_window later (expire l) ≡ err license_expired)
      ⊎ (assert_valid_window later (expire l) ≡ err license_revoked)
unfolding assert_valid_window status_eq
expire-refused now later l before h = ground arith
