-- ===== src/Admin/Auth/Laws.antt =====
-- Who gets through a login.
use navtra_license.Prelude.{
  ℕ, ◌≡◌, refl, Bool, true, false, not, Option, none, some, String, Result, ok, err, Code, arith,
  inl, inr, ◌⊎◌, Bool-cases, filter_by, ◌∙◌, auth_account_disabled,
}
use navtra_license.Models.{User}
use navtra_license.World.{World, one_or_none, ◌>>=◌, ◌>>◌, pure, raise_when, change_cache}
use navtra_license.World.Triples.{Row-cases, continue_inv}
use navtra_license.Services.Passwords.{verify_password}
use navtra_license.Services.Users.{has_email}
use navtra_license.Admin.Limits.{assert_not_locked, clear_login_failures}
use navtra_license.Admin.Access.{non_empty}
use navtra_license.Admin.Auth.{AuthDeps, verify_totp, check_code, second_factor, authenticate}

module _ {R : Type 0} (A : AuthDeps R) where
  -- The second factor of a user.
  abbrev pub Verified : User → Option String → ℕ → Type 0
  Verified u code now =
      (u.twofa_enabled ≡ false)
      ⊎ ((c : String) × (non_empty code ≡ some c) × (verify_totp A u c now ≡ ok true))

  -- All that a login asks for.
  abbrev pub Authenticated : String → String → Option String → ℕ → World R → User → Type 0
  Authenticated email password code now w u =
      (assert_not_locked A.counters email now w.cache ≡ ok tt)
      × (one_or_none (filter_by (has_email email) w.db.users) ≡ ok (some u))
      × (verify_password A.argon password u.password_hash ≡ ok true)
      × (u.is_active ≡ true)
      × Verified u code now

  check_code-ok :
      (email : String) (now : ℕ) (u : User) (code : Option String) (w w' : World R)
      → check_code A email now u code w ≡ (ok tt, w')
      → ((c : String) × (code ≡ some c) × (verify_totp A u c now ≡ ok true)) × (w' ≡ w)
  check_code-ok email now u none w w' e = absurd (ground arith)
  check_code-ok email now u (some c) w w' e = split (verify_totp A u c now) refl
    where
      split :
          (r : Result Bool)
          → verify_totp A u c now ≡ r
          → ((d : String) × (some c ≡ some d) × (verify_totp A u d now ≡ ok true)) × (w' ≡ w)
      split (ok true) v = ((c, refl, v), ground (arith, rw v at e))
      split (ok false) v = absurd (ground (arith, rw v at e))
      split (err d) v = absurd (ground (arith, rw v at e))

  second_factor-ok :
      (email : String) (now : ℕ) (u : User) (code : Option String) (w w' : World R)
      → second_factor A email now u code w ≡ (ok tt, w')
      → Verified u code now × (w' ≡ w)
  unfolding second_factor verify_totp
  second_factor-ok email now u code w w' e = elim (Bool-cases u.twofa_enabled) [
    | inl on ↦
        let (verified, same) = check_code-ok email now u (non_empty code) w w' (rw on at e) in
        (inr verified, same)
    | inr off ↦ (inl off, ground (arith, rw off at e))
  ]

  raise_when-ok :
      (b : Bool) (c : Code) (w m : World R) (t : Unit {0})
      → raise_when b c w ≡ (ok t, m)
      → (b ≡ false) × (m ≡ w)
  raise_when-ok true c w m t e = absurd (ground arith)
  raise_when-ok false c w m t e = (refl, ground arith)

  -- What follows once the password is right.
  accepted-ok :
      (email : String) (code : Option String) (now : ℕ) (w w' : World R) (u v : User)
      → (do
        raise_when (not v.is_active) auth_account_disabled
        second_factor A email now v code
        change_cache (clear_login_failures A.counters email)
        pure v)
          w
        ≡ (ok u, w')
      → (v ≡ u)
        × (v.is_active ≡ true)
        × Verified v code now
        × (w' ≡ record w { cache = clear_login_failures A.counters email w.cache })
  accepted-ok email code now w w' u v e =
      let clear =
        (λ (_ : Unit {0}). change_cache (clear_login_failures A.counters email) >> pure v) in
      let (t, m, raised, later) =
        continue_inv (raise_when (not v.is_active) auth_account_disabled w)
          (λ _. second_factor A email now v code >>= clear) e in
      let (active, same) = raise_when-ok (not v.is_active) auth_account_disabled w m t raised in
      let (t', m', factor, rest) = continue_inv (second_factor A email now v code m) clear later in
      let (verified, same') = second_factor-ok email now v code m m' factor in
      let cleared = rw (same' ∙ same) at rest in
      (ground (arith, cleared), ground (arith, active), verified, ground (arith, cleared))

  -- Where a login succeeds, the account is not locked, the password is that of the one live account
  -- with the email, the account is active, and its second factor was verified where it is enabled;
  -- the failures are cleared, and the tables are as they were.
  pub authenticate-Authenticated :
      (email password : String) (code : Option String) (now : ℕ) (w w' : World R) (u : User)
      → authenticate A email password code now w ≡ (ok u, w')
      → Authenticated email password code now w u
        × (w' ≡ record w { cache = clear_login_failures A.counters email w.cache })
  unfolding authenticate
  authenticate-Authenticated email password code now w w' u e =
      locked_or_not (assert_not_locked A.counters email now w.cache) refl
    where
      Goal : Type 0
      Goal =
          Authenticated email password code now w u
          × (w' ≡ record w { cache = clear_login_failures A.counters email w.cache })

      password_right :
          (v : User)
          → one_or_none (filter_by (has_email email) w.db.users) ≡ ok (some v)
          → assert_not_locked A.counters email now w.cache ≡ ok tt
          → (r : Result Bool) → verify_password A.argon password v.password_hash ≡ r
          → Goal
      password_right v row l (err c) p = absurd (ground (arith, rw (l, row, p) at e))
      password_right v row l (ok false) p = absurd (ground (arith, rw (l, row, p) at e))
      password_right v row l (ok true) p =
          let (same, active, verified, cleared) =
            accepted-ok email code now w w' u v (rw (l, row, p) at e) in
          ((l, rw same at row, rw same at p, rw same at active, rw same at verified), cleared)

      locked_or_not :
          (r : Result (Unit {0})) → assert_not_locked A.counters email now w.cache ≡ r → Goal
      locked_or_not (err c) l = absurd (ground (arith, rw l at e))
      locked_or_not (ok t) l =
          elim (Row-cases (one_or_none (filter_by (has_email email) w.db.users))) [
            | inl (c, bad) ↦ absurd (ground (arith, rw (l, bad) at e))
            | inr (inl absent) ↦ absurd (ground (arith, rw (l, absent) at e))
            | inr (inr (v, row)) ↦
                password_right v row l (verify_password A.argon password v.password_hash) refl
          ]
