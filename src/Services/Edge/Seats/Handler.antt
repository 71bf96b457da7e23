-- ===== src/Services/Edge/Seats/Handler.antt =====
-- `activate` of app/services/edge.py keeps the seat counters right.
use navtra_license.Prelude.{
  ℕ, ◌+◌, ◌*◌, ◌<◌, ◌≡◌, refl, Bool, true, false, not, Option, none, some, String,
  license_seat_lock_busy, arith, length, length-filter_by, filter_by, leb, Bool-cases, inl, inr,
  ◌==◌, nat_eq, option_eq, Option-cases,
}
use navtra_license.Models.{License, mode_eq, online, Binding, binding_status_eq, edge_lease}
use navtra_license.World.{World, Db, lift, raise_when, commit, one_or_none}
use navtra_license.World.Triples.{
  Holds, Triple, bind, Holds-both, lift-keeps, raise_when-keeps, select-All, Row-cases,
}
use navtra_license.Audit.{Ctx, Event, log}
use navtra_license.Services.External.{External, Settings, second}
use navtra_license.Services.Keys.{get_active, decrypt_private}
use navtra_license.Services.Edge.{
  Request, is_active_of, active_bindings, account_seat, seat_for, reuse_binding, refuse_seat,
  install_clash, take_seat, activate, adopt, new_binding, find_license, has_code,
  activate_under_lock, activation_event, check_revoked, assert_valid_window, acquire_lock,
}
use navtra_license.Services.Leases.{LeaseCache, Draws, mint_lease, record_lease}
use navtra_license.Services.Edge.Seats.{
  Agrees, agree, update-SeatsFit, take-SeatsFit, both_All, seats, Fits, Inv,
}

module _ (X : External) (S : Settings) {R : Type 0} (K : LeaseCache R) where
  record_lease-Inv :
      (d : Draws) (lic : License) (id : ℕ) (fp : String) (w : World R)
      → Inv w
      → Inv (record_lease X S K d lic id fp w)
  unfolding record_lease
  record_lease-Inv d lic id fp w (i, c) =
      let s =
        update-SeatsFit (λ b. b.id == id)
          (λ b. record b {
            last_seen_at = d.minted_at;
            lease_expires_at = some (d.minted_at + S.lease_ttl_seconds * second);
          })
          w.db (λ _ b. refl) i in
      (record { keyed = s.keyed; fit = s.fit }, c)

  mint_lease-Inv :
      (d : Draws) (lic : License) (id : ℕ) (fp : String)
      → Triple Inv (mint_lease X S K d lic id fp) (λ _ w. Inv w) Inv
  unfolding mint_lease
  mint_lease-Inv d lic id fp w i = elim (Option-cases (get_active edge_lease w.db)) [
    | inl e ↦ rw e i
    | inr (k, e) ↦ elim (Option-cases (decrypt_private X S k)) [
      | inl f ↦ rw (e, f) i
      | inr (private, f) ↦ rw (e, f) (record_lease-Inv d lic id fp w i)
    ]
  ]

  -- The license that a query found, while the session is unchanged.
  abbrev Known : License → World R → Type 0
  Known lic w = Inv w × Fits w.db lic × Agrees lic w.db.licenses

  log-Inv : (e : Event) (ctx : Ctx) → Triple Inv (log {R = R} e ctx) (λ _ w. Inv w) Inv
  unfolding log
  log-Inv e ctx w (i, c) = (record { keyed = i.keyed; fit = i.fit }, c)

  commit-Inv : Triple Inv (commit {R = R}) (λ _ w. Inv w) Inv
  commit-Inv w (i, c) = (i, i)

  reuse_binding-Inv :
      (d : Draws) (q : Request) (ctx : Ctx) (lic : License) (b : Binding)
      → Triple Inv (reuse_binding X S K d q ctx lic b) (λ _ w. Inv w) Inv
  unfolding reuse_binding log
  reuse_binding-Inv d q ctx lic b w i =
      elim (Bool-cases (install_clash b.install_id q.install_id)) [
        | inl e ↦ rw e (
          record { keyed = i.0.keyed; fit = i.0.fit },
          record { keyed = i.0.keyed; fit = i.0.fit },
        )
        | inr e ↦
            rw e (
              update-SeatsFit (λ r. r.id == b.id) (adopt d.bound_at q b) w.db (λ _ _. refl) i.0,
              i.1,
            )
      ]

  refuse_seat-Inv :
      (d : Draws) (q : Request) (ctx : Ctx) (lic : License) (n : ℕ)
      → Triple Inv (refuse_seat X S K d q ctx lic n) (λ _ w. Inv w) Inv
  unfolding refuse_seat log
  refuse_seat-Inv d q ctx lic n w i =
      (record { keyed = i.0.keyed; fit = i.0.fit }, record { keyed = i.0.keyed; fit = i.0.fit })

  new_binding-active :
      (d : Draws) (q : Request) (lic : License) → is_active_of lic.id (new_binding d q lic) ≡ true
  unfolding binding_status_eq
  new_binding-active d q lic = ground arith

  free_seat :
      (lic : License) (db : Db)
      → leb lic.seat_limit (length (active_bindings lic.id db)) ≡ false
      → seats lic.id db < lic.seat_limit
  unfolding active_bindings
  free_seat lic db free = ground (arith, length-filter_by (is_active_of lic.id) db.bindings)

  seat_for-Inv :
      (d : Draws) (q : Request) (ctx : Ctx) (lic : License) (n : ℕ) (matched : Option Binding)
      (w : World R)
      → n ≡ length (active_bindings lic.id w.db)
      → Known lic w
      → Holds (λ _ v. Inv v) Inv (seat_for X S K d q ctx lic n matched w)
  unfolding seat_for take_seat
  seat_for-Inv d q ctx lic n (some b) w e (i, _, _) = reuse_binding-Inv d q ctx lic b w i
  seat_for-Inv d q ctx lic n none w e (i, fits, agrees) = elim (Bool-cases (leb lic.seat_limit n)) [
    | inl full ↦ rw full (refuse_seat-Inv d q ctx lic n w i)
    | inr free ↦ rw free (
      take-SeatsFit w.db lic d.bound_at (new_binding d q lic) refl (new_binding-active d q lic) fits
          agrees (free_seat lic w.db (rw (← e) free)) i.0,
      i.1,
    )
  ]

  account_seat-Inv :
      (d : Draws) (q : Request) (ctx : Ctx) (lic : License)
      → Triple (Known lic) (account_seat X S K d q ctx lic) (λ _ w. Inv w) Inv
  unfolding account_seat
  account_seat-Inv d q ctx lic w known = seat_for-Inv d q ctx lic _ _ w refl known

  find_license-Known : (code : String) → Triple Inv (find_license {R = R} code) Known Inv
  find_license-Known code w i =
      elim (Row-cases (one_or_none (filter_by (has_code code) w.db.licenses))) [
        | inl (c, e) ↦ rw e i
        | inr (inl e) ↦ rw e i
        | inr (inr (lic, e)) ↦
            let known =
              select-All (λ l. Fits w.db l × Agrees l w.db.licenses) (has_code code) w.db.licenses
                (both_All (Fits w.db) _ w.db.licenses i.0.fit (agree _ i.0.keyed)) e in
            rw e (elim (Bool-cases (lic.mode == online)) [
              | inl f ↦ rw f (i, known.0.0, known.0.1)
              | inr f ↦ rw f i
            ])
      ]

  check_revoked-Known :
      (lic : License) (id : ℕ)
      → Triple (Known lic) (check_revoked {R = R} id) (λ _ w. Known lic w) Inv
  check_revoked-Known lic id w k =
      elim (Row-cases (one_or_none (filter_by (λ r. r.license_id == some id) w.db.revocations))) [
        | inl (c, e) ↦ rw e k.0
        | inr (inl e) ↦ rw e k
        | inr (inr (row, e)) ↦ rw e k.0
      ]

  activate_under_lock-Inv :
      (d : Draws) (q : Request) (ctx : Ctx) (lic : License)
      → Triple (Known lic) (activate_under_lock X S K d q ctx lic) (λ _. Inv) Inv
  unfolding activate_under_lock
  activate_under_lock-Inv d q ctx lic =
      bind (Known lic) (λ _. Known lic) (λ _. Inv) Inv (raise_when busy license_seat_lock_busy) _
        (raise_when-keeps (Known lic) Inv busy license_seat_lock_busy (λ _ k. k.0))
        (λ _.
          bind (Known lic) (λ _. Inv) (λ _. Inv) Inv (account_seat X S K d q ctx lic) _
            (account_seat-Inv d q ctx lic)
            (λ id.
              bind Inv (λ _. Inv) (λ _. Inv) Inv (mint_lease X S K d lic id q.fingerprint) _
                (mint_lease-Inv d lic id q.fingerprint)
                (λ granted.
                  bind Inv (λ _. Inv) (λ _. Inv) Inv (log (activation_event X S K q lic) ctx) _
                    (log-Inv _ ctx) (λ _ w i. (i.0, i.0)))))
    where
      busy : Bool
      busy = not (acquire_lock 50 0 d.lock_replies)

  -- Where every license has its key for itself, its counter of seats equals its active bindings and
  -- these are within its limit, in the session and in what is committed, the same holds after
  -- `activate`, whatever it answers.
  pub activate-Inv :
      (d : Draws) (q : Request) (ctx : Ctx) (w : World R) → Inv w → Inv (activate X S K d q ctx w).1
  unfolding activate
  activate-Inv d q ctx w i = Holds-both Inv (activate X S K d q ctx w) (
      bind Inv Known (λ _. Inv) Inv (find_license q.online_code) _
        (find_license-Known q.online_code)
        (λ lic.
          bind (Known lic) (λ _. Known lic) (λ _. Inv) Inv
            (lift (assert_valid_window d.checked_at lic)) _
            (lift-keeps (Known lic) Inv (assert_valid_window d.checked_at lic) (λ _ k. k.0))
            (λ _.
              bind (Known lic) (λ _. Known lic) (λ _. Inv) Inv (check_revoked lic.id) _
                (check_revoked-Known lic lic.id) (λ _. activate_under_lock-Inv d q ctx lic)))
        w i)
