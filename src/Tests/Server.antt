-- ===== src/Tests/Server.antt =====
-- The license server on a small table.
use navtra_license.Prelude.{
  ◌≡◌, ◌≤◌, ◌+◌, refl, true, [], ◌∷◌, ◌++◌, none, some, arith, err, length, nat_eq, string_eq,
  option_eq, license_seat_exceeded, filter_by, count_by, find_first,
}
use navtra_license.Models.{License, CloneAlert, mode_eq, status_eq, binding_status_eq, purpose_eq}
use navtra_license.Audit.{log}
use navtra_license.Services.Keys.{get_active, decrypt_private}
use navtra_license.Services.Edge.{
  Request, activate, account_seat, active_bindings, install_clash, assert_valid_window,
  activate_under_lock, acquire_lock, seat_for, take_seat,
}
use navtra_license.Services.Leases.{mint_lease}
use navtra_license.Services.Edge.Match.{match_binding}
use navtra_license.Services.Edge.Match.Laws.{SameIdentity, match_binding-SameIdentity}
use navtra_license.Services.Edge.Seats.{Inv, SeatsFit}
use navtra_license.Services.Edge.Seats.Handler.{activate-Inv}
use navtra_license.Services.Edge.Laws.{Admitted, activate-Admitted, account_seat_full}
use navtra_license.Services.Edge.Validate.{validate, find_binding, renewal, binding_key, same_host}
use navtra_license.Services.Edge.Validate.Laws.{Renewable, validate-Renewable}
use navtra_license.Services.Worker.{sweepable, reap_dead_bindings}
use navtra_license.Services.Worker.Reap.{reap_dead_bindings-Inv}
use navtra_license.Services.Worker.Renewals.{Call, renew_all, renew_all-reap}
use navtra_license.Tests.{
  external0, settings0, cache0, license0, binding0, tables0, world0, ctx0, draws0, request0, is_ok,
  value, runs,
}

tables0-SeatsFit : SeatsFit tables0
unfolding count_by nat_eq binding_status_eq
tables0-SeatsFit = record {
  keyed = (((λ e. ground arith), tt), (tt, tt));
  fit = ((refl, omega arith), ((refl, omega arith), tt));
}

seats_example : Inv (activate external0 settings0 cache0 draws0 request0 ctx0 world0).1
seats_example =
    activate-Inv external0 settings0 cache0 draws0 request0 ctx0 world0
      (tables0-SeatsFit, tables0-SeatsFit)

activated : is_ok (activate external0 settings0 cache0 draws0 request0 ctx0 world0).0 ≡ true
unfolding activate filter_by string_eq nat_eq option_eq mode_eq assert_valid_window status_eq
    activate_under_lock acquire_lock account_seat seat_for match_binding find_first active_bindings
    binding_status_eq take_seat mint_lease get_active purpose_eq decrypt_private log
activated = refl

activation_example : Admitted external0 settings0 cache0 draws0 "code-1" world0
activation_example =
    activate-Admitted external0 settings0 cache0 draws0 request0 ctx0 world0
      (activate external0 settings0 cache0 draws0 request0 ctx0 world0).1
      (value (activate external0 settings0 cache0 draws0 request0 ctx0 world0).0 activated)
      (runs (activate external0 settings0 cache0 draws0 request0 ctx0 world0) activated)

abbrev full0 : License
full0 = record license0 { seat_limit = 1 }

new_host : match_binding (active_bindings full0.id tables0) "fp-2" none none ≡ none
unfolding match_binding active_bindings filter_by find_first nat_eq string_eq binding_status_eq
new_host = refl

one_active : full0.seat_limit ≤ length (active_bindings full0.id tables0)
unfolding active_bindings filter_by nat_eq binding_status_eq
one_active = omega arith

full_example :
    let after = account_seat external0 settings0 cache0 draws0 request0 ctx0 full0 world0 in
    (after.0 ≡ err license_seat_exceeded)
    × (alert : CloneAlert) × (after.1.committed.clone_alerts ≡ [] ++ (alert ∷ []))
    × (alert.alive_identities ≡ length (active_bindings 1 tables0) + 1)
    × (alert.license_id ≡ 1)
    × (after.1.committed.licenses ≡ tables0.licenses)
    × (after.1.committed.bindings ≡ tables0.bindings)
    × (after.1.committed.leases ≡ tables0.leases)
full_example =
    account_seat_full external0 settings0 cache0 draws0 request0 ctx0 full0 world0 new_host
      one_active

-- The host of the first binding, cloned: another install id.
abbrev clone0 : Request
clone0 = record request0 { fingerprint = "fp-1"; install_id = some "install-2" }

same_machine : match_binding (active_bindings license0.id tables0) "fp-1" none none ≡ some binding0
unfolding match_binding active_bindings filter_by find_first nat_eq string_eq binding_status_eq
same_machine = refl

only0 : match_binding (binding0 ∷ []) "fp-1" none none ≡ some binding0
unfolding match_binding find_first string_eq
only0 = refl

identity_example : SameIdentity "fp-1" none none binding0
identity_example = match_binding-SameIdentity (binding0 ∷ []) "fp-1" none none only0

validated : is_ok (validate external0 settings0 cache0 draws0 "token" "fp-1" none world0).0 ≡ true
unfolding validate find_binding renewal filter_by string_eq binding_key nat_eq binding_status_eq
    same_host install_clash assert_valid_window status_eq mint_lease get_active purpose_eq
    decrypt_private
validated = refl

renewal_example : Renewable external0 settings0 cache0 draws0 "token" "fp-1" none world0
renewal_example =
    validate-Renewable external0 settings0 cache0 draws0 "token" "fp-1" none world0
      (validate external0 settings0 cache0 draws0 "token" "fp-1" none world0).1
      (value (validate external0 settings0 cache0 draws0 "token" "fp-1" none world0).0 validated)
      (runs (validate external0 settings0 cache0 draws0 "token" "fp-1" none world0) validated)

abbrev renewal0 : Call
renewal0 = record { draws = draws0; token = "token"; fingerprint = "fp-1"; install_id = none }

renewals_example :
    let after =
      reap_dead_bindings 601000000 600
        (renew_all external0 settings0 cache0 (renewal0 ∷ []) world0) in
    let idle = reap_dead_bindings 601000000 600 world0 in
    (after.0 ≡ idle.0) × (after.1.db ≡ idle.1.db)
renewals_example =
    renew_all-reap external0 settings0 cache0 (renewal0 ∷ []) 601000000 600 world0 refl

reaper_example : Inv (reap_dead_bindings 601000000 600 world0).1
reaper_example =
    reap_dead_bindings-Inv 601000000 600 world0 (tt, tt) (tables0-SeatsFit, tables0-SeatsFit)

over : sweepable 2000000000 license0 ≡ true
unfolding status_eq
over = refl
