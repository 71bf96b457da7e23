-- ===== src/Services/Worker/Renewals.antt =====
-- Renewals and the reaper together: since a renewal's heartbeat is never committed, the reaper buries
-- the binding of a client that renewed all the time.
use navtra_license.Prelude.{
  ℕ, ◌-◌, ◌*◌, ◌≡◌, refl, ◌∙◌, sym, ap, subst, String, Option, List, [], ◌∷◌, filter_by,
}
use navtra_license.Models.{Binding}
use navtra_license.World.{World, Db, request}
use navtra_license.Services.External.{External, Settings, second}
use navtra_license.Services.Leases.{LeaseCache, Draws}
use navtra_license.Services.Edge.Validate.{validate}
use navtra_license.Services.Edge.Validate.Laws.{validate_rolled_back}
use navtra_license.Services.Worker.{stale, reap_dead_bindings, reap_rows, reaped}

-- One call of the renewal endpoint.
pub record Call : Type 0 where
  pub draws : Draws
  pub token : String
  pub fingerprint : String
  pub install_id : Option String

reap_rows-same :
    {R : Type 0} (rows : List Binding) (v w : World R)
    → v.db ≡ w.db
    → ((reap_rows rows v).0 ≡ (reap_rows rows w).0)
      × ((reap_rows rows v).1.db ≡ (reap_rows rows w).1.db)
unfolding reap_rows
reap_rows-same [] v w e = (refl, e)
reap_rows-same (b ∷ bs) v w e = (refl, ap (reaped (b ∷ bs)) e)

reap-same :
    {R : Type 0} (now window : ℕ) (v w : World R)
    → v.db ≡ w.db
    → ((reap_dead_bindings now window v).0 ≡ (reap_dead_bindings now window w).0)
      × ((reap_dead_bindings now window v).1.db ≡ (reap_dead_bindings now window w).1.db)
unfolding reap_dead_bindings
reap-same now window v w e =
    let rows : Db → List Binding = λ db. filter_by (stale (now - window * second)) db.bindings in
    let same = reap_rows-same (rows w.db) v w e in
    subst
      (λ r.
        ((reap_rows r v).0 ≡ (reap_rows (rows w.db) w).0)
        × ((reap_rows r v).1.db ≡ (reap_rows (rows w.db) w).1.db))
      (ap rows (sym e)) same

module _ (X : External) (S : Settings) {R : Type 0} (K : LeaseCache R) where
  pub renew_all : List Call → World R → World R
  renew_all [] w = w
  renew_all (c ∷ cs) w =
      renew_all cs (request (validate X S K c.draws c.token c.fingerprint c.install_id) w).1

  renew_all_tables :
      (cs : List Call) (w : World R)
      → w.db ≡ w.committed
      → ((renew_all cs w).db ≡ w.committed) × ((renew_all cs w).committed ≡ w.committed)
  unfolding renew_all
  renew_all_tables [] w fresh = (fresh, refl)
  renew_all_tables (c ∷ cs) w fresh =
      let (_, same) = validate_rolled_back X S K c.draws c.token c.fingerprint c.install_id w in
      let (d, k) =
        renew_all_tables cs
          (request (validate X S K c.draws c.token c.fingerprint c.install_id) w).1 refl in
      (d ∙ same, k ∙ same)

  -- Starting from committed tables, however often and whenever clients renew, successfully or not, a
  -- run of the reaper afterwards returns and leaves the same as one with no renewal before it.
  pub renew_all-reap :
      (cs : List Call) (now window : ℕ) (w : World R)
      → w.db ≡ w.committed
      → let after = reap_dead_bindings now window (renew_all cs w) in
        let idle = reap_dead_bindings now window w in (after.0 ≡ idle.0) × (after.1.db ≡ idle.1.db)
  renew_all-reap cs now window w fresh =
      reap-same now window (renew_all cs w) w ((renew_all_tables cs w fresh).0 ∙ sym fresh)
