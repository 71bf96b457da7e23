-- ===== src/Services/Worker.antt =====
-- The periodic tasks of app/worker.py in Project-source/forge-server: the fresh CRL, the sweep of
-- expired licenses and the reaper of bindings with a stale heartbeat.
pub mod Sweep
pub mod Reap
pub mod Renewals
use navtra_license.Prelude.{
  ℕ, ◌+◌, ◌-◌, ◌*◌, Bool, true, false, ◌&&◌, not, List, [], ◌∷◌, Option, none, some, is_none, leb,
  ltb, filter_by, update_where, count_by, length, map, contains, String, ◌==◌, nat_eq,
  if◌then◌else◌,
}
use navtra_license.Models.{
  License, Binding, Status, expired, revoked, locked, BindingStatus, status_eq, binding_status_eq,
}
use navtra_license.World.{M, Db, ◌>>=◌, ◌>>◌, pure, query, modify, commit}
use navtra_license.Services.External.{External, Settings, second}
use navtra_license.Services.Crl.{generate}

abbrev pub is_before : ℕ → Option ℕ → Bool
is_before now none = false
is_before now (some t) = ltb t now

-- `License.status.notin_(("expired", "revoked", "locked"))`
abbrev pub is_running : Status → Bool
is_running s = not (contains (expired ∷ revoked ∷ locked ∷ []) s)

abbrev pub sweepable : ℕ → License → Bool
sweepable now l = is_before now l.active_until && is_running l.status

abbrev pub expire : License → License
expire l = record l { status = expired }

-- `refresh_crl`, whose caller in the audit log is the scheduler; the answer is the new version.
unfoldable pub refresh_crl : {R : Type 0} → External → Settings → ℕ → (ℕ → String) → M R ℕ
refresh_crl X S now version_text = do
  bundle ← generate X S now version_text none (record {
    actor_type = "system";
    actor_name = some "scheduler";
    ip = none;
    user_agent = none;
    request_id = none;
  })
  pure bundle.version

-- `sweep_expired_licenses`
unfoldable pub sweep_expired_licenses : {R : Type 0} → ℕ → M R ℕ
sweep_expired_licenses now = do
  flipped ← query (λ db. count_by (sweepable now) db.licenses)
  modify λ db. record db { licenses = update_where (sweepable now) expire db.licenses }
  commit
  pure flipped

abbrev pub stale : ℕ → Binding → Bool
stale cutoff b =
    b.status == BindingStatus.active
    && (is_none b.deleted_at && is_before cutoff b.last_heartbeat_at)

-- `per_license[lid] = per_license.get(lid, 0) + 1`
unfoldable pub bump : ℕ → List (ℕ × ℕ) → List (ℕ × ℕ)
bump id [] = (id, 1) ∷ []
bump id ((k, n) ∷ t) = let rest = bump id t in if k == id then (k, n + 1) ∷ t else (k, n) ∷ rest

unfoldable pub per_license : List (ℕ × ℕ) → List Binding → List (ℕ × ℕ)
unfolding bump
per_license counts [] = counts
per_license counts (b ∷ bs) = per_license (bump b.license_id counts) bs

-- `.where(License.id == lid, License.seat_used >= n)`
abbrev pub frees : ℕ → ℕ → License → Bool
frees id n l = l.id == id && leb n l.seat_used

abbrev pub less_seats : ℕ → License → License
less_seats n l = record l { seat_used = l.seat_used - n }

unfoldable pub release_seats : List (ℕ × ℕ) → List License → List License
release_seats [] ls = ls
release_seats ((id, n) ∷ t) ls = release_seats t (update_where (frees id n) (less_seats n) ls)

abbrev pub bury : Binding → Binding
bury b = record b { status = BindingStatus.dead }

abbrev pub keys : List Binding → List ℕ
keys = map (λ b. b.id)

-- The tables after the given bindings are dead.
unfoldable pub reaped : List Binding → Db → Db
unfolding per_license release_seats
reaped dead db = record db {
  bindings = update_where (λ b. contains (keys dead) b.id) bury db.bindings;
  licenses = release_seats (per_license [] dead) db.licenses;
}

-- `reap_dead_bindings` on the rows that it found; with none it returns at once.
unfoldable pub reap_rows : {R : Type 0} → List Binding → M R ℕ
reap_rows [] = pure 0
reap_rows (b ∷ bs) = do modify (reaped (b ∷ bs)); commit; pure (length (b ∷ bs))

-- The cutoff is the clock less the heartbeat window.
unfoldable pub reap_dead_bindings : {R : Type 0} → ℕ → ℕ → M R ℕ
unfolding reap_rows
reap_dead_bindings now window_seconds = do
  dead ← query (λ db. filter_by (stale (now - window_seconds * second)) db.bindings)
  reap_rows dead
