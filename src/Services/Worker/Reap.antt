-- ===== src/Services/Worker/Reap.antt =====
-- The reaper frees exactly the seats of the bindings that it buries.
use navtra_license.Prelude.{
  ℕ, ◌+◌, ◌-◌, ◌*◌, ◌≤◌, ◌≡◌, ◌≢◌, refl, subst, ◌∙◌, Bool, false, inl, inr, List, [], ◌∷◌, arith,
  All, All-map, All-update_where, count_by, update_where, filter_by, contains, ◌==◌, nat_eq,
  Bool-cases, if◌then◌else◌, map-update_where,
}
use navtra_license.Models.{License, Binding, binding_status_eq}
use navtra_license.World.{World, Db}
use navtra_license.Services.External.{second}
use navtra_license.Services.Edge.{is_active_of}
use navtra_license.Services.Edge.Seats.{seats, Fits, SeatsFit, caps, Inv}
use navtra_license.Services.Worker.{
  stale, bump, per_license, frees, less_seats, release_seats, bury, keys, reaped, reap_rows,
  reap_dead_bindings,
}

-- What the counts say of one license.
total : ℕ → List (ℕ × ℕ) → ℕ
total id [] = 0
total id ((k, n) ∷ t) = (if k == id then n else 0) + total id t

total-bump :
    (id k : ℕ) (t : List (ℕ × ℕ)) → total id (bump k t) ≡ total id t + (if k == id then 1 else 0)
unfolding total bump
total-bump id k [] = omega arith
total-bump id k ((j, n) ∷ t) = ground (arith, total-bump id k t)

abbrev owned : ℕ → Binding → Bool
owned id b = b.license_id == id

total-per_license :
    (id : ℕ) (counts : List (ℕ × ℕ)) (bs : List Binding)
    → total id (per_license counts bs) ≡ total id counts + count_by (owned id) bs
unfolding per_license count_by
total-per_license id counts [] = omega arith
total-per_license id counts (b ∷ bs) =
    omega
      (arith, total-per_license id (bump b.license_id counts) bs, total-bump id b.license_id counts)

release_seats-All :
    (P : License → Type 0) (t : List (ℕ × ℕ)) (ls : List License)
    → All
        (λ l.
          (total l.id t ≤ l.seat_used)
          × ((m : License)
              → m.id ≡ l.id
              → m.seat_limit ≡ l.seat_limit
              → m.seat_used ≡ l.seat_used - total l.id t
              → P m))
        ls
    → All P (release_seats t ls)
unfolding release_seats total
release_seats-All P [] ls h = All-map _ P ls (λ l k. k.1 l refl refl (omega arith)) h
release_seats-All P ((id, n) ∷ t) ls h = release_seats-All P t _ (
    All-update_where _ _ (frees id n) (less_seats n) ls
      (λ l k hit. (ground arith, λ m e f g. k.1 m e f (ground arith)))
      (λ l k miss. (ground arith, λ m e f g. k.1 m e f (ground arith))) h)

caps-release_seats : (t : List (ℕ × ℕ)) (ls : List License) → caps (release_seats t ls) ≡ caps ls
unfolding release_seats
caps-release_seats [] ls = refl
caps-release_seats ((id, n) ∷ t) ls =
    caps-release_seats t _
    ∙ map-update_where {B = ℕ × ℕ} (λ l. (l.id, l.seat_limit)) (frees id n) (less_seats n) ls
        (λ l. refl)

-- Primary keys of the bindings: each stands once.
abbrev pub KeyedBindings : List Binding → Type 0
KeyedBindings [] = Unit {0}
KeyedBindings (b ∷ bs) = All (λ c. c.id ≢ b.id) bs × KeyedBindings bs

module _ (p : Binding → Bool) where
  absent :
      (k : ℕ) (bs : List Binding)
      → All (λ c. c.id ≢ k) bs
      → contains (keys (filter_by p bs)) k ≡ false
  unfolding filter_by
  absent k [] h = refl
  absent k (c ∷ bs) (h, hs) = ground (arith, absent k bs hs)

  step_over :
      (b : Binding) (bs cs : List Binding)
      → All (λ c. c.id ≢ b.id) cs
      → All (λ c. contains (keys (filter_by p bs)) c.id ≡ p c) cs
      → All (λ c. contains (keys (filter_by p (b ∷ bs))) c.id ≡ p c) cs
  unfolding filter_by
  step_over b bs [] h k = tt
  step_over b bs (c ∷ cs) (h, hs) (k, ks) = (ground arith, step_over b bs cs hs ks)

  -- A key is among those of the chosen rows exactly if its row was chosen.
  chosen :
      (bs : List Binding)
      → KeyedBindings bs
      → All (λ c. contains (keys (filter_by p bs)) c.id ≡ p c) bs
  unfolding filter_by
  chosen [] h = tt
  chosen (b ∷ bs) (h, hs) = (ground (arith, absent b.id bs h), step_over b bs bs h (chosen bs hs))

-- Each active binding of a license lives on or is buried.
seats-buried :
    (cutoff id : ℕ) (q : Binding → Bool) (bs : List Binding)
    → All (λ c. q c ≡ stale cutoff c) bs
    → count_by (is_active_of id) (update_where q bury bs)
        + count_by (owned id) (filter_by (stale cutoff) bs)
      ≡ count_by (is_active_of id) bs
unfolding count_by update_where filter_by binding_status_eq
seats-buried cutoff id q [] h = refl
seats-buried cutoff id q (b ∷ bs) (h, hs) = ground (arith, seats-buried cutoff id q bs hs)

reaped-SeatsFit :
    (cutoff : ℕ) (db : Db)
    → KeyedBindings db.bindings
    → SeatsFit db
    → SeatsFit (reaped (filter_by (stale cutoff) db.bindings) db)
unfolding reaped total
reaped-SeatsFit cutoff db unique s = record {
  keyed = rw (caps-release_seats counts db.licenses) s.keyed;
  fit = release_seats-All _ counts db.licenses (
      All-map (Fits db) _ db.licenses
        (λ l fits. (
          omega (arith, owes l.id, balance l.id, fits.0),
          λ m same limit used. rw same (
            omega (arith, owes l.id, balance l.id, fits.0, used),
            omega (arith, balance l.id, fits.1, limit),
          ),
        ))
        s.fit);
}
  where
    dead : List Binding
    dead = filter_by (stale cutoff) db.bindings

    counts : List (ℕ × ℕ)
    counts = per_license [] dead

    owes : (id : ℕ) → total id counts ≡ count_by (owned id) dead
    owes id = omega (arith, total-per_license id [] dead)

    balance :
        (id : ℕ)
        → count_by
              (is_active_of id)
              (update_where (λ b. contains (keys dead) b.id) bury db.bindings)
            + count_by (owned id) dead
          ≡ seats id db
    balance id =
        seats-buried cutoff id (λ b. contains (keys dead) b.id) db.bindings
          (chosen (stale cutoff) db.bindings unique)

reap_rows-Inv :
    {R : Type 0} (rows : List Binding) (w : World R)
    → SeatsFit (reaped rows w.db)
    → Inv w
    → Inv (reap_rows rows w).1
unfolding reap_rows
reap_rows-Inv [] w s i = i
reap_rows-Inv (b ∷ bs) w s i = (s, s)

-- Where bindings have their keys for themselves, a run of the reaper keeps every seat counter equal
-- to the active bindings and within the limit, in the session and in what is committed.
pub reap_dead_bindings-Inv :
    {R : Type 0} (now window : ℕ) (w : World R)
    → KeyedBindings w.db.bindings
    → Inv w
    → Inv (reap_dead_bindings now window w).1
unfolding reap_dead_bindings
reap_dead_bindings-Inv now window w unique i =
    reap_rows-Inv (filter_by (stale (now - window * second)) w.db.bindings) w
      (reaped-SeatsFit _ w.db unique i.0) i

no_stale_rows :
    (cutoff : ℕ) (bs : List Binding)
    → filter_by (stale cutoff) bs ≡ []
    → All (λ b. stale cutoff b ≡ false) bs
unfolding filter_by
no_stale_rows cutoff [] e = tt
no_stale_rows cutoff (b ∷ bs) e = elim (Bool-cases (stale cutoff b)) [
  | inl old ↦ absurd (ground arith)
  | inr fresh ↦ (fresh, no_stale_rows cutoff bs (rw fresh at e))
]

buried_rows :
    (cutoff : ℕ) (q : Binding → Bool) (bs : List Binding)
    → All (λ c. q c ≡ stale cutoff c) bs
    → All (λ b. stale cutoff b ≡ false) (update_where q bury bs)
unfolding update_where binding_status_eq
buried_rows cutoff q [] h = tt
buried_rows cutoff q (b ∷ bs) (h, hs) = (ground arith, buried_rows cutoff q bs hs)

reap_rows-none_stale :
    {R : Type 0} (cutoff : ℕ) (rows : List Binding) (w : World R)
    → filter_by (stale cutoff) w.db.bindings ≡ rows
    → KeyedBindings w.db.bindings
    → All (λ b. stale cutoff b ≡ false) (reap_rows rows w).1.db.bindings
unfolding reap_rows reaped
reap_rows-none_stale cutoff [] w e unique = no_stale_rows cutoff w.db.bindings e
reap_rows-none_stale cutoff (b ∷ bs) w e unique =
    buried_rows cutoff (λ c. contains (keys (b ∷ bs)) c.id) w.db.bindings
      (subst (λ r. All (λ c. contains (keys r) c.id ≡ stale cutoff c) w.db.bindings) e
        (chosen (stale cutoff) w.db.bindings unique))

-- Where bindings have their keys for themselves, no active binding has a heartbeat before the cutoff
-- after a run of the reaper.
pub reap_dead_bindings-none_stale :
    {R : Type 0} (now window : ℕ) (w : World R)
    → KeyedBindings w.db.bindings
    → All
        (λ b. stale (now - window * second) b ≡ false)
        (reap_dead_bindings now window w).1.db.bindings
unfolding reap_dead_bindings
reap_dead_bindings-none_stale now window w unique =
    reap_rows-none_stale (now - window * second) _ w refl unique
