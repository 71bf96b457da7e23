-- ===== src/Services/Edge/Seats.antt =====
-- The seat accounting of `activate`: seats are counted, and never more than the license allows.
pub mod Handler
use navtra_license.Prelude.{
  ℕ, ◌+◌, ◌*◌, ◌≤◌, ◌<◌, ◌≡◌, refl, sym, Bool, true, false, not, List, [], ◌∷◌, ◌++◌, Option, none,
  some, String, license_seat_lock_busy, arith, All, All-update_where, All-map, count_by,
  count_by-append, count_by-update_where, length, length-filter_by, filter_by, update_where, leb,
  Bool-cases, inl, inr, if◌then◌else◌, ◌==◌, nat_eq, option_eq, Option-cases, map, map-update_where,
  ◌≢◌,
}
use navtra_license.Models.{License, mode_eq, online, Binding, binding_status_eq, edge_lease}
use navtra_license.World.{World, Db, lift, raise_when, commit, one_or_none}
use navtra_license.World.Triples.{
  Holds, Triple, bind, Holds-both, lift-keeps, raise_when-keeps, select-All, Row-cases,
}
use navtra_license.Audit.{Ctx, Event, log}
use navtra_license.Services.External.{External, Settings, second}
use navtra_license.Services.Keys.{get_active, decrypt_private}
use navtra_license.Services.Edge.{
  Request, is_active_of, active_bindings, account_seat, seat_for, reuse_binding, refuse_seat,
  install_clash, take_seat, activate, adopt, new_binding, seat_taken, find_license, has_code,
  activate_under_lock, activation_event, check_revoked, assert_valid_window, acquire_lock,
}
use navtra_license.Services.Leases.{LeaseCache, Draws, mint_lease, record_lease}

-- The seats in use: the active bindings of a license.
abbrev pub seats : ℕ → Db → ℕ
seats id db = count_by (is_active_of id) db.bindings

-- The counter of a license is right, and within its limit.
abbrev pub Fits : Db → License → Type 0
Fits db l = (l.seat_used ≡ seats l.id db) × (seats l.id db ≤ l.seat_limit)

-- The keys and the limits of the licenses; a key stands once.
abbrev pub caps : List License → List (ℕ × ℕ)
caps = map (λ l. (l.id, l.seat_limit))

abbrev pub Keyed : List (ℕ × ℕ) → Type 0
Keyed [] = Unit {0}
Keyed (c ∷ cs) = All (λ d. d.0 ≢ c.0) cs × Keyed cs

-- Every license has its key for itself, and its counter is right.
pub record SeatsFit (db : Db) : Type 0 where
  pub keyed : Keyed (caps db.licenses)
  pub fit : All (Fits db) db.licenses

module _ {R : Type 0} where
  -- Of the session and of the committed tables.
  abbrev pub Inv : World R → Type 0
  Inv w = SeatsFit w.db × SeatsFit w.committed

abbrev pub Agrees : License → List License → Type 0
Agrees l = All (λ m. m.id ≡ l.id → m.seat_limit ≡ l.seat_limit)

pub apart : (x : License) (ls : List License) → All (λ d. d.0 ≢ x.id) (caps ls) → Agrees x ls
apart x [] h = tt
apart x (l ∷ ls) (h, hs) = ((λ e. absurd (h e)), apart x ls hs)

pub join :
    (x : License) (ls rest : List License)
    → All (λ d. d.0 ≢ x.id) (caps ls)
    → All (λ l. Agrees l rest) ls
    → All (λ l. Agrees l (x ∷ rest)) ls
join x [] rest h k = tt
join x (l ∷ ls) rest (h, hs) (k, ks) = (((λ e. absurd (h (sym e))), k), join x ls rest hs ks)

-- Rows with one key have one limit.
pub agree : (ls : List License) → Keyed (caps ls) → All (λ l. Agrees l ls) ls
agree [] h = tt
agree (x ∷ ls) (h, hs) = (((λ _. refl), apart x ls h), join x ls ls h (agree ls hs))

-- A change of bindings that leaves each one's license, status and deletion alone.
pub update-SeatsFit :
    (p : Binding → Bool) (f : Binding → Binding) (db : Db)
    → ((id : ℕ) (b : Binding) → is_active_of id (f b) ≡ is_active_of id b)
    → SeatsFit db
    → SeatsFit (record db { bindings = update_where p f db.bindings })
update-SeatsFit p f db same h = record {
  keyed = h.keyed;
  fit =
      All-map (Fits db) _ db.licenses
        (λ l fits. rw (count_by-update_where (is_active_of l.id) p f db.bindings (same l.id)) fits)
        h.fit;
}

abbrev pub with_seat : ℕ → License → Binding → Db → Db
with_seat now lic b db = record db {
  bindings = db.bindings ++ (b ∷ []);
  licenses = update_where (λ l. l.id == lic.id) (seat_taken now lic) db.licenses;
}

pub both_All :
    {A : Type 0} (P Q : A → Type 0) (xs : List A) → All P xs → All Q xs → All (λ a. P a × Q a) xs
both_All P Q [] h k = tt
both_All P Q (x ∷ xs) (h, hs) (k, ks) = ((h, k), both_All P Q xs hs ks)

-- One more seat, where one is free.
pub take-SeatsFit :
    (db : Db) (lic : License) (now : ℕ) (b : Binding)
    → b.license_id ≡ lic.id
    → is_active_of lic.id b ≡ true
    → Fits db lic
    → Agrees lic db.licenses
    → seats lic.id db < lic.seat_limit
    → SeatsFit db
    → SeatsFit (with_seat now lic b db)
take-SeatsFit db lic now b owner active fits agrees free h = record {
  keyed =
      rw
        (map-update_where {B = ℕ × ℕ} (λ l. (l.id, l.seat_limit)) (λ l. l.id == lic.id)
          (seat_taken now lic) db.licenses (λ l. refl))
        h.keyed;
  fit =
      All-update_where (λ l. Fits db l × (l.id ≡ lic.id → l.seat_limit ≡ lic.seat_limit))
        (Fits (with_seat now lic b db)) (λ l. l.id == lic.id) (seat_taken now lic) db.licenses
        (λ l own hit. taken l own.0 own.1 (ground arith))
        (λ l own miss. others l own.0 (ground arith))
        (both_All (Fits db) _ db.licenses h.fit agrees);
}
  where
    counted :
        (id : ℕ)
        → seats id (with_seat now lic b db) ≡ seats id db + (if is_active_of id b then 1 else 0)
    counted id = rw count_by-append (unfold count_by in omega arith)

    taken :
        (l : License)
        → Fits db l
        → (l.id ≡ lic.id → l.seat_limit ≡ lic.seat_limit)
        → l.id ≡ lic.id
        → Fits (with_seat now lic b db) (seat_taken now lic l)
    taken l own limit same =
        let one_more : seats l.id (with_seat now lic b db) ≡ seats lic.id db + 1 =
          rw (same, counted lic.id, active) in
        (omega (arith, one_more), omega (arith, one_more, limit same))

    others : (l : License) → Fits db l → l.id ≢ lic.id → Fits (with_seat now lic b db) l
    others l own differ =
        let elsewhere : is_active_of l.id b ≡ false = ground arith in
        let unchanged : seats l.id (with_seat now lic b db) ≡ seats l.id db =
          rw (counted l.id, elsewhere) (omega arith) in
        (omega (arith, unchanged), omega (arith, unchanged))
