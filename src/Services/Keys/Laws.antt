-- ===== src/Services/Keys/Laws.antt =====
-- What `ensure_keys` leaves, and when it raises.
use navtra_license.Prelude.{
  ◌≡◌, ◌≢◌, ◌⊎◌, refl, sym, ◌∙◌, true, false, List, [], ◌∷◌, ◌++◌, none, some, String, filter_by,
  Bool-cases, Option-cases, inl, inr, ok, err, system_internal_error, arith,
}
use navtra_license.Models.{SigningKey, Purpose, master, edge_lease, purpose_eq}
use navtra_license.World.{World}
use navtra_license.Services.External.{External, Settings}
use navtra_license.Services.Keys.{
  NewKey, newest, usable, get_active, kek_for, new_key, sealed_key, ensure_key, ensure_keys,
}

-- The first usable key of a table is found.
found_alone :
    (p : Purpose) (ks : List SigningKey) (k : SigningKey)
    → usable p k ≡ true
    → newest (filter_by (usable p) ks) ≡ none
    → newest (filter_by (usable p) (ks ++ (k ∷ []))) ≡ some k
unfolding newest filter_by
found_alone p [] k e absent = rw e refl
found_alone p (x ∷ ks) k e absent = elim (Bool-cases (usable p x)) [
  | inl hit ↦ absurd (ground (arith, rw hit at absent))
  | inr miss ↦ rw miss (found_alone p ks k e (rw miss at absent))
]

-- A key of another purpose is not looked at.
not_found :
    (p : Purpose) (ks : List SigningKey) (k : SigningKey)
    → usable p k ≡ false
    → newest (filter_by (usable p) (ks ++ (k ∷ []))) ≡ newest (filter_by (usable p) ks)
unfolding newest filter_by
not_found p [] k e = rw e refl
not_found p (x ∷ ks) k e = elim (Bool-cases (usable p x)) [
  | inl hit ↦ rw hit (rw (not_found p ks k e) refl)
  | inr miss ↦ rw miss (not_found p ks k e)
]

module _ (X : External) (S : Settings) where
  usable-sealed_key :
      (p : Purpose) (n : NewKey) (sealed : String × String)
      → usable p (sealed_key X S p n sealed) ≡ true
  usable-sealed_key p n sealed = ground arith

  usable_other :
      (p q : Purpose) (n : NewKey) (sealed : String × String)
      → q ≢ p
      → usable q (sealed_key X S p n sealed) ≡ false
  usable_other p q n sealed other = ground arith

module _ (X : External) (S : Settings) {R : Type 0} where
  with_key : SigningKey → World R → World R
  with_key k w = record w { db = record (w.db) { signing_keys = w.db.signing_keys ++ (k ∷ []) } }

  added :
      (p : Purpose) (k : SigningKey) (w : World R)
      → usable p k ≡ true
      → get_active p w.db ≡ none
      → get_active p (with_key k w).db ≡ some k
  unfolding get_active with_key
  added p k w fits absent = found_alone p w.db.signing_keys k fits absent

  left :
      (q : Purpose) (k : SigningKey) (w : World R)
      → usable q k ≡ false
      → get_active q (with_key k w).db ≡ get_active q w.db
  unfolding get_active with_key
  left q k w other = not_found q w.db.signing_keys k other

  -- A round raises, or its purpose then has the active key that it answers, and the other one the key
  -- that it had.
  ensure_key-cases :
      (p : Purpose) (n : NewKey) (w : World R)
      → ((ensure_key X S p n (get_active p w.db) w ≡ (err system_internal_error, w))
          × (get_active p w.db ≡ none)
          × (X.encrypt_secret n.private_pem (kek_for X S p) ≡ none))
        ⊎ ((k : SigningKey) × (v : World R) × (ensure_key X S p n (get_active p w.db) w
              ≡ (ok k.key_id, v))
            × (get_active p v.db ≡ some k)
            × ((q : Purpose) → q ≢ p → get_active q v.db ≡ get_active q w.db))
  unfolding ensure_key new_key with_key
  ensure_key-cases p n w = elim (Option-cases (get_active p w.db)) [
    | inr (k, here) ↦ inr (k, w, rw here refl, here, λ q other. refl)
    | inl absent ↦ elim (Option-cases (X.encrypt_secret n.private_pem (kek_for X S p))) [
      | inl f ↦ inl (rw (absent, ensure_key, new_key, f) refl, absent, f)
      | inr (sealed, f) ↦ inr (
        sealed_key X S p n sealed,
        with_key (sealed_key X S p n sealed) w,
        rw (absent, ensure_key, new_key, f) refl,
        added p (sealed_key X S p n sealed) w (usable-sealed_key X S p n sealed) absent,
        λ q other. left q (sealed_key X S p n sealed) w (usable_other X S p q n sealed other),
      )
    ]
  ]

  keeps :
      (m e : NewKey) (w : World R) (k l : SigningKey)
      → get_active master w.db ≡ some k
      → get_active edge_lease w.db ≡ some l
      → ensure_keys X S m e w ≡ (ok (k.key_id, l.key_id), w)
  unfolding ensure_keys ensure_key
  keeps m e w k l has_master has_edge = rw (ensure_keys, ensure_key, has_master, has_edge) refl

  -- `ensure_keys` raises only where a purpose has no active key and the new private key cannot be
  -- encrypted for it; otherwise it answers the ids of active keys of both purposes, and a second run
  -- then, whatever it would draw, answers the same and changes nothing.
  pub ensure_keys_twice :
      (m e m2 e2 : NewKey) (w : World R)
      → (((ensure_keys X S m e w).0 ≡ err system_internal_error)
          × (((get_active master w.db ≡ none)
                × (X.encrypt_secret m.private_pem (kek_for X S master) ≡ none))
              ⊎ ((get_active edge_lease w.db ≡ none)
                  × (X.encrypt_secret e.private_pem (kek_for X S edge_lease) ≡ none))))
        ⊎ ((k : SigningKey) × (l : SigningKey) × (v : World R) × (ensure_keys X S m e w
              ≡ (ok (k.key_id, l.key_id), v))
            × (get_active master v.db ≡ some k)
            × (get_active edge_lease v.db ≡ some l)
            × (ensure_keys X S m2 e2 v ≡ (ok (k.key_id, l.key_id), v)))
  unfolding ensure_keys
  ensure_keys_twice m e m2 e2 w = elim (ensure_key-cases master m w) [
    | inl (raises, absent, f) ↦ inl (rw (ensure_keys, raises) refl, inl (absent, f))
    | inr (k, u, one, has, other) ↦ elim (ensure_key-cases edge_lease e u) [
      | inl (raises, absent, f) ↦ inl (
        rw (ensure_keys, one, raises) refl,
        inr (sym (other edge_lease (λ p. ground arith)) ∙ absent, f),
      )
      | inr (l, v, two, has_edge, kept) ↦
          let has_master = kept master (λ p. ground arith) ∙ has in
          inr (
            k,
            l,
            v,
            rw (ensure_keys, one, two) refl,
            has_master,
            has_edge,
            keeps m2 e2 v k l has_master has_edge,
          )
    ]
  ]
