-- ===== src/Services/Edge/Validate/Caller.antt =====
-- The binding that a token of a renewal leads to, and the caller that it fits.
use navtra_license.Prelude.{
  ℕ, ◌≡◌, ◌≢◌, ◌⊎◌, refl, ◌∙◌, none, inl, inr, true, Option, some, String, ok, arith, filter_by,
  ◌==◌, string_eq, nat_eq, option_eq, Option-cases, Bool-cases, ap, sym,
}
use navtra_license.Models.{Binding, Lease, BindingStatus, status_eq, binding_status_eq}
use navtra_license.World.{World, one_or_none}
use navtra_license.World.Triples.{Row-cases}
use navtra_license.Services.External.{External, Settings}
use navtra_license.Services.Edge.{install_clash}
use navtra_license.Services.Leases.{LeaseCache, HotLease, cache_key, Draws}
use navtra_license.Services.Edge.Validate.{is_lease_of, binding_key, find_binding, same_host}

-- What `same_host` tests.
pub host_inv :
    (b : Binding) (fingerprint : String) (install_id : Option String)
    → same_host b fingerprint install_id ≡ true
    → (b.deployment_uid ≡ none → b.fingerprint ≡ fingerprint)
      × ((one other : String)
          → b.install_id ≡ some one
          → install_id ≡ some other
          → one ≢ ""
          → other ≢ ""
          → one ≡ other)
unfolding same_host install_clash
host_inv b fingerprint install_id e = (
  λ bare. ground (arith, rw (same_host, bare) at e),
  λ one other here there p q. ground (arith, rw (same_host, install_clash, here, there) at e),
)

module _ (X : External) (S : Settings) {R : Type 0} (K : LeaseCache R) where
  -- The binding whose id stands in the hot lease of the token, or else in its lease row, read from the
  -- table.
  pub record Behind (d : Draws) (token : String) (w : World R) (b : Binding) : Type 0 where
    pub row : Option Lease
    pub id : ℕ
    pub lease : one_or_none (filter_by (is_lease_of (X.sha256 token)) w.db.leases) ≡ ok row
    pub named :
        ((hot : HotLease) × (K.get w.cache d.checked_at (cache_key X S K token) ≡ some hot)
          × (hot.binding_id ≡ id))
        ⊎ ((l : Lease) × (K.get w.cache d.checked_at (cache_key X S K token) ≡ none)
            × (row ≡ some l)
            × (l.binding_id ≡ id))
    pub stored : one_or_none (filter_by (λ c. c.id == id) w.db.bindings) ≡ ok (some b)

  named_by :
      (hot : Option HotLease) (row : Option Lease) (id : ℕ)
      → binding_key hot row ≡ some id
      → ((h : HotLease) × (hot ≡ some h) × (h.binding_id ≡ id))
        ⊎ ((l : Lease) × (hot ≡ none) × (row ≡ some l) × (l.binding_id ≡ id))
  unfolding binding_key
  named_by (some h) row id e = inl (h, refl, ground arith)
  named_by none (some l) id e = inr (l, refl, refl, ground arith)
  named_by none none id e = absurd (ground arith)

  after_lease :
      (d : Draws) (token : String) (w w' : World R) (b : Binding) (row : Option Lease)
      → one_or_none (filter_by (is_lease_of (X.sha256 token)) w.db.leases) ≡ ok row
      → find_binding X S K d token w ≡ (ok b, w')
      → (w' ≡ w) × (b.status ≡ BindingStatus.active) × Behind d token w b
  unfolding find_binding
  after_lease d token w w' b row f e =
      elim (Option-cases (binding_key (K.get w.cache d.checked_at (cache_key X S K token)) row)) [
        | inl nameless ↦ absurd (ground (arith, rw (find_binding, f, nameless) at e))
        | inr (id, key) ↦
            elim (Row-cases (one_or_none (filter_by (λ c. c.id == id) w.db.bindings))) [
              | inl (c, g) ↦ absurd (ground (arith, rw (find_binding, f, key, g) at e))
              | inr (inl g) ↦ absurd (ground (arith, rw (find_binding, f, key, g) at e))
              | inr (inr (found, g)) ↦ elim (Bool-cases (found.status == BindingStatus.active)) [
                | inr idle ↦ absurd (ground (arith, rw (find_binding, f, key, g, idle) at e))
                | inl live ↦
                    let same : found ≡ b =
                      ground (arith, rw (find_binding, f, key, g, live) at e) in
                    (
                      ground (arith, rw (find_binding, f, key, g, live) at e),
                      ap (λ c. c.status) (sym same) ∙ ground arith,
                      record {
                        row = row;
                        id = id;
                        lease = f;
                        named = named_by _ row id key;
                        stored = g ∙ ap (λ c. ok (some c)) same;
                      },
                    )
              ]
            ]
      ]

  pub find_binding_inv :
      (d : Draws) (token : String) (w w' : World R) (b : Binding)
      → find_binding X S K d token w ≡ (ok b, w')
      → (w' ≡ w) × (b.status ≡ BindingStatus.active) × Behind d token w b
  unfolding find_binding
  find_binding_inv d token w w' b e =
      elim (Row-cases (one_or_none (filter_by (is_lease_of (X.sha256 token)) w.db.leases))) [
        | inl (c, f) ↦ absurd (ground (arith, rw (find_binding, f) at e))
        | inr (inl f) ↦ after_lease d token w w' b none f e
        | inr (inr (l, f)) ↦ after_lease d token w w' b (some l) f e
      ]
