-- ===== src/World.antt =====
-- The state of the server: the tables as one database session sees them, the tables as they are
-- committed, and a cache. `get_db_session` of app/db/session.py in Project-source/forge-server gives
-- each request a session that is closed at its end: what was not committed is rolled back.
pub mod Triples
use navtra_license.Prelude.{
  Bool, true, false, List, [], ◌∷◌, Option, none, some, Result, ok, err, Code,
  system_internal_error, filter_by,
}
use navtra_license.Models.{
  License, Binding, CloneAlert, Lease, Revocation, CrlBundle, SigningKey, AuditLog, Product,
  Customer, User,
}

pub record Db : Type 0 where
  pub licenses : List License
  pub bindings : List Binding
  pub leases : List Lease
  pub clone_alerts : List CloneAlert
  pub revocations : List Revocation
  pub crl_bundles : List CrlBundle
  pub signing_keys : List SigningKey
  pub products : List Product
  pub customers : List Customer
  pub users : List User
  pub audit_log : List AuditLog

pub record World (R : Type 0) : Type 0 where
  pub db : Db
  pub committed : Db
  pub cache : R

abbrev pub M : Type 0 → Type 0 → Type 0
M R A = World R → Result A × World R

-- An error leaves the rest of the handler out; what it did before stays in the session.
abbrev pub continue_with : {R A B : Type 0} → Result A × World R → (A → M R B) → Result B × World R
continue_with (ok a, w) f = f a w
continue_with (err e, w) f = (err e, w)

infixl 5 ◌>>=◌ ◌>>◌
abbrev pub ◌>>=◌ : {R A B : Type 0} → M R A → (A → M R B) → M R B
◌>>=◌ m f w = continue_with (m w) f

abbrev pub ◌>>◌ : {R B : Type 0} → M R (Unit {0}) → M R B → M R B
m >> k = m >>= λ _. k

module _ {R : Type 0} where
  abbrev pub pure : {A : Type 0} → A → M R A
  pure a w = (ok a, w)

  abbrev pub lift : {A : Type 0} → Result A → M R A
  lift r w = (r, w)

  abbrev pub raise : {A : Type 0} → Code → M R A
  raise e w = (err e, w)

  abbrev pub raise_when : Bool → Code → M R (Unit {0})
  raise_when true e w = (err e, w)
  raise_when false e w = (ok tt, w)

  -- A query.
  abbrev pub query : {A : Type 0} → (Db → A) → M R A
  query f w = (ok (f w.db), w)

  -- A change in the session.
  abbrev pub modify : (Db → Db) → M R (Unit {0})
  modify f w = (ok tt, record w { db = f w.db })

  -- `await db.commit()`
  abbrev pub commit : M R (Unit {0})
  commit w = (ok tt, record w { committed = w.db })

  -- Commands on the cache.
  abbrev pub with_cache : {A : Type 0} → (R → A × R) → M R A
  with_cache f w = let answer = f w.cache in (ok answer.0, record w { cache = answer.1 })

  abbrev pub change_cache : (R → R) → M R (Unit {0})
  change_cache f w = (ok tt, record w { cache = f w.cache })

  -- `except Exception: …; raise`
  abbrev after_failure :
      {A : Type 0} → (Code → M R (Unit {0})) → Result A × World R → Result A × World R
  after_failure f (ok a, w) = (ok a, w)
  after_failure f (err e, w) = continue_with (f e w) (λ _ v. (err e, v))

  abbrev pub on_failure : {A : Type 0} → M R A → (Code → M R (Unit {0})) → M R A
  on_failure m f w = after_failure f (m w)

  -- The end of a request: the session is closed, and the next one sees the committed tables.
  abbrev pub close_session : {A : Type 0} → Result A × World R → Result A × World R
  close_session (r, w) = (r, record w { db = w.committed })

  abbrev pub request : {A : Type 0} → M R A → M R A
  request m w = close_session (m w)

-- `scalar_one_or_none`: more rows than one are an exception.
abbrev pub one_or_none : {A : Type 0} → List A → Result (Option A)
one_or_none [] = ok none
one_or_none (a ∷ []) = ok (some a)
one_or_none (a ∷ b ∷ rest) = err system_internal_error

abbrev pub select_one : {R A : Type 0} → (Db → List A) → (A → Bool) → M R (Option A)
select_one table p w = (one_or_none (filter_by p (table w.db)), w)
