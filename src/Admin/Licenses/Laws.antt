-- ===== src/Admin/Licenses/Laws.antt =====
-- Nobody gets past the permission of a route.
use navtra_license.Prelude.{
  ℕ, ◌≡◌, refl, some, String, ok, err, Code, Option-cases, inl, inr, auth_required, perm_denied,
  contains, Bool-cases, ◌⊎◌, ◌||◌, string_eq,
}
use navtra_license.World.{M, World}
use navtra_license.Services.External.{External, Settings}
use navtra_license.Admin.Sessions.{Session, SessionStore, SessionSettings, get}
use navtra_license.Admin.Permissions.{role_has}
use navtra_license.Admin.Access.{
  CurrentUser, HttpRequest, non_empty, current_user, get_current_user, require_perm,
}
use navtra_license.Admin.Licenses.{guarded}

module _ (S : SessionSettings) {R : Type 0} (T : SessionStore R) where
  -- The request carries the cookie of a session whose user has the permission.
  abbrev pub Authorized : String → HttpRequest → ℕ → World R → CurrentUser → Type 0
  Authorized permission q now w user =
      (sid : String) × (s : Session) × (non_empty q.cookie ≡ some sid)
      × ((get S T sid now w.cache).0 ≡ some s)
      × (user ≡ current_user s)
      × (require_perm permission user ≡ ok user)

  -- The world in which a handler starts: the session is renewed, or was found to be over.
  abbrev pub after_session : String → ℕ → World R → World R
  after_session sid now w = record w { cache = (get S T sid now w.cache).1 }

  current_user-cases :
      (q : HttpRequest) (now : ℕ) (w : World R)
      → ((c : Code) × (v : World R) × (get_current_user S T q.cookie now w ≡ (err c, v))
          × (v.db ≡ w.db)
          × (v.committed ≡ w.committed))
        ⊎ ((sid : String) × (s : Session) × (non_empty q.cookie ≡ some sid)
            × ((get S T sid now w.cache).0 ≡ some s)
            × (get_current_user S T q.cookie now w
                ≡ (ok (current_user s), after_session sid now w)))
  unfolding get_current_user
  current_user-cases q now w = elim (Option-cases (non_empty q.cookie)) [
    | inl without ↦ inl (auth_required, w, rw without refl, refl, refl)
    | inr (sid, with_) ↦ elim (Option-cases (get S T sid now w.cache).0) [
      | inl gone ↦ inl (auth_required, after_session sid now w, rw (with_, gone) refl, refl, refl)
      | inr (s, there) ↦ inr (sid, s, with_, there, rw (with_, there) refl)
    ]
  ]

  require_perm-cases :
      (permission : String) (user : CurrentUser)
      → (require_perm permission user ≡ ok user) ⊎ (require_perm permission user ≡ err perm_denied)
  unfolding require_perm
  require_perm-cases permission user =
      elim (Bool-cases (contains user.permissions "*" || contains user.permissions permission)) [
        | inl has ↦ inl (rw has refl)
        | inr has_not ↦ elim (Bool-cases (role_has user.role permission)) [
          | inl may ↦ inl (rw (has_not, may) refl)
          | inr may_not ↦ inr (rw (has_not, may_not) refl)
        ]
      ]

  -- A guarded route either answers an error and leaves every table as it was, or its handler runs, on
  -- the tables as they were, for the user of a session whose cookie the request carries and who has
  -- the permission.
  pub guarded-Authorized :
      (X : External) (E : Settings) {A : Type 0} (permission : String)
      (handler : CurrentUser → M R A) (q : HttpRequest) (now : ℕ) (w : World R)
      → ((c : Code) × ((guarded X E S T permission handler q now w).0 ≡ err c)
          × ((guarded X E S T permission handler q now w).1.db ≡ w.db)
          × ((guarded X E S T permission handler q now w).1.committed ≡ w.committed))
        ⊎ ((user : CurrentUser) × (v : World R) × Authorized permission q now w user
            × (v.db ≡ w.db)
            × (v.committed ≡ w.committed)
            × (guarded X E S T permission handler q now w ≡ handler user v))
  unfolding guarded
  guarded-Authorized X E permission handler q now w = elim (current_user-cases q now w) [
    | inl (c, v, refused, same, kept) ↦ inl (c, rw refused refl, rw refused same, rw refused kept)
    | inr (sid, s, with_, there, found) ↦ elim (require_perm-cases permission (current_user s)) [
      | inl may ↦ inr (
        current_user s,
        after_session sid now w,
        (sid, s, with_, there, refl, may),
        refl,
        refl,
        rw (found, may) refl,
      )
      | inr denied ↦
          inl
            (perm_denied, rw (found, denied) refl, rw (found, denied) refl, rw (found, denied) refl)
    ]
  ]
