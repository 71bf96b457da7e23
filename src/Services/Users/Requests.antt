-- ===== src/Services/Users/Requests.antt =====
-- Requests of app/api/admin/v1/users.py one after the other, each in a session of its own.
use navtra_license.Prelude.{ℕ, ◌≤◌, ◌≡◌, refl, sym, subst, String, Option, inl, inr}
use navtra_license.World.{World, request}
use navtra_license.Audit.{Ctx}
use navtra_license.Services.External.{External}
use navtra_license.Services.Passwords.{Argon}
use navtra_license.Services.Users.{
  UserCreate, UserUpdate, active_super_admins, create_user, update_user, reset_password,
  delete_user,
}
use navtra_license.Services.Users.Laws.{
  Leaves, create_user-Leaves, update_user-Leaves, reset_password-Leaves, delete_user-Leaves,
}

module _ (X : External) (G : Argon) {R : Type 0} (logout : R → ℕ → R) where
  -- One request, answered or refused, on the world that the one before it left.
  pub data Request : World R → World R → Type 0 where
    creates :
        (salt : String) (now id actor : ℕ) (body : UserCreate) (ctx : Ctx) (w : World R)
        → Request w (request (create_user X G salt now id actor body ctx) w).1
    updates :
        (actor : ℕ) (user_id : String) (body : UserUpdate) (ctx : Ctx) (w : World R)
        → Request w (request (update_user X logout actor user_id body ctx) w).1
    resets :
        (salt : String) (actor : ℕ) (user_id : String) (new_password : Option String) (ctx : Ctx)
        (w : World R)
        → Request w (request (reset_password X logout G salt actor user_id new_password ctx) w).1
    deletes :
        (now actor : ℕ) (user_id : String) (ctx : Ctx) (w : World R)
        → Request w (request (delete_user X logout now actor user_id ctx) w).1

  -- A run of requests.
  pub data Requests : World R → World R → Type 0 where
    done : (w : World R) → Requests w w
    then : (u v w : World R) → Request u v → Requests v w → Requests u w

  -- What the next session starts from.
  abbrev pub Administered : World R → Type 0
  Administered w = (1 ≤ active_super_admins w.db) × (w.db ≡ w.committed)

  closed : (w v : World R) → Administered w → Leaves w v → (1 ≤ active_super_admins v.committed)
  closed w v (h, same) (k, inl old) =
      subst (λ db. 1 ≤ active_super_admins db) (sym old)
        (subst (λ db. 1 ≤ active_super_admins db) same h)
  closed w v (h, same) (k, inr new) = subst (λ db. 1 ≤ active_super_admins db) (sym new) k

  Request-Administered : (u v : World R) → Request u v → Administered u → Administered v
  Request-Administered u v (creates salt now id actor body ctx _) h = (
    closed u (create_user X G salt now id actor body ctx u).1 h
        (create_user-Leaves X logout G salt now id actor body ctx u h.0),
    refl,
  )
  Request-Administered u v (updates actor user_id body ctx _) h = (
    closed u (update_user X logout actor user_id body ctx u).1 h
        (update_user-Leaves X logout actor user_id body ctx u h.0),
    refl,
  )
  Request-Administered u v (resets salt actor user_id new_password ctx _) h = (
    closed u (reset_password X logout G salt actor user_id new_password ctx u).1 h
        (reset_password-Leaves X logout G salt actor user_id new_password ctx u h.0),
    refl,
  )
  Request-Administered u v (deletes now actor user_id ctx _) h = (
    closed u (delete_user X logout now actor user_id ctx u).1 h
        (delete_user-Leaves X logout now actor user_id ctx u h.0),
    refl,
  )

  -- Whatever creations, updates, password resets and deletions are requested by whomever, in whatever
  -- order and however each is answered: if there is an active super admin before them, there is one
  -- after them.
  pub operators_keep_admin :
      (u v : World R) → Requests u v → Administered u → 1 ≤ active_super_admins v.db
  operators_keep_admin u v (done _) h = h.0
  operators_keep_admin u v (then _ m _ r rs) h =
      operators_keep_admin m v rs (Request-Administered u m r h)
