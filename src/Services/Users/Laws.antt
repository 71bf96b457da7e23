-- ===== src/Services/Users/Laws.antt =====
-- No request of the users API takes the last active super admin.
use navtra_license.Prelude.{
  ℕ, ◌+◌, ◌≤◌, ◌≡◌, refl, Bool, true, false, ◌&&◌, ◌||◌, List, [], ◌∷◌, ◌++◌, some, String, leb,
  count_by, update_where, filter_by, All, ◌==◌, nat_eq, string_eq, arith, inl, inr, subst, sym, ◌⊎◌,
  Bool-cases, Option-cases, Option, if◌then◌else◌, ok, err, Code, count_by-append,
  count_by-update_where, system_internal_error, resource_not_found, lower_text,
}
use navtra_license.Models.{User}
use navtra_license.World.{World, one_or_none}
use navtra_license.World.Triples.{Row-cases, select-All}
use navtra_license.Audit.{Ctx, log}
use navtra_license.Services.External.{External}
use navtra_license.Services.Passwords.{Argon}
use navtra_license.Services.Users.{
  UserCreate, UserUpdate, has_user_id, has_email_ever, is_active_super_admin, active_super_admins,
  soft_delete, demoting, disabling, names_null, apply_update, get_user, create_user, update_user,
  reset_password, delete_user, role_changed,
}

-- The super admins that a change of some rows takes are among the live rows that it was meant for.
admins_left :
    (id : ℕ) (f : User → User) (us : List User)
    → count_by is_active_super_admin us
        + count_by (λ v. is_active_super_admin (f v)) (filter_by (has_user_id id) us)
      ≤ count_by is_active_super_admin (update_where (λ v. v.id == id) f us)
        + count_by is_active_super_admin (filter_by (has_user_id id) us)
unfolding count_by update_where filter_by
admins_left id f [] = omega arith
admins_left id f (u ∷ us) = ground (arith, admins_left id f us)

one_row :
    {A : Type 0} (p : A → Bool) (rows : List A) {a : A}
    → one_or_none rows ≡ ok (some a)
    → count_by p rows ≡ (if p a then 1 else 0)
unfolding count_by
one_row p [] e = absurd (ground arith)
one_row p (x ∷ []) {a} e = let same : x ≡ a = ground arith in rw same (omega arith)
one_row p (x ∷ y ∷ rest) e = absurd (ground arith)

everything : {A : Type 0} (xs : List A) → All (λ _. Unit {0}) xs
everything [] = tt
everything (x ∷ xs) = (tt, everything xs)

-- A change of one row leaves an active super admin where the row was none, or there was another, or
-- it is still one.
pub row_changed :
    (u : User) (f : User → User) (us : List User)
    → one_or_none (filter_by (has_user_id u.id) us) ≡ ok (some u)
    → 1 ≤ count_by is_active_super_admin us
    → (is_active_super_admin u ≡ false)
      ⊎ ((2 ≤ count_by is_active_super_admin us) ⊎ (is_active_super_admin (f u) ≡ true))
    → 1 ≤ count_by is_active_super_admin (update_where (λ v. v.id == u.id) f us)
row_changed u f us row some_before why =
    enough (is_active_super_admin u) (is_active_super_admin (f u)) _ _ _ _ some_before
      (admins_left u.id f us) (one_row is_active_super_admin _ row)
      (one_row (λ v. is_active_super_admin (f v)) _ row) why
  where
    enough :
        (was is : Bool) (before after gone stays : ℕ)
        → 1 ≤ before
        → before + stays ≤ after + gone
        → gone ≡ (if was then 1 else 0)
        → stays ≡ (if is then 1 else 0)
        → (was ≡ false) ⊎ ((2 ≤ before) ⊎ (is ≡ true))
        → 1 ≤ after
    enough was is before after gone stays h k g s why = ground arith

found :
    (X : External) {R : Type 0} (user_id : String) (w : World R) (u : User) (id : ℕ)
    → X.parse_uuid user_id ≡ some id
    → one_or_none (filter_by (has_user_id id) w.db.users) ≡ ok (some u)
    → get_user X user_id w ≡ (ok u, w)
unfolding get_user
found X user_id w u id good row = rw (good, row) refl

-- A row that was found by its key has it.
pub found-id :
    (id : ℕ) (u : User) (us : List User)
    → one_or_none (filter_by (has_user_id id) us) ≡ ok (some u)
    → u.id ≡ id
found-id id u us row =
    let (_, test) = select-All (λ _. Unit {0}) (has_user_id id) us (everything us) row in
    ground arith

-- `get_user` answers an error and changes nothing, or gives the one live row of its key.
pub get_user-cases :
    (X : External) {R : Type 0} (user_id : String) (w : World R)
    → ((c : Code) × (get_user X user_id w ≡ (err c, w)))
      ⊎ ((u : User) × (get_user X user_id w ≡ (ok u, w))
          × (one_or_none (filter_by (has_user_id u.id) w.db.users) ≡ ok (some u)))
unfolding get_user
get_user-cases X user_id w = elim (Option-cases (X.parse_uuid user_id)) [
  | inl bad ↦ inl (system_internal_error, rw bad refl)
  | inr (id, good) ↦ elim (Row-cases (one_or_none (filter_by (has_user_id id) w.db.users))) [
    | inl (c, bad) ↦ inl (c, rw (good, bad) refl)
    | inr (inl absent) ↦ inl (resource_not_found, rw (good, absent) refl)
    | inr (inr (u, row)) ↦
        let same = found-id id u w.db.users row in
        inr (
          u,
          found X user_id w u id good row,
          subst (λ n. one_or_none (filter_by (has_user_id n) w.db.users) ≡ ok (some u)) (sym same)
              row,
        )
  ]
]

grown :
    (u : User) (us : List User)
    → 1 ≤ count_by is_active_super_admin us
    → 1 ≤ count_by is_active_super_admin (us ++ (u ∷ []))
grown u us h = omega (arith, h, count_by-append is_active_super_admin us (u ∷ []))

-- What a handler leaves: an active super admin in the session, and the committed tables as they were
-- or as the session's.
abbrev pub Leaves : {R : Type 0} → World R → World R → Type 0
Leaves w v = (1 ≤ active_super_admins v.db) × ((v.committed ≡ w.committed) ⊎ (v.committed ≡ v.db))

-- The guard of `delete_user`, read on a row.
deletable :
    (u : User) (n : ℕ)
    → 1 ≤ n
    → (u.role == "super_admin" && leb n 1) ≡ false
    → (is_active_super_admin u ≡ false) ⊎ (2 ≤ n)
deletable u n h guard = ground arith

-- The guard of `update_user`.
pub updatable :
    (actor : ℕ) (body : UserUpdate) (u : User) (n : ℕ)
    → 1 ≤ n
    → ((disabling body u || demoting body u) && (u.role == "super_admin" && leb n 1)) ≡ false
    → (is_active_super_admin u ≡ false)
      ⊎ ((2 ≤ n) ⊎ (is_active_super_admin (apply_update actor body u) ≡ true))
updatable actor body u n h guard = ground arith

module _ (X : External) {R : Type 0} (logout : R → ℕ → R) where
  pub delete_user-Leaves :
      (now actor : ℕ) (user_id : String) (ctx : Ctx) (w : World R)
      → 1 ≤ active_super_admins w.db
      → Leaves w (delete_user X logout now actor user_id ctx w).1
  unfolding delete_user log
  delete_user-Leaves now actor user_id ctx w h = elim (get_user-cases X user_id w) [
    | inl (c, e) ↦ rw e (h, inl refl)
    | inr (u, e, row) ↦ elim (Bool-cases (u.id == actor)) [
      | inl self ↦ rw (e, self) (h, inl refl)
      | inr other ↦
          elim (Bool-cases (u.role == "super_admin" && leb (active_super_admins w.db) 1)) [
            | inl last ↦ rw (e, other, last) (h, inl refl)
            | inr free ↦
                rw (e, other, free)
                  (
                    row_changed u (soft_delete now actor) w.db.users row h
                        (elim (deletable u _ h free) [
                          | inl none_ ↦ inl none_
                          | inr more ↦ inr (inl more)
                        ]),
                    inr refl,
                  )
          ]
    ]
  ]

  -- If there is an active super admin before `delete_user`, there is one after it, whatever it answers.
  pub delete_user_keeps_admin :
      (now actor : ℕ) (user_id : String) (ctx : Ctx) (w : World R)
      → 1 ≤ active_super_admins w.db
      → 1 ≤ active_super_admins (delete_user X logout now actor user_id ctx w).1.db
  delete_user_keeps_admin now actor user_id ctx w h =
      (delete_user-Leaves now actor user_id ctx w h).0

  pub update_user-Leaves :
      (actor : ℕ) (user_id : String) (body : UserUpdate) (ctx : Ctx) (w : World R)
      → 1 ≤ active_super_admins w.db
      → Leaves w (update_user X logout actor user_id body ctx w).1
  unfolding update_user log
  update_user-Leaves actor user_id body ctx w h = elim (get_user-cases X user_id w) [
    | inl (c, e) ↦ rw e (h, inl refl)
    | inr (u, e, row) ↦ elim (Bool-cases (u.id == actor && (disabling body u || demoting body u))) [
      | inl self ↦ rw (e, self) (h, inl refl)
      | inr other ↦
          elim (Bool-cases (
            (disabling body u || demoting body u)
            && (u.role == "super_admin" && leb (active_super_admins w.db) 1))) [
              | inl last ↦ rw (e, other, last) (h, inl refl)
              | inr free ↦ elim (Bool-cases (names_null body)) [
                | inl bad ↦ rw (e, other, free, bad) (h, inl refl)
                | inr good ↦ elim (Bool-cases (role_changed body u || disabling body u)) [
                  | inl ends ↦
                      rw (e, other, free, good, ends)
                        (
                          row_changed u (apply_update actor body) w.db.users row h
                              (updatable actor body u _ h free),
                          inr refl,
                        )
                  | inr stays ↦
                      rw (e, other, free, good, stays)
                        (
                          row_changed u (apply_update actor body) w.db.users row h
                              (updatable actor body u _ h free),
                          inr refl,
                        )
                ]
              ]
            ]
    ]
  ]

  pub reset_password-Leaves :
      (G : Argon) (salt : String) (actor : ℕ) (user_id : String) (new_password : Option String)
      (ctx : Ctx) (w : World R)
      → 1 ≤ active_super_admins w.db
      → Leaves w (reset_password X logout G salt actor user_id new_password ctx w).1
  unfolding reset_password log
  reset_password-Leaves G salt actor user_id new_password ctx w h =
      elim (get_user-cases X user_id w) [
        | inl (c, e) ↦ rw e (h, inl refl)
        | inr (u, e, row) ↦ rw e (
          subst (λ n. 1 ≤ n)
              (sym (
                count_by-update_where is_active_super_admin (λ v. v.id == u.id) _ w.db.users
                  (λ v. refl)))
              h,
          inr refl,
        )
      ]

  pub create_user-Leaves :
      (G : Argon) (salt : String) (now id actor : ℕ) (body : UserCreate) (ctx : Ctx) (w : World R)
      → 1 ≤ active_super_admins w.db
      → Leaves w (create_user X G salt now id actor body ctx w).1
  unfolding create_user log
  create_user-Leaves G salt now id actor body ctx w h =
      elim (Row-cases
        (one_or_none (filter_by (has_email_ever (lower_text body.email)) w.db.users))) [
          | inl (c, bad) ↦ rw bad (h, inl refl)
          | inr (inl absent) ↦ rw absent (grown _ w.db.users h, inr refl)
          | inr (inr (u, row)) ↦ rw row (h, inl refl)
        ]
