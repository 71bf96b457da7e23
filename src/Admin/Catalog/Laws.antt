-- ===== src/Admin/Catalog/Laws.antt =====
-- No two live products have one slug.
use navtra_license.Prelude.{
  ℕ, ◌≤◌, ◌≡◌, refl, sym, subst, ◌∙◌, List, [], ◌∷◌, ◌++◌, some, none, String, count_by,
  count_by-append, count_by-update_where, update_where, filter_by, length, length-filter_by, ◌==◌,
  nat_eq, string_eq, arith, inl, inr, ◌⊎◌, Bool-cases, Option-cases, ok, err, Code, Option,
  system_internal_error, resource_not_found,
}
use navtra_license.Models.{Product}
use navtra_license.World.{World, Db, one_or_none, request}
use navtra_license.World.Triples.{Row-cases}
use navtra_license.Audit.{Ctx, log}
use navtra_license.Services.External.{External}
use navtra_license.Admin.Catalog.Products.{
  ProductCreate, ProductUpdate, has_slug, has_product_id, new_product, nulls_product, apply_product,
  delete_product_row, get_product, create_product, update_product, delete_product,
}

abbrev pub DistinctSlugs : Db → Type 0
DistinctSlugs db = (slug : String) → count_by (has_slug slug) db.products ≤ 1

count_by-deleted :
    (slug : String) (id now actor : ℕ) (ps : List Product)
    → count_by (has_slug slug) (update_where (λ p. p.id == id) (delete_product_row now actor) ps)
      ≤ count_by (has_slug slug) ps
unfolding count_by update_where
count_by-deleted slug id now actor [] = omega arith
count_by-deleted slug id now actor (p ∷ ps) = ground (arith, count_by-deleted slug id now actor ps)

at_most : {a b : ℕ} → a ≤ b → b ≤ 1 → a ≤ 1
at_most h k = omega (arith, h, k)

looked_up :
    {A : Type 0} (rows : List A) → length rows ≤ 1 → (o : Option A) × (one_or_none rows ≡ ok o)
looked_up [] few = (none, refl)
looked_up (x ∷ []) few = (some x, refl)
looked_up (x ∷ y ∷ rest) few = absurd (omega (arith, few))

no_row : {A : Type 0} (rows : List A) → one_or_none rows ≡ ok none → length rows ≡ 0
no_row [] e = refl
no_row (x ∷ []) e = absurd (ground arith)
no_row (x ∷ y ∷ rest) e = absurd (ground arith)

created :
    (slug : String) (p : Product) (ps : List Product)
    → count_by (has_slug slug) ps ≤ 1
    → count_by (has_slug p.slug) ps ≡ 0
    → count_by (has_slug slug) (ps ++ (p ∷ [])) ≤ 1
unfolding count_by
created slug p ps h free = elim (Bool-cases (p.slug == slug)) [
  | inl same ↦
      let is : p.slug ≡ slug = ground arith in
      let none_ = rw is at free in
      ground (arith, count_by-append (has_slug slug) ps (p ∷ []), none_)
  | inr other ↦ ground (arith, count_by-append (has_slug slug) ps (p ∷ []), h, other)
]

get_product-cases :
    (X : External) {R : Type 0} (product_id : String) (w : World R)
    → ((c : Code) × (get_product X product_id w ≡ (err c, w)))
      ⊎ ((p : Product) × (get_product X product_id w ≡ (ok p, w)))
unfolding get_product
get_product-cases X product_id w = elim (Option-cases (X.parse_uuid product_id)) [
  | inl bad ↦ inl (system_internal_error, rw bad refl)
  | inr (id, good) ↦ elim (Row-cases (one_or_none (filter_by (has_product_id id) w.db.products))) [
    | inl (c, bad) ↦ inl (c, rw (good, bad) refl)
    | inr (inl absent) ↦ inl (resource_not_found, rw (good, absent) refl)
    | inr (inr (p, row)) ↦ inr (p, rw (good, row) refl)
  ]
]

-- What holds of the session and of what is committed.
abbrev pub Distinct : {R : Type 0} → World R → Type 0
Distinct w = DistinctSlugs w.db × DistinctSlugs w.committed

module _ (X : External) {R : Type 0} where
  create_product-Distinct :
      (now id actor : ℕ) (body : ProductCreate) (ctx : Ctx) (w : World R)
      → Distinct w
      → Distinct (create_product X now id actor body ctx w).1
  unfolding create_product log
  create_product-Distinct now id actor body ctx w (h, k) =
      elim (Row-cases (one_or_none (filter_by (has_slug body.slug) w.db.products))) [
        | inl (c, bad) ↦ rw bad (h, k)
        | inr (inr (p, row)) ↦ rw row (h, k)
        | inr (inl absent) ↦
            let free : count_by (has_slug body.slug) w.db.products ≡ 0 =
              sym (length-filter_by (has_slug body.slug) w.db.products) ∙ no_row _ absent in
            let kept : (slug : String)
                → count_by (has_slug slug) (w.db.products ++ (new_product now id actor body ∷ []))
                  ≤ 1 =
              λ slug. created slug (new_product now id actor body) w.db.products (h slug) free in
            rw absent (kept, kept)
      ]

  update_product-Distinct :
      (actor : ℕ) (product_id : String) (body : ProductUpdate) (ctx : Ctx) (w : World R)
      → Distinct w
      → Distinct (update_product X actor product_id body ctx w).1
  unfolding update_product log
  update_product-Distinct actor product_id body ctx w (h, k) =
      elim (get_product-cases X product_id w) [
        | inl (c, e) ↦ rw e (h, k)
        | inr (p, e) ↦ elim (Bool-cases (nulls_product body)) [
          | inl bad ↦ rw (e, bad) (h, k)
          | inr good ↦
              let kept = λ (slug : String).
                subst (λ n. n ≤ 1)
                  (sym (
                    count_by-update_where (has_slug slug) (λ v. v.id == p.id)
                      (apply_product actor body) w.db.products (λ v. refl)))
                  (h slug) in
              rw (e, good) (kept, kept)
        ]
      ]

  delete_product-Distinct :
      (now actor : ℕ) (product_id : String) (ctx : Ctx) (w : World R)
      → Distinct w
      → Distinct (delete_product X now actor product_id ctx w).1
  unfolding delete_product log
  delete_product-Distinct now actor product_id ctx w (h, k) =
      elim (get_product-cases X product_id w) [
        | inl (c, e) ↦ rw e (h, k)
        | inr (p, e) ↦
            let kept : (slug : String)
                → count_by (has_slug slug)
                    (update_where (λ v. v.id == p.id) (delete_product_row now actor) w.db.products)
                  ≤ 1 =
              λ slug. at_most (count_by-deleted slug p.id now actor w.db.products) (h slug) in
            rw e (kept, kept)
      ]

  -- One request, answered or refused.
  pub data ProductRequest : World R → World R → Type 0 where
    creates :
        (now id actor : ℕ) (body : ProductCreate) (ctx : Ctx) (w : World R)
        → ProductRequest w (request (create_product X now id actor body ctx) w).1
    updates :
        (actor : ℕ) (product_id : String) (body : ProductUpdate) (ctx : Ctx) (w : World R)
        → ProductRequest w (request (update_product X actor product_id body ctx) w).1
    deletes :
        (now actor : ℕ) (product_id : String) (ctx : Ctx) (w : World R)
        → ProductRequest w (request (delete_product X now actor product_id ctx) w).1

  pub data ProductRequests : World R → World R → Type 0 where
    done : (w : World R) → ProductRequests w w
    also : (u v w : World R) → ProductRequest u v → ProductRequests v w → ProductRequests u w

  one_request : (u v : World R) → ProductRequest u v → Distinct u → Distinct v
  one_request u v (creates now id actor body ctx _) h =
      let k = (create_product-Distinct now id actor body ctx u h).1 in (k, k)
  one_request u v (updates actor product_id body ctx _) h =
      let k = (update_product-Distinct actor product_id body ctx u h).1 in (k, k)
  one_request u v (deletes now actor product_id ctx _) h =
      let k = (delete_product-Distinct now actor product_id ctx u h).1 in (k, k)

  -- Through any requests that create, update and delete products, no two live products come to have
  -- one slug, so the lookup by slug answers a product or none
  -- and never fails.
  pub slugs_never_clash :
      (u v : World R)
      → ProductRequests u v
      → Distinct u
      → (slug : String)
      → (count_by (has_slug slug) v.db.products ≤ 1)
        × ((found : Option Product) × (one_or_none (filter_by (has_slug slug) v.db.products)
              ≡ ok found))
  slugs_never_clash u v (done _) h slug =
      let few =
        subst (λ n. n ≤ 1) (sym (length-filter_by (has_slug slug) u.db.products)) (h.0 slug) in
      (h.0 slug, looked_up (filter_by (has_slug slug) u.db.products) few)
  slugs_never_clash u v (also _ m _ r rs) h slug =
      slugs_never_clash m v rs (one_request u m r h) slug
