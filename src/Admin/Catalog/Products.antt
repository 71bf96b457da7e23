-- ===== src/Admin/Catalog/Products.antt =====
-- app/api/admin/v1/products.py of Project-source/forge-server. `actor` is the operator of the request.
use navtra_license.Prelude.{
  ℕ, Bool, ◌&&◌, ◌||◌, List, [], ◌∷◌, ◌++◌, Option, none, some, String, is_none, is_some, map,
  update_where, or_raise, ◌==◌, nat_eq, string_eq, resource_not_found, resource_conflict,
  system_internal_error, Field, is_null, assign, assign_nullable,
}
use navtra_license.Models.{Product}
use navtra_license.World.{
  M, Db, ◌>>=◌, ◌>>◌, pure, lift, raise_when, query, modify, commit, select_one,
}
use navtra_license.Audit.{Ctx, Event, log}
use navtra_license.Services.External.{External}
use navtra_license.Services.Repository.{list_page}

-- schemas/catalog.py, after validation
pub record ProductCreate : Type 0 where
  pub slug : String
  pub name : String
  pub description : Option String
  pub features_template : List String
  pub quotas_template : String
  pub default_alg : String

pub record ProductUpdate : Type 0 where
  pub name : Field String
  pub description : Field String
  pub features_template : Field (List String)
  pub quotas_template : Field String
  pub is_active : Field Bool

pub record ProductOut : Type 0 where
  pub id : String
  pub slug : String
  pub name : String
  pub description : Option String
  pub features_template : List String
  pub quotas_template : String
  pub default_alg : String
  pub is_active : Bool

abbrev pub live_product : Product → Bool
live_product p = is_none p.deleted_at

abbrev pub has_product_id : ℕ → Product → Bool
has_product_id id p = p.id == id && is_none p.deleted_at

-- `get_by_slug`
abbrev pub has_slug : String → Product → Bool
has_slug slug p = p.slug == slug && is_none p.deleted_at

abbrev product_event : String → ℕ → String → Event
product_event action actor slug = record {
  action = action;
  result = "success";
  actor_id = some actor;
  resource_type = some "product";
  resource_id = some slug;
  reason = none;
  metadata = [];
}

abbrev pub new_product : ℕ → ℕ → ℕ → ProductCreate → Product
new_product now id actor body = record {
  id = id;
  slug = body.slug;
  name = body.name;
  description = body.description;
  features_template = body.features_template;
  quotas_template = body.quotas_template;
  default_alg = body.default_alg;
  is_active = Bool.true;
  created_at = now;
  created_by = some actor;
  updated_by = none;
  deleted_at = none;
}

-- A null for a column that takes none fails the flush of the commit.
abbrev pub nulls_product : ProductUpdate → Bool
nulls_product body =
    is_null body.name
    || (is_null body.features_template || (is_null body.quotas_template || is_null body.is_active))

abbrev pub apply_product : ℕ → ProductUpdate → Product → Product
apply_product actor body p = record p {
  name = assign body.name p.name;
  description = assign_nullable body.description p.description;
  features_template = assign body.features_template p.features_template;
  quotas_template = assign body.quotas_template p.quotas_template;
  is_active = assign body.is_active p.is_active;
  updated_by = some actor;
}

abbrev pub delete_product_row : ℕ → ℕ → Product → Product
delete_product_row now actor p = record p { deleted_at = some now; updated_by = some actor }

abbrev pub update_products : ℕ → (Product → Product) → Db → Db
update_products id f db = record db { products = update_where (λ p. p.id == id) f db.products }

module _ (X : External) where
  -- `_out`
  abbrev pub product_out : Product → ProductOut
  product_out p = record {
    id = X.uuid_text p.id;
    slug = p.slug;
    name = p.name;
    description = p.description;
    features_template = p.features_template;
    quotas_template = p.quotas_template;
    default_alg = p.default_alg;
    is_active = p.is_active;
  }

module _ (X : External) {R : Type 0} where
  unfoldable pub list_products : ℕ → ℕ → M R (List ProductOut × ℕ)
  list_products page page_size = query λ db.
      let answer = list_page live_product (λ p. p.created_at) page page_size db.products in
      (map (product_out X) answer.0, answer.1)

  -- `create_product`, with the instant and the key of the row that it draws
  unfoldable pub create_product : ℕ → ℕ → ℕ → ProductCreate → Ctx → M R ProductOut
  create_product now id actor body ctx = do
    existing ← select_one (λ db. db.products) (has_slug body.slug)
    raise_when (is_some existing) resource_conflict
    modify λ db. record db { products = db.products ++ (new_product now id actor body ∷ []) }
    log (product_event "product.create" actor body.slug) ctx
    commit
    pure (product_out X (new_product now id actor body))

  -- `repo.get(uuid.UUID(product_id))`, and `RESOURCE_NOT_FOUND` where there is none
  unfoldable pub get_product : String → M R Product
  get_product product_id = do
    id ← lift (or_raise (X.parse_uuid product_id) system_internal_error)
    row ← select_one (λ db. db.products) (has_product_id id)
    lift (or_raise row resource_not_found)

  unfoldable pub update_product : ℕ → String → ProductUpdate → Ctx → M R ProductOut
  unfolding get_product
  update_product actor product_id body ctx = do
    p ← get_product product_id
    raise_when (nulls_product body) system_internal_error
    modify (update_products p.id (apply_product actor body))
    log (product_event "product.update" actor p.slug) ctx
    commit
    pure (product_out X (apply_product actor body p))

  unfoldable pub delete_product : ℕ → ℕ → String → Ctx → M R (Unit {0})
  unfolding get_product
  delete_product now actor product_id ctx = do
    p ← get_product product_id
    modify (update_products p.id (delete_product_row now actor))
    log (product_event "product.delete" actor p.slug) ctx
    commit
