-- ===== src/Admin/Catalog/Customers.antt =====
-- app/api/admin/v1/customers.py of Project-source/forge-server. `actor` is the operator of the request.
use navtra_license.Prelude.{
  ℕ, Bool, ◌&&◌, List, [], ◌∷◌, ◌++◌, Option, none, some, String, is_none, map, update_where,
  or_raise, ◌==◌, nat_eq, string_eq, resource_not_found, system_internal_error, Field, is_null,
  assign, assign_nullable,
}
use navtra_license.Models.{Customer}
use navtra_license.World.{
  M, Db, ◌>>=◌, ◌>>◌, pure, lift, raise_when, query, modify, commit, select_one,
}
use navtra_license.Audit.{Ctx, Event, log}
use navtra_license.Services.External.{External}
use navtra_license.Services.Repository.{list_page}

-- schemas/catalog.py, after validation
pub record CustomerCreate : Type 0 where
  pub name : String
  pub contact_name : Option String
  pub contact_email : Option String
  pub notes : Option String

pub record CustomerUpdate : Type 0 where
  pub name : Field String
  pub contact_name : Field String
  pub contact_email : Field String
  pub notes : Field String

pub record CustomerOut : Type 0 where
  pub id : String
  pub name : String
  pub contact_name : Option String
  pub contact_email : Option String
  pub notes : Option String

abbrev pub live_customer : Customer → Bool
live_customer c = is_none c.deleted_at

abbrev pub has_customer_id : ℕ → Customer → Bool
has_customer_id id c = c.id == id && is_none c.deleted_at

abbrev customer_event : String → ℕ → String → Event
customer_event action actor name = record {
  action = action;
  result = "success";
  actor_id = some actor;
  resource_type = some "customer";
  resource_id = some name;
  reason = none;
  metadata = [];
}

abbrev pub new_customer : ℕ → ℕ → ℕ → CustomerCreate → Customer
new_customer now id actor body = record {
  id = id;
  name = body.name;
  contact_name = body.contact_name;
  contact_email = body.contact_email;
  notes = body.notes;
  created_at = now;
  created_by = some actor;
  updated_by = none;
  deleted_at = none;
}

abbrev pub apply_customer : ℕ → CustomerUpdate → Customer → Customer
apply_customer actor body c = record c {
  name = assign body.name c.name;
  contact_name = assign_nullable body.contact_name c.contact_name;
  contact_email = assign_nullable body.contact_email c.contact_email;
  notes = assign_nullable body.notes c.notes;
  updated_by = some actor;
}

abbrev pub delete_customer_row : ℕ → ℕ → Customer → Customer
delete_customer_row now actor c = record c { deleted_at = some now; updated_by = some actor }

abbrev pub update_customers : ℕ → (Customer → Customer) → Db → Db
update_customers id f db = record db { customers = update_where (λ c. c.id == id) f db.customers }

module _ (X : External) where
  -- `_out`
  abbrev pub customer_out : Customer → CustomerOut
  customer_out c = record {
    id = X.uuid_text c.id;
    name = c.name;
    contact_name = c.contact_name;
    contact_email = c.contact_email;
    notes = c.notes;
  }

module _ (X : External) {R : Type 0} where
  unfoldable pub list_customers : ℕ → ℕ → M R (List CustomerOut × ℕ)
  list_customers page page_size = query λ db.
      let answer = list_page live_customer (λ c. c.created_at) page page_size db.customers in
      (map (customer_out X) answer.0, answer.1)

  -- `create_customer`, with the instant and the key of the row that it draws
  unfoldable pub create_customer : ℕ → ℕ → ℕ → CustomerCreate → Ctx → M R CustomerOut
  create_customer now id actor body ctx = do
    modify λ db. record db { customers = db.customers ++ (new_customer now id actor body ∷ []) }
    log (customer_event "customer.create" actor body.name) ctx
    commit
    pure (customer_out X (new_customer now id actor body))

  -- `repo.get(uuid.UUID(customer_id))`, and `RESOURCE_NOT_FOUND` where there is none
  unfoldable pub get_customer : String → M R Customer
  get_customer customer_id = do
    id ← lift (or_raise (X.parse_uuid customer_id) system_internal_error)
    row ← select_one (λ db. db.customers) (has_customer_id id)
    lift (or_raise row resource_not_found)

  unfoldable pub update_customer : ℕ → String → CustomerUpdate → Ctx → M R CustomerOut
  unfolding get_customer
  update_customer actor customer_id body ctx = do
    c ← get_customer customer_id
    -- The column `name` takes no null: the flush of the commit fails.
    raise_when (is_null body.name) system_internal_error
    modify (update_customers c.id (apply_customer actor body))
    log (customer_event "customer.update" actor (apply_customer actor body c).name) ctx
    commit
    pure (customer_out X (apply_customer actor body c))

  unfoldable pub delete_customer : ℕ → ℕ → String → Ctx → M R (Unit {0})
  unfolding get_customer
  delete_customer now actor customer_id ctx = do
    c ← get_customer customer_id
    modify (update_customers c.id (delete_customer_row now actor))
    log (customer_event "customer.delete" actor c.name) ctx
    commit
