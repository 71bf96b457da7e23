-- ===== src/Tests/Catalog.antt =====
-- Lists, products, operators and adapters.
use navtra_license.Prelude.{
  ◌↔◌, Bool, false, ℕ, ◌≤◌, ◌≡◌, refl, true, false, List, [], ◌∷◌, Option, none, some, String,
  count_by, filter_by, string_eq, nat_eq, arith, unset, value, take, ◌*◌, ok,
}
use navtra_license.Models.{Product}
use navtra_license.World.{World, request, one_or_none}
use navtra_license.Services.Passwords.{Argon, Verification}
use navtra_license.Services.Repository.{list_page, newest_first}
use navtra_license.Services.Repository.Laws.{pages, pages-list_rows}
use navtra_license.Services.Users.{UserUpdate, active_super_admins, update_user, delete_user}
use navtra_license.Services.Users.Requests.{Request, Requests, operators_keep_admin}
use navtra_license.Admin.Catalog.Products.{ProductCreate, live_product, has_slug, create_product}
use navtra_license.Admin.Catalog.Laws.{ProductRequest, ProductRequests, slugs_never_clash}
use navtra_license.Adapters.Email.{EmailAdapter, smtp, sendgrid, new_failover, is_open}
use navtra_license.Adapters.Email.Breaker.{Burst, open_exactly}
use navtra_license.Adapters.Email.Laws.{send_all}
use navtra_license.Adapters.Storage.{S3Object, ListReply, list_objects}
use navtra_license.Adapters.Storage.Laws.{all_pages, list_objects-all}
use navtra_license.Tests.{external0, world0, ctx0, product0}
use navtra_license.Tests.Admin.{world2, some_admin}

abbrev products0 : List Product
products0 =
    product0
    ∷ record product0 { id = 2; created_at = 5 }
    ∷ record product0 { deleted_at = some 1 }
    ∷ []

pages_example :
    (pages live_product (λ p. p.created_at) 2 1 products0
      ≡ take (2 * 1) (newest_first (λ p. p.created_at) (filter_by live_product products0)))
    × ((list_page live_product (λ p. p.created_at) 1 1 products0).1 ≤ 2 * 1
        → pages live_product (λ p. p.created_at) 2 1 products0
          ≡ newest_first (λ p. p.created_at) (filter_by live_product products0))
pages_example = pages-list_rows live_product (λ p. p.created_at) 2 1 products0 (omega arith)

abbrev body0 : ProductCreate
body0 = record {
  slug = "q";
  name = "Q";
  description = none;
  features_template = [];
  quotas_template = "{}";
  default_alg = "ed25519";
}

abbrev created0 : World ℕ
created0 = (request (create_product external0 7 9 2 body0 ctx0) world0).1

distinct0 : (slug : String) → count_by (has_slug slug) (product0 ∷ []) ≤ 1
unfolding count_by
distinct0 slug = ground arith

slugs_example :
    (count_by (has_slug "q") created0.db.products ≤ 1)
    × ((found : Option Product) × (one_or_none (filter_by (has_slug "q") created0.db.products)
          ≡ ok found))
slugs_example =
    slugs_never_clash external0 world0 created0
      (ProductRequests.also world0 created0 created0
        (ProductRequest.creates 7 9 2 body0 ctx0 world0) (ProductRequests.done created0))
      (distinct0, distinct0) "q"

abbrev argon1 : Argon
argon1 = record {
  hash = λ salt p. p;
  verify = λ stored p. Verification.matches;
  check_needs_rehash = λ h. some false;
}

abbrev demotion0 : UserUpdate
demotion0 = record { username = unset; role = value "auditor"; is_active = unset }

abbrev world5 : World ℕ
world5 = record world2 { committed = world2.db }

abbrev demoted0 : World ℕ
demoted0 = (request (update_user external0 (λ r id. r) 4 "a" demotion0 ctx0) world5).1

abbrev refused0 : World ℕ
refused0 = (request (delete_user external0 (λ r id. r) 100 2 "b" ctx0) demoted0).1

operators_example : 1 ≤ active_super_admins refused0.db
operators_example =
    operators_keep_admin external0 argon1 (λ r id. r) world5 refused0
      (Requests.then world5 demoted0 refused0 (Request.updates 4 "a" demotion0 ctx0 world5) (
        Requests.then demoted0 refused0 refused0 (Request.deletes 100 2 "b" ctx0 demoted0)
          (Requests.done refused0)))
      (some_admin, refl)

-- A message that the primary refuses, and one that every adapter takes.
abbrev refused1 : EmailAdapter → Bool
refused1 smtp = false
refused1 _ = true

abbrev taken1 : EmailAdapter → Bool
taken1 _ = true

breaker_example :
    (is_open (send_all (taken1 ∷ refused1 ∷ refused1 ∷ taken1 ∷ []) (new_failover smtp sendgrid 2))
      ≡ true)
    ↔ Burst 2 smtp (taken1 ∷ refused1 ∷ refused1 ∷ taken1 ∷ [])
breaker_example = open_exactly smtp sendgrid 2 (taken1 ∷ refused1 ∷ refused1 ∷ taken1 ∷ [])

abbrev object0 : String → S3Object
object0 key = record { key = key; size = some 1; etag = none; last_modified = none }

-- A bucket in two pages.
abbrev bucket0 : String → String → Option String → ListReply
bucket0 bucket prefix none = record {
  contents = object0 "a" ∷ [];
  is_truncated = true;
  next_token = some "t";
}
bucket0 bucket prefix (some token) = record {
  contents = object0 "b" ∷ [];
  is_truncated = false;
  next_token = none;
}

listing_example :
    list_objects bucket0 2 "b" "" ≡ some (all_pages ((object0 "a" ∷ []) ∷ (object0 "b" ∷ []) ∷ []))
unfolding string_eq
listing_example =
    list_objects-all bucket0 2 "b" "" ((object0 "a" ∷ []) ∷ (object0 "b" ∷ []) ∷ []) (omega arith)
      (refl, (refl, (refl, refl)))
