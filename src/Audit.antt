-- ===== src/Audit.antt =====
-- app/services/audit_service.py of Project-source/forge-server: the append-only log with its masking.
use navtra_license.Prelude.{
  ℕ, Bool, List, [], ◌∷◌, ◌++◌, Option, String, ltb, length, take, contains, if◌then◌else◌, codes,
  lower, last, text_eq,
}
use navtra_license.Models.{AuditLog, MetaValue, text, number, flag, missing, Metadata}
use navtra_license.World.{M, modify}

-- `_SENSITIVE`
abbrev sensitive : List (List ℕ)
sensitive =
    codes "password"
    ∷ codes "token"
    ∷ codes "secret"
    ∷ codes "private_key"
    ∷ codes "validation_token"
    ∷ codes "kek"
    ∷ []

unfoldable pub is_sensitive : String → Bool
is_sensitive k = contains sensitive (lower (codes k))

-- `f"{v[:4]}****{v[-4:]}" if len(v) > 8 else "****"`
unfoldable pub mask : List ℕ → List ℕ
mask v = if ltb 8 (length v) then take 4 v ++ (codes "****" ++ last 4 v) else codes "****"

unfoldable pub mask_value : String → MetaValue → MetaValue
unfolding mask
mask_value k (text v) = if is_sensitive k then text (mask v) else text v
mask_value k (number n) = number n
mask_value k (flag b) = flag b
mask_value k missing = missing

unfoldable pub mask_metadata : Metadata → Metadata
unfolding mask_value
mask_metadata [] = []
mask_metadata ((k, v) ∷ m) = (k, mask_value k v) ∷ mask_metadata m

-- The `**ctx` of an entry: what `audit_ctx` takes from a request, with the default actor type, or
-- what the scheduler gives.
pub record Ctx : Type 0 where
  pub actor_type : String
  pub actor_name : Option String
  pub ip : Option String
  pub user_agent : Option String
  pub request_id : Option String

-- An entry as the services fill it in.
pub record Event : Type 0 where
  pub action : String
  pub result : String
  pub actor_id : Option ℕ
  pub resource_type : Option String
  pub resource_id : Option String
  pub reason : Option String
  pub metadata : Metadata

unfoldable pub entry : Event → Ctx → AuditLog
entry e ctx = record {
  action = e.action;
  result = e.result;
  actor_type = ctx.actor_type;
  actor_id = e.actor_id;
  actor_name = ctx.actor_name;
  resource_type = e.resource_type;
  resource_id = e.resource_id;
  reason = e.reason;
  ip = ctx.ip;
  user_agent = ctx.user_agent;
  request_id = ctx.request_id;
  metadata = mask_metadata e.metadata;
}

-- `AuditService.log`
unfoldable pub log : {R : Type 0} → Event → Ctx → M R (Unit {0})
log e ctx = modify λ db. record db { audit_log = db.audit_log ++ (entry e ctx ∷ []) }
