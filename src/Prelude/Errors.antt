-- ===== src/Prelude/Errors.antt =====
-- `BizError(code)` of app/core/errors.py in Project-source/forge-server: codes of its dictionary, and
-- results that may carry one.
use mathlib.Core.Option.{Option, none, some}

-- `system_internal_error` is what the last handler answers for any other exception.
pub data Code : Type 0 where
  resource_not_found resource_conflict validation_failed : Code
  license_revoked license_expired license_seat_exceeded license_seat_lock_busy : Code
  license_binding_mismatch license_lease_expired : Code
  issue_product_inactive issue_deployment_id_invalid issue_invalid_term key_not_found : Code
  auth_required auth_invalid_credentials auth_account_disabled auth_account_locked : Code
  auth_2fa_required auth_2fa_invalid auth_password_weak : Code
  auth_password_reset_token_invalid perm_denied : Code
  user_self_lockout user_last_super_admin : Code
  rate_limit_exceeded rate_limit_login_blocked system_internal_error : Code

-- What a call gives: its value, or the code of the error that leaves it.
pub data Result {κ} (V : Type κ) : Type κ where
  ok : V → Result V
  err : Code → Result V

abbrev pub or_raise {ℓ} : {A : Type ℓ} → Option A → Code → Result A
or_raise none e = err e
or_raise (some a) e = ok a
