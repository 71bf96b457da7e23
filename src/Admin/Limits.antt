-- ===== src/Admin/Limits.antt =====
-- app/services/ratelimit.py of Project-source/forge-server, on counters and flags in Redis. Instants are
-- whole seconds.
pub mod Laws
pub mod Windows
use Prim.Native.String
use Prim.Native.String.{◌++◌ as ◌<>◌}
use navtra_license.Prelude.{
  ℕ, ◌/◌, Bool, Option, some, none, String, Result, ok, err, Code, ltb, leb, ◌==◌, nat_eq,
  lower_text, decimal, auth_account_locked, if◌then◌else◌,
}

-- INCR, EXPIRE and DEL on counters; SET with EX, GET and DEL on the flags of locked accounts, whose
-- keys start differently.
pub record Counters (R : Type 0) : Type 0 where
  pub incr : R → ℕ → String → ℕ × R
  pub expire : R → ℕ → String → ℕ → R
  pub delete_counter : R → String → R
  pub set_flag : R → ℕ → String → ℕ → R
  pub flag_set : R → ℕ → String → Bool
  pub delete_flag : R → String → R

pub record LoginSettings : Type 0 where
  pub login_max_per_ip_per_min : ℕ
  pub login_lock_threshold : ℕ
  pub login_lock_seconds : ℕ

abbrev pub window_key : String → ℕ → String
window_key key number = "rl:" <> (key <> (":" <> decimal number))

abbrev pub bucket : String → ℕ → ℕ → String
bucket key window now = window_key key (now / window)

abbrev pub fail_key : String → String
fail_key email = "login_fail:" <> lower_text email

abbrev pub locked_key : String → String
locked_key email = "login_locked:" <> lower_text email

module _ {R : Type 0} (K : Counters R) where
  -- INCR, with EXPIRE after the first.
  unfoldable pub count_up : String → ℕ → ℕ → R → ℕ × R
  count_up key seconds now r =
      let counted = K.incr r now key in
      if counted.0 == 1 then (counted.0, K.expire counted.1 now key seconds) else counted

  -- `hit`
  unfoldable pub hit : String → ℕ → ℕ → Code → ℕ → R → Result (Unit {0}) × R
  unfolding count_up
  hit key limit window code now r =
      let counted = count_up (bucket key window now) window now r in
      (if ltb limit counted.0 then err code else ok tt, counted.1)

  unfoldable pub record_login_failure : LoginSettings → String → ℕ → R → R
  unfolding count_up
  record_login_failure S email now r =
      let counted = count_up (fail_key email) S.login_lock_seconds now r in
      if leb S.login_lock_threshold counted.0
      then K.set_flag counted.1 now (locked_key email) S.login_lock_seconds
      else counted.1

  unfoldable pub assert_not_locked : String → ℕ → R → Result (Unit {0})
  assert_not_locked email now r =
      if K.flag_set r now (locked_key email) then err auth_account_locked else ok tt

  unfoldable pub clear_login_failures : String → R → R
  clear_login_failures email r =
      K.delete_flag (K.delete_counter r (fail_key email)) (locked_key email)
