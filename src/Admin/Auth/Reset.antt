-- ===== src/Admin/Auth/Reset.antt =====
-- A reset token is good for one password, and a locked account for none.
use navtra_license.Prelude.{
  ℕ, ◌+◌, ◌≤◌, ◌<◌, ◌≡◌, refl, List, ◌∷◌, Option, none, some, String, Result, ok, err, arith, inl,
  inr, Option-cases, All, length, filter_by, sym, ap, ◌∙◌, nat_eq, auth_account_locked,
  auth_password_reset_token_invalid,
}
use navtra_license.Models.{User}
use navtra_license.World.{World, Db, one_or_none}
use navtra_license.World.Triples.{Row-cases}
use navtra_license.Services.Passwords.{hash_password, validate_password_policy}
use navtra_license.Services.Users.{has_user_id}
use navtra_license.Services.Users.Laws.{found-id}
use navtra_license.Admin.Limits.{fail_key, record_login_failure}
use navtra_license.Admin.Limits.Laws.{CounterLaws, failures, failures-locked}
use navtra_license.Admin.Access.{non_empty}
use navtra_license.Admin.Auth.{
  AuthDeps, ResetTokens, authenticate, confirm_password_reset, reset_key, update_row, with_hash,
}

-- What the reset relies on of Redis.
pub record TokenLaws {R : Type 0} (K : ResetTokens R) : Type 0 where
  pub get-delete : (r : R) (now : ℕ) (key : String) → K.get (K.delete r key) now key ≡ none

module _ {R : Type 0} (A : AuthDeps R) where
  -- What a reset did: the password of the user whose id the token stood for is replaced by one that
  -- the policy takes, and the token is deleted.
  abbrev pub Replaced : String → String → String → ℕ → World R → User → World R → Type 0
  Replaced salt token new_password now w u w' =
      (user_id : String) × (old : User) × (non_empty (A.tokens.get w.cache now (reset_key A token))
        ≡ some user_id)
      × (A.external.parse_uuid user_id ≡ some old.id)
      × (validate_password_policy A.settings.policy new_password old.email old.username ≡ ok tt)
      × (u ≡ with_hash A (hash_password A.argon salt new_password) old)
      × (w'.db ≡ update_row A old.id (with_hash A (hash_password A.argon salt new_password)) w.db)
      × (w'.cache ≡ A.tokens.delete w.cache (reset_key A token))

  confirm_password_reset-Replaced :
      (salt token new_password : String) (now : ℕ) (w w' : World R) (u : User)
      → confirm_password_reset A salt token new_password now w ≡ (ok u, w')
      → Replaced salt token new_password now w u w'
  unfolding confirm_password_reset
  confirm_password_reset-Replaced salt token new_password now w w' u e =
      elim (Option-cases (non_empty (A.tokens.get w.cache now (reset_key A token)))) [
        | inl gone ↦ absurd (ground (arith, rw gone at e))
        | inr (user_id, found) ↦ elim (Option-cases (A.external.parse_uuid user_id)) [
          | inl bad ↦ absurd (ground (arith, rw (found, bad) at e))
          | inr (id, good) ↦
              elim (Row-cases (one_or_none (filter_by (has_user_id id) w.db.users))) [
                | inl (c, many) ↦ absurd (ground (arith, rw (found, good, many) at e))
                | inr (inl absent) ↦ absurd (ground (arith, rw (found, good, absent) at e))
                | inr (inr (old, row)) ↦
                    policy user_id id old found good row
                      (validate_password_policy A.settings.policy new_password old.email
                        old.username)
                      refl
              ]
        ]
      ]
    where
      policy :
          (user_id : String) (id : ℕ) (old : User)
          → non_empty (A.tokens.get w.cache now (reset_key A token)) ≡ some user_id
          → A.external.parse_uuid user_id ≡ some id
          → one_or_none (filter_by (has_user_id id) w.db.users) ≡ ok (some old)
          → (r : Result (Unit {0}))
          → validate_password_policy A.settings.policy new_password old.email old.username ≡ r
          → Replaced salt token new_password now w u w'
      policy user_id id old found good row (err c) p =
          absurd (ground (arith, rw (found, good, row, p) at e))
      policy user_id id old found good row (ok t) p =
          let done = rw (found, good, row, p) at e in
          (
            user_id,
            old,
            found,
            good ∙ ap some (sym (found-id id old w.db.users row)),
            p,
            ground (arith, done),
            sym (ap (λ x. x.1.db) done),
            sym (ap (λ x. x.1.cache) done),
          )

  -- A token resets one password: where a reset succeeds, the new password is one that the policy
  -- takes, and the same token is refused from then on, whatever password comes with it.
  pub confirm_password_reset_once :
      (L : TokenLaws A.tokens) (salt token new_password : String) (now : ℕ) (w w' : World R)
      (u : User) (salt' other : String) (later : ℕ)
      → confirm_password_reset A salt token new_password now w ≡ (ok u, w')
      → Replaced salt token new_password now w u w'
        × (confirm_password_reset A salt' token other later w'
            ≡ (err auth_password_reset_token_invalid, w'))
  unfolding confirm_password_reset
  confirm_password_reset_once L salt token new_password now w w' u salt' other later e =
      let replaced = confirm_password_reset-Replaced salt token new_password now w w' u e in
      let (user_id, old, found, good, policy, is, db, cache) = replaced in
      (replaced, rw (cache, L.get-delete w.cache later (reset_key A token)) refl)

  -- A login with an email that failed as often as the threshold says, all within the lock time of the
  -- first failure and with no failure counted before it, is refused for the lock time after the last,
  -- with whatever password.
  pub locked_out :
      (L : CounterLaws A.counters) (email password : String) (code : Option String) (first : ℕ)
      (ts : List ℕ) (last now : ℕ) (r : R) (db committed : Db)
      → L.entry r (fail_key email) ≡ none
      → All (λ t. t < first + A.settings.login.login_lock_seconds) ts
      → last < first + A.settings.login.login_lock_seconds
      → A.settings.login.login_lock_threshold ≤ length ts + 2
      → now < last + A.settings.login.login_lock_seconds
      → (authenticate A email password code now (record {
        db = db;
        committed = committed;
        cache =
            record_login_failure A.counters A.settings.login email last
              (failures A.counters L A.settings.login email (first ∷ ts) r);
      })).0
        ≡ err auth_account_locked
  unfolding authenticate
  locked_out L email password code first ts last now r db committed clean within last_within enough
        soon =
      rw
        (failures-locked A.counters L A.settings.login email first ts last now r clean within
          last_within enough soon)
        refl
