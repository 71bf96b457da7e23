-- ===== src/Admin/Limits/Laws.antt =====
-- A window lets at most its limit through, and failures lock an account.
use navtra_license.Prelude.{
  ℕ, suc, ◌+◌, ◌≤◌, ◌<◌, ◌≡◌, refl, Bool, true, false, List, [], ◌∷◌, Option, none, some, String,
  err, ltb, leb, ◌==◌, nat_eq, string_eq, arith, if◌then◌else◌, inl, inr, Bool-cases, subst, sym,
  ap, All, lt→ltb, length, ◌∙◌, auth_account_locked,
}
use navtra_license.Admin.Limits.{
  Counters, LoginSettings, fail_key, locked_key, count_up, record_login_failure, assert_not_locked,
}

-- A counter: its value, and the instant at which it expires.
abbrev pub Entry : Type 0
Entry = Option (ℕ × Option ℕ)

abbrev pub expired : Option ℕ → ℕ → Bool
expired none now = false
expired (some end) now = leb end now

-- What a command at an instant sees.
abbrev pub seen : Entry → ℕ → ℕ
seen none now = 0
seen (some (n, end)) now = if expired end now then 0 else n

abbrev pub kept_end : Entry → ℕ → Option ℕ
kept_end none now = none
kept_end (some (n, end)) now = if expired end now then none else end

-- EXPIRE does nothing to a key that is not there.
abbrev pub given_end : Entry → ℕ → ℕ → Entry
given_end none now ex = none
given_end (some (n, end)) now ex = if expired end now then none else some (n, some (now + ex))

-- What the limiter relies on of Redis, for the key that a command names: INCR of a key that is not
-- there or has expired counts from zero, and keeps the expiry of one that is there; EXPIRE sets it.
-- A flag stands for as long as SET said.
pub record CounterLaws {R : Type 0} (K : Counters R) : Type 0 where
  pub entry : R → String → Entry
  pub flag_end : R → String → Option ℕ
  pub incr-value : (r : R) (now : ℕ) (k : String) → (K.incr r now k).0 ≡ suc (seen (entry r k) now)
  pub incr-entry :
      (r : R) (now : ℕ) (k : String)
      → entry (K.incr r now k).1 k ≡ some (suc (seen (entry r k) now), kept_end (entry r k) now)
  pub expire-entry :
      (r : R) (now : ℕ) (k : String) (ex : ℕ)
      → entry (K.expire r now k ex) k ≡ given_end (entry r k) now ex
  pub set_flag-entry :
      (r : R) (now : ℕ) (k : String) (ex : ℕ) (k' : String)
      → entry (K.set_flag r now k ex) k' ≡ entry r k'
  pub set_flag-end :
      (r : R) (now : ℕ) (k : String) (ex : ℕ) → flag_end (K.set_flag r now k ex) k ≡ some (now + ex)
  pub flag_set-end :
      (r : R) (now : ℕ) (k : String) (end : ℕ)
      → flag_end r k ≡ some end
      → K.flag_set r now k ≡ ltb now end

kept_end-expired : (e : Entry) (now : ℕ) → expired (kept_end e now) now ≡ false
kept_end-expired none now = refl
kept_end-expired (some (n, end)) now = elim (Bool-cases (expired end now)) [
  | inl over ↦ rw over refl
  | inr on ↦ rw (on, on) refl
]

module _ {R : Type 0} (K : Counters R) (L : CounterLaws K) where
  -- A counter that was started at an instant, with a time to live.
  abbrev Started : ℕ → ℕ → Entry → Type 0
  Started n seconds e = (start : ℕ) × (e ≡ some (n, some (start + seconds)))

  pub count_up-first :
      (k : String) (seconds now : ℕ) (r : R)
      → seen (L.entry r k) now ≡ 0
      → ((count_up K k seconds now r).0 ≡ 1)
        × (L.entry (count_up K k seconds now r).1 k ≡ some (1, some (now + seconds)))
  unfolding count_up nat_eq
  count_up-first k seconds now r zero_ =
      let one : (K.incr r now k).0 ≡ 1 = L.incr-value r now k ∙ ap suc zero_ in
      rw
        (
          one,
          L.expire-entry (K.incr r now k).1 now k seconds,
          L.incr-entry r now k,
          kept_end-expired (L.entry r k) now,
          zero_,
        )
        (refl, refl)

  pub count_up-next :
      (k : String) (seconds now : ℕ) (r : R) (n end : ℕ)
      → L.entry r k ≡ some (suc n, some end)
      → now < end
      → ((count_up K k seconds now r).0 ≡ suc (suc n))
        × (L.entry (count_up K k seconds now r).1 k ≡ some (suc (suc n), some end))
  unfolding count_up
  count_up-next k seconds now r n end there before =
      let sees : seen (L.entry r k) now ≡ suc n = rw there (ground (arith, before)) in
      let more : (K.incr r now k).0 ≡ suc (suc n) = L.incr-value r now k ∙ ap suc sees in
      let keeps : kept_end (L.entry r k) now ≡ some end = rw there (ground (arith, before)) in
      let again : (suc (suc n) == 1) ≡ false = ground arith in
      rw (more, again, L.incr-entry r now k, sees, keeps) (refl, refl)

  -- The failures of one email, one after the other.
  abbrev pub failures : LoginSettings → String → List ℕ → R → R
  failures S email [] r = r
  failures S email (t ∷ ts) r = failures S email ts (record_login_failure K S email t r)

  failure-next :
      (S : LoginSettings) (email : String) (now : ℕ) (r : R) (n end : ℕ)
      → L.entry r (fail_key email) ≡ some (suc n, some end)
      → now < end
      → L.entry (record_login_failure K S email now r) (fail_key email)
        ≡ some (suc (suc n), some end)
  unfolding record_login_failure
  failure-next S email now r n end there before =
      let (value_, after) =
        count_up-next (fail_key email) S.login_lock_seconds now r n end there before in
      elim (Bool-cases
        (leb S.login_lock_threshold (count_up K (fail_key email) S.login_lock_seconds now r).0)) [
          | inl full ↦
              rw
                (
                  full,
                  L.set_flag-entry _ now (locked_key email) S.login_lock_seconds (fail_key email),
                )
                after
          | inr free ↦ rw free after
        ]

  failures-entry :
      (S : LoginSettings) (email : String) (ts : List ℕ) (r : R) (n end : ℕ)
      → L.entry r (fail_key email) ≡ some (suc n, some end)
      → All (λ t. t < end) ts
      → L.entry (failures S email ts r) (fail_key email) ≡ some (suc (length ts + n), some end)
  failures-entry S email [] r n end there before =
      there ∙ ap (λ m. some (suc m, some end)) (omega arith)
  failures-entry S email (t ∷ ts) r n end there (b, bs) =
      failures-entry S email ts (record_login_failure K S email t r) (suc n) end
        (failure-next S email t r n end there b) bs
      ∙ ap (λ m. some (suc m, some end)) (omega arith)

  failure-first :
      (S : LoginSettings) (email : String) (now : ℕ) (r : R)
      → L.entry r (fail_key email) ≡ none
      → L.entry (record_login_failure K S email now r) (fail_key email)
        ≡ some (1, some (now + S.login_lock_seconds))
  unfolding record_login_failure
  failure-first S email now r clean =
      let (value_, after) =
        count_up-first (fail_key email) S.login_lock_seconds now r (rw clean refl) in
      elim (Bool-cases
        (leb S.login_lock_threshold (count_up K (fail_key email) S.login_lock_seconds now r).0)) [
          | inl full ↦
              rw
                (
                  full,
                  L.set_flag-entry _ now (locked_key email) S.login_lock_seconds (fail_key email),
                )
                after
          | inr free ↦ rw free after
        ]

  last-locks :
      (S : LoginSettings) (email : String) (last now : ℕ) (r : R)
      → leb S.login_lock_threshold (count_up K (fail_key email) S.login_lock_seconds last r).0
        ≡ true
      → now < last + S.login_lock_seconds
      → assert_not_locked K email now (record_login_failure K S email last r)
        ≡ err auth_account_locked
  unfolding record_login_failure assert_not_locked
  last-locks S email last now r full soon =
      let counted = (count_up K (fail_key email) S.login_lock_seconds last r).1 in
      let ends = L.set_flag-end counted last (locked_key email) S.login_lock_seconds in
      rw
        (
          full,
          L.flag_set-end (K.set_flag counted last (locked_key email) S.login_lock_seconds) now
              (locked_key email) (last + S.login_lock_seconds) ends,
          lt→ltb now (last + S.login_lock_seconds) soon,
        )
        refl

  -- An email without counted failures that fails as often as the threshold says, all within the lock
  -- time of the first failure, is locked: until the lock time has passed since the last failure, every
  -- login is refused.
  pub failures-locked :
      (S : LoginSettings) (email : String) (first : ℕ) (ts : List ℕ) (last now : ℕ) (r : R)
      → L.entry r (fail_key email) ≡ none
      → All (λ t. t < first + S.login_lock_seconds) ts
      → last < first + S.login_lock_seconds
      → S.login_lock_threshold ≤ length ts + 2
      → now < last + S.login_lock_seconds
      → assert_not_locked K email now
          (record_login_failure K S email last (failures S email (first ∷ ts) r))
        ≡ err auth_account_locked
  failures-locked S email first ts last now r clean within last_within enough soon =
      let there =
        failures-entry S email ts (record_login_failure K S email first r) 0
          (first + S.login_lock_seconds) (failure-first S email first r clean) within in
      let (value_, after) =
        count_up-next (fail_key email) S.login_lock_seconds last (failures S email (first ∷ ts) r)
          (length ts + 0) (first + S.login_lock_seconds) there last_within in
      let full : leb S.login_lock_threshold (suc (suc (length ts + 0))) ≡ true =
        ground (arith, enough) in
      last-locks S email last now (failures S email (first ∷ ts) r)
        (subst (λ m. leb S.login_lock_threshold m ≡ true) (sym value_) full) soon
