-- ===== src/Admin/Sessions/Runs.antt =====
-- Runs of the session service: logins, requests with a cookie, logouts and global logouts, one after
-- the other at any instants.
use mathlib.Core.Option.{some-injective}
use navtra_license.Prelude.{
  ℕ, ◌+◌, ◌<◌, ◌≡◌, ◌≢◌, Bool, true, false, none, some, String, leb, ◌==◌, nat_eq, arith, ap, ◌∙◌,
  inl, inr, Bool-cases, Option-cases, subst,
}
use navtra_license.Admin.Sessions.{
  Session, SessionStore, SessionSettings, NewSession, create, destroy, renew, get,
  destroy_all_for_user,
}
use navtra_license.Admin.Sessions.Laws.{
  SessionLaws, Lives, Sound, create-inv, destroy-inv, get-inv, destroy_all-inv, create-Sound,
  get-Sound, destroy-Sound, destroy_all-Sound,
}

module _ (S : SessionSettings) {R : Type 0} (T : SessionStore R) where
  -- `may` says which users log in.
  pub data SessionOp (may : ℕ → Bool) : R → R → Type 0 where
    logs_in :
        (sid : String) (now : ℕ) (n : NewSession) (r : R)
        → may n.user_id ≡ true
        → SessionOp may r (create S T sid now n r)
    asks : (sid : String) (now : ℕ) (r : R) → SessionOp may r (get S T sid now r).1
    logs_out : (sid : String) (now : ℕ) (r : R) → SessionOp may r (destroy S T sid now r)
    ends_all : (u : ℕ) (r : R) → SessionOp may r (destroy_all_for_user S T r u)

  pub data SessionRun (may : ℕ → Bool) : R → R → Type 0 where
    done : (r : R) → SessionRun may r r
    then : (r v w : R) → SessionOp may r v → SessionRun may v w → SessionRun may r w

  -- No session at all.
  abbrev pub Empty : R → Type 0
  Empty r = (t : ℕ) (sid : String) → T.get r t sid ≡ none

  -- What a request with a cookie is given: the session of the store, active now, within its bounds.
  abbrev pub Bounded : R → String → ℕ → Session → Type 0
  Bounded r sid t s =
      (old : Session) × (T.get r t sid ≡ some old)
      × (s ≡ record old { last_activity_at = t })
      × (t < old.created_at + S.absolute_ttl_seconds)
      × (t < old.last_activity_at + S.idle_ttl_seconds)

differs : (may : ℕ → Bool) (x u : ℕ) → may x ≡ true → may u ≡ false → (x == u) ≡ false
differs may x u yes_ no_ = elim (Bool-cases (x == u)) [
  | inl same ↦ let is : x ≡ u = ground arith in absurd (ground (arith, rw is at yes_, no_))
  | inr other ↦ other
]

module _ (S : SessionSettings) {R : Type 0} (T : SessionStore R) (L : SessionLaws T) where
  op-Sound : (may : ℕ → Bool) (r v : R) → SessionOp S T may r v → Sound S T L r → Sound S T L v
  op-Sound may r v (logs_in sid now n _ ok_) h = create-Sound S T L sid now n r h
  op-Sound may r v (asks sid now _) h = get-Sound S T L sid now r h
  op-Sound may r v (logs_out sid now _) h = destroy-Sound S T L sid now r h
  op-Sound may r v (ends_all u _) h = destroy_all-Sound S T L r u h

  run-Sound : (may : ℕ → Bool) (r v : R) → SessionRun S T may r v → Sound S T L r → Sound S T L v
  run-Sound may r v (done _) h = h
  run-Sound may r v (then _ m _ op ops) h = run-Sound may m v ops (op-Sound may r m op h)

  Empty-Sound : (r : R) → Empty S T r → Sound S T L r
  Empty-Sound r none_ t sid s e = absurd (ground (arith, none_ t sid, e))

  -- After any run from a store without sessions, a request whose cookie gets a session comes before
  -- the absolute end, counted from the login, and within the idle time since the last request; the
  -- session is the stored one, active now.
  pub get-Bounded :
      (may : ℕ → Bool) (r v : R) (sid : String) (t : ℕ) (s : Session)
      → Empty S T r
      → SessionRun S T may r v
      → (get S T sid t v).0 ≡ some s
      → Bounded S T v sid t s
  unfolding get renew
  get-Bounded may r v sid t s clean run e = elim (Option-cases (T.get v t sid)) [
    | inl gone ↦ absurd (ground (arith, rw gone at e))
    | inr (old, found) ↦
        let (ends, (active, member)) =
          run-Sound may r v run (Empty-Sound r clean) t sid old found in
        elim (Bool-cases (leb old.absolute_expiry t)) [
          | inl over ↦ absurd (ground (arith, rw (found, over) at e))
          | inr on ↦
              let e' = rw (found, on) at e in
              let earlier : t < old.absolute_expiry = ground (arith, on) in
              (old, found, ground (arith, e'), subst (λ n. t < n) ends earlier, active)
        ]
  ]

  -- No session of the user is left.
  abbrev pub Away : ℕ → R → Type 0
  Away u r = Lives S T L (λ t sid s. (s.user_id == u) ≡ false) r

  op-Away :
      (u : ℕ) (may : ℕ → Bool) (r v : R)
      → may u ≡ false
      → SessionOp S T may r v
      → Sound S T L r
      → Away u r
      → Away u v
  op-Away u may r v not_u (logs_in sid now n _ ok_) sound h t sid' s e =
      elim (create-inv S T L sid now n r t sid' s e) [
        | inl (same, (is, soon)) ↦
            subst (λ v. (v.user_id == u) ≡ false) is (differs may n.user_id u ok_ not_u)
        | inr old ↦ h t sid' s old
      ]
  op-Away u may r v not_u (asks sid now _) sound h t sid' s e =
      let (t₀, sid₀, s₀, found, same) = get-inv S T L sid now r t sid' s e in
      subst (λ x. (x == u) ≡ false) same (h t₀ sid₀ s₀ found)
  op-Away u may r v not_u (logs_out sid now _) sound h t sid' s e =
      h t sid' s (destroy-inv S T L sid now r t sid' s e).0
  op-Away u may r v not_u (ends_all x _) sound h t sid' s e =
      h t sid' s (destroy_all-inv S T L r x t sid' s sound e).0

  run-Away :
      (u : ℕ) (may : ℕ → Bool) (r v : R)
      → may u ≡ false
      → SessionRun S T may r v
      → Sound S T L r
      → Away u r
      → Away u v
  run-Away u may r v not_u (done _) sound h = h
  run-Away u may r v not_u (then _ m _ op ops) sound h =
      run-Away u may m v not_u ops (op-Sound may r m op sound) (op-Away u may r m not_u op sound h)

  -- After any run from a store without sessions, then the global logout of a user, then any run in
  -- which that user does not log in: no cookie gets a session of the user.
  pub logged_out :
      (u : ℕ) (before after : ℕ → Bool) (r v w : R) (sid : String) (t : ℕ) (s : Session)
      → Empty S T r
      → SessionRun S T before r v
      → after u ≡ false
      → SessionRun S T after (destroy_all_for_user S T v u) w
      → (get S T sid t w).0 ≡ some s
      → s.user_id ≢ u
  unfolding get renew
  logged_out u before after r v w sid t s clean run not_u later e same =
      elim (Option-cases (T.get w t sid)) [
        | inl gone ↦ absurd (ground (arith, rw gone at e))
        | inr (old, found) ↦
            let sound = run-Sound before r v run (Empty-Sound r clean) in
            let away =
              run-Away u after (destroy_all_for_user S T v u) w not_u later
                (destroy_all-Sound S T L v u sound)
                (λ t₁ sid₁ s₁ e₁. (destroy_all-inv S T L v u t₁ sid₁ s₁ sound e₁).1) t sid old
                found in
            elim (Bool-cases (leb old.absolute_expiry t)) [
              | inl over ↦ absurd (ground (arith, rw (found, over) at e))
              | inr on ↦
                  let e' = rw (found, on) at e in
                  let is : old.user_id ≡ s.user_id = ap (λ v. v.user_id) (some-injective _ _ e') in
                  let u_is : old.user_id ≡ u = is ∙ same in absurd (ground (arith, away, u_is))
            ]
      ]
