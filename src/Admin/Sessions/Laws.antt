-- ===== src/Admin/Sessions/Laws.antt =====
-- Sessions end: at their absolute expiry, when they are idle, and at a global logout.
use navtra_license.Prelude.{
  ℕ, ◌+◌, ◌-◌, ◌<◌, min, ◌≡◌, refl, true, false, ◌&&◌, ◌||◌, not, List, [], ◌∷◌, none, some, String,
  ltb, leb, contains, ◌==◌, nat_eq, string_eq, arith, subst, sym, ap, ◌∙◌, if◌then◌else◌, inl, inr,
  Bool-cases, Option-cases, ◌⊎◌,
}
use navtra_license.Admin.Sessions.{
  Session, SessionStore, SessionSettings, NewSession, session_of, create, destroy, renew, get,
  delete_all, destroy_all_for_user,
}

-- What the service relies on of Redis.
pub record SessionLaws {R : Type 0} (T : SessionStore R) : Type 0 where
  pub get-set :
      (r : R) (now : ℕ) (sid : String) (s : Session) (ex t : ℕ) (sid' : String)
      → T.get (T.set r now sid s ex) t sid'
        ≡ (if sid' == sid then (if ltb t (now + ex) then some s else none) else T.get r t sid')
  pub get-delete :
      (r : R) (sid : String) (t : ℕ) (sid' : String)
      → T.get (T.delete r sid) t sid' ≡ (if sid' == sid then none else T.get r t sid')
  pub get-sadd :
      (r : R) (u : ℕ) (sid : String) (t : ℕ) (sid' : String)
      → T.get (T.sadd r u sid) t sid' ≡ T.get r t sid'
  pub get-srem :
      (r : R) (u : ℕ) (sid : String) (t : ℕ) (sid' : String)
      → T.get (T.srem r u sid) t sid' ≡ T.get r t sid'
  pub get-delete_index :
      (r : R) (u t : ℕ) (sid' : String) → T.get (T.delete_index r u) t sid' ≡ T.get r t sid'
  pub smembers-set :
      (r : R) (now : ℕ) (sid : String) (s : Session) (ex u : ℕ)
      → T.smembers (T.set r now sid s ex) u ≡ T.smembers r u
  pub smembers-delete :
      (r : R) (sid : String) (u : ℕ) → T.smembers (T.delete r sid) u ≡ T.smembers r u
  pub smembers-sadd :
      (r : R) (u : ℕ) (sid : String) (u' : ℕ) (sid' : String)
      → contains (T.smembers (T.sadd r u sid) u') sid'
        ≡ ((u' == u && sid' == sid) || contains (T.smembers r u') sid')
  pub smembers-srem :
      (r : R) (u : ℕ) (sid : String) (u' : ℕ) (sid' : String)
      → contains (T.smembers (T.srem r u sid) u') sid'
        ≡ (not (u' == u && sid' == sid) && contains (T.smembers r u') sid')
  pub smembers-delete_index :
      (r : R) (u u' : ℕ)
      → T.smembers (T.delete_index r u) u' ≡ (if u' == u then [] else T.smembers r u')

module _ (S : SessionSettings) {R : Type 0} (T : SessionStore R) (L : SessionLaws T) where
  -- What holds of every session that the store still has.
  abbrev pub Lives : (ℕ → String → Session → Type 0) → R → Type 0
  Lives P r = (t : ℕ) (sid : String) (s : Session) → T.get r t sid ≡ some s → P t sid s

  -- It ends where it was to end, it has not been idle for too long, and the index of its user has it.
  abbrev pub Sound : R → Type 0
  Sound r =
      Lives
        (λ t sid s.
          (s.absolute_expiry ≡ s.created_at + S.absolute_ttl_seconds)
          × ((t < s.last_activity_at + S.idle_ttl_seconds)
              × (contains (T.smembers r s.user_id) sid ≡ true)))
        r

  set-cases :
      (r : R) (now : ℕ) (sid : String) (s : Session) (ex t : ℕ) (sid' : String) (s' : Session)
      → T.get (T.set r now sid s ex) t sid' ≡ some s'
      → ((sid' ≡ sid) × ((s ≡ s') × (t < now + ex))) ⊎ (T.get r t sid' ≡ some s')
  set-cases r now sid s ex t sid' s' e =
      let e' = rw (L.get-set r now sid s ex t sid') at e in ground arith

  delete-inv :
      (r : R) (sid : String) (t : ℕ) (sid' : String) (s' : Session)
      → T.get (T.delete r sid) t sid' ≡ some s'
      → (T.get r t sid' ≡ some s') × ((sid' == sid) ≡ false)
  delete-inv r sid t sid' s' e = let e' = rw (L.get-delete r sid t sid') at e in ground arith

  -- The session of a login, or one that was there.
  pub create-inv :
      (sid : String) (now : ℕ) (n : NewSession) (r : R) (t : ℕ) (sid' : String) (s' : Session)
      → T.get (create S T sid now n r) t sid' ≡ some s'
      → ((sid' ≡ sid) × ((session_of S now n ≡ s') × (t < now + S.idle_ttl_seconds)))
        ⊎ (T.get r t sid' ≡ some s')
  unfolding create
  create-inv sid now n r t sid' s' e =
      set-cases r now sid (session_of S now n) S.idle_ttl_seconds t sid' s' (
        rw
          (L.get-sadd (T.set r now sid (session_of S now n) S.idle_ttl_seconds) n.user_id sid t
            sid')
          at e)

  member-create :
      (sid : String) (now : ℕ) (n : NewSession) (r : R) (u : ℕ) (sid' : String)
      → contains (T.smembers (create S T sid now n r) u) sid'
        ≡ ((u == n.user_id && sid' == sid) || contains (T.smembers r u) sid')
  unfolding create
  member-create sid now n r u sid' =
      rw
        (
          L.smembers-sadd (T.set r now sid (session_of S now n) S.idle_ttl_seconds) n.user_id sid u
              sid',
          L.smembers-set r now sid (session_of S now n) S.idle_ttl_seconds u,
        )
        refl

  pub create-Sound :
      (sid : String) (now : ℕ) (n : NewSession) (r : R) → Sound r → Sound (create S T sid now n r)
  create-Sound sid now n r h t sid' s' e = elim (create-inv sid now n r t sid' s' e) [
    | inl (same, (is, soon)) ↦
        subst
          (λ v.
            (v.absolute_expiry ≡ v.created_at + S.absolute_ttl_seconds)
            × ((t < v.last_activity_at + S.idle_ttl_seconds)
                × (contains (T.smembers (create S T sid now n r) v.user_id) sid' ≡ true)))
          is (refl, (soon, member-create sid now n r n.user_id sid' ∙ ground arith))
    | inr old ↦
        let (ends, (active, member)) = h t sid' s' old in
        (ends, (active, member-create sid now n r s'.user_id sid' ∙ ground (arith, member)))
  ]

  pub destroy-inv :
      (sid : String) (now : ℕ) (r : R) (t : ℕ) (sid' : String) (s' : Session)
      → T.get (destroy S T sid now r) t sid' ≡ some s'
      → (T.get r t sid' ≡ some s') × ((sid' == sid) ≡ false)
  unfolding destroy
  destroy-inv sid now r t sid' s' e = elim (Option-cases (T.get r now sid)) [
    | inl gone ↦ delete-inv r sid t sid' s' (rw gone at e)
    | inr (s, found) ↦
        let (old, other) = delete-inv (T.srem r s.user_id sid) sid t sid' s' (rw found at e) in
        (rw (L.get-srem r s.user_id sid t sid') at old, other)
  ]

  member-destroy :
      (sid : String) (now : ℕ) (r : R) (u : ℕ) (sid' : String)
      → (sid' == sid) ≡ false
      → contains (T.smembers r u) sid' ≡ true
      → contains (T.smembers (destroy S T sid now r) u) sid' ≡ true
  unfolding destroy
  member-destroy sid now r u sid' other h = elim (Option-cases (T.get r now sid)) [
    | inl gone ↦ rw (gone, L.smembers-delete r sid u) h
    | inr (s, found) ↦
        rw
          (
            found,
            L.smembers-delete (T.srem r s.user_id sid) sid u,
            L.smembers-srem r s.user_id sid u sid',
          )
          (ground (arith, other, h))
  ]

  -- Renewal keeps all but the activity.
  pub renew-inv :
      (s : Session) (sid : String) (now : ℕ) (r : R) (t : ℕ) (sid' : String) (s' : Session)
      → T.get (renew S T s sid now r).1 t sid' ≡ some s'
      → ((sid' ≡ sid)
          × ((record s { last_activity_at = now } ≡ s') × (t < now + S.idle_ttl_seconds)))
        ⊎ (T.get r t sid' ≡ some s')
  unfolding renew
  renew-inv s sid now r t sid' s' e = elim (Bool-cases (leb s.absolute_expiry now)) [
    | inl over ↦ inr (destroy-inv sid now r t sid' s' (rw over at e)).0
    | inr on ↦
        elim (set-cases r now sid (record s { last_activity_at = now })
          (min S.idle_ttl_seconds (s.absolute_expiry - now)) t sid' s' (rw on at e)) [
            | inl (same, (is, soon)) ↦ inl (same, (is, omega (arith, soon)))
            | inr old ↦ inr old
          ]
  ]

  member-renew :
      (s : Session) (sid : String) (now : ℕ) (r : R) (u t : ℕ) (sid' : String) (s' : Session)
      → T.get (renew S T s sid now r).1 t sid' ≡ some s'
      → contains (T.smembers r u) sid' ≡ true
      → contains (T.smembers (renew S T s sid now r).1 u) sid' ≡ true
  unfolding renew
  member-renew s sid now r u t sid' s' e h = elim (Bool-cases (leb s.absolute_expiry now)) [
    | inl over ↦
        rw over
          (member-destroy sid now r u sid' (destroy-inv sid now r t sid' s' (rw over at e)).1 h)
    | inr on ↦
        rw
          (
            on,
            L.smembers-set r now sid (record s { last_activity_at = now })
                (min S.idle_ttl_seconds (s.absolute_expiry - now)) u,
          )
          h
  ]

  pub destroy-Sound : (sid : String) (now : ℕ) (r : R) → Sound r → Sound (destroy S T sid now r)
  destroy-Sound sid now r h t sid' s' e =
      let (old, other) = destroy-inv sid now r t sid' s' e in
      let (ends, (active, member)) = h t sid' s' old in
      (ends, (active, member-destroy sid now r s'.user_id sid' other member))

  renew-Sound :
      (s : Session) (sid : String) (now : ℕ) (r : R)
      → T.get r now sid ≡ some s
      → Sound r
      → Sound (renew S T s sid now r).1
  renew-Sound s sid now r found h t sid' s' e = elim (renew-inv s sid now r t sid' s' e) [
    | inl (same, (is, soon)) ↦
        let (ends, (active, member)) = h now sid s found in
        subst
          (λ v.
            (v.absolute_expiry ≡ v.created_at + S.absolute_ttl_seconds)
            × ((t < v.last_activity_at + S.idle_ttl_seconds)
                × (contains (T.smembers (renew S T s sid now r).1 v.user_id) sid' ≡ true)))
          is
          (
            ends,
            (
              soon,
              member-renew s sid now r s.user_id t sid' s' e
                  (subst (λ x. contains (T.smembers r s.user_id) x ≡ true) (sym same) member),
            ),
          )
    | inr old ↦
        let (ends, (active, member)) = h t sid' s' old in
        (ends, (active, member-renew s sid now r s'.user_id t sid' s' e member))
  ]

  pub get-Sound : (sid : String) (now : ℕ) (r : R) → Sound r → Sound (get S T sid now r).1
  unfolding get
  get-Sound sid now r h t sid' s' e = elim (Option-cases (T.get r now sid)) [
    | inl gone ↦ rw gone (h t sid' s' (rw gone at e))
    | inr (s, found) ↦ rw found (renew-Sound s sid now r found h t sid' s' (rw found at e))
  ]

  -- A session that is left after a request was there before it, for the same user.
  pub get-inv :
      (sid : String) (now : ℕ) (r : R) (t : ℕ) (sid' : String) (s' : Session)
      → T.get (get S T sid now r).1 t sid' ≡ some s'
      → (t₀ : ℕ) × (sid₀ : String) × (s : Session) × (T.get r t₀ sid₀ ≡ some s)
        × (s.user_id ≡ s'.user_id)
  unfolding get
  get-inv sid now r t sid' s' e = elim (Option-cases (T.get r now sid)) [
    | inl gone ↦ (t, sid', s', (rw gone at e), refl)
    | inr (s, found) ↦ elim (renew-inv s sid now r t sid' s' (rw found at e)) [
      | inl (same, (is, soon)) ↦ (now, sid, s, found, ap (λ v. v.user_id) is)
      | inr old ↦ (t, sid', s', old, refl)
    ]
  ]

  delete_all-inv :
      (sids : List String) (r : R) (t : ℕ) (sid' : String) (s' : Session)
      → T.get (delete_all S T sids r) t sid' ≡ some s'
      → (T.get r t sid' ≡ some s') × (contains sids sid' ≡ false)
  unfolding delete_all
  delete_all-inv [] r t sid' s' e = (e, refl)
  delete_all-inv (sid ∷ sids) r t sid' s' e =
      let (old, others) = delete_all-inv sids (T.delete r sid) t sid' s' e in
      let (older, other) = delete-inv r sid t sid' s' old in (older, ground (arith, other, others))

  smembers-delete_all :
      (sids : List String) (r : R) (u : ℕ) → T.smembers (delete_all S T sids r) u ≡ T.smembers r u
  unfolding delete_all
  smembers-delete_all [] r u = refl
  smembers-delete_all (sid ∷ sids) r u =
      smembers-delete_all sids (T.delete r sid) u ∙ L.smembers-delete r sid u

  -- A session that is left after a global logout is another user's.
  pub destroy_all-inv :
      (r : R) (u t : ℕ) (sid' : String) (s' : Session)
      → Sound r
      → T.get (destroy_all_for_user S T r u) t sid' ≡ some s'
      → (T.get r t sid' ≡ some s') × ((s'.user_id == u) ≡ false)
  unfolding destroy_all_for_user
  destroy_all-inv r u t sid' s' h e =
      let (old, out) =
        delete_all-inv (T.smembers r u) r t sid' s'
          (rw (L.get-delete_index (delete_all S T (T.smembers r u) r) u t sid') at e) in
      let member = (h t sid' s' old).1.1 in
      (
        old,
        elim (Bool-cases (s'.user_id == u)) [
          | inl same ↦
              let is : s'.user_id ≡ u = ground arith in
              absurd (ground (arith, rw is at member, out))
          | inr other ↦ other
        ],
      )

  pub destroy_all-Sound : (r : R) (u : ℕ) → Sound r → Sound (destroy_all_for_user S T r u)
  unfolding destroy_all_for_user
  destroy_all-Sound r u h t sid' s' e =
      let (old, other) = destroy_all-inv r u t sid' s' h e in
      let (ends, (active, member)) = h t sid' s' old in
      (
        ends,
        (
          active,
          rw
              (
                L.smembers-delete_index (delete_all S T (T.smembers r u) r) u s'.user_id,
                other,
                smembers-delete_all (T.smembers r u) r s'.user_id,
              )
              member,
        ),
      )
