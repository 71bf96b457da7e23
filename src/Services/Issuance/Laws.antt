-- ===== src/Services/Issuance/Laws.antt =====
-- What an issued license holds.
use navtra_license.Prelude.{
  ℕ, ◌≡◌, refl, sym, ◌∙◌, ap, subst, Bool, true, false, not, List, [], ◌∷◌, ◌++◌, Option, none,
  some, String, arith, inl, inr, Code, Result, ok, Among, update_where, ◌==◌, nat_eq, string_eq,
  codes, Option-cases, key_not_found, or_raise, issue_deployment_id_invalid,
}
use navtra_license.Models.{License, Customer, Product, SigningKey, offline, mode_eq, master}
use navtra_license.World.{World, ◌>>◌, pure, commit, lift, raise_when}
use navtra_license.World.Triples.{continue_inv}
use navtra_license.Audit.{Ctx, Event, log}
use navtra_license.Services.External.{External, Settings}
use navtra_license.Services.Keys.{require_active, get_active, decrypt_private}
use navtra_license.Services.Issuance.{
  build_payload, Fresh, Terms, hex_run, compute_active_until, resolve, offline_license, sealed_blob,
  seal, issue_offline,
}

raise_when_inv :
    {R : Type 0} (b : Bool) (c : Code) (w w' : World R)
    → raise_when {R = R} b c w ≡ (ok tt, w')
    → (b ≡ false) × (w' ≡ w)
raise_when_inv true c w w' e = absurd (ground arith)
raise_when_inv false c w w' e = (refl, ground arith)

lift_inv :
    {R A : Type 0} (r : Result A) (w w' : World R) {a : A}
    → lift {R = R} r w ≡ (ok a, w')
    → (r ≡ ok a) × (w' ≡ w)
lift_inv r w w' e = ground arith

true_of : (b : Bool) → not b ≡ false → b ≡ true
true_of true e = refl
true_of false e = absurd (ground arith)

or_raise_inv : {A : Type 0} (o : Option A) (c : Code) {a : A} → or_raise o c ≡ ok a → o ≡ some a
or_raise_inv none c e = absurd (ground arith)
or_raise_inv (some b) c e = ground arith

-- The row that an update touches at the end of a table.
Among-update_where-end :
    {A : Type 0} (p : A → Bool) (f : A → A) (row : A) (rows : List A)
    → p row ≡ true
    → Among (f row) (update_where p f (rows ++ (row ∷ [])))
unfolding update_where
Among-update_where-end p f row [] e = rw e (inl refl)
Among-update_where-end p f row (x ∷ xs) e = inr (Among-update_where-end p f row xs e)

module _ (X : External) (S : Settings) where
  -- An offline license always gets an end.
  pub compute_active_until-ends :
      (preset : String) (from : ℕ) (until : Option ℕ)
      → compute_active_until X S preset from offline ≡ ok until
      → (t : ℕ) × (until ≡ some t)
  unfolding compute_active_until mode_eq
  compute_active_until-ends preset from none e = absurd (ground arith)
  compute_active_until-ends preset from (some t) e = (t, refl)

  module _ {R : Type 0} where
    resolve_keeps :
        (customer_id product_id : String) (w w' : World R) (parties : Customer × Product)
        → resolve X S customer_id product_id w ≡ (ok parties, w')
        → w' ≡ w
    unfolding resolve
    resolve_keeps customer_id product_id w w' parties e = ground arith

    finish_inv :
        (event : Event) (ctx : Ctx) (l lic : License) (v w' : World R)
        → (log event ctx >> (commit >> pure l)) v ≡ (ok lic, w')
        → (l ≡ lic) × (w'.committed.licenses ≡ v.db.licenses)
    unfolding log
    finish_inv event ctx l lic v w' e = (ground arith, ground arith)

    seal_inv :
        (row : License) (c : Customer) (p : Product) (key : SigningKey) (deployment_id : String)
        (actor_id : Option ℕ) (ctx : Ctx) (w w' : World R) (lic : License)
        → seal X S row c p key deployment_id actor_id ctx w ≡ (ok lic, w')
        → (private : String) × (decrypt_private X S key ≡ some private)
          × (record row { offline_blob = some (sealed_blob X S row c p key private) } ≡ lic)
          × Among
              (record row { offline_blob = some (sealed_blob X S row c p key private) })
              w'.committed.licenses
    unfolding seal
    seal_inv row c p key deployment_id actor_id ctx w w' lic e =
        elim (Option-cases (decrypt_private X S key)) [
          | inl shut ↦ absurd (ground arith)
          | inr (private, opened) ↦
              let blob = sealed_blob X S row c p key private in
              let fill : License → License = λ l. record l { offline_blob = some blob } in
              let (same, stored) = finish_inv _ ctx (fill row) lic _ w' (rw opened at e) in
              (
                private,
                opened,
                same,
                subst (Among (fill row)) (sym stored) (
                    Among-update_where-end (λ l. l.id == row.id) fill row w.db.licenses
                      (ground arith)),
              )
        ]

    -- The columns, the key and the blob of an issued offline license.
    pub record Sealed (deployment_id : String) (w w' : World R) (lic : License) : Type 0 where
      pub customer : Customer
      pub product : Product
      pub key : SigningKey
      pub private : String
      pub until : ℕ
      pub hex : hex_run 64 (codes deployment_id) ≡ true
      pub active : get_active master w.db ≡ some key
      pub decrypts : decrypt_private X S key ≡ some private
      pub ends : lic.active_until ≡ some until
      pub is_offline : lic.mode ≡ offline
      pub is_hard : lic.binding ≡ "hard"
      pub bound : lic.bound_fingerprint ≡ some deployment_id
      pub blob : lic.offline_blob ≡ some (sealed_blob X S lic customer product key private)
      pub stored : Among lic w'.committed.licenses

    assemble :
        (f : Fresh) (t : Terms) (deployment_id : String) (cluster_id : Option String)
        (actor_id : Option ℕ) (c : Customer) (p : Product) (key : SigningKey) (until : Option ℕ)
        (end : ℕ) (w w' : World R) (lic : License)
        → hex_run 64 (codes deployment_id) ≡ true
        → get_active master w.db ≡ some key
        → until ≡ some end
        → (let row = offline_license X S f t deployment_id cluster_id c p key until actor_id in
            (private : String) × (decrypt_private X S key ≡ some private)
            × (record row { offline_blob = some (sealed_blob X S row c p key private) } ≡ lic)
            × Among
                (record row { offline_blob = some (sealed_blob X S row c p key private) })
                w'.committed.licenses)
        → Sealed deployment_id w w' lic
    unfolding build_payload
    assemble f t deployment_id cluster_id actor_id c p key until end w w' lic hex active ends
          (private, decrypted, same, stored) =
        subst (λ l. Sealed deployment_id w w' l) same
          (record {
            customer = c;
            product = p;
            key = key;
            private = private;
            until = end;
            hex = hex;
            active = active;
            decrypts = decrypted;
            ends = ends;
            is_offline = refl;
            is_hard = refl;
            bound = refl;
            blob = refl;
            stored = stored;
          })

    -- An offline license is issued only for a deployment id that the fingerprint pattern matches;
    -- it is of mode offline, hard bound to that id, has an end, is stored in the committed
    -- table, and its blob is the payload of its own columns with the signature by the private key of
    -- the active master key.
    pub issue_offline-Sealed :
        (f : Fresh) (t : Terms) (deployment_id : String) (cluster_id : Option String)
        (actor_id : Option ℕ) (ctx : Ctx) (w w' : World R) (lic : License)
        → issue_offline X S f t deployment_id cluster_id actor_id ctx w ≡ (ok lic, w')
        → Sealed deployment_id w w' lic
    unfolding issue_offline
    issue_offline-Sealed f t deployment_id cluster_id actor_id ctx w w' lic e =
        let (_, w1, s1, e1) =
          continue_inv
            (raise_when (not (hex_run 64 (codes deployment_id))) issue_deployment_id_invalid w) _
            e in
        let (hex, u1) = raise_when_inv _ _ w w1 s1 in
        let ((c, p), w2, s2, e2) = continue_inv (resolve X S t.customer_id t.product_id w1) _ e1 in
        let u2 = resolve_keeps t.customer_id t.product_id w1 w2 (c, p) s2 in
        let (key, w3, s3, e3) = continue_inv (require_active master w2) _ e2 in
        let (active, u3) = lift_inv _ w2 w3 s3 in
        let (until, w4, s4, e4) =
          continue_inv (lift (compute_active_until X S t.term_preset f.now offline) w3) _ e3 in
        let (computed, u4) = lift_inv _ w3 w4 s4 in
        let (end, ends) = compute_active_until-ends t.term_preset f.now until computed in
        let sealing =
          seal_inv (offline_license X S f t deployment_id cluster_id c p key until actor_id) c p key
            deployment_id actor_id ctx w4 w' lic e4 in
        let active' =
          ap (λ (v : World R). get_active master v.db) (sym (u2 ∙ u1))
          ∙ or_raise_inv (get_active master w2.db) key_not_found active in
        assemble f t deployment_id cluster_id actor_id c p key until end w w' lic
          (true_of (hex_run 64 (codes deployment_id)) hex) active' ends sealing
