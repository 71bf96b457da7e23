-- ===== src/Sdk/Online/Laws.antt =====
-- What unlocks a client of forge-edge over any run of its calls.
use navtra_license.Prelude.{
  ℕ, ◌<◌, ◌≡◌, refl, ◌∙◌, sym, subst, inl, inr, true, false, Option, none, some, List, [], ◌∷◌,
  String, ◌==◌, string_eq, nat_eq, arith, if◌then◌else◌, Bool-cases, Option-cases, codes,
}
use navtra_license.Licensing.Token.{null, Dict, get, Codec, sdk_parse_and_verify}
use navtra_license.Licensing.Token.Laws.{sdk_parse_and_verify-eq, parse_and_verify_sound}
use navtra_license.Sdk.Verifier.{
  Verdict, verdict, revoked, locked, unlocked, Iso, parse_value, given,
}
use navtra_license.Sdk.Online.{
  Reply, unreachable, answered, failed, Client, new_client, Answer, is_definitive, text_at,
  token_of, accept, in_grace, grace_or_lock, after_activate, refused, after_revalidate,
}

module _ (I : Iso) (C : Codec) where
  -- The dict was read from bytes whose signature verifies under the key file.
  pub record Signed (pem : String) (lease : Dict) : Type 0 where
    pub bytes : List ℕ
    pub signature : List ℕ
    pub key : C.PublicKey
    pub loaded : C.loads bytes ≡ some lease
    pub opened : C.load_pem pem ≡ some key
    pub verified : C.verifies key signature bytes ≡ true

  -- What the client has cached was signed.
  pub data Cached (pem : String) : Option Dict → Type 0 where
    nothing : Cached pem none
    lease : (l : Dict) → Signed pem l → Cached pem (some l)

  abbrev pub IsTrusted : Client → Type 0
  IsTrusted c = Cached c.edge_pub c.last_lease

  signed :
      (pem : String) (blob : List ℕ) (payload : Dict)
      → sdk_parse_and_verify C blob pem ≡ some (true, payload)
      → Signed pem payload
  signed pem blob payload e =
      let (bytes, signature, key, loaded, opened, verified) =
        parse_and_verify_sound C blob pem payload (sym (sdk_parse_and_verify-eq C blob pem) ∙ e) in
      record {
        bytes = bytes;
        signature = signature;
        key = key;
        loaded = loaded;
        opened = opened;
        verified = verified;
      }

  -- What an answer may do: it keeps the client's key, caches only what was signed, and unlocks the
  -- product only with a signed lease.
  pub record Sound (c : Client) (a : Answer) : Type 0 where
    pub trusted : IsTrusted a.client
    pub same_key : a.client.edge_pub ≡ c.edge_pub
    pub unlocked_signed :
        (v : Verdict) → a.verdict ≡ some v → unlocked v.status ≡ true → Signed c.edge_pub v.payload

  -- A call that leaves the client as it was.
  keep :
      (c : Client) (o : Option Verdict)
      → IsTrusted c
      → ((v : Verdict) → o ≡ some v → unlocked v.status ≡ true → Signed c.edge_pub v.payload)
      → Sound c (record { verdict = o; client = c })
  keep c o t h = record { trusted = t; same_key = refl; unlocked_signed = h }

  keep_raised : (c : Client) → IsTrusted c → Sound c (record { verdict = none; client = c })
  keep_raised c t = keep c none t (λ v e u. absurd (ground arith))

  keep_locked :
      (c : Client) (o : Verdict)
      → IsTrusted c
      → unlocked o.status ≡ false
      → Sound c (record { verdict = some o; client = c })
  keep_locked c o t shut = keep c (some o) t (λ v e u. absurd (ground arith))

  accept-Sound : (c : Client) (resp : Dict) → IsTrusted c → Sound c (accept I C c resp)
  unfolding accept unlocked
  accept-Sound c resp t = elim (Option-cases (token_of (get resp "lease_token" null))) [
    | inl missing ↦ rw (missing, accept) (keep_raised c t)
    | inr (blob, found) ↦ elim (Option-cases (sdk_parse_and_verify C (codes blob) c.edge_pub)) [
      | inl malformed ↦ rw (found, malformed, accept) (keep_raised c t)
      | inr ((true, l), read) ↦
          let seal = signed c.edge_pub (codes blob) l read in
          rw (found, read, accept)
            (record {
              trusted = lease l seal;
              same_key = refl;
              unlocked_signed = λ v e u. let same : v.payload ≡ l = ground arith in rw same seal;
            })
      | inr ((false, l), read) ↦
          rw (found, read, accept) (keep_locked c (verdict locked "lease_signature" []) t refl)
    ]
  ]

  abbrev WithinGrace : ℕ → Dict → Type 0
  WithinGrace now l =
      (until : ℕ) × (parse_value I (get l "grace_until" null) ≡ some (some until)) × (now < until)

  in_grace_inv :
      (now : ℕ) (o : Option Dict)
      → in_grace I C now o ≡ some true
      → (l : Dict) × (o ≡ some l) × WithinGrace now l
  unfolding in_grace
  in_grace_inv now none e = absurd (ground arith)
  in_grace_inv now (some []) e = absurd (ground arith)
  in_grace_inv now (some (entry ∷ l)) e =
      elim (Option-cases (parse_value I (get (entry ∷ l) "grace_until" null))) [
        | inl raised ↦ absurd (ground arith)
        | inr (none, read) ↦ absurd (ground arith)
        | inr (some until, read) ↦ (entry ∷ l, refl, (until, read, ground arith))
      ]

  -- The verdict without an authoritative answer: a cached lease, within its grace.
  grace_or_lock_inv :
      (now : ℕ) (c : Client) (reason : String) (v : Verdict)
      → grace_or_lock I C now c reason ≡ some v
      → unlocked v.status ≡ true
      → (c.last_lease ≡ some v.payload) × WithinGrace now v.payload
  unfolding grace_or_lock unlocked
  grace_or_lock_inv now c reason v e u = elim (Option-cases (in_grace I C now c.last_lease)) [
    | inl raised ↦ absurd (ground arith)
    | inr (false, outside) ↦ absurd (ground arith)
    | inr (true, inside) ↦
        let (l, cached, within) = in_grace_inv now c.last_lease inside in
        let same : v.payload ≡ l = ground arith in rw same (cached, within)
  ]

  cached_signed :
      (pem : String) (o : Option Dict) (l : Dict) → Cached pem o → o ≡ some l → Signed pem l
  cached_signed pem _ l nothing e = absurd (ground arith)
  cached_signed pem _ l (lease l' seal) e = let same : l ≡ l' = ground arith in rw same seal

  grace_or_lock-Sound :
      (now : ℕ) (c : Client) (reason : String)
      → IsTrusted c
      → Sound c (record { verdict = grace_or_lock I C now c reason; client = c })
  grace_or_lock-Sound now c reason t = keep c _ t λ v e u.
      cached_signed c.edge_pub c.last_lease v.payload t (grace_or_lock_inv now c reason v e u).0

  refused-Sound :
      (now : ℕ) (c : Client) (code : String)
      → IsTrusted c
      → Sound c (record { verdict = refused I C now c code; client = c })
  unfolding refused unlocked
  refused-Sound now c code t = elim (Bool-cases (code == "LICENSE_REVOKED")) [
    | inl e ↦ rw e (keep_locked c (verdict revoked "revoked" []) t refl)
    | inr e ↦ elim (Bool-cases (is_definitive code)) [
      | inl d ↦ rw (e, d) (keep_locked c _ t refl)
      | inr d ↦ rw (e, d) (grace_or_lock-Sound now c _ t)
    ]
  ]

  after_activate-Sound : (c : Client) (r : Reply) → IsTrusted c → Sound c (after_activate I C c r)
  unfolding after_activate unlocked
  after_activate-Sound c unreachable t = keep_locked c _ t refl
  after_activate-Sound c failed t = keep_raised c t
  after_activate-Sound c (answered status resp) t = elim (Bool-cases (status == 200)) [
    | inl e ↦ rw e (accept-Sound c resp t)
    | inr e ↦ elim (Bool-cases (text_at resp "code" "" == "LICENSE_REVOKED")) [
      | inl d ↦ rw (e, d) (keep_locked c (verdict revoked "revoked" []) t refl)
      | inr d ↦ rw (e, d) (keep_locked c _ t refl)
    ]
  ]

  after_revalidate-Sound :
      (now : ℕ) (c : Client) (r : Reply) → IsTrusted c → Sound c (after_revalidate I C now c r)
  unfolding after_revalidate
  after_revalidate-Sound now c unreachable t = grace_or_lock-Sound now c "network_error" t
  after_revalidate-Sound now c failed t = keep_raised c t
  after_revalidate-Sound now c (answered status resp) t = elim (Bool-cases (status == 200)) [
    | inl e ↦ rw e (accept-Sound c resp t)
    | inr e ↦ rw e (refused-Sound now c _ t)
  ]

  -- One call of the client, with the environment's reply and the clock.
  pub data Call : Type 0 where
    activates : Reply → Call
    revalidates : ℕ → Reply → Call

  abbrev pub call : Client → Call → Answer
  call c (activates r) = after_activate I C c r
  call c (revalidates now r) =
      if given c.validation_token
      then after_revalidate I C now c r
      else record { verdict = some (verdict locked "not_activated" []); client = c }

  call-Sound : (c : Client) (k : Call) → IsTrusted c → Sound c (call c k)
  unfolding unlocked
  call-Sound c (activates r) t = after_activate-Sound c r t
  call-Sound c (revalidates now r) t = elim (Bool-cases (given c.validation_token)) [
    | inl e ↦ rw e (after_revalidate-Sound now c r t)
    | inr e ↦ rw e (keep_locked c (verdict locked "not_activated" []) t refl)
  ]

  unfoldable pub run : Client → List Call → Client
  run c [] = c
  run c (k ∷ ks) = run (call c k).client ks

  run-IsTrusted :
      (c : Client) (ks : List Call)
      → IsTrusted c
      → IsTrusted (run c ks) × ((run c ks).edge_pub ≡ c.edge_pub)
  unfolding run
  run-IsTrusted c [] t = (t, refl)
  run-IsTrusted c (k ∷ ks) t =
      let s = call-Sound c k t in
      let (rest, same) = run-IsTrusted (call c k).client ks s.trusted in (rest, same ∙ s.same_key)

  -- After any sequence of calls of a new client and any replies to them, the verdict of one more
  -- call, if it unlocks the product, carries a lease whose signature verifies under the embedded
  -- edge key.
  pub run_unlocked-Signed :
      (pem : String) (ks : List Call) (k : Call) (v : Verdict)
      → (call (run (new_client pem) ks) k).verdict ≡ some v
      → unlocked v.status ≡ true
      → Signed pem v.payload
  unfolding new_client
  run_unlocked-Signed pem ks k v e u =
      let (t, same) = run-IsTrusted (new_client pem) ks nothing in
      subst (λ p. Signed p v.payload) same
        ((call-Sound (run (new_client pem) ks) k t).unlocked_signed v e u)
