-- ===== src/Sdk/Verifier/Laws.antt =====
-- What a verdict of the offline check vouches for, and that the saved state only moves forward.
use mathlib.Core.Option.{get_or}
use navtra_license.Prelude.{
  ℕ, ◌+◌, ◌*◌, ◌≤◌, ◌<◌, ◌≡◌, ◌≢◌, ◌∙◌, sym, ◌⊎◌, inl, inr, true, false, Option, none, some, List,
  string_eq, arith, Option-cases,
}
use navtra_license.Licensing.Token.{null, Dict, get, Codec, sdk_parse_and_verify}
use navtra_license.Licensing.Token.Laws.{sdk_parse_and_verify-eq, parse_and_verify_sound}
use navtra_license.Sdk.Verifier.{
  Verdict, locked, verdict, unlocked, State, Iso, Request, minute, goes_on, later, parse_dt,
  parse_value, advance, harden, rolled_back, replayed, stale, is_revoked, mismatched, check_term,
  check_payload, after_signature, verify_offline,
}

module _ (I : Iso) where
  -- The facts under which a payload unlocks the product.
  pub record Licensed (r : Request) (payload : Dict) : Type 0 where
    pub bound : mismatched payload r.local_fingerprint ≡ false
    pub not_revoked : is_revoked payload r.revoked_license_ids ≡ some false
    pub term :
        (parse_value I (get payload "active_until" null) ≡ some none)
        ⊎ ((until : ℕ) × (parse_value I (get payload "active_until" null) ≡ some (some until))
            × (r.now < until))

  check_payload-Licensed :
      (r : Request) (payload : Dict) (v : Verdict)
      → check_payload I r payload ≡ some v
      → unlocked v.status ≡ true
      → Licensed r payload × (v.payload ≡ payload)
  unfolding check_payload check_term unlocked
  check_payload-Licensed r payload v e u = ground arith

  harden-kept :
      (r : Request) (st st' : State)
      → harden I r st ≡ goes_on st'
      → (wm : Option ℕ) × (gen : Option ℕ) × (parse_dt I st.time_watermark ≡ some wm)
        × (parse_dt I r.crl_generated_at ≡ some gen)
        × (rolled_back r wm ≡ false)
        × (replayed r.crl_version st.crl_version ≡ false)
        × (stale r.now r.max_crl_age_days gen ≡ false)
        × (st' ≡ advance I r st wm gen)
  unfolding harden
  harden-kept r st st' e = ground arith

  -- `isoformat` writes a text that is not empty and reads back as the same instant.
  pub record IsIso : Type 0 where
    pub parse-format : (t : ℕ) → I.parse (I.format t) ≡ some t
    pub format_ne : (t : ℕ) → I.format t ≢ ""

  abbrev value : Option ℕ → ℕ
  value n = get_or n 0

  -- The saved watermark is the latest of the old one, the clock and the CRL's date, and the saved CRL
  -- version is the later one.
  pub record Advanced (r : Request) (st st' : State) : Type 0 where
    pub watermark : ℕ
    pub old : Option ℕ
    pub reads : parse_dt I st'.time_watermark ≡ some (some watermark)
    pub reads_old : parse_dt I st.time_watermark ≡ some old
    pub past_clock : r.now ≤ watermark
    pub past_old : value old ≤ watermark
    pub version : value st.crl_version ≤ value st'.crl_version
    pub version_consulted : value r.crl_version ≤ value st'.crl_version

  advance-Advanced :
      IsIso
      → (r : Request) (st : State) (wm gen : Option ℕ) → parse_dt I st.time_watermark ≡ some wm
      → Advanced r st (advance I r st wm gen)
  unfolding advance parse_dt
  advance-Advanced law r st wm gen e = record {
    watermark = later I gen (later I wm r.now);
    old = wm;
    reads = ground (
      arith,
      law.parse-format (later I gen (later I wm r.now)),
      law.format_ne (later I gen (later I wm r.now)),
    );
    reads_old = e;
    past_clock = ground arith;
    past_old = ground arith;
    version = ground arith;
    version_consulted = ground arith;
  }

  module _ (C : Codec) where
    -- The payload was read from bytes whose signature verifies under the embedded key.
    pub record Signed (r : Request) (payload : Dict) : Type 0 where
      pub bytes : List ℕ
      pub signature : List ℕ
      pub key : C.PublicKey
      pub loaded : C.loads bytes ≡ some payload
      pub opened : C.load_pem r.master_public_pem ≡ some key
      pub verified : C.verifies key signature bytes ≡ true

    signed :
        (r : Request) (payload : Dict)
        → sdk_parse_and_verify C r.blob r.master_public_pem ≡ some (true, payload)
        → Signed r payload
    signed r payload e =
        let (bytes, signature, key, loaded, opened, verified) =
          parse_and_verify_sound C r.blob r.master_public_pem payload
            (sym (sdk_parse_and_verify-eq C r.blob r.master_public_pem) ∙ e) in
        record {
          bytes = bytes;
          signature = signature;
          key = key;
          loaded = loaded;
          opened = opened;
          verified = verified;
        }

    after_signature-unlocked :
        (r : Request) (payload : Dict) (v : Verdict)
        → (after_signature I r payload).verdict ≡ some v
        → unlocked v.status ≡ true
        → check_payload I r payload ≡ some v
    unfolding after_signature unlocked
    after_signature-unlocked r payload v e u = ground arith

    verify_offline-unlocked :
        (r : Request) (v : Verdict)
        → (verify_offline I C r).verdict ≡ some v
        → unlocked v.status ≡ true
        → (payload : Dict) × (sdk_parse_and_verify C r.blob r.master_public_pem
            ≡ some (true, payload))
          × ((after_signature I r payload).verdict ≡ some v)
    unfolding verify_offline unlocked
    verify_offline-unlocked r v e u =
        elim (Option-cases (sdk_parse_and_verify C r.blob r.master_public_pem)) [
          | inl failed ↦ absurd (ground arith)
          | inr (result, read) ↦ (result.1, ground arith, ground arith)
        ]

    -- Fail closed: a verdict that unlocks the product has a payload whose signature verifies under
    -- the embedded key, whose hard binding is to this host, whose license is not on the given
    -- revocation list, and whose term, if it has one, has not ended.
    pub verify_offline-Licensed :
        (r : Request) (v : Verdict)
        → (verify_offline I C r).verdict ≡ some v
        → unlocked v.status ≡ true
        → Signed r v.payload × Licensed r v.payload
    verify_offline-Licensed r v e u =
        let (payload, read, passed) = verify_offline-unlocked r v e u in
        let (licensed, same) =
          check_payload-Licensed r payload v (after_signature-unlocked r payload v passed u) u in
        rw same (signed r payload read, licensed)

    -- A payload with a valid signature that is bound to this host or not hard bound, not on the
    -- list, and without an end or before it, gets an unlocking verdict with that payload where no
    -- state is kept.
    pub verify_offline_complete :
        (r : Request) (payload : Dict)
        → r.state ≡ none
        → sdk_parse_and_verify C r.blob r.master_public_pem ≡ some (true, payload)
        → Licensed r payload
        → (v : Verdict) × ((verify_offline I C r).verdict ≡ some v)
          × (unlocked v.status ≡ true)
          × (v.payload ≡ payload)
    unfolding verify_offline after_signature check_payload check_term unlocked
    verify_offline_complete r payload stateless read l = elim l.term [
      | inl endless ↦ (
        check_term r.now payload none,
        ground (arith, l.bound, l.not_revoked),
        ground arith,
        ground arith,
      )
      | inr (until, ends, running) ↦ (
        check_term r.now payload (some until),
        ground (arith, l.bound, l.not_revoked),
        ground arith,
        ground arith,
      )
    ]

    saved_kept :
        (r : Request) (st st' : State)
        → r.state ≡ some st
        → (verify_offline I C r).saved ≡ some st'
        → harden I r st ≡ goes_on st'
    unfolding verify_offline after_signature
    saved_kept r st st' e s = ground arith

    -- What a run with a state saves never goes back, where ISO times read back what they write: the
    -- watermark is at least the clock and the old watermark, and the CRL version at least the
    -- consulted and the old one.
    pub verify_offline-Advanced :
        IsIso
        → (r : Request) (st st' : State) → r.state ≡ some st
        → (verify_offline I C r).saved ≡ some st'
        → Advanced r st st'
    verify_offline-Advanced law r st st' e s =
        let (wm, gen, reads, _, _, _, _, same) = harden-kept r st st' (saved_kept r st st' e s) in
        rw same (advance-Advanced law r st wm gen reads)

    -- After a run with a state that saved its state, a run with the saved state on a clock that lies
    -- before that of the first run by more than the allowed skew, with a valid signature, is locked
    -- for `clock_rollback` and saves nothing, where ISO times read back what they write.
    pub verify_offline_clock_rollback :
        IsIso
        → (r s : Request) (st st' : State) (payload : Dict) → r.state ≡ some st
        → (verify_offline I C r).saved ≡ some st'
        → s.state ≡ some st'
        → s.now + s.clock_skew_minutes * minute < r.now
        → sdk_parse_and_verify C s.blob s.master_public_pem ≡ some (true, payload)
        → verify_offline I C s
          ≡ record { verdict = some (verdict locked "clock_rollback" payload); saved = none }
    unfolding verify_offline after_signature harden
    verify_offline_clock_rollback law r s st st' payload e saved e' back read =
        let a = verify_offline-Advanced law r st st' e saved in
        ground (arith, a.reads, a.past_clock)

    -- After a run with a state that consulted some CRL and saved its state, a run with the saved
    -- state and an older CRL version gives no unlocking verdict, whatever the token, where ISO times
    -- read back what they write.
    pub verify_offline_crl_replay :
        IsIso
        → (r s : Request) (st st' : State) (v : Verdict) (new old : ℕ) → r.state ≡ some st
        → (verify_offline I C r).saved ≡ some st'
        → r.crl_version ≡ some new
        → s.state ≡ some st'
        → s.crl_version ≡ some old
        → old < new
        → (verify_offline I C s).verdict ≡ some v
        → unlocked v.status ≡ false
    unfolding verify_offline after_signature harden unlocked
    verify_offline_crl_replay law r s st st' v new old e saved consulted e' replays older out =
        let a = verify_offline-Advanced law r st st' e saved in ground (arith, a.version_consulted)
