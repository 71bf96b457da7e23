-- ===== src/Tests/Sdk.antt =====
-- The SDK's checks on a signed payload.
use navtra_license.Prelude.{
  ℕ, zero, suc, ◌≡◌, refl, ap, sym, ◌∙◌, inr, true, false, List, [], ◌∷◌, Option, none, some,
  String, arith, length, codes, string_eq, text_eq,
}
use navtra_license.Licensing.Token.{get, sdk_parse_and_verify}
use navtra_license.Licensing.Token.Laws.{sdk_parse_and_verify-eq}
use navtra_license.Tests.{payload0, codec0}
use navtra_license.Tests.Token.{blob0, blob0_reads}
use navtra_license.Sdk.Verifier.{
  Iso, Request, State, Verdict, verdict, locked, unlocked, verify_offline, after_signature, harden,
  advance, mismatched, is_revoked, parse_value, parse_dt,
}
use navtra_license.Sdk.Verifier.Laws.{
  IsIso, Licensed, Signed, Advanced, verify_offline-Licensed, verify_offline_complete,
  verify_offline-Advanced, verify_offline_clock_rollback, verify_offline_crl_replay,
}

-- An instant as so many marks.
unfoldable pub format : ℕ → String
format zero = "|"
format (suc n) = String.◌∷◌ "|" (format n)

unfoldable pub marks : List ℕ → Option ℕ
marks [] = none
marks (c ∷ cs) = some (length cs)

pub length-format : (t : ℕ) → length (codes (format t)) ≡ suc t
unfolding format
length-format zero = refl
length-format (suc n) = rw (length-format n) refl

pub marks-length : (cs : List ℕ) (t : ℕ) → length cs ≡ suc t → marks cs ≡ some t
unfolding marks
marks-length [] t e = absurd (ground arith)
marks-length (c ∷ cs) t e = ground arith

abbrev pub iso0 : Iso
iso0 = record { parse = λ s. marks (codes s); format = format }

pub iso0-IsIso : IsIso iso0
iso0-IsIso = record {
  parse-format = λ t. marks-length (codes (format t)) t (length-format t);
  format_ne = λ t e.
      let n : suc t ≡ 0 = sym (length-format t) ∙ ap (λ s. length (codes s)) e in omega arith;
}

abbrev request0 : Request
request0 = record {
  blob = blob0;
  master_public_pem = "pem";
  local_fingerprint = "fp-1";
  revoked_license_ids = "b" ∷ [];
  now = 3;
  state = none;
  crl_version = none;
  crl_generated_at = none;
  max_crl_age_days = none;
  clock_skew_minutes = 0;
}

pub reads : sdk_parse_and_verify codec0 blob0 "pem" ≡ some (true, payload0)
reads = sdk_parse_and_verify-eq codec0 blob0 "pem" ∙ blob0_reads

licensed0 : Licensed iso0 request0 payload0
unfolding mismatched is_revoked parse_value marks string_eq get
licensed0 = record { bound = refl; not_revoked = refl; term = inr (4, refl, omega arith) }

complete_example :
    (v : Verdict) × ((verify_offline iso0 codec0 request0).verdict ≡ some v)
    × (unlocked v.status ≡ true)
    × (v.payload ≡ payload0)
complete_example = verify_offline_complete iso0 codec0 request0 payload0 refl reads licensed0

outcome0 :
    (v : Verdict) × ((verify_offline iso0 codec0 request0).verdict ≡ some v)
    × (unlocked v.status ≡ true)
    × (v.payload ≡ payload0)
outcome0 = verify_offline_complete iso0 codec0 request0 payload0 refl reads licensed0

verifier_example :
    Signed iso0 codec0 request0 outcome0.0.payload × Licensed iso0 request0 outcome0.0.payload
verifier_example = verify_offline-Licensed iso0 codec0 request0 outcome0.0 outcome0.1 outcome0.2

abbrev state0 : State
state0 = record { time_watermark = none; crl_version = some 1; crl_generated_at = none }

abbrev request1 : Request
request1 = record request0 { state = some state0; crl_version = some 2; now = 3 }

-- What the run on that state saves.
abbrev state1 : State
state1 = advance iso0 request1 state0 none none

signed_run :
    (r : Request)
    → sdk_parse_and_verify codec0 r.blob r.master_public_pem ≡ some (true, payload0)
    → verify_offline iso0 codec0 r ≡ after_signature iso0 r payload0
unfolding verify_offline
signed_run r e = ground arith

saved1 : (verify_offline iso0 codec0 request1).saved ≡ some state1
unfolding after_signature harden parse_dt
saved1 = ap (λ o. o.saved) (signed_run request1 reads)

saved_example : Advanced iso0 request1 state0 state1
saved_example = verify_offline-Advanced iso0 codec0 iso0-IsIso request1 state0 state1 refl saved1

rollback_example :
    verify_offline iso0 codec0 (record request1 { state = some state1; now = 2 })
    ≡ record { verdict = some (verdict locked "clock_rollback" payload0); saved = none }
rollback_example =
    verify_offline_clock_rollback iso0 codec0 iso0-IsIso request1
      (record request1 { state = some state1; now = 2 }) state0 state1 payload0 refl saved1 refl
      (omega arith) reads

abbrev request2 : Request
request2 = record request1 { state = some state1; crl_version = some 1 }

replayed2 :
    (verify_offline iso0 codec0 request2).verdict ≡ some (verdict locked "crl_rollback" payload0)
unfolding after_signature harden parse_dt format marks string_eq
replayed2 = ap (λ o. o.verdict) (signed_run request2 reads)

replay_example : unlocked locked ≡ false
replay_example =
    verify_offline_crl_replay iso0 codec0 iso0-IsIso request1 request2 state0 state1
      (verdict locked "crl_rollback" payload0) 2 1 refl saved1 refl refl refl (omega arith)
      replayed2
