-- ===== src/Sdk/Verifier.antt =====
-- verifier-sdk/python/forge_verifier/verifier.py: the offline check. Instants are microseconds.
-- `none` where an `Option` is a result stands for an exception that leaves the function.
pub mod Laws
use mathlib.Core.Option.{get_or}
use navtra_license.Prelude.{
  ℕ, zero, suc, ◌+◌, ◌-◌, ◌*◌, ◌/◌, max, Bool, true, false, ◌&&◌, not, Option, none, some, List, [],
  ◌∷◌, String, ltb, leb, ◌==◌, contains, string_eq, if◌then◌else◌,
}
use navtra_license.Licensing.Token.{
  Json, null, str, num, strs, pairs, other, Dict, get, Codec, sdk_parse_and_verify, ◌>>=◌,
}

pub data VerdictStatus : Type 0 where
  active expiring expired revoked binding_mismatch invalid_signature locked : VerdictStatus

pub record Verdict : Type 0 where
  pub status : VerdictStatus
  pub reason : String
  pub payload : Dict

abbrev pub verdict : VerdictStatus → String → Dict → Verdict
verdict s r p = record { status = s; reason = r; payload = p }

-- `Verdict.unlocked`
unfoldable pub unlocked : VerdictStatus → Bool
unlocked active = true
unlocked expiring = true
unlocked _ = false

abbrev lock_message : String → String
lock_message lang = if lang == "zh-CN" then "需要激活许可证." else "License activation required."

unfoldable pub message : Verdict → String → String
unfolding unlocked
message v lang = if unlocked v.status then "" else lock_message lang

-- The state file, `{}` where it cannot be read. Its watermark is a text that the SDK wrote.
pub record State : Type 0 where
  pub time_watermark : Option String
  pub crl_version : Option ℕ
  pub crl_generated_at : Option String

-- `datetime.fromisoformat` after `replace("Z", "+00:00")`, which may raise, and `isoformat`.
pub record Iso : Type 0 where
  pub parse : String → Option ℕ
  pub format : ℕ → String

-- The arguments; `state` is `none` where no `state_path` is given.
pub record Request : Type 0 where
  pub blob : List ℕ
  pub master_public_pem : String
  pub local_fingerprint : String
  pub revoked_license_ids : List String
  pub now : ℕ
  pub state : Option State
  pub crl_version : Option ℕ
  pub crl_generated_at : Option String
  pub max_crl_age_days : Option ℕ
  pub clock_skew_minutes : ℕ

-- The verdict, and the state that `_save_state` writes.
pub record Outcome : Type 0 where
  pub verdict : Option Verdict
  pub saved : Option State

abbrev pub day : ℕ
day = 86400000000

abbrev pub minute : ℕ
minute = 60000000

-- The truth of an optional text.
abbrev pub given : Option String → Bool
given none = false
given (some s) = not (s == "")

-- How the state-backed checks end.
pub data Hardening : Type 0 where
  raises : Hardening
  stops : String → Hardening
  goes_on : State → Hardening

-- `now < wm - timedelta(minutes=clock_skew_minutes)`
abbrev pub rolled_back : Request → Option ℕ → Bool
rolled_back r none = false
rolled_back r (some wm) = ltb (r.now + r.clock_skew_minutes * minute) wm

abbrev pub replayed : Option ℕ → Option ℕ → Bool
replayed (some v) (some old) = ltb v old
replayed (some v) none = false
replayed none old = false

-- `(now - gen).days > max_crl_age_days`; a `gen` after `now` gives a negative number of days.
abbrev pub stale : ℕ → Option ℕ → Option ℕ → Bool
stale now (some days) (some gen) = ltb days ((now - gen) / day)
stale now (some days) none = false
stale now none gen = false

-- `payload.get("binding", "hard") == "hard"` and the like
unfoldable pub is_text : Json → String → Bool
is_text (str s) t = s == t
is_text null t = false
is_text (num n) t = false
is_text (strs ss) t = false
is_text (pairs ps) t = false
is_text (other o) t = false

-- `payload.get("license_id") in revoked_license_ids`: lists and objects cannot be hashed.
unfoldable pub listed : Json → List String → Option Bool
listed (str s) ids = some (contains ids s)
listed null ids = some false
listed (num n) ids = some false
listed (strs ss) ids = none
listed (pairs ps) ids = none
listed (other o) ids = none

-- `revoked_license_ids and payload.get("license_id") in revoked_license_ids`
unfoldable pub is_revoked : Dict → List String → Option Bool
unfolding listed
is_revoked payload [] = some false
is_revoked payload (id ∷ ids) = listed (get payload "license_id" null) (id ∷ ids)

unfoldable pub mismatched : Dict → String → Bool
unfolding is_text
mismatched payload local_fingerprint =
    is_text (get payload "binding" (str "hard")) "hard"
    && not (is_text (get payload "bound_fingerprint" null) local_fingerprint)

unfoldable pub check_term : ℕ → Dict → Option ℕ → Verdict
check_term now payload none = verdict active "ok" payload
check_term now payload (some until) =
    if leb until now
    then verdict expired "expired" payload
    else if leb ((until - now) / day) 30
    then verdict expiring "expiring" payload
    else verdict active "ok" payload

module _ (I : Iso) where
  -- `_parse_dt`
  unfoldable pub parse_dt : Option String → Option (Option ℕ)
  parse_dt none = some none
  parse_dt (some s) = if s == "" then some none else (I.parse s >>= λ t. some (some t))

  -- `_parse_dt` of a payload's value: what is false in Python is no time, other types raise.
  unfoldable pub parse_value : Json → Option (Option ℕ)
  unfolding parse_dt
  parse_value null = some none
  parse_value (str s) = parse_dt (some s)
  parse_value (num zero) = some none
  parse_value (num (suc n)) = none
  parse_value (strs []) = some none
  parse_value (strs (s ∷ ss)) = none
  parse_value (pairs []) = some none
  parse_value (pairs (p ∷ ps)) = none
  parse_value (other o) = if o == "{}" then some none else none

  abbrev pub later : Option ℕ → ℕ → ℕ
  later none t = t
  later (some c) t = if ltb t c then c else t

  -- The watermark and the CRL data that are saved after the checks.
  pub advance : Request → State → Option ℕ → Option ℕ → State
  advance r st wm gen = record {
    time_watermark = some (I.format (later gen (later wm r.now)));
    crl_version = elim r.crl_version [
      | none ↦ st.crl_version
      | some v ↦ some (max v (get_or st.crl_version v))
    ];
    crl_generated_at = if given r.crl_generated_at then r.crl_generated_at else st.crl_generated_at;
  }

  -- The block `if state is not None`. The CRL's date is read whether or not its age is limited.
  unfoldable pub harden : Request → State → Hardening
  unfolding advance parse_dt
  harden r st = elim (parse_dt st.time_watermark) [
    | none ↦ raises
    | some wm ↦
        if rolled_back r wm
        then stops "clock_rollback"
        else if replayed r.crl_version st.crl_version
        then stops "crl_rollback"
        else elim (parse_dt r.crl_generated_at) [
          | none ↦ raises
          | some gen ↦
              if stale r.now r.max_crl_age_days gen
              then stops "crl_stale"
              else goes_on (advance r st wm gen)
        ]
  ]

  -- Binding, revocation and term.
  unfoldable pub check_payload : Request → Dict → Option Verdict
  check_payload r payload =
      if mismatched payload r.local_fingerprint
      then some (verdict binding_mismatch "fingerprint" payload)
      else do
        listed_id ← is_revoked payload r.revoked_license_ids
        if listed_id then some (verdict revoked "crl" payload) else do
          until ← parse_value (get payload "active_until" null)
          some (check_term r.now payload until)

  unfoldable pub after_signature : Request → Dict → Outcome
  after_signature r payload = elim r.state [
    | none ↦ record { verdict = check_payload r payload; saved = none }
    | some st ↦ elim (harden r st) [
      | raises ↦ record { verdict = none; saved = none }
      | stops reason ↦ record { verdict = some (verdict locked reason payload); saved = none }
      | goes_on st' ↦ record { verdict = check_payload r payload; saved = some st' }
    ]
  ]

  module _ (C : Codec) where
    unfoldable pub verify_offline : Request → Outcome
    verify_offline r = elim (sdk_parse_and_verify C r.blob r.master_public_pem) [
      | none ↦ record { verdict = some (verdict locked "malformed" []); saved = none }
      | some (valid, payload) ↦
          if valid
          then after_signature r payload
          else record { verdict = some (verdict invalid_signature "signature" []); saved = none }
    ]
