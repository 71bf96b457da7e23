-- ===== src/Adapters/Email.antt =====
-- app/adapters/email/base.py of Project-source/forge-server: the choice of a provider, and the failover
-- from a primary to a fallback. Sending itself is a parameter: whether a provider takes the message.
pub mod Laws
pub mod Breaker
use navtra_license.Prelude.{
  ℕ, suc, ◌+◌, Bool, true, false, ◌&&◌, not, List, [], ◌∷◌, Option, none, some, String, leb, max,
  ◌==◌, string_eq, if◌then◌else◌,
}

-- The adapter classes.
pub data EmailAdapter : Type 0 where
  smtp aws_ses sendgrid aliyun_dm tencent_ses volcengine_dm : EmailAdapter

-- `get_email_adapter`, on the type that is asked for: none where it raises `ValueError`.
unfoldable pub get_email_adapter : String → Option EmailAdapter
get_email_adapter t =
    if t == "smtp"
    then some smtp
    else (if t == "aws_ses"
        then some aws_ses
        else (if t == "sendgrid"
            then some sendgrid
            else (if t == "aliyun_dm"
                then some aliyun_dm
                else (if t == "tencent_ses"
                    then some tencent_ses
                    else (if t == "volcengine_dm" then some volcengine_dm else none)))))

pub record EmailSettings : Type 0 where
  pub email_type : String
  pub email_fallback_type : String
  pub email_failover_threshold : ℕ

-- `FailoverEmailService`
pub record Failover : Type 0 where
  pub primary : EmailAdapter
  pub fallback : EmailAdapter
  pub threshold : ℕ
  pub consecutive_failures : ℕ

abbrev pub new_failover : EmailAdapter → EmailAdapter → ℕ → Failover
new_failover primary fallback threshold = record {
  primary = primary;
  fallback = fallback;
  threshold = max 1 threshold;
  consecutive_failures = 0;
}

-- `_open`
abbrev pub is_open : Failover → Bool
is_open s = leb s.threshold s.consecutive_failures

-- What `send` did: the adapters that it called, in order, whether it returned, and the service after.
pub record Sent : Type 0 where
  pub called : List EmailAdapter
  pub returned : Bool
  pub service : Failover

-- `send`, where `takes` says whether an adapter takes the message or raises.
unfoldable pub send : (EmailAdapter → Bool) → Failover → Sent
send takes s =
    if is_open s
    then record { called = s.fallback ∷ []; returned = takes s.fallback; service = s }
    else (if takes s.primary
        then record {
          called = s.primary ∷ [];
          returned = true;
          service = record s { consecutive_failures = 0 };
        }
        else record {
          called = s.primary ∷ s.fallback ∷ [];
          returned = takes s.fallback;
          service = record s { consecutive_failures = s.consecutive_failures + 1 };
        })

-- `get_email_service`: the primary alone, or with its failover.
pub data EmailService : Type 0 where
  plain : EmailAdapter → EmailService
  failover : Failover → EmailService

abbrev with_fallback : EmailSettings → EmailAdapter → Option EmailAdapter → Option EmailService
with_fallback s primary none = none
with_fallback s primary (some fallback) =
    some (failover (new_failover primary fallback s.email_failover_threshold))

abbrev with_primary : EmailSettings → Option EmailAdapter → Option EmailService
with_primary s none = none
with_primary s (some primary) =
    if not (s.email_fallback_type == "") && not (s.email_fallback_type == s.email_type)
    then with_fallback s primary (get_email_adapter s.email_fallback_type)
    else some (plain primary)

unfoldable pub get_email_service : EmailSettings → Option EmailService
get_email_service s = with_primary s (get_email_adapter s.email_type)
