-- ===== src/Sdk/Online.antt =====
-- verifier-sdk/python/forge_verifier/online.py: the client of forge-edge with its cached lease.
-- `post` is the HTTP exchange; its answers are the environment's.
pub mod Laws
pub mod Grace
use navtra_license.Prelude.{
  ℕ, Bool, true, false, not, Option, none, some, List, [], ◌∷◌, ◌++◌, String, ltb, ◌==◌, contains,
  string_eq, nat_eq, if◌then◌else◌, codes,
}
use navtra_license.Licensing.Token.{
  Json, null, str, pairs, Dict, get, Codec, sdk_parse_and_verify, ◌>>=◌,
}
use navtra_license.Sdk.Verifier.{Verdict, verdict, active, revoked, locked, Iso, parse_value, given}

-- `urllib.error.URLError`, an HTTP status with its JSON body, or another exception.
pub data Reply : Type 0 where
  unreachable : Reply
  answered : ℕ → Dict → Reply
  failed : Reply

pub record Client : Type 0 where
  pub edge_pub : String
  pub last_lease : Option Dict
  pub validation_token : Option String

-- `OnlineClient.__init__`
unfoldable pub new_client : String → Client
new_client pem = record { edge_pub = pem; last_lease = none; validation_token = none }

-- A call's verdict, `none` where an exception leaves it, and the client after it.
pub record Answer : Type 0 where
  pub verdict : Option Verdict
  pub client : Client

abbrev definitive_lock_codes : List String
definitive_lock_codes =
    "LICENSE_REVOKED" ∷ "LICENSE_EXPIRED" ∷ "LICENSE_BINDING_MISMATCH" ∷ "LICENSE_LEASE_EXPIRED"
    ∷ "RESOURCE_NOT_FOUND" ∷ []

unfoldable pub is_definitive : String → Bool
is_definitive c = contains definitive_lock_codes c

-- `code.lower()` on those codes
pub lower_code : String → String
lower_code c =
    if c == "LICENSE_EXPIRED"
    then "license_expired"
    else if c == "LICENSE_BINDING_MISMATCH"
    then "license_binding_mismatch"
    else if c == "LICENSE_LEASE_EXPIRED"
    then "license_lease_expired"
    else if c == "RESOURCE_NOT_FOUND"
    then "resource_not_found"
    else c

-- The text under a key of a body, or the default.
unfoldable pub text_at : Dict → String → String → String
text_at d key default = elim (get d key (str default)) [ str s ↦ s | _ ↦ default ]

unfoldable pub token_of : Json → Option String
token_of (str s) = some s
token_of _ = none

abbrev pub text_of : Option String → String
text_of none = ""
text_of (some s) = s

-- An optional text is sent only where it is given.
with_text : String → Option String → Dict
with_text key none = []
with_text key (some s) = if s == "" then [] else (key, str s) ∷ []

with_signals : List (String × String) → Dict
with_signals [] = []
with_signals (p ∷ ps) = ("signals", pairs (p ∷ ps)) ∷ []

nullable : Option String → Json
nullable none = null
nullable (some s) = str s

pub activate_body :
    String → String → Option String → Option String → List (String × String) → Option String → Dict
unfolding nullable with_text with_signals
activate_body online_code fingerprint cluster_id install_id signals deployment_uid =
    ("online_code", str online_code)
    ∷ ("fingerprint", str fingerprint)
    ∷ ("cluster_id", nullable cluster_id)
    ∷ (with_text "install_id" install_id
        ++ (with_signals signals ++ with_text "deployment_uid" deployment_uid))

pub revalidate_body : String → String → Option String → Dict
unfolding with_text
revalidate_body token fingerprint install_id =
    ("validation_token", str token)
    ∷ ("fingerprint", str fingerprint)
    ∷ with_text "install_id" install_id

module _ (I : Iso) (C : Codec) where
  -- `_accept`
  unfoldable pub accept : Client → Dict → Answer
  accept c resp = elim (token_of (get resp "lease_token" null)) [
    | none ↦ record { verdict = none; client = c }
    | some blob ↦ elim (sdk_parse_and_verify C (codes blob) c.edge_pub) [
      | none ↦ record { verdict = none; client = c }
      | some (valid, lease) ↦
          if valid
          then record {
            verdict = some (verdict active "online" lease);
            client = record c {
              last_lease = some lease;
              validation_token = token_of (get resp "validation_token" null);
            };
          }
          else record { verdict = some (verdict locked "lease_signature" []); client = c }
    ]
  ]

  -- Whether the cached lease is within its grace; an empty dict counts as no lease.
  unfoldable pub in_grace : ℕ → Option Dict → Option Bool
  in_grace now none = some false
  in_grace now (some []) = some false
  in_grace now (some (entry ∷ lease)) = do
    grace ← parse_value I (get (entry ∷ lease) "grace_until" null)
    elim grace [ none ↦ some false | some t ↦ some (ltb now t) ]

  abbrev pub lease_of : Option Dict → Dict
  lease_of none = []
  lease_of (some lease) = lease

  -- `_grace_or_lock`
  unfoldable pub grace_or_lock : ℕ → Client → String → Option Verdict
  grace_or_lock now c reason = do
    inside ← in_grace now c.last_lease
    if inside
        then some (verdict active "grace" (lease_of c.last_lease))
        else some (verdict locked reason [])

  -- `activate` from the reply on.
  unfoldable pub after_activate : Client → Reply → Answer
  after_activate c unreachable = record {
    verdict = some (verdict locked "network_error" []);
    client = c;
  }
  after_activate c failed = record { verdict = none; client = c }
  after_activate c (answered status resp) =
      if status == 200
      then accept c resp
      else if text_at resp "code" "" == "LICENSE_REVOKED"
      then record { verdict = some (verdict revoked "revoked" []); client = c }
      else record {
        verdict = some (verdict locked (text_at resp "code" "activate_failed") []);
        client = c;
      }

  -- What follows an answer that is not 200.
  unfoldable pub refused : ℕ → Client → String → Option Verdict
  refused now c code =
      if code == "LICENSE_REVOKED"
      then some (verdict revoked "revoked" [])
      else if is_definitive code
      then some (verdict locked (lower_code code) [])
      else grace_or_lock now c (if code == "" then "server_error" else code)

  -- `revalidate` from the reply on.
  unfoldable pub after_revalidate : ℕ → Client → Reply → Answer
  after_revalidate now c unreachable = record {
    verdict = grace_or_lock now c "network_error";
    client = c;
  }
  after_revalidate now c failed = record { verdict = none; client = c }
  after_revalidate now c (answered status resp) =
      if status == 200
      then accept c resp
      else record { verdict = refused now c (text_at resp "code" ""); client = c }

  module _ (post : String → Dict → Reply) where
    unfoldable pub activate :
        Client
        → String
        → String
        → Option String
        → Option String
        → List (String × String)
        → Option String
        → Answer
    activate c online_code fingerprint cluster_id install_id signals deployment_uid =
        after_activate c (
          post "/edge/v1/activate"
            (activate_body online_code fingerprint cluster_id install_id signals deployment_uid))

    unfoldable pub revalidate : ℕ → Client → String → Option String → Answer
    revalidate now c fingerprint install_id =
        if given c.validation_token
        then after_revalidate now c (
            post "/edge/v1/validate"
              (revalidate_body (text_of c.validation_token) fingerprint install_id))
        else record { verdict = some (verdict locked "not_activated" []); client = c }
