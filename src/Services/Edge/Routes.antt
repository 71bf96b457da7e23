-- ===== src/Services/Edge/Routes.antt =====
-- app/api/edge/v1/routes.py of Project-source/forge-server: the public endpoints with their rate limits.
-- The cache holds the counters beside the leases. `now` is the clock in seconds.
use Prim.Native.String.{◌++◌ as ◌<>◌}
use navtra_license.Prelude.{ℕ, List, Option, none, some, String, take_text, rate_limit_exceeded}
use navtra_license.Models.{SigningKey, master, edge_lease}
use navtra_license.World.{M, ◌>>=◌, ◌>>◌, pure}
use navtra_license.Services.External.{External, Settings}
use navtra_license.Services.Keys.{require_active}
use navtra_license.Services.Leases.{LeaseCache, Draws, Granted}
use navtra_license.Services.Edge.{Request, activate}
use navtra_license.Services.Edge.Validate.{validate}
use navtra_license.Services.Crl.{get_latest_blob}
use navtra_license.Admin.Limits.{Counters, hit}
use navtra_license.Admin.Access.{HttpRequest, audit_ctx}

-- `_ip`
abbrev pub ip_of : HttpRequest → String
ip_of q = elim q.client_host [ none ↦ "unknown" | some ip ↦ ip ]

pub record EdgeKeyOut : Type 0 where
  pub key_id : String
  pub alg : String
  pub public_key : String

abbrev edge_key_out : SigningKey → EdgeKeyOut
edge_key_out k = record { key_id = k.key_id; alg = k.alg; public_key = k.public_key }

module _ (X : External) (S : Settings) {R : Type 0} (L : LeaseCache R) (K : Counters R) where
  -- `RateLimiter().hit`, in a handler
  abbrev pub limited : String → ℕ → ℕ → ℕ → M R (Unit {0})
  limited key limit window now w =
      let answer = hit K key limit window rate_limit_exceeded now w.cache in
      (answer.0, record w { cache = answer.1 })

  unfoldable pub activate_route : ℕ → Draws → Request → HttpRequest → M R Granted
  activate_route now d body q = do
    limited ("edge_act_ip:" <> ip_of q) 20 60 now
    limited ("edge_act_code:" <> body.online_code) 10 60 now
    activate X S L d body (audit_ctx q)

  unfoldable pub validate_route : ℕ → Draws → String → String → Option String → M R Granted
  validate_route now d validation_token fingerprint install_id = do
    limited ("edge_val:" <> take_text 16 validation_token) 60 60 now
    validate X S L d validation_token fingerprint install_id

unfoldable pub crl_route : {R : Type 0} → M R (Option (List ℕ))
crl_route = get_latest_blob

unfoldable pub public_key_route : {R : Type 0} → M R (EdgeKeyOut × EdgeKeyOut)
public_key_route = do
  m ← require_active master
  e ← require_active edge_lease
  pure (edge_key_out m, edge_key_out e)
