-- ===== src/Sdk/Facade.antt =====
-- verifier-sdk/python/forge_verifier: the class of __init__.py, the embedded keys of keys.py and the
-- command line of cli.py. What the class does with the clock, the disk and the network are arguments.
pub mod Laws
use navtra_license.Prelude.{
  ℕ, Bool, true, false, ◌||◌, List, [], ◌∷◌, Option, none, some, String, codes, is_none, ◌==◌,
  string_eq, if◌then◌else◌,
}
use navtra_license.Licensing.Token.{
  Json, str, num, strs, pairs, null, other, Dict, get, Codec, sdk_parse_and_verify,
}
use navtra_license.Sdk.Host.{Host, filled}
use navtra_license.Sdk.Fingerprint.{
  dev_env, deployment_uid, deployment_fingerprint, collect_signals, ensure_install_id,
}
use navtra_license.Sdk.Verifier.{
  Verdict, VerdictStatus, Iso, unlocked, verify_offline, given, message,
}
use navtra_license.Sdk.Online.{Client, Answer, Reply, new_client, activate, revalidate}

-- `embedded_keys.json`: the two public keys, where it has them.
pub record EmbeddedKeys : Type 0 where
  pub master : Option String
  pub edge_lease : Option String

-- `_load` of keys.py: the override counts in development only; none where it raises. `parse` is the
-- JSON text of the override.
unfoldable pub load_keys :
    (String → Option EmbeddedKeys) → Host → Option EmbeddedKeys → Option EmbeddedKeys
load_keys parse h baked = elim (filled (h.env dev_env)) [
  | none ↦ baked
  | some dev ↦ elim (filled (h.env "FORGE_EMBEDDED_KEYS")) [ none ↦ baked | some text ↦ parse text ]
]

-- `ForgeVerifier`
pub record ForgeVerifier : Type 0 where
  pub master_pub : String
  pub edge_pub : String
  pub fingerprint : String
  pub deployment_uid : Option String
  pub signals : List (String × String)
  pub install_id : String
  pub online : Option Client

abbrev key_pair : Option EmbeddedKeys → Option (String × String)
key_pair none = none
key_pair (some keys) = elim keys.master [
  | none ↦ none
  | some m ↦ elim keys.edge_lease [ none ↦ none | some e ↦ some (m, e) ]
]

-- `__init__`: none where a key is missing.
unfoldable pub new_verifier :
    (String → String)
    → Host
    → Option EmbeddedKeys
    → Option String
    → String
    → String
    → String
    → Option ForgeVerifier
new_verifier sha256 h keys edge_url install_id_path first second = elim (key_pair keys) [
  | none ↦ none
  | some (m, e) ↦ some (record {
    master_pub = m;
    edge_pub = e;
    fingerprint = deployment_fingerprint sha256 h;
    deployment_uid = deployment_uid h;
    signals = collect_signals sha256 h;
    install_id = (ensure_install_id h install_id_path first second).id;
    online = elim (filled edge_url) [ none ↦ none | some url ↦ some (new_client e) ];
  })
]

abbrev pub string_list : Json → Option (List String)
string_list (strs ss) = some ss
string_list _ = none

module _ (I : Iso) (C : Codec) where
  -- `verify_offline` of the class, at the instant `now`
  unfoldable pub verify_here : ForgeVerifier → List ℕ → List String → ℕ → Option Verdict
  verify_here v blob revoked_license_ids now =
      let outcome = verify_offline I C (record {
        blob = blob;
        master_public_pem = v.master_pub;
        local_fingerprint = v.fingerprint;
        revoked_license_ids = revoked_license_ids;
        now = now;
        state = none;
        crl_version = none;
        crl_generated_at = none;
        max_crl_age_days = none;
        clock_skew_minutes = 10;
      }) in
      outcome.verdict

  -- The entries of a list that a vendor signed.
  unfoldable pub crl_entries : Dict → Option (List String)
  crl_entries payload = elim (get payload "kind" null) [
    | str kind ↦ if kind == "crl" then string_list (get payload "revoked" (strs [])) else some []
    | _ ↦ some []
  ]

  -- `revoked_from_crl`: none where `set(…)` gets no list.
  unfoldable pub revoked_from_crl : ForgeVerifier → List ℕ → Option (List String)
  unfolding crl_entries
  revoked_from_crl v crl_blob = elim (sdk_parse_and_verify C crl_blob v.master_pub) [
    | none ↦ some []
    | some (valid, payload) ↦ if valid then crl_entries payload else some []
  ]

  module _ (post : String → Dict → Reply) where
    -- `activate_online`: none where no edge is configured, which raises.
    unfoldable pub activate_online : ForgeVerifier → String → Option String → Option Answer
    activate_online v online_code cluster_id = elim v.online [
      | none ↦ none
      | some client ↦ some (
          activate I C post client online_code v.fingerprint cluster_id (some v.install_id)
            v.signals v.deployment_uid)
    ]

    unfoldable pub revalidate_here : ForgeVerifier → ℕ → Option Answer
    revalidate_here v now = elim v.online [
      | none ↦ none
      | some client ↦ some (revalidate I C post now client v.fingerprint (some v.install_id))
    ]

-- What `main` of cli.py does with its arguments; `file_text` is the stripped text of a file, where it
-- can be read.
pub data CliRun : Type 0 where
  prints_help : ℕ → CliRun
  prints_fingerprint : CliRun
  verdict_of : List ℕ → CliRun

unfoldable pub cli_run : (String → Option String) → List String → CliRun
cli_run file_text [] = prints_help 0
cli_run file_text (cmd ∷ rest) =
    if cmd == "-h" || cmd == "--help"
    then prints_help 0
    else (if cmd == "fingerprint" then prints_fingerprint else (elim rest [
      | [] ↦ prints_help 2
      | blob ∷ more ↦
          if cmd == "offline"
          then (elim (file_text blob) [
            | none ↦ verdict_of (codes blob)
            | some text ↦ verdict_of (codes text)
          ])
          else prints_help 2
    ]))

-- The exit code: `return 0 if v.unlocked else 1`.
abbrev pub exit_code : Verdict → ℕ
exit_code v = if unlocked v.status then 0 else 1
