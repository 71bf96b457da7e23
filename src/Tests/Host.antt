-- ===== src/Tests/Host.antt =====
-- The facade of the SDK on one host.
use navtra_license.Prelude.{
  ◌≡◌, refl, ◌∙◌, true, false, [], ◌∷◌, none, some, text_eq, ◌==◌, string_eq, if◌then◌else◌,
}
use navtra_license.Licensing.Token.{
  Codec, Dict, str, strs, null, get, sdk_parse_and_verify, build_forge_blob,
}
use navtra_license.Licensing.Token.Laws.{parse_and_verify-build_forge_blob, sdk_parse_and_verify-eq}
use navtra_license.Sdk.Host.{Host}
use navtra_license.Sdk.Fingerprint.{in_dev}
use navtra_license.Sdk.Fingerprint.Laws.{inject}
use navtra_license.Sdk.Facade.{
  EmbeddedKeys, ForgeVerifier, load_keys, new_verifier, revoked_from_crl, crl_entries,
}
use navtra_license.Sdk.Facade.Laws.{verdict_of_new, inject-verdict, revoked_from_crl-signed}
use navtra_license.Tests.{codec0}
use navtra_license.Tests.Token.{blob0, message_bytes, signature_bytes}
use navtra_license.Tests.Sdk.{iso0}

abbrev host0 : Host
host0 = record {
  env = λ name. none;
  exists = λ path. false;
  is_file = λ path. path == "/etc/machine-id";
  read = λ path. if path == "/etc/machine-id" then some "machine\\n" else none;
  system = "Linux";
  machine = "x86_64";
  processor = "";
  cpu_count = "4";
  node = "host";
  getnode = 1;
  ioreg_lines = none;
  machine_guid = none;
}

abbrev keys0 : EmbeddedKeys
keys0 = record { master = some "pem"; edge_lease = some "edge" }

shipped0 : in_dev host0 ≡ false
unfolding in_dev
shipped0 = refl

spoof_example :
    verdict_of_new iso0 codec0
      (λ s. s)
      blob0
      []
      3
      (new_verifier
        (λ s. s)
        (inject (some "stolen") (some "{}") host0)
        (load_keys (λ s. none) (inject (some "stolen") (some "{}") host0) (some keys0))
        none
        "/id"
        "a"
        "b")
    ≡ verdict_of_new iso0 codec0
        (λ s. s)
        blob0
        []
        3
        (new_verifier (λ s. s) host0 (load_keys (λ s. none) host0 (some keys0)) none "/id" "a" "b")
spoof_example =
    inject-verdict iso0 codec0 (λ s. s) blob0 [] 3 (λ s. none) (some keys0) none "/id" "a" "b"
      (some "stolen") (some "{}") host0 shipped0

abbrev list0 : Dict
list0 = ("kind", str "crl") ∷ ("revoked", strs ("x" ∷ [])) ∷ []

abbrev codec2 : Codec
codec2 = record codec0 { loads = λ _. some list0 }

abbrev verifier0 : ForgeVerifier
verifier0 = record {
  master_pub = "pem";
  edge_pub = "edge";
  fingerprint = "fp";
  deployment_uid = none;
  signals = [];
  install_id = "id";
  online = none;
}

list_reads : sdk_parse_and_verify codec2 blob0 "pem" ≡ some (true, list0)
unfolding text_eq build_forge_blob
list_reads =
    sdk_parse_and_verify-eq codec2 blob0 "pem"
    ∙ parse_and_verify-build_forge_blob codec2 list0 (9 ∷ 123 ∷ 125 ∷ []) "pem" "pem" refl
        message_bytes signature_bytes refl

entries0 : crl_entries iso0 codec2 list0 ≡ some ("x" ∷ [])
unfolding crl_entries get string_eq
entries0 = refl

answers0 : revoked_from_crl iso0 codec2 verifier0 blob0 ≡ some ("x" ∷ [])
unfolding revoked_from_crl
answers0 = rw (revoked_from_crl, list_reads) entries0

-- The answer, read back from the blob.
listed0 :
    (payload : Dict) × (sdk_parse_and_verify codec2 blob0 "pem" ≡ some (true, payload))
    × (get payload "kind" null ≡ str "crl")
    × (get payload "revoked" (strs []) ≡ strs ("x" ∷ []))
listed0 = (revoked_from_crl-signed iso0 codec2 verifier0 blob0 "x" []).0 answers0
