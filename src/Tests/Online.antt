-- ===== src/Tests/Online.antt =====
-- The online client: an activation, a rejection, and an unreachable server.
use navtra_license.Prelude.{
  ◌≡◌, refl, ◌∙◌, ap, true, [], ◌∷◌, some, arith, codes, string_eq, nat_eq, String,
}
use navtra_license.Licensing.Token.{Dict, str, null, get, sdk_parse_and_verify, build_forge_blob}
use navtra_license.Licensing.Base64.{b64u_encode}
use navtra_license.Sdk.Verifier.{verdict, active, unlocked}
use navtra_license.Sdk.Online.{Client, answered, new_client, token_of, accept, after_activate}
use navtra_license.Sdk.Online.Laws.{activates, call, run, Signed, run_unlocked-Signed}
use navtra_license.Tests.{payload0, codec0}
use navtra_license.Tests.Token.{blob0}
use navtra_license.Tests.Sdk.{iso0, reads}

abbrev body0 : Dict
body0 = ("lease_token", str "e30.CXt9") ∷ ("validation_token", str "token") ∷ []

same_blob : codes "e30.CXt9" ≡ blob0
unfolding build_forge_blob b64u_encode nat_eq
same_blob = refl

accept_signed :
    (b : String) (c : Client) (resp : Dict)
    → token_of (get resp "lease_token" null) ≡ some b
    → sdk_parse_and_verify codec0 (codes b) c.edge_pub ≡ some (true, payload0)
    → (accept iso0 codec0 c resp).verdict ≡ some (verdict active "online" payload0)
unfolding accept
accept_signed b c resp token read = ground arith

token0 : token_of (get body0 "lease_token" null) ≡ some "e30.CXt9"
unfolding token_of get string_eq
token0 = refl

accepted :
    (call iso0 codec0
      (run iso0 codec0 (new_client "pem") [])
      (activates (answered 200 body0))).verdict
    ≡ some (verdict active "online" payload0)
unfolding after_activate nat_eq run new_client
accepted =
    accept_signed "e30.CXt9" (new_client "pem") body0 token0
      (ap (λ b. sdk_parse_and_verify codec0 b "pem") same_blob ∙ reads)

unlocks : unlocked active ≡ true
unfolding unlocked
unlocks = refl

signed_example : Signed iso0 codec0 "pem" payload0
signed_example =
    run_unlocked-Signed iso0 codec0 "pem" [] (activates (answered 200 body0))
      (verdict active "online" payload0) accepted unlocks

abbrev rejection : Dict
rejection = ("code", str "LICENSE_REVOKED") ∷ []

abbrev lease0 : Dict
lease0 = ("grace_until", str "later") ∷ []

abbrev client0 : Client
client0 = record { edge_pub = "pem"; last_lease = some lease0; validation_token = some "token" }
