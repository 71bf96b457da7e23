-- ===== src/Tests/Token.antt =====
-- The token and base64url on concrete bytes.
use navtra_license.Prelude.{ℕ, ◌≡◌, refl, true, List, [], ◌∷◌, some, All, text_eq, arith}
use navtra_license.Tests.{payload0, codec0}
use navtra_license.Licensing.Base64.Laws.{IsByte}
use navtra_license.Licensing.Token.{build_forge_blob, parse_and_verify, sdk_parse_and_verify}
use navtra_license.Licensing.Token.Laws.{parse_and_verify-build_forge_blob, sdk_parse_and_verify-eq}

pub message_bytes : All IsByte (123 ∷ 125 ∷ [])
message_bytes = (omega arith, (omega arith, tt))

pub signature_bytes : All IsByte (9 ∷ 123 ∷ 125 ∷ [])
signature_bytes = (omega arith, (omega arith, (omega arith, tt)))

abbrev pub blob0 : List ℕ
blob0 = build_forge_blob codec0 payload0 (9 ∷ 123 ∷ 125 ∷ [])

blob_example : parse_and_verify codec0 blob0 "pem" ≡ some (true, payload0)
unfolding text_eq
blob_example =
    parse_and_verify-build_forge_blob codec0 payload0 (9 ∷ 123 ∷ 125 ∷ []) "pem" "pem" refl
      message_bytes signature_bytes refl

-- The same, for other proofs.
pub blob0_reads : parse_and_verify codec0 blob0 "pem" ≡ some (true, payload0)
unfolding text_eq
blob0_reads =
    parse_and_verify-build_forge_blob codec0 payload0 (9 ∷ 123 ∷ 125 ∷ []) "pem" "pem" refl
      message_bytes signature_bytes refl

readers_example : sdk_parse_and_verify codec0 blob0 "pem" ≡ parse_and_verify codec0 blob0 "pem"
readers_example = sdk_parse_and_verify-eq codec0 blob0 "pem"
