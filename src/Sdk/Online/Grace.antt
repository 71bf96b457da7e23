-- ===== src/Sdk/Online/Grace.antt =====
-- For how long a cached lease unlocks the product when forge-edge does not grant a renewal.
use navtra_license.Prelude.{◌≢◌, List, [], ◌∷◌, String, string_eq, nat_eq, All}
use navtra_license.Sdk.Online.{Reply, unreachable, answered, failed, text_at}

-- The replies that are no exception and not a success.
abbrev pub IsRefusal : Reply → Type 0
IsRefusal unreachable = Unit
IsRefusal failed = ⊥
IsRefusal (answered status resp) = status ≢ 200

-- The codes that say that the license has ended here.
abbrev pub final_codes : List String
final_codes =
    "LICENSE_REVOKED" ∷ "LICENSE_EXPIRED" ∷ "LICENSE_BINDING_MISMATCH" ∷ "LICENSE_LEASE_EXPIRED"
    ∷ "RESOURCE_NOT_FOUND" ∷ []

-- The replies that are none at all, or carry another code.
abbrev pub Unsettled : Reply → Type 0
Unsettled unreachable = Unit
Unsettled failed = ⊥
Unsettled (answered status resp) = All (λ code. text_at resp "code" "" ≢ code) final_codes
