-- ===== src/Licensing/Token.antt =====
-- The signed token `<base64url(payload)>.<base64url(signature)>`: app/licensing/forge_file.py and
-- `verify_ed25519` of app/core/crypto.py in Project-source/forge-server, and their copy in
-- verifier-sdk/python/forge_verifier/_token.py. Texts and bytes are lists of numbers.
pub mod Laws
use navtra_license.Prelude.{
  ℕ, Bool, true, false, ◌||◌, ◌&&◌, Option, none, some, List, [], ◌∷◌, ◌++◌, String, leb, ◌==◌,
  contains, nat_eq, string_eq, if◌then◌else◌,
}
use navtra_license.Licensing.Base64.{b64u_encode, b64u_decode, rstrip}

-- Values of a payload: `strs` is a list and `pairs` a dict of texts, `other` the JSON text of any
-- other list or dict.
pub data Json : Type 0 where
  null : Json
  str : String → Json
  num : ℕ → Json
  strs : List String → Json
  pairs : List (String × String) → Json
  other : String → Json

abbrev pub Dict : Type 0
Dict = List (String × Json)

-- `payload.get(key, default)`
unfoldable pub get : Dict → String → Json → Json
get [] key default = default
get ((k, v) ∷ d) key default = let rest = get d key default in if k == key then v else rest

-- What the token rests on outside the repository: the JSON codec with sorted keys, key files and
-- Ed25519. `loads` fails on a text that is no JSON object, `load_pem` on a key that is not Ed25519.
pub record Codec : Type 1 where
  pub dumps : Dict → List ℕ
  pub loads : List ℕ → Option Dict
  pub PublicKey : Type 0
  pub load_pem : String → Option PublicKey
  pub verifies : PublicKey → List ℕ → List ℕ → Bool

-- The characters that `str.strip` removes.
abbrev pub is_space : ℕ → Bool
is_space c =
    (leb 9 c && leb c 13)
    || (leb 28 c && leb c 32)
    || contains (0x85 ∷ 0xa0 ∷ 0x1680 ∷ 0x2028 ∷ 0x2029 ∷ 0x202f ∷ 0x205f ∷ 0x3000 ∷ []) c
    || (leb 0x2000 c && leb c 0x200a)

lstrip : List ℕ → List ℕ
lstrip [] = []
lstrip (c ∷ cs) = let rest = lstrip cs in if is_space c then rest else c ∷ cs

unfoldable pub strip : List ℕ → List ℕ
unfolding lstrip rstrip
strip s = lstrip (rstrip is_space s)

begin_with : ℕ → List (List ℕ) → List (List ℕ)
begin_with c [] = (c ∷ []) ∷ []
begin_with c (part ∷ parts) = (c ∷ part) ∷ parts

-- `s.split(".")`
unfoldable pub split_dots : List ℕ → List (List ℕ)
unfolding begin_with
split_dots [] = [] ∷ []
split_dots (c ∷ cs) = let rest = split_dots cs in if c == b'.' then [] ∷ rest else begin_with c rest

-- A chain of steps of which each may raise: `none` is an exception.
infixl 5 ◌>>=◌
abbrev pub ◌>>=◌ {ℓ κ} : {A : Type ℓ} {B : Type κ} → Option A → (A → Option B) → Option B
none >>= f = none
some a >>= f = f a

-- `len(parts) != 2` is an error.
abbrev pub two_parts : List (List ℕ) → Option (List ℕ × List ℕ)
two_parts (a ∷ b ∷ []) = some (a, b)
two_parts _ = none

module _ (C : Codec) where
  unfoldable pub build_forge_blob : Dict → List ℕ → List ℕ
  build_forge_blob payload signature =
      b64u_encode (C.dumps payload) ++ (b'.' ∷ b64u_encode signature)

  -- `verify_ed25519` loads the key, and asserts its kind, each time.
  unfoldable pub verify_ed25519 : String → List ℕ → List ℕ → Option Bool
  verify_ed25519 public_pem message signature = do
    key ← C.load_pem public_pem
    some (C.verifies key signature message)

  -- `parse_and_verify` of forge_file.py: `none` is an exception.
  unfoldable pub parse_and_verify : List ℕ → String → Option (Bool × Dict)
  unfolding strip split_dots verify_ed25519
  parse_and_verify blob public_pem = do
    parts ← two_parts (split_dots (strip blob))
    payload_bytes ← b64u_decode parts.0
    signature ← b64u_decode parts.1
    payload ← C.loads payload_bytes
    valid ← verify_ed25519 public_pem payload_bytes signature
    some (valid, payload)

  -- The copy in the SDK's _token.py, which loads the key itself.
  unfoldable pub sdk_parse_and_verify : List ℕ → String → Option (Bool × Dict)
  unfolding strip split_dots
  sdk_parse_and_verify blob public_pem = do
    parts ← two_parts (split_dots (strip blob))
    payload_bytes ← b64u_decode parts.0
    signature ← b64u_decode parts.1
    payload ← C.loads payload_bytes
    key ← C.load_pem public_pem
    if C.verifies key signature payload_bytes then some (true, payload) else some (false, payload)
