-- ===== src/Licensing/Base64/Laws.antt =====
-- Round trip of the URL-safe base64 codec with its stripped padding.
use navtra_license.Prelude.{
  ℕ, suc, ◌+◌, ◌-◌, ◌*◌, ◌/◌, ◌%◌, ◌<◌, ◌≡◌, ◌≢◌, true, refl, false, some, List, [], ◌∷◌, ◌++◌,
  ◌==◌, nat_eq, arith, All, length,
}
use navtra_license.Licensing.Base64.{
  symbol, symbol_value, b64encode, Quad, q0, q1, q2, q3, place, a2b, rstrip, keep, pad_signs,
  b64u_encode, b64u_decode, is_pad, emit?, emit, all_ascii,
}

abbrev pub IsByte : ℕ → Type 0
IsByte b = b < 256

pub symbol_value-symbol : (i : ℕ) → i < 64 → symbol_value (symbol i) ≡ some i
unfolding symbol symbol_value
symbol_value-symbol i h = ground arith

symbol-not_pad : (i : ℕ) → (symbol i == b'=') ≡ false
unfolding symbol
symbol-not_pad i = ground arith

-- The characters with no padding.
raw : List ℕ → List ℕ
raw [] = []
raw (a ∷ []) = symbol (a / 4) ∷ symbol (a % 4 * 16) ∷ []
raw (a ∷ b ∷ []) = symbol (a / 4) ∷ symbol (a % 4 * 16 + b / 16) ∷ symbol (b % 16 * 4) ∷ []
raw (a ∷ b ∷ c ∷ rest) =
    symbol (a / 4)
    ∷ symbol (a % 4 * 16 + b / 16)
    ∷ symbol (b % 16 * 4 + c / 64)
    ∷ symbol (c % 64)
    ∷ raw rest

keep-symbol : (i : ℕ) (cs : List ℕ) → keep is_pad (symbol i) cs ≡ symbol i ∷ cs
unfolding keep
keep-symbol i [] = rw (symbol-not_pad i)
keep-symbol i (c ∷ cs) = refl

rstrip-b64encode : (bytes : List ℕ) → rstrip is_pad (b64encode bytes) ≡ raw bytes
unfolding rstrip b64encode raw nat_eq
rstrip-b64encode [] = refl
rstrip-b64encode (a ∷ []) = simp keep-symbol
rstrip-b64encode (a ∷ b ∷ []) = simp keep-symbol
rstrip-b64encode (a ∷ b ∷ c ∷ rest) = simp (keep-symbol, rstrip-b64encode rest)

-- Padding to a multiple of four brings the encoder's own padding back.
raw-pad_signs :
    (bytes : List ℕ) → raw bytes ++ pad_signs ((4 - length (raw bytes) % 4) % 4) ≡ b64encode bytes
unfolding raw pad_signs b64encode
raw-pad_signs [] = refl
raw-pad_signs (a ∷ []) = refl
raw-pad_signs (a ∷ b ∷ []) = refl
raw-pad_signs (a ∷ b ∷ c ∷ rest) =
    let same : (4 - suc (suc (suc (suc (length (raw rest))))) % 4) % 4
        ≡ (4 - length (raw rest) % 4) % 4 =
      omega arith in
    rw (same, raw-pad_signs rest)

a2b-symbol :
    (q : Quad) (i : ℕ) (cs : List ℕ)
    → i < 64
    → a2b q (symbol i ∷ cs) ≡ emit? (place q i).1 (a2b (place q i).0 cs)
unfolding a2b
a2b-symbol q i cs h = rw (symbol-not_pad i, symbol_value-symbol i h, a2b)

-- The last group has no more than its padding behind it.
a2b-tail_one : (left : ℕ) → a2b (q2 left 0) (b'=' ∷ b'=' ∷ []) ≡ some []
unfolding a2b nat_eq
a2b-tail_one left = refl

a2b-tail_two : (left : ℕ) → a2b (q3 left) (b'=' ∷ []) ≡ some []
unfolding a2b nat_eq
a2b-tail_two left = refl

a2b-b64encode : (bytes : List ℕ) → All IsByte bytes → a2b q0 (b64encode bytes) ≡ some bytes
unfolding b64encode place emit? emit
a2b-b64encode [] h = unfold a2b in refl
a2b-b64encode (a ∷ []) h =
    rw
      (
        a2b-symbol q0 (a / 4) _ (omega arith),
        a2b-symbol (q1 (a / 4)) (a % 4 * 16) _ (omega arith),
        a2b-tail_one,
      )
      (ground arith)
a2b-b64encode (a ∷ b ∷ []) h =
    rw
      (
        a2b-symbol q0 (a / 4) _ (omega arith),
        a2b-symbol (q1 (a / 4)) (a % 4 * 16 + b / 16) _ (omega arith),
        a2b-symbol (q2 ((a % 4 * 16 + b / 16) % 16) 0) (b % 16 * 4) _ (omega arith),
        a2b-tail_two,
      )
      (ground arith)
a2b-b64encode (a ∷ b ∷ c ∷ rest) h =
    rw
      (
        a2b-symbol q0 (a / 4) _ (omega arith),
        a2b-symbol (q1 (a / 4)) (a % 4 * 16 + b / 16) _ (omega arith),
        a2b-symbol (q2 ((a % 4 * 16 + b / 16) % 16) 0) (b % 16 * 4 + c / 64) _ (omega arith),
        a2b-symbol (q3 ((b % 16 * 4 + c / 64) % 4)) (c % 64) _ (omega arith),
        a2b-b64encode rest h.1.1.1,
      )
      (ground arith)

-- The characters that the encoder writes are in ASCII, and are neither a dot nor white space.
abbrev pub IsPlain : ℕ → Type 0
IsPlain c = (32 < c) × (c < 128) × (c ≢ b'.')

symbol-IsPlain : (i : ℕ) → i < 64 → IsPlain (symbol i)
unfolding symbol
symbol-IsPlain i h = ground arith

raw-IsPlain : (bytes : List ℕ) → All IsByte bytes → All IsPlain (raw bytes)
unfolding raw
raw-IsPlain [] h = tt
raw-IsPlain (a ∷ []) h = (symbol-IsPlain _ (omega arith), (symbol-IsPlain _ (omega arith), tt))
raw-IsPlain (a ∷ b ∷ []) h = (
  symbol-IsPlain _ (omega arith),
  (symbol-IsPlain _ (omega arith), (symbol-IsPlain _ (omega arith), tt)),
)
raw-IsPlain (a ∷ b ∷ c ∷ rest) h = (
  symbol-IsPlain _ (omega arith),
  (
    symbol-IsPlain _ (omega arith),
    (symbol-IsPlain _ (omega arith), (symbol-IsPlain _ (omega arith), raw-IsPlain rest h.1.1.1)),
  ),
)

all_ascii-IsPlain : (cs : List ℕ) → All IsPlain cs → all_ascii cs ≡ true
unfolding all_ascii
all_ascii-IsPlain [] h = refl
all_ascii-IsPlain (c ∷ cs) (h, hs) = ground (arith, all_ascii-IsPlain cs hs)

pub b64u_encode-IsPlain : (bytes : List ℕ) → All IsByte bytes → All IsPlain (b64u_encode bytes)
unfolding b64u_encode
b64u_encode-IsPlain bytes h = rw (rstrip-b64encode bytes) (raw-IsPlain bytes h)

-- Decoding the encoding of a list of bytes gives it back, though the encoder drops the padding.
pub b64u_decode-b64u_encode :
    (bytes : List ℕ) → All IsByte bytes → b64u_decode (b64u_encode bytes) ≡ some bytes
unfolding b64u_decode b64u_encode
b64u_decode-b64u_encode bytes h =
    rw
      (
        rstrip-b64encode bytes,
        all_ascii-IsPlain (raw bytes) (raw-IsPlain bytes h),
        raw-pad_signs bytes,
      )
      (a2b-b64encode bytes h)
