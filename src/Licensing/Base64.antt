-- ===== src/Licensing/Base64.antt =====
-- `_b64u_encode` and `_b64u_decode` of Project-source/forge-server/app/licensing/forge_file.py over
-- the standard library's base64: the encoder, and the lenient decoder of `binascii.a2b_base64`.
pub mod Laws
use navtra_license.Prelude.{
  ℕ, zero, suc, ◌+◌, ◌-◌, ◌*◌, ◌/◌, ◌%◌, Bool, true, false, ◌&&◌, ◌||◌, Option, none, some, List,
  [], ◌∷◌, ◌++◌, ltb, leb, ◌==◌, nat_eq, if◌then◌else◌, length,
}

-- The URL-safe alphabet.
pub symbol : ℕ → ℕ
symbol i =
    if ltb i 26
    then 65 + i
    else if ltb i 52
    then 71 + i
    else if ltb i 62
    then i - 4
    else if i == 62
    then b'-'
    else b'_'

-- `urlsafe_b64decode` maps `-_` to `+/` first, so both spellings are read.
pub symbol_value : ℕ → Option ℕ
symbol_value c =
    if leb 65 c && leb c 90
    then some (c - 65)
    else if leb 97 c && leb c 122
    then some (c - 71)
    else if leb 48 c && leb c 57
    then some (c + 4)
    else if (c == b'-') || (c == b'+')
    then some 62
    else if (c == b'_') || (c == b'/')
    then some 63
    else none

-- `base64.urlsafe_b64encode`
pub b64encode : List ℕ → List ℕ
unfolding symbol
b64encode [] = []
b64encode (a ∷ []) = symbol (a / 4) ∷ symbol (a % 4 * 16) ∷ b'=' ∷ b'=' ∷ []
b64encode (a ∷ b ∷ []) =
    symbol (a / 4) ∷ symbol (a % 4 * 16 + b / 16) ∷ symbol (b % 16 * 4) ∷ b'=' ∷ []
b64encode (a ∷ b ∷ c ∷ rest) =
    symbol (a / 4)
    ∷ symbol (a % 4 * 16 + b / 16)
    ∷ symbol (b % 16 * 4 + c / 64)
    ∷ symbol (c % 64)
    ∷ b64encode rest

-- The decoder's place in a group of four, and the bits that it holds over.
pub data Quad : Type 0 where
  q0 : Quad
  q1 : ℕ → Quad
  q2 : ℕ → ℕ → Quad
  q3 : ℕ → Quad

emit : ℕ → Option (List ℕ) → Option (List ℕ)
emit byte none = none
emit byte (some bytes) = some (byte ∷ bytes)

-- One character of the alphabet: the next place, with the byte that is complete.
pub place : Quad → ℕ → Quad × Option ℕ
place q0 v = (q1 v, none)
place (q1 left) v = (q2 (v % 16) 0, some (left * 4 + v / 16))
place (q2 left pads) v = (q3 (v % 4), some (left * 16 + v / 4))
place (q3 left) v = (q0, some (left * 64 + v))

emit? : Option ℕ → Option (List ℕ) → Option (List ℕ)
unfolding emit
emit? none r = r
emit? (some byte) r = emit byte r

-- The rest of a text after `=` signs: a second one ends the text at place 2, the first at place 3;
-- at an earlier place it is passed over.
pub data Padding : Type 0 where
  finished : Padding
  go_on : Quad → Padding

pub pad : Quad → Padding
pad q0 = go_on q0
pad (q1 left) = go_on (q1 left)
pad (q2 left zero) = go_on (q2 left 1)
pad (q2 left (suc pads)) = finished
pad (q3 left) = finished

finish : Quad → Option (List ℕ)
finish q0 = some []
finish (q1 left) = none
finish (q2 left pads) = none
finish (q3 left) = none

-- `binascii.a2b_base64`, not strict: `none` is `binascii.Error`.
pub a2b : Quad → List ℕ → Option (List ℕ)
unfolding emit? place pad finish symbol_value
a2b q [] = finish q
a2b q (c ∷ cs) = elim (c == b'=') [
  | true ↦ elim (pad q) [ finished ↦ some [] | go_on q' ↦ a2b q' cs ]
  | false ↦ elim (symbol_value c) [
    | none ↦ a2b q cs
    | some v ↦ emit? (place q v).1 (a2b (place q v).0 cs)
  ]
]

-- `str.rstrip` of the characters that pass a test.
keep : (ℕ → Bool) → ℕ → List ℕ → List ℕ
keep p c [] = if p c then [] else c ∷ []
keep p c (d ∷ ds) = c ∷ d ∷ ds

unfoldable pub rstrip : (ℕ → Bool) → List ℕ → List ℕ
unfolding keep
rstrip p [] = []
rstrip p (c ∷ cs) = keep p c (rstrip p cs)

abbrev pub is_pad : ℕ → Bool
is_pad c = c == b'='

-- `"=" * n`
unfoldable pub pad_signs : ℕ → List ℕ
pad_signs zero = []
pad_signs (suc n) = b'=' ∷ pad_signs n

unfoldable pub b64u_encode : List ℕ → List ℕ
unfolding b64encode rstrip
b64u_encode bytes = rstrip is_pad (b64encode bytes)

all_ascii : List ℕ → Bool
all_ascii [] = true
all_ascii (c ∷ cs) = ltb c 128 && all_ascii cs

-- `-len(s) % 4` is never negative in Python. A text outside ASCII is a `ValueError`.
unfoldable pub b64u_decode : List ℕ → Option (List ℕ)
unfolding a2b pad_signs all_ascii
b64u_decode s = if all_ascii s then a2b q0 (s ++ pad_signs ((4 - length s % 4) % 4)) else none
