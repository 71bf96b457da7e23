-- ===== src/Prelude/Text.antt =====
-- Texts as lists of code points, where the program looks into them. `str.lower` is that of ASCII.
use Prim.Native.Nat.{ℕ, zero, suc, ◌+◌, ◌-◌, ◌/◌, ◌%◌}
use Prim.Native.Char.{Char, code}
use Prim.Native.String
use Prim.Native.String.{String, ◌++◌ as ◌<>◌}
use mathlib.Core.Bool.{true, false, ◌&&◌}
use mathlib.Core.List.{List, [], ◌∷◌, map}
use native.Mathlib.Decide.{ℕ_discrete}
use navtra_license.Prelude.Tests.{ltb, leb, if◌then◌else◌}
use navtra_license.Prelude.Lists.{length, drop}
use navtra_license.Prelude.Equality.{Eq}

-- The code points of a text.
abbrev pub codes : String → List ℕ
codes String.[] = []
codes (String.◌∷◌ c s) = code c ∷ codes s

abbrev pub lower_char : ℕ → ℕ
lower_char c = if leb 65 c && leb c 90 then c + 32 else c

unfoldable pub lower : List ℕ → List ℕ
lower s = map lower_char s

-- `s[-n:]`
abbrev pub last : ℕ → List ℕ → List ℕ
last n s = drop (length s - n) s

text_dec : Discrete (List ℕ)
text_dec = hlevel ℕ_discrete

instance unfoldable pub text_eq : Eq (List ℕ)
unfolding text_dec ℕ_discrete
text_eq = record { dec = text_dec }

-- The letter of a small alphabet at the place of a capital; `str.lower` on a text that is compared.
unfoldable pub lower_letter : Char → Char
lower_letter c =
    if leb 65 (code c) && leb (code c) 90
    then String.char_at "abcdefghijklmnopqrstuvwxyz" (code c - 65)
    else c

unfoldable pub lower_text : String → String
unfolding lower_letter
lower_text String.[] = ""
lower_text (String.◌∷◌ c s) = String.◌∷◌ (lower_letter c) (lower_text s)

digit : ℕ → String
digit n = String.◌∷◌ (String.char_at "0123456789" n) ""

digits : ℕ → ℕ → String
unfolding digit
digits zero n = ""
digits (suc fuel) n = elim (ltb n 10) [
  | true ↦ digit n
  | false ↦ digits fuel (n / 10) <> digit (n % 10)
]

-- `str(n)`: a number has at most as many digits as it is large, and one more.
pub decimal : ℕ → String
unfolding digits
decimal n = digits (suc n) n

-- `s[:n]`
pub take_text : ℕ → String → String
take_text zero s = ""
take_text (suc n) String.[] = ""
take_text (suc n) (String.◌∷◌ c s) = String.◌∷◌ c (take_text n s)
