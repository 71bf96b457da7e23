-- ===== src/Sdk/Host.antt =====
-- The host that verifier-sdk/python/forge_verifier/fingerprint.py looks at, and the operations on texts
-- that it uses.
use Prim.Native.Char.{code}
use Prim.Native.String
use Prim.Native.String.{◌++◌ as ◌<>◌}
use navtra_license.Prelude.{
  ℕ, zero, suc, ◌/◌, ◌%◌, Bool, true, false, ◌&&◌, ◌||◌, List, [], ◌∷◌, Option, none, some, String,
  leb, contains, codes, ◌==◌, nat_eq, string_eq, if◌then◌else◌,
}

-- The environment; what a path names: whether it is there, whether it is a file, and its text, none
-- where reading raises `OSError`; the platform; the lines that `ioreg` prints and the value of
-- `MachineGuid`, none where asking for them raises.
pub record Host : Type 0 where
  pub env : String → Option String
  pub exists : String → Bool
  pub is_file : String → Bool
  pub read : String → Option String
  pub system : String
  pub machine : String
  pub processor : String
  pub cpu_count : String
  pub node : String
  pub getnode : ℕ
  pub ioreg_lines : Option (List String)
  pub machine_guid : Option String

-- What `str.isspace` takes.
abbrev pub is_space : ℕ → Bool
is_space c =
    (leb 9 c && leb c 13)
    || ((leb 28 c && leb c 32)
        || ((leb 8192 c && leb c 8202)
            || contains (133 ∷ 160 ∷ 5760 ∷ 8232 ∷ 8233 ∷ 8239 ∷ 8287 ∷ 12288 ∷ []) c))

unfoldable pub strip_left : (ℕ → Bool) → String → String
strip_left p String.[] = ""
strip_left p (String.◌∷◌ c s) =
    let rest = strip_left p s in if p (code c) then rest else String.◌∷◌ c s

unfoldable pub strip_right : (ℕ → Bool) → String → String
strip_right p String.[] = ""
strip_right p (String.◌∷◌ c s) =
    let rest = strip_right p s in if p (code c) && rest == "" then "" else String.◌∷◌ c rest

-- `s.strip()` and `s.strip(chars)`
abbrev pub strip_chars : (ℕ → Bool) → String → String
strip_chars p s = strip_right p (strip_left p s)

unfoldable starts_with : List ℕ → List ℕ → Bool
starts_with [] s = true
starts_with (p ∷ ps) [] = false
starts_with (p ∷ ps) (c ∷ s) = p == c && starts_with ps s

-- `part in text`
unfoldable has_part : List ℕ → List ℕ → Bool
unfolding starts_with
has_part part [] = starts_with part []
has_part part (c ∷ s) = starts_with part (c ∷ s) || has_part part s

unfoldable pub in_text : String → String → Bool
unfolding has_part
in_text part text = has_part (codes part) (codes text)

-- `line.split("=")[-1]`
unfoldable pub after_last : ℕ → String → String → String
after_last sep kept String.[] = kept
after_last sep kept (String.◌∷◌ c s) =
    let fresh = after_last sep s s in
    let same = after_last sep kept s in if code c == sep then fresh else same

hex_digit : ℕ → String
hex_digit n = String.◌∷◌ (String.char_at "0123456789abcdef" n) ""

-- The last `digits` hexadecimal digits of a number: all of them for a number below 16 ^ digits.
unfoldable pub hex : ℕ → ℕ → String
unfolding hex_digit
hex zero n = ""
hex (suc digits) n = hex digits (n / 16) <> hex_digit (n % 16)

-- The truth of a text, and of an optional one.
abbrev pub filled : Option String → Option String
filled none = none
filled (some s) = if s == "" then none else some s
