-- ===== src/Prelude/Texts.antt =====
-- The functions of Go's `strings` package that the program calls on whole texts.
use Prim.Native.Nat.{ℕ}
use Prim.Native.Char.{Char, code}
use Prim.Native.String.{String, len, ◌++◌}
use mathlib.Core.Bool.{Bool, false, ◌&&◌, ◌||◌}
use text.Mathlib.Text.{◌==◌}
use mathlib.Core.Path.{◌≡◌, refl}
use mathlib.Core.Logic.{inl, inr}
use shadow_relay.Prelude.Tests.{Bool-cases, eqb, leb, if◌then◌else◌}

-- `len` of a string counts bytes.
abbrev pub byte_len : String → ℕ
byte_len s = len s

infixr 66 ◌<>◌
abbrev pub ◌<>◌ : String → String → String
s <> t = s ++ t

-- `unicode.IsSpace` below U+0100.
abbrev is_space : Char → Bool
is_space c =
    (leb 9 (code c) && leb (code c) 13) || eqb (code c) 32 || eqb (code c) 133 || eqb (code c) 160

unfoldable pub trim_left : String → String
trim_left String.[] = ""
trim_left (String.◌∷◌ c s) = if is_space c then trim_left s else String.◌∷◌ c s

unfoldable pub trim_right : String → String
trim_right String.[] = ""
trim_right (String.◌∷◌ c s) =
    let rest = trim_right s in if is_space c && rest == "" then "" else String.◌∷◌ c rest

unfoldable pub trim_space : String → String
unfolding trim_left trim_right
trim_space s = trim_right (trim_left s)

trim_right-trim_right : (s : String) → trim_right (trim_right s) ≡ trim_right s
unfolding trim_right
trim_right-trim_right String.[] = refl
trim_right-trim_right (String.◌∷◌ c s) = elim (Bool-cases (is_space c && trim_right s == "")) [
  | inl y ↦ rw (y) refl
  | inr n ↦ rw (n) (rw (trim_right-trim_right s) (rw (n) refl))
]

trim_left-trim_right :
    (s : String) → trim_left (trim_right (trim_left s)) ≡ trim_right (trim_left s)
unfolding trim_left trim_right
trim_left-trim_right String.[] = refl
trim_left-trim_right (String.◌∷◌ c s) = elim (Bool-cases (is_space c)) [
  | inl y ↦ rw y (trim_left-trim_right s)
  | inr n ↦ rw (n, n, n) refl
]

-- A trimmed text has nothing left to trim.
pub trim_space-trim_space : (s : String) → trim_space (trim_space s) ≡ trim_space s
unfolding trim_space
trim_space-trim_space s = rw (trim_left-trim_right s, trim_right-trim_right (trim_left s)) refl

-- Is one of the characters of a text among those of a set (`strings.ContainsAny`)?
abbrev pub has_code : ℕ → String → Bool
has_code n String.[] = false
has_code n (String.◌∷◌ c s) = eqb n (code c) || has_code n s

unfoldable pub contains_any : String → String → Bool
contains_any String.[] set = false
contains_any (String.◌∷◌ c s) set = has_code (code c) set || contains_any s set

-- `strings.HasSuffix(s, t)`
unfoldable pub has_suffix : String → String → Bool
has_suffix String.[] t = "" == t
has_suffix (String.◌∷◌ c s) t = String.◌∷◌ c s == t || has_suffix s t

-- A text without the characters of a set.
unfoldable pub without : String → String → String
without set String.[] = ""
without set (String.◌∷◌ c s) =
    let rest = without set s in if has_code (code c) set then rest else String.◌∷◌ c rest
