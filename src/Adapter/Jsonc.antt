-- ===== src/Adapter/Jsonc.antt =====
-- JSONC of internal/adapter/adapter.go: how the comments and the trailing commas are taken out of
-- a document. A document is the list of its bytes; the position in each of its loops is a mode.
pub mod Laws
use mathlib.Core.Option
use shadow_relay.Prelude.{
  ℕ, Bool, true, false, not, ◌&&◌, ◌||◌, Option, none, some, List, [], ◌∷◌, eqb, if◌then◌else◌,
}

-- In the code, in a string, after a backslash of one, in a line comment, at the star that opens a
-- comment, in that comment, and at the slash that closes it.
pub data Mode : Type 0 where
  code : Mode
  quoted : Mode
  escaped : Mode
  line : Mode
  opening : Mode
  block : Mode
  closing : Mode

-- `b[i+1] == x`
unfoldable pub is_next : ℕ → List ℕ → Bool
is_next x [] = false
is_next x (c ∷ cs) = eqb c x

-- `"` is 34, `\` 92, `/` 47, `*` 42 and the end of a line 10.
unfoldable pub after_quote : ℕ → Mode
after_quote c = if eqb c 92 then escaped else if eqb c 34 then code else quoted

-- The mode after a byte, before the given ones.
unfoldable pub mode_after : Mode → ℕ → List ℕ → Mode
mode_after code c cs =
    if eqb c 34
    then quoted
    else if eqb c 47 && is_next 47 cs
    then line
    else if eqb c 47 && is_next 42 cs
    then opening
    else code
mode_after quoted c cs = after_quote c
mode_after escaped c cs = quoted
mode_after line c cs = if eqb c 10 then code else line
mode_after opening c cs = block
mode_after block c cs = if eqb c 42 && is_next 47 cs then closing else block
mode_after closing c cs = code

-- What it appends to `out`.
unfoldable pub emitted : Mode → ℕ → List ℕ → List ℕ → List ℕ
emitted code c cs out =
    if (eqb c 47 && is_next 47 cs) || (eqb c 47 && is_next 42 cs) then out else c ∷ out
emitted quoted c cs out = c ∷ out
emitted escaped c cs out = c ∷ out
emitted line c cs out = if eqb c 10 then 10 ∷ out else out
emitted opening c cs out = out
emitted block c cs out = out
emitted closing c cs out = 32 ∷ out

-- none is the error of an unterminated comment.
unfoldable pub at_end : Mode → Option (List ℕ)
at_end code = some []
at_end quoted = some []
at_end escaped = some []
at_end line = some (10 ∷ [])
at_end opening = none
at_end block = none
at_end closing = none

-- The first loop.
unfoldable pub strip_comments : Mode → List ℕ → Option (List ℕ)
strip_comments m [] = at_end m
strip_comments m (c ∷ cs) = Option.map (emitted m c cs) (strip_comments (mode_after m c cs) cs)

unfoldable pub is_blank : ℕ → Bool
is_blank c = eqb c 32 || eqb c 10 || eqb c 13 || eqb c 9

-- Does a bracket close after the blanks?
unfoldable pub closes : List ℕ → Bool
closes [] = false
closes (c ∷ cs) = let rest = closes cs in if is_blank c then rest else eqb c 125 || eqb c 93

unfoldable pub comma_mode : Mode → ℕ → Mode
comma_mode quoted c = after_quote c
comma_mode escaped c = quoted
comma_mode m c = if eqb c 34 then quoted else code

unfoldable pub is_dropped : Mode → ℕ → List ℕ → Bool
is_dropped quoted c cs = false
is_dropped escaped c cs = false
is_dropped m c cs = eqb c 44 && closes cs

-- The second loop.
unfoldable pub drop_commas : Mode → List ℕ → List ℕ
drop_commas m [] = []
drop_commas m (c ∷ cs) =
    let rest = drop_commas (comma_mode m c) cs in if is_dropped m c cs then rest else c ∷ rest

unfoldable pub jsonc : List ℕ → Option (List ℕ)
jsonc b = Option.map (drop_commas code) (strip_comments code b)
