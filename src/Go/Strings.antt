-- ===== src/Go/Strings.antt =====
-- Package strings of Go, as far as the code uses it: `Split` at a separator of one character, and at a text.
use Prim.Native.Char.{code}
use zeronet.Prelude.{ℕ, String, Option, none, some, if◌then◌else◌, ◌==◌}

-- `strings.Split(s, sep)[0]`
abbrev pub before : ℕ → String → String
before sep String.[] = ""
before sep (String.◌∷◌ c s) =
    let rest = before sep s in if code c == sep then "" else String.◌∷◌ c rest

-- `strings.Split(s, sep)[1]`, if there is one.
abbrev pub second_part : ℕ → String → Option String
second_part sep String.[] = none
second_part sep (String.◌∷◌ c s) =
    let rest = second_part sep s in if code c == sep then some (before sep s) else rest

-- What follows the first text, which the second one starts with.
abbrev pub strip : String → String → Option String
strip String.[] s = some s
strip (String.◌∷◌ c p) String.[] = none
strip (String.◌∷◌ c p) (String.◌∷◌ d s) =
    let rest = strip p s in if code c == code d then rest else none

-- What stands before the first occurrence of a separator that is not empty.
abbrev pub up_to : String → String → String
up_to sep String.[] = ""
up_to sep (String.◌∷◌ c s) =
    let rest = up_to sep s in
    elim (strip sep (String.◌∷◌ c s)) [ none ↦ String.◌∷◌ c rest | some _ ↦ "" ]

-- `strings.Split(s, sep)[1]`, if there is one, for such a separator.
abbrev pub second_piece : String → String → Option String
second_piece sep String.[] = none
second_piece sep (String.◌∷◌ c s) =
    let rest = second_piece sep s in
    elim (strip sep (String.◌∷◌ c s)) [ none ↦ rest | some after ↦ some (up_to sep after) ]
