-- ===== src/DocSearch/Text.antt =====
-- JavaScript strings as lists of UTF-16 code units, and the calls of them that search.js makes.
use Prim.Native.String.{String}
use Prim.Native.Char.{code}
use cring.Prelude.{ℕ, zero, suc, ◌+◌, ◌-◌, ◌/◌, ◌%◌, List, [], ◌∷◌, ◌++◌, Bool, true, false, ◌&&◌}
use cring.Prelude.{leb, ltb, ◌==◌, if◌then◌else◌, length, take}

abbrev pub Text : Type 0
Text = List ℕ

-- The units of a literal of ASCII characters.
abbrev pub codes : String → Text
codes String.[] = []
codes (String.◌∷◌ c s) = code c ∷ codes s

abbrev pub same_text : Text → Text → Bool
same_text [] [] = true
same_text [] (d ∷ t) = false
same_text (c ∷ s) [] = false
same_text (c ∷ s) (d ∷ t) = c == d && same_text s t

abbrev pub is_empty : Text → Bool
is_empty [] = true
is_empty (c ∷ s) = false

-- A digit of `toString(16)`.
unfoldable pub hex_digit : ℕ → ℕ
hex_digit n = if ltb n 10 then b'0' + n else b'a' + n - 10

-- `n.toString(16)` for a number of at most `k + 1` digits.
unfoldable pub hex : (k n : ℕ) → Text
hex zero n = hex_digit n ∷ []
hex (suc k) n =
    let upper = hex k (n / 16) in
    if ltb n 16 then hex_digit n ∷ [] else upper ++ (hex_digit (n % 16) ∷ [])

-- `s.replace(/^ +/, "")`
abbrev pub strip_leading : Text → Text
strip_leading [] = []
strip_leading (c ∷ s) = let rest = strip_leading s in if c == b' ' then rest else c ∷ s

-- `s.replace(/ +$/, "")`
abbrev pub strip_trailing : Text → Text
strip_trailing [] = []
strip_trailing (c ∷ s) =
    let rest = strip_trailing s in if c == b' ' && is_empty rest then [] else c ∷ rest

-- `s.replace(/ +/g, "")`
abbrev pub strip_all : Text → Text
strip_all [] = []
strip_all (c ∷ s) = if c == b' ' then strip_all s else c ∷ strip_all s

-- `s.length<=t.length && t.substr(0, s.length)==s`
unfoldable pub begins : Text → Text → Bool
begins s t = leb (length s) (length t) && same_text (take (length s) t) s

-- A letter of ASCII in lower case.
abbrev pub fold_case : ℕ → ℕ
fold_case c = if leb b'A' c && leb c b'Z' then c + 32 else c

-- `toLowerCase` on a text of ASCII characters.
abbrev pub ascii_lower : Text → Text
ascii_lower [] = []
ascii_lower (c ∷ t) = fold_case c ∷ ascii_lower t

abbrev pub is_ascii : Text → Bool
is_ascii [] = true
is_ascii (c ∷ t) = leb c 127 && is_ascii t
