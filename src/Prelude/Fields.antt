-- ===== src/Prelude/Fields.antt =====
-- A text taken apart at white space, as strings.Fields does on the bytes of UTF-8.
use Prim.Native.Nat.{ℕ, ◌-◌}
use mathlib.Core.Bool.{Bool, ◌&&◌, ◌||◌}
use mathlib.Core.List.{List, [], ◌∷◌, ◌++◌}
use uptime.Prelude.Tests.{Bytes, leb, ◌==◌, if◌then◌else◌}

abbrev pub ascii_space : ℕ → Bool
ascii_space b = (b == 32) || (leb 9 b && leb b 13)

-- The second bytes of the white space that starts with the byte 194.
abbrev latin_space : Bytes → ℕ
latin_space (b ∷ bs) = if (b == 133) || (b == 160) then 2 else 0
latin_space [] = 0

-- U+2000 to U+200A, U+2028, U+2029 and U+202F; U+205F.
abbrev general_space : Bytes → ℕ
general_space (b ∷ c ∷ bs) =
    if (b == 128) && ((leb 128 c && leb c 138) || (c == 168) || (c == 169) || (c == 175))
      || (b == 129) && (c == 159)
    then 3
    else 0
general_space (b ∷ []) = 0
general_space [] = 0

abbrev pair_space : ℕ → ℕ → Bytes → ℕ
pair_space x y (b ∷ c ∷ bs) = if (b == x) && (c == y) then 3 else 0
pair_space x y (b ∷ []) = 0
pair_space x y [] = 0

-- How many bytes the white space at the front of a text takes, 0 where the text starts with
-- something else: unicode.IsSpace of the decoded rune.
unfoldable pub space_size : Bytes → ℕ
space_size [] = 0
space_size (b ∷ bs) =
    if ascii_space b
    then 1
    else if b == 194
    then latin_space bs
    else if b == 225
    then pair_space 154 128 bs
    else if b == 226
    then general_space bs
    else if b == 227
    then pair_space 128 128 bs
    else 0

abbrev pub flush : Bytes → List Bytes → List Bytes
flush [] fs = fs
flush (b ∷ bs) fs = (b ∷ bs) ∷ fs

-- `skip` bytes of a white space are still to pass; `cur` is the field so far.
unfoldable pub fields_from : ℕ → Bytes → Bytes → List Bytes
unfolding space_size
fields_from skip cur [] = flush cur []
fields_from skip cur (b ∷ bs) =
    let n = space_size (b ∷ bs) in
    let passed = fields_from (skip - 1) cur bs in
    let next = fields_from (n - 1) [] bs in
    let grown = fields_from 0 (cur ++ b ∷ []) bs in
    if leb 1 skip then passed else if leb 1 n then flush cur next else grown

-- strings.Fields
unfoldable pub fields : Bytes → List Bytes
unfolding fields_from
fields s = fields_from 0 [] s
