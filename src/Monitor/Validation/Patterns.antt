-- ===== src/Monitor/Validation/Patterns.antt =====
-- The three patterns of backend/internal/monitor/validation.go, matched as their text says.
use uptime.Prelude.{
  ℕ, zero, suc, ◌-◌, Bool, true, false, ◌&&◌, ◌||◌, Option, none, some, List, [], ◌∷◌, ◌++◌, Bytes,
  length, leb, ◌==◌, if◌then◌else◌,
}

-- A text as the patterns see it. Case folding adds U+017F to s and U+212A to k; each of the two is
-- one letter here, and every other byte stands for itself.
abbrev pub long_s : ℕ
long_s = 0x17f

abbrev pub kelvin : ℕ
kelvin = 0x212a

-- The letter at the front of a text, and how many more bytes it takes.
abbrev letter_at : ℕ → Bytes → ℕ × ℕ
letter_at b (c ∷ d ∷ bs) =
    if b == 0xc5 && c == 0xbf
    then (long_s, 1)
    else if b == 0xe2 && c == 0x84 && d == 0xaa
    then (kelvin, 2)
    else (b, 0)
letter_at b (c ∷ []) = if b == 0xc5 && c == 0xbf then (long_s, 1) else (b, 0)
letter_at b [] = (b, 0)

letters_from : ℕ → Bytes → List ℕ
letters_from skip [] = []
letters_from zero (b ∷ bs) = (letter_at b bs).0 ∷ letters_from (letter_at b bs).1 bs
letters_from (suc skip) (b ∷ bs) = letters_from skip bs

unfoldable pub letters : Bytes → List ℕ
unfolding letters_from
letters s = letters_from 0 s

abbrev pub letter_bytes : ℕ → Bytes
letter_bytes c =
    if c == long_s
    then 0xc5 ∷ 0xbf ∷ []
    else if c == kelvin
    then 0xe2 ∷ 0x84 ∷ 0xaa ∷ []
    else c ∷ []

unfoldable pub bytes_of : List ℕ → Bytes
bytes_of [] = []
bytes_of (c ∷ cs) = letter_bytes c ++ bytes_of cs

abbrev pub is_digit : ℕ → Bool
is_digit c = leb b'0' c && leb c b'9'

-- [a-z0-9]
abbrev pub is_alnum : ℕ → Bool
is_alnum c =
    is_digit c || leb b'a' c && leb c b'z' || leb b'A' c && leb c b'Z' || c == long_s || c == kelvin

-- [a-z0-9.-]
abbrev pub is_host_letter : ℕ → Bool
is_host_letter c = is_alnum c || c == b'.' || c == b'-'

-- [0-9a-f]
abbrev pub is_hex : ℕ → Bool
is_hex c = is_digit c || leb b'a' c && leb c b'f' || leb b'A' c && leb c b'F'

-- [0-9a-f:.]
abbrev pub is_ip_letter : ℕ → Bool
is_ip_letter c = is_hex c || c == b':' || c == b'.'

-- The longest front whose letters pass a test, and the rest.
unfoldable pub span : (ℕ → Bool) → List ℕ → List ℕ × List ℕ
span test [] = ([], [])
span test (c ∷ cs) =
    let (front, rest) = span test cs in if test c then (c ∷ front, rest) else ([], c ∷ cs)

-- A letter in either case.
abbrev pub same_letter : ℕ → ℕ → Bool
same_letter low c = c == low || c == low - 32

abbrev pub after_slashes : List ℕ → Option (List ℕ)
after_slashes (a ∷ b ∷ c ∷ cs) = if a == b':' && b == b'/' && c == b'/' then some cs else none
after_slashes _ = none

-- s?://
abbrev pub after_s : List ℕ → Option (List ℕ)
after_s [] = none
after_s (s ∷ cs) =
    if same_letter b's' s || s == long_s then after_slashes cs else after_slashes (s ∷ cs)

-- ^https?://
unfoldable pub after_scheme : List ℕ → Option (List ℕ)
after_scheme (h ∷ t ∷ u ∷ p ∷ cs) =
    if same_letter b'h' h && same_letter b't' t && same_letter b't' u && same_letter b'p' p
    then after_s cs
    else none
after_scheme _ = none

abbrev pub non_empty : List ℕ × List ℕ → Option (List ℕ × List ℕ)
non_empty ([], rest) = none
non_empty (c ∷ cs, rest) = some (c ∷ cs, rest)

-- \[[0-9a-f:.]+\], behind its first letter
abbrev pub closed : Option (List ℕ × List ℕ) → Option (List ℕ × List ℕ)
closed none = none
closed (some (front, [])) = none
closed (some (front, c ∷ cs)) = if c == b']' then some (b'[' ∷ front ++ b']' ∷ [], cs) else none

-- \[[0-9a-f:.]+\]|[a-z0-9.-]+
unfoldable pub host_of : List ℕ → Option (List ℕ × List ℕ)
unfolding span
host_of [] = none
host_of (c ∷ cs) =
    if c == b'['
    then closed (non_empty (span is_ip_letter cs))
    else non_empty (span is_host_letter (c ∷ cs))

-- (?::([0-9]+))?
unfoldable pub port_of : List ℕ → Option (List ℕ × List ℕ)
unfolding span
port_of [] = some ([], [])
port_of (c ∷ cs) = if c == b':' then non_empty (span is_digit cs) else some ([], c ∷ cs)

-- (?:[/?]|$)
abbrev pub ends_authority : List ℕ → Bool
ends_authority [] = true
ends_authority (c ∷ cs) = c == b'/' || c == b'?'

abbrev pub with_port : List ℕ → Option (List ℕ × List ℕ) → Option (List ℕ × List ℕ)
with_port host none = none
with_port host (some (port, rest)) = if ends_authority rest then some (host, port) else none

abbrev pub with_host : Option (List ℕ × List ℕ) → Option (List ℕ × List ℕ)
with_host none = none
with_host (some (host, rest)) = with_port host (port_of rest)

abbrev pub with_scheme : Option (List ℕ) → Option (List ℕ × List ℕ)
with_scheme none = none
with_scheme (some rest) = with_host (host_of rest)

-- authorityPattern.FindStringSubmatch: the host and the port, empty where there is none.
unfoldable pub authority : List ℕ → Option (List ℕ × List ℕ)
unfolding after_scheme host_of port_of
authority cs = with_scheme (after_scheme cs)

-- [a-z0-9-]{0,61}[a-z0-9] without its bound
unfoldable pub label_rest : List ℕ → Bool
label_rest [] = false
label_rest (c ∷ []) = is_alnum c
label_rest (c ∷ d ∷ cs) = (is_alnum c || c == b'-') && label_rest (d ∷ cs)

-- domainLabelPattern
unfoldable pub is_label : List ℕ → Bool
unfolding label_rest
is_label [] = false
is_label (c ∷ []) = is_alnum c
is_label (c ∷ d ∷ cs) = is_alnum c && leb (length (d ∷ cs)) 62 && label_rest (d ∷ cs)

unfoldable pub all_letters : (ℕ → Bool) → List ℕ → Bool
all_letters test [] = true
all_letters test (c ∷ cs) = test c && all_letters test cs

-- 0x[0-9a-f]*
abbrev pub is_hex_number : List ℕ → Bool
is_hex_number (z ∷ x ∷ cs) = z == b'0' && same_letter b'x' x && all_letters is_hex cs
is_hex_number _ = false

-- numericLabelPattern
unfoldable pub is_numeric : List ℕ → Bool
unfolding all_letters
is_numeric [] = false
is_numeric (c ∷ cs) = all_letters is_digit (c ∷ cs) || is_hex_number (c ∷ cs)
