-- ===== src/Monitor/Validation.antt =====
-- backend/internal/monitor/validation.go. The three patterns are in Patterns; what the source takes
-- from net/url, net, unicode and unicode/utf8 is a parameter.
pub mod Patterns
pub mod Grammar
pub mod Sound
pub mod Authority
pub mod Accepted
mod Tests
use uptime.Prelude.{
  ℕ, zero, suc, ◌+◌, ◌-◌, ◌*◌, Bool, true, false, not, ◌&&◌, ◌||◌, Option, none, some, List, [],
  ◌∷◌, ◌++◌, Bytes, codes, bytes_eq, split, length, map, ltb, leb, ◌==◌, if◌then◌else◌,
}
use uptime.Monitor.Validation.Patterns.{
  long_s, kelvin, letters, letter_bytes, bytes_of, is_digit, is_alnum, is_host_letter, is_hex,
  is_ip_letter, span, same_letter, after_slashes, after_s, after_scheme, non_empty, closed, host_of,
  port_of, ends_authority, with_port, with_host, with_scheme, authority, label_rest, is_label,
  all_letters, is_hex_number, is_numeric,
}

-- A URL as net/url parses it.
pub record Parsed : Type 0 where
  pub has_user : Bool
  pub hostname : Bytes
  pub raw_query : Bytes

pub record Outside : Type 0 where
  pub valid_utf8 : Bytes → Bool
  -- a rune that is white space, a control code or U+FEFF
  pub odd_rune : Bytes → Bool
  -- net.ParseIP finds an address
  pub is_ip : Bytes → Bool
  pub parse : Bytes → Option Parsed
  -- url.QueryUnescape finds no error
  pub unescapes : Bytes → Bool

-- The number that digits spell.
unfoldable pub value_of : ℕ → List ℕ → ℕ
value_of n [] = n
value_of n (c ∷ cs) = value_of (n * 10 + (c - b'0')) cs

-- strconv.ParseUint(s, 10, 16), for digits
unfoldable pub parse_uint16 : List ℕ → Option ℕ
unfolding value_of
parse_uint16 cs = if ltb 65535 (value_of 0 cs) then none else some (value_of 0 cs)

abbrev pub good_port : List ℕ → Bool
good_port [] = true
good_port (c ∷ cs) = elim (parse_uint16 (c ∷ cs)) [ none ↦ false | some port ↦ leb port 65535 ]

unfoldable pub contains : ℕ → List ℕ → Bool
contains x [] = false
contains x (c ∷ cs) = c == x || contains x cs

-- strings.Trim(s, "[]"), from the left and from the right
unfoldable pub trim_left : List ℕ → List ℕ
trim_left [] = []
trim_left (c ∷ cs) = let rest = trim_left cs in if c == b'[' || c == b']' then rest else c ∷ cs

unfoldable pub trim_right : List ℕ → List ℕ
trim_right [] = []
trim_right (c ∷ cs) = elim (trim_right cs) [
  | [] ↦ if c == b'[' || c == b']' then [] else c ∷ []
  | ◌∷◌ d ds ↦ c ∷ d ∷ ds
]

-- strings.TrimSuffix(s, ".")
unfoldable pub trim_dot : List ℕ → List ℕ
trim_dot [] = []
trim_dot (c ∷ []) = if c == b'.' then [] else c ∷ []
trim_dot (c ∷ d ∷ cs) = c ∷ trim_dot (d ∷ cs)

unfoldable pub all_labels : List (List ℕ) → Bool
unfolding is_label
all_labels [] = true
all_labels (l ∷ ls) = is_label l && all_labels ls

unfoldable pub last_label : List (List ℕ) → List ℕ
last_label [] = []
last_label (l ∷ []) = l
last_label (l ∷ m ∷ ls) = last_label (m ∷ ls)

module _ (out : Outside) where
  open out use {valid_utf8, odd_rune, is_ip, parse, unescapes}

  unfoldable pub good_literal : List ℕ → Bool
  unfolding contains trim_left trim_right bytes_of
  good_literal host = contains b':' host && is_ip (bytes_of (trim_right (trim_left host)))

  unfoldable pub good_domain : List ℕ → Bool
  unfolding trim_dot all_labels last_label is_numeric bytes_of
  good_domain host =
      let domain = trim_dot host in
      let labels = split b'.' domain in
      leb (length (bytes_of domain)) 253
      && all_labels labels
      && not (
          is_numeric (last_label labels)
          && (not (bytes_eq host domain) || not (is_ip (bytes_of host))))

  abbrev pub good_host : List ℕ → Bool
  good_host [] = good_domain []
  good_host (c ∷ cs) = if c == b'[' then good_literal (c ∷ cs) else good_domain (c ∷ cs)

  abbrev pub good_authority : Option (List ℕ × List ℕ) → Bool
  good_authority none = false
  good_authority (some (host, port)) = good_port port && good_host host

  abbrev pub good_parsed : Option Parsed → Bool
  good_parsed none = false
  good_parsed (some u) = not (u.has_user || bytes_eq u.hostname []) && unescapes u.raw_query

  unfoldable pub valid_url : Bytes → Bool
  unfolding authority letters parse_uint16 good_literal good_domain contains
  valid_url value =
      not (
        ltb 2048 (length value)
        || not (valid_utf8 value)
        || odd_rune value
        || contains b'\\' value
        || contains b'#' value)
      && good_authority (authority (letters value))
      && good_parsed (parse value)
