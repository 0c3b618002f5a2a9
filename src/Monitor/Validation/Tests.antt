-- ===== src/Monitor/Validation/Tests.antt =====
-- Texts of Monitor/Validation, and theorems of its child modules at work.
use uptime.Prelude.{
  ◌≡◌, ◌↔◌, refl, true, false, not, ◌||◌, some, [], ◌∷◌, ◌++◌, Bytes, codes, bytes_eq, split,
}
use uptime.Monitor.Validation.{Outside, contains, valid_url}
use uptime.Monitor.Validation.Patterns.{letters, authority}
use uptime.Monitor.Validation.Authority.{authority_iff}
use uptime.Monitor.Validation.Grammar.{Authority}
use uptime.Monitor.Validation.Accepted.{Accepted, valid_url-Accepted}

abbrev outside : Outside
outside = record {
  valid_utf8 = λ s. true;
  odd_rune = λ s. contains 32 s;
  is_ip = λ s. bytes_eq s (codes "::1") || bytes_eq s (codes "10.0.0.1");
  parse = λ s. some (record { has_user = contains b'@' s; hostname = (codes "h"); raw_query = [] });
  unescapes = λ s. not (contains b'%' s);
}

abbrev plain : Bytes
plain = (codes "https://ab.cd:8080/x")

-- http:// and a Kelvin sign
abbrev kelvin_url : Bytes
kelvin_url = (codes "http://") ++ (0xe2 ∷ 0x84 ∷ 0xaa ∷ [])

test_plain : valid_url outside plain ≡ true
unfolding valid_url contains split bytes_eq
test_plain = refl

test_port : valid_url outside (codes "http://ab:65536") ≡ false
unfolding valid_url contains split bytes_eq
test_port = refl

test_literal : valid_url outside (codes "http://[::1]/") ≡ true
unfolding valid_url contains split bytes_eq
test_literal = refl

test_number : valid_url outside (codes "http://1.2") ≡ false
unfolding valid_url contains split bytes_eq
test_number = refl

test_hyphen : valid_url outside (codes "http://a-.b") ≡ false
unfolding valid_url contains split bytes_eq
test_hyphen = refl

-- The Kelvin sign folds to the letter k.
test_kelvin : valid_url outside kelvin_url ≡ true
unfolding valid_url contains split bytes_eq
test_kelvin = refl

plain-matches : authority (letters plain) ≡ some (codes "ab.cd", codes "8080")
unfolding authority letters
plain-matches = refl

authority_iff_example :
    (authority (letters plain) ≡ some (codes "ab.cd", codes "8080"))
    ↔ Authority (letters plain) (codes "ab.cd") (codes "8080")
authority_iff_example = authority_iff (letters plain) (codes "ab.cd") (codes "8080")

valid_url-Accepted_example : Accepted outside plain
valid_url-Accepted_example = valid_url-Accepted outside plain test_plain
