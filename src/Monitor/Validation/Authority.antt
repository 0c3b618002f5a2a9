-- ===== src/Monitor/Validation/Authority.antt =====
-- authorityPattern of backend/internal/monitor/validation.go: the matcher against what the pattern
-- says.
use mathlib.Core.List.{append_assoc}
use uptime.Prelude.{
  ℕ, ◌≡◌, ◌≢◌, ◌↔◌, refl, inl, inr, Bool, true, false, some, List, [], ◌∷◌, ◌++◌, arith, ◌==◌, All,
}
use uptime.Monitor.Validation.Patterns.{
  is_digit, is_host_letter, is_ip_letter, span, after_scheme, non_empty, host_of, port_of,
  ends_authority, authority,
}
use uptime.Monitor.Validation.Grammar.{Passes, IsScheme, IsHost, IsPort, Authority}
use uptime.Monitor.Validation.Sound.{authority_sound}

-- What follows a longest front fails the test.
abbrev Stops : (ℕ → Bool) → List ℕ → Type 0
Stops test [] = Unit {0}
Stops test (c ∷ cs) = test c ≡ false

span-append :
    (test : ℕ → Bool) (front rest : List ℕ)
    → All (λ c. test c ≡ true) front
    → Stops test rest
    → span test (front ++ rest) ≡ (front, rest)
unfolding span
span-append test [] [] h s = refl
span-append test [] (c ∷ cs) h s = rw s refl
span-append test (c ∷ cs) rest h s = rw (h.0, span-append test cs rest h.1 s) refl

non_empty-some : (front rest : List ℕ) → front ≢ [] → non_empty (front, rest) ≡ some (front, rest)
non_empty-some [] rest h = absurd (h refl)
non_empty-some (c ∷ cs) rest h = refl

no_bracket : (c : ℕ) → is_host_letter c ≡ true → (c == b'[') ≡ false
no_bracket c h = ground arith

no_port : (rest : List ℕ) → ends_authority rest ≡ true → port_of rest ≡ some ([], rest)
unfolding port_of
no_port [] h = refl
no_port (c ∷ cs) h = ground arith

ends_authority-Stops : (rest : List ℕ) → ends_authority rest ≡ true → Stops is_digit rest
ends_authority-Stops [] h = tt
ends_authority-Stops (c ∷ cs) h = ground arith

IsPort-Stops :
    (port text rest : List ℕ)
    → IsPort port text
    → ends_authority rest ≡ true
    → Stops is_host_letter (text ++ rest)
IsPort-Stops port text rest (inr (passes, its_text)) h = rw its_text refl
IsPort-Stops port text [] (inl (none_found, no_text)) h = rw no_text tt
IsPort-Stops port text (c ∷ cs) (inl (none_found, no_text)) h = rw no_text (ground arith)

host_of_complete :
    (host rest : List ℕ)
    → IsHost host
    → Stops is_host_letter rest
    → host_of (host ++ rest) ≡ some (host, rest)
unfolding host_of
host_of_complete host rest (inl (front, whole, passes)) stop = rw whole (
    rw (append_assoc front (b']' ∷ []) rest) (
      rw (span-append is_ip_letter front (b']' ∷ rest) passes.1 refl)
        (rw (non_empty-some front (b']' ∷ rest) passes.0) refl)))
host_of_complete host rest (inr passes) stop = named host passes
  where
    named :
        (host : List ℕ) → Passes is_host_letter host → host_of (host ++ rest) ≡ some (host, rest)
    named [] p = absurd (p.0 refl)
    named (c ∷ cs) p =
        rw (no_bracket c p.1.0) (rw (span-append is_host_letter (c ∷ cs) rest p.1 stop) refl)

port_of_complete :
    (port text rest : List ℕ)
    → IsPort port text
    → ends_authority rest ≡ true
    → port_of (text ++ rest) ≡ some (port, rest)
unfolding port_of
port_of_complete port text rest (inl (none_found, no_text)) ends =
    rw no_text (rw none_found (no_port rest ends))
port_of_complete port text rest (inr (passes, its_text)) ends = rw its_text (
    rw (span-append is_digit port rest passes.1 (ends_authority-Stops rest ends))
      (non_empty-some port rest passes.0))

IsScheme-complete :
    (scheme rest : List ℕ)
    → IsScheme scheme
    → after_scheme (scheme ++ (b':' ∷ b'/' ∷ b'/' ∷ rest)) ≡ some rest
unfolding after_scheme
IsScheme-complete (h ∷ t ∷ u ∷ p ∷ more) rest (ih, it, iu, ip, inl e) = rw e (ground arith)
IsScheme-complete (h ∷ t ∷ u ∷ p ∷ more) rest (ih, it, iu, ip, inr (s, e, is_s)) =
    rw e (ground arith)
IsScheme-complete [] rest i = elim i [ ]
IsScheme-complete (h ∷ []) rest i = elim i [ ]
IsScheme-complete (h ∷ t ∷ []) rest i = elim i [ ]
IsScheme-complete (h ∷ t ∷ u ∷ []) rest i = elim i [ ]

authority_complete :
    (cs host port : List ℕ) → Authority cs host port → authority cs ≡ some (host, port)
unfolding authority
authority_complete cs host port a = rw a.text (
    rw (IsScheme-complete a.scheme (host ++ (a.port_text ++ a.rest)) a.is_scheme) (
      rw
        (host_of_complete host (a.port_text ++ a.rest) a.is_host
          (IsPort-Stops port a.port_text a.rest a.is_port a.ends))
        (rw (port_of_complete port a.port_text a.rest a.is_port a.ends) (rw a.ends refl))))

-- the matcher of authorityPattern finds a host and a port in a text exactly when the text is a
-- scheme http or https in any case, ://, that host, which is a non-empty run of the bracketed
-- letters of an address or of the letters of a name, that port, digits behind a colon or nothing,
-- and then the end, a slash or a question mark.
pub authority_iff :
    (cs host port : List ℕ) → (authority cs ≡ some (host, port)) ↔ Authority cs host port
authority_iff cs host port = (authority_sound cs host port, authority_complete cs host port)
