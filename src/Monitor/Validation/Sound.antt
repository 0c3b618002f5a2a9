-- ===== src/Monitor/Validation/Sound.antt =====
-- What the matcher of backend/internal/monitor/validation.go finds fits the pattern.
use mathlib.Core.List.{append_assoc}
use uptime.Prelude.{
  ℕ, ◌≡◌, refl, sym, ap, subst, ◌⊎◌, inl, inr, Bool, true, ◌&&◌, ◌||◌, Option, none, some, List, [],
  ◌∷◌, ◌++◌, Bool-cases, arith, ◌==◌, All,
}
use uptime.Monitor.Validation.Patterns.{
  long_s, is_digit, is_host_letter, is_ip_letter, span, same_letter, after_s, after_scheme,
  non_empty, closed, host_of, port_of, ends_authority, with_port, with_host, with_scheme, authority,
}
use uptime.Monitor.Validation.Grammar.{Passes, IsScheme, IsHost, IsPort, Authority}

some-injective : {A : Type 0} (a b : A) → some a ≡ some b → a ≡ b
some-injective a b e = cc

span-Passes :
    (test : ℕ → Bool) (cs : List ℕ)
    → (cs ≡ (span test cs).0 ++ (span test cs).1) × All (λ c. test c ≡ true) (span test cs).0
unfolding span
span-Passes test [] = (refl, tt)
span-Passes test (c ∷ cs) = elim (Bool-cases (test c)) [
  | inl e ↦ rw e (ap (◌∷◌ c) (span-Passes test cs).0, (e, (span-Passes test cs).1))
  | inr e ↦ rw e (refl, tt)
]

non_empty-Passes :
    (test : ℕ → Bool) (cs front rest : List ℕ)
    → non_empty (span test cs) ≡ some (front, rest)
    → (cs ≡ front ++ rest) × Passes test front
non_empty-Passes test cs front rest e = by_front (span test cs) (span-Passes test cs) e
  where
    by_front :
        (r : List ℕ × List ℕ)
        → (cs ≡ r.0 ++ r.1) × All (λ c. test c ≡ true) r.0
        → non_empty r ≡ some (front, rest)
        → (cs ≡ front ++ rest) × Passes test front
    by_front ([], more) h e = cc
    by_front (c ∷ f, more) h e =
        subst (λ x. (cs ≡ x.0 ++ x.1) × Passes test x.0)
          (some-injective (c ∷ f, more) (front, rest) e) (h.0, (λ q. cc, h.1))

after_s_sound :
    (cs rest : List ℕ)
    → after_s cs ≡ some rest
    → (cs ≡ b':' ∷ b'/' ∷ b'/' ∷ rest)
      ⊎ ((s : ℕ) × (cs ≡ s ∷ b':' ∷ b'/' ∷ b'/' ∷ rest)
          × ((same_letter b's' s || s == long_s) ≡ true))
after_s_sound cs rest e = ground arith

closed_sound :
    (front more host rest : List ℕ)
    → closed (some (front, more)) ≡ some (host, rest)
    → (more ≡ b']' ∷ rest) × (host ≡ b'[' ∷ front ++ b']' ∷ [])
closed_sound front [] host rest e = cc
closed_sound front (c ∷ more) host rest e = ground arith

host_of_sound :
    (cs host rest : List ℕ) → host_of cs ≡ some (host, rest) → (cs ≡ host ++ rest) × IsHost host
unfolding host_of
host_of_sound [] host rest e = cc
host_of_sound (c ∷ cs) host rest e = elim (Bool-cases (c == b'[')) [
  | inr b ↦
      let (text, all_pass) = non_empty-Passes is_host_letter (c ∷ cs) host rest (rw b at e) in
      (text, inr all_pass)
  | inl b ↦ bracketed (ground (arith, b)) (non_empty (span is_ip_letter cs)) refl (rw b at e)
]
  where
    bracketed :
        c ≡ b'['
        → (o : Option (List ℕ × List ℕ)) → non_empty (span is_ip_letter cs) ≡ o
        → closed o ≡ some (host, rest)
        → (c ∷ cs ≡ host ++ rest) × IsHost host
    bracketed at none q f = cc
    bracketed at (some (front, more)) q f =
        let (text, all_pass) = non_empty-Passes is_ip_letter cs front more q in
        let (ends, whole) = closed_sound front more host rest f in
        (
          rw at (
              rw text
                (rw ends (rw whole (ap (◌∷◌ b'[') (sym (append_assoc front (b']' ∷ []) rest)))))),
          inl (front, whole, all_pass),
        )

port_of_sound :
    (cs port rest : List ℕ)
    → port_of cs ≡ some (port, rest)
    → (text : List ℕ) × (cs ≡ text ++ rest) × IsPort port text
unfolding port_of
port_of_sound [] port rest e = ([], ground arith, inl (ground arith, refl))
port_of_sound (c ∷ cs) port rest e = elim (Bool-cases (c == b':')) [
  | inr b ↦
      let f = some-injective (([], c ∷ cs)) (port, rest) (rw b at e) in
      ([], ap (λ x. x.1) f, inl (sym (ap (λ x. x.0) f), refl))
  | inl b ↦
      let (text, all_pass) = non_empty-Passes is_digit cs port rest (rw b at e) in
      (
        b':' ∷ port,
        (let at : c ≡ b':' = ground (arith, b) in rw at (ap (◌∷◌ b':') text)),
        inr (all_pass, refl),
      )
]

IsScheme-sound :
    (cs rest : List ℕ)
    → after_scheme cs ≡ some rest
    → (scheme : List ℕ) × (cs ≡ scheme ++ (b':' ∷ b'/' ∷ b'/' ∷ rest)) × IsScheme scheme
unfolding after_scheme
IsScheme-sound (h ∷ t ∷ u ∷ p ∷ cs) rest e =
    elim (Bool-cases
      (same_letter b'h' h && same_letter b't' t && same_letter b't' u && same_letter b'p' p)) [
        | inr b ↦ absurd (ground (arith, rw b at e))
        | inl b ↦ elim (after_s_sound cs rest (rw b at e)) [
          | inl text ↦ (
            h ∷ t ∷ u ∷ p ∷ [],
            rw text refl,
            (ground (arith, b), ground (arith, b), ground (arith, b), ground (arith, b), inl refl),
          )
          | inr (s, text, is_s) ↦ (
            h ∷ t ∷ u ∷ p ∷ s ∷ [],
            rw text refl,
            (
              ground (arith, b),
              ground (arith, b),
              ground (arith, b),
              ground (arith, b),
              inr (s, refl, is_s),
            ),
          )
        ]
      ]
IsScheme-sound [] rest e = cc
IsScheme-sound (h ∷ []) rest e = cc
IsScheme-sound (h ∷ t ∷ []) rest e = cc
IsScheme-sound (h ∷ t ∷ u ∷ []) rest e = cc

pub authority_sound :
    (cs host port : List ℕ) → authority cs ≡ some (host, port) → Authority cs host port
unfolding authority
authority_sound cs host port e = by_scheme (after_scheme cs) refl e
  where
    by_port :
        (scheme more after : List ℕ) (h : List ℕ) (o : Option (List ℕ × List ℕ))
        → cs ≡ scheme ++ (b':' ∷ b'/' ∷ b'/' ∷ more)
        → IsScheme scheme
        → more ≡ h ++ after
        → IsHost h
        → port_of after ≡ o
        → with_port h o ≡ some (host, port)
        → Authority cs host port
    by_port scheme more after h none text is_scheme split_host is_host q f = cc
    by_port scheme more after h (some (found, rest)) text is_scheme split_host is_host q f =
        let (port_text, tail, is_port) = port_of_sound after found rest q in
        elim (Bool-cases (ends_authority rest)) [
          | inr b ↦ absurd (ground (arith, b, f))
          | inl b ↦
              subst (λ x. Authority cs x.0 x.1) (some-injective (h, found) (host, port) (rw b at f))
                (record {
                  scheme = scheme;
                  port_text = port_text;
                  rest = rest;
                  text = rw text (rw split_host (rw tail refl));
                  is_scheme = is_scheme;
                  is_host = is_host;
                  is_port = is_port;
                  ends = b;
                })
        ]

    by_host :
        (scheme more : List ℕ) (o : Option (List ℕ × List ℕ))
        → cs ≡ scheme ++ (b':' ∷ b'/' ∷ b'/' ∷ more)
        → IsScheme scheme
        → host_of more ≡ o
        → with_host o ≡ some (host, port)
        → Authority cs host port
    by_host scheme more none text is_scheme q f = cc
    by_host scheme more (some (h, after)) text is_scheme q f =
        let (split_host, is_host) = host_of_sound more h after q in
        by_port scheme more after h (port_of after) text is_scheme split_host is_host refl f

    by_scheme :
        (o : Option (List ℕ))
        → after_scheme cs ≡ o
        → with_scheme o ≡ some (host, port)
        → Authority cs host port
    by_scheme none q f = cc
    by_scheme (some more) q f =
        let (scheme, text, is_scheme) = IsScheme-sound cs more q in
        by_host scheme more (host_of more) text is_scheme refl f
