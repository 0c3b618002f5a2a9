-- ===== src/Monitor/Validation/Accepted.antt =====
-- What a URL that validURL of backend/internal/monitor/validation.go accepts looks like.
use uptime.Prelude.{
  ℕ, ◌≤◌, ◌≡◌, ◌≢◌, refl, ap, ◌⊎◌, inl, inr, Bool, true, false, ◌&&◌, ◌||◌, Option, none, some,
  List, [], ◌∷◌, Bytes, bytes_eq, bytes_eq_iff, split, length, Bool-cases, Option-cases, arith,
  ◌==◌, All,
}
use uptime.Monitor.Validation.{
  Parsed, Outside, value_of, parse_uint16, good_port, contains, trim_left, trim_right, trim_dot,
  all_labels, good_literal, good_domain, good_host, good_authority, good_parsed, valid_url,
  last_label,
}
use uptime.Monitor.Validation.Patterns.{
  letters, bytes_of, is_alnum, authority, label_rest, is_label, is_numeric,
}
use uptime.Monitor.Validation.Authority.{authority_iff}
use uptime.Monitor.Validation.Grammar.{Authority}

abbrev EndsWell : List ℕ → Type 0
EndsWell [] = ⊥
EndsWell (c ∷ []) = is_alnum c ≡ true
EndsWell (c ∷ d ∷ cs) = EndsWell (d ∷ cs)

abbrev StartsWell : List ℕ → Type 0
StartsWell [] = ⊥
StartsWell (c ∷ cs) = is_alnum c ≡ true

-- 1 to 63 letters, digits and hyphens, with no hyphen at an end.
abbrev pub IsLabel : List ℕ → Type 0
IsLabel l =
    (length l ≤ 63) × All (λ c. (is_alnum c || c == b'-') ≡ true) l × StartsWell l × EndsWell l

label_rest-EndsWell :
    (cs : List ℕ)
    → label_rest cs ≡ true
    → All (λ c. (is_alnum c || c == b'-') ≡ true) cs × EndsWell cs
unfolding label_rest
label_rest-EndsWell [] h = cc
label_rest-EndsWell (c ∷ []) h = ((ground (arith, h), tt), h)
label_rest-EndsWell (c ∷ d ∷ cs) h =
    let (passes, ends) = label_rest-EndsWell (d ∷ cs) (ground (arith, h)) in
    ((ground (arith, h), passes), ends)

is_label-IsLabel : (l : List ℕ) → is_label l ≡ true → IsLabel l
unfolding is_label
is_label-IsLabel [] h = cc
is_label-IsLabel (c ∷ []) h = (omega arith, (ground (arith, h), tt), h, h)
is_label-IsLabel (c ∷ d ∷ cs) h =
    let (passes, ends) = label_rest-EndsWell (d ∷ cs) (ground (arith, h)) in
    (ground (arith, h), (ground (arith, h), passes), ground (arith, h), ends)

all_labels-All : (ls : List (List ℕ)) → all_labels ls ≡ true → All IsLabel ls
unfolding all_labels
all_labels-All [] h = tt
all_labels-All (l ∷ ls) h =
    (is_label-IsLabel l (ground (arith, h)), all_labels-All ls (ground (arith, h)))

good_port-le : (port : List ℕ) → good_port port ≡ true → value_of 0 port ≤ 65535
unfolding parse_uint16 value_of
good_port-le [] h = omega arith
good_port-le (c ∷ cs) h = ground arith

no_proof : false ≡ true → ⊥
no_proof h = cc

and_true : (a b : Bool) → (a && b) ≡ true → (a ≡ true) × (b ≡ true)
and_true false b h = cc
and_true true b h = (refl, h)

module _ (out : Outside) where
  -- A host that starts with a bracket has a colon and is an address between its brackets; any
  -- other is a name of at most 253 bytes, less a dot at its end, with valid labels. Where its last
  -- label is a number it has no dot at its end and is an address.
  abbrev pub GoodHost : List ℕ → Type 0
  GoodHost host =
      ((rest : List ℕ) × (host ≡ b'[' ∷ rest)
        × (contains b':' host ≡ true)
        × (out.is_ip (bytes_of (trim_right (trim_left host))) ≡ true))
      ⊎ (((rest : List ℕ) → host ≢ b'[' ∷ rest)
          × (length (bytes_of (trim_dot host)) ≤ 253)
          × All IsLabel (split b'.' (trim_dot host))
          × ((is_numeric (last_label (split b'.' (trim_dot host))) ≡ false)
              ⊎ ((bytes_eq host (trim_dot host) ≡ true) × (out.is_ip (bytes_of host) ≡ true))))

  pub record Accepted (value : Bytes) : Type 0 where
    pub host : List ℕ
    pub port : List ℕ
    pub parsed : Parsed
    pub matched : Authority (letters value) host port
    pub short : length value ≤ 2048
    pub no_fragment : contains b'#' value ≡ false
    pub port_fits : value_of 0 port ≤ 65535
    pub good_host : GoodHost host
    pub parses : out.parse value ≡ some parsed
    pub no_user : parsed.has_user ≡ false
    pub named : parsed.hostname ≢ []
    pub query : out.unescapes parsed.raw_query ≡ true

  good_domain-GoodHost :
      (host : List ℕ)
      → ((rest : List ℕ) → host ≢ b'[' ∷ rest)
      → good_domain out host ≡ true
      → GoodHost host
  unfolding good_domain
  good_domain-GoodHost host plain h =
      inr (plain, ground (arith, h), all_labels-All labels (ground (arith, h)), by_number)
    where
      labels : List (List ℕ)
      labels = split b'.' (trim_dot host)

      by_number :
          (is_numeric (last_label labels) ≡ false)
          ⊎ ((bytes_eq host (trim_dot host) ≡ true) × (out.is_ip (bytes_of host) ≡ true))
      by_number = elim (Bool-cases (is_numeric (last_label labels))) [
        | inr b ↦ inl b
        | inl b ↦ inr (ground (arith, b, h), ground (arith, b, h))
      ]

  good_literal-parts :
      (host : List ℕ)
      → good_literal out host ≡ true
      → (contains b':' host ≡ true) × (out.is_ip (bytes_of (trim_right (trim_left host))) ≡ true)
  unfolding good_literal
  good_literal-parts host h = and_true (contains b':' host) _ h

  good_host-GoodHost : (host : List ℕ) → good_host out host ≡ true → GoodHost host
  good_host-GoodHost [] h = good_domain-GoodHost [] (λ rest e. cc) h
  good_host-GoodHost (c ∷ cs) h = elim (Bool-cases (c == b'[')) [
    | inl b ↦
        let (colon, address) = good_literal-parts (c ∷ cs) (rw b at h) in
        inl (cs, ap (λ x. x ∷ cs) (ground (arith, b)), colon, address)
    | inr b ↦
        good_domain-GoodHost (c ∷ cs) (λ rest e. starts (ap (λ l. starts_bracket l) e) b)
          (rw b at h)
  ]
    where
      starts_bracket : List ℕ → Bool
      starts_bracket [] = false
      starts_bracket (x ∷ xs) = x == b'['

      starts : (c == b'[') ≡ true → (c == b'[') ≡ false → ⊥
      starts x y = cc

  good_parsed-some :
      (u : Parsed)
      → good_parsed out (some u) ≡ true
      → (u.has_user ≡ false) × (u.hostname ≢ []) × (out.unescapes u.raw_query ≡ true)
  good_parsed-some u h = elim (Bool-cases (bytes_eq u.hostname [])) [
    | inl b ↦ absurd (ground (arith, b, h))
    | inr b ↦ (
      ground (arith, b, h),
      (λ e. ⊥_of (bytes_eq u.hostname []) ((bytes_eq_iff u.hostname []).1 e) b),
      ground (arith, b, h),
    )
  ]
    where
      ⊥_of : (b : Bool) → b ≡ true → b ≡ false → ⊥
      ⊥_of b x y = cc

  -- a URL that validURL accepts has at most 2048 bytes and no fragment, and matches
  -- authorityPattern with a host and a port, the port being at most 65535. A host that starts
  -- with a bracket has a colon and is an address between its brackets; any other has, less a dot
  -- at its end, at most 253 bytes and labels of 1 to 63 letters, digits and hyphens with no
  -- hyphen at an end, and where its last label is a number it has no dot at its end and is an
  -- address. net/url parses the URL without a user, with a host name, and with a query whose
  -- escapes are well formed.
  pub valid_url-Accepted : (value : Bytes) → valid_url out value ≡ true → Accepted value
  unfolding valid_url
  valid_url-Accepted value h =
      let matches = good_authority out (authority (letters value)) in
      let (before, parsed_well) = and_true _ (good_parsed out (out.parse value)) h in
      let authority_well = (and_true _ matches before).1 in
      by_authority (authority (letters value)) refl authority_well parsed_well
    where
      by_authority :
          (o : Option (List ℕ × List ℕ))
          → authority (letters value) ≡ o
          → good_authority out o ≡ true
          → good_parsed out (out.parse value) ≡ true
          → Accepted value
      by_authority none q g w = cc
      by_authority (some (host, port)) q g w = elim (Option-cases (out.parse value)) [
        | inl n ↦ absurd (no_proof (rw n at w))
        | inr (u, parses) ↦ record {
          host = host;
          port = port;
          parsed = u;
          matched = (authority_iff (letters value) host port).0 q;
          short = ground (arith, h);
          no_fragment = ground (arith, h);
          port_fits = good_port-le port (and_true (good_port port) (good_host out host) g).0;
          good_host = good_host-GoodHost host (and_true (good_port port) (good_host out host) g).1;
          parses = parses;
          no_user = (good_parsed-some u (rw parses at w)).0;
          named = (good_parsed-some u (rw parses at w)).1;
          query = (good_parsed-some u (rw parses at w)).2;
        }
      ]
