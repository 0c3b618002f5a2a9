-- ===== src/Auth/Controller/Tokens.antt =====
-- Access tokens from the service through the header Authorization to a guarded handler:
-- backend/internal/auth/controller.go with crypto.go.
use mathlib.Core.List.{append-nil, append_assoc}
use uptime.Prelude.{
  space_size, flush, fields_from, fields, ℕ, ◌+◌, ◌*◌, ◌/◌, ◌^◌, ◌≤◌, ◌<◌, ◌≡◌, ◌≢◌, refl, sym, ap,
  ◌∙◌, ◌&&◌, none, some, List, [], ◌∷◌, ◌++◌, Bytes, codes, bytes_eq, arith, bytes_eq_iff, not,
  Option-cases, ◌⊎◌, ltb, if◌then◌else◌, ◌==◌, Bool-cases, inl, inr, map,
}
use uptime.Store.Rows.{second}
use uptime.Store.Exec.{Fates, ok, err, unauthorized}
use uptime.Auth.Crypto.{Primitives, Claims, issue_access, verify}
use uptime.Auth.Controller.Bearer.{lower, is_bearer, token_of, bearer_token}
use uptime.Auth.Controller.{Next, authenticate, handle_error}

-- Bytes of ASCII that are neither white space nor control codes.
abbrev pub Visible : Bytes → Type 0
Visible [] = Unit {0}
Visible (b ∷ bs) = ((33 ≤ b) × (b < 127)) × Visible bs

space_size-Visible : (b : ℕ) (bs : Bytes) → 33 ≤ b → b < 127 → space_size (b ∷ bs) ≡ 0
unfolding space_size
space_size-Visible b bs l h = ground arith

-- The rest of a text of visible bytes joins the field.
fields_from-Visible : (cur bs : Bytes) → Visible bs → fields_from 0 cur bs ≡ flush (cur ++ bs) []
unfolding fields_from
fields_from-Visible cur [] v = ap (λ x. flush x []) (sym (append-nil cur))
fields_from-Visible cur (b ∷ bs) v = rw (space_size-Visible b bs v.0.0 v.0.1) (
    fields_from-Visible (cur ++ b ∷ []) bs v.1
    ∙ ap (λ x. flush x []) (append_assoc cur (b ∷ []) bs))

-- The header of a client reads as its token.
bearer_token-Visible :
    (b : ℕ) (bs : Bytes)
    → Visible (b ∷ bs)
    → bearer_token (codes "Bearer " ++ b ∷ bs) ≡ some (b ∷ bs)
unfolding bearer_token fields fields_from token_of is_bearer space_size bytes_eq
bearer_token-Visible b bs v = rw (fields_from-Visible [] (b ∷ bs) v) refl

-- What the JWT library makes of a token that it signed for a user at `now`, to expire at
-- `expires`, with both in whole seconds: its claims until it expires, and nothing after.
abbrev pub Parses : Primitives → ℕ → ℕ → ℕ → Bytes → Type 0
Parses p id now expires token =
    (c : Claims) × (p.parse_uuid c.subject ≡ some id)
    × (c.issued_at ≡ some (now / second * second))
    × (c.expires_at ≡ some (expires / second * second))
    × ((at : ℕ)
        → now ≤ at
        → p.parse_jwt at token ≡ (if ltb at (expires / second * second) then some c else none))

-- What its documentation says of a token for a user who is not uuid.Nil, with times that fit 63
-- bits of nanoseconds.
abbrev pub SignsAndParses : Primitives → Type 0
SignsAndParses p =
    (id now expires : ℕ) (token : Bytes)
    → id ≢ 0
    → id < 2 ^ 128
    → now ≤ expires
    → expires < 2 ^ 63
    → p.sign id now expires ≡ some token
    → Parses p id now expires token × Visible token

-- A header that carries a token with the claims of a user.
pub record Carries (p : Primitives) (at : ℕ) (header : Bytes) (id : ℕ) : Type 0 where
  pub scheme : Bytes
  pub token : Bytes
  pub claims : Claims
  pub issued_at : ℕ
  pub expires_at : ℕ
  pub two_fields : fields header ≡ scheme ∷ token ∷ []
  pub bearer : map lower scheme ≡ codes "bearer"
  pub parsed : p.parse_jwt at token ≡ some claims
  pub issued : claims.issued_at ≡ some issued_at
  pub expires : claims.expires_at ≡ some expires_at
  pub in_order : issued_at < expires_at
  pub subject : p.parse_uuid claims.subject ≡ some id
  pub not_nil : id ≢ 0

token_of-cases :
    (fs : List Bytes)
    → (token_of fs ≡ none)
      ⊎ ((scheme : Bytes) × (token : Bytes) × (fs ≡ scheme ∷ token ∷ [])
          × (map lower scheme ≡ codes "bearer")
          × (token_of fs ≡ some token))
unfolding token_of is_bearer
token_of-cases [] = inl refl
token_of-cases (x ∷ []) = inl refl
token_of-cases (x ∷ y ∷ z ∷ zs) = inl refl
token_of-cases (x ∷ y ∷ []) = elim (Bool-cases (bytes_eq (map lower x) (codes "bearer"))) [
  | inl e ↦ inr (x, y, refl, (bytes_eq_iff (map lower x) (codes "bearer")).0 e, rw e refl)
  | inr e ↦ inl (rw e refl)
]

-- The claims of a user in a parsed token.
abbrev Claimed : Primitives → ℕ → Bytes → ℕ → Type 0
Claimed p at token id =
    (c : Claims) × (i : ℕ) × (e : ℕ) × (p.parse_jwt at token ≡ some c)
    × (c.issued_at ≡ some i)
    × (c.expires_at ≡ some e)
    × (i < e)
    × (p.parse_uuid c.subject ≡ some id)
    × (id ≢ 0)

verify-Claimed :
    (p : Primitives) (at : ℕ) (token : Bytes) (id : ℕ)
    → Claimed p at token id
    → verify p at token ≡ ok id
unfolding verify
verify-Claimed p at token id (c, i, e, parsed, issued, expires, lt, subject, nz) =
    rw parsed (rw issued (rw expires (rw subject (ground arith))))

verify-none :
    (p : Primitives) (at : ℕ) (token : Bytes)
    → p.parse_jwt at token ≡ none
    → verify p at token ≡ err unauthorized
unfolding verify
verify-none p at token h = rw h refl

-- A token is issued in a second before that it expires in.
whole_seconds : (now : ℕ) → now / second * second < (now + 900 * second) / second * second
whole_seconds now = ground arith

-- an access token that the service issues for a user signs that user in for 15 minutes less part
-- of a second: where the JWT library parses a token that it signed back to the claims it was
-- signed with, in whole seconds, until the token expires and not from then on, and its tokens are
-- visible characters, the header `Bearer` with the token, at any time from its issue on, runs the
-- guarded handler with the identity of that user before the second in which the 15 minutes end,
-- and is answered with 401 and an unchanged state from that second on, whatever the handler does;
-- the identity has 128 bits and is not nil, and the expiry is below 2 ^ 63 nanoseconds.
pub issued_token_passes :
    {A S : Type 0} (p : Primitives) (next : Next A S) (id now at : ℕ) (b : ℕ) (bs : Bytes)
    → SignsAndParses p
    → id ≢ 0
    → id < 2 ^ 128
    → now + 900 * second < 2 ^ 63
    → issue_access p id now ≡ some (b ∷ bs)
    → now ≤ at
    → (fs : Fates) (w : S)
    → authenticate p next at (codes "Bearer " ++ b ∷ bs) fs w ≡ (
        if ltb at ((now + 900 * second) / second * second)
        then next (some id) fs w
        else (handle_error unauthorized, w))
unfolding authenticate issue_access
issued_token_passes p next id now at b bs law nz wide fits issued later fs w =
    let (parses, visible) =
      law id now (now + 900 * second) (b ∷ bs) nz wide (omega arith) fits issued in
    let (c, subject, issued_at, expires_at, parsed) = parses in
    elim (Bool-cases (ltb at ((now + 900 * second) / second * second))) [
      | inl early ↦
          rw (early, bearer_token-Visible b bs visible)
            (rw
              (verify-Claimed p at (b ∷ bs) id (
                c,
                now / second * second,
                (now + 900 * second) / second * second,
                rw early at (parsed at later),
                issued_at,
                expires_at,
                whole_seconds now,
                subject,
                nz,
              ))
              refl)
      | inr late ↦
          rw (late, bearer_token-Visible b bs visible)
            (rw (verify-none p at (b ∷ bs) (rw late at (parsed at later))) refl)
    ]

verify-cases :
    (p : Primitives) (at : ℕ) (token : Bytes)
    → (verify p at token ≡ err unauthorized) ⊎ ((id : ℕ) × Claimed p at token id)
unfolding verify
verify-cases p at token = elim (Option-cases (p.parse_jwt at token)) [
  | inl n ↦ inl (rw n refl)
  | inr (c, parsed) ↦ elim (Option-cases c.issued_at) [
    | inl n ↦ inl (rw parsed (rw n refl))
    | inr (i, issued) ↦ elim (Option-cases c.expires_at) [
      | inl n ↦ inl (rw parsed (rw issued (rw n refl)))
      | inr (e, expires) ↦ elim (Option-cases (p.parse_uuid c.subject)) [
        | inl n ↦ inl (rw parsed (rw issued (rw expires (rw n (ground arith)))))
        | inr (id, subject) ↦ elim (Bool-cases (ltb i e && not (id == 0))) [
          | inl h ↦
              inr (id, (c, i, e, parsed, issued, expires, ground arith, subject, ground arith))
          | inr h ↦ inl (rw parsed (rw issued (rw expires (rw subject (ground arith)))))
        ]
      ]
    ]
  ]
]

module _ {A S : Type 0} (p : Primitives) (next : Next A S) (at : ℕ) (header : Bytes) (fs : Fates)
    (w : S) where
  pub Carries-passes :
      (id : ℕ) → Carries p at header id → authenticate p next at header fs w ≡ next (some id) fs w
  unfolding authenticate bearer_token token_of is_bearer
  Carries-passes id h = rw h.two_fields (
      rw ((bytes_eq_iff (map lower h.scheme) (codes "bearer")).1 h.bearer) (
        rw
          (verify-Claimed p at h.token id (
            h.claims, h.issued_at, h.expires_at, h.parsed, h.issued, h.expires, h.in_order,
            h.subject, h.not_nil,
          ))
          refl))

  pub refused_or_Carries :
      (authenticate p next at header fs w ≡ (handle_error unauthorized, w))
      ⊎ ((id : ℕ) × Carries p at header id)
  unfolding authenticate bearer_token
  refused_or_Carries = elim (token_of-cases (fields header)) [
    | inl none_found ↦ inl (rw none_found refl)
    | inr (scheme, token, two, bearer, found) ↦ elim (verify-cases p at token) [
      | inl refused ↦ inl (rw found (rw refused refl))
      | inr (id, (c, i, e, parsed, issued, expires, lt, subject, nz)) ↦ inr (
        id,
        record {
          scheme = scheme;
          token = token;
          claims = c;
          issued_at = i;
          expires_at = e;
          two_fields = two;
          bearer = bearer;
          parsed = parsed;
          issued = issued;
          expires = expires;
          in_order = lt;
          subject = subject;
          not_nil = nz;
        },
      )
    ]
  ]

  -- a request runs the guarded handler with the identity of a user exactly when its header has
  -- two fields, the first is Bearer in letters of any case, and the second a token that the JWT
  -- library verifies, issued before it expires, with the identity of that user, not the nil one,
  -- as its subject; any other request is answered with 401 and leaves the database as it is.
  pub authenticate-Carries :
      ((id : ℕ) → Carries p at header id → authenticate p next at header fs w ≡ next (some id) fs w)
      × (((id : ℕ) → ¬ Carries p at header id)
          → authenticate p next at header fs w ≡ (handle_error unauthorized, w))
  authenticate-Carries = (
    Carries-passes,
    λ none_carried. elim refused_or_Carries [
      | inl refused ↦ refused
      | inr (id, h) ↦ elim (none_carried id h) [ ]
    ],
  )
