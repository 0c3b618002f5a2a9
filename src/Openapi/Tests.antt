-- ===== src/Openapi/Tests.antt =====
-- A small document through Openapi.
use uptime.Prelude.{
  ◌≡◌, refl, ap, ◌&&◌, Bool-cases, inl, inr, arith, bytes_eq_iff, if◌then◌else◌, true, Option, none,
  some, [], ◌∷◌, ◌++◌, Bytes, codes, bytes_eq,
}
use uptime.Openapi.{
  Json, boolean, text, object, field, no_fields, array, item, no_items, get, annotated, normalize,
  union, Directory, Codecs, done, whole, normalize_nullable,
}
use uptime.Openapi.Again.{normalize_nullable_again}

abbrev before : Json
before = object (
    field (codes "type") (text (codes "string"))
      (field (codes "x-nullable") (boolean true) no_fields))

test_union : normalize before ≡ object (field (codes "type") (union (codes "string")) no_fields)
unfolding normalize annotated get bytes_eq
test_union = refl

abbrev typed : Bytes → Bytes → Bytes → Json
typed k t n = object (field k (array (item (text t) (item (text n) no_items))) no_fields)

-- Codecs for one kind of document: the text of `type: [t, null]` is t, and the empty file is
-- `before`.
abbrev shown : Json → Option Bytes
shown (object (field k (array (item (text t) (item (text n) no_items))) no_fields)) =
    if bytes_eq k (codes "type") && bytes_eq n (codes "null") then some t else none
shown _ = none

abbrev drop_last : Bytes → Bytes
drop_last [] = []
drop_last (b ∷ []) = []
drop_last (b ∷ c ∷ bs) = b ∷ drop_last (c ∷ bs)

abbrev read : Bytes → Option Json
read [] = some before
read (b ∷ bs) = some (typed (codes "type") (drop_last (b ∷ bs)) (codes "null"))

abbrev codecs : Codecs
codecs = record { decode = read; encode = shown; to_yaml = λ b. some b }

drop_last-append : (t : Bytes) → drop_last (t ++ 10 ∷ []) ≡ t
drop_last-append [] = refl
drop_last-append (b ∷ []) = refl
drop_last-append (b ∷ c ∷ bs) = ap (◌∷◌ b) (drop_last-append (c ∷ bs))

read-append : (t : Bytes) → read (t ++ 10 ∷ []) ≡ some (typed (codes "type") t (codes "null"))
read-append [] = refl
read-append (b ∷ bs) =
    ap (λ x. some (typed (codes "type") x (codes "null"))) (drop_last-append (b ∷ bs))

some-injective : (a b : Bytes) → some a ≡ some b → a ≡ b
some-injective a b e = cc

codecs_law : (j : Json) (bytes : Bytes) → shown j ≡ some bytes → read (bytes ++ 10 ∷ []) ≡ some j
codecs_law (object (field k (array (item (text t) (item (text n) no_items))) no_fields)) bytes e =
    elim (Bool-cases (bytes_eq k (codes "type"))) [
      | inr a ↦ absurd (ground (arith, e, a))
      | inl a ↦ elim (Bool-cases (bytes_eq n (codes "null"))) [
        | inr b ↦ absurd (ground (arith, e, a, b))
        | inl b ↦
            let type_is = (bytes_eq_iff k (codes "type")).0 a in
            let null_is = (bytes_eq_iff n (codes "null")).0 b in
            let same = some-injective t bytes (rw (a, b) at e) in
            rw (← same) (rw type_is (rw null_is (read-append t)))
      ]
    ]
codecs_law _ bytes e = cc

abbrev generated : Directory
generated = record { json = some []; yaml = none }

abbrev after : Directory
after = record { json = some (codes "string" ++ 10 ∷ []); yaml = some (codes "string" ++ 10 ∷ []) }

first_run : normalize_nullable codecs whole whole generated ≡ (done, after)
unfolding normalize_nullable normalize annotated get bytes_eq
first_run = refl

normalize_nullable_again_example : normalize_nullable codecs whole whole after ≡ (done, after)
normalize_nullable_again_example =
    normalize_nullable_again codecs whole whole generated after codecs_law first_run
