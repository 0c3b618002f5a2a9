-- ===== src/Openapi/Clean.antt =====
-- What the pass of backend/internal/openapi/nullable.go leaves, and what it leaves as it is.
use uptime.Prelude.{◌≡◌, refl, ap, Option, none, some, Bytes, bytes_eq, Bool-cases, inl, inr}
use uptime.Openapi.{
  Json, null, boolean, number, text, array, object, Items, no_items, item, Fields, no_fields, field,
  get, is_true, as_text, nullable, type_key, annotated, normalize, normalize_items,
  normalize_fields,
}

-- No map is annotated as nullable and has a type.
unfoldable mutual
  pub Clean : Json → Type 0
  Clean (array is) = CleanItems is
  Clean (object fs) = (annotated fs ≡ none) × CleanFields fs
  Clean _ = Unit {0}

  pub CleanItems : Items → Type 0
  CleanItems no_items = Unit {0}
  CleanItems (item j is) = Clean j × CleanItems is

  pub CleanFields : Fields → Type 0
  CleanFields no_fields = Unit {0}
  CleanFields (field k j fs) = Clean j × CleanFields fs

-- The pass keeps which values are true, and which are texts.
true_kept : (j : Json) → is_true (some (normalize j)) ≡ is_true (some j)
unfolding normalize
true_kept null = refl
true_kept (boolean b) = refl
true_kept (number n) = refl
true_kept (text t) = refl
true_kept (array is) = refl
true_kept (object fs) = refl

text_kept : (j : Json) → as_text (some (normalize j)) ≡ as_text (some j)
unfolding normalize
text_kept null = refl
text_kept (boolean b) = refl
text_kept (number n) = refl
text_kept (text t) = refl
text_kept (array is) = refl
text_kept (object fs) = refl

get_true :
    (key : Bytes) (fs : Fields)
    → is_true (get key (normalize_fields none fs)) ≡ is_true (get key fs)
unfolding get normalize_fields
get_true key no_fields = refl
get_true key (field k j fs) = elim (Bool-cases (bytes_eq k key)) [
  | inl e ↦ rw e (true_kept j)
  | inr e ↦ rw e (get_true key fs)
]

get_text :
    (key : Bytes) (fs : Fields)
    → as_text (get key (normalize_fields none fs)) ≡ as_text (get key fs)
unfolding get normalize_fields
get_text key no_fields = refl
get_text key (field k j fs) = elim (Bool-cases (bytes_eq k key)) [
  | inl e ↦ rw e (text_kept j)
  | inr e ↦ rw e (get_text key fs)
]

-- The annotation is gone from a map that had it.
annotation_gone :
    (kind : Bytes) (fs : Fields) → get nullable (normalize_fields (some kind) fs) ≡ none
unfolding get normalize_fields
annotation_gone kind no_fields = refl
annotation_gone kind (field k j fs) = elim (Bool-cases (bytes_eq k nullable)) [
  | inl e ↦ rw e (annotation_gone kind fs)
  | inr e ↦ rw e (elim (Bool-cases (bytes_eq k type_key)) [
    | inl t ↦ rw t (rw e (annotation_gone kind fs))
    | inr t ↦ rw t (rw e (annotation_gone kind fs))
  ])
]

unannotated :
    (o : Option Bytes) (fs : Fields) → annotated fs ≡ o → annotated (normalize_fields o fs) ≡ none
unfolding annotated
unannotated none fs e = rw (get_true nullable fs) (rw (get_text type_key fs) e)
unannotated (some kind) fs e = rw (annotation_gone kind fs) refl

mutual
  unfolding normalize Clean

  cleaned : (j : Json) → Clean (normalize j)
  cleaned null = tt
  cleaned (boolean b) = tt
  cleaned (number n) = tt
  cleaned (text t) = tt
  cleaned (array is) = cleaned_items is
  cleaned (object fs) = (unannotated (annotated fs) fs refl, cleaned_fields (annotated fs) fs)

  cleaned_items : (is : Items) → CleanItems (normalize_items is)
  cleaned_items no_items = tt
  cleaned_items (item j is) = (cleaned j, cleaned_items is)

  cleaned_fields : (o : Option Bytes) (fs : Fields) → CleanFields (normalize_fields o fs)
  cleaned_fields o no_fields = tt
  cleaned_fields none (field k j fs) = (cleaned j, cleaned_fields none fs)
  cleaned_fields (some kind) (field k j fs) = elim (Bool-cases (bytes_eq k nullable)) [
    | inl e ↦ rw e (cleaned_fields (some kind) fs)
    | inr e ↦ rw e (elim (Bool-cases (bytes_eq k type_key)) [
      | inl t ↦ rw t ((tt, (tt, tt)), cleaned_fields (some kind) fs)
      | inr t ↦ rw t (cleaned j, cleaned_fields (some kind) fs)
    ])
  ]

mutual
  unfolding normalize Clean

  fixed : (j : Json) → Clean j → normalize j ≡ j
  fixed null c = refl
  fixed (boolean b) c = refl
  fixed (number n) c = refl
  fixed (text t) c = refl
  fixed (array is) c = ap array (fixed_items is c)
  fixed (object fs) c = rw c.0 (ap object (fixed_fields fs c.1))

  fixed_items : (is : Items) → CleanItems is → normalize_items is ≡ is
  fixed_items no_items c = refl
  fixed_items (item j is) c = rw (fixed j c.0) (rw (fixed_items is c.1) refl)

  fixed_fields : (fs : Fields) → CleanFields fs → normalize_fields none fs ≡ fs
  fixed_fields no_fields c = refl
  fixed_fields (field k j fs) c = rw (fixed j c.0) (rw (fixed_fields fs c.1) refl)

-- After the pass no map in a document is annotated as nullable with a type that is a text, and a
-- document without such a map stays as it is.
pub normalize-Clean : (j : Json) → Clean (normalize j) × (Clean j → normalize j ≡ j)
normalize-Clean j = (cleaned j, fixed j)
