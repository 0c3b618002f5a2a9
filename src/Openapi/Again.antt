-- ===== src/Openapi/Again.antt =====
-- A second run of NormalizeNullable in backend/internal/openapi/nullable.go.
use uptime.Prelude.{◌≡◌, refl, sym, ap, Option, none, some, [], ◌∷◌, ◌++◌, Bytes}
use uptime.Openapi.{
  Json, normalize, Directory, Codecs, done, Write, whole, broken, write_json, converted, encoded,
  decoded, found, normalize_nullable,
}
use uptime.Openapi.Clean.{normalize-Clean}

-- The directory after a run that ends well.
pub record Written (c : Codecs) (d : Directory) : Type 0 where
  pub document : Json
  pub bytes : Bytes
  pub yaml : Bytes
  pub encodes : c.encode (normalize document) ≡ some bytes
  pub converts : c.to_yaml (bytes ++ 10 ∷ []) ≡ some yaml
  pub files : d ≡ record { json = some (bytes ++ 10 ∷ []); yaml = some yaml }

module _ (c : Codecs) (first second : Write) (d d' : Directory) where
  converted-Written :
      (document : Json) (bytes : Bytes)
      → c.encode (normalize document) ≡ some bytes
      → (o : Option Bytes) → c.to_yaml (bytes ++ 10 ∷ []) ≡ o
      → converted c first second (bytes ++ 10 ∷ []) o d ≡ (done, d')
      → Written c d'
  converted-Written document bytes q none r h = cc
  converted-Written document bytes q (some y) r h = by_writes first second h
    where
      by_writes : (f s : Write) → write_json f s (bytes ++ 10 ∷ []) y d ≡ (done, d') → Written c d'
      by_writes (broken left) s h = cc
      by_writes whole (broken left) h = cc
      by_writes whole whole h = record {
        document = document;
        bytes = bytes;
        yaml = y;
        encodes = q;
        converts = r;
        files = sym (ap (λ x. x.1) h);
      }

  encoded-Written :
      (document : Json) (o : Option Bytes)
      → c.encode (normalize document) ≡ o
      → encoded c first second o d ≡ (done, d')
      → Written c d'
  encoded-Written document none q h = cc
  encoded-Written document (some bytes) q h =
      converted-Written document bytes q (c.to_yaml (bytes ++ 10 ∷ [])) refl h

  decoded-Written : (o : Option Json) → decoded c first second o d ≡ (done, d') → Written c d'
  decoded-Written none h = cc
  decoded-Written (some document) h =
      encoded-Written document (c.encode (normalize document)) refl h

  normalize_nullable-Written : normalize_nullable c first second d ≡ (done, d') → Written c d'
  unfolding normalize_nullable
  normalize_nullable-Written h = by_file d.json h
    where
      by_file : (o : Option Bytes) → found c first second o d ≡ (done, d') → Written c d'
      by_file none h = cc
      by_file (some bytes) h = decoded-Written (c.decode bytes) h

  -- where the JSON codec reads back the documents that it writes, with the newline behind them, a
  -- run of NormalizeNullable after one that ended without an error, when its writes succeed, ends
  -- without an error and leaves both files as they are.
  pub normalize_nullable_again :
      ((j : Json) (bytes : Bytes) → c.encode j ≡ some bytes → c.decode (bytes ++ 10 ∷ []) ≡ some j)
      → normalize_nullable c first second d ≡ (done, d')
      → normalize_nullable c whole whole d' ≡ (done, d')
  unfolding normalize_nullable
  normalize_nullable_again law h =
      let w = normalize_nullable-Written h in
      let clean = normalize-Clean w.document in
      rw w.files (
        rw (law (normalize w.document) w.bytes w.encodes) (
          rw ((normalize-Clean (normalize w.document)).1 clean.0)
            (rw w.encodes (rw w.converts refl))))
