-- ===== src/Monitor/Controller/Cursor/Sample.antt =====
-- Formats that fit the laws of a cursor, for tests: a number stands for itself.
use uptime.Prelude.{
  ℕ, zero, suc, ◌+◌, ◌-◌, ◌≡◌, refl, false, Option, some, none, List, [], ◌∷◌, Bytes, ltb, ◌==◌,
  arith, if◌then◌else◌,
}
use uptime.Monitor.Controller.Cursor.{Codec}
use uptime.Monitor.Controller.Cursor.RoundTrip.{Plain, CodecLaws}

abbrev padding : ℕ → List ℕ
padding zero = []
padding (suc n) = 0 ∷ padding n

abbrev first_byte : Bytes → Option ℕ
first_byte [] = none
first_byte (b ∷ bs) = if ltb b 125 then none else some (b - 125)

abbrev pub plain_codec : Codec
plain_codec = record {
  encode_url = λ bs. bs;
  decode_url = λ bs. some bs;
  format_time = λ t. (t + 125) ∷ [];
  parse_time = first_byte;
  format_uuid = λ id. (id + 125) ∷ padding 35;
  parse_uuid = first_byte;
}

first_byte_lem : (t : ℕ) (bs : Bytes) → first_byte ((t + 125) ∷ bs) ≡ some t
first_byte_lem t bs = ground arith

no_bar : (t : ℕ) → ((t + 125) == b'|') ≡ false
no_bar t = ground arith

padding-Plain : (n : ℕ) → Plain (padding n)
padding-Plain zero = tt
padding-Plain (suc n) = (refl, padding-Plain n)

pub plain_codec-CodecLaws : CodecLaws plain_codec
plain_codec-CodecLaws = record {
  decode-encode = λ bs. refl;
  encode_shorter = λ bs. omega arith;
  encode_longer = λ bs. omega arith;
  parse-format_time = λ t h. first_byte_lem t [];
  time-Plain = λ t h. (no_bar t, tt);
  time_length = λ t h. omega arith;
  parse-format_uuid = λ id h. first_byte_lem id (padding 35);
  uuid-Plain = λ id h. (no_bar id, padding-Plain 35);
  uuid_length = λ id h. refl;
}
