-- ===== src/Monitor/Controller/Cursor/RoundTrip.antt =====
-- A cursor that list hands out is the one that parseCursor reads.
use uptime.Prelude.{
  ℕ, ◌+◌, ◌*◌, ◌^◌, ◌/◌, ◌≤◌, ◌<◌, ◌≡◌, refl, false, some, [], ◌∷◌, ◌++◌, length, length-append,
  Bytes, bytes_eq, split, ltb, ◌==◌, arith, All,
}
use uptime.Store.Rows.{Monitor, second}
use uptime.Store.Monitors.Pages.{cursor_of}
use uptime.Monitor.Controller.Cursor.{
  Codec, next_cursor, parse_cursor, decoded_cursor, cursor_parts, both,
}

-- The bytes that neither a time nor a UUID contains.
abbrev pub Plain : Bytes → Type 0
Plain bs = All (λ b. (b == b'|') ≡ false) bs

-- Up to the year 9999, which RFC 3339 writes in four digits.
abbrev pub IsTimestamp : ℕ → Type 0
IsTimestamp t = t < 253_402_300_800 * second

abbrev pub IsUuid : ℕ → Type 0
IsUuid id = id < 2 ^ 128

-- What the packages document: each parses what it formats; a UUID is 36 bytes, a time in UTC at
-- most 30, neither with a bar, and unpadded base64 writes at most four bytes for three.
pub record CodecLaws (c : Codec) : Type 0 where
  pub decode-encode : (bs : Bytes) → c.decode_url (c.encode_url bs) ≡ some bs
  pub encode_shorter : (bs : Bytes) → length bs ≤ length (c.encode_url bs)
  pub encode_longer : (bs : Bytes) → length (c.encode_url bs) ≤ (4 * length bs + 2) / 3
  pub parse-format_time : (t : ℕ) → IsTimestamp t → c.parse_time (c.format_time t) ≡ some t
  pub time-Plain : (t : ℕ) → IsTimestamp t → Plain (c.format_time t)
  pub time_length : (t : ℕ) → IsTimestamp t → length (c.format_time t) ≤ 30
  pub parse-format_uuid : (id : ℕ) → IsUuid id → c.parse_uuid (c.format_uuid id) ≡ some id
  pub uuid-Plain : (id : ℕ) → IsUuid id → Plain (c.format_uuid id)
  pub uuid_length : (id : ℕ) → IsUuid id → length (c.format_uuid id) ≡ 36

-- The identity and the creation time of a monitor are in these ranges.
abbrev pub IsNamed : Monitor → Type 0
IsNamed m = IsTimestamp m.created_at × IsUuid m.id

split-Plain : (bs : Bytes) → Plain bs → split b'|' bs ≡ bs ∷ []
unfolding split
split-Plain [] h = refl
split-Plain (b ∷ bs) h = rw (h.0, split-Plain bs h.1) refl

split-append : (bs cs : Bytes) → Plain bs → Plain cs → split b'|' (bs ++ b'|' ∷ cs) ≡ bs ∷ cs ∷ []
unfolding split
split-append [] cs h h' = rw (split-Plain cs h') refl
split-append (b ∷ bs) cs h h' = rw (h.0, split-append bs cs h.1 h') refl

given : (bs : Bytes) → 0 < length bs → bytes_eq bs [] ≡ false
unfolding bytes_eq
given [] h = absurd (omega (arith, h))
given (b ∷ bs) h = refl

module _ (c : Codec) (laws : CodecLaws c) (m : Monitor) (named : IsNamed m) where
  text : Bytes
  text = c.format_time m.created_at ++ b'|' ∷ c.format_uuid m.id

  text-length : length text ≤ 67
  unfolding text
  text-length = omega (
    arith,
    length-append (c.format_time m.created_at) (b'|' ∷ c.format_uuid m.id),
    laws.time_length m.created_at named.0,
    laws.uuid_length m.id named.1,
  )

  text_given : 0 < length text
  unfolding text
  text_given = omega (arith, length-append (c.format_time m.created_at) (b'|' ∷ c.format_uuid m.id))

  pub next_cursor_some : bytes_eq (next_cursor c m) [] ≡ false
  unfolding next_cursor text
  next_cursor_some = given (next_cursor c m) (omega (arith, text_given, laws.encode_shorter text))

  next_cursor_short : ltb 128 (length (next_cursor c m)) ≡ false
  unfolding next_cursor text
  next_cursor_short = ground (arith, text-length, laws.encode_longer text)

  -- for formats that keep their documented laws, the cursor that list hands out for a monitor,
  -- created before the year 10000 and with a 128-bit identity, is read back as the creation time
  -- and the identity of that monitor.
  pub parse_cursor-next_cursor : parse_cursor c (next_cursor c m) ≡ some (some (cursor_of m))
  unfolding parse_cursor decoded_cursor cursor_parts both next_cursor text
  parse_cursor-next_cursor =
      rw
        (
          next_cursor_some,
          next_cursor_short,
          laws.decode-encode text,
          split-append (c.format_time m.created_at) (c.format_uuid m.id)
              (laws.time-Plain m.created_at named.0) (laws.uuid-Plain m.id named.1),
          laws.parse-format_time m.created_at named.0,
          laws.parse-format_uuid m.id named.1,
        )
        refl
