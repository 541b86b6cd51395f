-- ===== src/StreamEnvelope/RoundTrip.antt =====
-- src/redis/stream.envelope.ts: what is decoded from what was encoded.
use boilerplate_express_ts.Prelude.{
  ℕ, ◌≡◌, refl, Bool, true, ◌&&◌, Option, none, some, [], ◌∷◌, if◌then◌else◌, Text, text_eq, arith,
}
use boilerplate_express_ts.Prelude.Map
use boilerplate_express_ts.Prelude.Map.{Map}
use boilerplate_express_ts.StreamEnvelope.{
  Libraries, StreamEventEnvelope, is_present, encode_envelope, check_fields, decode_envelope,
}

-- The schema takes the texts of the envelope.
abbrev is_complete : {V : Type 0} → StreamEventEnvelope V → Bool
is_complete envelope =
    is_present envelope.id
    && (is_present envelope.name
        && elim envelope.correlation_id [ none ↦ true | some c ↦ is_present c ])

-- The envelope is encoded, and decoded to what it was, or refused when it is not complete.
abbrev pub IsReadBack : {V : Type 0} → Libraries V → Text → StreamEventEnvelope V → Type 0
IsReadBack lib entry_id envelope =
    (fields : Map Text) × ((encode_envelope lib envelope ≡ some fields)
      × (decode_envelope lib (record { id = entry_id; fields = fields })
          ≡ (if is_complete envelope then some envelope else none)))

module _ {V : Type 0} (lib : Libraries V) (entry_id id name iso : Text) (ms : ℕ) (payload : V)
    (written : lib.to_iso_string ms ≡ some iso) (is_date : lib.is_datetime iso ≡ true)
    (date : lib.parse_date iso ≡ ms)
    (json : lib.parse_json (lib.stringify payload) ≡ some payload) where
  abbrev envelope_of : Option Text → StreamEventEnvelope V
  envelope_of c = record {
    id = id;
    name = name;
    occurred_at = ms;
    correlation_id = c;
    payload = payload;
  }

  check_fields-encoded :
      (c : Option Text)
      → check_fields lib id name iso c (lib.stringify payload)
        ≡ (if is_complete (envelope_of c) then some (envelope_of c) else none)
  unfolding check_fields
  check_fields-encoded none = rw (is_date, json, date) (ground arith)
  check_fields-encoded (some []) = rw (is_date, json, date) (ground arith)
  check_fields-encoded (some (x ∷ c)) = rw (is_date, json, date) (ground arith)

  decode_fields : (c : Option Text) → IsReadBack lib entry_id (envelope_of c)
  unfolding decode_envelope encode_envelope Map.get Map.put text_eq
  decode_fields none = rw written (_, (refl, check_fields-encoded none))
  decode_fields (some c) = rw written (_, (refl, check_fields-encoded (some c)))

-- An envelope is encoded, and what an entry with any id and with those fields decodes to is the same
-- envelope, if its id and its name are not empty and its correlation id is absent or not empty, and an
-- error otherwise. The date of the envelope is one that is written as a timestamp which the schema takes
-- and which is read as the same date, as those of the years 1970 to 9999 are, and its payload is one that
-- `JSON.parse` reads back from what `JSON.stringify` writes.
pub decode_envelope-encode_envelope :
    {V : Type 0} (lib : Libraries V) (entry_id iso : Text) (envelope : StreamEventEnvelope V)
    → lib.to_iso_string envelope.occurred_at ≡ some iso
    → lib.is_datetime iso ≡ true
    → lib.parse_date iso ≡ envelope.occurred_at
    → lib.parse_json (lib.stringify envelope.payload) ≡ some envelope.payload
    → IsReadBack lib entry_id envelope
decode_envelope-encode_envelope lib entry_id iso e written is_date date json =
    decode_fields lib entry_id e.id e.name iso e.occurred_at e.payload written is_date date json
      e.correlation_id
