-- ===== src/StreamEnvelope/Tests.antt =====
-- Runs of src/redis/stream.envelope.ts. A payload is a text, which stands for itself. The dates are those of
-- the first day of 1970, as `toISOString` writes them, and other dates are taken to be out of range.
use boilerplate_express_ts.Prelude.{
  ℕ, ◌+◌, ◌*◌, ◌/◌, ◌%◌, ◌≡◌, refl, Bool, true, false, ◌&&◌, none, some, [], ◌∷◌, ◌++◌,
  if◌then◌else◌, ltb, leb, ◌==◌, take, drop, Text, codes, text_eq, read,
}
use boilerplate_express_ts.Prelude.Map
use boilerplate_express_ts.StreamEnvelope.{
  Libraries, StreamEventEnvelope, encode_envelope, decode_envelope,
}
use boilerplate_express_ts.StreamEnvelope.RoundTrip.{IsReadBack, decode_envelope-encode_envelope}

abbrev digit : ℕ → ℕ
digit n = 48 + n % 10

abbrev two_digits : ℕ → Text
two_digits n = digit (n / 10) ∷ digit n ∷ []

abbrev iso_of : ℕ → Text
iso_of ms =
    codes "1970-01-01T"
    ++ two_digits (ms / 3600000)
    ++ codes ":"
    ++ two_digits (ms / 60000 % 60)
    ++ codes ":"
    ++ two_digits (ms / 1000 % 60)
    ++ codes "."
    ++ digit (ms / 100) ∷ two_digits ms
    ++ codes "Z"

-- A text of the shape of another, where `0` stands for any digit.
abbrev has_shape : Text → Text → Bool
has_shape [] [] = true
has_shape (s ∷ shape) (c ∷ t) =
    (if s == 48 then leb 48 c && ltb c 58 else (s == c)) && has_shape shape t
has_shape _ _ = false

abbrev number_at : ℕ → ℕ → Text → ℕ
number_at place count t = read (take count (drop place t))

abbrev ms_of : Text → ℕ
ms_of t =
    number_at 11 2 t * 3600000
    + number_at 14 2 t * 60000
    + number_at 17 2 t * 1000
    + number_at 20 3 t

abbrev lib : Libraries Text
lib = record {
  is_datetime = has_shape (codes "0000-00-00T00:00:00.000Z");
  parse_date = ms_of;
  to_iso_string = λ ms. if ltb ms 86400000 then some (iso_of ms) else none;
  parse_json = some;
  stringify = λ t. t;
}

abbrev sent : StreamEventEnvelope Text
sent = record {
  id = codes "e1";
  name = codes "user.created";
  occurred_at = 45296789;
  correlation_id = some (codes "r7");
  payload = codes "{}";
}

decode_sent : IsReadBack lib (codes "9-1") sent
unfolding read
decode_sent =
    decode_envelope-encode_envelope lib (codes "9-1") (codes "1970-01-01T12:34:56.789Z") sent refl
      refl refl refl

encode_out_of_range : encode_envelope lib (record sent { occurred_at = 86400000 }) ≡ none
unfolding encode_envelope
encode_out_of_range = refl

decode_missing_date :
    decode_envelope lib (record {
      id = codes "9-1";
      fields =
          (codes "id", codes "e1") ∷ (codes "name", codes "n") ∷ (codes "data", codes "{}") ∷ [];
    })
    ≡ none
unfolding decode_envelope Map.get text_eq
decode_missing_date = refl
