-- ===== src/StreamEnvelope.antt =====
-- src/redis/stream.envelope.ts. What zod, `JSON` and `Date` do with texts is a parameter, and a payload is a
-- value of `V`. A date is its milliseconds since 1970; earlier dates, and `undefined` as a payload, are
-- left out. An encoding that throws is `none`.
pub mod RoundTrip
mod Tests
use boilerplate_express_ts.Prelude.{
  ℕ, Bool, true, false, not, ◌&&◌, Option, none, some, List, [], ◌∷◌, if◌then◌else◌, Text, codes,
}
use boilerplate_express_ts.Prelude.Map
use boilerplate_express_ts.Prelude.Map.{Map}
use boilerplate_express_ts.StreamGroup.{StreamEntry}

pub record Libraries (V : Type 0) : Type 0 where
  -- `z.string().datetime({ offset: true })`.
  pub is_datetime : Text → Bool
  pub parse_date : Text → ℕ
  -- `toISOString`, which throws a `RangeError` for a date out of range.
  pub to_iso_string : ℕ → Option Text
  -- `JSON.parse`, which may throw.
  pub parse_json : Text → Option V
  pub stringify : V → Text

pub record StreamEventEnvelope (V : Type 0) : Type 0 where
  pub id : Text
  pub name : Text
  pub occurred_at : ℕ
  pub correlation_id : Option Text
  pub payload : V

infixl 5 ◌>>=◌
abbrev ◌>>=◌ : {A B : Type 0} → Option A → (A → Option B) → Option B
none >>= f = none
some a >>= f = f a

abbrev pub id_field : Text
id_field = codes "id"

abbrev pub name_field : Text
name_field = codes "name"

abbrev pub occurred_at_field : Text
occurred_at_field = codes "occurredAt"

abbrev pub correlation_id_field : Text
correlation_id_field = codes "correlationId"

abbrev pub payload_field : Text
payload_field = codes "data"

-- `z.string().min(1)`.
abbrev pub is_present : Text → Bool
is_present [] = false
is_present (_ ∷ _) = true

-- `z.string().min(1).optional()`: `none` is a failure.
abbrev pub optional_text : Option Text → Option (Option Text)
optional_text none = some none
optional_text (some t) = if is_present t then some (some t) else none

module _ {V : Type 0} (lib : Libraries V) where
  abbrev pub with_correlation : Option Text → Map Text → Map Text
  with_correlation none fields = fields
  with_correlation (some c) fields = Map.put correlation_id_field c fields

  unfoldable pub encode_envelope : StreamEventEnvelope V → Option (Map Text)
  encode_envelope envelope = do
    occurred_at ← lib.to_iso_string envelope.occurred_at
    some (
        with_correlation envelope.correlation_id (
          (id_field, envelope.id)
          ∷ (name_field, envelope.name)
          ∷ (occurred_at_field, occurred_at)
          ∷ (payload_field, lib.stringify envelope.payload)
          ∷ []))

  -- The checks of the schema.
  abbrev pub has_texts : Text → Text → Text → Option Text → Option (Option Text)
  has_texts id name occurred_at correlation_id =
      if is_present id && (is_present name && lib.is_datetime occurred_at)
      then optional_text correlation_id
      else none

  -- The checks, and `JSON.parse`, on the fields that were found.
  unfoldable pub check_fields :
      Text → Text → Text → Option Text → Text → Option (StreamEventEnvelope V)
  check_fields id name occurred_at correlation_id data_text = do
    correlation ← has_texts id name occurred_at correlation_id
    payload ← lib.parse_json data_text
    some (record {
      id = id;
      name = name;
      occurred_at = lib.parse_date occurred_at;
      correlation_id = correlation;
      payload = payload;
    })

  -- `none` is a `MalformedStreamEntryError`.
  unfoldable pub decode_envelope : StreamEntry → Option (StreamEventEnvelope V)
  unfolding check_fields
  decode_envelope entry = do
    id ← Map.get id_field entry.fields
    name ← Map.get name_field entry.fields
    occurred_at ← Map.get occurred_at_field entry.fields
    data_text ← Map.get payload_field entry.fields
    check_fields id name occurred_at (Map.get correlation_id_field entry.fields) data_text
