-- ===== src/Types.antt =====
-- src/tinydb/types/: the type tags, and the Python values that a column holds. What the code uses of
-- the classes `str`, `float`, `datetime` and `Decimal` and of `json` is a parameter.
pub mod Codec
pub mod Coerce
use tinydb.Base.{ℕ, Bool, Option, none, some, ◌==◌, if◌then◌else◌, Result, ℤ}
use tinydb.Bytes.{ByteString}

-- `TypeTag`
pub data TypeTag : Type 0 where
  null_tag int_tag float_tag text_tag bool_tag date_tag time_tag datetime_tag : TypeTag
  decimal_tag blob_tag json_tag : TypeTag

-- the byte of a tag
unfoldable pub tag_byte : TypeTag → ℕ
tag_byte null_tag = 0
tag_byte int_tag = 1
tag_byte float_tag = 2
tag_byte text_tag = 3
tag_byte bool_tag = 4
tag_byte date_tag = 5
tag_byte time_tag = 6
tag_byte datetime_tag = 7
tag_byte decimal_tag = 8
tag_byte blob_tag = 9
tag_byte json_tag = 10

-- `TypeTag(byte)`
unfoldable pub tag_of : ℕ → Option TypeTag
tag_of byte =
    if byte == 0
    then some null_tag
    else if byte == 1
    then some int_tag
    else if byte == 2
    then some float_tag
    else if byte == 3
    then some text_tag
    else if byte == 4
    then some bool_tag
    else if byte == 5
    then some date_tag
    else if byte == 6
    then some time_tag
    else if byte == 7
    then some datetime_tag
    else if byte == 8
    then some decimal_tag
    else if byte == 9
    then some blob_tag
    else if byte == 10
    then some json_tag
    else none

-- The classes of the values; `Other` has any other class.
pub record Classes : Type 1 where
  pub Str : Type 0
  pub Float : Type 0
  pub Date : Type 0
  pub Datetime : Type 0
  pub Zone : Type 0
  pub Decimal : Type 0
  pub Other : Type 0

-- `datetime.time`
pub record Time (c : Classes) : Type 0 where
  pub hour : ℕ
  pub minute : ℕ
  pub second : ℕ
  pub microsecond : ℕ
  pub tzinfo : Option c.Zone

-- A Python value.
pub data Value (c : Classes) : Type 0 where
  null : Value c
  int : ℤ → Value c
  bool : Bool → Value c
  float : c.Float → Value c
  text : c.Str → Value c
  date : c.Date → Value c
  time : Time c → Value c
  datetime : c.Datetime → Value c
  decimal : c.Decimal → Value c
  blob : ByteString → Value c
  other : c.Other → Value c

-- The calls of the library.
pub record Platform (c : Classes) : Type 0 where
  -- `encode("utf-8")` and `decode("utf-8")`
  pub utf8 : c.Str → Result ByteString
  pub from_utf8 : ByteString → Result c.Str
  -- `struct` with "<d"
  pub pack_double : Value c → Result ByteString
  pub unpack_double : ByteString → c.Float
  -- days since 1970-01-01, and back
  pub days : c.Date → ℤ
  pub date_of : ℤ → Result c.Date
  -- `datetime.time(…)`
  pub make_time : ℕ → ℕ → ℕ → ℕ → Result (Time c)
  -- `value.tzinfo`, and `value.astimezone(utc).replace(tzinfo=None)`
  pub zone_of : c.Datetime → Option c.Zone
  pub to_utc : c.Datetime → Result c.Datetime
  -- `value - epoch`, a timedelta as its microseconds, and the epoch plus a timedelta
  pub since_epoch : c.Datetime → ℤ
  pub datetime_of : ℤ → Result c.Datetime
  -- `total_seconds()` of a timedelta, the product of a double and `1_000_000`, `int` of a double
  pub total_seconds : ℤ → c.Float
  pub times_million : c.Float → c.Float
  pub truncate : c.Float → ℤ
  -- `format(value, "f")` and `Decimal(text)`
  pub format : c.Decimal → c.Str
  pub parse_decimal : c.Str → Result c.Decimal
  -- `json.dumps` and `json.loads`
  pub dumps : Value c → Result c.Str
  pub loads : c.Str → Result (Value c)
  -- `value.is_integer()` with `int(value)`, `float(value)` of an int, `Decimal(value)` of an int
  pub integral : c.Float → Option ℤ
  pub float_of : ℤ → Result c.Float
  pub decimal_of : ℤ → c.Decimal
  -- whether `isinstance(value, (list, dict, tuple))`
  pub is_container : c.Other → Bool
