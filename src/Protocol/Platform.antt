-- ===== src/Protocol/Platform.antt =====
-- What src/tinydb/protocol/messages.py uses of Python's `str` and `float`, and of values of other classes.
use tinydb.Base.{◌≡◌, length, Result, ok}
use tinydb.Bytes.{ByteString}

pub record Platform : Type 1 where
  pub Str : Type 0
  pub Float : Type 0
  pub Other : Type 0
  -- `str(v)`
  pub str : Other → Str
  -- `encode` and `decode` for "utf-8" and "ascii"
  pub utf8 : Str → Result ByteString
  pub from_utf8 : ByteString → Result Str
  pub ascii : Str → Result ByteString
  pub from_ascii : ByteString → Result Str
  -- `struct` with ">d"
  pub pack_double : Float → ByteString
  pub unpack_double : ByteString → Float

-- What is encoded decodes to the same value, and a double has 8 bytes.
pub record IsFaithful (p : Platform) : Type 0 where
  pub utf8 : (s : p.Str) (b : ByteString) → p.utf8 s ≡ ok b → p.from_utf8 b ≡ ok s
  pub ascii : (s : p.Str) (b : ByteString) → p.ascii s ≡ ok b → p.from_ascii b ≡ ok s
  pub double : (x : p.Float) → p.unpack_double (p.pack_double x) ≡ x
  pub length_double : (x : p.Float) → length (p.pack_double x) ≡ 8
