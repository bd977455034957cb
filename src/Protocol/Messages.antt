-- ===== src/Protocol/Messages.antt =====
-- src/tinydb/protocol/messages.py: the messages, to frames and back.
pub mod Parts
pub mod RoundTrip
use tinydb.Base.{
  ℕ, zero, suc, ◌+◌, not, true, false, List, [], ◌∷◌, ◌++◌, length, take, drop, get_or, ltb, ◌==◌,
  if◌then◌else◌, Result, ok, raise, ◌>>=◌, ◌>>◌, value_error, struct_error, ℤ,
}
use tinydb.Bytes.{ByteString, be_value, pack_be}
use tinydb.Bytes.Signed.{pack_signed_be, unpack_signed_be}
use tinydb.Protocol.Frame.{Frame, make_frame}
use tinydb.Protocol.Platform.{Platform}
use tinydb.Protocol.Values.{Value, encode_values, decode_values}

abbrev pub max_params : ℕ
max_params = 1024

abbrev pub max_client_id : ℕ
max_client_id = 64

-- 1 << 20
abbrev pub max_sql_len : ℕ
max_sql_len = 0x10_0000

-- 1 << 16
abbrev pub max_err_msg_len : ℕ
max_err_msg_len = 0x1_0000

-- The message classes.
pub data Message (p : Platform) : Type 0 where
  hello : p.Str → Message p
  ok_msg : p.Str → Message p
  err : p.Str → p.Str → Message p
  query : p.Str → Message p
  exec : p.Str → List (Value p) → Message p
  result_header : List (p.Str × ℕ) → Message p
  result_row : List (Value p) → Message p
  result_done : ℤ → ℤ → ℕ → Message p
  result_error : p.Str → p.Str → Message p
  ping : ℕ → Message p
  pong : ℕ → Message p
  quit : Message p

-- `_require`
unfoldable pub require : ByteString → ℕ → Result (Unit {0})
require payload need = if ltb (length payload) need then raise value_error else ok tt

-- one element of `bytes([…])`, and `bytearray.append`
unfoldable pub one_byte : ℕ → Result ByteString
one_byte n = if ltb 0xFF n then raise value_error else ok (n ∷ [])

-- `struct.unpack(">Q", payload)`
unfoldable pub unpack_u64 : ByteString → Result ℕ
unpack_u64 payload = if length payload == 8 then ok (be_value payload) else raise struct_error

module _ (p : Platform) where
  -- `Hello(…)`
  unfoldable pub make_hello : p.Str → Result (Message p)
  make_hello client = do
    encoded ← p.utf8 client
    if ltb max_client_id (length encoded) then raise value_error else ok (hello client)

  -- `Exec(…)`
  unfoldable pub make_exec : p.Str → List (Value p) → Result (Message p)
  make_exec sql params =
      if ltb max_params (length params) then raise value_error else ok (exec sql params)

  -- the payload of `Err.to_frame` and of `ResultError.to_frame`
  unfoldable pub encode_error : p.Str → p.Str → Result ByteString
  encode_error code msg = do
    c ← p.ascii code
    m ← p.utf8 msg
    l ← pack_be 2 (length m)
    ok (c ++ (l ++ m))

  -- the loop of `ResultHeader.to_frame`
  unfoldable pub encode_columns : List (p.Str × ℕ) → Result ByteString
  encode_columns [] = ok []
  encode_columns ((name, type_code) ∷ columns) = do
    encoded ← p.utf8 name
    len ← one_byte (length encoded)
    code ← one_byte type_code
    rest ← encode_columns columns
    ok (len ++ (encoded ++ (code ++ rest)))

  -- `Hello.to_frame`, `Ok.to_frame` and `Query.to_frame`
  abbrev pub text_frame : ℕ → p.Str → Result Frame
  text_frame type text = p.utf8 text >>= make_frame 0 type 0

  -- `Exec.to_frame`
  abbrev pub exec_frame : p.Str → List (Value p) → Result Frame
  exec_frame sql params = do
    s ← p.utf8 sql
    l ← pack_be 4 (length s)
    n ← pack_be 2 (length params)
    body ← encode_values p params
    make_frame 0 0x11 0 (l ++ (s ++ (n ++ body)))

  -- `ResultHeader.to_frame`
  abbrev pub result_header_frame : List (p.Str × ℕ) → Result Frame
  result_header_frame columns = do
    n ← pack_be 2 (length columns)
    body ← encode_columns columns
    make_frame 0 0x20 0 (n ++ body)

  -- `ResultRow.to_frame`
  abbrev pub result_row_frame : List (Value p) → Result Frame
  result_row_frame values = do
    n ← pack_be 2 (length values)
    body ← encode_values p values
    make_frame 0 0x21 0 (n ++ body)

  -- `ResultDone.to_frame`
  abbrev pub result_done_frame : ℤ → ℤ → ℕ → Result Frame
  result_done_frame rowcount last_insert_id status_flags = do
    r ← pack_signed_be 8 rowcount
    i ← pack_signed_be 8 last_insert_id
    s ← one_byte status_flags
    make_frame 0 0x22 0 (r ++ (i ++ s))

  -- `Ping.to_frame` and `Pong.to_frame`
  abbrev pub stamp_frame : ℕ → ℕ → Result Frame
  stamp_frame type ts = pack_be 8 ts >>= make_frame 0 type 0

  -- The method `to_frame` of a message, by its class.
  unfoldable pub to_frame : Message p → Result Frame
  to_frame (hello client) = text_frame 0x01 client
  to_frame (ok_msg version) = text_frame 0x02 version
  to_frame (err code msg) = encode_error code msg >>= make_frame 0 0x03 0
  to_frame (query sql) = text_frame 0x10 sql
  to_frame (exec sql params) = exec_frame sql params
  to_frame (result_header columns) = result_header_frame columns
  to_frame (result_row values) = result_row_frame values
  to_frame (result_done rowcount last_insert_id status_flags) =
      result_done_frame rowcount last_insert_id status_flags
  to_frame (result_error code msg) = encode_error code msg >>= make_frame 0 0x23 0
  to_frame (ping ts) = stamp_frame 0x30 ts
  to_frame (pong ts) = stamp_frame 0x31 ts
  to_frame quit = make_frame 0 0xFE 0 []

  -- `from_frame` of `Err` and of `ResultError`
  unfoldable pub decode_error : (p.Str → p.Str → Message p) → ByteString → Result (Message p)
  decode_error make payload =
      let len = be_value (take 2 (drop 5 payload)) in
      require payload 7 >> (do
        code ← p.from_ascii (take 5 payload)
        (if ltb max_err_msg_len len
            then raise value_error
            else (require payload (7 + len)
                >> (do msg ← p.from_utf8 (take len (drop 7 payload)); ok (make code msg)))))

  -- `Exec.from_frame`
  unfoldable pub decode_exec : ByteString → Result (Message p)
  decode_exec payload =
      let sql_len = be_value (take 4 payload) in
      let rest = drop sql_len (drop 4 payload) in
      let param_count = be_value (take 2 rest) in
      require payload 4
      >> (if ltb max_sql_len sql_len
          then raise value_error
          else (require payload (4 + sql_len + 2) >> (do
            sql ← p.from_utf8 (take sql_len (drop 4 payload))
            (if ltb max_params param_count then raise value_error else (do
              params ← decode_values p false param_count (drop 2 rest)
              make_exec sql params)))))

  -- the loop of `ResultHeader.from_frame`
  unfoldable pub decode_columns : ℕ → ByteString → Result (List (p.Str × ℕ))
  decode_columns zero rest = ok []
  decode_columns (suc count) rest =
      let name_len = get_or rest 0 0 in
      let body = drop 1 rest in
      require rest 2
      >> (require body (name_len + 1) >> (do
        name ← p.from_utf8 (take name_len body)
        columns ← decode_columns count (drop 1 (drop name_len body))
        ok ((name, get_or (drop name_len body) 0 0) ∷ columns)))

  -- `Hello.from_frame`
  abbrev pub decode_hello : ByteString → Result (Message p)
  decode_hello payload =
      if ltb max_client_id (length payload)
      then raise value_error
      else p.from_utf8 payload >>= make_hello

  -- `Ok.from_frame`
  abbrev pub decode_ok : ByteString → Result (Message p)
  decode_ok payload = p.from_utf8 payload >>= λ version. ok (ok_msg version)

  -- `Query.from_frame`
  abbrev pub decode_query : ByteString → Result (Message p)
  decode_query payload =
      if ltb max_sql_len (length payload)
      then raise value_error
      else p.from_utf8 payload >>= λ sql. ok (query sql)

  -- `ResultHeader.from_frame`
  abbrev pub decode_header : ByteString → Result (Message p)
  decode_header payload =
      require payload 2
      >> (decode_columns (be_value (take 2 payload)) (drop 2 payload) >>= λ columns.
          ok (result_header columns))

  -- `ResultRow.from_frame`
  abbrev pub decode_result_row : ByteString → Result (Message p)
  decode_result_row payload =
      require payload 2
      >> (decode_values p true (be_value (take 2 payload)) (drop 2 payload) >>= λ values.
          ok (result_row values))

  -- `ResultDone.from_frame`
  abbrev pub decode_done : ByteString → Result (Message p)
  decode_done payload =
      require payload 17
      >> ok (
          result_done (unpack_signed_be 8 (take 8 payload))
            (unpack_signed_be 8 (take 8 (drop 8 payload))) (get_or payload 16 0))

  -- `Ping.from_frame` and `Pong.from_frame`
  abbrev pub decode_stamp : (ℕ → Message p) → ByteString → Result (Message p)
  decode_stamp make payload = require payload 8 >> (unpack_u64 payload >>= λ ts. ok (make ts))

  -- `decode_message`
  unfoldable pub decode_message : Frame → Result (Message p)
  decode_message f =
      if f.type == 0x01
      then decode_hello f.payload
      else if f.type == 0x02
      then decode_ok f.payload
      else if f.type == 0x03
      then decode_error err f.payload
      else if f.type == 0x10
      then decode_query f.payload
      else if f.type == 0x11
      then decode_exec f.payload
      else if f.type == 0x20
      then decode_header f.payload
      else if f.type == 0x21
      then decode_result_row f.payload
      else if f.type == 0x22
      then decode_done f.payload
      else if f.type == 0x23
      then decode_error result_error f.payload
      else if f.type == 0x30
      then decode_stamp ping f.payload
      else if f.type == 0x31
      then decode_stamp pong f.payload
      else if f.type == 0xFE
      then ok quit
      else raise value_error
