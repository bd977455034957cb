-- ===== src/Tx/Wal.antt =====
-- src/tinydb/tx/wal.py: the append-only log. The file is a byte string, and each loop over it
-- holds the bytes that the file handle has not read yet. A loop takes fuel, one round for each
-- frame that it passes; a frame has 17 bytes at least, so a round more than the file has bytes is
-- enough. `zlib_crc32` is `zlib.crc32`.
pub mod Frames
pub mod Torn
pub mod Log
pub mod Durability
pub mod Total
use tinydb.Base.{
  ℕ, zero, suc, ◌+◌, ◌%◌, ◌^◌, Bool, true, false, not, ◌&&◌, ◌||◌, Option, none, some, List, [],
  ◌∷◌, ◌++◌, length, take, drop, ltb, leb, ◌==◌, if◌then◌else◌, Result, ok, raise, ◌>>=◌,
  value_error, lock_unavailable,
}
use tinydb.Bytes.{ByteString, le_bytes, le_value, be_value, pack_be}

abbrev pub header_size : ℕ
header_size = 13

abbrev pub crc_size : ℕ
crc_size = 4

-- RT_BEGIN, RT_COMMIT, RT_ROLLBACK, RT_PAGE, RT_CKPT
abbrev pub rt_begin : ℕ
rt_begin = 1

abbrev pub rt_commit : ℕ
rt_commit = 2

abbrev pub rt_rollback : ℕ
rt_rollback = 3

abbrev pub rt_page : ℕ
rt_page = 4

abbrev pub rt_ckpt : ℕ
rt_ckpt = 5

-- `WALRecord`
pub record WalRecord : Type 0 where
  pub lsn : ℕ
  pub type : ℕ
  pub payload : ByteString

-- `lock_available` is what the platform offers to `ProcessLock`.
pub record Wal : Type 0 where
  pub file : ByteString
  pub next_lsn : ℕ
  pub closed : Bool
  pub use_process_lock : Bool
  pub lock_available : Bool

-- How an iteration ended: at the end of the file, at a torn tail, with `WALCorruptionError` at an
-- offset, with the error of a closed file; or the model's fuel ran out.
pub data Ending : Type 0 where
  clean torn closed_file stuck : Ending
  corrupt : ℕ → Ending

-- How the walk of `truncate_to` ended.
pub data Cut : Type 0 where
  end_of_file out_of_fuel : Cut
  cut : ℕ → Cut

-- `struct.pack(">QBI", …)`
unfoldable pub pack_header : ℕ → ℕ → ℕ → Result ByteString
pack_header lsn type payload_len = do
  a ← pack_be 8 lsn
  b ← pack_be 1 type
  c ← pack_be 4 payload_len
  ok (a ++ (b ++ c))

-- `struct.unpack(">QBI", …)`
unfoldable pub unpack_header : ByteString → ℕ × ℕ × ℕ
unpack_header header =
    (be_value (take 8 header), be_value (take 1 (drop 8 header)), be_value (drop 9 header))

unfoldable pub close : Wal → Wal
close w = record w { closed = true }

module _ (zlib_crc32 : ByteString → ℕ) where
  -- `& 0xFFFFFFFF`
  unfoldable pub crc32 : ByteString → ℕ
  crc32 blob = zlib_crc32 blob % 2 ^ 32

  unfoldable pub append : Wal → ℕ → ByteString → Result ℕ × Wal
  append w type payload = elim (pack_header w.next_lsn type (length payload)) [
    | raise e ↦ (raise e, w)
    | ok header ↦
        let body = header ++ payload in
        if w.use_process_lock && not w.lock_available
        then (raise lock_unavailable, w)
        else if w.closed
        then (raise value_error, w)
        else (
          ok w.next_lsn,
          record w {
            file = w.file ++ (body ++ le_bytes crc_size (crc32 body));
            next_lsn = w.next_lsn + 1;
          },
        )
  ]

  -- the loop of `iter_from`; `rest` is the file from `offset` on
  unfoldable pub iter_loop : ℕ → ℕ → ℕ → ByteString → List WalRecord × Ending
  iter_loop zero lsn offset rest = ([], stuck)
  iter_loop (suc fuel) lsn offset rest =
      let header = take header_size rest in
      let (frame_lsn, frame_type, payload_len) = unpack_header header in
      let payload = take payload_len (drop header_size rest) in
      let after = drop payload_len (drop header_size rest) in
      let crc_bytes = take crc_size after in
      let more =
        iter_loop fuel lsn (offset + header_size + payload_len + crc_size) (drop crc_size after) in
      let one : WalRecord = record { lsn = frame_lsn; type = frame_type; payload = payload } in
      if length header == 0
      then ([], clean)
      else if ltb (length header) header_size
      then ([], torn)
      else if ltb (length payload) payload_len || ltb (length crc_bytes) crc_size
      then ([], torn)
      else if not (crc32 (header ++ payload) == le_value crc_bytes)
      then ([], corrupt offset)
      else if leb lsn frame_lsn
      then (one ∷ more.0, more.1)
      else more

  unfoldable pub iter_from : Wal → ℕ → List WalRecord × Ending
  iter_from w lsn =
      if w.closed
      then ([], closed_file)
      else iter_loop (suc (length w.file)) (if ltb lsn 1 then 1 else lsn) 0 w.file

  -- the loop of `_recover_lsn`; `none` is the end of the fuel
  unfoldable pub recover_loop : ℕ → ℕ → ByteString → Option ℕ
  recover_loop zero next_lsn rest = none
  recover_loop (suc fuel) next_lsn rest =
      let header = take header_size rest in
      let (frame_lsn, _, payload_len) = unpack_header header in
      let tail = take (payload_len + crc_size) (drop header_size rest) in
      let stored = le_value (drop payload_len tail) in
      let expected = crc32 (header ++ take payload_len tail) in
      let more =
        recover_loop fuel (next_lsn + 1) (drop (payload_len + crc_size) (drop header_size rest)) in
      if ltb (length header) header_size
      then some next_lsn
      else if ltb (length tail) (payload_len + crc_size)
      then some next_lsn
      else if not (frame_lsn == next_lsn) || not (expected == stored)
      then some next_lsn
      else more

  unfoldable pub recover_lsn : ByteString → Option ℕ
  recover_lsn file = recover_loop (suc (length file)) 1 file

  -- `WAL(path)` on a file with these bytes
  unfoldable pub open_wal : ByteString → Bool → Bool → Option Wal
  open_wal file use_lock available = elim (recover_lsn file) [
    | none ↦ none
    | some next ↦ some (record {
      file = file;
      next_lsn = next;
      closed = false;
      use_process_lock = use_lock;
      lock_available = available;
    })
  ]

-- the loop of `truncate_to`
unfoldable pub truncate_loop : ℕ → ℕ → ℕ → ByteString → Cut
truncate_loop zero lsn offset rest = out_of_fuel
truncate_loop (suc fuel) lsn offset rest =
    let header = take header_size rest in
    let (frame_lsn, _, payload_len) = unpack_header header in
    let full_len = header_size + crc_size + payload_len in
    let more =
      truncate_loop fuel lsn (offset + full_len)
        (drop (payload_len + crc_size) (drop header_size rest)) in
    if ltb (length header) header_size
    then end_of_file
    else if leb lsn frame_lsn
    then cut offset
    else more

unfoldable pub truncate_to : Wal → ℕ → Result (Unit {0}) × Wal
truncate_to w lsn =
    if ltb lsn 1 || ltb w.next_lsn lsn
    then (raise value_error, w)
    else if w.closed
    then (raise value_error, w)
    else elim (truncate_loop (suc (length w.file)) lsn 0 w.file) [
      | cut offset ↦ (ok tt, record w { file = take offset w.file; next_lsn = lsn })
      | end_of_file ↦ (ok tt, w)
      | out_of_fuel ↦ (ok tt, w)
    ]
