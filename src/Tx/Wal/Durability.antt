-- ===== src/Tx/Wal/Durability.antt =====
-- The operations of src/tinydb/tx/wal.py against the list of records that the log stands for:
-- appending, reading, opening after a crash, cutting.
use mathlib.Core.List.{append-nil, append_assoc}
use native.Mathlib.Nat.{zero-add}
use tinydb.Base.{
  ℕ, suc, ◌+◌, ◌≤◌, ◌<◌, ◌≡◌, refl, ap, ◌∙◌, Bool, false, not, ◌&&◌, some, List, [], ◌∷◌, ◌++◌,
  arith, length, take, ltb, ◌==◌, if◌then◌else◌, length-append, ok, take-append, take-append_le,
}
use tinydb.Bytes.{ByteString}
use tinydb.Tx.Wal.{
  WalRecord, Wal, clean, torn, append, iter_from, recover_lsn, open_wal, truncate_loop, truncate_to,
  cut, end_of_file, unpack_header,
}
use tinydb.Tx.Wal.Frames.{Fits, pack_header_ok, body_bytes, frame_bytes, frames, length-frame_bytes}
use tinydb.Tx.Wal.Torn.{IsTorn, announced, take-IsTorn}
use tinydb.Tx.Wal.Log.{
  Numbered, Numbered-append, from_lsn, ending_of, frames-append, frames_one, Numbered-prefix,
  Represents, iter_records, recover_records, truncate_records,
}

abbrev pub at_least_one : ℕ → ℕ
at_least_one lsn = if ltb lsn 1 then 1 else lsn

-- Reading from an LSN that precedes all records.
pub from_lsn_all :
    (n lsn : ℕ) (rs : List WalRecord) → Numbered n rs → lsn ≤ n → from_lsn lsn rs ≡ rs
unfolding from_lsn
from_lsn_all n lsn [] h le = refl
from_lsn_all n lsn (r ∷ rs) h le = ground (arith, h.0, from_lsn_all (suc n) lsn rs h.2)

module _ (zlib_crc32 : ByteString → ℕ) where
  pub append-file :
      (w : Wal) (type : ℕ) (payload : ByteString)
      → Fits (record { lsn = w.next_lsn; type = type; payload = payload })
      → (w.use_process_lock && not w.lock_available) ≡ false
      → w.closed ≡ false
      → append zlib_crc32 w type payload ≡ (
        ok w.next_lsn,
        record w {
          file =
              w.file
              ++ frame_bytes zlib_crc32
                  (record { lsn = w.next_lsn; type = type; payload = payload });
          next_lsn = w.next_lsn + 1;
        },
      )
  unfolding append frame_bytes body_bytes
  append-file w type payload f l c =
      rw (
        pack_header_ok (record { lsn = w.next_lsn; type = type; payload = payload }) f,
        append,
        l,
        c,
      )

  -- Appending to an open log, a record that fits the fields of a frame, with the process lock
  -- available if it is used: returns the next LSN, and the log then stands for the records before
  -- and the new one.
  pub append-Represents :
      (w : Wal) (rs : List WalRecord) (type : ℕ) (payload : ByteString)
      → Represents zlib_crc32 w rs
      → Fits (record { lsn = w.next_lsn; type = type; payload = payload })
      → (w.use_process_lock && not w.lock_available) ≡ false
      → ((append zlib_crc32 w type payload).0 ≡ ok w.next_lsn)
        × Represents zlib_crc32
            (append zlib_crc32 w type payload).1
            (rs ++ (record { lsn = w.next_lsn; type = type; payload = payload } ∷ []))
  append-Represents w rs type payload h f l =
      let r : WalRecord = record { lsn = w.next_lsn; type = type; payload = payload } in
      rw (append-file w type payload f l h.is_open) (
        refl,
        record {
          file = rw (frames-append zlib_crc32 rs (r ∷ []), frames_one zlib_crc32 r, h.file);
          numbered = Numbered-append 1 rs r h.numbered (omega (arith, h.next)) f;
          next = omega (arith, h.next, length-append rs (r ∷ []));
          is_open = h.is_open;
        },
      )

  -- Reading an open log that stands for a list of records yields those from the given LSN on
  -- (from 1 for a smaller one), in order, and ends cleanly.
  pub iter_from-Represents :
      (w : Wal) (rs : List WalRecord) (lsn : ℕ)
      → Represents zlib_crc32 w rs
      → iter_from zlib_crc32 w lsn ≡ (from_lsn (at_least_one lsn) rs, clean)
  unfolding iter_from
  iter_from-Represents w rs lsn h = rw (
    h.is_open,
    h.file,
    ← append-nil (frames zlib_crc32 rs),
    iter_records zlib_crc32 (suc (length (frames zlib_crc32 rs ++ []))) (at_least_one lsn) 0 1 rs []
        h.numbered (omega arith) (omega arith),
  )

  -- A crash in the middle of an append: the file holds the whole frames of records numbered from
  -- 1 and any proper start of the frame of one more, all of which fit their fields. Opening it
  -- gives a handle whose next LSN follows the last whole record, and reading it from any LSN
  -- yields exactly the whole records from there on, and ends cleanly or at a torn tail.
  pub open_after_crash :
      (rs : List WalRecord) (r : WalRecord) (k : ℕ) (use_lock available : Bool)
      → Numbered 1 rs
      → Fits r
      → k < 17 + length r.payload
      → (w : Wal) × (open_wal zlib_crc32
            (frames zlib_crc32 rs ++ take k (frame_bytes zlib_crc32 r))
            use_lock
            available
          ≡ some w)
        × (w.next_lsn ≡ suc (length rs))
        × ((lsn : ℕ)
            → iter_from zlib_crc32 w lsn
              ≡ (from_lsn (at_least_one lsn) rs, ending_of (take k (frame_bytes zlib_crc32 r))))
  unfolding open_wal recover_lsn iter_from
  open_after_crash rs r k use_lock available h f lt =
      let tail = take k (frame_bytes zlib_crc32 r) in
      let file = frames zlib_crc32 rs ++ tail in
      let torn = take-IsTorn zlib_crc32 k r f lt in
      (
        record {
          file = file;
          next_lsn = 1 + length rs;
          closed = false;
          use_process_lock = use_lock;
          lock_available = available;
        },
        rw (
          recover_records zlib_crc32 (suc (length file)) 1 rs tail h torn (omega arith),
          open_wal,
        ),
        omega arith,
        λ lsn.
            iter_records zlib_crc32 (suc (length file)) (at_least_one lsn) 0 1 rs tail h torn
              (omega arith),
      )

  truncated :
      (rs ss : List WalRecord)
      → take (length (frames zlib_crc32 rs)) (frames zlib_crc32 (rs ++ ss)) ≡ frames zlib_crc32 rs
  truncated rs ss = rw (frames-append zlib_crc32 rs ss) (
      take-append (length (frames zlib_crc32 rs)) (frames zlib_crc32 rs) (frames zlib_crc32 ss)
        refl)

  truncate_to_end :
      (w : Wal) (lsn : ℕ)
      → 1 ≤ lsn
      → lsn ≤ w.next_lsn
      → w.closed ≡ false
      → truncate_loop (suc (length w.file)) lsn 0 w.file ≡ end_of_file
      → truncate_to w lsn ≡ (ok tt, w)
  unfolding truncate_to
  truncate_to_end w lsn a b c e = ground arith

  truncate_to_cut :
      (w : Wal) (lsn offset : ℕ)
      → 1 ≤ lsn
      → lsn ≤ w.next_lsn
      → w.closed ≡ false
      → truncate_loop (suc (length w.file)) lsn 0 w.file ≡ cut offset
      → truncate_to w lsn ≡ (ok tt, record w { file = take offset w.file; next_lsn = lsn })
  unfolding truncate_to
  truncate_to_cut w lsn offset a b c e = ground arith

  truncate_walk :
      (w : Wal) (rs ss : List WalRecord)
      → Represents zlib_crc32 w (rs ++ ss)
      → truncate_loop (suc (length w.file)) (suc (length rs)) 0 w.file
        ≡ (if length ss == 0 then end_of_file else cut (0 + length (frames zlib_crc32 rs)))
  truncate_walk w rs ss h = rw h.file (
      truncate_records zlib_crc32 (suc (length (frames zlib_crc32 (rs ++ ss)))) 1 0 rs ss
        (suc (length rs)) h.numbered (omega arith) (omega arith))

  -- Cutting an open log at an LSN that follows some of its records, all of them perhaps, returns,
  -- and leaves exactly those records; the next append takes that LSN.
  pub truncate_to-Represents :
      (w : Wal) (rs ss : List WalRecord)
      → Represents zlib_crc32 w (rs ++ ss)
      → ((truncate_to w (suc (length rs))).0 ≡ ok tt)
        × Represents zlib_crc32 (truncate_to w (suc (length rs))).1 rs
  truncate_to-Represents w rs [] h =
      let nx : w.next_lsn ≡ suc (length rs) =
        omega (arith, h.next, length-append {A = WalRecord} rs []) in
      rw
        (truncate_to_end w (suc (length rs)) (omega arith) (omega arith) h.is_open
          (truncate_walk w rs [] h))
        (
          refl,
          record {
            file = h.file ∙ ap (frames zlib_crc32) (append-nil rs);
            numbered = Numbered-prefix 1 rs [] h.numbered;
            next = nx;
            is_open = h.is_open;
          },
        )
  truncate_to-Represents w rs (s ∷ ss) h =
      rw
        (truncate_to_cut w (suc (length rs)) (0 + length (frames zlib_crc32 rs)) (omega arith)
          (omega (arith, h.next, length-append rs (s ∷ ss))) h.is_open
          (truncate_walk w rs (s ∷ ss) h ∙ ground arith))
        (
          refl,
          record {
            file = rw (h.file, zero-add) (truncated rs (s ∷ ss));
            numbered = Numbered-prefix 1 rs (s ∷ ss) h.numbered;
            next = refl;
            is_open = h.is_open;
          },
        )

  -- An open log whose file has whole frames and then a torn tail with a header at least: an
  -- append returns its LSN, but while the tail and the new payload together are shorter than the
  -- frame that the tail announces, reading the log still yields only the records before the tail.
  pub append_lost :
      (w : Wal) (rs : List WalRecord) (tail : ByteString) (type lsn : ℕ) (payload : ByteString)
      → w.file ≡ frames zlib_crc32 rs ++ tail
      → Numbered 1 rs
      → 13 ≤ length tail
      → length tail + length payload < announced tail
      → w.closed ≡ false
      → (w.use_process_lock && not w.lock_available) ≡ false
      → Fits (record { lsn = w.next_lsn; type = type; payload = payload })
      → ((append zlib_crc32 w type payload).0 ≡ ok w.next_lsn)
        × (iter_from zlib_crc32 (append zlib_crc32 w type payload).1 lsn
            ≡ (from_lsn (at_least_one lsn) rs, torn))
  unfolding iter_from
  append_lost w rs tail type lsn payload file h long short is_open l f =
      let r : WalRecord = record { lsn = w.next_lsn; type = type; payload = payload } in
      let new = frame_bytes zlib_crc32 r in
      let same : announced (tail ++ new) ≡ announced tail =
        ap (λ (x : ByteString). (unpack_header x).2) (take-append_le 13 tail new long) in
      let len = length-append tail new in
      let lf = length-frame_bytes zlib_crc32 r in
      let still : IsTorn (tail ++ new) = omega (arith, same, len, lf) in
      let all = frames zlib_crc32 rs ++ (tail ++ new) in
      rw (append-file w type payload f l is_open) (
        refl,
        rw (is_open, file, append_assoc (frames zlib_crc32 rs) tail new)
            (iter_records zlib_crc32 (suc (length all)) (at_least_one lsn) 0 1 rs (tail ++ new) h
                still (omega arith)
              ∙ ground (arith, len)),
      )
