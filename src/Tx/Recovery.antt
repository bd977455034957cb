-- ===== src/Tx/Recovery.antt =====
-- src/tinydb/tx/recovery.py: the payload of a page record, and the replay of the log.
pub mod Record
pub mod Outcome
pub mod Restore
pub mod Anomalies
pub mod Touches
pub mod Choice
pub mod Traced
pub mod OneTransaction
use tinydb.Base.{
  ℕ, suc, ◌+◌, ◌||◌, Bool, true, false, not, Option, none, some, List, [], ◌∷◌, ◌++◌, length, take,
  drop, ltb, leb, ◌==◌, if◌then◌else◌, Result, ok, raise, ◌>>=◌, ◌>>◌, value_error, struct_error,
  page_record_decode, wal_corruption, runtime_error,
}
use tinydb.Base.Dict.{Dict, eq_nat, eq_pair, lookup, contains, insert, setdefault}
use tinydb.Bytes.{ByteString, be_bytes, be_value, pack_be}
use tinydb.Storage.Pager.{Pager, page_size, write_page}
use tinydb.Tx.Wal.{
  WalRecord, Wal, Ending, clean, torn, corrupt, closed_file, stuck, iter_from, rt_begin, rt_commit,
  rt_rollback, rt_page,
}

-- `_PageTouch`
pub record PageTouch : Type 0 where
  pub tx_id : ℕ
  pub page_id : ℕ
  pub before : ByteString
  pub after : ByteString

pub data TxState : Type 0 where
  committed rolled_back unknown : TxState

-- `_RecoveryStats` and the tables of the first phase
pub record Analysis : Type 0 where
  pub records_scanned : ℕ
  pub page_records : ℕ
  pub page_touches : Dict (ℕ × ℕ) PageTouch
  pub page_last_writer : Dict ℕ PageTouch
  pub tx_state : Dict ℕ TxState

-- What `replay` returns.
pub record Stats : Type 0 where
  pub records_scanned : ℕ
  pub page_records : ℕ
  pub redo : ℕ
  pub undo : ℕ
  pub committed_ids : List ℕ
  pub uncommitted_ids : List ℕ

-- `_PAGE_RECORD_HEADER`
abbrev pub page_record_header : ℕ
page_record_header = 20

-- `_decode_page_record`
unfoldable pub decode_page_record : ByteString → Result PageTouch
decode_page_record payload =
    let before_len = be_value (take 4 (drop 12 payload)) in
    let after_len = be_value (take 4 (drop 16 payload)) in
    if ltb (length payload) page_record_header
    then raise page_record_decode
    else if not (page_record_header + before_len + after_len == length payload)
    then raise page_record_decode
    else if not (before_len == page_size) || not (after_len == page_size)
    then raise page_record_decode
    else ok (record {
      tx_id = be_value (take 8 payload);
      page_id = be_value (take 4 (drop 8 payload));
      before = take before_len (drop page_record_header payload);
      after = take after_len (drop (page_record_header + before_len) payload);
    })

-- `_encode_page_record`
unfoldable pub encode_page_record : ℕ → ℕ → ByteString → ByteString → Result ByteString
encode_page_record tx_id page_id before after =
    if not (length before == page_size) || not (length after == page_size)
    then raise value_error
    else (do
      a ← pack_be 8 tx_id
      b ← pack_be 4 page_id
      ok (a ++ (b ++ (be_bytes 4 page_size ++ (be_bytes 4 page_size ++ (before ++ after))))))

-- `struct.unpack(">Q", payload)`
unfoldable pub unpack_tx_id : ByteString → Result ℕ
unpack_tx_id payload = if length payload == 8 then ok (be_value payload) else raise struct_error

abbrev pub start : Analysis
start = record {
  records_scanned = 0;
  page_records = 0;
  page_touches = [];
  page_last_writer = [];
  tx_state = [];
}

-- The body of the first loop of `replay`, for one record.
unfoldable pub analyse_record : Analysis → WalRecord → Result Analysis
analyse_record a r =
    let n = a.records_scanned + 1 in
    if r.type == rt_begin
    then (do
      tx ← unpack_tx_id r.payload
      ok (record a { records_scanned = n; tx_state = setdefault tx unknown a.tx_state }))
    else if r.type == rt_commit
    then (do
      tx ← unpack_tx_id r.payload
      ok (record a { records_scanned = n; tx_state = insert tx committed a.tx_state }))
    else if r.type == rt_rollback
    then (do
      tx ← unpack_tx_id r.payload
      ok (record a { records_scanned = n; tx_state = insert tx rolled_back a.tx_state }))
    else if r.type == rt_page
    then (do
      touch ← decode_page_record r.payload
      ok (record a {
        records_scanned = n;
        page_records = a.page_records + 1;
        page_touches = insert (touch.tx_id, touch.page_id) touch a.page_touches;
        page_last_writer = insert touch.page_id touch a.page_last_writer;
      }))
    else ok (record a { records_scanned = n })

unfoldable pub analyse : List WalRecord → Analysis → Result Analysis
analyse [] a = ok a
analyse (r ∷ rs) a = do a' ← analyse_record a r; analyse rs a'

-- The error with which the iteration over the log ends, if it does.
unfoldable pub check_ending : Ending → Result (Unit {0})
check_ending clean = ok tt
check_ending torn = ok tt
check_ending closed_file = raise value_error
check_ending stuck = raise runtime_error
check_ending (corrupt offset) = raise wal_corruption

unfoldable pub is_committed : TxState → Bool
is_committed committed = true
is_committed rolled_back = false
is_committed unknown = false

-- `tx_state.get(tx_id, "UNKNOWN")`
unfoldable pub state_of : Dict ℕ TxState → ℕ → TxState
state_of states tx_id = elim (lookup tx_id states) [ none ↦ unknown | some s ↦ s ]

-- `committed_after` and `unknown_before`
pub record Images : Type 0 where
  pub committed_after : Dict ℕ ByteString
  pub unknown_before : Dict ℕ ByteString

-- The body of the loop over `page_touches`.
unfoldable pub choose_image : Dict ℕ TxState → (ℕ × ℕ) × PageTouch → Images → Images
choose_image states ((tx_id, page_id), touch) images =
    if is_committed (state_of states tx_id) || (tx_id == 0)
    then record images { committed_after = insert page_id touch.after images.committed_after }
    else record images { unknown_before = setdefault page_id touch.before images.unknown_before }

unfoldable pub choose_images : Dict ℕ TxState → List ((ℕ × ℕ) × PageTouch) → Images → Images
choose_images states [] images = images
choose_images states (item ∷ rest) images =
    choose_images states rest (choose_image states item images)

-- `sorted(d.items())` for a dictionary whose keys are numbers
unfoldable pub insert_item : {V : Type 0} → ℕ → V → List (ℕ × V) → List (ℕ × V)
insert_item k v [] = (k, v) ∷ []
insert_item k v ((j, w) ∷ items) =
    if leb k j then (k, v) ∷ ((j, w) ∷ items) else (j, w) ∷ insert_item k v items

unfoldable pub sorted_items : {V : Type 0} → Dict ℕ V → List (ℕ × V)
sorted_items [] = []
sorted_items ((k, v) ∷ d) = insert_item k v (sorted_items d)

-- `sorted(tx for tx, st in tx_state.items() if st == wanted)`: the test is `keep`, and the items come
-- sorted
unfoldable pub ids_where : (TxState → Bool) → List (ℕ × TxState) → List ℕ
ids_where keep [] = []
ids_where keep ((tx, st) ∷ items) =
    let rest = ids_where keep items in if keep st then tx ∷ rest else rest

unfoldable pub is_unknown : TxState → Bool
is_unknown unknown = true
is_unknown committed = false
is_unknown rolled_back = false

-- The REDO loop: the number of pages written.
unfoldable pub redo_pages : List (ℕ × ByteString) → ℕ → Pager → Result ℕ × Pager
redo_pages [] n p = (ok n, p)
redo_pages ((page_id, after) ∷ items) n p =
    let (r, p') = write_page p page_id after in
    let rest = redo_pages items (n + 1) p' in elim r [ ok _ ↦ rest | raise e ↦ (raise e, p') ]

-- The UNDO loop, which passes over the pages that REDO wrote.
unfoldable pub undo_pages : Dict ℕ ByteString → List (ℕ × ByteString) → ℕ → Pager → Result ℕ × Pager
undo_pages redone [] n p = (ok n, p)
undo_pages redone ((page_id, before) ∷ items) n p =
    let skipped = undo_pages redone items n p in
    let (r, p') = write_page p page_id before in
    let rest = undo_pages redone items (n + 1) p' in
    if contains page_id redone then skipped else elim r [ ok _ ↦ rest | raise e ↦ (raise e, p') ]

-- REDO, then UNDO, with the counts of pages written.
unfoldable pub restore : Images → Pager → Result (ℕ × ℕ) × Pager
restore images p =
    let (r, p') = redo_pages (sorted_items images.committed_after) 0 p in
    let (u, p'') = undo_pages images.committed_after (sorted_items images.unknown_before) 0 p' in
    elim r [
      | raise e ↦ (raise e, p')
      | ok redo ↦ elim u [ raise e ↦ (raise e, p'') | ok undo ↦ (ok (redo, undo), p'') ]
    ]

-- The images that the log gives for each page.
unfoldable pub images_of : Analysis → Images
images_of a =
    choose_images a.tx_state a.page_touches (record { committed_after = []; unknown_before = [] })

module _ (zlib_crc32 : ByteString → ℕ) where
  -- The first phase, over the log: it raises what the iteration raises.
  unfoldable pub analyse_log : Wal → Result Analysis
  analyse_log w = do
    let (records, ending) = iter_from zlib_crc32 w 1
    a ← analyse records start
    check_ending ending
    ok a

  unfoldable pub replay : Wal → Pager → Result Stats × Pager
  replay w p = elim (analyse_log w) [
    | raise e ↦ (raise e, p)
    | ok a ↦
        let (r, p') = restore (images_of a) p in
        elim r [
          | raise e ↦ (raise e, p')
          | ok counts ↦ (
            ok (record {
              records_scanned = a.records_scanned;
              page_records = a.page_records;
              redo = counts.0;
              undo = counts.1;
              committed_ids = ids_where is_committed (sorted_items a.tx_state);
              uncommitted_ids = ids_where is_unknown (sorted_items a.tx_state);
            }),
            p',
          )
        ]
  ]
