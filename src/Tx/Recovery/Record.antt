-- ===== src/Tx/Recovery/Record.antt =====
-- The payload of a page record of src/tinydb/tx/recovery.py through encoder and decoder.
use tinydb.Base.{
  ℕ, ◌+◌, ◌^◌, ◌<◌, ◌≡◌, ◌∙◌, sym, ap, ◌++◌, arith, length, take, drop, ok, ◌>>=◌, drop-append,
  drop_zero, length-append, take-append, drop-append_add, take_all, eq→==,
}
use tinydb.Bytes.{ByteString, be_bytes, be_value}
use tinydb.Bytes.Laws.{length-be_bytes, be_value-be_bytes, pack_be_ok}
use tinydb.Storage.Pager.{page_size}
use tinydb.Tx.Recovery.{PageTouch, decode_page_record, encode_page_record}

-- The ids fit their fields, and the images are whole pages.
pub record Fits (t : PageTouch) : Type 0 where
  pub tx_id : t.tx_id < 256 ^ 8
  pub page_id : t.page_id < 256 ^ 4
  pub before : length t.before ≡ page_size
  pub after : length t.after ≡ page_size

unfoldable pub payload_of : PageTouch → ByteString
payload_of t =
    be_bytes 8 t.tx_id
    ++ (be_bytes 4 t.page_id
        ++ (be_bytes 4 page_size ++ (be_bytes 4 page_size ++ (t.before ++ t.after))))

pub encode-payload_of :
    (t : PageTouch)
    → Fits t
    → encode_page_record t.tx_id t.page_id t.before t.after ≡ ok (payload_of t)
unfolding encode_page_record payload_of
encode-payload_of t h = rw (
  eq→== (length t.before) page_size h.before,
  eq→== (length t.after) page_size h.after,
  pack_be_ok 8 t.tx_id h.tx_id,
  pack_be_ok 4 t.page_id h.page_id,
)

pub length-payload_of :
    (t : PageTouch) → Fits t → length (payload_of t) ≡ 20 + page_size + page_size
unfolding payload_of
length-payload_of t h =
    let s = be_bytes 4 page_size in
    let images = t.before ++ t.after in
    omega (
      arith,
      h.before,
      h.after,
      length-append (be_bytes 8 t.tx_id) (be_bytes 4 t.page_id ++ (s ++ (s ++ images))),
      length-append (be_bytes 4 t.page_id) (s ++ (s ++ images)),
      length-append s (s ++ images),
      length-append s images,
      length-append t.before t.after,
      length-be_bytes 8 t.tx_id,
      length-be_bytes 4 t.page_id,
      length-be_bytes 4 page_size,
    )

-- The payload from each of its fields on.
payload_parts :
    (a b s t images : ByteString)
    → length a ≡ 8
    → length b ≡ 4
    → length s ≡ 4
    → length t ≡ 4
    → let p = a ++ (b ++ (s ++ (t ++ images))) in
      (take 8 p ≡ a)
      × (take 4 (drop 8 p) ≡ b)
      × (take 4 (drop 12 p) ≡ s)
      × (take 4 (drop 16 p) ≡ t)
      × ((k : ℕ) → drop (20 + k) p ≡ drop k images)
payload_parts a b s t images ha hb hs ht = (
  take-append 8 a (b ++ (s ++ (t ++ images))) (omega arith),
  ap (take 4) (drop-append 8 a (b ++ (s ++ (t ++ images))) (omega arith))
      ∙ take-append 4 b (s ++ (t ++ images)) (omega arith),
  ap (take 4) (
        drop-append_add 12 4 a (b ++ (s ++ (t ++ images))) (omega arith)
        ∙ drop-append 4 b (s ++ (t ++ images)) (omega arith))
      ∙ take-append 4 s (t ++ images) (omega arith),
  ap (take 4) (
        drop-append_add 16 8 a (b ++ (s ++ (t ++ images))) (omega arith)
        ∙ drop-append_add 8 4 b (s ++ (t ++ images)) (omega arith)
        ∙ drop-append 4 s (t ++ images) (omega arith))
      ∙ take-append 4 t images (omega arith),
  λ k.
      drop-append_add (20 + k) (12 + k) a (b ++ (s ++ (t ++ images))) (omega arith)
      ∙ drop-append_add (12 + k) (8 + k) b (s ++ (t ++ images)) (omega arith)
      ∙ drop-append_add (8 + k) (4 + k) s (t ++ images) (omega arith)
      ∙ drop-append_add (4 + k) k t images (omega arith),
)

pub decode-payload_of : (t : PageTouch) → Fits t → decode_page_record (payload_of t) ≡ ok t
unfolding decode_page_record payload_of
decode-payload_of t h =
    let (tx, pid, bl, al, images) =
      payload_parts (be_bytes 8 t.tx_id) (be_bytes 4 t.page_id) (be_bytes 4 page_size)
        (be_bytes 4 page_size) (t.before ++ t.after) (length-be_bytes 8 t.tx_id)
        (length-be_bytes 4 t.page_id) (length-be_bytes 4 page_size) (length-be_bytes 4 page_size) in
    let size : be_value (be_bytes 4 page_size) ≡ page_size =
      be_value-be_bytes 4 page_size (omega arith) in
    let total = length-payload_of t h in
    rw (
      ap be_value (bl) ∙ size,
      ap be_value (al) ∙ size,
      total,
      tx,
      pid,
      images 0 ∙ drop_zero (t.before ++ t.after),
      images 4096,
      take-append 4096 t.before t.after (sym h.before),
      drop-append 4096 t.before t.after (sym h.before),
      take_all 4096 t.after (omega (arith, h.after)),
      be_value-be_bytes 8 t.tx_id h.tx_id,
      be_value-be_bytes 4 t.page_id h.page_id,
    )

-- A page record whose ids fit their fields and whose images are whole pages is encoded, and
-- decodes to the same ids and images.
pub decode-encode_page_record :
    (t : PageTouch)
    → Fits t
    → (encode_page_record t.tx_id t.page_id t.before t.after >>= decode_page_record) ≡ ok t
decode-encode_page_record t h = rw (encode-payload_of t h) (decode-payload_of t h)
