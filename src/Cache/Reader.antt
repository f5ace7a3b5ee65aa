-- ===== src/Cache/Reader.antt =====
-- The records of the log of src/cache/l2.rs, and the buffered reader that replay and compaction read
-- them with. `BufReader` holds up to 8192 bytes of the file: `read` gives at most what is held, and
-- fills the buffer only when it is empty; a read of a regular file gives as much as there is. An i64 is
-- its word of 64 bits.

pub mod Laws
use dnsd_rs.Base.{
  Bytes, Option, [], drop, get_elem?, if◌then◌else◌, leb, length, ltb, min, none, not, some, take,
  ℕ, ◌%◌, ◌*◌, ◌++◌, ◌+◌, ◌-◌, ◌/◌, ◌==◌, ◌^◌, ◌∷◌,
}
use dnsd_rs.Proto.Cursor.{le32}
use dnsd_rs.Proto.Text.{Text}
use dnsd_rs.Resolve.Block.{fnv64_loop}

-- `MAGIC`, `HEADER_LEN` and the capacity of `BufReader::new`
abbrev pub magic : ℕ
magic = 0xA5

abbrev pub header_len : ℕ
header_len = 21

abbrev capacity : ℕ
capacity = 8192

-- `fnv64`
unfoldable pub fnv64 : Bytes → ℕ
unfolding fnv64_loop
fnv64 s = fnv64_loop 0xcbf29ce484222325 s

-- `to_le_bytes` of a u32 and of an i64
abbrev le32_bytes : ℕ → Bytes
le32_bytes v = (v % 256) ∷ (v / 256 % 256) ∷ (v / 65536 % 256) ∷ (v / 16777216 % 256) ∷ []

abbrev le64_bytes : ℕ → Bytes
le64_bytes v = le32_bytes (v % 2 ^ 32) ++ le32_bytes (v / 2 ^ 32 % 2 ^ 32)

-- The checksum of a record, over the key, the value and the time.
abbrev pub checksum : Bytes → ℕ → ℕ
checksum body expire = fnv64 (body ++ le64_bytes expire) % 2 ^ 32

-- The header and the bytes that `put` writes.
abbrev pub record_header : ℕ → ℕ → ℕ → ℕ → Bytes
record_header key_len val_len expire crc =
    magic ∷ (le32_bytes key_len ++ (le32_bytes val_len ++ (le64_bytes expire ++ le32_bytes crc)))

abbrev pub record_bytes : Bytes → Bytes → ℕ → Bytes
record_bytes key val expire =
    record_header (length key % 2 ^ 32) (length val % 2 ^ 32) expire (checksum (key ++ val) expire)
    ++ (key ++ val)

-- A `BufReader` over the file: what is not read yet, of which `avail` bytes are held.
pub record Reader : Type 0 where
  pub rest : Bytes
  pub avail : ℕ

abbrev pub new_reader : Bytes → Reader
new_reader file = record { rest = file; avail = 0 }

-- What is held once an empty buffer is filled.
abbrev pub filled : Reader → ℕ
filled r = if r.avail == 0 then min capacity (length r.rest) else r.avail

-- `r.read(&mut hdr)`
unfoldable pub read_some : ℕ → Reader → Bytes × Reader
read_some want r =
    let n = min want (filled r) in
    (take n r.rest, record { rest = drop n r.rest; avail = filled r - n })

-- What is held after `want` bytes: those held come first; a long rest is read past the buffer.
abbrev pub held_after : ℕ → Reader → ℕ
held_after want r =
    if leb want r.avail
    then r.avail - want
    else if leb capacity (want - r.avail)
    then 0
    else min capacity (length r.rest - r.avail) - (want - r.avail)

-- `r.read_exact(&mut body)`
unfoldable pub read_exact : ℕ → Reader → Option (Bytes × Reader)
read_exact want r =
    if ltb (length r.rest) want
    then none
    else some (take want r.rest, record { rest = drop want r.rest; avail = held_after want r })

-- `RawRecord`
pub record RawRecord : Type 0 where
  pub offset : ℕ
  pub key : Bytes
  pub val_len : ℕ
  pub expire_at_ms : ℕ
  pub raw_bytes : Bytes

-- The fields of a header of 21 bytes.
pub record RecordHeader : Type 0 where
  pub first : ℕ
  pub key_len : ℕ
  pub body_len : ℕ
  pub expire : ℕ
  pub crc : ℕ

abbrev le64 : ℕ → ℕ → ℕ
le64 low high = low + high * 2 ^ 32

abbrev byte_at : Bytes → ℕ → ℕ
byte_at s i = elim (get_elem? s i) [ none ↦ 0 | some b ↦ b ]

abbrev le32_at : Bytes → ℕ → ℕ
le32_at s i = le32 (byte_at s i) (byte_at s (i + 1)) (byte_at s (i + 2)) (byte_at s (i + 3))

unfoldable pub header_fields : Bytes → Option RecordHeader
header_fields s =
    if length s == header_len
    then some (record {
      first = byte_at s 0;
      key_len = le32_at s 1;
      body_len = le32_at s 1 + le32_at s 5;
      expire = le64 (le32_at s 9) (le32_at s 13);
      crc = le32_at s 17;
    })
    else none

module _ ⦃text : Text⦄ where
  -- The end of `read_record`, behind the body; `offset` is where the record starts.
  abbrev pub checked : Bytes → RecordHeader → ℕ → Bytes × Reader → Option (RawRecord × Reader)
  checked hdr h offset (body, r) =
      if not (checksum body h.expire == h.crc)
      then none
      else some (
        record {
          offset = offset;
          key = text.from_utf8_lossy (take h.key_len body);
          val_len = h.body_len - h.key_len;
          expire_at_ms = h.expire;
          raw_bytes = hdr ++ body;
        },
        r,
      )

  abbrev pub with_body :
      Bytes → RecordHeader → ℕ → Option (Bytes × Reader) → Option (RawRecord × Reader)
  with_body hdr h offset none = none
  with_body hdr h offset (some b) = checked hdr h offset b

  abbrev pub with_header : Bytes → Option RecordHeader → Reader → ℕ → Option (RawRecord × Reader)
  with_header hdr none r offset = none
  with_header hdr (some h) r offset =
      if not (h.first == magic) then none else with_body hdr h offset (read_exact h.body_len r)

  -- `read_record`: `none` at the end of the file and at whatever is no whole record.
  unfoldable pub read_log_record : Reader → ℕ → Option (RawRecord × Reader)
  unfolding read_some read_exact header_fields
  read_log_record r offset =
      let got = read_some header_len r in with_header got.0 (header_fields got.0) got.1 offset
