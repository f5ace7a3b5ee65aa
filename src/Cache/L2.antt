-- ===== src/Cache/L2.antt =====
-- src/cache/l2.rs: the log on disk and its index. The file is its bytes, the clock an argument in
-- milliseconds; how many bytes of a record reach the disk before a write fails is an argument of `put`.
-- A time to live is a natural number, where 0 stands for any that is not positive. Times are not cut to
-- an i64: below 2 ^ 63, which the theorems on times ask for, its arithmetic is that of the naturals.
pub mod Laws
pub mod Lookup
use dnsd_rs.Base.{
  Bool, Bytes, Error, List, Option, Result, [], any, bytes_eq, drop, err, if◌then◌else◌, leb,
  length, ltb, max, none, not, ok, retain, some, suc, take, zero, ℕ, ◌%◌, ◌&&◌, ◌*◌, ◌++◌, ◌+◌, ◌/◌,
  ◌==◌, ◌^◌, ◌||◌, ◌∷◌,
}
use dnsd_rs.Cache.Reader.{
  Reader, RecordHeader, header_fields, header_len, magic, new_reader, read_log_record, record_bytes,
}
use dnsd_rs.Proto.Cursor.{bytes}
use dnsd_rs.Proto.Text.{Text}

pub record IndexEntry : Type 0 where
  pub offset : ℕ
  pub val_len : ℕ
  pub expire_at_ms : ℕ

abbrev pub Index : Type 0
Index = List (Bytes × IndexEntry)

-- `L2Store` with its `Inner`.
pub record L2Store : Type 0 where
  pub index : Index
  pub file : Bytes
  pub size : ℕ
  pub dead_bytes : ℕ
  pub max_file_bytes : ℕ

-- `HashMap::get`, `insert` and `remove`
unfoldable pub find_entry : Bytes → Index → Option IndexEntry
find_entry k [] = none
find_entry k (x ∷ xs) = let rest = find_entry k xs in if bytes_eq x.0 k then some x.1 else rest

unfoldable pub insert_entry : Bytes → IndexEntry → Index → Index
insert_entry k e [] = (k, e) ∷ []
insert_entry k e (x ∷ xs) =
    let rest = insert_entry k e xs in if bytes_eq x.0 k then (x.0, e) ∷ xs else x ∷ rest

unfoldable remove_entry : Bytes → Index → Index
remove_entry k xs = retain (λ x. not (bytes_eq x.0 k)) xs

-- `expire_at_ms != 0 && now >= expire_at_ms`, on i64.
abbrev pub is_expired : ℕ → ℕ → Bool
is_expired now expire = not (expire == 0) && (leb (2 ^ 63) expire || leb expire now)

-- The value behind a header, in what follows the header.
abbrev pub value_of : Bytes → Option RecordHeader → Option Bytes
value_of s none = none
value_of s (some h) =
    if not (h.first == magic) || ltb (length s) h.body_len
    then none
    else some (drop h.key_len (take h.body_len s))

-- The reads of `get`, behind the `seek`.
abbrev pub value_at_rest : Bytes → Option Bytes
value_at_rest s = value_of (drop header_len s) (header_fields (take header_len s))

unfoldable pub value_at : Bytes → ℕ → Option Bytes
value_at file offset = value_at_rest (drop offset file)

-- `get` behind the look into the index.
abbrev pub live_value : ℕ → Bytes → Option IndexEntry → Option Bytes
live_value now file none = none
live_value now file (some e) =
    if is_expired now e.expire_at_ms then none else value_at file e.offset

-- `L2Store::get`
unfoldable pub get : ℕ → Bytes → L2Store → Option Bytes
unfolding find_entry value_at
get now key s = live_value now s.file (find_entry key s.index)

-- The bytes that die with an entry.
abbrev dead_record : Bytes → Option IndexEntry → ℕ
dead_record key none = 0
dead_record key (some old) = header_len + length key + old.val_len

-- `L2Store::put`; a torn write leaves the bytes that came through, and an error.
unfoldable pub put : ℕ → Bytes → Bytes → ℕ → Option ℕ → L2Store → Result (Unit {0}) × L2Store
unfolding find_entry insert_entry
put now key val ttl torn s =
    let expire = now + ttl * 1000 in
    let bytes = record_bytes key val expire in
    if ttl == 0 then (ok tt, s) else elim torn [
      | some n ↦ (err (Error.io "write failed"), record s { file = s.file ++ take n bytes })
      | none ↦ (
        ok tt,
        record s {
          index =
              insert_entry key
                (record { offset = s.size; val_len = length val % 2 ^ 32; expire_at_ms = expire })
                s.index;
          file = s.file ++ bytes;
          size = s.size + length bytes;
          dead_bytes = s.dead_bytes + dead_record key (find_entry key s.index);
        },
      )
    ]

-- `L2Store::delete`
unfoldable pub delete : Bytes → L2Store → L2Store
unfolding find_entry remove_entry
delete key s = record s {
  index = remove_entry key s.index;
  dead_bytes = s.dead_bytes + dead_record key (find_entry key s.index);
}

-- `L2Store::len` and `file_size`
abbrev pub entries : L2Store → ℕ
entries s = length s.index

abbrev file_size : L2Store → ℕ
file_size s = s.size

module _ ⦃text : Text⦄ where
  -- The loop of `replay`; a turn takes a byte at least, so the length of the file is fuel enough.
  unfoldable replay_loop : ℕ → Reader → ℕ → Index → Index
  unfolding read_log_record insert_entry
  replay_loop zero r offset index = index
  replay_loop (suc fuel) r offset index = elim (read_log_record r offset) [
    | none ↦ index
    | some (rec, r') ↦ replay_loop fuel r' (offset + length rec.raw_bytes) (
        insert_entry rec.key
          (record { offset = rec.offset; val_len = rec.val_len; expire_at_ms = rec.expire_at_ms })
          index)
  ]

  unfoldable replay : Bytes → Index
  unfolding replay_loop
  replay file = replay_loop (length file) (new_reader file) 0 []

  -- `L2Store::open`, on the file that is there.
  unfoldable open_store : Bytes → ℕ → L2Store
  unfolding replay
  open_store file max_file_bytes = record {
    index = replay file;
    file = file;
    size = length file;
    dead_bytes = 0;
    max_file_bytes = max max_file_bytes (16 * 1024 * 1024);
  }

  -- The offsets that `compact` collects under its first lock.
  unfoldable live_offsets : ℕ → Index → List ℕ
  live_offsets now [] = []
  live_offsets now (x ∷ xs) =
      let rest = live_offsets now xs in
      if x.1.expire_at_ms == 0 || not (leb (2 ^ 63) x.1.expire_at_ms || leb x.1.expire_at_ms now)
      then x.1.offset ∷ rest
      else rest

  -- The copying loop of `compact`: the new file and its index.
  unfoldable copy_live : ℕ → List ℕ → Reader → ℕ → Bytes × Index → Bytes × Index
  unfolding read_log_record insert_entry
  copy_live zero live r offset out = out
  copy_live (suc fuel) live r offset out = elim (read_log_record r offset) [
    | none ↦ out
    | some (rec, r') ↦ copy_live fuel live r' (offset + length rec.raw_bytes) (
        if not (any (λ o. o == rec.offset) live) then out else (
          out.0 ++ rec.raw_bytes,
          insert_entry rec.key
              (record {
                offset = length out.0;
                val_len = rec.val_len;
                expire_at_ms = rec.expire_at_ms;
              })
              out.1,
        ))
  ]

  -- The swap at the end of `compact`, under its second lock.
  abbrev swap_in : Bytes × Index → L2Store → L2Store
  swap_in out s = record s { index = out.1; file = out.0; size = length out.0; dead_bytes = 0 }

  -- `compact`: what was live in `before` is copied out of the file as it stands in `during`, and takes
  -- the place of whatever the store holds in the end. Between its two locks other threads run.
  unfoldable compact : ℕ → L2Store → L2Store → L2Store → L2Store
  unfolding live_offsets copy_live
  compact now before during after =
      swap_in
        (copy_live (length during.file) (live_offsets now before.index) (new_reader during.file) 0
          ([], []))
        after

-- The test of `compaction_loop`.
abbrev should_compact : L2Store → Bool
should_compact s =
    ltb s.max_file_bytes s.size
    || (ltb (s.size / 2) s.dead_bytes && ltb (64 * 1024 * 1024) s.dead_bytes)
