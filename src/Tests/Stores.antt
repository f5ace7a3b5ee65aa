-- ===== src/Tests/Stores.antt =====
-- The log on disk, the audit log and the location library, on small inputs.
use dnsd_rs.Cache.L2
use dnsd_rs.Cache.L2.Lookup
use dnsd_rs.Base.{
  Bytes, [], arith, bytes_eq, if◌then◌else◌, length, length-append, length-take, map, none, ok,
  refl, replicate, some, take, true, ◌*◌, ◌++◌, ◌+◌, ◌∷◌, ◌≡◌, ◌⊎◌,
}
use dnsd_rs.Cache.L1.{new_cache}
use dnsd_rs.Cache.L2.{L2Store, is_expired}
use dnsd_rs.Cache.L2.Laws.{IsConsistent, put-IsConsistent}
use dnsd_rs.Cache.Reader.{Reader, read_log_record, record_bytes}
use dnsd_rs.Cache.Reader.Laws.{read_log_record-stops}
use dnsd_rs.Cache.Tiered.{RedisOps, TieredCache, tiered_get, tiered_purge, tiered_put}
use dnsd_rs.Cache.Tiered.Purge.{tiered_get-purged}
use dnsd_rs.Logs.{AuditWriter, genesis, last_entry_hash, record_row}
use dnsd_rs.Logs.Chain.{AnyClash, IsSealed, record_row-IsSealed, row_input, sealed_tables-agree}
use dnsd_rs.Proto.Text.{IsAscii, Text, ascii_text}
use dnsd_rs.Resolve.Geo.{QQwry, lookup_geo}
use dnsd_rs.Resolve.Geo.Search.{lookup_geo-in_vain}

instance text : Text
text = ascii_text

abbrev empty_log : L2Store
empty_log = record {
  index = [];
  file = [];
  size = 0;
  dead_bytes = 0;
  max_file_bytes = 16 * 1024 * 1024;
}

abbrev pub key_k : Bytes
key_k = b'k' ∷ []

abbrev value_12 : Bytes
value_12 = 1 ∷ 2 ∷ []

get-put_on_disk_example : L2.get 1500 key_k (L2.put 1000 key_k value_12 10 none empty_log).1 ≡ (
    if bytes_eq key_k key_k
    then (if is_expired 1500 (1000 + 10 * 1000) then none else some value_12)
    else L2.get 1500 key_k empty_log)
get-put_on_disk_example =
    Lookup.get-put_on_disk 1000 1500 10 key_k key_k value_12 empty_log (refl, tt) (omega arith)
      (omega arith) (omega arith) (omega arith)

put-IsConsistent_example : IsConsistent (L2.put 1000 key_k value_12 10 none empty_log).1
put-IsConsistent_example =
    put-IsConsistent 1000 10 key_k value_12 empty_log (refl, tt) (omega arith) (omega arith)
      (omega arith)

key_k-IsAscii : IsAscii key_k
key_k-IsAscii = (omega arith, tt)

-- The same record, of which the reader holds the first five bytes.
abbrev short_held : Reader
short_held = record { rest = record_bytes key_k value_12 9000; avail = 5 }

read_log_record-stops_example : read_log_record short_held 8187 ≡ none
read_log_record-stops_example = read_log_record-stops short_held 8187 (omega arith) (omega arith)

-- A digest that pads or cuts to 32 bytes.
abbrev pub pad_digest : Bytes → Bytes
pad_digest s = take 32 (s ++ replicate 32 0)

pad_digest-length : (s : Bytes) → length (pad_digest s) ≡ 32
pad_digest-length s =
    omega (arith, length-take 32 (s ++ replicate 32 0), length-append s (replicate 32 0))

abbrev pub no_rows : AuditWriter
no_rows = record { rows = []; last_hash = genesis }

pub no_rows-IsSealed : IsSealed pad_digest no_rows
unfolding last_entry_hash
no_rows-IsSealed = (tt, refl)

abbrev one_row : AuditWriter
one_row = record_row pad_digest true true 5 key_k key_k key_k key_k key_k no_rows

record_row-IsSealed_example : IsSealed pad_digest one_row
record_row-IsSealed_example =
    record_row-IsSealed pad_digest true true 5 key_k key_k key_k key_k key_k no_rows
      no_rows-IsSealed

sealed_tables-agree_example :
    AnyClash pad_digest one_row.rows one_row.rows
    ⊎ (map (row_input pad_digest) one_row.rows ≡ map (row_input pad_digest) one_row.rows)
sealed_tables-agree_example =
    sealed_tables-agree pad_digest one_row one_row pad_digest-length record_row-IsSealed_example
      record_row-IsSealed_example refl refl

-- A library with one entry, 1.0.0.0, whose index stands behind eight bytes of header.
abbrev tiny_library : QQwry
tiny_library = record {
  content = 8 ∷ 0 ∷ 0 ∷ 0 ∷ 8 ∷ 0 ∷ 0 ∷ 0 ∷ 0 ∷ 0 ∷ 0 ∷ 1 ∷ 0 ∷ 0 ∷ 0 ∷ [];
  first_idx = 8;
  last_idx = 8;
}

lookup_geo-in_vain_example :
    lookup_geo (λ s. s) 9 tiny_library (record { o0 = 1; o1 = 0; o2 = 0; o3 = 1 }) ≡ ok none
lookup_geo-in_vain_example =
    lookup_geo-in_vain (λ s. s) 9 tiny_library (record { o0 = 1; o1 = 0; o2 = 0; o3 = 1 })
      (omega arith) (omega arith) (omega arith) (omega arith) (omega arith)

-- A third tier that has nothing.
abbrev pub no_redis : RedisOps
no_redis = record {
  Conn = Unit;
  remote_get = λ key conn. (ok none, conn);
  remote_set = λ key raw ttl conn. conn;
  remote_del = λ key conn. conn;
}

abbrev pub empty_tiers : TieredCache no_redis
empty_tiers = record { l1 = new_cache 64 60; l2 = empty_log; l3 = some tt; l3_queue = [] }

tiered_get-purged_example :
    (tiered_get no_redis 1500 none key_k
      (tiered_purge no_redis key_k
        (tiered_put no_redis 1000 none key_k value_12 10 empty_tiers)).1).0
    ≡ ok (some value_12)
tiered_get-purged_example =
    tiered_get-purged no_redis 1000 1500 10 none key_k value_12 key_k empty_tiers (refl, tt)
      (omega arith) (omega arith) (omega arith) (omega arith) (omega arith) refl
