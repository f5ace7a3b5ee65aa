-- ===== src/Logs.antt =====
-- src/store/logs.rs: the audit log with its hash chain. SHA-256 is a parameter, the table that the
-- rows are inserted into is a list in the order of their ids, and whether the database is there and
-- takes a row are arguments. A time is a number of milliseconds.
pub mod Chain
pub mod Queries
use dnsd_rs.Base.{
  Bool, Bytes, List, [], decimal_fuel, if◌then◌else◌, ltb, not, replicate, ℕ, ◌%◌, ◌++◌, ◌+◌, ◌-◌,
  ◌/◌, ◌∷◌,
}

pub record AuditRow : Type 0 where
  pub ts_ms : ℕ
  pub actor : Bytes
  pub action : Bytes
  pub target : Bytes
  pub detail : Bytes
  pub client_ip : Bytes
  pub prev_hash : Bytes
  pub entry_hash : Bytes

-- `GENESIS`
abbrev pub genesis : Bytes
genesis = replicate 64 b'0'

-- `hex_encode`: two lower case digits for a byte.
abbrev hex_digit : ℕ → ℕ
hex_digit n = if ltb n 10 then b'0' + n else b'a' + (n - 10)

unfoldable pub hex_encode : Bytes → Bytes
hex_encode [] = []
hex_encode (b ∷ bs) = hex_digit (b / 16) ∷ hex_digit (b % 16) ∷ hex_encode bs

-- The digits of `ts_ms.to_string()`; twenty are enough for 64 bits.
abbrev ts_text : ℕ → Bytes
ts_text = decimal_fuel 20

abbrev pub bar : ℕ
bar = b'|'

-- What `compute_hash` feeds to the digest.
unfoldable pub hash_input : Bytes → ℕ → Bytes → Bytes → Bytes → Bytes → Bytes → Bytes
hash_input prev ts_ms actor action target detail client_ip =
    prev
    ++ (bar
        ∷ (ts_text ts_ms
            ++ (bar
                ∷ (actor
                    ++ (bar
                        ∷ (action ++ (bar ∷ (target ++ (bar ∷ (detail ++ (bar ∷ client_ip)))))))))))

module _ (sha256 : Bytes → Bytes) where
  -- `compute_hash`
  unfoldable pub compute_hash : Bytes → ℕ → Bytes → Bytes → Bytes → Bytes → Bytes → Bytes
  compute_hash prev ts_ms actor action target detail client_ip =
      hex_encode (sha256 (hash_input prev ts_ms actor action target detail client_ip))

  -- `make_audit_row`
  unfoldable pub make_audit_row : Bytes → ℕ → Bytes → Bytes → Bytes → Bytes → Bytes → AuditRow
  make_audit_row prev ts_ms actor action target detail client_ip = record {
    ts_ms = ts_ms;
    actor = actor;
    action = action;
    target = target;
    detail = detail;
    client_ip = client_ip;
    prev_hash = prev;
    entry_hash = compute_hash prev ts_ms actor action target detail client_ip;
  }

-- `AuditWriter`, with the rows of the table `audit_logs`.
pub record AuditWriter : Type 0 where
  pub rows : List AuditRow
  pub last_hash : Bytes

-- `last_entry_hash`: the hash of the row with the greatest id.
unfoldable pub last_entry_hash : Bytes → List AuditRow → Bytes
last_entry_hash h [] = h
last_entry_hash h (r ∷ rs) = last_entry_hash r.entry_hash rs

-- `AuditWriter::new`: the hash read from the table, or `GENESIS` where it cannot be read.
unfoldable new_writer : Bool → List AuditRow → AuditWriter
unfolding last_entry_hash
new_writer readable rows = record {
  rows = rows;
  last_hash = if readable then last_entry_hash genesis rows else genesis;
}

module _ (sha256 : Bytes → Bytes) where
  -- `AuditWriter::record`; a row that the database refuses leaves the writer as it was.
  unfoldable pub record_row :
      Bool → Bool → ℕ → Bytes → Bytes → Bytes → Bytes → Bytes → AuditWriter → AuditWriter
  record_row available inserted ts_ms actor action target detail client_ip w =
      let row = make_audit_row sha256 w.last_hash ts_ms actor action target detail client_ip in
      if not available
      then w
      else if inserted
      then record { rows = w.rows ++ (row ∷ []); last_hash = row.entry_hash }
      else w
