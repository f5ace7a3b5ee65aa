-- ===== src/Logs/Queries.antt =====
-- The query log of src/store/logs.rs: the rows, the channel to the writing thread, and its loop that
-- inserts them in batches. How long the loop waits for a row is not modelled: rows and timeouts come in
-- any order. Of a batch that fails the database keeps the rows before the one that failed.
pub mod Batches
use dnsd_rs.Base.{
  Bool, Bytes, List, Option, [], false, if◌then◌else◌, leb, length, none, some, take, true, ℕ, ◌++◌,
  ◌==◌, ◌∷◌,
}

-- `QueryLogRow` of src/model.rs
pub record QueryLogRow : Type 0 where
  pub ts_ms : ℕ
  pub client_ip : Bytes
  pub ecs : Bytes
  pub qname : Bytes
  pub qtype : Bytes
  pub rcode : Bytes
  pub cache_hit : Bool
  pub upstream : Bytes
  pub rtt_ms : ℕ
  pub blocked : Bool
  pub via : Bytes

-- `QueryLogWriter`: the rows in the channel, where there is one.
abbrev pub QueryLogWriter : Type 0
QueryLogWriter = Option (List QueryLogRow)

-- `QueryLogWriter::new`
abbrev new_query_log : Bool → QueryLogWriter
new_query_log available = if available then some [] else none

-- `QueryLogWriter::write`
unfoldable pub write_row : QueryLogRow → QueryLogWriter → QueryLogWriter
write_row row none = none
write_row row (some rows) = some (rows ++ (row ∷ []))

-- What `recv_timeout` gives, and how many rows the database takes of a batch that is inserted then.
pub data Event : Type 0 where
  row_came : QueryLogRow → ℕ → Event
  timed_out : ℕ → Event
  disconnected : ℕ → Event

-- The writing thread: its buffer, the batches that it gave to the database, and the table.
pub record Flusher : Type 0 where
  pub buf : List QueryLogRow
  pub batches : List (List QueryLogRow)
  pub table : List QueryLogRow
  pub running : Bool

abbrev pub new_flusher : Flusher
new_flusher = record { buf = []; batches = []; table = []; running = true }

-- `flush_batch`, with `insert_query_batch`.
abbrev pub flush_batch : ℕ → Flusher → Flusher
flush_batch taken f = if length f.buf == 0 then f else record f {
  buf = [];
  batches = f.batches ++ (f.buf ∷ []);
  table = f.table ++ take taken f.buf;
}

-- One turn of `flush_loop`.
unfoldable pub flush_turn : ℕ → Event → Flusher → Flusher
flush_turn size (row_came r taken) f =
    let g = record f { buf = f.buf ++ (r ∷ []) } in
    if leb size (length g.buf) then flush_batch taken g else g
flush_turn size (timed_out taken) f = flush_batch taken f
flush_turn size (disconnected taken) f = let g = flush_batch taken f in record g { running = false }

-- `flush_loop`, on the events of the channel.
unfoldable pub flush_loop : ℕ → List Event → Flusher → Flusher
unfolding flush_turn
flush_loop size [] f = f
flush_loop size (e ∷ es) f =
    let rest = flush_loop size es (flush_turn size e f) in if f.running then rest else f
