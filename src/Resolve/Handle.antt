-- ===== src/Resolve/Handle.antt =====
-- `Pipeline::handle` of src/resolve/mod.rs: `process`, and the row of the query log. The pipeline behind
-- it fills the interface of the listeners. The clocks are functions of the number of requests before.
pub mod Entries
use dnsd_rs.Base.{Bytes, Option, Result, ok, some, ℕ, ◌+◌, ◌>>=◌}
use dnsd_rs.Logs.Queries.{QueryLogRow, QueryLogWriter, write_row}
use dnsd_rs.Proto.Text.{Text}
use dnsd_rs.Proto.Types.{IpAddr}
use dnsd_rs.Resolve.Dualstack.{AddrText}
use dnsd_rs.Resolve.Pipeline.{Pipeline, Reply, State, process}
use dnsd_rs.Resolve.Requests.{RespMeta}
use dnsd_rs.Server.Service.{DnsService}

-- The clock of the caches in milliseconds, how far a write to the disk comes where it fails, the time of
-- the log, and the milliseconds that a request takes.
pub record Clock : Type 0 where
  pub now : ℕ → ℕ
  pub torn : ℕ → Option ℕ
  pub ts_ms : ℕ → ℕ
  pub elapsed : ℕ → ℕ

module _ (clock : Clock) where
  -- The row that `handle` writes.
  abbrev pub row_of : ℕ → Bytes → Bytes → RespMeta → QueryLogRow
  row_of n client_text via meta = record {
    ts_ms = clock.ts_ms n;
    client_ip = client_text;
    ecs = meta.token;
    qname = meta.qname;
    qtype = meta.qtype;
    rcode = meta.rcode;
    cache_hit = meta.cache_hit;
    upstream = meta.upstream;
    rtt_ms = clock.elapsed n;
    blocked = meta.blocked;
    via = via;
  }

module _ ⦃text : Text⦄ ⦃addr_text : AddrText⦄ (pipe : Pipeline) where
  pub record Serving : Type 0 where
    pub state : State pipe
    pub logger : QueryLogWriter
    pub requests : ℕ

module _ ⦃text : Text⦄ ⦃addr_text : AddrText⦄ (pipe : Pipeline) (clock : Clock) where
  -- What is sent, and the state with the row in the log.
  abbrev pub logged :
      IpAddr → Bytes → Serving pipe → Result (Reply pipe) → Result (Bytes × Serving pipe)
  logged client via s r = r >>= λ reply. ok (
    reply.sent,
    record {
      state = reply.state;
      logger = write_row (row_of clock s.requests (pipe.ip_text client) via reply.meta) s.logger;
      requests = s.requests + 1;
    },
  )

  -- `Pipeline::handle`
  unfoldable pub handle : Bytes → IpAddr → Bytes → Serving pipe → Result (Bytes × Serving pipe)
  unfolding process write_row
  handle raw client via s =
      logged client via s
        (process pipe (clock.now s.requests) (clock.torn s.requests) raw client s.state)

  -- The pipeline as the listeners see it.
  abbrev dns_service : DnsService
  dns_service = record { State = Serving pipe; answer = handle }
