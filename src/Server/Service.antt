-- ===== src/Server/Service.antt =====
-- What the listeners of src/server ask of the pipeline: an answer to a query in wire form.
use dnsd_rs.Base.{Bytes, Result}
use dnsd_rs.Proto.Types.{IpAddr}

-- `Pipeline::handle`, with the state that it shares; the last text says how the query came.
pub record DnsService : Type 1 where
  pub State : Type 0
  pub answer : Bytes → IpAddr → Bytes → State → Result (Bytes × State)
