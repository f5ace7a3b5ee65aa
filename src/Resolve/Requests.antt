-- ===== src/Resolve/Requests.antt =====
use dnsd_rs.Base.{
  Bool, Bytes, Option, Result, [], codes, decimal_fuel, err, false, none, ok, panic, some, true, ℕ,
  ◌++◌, ◌∷◌,
}
use dnsd_rs.Proto.Ecs.{EcsInfo}
use dnsd_rs.Proto.Edns.{echo_ecs}
use dnsd_rs.Proto.Text.{Text, canonical_name}
use dnsd_rs.Proto.Texts.{rcode_to_string}
use dnsd_rs.Proto.Types.{Message, RData, Record, default_message}
use dnsd_rs.Resolve.Block.{BlockList, BlockMode, loopback, random}
use dnsd_rs.Resolve.Custom.{ZoneIndex}
use dnsd_rs.Resolve.Recurse.{RecurseConfig}
use dnsd_rs.Resolve.Replies.{TtlConfig, Verdict, formerr, refused}

-- What `Pipeline::process` of src/resolve/mod.rs keeps of a request: the record for the log, the cache key,
-- and what is read out of messages on the way.

-- `RespMeta`, without `rtt_ms`, which `handle` fills in.
pub record RespMeta : Type 0 where
  pub rcode : Bytes
  pub cache_hit : Bool
  pub upstream : Bytes
  pub blocked : Bool
  pub qname : Bytes
  pub qtype : Bytes
  pub token : Bytes

-- The start of `handle`.
abbrev pub new_meta : RespMeta
new_meta = record {
  rcode = codes "SERVFAIL";
  cache_hit = false;
  upstream = [];
  blocked = false;
  qname = [];
  qtype = [];
  token = [];
}

-- `Policy`, and the part of `Config` that is used here.
pub record Policy : Type 0 where
  pub block : BlockList
  pub zones : ZoneIndex

pub record PipelineConfig : Type 0 where
  pub ecs_scope_max : ℕ
  pub dualstack_enabled : Bool
  pub ttls : TtlConfig
  pub recurse : RecurseConfig

module _ ⦃text : Text⦄ where
  -- `cache_key`
  unfoldable pub cache_key : Bytes → ℕ → Bytes → Bytes
  cache_key name qtype token =
      canonical_name name ++ (b'|' ∷ (decimal_fuel 5 qtype ++ (b'|' ∷ token)))

-- `Message::parse(..).unwrap_or_else(|_| Message::default())`
abbrev pub or_default : Result Message → Result Message
or_default (ok m) = ok m
or_default (err e) = ok default_message
or_default panic = panic

-- `msg.encode().unwrap_or_else(|_| bytes)`
abbrev pub or_bytes : Bytes → Result Bytes → Result Bytes
or_bytes s (ok t) = ok t
or_bytes s (err e) = ok s
or_bytes s panic = panic

-- The rcode of a cached reply, where it is one.
abbrev pub hit_rcode : Result Message → Result Bytes
hit_rcode (ok m) = ok (rcode_to_string m.header.rcode)
hit_rcode (err e) = ok (codes "NOERROR")
hit_rcode panic = panic

abbrev echoed : Option EcsInfo → Message → Message
echoed none m = m
echoed (some e) m = echo_ecs m e

-- What step 8 changes in the message of the resolver.
abbrev pub prepared : Option EcsInfo → ℕ → Message → Message
prepared info id m =
    let m1 = echoed info m in record m1 { header = record (m1.header) { id = id; ra = true } }

-- The version of the OPT record of a request.
abbrev opt_version : RData → ℕ
opt_version (RData.opt o) = o.version
opt_version _ = 0

abbrev pub edns_version : Option Record → ℕ
edns_version none = 0
edns_version (some r) = opt_version r.rdata

abbrev pub upstream_of_mode : BlockMode → Bytes
upstream_of_mode loopback = codes "block-loopback"
upstream_of_mode random = codes "block-random"

abbrev pub rcode_of_verdict : Verdict → Bytes
rcode_of_verdict refused = codes "REFUSED"
rcode_of_verdict formerr = codes "FORMERR"
