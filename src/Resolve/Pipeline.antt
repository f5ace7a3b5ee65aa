-- ===== src/Resolve/Pipeline.antt =====
-- `Pipeline::process` of src/resolve/mod.rs, in the order of its numbered steps. A panic ends the thread:
-- no reply and no state. The flights of the resolver are those of Flight, here with the one thread.
pub mod Ids
use dnsd_rs.Base.{
  Bool, Bytes, List, Option, Result, [], codes, err, false, if◌then◌else◌, length, ltb, none, not,
  ok, panic, some, true, ℕ, ◌*◌, ◌==◌, ◌>>=◌, ◌^◌,
}
use dnsd_rs.Cache.Tiered.{RedisOps, TieredCache, tiered_get, tiered_put}
use dnsd_rs.Proto.Ecs.{EcsInfo, cache_token, clamp_scope, ecs}
use dnsd_rs.Proto.Encode.{encode_message}
use dnsd_rs.Proto.Parse.{parse_message}
use dnsd_rs.Proto.Text.{Text, canonical_name}
use dnsd_rs.Proto.Texts.{rcode_to_string, type_to_string}
use dnsd_rs.Proto.Types.{
  IpAddr, Ipv4Addr, Ipv6Addr, Message, Question, edns, question, rcode_refused,
}
use dnsd_rs.Resolve.Block.{BlockMode, BlockedDomain, mode_for, new_list, respond}
use dnsd_rs.Resolve.Custom.{Zone, new_index, respond_zone}
use dnsd_rs.Resolve.Dualstack.{AddrText, Dualstack, DualstackBinding, derive_ecs, reload}
use dnsd_rs.Resolve.Iterate.{lead}
use dnsd_rs.Resolve.Limiter.{F64, Limiter, allow}
use dnsd_rs.Resolve.Recurse.{Network, SocketAddr}
use dnsd_rs.Resolve.Replies.{
  badvers, encode_rcode, msg_ttl, or_empty, patch_id, refuse, servfail_reply,
}
use dnsd_rs.Resolve.Requests.{
  PipelineConfig, Policy, RespMeta, cache_key, edns_version, hit_rcode, new_meta, or_bytes,
  or_default, prepared, rcode_of_verdict, upstream_of_mode,
}
use dnsd_rs.Resolve.ZoneRecords.{ZoneRecord}

-- `Pipeline`: the configuration, the policy, and what the parts need of their surroundings.
pub record Pipeline : Type 1 where
  pub net : Network
  pub redis_ops : RedisOps
  pub f64 : F64
  pub ip_text : IpAddr → Bytes
  pub parse_u16 : Bytes → Option ℕ
  pub words : Bytes → List Bytes
  pub map_via_api : Bytes → Ipv6Addr → Option Ipv4Addr
  pub cfg : PipelineConfig
  pub policy : Policy
  pub dualstack : Dualstack
  pub roots : List SocketAddr
  pub stack : ℕ

module _ ⦃text : Text⦄ ⦃addr_text : AddrText⦄ where
  -- `Pipeline::reload`
  unfoldable pub reload_policy :
      List Zone → List ZoneRecord → List BlockedDomain → Pipeline → Pipeline
  reload_policy zones records blocked pipe = record pipe {
    policy = record { block = new_list blocked; zones = new_index zones records };
  }

  -- `Pipeline::reload_bindings`; the first argument is the map file, as `reload` reads it.
  unfoldable pub reload_bindings :
      Option (Option Bytes) → List DualstackBinding → Pipeline → Pipeline
  reload_bindings file bindings pipe = record pipe {
    dualstack = reload file bindings pipe.dualstack;
  }

module _ ⦃text : Text⦄ ⦃addr_text : AddrText⦄ (pipe : Pipeline) where
  -- What a request can change.
  pub record State : Type 0 where
    pub cache : TieredCache pipe.redis_ops
    pub limiter : Limiter pipe.f64
    pub world : pipe.net.World

  -- The bytes that go out, what is logged of them, and the state behind the request.
  pub record Reply : Type 0 where
    pub sent : Bytes
    pub meta : RespMeta
    pub state : State

  -- `encode(&resp, meta)` at the end of a branch.
  abbrev pub finish : RespMeta → State → Result Bytes → Result Reply
  finish meta st r = r >>= λ s. ok (record { sent = s; meta = meta; state = st })

  -- Step 8, behind the resolver.
  abbrev pub resolved :
      ℕ
      → Option ℕ
      → Message
      → Question
      → Option EcsInfo
      → Bytes
      → RespMeta
      → State
      → Result Bytes × pipe.net.World
      → Result Reply
  resolved now torn req q info key meta st (ok s, w) = or_default (parse_message s) >>= λ m.
      let reply = prepared info req.header.id m in
      let ttl = msg_ttl pipe.cfg.ttls reply in
      or_bytes s (encode_message reply) >>= λ out. ok (record {
        sent = out;
        meta = record meta {
          rcode = rcode_to_string reply.header.rcode;
          upstream = codes "recursive";
        };
        state = record st {
          cache =
              if ltb 0 ttl
              then tiered_put pipe.redis_ops now torn key out ttl st.cache
              else st.cache;
          world = w;
        };
      })
  resolved now torn req q info key meta st (err e, w) =
      finish (record meta { rcode = codes "SERVFAIL" }) (record st { world = w })
        (or_empty (encode_message (servfail_reply req q)))
  resolved now torn req q info key meta st (panic, w) = panic

  -- Step 7, behind the look into the cache.
  abbrev pub looked_up :
      ℕ
      → Option ℕ
      → Message
      → Question
      → Option EcsInfo
      → Bytes
      → RespMeta
      → State
      → Result (Option Bytes) × TieredCache pipe.redis_ops
      → Result Reply
  looked_up now torn req q info key meta st (ok (some hit), cache) =
      let patched = patch_id hit req.header.id in
      hit_rcode (parse_message patched) >>= λ rcode. ok (record {
        sent = patched;
        meta = record meta { cache_hit = true; rcode = rcode; upstream = codes "cache" };
        state = record st { cache = cache };
      })
  looked_up now torn req q info key meta st (ok none, cache) =
      resolved now torn req q info key meta (record st { cache = cache })
        (lead pipe.net pipe.cfg.recurse pipe.stack pipe.roots q.name q.qtype info st.world)
  looked_up now torn req q info key meta st (err e, cache) = err e
  looked_up now torn req q info key meta st (panic, cache) = panic

  -- Steps 6 and 7.
  abbrev pub past_block :
      ℕ
      → Option ℕ
      → Message
      → Question
      → Option EcsInfo
      → RespMeta
      → State
      → Option Message
      → Result Reply
  past_block now torn req q info meta st (some m) =
      finish (record meta { rcode = rcode_to_string m.header.rcode; upstream = codes "zone" }) st
        (or_empty (encode_message (record m { header = record (m.header) { id = req.header.id } })))
  past_block now torn req q info meta st none =
      let key = cache_key q.name q.qtype meta.token in
      looked_up now torn req q info key meta st (tiered_get pipe.redis_ops now torn key st.cache)

  -- Step 5.
  abbrev pub with_mode :
      ℕ
      → Option ℕ
      → IpAddr
      → Message
      → Question
      → Option EcsInfo
      → RespMeta
      → State
      → Option BlockMode
      → Result Reply
  with_mode now torn client req q info meta st (some mode) =
      let m = respond pipe.ip_text q client mode in
      finish
        (record meta { blocked = true; rcode = codes "NOERROR"; upstream = upstream_of_mode mode })
        st
        (or_empty (encode_message (record m { header = record (m.header) { id = req.header.id } })))
  with_mode now torn client req q info meta st none =
      past_block now torn req q info meta st
        (respond_zone pipe.parse_u16 pipe.words q pipe.policy.zones)

  -- Step 4: the subnet of the request, cut, or else one derived from the client.
  abbrev pub derived_subnet : IpAddr → Result (Option EcsInfo)
  derived_subnet (IpAddr.v4 ip) = ok none
  derived_subnet (IpAddr.v6 ip) =
      if pipe.cfg.dualstack_enabled then derive_ecs pipe.map_via_api pipe.dualstack ip else ok none

  abbrev pub subnet : IpAddr → Option EcsInfo → Result (Option EcsInfo)
  subnet client (some e) = ok (some (clamp_scope e pipe.cfg.ecs_scope_max))
  subnet client none = derived_subnet client

  abbrev pub token_of : Option EcsInfo → Bytes
  token_of none = []
  token_of (some e) = cache_token pipe.ip_text e

  -- Steps 3 and 4.
  abbrev pub admitted :
      ℕ
      → Option ℕ
      → IpAddr
      → Message
      → Question
      → RespMeta
      → State
      → Bool × Limiter pipe.f64
      → Result Reply
  admitted now torn client req q meta st (false, l) =
      finish (record meta { rcode = codes "REFUSED" }) (record st { limiter = l })
        (encode_rcode req rcode_refused)
  admitted now torn client req q meta st (true, l) = subnet client (ecs req) >>= λ info.
      with_mode now torn client req q info (record meta { token = token_of info })
        (record st { limiter = l }) (mode_for pipe.policy.block q.name)

  abbrev pub refuse_all : Bytes → RespMeta → State → Result Reply
  refuse_all raw meta st = refuse raw >>= λ r.
      ok (record { sent = r.0; meta = record meta { rcode = rcode_of_verdict r.1 }; state = st })

  -- Steps 1 and 2, behind the parser; the clock counts milliseconds, that of the limiter nanoseconds.
  abbrev pub with_question :
      ℕ → Option ℕ → Bytes → IpAddr → Message → State → Option Question → Result Reply
  with_question now torn raw client req st none = refuse_all raw new_meta st
  with_question now torn raw client req st (some q) =
      let meta = record new_meta {
        qname = canonical_name q.name;
        qtype = type_to_string q.qtype;
      } in
      if ltb 253 (length q.name)
      then refuse_all raw meta st
      else if not (edns_version (edns req) == 0)
      then finish (record meta { rcode = codes "BADVERS" }) st (badvers req)
      else admitted now torn client req q meta st (allow pipe.f64 (now * 10 ^ 6) client st.limiter)

  abbrev pub parsed : ℕ → Option ℕ → Bytes → IpAddr → State → Result Message → Result Reply
  parsed now torn raw client st (ok req) =
      if req.header.qr
      then ok (record { sent = []; meta = new_meta; state = st })
      else with_question now torn raw client req st (question req)
  parsed now torn raw client st (err e) = refuse_all raw new_meta st
  parsed now torn raw client st panic = panic

  -- `Pipeline::process`
  unfoldable pub process : ℕ → Option ℕ → Bytes → IpAddr → State → Result Reply
  process now torn raw client st = parsed now torn raw client st (parse_message raw)
