-- ===== src/Resolve/Handle/Entries.antt =====
-- What `Pipeline::handle` of src/resolve/mod.rs writes into the query log.
use dnsd_rs.Base.{
  Bool, Bytes, Error, ap, ◌*◌, ◌^◌, List, Option, Result, [], codes, err, false, if◌then◌else◌,
  length, ltb, none, not, ok, panic, refl, some, subst, sym, true, ℕ, ◌++◌, ◌==◌, ◌>>=◌, ◌∷◌, ◌≡◌,
}
use dnsd_rs.Cache.Tiered.{TieredCache, tiered_get}
use dnsd_rs.Logs.Queries.{QueryLogRow, write_row}
use dnsd_rs.Proto.Ecs.{EcsInfo, ecs}
use dnsd_rs.Proto.Encode.{encode_message}
use dnsd_rs.Proto.Parse.{parse_message}
use dnsd_rs.Proto.Text.{Text, canonical_name}
use dnsd_rs.Proto.Texts.{rcode_to_string, type_to_string}
use dnsd_rs.Proto.Types.{IpAddr, Message, Question, edns, question}
use dnsd_rs.Resolve.Block.{BlockMode, mode_for}
use dnsd_rs.Resolve.Dualstack.{AddrText}
use dnsd_rs.Resolve.Handle.{Clock, Serving, handle, logged, row_of}
use dnsd_rs.Resolve.Custom.{respond_zone}
use dnsd_rs.Resolve.Limiter.{Limiter, allow}
use dnsd_rs.Resolve.Pipeline.Ids.{resolver_gives}
use dnsd_rs.Resolve.Pipeline.{
  Pipeline, Reply, State, admitted, finish, looked_up, parsed, past_block, process, refuse_all,
  resolved, subnet, token_of, with_mode, with_question,
}
use dnsd_rs.Resolve.Replies.{badvers, patch_id, refuse}
use dnsd_rs.Resolve.Requests.{
  RespMeta, edns_version, hit_rcode, new_meta, or_bytes, or_default, prepared, cache_key,
  upstream_of_mode,
}

-- No origin is named.
abbrev IsNameless : RespMeta → Type 0
IsNameless m = (m.cache_hit ≡ false) × (m.blocked ≡ false) × (m.upstream ≡ [])

-- What a record says of the origin of a reply.
abbrev SaysOf : RespMeta → Bytes → Bool → Bool → Type 0
SaysOf m upstream hit blocked =
    (m.upstream ≡ upstream) × (m.cache_hit ≡ hit) × (m.blocked ≡ blocked)

module _ ⦃text : Text⦄ ⦃addr_text : AddrText⦄ (pipe : Pipeline) (now : ℕ) (torn : Option ℕ)
    (client : IpAddr) (st0 : State pipe) (req : Message) (q : Question) where
  -- The look into the cache for the question, in the state that the request finds, for a client subnet.
  abbrev pub cached : Option EcsInfo → Result (Option Bytes) × TieredCache pipe.redis_ops
  cached info =
      tiered_get pipe.redis_ops now torn (cache_key q.name q.qtype (token_of pipe info)) st0.cache

  abbrev pub zone_reply : Option Message
  zone_reply = respond_zone pipe.parse_u16 pipe.words q pipe.policy.zones

  -- The name is neither blocked nor in a zone, and this is the subnet that goes with the request.
  abbrev IsOpenName : Option EcsInfo → Type 0
  IsOpenName info =
      (subnet pipe client (ecs req) ≡ ok info)
      × (mode_for pipe.policy.block q.name ≡ none)
      × (zone_reply ≡ none)

  -- Where the bytes that were sent come from, as the record says: a blocking mode, a zone, the cache, the
  -- resolver behind a miss of the cache; or none of them, where the resolver failed or the request was
  -- refused for a name that is too long, its version or its rate.
  pub data CameFrom (m : RespMeta) (sent : Bytes) : Type 0 where
    from_block :
        (mode : BlockMode)
        → mode_for pipe.policy.block q.name ≡ some mode
        → m.rcode ≡ codes "NOERROR"
        → SaysOf m (upstream_of_mode mode) false true
        → CameFrom m sent
    from_zone :
        (reply : Message)
        → mode_for pipe.policy.block q.name ≡ none
        → zone_reply ≡ some reply
        → m.rcode ≡ rcode_to_string reply.header.rcode
        → SaysOf m (codes "zone") false false
        → CameFrom m sent
    from_cache :
        (info : Option EcsInfo) (hit : Bytes)
        → IsOpenName info
        → (cached info).0 ≡ ok (some hit)
        → sent ≡ patch_id hit req.header.id
        → m.token ≡ token_of pipe info
        → SaysOf m (codes "cache") true false
        → CameFrom m sent
    from_resolver :
        (info : Option EcsInfo) (bytes : Bytes)
        → IsOpenName info
        → (cached info).0 ≡ ok none
        → (resolver_gives pipe client st0 req q info).0 ≡ ok bytes
        → m.token ≡ token_of pipe info
        → SaysOf m (codes "recursive") false false
        → CameFrom m sent
    resolver_failed :
        (info : Option EcsInfo) (e : Error)
        → IsOpenName info
        → (cached info).0 ≡ ok none
        → (resolver_gives pipe client st0 req q info).0 ≡ err e
        → m.token ≡ token_of pipe info
        → m.rcode ≡ codes "SERVFAIL"
        → SaysOf m [] false false
        → CameFrom m sent
    long_name : ltb 253 (length q.name) ≡ true → SaysOf m [] false false → CameFrom m sent
    bad_version :
        (edns_version (edns req) == 0) ≡ false
        → m.rcode ≡ codes "BADVERS"
        → SaysOf m [] false false
        → CameFrom m sent
    rate_limited :
        (allow pipe.f64 (now * 10 ^ 6) client st0.limiter).0 ≡ false
        → m.rcode ≡ codes "REFUSED"
        → SaysOf m [] false false
        → CameFrom m sent

  -- A record for the name and the type of the question.
  abbrev IsEntry : RespMeta → Bytes → Type 0
  IsEntry m sent =
      (m.qname ≡ canonical_name q.name) × (m.qtype ≡ type_to_string q.qtype) × CameFrom m sent

  -- One in which no origin is named yet.
  abbrev IsOpen : RespMeta → Type 0
  IsOpen m = (m.qname ≡ canonical_name q.name) × (m.qtype ≡ type_to_string q.qtype) × IsNameless m

  abbrev pub Records : Result (Reply pipe) → Type 0
  Records (ok r) = IsEntry r.meta r.sent
  Records (err e) = Unit
  Records panic = Unit

  then_Records :
      {A : Type 0} (r : Result A) (f : A → Result (Reply pipe))
      → ((x : A) → r ≡ ok x → Records (f x))
      → Records (r >>= f)
  then_Records (ok x) f h = h x refl
  then_Records (err e) f h = tt
  then_Records panic f h = tt

  finish-Records :
      (meta : RespMeta) (st : State pipe) (r : Result Bytes)
      → ((s : Bytes) → IsEntry meta s)
      → Records (finish pipe meta st r)
  finish-Records meta st r h = then_Records r _ (λ s e. h s)

  resolved-Records :
      (info : Option EcsInfo) (key : Bytes) (meta : RespMeta) (st : State pipe)
      (out : Result Bytes × pipe.net.World)
      → IsOpen meta
      → meta.token ≡ token_of pipe info
      → IsOpenName info
      → (cached info).0 ≡ ok none
      → resolver_gives pipe client st0 req q info ≡ out
      → Records (resolved pipe now torn req q info key meta st out)
  resolved-Records info key meta st (ok s, w) (name, qtype, (hit, blocked, up)) sub opened miss
        gave =
      then_Records (or_default (parse_message s)) _ (λ m p.
        then_Records (or_bytes s (encode_message (prepared info req.header.id m))) _ (λ out e. (
          name,
          qtype,
          from_resolver info s opened miss (ap (λ r. r.0) gave) sub (refl, hit, blocked),
        )))
  resolved-Records info key meta st (err e, w) (name, qtype, (hit, blocked, up)) sub opened miss
        gave =
      finish-Records _ _ _ (λ s. (
        name,
        qtype,
        resolver_failed info e opened miss (ap (λ r. r.0) gave) sub refl (up, hit, blocked),
      ))
  resolved-Records info key meta st (panic, w) fresh sub opened miss gave = tt

  looked_up-Records :
      (l : Limiter pipe.f64) (info : Option EcsInfo) (key : Bytes) (meta : RespMeta)
      (found : Result (Option Bytes) × TieredCache pipe.redis_ops)
      → IsOpen meta
      → meta.token ≡ token_of pipe info
      → IsOpenName info
      → cached info ≡ found
      → Records (looked_up pipe now torn req q info key meta (record st0 { limiter = l }) found)
  looked_up-Records l info key meta (ok (some hit), c) (name, qtype, (no_hit, blocked, up)) sub
        opened e =
      then_Records (hit_rcode (parse_message (patch_id hit req.header.id))) _ (λ rcode p.
        (name, qtype, from_cache info hit opened (ap (λ r. r.0) e) refl sub (refl, refl, blocked)))
  looked_up-Records l info key meta (ok none, c) fresh sub opened e =
      resolved-Records info key meta (record st0 { limiter = l; cache = c }) _ fresh sub opened
        (ap (λ r. r.0) e) refl
  looked_up-Records l info key meta (err x, c) fresh sub opened e = tt
  looked_up-Records l info key meta (panic, c) fresh sub opened e = tt

  past_block-Records :
      (l : Limiter pipe.f64) (info : Option EcsInfo) (meta : RespMeta) (zone : Option Message)
      → IsOpen meta
      → meta.token ≡ token_of pipe info
      → subnet pipe client (ecs req) ≡ ok info
      → mode_for pipe.policy.block q.name ≡ none
      → zone_reply ≡ zone
      → Records (past_block pipe now torn req q info meta (record st0 { limiter = l }) zone)
  past_block-Records l info meta (some m) (name, qtype, (hit, blocked, up)) sub got free e =
      finish-Records _ _ _ (λ s. (name, qtype, from_zone m free e refl (refl, hit, blocked)))
  past_block-Records l info meta none fresh sub got free e =
      looked_up-Records l info _ meta _ fresh sub (got, free, e)
        (ap (λ t. tiered_get pipe.redis_ops now torn (cache_key q.name q.qtype t) st0.cache)
          (sym sub))

  with_mode-Records :
      (l : Limiter pipe.f64) (info : Option EcsInfo) (meta : RespMeta) (mode : Option BlockMode)
      → IsOpen meta
      → meta.token ≡ token_of pipe info
      → subnet pipe client (ecs req) ≡ ok info
      → mode_for pipe.policy.block q.name ≡ mode
      → Records (with_mode pipe now torn client req q info meta (record st0 { limiter = l }) mode)
  with_mode-Records l info meta (some mode) (name, qtype, (hit, blocked, up)) sub got e =
      finish-Records _ _ _ (λ s. (name, qtype, from_block mode e refl (refl, hit, refl)))
  with_mode-Records l info meta none fresh sub got e =
      past_block-Records l info meta zone_reply fresh sub got e refl

  admitted-Records :
      (meta : RespMeta) (a : Bool × Limiter pipe.f64)
      → IsOpen meta
      → allow pipe.f64 (now * 10 ^ 6) client st0.limiter ≡ a
      → Records (admitted pipe now torn client req q meta st0 a)
  admitted-Records meta (false, l) (name, qtype, (hit, blocked, up)) e =
      finish-Records _ _ _
        (λ s. (name, qtype, rate_limited (ap (λ r. r.0) e) refl (up, hit, blocked)))
  admitted-Records meta (true, l) fresh e =
      then_Records (subnet pipe client (ecs req)) _ (λ info got.
        with_mode-Records l info (record meta { token = token_of pipe info })
          (mode_for pipe.policy.block q.name) fresh refl got refl)

  with_question-Records :
      (raw : Bytes) → Records (with_question pipe now torn raw client req st0 (some q))
  with_question-Records raw = by_length (ltb 253 (length q.name)) refl
    where
      meta : RespMeta
      meta = record new_meta { qname = canonical_name q.name; qtype = type_to_string q.qtype }

      by_version :
          (b : Bool)
          → (edns_version (edns req) == 0) ≡ b
          → Records (
              if not b
              then finish pipe (record meta { rcode = codes "BADVERS" }) st0 (badvers req)
              else admitted pipe now torn client req q meta st0
                  (allow pipe.f64 (now * 10 ^ 6) client st0.limiter))
      by_version false e =
          finish-Records _ _ _ (λ s. (refl, refl, bad_version e refl (refl, refl, refl)))
      by_version true e = admitted-Records meta _ (refl, refl, (refl, refl, refl)) refl

      by_length :
          (b : Bool)
          → ltb 253 (length q.name) ≡ b
          → Records (
              if b
              then refuse_all pipe raw meta st0
              else if not (edns_version (edns req) == 0)
              then finish pipe (record meta { rcode = codes "BADVERS" }) st0 (badvers req)
              else admitted pipe now torn client req q meta st0
                  (allow pipe.f64 (now * 10 ^ 6) client st0.limiter))
      by_length true e =
          then_Records (refuse raw) _ (λ r x. (refl, refl, long_name e (refl, refl, refl)))
      by_length false e = by_version (edns_version (edns req) == 0) refl

  process-Records :
      (raw : Bytes)
      → parse_message raw ≡ ok req
      → req.header.qr ≡ false
      → question req ≡ some q
      → Records (process pipe now torn raw client st0)
  unfolding process
  process-Records raw e query asked =
      subst (λ r. Records (parsed pipe now torn raw client st0 r)) (sym e)
        (subst
          (λ (b : Bool). Records (
            if b
            then ok (record { sent = []; meta = new_meta; state = st0 })
            else with_question pipe now torn raw client req st0 (question req)))
          (sym query)
          (subst (λ a. Records (with_question pipe now torn raw client req st0 a)) (sym asked)
            (with_question-Records raw)))

module _ ⦃text : Text⦄ ⦃addr_text : AddrText⦄ (pipe : Pipeline) (q : Question) (clock : Clock)
    (client : IpAddr) (via : Bytes) (s : Serving pipe) (rows : List QueryLogRow)
    (req : Message) where
  -- The log behind a request: as it was with one row more, for the question, the client and the way it
  -- came, that says where the bytes that are sent come from.
  abbrev pub IsLogged : Result (Bytes × Serving pipe) → Type 0
  IsLogged (ok (sent, behind)) =
      (meta : RespMeta) × (behind.logger
        ≡ some (rows ++ (row_of clock s.requests (pipe.ip_text client) via meta ∷ [])))
      × IsEntry pipe (clock.now s.requests) (clock.torn s.requests) client s.state req q meta sent
  IsLogged (err e) = Unit
  IsLogged panic = Unit

  logged-IsLogged :
      (r : Result (Reply pipe))
      → s.logger ≡ some rows
      → Records pipe (clock.now s.requests) (clock.torn s.requests) client s.state req q r
      → IsLogged (logged pipe clock client via s r)
  unfolding write_row
  logged-IsLogged (ok r) e h = (r.meta, rw e refl, h)
  logged-IsLogged (err x) e h = tt
  logged-IsLogged panic e h = tt

  -- Where the log has a channel and a query was parsed, every request that is answered leaves the rows before
  -- it and one row more in the channel: with the client, the way it came, the canonical name and the type of
  -- the question, and the true origin of the bytes sent. It is marked as blocked and names the mode where
  -- the block list has one for the name; names the zone where that answers; is marked as a hit and names
  -- the cache where that holds the bytes, with the id patched; names the recursion where the cache misses
  -- and the resolver gives bytes; and names none where the resolver fails or the request is refused.
  pub handle-IsLogged :
      (raw : Bytes)
      → parse_message raw ≡ ok req
      → req.header.qr ≡ false
      → question req ≡ some q
      → s.logger ≡ some rows
      → IsLogged (handle pipe clock raw client via s)
  unfolding handle
  handle-IsLogged raw e query asked on = logged-IsLogged _ on (
      process-Records pipe (clock.now s.requests) (clock.torn s.requests) client s.state req q raw e
        query asked)
