-- ===== src/Resolve/Pipeline/Ids.antt =====
use dnsd_rs.Base.{
  Bool, Bytes, Error, NeverFails, Option, Result, [], ap, arith, codes, err, false, if◌then◌else◌,
  inl, inr, length, ltb, none, not, ok, panic, refl, some, subst, sym, take, true, ℕ, ◌%◌, ◌/◌, ◌<◌,
  ◌==◌, ◌>>=◌, ◌^◌, ◌∷◌, ◌≡◌, ◌⊎◌,
}
use dnsd_rs.Cache.Tiered.{TieredCache}
use dnsd_rs.Cache.Tiered.Errors.{tiered_get-NeverFails}
use dnsd_rs.Proto.Cursor.{be16_bytes}
use dnsd_rs.Proto.Ecs.{EcsInfo, ecs}
use dnsd_rs.Proto.Encode.{encode_message}
use dnsd_rs.Proto.Parse.{parse_message}
use dnsd_rs.Proto.Prefix.{OkBytes, Starts, encode_message-OkBytes}
use dnsd_rs.Proto.Text.{Text, canonical_name}
use dnsd_rs.Proto.Texts.{type_to_string}
use dnsd_rs.Proto.Types.{IpAddr, Message, Question, edns, question, rcode_refused}
use dnsd_rs.Resolve.Block.{BlockMode, mode_for, respond}
use dnsd_rs.Proto.Types.{Ipv6Addr}
use dnsd_rs.Resolve.Dualstack.{AddrText, derive_ecs}
use dnsd_rs.Resolve.Dualstack.Laws.{IsDerived, derive_ecs-IsDerived}
use dnsd_rs.Resolve.Iterate.{lead}
use dnsd_rs.Resolve.Limiter.{Limiter}
use dnsd_rs.Resolve.Pipeline.{
  Pipeline, Reply, State, admitted, finish, looked_up, parsed, past_block, process, refuse_all,
  resolved, subnet, token_of, with_mode, with_question,
}
use dnsd_rs.Resolve.Replies.{
  badvers, badvers_reply, encode_rcode, or_empty, patch_id, rcode_reply, refuse, refuse_reply,
  refused, servfail_reply, with_verdict,
}
use dnsd_rs.Resolve.Requests.{
  RespMeta, cache_key, edns_version, hit_rcode, new_meta, or_bytes, or_default, prepared,
  rcode_of_verdict,
}

-- Whose id a reply of the pipeline has.

module _ ⦃text : Text⦄ ⦃addr_text : AddrText⦄ (pipe : Pipeline) (client : IpAddr) (st0 : State pipe)
    (req : Message) where
  -- What the resolver gives for a question of the request, in the state that the request finds.
  abbrev pub resolver_gives : Question → Option EcsInfo → Result Bytes × pipe.net.World
  resolver_gives q info =
      lead pipe.net pipe.cfg.recurse pipe.stack pipe.roots q.name q.qtype info st0.world

  -- The bytes are what the resolver gave for the question of the request and the client subnet that goes
  -- with it, where the message that is made of them for the client has no encoding.
  abbrev IsFallback : Bytes → Type 0
  IsFallback s =
      (q : Question) × (info : Option EcsInfo) × (m : Message) × (e : Error) × (question req
        ≡ some q)
      × (subnet pipe client (ecs req) ≡ ok info)
      × ((resolver_gives q info).0 ≡ ok s)
      × (or_default (parse_message s) ≡ ok m)
      × (encode_message (prepared info req.header.id m) ≡ err e)

  -- The bytes are no two, or start with the id of the request, or are those of a fallback.
  abbrev IsReplyTo : Bytes → Type 0
  IsReplyTo s = (length s < 2) ⊎ (take 2 s ≡ be16_bytes req.header.id) ⊎ IsFallback s

  abbrev pub RepliesTo : Result (Reply pipe) → Type 0
  RepliesTo (ok r) = IsReplyTo r.sent
  RepliesTo (err e) = true ≡ false
  RepliesTo panic = Unit

  -- What holds when the resolver is asked.
  abbrev IsAsked : Question → Option EcsInfo → State pipe → Type 0
  IsAsked q info st =
      (question req ≡ some q) × (subnet pipe client (ecs req) ≡ ok info) × (st.world ≡ st0.world)

  subnet-NeverFails : NeverFails (subnet pipe client (ecs req))
  subnet-NeverFails = go client (ecs req)
    where
      derived-NeverFails :
          (ip : Ipv6Addr) (r : Result (Option EcsInfo))
          → IsDerived pipe.map_via_api pipe.dualstack ip r
          → NeverFails r
      derived-NeverFails ip (ok r) h = tt
      derived-NeverFails ip (err e) h = h
      derived-NeverFails ip panic h = tt

      switched :
          (on : Bool) (r : Result (Option EcsInfo))
          → NeverFails r
          → NeverFails (if on then r else ok none)
      switched true r h = h
      switched false r h = tt

      go : (c : IpAddr) (e : Option EcsInfo) → NeverFails (subnet pipe c e)
      go c (some e) = tt
      go (IpAddr.v4 ip) none = tt
      go (IpAddr.v6 ip) none =
          switched pipe.cfg.dualstack_enabled (derive_ecs pipe.map_via_api pipe.dualstack ip)
            (derived-NeverFails ip _ (derive_ecs-IsDerived pipe.map_via_api pipe.dualstack ip))

  or_default-NeverFails : (r : Result Message) → NeverFails (or_default r)
  or_default-NeverFails (ok m) = tt
  or_default-NeverFails (err e) = tt
  or_default-NeverFails panic = tt

  hit_rcode-NeverFails : (r : Result Message) → NeverFails (hit_rcode r)
  hit_rcode-NeverFails (ok m) = tt
  hit_rcode-NeverFails (err e) = tt
  hit_rcode-NeverFails panic = tt

  Starts-IsReplyTo : (s : Bytes) → Starts (be16_bytes req.header.id) s → IsReplyTo s
  Starts-IsReplyTo s (more, e) = inr (inl (ap (take 2) e))

  finish-RepliesTo :
      (meta : RespMeta) (st : State pipe) (r : Result Bytes)
      → OkBytes (be16_bytes req.header.id) r
      → RepliesTo (finish pipe meta st (or_empty r))
  finish-RepliesTo meta st (ok s) h = Starts-IsReplyTo s h
  finish-RepliesTo meta st (err e) h = inl (omega arith)
  finish-RepliesTo meta st panic h = tt

  patch_id-IsReplyTo : (s : Bytes) → req.header.id < 2 ^ 16 → IsReplyTo (patch_id s req.header.id)
  unfolding patch_id
  patch_id-IsReplyTo [] small = inl (omega arith)
  patch_id-IsReplyTo (b ∷ []) small = inl (omega arith)
  patch_id-IsReplyTo (b0 ∷ b1 ∷ rest) small =
      let high : req.header.id / 256 ≡ req.header.id / 256 % 256 = omega arith in
      inr (inl (ap (λ x. x ∷ (req.header.id % 256) ∷ []) high))

  -- A chain whose last step gives such a reply.
  then_RepliesTo :
      {A : Type 0} (r : Result A) (f : A → Result (Reply pipe))
      → NeverFails r
      → ((x : A) → RepliesTo (f x))
      → RepliesTo (r >>= f)
  then_RepliesTo (ok x) f n h = h x
  then_RepliesTo (err e) f n h = n
  then_RepliesTo panic f n h = tt

  then_RepliesTo_eq :
      {A : Type 0} (r : Result A) (f : A → Result (Reply pipe))
      → NeverFails r
      → ((x : A) → r ≡ ok x → RepliesTo (f x))
      → RepliesTo (r >>= f)
  then_RepliesTo_eq (ok x) f n h = h x refl
  then_RepliesTo_eq (err e) f n h = n
  then_RepliesTo_eq panic f n h = tt

  -- The end of the recursive branch: the message, or what the resolver gave where it has no encoding.
  or_bytes-RepliesTo :
      (q : Question) (info : Option EcsInfo) (m : Message) (s : Bytes) (r : Result Bytes)
      (f : Bytes → Result (Reply pipe))
      → question req ≡ some q
      → subnet pipe client (ecs req) ≡ ok info
      → (resolver_gives q info).0 ≡ ok s
      → or_default (parse_message s) ≡ ok m
      → encode_message (prepared info req.header.id m) ≡ r
      → OkBytes (be16_bytes req.header.id) r
      → ((out : Bytes) → IsReplyTo out → RepliesTo (f out))
      → RepliesTo (or_bytes s r >>= f)
  or_bytes-RepliesTo q info m s (ok out) f asked sub gave p e h next =
      next out (Starts-IsReplyTo out h)
  or_bytes-RepliesTo q info m s (err x) f asked sub gave p e h next =
      next s (inr (inr (q, info, m, x, asked, sub, gave, p, e)))
  or_bytes-RepliesTo q info m s panic f asked sub gave p e h next = tt

  resolved-RepliesTo :
      (now : ℕ) (torn : Option ℕ) (q : Question) (info : Option EcsInfo) (key : Bytes)
      (meta : RespMeta) (st : State pipe) (out : Result Bytes × pipe.net.World)
      → IsAsked q info st
      → resolver_gives q info ≡ out
      → RepliesTo (resolved pipe now torn req q info key meta st out)
  resolved-RepliesTo now torn q info key meta st (ok s, w) (asked, sub, same) gave =
      then_RepliesTo_eq (or_default (parse_message s)) _ (or_default-NeverFails (parse_message s))
        (λ m p.
          let reply = prepared info req.header.id m in
          or_bytes-RepliesTo q info m s (encode_message reply) _ asked sub (ap (λ r. r.0) gave) p
            refl (encode_message-OkBytes reply) (λ out h. h))
  resolved-RepliesTo now torn q info key meta st (err e, w) asked gave =
      finish-RepliesTo _ _ (encode_message (servfail_reply req q))
        (encode_message-OkBytes (servfail_reply req q))
  resolved-RepliesTo now torn q info key meta st (panic, w) asked gave = tt

  looked_up-RepliesTo :
      (now : ℕ) (torn : Option ℕ) (q : Question) (info : Option EcsInfo) (key : Bytes)
      (meta : RespMeta) (st : State pipe)
      (found : Result (Option Bytes) × TieredCache pipe.redis_ops)
      → IsAsked q info st
      → NeverFails found.0
      → req.header.id < 2 ^ 16
      → RepliesTo (looked_up pipe now torn req q info key meta st found)
  looked_up-RepliesTo now torn q info key meta st (ok (some hit), cache) asked n small =
      then_RepliesTo (hit_rcode (parse_message (patch_id hit req.header.id))) _
        (hit_rcode-NeverFails (parse_message (patch_id hit req.header.id)))
        (λ rcode. patch_id-IsReplyTo hit small)
  looked_up-RepliesTo now torn q info key meta st (ok none, cache) asked n small =
      resolved-RepliesTo now torn q info key meta (record st { cache = cache }) _ asked
        (ap (λ w. lead pipe.net pipe.cfg.recurse pipe.stack pipe.roots q.name q.qtype info w)
          (sym asked.2))
  looked_up-RepliesTo now torn q info key meta st (err e, cache) asked n small = n
  looked_up-RepliesTo now torn q info key meta st (panic, cache) asked n small = tt

  past_block-RepliesTo :
      (now : ℕ) (torn : Option ℕ) (q : Question) (info : Option EcsInfo) (meta : RespMeta)
      (st : State pipe) (zone : Option Message)
      → IsAsked q info st
      → req.header.id < 2 ^ 16
      → RepliesTo (past_block pipe now torn req q info meta st zone)
  past_block-RepliesTo now torn q info meta st (some m) asked small =
      let reply = record m { header = record (m.header) { id = req.header.id } } in
      finish-RepliesTo _ st (encode_message reply) (encode_message-OkBytes reply)
  past_block-RepliesTo now torn q info meta st none asked small =
      looked_up-RepliesTo now torn q info _ meta st _ asked
        (tiered_get-NeverFails pipe.redis_ops now torn (cache_key q.name q.qtype meta.token)
          st.cache)
        small

  with_mode-RepliesTo :
      (now : ℕ) (torn : Option ℕ) (q : Question) (info : Option EcsInfo) (meta : RespMeta)
      (st : State pipe) (mode : Option BlockMode)
      → IsAsked q info st
      → req.header.id < 2 ^ 16
      → RepliesTo (with_mode pipe now torn client req q info meta st mode)
  with_mode-RepliesTo now torn q info meta st (some mode) asked small =
      let m = respond pipe.ip_text q client mode in
      let reply = record m { header = record (m.header) { id = req.header.id } } in
      finish-RepliesTo _ st (encode_message reply) (encode_message-OkBytes reply)
  with_mode-RepliesTo now torn q info meta st none asked small =
      past_block-RepliesTo now torn q info meta st _ asked small

  admitted-RepliesTo :
      (now : ℕ) (torn : Option ℕ) (q : Question) (meta : RespMeta) (a : Bool × Limiter pipe.f64)
      → question req ≡ some q
      → req.header.id < 2 ^ 16
      → RepliesTo (admitted pipe now torn client req q meta st0 a)
  unfolding encode_rcode
  admitted-RepliesTo now torn q meta (false, l) asked small =
      finish-RepliesTo _ _ (encode_message (rcode_reply req rcode_refused))
        (encode_message-OkBytes (rcode_reply req rcode_refused))
  admitted-RepliesTo now torn q meta (true, l) asked small =
      then_RepliesTo_eq (subnet pipe client (ecs req)) _ subnet-NeverFails (λ info sub.
        with_mode-RepliesTo now torn q info (record meta { token = token_of pipe info })
          (record st0 { limiter = l }) (mode_for pipe.policy.block q.name) (asked, sub, refl) small)

  refuse-parsed :
      (raw : Bytes)
      → parse_message raw ≡ ok req
      → refuse raw ≡ with_verdict refused (or_empty (encode_message (refuse_reply req)))
  unfolding refuse
  refuse-parsed raw e = rw (e, refuse) refl

  refuse_all-RepliesTo :
      (raw : Bytes) (meta : RespMeta) (st : State pipe)
      → parse_message raw ≡ ok req
      → RepliesTo (refuse_all pipe raw meta st)
  refuse_all-RepliesTo raw meta st e =
      subst
        (λ r. RepliesTo (
          r >>= λ v.
          ok (record {
            sent = v.0;
            meta = record meta { rcode = rcode_of_verdict v.1 };
            state = st;
          })))
        (sym (refuse-parsed raw e))
        (behind (encode_message (refuse_reply req)) (encode_message-OkBytes (refuse_reply req)))
    where
      behind :
          (r : Result Bytes)
          → OkBytes (be16_bytes req.header.id) r
          → RepliesTo (
              with_verdict refused (or_empty r) >>= λ v. ok (record {
                sent = v.0;
                meta = record meta { rcode = rcode_of_verdict v.1 };
                state = st;
              }))
      behind (ok s) h = Starts-IsReplyTo s h
      behind (err x) h = inl (omega arith)
      behind panic h = tt

  with_question-RepliesTo :
      (now : ℕ) (torn : Option ℕ) (raw : Bytes) (q : Option Question)
      → parse_message raw ≡ ok req
      → question req ≡ q
      → req.header.id < 2 ^ 16
      → RepliesTo (with_question pipe now torn raw client req st0 q)
  unfolding badvers
  with_question-RepliesTo now torn raw none e asked small = refuse_all-RepliesTo raw new_meta st0 e
  with_question-RepliesTo now torn raw (some q) e asked small =
      let meta = record new_meta {
        qname = canonical_name q.name;
        qtype = type_to_string q.qtype;
      } in
      if_RepliesTo (ltb 253 (length q.name)) _ _ (refuse_all-RepliesTo raw meta st0 e) (
        if_RepliesTo (not (edns_version (edns req) == 0)) _ _
          (finish-RepliesTo (record meta { rcode = codes "BADVERS" }) st0
            (encode_message (badvers_reply req)) (encode_message-OkBytes (badvers_reply req)))
          (admitted-RepliesTo now torn q meta _ asked small))
    where
      if_RepliesTo :
          (b : Bool) (x y : Result (Reply pipe))
          → RepliesTo x
          → RepliesTo y
          → RepliesTo (if b then x else y)
      if_RepliesTo true x y h k = h
      if_RepliesTo false x y h k = k

module _ ⦃text : Text⦄ ⦃addr_text : AddrText⦄ (pipe : Pipeline) where
  -- Whatever answers a message that was parsed, with an id of 16 bits, and whatever the state: there is
  -- no error, and unless a panic ends it, the reply has less than two bytes, or starts with the id of the
  -- message, or is what the resolver gave for its question and the client subnet that goes with it, where
  -- the message made of that for the client has no encoding.
  pub process-RepliesTo :
      (now : ℕ) (torn : Option ℕ) (raw : Bytes) (client : IpAddr) (st : State pipe) (req : Message)
      → parse_message raw ≡ ok req
      → req.header.id < 2 ^ 16
      → RepliesTo pipe client st req (process pipe now torn raw client st)
  unfolding process
  process-RepliesTo now torn raw client st req e small =
      subst (λ r. RepliesTo pipe client st req (parsed pipe now torn raw client st r)) (sym e)
        (behind req.header.qr)
    where
      behind :
          (qr : Bool)
          → RepliesTo pipe client st req (
              if qr
              then ok (record { sent = []; meta = new_meta; state = st })
              else with_question pipe now torn raw client req st (question req))
      behind true = inl (omega arith)
      behind false =
          with_question-RepliesTo pipe client st req now torn raw (question req) e refl small
