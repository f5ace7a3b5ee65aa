-- ===== src/Resolve/Iterate/Depth.antt =====
use dnsd_rs.Base.{
  Bytes, List, Option, [], ap, arith, false, if◌then◌else◌, leb, min, none, ok, panic, refl, suc,
  true, zero, ℕ, ◌-◌, ◌<◌, ◌==◌, ◌∙◌, ◌∷◌, ◌≡◌,
}
use dnsd_rs.Proto.Ecs.{EcsInfo}
use dnsd_rs.Proto.Edns.{build_query}
use dnsd_rs.Proto.Text.{Text}
use dnsd_rs.Proto.Types.{Message, type_a, type_aaaa}
use dnsd_rs.Resolve.Iterate.{
  iterative, next_servers, or_next, query_loop, query_servers, walk, with_a, with_reply,
}
use dnsd_rs.Resolve.Recurse.{
  Network, Outcome, RecurseConfig, SocketAddr, exchange, extract_referral, find_glue,
}

-- How deep the calls of `iterative` go, where nameservers have no glue.

module _ ⦃text : Text⦄ (net : Network) (cfg : RecurseConfig) where
  -- The server answers the query with the message, in no time.
  abbrev pub Refers : SocketAddr → Message → Message → net.World → Type 0
  Refers s query m w = (timeout : ℕ) → exchange net s query timeout w ≡ (ok m, w)

  -- A response that refers to nameservers, `ns` first, and has an address for none of them.
  pub record IsBareReferral (m : Message) (ns : Bytes) (more : List Bytes) : Type 0 where
    pub response : m.header.qr ≡ true
    pub no_error : m.header.rcode ≡ 0
    pub no_answers : m.answers ≡ []
    pub refers : extract_referral m ≡ record { ns_names = ns ∷ more; glue = [] }

  query_servers-first :
      (root : SocketAddr) (roots : List SocketAddr) (name : Bytes) (qtype : ℕ)
      (info : Option EcsInfo) (deadline : ℕ) (w : net.World) (m : Message)
      → net.clock w < deadline
      → Refers root (build_query name qtype 0x1d5e info) m w
      → m.header.qr ≡ true
      → query_servers net cfg (root ∷ roots) name qtype info deadline w ≡ (ok m, w)
  unfolding query_servers query_loop
  query_servers-first root roots name qtype info deadline w m early here response =
      let left : (deadline - net.clock w == 0) ≡ false = ground arith in
      let query = build_query name qtype 0x1d5e info in
      let rest = query_loop net cfg query deadline roots in
      rw left (
        ap (or_next net cfg rest) (here (min (deadline - net.clock w) cfg.ns_probe_timeout))
        ∙ ap (λ b. if b then (ok m, w) else rest w) response)

  next_servers-panics :
      (sub : Bytes → ℕ → net.World → Outcome net) (ns : Bytes) (more : List Bytes) (w : net.World)
      → sub ns type_a w ≡ (panic, w)
      → next_servers net cfg sub [] (ns ∷ more) [] w ≡ (panic, w)
  unfolding next_servers find_glue
  next_servers-panics sub ns more w h =
      ap (with_a net cfg (next_servers net cfg sub [] more) (sub ns type_aaaa) []) h

  with_reply-panics :
      (sub : Bytes → ℕ → net.World → Outcome net) (rest : List SocketAddr → net.World → Outcome net)
      (m : Message) (ns : Bytes) (more : List Bytes) (w : net.World)
      → IsBareReferral m ns more
      → sub ns type_a w ≡ (panic, w)
      → with_reply net cfg sub rest (ok m, w) ≡ (panic, w)
  with_reply-panics sub rest m ns more w bare h =
      simp (bare.no_answers, bare.no_error, bare.refers, next_servers-panics sub ns more w h) refl

  walk-panics :
      (sub : Bytes → ℕ → net.World → Outcome net) (depth : ℕ) (root : SocketAddr)
      (roots : List SocketAddr) (name : Bytes) (qtype : ℕ) (info : Option EcsInfo) (deadline : ℕ)
      (w : net.World) (m : Message) (ns : Bytes) (more : List Bytes)
      → net.clock w < deadline
      → Refers root (build_query name qtype 0x1d5e info) m w
      → IsBareReferral m ns more
      → sub ns type_a w ≡ (panic, w)
      → walk net cfg sub (suc depth) (root ∷ roots) name qtype info deadline w ≡ (panic, w)
  unfolding walk
  walk-panics sub depth root roots name qtype info deadline w m ns more early here bare h =
      let not_over : leb deadline (net.clock w) ≡ false = ground arith in
      let rest = λ (next : List SocketAddr). walk net cfg sub depth next name qtype info deadline in
      rw not_over (
        ap (with_reply net cfg sub rest)
          (query_servers-first root roots name qtype info deadline w m early here bare.response)
        ∙ with_reply-panics sub rest m ns more w bare h)

  -- Where the first root answers the query, and that for the nameserver it names, at once and with a
  -- referral that has no address, the deadline is ahead and there is a turn, the calls of `iterative` go
  -- as deep as the stack does: it ends in a panic whatever room there is.
  pub iterative-unbounded :
      (root : SocketAddr) (roots : List SocketAddr) (name : Bytes) (qtype : ℕ)
      (info : Option EcsInfo) (deadline depth stack : ℕ) (w : net.World) (m : Message) (ns : Bytes)
      (more : List Bytes)
      → cfg.recurse_max_depth ≡ suc depth
      → net.clock w < deadline
      → Refers root (build_query name qtype 0x1d5e info) m w
      → Refers root (build_query ns type_a 0x1d5e none) m w
      → IsBareReferral m ns more
      → iterative net cfg stack (root ∷ roots) name qtype info deadline w ≡ (panic, w)
  unfolding iterative
  iterative-unbounded root roots name qtype info deadline depth zero w m ns more deep early here
        there bare =
      refl
  iterative-unbounded root roots name qtype info deadline depth (suc stack) w m ns more deep early
        here there bare =
      let below =
        iterative-unbounded root roots ns type_a none deadline depth stack w m ns more deep early
          there there bare in
      ap
        (λ n.
          walk net cfg (λ x t. iterative net cfg stack (root ∷ roots) x t none deadline) n
            (root ∷ roots) name qtype info deadline w)
        deep
      ∙ walk-panics (λ x t. iterative net cfg stack (root ∷ roots) x t none deadline) depth root
          roots name qtype info deadline w m ns more early here bare below
