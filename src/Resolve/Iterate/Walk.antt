-- ===== src/Resolve/Iterate/Walk.antt =====
use dnsd_rs.Base.{
  Bool, Bool-cases, Bytes, List, Option, [], arith, err, false, if◌then◌else◌, inl, inr, leb, none,
  not, ok, panic, refl, subst, suc, sym, true, zero, ℕ, ◌+◌, ◌-◌, ◌==◌, ◌||◌, ◌∷◌, ◌≡◌,
}
use dnsd_rs.Proto.Ecs.{EcsInfo}
use dnsd_rs.Proto.Text.{Text, canonical_name}
use dnsd_rs.Proto.Types.{Message, rcode_nxdomain}
use dnsd_rs.Resolve.Iterate.{
  Addrs, chase, chase_loop, do_resolve, is_nil, iterative, or_next, query_loop, query_servers, walk,
  with_next, with_reply,
}
use dnsd_rs.Resolve.Recurse.{Network, Outcome, RecurseConfig, SocketAddr, extract_referral}

-- What `do_resolve` gives: whether it chases aliases, and whether its answers are responses.

module _ ⦃text : Text⦄ (net : Network) (cfg : RecurseConfig) where
  chase-stays :
      (rest : Bytes → net.World → Outcome net) (chain : ℕ) (o : Outcome net)
      → chase net cfg rest chain o ≡ o
  chase-stays rest chain (ok m, w) = elim (Bool-cases (is_nil m.answers)) [
    | inl empty ↦ rw empty (ground arith)
    | inr other ↦ rw other (ground arith)
  ]
  chase-stays rest chain (err e, w) = refl
  chase-stays rest chain (panic, w) = refl

  -- `do_resolve` gives what `iterative` gives for the name in canonical form: an alias is handed on as it
  -- is, and never chased.
  pub do_resolve-iterative :
      (stack : ℕ) (roots : List SocketAddr) (qname : Bytes) (qtype : ℕ) (info : Option EcsInfo)
      (w : net.World)
      → do_resolve net cfg stack roots qname qtype info w
        ≡ iterative net cfg stack roots
            (canonical_name qname)
            qtype
            info
            (net.clock w + cfg.recurse_timeout)
            w
  unfolding do_resolve chase_loop
  do_resolve-iterative stack roots qname qtype info w = chase-stays _ 0 _

  -- A message that comes out is a response.
  abbrev OnlyResponses : Outcome net → Type 0
  OnlyResponses (ok m, w) = m.header.qr ≡ true
  OnlyResponses (err e, w) = Unit
  OnlyResponses (panic, w) = Unit

  or_next-OnlyResponses :
      (rest : net.World → Outcome net) (o : Outcome net)
      → ((w : net.World) → OnlyResponses (rest w))
      → OnlyResponses (or_next net cfg rest o)
  or_next-OnlyResponses rest (ok m, w) h = elim (Bool-cases m.header.qr) [
    | inl yes_qr ↦ subst (λ b. OnlyResponses (if b then (ok m, w) else rest w)) (sym yes_qr) yes_qr
    | inr no_qr ↦ subst (λ b. OnlyResponses (if b then (ok m, w) else rest w)) (sym no_qr) (h w)
  ]
  or_next-OnlyResponses rest (err e, w) h = h w
  or_next-OnlyResponses rest (panic, w) h = tt

  query_loop-OnlyResponses :
      (query : Message) (deadline : ℕ) (servers : List SocketAddr) (w : net.World)
      → OnlyResponses (query_loop net cfg query deadline servers w)
  unfolding query_loop
  query_loop-OnlyResponses query deadline [] w = tt
  query_loop-OnlyResponses query deadline (s ∷ ss) w =
      elim (Bool-cases (deadline - net.clock w == 0)) [
        | inl over ↦ rw over tt
        | inr left ↦
            rw left (or_next-OnlyResponses _ _ (query_loop-OnlyResponses query deadline ss))
      ]

  with_next-OnlyResponses :
      (rest : List SocketAddr → net.World → Outcome net) (a : Addrs net cfg)
      → ((next : List SocketAddr) (w : net.World) → OnlyResponses (rest next w))
      → OnlyResponses (with_next net cfg rest a)
  with_next-OnlyResponses rest (ok [], w) h = tt
  with_next-OnlyResponses rest (ok (a ∷ more), w) h = h (a ∷ more) w
  with_next-OnlyResponses rest (err e, w) h = tt
  with_next-OnlyResponses rest (panic, w) h = tt

  with_reply-OnlyResponses :
      (sub : Bytes → ℕ → net.World → Outcome net) (rest : List SocketAddr → net.World → Outcome net)
      (o : Outcome net)
      → OnlyResponses o
      → ((next : List SocketAddr) (w : net.World) → OnlyResponses (rest next w))
      → OnlyResponses (with_reply net cfg sub rest o)
  with_reply-OnlyResponses sub rest (ok m, w) h next =
      if_OnlyResponses (not (is_nil m.answers) || m.header.rcode == rcode_nxdomain) (ok m, w) _ h
        (if_OnlyResponses (not (m.header.rcode == 0)) (ok m, w) _ h
          (if_OnlyResponses (is_nil (extract_referral m).ns_names) (ok m, w) _ h
            (with_next-OnlyResponses rest _ next)))
    where
      if_OnlyResponses :
          (b : Bool) (o p : Outcome net)
          → OnlyResponses o
          → OnlyResponses p
          → OnlyResponses (if b then o else p)
      if_OnlyResponses true o p h k = h
      if_OnlyResponses false o p h k = k
  with_reply-OnlyResponses sub rest (err e, w) h next = tt
  with_reply-OnlyResponses sub rest (panic, w) h next = tt

  walk-OnlyResponses :
      (sub : Bytes → ℕ → net.World → Outcome net) (turns : ℕ) (servers : List SocketAddr)
      (name : Bytes) (qtype : ℕ) (info : Option EcsInfo) (deadline : ℕ) (w : net.World)
      → OnlyResponses (walk net cfg sub turns servers name qtype info deadline w)
  unfolding walk query_servers
  walk-OnlyResponses sub zero servers name qtype info deadline w = tt
  walk-OnlyResponses sub (suc turns) servers name qtype info deadline w =
      elim (Bool-cases (leb deadline (net.clock w))) [
        | inl over ↦ rw over tt
        | inr early ↦ rw early (
            with_reply-OnlyResponses sub _ _ (query_loop-OnlyResponses _ deadline servers w)
              (λ next v. walk-OnlyResponses sub turns next name qtype info deadline v))
      ]

  -- Every message that `do_resolve` gives has the QR flag: no query that comes back is taken for an answer.
  do_resolve-OnlyResponses :
      (stack : ℕ) (roots : List SocketAddr) (qname : Bytes) (qtype : ℕ) (info : Option EcsInfo)
      (w : net.World)
      → OnlyResponses (do_resolve net cfg stack roots qname qtype info w)
  do_resolve-OnlyResponses stack roots qname qtype info w =
      subst OnlyResponses (sym (do_resolve-iterative stack roots qname qtype info w))
        (iterative_only stack)
    where
      iterative_only :
          (stack : ℕ)
          → OnlyResponses (
              iterative net cfg stack roots
                (canonical_name qname)
                qtype
                info
                (net.clock w + cfg.recurse_timeout)
                w)
      iterative_only zero = unfold iterative in tt
      iterative_only (suc stack) =
          unfold iterative in
          walk-OnlyResponses
            (λ ns t. iterative net cfg stack roots ns t none (net.clock w + cfg.recurse_timeout))
            cfg.recurse_max_depth roots (canonical_name qname) qtype info
            (net.clock w + cfg.recurse_timeout) w
