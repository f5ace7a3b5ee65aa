-- ===== src/Resolve/Iterate/Failover.antt =====
use dnsd_rs.Base.{
  All, Bytes, List, Option, [], arith, err, false, if◌then◌else◌, length, min, ok, panic, subst,
  sym, true, ℕ, ◌*◌, ◌++◌, ◌+◌, ◌-◌, ◌<◌, ◌==◌, ◌∷◌, ◌≡◌, ◌≤◌,
}
use dnsd_rs.Proto.Ecs.{EcsInfo}
use dnsd_rs.Proto.Edns.{build_query}
use dnsd_rs.Proto.Text.{Text}
use dnsd_rs.Proto.Types.{Message}
use dnsd_rs.Resolve.Iterate.{or_next, query_loop, query_servers}
use dnsd_rs.Resolve.Recurse.{Network, Outcome, RecurseConfig, SocketAddr, exchange}

-- `query_servers`: where its reply comes from, and what it takes to get one.

module _ ⦃text : Text⦄ (net : Network) (cfg : RecurseConfig) where
  -- An exchange that brought no response, in the time it was given.
  abbrev pub IsFailure : ℕ → Outcome net → Type 0
  IsFailure limit (ok m, w) = (m.header.qr ≡ false) × (net.clock w ≤ limit)
  IsFailure limit (err e, w) = net.clock w ≤ limit
  IsFailure limit (panic, w) = true ≡ false

  abbrev pub IsDead : Message → SocketAddr → Type 0
  IsDead query s =
      (timeout : ℕ) (w : net.World)
      → IsFailure (net.clock w + timeout) (exchange net s query timeout w)

  abbrev pub IsResponse : Outcome net → Type 0
  IsResponse (ok m, w) = m.header.qr ≡ true
  IsResponse (err e, w) = true ≡ false
  IsResponse (panic, w) = true ≡ false

  abbrev pub IsAlive : Message → SocketAddr → Type 0
  IsAlive query s = (timeout : ℕ) (w : net.World) → IsResponse (exchange net s query timeout w)

  first_alive :
      (rest : net.World → Outcome net) (o : Outcome net)
      → IsResponse o
      → IsResponse (or_next net cfg rest o)
  first_alive rest (ok m, w) h = subst (λ b. IsResponse (if b then (ok m, w) else rest w)) (sym h) h
  first_alive rest (err e, w) h = absurd (cc h)
  first_alive rest (panic, w) h = absurd (cc h)

  past_dead :
      (rest : net.World → Outcome net) (limit : ℕ) (o : Outcome net)
      → IsFailure limit o
      → ((w : net.World) → net.clock w ≤ limit → IsResponse (rest w))
      → IsResponse (or_next net cfg rest o)
  past_dead rest limit (ok m, w) h next = rw h.0 (next w h.1)
  past_dead rest limit (err e, w) h next = next w h
  past_dead rest limit (panic, w) h next = absurd (cc h)

  query_loop-IsResponse :
      (query : Message) (deadline : ℕ) (dead more : List SocketAddr) (good : SocketAddr)
      (w : net.World)
      → All (IsDead query) dead
      → IsAlive query good
      → net.clock w + length dead * cfg.ns_probe_timeout < deadline
      → IsResponse (query_loop net cfg query deadline (dead ++ (good ∷ more)) w)
  unfolding query_loop
  query_loop-IsResponse query deadline [] more good w dead alive soon =
      let left : (deadline - net.clock w == 0) ≡ false = ground arith in
      rw left (first_alive (query_loop net cfg query deadline more) _ (alive _ w))
  query_loop-IsResponse query deadline (s ∷ ss) more good w dead alive soon =
      let left : (deadline - net.clock w == 0) ≡ false = ground arith in
      let timeout = min (deadline - net.clock w) cfg.ns_probe_timeout in
      rw left (
        past_dead (query_loop net cfg query deadline (ss ++ (good ∷ more))) (net.clock w + timeout)
          _ (dead.0 timeout w)
          (λ after late.
            query_loop-IsResponse query deadline ss more good after dead.1 alive (ground arith)))

  -- A nameserver that responds is reached behind any number of dead ones, as long as the time that they
  -- may take together, each the probe timeout, ends before the deadline.
  pub query_servers-IsResponse :
      (name : Bytes) (qtype : ℕ) (info : Option EcsInfo) (deadline : ℕ)
      (dead more : List SocketAddr) (good : SocketAddr) (w : net.World)
      → All (IsDead (build_query name qtype 0x1d5e info)) dead
      → IsAlive (build_query name qtype 0x1d5e info) good
      → net.clock w + length dead * cfg.ns_probe_timeout < deadline
      → IsResponse (query_servers net cfg (dead ++ (good ∷ more)) name qtype info deadline w)
  unfolding query_servers
  query_servers-IsResponse name qtype info deadline dead more good w =
      query_loop-IsResponse (build_query name qtype 0x1d5e info) deadline dead more good w
