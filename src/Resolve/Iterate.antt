-- ===== src/Resolve/Iterate.antt =====
-- src/resolve/recurse.rs: the walk from the roots to an answer, over a network and a configuration. A
-- panic, which no caller catches, stands for the end of the stack too.
pub mod Failover
pub mod Walk
pub mod Depth
use dnsd_rs.Base.{
  Bool, Bytes, Error, List, Option, Result, [], err, false, if◌then◌else◌, leb, ltb, min, none, not,
  ok, panic, some, suc, true, zero, ℕ, ◌++◌, ◌+◌, ◌-◌, ◌==◌, ◌>>=◌, ◌||◌, ◌∷◌,
}
use dnsd_rs.Proto.Cursor.{remaining}
use dnsd_rs.Proto.Ecs.{EcsInfo}
use dnsd_rs.Proto.Edns.{build_query}
use dnsd_rs.Proto.Encode.{encode_message}
use dnsd_rs.Proto.Text.{Text, canonical_name}
use dnsd_rs.Proto.Types.{Message, Record, rcode_nxdomain, type_a, type_aaaa, type_cname}
use dnsd_rs.Resolve.Recurse.{
  Network, Outcome, RecurseConfig, SocketAddr, a_records, aaaa_records, exchange, extract_referral,
  find_glue, name_of_rdata,
}

abbrev pub is_nil {ℓ} : {A : Type ℓ} → List A → Bool
is_nil [] = true
is_nil (x ∷ xs) = false

-- The chase of `do_resolve` looks for the last CNAME.
unfoldable pub last_cname : Option Bytes → List Record → Option Bytes
last_cname found [] = found
last_cname found (r ∷ rs) =
    last_cname (if r.rtype == type_cname then name_of_rdata r.rdata else found) rs

module _ ⦃text : Text⦄ (net : Network) (cfg : RecurseConfig) where
  -- What is done with the outcome of an exchange in the loop of `query_servers`.
  abbrev pub or_next : (net.World → Outcome net) → Outcome net → Outcome net
  or_next rest (ok m, w) = if m.header.qr then (ok m, w) else rest w
  or_next rest (err e, w) = rest w
  or_next rest (panic, w) = (panic, w)

  unfoldable pub query_loop : Message → ℕ → List SocketAddr → net.World → Outcome net
  unfolding exchange
  query_loop query deadline [] w = (err (Error.resolver "unreachable"), w)
  query_loop query deadline (s ∷ ss) w =
      let rest = query_loop query deadline ss in
      let remaining = deadline - net.clock w in
      if remaining == 0
      then (err (Error.resolver "unreachable"), w)
      else or_next rest (exchange net s query (min remaining cfg.ns_probe_timeout) w)

  -- `query_servers`
  unfoldable pub query_servers :
      List SocketAddr → Bytes → ℕ → Option EcsInfo → ℕ → net.World → Outcome net
  unfolding query_loop
  query_servers servers name qtype info deadline w =
      query_loop (build_query name qtype 0x1d5e info) deadline servers w

  -- The addresses of the next servers, or what ended the search for them.
  abbrev pub Addrs : Type 0
  Addrs = Result (List SocketAddr) × net.World

  -- The turn of the loop over the nameservers without glue: first the A records, then the AAAA records.
  abbrev with_aaaa : (List SocketAddr → net.World → Addrs) → List SocketAddr → Outcome net → Addrs
  with_aaaa rest next (ok m, w) = rest (next ++ aaaa_records m) w
  with_aaaa rest next (err e, w) = rest next w
  with_aaaa rest next (panic, w) = (panic, w)

  abbrev pub with_a :
      (List SocketAddr → net.World → Addrs)
      → (net.World → Outcome net)
      → List SocketAddr
      → Outcome net
      → Addrs
  with_a rest again next (ok m, w) =
      if is_nil (a_records m) then with_aaaa rest next (again w) else rest (next ++ a_records m) w
  with_a rest again next (err e, w) = with_aaaa rest next (again w)
  with_a rest again next (panic, w) = (panic, w)

  -- The loop of `iterative` over the nameservers of a referral; `sub` is `iterative` on their names.
  unfoldable pub next_servers :
      (Bytes → ℕ → net.World → Outcome net)
      → List (Bytes × SocketAddr)
      → List Bytes
      → List SocketAddr
      → net.World
      → Addrs
  unfolding find_glue a_records aaaa_records
  next_servers sub glue [] next w = (ok next, w)
  next_servers sub glue (ns ∷ names) next w =
      let rest = next_servers sub glue names in
      elim (find_glue ns glue) [
        | some addr ↦ rest (next ++ (addr ∷ [])) w
        | none ↦ with_a rest (sub ns type_aaaa) next (sub ns type_a w)
      ]

  abbrev pub with_next : (List SocketAddr → net.World → Outcome net) → Addrs → Outcome net
  with_next rest (ok [], w) = (err (Error.resolver "no reachable nameservers"), w)
  with_next rest (ok (a ∷ more), w) = rest (a ∷ more) w
  with_next rest (err e, w) = (err e, w)
  with_next rest (panic, w) = (panic, w)

  -- What a turn of `iterative` does with the outcome of `query_servers`.
  abbrev pub with_reply :
      (Bytes → ℕ → net.World → Outcome net)
      → (List SocketAddr → net.World → Outcome net)
      → Outcome net
      → Outcome net
  with_reply sub rest (ok m, w) =
      let referral = extract_referral m in
      if not (is_nil m.answers) || m.header.rcode == rcode_nxdomain
      then (ok m, w)
      else if not (m.header.rcode == 0)
      then (ok m, w)
      else if is_nil referral.ns_names
      then (ok m, w)
      else with_next rest (next_servers sub referral.glue referral.ns_names [] w)
  with_reply sub rest (err e, w) = (err e, w)
  with_reply sub rest (panic, w) = (panic, w)

  -- The loop of `iterative`; the first argument counts the turns that are left.
  unfoldable pub walk :
      (Bytes → ℕ → net.World → Outcome net)
      → ℕ
      → List SocketAddr
      → Bytes
      → ℕ
      → Option EcsInfo
      → ℕ
      → net.World
      → Outcome net
  unfolding query_servers extract_referral next_servers
  walk sub zero servers name qtype info deadline w =
      (err (Error.resolver "max recursion depth exceeded"), w)
  walk sub (suc turns) servers name qtype info deadline w =
      let rest = λ (next : List SocketAddr). walk sub turns next name qtype info deadline in
      if leb deadline (net.clock w)
      then (err (Error.resolver "recursion deadline exceeded"), w)
      else with_reply sub rest (query_servers servers name qtype info deadline w)

  -- `iterative`; the first argument is how many calls of it the stack has room for.
  unfoldable pub iterative :
      ℕ → List SocketAddr → Bytes → ℕ → Option EcsInfo → ℕ → net.World → Outcome net
  unfolding walk
  iterative zero roots name qtype info deadline w = (panic, w)
  iterative (suc stack) roots name qtype info deadline w =
      walk (λ ns t. iterative stack roots ns t none deadline) cfg.recurse_max_depth roots name qtype
        info deadline w

  -- What a turn of the loop of `do_resolve` does with the outcome of `iterative`.
  abbrev pub chase : (Bytes → net.World → Outcome net) → ℕ → Outcome net → Outcome net
  chase rest chain (ok m, w) =
      if not (m.header.rcode == 0) || not (is_nil m.answers)
      then (ok m, w)
      else if is_nil m.answers
      then (ok m, w)
      else elim (last_cname none m.answers) [
        | none ↦ (ok m, w)
        | some target ↦
            if ltb cfg.recurse_max_depth (chain + 1)
            then (err (Error.resolver "CNAME chain too long"), w)
            else rest target w
      ]
  chase rest chain (err e, w) = (err e, w)
  chase rest chain (panic, w) = (panic, w)

  -- The loop of `do_resolve`; a chain is at most `recurse_max_depth` long, which bounds the turns.
  unfoldable pub chase_loop :
      ℕ → ℕ → List SocketAddr → Bytes → ℕ → ℕ → Option EcsInfo → ℕ → net.World → Outcome net
  unfolding iterative last_cname
  chase_loop zero stack roots name chain qtype info deadline w = (panic, w)
  chase_loop (suc turns) stack roots name chain qtype info deadline w =
      let rest =
        λ (target : Bytes). chase_loop turns stack roots target (chain + 1) qtype info deadline in
      chase rest chain (iterative stack roots name qtype info deadline w)

  -- `do_resolve`
  unfoldable pub do_resolve :
      ℕ → List SocketAddr → Bytes → ℕ → Option EcsInfo → net.World → Outcome net
  unfolding chase_loop
  do_resolve stack roots qname qtype info w =
      chase_loop (suc (suc cfg.recurse_max_depth)) stack roots (canonical_name qname) 0 qtype info
        (net.clock w + cfg.recurse_timeout) w

  -- What the leader of a flight publishes: `do_resolve` and the encoding of its message.
  unfoldable pub lead :
      ℕ → List SocketAddr → Bytes → ℕ → Option EcsInfo → net.World → Result Bytes × net.World
  unfolding do_resolve
  lead stack roots qname qtype info w =
      let out = do_resolve stack roots qname qtype info w in
      (out.0 >>= (λ m. encode_message m), out.1)
