-- ===== src/Resolve/Recurse.antt =====
use dnsd_rs.Base.{
  Bytes, Error, List, Option, Result, [], bytes_eq, err, if◌then◌else◌, length, ltb, none, ok,
  panic, some, take, ℕ, ◌%◌, ◌*◌, ◌++◌, ◌+◌, ◌==◌, ◌>>=◌, ◌^◌, ◌∷◌,
}
use dnsd_rs.Proto.Cursor.{be16_bytes}
use dnsd_rs.Proto.Encode.{encode_message}
use dnsd_rs.Proto.Parse.{parse_message}
use dnsd_rs.Proto.Text.{Text}
use dnsd_rs.Proto.Types.{IpAddr, Message, RData, Record, type_a, type_aaaa, type_ns}

-- src/resolve/recurse.rs: the root hints, what is read out of a referral, and the exchange with one
-- server. Sockets and the clock are a parameter. A time is a number of milliseconds. The texts of errors
-- leave out names and causes.

pub record SocketAddr : Type 0 where
  pub ip : IpAddr
  pub port : ℕ

-- What the resolver needs of its surroundings. `udp` sends a datagram and waits for one, `tcp` sends
-- bytes and gives what comes back before the connection or the time ends.
pub record Network : Type 1 where
  pub World : Type 0
  pub clock : World → ℕ
  pub udp : SocketAddr → ℕ → Bytes → World → Result Bytes × World
  pub tcp : SocketAddr → ℕ → Bytes → World → Result Bytes × World

-- The part of `Config` that is used here.
pub record RecurseConfig : Type 0 where
  pub recurse_max_depth : ℕ
  pub recurse_timeout : ℕ
  pub ns_probe_timeout : ℕ

abbrev pub port_53 : ℕ → ℕ → ℕ → ℕ → SocketAddr
port_53 a b c d = record { ip = IpAddr.v4 (record { o0 = a; o1 = b; o2 = c; o3 = d }); port = 53 }

-- `ROOT_HINTS`, parsed.
abbrev pub root_hints : List SocketAddr
root_hints =
    port_53 198 41 0 4
    ∷ port_53 170 247 170 2
    ∷ port_53 192 33 4 12
    ∷ port_53 199 7 91 13
    ∷ port_53 192 203 230 10
    ∷ port_53 192 5 5 241
    ∷ port_53 192 112 36 4
    ∷ port_53 198 97 190 53
    ∷ port_53 192 36 148 17
    ∷ port_53 192 58 128 30
    ∷ port_53 193 0 14 129
    ∷ port_53 199 7 83 42
    ∷ port_53 202 12 27 33
    ∷ []

-- `filter_map(|s| s.parse().ok())`
abbrev parsed_addrs : (Bytes → Option SocketAddr) → List Bytes → List SocketAddr
parsed_addrs parse [] = []
parsed_addrs parse (s ∷ ss) =
    let rest = parsed_addrs parse ss in elim (parse s) [ none ↦ rest | some addr ↦ addr ∷ rest ]

abbrev or_else_roots : List SocketAddr → List SocketAddr
or_else_roots [] = root_hints
or_else_roots (a ∷ more) = a ∷ more

-- The roots of `Resolver::new`.
unfoldable new_roots : (Bytes → Option SocketAddr) → List Bytes → List SocketAddr
new_roots parse hints = or_else_roots (parsed_addrs parse hints)

-- `Referral`
pub record Referral : Type 0 where
  pub ns_names : List Bytes
  pub glue : List (Bytes × SocketAddr)

abbrev pub name_of_rdata : RData → Option Bytes
name_of_rdata (RData.name n) = some n
name_of_rdata _ = none

unfoldable ns_targets : List Record → List Bytes
ns_targets [] = []
ns_targets (r ∷ rs) =
    let rest = ns_targets rs in
    if r.rtype == type_ns
    then elim (name_of_rdata r.rdata) [ none ↦ rest | some n ↦ n ∷ rest ]
    else rest

abbrev a_addr : RData → Option SocketAddr
a_addr (RData.a ip) = some (record { ip = IpAddr.v4 ip; port = 53 })
a_addr _ = none

abbrev aaaa_addr : RData → Option SocketAddr
aaaa_addr (RData.aaaa ip) = some (record { ip = IpAddr.v6 ip; port = 53 })
aaaa_addr _ = none

abbrev any_addr : RData → Option SocketAddr
any_addr d = elim (a_addr d) [ some addr ↦ some addr | none ↦ aaaa_addr d ]

-- `HashMap::insert` and `get` on the glue.
unfoldable insert_glue : Bytes → SocketAddr → List (Bytes × SocketAddr) → List (Bytes × SocketAddr)
insert_glue k a [] = (k, a) ∷ []
insert_glue k a (x ∷ xs) =
    let rest = insert_glue k a xs in if bytes_eq x.0 k then (x.0, a) ∷ xs else x ∷ rest

unfoldable pub find_glue : Bytes → List (Bytes × SocketAddr) → Option SocketAddr
find_glue k [] = none
find_glue k (x ∷ xs) = let rest = find_glue k xs in if bytes_eq x.0 k then some x.1 else rest

unfoldable glue_loop : List Record → List (Bytes × SocketAddr) → List (Bytes × SocketAddr)
unfolding insert_glue
glue_loop [] glue = glue
glue_loop (r ∷ rs) glue =
    glue_loop rs
      (elim (any_addr r.rdata) [ none ↦ glue | some addr ↦ insert_glue r.name addr glue ])

-- `extract_referral`
unfoldable pub extract_referral : Message → Referral
unfolding ns_targets glue_loop
extract_referral m = record { ns_names = ns_targets m.authority; glue = glue_loop m.additional [] }

-- The records of a type among those given, as addresses.
unfoldable addrs_of : ℕ → (RData → Option SocketAddr) → List Record → List SocketAddr
addrs_of t addr [] = []
addrs_of t addr (r ∷ rs) =
    let rest = addrs_of t addr rs in
    if r.rtype == t then elim (addr r.rdata) [ none ↦ rest | some a ↦ a ∷ rest ] else rest

-- `a_records` and `aaaa_records`
unfoldable pub a_records : Message → List SocketAddr
unfolding addrs_of
a_records m = addrs_of type_a a_addr (m.answers ++ m.additional)

unfoldable pub aaaa_records : Message → List SocketAddr
unfolding addrs_of
aaaa_records m = addrs_of type_aaaa aaaa_addr (m.answers ++ m.additional)

module _ ⦃text : Text⦄ (net : Network) where
  -- What a step of the resolver gives, and the world behind it.
  abbrev pub Outcome : Type 0
  Outcome = Result Message × net.World

  -- The bytes behind the length that a TCP reply starts with.
  abbrev framed : Result Bytes → Result Message
  framed (ok (hi ∷ lo ∷ rest)) =
      if ltb (length rest) (hi * 256 + lo)
      then err (Error.io "failed to fill whole buffer")
      else parse_message (take (hi * 256 + lo) rest)
  framed (ok _) = err (Error.io "failed to fill whole buffer")
  framed (err e) = err e
  framed panic = panic

  -- `exchange_tcp`, on the query that is encoded; its length is cut to 16 bits.
  abbrev exchange_tcp : SocketAddr → ℕ → Bytes → net.World → Outcome
  exchange_tcp server timeout s w =
      let got = net.tcp server timeout (be16_bytes (length s % 2 ^ 16) ++ s) w in
      (framed got.0, got.1)

  -- The end of `exchange`: a truncated reply is asked for again.
  abbrev pub or_tcp : SocketAddr → ℕ → Bytes → Outcome → Outcome
  or_tcp server timeout s (ok m, w) =
      if m.header.tc then exchange_tcp server timeout s w else (ok m, w)
  or_tcp server timeout s (err e, w) = (err e, w)
  or_tcp server timeout s (panic, w) = (panic, w)

  -- `exchange`
  abbrev pub exchange_bytes : SocketAddr → ℕ → Result Bytes → net.World → Outcome
  exchange_bytes server timeout (ok s) w =
      let got = net.udp server timeout s w in
      or_tcp server timeout s (got.0 >>= (λ reply. parse_message (take 4096 reply)), got.1)
  exchange_bytes server timeout (err e) w = (err e, w)
  exchange_bytes server timeout panic w = (panic, w)

  unfoldable pub exchange : SocketAddr → Message → ℕ → net.World → Outcome
  exchange server query timeout w = exchange_bytes server timeout (encode_message query) w
