-- ===== src/Resolve/Net.antt =====
-- The IPv6 networks, the binding table and the embedded addresses of src/resolve/dualstack.rs. A
-- `u128` is a number below 2^128.
pub mod Laws
use dnsd_rs.Base.{
  Bool, Bytes, List, Option, [], bit_and, get_elem?, if◌then◌else◌, leb, ltb, none, not, some, true,
  ℕ, ◌%◌, ◌&&◌, ◌*◌, ◌+◌, ◌-◌, ◌==◌, ◌^◌, ◌∷◌,
}
use dnsd_rs.Proto.Ecs.{octets6}
use dnsd_rs.Proto.Types.{Ipv4Addr, Ipv6Addr}

-- `u128::from(ip)`
abbrev octets_number : ℕ → Bytes → ℕ
octets_number acc [] = acc
octets_number acc (b ∷ bs) = octets_number (acc * 256 + b) bs

abbrev pub v6_number : Ipv6Addr → ℕ
v6_number ip = octets_number 0 (octets6 ip)

-- `Ipv6NetOwned`
pub record Ipv6Net : Type 0 where
  pub addr : ℕ
  pub prefix_len : ℕ

-- `u128::MAX << (128 - prefix_len)`, where `prefix_len` is at least 1.
abbrev pub v6_mask : ℕ → ℕ
v6_mask p = if leb 128 p then 2 ^ 128 - 1 else (2 ^ 128 - 1) * 2 ^ (128 - p) % 2 ^ 128

-- `Ipv6NetOwned::contains`
unfoldable pub contains : Ipv6Net → Ipv6Addr → Bool
contains net ip =
    if net.prefix_len == 0
    then true
    else bit_and (v6_number ip) (v6_mask net.prefix_len)
      == bit_and net.addr (v6_mask net.prefix_len)

pub record BindingEntry : Type 0 where
  pub net : Ipv6Net
  pub ipv4 : Ipv4Addr

-- `BindingTable`
abbrev pub BindingTable : Type 0
BindingTable = List BindingEntry

-- The test of `lookup`: a longer prefix than the best one so far.
abbrev pub is_longer : ℕ → Option (ℕ × Ipv4Addr) → Bool
is_longer p none = true
is_longer p (some (pl, ip)) = ltb pl p

unfoldable pub lookup_loop : Ipv6Addr → Option (ℕ × Ipv4Addr) → BindingTable → Option (ℕ × Ipv4Addr)
lookup_loop ip best [] = best
lookup_loop ip best (e ∷ es) =
    lookup_loop ip
      (if contains e.net ip && is_longer e.net.prefix_len best
        then some (e.net.prefix_len, e.ipv4)
        else best)
      es

-- `BindingTable::lookup`
unfoldable pub lookup : Ipv6Addr → BindingTable → Option Ipv4Addr
lookup ip t = elim (lookup_loop ip none t) [ none ↦ none | some (pl, a) ↦ some a ]

-- `b[i]` of an array of 16 octets.
abbrev pub octet : Bytes → ℕ → ℕ
octet b i = elim (get_elem? b i) [ none ↦ 0 | some x ↦ x ]

abbrev v4_at : Bytes → ℕ → ℕ → ℕ → ℕ → Ipv4Addr
v4_at b i j k l = record { o0 = octet b i; o1 = octet b j; o2 = octet b k; o3 = octet b l }

abbrev if_zero : ℕ → Ipv4Addr → Option Ipv4Addr
if_zero u ip = if not (u == 0) then none else some ip

-- `extract_rfc6052`
unfoldable pub extract_rfc6052 : Bytes → ℕ → Option Ipv4Addr
extract_rfc6052 b pl =
    if pl == 32
    then if_zero (octet b 8) (v4_at b 4 5 6 7)
    else if pl == 40
    then if_zero (octet b 8) (v4_at b 5 6 7 9)
    else if pl == 48
    then if_zero (octet b 8) (v4_at b 6 7 9 10)
    else if pl == 56
    then if_zero (octet b 8) (v4_at b 7 9 10 11)
    else if pl == 64
    then if_zero (octet b 8) (v4_at b 9 10 11 12)
    else if pl == 96
    then some (v4_at b 12 13 14 15)
    else none
