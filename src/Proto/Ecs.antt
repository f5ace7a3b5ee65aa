-- ===== src/Proto/Ecs.antt =====
-- `EcsInfo` (EDNS Client Subnet) and the address masks of src/proto.rs.
use dnsd_rs.Base.{
  Bytes, List, Option, [], bit_and, decimal_fuel, if◌then◌else◌, leb, length, max, none, not, some,
  take, ℕ, ◌%◌, ◌&&◌, ◌*◌, ◌++◌, ◌-◌, ◌/◌, ◌==◌, ◌^◌, ◌||◌, ◌∷◌,
}
use dnsd_rs.Proto.Cursor.{be16, be16_bytes, be32}
use dnsd_rs.Proto.Types.{
  IpAddr, Ipv4Addr, Ipv6Addr, Message, OptOption, RData, edns, edns_opt_ecs, v6_octets,
}

pub record EcsInfo : Type 0 where
  pub family : ℕ
  pub source_prefix : ℕ
  pub scope_prefix : ℕ
  pub address : Option IpAddr

-- `Some(V4(Ipv4Addr::new(..)))` of the first four bytes.
abbrev first_v4 : Bytes → Option IpAddr
first_v4 (b0 ∷ b1 ∷ b2 ∷ b3 ∷ rest) =
    some (IpAddr.v4 (record { o0 = b0; o1 = b1; o2 = b2; o3 = b3 }))
first_v4 _ = none

-- `Some(V6(..))` of the first sixteen bytes.
abbrev first_v6 : Bytes → Option IpAddr
first_v6 s = if leb 16 (length s) then some (IpAddr.v6 (v6_octets (take 16 s))) else none

abbrev pub decode_address : ℕ → Bytes → Option IpAddr
decode_address family s =
    if family == 1 then first_v4 s else if family == 2 then first_v6 s else none

-- `EcsInfo::decode`
unfoldable pub decode_ecs : Bytes → EcsInfo
decode_ecs (f0 ∷ f1 ∷ source ∷ scope ∷ rest) = record {
  family = be16 f0 f1;
  source_prefix = source;
  scope_prefix = scope;
  address = decode_address (be16 f0 f1) rest;
}
decode_ecs _ = record { family = 0; source_prefix = 0; scope_prefix = 0; address = none }

abbrev pub v4_octets : Ipv4Addr → Bytes
v4_octets ip = ip.o0 ∷ ip.o1 ∷ ip.o2 ∷ ip.o3 ∷ []

abbrev pub octets6 : Ipv6Addr → Bytes
octets6 (v6_octets s) = s

abbrev address_octets : Option IpAddr → Bytes
address_octets none = []
address_octets (some (IpAddr.v4 ip)) = v4_octets ip
address_octets (some (IpAddr.v6 ip)) = octets6 ip

-- `EcsInfo::encode`
unfoldable pub encode_ecs : EcsInfo → Bytes
encode_ecs e = be16_bytes e.family ++ (e.source_prefix ∷ e.scope_prefix ∷ address_octets e.address)

-- `u32::from(ip)` and `Ipv4Addr::from(u32)`
abbrev pub v4_number : Ipv4Addr → ℕ
v4_number ip = be32 ip.o0 ip.o1 ip.o2 ip.o3

abbrev pub v4_from : ℕ → Ipv4Addr
v4_from n = record {
  o0 = n / 16777216 % 256;
  o1 = n / 65536 % 256;
  o2 = n / 256 % 256;
  o3 = n % 256;
}

-- `u32::MAX << (32 - prefix)`
abbrev pub v4_mask : ℕ → ℕ
v4_mask prefix = 0xFFFF_FFFF * 2 ^ (32 - prefix) % 2 ^ 32

-- `mask_ipv4`
unfoldable pub mask_ipv4 : Ipv4Addr → ℕ → Ipv4Addr
mask_ipv4 ip prefix =
    if prefix == 0
    then record { o0 = 0; o1 = 0; o2 = 0; o3 = 0 }
    else if leb 32 prefix
    then ip
    else v4_from (bit_and (v4_number ip) (v4_mask prefix))

abbrev mask_address : Option IpAddr → ℕ → Option IpAddr
mask_address (some (IpAddr.v4 ip)) max = some (IpAddr.v4 (mask_ipv4 ip max))
mask_address other max = other

-- `EcsInfo::clamp_scope`
unfoldable pub clamp_scope : EcsInfo → ℕ → EcsInfo
clamp_scope e max =
    if not (e.family == 1) || leb e.source_prefix max
    then e
    else record e { source_prefix = max; address = mask_address e.address max }

-- The loop of `Message::ecs` over the options.
unfoldable pub first_ecs : List OptOption → Option EcsInfo
first_ecs [] = none
first_ecs (o ∷ os) =
    if o.code == edns_opt_ecs && leb 4 (length o.payload)
    then some (decode_ecs o.payload)
    else first_ecs os

abbrev pub opt_ecs : RData → Option EcsInfo
opt_ecs (RData.opt o) = first_ecs o.options
opt_ecs _ = none

-- `Message::ecs`
unfoldable pub ecs : Message → Option EcsInfo
ecs m = elim (edns m) [ none ↦ none | some r ↦ opt_ecs r.rdata ]

-- `EcsInfo::cache_token`, over the text of an address.
unfoldable pub cache_token : (IpAddr → Bytes) → EcsInfo → Bytes
cache_token ip_text e = elim e.address [
  | none ↦ []
  | some ip ↦ ip_text ip ++ (b'/' ∷ decimal_fuel 3 e.source_prefix)
]
