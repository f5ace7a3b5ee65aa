-- ===== src/Resolve/Dualstack.antt =====
-- src/resolve/dualstack.rs: the client subnet derived from an internal IPv6 address. The parsers of
-- addresses and numbers in the standard library, the two geo libraries and the mapping API are
-- parameters.
pub mod Consistent
pub mod Laws
use dnsd_rs.Base.{
  Bool, Bytes, List, Option, Result, [], bytes_eq, false, if◌then◌else◌, length, ltb, none, not, ok,
  panic, some, starts_with, take, ℕ, ◌&&◌, ◌++◌, ◌<◌, ◌==◌, ◌^◌, ◌||◌, ◌∷◌, ◌≡◌,
}
use dnsd_rs.Proto.Ecs.{EcsInfo, mask_ipv4, octets6}
use dnsd_rs.Proto.Text.{Text}
use dnsd_rs.Proto.Types.{IpAddr, Ipv4Addr, Ipv6Addr}
use dnsd_rs.Resolve.Net.{BindingTable, Ipv6Net, contains, extract_rfc6052, lookup, octet, v6_number}

-- `str::parse` of the standard library; an address it returns has 128 bits.
pub record AddrText : Type 0 where
  pub parse_v4 : Bytes → Option Ipv4Addr
  pub parse_v6 : Bytes → Option Ipv6Addr
  pub parse_u8 : Bytes → Option ℕ
  pub parse_v6_range : (s : Bytes) (ip : Ipv6Addr) → parse_v6 s ≡ some ip → v6_number ip < 2 ^ 128

-- `s.split_once(c)`
unfoldable pub split_once : ℕ → Bytes → Option (Bytes × Bytes)
split_once c [] = none
split_once c (x ∷ xs) =
    let rest = split_once c xs in
    if x == c then some ([], xs) else elim rest [ none ↦ none | some (l, r) ↦ some (x ∷ l, r) ]

-- `s.split(c)`
unfoldable pub split : ℕ → Bytes → List Bytes
split c [] = [] ∷ []
split c (x ∷ xs) =
    let rest = split c xs in
    if x == c then [] ∷ rest else elim rest [ [] ↦ (x ∷ []) ∷ [] | l ∷ ls ↦ (x ∷ l) ∷ ls ]

-- `s.lines()`: the pieces between line feeds, less an empty last one and each a carriage return.
abbrev strip_cr : Bytes → Bytes
strip_cr [] = []
strip_cr (c ∷ []) = if c == 13 then [] else c ∷ []
strip_cr (c ∷ d ∷ ds) = c ∷ strip_cr (d ∷ ds)

abbrev drop_last_empty : List Bytes → List Bytes
drop_last_empty [] = []
drop_last_empty ([] ∷ []) = []
drop_last_empty ((c ∷ cs) ∷ []) = (c ∷ cs) ∷ []
drop_last_empty (l ∷ m ∷ ms) = strip_cr l ∷ drop_last_empty (m ∷ ms)

unfoldable pub lines : Bytes → List Bytes
unfolding split
lines s = drop_last_empty (split 10 s)

-- `hay.contains(needle)`
unfoldable pub contains_text : Bytes → Bytes → Bool
contains_text [] needle = starts_with [] needle
contains_text (c ∷ cs) needle = starts_with (c ∷ cs) needle || contains_text cs needle

abbrev pub is_empty : Bytes → Bool
is_empty s = length s == 0

-- `consistent`
unfoldable pub consistent : Bytes → Bytes → Bytes → Bytes → Bool → Bool
unfolding contains_text
consistent v4_loc v4_isp v6_isp v6_city strict_city =
    if is_empty v4_loc && is_empty v4_isp
    then false
    else if is_empty v6_isp && is_empty v6_city
    then false
    else if strict_city
    then not (is_empty v6_city) && (contains_text v4_isp v6_city || contains_text v4_loc v6_city)
    else not (is_empty v4_isp)
        && (not (is_empty v6_isp) && (contains_text v4_isp v6_isp || contains_text v6_isp v4_isp))
      || bytes_eq v4_loc v6_city

-- `Ipv6Addr::to_ipv4_mapped`: ten zero octets, then 0xFF twice.
abbrev pub to_ipv4_mapped : Ipv6Addr → Option Ipv4Addr
to_ipv4_mapped ip =
    let b = octets6 ip in
    if bytes_eq (take 12 b) (0 ∷ 0 ∷ 0 ∷ 0 ∷ 0 ∷ 0 ∷ 0 ∷ 0 ∷ 0 ∷ 0 ∷ 255 ∷ 255 ∷ [])
    then some (record { o0 = octet b 12; o1 = octet b 13; o2 = octet b 14; o3 = octet b 15 })
    else none

-- `DualstackBinding` of src/model.rs, and the part of `Config` that is used here.
pub record DualstackBinding : Type 0 where
  pub id : Bytes
  pub ipv6_subnet : Bytes
  pub binding_ipv4 : Bytes
  pub isp : Bytes
  pub region : Bytes
  pub enabled : Bool

pub record Config : Type 0 where
  pub nat64_prefixes : List Bytes
  pub ipv6_ipv4_map_api_url : Option Bytes
  pub geo_strict_city : Bool
  pub ecs_derive_mask : ℕ

-- What `QQwry::lookup` gives for an address: its location and carrier, nothing, or a panic.
pub data Located : Type 0 where
  located : Bytes × Bytes → Located
  nowhere_found : Located
  crashed : Located

-- `Dualstack`, with the lookups of the geo libraries that are loaded.
pub record Dualstack : Type 0 where
  pub cfg : Config
  pub table : BindingTable
  pub v4_geo : Option (Ipv4Addr → Located)
  pub v6_geo : Option (Ipv6Addr → Option (Bytes × Bytes))

module _ ⦃addr_text : AddrText⦄ where
  -- `Ipv6NetOwned::from_str`, of which only the success is looked at.
  abbrev pub make_net : Option Ipv6Addr → Option ℕ → Option Ipv6Net
  make_net (some ip) (some pl) =
      if ltb 128 pl then none else some (record { addr = v6_number ip; prefix_len = pl })
  make_net _ _ = none

  unfoldable pub parse_net : Bytes → Option Ipv6Net
  unfolding split_once
  parse_net s = elim (split_once b'/' s) [
    | none ↦ none
    | some (addr_s, pl_s) ↦ make_net (addr_text.parse_v6 addr_s) (addr_text.parse_u8 pl_s)
  ]

  -- `BindingTable::add`
  unfoldable pub add : Bytes → Bytes → BindingTable → BindingTable
  unfolding parse_net
  add cidr ipv4 t = elim (parse_net cidr) [
    | none ↦ t
    | some n ↦ elim (addr_text.parse_v4 ipv4) [
      | none ↦ t
      | some ip ↦ t ++ (record { net = n; ipv4 = ip } ∷ [])
    ]
  ]

  -- The loop of `embedded_ipv4` over the prefixes.
  unfoldable pub first_nat64 : Ipv6Addr → List Bytes → Option Ipv4Addr
  unfolding parse_net
  first_nat64 ip [] = none
  first_nat64 ip (p ∷ ps) =
      let rest = first_nat64 ip ps in
      elim (parse_net p) [
        | none ↦ rest
        | some net ↦
            if contains net ip
            then elim (extract_rfc6052 (octets6 ip) net.prefix_len) [
              | none ↦ rest
              | some v ↦ some v
            ]
            else rest
      ]

  -- `embedded_ipv4`
  unfoldable pub embedded_ipv4 : Ipv6Addr → List Bytes → Option Ipv4Addr
  unfolding first_nat64
  embedded_ipv4 ip prefixes = elim (to_ipv4_mapped ip) [
    | some v ↦ some v
    | none ↦ first_nat64 ip prefixes
  ]

  -- The loop of `reload` over the rows.
  unfoldable pub add_bindings : List DualstackBinding → BindingTable → BindingTable
  unfolding add
  add_bindings [] t = t
  add_bindings (b ∷ bs) t =
      add_bindings bs (if b.enabled then add b.ipv6_subnet b.binding_ipv4 t else t)

  module _ ⦃text : Text⦄ where
    -- `load_map_file`, on the lines of the file.
    abbrev add_parts : List Bytes → BindingTable → BindingTable
    add_parts (p ∷ q ∷ rest) t = add (text.trim p) (text.trim q) t
    add_parts _ t = t

    unfoldable load_lines : List Bytes → BindingTable → BindingTable
    unfolding split
    load_lines [] t = t
    load_lines (l ∷ ls) t =
        let line = text.trim l in
        load_lines ls (
          if is_empty line || starts_with line (b'#' ∷ [])
          then t
          else add_parts (split b',' line) t)

    unfoldable load_map_file : Option Bytes → BindingTable → BindingTable
    unfolding load_lines lines
    load_map_file none t = t
    load_map_file (some s) t = load_lines (lines s) t

    -- `Dualstack::reload`: the map file, where one is configured, then the enabled rows.
    unfoldable pub reload : Option (Option Bytes) → List DualstackBinding → Dualstack → Dualstack
    unfolding add_bindings load_map_file
    reload file bs d = record d {
      table = add_bindings bs (elim file [ none ↦ [] | some s ↦ load_map_file s [] ]);
    }

  module _ (map_via_api : Bytes → Ipv6Addr → Option Ipv4Addr) where
    -- `map_to_ipv4`
    unfoldable pub map_to_ipv4 : Dualstack → Ipv6Addr → Option Ipv4Addr
    unfolding embedded_ipv4
    map_to_ipv4 d ip = elim (embedded_ipv4 ip d.cfg.nat64_prefixes) [
      | some v ↦ some v
      | none ↦ elim (lookup ip d.table) [
        | some v ↦ some v
        | none ↦ elim d.cfg.ipv6_ipv4_map_api_url [ none ↦ none | some url ↦ map_via_api url ip ]
      ]
    ]

    -- The answer of `derive_ecs` for an address that passed.
    abbrev pub derived : Dualstack → Ipv4Addr → EcsInfo
    derived d v =
        let mask = d.cfg.ecs_derive_mask in
        record {
          family = 1;
          source_prefix = mask;
          scope_prefix = 0;
          address = some (IpAddr.v4 (if ltb mask 32 then mask_ipv4 v mask else v));
        }

    abbrev pub verified :
        Dualstack → Ipv4Addr → Located → Option (Bytes × Bytes) → Result (Option EcsInfo)
    verified d v crashed v6 = panic
    verified d v nowhere_found v6 = ok none
    verified d v (located loc4) none = ok none
    verified d v (located loc4) (some loc6) =
        if not (consistent loc4.0 loc4.1 loc6.0 loc6.1 d.cfg.geo_strict_city)
        then ok none
        else ok (some (derived d v))

    -- `derive_ecs`
    abbrev pub with_libraries :
        Dualstack
        → Ipv6Addr
        → Ipv4Addr
        → Option (Ipv4Addr → Located)
        → Option (Ipv6Addr → Option (Bytes × Bytes))
        → Result (Option EcsInfo)
    with_libraries d ip v (some qqwry) (some v6geo) = verified d v (qqwry v) (v6geo ip)
    with_libraries d ip v none v6 = ok (some (derived d v))
    with_libraries d ip v (some qqwry) none = ok (some (derived d v))

    abbrev pub with_address : Dualstack → Ipv6Addr → Option Ipv4Addr → Result (Option EcsInfo)
    with_address d ip none = ok none
    with_address d ip (some v) = with_libraries d ip v d.v4_geo d.v6_geo

    unfoldable pub derive_ecs : Dualstack → Ipv6Addr → Result (Option EcsInfo)
    unfolding map_to_ipv4
    derive_ecs d ip = with_address d ip (map_to_ipv4 d ip)
