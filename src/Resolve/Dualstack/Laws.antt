-- ===== src/Resolve/Dualstack/Laws.antt =====
-- What the binding table holds, and which addresses `derive_ecs` gives out.

use mathlib.Core.Option.{some-injective}
use dnsd_rs.Base.{
  All, All-append, Bool, Bool-cases, Bytes, List, Option, [], arith, false, if◌then◌else◌, inl, inr,
  leb, ltb, none, not, refl, some, subst, true, ℕ, ◌∙◌, ◌⊎◌, Result, ok, err, panic, suc, get_elem?,
  ◌++◌, ◌<◌, ◌==◌, ◌^◌, ◌∷◌, ◌≡◌, ◌≤◌,
}
use dnsd_rs.Proto.Ecs.{EcsInfo, mask_ipv4, octets6}
use dnsd_rs.Proto.Types.{IpAddr, Ipv4Addr, Ipv6Addr}
use dnsd_rs.Resolve.Dualstack.{
  AddrText, Dualstack, DualstackBinding, add, add_bindings, derive_ecs, derived, make_net,
  map_to_ipv4, parse_net, split_once, verified, Located, located, nowhere_found, crashed,
  to_ipv4_mapped, first_nat64, embedded_ipv4, with_libraries, with_address,
}
use dnsd_rs.Resolve.Dualstack.Consistent.{IsAgreed, Reflects, consistent-Reflects, fails, holds}
use dnsd_rs.Resolve.Net.Laws.{IsLongest, lookup-IsLongest}
use dnsd_rs.Resolve.Net.{BindingTable, Ipv6Net, contains, extract_rfc6052, lookup, v6_number}

-- A network that `contains` can mask.
abbrev IsNet : Ipv6Net → Type 0
IsNet n = (n.addr < 2 ^ 128) × (n.prefix_len ≤ 128)

abbrev IsTable : BindingTable → Type 0
IsTable = All (λ e. IsNet e.net)

mask_ipv4-whole : (v : Ipv4Addr) (p : ℕ) → 32 ≤ p → mask_ipv4 v p ≡ v
unfolding mask_ipv4
mask_ipv4-whole v p h =
    let some_bits : (p == 0) ≡ false = ground arith in
    let all : leb 32 p ≡ true = ground arith in rw (some_bits, all) refl

module _ ⦃addr_text : AddrText⦄ where
  parse_net-IsNet : (s : Bytes) (n : Ipv6Net) → parse_net s ≡ some n → IsNet n
  unfolding parse_net
  parse_net-IsNet s n h = parts (split_once b'/' s) h
    where
      made :
          (a : Bytes) (r : Option Ipv6Addr) (p : Option ℕ)
          → addr_text.parse_v6 a ≡ r
          → make_net r p ≡ some n
          → IsNet n
      made a none p e h = absurd (cc h)
      made a (some ip) none e h = absurd (cc h)
      made a (some ip) (some pl) e h = elim (Bool-cases (ltb 128 pl)) [
        | inl over ↦ absurd (cc (over, h))
        | inr fits ↦
            let same =
              some-injective (record { addr = v6_number ip; prefix_len = pl }) n (cc (fits, h)) in
            subst IsNet same (addr_text.parse_v6_range a ip e, ground arith)
      ]

      parts :
          (r : Option (Bytes × Bytes))
          → elim r [
            | none ↦ none
            | some (addr_s, pl_s) ↦ make_net (addr_text.parse_v6 addr_s) (addr_text.parse_u8 pl_s)
          ]
            ≡ some n
          → IsNet n
      parts none h = absurd (cc h)
      parts (some (addr_s, pl_s)) h =
          made addr_s (addr_text.parse_v6 addr_s) (addr_text.parse_u8 pl_s) refl h

  add-IsTable : (cidr ipv4 : Bytes) (t : BindingTable) → IsTable t → IsTable (add cidr ipv4 t)
  unfolding add
  add-IsTable cidr ipv4 t h = added (parse_net cidr) refl
    where
      pushed :
          (n : Ipv6Net) (v : Option Ipv4Addr)
          → IsNet n
          → IsTable (elim v [ none ↦ t | some ip ↦ t ++ (record { net = n; ipv4 = ip } ∷ []) ])
      pushed n none k = h
      pushed n (some ip) k = All-append (λ e. IsNet e.net) t _ h (k, tt)

      added :
          (r : Option Ipv6Net)
          → parse_net cidr ≡ r
          → IsTable (elim r [
            | none ↦ t
            | some n ↦ elim (addr_text.parse_v4 ipv4) [
              | none ↦ t
              | some ip ↦ t ++ (record { net = n; ipv4 = ip } ∷ [])
            ]
          ])
      added none e = h
      added (some n) e = pushed n (addr_text.parse_v4 ipv4) (parse_net-IsNet cidr n e)

  -- A table of networks that `contains` can mask stays one, whatever the rows hold that are added.
  add_bindings-IsTable :
      (bs : List DualstackBinding) (t : BindingTable) → IsTable t → IsTable (add_bindings bs t)
  unfolding add_bindings
  add_bindings-IsTable [] t h = h
  add_bindings-IsTable (b ∷ bs) t h = elim (Bool-cases b.enabled) [
    | inl on ↦ rw on (add_bindings-IsTable bs _ (add-IsTable b.ipv6_subnet b.binding_ipv4 t h))
    | inr off ↦ rw off (add_bindings-IsTable bs t h)
  ]

  module _ (map_via_api : Bytes → Ipv6Addr → Option Ipv4Addr) where
    -- The option that goes out for an address.
    abbrev pub subnet_of : ℕ → Ipv4Addr → EcsInfo
    subnet_of mask v = record {
      family = 1;
      source_prefix = mask;
      scope_prefix = 0;
      address = some (IpAddr.v4 (mask_ipv4 v mask));
    }

    derived-eq :
        (d : Dualstack) (v : Ipv4Addr) → derived map_via_api d v ≡ subnet_of d.cfg.ecs_derive_mask v
    derived-eq d v = elim (Bool-cases (ltb d.cfg.ecs_derive_mask 32)) [
      | inl less ↦ rw less refl
      | inr not_less ↦ rw (not_less, mask_ipv4-whole v d.cfg.ecs_derive_mask (ground arith)) refl
    ]

    -- Where the address of a client comes from: the address itself, a NAT64 prefix that holds it, the longest
    -- bound network that holds it, or the mapping API.
    pub data IsSource (d : Dualstack) (ip : Ipv6Addr) (v : Ipv4Addr) : Type 0 where
      is_mapped : to_ipv4_mapped ip ≡ some v → IsSource d ip v
      is_embedded :
          (i : ℕ) (p : Bytes) (net : Ipv6Net)
          → get_elem? d.cfg.nat64_prefixes i ≡ some p
          → parse_net p ≡ some net
          → contains net ip ≡ true
          → extract_rfc6052 (octets6 ip) net.prefix_len ≡ some v
          → IsSource d ip v
      is_bound : IsLongest ip d.table (some v) → IsSource d ip v
      is_from_api :
          (url : Bytes)
          → d.cfg.ipv6_ipv4_map_api_url ≡ some url
          → map_via_api url ip ≡ some v
          → IsSource d ip v

    first_nat64-IsSource :
        (d : Dualstack) (ip : Ipv6Addr) (v : Ipv4Addr) (ps : List Bytes)
        → first_nat64 ip ps ≡ some v
        → (i : ℕ) × (p : Bytes) × (net : Ipv6Net) × (get_elem? ps i ≡ some p)
          × (parse_net p ≡ some net)
          × (contains net ip ≡ true)
          × (extract_rfc6052 (octets6 ip) net.prefix_len ≡ some v)
    unfolding first_nat64
    first_nat64-IsSource d ip v [] h = cc h
    first_nat64-IsSource d ip v (p ∷ ps) h =
        at_prefix (λ k. first_nat64-IsSource d ip v ps k) (parse_net p) refl h
      where
        Found : Type 0
        Found =
            (i : ℕ) × (q : Bytes) × (net : Ipv6Net) × (get_elem? (p ∷ ps) i ≡ some q)
            × (parse_net q ≡ some net)
            × (contains net ip ≡ true)
            × (extract_rfc6052 (octets6 ip) net.prefix_len ≡ some v)

        Later : Type 0
        Later =
            first_nat64 ip ps ≡ some v
            → (i : ℕ) × (q : Bytes) × (net : Ipv6Net) × (get_elem? ps i ≡ some q)
              × (parse_net q ≡ some net)
              × (contains net ip ≡ true)
              × (extract_rfc6052 (octets6 ip) net.prefix_len ≡ some v)

        beyond : Later → first_nat64 ip ps ≡ some v → Found
        beyond more k =
            let (i, q, net, at_i, parsed, inside, found) = more k in
            (suc i, q, net, at_i, parsed, inside, found)

        at_address :
            Later
            → (net : Ipv6Net) (r : Option Ipv4Addr) → parse_net p ≡ some net
            → contains net ip ≡ true
            → extract_rfc6052 (octets6 ip) net.prefix_len ≡ r
            → elim r [ none ↦ first_nat64 ip ps | some w ↦ some w ] ≡ some v
            → Found
        at_address more net none e inside x k = beyond more k
        at_address more net (some w) e inside x k = (0, p, net, refl, e, inside, x ∙ k)

        at_prefix :
            Later
            → (r : Option Ipv6Net) → parse_net p ≡ r
            → elim r [
              | none ↦ first_nat64 ip ps
              | some net ↦
                  if contains net ip
                  then elim (extract_rfc6052 (octets6 ip) net.prefix_len) [
                    | none ↦ first_nat64 ip ps
                    | some w ↦ some w
                  ]
                  else first_nat64 ip ps
            ]
              ≡ some v
            → Found
        at_prefix more none e k = beyond more k
        at_prefix more (some net) e k = elim (Bool-cases (contains net ip)) [
          | inl inside ↦
              at_address more net (extract_rfc6052 (octets6 ip) net.prefix_len) e inside refl
                (rw inside at k)
          | inr outside ↦ beyond more (rw outside at k)
        ]

    map_to_ipv4-IsSource :
        (d : Dualstack) (ip : Ipv6Addr) (v : Ipv4Addr)
        → map_to_ipv4 map_via_api d ip ≡ some v
        → IsSource d ip v
    unfolding map_to_ipv4 embedded_ipv4
    map_to_ipv4-IsSource d ip v h = mapped (to_ipv4_mapped ip) refl h
      where
        by_api :
            (u : Option Bytes)
            → d.cfg.ipv6_ipv4_map_api_url ≡ u
            → elim u [ none ↦ none | some url ↦ map_via_api url ip ] ≡ some v
            → IsSource d ip v
        by_api none e k = cc k
        by_api (some url) e k = is_from_api url e k

        bound :
            (r : Option Ipv4Addr)
            → lookup ip d.table ≡ r
            → elim r [
              | some w ↦ some w
              | none ↦ elim d.cfg.ipv6_ipv4_map_api_url [
                | none ↦ none
                | some url ↦ map_via_api url ip
              ]
            ]
              ≡ some v
            → IsSource d ip v
        bound (some w) e k =
            is_bound (subst (IsLongest ip d.table) (e ∙ k) (lookup-IsLongest ip d.table))
        bound none e k = by_api d.cfg.ipv6_ipv4_map_api_url refl k

        embedded :
            (r : Option Ipv4Addr)
            → first_nat64 ip d.cfg.nat64_prefixes ≡ r
            → elim r [
              | some w ↦ some w
              | none ↦ elim (lookup ip d.table) [
                | some w ↦ some w
                | none ↦ elim d.cfg.ipv6_ipv4_map_api_url [
                  | none ↦ none
                  | some url ↦ map_via_api url ip
                ]
              ]
            ]
              ≡ some v
            → IsSource d ip v
        embedded (some w) e k =
            let (i, p, net, at_i, parsed, inside, found) =
              first_nat64-IsSource d ip v d.cfg.nat64_prefixes (e ∙ k) in
            is_embedded i p net at_i parsed inside found
        embedded none e k = bound (lookup ip d.table) refl k

        mapped :
            (r : Option Ipv4Addr)
            → to_ipv4_mapped ip ≡ r
            → (let m : Option Ipv4Addr = elim r [
              | some w ↦ some w
              | none ↦ first_nat64 ip d.cfg.nat64_prefixes
            ] in
                elim m [
                  | some w ↦ some w
                  | none ↦ elim (lookup ip d.table) [
                    | some w ↦ some w
                    | none ↦ elim d.cfg.ipv6_ipv4_map_api_url [
                      | none ↦ none
                      | some url ↦ map_via_api url ip
                    ]
                  ]
                ])
              ≡ some v
            → IsSource d ip v
        mapped (some w) e k = is_mapped (e ∙ k)
        mapped none e k = embedded (first_nat64 ip d.cfg.nat64_prefixes) refl k

    -- What the libraries say of the two addresses.
    abbrev Agrees : Bool → Located → Option (Bytes × Bytes) → Type 0
    Agrees strict (located l4) (some l6) = IsAgreed l4.0 l4.1 l6.0 l6.1 strict
    Agrees strict _ _ = true ≡ false

    -- Both libraries are loaded, and the statement holds of what they say.
    abbrev BothSay :
        Dualstack → Ipv6Addr → Ipv4Addr → (Located → Option (Bytes × Bytes) → Type 0) → Type 0
    BothSay d ip v P =
        (g4 : (Ipv4Addr → Located)) × (g6 : (Ipv6Addr → Option (Bytes × Bytes))) × (d.v4_geo
          ≡ some g4)
        × (d.v6_geo ≡ some g6)
        × P (g4 v) (g6 ip)

    abbrev IsDisputed : Bool → Located → Option (Bytes × Bytes) → Type 0
    IsDisputed strict l4 l6 = (¬ (l4 ≡ crashed)) × (¬ Agrees strict l4 l6)

    abbrev IsCrash : Located → Option (Bytes × Bytes) → Type 0
    IsCrash l4 l6 = l4 ≡ crashed

    -- What `derive_ecs` may give for a client.
    abbrev pub IsDerived : Dualstack → Ipv6Addr → Result (Option EcsInfo) → Type 0
    IsDerived d ip (ok (some e)) =
        (v : Ipv4Addr) × IsSource d ip v
        × (e ≡ subnet_of d.cfg.ecs_derive_mask v)
        × ((d.v4_geo ≡ none) ⊎ (d.v6_geo ≡ none) ⊎ BothSay d ip v (Agrees d.cfg.geo_strict_city))
    IsDerived d ip (ok none) =
        (map_to_ipv4 map_via_api d ip ≡ none)
        ⊎ ((v : Ipv4Addr) × IsSource d ip v × BothSay d ip v (IsDisputed d.cfg.geo_strict_city))
    IsDerived d ip (err e) = true ≡ false
    IsDerived d ip panic = (v : Ipv4Addr) × IsSource d ip v × BothSay d ip v IsCrash

    verified-IsDerived :
        (d : Dualstack) (ip : Ipv6Addr) (v : Ipv4Addr) (g4 : Ipv4Addr → Located)
        (g6 : Ipv6Addr → Option (Bytes × Bytes)) (l4 : Located) (l6 : Option (Bytes × Bytes))
        → IsSource d ip v
        → d.v4_geo ≡ some g4
        → d.v6_geo ≡ some g6
        → g4 v ≡ l4
        → g6 ip ≡ l6
        → IsDerived d ip (verified map_via_api d v l4 l6)
    verified-IsDerived d ip v g4 g6 crashed l6 src e4 e6 x y = (v, src, (g4, g6, e4, e6, x))
    verified-IsDerived d ip v g4 g6 nowhere_found l6 src e4 e6 x y =
        inr (v, src, (g4, g6, e4, e6, rw x ((λ h. cc h), (λ h. cc h))))
    verified-IsDerived d ip v g4 g6 (located a) none src e4 e6 x y =
        inr (v, src, (g4, g6, e4, e6, rw (x, y) ((λ h. cc h), (λ h. cc h))))
    verified-IsDerived d ip v g4 g6 (located a) (some b) src e4 e6 x y =
        go (consistent-Reflects a.0 a.1 b.0 b.1 d.cfg.geo_strict_city)
      where
        go :
            {c : Bool}
            → Reflects (IsAgreed a.0 a.1 b.0 b.1 d.cfg.geo_strict_city) c
            → IsDerived d ip (if not c then ok none else ok (some (derived map_via_api d v)))
        go (holds h) = (v, src, derived-eq d v, inr (inr (g4, g6, e4, e6, rw (x, y) h)))
        go (fails h) = inr (v, src, (g4, g6, e4, e6, rw (x, y) ((λ k. cc k), h)))

    with_libraries-IsDerived :
        (d : Dualstack) (ip : Ipv6Addr) (v : Ipv4Addr) (g4 : Option (Ipv4Addr → Located))
        (g6 : Option (Ipv6Addr → Option (Bytes × Bytes)))
        → IsSource d ip v
        → d.v4_geo ≡ g4
        → d.v6_geo ≡ g6
        → IsDerived d ip (with_libraries map_via_api d ip v g4 g6)
    with_libraries-IsDerived d ip v (some q4) (some q6) src e4 e6 =
        verified-IsDerived d ip v q4 q6 (q4 v) (q6 ip) src e4 e6 refl refl
    with_libraries-IsDerived d ip v none g6 src e4 e6 = (v, src, derived-eq d v, inl e4)
    with_libraries-IsDerived d ip v (some q4) none src e4 e6 =
        (v, src, derived-eq d v, inr (inl e6))

    with_address-IsDerived :
        (d : Dualstack) (ip : Ipv6Addr) (r : Option Ipv4Addr)
        → map_to_ipv4 map_via_api d ip ≡ r
        → IsDerived d ip (with_address map_via_api d ip r)
    with_address-IsDerived d ip none e = inl e
    with_address-IsDerived d ip (some v) e =
        with_libraries-IsDerived d ip v d.v4_geo d.v6_geo (map_to_ipv4-IsSource d ip v e) refl refl

    pub derive_ecs-IsDerived :
        (d : Dualstack) (ip : Ipv6Addr) → IsDerived d ip (derive_ecs map_via_api d ip)
    unfolding derive_ecs
    derive_ecs-IsDerived d ip = with_address-IsDerived d ip (map_to_ipv4 map_via_api d ip) refl
