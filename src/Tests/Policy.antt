-- ===== src/Tests/Policy.antt =====
-- The cache, the derived client subnets, the block list and the replies, on small inputs.
use mathlib.Core.Option.{some-injective}
use dnsd_rs.Base.{
  All, Bytes, List, Option, [], arith, bytes_eq, decimal_fuel, dot, false, if◌then◌else◌, leb,
  length, max, min, none, ok, refl, replicate, some, subst, suc, true, zero, ℕ, ◌&&◌, ◌*◌, ◌+◌, ◌-◌,
  ◌<◌, ◌^◌, ◌∷◌, ◌≡◌, ◌≤◌,
}
use dnsd_rs.Cache.L1.{Shard, get, new_cache, put, shard_count}
use dnsd_rs.Cache.L1.Laws.{IsBounded, get-put, put-IsBounded}
use dnsd_rs.Proto.Parse.{parse_message}
use dnsd_rs.Proto.Text.{Text, ascii_text, canonical_name}
use dnsd_rs.Proto.Types.{IpAddr, Ipv4Addr, Ipv6Addr, Message, rcode_noerror, v6_octets}
use dnsd_rs.Resolve.Block.{BlockedDomain, block_name, loopback, mode_for, new_list, random}
use dnsd_rs.Resolve.Block.Match.{first_wildcard, last_exact, mode_for-new_list, or_else}
use dnsd_rs.Resolve.Custom.{ZoneIndex, find_loop, find_zone, respond_zone}
use dnsd_rs.Resolve.Custom.Laws.{IsServed, respond_zone-IsServed}
use dnsd_rs.Resolve.Custom.Longest.{IsLongestZone, find_zone-IsLongestZone}
use dnsd_rs.Resolve.Dualstack.{AddrText, Dualstack}
use dnsd_rs.Resolve.Net.{BindingTable, Ipv6Net, contains, lookup, lookup_loop, v6_number}
use dnsd_rs.Resolve.Net.Laws.{IsLongest, lookup-IsLongest}
use dnsd_rs.Resolve.Replies.{badvers, msg_ttl}
use dnsd_rs.Resolve.Replies.Laws.{msg_ttl-bounds, parse_message-badvers}
use dnsd_rs.Resolve.ZoneRecords.{ZoneRecord}
use dnsd_rs.Tests.Wire.{answer_ab, name_ab, question_ab, question_ab-IsWireQuestion}

instance text : Text
text = ascii_text

small_cache-IsBounded : IsBounded (new_cache 64 60)
small_cache-IsBounded =
    unfold new_cache in record { sized = refl; room = omega arith; within = all_empty shard_count }
  where
    all_empty : (n : ℕ) → All (λ m. length m ≤ 64) (replicate n (let m : Shard = [] in m))
    all_empty zero = tt
    all_empty (suc n) = (omega arith, all_empty n)

get-put_example :
    (get 109 (b'k' ∷ []) (put 100 (b'k' ∷ []) (1 ∷ 2 ∷ []) 10 (new_cache 64 60))).0
    ≡ some (1 ∷ 2 ∷ [])
get-put_example =
    get-put 100 109 10 (b'k' ∷ []) (1 ∷ 2 ∷ []) (new_cache 64 60) small_cache-IsBounded
      (omega arith) soon
  where
    soon : 109 < 100 + min 10 (new_cache 64 60).max_ttl_secs
    soon = unfold new_cache in omega arith

put-IsBounded_example : IsBounded (put 100 (b'k' ∷ []) (1 ∷ 2 ∷ []) 10 (new_cache 64 60))
put-IsBounded_example =
    put-IsBounded 100 10 (b'k' ∷ []) (1 ∷ 2 ∷ []) (new_cache 64 60) small_cache-IsBounded

-- 2001:db8:100::5, and the networks 2001:db8::/32 and 2001:db8:100::/48.
abbrev client : Ipv6Addr
client =
    v6_octets (0x20 ∷ 0x01 ∷ 0x0d ∷ 0xb8 ∷ 0x01 ∷ 0 ∷ 0 ∷ 0 ∷ 0 ∷ 0 ∷ 0 ∷ 0 ∷ 0 ∷ 0 ∷ 0 ∷ 5 ∷ [])

abbrev net_32 : Ipv6Net
net_32 = record { addr = 0x20010db8 * 2 ^ 96; prefix_len = 32 }

abbrev net_48 : Ipv6Net
net_48 = record { addr = 0x20010db80100 * 2 ^ 80; prefix_len = 48 }

abbrev wide_v4 : Ipv4Addr
wide_v4 = record { o0 = 10; o1 = 0; o2 = 0; o3 = 1 }

abbrev narrow_v4 : Ipv4Addr
narrow_v4 = record { o0 = 10; o1 = 0; o2 = 1; o3 = 1 }

abbrev two_nets : BindingTable
two_nets = record { net = net_32; ipv4 = wide_v4 } ∷ record { net = net_48; ipv4 = narrow_v4 } ∷ []

lookup-IsLongest_example : IsLongest client two_nets (lookup client two_nets)
lookup-IsLongest_example = lookup-IsLongest client two_nets

longest : lookup client two_nets ≡ some narrow_v4
unfolding lookup lookup_loop contains
longest = refl

-- Parsers that know one text each.
instance pub known_text : AddrText
known_text = record {
  parse_v4 = λ s. if bytes_eq s (b'v' ∷ []) then some narrow_v4 else none;
  parse_v6 = λ s. some (v6_octets []);
  parse_u8 = λ s. if bytes_eq s (b'8' ∷ []) then some 8 else none;
  parse_v6_range = λ s ip e.
      subst (λ x. v6_number x < 2 ^ 128) (some-injective (v6_octets []) ip e) (omega arith);
}

abbrev pub dual : Dualstack
dual = record {
  cfg = record {
    nat64_prefixes = [];
    ipv6_ipv4_map_api_url = none;
    geo_strict_city = false;
    ecs_derive_mask = 24;
  };
  table = two_nets;
  v4_geo = none;
  v6_geo = none;
}

abbrev pub no_api : Bytes → Ipv6Addr → Option Ipv4Addr
no_api url ip = none

abbrev pub sample_rows : List BlockedDomain
sample_rows =
    record { id = []; domain = name_ab; mode = loopback; enabled = true }
    ∷ record { id = []; domain = b'*' ∷ dot ∷ b'b' ∷ []; mode = random; enabled = true }
    ∷ []

mode_for-new_list_example :
    mode_for (new_list sample_rows) (b'c' ∷ dot ∷ b'b' ∷ [])
    ≡ or_else
        (last_exact (block_name (b'c' ∷ dot ∷ b'b' ∷ [])) sample_rows)
        (first_wildcard (block_name (b'c' ∷ dot ∷ b'b' ∷ [])) sample_rows)
mode_for-new_list_example = mode_for-new_list sample_rows (b'c' ∷ dot ∷ b'b' ∷ [])

abbrev pub client_v4 : IpAddr
client_v4 = IpAddr.v4 narrow_v4

-- The digits of the first octet stand for the text of an address.
abbrev pub short_text : IpAddr → Bytes
short_text (IpAddr.v4 ip) = decimal_fuel 3 ip.o0
short_text (IpAddr.v6 ip) = b':' ∷ []

parse_message-badvers_example :
    (s : Bytes) × (m : Message) × (badvers answer_ab ≡ ok s)
    × (parse_message s ≡ ok m)
    × (m.header.id ≡ 7)
    × (m.questions ≡ question_ab ∷ [])
    × (m.header.rcode ≡ rcode_noerror)
parse_message-badvers_example =
    parse_message-badvers answer_ab (omega arith) (question_ab-IsWireQuestion, tt) (omega arith)

msg_ttl-bounds_example :
    All
      (λ r. msg_ttl (record { cache_max_ttl = 60; neg_cache_ttl = 30 }) answer_ab ≤ r.ttl)
      answer_ab.answers
    × (msg_ttl (record { cache_max_ttl = 60; neg_cache_ttl = 30 }) answer_ab ≤ max 60 30)
msg_ttl-bounds_example =
    msg_ttl-bounds (record { cache_max_ttl = 60; neg_cache_ttl = 30 }) answer_ab

-- Numbers that are a single digit, and values that are a single word.
abbrev pub one_digit : Bytes → Option ℕ
one_digit (c ∷ []) = if leb b'0' c && leb c b'9' then some (c - b'0') else none
one_digit _ = none

abbrev pub one_word : Bytes → List Bytes
one_word s = s ∷ []

-- The zone "b." with a TXT record at "a.b."
abbrev pub sample_zones : ZoneIndex
sample_zones =
    (
      b'b' ∷ dot ∷ [],
      record {
        id = [];
        enabled = true;
        zone_id = [];
        name = b'a' ∷ [];
        rtype = b'T' ∷ b'X' ∷ b'T' ∷ [];
        value = b'v' ∷ [];
        ttl = 60;
        priority = 0;
      }
          ∷ [],
    )
    ∷ []

respond_zone-IsServed_example :
    IsServed one_digit one_word question_ab
      (find_zone question_ab.name sample_zones)
      (respond_zone one_digit one_word question_ab sample_zones)
respond_zone-IsServed_example = respond_zone-IsServed one_digit one_word question_ab sample_zones

find_zone-IsLongestZone_example :
    IsLongestZone (canonical_name name_ab) sample_zones (find_zone name_ab sample_zones)
find_zone-IsLongestZone_example = find_zone-IsLongestZone name_ab sample_zones

-- A zone is found for a name that only ends in the same letters.
abbrev zone_b : Bytes × List ZoneRecord
zone_b = (b'b' ∷ dot ∷ [], [])

no_boundary : find_zone (b'x' ∷ b'b' ∷ dot ∷ []) (zone_b ∷ []) ≡ some zone_b
unfolding find_zone find_loop canonical_name text
no_boundary = refl
