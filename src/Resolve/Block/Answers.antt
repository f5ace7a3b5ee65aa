-- ===== src/Resolve/Block/Answers.antt =====
-- The answers given for blocked names.
use dnsd_rs.Base.{Bytes, arith, refl, ◌/◌, ◌<◌, ◌^◌, ◌≡◌}
use dnsd_rs.Base.Bits.{bit_and-mod}
use dnsd_rs.Proto.Types.{IpAddr}
use dnsd_rs.Resolve.Block.{fnv64_loop, random_v4}

module _ (ip_text : IpAddr → Bytes) where
  -- An address for a blocked name has four bytes, and in random mode it is one of 10.7.0.0/16 that is
  -- not in 10.7.0.0/24.
  random_v4-range :
      (qname : Bytes) (client_ip : IpAddr)
      → ((random_v4 ip_text qname client_ip).o0 ≡ 10)
        × ((random_v4 ip_text qname client_ip).o1 ≡ 7)
        × (0 < (random_v4 ip_text qname client_ip).o2)
        × ((random_v4 ip_text qname client_ip).o2 < 256)
        × ((random_v4 ip_text qname client_ip).o3 < 256)
  unfolding random_v4
  random_v4-range qname client_ip =
      let h = fnv64_loop (fnv64_loop 0xcbf29ce484222325 qname) (ip_text client_ip) in
      (
        refl,
        refl,
        omega arith,
        omega (arith, bit_and-mod 8 (h / 2 ^ 16)),
        omega (arith, bit_and-mod 8 h),
      )
