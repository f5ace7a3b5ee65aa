-- ===== src/Proto/Masks.antt =====
-- `mask_ipv4` keeps the network part of an address, and `EcsInfo::clamp_scope` bounds the prefix.
use native.Mathlib.Nat.{mod-eq_of_lt}
use dnsd_rs.Base.{
  ==_iff, Bool-cases, ap, arith, bit_and, if◌then◌else◌, inl, inr, leb, leb→le, ltb, min, refl,
  some, true, ℕ, ◌*◌, ◌-◌, ◌/◌, ◌<◌, ◌==◌, ◌^◌, ◌∙◌, ◌≡◌, ◌≤◌,
}
use dnsd_rs.Base.Bits.{bit_and-high, div-lt, div-mul-le, pow-pos}
use dnsd_rs.Proto.Ecs.{EcsInfo, clamp_scope, mask_ipv4, v4_from, v4_mask, v4_number}
use dnsd_rs.Proto.Name.Wire.{agree_below, agree_below→eq}
use dnsd_rs.Proto.Types.{IpAddr, Ipv4Addr}
use dnsd_rs.Resolve.Geo.{part}

abbrev pub IsIpv4 : Ipv4Addr → Type 0
IsIpv4 ip = (ip.o0 < 256) × (ip.o1 < 256) × (ip.o2 < 256) × (ip.o3 < 256)

-- `u32::MAX << (32 - p)` is `p` ones above `32 - p` zeros.
v4_mask-ones : (p : ℕ) → p < 33 → v4_mask p ≡ (2 ^ p - 1) * 2 ^ (32 - p)
unfolding agree_below
v4_mask-ones = agree_below→eq v4_mask (λ p. (2 ^ p - 1) * 2 ^ (32 - p)) 33 refl

two_parts : (p : ℕ) → p < 33 → 2 ^ p * 2 ^ (32 - p) ≡ 4294967296
unfolding agree_below
two_parts = agree_below→eq (λ p. 2 ^ p * 2 ^ (32 - p)) (λ _. 4294967296) 33 refl

v4_number-v4_from : (n : ℕ) → n < 4294967296 → v4_number (v4_from n) ≡ n
v4_number-v4_from n h = omega arith

-- The number of the masked address, for an address of four bytes and a prefix of at most 32: the bits
-- below the prefix are zero, the others are kept.
mask_ipv4-network :
    (ip : Ipv4Addr) (p : ℕ)
    → IsIpv4 ip
    → p ≤ 32
    → v4_number (mask_ipv4 ip p) ≡ v4_number ip / 2 ^ (32 - p) * 2 ^ (32 - p)
unfolding mask_ipv4
mask_ipv4-network ip p h le = elim (Bool-cases (p == 0)) [
  | inl zero_bits ↦ let e : p ≡ 0 = (==_iff p 0).0 zero_bits in rw (zero_bits, e) (omega (arith, h))
  | inr some_bits ↦ elim (Bool-cases (leb 32 p)) [
    | inl all ↦
        let e : p ≡ 32 = omega (arith, leb→le 32 p all) in rw (some_bits, all, e) (omega arith)
    | inr part ↦
        let n = v4_number ip in
        let k = 32 - p in
        let below : n < 4294967296 = omega (arith, h) in
        let small : n / 2 ^ k < 2 ^ p =
          div-lt n (2 ^ p) (2 ^ k) (pow-pos k) (rw (two_parts p (omega arith)) below) in
        let masked : bit_and n (v4_mask p) ≡ n / 2 ^ k * 2 ^ k =
          ap (bit_and n) (v4_mask-ones p (omega arith))
          ∙ bit_and-high k p n
          ∙ ap (λ (t : ℕ). t * 2 ^ k) (mod-eq_of_lt small) in
        rw (some_bits, part)
          (v4_number-v4_from (bit_and n (v4_mask p))
              (omega (arith, masked, div-mul-le n (2 ^ k), below))
            ∙ masked)
  ]
]

-- What `clamp_scope` does to an IPv4 option with an address of four bytes, for a limit of at most 32: the prefix is the smaller of the two, and an address whose
-- prefix was cut keeps the network part of the new one.
clamp_scope-bounds :
    (e : EcsInfo) (ip : Ipv4Addr) (m : ℕ)
    → IsIpv4 ip
    → m ≤ 32
    → e.family ≡ 1
    → e.address ≡ some (IpAddr.v4 ip)
    → ((clamp_scope e m).source_prefix ≡ min e.source_prefix m)
      × ((out : Ipv4Addr) × ((clamp_scope e m).address ≡ some (IpAddr.v4 out))
          × (v4_number out ≡ (
              if ltb m e.source_prefix
              then v4_number ip / 2 ^ (32 - m) * 2 ^ (32 - m)
              else v4_number ip)))
unfolding clamp_scope
clamp_scope-bounds e ip m h le fam addr =
    let is_v4 : (e.family == 1) ≡ true = (==_iff e.family 1).1 fam in
    elim (Bool-cases (leb e.source_prefix m)) [
      | inl low ↦ rw (is_v4, low) (ground arith, (ip, addr, ground arith))
      | inr high ↦
          rw (is_v4, high)
            (
              ground arith,
              (mask_ipv4 ip m, rw addr refl, mask_ipv4-network ip m h le ∙ ground arith),
            )
    ]
