-- ===== src/Resolve/Geo/Search.antt =====
use dnsd_rs.Base.{
  Bool-cases, Bytes, Result, arith, false, inl, inr, leb, leb→le, length, ltb, none, ok, refl, suc,
  true, zero, ℕ, ◌%◌, ◌*◌, ◌+◌, ◌-◌, ◌/◌, ◌<◌, ◌^◌, ◌≡◌, ◌≤◌,
}
use dnsd_rs.Proto.Ecs.{v4_number}
use dnsd_rs.Proto.Types.{Ipv4Addr}
use dnsd_rs.Resolve.Geo.{QQwry, index_start_ip, lookup_geo, search}

-- The search of `QQwry::lookup`, and what its bounds make of it.

-- Where every index in range starts behind the address, the search ends and finds none.
search-none :
    (start : ℕ → Result ℕ) (s : ℕ → ℕ) (ip fuel lo hi : ℕ)
    → ((m : ℕ) → lo ≤ m → m ≤ hi → (start m ≡ ok (s m)) × (ip < s m))
    → 0 < lo
    → hi < 2 ^ 32
    → hi + 1 - lo < 2 ^ fuel
    → search start ip (suc fuel) lo hi none ≡ ok none
unfolding search
search-none start s ip zero lo hi all positive small enough =
    let over : leb lo hi ≡ false = ground arith in rw over refl
search-none start s ip (suc fuel) lo hi all positive small enough = elim (Bool-cases (leb lo hi)) [
  | inr over ↦ rw over refl
  | inl inside ↦
      let mid = lo + (hi - lo) / 2 in
      let le : lo ≤ hi = leb→le lo hi inside in
      let (starts, above) = all mid (omega arith) (omega arith) in
      let behind : leb (s mid) ip ≡ false = ground arith in
      let down : (mid + 2 ^ 32 - 1) % 2 ^ 32 ≡ mid - 1 = omega arith in
      rw (inside, starts, behind, down)
        (search-none start s ip fuel lo (mid - 1) (λ m from upto. all m from (omega arith)) positive
          (omega arith) (omega arith))
]

-- An index whose bytes would lie behind the end of the file counts as the greatest address.
index_start_ip-outside :
    (q : QQwry) (idx : ℕ)
    → q.first_idx + idx * 7 < 2 ^ 32
    → length q.content < q.first_idx + idx * 7 + 4
    → index_start_ip q idx ≡ ok (2 ^ 32 - 1)
unfolding index_start_ip
index_start_ip-outside q idx small outside =
    let off : (q.first_idx + idx * 7 % 2 ^ 32) % 2 ^ 32 ≡ q.first_idx + idx * 7 = omega arith in
    let over : ltb (length q.content) (q.first_idx + idx * 7 + 4) ≡ true = ground arith in
    rw (off, over) refl

-- The bounds of the search are the offsets of the index in the file, where the search takes them for the
-- numbers of its entries. So in a file of less than 2^28 bytes whose index stands in its last seven
-- eighths, every address but 255.255.255.255 is looked up in vain.
pub lookup_geo-in_vain :
    (gbk_decode : Bytes → Bytes) (depth : ℕ) (q : QQwry) (ip : Ipv4Addr)
    → length q.content < 2 ^ 28
    → q.last_idx ≤ length q.content
    → length q.content < 8 * q.first_idx + 4
    → 0 < q.first_idx
    → v4_number ip < 2 ^ 32 - 1
    → lookup_geo gbk_decode depth q ip ≡ ok none
unfolding lookup_geo
lookup_geo-in_vain gbk_decode depth q ip short last late positive below =
    rw
      (search-none (index_start_ip q) (λ _. 2 ^ 32 - 1) (v4_number ip) 63 q.first_idx q.last_idx
        (λ m from upto. (index_start_ip-outside q m (omega arith) (omega arith), below)) positive
        (omega arith) (omega arith))
      refl
