-- ===== src/Resolve/Net/Laws.antt =====
-- Membership in an IPv6 network, the longest-prefix match, and the addresses of RFC 6052.
use native.Mathlib.Nat.{mod-eq_of_lt}
use mathlib.Core.Option.{some-injective}
use dnsd_rs.Base.{
  ==_iff, Bool, Bool-cases, Bytes, Option, [], any, ap, ap₂, arith, bit_and, drop, false, get_elem?,
  if◌then◌else◌, inl, inr, leb, length, ltb, none, not, refl, some, subst, suc, sym, take, true, ℕ,
  ◌&&◌, ◌*◌, ◌++◌, ◌-◌, ◌/◌, ◌<◌, ◌==◌, ◌^◌, ◌∙◌, ◌∷◌, ◌≡◌, ◌≤◌, ◌⊎◌,
}
use dnsd_rs.Base.Bits.{bit_and-high, div-lt, pow-pos}
use dnsd_rs.Proto.Ecs.{v4_octets}
use dnsd_rs.Proto.Name.Wire.{agree_below, agree_below→eq}
use dnsd_rs.Proto.Types.{Ipv4Addr, Ipv6Addr}
use dnsd_rs.Resolve.Net.{
  BindingEntry, BindingTable, Ipv6Net, contains, extract_rfc6052, is_longer, lookup, lookup_loop,
  v6_mask, v6_number,
}

v6_mask-ones : (p : ℕ) → p < 129 → v6_mask p ≡ (2 ^ p - 1) * 2 ^ (128 - p)
unfolding agree_below
v6_mask-ones = agree_below→eq v6_mask (λ p. (2 ^ p - 1) * 2 ^ (128 - p)) 129 refl

two_parts : (p : ℕ) → p < 129 → 2 ^ p * 2 ^ (128 - p) ≡ 2 ^ 128
unfolding agree_below
two_parts = agree_below→eq (λ p. 2 ^ p * 2 ^ (128 - p)) (λ _. 2 ^ 128) 129 refl

-- A number masked to `p` high bits.
masked :
    (n p : ℕ) → n < 2 ^ 128 → p < 129 → bit_and n (v6_mask p) ≡ n / 2 ^ (128 - p) * 2 ^ (128 - p)
masked n p below le =
    let k = 128 - p in
    let small : n / 2 ^ k < 2 ^ p =
      div-lt n (2 ^ p) (2 ^ k) (pow-pos k) (rw (two_parts p le) below) in
    ap (bit_and n) (v6_mask-ones p le)
    ∙ bit_and-high k p n
    ∙ ap (λ (t : ℕ). t * 2 ^ k) (mod-eq_of_lt small)

mul-== : (x y q : ℕ) → 0 < q → (x * q == y * q) ≡ (x == y)
mul-== x y q h = elim (Bool-cases (x * q == y * q)) [
  | inl same ↦
      let e : x ≡ y =
        sym (mul-div x q h)
        ∙ ap (λ (t : ℕ). t / q) ((==_iff (x * q) (y * q)).0 same)
        ∙ mul-div y q h in
      same ∙ sym ((==_iff x y).1 e)
  | inr other ↦ other ∙ elim (Bool-cases (x == y)) [
    | inl same ↦
        absurd
          (cc (other, (==_iff (x * q) (y * q)).1 (ap (λ (t : ℕ). t * q) ((==_iff x y).0 same))))
    | inr e ↦ sym e
  ]
]
  where
    mul-div : (x q : ℕ) → 0 < q → x * q / q ≡ x
    mul-div x q h = grind arith

-- For numbers of 128 bits and a prefix from 1 to 128: an address is in a network when the bits of the
-- prefix are the network's.
contains-same_prefix :
    (net : Ipv6Net) (ip : Ipv6Addr)
    → net.addr < 2 ^ 128
    → v6_number ip < 2 ^ 128
    → 0 < net.prefix_len
    → net.prefix_len ≤ 128
    → contains net ip
      ≡ (v6_number ip / 2 ^ (128 - net.prefix_len) == net.addr / 2 ^ (128 - net.prefix_len))
unfolding contains
contains-same_prefix net ip small_net small_ip positive le =
    let p = net.prefix_len in
    let some_bits : (p == 0) ≡ false = ground arith in
    rw some_bits (
      ap₂ (λ (x : ℕ) (y : ℕ). x == y) (masked (v6_number ip) p small_ip (omega arith))
        (masked net.addr p small_net (omega arith))
      ∙ mul-== (v6_number ip / 2 ^ (128 - p)) (net.addr / 2 ^ (128 - p)) (2 ^ (128 - p))
          (pow-pos (128 - p)))

-- No entry that contains the address has a longer prefix.
abbrev none_longer : Ipv6Addr → ℕ → BindingTable → Bool
none_longer ip pl t = not (any (λ d. contains d.net ip && ltb pl d.net.prefix_len) t)

-- What a longest-prefix match answers: the address of an entry that contains the client, such that no
-- entry that contains it has a longer prefix; or nothing, when no entry contains it.
abbrev pub IsLongest : Ipv6Addr → BindingTable → Option Ipv4Addr → Type 0
IsLongest ip t none = any (λ d. contains d.net ip) t ≡ false
IsLongest ip t (some a) =
    (i : ℕ) × (e : BindingEntry) × (get_elem? t i ≡ some e)
    × (contains e.net ip ≡ true)
    × (e.ipv4 ≡ a)
    × (none_longer ip e.net.prefix_len t ≡ true)

abbrev IsFound : Ipv6Addr → BindingTable → ℕ → Ipv4Addr → Type 0
IsFound ip t pl a =
    (i : ℕ) × (e : BindingEntry) × (get_elem? t i ≡ some e)
    × (contains e.net ip ≡ true)
    × (e.net.prefix_len ≡ pl)
    × (e.ipv4 ≡ a)

-- The loop, from a best entry so far on.
abbrev IsBest : Ipv6Addr → Option (ℕ × Ipv4Addr) → BindingTable → Option (ℕ × Ipv4Addr) → Type 0
IsBest ip best t none = (best ≡ none) × (any (λ d. contains d.net ip) t ≡ false)
IsBest ip best t (some (pl, a)) =
    ((best ≡ some (pl, a)) ⊎ IsFound ip t pl a)
    × (any (λ d. contains d.net ip && ltb pl d.net.prefix_len) t ≡ false)
    × (elim best [ none ↦ true | some (ql, b) ↦ leb ql pl ] ≡ true)

later :
    (ip : Ipv6Addr) (pl : ℕ) (a : Ipv4Addr) (e : BindingEntry) (t : BindingTable)
    → IsFound ip t pl a
    → IsFound ip (e ∷ t) pl a
later ip pl a e t (i, d, at_i, inside, same_len, same_ip) =
    (suc i, d, at_i, inside, same_len, same_ip)

shift :
    (ip : Ipv6Addr) (best : Option (ℕ × Ipv4Addr)) (pl : ℕ) (a : Ipv4Addr) (e : BindingEntry)
    (t : BindingTable)
    → (best ≡ some (pl, a)) ⊎ IsFound ip t pl a
    → (best ≡ some (pl, a)) ⊎ IsFound ip (e ∷ t) pl a
shift ip best pl a e t (inl same) = inl same
shift ip best pl a e t (inr found) = inr (later ip pl a e t found)

-- Either the entry at hand is the one found, or one behind it.
take_here :
    (ip : Ipv6Addr) (pl : ℕ) (a : Ipv4Addr) (e : BindingEntry) (t : BindingTable)
    → contains e.net ip ≡ true
    → ◌≡◌ {A = Option (ℕ × Ipv4Addr)} (some (e.net.prefix_len, e.ipv4)) (some (pl, a))
      ⊎ IsFound ip t pl a
    → IsFound ip (e ∷ t) pl a
take_here ip pl a e t inside (inl same) =
    let e' = some-injective (e.net.prefix_len, e.ipv4) (pl, a) same in
    (0, e, refl, inside, ap (λ x. x.0) e', ap (λ x. x.1) e')
take_here ip pl a e t inside (inr found) = later ip pl a e t found

lookup_loop-skip :
    (ip : Ipv6Addr) (best r : Option (ℕ × Ipv4Addr)) (e : BindingEntry) (t : BindingTable)
    → (contains e.net ip && is_longer e.net.prefix_len best) ≡ false
    → IsBest ip best t r
    → IsBest ip best (e ∷ t) r
lookup_loop-skip ip none none e t skip h = (refl, ground arith)
lookup_loop-skip ip (some (ql, b)) none e t skip h = (h.0, absurd (cc h.0))
lookup_loop-skip ip none (some (pl, a)) e t skip h = (shift ip _ pl a e t h.0, ground arith, refl)
lookup_loop-skip ip (some (ql, b)) (some (pl, a)) e t skip h =
    (shift ip _ pl a e t h.0, ground arith, h.2)

lookup_loop-take :
    (ip : Ipv6Addr) (best r : Option (ℕ × Ipv4Addr)) (e : BindingEntry) (t : BindingTable)
    → (contains e.net ip && is_longer e.net.prefix_len best) ≡ true
    → IsBest ip (some (e.net.prefix_len, e.ipv4)) t r
    → IsBest ip best (e ∷ t) r
lookup_loop-take ip best none e t taken h = absurd (cc h.0)
lookup_loop-take ip none (some (pl, a)) e t taken h =
    (inr (take_here ip pl a e t (ground arith) h.0), ground arith, refl)
lookup_loop-take ip (some (ql, b)) (some (pl, a)) e t taken h =
    (inr (take_here ip pl a e t (ground arith) h.0), ground arith, ground arith)

lookup_loop-IsBest :
    (ip : Ipv6Addr) (best : Option (ℕ × Ipv4Addr)) (t : BindingTable)
    → IsBest ip best t (lookup_loop ip best t)
unfolding lookup_loop
lookup_loop-IsBest ip none [] = (refl, refl)
lookup_loop-IsBest ip (some (pl, a)) [] = (inl refl, refl, ground arith)
lookup_loop-IsBest ip best (e ∷ t) =
    elim (Bool-cases (contains e.net ip && is_longer e.net.prefix_len best)) [
      | inl taken ↦
          subst
            (λ b.
              IsBest ip best (e ∷ t)
                (lookup_loop ip (if b then some (e.net.prefix_len, e.ipv4) else best) t))
            (sym taken)
            (lookup_loop-take ip best (lookup_loop ip (some (e.net.prefix_len, e.ipv4)) t) e t taken
              (lookup_loop-IsBest ip (some (e.net.prefix_len, e.ipv4)) t))
      | inr skip ↦
          subst
            (λ b.
              IsBest ip best (e ∷ t)
                (lookup_loop ip (if b then some (e.net.prefix_len, e.ipv4) else best) t))
            (sym skip)
            (lookup_loop-skip ip best (lookup_loop ip best t) e t skip
              (lookup_loop-IsBest ip best t))
    ]

-- `BindingTable::lookup` is the longest-prefix match, on every table and address.
pub lookup-IsLongest : (ip : Ipv6Addr) (t : BindingTable) → IsLongest ip t (lookup ip t)
unfolding lookup
lookup-IsLongest ip t = longest (lookup_loop ip none t) (lookup_loop-IsBest ip none t)
  where
    longest :
        (r : Option (ℕ × Ipv4Addr))
        → IsBest ip none t r
        → IsLongest ip t (elim r [ none ↦ none | some (pl, a) ↦ some a ])
    longest none h = h.1
    longest (some (pl, a)) h = elim h.0 [
      | inl same ↦ absurd (cc same)
      | inr (i, e, at_i, inside, same_len, is_a) ↦
          (i, e, at_i, inside, is_a, rw same_len (ap not h.1))
    ]

-- RFC 6052, section 2.2: the IPv4 address stands right behind the prefix, but octet 8, which is zero, is
-- left out of the count.
abbrev embed_rfc6052 : Bytes → Ipv4Addr → Bytes → Bytes
embed_rfc6052 prefix ip suffix =
    let s = prefix ++ (v4_octets ip ++ suffix) in take 8 s ++ (0 ∷ drop 8 s)

-- For the prefixes of 32, 40, 48, 56 and 64 bits, the address embedded as RFC 6052 says is the one
-- extracted.
extract_rfc6052-embed :
    (prefix suffix : Bytes) (ip : Ipv4Addr)
    → 4 ≤ length prefix
    → length prefix ≤ 8
    → extract_rfc6052 (embed_rfc6052 prefix ip suffix) (8 * length prefix) ≡ some ip
unfolding extract_rfc6052
extract_rfc6052-embed [] suffix ip h le = absurd (omega arith)
extract_rfc6052-embed (_ ∷ []) suffix ip h le = absurd (omega arith)
extract_rfc6052-embed (_ ∷ _ ∷ []) suffix ip h le = absurd (omega arith)
extract_rfc6052-embed (_ ∷ _ ∷ _ ∷ []) suffix ip h le = absurd (omega arith)
extract_rfc6052-embed (_ ∷ _ ∷ _ ∷ _ ∷ []) suffix ip h le = refl
extract_rfc6052-embed (_ ∷ _ ∷ _ ∷ _ ∷ _ ∷ []) suffix ip h le = refl
extract_rfc6052-embed (_ ∷ _ ∷ _ ∷ _ ∷ _ ∷ _ ∷ []) suffix ip h le = refl
extract_rfc6052-embed (_ ∷ _ ∷ _ ∷ _ ∷ _ ∷ _ ∷ _ ∷ []) suffix ip h le = refl
extract_rfc6052-embed (_ ∷ _ ∷ _ ∷ _ ∷ _ ∷ _ ∷ _ ∷ _ ∷ []) suffix ip h le = refl
extract_rfc6052-embed (_ ∷ _ ∷ _ ∷ _ ∷ _ ∷ _ ∷ _ ∷ _ ∷ _ ∷ prefix) suffix ip h le =
    absurd (omega arith)
