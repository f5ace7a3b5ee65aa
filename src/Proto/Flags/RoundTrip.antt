-- ===== src/Proto/Flags/RoundTrip.antt =====
-- `parse_flags` after `encode_flags`: the fields of the flag word do not overlap.
use dnsd_rs.Base.{
  Bool, ap, ap₂, arith, bit_and, bit_or, false, refl, suc, true, ℕ, ◌%◌, ◌*◌, ◌+◌, ◌/◌, ◌<◌, ◌^◌,
  ◌∙◌, ◌≡◌, ◌≤◌,
}
use dnsd_rs.Base.Bits.{bit_and-bit, bit_and-mod, bit_or-fields, pow-pos}
use dnsd_rs.Proto.Flags.{encode_flags, has_bit, parse_flags, set_if}
use dnsd_rs.Proto.Types.{Header}

abbrev to_ℕ : Bool → ℕ
to_ℕ true = 1
to_ℕ false = 0

-- One bit below those that are there.
set_if-sum :
    (b : Bool) (k f a : ℕ) → f ≡ a * 2 ^ suc k → set_if b (2 ^ k) f ≡ (a * 2 + to_ℕ b) * 2 ^ k
set_if-sum true k f a e =
    let double : 2 ^ suc k ≡ 2 * 2 ^ k = omega arith in
    let small : 2 ^ k < 2 ^ suc k = omega (arith, double, pow-pos k) in
    ap (λ x. bit_or x (2 ^ k)) e
    ∙ bit_or-fields (suc k) a (2 ^ k) small
    ∙ omega (arith, ap (λ (t : ℕ). a * t) double)
set_if-sum false k f a e =
    let double : 2 ^ suc k ≡ 2 * 2 ^ k = omega arith in
    e ∙ omega (arith, ap (λ (t : ℕ). a * t) double)

top_if : (b : Bool) → set_if b 0x8000 0 ≡ to_ℕ b * 2 ^ 15
top_if true = refl
top_if false = refl

-- The sum of the fields.
abbrev pub word : Header → ℕ
word h =
    to_ℕ h.qr * 32768
    + h.opcode * 2048
    + to_ℕ h.aa * 1024
    + to_ℕ h.tc * 512
    + to_ℕ h.rd * 256
    + to_ℕ h.ra * 128
    + to_ℕ h.ad * 32
    + to_ℕ h.cd * 16
    + h.rcode % 16

to_ℕ-le : (b : Bool) → to_ℕ b ≤ 1
to_ℕ-le true = omega arith
to_ℕ-le false = omega arith

encode_flags-word : (h : Header) → h.opcode < 16 → encode_flags h ≡ word h
unfolding encode_flags
encode_flags-word h op =
    let op4 : bit_and h.opcode 0xF * 2048 ≡ h.opcode * 2048 =
      omega (arith, bit_and-mod 4 h.opcode) in
    let n1 = to_ℕ h.qr * 16 + h.opcode in
    let n2 = n1 * 2 + to_ℕ h.aa in
    let n3 = n2 * 2 + to_ℕ h.tc in
    let n4 = n3 * 2 + to_ℕ h.rd in
    let n5 = n4 * 2 + to_ℕ h.ra in
    let n6 = n5 * 2 * 2 + to_ℕ h.ad in
    let n7 = n6 * 2 + to_ℕ h.cd in
    let f1 = bit_or (set_if h.qr 0x8000 0) (bit_and h.opcode 0xF * 2048) in
    let e1 : f1 ≡ n1 * 2 ^ 11 =
      ap₂ bit_or (top_if h.qr) op4
      ∙ bit_or-fields 15 (to_ℕ h.qr) (h.opcode * 2048) (omega arith)
      ∙ omega arith in
    let e2 = set_if-sum h.aa 10 f1 n1 e1 in
    let e3 = set_if-sum h.tc 9 _ n2 e2 in
    let e4 = set_if-sum h.rd 8 _ n3 e3 in
    let e5 = set_if-sum h.ra 7 _ n4 e4 in
    let e6 = set_if-sum h.ad 5 _ (n5 * 2) (e5 ∙ omega arith) in
    let e7 = set_if-sum h.cd 4 _ n6 e6 in
    ap₂ bit_or e7 (bit_and-mod 4 h.rcode)
    ∙ bit_or-fields 4 n7 (h.rcode % 16) (omega arith)
    ∙ omega arith

-- A bit that is tested comes out as it was put in.
has_bit-eq : (b : Bool) (k f : ℕ) → f / 2 ^ k % 2 ≡ to_ℕ b → has_bit f (2 ^ k) ≡ b
has_bit-eq true k f e =
    let one : f / 2 ^ k % 2 * 2 ^ k ≡ 1 * 2 ^ k = ap (λ (t : ℕ). t * 2 ^ k) e in
    ground (arith, bit_and-bit k f, one, pow-pos k)
has_bit-eq false k f e =
    let none : f / 2 ^ k % 2 * 2 ^ k ≡ 0 * 2 ^ k = ap (λ (t : ℕ). t * 2 ^ k) e in
    ground (arith, bit_and-bit k f, none)

-- For an opcode below 16 the header comes back, but for the four bits that the rcode has on the wire.
pub parse_flags-encode_flags :
    (h : Header)
    → h.opcode < 16
    → parse_flags h.id (encode_flags h) ≡ record h { rcode = h.rcode % 16 }
unfolding parse_flags
parse_flags-encode_flags h op = rw (encode_flags-word h op) (
    let w = word h in
    let u0 = to_ℕ-le h.qr in
    let u1 = to_ℕ-le h.aa in
    let u2 = to_ℕ-le h.tc in
    let u3 = to_ℕ-le h.rd in
    let u4 = to_ℕ-le h.ra in
    let u5 = to_ℕ-le h.ad in
    let u6 = to_ℕ-le h.cd in
    let qr = has_bit-eq h.qr 15 w (omega arith) in
    let aa = has_bit-eq h.aa 10 w (omega arith) in
    let tc = has_bit-eq h.tc 9 w (omega arith) in
    let rd = has_bit-eq h.rd 8 w (omega arith) in
    let ra = has_bit-eq h.ra 7 w (omega arith) in
    let ad = has_bit-eq h.ad 5 w (omega arith) in
    let cd = has_bit-eq h.cd 4 w (omega arith) in
    let opcode : bit_and (w / 2048) 0xF ≡ h.opcode = omega (arith, bit_and-mod 4 (w / 2048)) in
    let rcode : bit_and w 0xF ≡ h.rcode % 16 = omega (arith, bit_and-mod 4 w) in
    λ i. record {
      id = h.id;
      qr = qr i;
      opcode = opcode i;
      aa = aa i;
      tc = tc i;
      rd = rd i;
      ra = ra i;
      ad = ad i;
      cd = cd i;
      rcode = rcode i;
    })

pub encode_flags-lt : (h : Header) → h.opcode < 16 → encode_flags h < 65536
encode_flags-lt h op = omega (
  arith,
  encode_flags-word h op,
  to_ℕ-le h.qr,
  to_ℕ-le h.aa,
  to_ℕ-le h.tc,
  to_ℕ-le h.rd,
  to_ℕ-le h.ra,
  to_ℕ-le h.ad,
  to_ℕ-le h.cd,
)
