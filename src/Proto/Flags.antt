-- ===== src/Proto/Flags.antt =====
-- The flag word of the header: its decoding in `Message::parse`, its encoding in `Message::encode`.
pub mod RoundTrip
use dnsd_rs.Base.{Bool, bit_and, bit_or, if◌then◌else◌, not, ℕ, ◌*◌, ◌/◌, ◌==◌}
use dnsd_rs.Proto.Types.{Header}

-- `flags & mask != 0`
abbrev pub has_bit : ℕ → ℕ → Bool
has_bit flags mask = not (bit_and flags mask == 0)

-- The header that `Message::parse` builds.
unfoldable pub parse_flags : ℕ → ℕ → Header
parse_flags id flags = record {
  id = id;
  qr = has_bit flags 0x8000;
  opcode = bit_and (flags / 2048) 0xF;
  aa = has_bit flags 0x0400;
  tc = has_bit flags 0x0200;
  rd = has_bit flags 0x0100;
  ra = has_bit flags 0x0080;
  ad = has_bit flags 0x0020;
  cd = has_bit flags 0x0010;
  rcode = bit_and flags 0xF;
}

-- `if b { flags |= mask; }`
abbrev pub set_if : Bool → ℕ → ℕ → ℕ
set_if b mask flags = if b then bit_or flags mask else flags

-- The flag word that `Message::encode` writes.
unfoldable pub encode_flags : Header → ℕ
encode_flags h =
    let f0 = set_if h.qr 0x8000 0 in
    let f1 = bit_or f0 (bit_and h.opcode 0xF * 2048) in
    let f2 = set_if h.aa 0x0400 f1 in
    let f3 = set_if h.tc 0x0200 f2 in
    let f4 = set_if h.rd 0x0100 f3 in
    let f5 = set_if h.ra 0x0080 f4 in
    let f6 = set_if h.ad 0x0020 f5 in
    let f7 = set_if h.cd 0x0010 f6 in bit_or f7 (bit_and h.rcode 0xF)
