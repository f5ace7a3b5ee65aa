-- ===== src/Proto/Parse.antt =====
-- `parse_rdata`, `read_record` and `Message::parse` of src/proto.rs.
use dnsd_rs.Base.{
  Bytes, Error, List, Option, Result, [], bit_and, bit_or, err, if◌then◌else◌, leb, length, ltb,
  none, not, ok, some, suc, zero, ℕ, ◌%◌, ◌*◌, ◌++◌, ◌+◌, ◌/◌, ◌==◌, ◌>>=◌, ◌^◌, ◌||◌, ◌∷◌,
}
use dnsd_rs.Proto.Cursor.{
  Cursor, be32, bytes, index, new_cursor, read_u16_at, read_u32_at, remaining, slice, u16, u32, u8,
}
use dnsd_rs.Proto.Flags.{parse_flags}
use dnsd_rs.Proto.Name.{read_name}
use dnsd_rs.Proto.Text.{Text}
use dnsd_rs.Proto.Types.{
  Header, Message, OptOption, Question, RData, Record, edns, type_a, type_aaaa, type_caa,
  type_cname, type_dname, type_mx, type_ns, type_nsec, type_opt, type_ptr, type_rrsig, type_soa,
  type_srv, type_txt, v6_octets,
}

-- The loop of TXT: the rounds are bounded by the bytes that remain, since each takes one at least.
unfoldable pub parse_txt : ℕ → Cursor → List Bytes → Result (List Bytes)
parse_txt zero c strings = ok strings
parse_txt (suc fuel) c strings =
    let round = (do
      (l, c1) ← u8 c
      (s, c2) ← bytes c1 l
      parse_txt fuel c2 (strings ++ (s ∷ []))) in
    if ltb 0 (remaining c) then round else ok strings

-- The loop of `parse_opt_rdata`; each round takes four bytes at least.
unfoldable pub parse_options : ℕ → Cursor → List OptOption → Result (List OptOption)
parse_options zero c options = ok options
parse_options (suc fuel) c options =
    let round = (do
      (code, c1) ← u16 c
      (len, c2) ← u16 c1
      (s, c3) ← bytes c2 len
      parse_options fuel c3 (options ++ (record { code = code; payload = s } ∷ []))) in
    if leb 4 (remaining c) then round else ok options

-- `parse_opt_rdata`
unfoldable pub parse_opt_rdata : Cursor → Result RData
parse_opt_rdata c = do
  options ← parse_options (remaining c) c []
  ok (RData.opt (record { udp_size = 0; ext_rcode = 0; version = 0; flags = 0; options = options }))

-- `u32::from_be_bytes([buf[p], buf[p + 1], buf[p + 2], buf[p + 3]])`
unfoldable pub index_u32 : Bytes → ℕ → Result ℕ
index_u32 buf p = do
  b0 ← index buf p
  b1 ← index buf (p + 1)
  b2 ← index buf (p + 2)
  b3 ← index buf (p + 3)
  ok (be32 b0 b1 b2 b3)

unfoldable pub parse_a : ℕ → Cursor → Result RData
parse_a len c = if not (len == 4) then err (Error.parse "A rdata len != 4") else (do
  (b, _) ← bytes c 4
  b0 ← index b 0
  b1 ← index b 1
  b2 ← index b 2
  b3 ← index b 3
  ok (RData.a (record { o0 = b0; o1 = b1; o2 = b2; o3 = b3 })))

unfoldable pub parse_aaaa : ℕ → Cursor → Result RData
parse_aaaa len c =
    if not (len == 16)
    then err (Error.parse "AAAA rdata len != 16")
    else (do (b, _) ← bytes c 16; ok (RData.aaaa (v6_octets b)))

unfoldable pub parse_caa : ⦃text : Text⦄ → Cursor → Result RData
parse_caa ⦃text⦄ c = do
  (flags, c1) ← u8 c
  (tag_len, c2) ← u8 c1
  (tag, c3) ← bytes c2 tag_len
  (value, _) ← bytes c3 (remaining c3)
  ok (RData.caa flags (text.from_utf8_lossy tag) value)

module _ ⦃text : Text⦄ (buf : Bytes) (start len : ℕ) where
  unfoldable pub parse_name : Result RData
  parse_name = do (n, _) ← read_name buf start; ok (RData.name n)

  unfoldable pub parse_mx : Cursor → Result RData
  parse_mx c = do
    (preference, _) ← u16 c
    (exchange, _) ← read_name buf (start + 2)
    ok (RData.mx preference exchange)

  unfoldable pub parse_soa : Result RData
  parse_soa = do
    (mname, p1) ← read_name buf start
    (rname, p2) ← read_name buf p1
    serial ← index_u32 buf p2
    refresh ← index_u32 buf (p2 + 4)
    retry ← index_u32 buf (p2 + 8)
    expire ← index_u32 buf (p2 + 12)
    minimum ← index_u32 buf (p2 + 16)
    ok (
        RData.soa (record {
          mname = mname;
          rname = rname;
          serial = serial;
          refresh = refresh;
          retry = retry;
          expire = expire;
          minimum = minimum;
        }))

  unfoldable pub parse_srv : Cursor → Result RData
  parse_srv c = do
    (priority, c1) ← u16 c
    (weight, c2) ← u16 c1
    (port, _) ← u16 c2
    (target, _) ← read_name buf (start + 6)
    ok (RData.srv priority weight port target)

  unfoldable pub parse_rrsig : Cursor → Result RData
  parse_rrsig c = do
    (type_covered, c1) ← u16 c
    (algorithm, c2) ← u8 c1
    (labels, c3) ← u8 c2
    (original_ttl, c4) ← u32 c3
    (expiration, c5) ← u32 c4
    (inception, c6) ← u32 c5
    (key_tag, _) ← u16 c6
    (signer_name, p) ← read_name buf (start + 18)
    signature ← slice buf p (start + len)
    ok (
        RData.rrsig (record {
          type_covered = type_covered;
          algorithm = algorithm;
          labels = labels;
          original_ttl = original_ttl;
          expiration = expiration;
          inception = inception;
          key_tag = key_tag;
          signer_name = signer_name;
          signature = signature;
        }))

  unfoldable pub parse_nsec : Result RData
  parse_nsec = do
    (next_domain, p) ← read_name buf start
    type_bitmaps ← slice buf p (start + len)
    ok (RData.nsec next_domain type_bitmaps)

  unfoldable pub parse_raw : Result RData
  parse_raw = do s ← slice buf start (start + len); ok (RData.raw s)

-- The arms of the `match` in `parse_rdata`.
pub data Layout : Type 0 where
  l_a l_aaaa l_name l_mx l_soa l_txt l_srv l_caa l_rrsig l_nsec l_opt l_raw : Layout

unfoldable pub layout : ℕ → Layout
layout t =
    if t == type_a
    then l_a
    else if t == type_aaaa
    then l_aaaa
    else if t == type_ns || t == type_cname || t == type_ptr || t == type_dname
    then l_name
    else if t == type_mx
    then l_mx
    else if t == type_soa
    then l_soa
    else if t == type_txt
    then l_txt
    else if t == type_srv
    then l_srv
    else if t == type_caa
    then l_caa
    else if t == type_rrsig
    then l_rrsig
    else if t == type_nsec
    then l_nsec
    else if t == type_opt
    then l_opt
    else l_raw

module _ ⦃text : Text⦄ where
  unfoldable pub parse_layout : Layout → Bytes → ℕ → ℕ → Cursor → Result RData
  parse_layout l_a buf start len c = parse_a len c
  parse_layout l_aaaa buf start len c = parse_aaaa len c
  parse_layout l_name buf start len c = parse_name buf start len
  parse_layout l_mx buf start len c = parse_mx buf start len c
  parse_layout l_soa buf start len c = parse_soa buf start len
  parse_layout l_txt buf start len c = do
    strings ← parse_txt (remaining c) c []
    ok (RData.txt strings)
  parse_layout l_srv buf start len c = parse_srv buf start len c
  parse_layout l_caa buf start len c = parse_caa c
  parse_layout l_rrsig buf start len c = parse_rrsig buf start len c
  parse_layout l_nsec buf start len c = parse_nsec buf start len
  parse_layout l_opt buf start len c = parse_opt_rdata c
  parse_layout l_raw buf start len c = parse_raw buf start len

  -- `parse_rdata`
  unfoldable pub parse_rdata : Bytes → ℕ → ℕ → ℕ → Result RData
  parse_rdata buf start len rtype = do
    s ← slice buf start (start + len)
    parse_layout (layout rtype) buf start len (new_cursor s)

  -- The end of `read_record`: the bound on the data, and its parse.
  unfoldable pub read_rdata : Bytes → ℕ → ℕ → ℕ → Result RData
  read_rdata buf rd_start rdlen rtype =
      if ltb (length buf) (rd_start + rdlen)
      then err (Error.parse "rdata past end")
      else parse_rdata buf rd_start rdlen rtype

  -- `read_record`: the record, and the value left in `*pos`.
  unfoldable pub read_record : Bytes → ℕ → Result (Record × ℕ)
  read_record buf pos = do
    (name, p1) ← read_name buf pos
    (rtype, p2) ← read_u16_at buf p1
    (class, p3) ← read_u16_at buf p2
    (ttl, p4) ← read_u32_at buf p3
    (rdlen, rd_start) ← read_u16_at buf p4
    rdata ← read_rdata buf rd_start rdlen rtype
    let r : Record = record { name = name; rtype = rtype; class = class; ttl = ttl; rdata = rdata }
    ok (r, rd_start + rdlen)

  -- One question of `Message::parse`.
  unfoldable pub read_question : Cursor → Result (Question × Cursor)
  read_question c = do
    (name, p) ← read_name c.buf c.pos
    (qtype, c1) ← u16 (record c { pos = p })
    (qclass, c2) ← u16 c1
    ok (record { name = name; qtype = qtype; qclass = qclass }, c2)

  unfoldable pub read_questions : ℕ → Cursor → Result (List Question × Cursor)
  read_questions zero c = ok ([], c)
  read_questions (suc n) c = do
    (q, c1) ← read_question c
    (qs, c2) ← read_questions n c1
    ok (q ∷ qs, c2)

-- The OPT header fields, from the class and the TTL (RFC 6891).
abbrev pub recover_fields : Record → RData → RData
recover_fields r (RData.opt o) =
    if r.rtype == type_opt
    then RData.opt (record {
      udp_size = r.class;
      ext_rcode = bit_and (r.ttl / 2 ^ 24) 0xFF;
      version = bit_and (r.ttl / 2 ^ 16) 0xFF;
      flags = bit_and r.ttl 0xFFFF;
      options = o.options;
    })
    else RData.opt o
recover_fields r d = d

unfoldable pub recover_opt : Record → Record
recover_opt r = record r { rdata = recover_fields r r.rdata }

-- `msg.header.rcode |= ext_rcode << 4`
abbrev pub fold_ext_rcode : Option Record → Header → Header
fold_ext_rcode none h = h
fold_ext_rcode (some r) h = elim r.rdata [
  | RData.opt o ↦ record h { rcode = bit_or h.rcode (o.ext_rcode * 16 % 256) }
  | _ ↦ h
]

module _ ⦃text : Text⦄ where
  unfoldable pub read_records : (Record → Record) → Bytes → ℕ → ℕ → Result (List Record × ℕ)
  read_records fix buf zero pos = ok ([], pos)
  read_records fix buf (suc n) pos = do
    (r, p1) ← read_record buf pos
    (rs, p2) ← read_records fix buf n p1
    ok (fix r ∷ rs, p2)

  -- The sections behind the header.
  unfoldable pub parse_body : Header → ℕ → ℕ → ℕ → ℕ → Cursor → Result Message
  parse_body header qd an ns ar c = do
    (questions, c1) ← read_questions qd c
    (answers, p1) ← read_records (λ r. r) c1.buf an c1.pos
    (authority, p2) ← read_records (λ r. r) c1.buf ns p1
    (additional, p3) ← read_records recover_opt c1.buf ar p2
    let m : Message = record {
      header = header;
      questions = questions;
      answers = answers;
      authority = authority;
      additional = additional;
    }
    ok (record m { header = fold_ext_rcode (edns m) header })

  -- `Message::parse`
  unfoldable pub parse_message : Bytes → Result Message
  parse_message buf =
      let c = new_cursor buf in
      if ltb (remaining c) 12 then err (Error.parse "message shorter than header") else (do
        (id, c1) ← u16 c
        (flags, c2) ← u16 c1
        (qd, c3) ← u16 c2
        (an, c4) ← u16 c3
        (ns, c5) ← u16 c4
        (ar, c6) ← u16 c5
        parse_body (parse_flags id flags) qd an ns ar c6)
