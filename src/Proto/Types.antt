-- ===== src/Proto/Types.antt =====
-- The message model of src/proto.rs. A name is the UTF-8 bytes of its String; every integer field
-- is a native number, and an IPv6 address is its 16 octets.
use dnsd_rs.Base.{
  Bool, Bytes, List, Option, [], bit_and, false, find, head?, none, not, some, ℕ, ◌==◌,
}

abbrev pub type_a : ℕ
type_a = 1

abbrev pub type_ns : ℕ
type_ns = 2

abbrev pub type_cname : ℕ
type_cname = 5

abbrev pub type_soa : ℕ
type_soa = 6

abbrev pub type_ptr : ℕ
type_ptr = 12

abbrev pub type_mx : ℕ
type_mx = 15

abbrev pub type_txt : ℕ
type_txt = 16

abbrev pub type_aaaa : ℕ
type_aaaa = 28

abbrev pub type_srv : ℕ
type_srv = 33

abbrev pub type_dname : ℕ
type_dname = 39

abbrev pub type_opt : ℕ
type_opt = 41

abbrev pub type_rrsig : ℕ
type_rrsig = 46

abbrev pub type_nsec : ℕ
type_nsec = 47

abbrev pub type_caa : ℕ
type_caa = 257

abbrev pub class_in : ℕ
class_in = 1

abbrev pub rcode_noerror : ℕ
rcode_noerror = 0

abbrev pub rcode_servfail : ℕ
rcode_servfail = 2

abbrev pub rcode_nxdomain : ℕ
rcode_nxdomain = 3

abbrev pub rcode_refused : ℕ
rcode_refused = 5

abbrev pub edns_opt_ecs : ℕ
edns_opt_ecs = 8

pub record Ipv4Addr : Type 0 where
  pub o0 : ℕ
  pub o1 : ℕ
  pub o2 : ℕ
  pub o3 : ℕ

pub data Ipv6Addr : Type 0 where
  v6_octets : Bytes → Ipv6Addr

pub data IpAddr : Type 0 where
  v4 : Ipv4Addr → IpAddr
  v6 : Ipv6Addr → IpAddr

pub record Header : Type 0 where
  pub id : ℕ
  pub qr : Bool
  pub opcode : ℕ
  pub aa : Bool
  pub tc : Bool
  pub rd : Bool
  pub ra : Bool
  pub ad : Bool
  pub cd : Bool
  pub rcode : ℕ

pub record Question : Type 0 where
  pub name : Bytes
  pub qtype : ℕ
  pub qclass : ℕ

pub record OptOption : Type 0 where
  pub code : ℕ
  pub payload : Bytes

pub record Soa : Type 0 where
  pub mname : Bytes
  pub rname : Bytes
  pub serial : ℕ
  pub refresh : ℕ
  pub retry : ℕ
  pub expire : ℕ
  pub minimum : ℕ

pub record Rrsig : Type 0 where
  pub type_covered : ℕ
  pub algorithm : ℕ
  pub labels : ℕ
  pub original_ttl : ℕ
  pub expiration : ℕ
  pub inception : ℕ
  pub key_tag : ℕ
  pub signer_name : Bytes
  pub signature : Bytes

pub record Opt : Type 0 where
  pub udp_size : ℕ
  pub ext_rcode : ℕ
  pub version : ℕ
  pub flags : ℕ
  pub options : List OptOption

pub data RData : Type 0 where
  a : Ipv4Addr → RData
  aaaa : Ipv6Addr → RData
  name : Bytes → RData
  mx : (preference : ℕ) → (exchange : Bytes) → RData
  soa : Soa → RData
  txt : List Bytes → RData
  srv : (priority weight port : ℕ) → (target : Bytes) → RData
  caa : (flags : ℕ) → (tag value : Bytes) → RData
  rrsig : Rrsig → RData
  nsec : (next_domain type_bitmaps : Bytes) → RData
  raw : Bytes → RData
  opt : Opt → RData

pub record Record : Type 0 where
  pub name : Bytes
  pub rtype : ℕ
  pub class : ℕ
  pub ttl : ℕ
  pub rdata : RData

pub record Message : Type 0 where
  pub header : Header
  pub questions : List Question
  pub answers : List Record
  pub authority : List Record
  pub additional : List Record

-- `Header::default()` and `Message::default()`
abbrev pub default_header : Header
default_header = record {
  id = 0;
  qr = false;
  opcode = 0;
  aa = false;
  tc = false;
  rd = false;
  ra = false;
  ad = false;
  cd = false;
  rcode = 0;
}

abbrev pub default_message : Message
default_message = record {
  header = default_header;
  questions = [];
  answers = [];
  authority = [];
  additional = [];
}

-- `Message::edns`
unfoldable pub edns : Message → Option Record
edns m = find (λ r. r.rtype == type_opt) m.additional

-- `Message::question`
unfoldable pub question : Message → Option Question
question m = head? m.questions

-- `Message::dnssec_ok`
opt_flags_ok : RData → Bool
opt_flags_ok (opt o) = not (bit_and o.flags 0x8000 == 0)
opt_flags_ok _ = false

unfoldable dnssec_ok : Message → Bool
unfolding opt_flags_ok edns
dnssec_ok m = elim (edns m) [ none ↦ false | some r ↦ opt_flags_ok r.rdata ]
