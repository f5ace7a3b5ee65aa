-- ===== src/Proto/RoundTrip.antt =====
-- Records and whole messages: `Message::parse` after `Message::encode`.
pub mod Records
pub mod Messages
use dnsd_rs.Base.{All, Bytes, bit_or, length, ok, ℕ, ◌*◌, ◌<◌, ◌^◌, ◌≡◌}
use dnsd_rs.Proto.Data.{IsU16, IsU32, IsWireData}
use dnsd_rs.Proto.Encode.{encode_options, encode_rdata}
use dnsd_rs.Proto.Name.RoundTrip.{IsName}
use dnsd_rs.Proto.Parse.{layout}
use dnsd_rs.Proto.Text.{Text}
use dnsd_rs.Proto.Types.{Opt, RData, Record, type_opt}

-- A record that is not OPT, in the form in which it is read: fields in range, the name canonical,
-- the data of the layout that its type has, at most 65535 bytes of it.
pub record IsWireRecord ⦃text : Text⦄ (r : Record) : Type 0 where
  pub named : IsName r.name
  pub rtype_fits : IsU16 r.rtype
  pub class_fits : IsU16 r.class
  pub ttl_fits : IsU32 r.ttl
  pub layout_fits : IsWireData (layout r.rtype) r.rdata
  pub short : (s : Bytes) → encode_rdata r.rdata ≡ ok s → IsU16 (length s)

-- The TTL field of an OPT record.
abbrev pub opt_ttl : Opt → ℕ
opt_ttl o = bit_or (bit_or (o.ext_rcode * 2 ^ 24) (o.version * 2 ^ 16)) o.flags

-- An OPT record whose class and TTL repeat the fields of its data, as they do after a parse.
pub record IsWireOpt (r : Record) : Type 0 where
  pub fields : Opt
  pub named : IsName r.name
  pub is_opt : r.rtype ≡ type_opt
  pub is_data : r.rdata ≡ RData.opt fields
  pub size_eq : r.class ≡ fields.udp_size
  pub ttl_eq : r.ttl ≡ opt_ttl fields
  pub size_fits : IsU16 fields.udp_size
  pub ext_rcode_fits : fields.ext_rcode < 256
  pub version_fits : fields.version < 256
  pub flags_fits : IsU16 fields.flags
  pub options_fit : All (λ o. IsU16 o.code × IsU16 (length o.payload)) fields.options
  pub short : IsU16 (length (encode_options fields.options))
