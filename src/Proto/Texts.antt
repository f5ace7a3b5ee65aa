-- ===== src/Proto/Texts.antt =====
-- The texts that src/proto.rs has for types and rcodes.
use dnsd_rs.Base.{
  Bytes, Option, bytes_eq, codes, decimal_fuel, if◌then◌else◌, none, some, ℕ, ◌++◌, ◌==◌,
}

-- `type_to_string`
unfoldable pub type_to_string : ℕ → Bytes
type_to_string t =
    if t == 1
    then codes "A"
    else if t == 2
    then codes "NS"
    else if t == 5
    then codes "CNAME"
    else if t == 6
    then codes "SOA"
    else if t == 12
    then codes "PTR"
    else if t == 15
    then codes "MX"
    else if t == 16
    then codes "TXT"
    else if t == 28
    then codes "AAAA"
    else if t == 33
    then codes "SRV"
    else if t == 39
    then codes "DNAME"
    else if t == 41
    then codes "OPT"
    else if t == 43
    then codes "DS"
    else if t == 46
    then codes "RRSIG"
    else if t == 47
    then codes "NSEC"
    else if t == 48
    then codes "DNSKEY"
    else if t == 50
    then codes "NSEC3"
    else if t == 257
    then codes "CAA"
    else codes "TYPE" ++ decimal_fuel 5 t

-- `type_from_string`, of a text in upper case.
unfoldable type_of_upper : Bytes → Option ℕ
type_of_upper s =
    if bytes_eq s (codes "A")
    then some 1
    else if bytes_eq s (codes "NS")
    then some 2
    else if bytes_eq s (codes "CNAME")
    then some 5
    else if bytes_eq s (codes "SOA")
    then some 6
    else if bytes_eq s (codes "PTR")
    then some 12
    else if bytes_eq s (codes "MX")
    then some 15
    else if bytes_eq s (codes "TXT")
    then some 16
    else if bytes_eq s (codes "AAAA")
    then some 28
    else if bytes_eq s (codes "SRV")
    then some 33
    else if bytes_eq s (codes "DNAME")
    then some 39
    else if bytes_eq s (codes "DS")
    then some 43
    else if bytes_eq s (codes "RRSIG")
    then some 46
    else if bytes_eq s (codes "NSEC")
    then some 47
    else if bytes_eq s (codes "DNSKEY")
    then some 48
    else if bytes_eq s (codes "NSEC3")
    then some 50
    else if bytes_eq s (codes "CAA")
    then some 257
    else none

-- `type_from_string`, given `str::to_uppercase`.
unfoldable type_from_string : (Bytes → Bytes) → Bytes → Option ℕ
unfolding type_of_upper
type_from_string to_uppercase s = type_of_upper (to_uppercase s)

-- `rcode_to_string`
unfoldable pub rcode_to_string : ℕ → Bytes
rcode_to_string rc =
    if rc == 0
    then codes "NOERROR"
    else if rc == 1
    then codes "FORMERR"
    else if rc == 2
    then codes "SERVFAIL"
    else if rc == 3
    then codes "NXDOMAIN"
    else if rc == 4
    then codes "NOTIMP"
    else if rc == 5
    then codes "REFUSED"
    else codes "RCODE" ++ decimal_fuel 3 rc
