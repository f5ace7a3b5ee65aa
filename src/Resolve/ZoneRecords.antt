-- ===== src/Resolve/ZoneRecords.antt =====
-- The rows of zones in src/model.rs and src/resolve/custom.rs, as records of an answer. The parsers of
-- the standard library and `split_whitespace` are parameters.
use mathlib.Core.Option
use dnsd_rs.Base.{
  Bool, Bytes, List, Option, [], bytes_eq, dot, if◌then◌else◌, none, some, trim_end_dots, ℕ, ◌++◌,
  ◌==◌, ◌||◌, ◌∷◌,
}
use dnsd_rs.Proto.Text.{Text, canonical_name}
use dnsd_rs.Proto.Types.{RData, Record, class_in}
use dnsd_rs.Resolve.Dualstack.{AddrText}

-- The fields of a row that the index and its answers read.
pub record ZoneRecord : Type 0 where
  pub id : Bytes
  pub zone_id : Bytes
  pub name : Bytes
  pub rtype : Bytes
  pub value : Bytes
  pub ttl : ℕ
  pub priority : ℕ
  pub enabled : Bool

-- The record types by their names.
abbrev pub label_a : Bytes
label_a = b'A' ∷ []

abbrev label_aaaa : Bytes
label_aaaa = b'A' ∷ b'A' ∷ b'A' ∷ b'A' ∷ []

abbrev pub label_cname : Bytes
label_cname = b'C' ∷ b'N' ∷ b'A' ∷ b'M' ∷ b'E' ∷ []

abbrev label_txt : Bytes
label_txt = b'T' ∷ b'X' ∷ b'T' ∷ []

abbrev label_mx : Bytes
label_mx = b'M' ∷ b'X' ∷ []

abbrev label_ns : Bytes
label_ns = b'N' ∷ b'S' ∷ []

abbrev label_srv : Bytes
label_srv = b'S' ∷ b'R' ∷ b'V' ∷ []

abbrev label_caa : Bytes
label_caa = b'C' ∷ b'A' ∷ b'A' ∷ []

abbrev label_ptr : Bytes
label_ptr = b'P' ∷ b'T' ∷ b'R' ∷ []

abbrev label_dname : Bytes
label_dname = b'D' ∷ b'N' ∷ b'A' ∷ b'M' ∷ b'E' ∷ []

-- `type_label`
unfoldable pub type_label : ℕ → Bytes
type_label qtype =
    if qtype == 1
    then label_a
    else if qtype == 28
    then label_aaaa
    else if qtype == 5
    then label_cname
    else if qtype == 16
    then label_txt
    else if qtype == 15
    then label_mx
    else if qtype == 2
    then label_ns
    else if qtype == 33
    then label_srv
    else if qtype == 257
    then label_caa
    else []

-- The types that `build_record` takes.
unfoldable type_number : Bytes → Option ℕ
type_number s =
    if bytes_eq s label_a
    then some 1
    else if bytes_eq s label_aaaa
    then some 28
    else if bytes_eq s label_cname
    then some 5
    else if bytes_eq s label_txt
    then some 16
    else if bytes_eq s label_mx
    then some 15
    else if bytes_eq s label_ns
    then some 2
    else if bytes_eq s label_srv
    then some 33
    else if bytes_eq s label_caa
    then some 257
    else none

module _ ⦃text : Text⦄ where
  -- `owner_name`
  unfoldable pub owner_name : ZoneRecord → Bytes → Bytes
  owner_name r zone =
      let z = trim_end_dots zone in
      if bytes_eq r.name (b'@' ∷ [])
      then canonical_name z
      else canonical_name (trim_end_dots r.name ++ (dot ∷ z))

module _ ⦃text : Text⦄ ⦃addr_text : AddrText⦄ (parse_u16 : Bytes → Option ℕ)
    (split_whitespace : Bytes → List Bytes) where
  -- The SRV and CAA branches of `type_to_rdata`.
  abbrev srv_data : List Bytes → Option RData
  srv_data (p ∷ w ∷ q ∷ t ∷ []) = elim (parse_u16 p) [
    | none ↦ none
    | some priority ↦ elim (parse_u16 w) [
      | none ↦ none
      | some weight ↦ elim (parse_u16 q) [
        | none ↦ none
        | some port ↦ some (RData.srv priority weight port (canonical_name t))
      ]
    ]
  ]
  srv_data _ = none

  abbrev join_spaces : List Bytes → Bytes
  join_spaces [] = []
  join_spaces (s ∷ []) = s
  join_spaces (s ∷ t ∷ ts) = s ++ (b' ' ∷ join_spaces (t ∷ ts))

  abbrev caa_data : List Bytes → RData
  caa_data [] = RData.caa 0 [] []
  caa_data (tag ∷ rest) = RData.caa 0 tag (join_spaces rest)

  -- `ZoneRecord::type_to_rdata`
  unfoldable type_to_rdata : ZoneRecord → Option RData
  type_to_rdata r =
      if bytes_eq r.rtype label_a
      then Option.map RData.a (addr_text.parse_v4 r.value)
      else if bytes_eq r.rtype label_aaaa
      then Option.map RData.aaaa (addr_text.parse_v6 r.value)
      else if bytes_eq r.rtype label_cname
          || bytes_eq r.rtype label_ns
          || bytes_eq r.rtype label_ptr
          || bytes_eq r.rtype label_dname
      then some (RData.name (canonical_name r.value))
      else if bytes_eq r.rtype label_txt
      then some (RData.txt (r.value ∷ []))
      else if bytes_eq r.rtype label_mx
      then some (RData.mx r.priority (canonical_name r.value))
      else if bytes_eq r.rtype label_srv
      then srv_data (split_whitespace r.value)
      else if bytes_eq r.rtype label_caa
      then some (caa_data (split_whitespace r.value))
      else none

  -- `build_record`
  unfoldable pub build_record : Bytes → ZoneRecord → Option Record
  unfolding type_to_rdata type_number
  build_record owner r = elim (type_to_rdata r) [
    | none ↦ none
    | some d ↦ elim (type_number r.rtype) [
      | none ↦ none
      | some t ↦ some (record { name = owner; rtype = t; class = class_in; ttl = r.ttl; rdata = d })
    ]
  ]
