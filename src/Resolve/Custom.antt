-- ===== src/Resolve/Custom.antt =====
-- src/resolve/custom.rs: answers out of the operator's own zones. A map from names to records is an
-- association list, in the order in which the loop of `find_zone` meets it.
pub mod Laws
pub mod Longest
use dnsd_rs.Base.{
  Bool, Bytes, List, Option, [], bytes_eq, ends_with, if◌then◌else◌, length, ltb, none, not, some,
  true, ℕ, ◌&&◌, ◌++◌, ◌||◌, ◌∷◌,
}
use dnsd_rs.Proto.Text.{Text, canonical_name}
use dnsd_rs.Proto.Types.{
  Message, Question, RData, Record, class_in, default_header, default_message, rcode_noerror,
  rcode_nxdomain, type_cname,
}
use dnsd_rs.Resolve.Dualstack.{AddrText}
use dnsd_rs.Resolve.ZoneRecords.{ZoneRecord, build_record, label_cname, owner_name, type_label}

-- The fields of a zone that the index reads.
pub record Zone : Type 0 where
  pub id : Bytes
  pub name : Bytes
  pub enabled : Bool

-- `ZoneIndex`
abbrev pub ZoneIndex : Type 0
ZoneIndex = List (Bytes × List ZoneRecord)

-- `id_to_name`: a later zone with the same id replaces an earlier one.
unfoldable zone_name : Bytes → List Zone → Option Bytes
zone_name id [] = none
zone_name id (z ∷ zs) = elim (zone_name id zs) [
  | some n ↦ some n
  | none ↦ if bytes_eq z.id id then some z.name else none
]

-- `by_zone.entry(name).or_default().push(r)`
unfoldable push_record : Bytes → ZoneRecord → ZoneIndex → ZoneIndex
push_record n r [] = (n, r ∷ []) ∷ []
push_record n r (x ∷ xs) =
    if bytes_eq x.0 n then (x.0, x.1 ++ (r ∷ [])) ∷ xs else x ∷ push_record n r xs

-- `make_response`
abbrev make_response : Question → List Record → ℕ → Message
make_response q answers rcode = record default_message {
  header = record default_header { qr = true; aa = true; rd = true; ra = true; rcode = rcode };
  questions = q ∷ [];
  answers = answers;
}

-- The test of `find_zone`: a longer zone than the best one so far.
abbrev pub is_longer_zone : Bytes → Option (Bytes × List ZoneRecord) → Bool
is_longer_zone zone none = true
is_longer_zone zone (some best) = ltb (length best.0) (length zone)

unfoldable pub find_loop :
    Bytes → Option (Bytes × List ZoneRecord) → ZoneIndex → Option (Bytes × List ZoneRecord)
find_loop n best [] = best
find_loop n best (x ∷ xs) =
    find_loop n
      (if (bytes_eq n x.0 || ends_with n x.0) && is_longer_zone x.0 best then some x else best) xs

-- `push` of an optional record.
abbrev push_some : Option Record → List Record → List Record
push_some none rs = rs
push_some (some r) rs = rs ++ (r ∷ [])

module _ ⦃text : Text⦄ where
  -- The loop of `ZoneIndex::new` over the records, and the whole of it.
  unfoldable index_records : List Zone → List ZoneRecord → ZoneIndex → ZoneIndex
  unfolding zone_name push_record
  index_records zs [] t = t
  index_records zs (r ∷ rs) t =
      index_records zs rs
        (elim (zone_name r.zone_id zs) [ none ↦ t | some n ↦ push_record (canonical_name n) r t ])

  unfoldable pub new_index : List Zone → List ZoneRecord → ZoneIndex
  unfolding index_records
  new_index zs rs = index_records zs rs []

  -- `find_zone`
  unfoldable pub find_zone : Bytes → ZoneIndex → Option (Bytes × List ZoneRecord)
  unfolding find_loop
  find_zone qname t = find_loop (canonical_name qname) none t

module _ ⦃text : Text⦄ ⦃addr_text : AddrText⦄ (parse_u16 : Bytes → Option ℕ)
    (split_whitespace : Bytes → List Bytes) where
  -- The first loop of `respond`: the answers, and the target of the first CNAME.
  unfoldable pub own_loop :
      Bytes → Bytes → ℕ → List Record × Option Bytes → List ZoneRecord → List Record × Option Bytes
  unfolding owner_name build_record type_label
  own_loop zone qname qtype state [] = state
  own_loop zone qname qtype state (r ∷ rs) =
      let cname =
        if bytes_eq r.rtype label_cname
        then elim state.1 [ none ↦ some (canonical_name r.value) | some c ↦ some c ]
        else state.1 in
      let answers =
        if bytes_eq r.rtype (type_label qtype)
        then push_some (build_record parse_u16 split_whitespace qname r) state.0
        else state.0 in
      own_loop zone qname qtype
        (if not (bytes_eq (owner_name r zone) qname) then state else (answers, cname)) rs

  -- The wildcard loop of `respond`.
  unfoldable pub star_loop : Bytes → ℕ → List Record → List ZoneRecord → List Record
  unfolding build_record type_label
  star_loop qname qtype answers [] = answers
  star_loop qname qtype answers (r ∷ rs) =
      star_loop qname qtype
        (if bytes_eq r.name (b'*' ∷ []) && bytes_eq r.rtype (type_label qtype)
          then push_some (build_record parse_u16 split_whitespace qname r) answers
          else answers)
        rs

  -- The end of `respond`: wildcard records, or an authoritative NXDOMAIN.
  abbrev pub respond_star : Question → List Record → Message
  respond_star q [] = make_response q [] rcode_nxdomain
  respond_star q (r ∷ rs) = make_response q (r ∷ rs) rcode_noerror

  -- `respond` behind the first loop.
  abbrev pub respond_own : Question → Bytes → List ZoneRecord → List Record → Option Bytes → Message
  respond_own q qname recs (r ∷ rs) cname = make_response q (r ∷ rs) rcode_noerror
  respond_own q qname recs [] (some target) =
      make_response q
        (record {
          name = qname;
          rtype = type_cname;
          class = class_in;
          ttl = 300;
          rdata = RData.name target;
        }
          ∷ [])
        rcode_noerror
  respond_own q qname recs [] none = respond_star q (star_loop qname q.qtype [] recs)

  -- `ZoneIndex::respond`
  unfoldable pub respond_zone : Question → ZoneIndex → Option Message
  unfolding find_zone own_loop star_loop
  respond_zone q t = elim (find_zone q.name t) [
    | none ↦ none
    | some (zone, recs) ↦
        let qname = canonical_name q.name in
        let own = own_loop zone qname q.qtype ([], none) recs in
        some (respond_own q qname recs own.0 own.1)
  ]
