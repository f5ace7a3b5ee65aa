-- ===== src/Proto/Queries.antt =====
-- `build_query` makes messages that survive the wire, with their client subnet; `EcsInfo` round trip;
-- `strip_ecs` and `echo_ecs`.
use dnsd_rs.Base.{
  All, Bool-cases, Bytes, List, Option, [], ap, append-nil, arith, dot, find, inl, inr, length,
  length-append, le→leb, map, none, not, ok, refl, retain, some, subst, sym, take, take-length,
  true, ℕ, ◌==◌, ◌∙◌, ◌∷◌, ◌≡◌, ◌≤◌,
}
use dnsd_rs.Proto.Data.{IsU16}
use dnsd_rs.Proto.Ecs.{EcsInfo, decode_address, decode_ecs, ecs, encode_ecs, first_ecs, opt_ecs}
use dnsd_rs.Proto.Edns.{add_edns, build_query, is_ecs, strip_ecs, strip_rdata, strip_record}
use dnsd_rs.Proto.Encode.{encode_message, encode_options}
use dnsd_rs.Proto.Name.RoundTrip.{IsName}
use dnsd_rs.Proto.Parse.{parse_message}
use dnsd_rs.Proto.Reads.{be16-bytes}
use dnsd_rs.Proto.RoundTrip.{IsWireOpt}
use dnsd_rs.Proto.RoundTrip.Messages.{IsWireMessage, on_wire, parse_message-encode_message}
use dnsd_rs.Proto.Text.{Text, canonical_name}
use dnsd_rs.Proto.Types.{
  IpAddr, Ipv4Addr, Message, OptOption, RData, Record, class_in, edns, edns_opt_ecs, type_opt,
  v6_octets,
}

-- An option that `EcsInfo::encode` writes in a form that `decode` takes: the family fits the address.
pub data IsWireEcs : EcsInfo → Type 0 where
  with_v4 :
      (source scope : ℕ) (ip : Ipv4Addr)
      → IsWireEcs (record {
        family = 1;
        source_prefix = source;
        scope_prefix = scope;
        address = some (IpAddr.v4 ip);
      })
  with_v6 :
      (source scope : ℕ) (s : Bytes)
      → length s ≡ 16
      → IsWireEcs (record {
        family = 2;
        source_prefix = source;
        scope_prefix = scope;
        address = some (IpAddr.v6 (v6_octets s));
      })
  without :
      (family source scope : ℕ)
      → IsU16 family
      → IsWireEcs
          (record { family = family; source_prefix = source; scope_prefix = scope; address = none })

-- An option whose family fits its address is decoded to what was encoded.
decode_ecs-encode_ecs : {e : EcsInfo} → IsWireEcs e → decode_ecs (encode_ecs e) ≡ e
unfolding decode_ecs encode_ecs
decode_ecs-encode_ecs (with_v4 source scope ip) = refl
decode_ecs-encode_ecs (with_v6 source scope s sixteen) =
    let all : take 16 s ≡ s =
      subst (λ k. take k s ≡ s) sixteen
        (ap (take (length s)) (sym (append-nil s)) ∙ take-length s []) in
    rw (sixteen, all) refl
decode_ecs-encode_ecs (without family source scope h) =
    let none_there : decode_address family [] ≡ none = ground arith in
    rw (be16-bytes family h, none_there) refl

length-encode_ecs :
    {e : EcsInfo} → IsWireEcs e → (4 ≤ length (encode_ecs e)) × (length (encode_ecs e) ≤ 20)
unfolding encode_ecs
length-encode_ecs (with_v4 source scope ip) = omega arith
length-encode_ecs (with_v6 source scope s h) = omega arith
length-encode_ecs (without family source scope h) = omega arith

-- The option of a query carries an ECS option that can be read.
abbrev FitsEcs : Option EcsInfo → Type 0
FitsEcs none = Unit
FitsEcs (some e) = IsWireEcs e

module _ ⦃text : Text⦄ where
  -- The record that `add_edns` appends.
  opt_fits :
      (info : Option EcsInfo)
      → FitsEcs info
      → IsWireOpt (record {
        name = dot ∷ [];
        rtype = type_opt;
        class = 1232;
        ttl = 0;
        rdata = RData.opt (record {
          udp_size = 1232;
          ext_rcode = 0;
          version = 0;
          flags = 0;
          options = elim info [
            | none ↦ []
            | some e ↦ record { code = edns_opt_ecs; payload = encode_ecs e } ∷ []
          ];
        });
      })
  unfolding encode_options
  opt_fits info fits = record {
    fields = _;
    named = record { labels = []; text_eq = refl; good = tt; few = omega arith };
    is_opt = refl;
    is_data = refl;
    size_eq = refl;
    ttl_eq = refl;
    size_fits = omega arith;
    ext_rcode_fits = omega arith;
    version_fits = omega arith;
    flags_fits = omega arith;
    options_fit = options info fits;
    short = payload info fits;
  }
    where
      options :
          (info : Option EcsInfo)
          → FitsEcs info
          → All
              (λ o. IsU16 o.code × IsU16 (length o.payload))
              (elim info as (λ x. List OptOption) [
                | none ↦ []
                | some e ↦ record { code = edns_opt_ecs; payload = encode_ecs e } ∷ []
              ])
      options none fits = tt
      options (some e) fits = ((omega arith, omega (arith, length-encode_ecs fits)), tt)

      payload :
          (info : Option EcsInfo)
          → FitsEcs info
          → IsU16 (
              length (
                encode_options (elim info as (λ x. List OptOption) [
                  | none ↦ []
                  | some e ↦ record { code = edns_opt_ecs; payload = encode_ecs e } ∷ []
                ])))
      payload none fits = omega arith
      payload (some e) fits = omega (arith, length-append (encode_ecs e) [], length-encode_ecs fits)

  -- A query for a canonical name is in wire form.
  pub build_query-IsWireMessage :
      (name : Bytes) (qtype id : ℕ) (info : Option EcsInfo)
      → IsName (canonical_name name)
      → IsU16 qtype
      → IsU16 id
      → FitsEcs info
      → IsWireMessage (build_query name qtype id info)
  unfolding build_query add_edns
  build_query-IsWireMessage name qtype id info named hq hid fits = record {
    id_fits = hid;
    opcode_fits = omega arith;
    questions_fit = (record { named = named; qtype_fits = hq; qclass_fits = omega arith }, tt);
    answers_fit = tt;
    authority_fit = tt;
    additional_fit = (inr (opt_fits info fits), tt);
    few_questions = omega arith;
    few_answers = omega arith;
    few_authority = omega arith;
    few_additional = omega arith;
  }

  ecs-build_query :
      (name : Bytes) (qtype id : ℕ) (e : EcsInfo)
      → IsWireEcs e
      → ecs (on_wire (build_query name qtype id (some e))) ≡ some e
  unfolding ecs edns build_query add_edns first_ecs
  ecs-build_query name qtype id e h =
      rw (le→leb 4 (length (encode_ecs e)) (length-encode_ecs h).0, decode_ecs-encode_ecs h) refl

  -- What a server sees that parses the bytes of a query for a canonical name, with fields in range and a
  -- client subnet that fits: the id, the flag RD, the question, and the subnet.
  pub parse_message-build_query :
      (name : Bytes) (qtype id : ℕ) (e : EcsInfo)
      → IsName (canonical_name name)
      → IsU16 qtype
      → IsU16 id
      → IsWireEcs e
      → (s : Bytes) × (m : Message) × (encode_message (build_query name qtype id (some e)) ≡ ok s)
        × (parse_message s ≡ ok m)
        × (m.header.id ≡ id)
        × (m.header.rd ≡ true)
        × (m.questions
            ≡ record { name = canonical_name name; qtype = qtype; qclass = class_in } ∷ [])
        × (ecs m ≡ some e)
  parse_message-build_query name qtype id e named hq hid h =
      let q = build_query name qtype id (some e) in
      let (s, wrote, parsed) =
        parse_message-encode_message q
          (build_query-IsWireMessage name qtype id (some e) named hq hid h) in
      (s, on_wire q, wrote, parsed, same.0, same.1, same.2, ecs-build_query name qtype id e h)
    where
      same :
          ((on_wire (build_query name qtype id (some e))).header.id ≡ id)
          × ((on_wire (build_query name qtype id (some e))).header.rd ≡ true)
          × ((on_wire (build_query name qtype id (some e))).questions
              ≡ record { name = canonical_name name; qtype = qtype; qclass = class_in } ∷ [])
      same = unfold build_query add_edns edns in (refl, refl, refl)

-- After `strip_ecs` no client subnet is found.
strip-first_ecs : (os : List OptOption) → first_ecs (retain (λ x. not (is_ecs x)) os) ≡ none
unfolding first_ecs
strip-first_ecs [] = refl
strip-first_ecs (o ∷ os) = ground (arith, strip-first_ecs os)

strip-opt_ecs : (d : RData) → opt_ecs (strip_rdata d) ≡ none
strip-opt_ecs (RData.opt o) = strip-first_ecs o.options
strip-opt_ecs (RData.a ip) = refl
strip-opt_ecs d = refl

-- `strip_ecs` leaves no client subnet to be found, in any message.
ecs-strip_ecs : (m : Message) → ecs (strip_ecs m) ≡ none
unfolding ecs strip_ecs edns
ecs-strip_ecs m = go m.additional
  where
    go :
        (rs : List Record)
        → elim (find (λ r. r.rtype == type_opt) (map strip_record rs)) as (λ _. Option EcsInfo) [
          | none ↦ none
          | some r ↦ opt_ecs r.rdata
        ]
          ≡ none
    go [] = refl
    go (r ∷ rs) = elim (Bool-cases (r.rtype == type_opt)) [
      | inl is_opt ↦ rw (is_opt, is_opt) (strip-opt_ecs r.rdata)
      | inr other ↦ rw (other, other) (go rs)
    ]
