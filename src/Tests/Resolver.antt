-- ===== src/Tests/Resolver.antt =====
use dnsd_rs.Base.{
  Bytes, Error, Result, [], ap, arith, dot, err, if◌then◌else◌, none, ok, panic, refl, subst, sym,
  true, ◌+◌, ◌==◌, ◌∙◌, ◌∷◌, ◌≡◌,
}
use dnsd_rs.Proto.Cursor.{bytes, index, read_u16_at, read_u32_at, u16, u32, u8}
use dnsd_rs.Proto.Edns.{build_query}
use dnsd_rs.Proto.Encode.{encode_message}
use dnsd_rs.Proto.Flags.{parse_flags}
use dnsd_rs.Proto.Name.{read_name, read_name_loop}
use dnsd_rs.Proto.Name.RoundTrip.{IsName}
use dnsd_rs.Proto.Parse.{
  layout, parse_body, parse_layout, parse_message, parse_name, parse_rdata, read_question,
  read_questions, read_rdata, read_record, read_records, recover_opt,
}
use dnsd_rs.Proto.Queries.{build_query-IsWireMessage}
use dnsd_rs.Proto.RoundTrip.Messages.{parse_message-encode_message}
use dnsd_rs.Proto.Text.{Text, ascii_text, canonical_name}
use dnsd_rs.Proto.Types.{
  Message, RData, class_in, default_header, default_message, edns, type_a, type_ns,
}
use dnsd_rs.Resolve.Iterate.{do_resolve, iterative, query_servers}
use dnsd_rs.Resolve.Iterate.Depth.{IsBareReferral, Refers, iterative-unbounded}
use dnsd_rs.Resolve.Iterate.Failover.{
  IsAlive, IsDead, IsFailure, IsResponse, query_servers-IsResponse,
}
use dnsd_rs.Resolve.Iterate.Walk.{do_resolve-iterative}
use dnsd_rs.Resolve.Recurse.{
  Network, RecurseConfig, SocketAddr, exchange, exchange_bytes, extract_referral, or_tcp, port_53,
  root_hints,
}
use dnsd_rs.Tests.Wire.{name_ab, name_ab-IsName}

-- The walk from the roots, on networks of one answer.

instance text : Text
text = ascii_text

-- A response with a single record, "." NS "a.b.", in the authority section.
abbrev referral_bytes : Bytes
referral_bytes =
    0x1d ∷ 0x5e ∷ 0x80 ∷ 0 ∷ 0 ∷ 0 ∷ 0 ∷ 0 ∷ 0 ∷ 1 ∷ 0 ∷ 0 ∷ 0 ∷ 0 ∷ 2 ∷ 0 ∷ 1 ∷ 0 ∷ 0 ∷ 0 ∷ 0 ∷ 0
    ∷ 5 ∷ 1 ∷ b'a' ∷ 1 ∷ b'b' ∷ 0 ∷ []

abbrev referral : Message
referral = record default_message {
  header = record default_header { id = 0x1d5e; qr = true };
  authority =
      record {
        name = dot ∷ [];
        rtype = type_ns;
        class = class_in;
        ttl = 0;
        rdata = RData.name name_ab;
      }
      ∷ [];
}

referral-parsed : parse_message referral_bytes ≡ ok referral
unfolding parse_message parse_body parse_flags read_questions read_question read_records read_record
    read_rdata parse_rdata parse_layout layout read_name read_name_loop u16 u32 u8 bytes parse_name
    read_u16_at read_u32_at text recover_opt canonical_name index edns
referral-parsed = refl

abbrev query_ab : Message
query_ab = build_query name_ab type_a 0x1d5e none

query_ab-encoded : (s : Bytes) × (encode_message query_ab ≡ ok s)
unfolding text
query_ab-encoded =
    let wire = parse_message-encode_message query_ab (
      build_query-IsWireMessage name_ab type_a 0x1d5e none canonical_ab-IsName (omega arith)
        (omega arith) tt) in
    (wire.0, wire.1)
  where
    canonical_ab-IsName : IsName (canonical_name name_ab)
    canonical_ab-IsName = unfold canonical_name in name_ab-IsName

-- A network in which the first root refers everybody to "a.b.", at once, and no one else answers.
abbrev only_refers : SocketAddr → Result Bytes
only_refers s = if s.port == 53 then ok referral_bytes else err (Error.io "timed out")

abbrev pub referring : Network
referring = record {
  World = Unit;
  clock = λ _. 0;
  udp = λ s _ _ w. (only_refers s, w);
  tcp = λ _ _ _ w. (err (Error.io "refused"), w);
}

abbrev pub recurse_cfg : RecurseConfig
recurse_cfg = record { recurse_max_depth = 32; recurse_timeout = 5000; ns_probe_timeout = 1500 }

abbrev root_a : SocketAddr
root_a = port_53 198 41 0 4

root_a-Refers : Refers referring recurse_cfg root_a query_ab referral tt
unfolding exchange
root_a-Refers timeout =
    ap (λ e. exchange_bytes referring root_a timeout e tt) query_ab-encoded.1
    ∙ ap (λ e. or_tcp referring root_a timeout query_ab-encoded.0 (e, tt)) referral-parsed

referral-IsBareReferral : IsBareReferral referring recurse_cfg referral name_ab []
unfolding extract_referral
referral-IsBareReferral = record {
  response = refl;
  no_error = refl;
  no_answers = refl;
  refers = refl;
}

iterative-unbounded_example :
    iterative referring recurse_cfg 9999 root_hints name_ab type_a none 5000 tt ≡ (panic, tt)
iterative-unbounded_example =
    iterative-unbounded referring recurse_cfg root_a _ name_ab type_a none 5000 31 9999 tt referral
      name_ab [] refl (omega arith) root_a-Refers root_a-Refers referral-IsBareReferral

do_resolve-iterative_example :
    do_resolve referring recurse_cfg 7 root_hints name_ab type_a none tt
    ≡ iterative referring recurse_cfg 7 root_hints
        (canonical_name name_ab)
        type_a
        none
        (0 + 5000)
        tt
do_resolve-iterative_example =
    do_resolve-iterative referring recurse_cfg 7 root_hints name_ab type_a none tt

-- A server that nothing comes back from.
abbrev silent : SocketAddr
silent = record root_a { port = 54 }

silent-IsDead : IsDead referring recurse_cfg query_ab silent
unfolding exchange
silent-IsDead timeout w =
    subst
      (λ e.
        IsFailure referring recurse_cfg (0 + timeout) (exchange_bytes referring silent timeout e w))
      (sym query_ab-encoded.1) (omega arith)

root_a-IsAlive : IsAlive referring recurse_cfg query_ab root_a
root_a-IsAlive timeout w =
    subst (IsResponse referring recurse_cfg) (sym (root_a-Refers timeout)) refl

query_servers-IsResponse_example : IsResponse referring recurse_cfg (
    query_servers referring recurse_cfg (silent ∷ silent ∷ root_a ∷ []) name_ab type_a none 5000 tt)
query_servers-IsResponse_example =
    query_servers-IsResponse referring recurse_cfg name_ab type_a none 5000 (silent ∷ silent ∷ [])
      [] root_a tt (silent-IsDead, (silent-IsDead, tt)) root_a-IsAlive (omega arith)
