-- ===== src/Resolve/Replies/Laws.antt =====
-- What a client reads in the replies, and how long an answer may be cached.
use native.Mathlib.Nat.{mod-eq_of_lt}
use dnsd_rs.Base.{
  All, Bool, Bool-cases, Bytes, List, Option, Result, [], ap, arith, false, if◌then◌else◌, inl, inr,
  length, max, min, none, ok, refl, some, true, ℕ, ◌%◌, ◌<◌, ◌==◌, ◌^◌, ◌∙◌, ◌∷◌, ◌≡◌, ◌≤◌,
}
use dnsd_rs.Proto.Data.{IsU16, w_a, w_aaaa}
use dnsd_rs.Proto.Encode.{encode_message, encode_rdata}
use dnsd_rs.Proto.Name.RoundTrip.{IsName}
use dnsd_rs.Proto.Parse.{layout, parse_message}
use dnsd_rs.Proto.RoundTrip.{IsWireRecord}
use dnsd_rs.Proto.RoundTrip.Messages.{
  IsWireMessage, IsWireQuestion, on_wire, parse_message-encode_message,
}
use dnsd_rs.Proto.Text.{Text}
use dnsd_rs.Proto.Types.{
  Header, IpAddr, Ipv4Addr, Message, Question, RData, Record, class_in, default_message, edns,
  rcode_noerror, rcode_nxdomain, type_a, type_aaaa,
}
use dnsd_rs.Resolve.Block.{BlockMode, block_answers, block_v4, localhost_v6, respond}
use dnsd_rs.Resolve.Replies.{
  TtlConfig, badvers, badvers_reply, encode_rcode, first_minimum, min_ttl, msg_ttl, rcode_reply,
}

min_ttl-le : (t : ℕ) (rs : List Record) → min_ttl t rs ≤ t
unfolding min_ttl
min_ttl-le t [] = omega arith
min_ttl-le t (r ∷ rs) = omega (arith, min_ttl-le (min t r.ttl) rs)

min_ttl-All : (t : ℕ) (rs : List Record) → All (λ r. min_ttl t rs ≤ r.ttl) rs
unfolding min_ttl
min_ttl-All t [] = tt
min_ttl-All t (r ∷ rs) = (omega (arith, min_ttl-le (min t r.ttl) rs), min_ttl-All (min t r.ttl) rs)

All-weaken :
    (a b : ℕ) (rs : List Record) → a ≤ b → All (λ r. b ≤ r.ttl) rs → All (λ r. a ≤ r.ttl) rs
All-weaken a b [] le h = tt
All-weaken a b (r ∷ rs) le h = (omega (arith, h.0), All-weaken a b rs le h.1)

-- The time to live that `msg_ttl` computes is at most that of every answer record, and at most the larger of
-- the two configured limits.
pub msg_ttl-bounds :
    (cfg : TtlConfig) (m : Message)
    → All (λ r. msg_ttl cfg m ≤ r.ttl) m.answers
      × (msg_ttl cfg m ≤ max cfg.cache_max_ttl cfg.neg_cache_ttl)
unfolding msg_ttl
msg_ttl-bounds cfg m = go m.answers
  where
    limit : ℕ
    limit = cfg.cache_max_ttl % 2 ^ 32

    negative :
        (r : Option ℕ) (b : Bool)
        → elim r [ some t ↦ min t cfg.neg_cache_ttl | none ↦ if b then cfg.neg_cache_ttl else 0 ]
          ≤ max cfg.cache_max_ttl cfg.neg_cache_ttl
    negative none true = omega arith
    negative none false = omega arith
    negative (some t) b = omega arith

    ttl_of : List Record → ℕ
    ttl_of rs = elim rs [
      | r ∷ rs ↦ min (min_ttl r.ttl rs) limit
      | [] ↦ elim (first_minimum m.authority) [
        | some t ↦ min t cfg.neg_cache_ttl
        | none ↦ if m.header.rcode == rcode_nxdomain then cfg.neg_cache_ttl else 0
      ]
    ]

    go :
        (rs : List Record)
        → All (λ r. ttl_of rs ≤ r.ttl) rs × (ttl_of rs ≤ max cfg.cache_max_ttl cfg.neg_cache_ttl)
    go [] = (tt, negative (first_minimum m.authority) (m.header.rcode == rcode_nxdomain))
    go (r ∷ rs) = (
      (
        omega (arith, min_ttl-le r.ttl rs),
        All-weaken (min (min_ttl r.ttl rs) limit) (min_ttl r.ttl rs) rs (omega arith)
            (min_ttl-All r.ttl rs),
      ),
      omega arith,
    )

module _ ⦃text : Text⦄ where
  -- A reply without records, to questions that have a wire form.
  bare-IsWireMessage :
      (h : Header) (qs : List Question)
      → IsU16 h.id
      → h.opcode < 16
      → All IsWireQuestion qs
      → IsU16 (length qs)
      → IsWireMessage (record default_message { header = h; questions = qs })
  bare-IsWireMessage h qs hid hop hqs few = record {
    id_fits = hid;
    opcode_fits = hop;
    questions_fit = hqs;
    answers_fit = tt;
    authority_fit = tt;
    additional_fit = tt;
    few_questions = few;
    few_answers = omega arith;
    few_authority = omega arith;
    few_additional = omega arith;
  }

  -- For a request whose id and questions have a wire form, and an rcode of four bits: the client reads
  -- the reply as it was made, with its id, its questions and the rcode.
  parse_message-encode_rcode :
      (req : Message) (rcode : ℕ)
      → IsU16 req.header.id
      → All IsWireQuestion req.questions
      → IsU16 (length req.questions)
      → rcode < 16
      → (s : Bytes) × (encode_rcode req rcode ≡ ok s)
        × (parse_message s ≡ ok (rcode_reply req rcode))
  unfolding encode_rcode edns
  parse_message-encode_rcode req rcode hid hqs few small =
      let (s, wrote, parsed) =
        parse_message-encode_message (rcode_reply req rcode)
          (bare-IsWireMessage _ req.questions hid (omega arith) hqs few) in
      (
        s,
        rw wrote refl,
        parsed
            ∙ ap
                (λ (c : ℕ). ok (record (rcode_reply req rcode) {
                  header = record (rcode_reply req rcode).header { rcode = c };
                }))
                (mod-eq_of_lt small),
      )

  -- For a request whose id and questions have a wire form: the rcode BADVERS needs more than four bits, and the reply has no OPT record to carry them: the
  -- client reads its id and questions, and the rcode NOERROR.
  pub parse_message-badvers :
      (req : Message)
      → IsU16 req.header.id
      → All IsWireQuestion req.questions
      → IsU16 (length req.questions)
      → (s : Bytes) × (m : Message) × (badvers req ≡ ok s)
        × (parse_message s ≡ ok m)
        × (m.header.id ≡ req.header.id)
        × (m.questions ≡ req.questions)
        × (m.header.rcode ≡ rcode_noerror)
  unfolding badvers edns
  parse_message-badvers req hid hqs few =
      let (s, wrote, parsed) =
        parse_message-encode_message (badvers_reply req)
          (bare-IsWireMessage _ req.questions hid (omega arith) hqs few) in
      (s, on_wire (badvers_reply req), rw wrote refl, parsed, refl, refl, refl)

  size_of : Result Bytes → ℕ
  size_of (ok s) = length s
  size_of _ = 0

  record_a-IsWireRecord :
      (n : Bytes) (ip : Ipv4Addr)
      → IsName n
      → IsWireRecord
          (record { name = n; rtype = type_a; class = class_in; ttl = 60; rdata = RData.a ip })
  unfolding encode_rdata size_of layout
  record_a-IsWireRecord n ip h = record {
    named = h;
    rtype_fits = omega arith;
    class_fits = omega arith;
    ttl_fits = omega arith;
    layout_fits = w_a ip;
    short = λ s e. omega (arith, ap size_of e);
  }

  record_aaaa-IsWireRecord :
      (n : Bytes)
      → IsName n
      → IsWireRecord (record {
        name = n;
        rtype = type_aaaa;
        class = class_in;
        ttl = 60;
        rdata = RData.aaaa localhost_v6;
      })
  unfolding encode_rdata size_of layout
  record_aaaa-IsWireRecord n h = record {
    named = h;
    rtype_fits = omega arith;
    class_fits = omega arith;
    ttl_fits = omega arith;
    layout_fits = w_aaaa _ refl;
    short = λ s e. omega (arith, ap size_of e);
  }

  module _ (ip_text : IpAddr → Bytes) where
    answers-fit :
        (q : Question) (ip : Ipv4Addr)
        → IsName q.name
        → All IsWireRecord (block_answers ip_text q ip)
          × IsU16 (length (block_answers ip_text q ip))
    answers-fit q ip h = elim (Bool-cases (q.qtype == type_a)) [
      | inl is_a ↦ rw is_a ((record_a-IsWireRecord q.name ip h, tt), omega arith)
      | inr not_a ↦ elim (Bool-cases (q.qtype == type_aaaa)) [
        | inl is_aaaa ↦ rw (not_a, is_aaaa) ((record_aaaa-IsWireRecord q.name h, tt), omega arith)
        | inr other ↦ rw (not_a, other) (tt, omega arith)
      ]
    ]

    -- A client whose question, in wire form, is blocked reads the reply as it was made.
    parse_message-respond :
        (q : Question) (client_ip : IpAddr) (mode : BlockMode)
        → IsWireQuestion q
        → (s : Bytes) × (encode_message (respond ip_text q client_ip mode) ≡ ok s)
          × (parse_message s ≡ ok (respond ip_text q client_ip mode))
    unfolding respond edns
    parse_message-respond q client_ip mode h =
        let fit = answers-fit q (block_v4 ip_text mode q.name client_ip) h.named in
        parse_message-encode_message (respond ip_text q client_ip mode) (record {
          id_fits = omega arith;
          opcode_fits = omega arith;
          questions_fit = (h, tt);
          answers_fit = fit.0;
          authority_fit = tt;
          additional_fit = tt;
          few_questions = omega arith;
          few_answers = fit.1;
          few_authority = omega arith;
          few_additional = omega arith;
        })
