-- ===== src/Proto/Encode.antt =====
-- The encoder of src/proto.rs: `write_question`, `write_record`, `encode_rdata`, `Message::encode`.
use dnsd_rs.Base.{
  Bytes, Error, List, Result, [], bit_or, err, if◌then◌else◌, length, ok, ◌%◌, ◌*◌, ◌++◌, ◌==◌,
  ◌>>=◌, ◌^◌, ◌∷◌,
}
use dnsd_rs.Proto.Cursor.{be16_bytes, be32_bytes}
use dnsd_rs.Proto.Ecs.{octets6, v4_octets}
use dnsd_rs.Proto.Flags.{encode_flags}
use dnsd_rs.Proto.Name.{Encoder, new_encoder, write_name}
use dnsd_rs.Proto.Text.{Text}
use dnsd_rs.Proto.Types.{Message, Opt, OptOption, Question, RData, Record, type_opt}

abbrev pub push : Encoder → Bytes → Encoder
push e s = record e { out = e.out ++ s }

-- `encode_opt_rdata`, the loop.
unfoldable pub encode_options : List OptOption → Bytes
encode_options [] = []
encode_options (o ∷ os) =
    be16_bytes o.code ++ (be16_bytes (length o.payload) ++ (o.payload ++ encode_options os))

-- The character strings of a TXT record; the length is cast to a byte.
unfoldable pub encode_txt : List Bytes → Bytes
encode_txt [] = []
encode_txt (s ∷ ss) = (length s % 256 ∷ s) ++ encode_txt ss

module _ ⦃text : Text⦄ where
  -- A name from an encoder of its own: `tmp.out`.
  unfoldable pub fresh_name : Bytes → Result Bytes
  fresh_name n = do e ← write_name new_encoder n; ok e.out

  -- The two names of an SOA share one encoder.
  unfoldable pub fresh_names : Bytes → Bytes → Result Bytes
  fresh_names m r = do e1 ← write_name new_encoder m; e2 ← write_name e1 r; ok e2.out

  -- `encode_rdata`
  unfoldable pub encode_rdata : RData → Result Bytes
  encode_rdata (RData.a ip) = ok (v4_octets ip)
  encode_rdata (RData.aaaa ip) = ok (octets6 ip)
  encode_rdata (RData.name n) = fresh_name n
  encode_rdata (RData.mx preference exchange) = do
    n ← fresh_name exchange
    ok (be16_bytes preference ++ n)
  encode_rdata (RData.soa s) = do
    ns ← fresh_names s.mname s.rname
    ok (
        ns
        ++ (be32_bytes s.serial
            ++ (be32_bytes s.refresh
                ++ (be32_bytes s.retry ++ (be32_bytes s.expire ++ be32_bytes s.minimum)))))
  encode_rdata (RData.txt strings) = ok (encode_txt strings)
  encode_rdata (RData.srv priority weight port target) = do
    n ← fresh_name target
    ok (be16_bytes priority ++ (be16_bytes weight ++ (be16_bytes port ++ n)))
  encode_rdata (RData.caa flags tag value) = ok (flags ∷ (length tag % 256) ∷ (tag ++ value))
  encode_rdata (RData.rrsig s) = do
    n ← fresh_name s.signer_name
    ok (
        be16_bytes s.type_covered
        ++ (s.algorithm
            ∷ s.labels
            ∷ (be32_bytes s.original_ttl
                ++ (be32_bytes s.expiration
                    ++ (be32_bytes s.inception ++ (be16_bytes s.key_tag ++ (n ++ s.signature)))))))
  encode_rdata (RData.nsec next_domain type_bitmaps) = do
    n ← fresh_name next_domain
    ok (n ++ type_bitmaps)
  encode_rdata (RData.raw s) = ok s
  encode_rdata (RData.opt o) = err (Error.encode "unexpected OPT in encode_rdata")

  -- `Encoder::write_question`
  unfoldable pub write_question : Encoder → Question → Result Encoder
  write_question e q = do
    e1 ← write_name e q.name
    ok (push (push e1 (be16_bytes q.qtype)) (be16_bytes q.qclass))

  -- The branch of `write_record` for OPT.
  unfoldable pub write_opt : Encoder → Opt → Encoder
  write_opt e o =
      let ttl = bit_or (bit_or (o.ext_rcode * 2 ^ 24) (o.version * 2 ^ 16)) o.flags in
      let payload = encode_options o.options in
      push
        (push (push (push e (be16_bytes o.udp_size)) (be32_bytes ttl))
          (be16_bytes (length payload)))
        payload

  -- The branch for any other record.
  unfoldable pub write_plain : Encoder → Record → Result Encoder
  write_plain e r = do
    rdata ← encode_rdata r.rdata
    ok (
        push
          (push (push (push e (be16_bytes r.class)) (be32_bytes r.ttl)) (be16_bytes (length rdata)))
          rdata)

  abbrev pub opt_or_plain : Encoder → Record → RData → Result Encoder
  opt_or_plain e r (RData.opt o) =
      if r.rtype == type_opt then ok (write_opt e o) else write_plain e r
  opt_or_plain e r d = write_plain e r

  -- `Encoder::write_record`
  unfoldable pub write_record : Encoder → Record → Result Encoder
  write_record e r = do
    e1 ← write_name e r.name
    opt_or_plain (push e1 (be16_bytes r.rtype)) r r.rdata

  unfoldable pub write_questions : Encoder → List Question → Result Encoder
  write_questions e [] = ok e
  write_questions e (q ∷ qs) = do e1 ← write_question e q; write_questions e1 qs

  unfoldable pub write_records : Encoder → List Record → Result Encoder
  write_records e [] = ok e
  write_records e (r ∷ rs) = do e1 ← write_record e r; write_records e1 rs

  -- The twelve bytes of the header.
  unfoldable pub header_bytes : Message → Bytes
  header_bytes m =
      be16_bytes m.header.id
      ++ (be16_bytes (encode_flags m.header)
          ++ (be16_bytes (length m.questions)
              ++ (be16_bytes (length m.answers)
                  ++ (be16_bytes (length m.authority) ++ be16_bytes (length m.additional)))))

  -- `Message::encode`
  unfoldable pub encode_message : Message → Result Bytes
  encode_message m = do
    e1 ← write_questions (push new_encoder (header_bytes m)) m.questions
    e2 ← write_records e1 m.answers
    e3 ← write_records e2 m.authority
    e4 ← write_records e3 m.additional
    ok e4.out
