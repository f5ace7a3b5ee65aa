-- ===== src/Tests/Wire.antt =====
-- Names, records, messages and options of src/proto.rs, on small inputs.
use dnsd_rs.Base.{
  List, Bytes, Result, [], ap, arith, bit_or, dot, length, ok, refl, replicate, some, true, ℕ, ◌++◌,
  ◌+◌, ◌∷◌, ◌≡◌, ◌≤◌,
}
use dnsd_rs.Proto.Cursor.{be16_bytes, new_cursor}
use dnsd_rs.Proto.Data.{full, w_a}
use dnsd_rs.Proto.Ecs.{EcsInfo, ecs}
use dnsd_rs.Proto.Edns.{build_query}
use dnsd_rs.Proto.Encode.{encode_message, encode_rdata, fresh_names}
use dnsd_rs.Proto.Fuel.{parse_loops-enough}
use dnsd_rs.Proto.Masks.{IsIpv4}
use dnsd_rs.Proto.Name.{
  Encoder, find_suffix, lookup_name, new_encoder, push_full, push_labels, read_name, read_name_loop,
  suffix_key, write_labels, write_name,
}
use dnsd_rs.Proto.Name.RoundTrip.{IsName, IsWritten, write_name-IsWritten}
use dnsd_rs.Proto.Name.Wire.{IsLabel, IsLabelByte, wire}
use dnsd_rs.Proto.Parse.{layout, parse_message, parse_options, parse_txt}
use dnsd_rs.Proto.Queries.{parse_message-build_query, with_v4}
use dnsd_rs.Proto.RoundTrip.{IsWireRecord}
use dnsd_rs.Proto.RoundTrip.Messages.{
  IsWireMessage, IsWireQuestion, on_wire, parse_message-encode_message,
}
use dnsd_rs.Proto.Soa.{fresh_names-pointer}
use dnsd_rs.Proto.Text.{Text, ascii_text, canonical_name}
use dnsd_rs.Proto.Types.{
  IpAddr, Ipv4Addr, Message, Question, RData, Record, class_in, default_header, default_message,
  type_a,
}

instance text : Text
text = ascii_text

abbrev label_a : Bytes
label_a = b'a' ∷ []

abbrev label_b : Bytes
label_b = b'b' ∷ []

byte_a-IsLabelByte : IsLabelByte b'a'
byte_a-IsLabelByte = record {
  ascii = omega arith;
  not_dot = λ e. absurd (omega (arith, e));
  not_space = refl;
  lower = refl;
}

byte_b-IsLabelByte : IsLabelByte b'b'
byte_b-IsLabelByte = record {
  ascii = omega arith;
  not_dot = λ e. absurd (omega (arith, e));
  not_space = refl;
  lower = refl;
}

label_a-IsLabel : IsLabel label_a
label_a-IsLabel = record {
  positive = omega arith;
  short = omega arith;
  canonical = (byte_a-IsLabelByte, tt);
}

label_b-IsLabel : IsLabel label_b
label_b-IsLabel = record {
  positive = omega arith;
  short = omega arith;
  canonical = (byte_b-IsLabelByte, tt);
}

-- The name "a.b."
abbrev pub name_ab : Bytes
name_ab = b'a' ∷ dot ∷ b'b' ∷ dot ∷ []

pub name_ab-IsName : IsName name_ab
name_ab-IsName = record {
  labels = label_a ∷ label_b ∷ [];
  text_eq = refl;
  good = (label_a-IsLabel, (label_b-IsLabel, tt));
  few = omega arith;
}

abbrev local_v4 : Ipv4Addr
local_v4 = record { o0 = 192; o1 = 0; o2 = 2; o3 = 77 }

local_v4-IsIpv4 : IsIpv4 local_v4
local_v4-IsIpv4 = (omega arith, omega arith, omega arith, omega arith)

abbrev pub question_ab : Question
question_ab = record { name = name_ab; qtype = type_a; qclass = class_in }

pub question_ab-IsWireQuestion : IsWireQuestion question_ab
question_ab-IsWireQuestion = record {
  named = name_ab-IsName;
  qtype_fits = omega arith;
  qclass_fits = omega arith;
}

abbrev record_ab : Record
record_ab = record {
  name = name_ab;
  rtype = type_a;
  class = class_in;
  ttl = 300;
  rdata = RData.a local_v4;
}

size_of : Result Bytes → ℕ
size_of (ok s) = length s
size_of _ = 0

record_ab-IsWireRecord : IsWireRecord record_ab
unfolding encode_rdata size_of layout
record_ab-IsWireRecord = record {
  named = name_ab-IsName;
  rtype_fits = omega arith;
  class_fits = omega arith;
  ttl_fits = omega arith;
  layout_fits = w_a local_v4;
  short = λ s e. omega (arith, ap size_of e);
}

-- One question and one answer under the same name, which is compressed.
abbrev pub answer_ab : Message
answer_ab = record default_message {
  header = record default_header { id = 7; qr = true; rcode = 3 };
  questions = question_ab ∷ [];
  answers = record_ab ∷ [];
}

answer_ab-IsWireMessage : IsWireMessage answer_ab
answer_ab-IsWireMessage = record {
  id_fits = omega arith;
  opcode_fits = omega arith;
  questions_fit = (question_ab-IsWireQuestion, tt);
  answers_fit = (record_ab-IsWireRecord, tt);
  authority_fit = tt;
  additional_fit = tt;
  few_questions = omega arith;
  few_answers = omega arith;
  few_authority = omega arith;
  few_additional = omega arith;
}

parse_message-encode_message_example :
    (s : Bytes) × (encode_message answer_ab ≡ ok s) × (parse_message s ≡ ok (on_wire answer_ab))
parse_message-encode_message_example =
    parse_message-encode_message answer_ab answer_ab-IsWireMessage

write_name-IsWritten_example :
    (e' : Encoder) × (write_name new_encoder name_ab ≡ ok e') × IsWritten new_encoder name_ab e'
write_name-IsWritten_example = write_name-IsWritten new_encoder name_ab tt name_ab-IsName

abbrev ecs_24 : EcsInfo
ecs_24 = record {
  family = 1;
  source_prefix = 24;
  scope_prefix = 0;
  address = some (IpAddr.v4 local_v4);
}

parse_message-build_query_example :
    (s : Bytes) × (m : Message) × (encode_message (build_query name_ab 1 7 (some ecs_24)) ≡ ok s)
    × (parse_message s ≡ ok m)
    × (m.header.id ≡ 7)
    × (m.header.rd ≡ true)
    × (m.questions ≡ record { name = canonical_name name_ab; qtype = 1; qclass = class_in } ∷ [])
    × (ecs m ≡ some ecs_24)
unfolding text
parse_message-build_query_example =
    parse_message-build_query name_ab 1 7 ecs_24 canonical_ab-IsName (omega arith) (omega arith)
      (with_v4 24 0 local_v4)
  where
    canonical_ab-IsName : IsName (canonical_name name_ab)
    canonical_ab-IsName = unfold canonical_name in name_ab-IsName

-- "b." is a suffix of "a.b.", which has "a" before it.
fresh_names-pointer_example :
    (front : List Bytes) × (off : ℕ) × (fresh_names name_ab (suffix_key (label_b ∷ []))
      ≡ ok ((full name_ab-IsName ++ wire front) ++ be16_bytes (bit_or 0xC000 off)))
    × (off ≤ length (full name_ab-IsName))
fresh_names-pointer_example =
    fresh_names-pointer name_ab name_ab-IsName (label_a ∷ []) [] label_b [] labels_ab
      (label_b-IsLabel, tt) (omega arith)
  where
    labels_ab : name_ab-IsName.labels ≡ label_a ∷ label_b ∷ []
    labels_ab = unfold name_ab-IsName in refl

-- Behind a header of twelve bytes, the second name of that SOA is read as the root.
abbrev soa_names : Bytes
soa_names = 1 ∷ b'a' ∷ 1 ∷ b'b' ∷ 0 ∷ 0xC0 ∷ 2 ∷ []

soa_names-written : fresh_names name_ab (b'b' ∷ dot ∷ []) ≡ ok soa_names
unfolding fresh_names write_name write_labels find_suffix lookup_name push_labels push_full
    canonical_name text
soa_names-written = refl

soa_second_name : read_name (replicate 12 0 ++ soa_names) 17 ≡ ok (dot ∷ [], 19)
unfolding read_name read_name_loop
soa_second_name = refl

parse_loops-enough_example :
    (parse_txt (3 + 5) (new_cursor (2 ∷ b'h' ∷ b'i' ∷ [])) []
      ≡ parse_txt 3 (new_cursor (2 ∷ b'h' ∷ b'i' ∷ [])) [])
    × (parse_options (3 + 5) (new_cursor (2 ∷ b'h' ∷ b'i' ∷ [])) []
        ≡ parse_options 3 (new_cursor (2 ∷ b'h' ∷ b'i' ∷ [])) [])
parse_loops-enough_example = parse_loops-enough 5 (new_cursor (2 ∷ b'h' ∷ b'i' ∷ [])) [] []
