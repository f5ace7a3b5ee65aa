-- ===== src/Tests/Service.antt =====
-- A request through the whole pipeline.
use dnsd_rs.Base.{
  Bytes, [], arith, leb, ltb, min, none, ok, refl, true, ℕ, ◌*◌, ◌+◌, ◌-◌, ◌/◌, ◌^◌, ◌∷◌, ◌≡◌,
}
use dnsd_rs.Proto.Cursor.{bytes, index, read_u16_at, read_u32_at, u16, u32, u8}
use dnsd_rs.Proto.Flags.{parse_flags}
use dnsd_rs.Proto.Name.{read_name, read_name_loop}
use dnsd_rs.Proto.Parse.{
  layout, parse_body, parse_layout, parse_message, parse_name, parse_rdata, read_question,
  read_questions, read_rdata, read_record, read_records, recover_opt,
}
use dnsd_rs.Proto.Text.{Text, ascii_text, canonical_name}
use dnsd_rs.Proto.Types.{Message, default_header, default_message, edns}
use dnsd_rs.Resolve.Block.{new_list}
use dnsd_rs.Resolve.Limiter.{F64, new_limiter}
use dnsd_rs.Resolve.Pipeline.{Pipeline, State, process}
use dnsd_rs.Resolve.Pipeline.Ids.{RepliesTo, process-RepliesTo}
use dnsd_rs.Resolve.Recurse.{root_hints}
use dnsd_rs.Tests.Policy.{
  client_v4, dual, known_text, no_api, one_digit, one_word, sample_rows, sample_zones, short_text,
}
use dnsd_rs.Tests.Resolver.{recurse_cfg, referring}
use dnsd_rs.Tests.Stores.{empty_tiers, no_redis}
use dnsd_rs.Tests.Wire.{question_ab}

instance abbrev pub text : Text
text = ascii_text

-- Tokens that are counted in whole numbers.
abbrev whole_numbers : F64
whole_numbers = record {
  Num = ℕ;
  of_nat = λ n. n;
  secs = λ ns. ns / 10 ^ 9;
  add = λ a b. a + b;
  sub = λ a b. a - b;
  mul = λ a b. a * b;
  smaller = min;
  lt = ltb;
  le = leb;
}

abbrev pub service : Pipeline
service = record {
  net = referring;
  redis_ops = no_redis;
  f64 = whole_numbers;
  ip_text = short_text;
  parse_u16 = one_digit;
  words = one_word;
  map_via_api = no_api;
  cfg = record {
    ecs_scope_max = 24;
    dualstack_enabled = true;
    ttls = record { cache_max_ttl = 60; neg_cache_ttl = 30 };
    recurse = recurse_cfg;
  };
  policy = record { block = new_list sample_rows; zones = sample_zones };
  dualstack = dual;
  roots = root_hints;
  stack = 100;
}

abbrev pub at_rest : State service
at_rest = record { cache = empty_tiers; limiter = new_limiter whole_numbers 5; world = tt }

-- The query "a.b." A with id 7.
abbrev pub query_bytes : Bytes
query_bytes =
    0 ∷ 7 ∷ 1 ∷ 0 ∷ 0 ∷ 1 ∷ 0 ∷ 0 ∷ 0 ∷ 0 ∷ 0 ∷ 0 ∷ 1 ∷ b'a' ∷ 1 ∷ b'b' ∷ 0 ∷ 0 ∷ 1 ∷ 0 ∷ 1 ∷ []

abbrev pub request : Message
request = record default_message {
  header = record default_header { id = 7; rd = true };
  questions = question_ab ∷ [];
}

pub request-parsed : parse_message query_bytes ≡ ok request
unfolding parse_message parse_body parse_flags read_questions read_question read_records read_record
    read_rdata parse_rdata parse_layout layout read_name read_name_loop u16 u32 u8 bytes parse_name
    read_u16_at read_u32_at recover_opt canonical_name index edns
request-parsed = refl

process-RepliesTo_example :
    RepliesTo service client_v4 at_rest request
      (process service 1000 none query_bytes client_v4 at_rest)
process-RepliesTo_example =
    process-RepliesTo service 1000 none query_bytes client_v4 at_rest request request-parsed
      (omega arith)
