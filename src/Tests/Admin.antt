-- ===== src/Tests/Admin.antt =====
-- The logs, the store and the management API, over a database that holds the last domain it was given.
use package.text.Mathlib.Text.{◌==◌ as str_eq}
use dnsd_rs.Base.{
  All, Bytes, Result, List, Option, [], ap, codes, false, if◌then◌else◌, length, max, none, ok,
  panic, refl, some, sym, true, ◌++◌, ◌>>=◌, ◌<◌, ◌∙◌, ◌∷◌, ◌≡◌, inl, bytes_eq,
}
use dnsd_rs.Api.Bodies.{Json, or_text, parse_json_field}
use dnsd_rs.Api.Reload.{ApiState, Given}
use dnsd_rs.Api.Route.{route}
use dnsd_rs.Api.Blocking.{Blocks, Covers, post_blocked-Blocks}
use dnsd_rs.Api.Kept.{Remembers}
use dnsd_rs.Api.Outcome.{Proper, route-Proper}
use dnsd_rs.Cache.Redis.{Signed, plus}
use dnsd_rs.Logs.Queries.{QueryLogRow, flush_loop, new_flusher, row_came, timed_out}
use dnsd_rs.Logs.Queries.Batches.{IsBatch, TakesAll, flush_loop-rows, rows_in, rows_of}
use dnsd_rs.Proto.Text.{canonical_name}
use dnsd_rs.Proto.Types.{question}
use dnsd_rs.Resolve.Block.{block_name, mode_of_text}
use dnsd_rs.Resolve.Handle.{Clock, Serving, handle}
use dnsd_rs.Resolve.Handle.Entries.{IsLogged, handle-IsLogged}
use dnsd_rs.Server.Http.{HttpRequest}
use dnsd_rs.Store.Values.{Answer, Database, Row, Value, failed, int_value, row_list, text_value}
use dnsd_rs.Store.Statements.{insert_blocked_sql, select_blocked}
use dnsd_rs.Tests.Policy.{client_v4, known_text}
use dnsd_rs.Tests.Service.{at_rest, query_bytes, request, request-parsed, service, text}
use dnsd_rs.Tests.Stores.{no_rows, no_rows-IsSealed, pad_digest}
use dnsd_rs.Tests.Wire.{question_ab}

abbrev sample_row : QueryLogRow
sample_row = record {
  ts_ms = 5;
  client_ip = codes "10.0.0.9";
  ecs = [];
  qname = codes "a.b.";
  qtype = codes "A";
  rcode = codes "NOERROR";
  cache_hit = true;
  upstream = codes "cache";
  rtt_ms = 1;
  blocked = false;
  via = codes "udp";
}

flush_loop-rows_example :
    (rows_in (flush_loop 2 (row_came sample_row 1 ∷ timed_out 5 ∷ []) new_flusher).batches
        ++ (flush_loop 2 (row_came sample_row 1 ∷ timed_out 5 ∷ []) new_flusher).buf
      ≡ rows_of (row_came sample_row 1 ∷ timed_out 5 ∷ []))
    × (length (flush_loop 2 (row_came sample_row 1 ∷ timed_out 5 ∷ []) new_flusher).buf < max 2 1)
    × All (IsBatch 2) (flush_loop 2 (row_came sample_row 1 ∷ timed_out 5 ∷ []) new_flusher).batches
    × (TakesAll 2 (row_came sample_row 1 ∷ timed_out 5 ∷ [])
        → (flush_loop 2 (row_came sample_row 1 ∷ timed_out 5 ∷ []) new_flusher).table
          ≡ rows_in (flush_loop 2 (row_came sample_row 1 ∷ timed_out 5 ∷ []) new_flusher).batches)
    × ((flush_loop 2 (row_came sample_row 1 ∷ timed_out 5 ∷ []) new_flusher).running ≡ false
        → (flush_loop 2 (row_came sample_row 1 ∷ timed_out 5 ∷ []) new_flusher).buf ≡ [])
flush_loop-rows_example = flush_loop-rows 2 (row_came sample_row 1 ∷ timed_out 5 ∷ [])

abbrev slow_clock : Clock
slow_clock = record { now = λ n. 1000; torn = λ n. none; ts_ms = λ n. 5; elapsed = λ n. 1 }

abbrev serving : Serving service
serving = record { state = at_rest; logger = some []; requests = 3 }

one_question : question request ≡ some question_ab
unfolding question
one_question = refl

handle-IsLogged_example :
    IsLogged service question_ab slow_clock client_v4
      (codes "udp")
      serving
      []
      request
      (handle service slow_clock query_bytes client_v4 (codes "udp") serving)
handle-IsLogged_example =
    handle-IsLogged service question_ab slow_clock client_v4 (codes "udp") serving [] request
      query_bytes request-parsed refl one_question refl

-- The id, the domain and the mode of the last row.
abbrev Last : Type 0
Last = Option (Bytes × Bytes × Bytes)

abbrev last_row : Last → List Row
last_row none = []
last_row (some (id, d, m)) =
    (text_value id ∷ text_value d ∷ text_value m ∷ int_value (plus 1) ∷ []) ∷ []

abbrev store_row : List Value → Last → Answer × Last
store_row (text_value id ∷ text_value d ∷ text_value m ∷ []) w = (row_list [], some (id, d, m))
store_row _ w = (failed "bad parameters", w)

abbrev text_of : Value → Result Bytes
text_of (text_value s) = ok s
text_of _ = panic

abbrev number_of : Value → Result Signed
number_of (int_value n) = ok n
number_of _ = panic

abbrev one_domain : Database
one_domain = record {
  World = Last;
  get_conn = λ w. (none, w);
  run = λ sql args w.
      if str_eq sql insert_blocked_sql
      then store_row args w
      else (row_list (if str_eq sql select_blocked then last_row w else []), w);
  as_string = text_of;
  as_i8 = number_of;
  as_i32 = number_of;
  as_u32 = λ v. panic;
  as_u16 = λ v. panic;
  as_i64_or_null = λ v. number_of v >>= λ n. ok (some n);
}

abbrev HasLast : Bytes → Bytes → Last → Type 0
HasLast d m w = (id : Bytes) × (w ≡ some (id, d, m))

answer_ok :
    {rs qs : List Row} {v w : Last}
    → ◌≡◌ {A = Answer × Last} (row_list rs, v) (row_list qs, w)
    → (rs ≡ qs) × (v ≡ w)
answer_ok h = (cc, cc)

one_domain-Remembers : Remembers one_domain HasLast
one_domain-Remembers = record {
  inserted = λ id d m w w1 rs run. (id, sym (answer_ok run).1);
  on_conn = λ d m w h. h;
  on_zones = λ d m w h. h;
  on_records = λ d m w h. h;
  selected = λ d m w w1 rs h run. (h.0, [], [], sym (answer_ok run).0 ∙ ap last_row h.1);
  reads_text = λ s. refl;
  reads_one = refl;
}

-- A body that is a domain.
abbrev plain_json : Json
plain_json = record {
  Node = Bytes;
  from_slice = λ s. some s;
  get = λ field s. if bytes_eq field (codes "domain") then some s else none;
  as_str = λ s. some s;
  as_u64 = λ s. none;
  zones_text = λ zs. [];
  blocked_text = λ bs. [];
  stats_text = λ n. [];
}

abbrev given_here : Given
given_here = record {
  pool = true;
  map_file = none;
  instance_id = codes "inst-1";
  sha256 = pad_digest;
  ts_ms = 5;
  new_id = codes "id-1";
  cache_stats = (0, 0);
  client_ip = codes "10.0.0.9";
}

abbrev api_state : ApiState one_domain
api_state = record { world = none; pipeline = service; audit = no_rows }

abbrev block_request : HttpRequest
block_request = record {
  method = codes "POST";
  path = codes "/api/v1/blocked";
  query = [];
  headers = [];
  body = codes "Ads.b";
}

route-Proper_example :
    Proper one_domain given_here api_state
      (route one_domain given_here plain_json block_request api_state)
route-Proper_example =
    route-Proper one_domain given_here plain_json block_request api_state no_rows-IsSealed

body-domain : parse_json_field plain_json (codes "Ads.b") (codes "domain") ≡ some (codes "Ads.b")
unfolding parse_json_field
body-domain = refl

body-mode :
    or_text (codes "loopback") (parse_json_field plain_json (codes "Ads.b") (codes "mode"))
    ≡ codes "loopback"
unfolding parse_json_field
body-mode = refl

ads-Covers :
    Covers
      (block_name (codes "ads.B."))
      (text.to_lowercase (codes "Ads.b"))
      (mode_of_text (codes "loopback"))
unfolding canonical_name
ads-Covers = inl refl

post_blocked-Blocks_example :
    Blocks one_domain given_here plain_json HasLast one_domain-Remembers
      (codes "ads.B.")
      (route one_domain given_here plain_json block_request api_state)
post_blocked-Blocks_example =
    post_blocked-Blocks one_domain given_here plain_json HasLast one_domain-Remembers
      (codes "Ads.b") (codes "loopback") (codes "ads.B.") block_request api_state refl refl
      body-domain body-mode ads-Covers
