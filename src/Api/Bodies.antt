-- ===== src/Api/Bodies.antt =====
-- The bodies of the requests and responses of src/api/mod.rs, with `parse_json_field` and `parse_record`.
use dnsd_rs.Base.{Bytes, Error, List, Option, codes, none, some, true, ℕ, ◌%◌, ◌++◌, ◌^◌}
use dnsd_rs.Resolve.Block.{BlockedDomain}
use dnsd_rs.Resolve.Custom.{Zone}
use dnsd_rs.Resolve.ZoneRecords.{ZoneRecord}

-- What is used of the JSON crate.
pub record Json : Type 1 where
  pub Node : Type 0
  pub from_slice : Bytes → Option Node
  pub get : Bytes → Node → Option Node
  pub as_str : Node → Option Bytes
  pub as_u64 : Node → Option ℕ
  pub zones_text : List Zone → Bytes
  pub blocked_text : List BlockedDomain → Bytes
  pub stats_text : ℕ × ℕ → Bytes

-- `Display` of `Error`
unfoldable pub error_text : Error → Bytes
error_text (Error.parse s) = codes "dns parse error: " ++ codes s
error_text (Error.encode s) = codes "dns encode error: " ++ codes s
error_text (Error.resolver s) = codes "resolver error: " ++ codes s
error_text (Error.io s) = codes "io error: " ++ codes s
error_text (Error.db s) = codes "database error: " ++ codes s
error_text (Error.redis s) = codes "redis error: " ++ codes s
error_text (Error.config s) = codes "config error: " ++ codes s
error_text (Error.tls s) = codes "tls error: " ++ codes s

pub record Response : Type 0 where
  pub status : ℕ
  pub reason : Bytes
  pub content_type : Bytes
  pub body : Bytes

abbrev json_type : Bytes
json_type = codes "application/json"

abbrev pub json_ok : Bytes → Response
json_ok body = record { status = 200; reason = codes "OK"; content_type = json_type; body = body }

abbrev pub bad_request : Bytes → Response
bad_request body = record {
  status = 400;
  reason = codes "Bad Request";
  content_type = json_type;
  body = body;
}

abbrev pub internal_error : Bytes → Response
internal_error body = record {
  status = 500;
  reason = codes "Internal Error";
  content_type = json_type;
  body = body;
}

abbrev pub not_found : Response
not_found = record {
  status = 404;
  reason = codes "Not Found";
  content_type = json_type;
  body = codes "{\"error\":\"not found\"}";
}

abbrev pub plain : ℕ → Bytes → Bytes → Response
plain status reason body = record {
  status = status;
  reason = reason;
  content_type = codes "text/plain";
  body = body;
}

-- The answer to a write: done, or the text of the error.
abbrev pub error_json : Error → Bytes
error_json e = codes "{\"error\":\"" ++ (error_text e ++ codes "\"}")

abbrev pub or_text : Bytes → Option Bytes → Bytes
or_text d none = d
or_text d (some s) = s

abbrev or_number : ℕ → Option ℕ → ℕ
or_number d none = d
or_number d (some n) = n

abbrev and_then : {A B : Type 0} → Option A → (A → Option B) → Option B
and_then none f = none
and_then (some a) f = f a

module _ (json : Json) where
  -- `v.get(field)?.as_str()`
  abbrev text_field : Bytes → json.Node → Option Bytes
  text_field field v = and_then (json.get field v) json.as_str

  -- `parse_json_field`
  unfoldable pub parse_json_field : Bytes → Bytes → Option Bytes
  parse_json_field body field = and_then (json.from_slice body) (text_field field)

  abbrev number_field : Bytes → ℕ → json.Node → ℕ
  number_field field d v = or_number d (and_then (json.get field v) json.as_u64)

  -- `parse_record`; the first argument is the new id.
  abbrev record_of_json : Bytes → json.Node → Option ZoneRecord
  record_of_json id v = and_then (text_field (codes "zone_id") v) λ zone_id.
      and_then (text_field (codes "name") v) λ name.
        and_then (text_field (codes "rtype") v) λ rtype.
          and_then (text_field (codes "value") v) λ value. some (record {
            id = id;
            zone_id = zone_id;
            name = name;
            rtype = rtype;
            value = value;
            ttl = number_field (codes "ttl") 300 v % 2 ^ 32;
            priority = number_field (codes "priority") 0 v % 2 ^ 16;
            enabled = true;
          })

  unfoldable pub parse_record : Bytes → Bytes → Option ZoneRecord
  parse_record id body = and_then (json.from_slice body) (record_of_json id)
