-- ===== src/Api/Route.antt =====
-- `route` of src/api/mod.rs: its handlers, and `handle`.
use dnsd_rs.Base.{
  Bool, Bytes, Option, Result, String, [], bytes_eq, codes, err, if◌then◌else◌, none, ok, panic,
  some, ◌&&◌, ◌++◌, ◌>>=◌,
}
use dnsd_rs.Base.Maps.{map_get}
use dnsd_rs.Proto.Text.{Text}
use dnsd_rs.Resolve.Dualstack.{AddrText}
use dnsd_rs.Resolve.ZoneRecords.{ZoneRecord}
use dnsd_rs.Server.Http.{HttpRequest, HttpText, read_request, response_bytes}
use dnsd_rs.Store.Values.{Database}
use dnsd_rs.Store.Statements.{
  delete_blocked, insert_blocked, insert_zone, insert_zone_record, load_blocked, load_zones, ping,
}
use dnsd_rs.Api.Bodies.{
  Json, bad_request, json_ok, not_found, or_text, parse_json_field, parse_record, plain,
}
use dnsd_rs.Api.Reload.{
  ApiState, Given, Outcome, audited, empty_text, listed, load_tables, readiness, reload_all,
  written,
}

-- What `route` matches a method and a path with.
pub data Endpoint : Type 0 where
  health : Endpoint
  ready : Endpoint
  stats_of_cache : Endpoint
  reload_tables : Endpoint
  create_zone : Endpoint
  create_record : Endpoint
  list_zones : Endpoint
  add_blocked : Endpoint
  drop_blocked : Endpoint
  list_blocked : Endpoint
  nowhere : Endpoint

unfoldable pub endpoint_of : Bytes → Bytes → Endpoint
endpoint_of method path =
    let is_route = λ (m p : String). bytes_eq method (codes m) && bytes_eq path (codes p) in
    if is_route "GET" "/healthz"
    then health
    else if is_route "GET" "/readyz"
    then ready
    else if is_route "GET" "/api/v1/stats"
    then stats_of_cache
    else if is_route "POST" "/api/v1/reload"
    then reload_tables
    else if is_route "POST" "/api/v1/zones"
    then create_zone
    else if is_route "POST" "/api/v1/zones/records"
    then create_record
    else if is_route "GET" "/api/v1/zones"
    then list_zones
    else if is_route "POST" "/api/v1/blocked"
    then add_blocked
    else if is_route "DELETE" "/api/v1/blocked"
    then drop_blocked
    else if is_route "GET" "/api/v1/blocked"
    then list_blocked
    else nowhere

module _ ⦃text : Text⦄ ⦃addr_text : AddrText⦄ (db : Database) (given : Given) (json : Json) where
  -- The handlers of `route`.
  unfoldable pub get_ready : ApiState db → Outcome db given
  unfolding ping
  get_ready st =
      if given.pool
      then readiness db given st (ping db given.pool st.world)
      else ok (plain 503 (codes "Unavailable") (codes "not ready"), st)

  unfoldable pub post_reload : ApiState db → Outcome db given
  unfolding load_tables audited
  post_reload st =
      let st1 = audited db given (codes "reload") (codes "policy") (codes "{}") st in
      reload_all db given st1 (load_tables db given st1.world)

  unfoldable pub post_zone : Bytes → ApiState db → Outcome db given
  unfolding load_tables audited insert_zone parse_json_field
  post_zone body st =
      let name = or_text [] (parse_json_field json body (codes "name")) in
      if empty_text name
      then ok (bad_request (codes "{\"error\":\"name required\"}"), st)
      else written db given (insert_zone db given.new_id name given.pool)
          (audited db given (codes "zone.create") name (codes "{}") st)

  abbrev pub with_record : ApiState db → Option ZoneRecord → Outcome db given
  with_record st none = ok (bad_request (codes "{\"error\":\"bad record\"}"), st)
  with_record st (some zr) =
      written db given (insert_zone_record db zr given.pool)
        (audited db given (codes "record.create") zr.name (codes "{}") st)

  unfoldable pub post_record : Bytes → ApiState db → Outcome db given
  unfolding load_tables audited insert_zone_record parse_record
  post_record body st = with_record st (parse_record json given.new_id body)

  unfoldable pub post_blocked : Bytes → ApiState db → Outcome db given
  unfolding load_tables audited insert_blocked parse_json_field
  post_blocked body st =
      let domain = or_text [] (parse_json_field json body (codes "domain")) in
      let mode = or_text (codes "loopback") (parse_json_field json body (codes "mode")) in
      if empty_text domain
      then ok (bad_request (codes "{\"error\":\"domain required\"}"), st)
      else written db given (insert_blocked db given.new_id domain mode given.pool) (
          audited db given (codes "block.add") domain
            (codes "{\"mode\":\"" ++ (mode ++ codes "\"}")) st)

  unfoldable pub remove_blocked : Option Bytes → ApiState db → Outcome db given
  unfolding load_tables audited delete_blocked
  remove_blocked asked st =
      let domain = or_text [] asked in
      written db given (delete_blocked db domain given.pool)
        (audited db given (codes "block.remove") domain (codes "{}") st)

  unfoldable pub get_zones : ApiState db → Outcome db given
  unfolding load_zones
  get_zones st = listed db given json.zones_text st (load_zones db given.pool st.world)

  unfoldable pub get_blocked : ApiState db → Outcome db given
  unfolding load_blocked
  get_blocked st = listed db given json.blocked_text st (load_blocked db given.pool st.world)

  -- The branches of `route`.
  unfoldable pub serve_endpoint : Endpoint → HttpRequest → ApiState db → Outcome db given
  unfolding get_ready post_reload post_zone post_record post_blocked remove_blocked get_zones
      get_blocked map_get
  serve_endpoint health req st = ok (plain 200 (codes "OK") (codes "ok"), st)
  serve_endpoint ready req st = get_ready st
  serve_endpoint stats_of_cache req st = ok (json_ok (json.stats_text given.cache_stats), st)
  serve_endpoint reload_tables req st = post_reload st
  serve_endpoint create_zone req st = post_zone req.body st
  serve_endpoint create_record req st = post_record req.body st
  serve_endpoint list_zones req st = get_zones st
  serve_endpoint add_blocked req st = post_blocked req.body st
  serve_endpoint drop_blocked req st = remove_blocked (map_get (codes "domain") req.query) st
  serve_endpoint list_blocked req st = get_blocked st
  serve_endpoint nowhere req st = ok (not_found, st)

  -- `route`
  unfoldable pub route : HttpRequest → ApiState db → Outcome db given
  unfolding serve_endpoint endpoint_of
  route req st = serve_endpoint (endpoint_of req.method req.path) req st

  -- `Api::handle`: what is written to the connection, and the state behind it.
  abbrev answer_request : ApiState db → Result (Option HttpRequest) → Result (Bytes × ApiState db)
  answer_request st (ok (some req)) = route req st >>= λ r.
      ok (response_bytes r.0.status r.0.reason r.0.content_type r.0.body [], r.1)
  answer_request st (ok none) = ok ([], st)
  answer_request st (err e) = ok ([], st)
  answer_request st panic = panic

  unfoldable handle_api : HttpText → Bool → Bytes → ApiState db → Result (Bytes × ApiState db)
  unfolding route response_bytes
  handle_api http_text ends incoming st = answer_request st (read_request http_text ends incoming)
