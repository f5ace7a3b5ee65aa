-- ===== src/Api/Outcome.antt =====
-- What a request to src/api/mod.rs does to the policy and to the audit log.
use dnsd_rs.Base.{
  Bool, Bytes, List, Option, Result, [], ap, codes, err, false, if◌then◌else◌, none, ok, panic,
  refl, some, true, ◌++◌, ◌==◌, ◌||◌, ◌≡◌,
}
use dnsd_rs.Base.Maps.{map_get}
use dnsd_rs.Logs.{compute_hash}
use dnsd_rs.Logs.Chain.{IsSealed, record_row-IsSealed}
use dnsd_rs.Proto.Text.{Text}
use dnsd_rs.Resolve.Dualstack.{AddrText}
use dnsd_rs.Resolve.Pipeline.{Pipeline}
use dnsd_rs.Resolve.ZoneRecords.{ZoneRecord}
use dnsd_rs.Server.Http.{HttpRequest}
use dnsd_rs.Store.Values.{Database, Row}
use dnsd_rs.Store.Statements.{
  Action, after, delete_blocked, insert_blocked, insert_zone, insert_zone_record, load_blocked,
  load_zones, ping,
}
use dnsd_rs.Api.Bodies.{Json, Response, or_text, parse_json_field, parse_record}
use dnsd_rs.Api.Reload.{
  ApiState, Given, Outcome, Tables, audited, empty_text, insert_audit, install, is_ok, listed,
  load_tables, readiness, reload_all, with_insertion, written,
}
use dnsd_rs.Api.Route.{
  Endpoint, add_blocked, create_record, create_zone, drop_blocked, endpoint_of, health,
  list_blocked, list_zones, nowhere, ready, reload_tables, serve_endpoint, stats_of_cache,
  get_blocked, get_ready, get_zones, post_blocked, post_record, post_reload, post_zone,
  remove_blocked, route, with_record,
}

module _ ⦃text : Text⦄ ⦃addr_text : AddrText⦄ (db : Database) (given : Given) where
  -- The pipeline is as it was, or it has the policy of the four tables as they were read then, and the
  -- client is told so.
  pub data Effect (p : Pipeline) (resp : Response) (st : ApiState db) : Type 1 where
    untouched : st.pipeline ≡ p → Effect p resp st
    reloaded :
        (t : Tables) (w : db.World)
        → load_tables db given w ≡ (ok t, st.world)
        → st.pipeline ≡ install db given t p
        → resp.status ≡ 200
        → Effect p resp st

  abbrev IsRejected : Response → Type 0
  IsRejected resp = ((resp.status == 400) || (resp.status == 404)) ≡ true

  abbrev pub Proper : ApiState db → Outcome db given → Type 1
  Proper st (ok (resp, st')) =
      Effect st.pipeline resp st' × IsSealed given.sha256 st'.audit × (IsRejected resp → st' ≡ st)
  Proper st (err e) = (A : Type 0) → A
  Proper st panic = Unit

  if_Proper :
      (st : ApiState db) (b : Bool) (x y : Outcome db given)
      → Proper st x
      → Proper st y
      → Proper st (if b then x else y)
  if_Proper st true x y h k = h
  if_Proper st false x y h k = k

  -- Behind an entry of the audit log.
  record Follows (st st1 : ApiState db) : Type 1 where
    pipeline : st1.pipeline ≡ st.pipeline
    sealed : IsSealed given.sha256 st1.audit

  with_insertion-Follows :
      (action target detail : Bytes) (st : ApiState db) (r : Result (List Row) × db.World)
      → IsSealed given.sha256 st.audit
      → Follows st (with_insertion db given action target detail st r)
  with_insertion-Follows action target detail st (r, w) h = record {
    pipeline = refl;
    sealed =
        record_row-IsSealed given.sha256 given.pool (is_ok r) given.ts_ms (codes "api") action
          target detail given.client_ip st.audit h;
  }

  audited-Follows :
      (action target detail : Bytes) (st : ApiState db)
      → IsSealed given.sha256 st.audit
      → Follows st (audited db given action target detail st)
  unfolding audited
  audited-Follows action target detail st h = go given.pool (
      with_insertion-Follows action target detail st
        (insert_audit db given action target detail
          (compute_hash given.sha256 st.audit.last_hash given.ts_ms (codes "api") action target
            detail given.client_ip)
          st)
        h)
    where
      go : (b : Bool) {x : ApiState db} → Follows st x → Follows st (if b then x else st)
      go true f = f
      go false f = record { pipeline = refl; sealed = h }

  -- The end of a write, where the tables were read in `w`.
  reload_all-Proper :
      (st st1 : ApiState db) (w : db.World) (r : Result Tables × db.World)
      → Follows st st1
      → load_tables db given w ≡ r
      → Proper st (reload_all db given st1 r)
  reload_all-Proper st st1 w (ok t, w') f e =
      (reloaded t w e (ap (install db given t) f.pipeline) refl, f.sealed, λ h. cc h)
  reload_all-Proper st st1 w (err x, w') f e = (untouched f.pipeline, f.sealed, λ h. cc h)
  reload_all-Proper st st1 w (panic, w') f e = tt

  written-Proper :
      {A : Type 0} (st st1 : ApiState db) (write : Action db A)
      → Follows st st1
      → Proper st (written db given write st1)
  written-Proper {A} st st1 write f = go (write st1.world)
    where
      go :
          (r : Result A × db.World)
          → Proper st (reload_all db given st1 (after db (λ u w. load_tables db given w) r))
      go (ok a, w) = reload_all-Proper st st1 w (load_tables db given w) f refl
      go (err e, w) = (untouched f.pipeline, f.sealed, λ h. cc h)
      go (panic, w) = tt

  listed-Proper :
      {A : Type 0} (print : A → Bytes) (st : ApiState db) (r : Result A × db.World)
      → IsSealed given.sha256 st.audit
      → Proper st (listed db given print st r)
  listed-Proper print st (ok a, w) h = (untouched refl, h, λ x. cc x)
  listed-Proper print st (err e, w) h = (untouched refl, h, λ x. cc x)
  listed-Proper print st (panic, w) h = tt

  readiness-Proper :
      (st : ApiState db) (r : Result (Unit {0}) × db.World)
      → IsSealed given.sha256 st.audit
      → Proper st (readiness db given st r)
  readiness-Proper st (ok u, w) h = (untouched refl, h, λ x. cc x)
  readiness-Proper st (err e, w) h = (untouched refl, h, λ x. cc x)
  readiness-Proper st (panic, w) h = tt

  -- A response to a request that touches nothing.
  still :
      (st : ApiState db) (resp : Response)
      → IsSealed given.sha256 st.audit
      → Proper st (ok (resp, st))
  still st resp h = (untouched refl, h, λ x. refl)

  module _ (json : Json) where
    with_record-Proper :
        (st : ApiState db) (r : Option ZoneRecord)
        → IsSealed given.sha256 st.audit
        → Proper st (with_record db given json st r)
    with_record-Proper st none h = still st _ h
    with_record-Proper st (some zr) h =
        written-Proper st (audited db given (codes "record.create") zr.name (codes "{}") st)
          (insert_zone_record db zr given.pool)
          (audited-Follows (codes "record.create") zr.name (codes "{}") st h)

    serve_endpoint-Proper :
        (e : Endpoint) (req : HttpRequest) (st : ApiState db)
        → IsSealed given.sha256 st.audit
        → Proper st (serve_endpoint db given json e req st)
    unfolding serve_endpoint get_ready post_reload post_zone post_record post_blocked remove_blocked
        get_zones get_blocked
    serve_endpoint-Proper health req st h = still st _ h
    serve_endpoint-Proper ready req st h =
        if_Proper st given.pool _ _ (readiness-Proper st (ping db given.pool st.world) h)
          (still st _ h)
    serve_endpoint-Proper stats_of_cache req st h = still st _ h
    serve_endpoint-Proper reload_tables req st h =
        let st1 = audited db given (codes "reload") (codes "policy") (codes "{}") st in
        reload_all-Proper st st1 st1.world (load_tables db given st1.world)
          (audited-Follows (codes "reload") (codes "policy") (codes "{}") st h) refl
    serve_endpoint-Proper create_zone req st h =
        let name = or_text [] (parse_json_field json req.body (codes "name")) in
        if_Proper st (empty_text name) _ _ (still st _ h) (
          written-Proper st (audited db given (codes "zone.create") name (codes "{}") st)
            (insert_zone db given.new_id name given.pool)
            (audited-Follows (codes "zone.create") name (codes "{}") st h))
    serve_endpoint-Proper create_record req st h =
        with_record-Proper st (parse_record json given.new_id req.body) h
    serve_endpoint-Proper list_zones req st h =
        listed-Proper json.zones_text st (load_zones db given.pool st.world) h
    serve_endpoint-Proper add_blocked req st h =
        let domain = or_text [] (parse_json_field json req.body (codes "domain")) in
        let mode = or_text (codes "loopback") (parse_json_field json req.body (codes "mode")) in
        let detail = codes "{\"mode\":\"" ++ (mode ++ codes "\"}") in
        if_Proper st (empty_text domain) _ _ (still st _ h) (
          written-Proper st (audited db given (codes "block.add") domain detail st)
            (insert_blocked db given.new_id domain mode given.pool)
            (audited-Follows (codes "block.add") domain detail st h))
    serve_endpoint-Proper drop_blocked req st h =
        let domain = or_text [] (map_get (codes "domain") req.query) in
        written-Proper st (audited db given (codes "block.remove") domain (codes "{}") st)
          (delete_blocked db domain given.pool)
          (audited-Follows (codes "block.remove") domain (codes "{}") st h)
    serve_endpoint-Proper list_blocked req st h =
        listed-Proper json.blocked_text st (load_blocked db given.pool st.world) h
    serve_endpoint-Proper nowhere req st h = still st _ h

    -- Whatever the request, and whatever the database answers: there is no error; unless a panic ends it,
    -- the pipeline is as it was, or it has the policy of the four tables as they were read in full, and
    -- the status is 200; an audit log that is a chain of hashes stays one; and a request that is rejected
    -- with 400 or 404 changes nothing at all.
    pub route-Proper :
        (req : HttpRequest) (st : ApiState db)
        → IsSealed given.sha256 st.audit
        → Proper st (route db given json req st)
    unfolding route
    route-Proper req st h = serve_endpoint-Proper (endpoint_of req.method req.path) req st h
