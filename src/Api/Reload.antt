-- ===== src/Api/Reload.antt =====
-- What the handlers of src/api/mod.rs share: the audit row that each writes first, and `reload_all`.
use dnsd_rs.Base.{
  Bool, Bytes, List, Option, Result, String, [], codes, err, false, if◌then◌else◌, ok, panic, true,
  ℕ, ◌∷◌,
}
use dnsd_rs.Cache.Redis.{plus}
use dnsd_rs.Logs.{AuditWriter, compute_hash, record_row}
use dnsd_rs.Proto.Text.{Text}
use dnsd_rs.Resolve.Block.{BlockedDomain}
use dnsd_rs.Resolve.Custom.{Zone}
use dnsd_rs.Resolve.Dualstack.{AddrText, DualstackBinding}
use dnsd_rs.Resolve.Pipeline.{Pipeline, reload_bindings, reload_policy}
use dnsd_rs.Resolve.ZoneRecords.{ZoneRecord}
use dnsd_rs.Store.Values.{Database, Value, int_value, text_value}
use dnsd_rs.Store.Statements.{
  Action, after, load_bindings, load_blocked, load_zone_records, load_zones, query, with_conn,
}
use dnsd_rs.Api.Bodies.{Response, error_json, internal_error, json_ok, plain}

-- What the API shares: the database, the pipeline, and the audit log.
pub record ApiState (db : Database) : Type 1 where
  pub world : db.World
  pub pipeline : Pipeline
  pub audit : AuditWriter

-- What is given of the surroundings of one request.
pub record Given : Type 0 where
  pub pool : Bool
  pub map_file : Option (Option Bytes)
  pub instance_id : Bytes
  pub sha256 : Bytes → Bytes
  pub ts_ms : ℕ
  pub new_id : Bytes
  pub cache_stats : ℕ × ℕ
  pub client_ip : Bytes

-- The four tables of the policy.
pub record Tables : Type 0 where
  pub zones : List Zone
  pub records : List ZoneRecord
  pub blocked : List BlockedDomain
  pub bindings : List DualstackBinding

abbrev audit_sql : String
audit_sql =
    "INSERT INTO audit_logs (ts_ms, actor, action, target, detail, client_ip, prev_hash, entry_hash, verifier) VALUES (?, ?, ?, ?, ?, ?, ?, ?, ?)"

abbrev pub is_ok : {A : Type 0} → Result A → Bool
is_ok (ok a) = true
is_ok (err e) = false
is_ok panic = false

abbrev pub empty_text : Bytes → Bool
empty_text [] = true
empty_text (c ∷ cs) = false

module _ (db : Database) (given : Given) where
  -- The reads of `reload_all`, in order.
  abbrev pub all_tables :
      List Zone → List ZoneRecord → List BlockedDomain → List DualstackBinding → Action db Tables
  all_tables zs rs bs ds w =
      (ok (record { zones = zs; records = rs; blocked = bs; bindings = ds }), w)

  abbrev pub with_blocked : List Zone → List ZoneRecord → List BlockedDomain → Action db Tables
  with_blocked zs rs bs w = after db (all_tables zs rs bs) (load_bindings db given.pool w)

  abbrev pub with_records : List Zone → List ZoneRecord → Action db Tables
  with_records zs rs w = after db (with_blocked zs rs) (load_blocked db given.pool w)

  abbrev pub with_zones : List Zone → Action db Tables
  with_zones zs w = after db (with_records zs) (load_zone_records db given.pool w)

  unfoldable pub load_tables : Action db Tables
  load_tables w = after db with_zones (load_zones db given.pool w)

  -- `AuditWriter::record`, with the insertion into the table.
  abbrev pub insert_audit :
      Bytes → Bytes → Bytes → Bytes → ApiState db → Result (List (List Value)) × db.World
  insert_audit action target detail hash st =
      with_conn db given.pool
        (query db audit_sql (
          int_value (plus given.ts_ms)
          ∷ text_value (codes "api")
          ∷ text_value action
          ∷ text_value target
          ∷ text_value detail
          ∷ text_value given.client_ip
          ∷ text_value st.audit.last_hash
          ∷ text_value hash
          ∷ text_value given.instance_id
          ∷ []))
        st.world

  abbrev pub with_insertion :
      Bytes → Bytes → Bytes → ApiState db → Result (List (List Value)) × db.World → ApiState db
  with_insertion action target detail st (r, w) = record st {
    world = w;
    audit =
        record_row given.sha256 given.pool (is_ok r) given.ts_ms (codes "api") action target detail
          given.client_ip st.audit;
  }

  unfoldable pub audited : Bytes → Bytes → Bytes → ApiState db → ApiState db
  unfolding record_row compute_hash
  audited action target detail st =
      if given.pool
      then with_insertion action target detail st (
          insert_audit action target detail
            (compute_hash given.sha256 st.audit.last_hash given.ts_ms (codes "api") action target
              detail given.client_ip)
            st)
      else st

module _ ⦃text : Text⦄ ⦃addr_text : AddrText⦄ (db : Database) (given : Given) where
  -- `Pipeline::reload` and `reload_bindings` with the tables that were read.
  abbrev pub install : Tables → Pipeline → Pipeline
  install t p =
      reload_bindings given.map_file t.bindings (reload_policy t.zones t.records t.blocked p)

  -- `reload_all`: nothing is changed unless all four tables are read.
  abbrev pub Outcome : Type 1
  Outcome = Result (Response × ApiState db)

  -- The end of a handler: what `reload_all` returns decides the response.
  abbrev pub reload_all : ApiState db → Result Tables × db.World → Outcome
  reload_all st (ok t, w) =
      ok
        (json_ok (codes "{\"ok\":true}"), record st { world = w; pipeline = install t st.pipeline })
  reload_all st (err e, w) = ok (internal_error (error_json e), record st { world = w })
  reload_all st (panic, w) = panic

  -- A write to the store, and `reload_all` behind it.
  abbrev pub written : {A : Type 0} → Action db A → ApiState db → Outcome
  written write st = reload_all st (after db (λ u w. load_tables db given w) (write st.world))

  -- What a read of the store gives the client.
  abbrev pub listed : {A : Type 0} → (A → Bytes) → ApiState db → Result A × db.World → Outcome
  listed print st (ok a, w) = ok (json_ok (print a), record st { world = w })
  listed print st (err e, w) =
      ok (internal_error (codes "{\"error\":\"db\"}"), record st { world = w })
  listed print st (panic, w) = panic

  abbrev pub readiness : ApiState db → Result (Unit {0}) × db.World → Outcome
  readiness st (ok u, w) = ok (plain 200 (codes "OK") (codes "ready"), record st { world = w })
  readiness st (err e, w) =
      ok (plain 503 (codes "Unavailable") (codes "not ready"), record st { world = w })
  readiness st (panic, w) = panic
