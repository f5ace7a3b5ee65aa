-- ===== src/Store/Statements.antt =====
-- The statements of src/store/mod.rs, and its repositories.
use dnsd_rs.Base.{
  Bool, Bytes, Error, List, Option, Result, String, [], err, if◌then◌else◌, none, ok, panic, some,
  ◌>>=◌, ◌∷◌,
}
use dnsd_rs.Cache.Redis.{plus}
use dnsd_rs.Proto.Text.{Text}
use dnsd_rs.Resolve.Block.{BlockedDomain}
use dnsd_rs.Resolve.Custom.{Zone}
use dnsd_rs.Resolve.Dualstack.{DualstackBinding}
use dnsd_rs.Resolve.ZoneRecords.{ZoneRecord}
use dnsd_rs.Store.Values.{
  Answer, Database, Row, User, Value, binding_row, blocked_row, failed, int_value, record_of_row,
  role_of_text, row_list, text_value, user_row, zone_row,
}

-- The statements.
abbrev pub select_zones : String
select_zones = "SELECT id, name, enabled FROM zones WHERE enabled = 1"

abbrev pub select_records : String
select_records =
    "SELECT id, zone_id, name, rtype, value, ttl, priority, enabled FROM zone_records WHERE enabled = 1"

abbrev pub select_blocked : String
select_blocked = "SELECT id, domain, mode, enabled FROM blocked_domains WHERE enabled = 1"

abbrev pub select_bindings : String
select_bindings =
    "SELECT id, ipv6_subnet, ipv4, isp, region, enabled FROM dualstack_bindings WHERE enabled = 1"

abbrev select_user : String
select_user =
    "SELECT id, username, password_hash, role, must_change_pwd, failed_attempts, UNIX_TIMESTAMP(locked_until) FROM users WHERE username = ?"

abbrev insert_zone_sql : String
insert_zone_sql = "INSERT INTO zones (id, name, enabled) VALUES (?, ?, 1)"

abbrev insert_record_sql : String
insert_record_sql =
    "INSERT INTO zone_records (id, zone_id, name, rtype, value, ttl, priority, enabled) VALUES (?, ?, ?, ?, ?, ?, ?, 1)"

abbrev pub insert_blocked_sql : String
insert_blocked_sql = "INSERT INTO blocked_domains (id, domain, mode, enabled) VALUES (?, ?, ?, 1)"

abbrev delete_blocked_sql : String
delete_blocked_sql = "DELETE FROM blocked_domains WHERE domain = ?"

-- `exec_map`: every row by the function, in order.
unfoldable pub each_row {ℓ} : {A : Type ℓ} → (Row → Result A) → List Row → Result (List A)
each_row f [] = ok []
each_row f (r ∷ rs) = f r >>= λ a. each_row f rs >>= λ as_. ok (a ∷ as_)

abbrev pub head_row {ℓ} : {A : Type ℓ} → List A → Option A
head_row [] = none
head_row (a ∷ as_) = some a

module _ (db : Database) where
  -- A call of the store: what it returns, and the database behind it.
  abbrev pub Action : Type 0 → Type 0
  Action A = db.World → Result A × db.World

  abbrev pub after : {A B : Type 0} → (A → Action B) → Result A × db.World → Result B × db.World
  after f (ok a, w) = f a w
  after f (err e, w) = (err e, w)
  after f (panic, w) = (panic, w)

  -- `Store::conn`, for a store with a pool or without, and what is done with the connection.
  abbrev pub with_given : {A : Type 0} → Action A → Option String × db.World → Result A × db.World
  with_given f (none, w) = f w
  with_given f (some e, w) = (err (Error.db e), w)

  abbrev pub with_conn : {A : Type 0} → Bool → Action A → Action A
  with_conn pool f w =
      if pool then with_given f (db.get_conn w) else (err (Error.db "MySQL unavailable"), w)

  abbrev pub rows_of_answer : Answer × db.World → Result (List Row) × db.World
  rows_of_answer (row_list rs, w) = (ok rs, w)
  rows_of_answer (failed e, w) = (err (Error.db e), w)

  abbrev pub query : String → List Value → Action (List Row)
  query sql args w = rows_of_answer (db.run sql args w)

  abbrev pub exec_drop : String → List Value → Action (Unit {0})
  exec_drop sql args w = after (λ rs w1. (ok tt, w1)) (query sql args w)

  -- `Store::ping`
  unfoldable pub ping : Bool → Action (Unit {0})
  ping pool = with_conn pool (exec_drop "SELECT 1" [])

  -- `ensure_schema`, with the text of the schema.
  unfoldable ensure_schema : String → Bool → Action (Unit {0})
  ensure_schema schema pool w = if pool then with_conn pool (exec_drop schema []) w else (ok tt, w)

  -- A `load_` function: nothing without a pool, else every row of the statement.
  abbrev pub load_rows : {A : Type 0} → String → (Row → Result A) → Bool → Action (List A)
  load_rows sql f pool w =
      if pool
      then with_conn pool (λ w1. after (λ rs w2. (each_row f rs, w2)) (query sql [] w1)) w
      else (ok [], w)

  unfoldable pub load_zones : Bool → Action (List Zone)
  unfolding each_row
  load_zones = load_rows select_zones (zone_row db)

  unfoldable pub load_zone_records : Bool → Action (List ZoneRecord)
  unfolding each_row
  load_zone_records = load_rows select_records (record_of_row db)

  unfoldable pub load_blocked : Bool → Action (List BlockedDomain)
  unfolding each_row
  load_blocked = load_rows select_blocked (blocked_row db)

  unfoldable pub load_bindings : Bool → Action (List DualstackBinding)
  unfolding each_row
  load_bindings = load_rows select_bindings (binding_row db)

  -- `load_user`
  unfoldable load_user : Bytes → Bool → Action (Option User)
  unfolding each_row role_of_text
  load_user username pool w =
      if pool
      then with_conn pool
          (λ w1.
            after
              (λ rs w2. (
                elim (head_row rs) [ none ↦ ok none | some r ↦ user_row db r >>= λ u. ok (some u) ],
                w2,
              ))
              (query select_user (text_value username ∷ []) w1))
          w
      else (ok none, w)

  module _ ⦃text : Text⦄ where
    -- The writes; the first argument of the inserts is the new id.
    unfoldable pub insert_zone : Bytes → Bytes → Bool → Action Bytes
    insert_zone id name pool = with_conn pool (λ w.
        after (λ u w1. (ok id, w1))
          (exec_drop insert_zone_sql (text_value id ∷ text_value (text.to_lowercase name) ∷ []) w))

    unfoldable pub insert_blocked : Bytes → Bytes → Bytes → Bool → Action (Unit {0})
    insert_blocked id domain mode pool = with_conn pool (
        exec_drop insert_blocked_sql
          (text_value id ∷ text_value (text.to_lowercase domain) ∷ text_value mode ∷ []))

    unfoldable pub delete_blocked : Bytes → Bool → Action (Unit {0})
    delete_blocked domain pool =
        with_conn pool (exec_drop delete_blocked_sql (text_value (text.to_lowercase domain) ∷ []))

  unfoldable pub insert_zone_record : ZoneRecord → Bool → Action (Unit {0})
  insert_zone_record zr pool = with_conn pool (
      exec_drop insert_record_sql (
        text_value zr.id
        ∷ text_value zr.zone_id
        ∷ text_value zr.name
        ∷ text_value zr.rtype
        ∷ text_value zr.value
        ∷ int_value (plus zr.ttl)
        ∷ int_value (plus zr.priority)
        ∷ []))
