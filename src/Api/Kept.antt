-- ===== src/Api/Kept.antt =====
-- What a database that keeps its rows gives to `reload_all` of src/api/mod.rs: a blocked domain that was
-- inserted is among the rows that are read.
use dnsd_rs.Base.{
  Bool, Bytes, List, Option, Result, String, [], ap, err, false, none, ok, panic, refl, some, sym,
  true, ◌++◌, ◌∙◌, ◌∷◌, ◌≡◌, subst,
}
use dnsd_rs.Cache.Redis.{plus}
use dnsd_rs.Resolve.Block.{BlockedDomain, mode_of_text}
use dnsd_rs.Resolve.Custom.{Zone}
use dnsd_rs.Resolve.Dualstack.{DualstackBinding}
use dnsd_rs.Resolve.ZoneRecords.{ZoneRecord}
use dnsd_rs.Store.Values.{
  Answer, Database, Row, blocked_row, int_value, row_list, failed, text_value, zone_row,
  record_of_row,
}
use dnsd_rs.Store.Statements.{
  Action, after, each_row, insert_blocked_sql, load_blocked, load_rows, load_zone_records,
  load_zones, load_bindings, query, rows_of_answer, select_blocked, select_records, select_zones,
  with_conn, with_given,
}
use dnsd_rs.Store.Rows.{each_row-ok}
use dnsd_rs.Api.Reload.{
  Given, all_tables, with_blocked, with_records, with_zones, Tables, load_tables,
}

-- The database keeps a blocked domain that was inserted, through what `reload_all` does up to its reading
-- of the domains, and then gives it among the rows; its client reads a text and a one as such. `Has d m`
-- says that it holds the domain with the mode.
pub record Remembers (db : Database) (Has : Bytes → Bytes → db.World → Type 0) : Type 0 where
  pub inserted :
      (id d m : Bytes) (w w1 : db.World) (rs : List Row)
      → db.run insert_blocked_sql (text_value id ∷ text_value d ∷ text_value m ∷ []) w
        ≡ (row_list rs, w1)
      → Has d m w1
  pub on_conn : (d m : Bytes) (w : db.World) → Has d m w → Has d m (db.get_conn w).1
  pub on_zones : (d m : Bytes) (w : db.World) → Has d m w → Has d m (db.run select_zones [] w).1
  pub on_records : (d m : Bytes) (w : db.World) → Has d m w → Has d m (db.run select_records [] w).1
  pub selected :
      (d m : Bytes) (w w1 : db.World) (rs : List Row)
      → Has d m w
      → db.run select_blocked [] w ≡ (row_list rs, w1)
      → (id : Bytes) × (front : List Row) × (back : List Row) × (rs
          ≡ front
            ++ ((text_value id ∷ text_value d ∷ text_value m ∷ int_value (plus 1) ∷ []) ∷ back))
  pub reads_text : (s : Bytes) → db.as_string (text_value s) ≡ ok s
  pub reads_one : db.as_i8 (int_value (plus 1)) ≡ ok (plus 1)

-- Inversion of the calls of the store that came through.
module _ (db : Database) where
  pub after-ok :
      {A B : Type 0} (f : A → Action db B) (r : Result A × db.World) {b : B} {w : db.World}
      → after db f r ≡ (ok b, w)
      → (a : A) × (w1 : db.World) × (r ≡ (ok a, w1)) × (f a w1 ≡ (ok b, w))
  after-ok f (ok a, w1) h = (a, w1, refl, h)
  after-ok f (err e, w1) h = cc
  after-ok f (panic, w1) h = cc

  with_given-ok :
      {A : Type 0} (f : Action db A) (r : Option String × db.World) {a : A} {w : db.World}
      → with_given db f r ≡ (ok a, w)
      → f r.1 ≡ (ok a, w)
  with_given-ok f (none, w1) h = h
  with_given-ok f (some e, w1) h = cc

  pub with_conn-ok :
      {A : Type 0} (pool : Bool) (f : Action db A) (w0 : db.World) {a : A} {w : db.World}
      → with_conn db pool f w0 ≡ (ok a, w)
      → (pool ≡ true) × (f (db.get_conn w0).1 ≡ (ok a, w))
  with_conn-ok true f w0 h = (refl, with_given-ok f (db.get_conn w0) h)
  with_conn-ok false f w0 h = cc

  pub rows_of_answer-ok :
      (r : Answer × db.World) {rs : List Row} {w : db.World}
      → rows_of_answer db r ≡ (ok rs, w)
      → r ≡ (row_list rs, w)
  rows_of_answer-ok (row_list qs, w1) h = cc
  rows_of_answer-ok (failed e, w1) h = cc

  -- A read with a pool, up to the statement and behind it.
  load_rows-ok :
      {A : Type 0} (pool : Bool) (sql : String) (f : Row → Result A) (w0 : db.World) {all : List A}
      {w : db.World}
      → pool ≡ true
      → load_rows db sql f pool w0 ≡ (ok all, w)
      → (rs : List Row) × (db.run sql [] (db.get_conn w0).1 ≡ (row_list rs, w))
        × (each_row f rs ≡ ok all)
  load_rows-ok false sql f w0 on h = cc
  load_rows-ok true sql f w0 on h =
      let c = with_conn-ok true _ w0 h in
      let w1 = (db.get_conn w0).1 in
      let (rs, w2, q, e) =
        after-ok (λ (rs : List Row) (w3 : db.World). (each_row f rs, w3)) (query db sql [] w1)
          c.1 in
      let run = rows_of_answer-ok (db.run sql [] w1) q in (rs, cc (run, e), cc e)

module _ (db : Database) (given : Given) (Has : Bytes → Bytes → db.World → Type 0)
    (remembers : Remembers db Has) where
  kept_by_zones :
      (d m : Bytes) (w0 w1 : db.World) (zs : List Zone)
      → given.pool ≡ true
      → load_zones db given.pool w0 ≡ (ok zs, w1)
      → Has d m w0
      → Has d m w1
  unfolding load_zones
  kept_by_zones d m w0 w1 zs on got h =
      let (rs, run, each) = load_rows-ok db given.pool select_zones (zone_row db) w0 on got in
      subst (λ r. Has d m r.1) run (remembers.on_zones d m _ (remembers.on_conn d m w0 h))

  kept_by_records :
      (d m : Bytes) (w0 w1 : db.World) (zs : List ZoneRecord)
      → given.pool ≡ true
      → load_zone_records db given.pool w0 ≡ (ok zs, w1)
      → Has d m w0
      → Has d m w1
  unfolding load_zone_records
  kept_by_records d m w0 w1 zs on got h =
      let (rs, run, each) =
        load_rows-ok db given.pool select_records (record_of_row db) w0 on got in
      subst (λ r. Has d m r.1) run (remembers.on_records d m _ (remembers.on_conn d m w0 h))

  row_of_domain :
      (id d m : Bytes) (e : BlockedDomain)
      → blocked_row db (text_value id ∷ text_value d ∷ text_value m ∷ int_value (plus 1) ∷ [])
        ≡ ok e
      → (e.domain ≡ d) × (e.mode ≡ mode_of_text m)
  row_of_domain id d m e h =
      let same : (x y : BlockedDomain) → (let r : Result BlockedDomain = ok x in r) ≡ ok y → x ≡ y =
        λ x y k. cc k in
      let f = same _ e (
        rw
          (
            remembers.reads_text id,
            remembers.reads_text d,
            remembers.reads_text m,
            remembers.reads_one,
          )
          at h) in
      (sym (ap (λ (x : BlockedDomain). x.domain) f), sym (ap (λ (x : BlockedDomain). x.mode) f))

  load_blocked-Has :
      (d m : Bytes) (w0 w1 : db.World) (bs : List BlockedDomain)
      → given.pool ≡ true
      → load_blocked db given.pool w0 ≡ (ok bs, w1)
      → Has d m w0
      → (e : BlockedDomain) × (xs : List BlockedDomain) × (ys : List BlockedDomain) × (bs
          ≡ xs ++ (e ∷ ys))
        × (e.domain ≡ d)
        × (e.mode ≡ mode_of_text m)
  unfolding load_blocked
  load_blocked-Has d m w0 w1 bs on got h =
      let (rs, run, each) = load_rows-ok db given.pool select_blocked (blocked_row db) w0 on got in
      let (id, front, back, rows) =
        remembers.selected d m (db.get_conn w0).1 w1 rs (remembers.on_conn d m w0 h) run in
      let (e, xs, ys, row, all) =
        each_row-ok (blocked_row db) front back
          (text_value id ∷ text_value d ∷ text_value m ∷ int_value (plus 1) ∷ []) bs
          (subst (λ q. each_row (blocked_row db) q ≡ ok bs) rows each) in
      let (same_d, same_m) = row_of_domain id d m e row in (e, xs, ys, all, same_d, same_m)

  all_tables-ok :
      {x y : Tables} {v w : db.World}
      → ◌≡◌ {A = Result Tables × db.World} (ok x, v) (ok y, w)
      → x ≡ y
  all_tables-ok h = cc

  blocked_of :
      (zs : List Zone) (rs : List ZoneRecord) (bs : List BlockedDomain) (ds : List DualstackBinding)
      (t : Tables) {v w : db.World}
      → all_tables db given zs rs bs ds v ≡ (ok t, w)
      → bs ≡ t.blocked
  blocked_of zs rs bs ds t h = ap (λ (x : Tables). x.blocked) (all_tables-ok h)

  -- The tables that are read have the domain.
  pub load_tables-Has :
      (d m : Bytes) (w0 w : db.World) (t : Tables)
      → given.pool ≡ true
      → Has d m w0
      → load_tables db given w0 ≡ (ok t, w)
      → (e : BlockedDomain) × (xs : List BlockedDomain) × (ys : List BlockedDomain) × (t.blocked
          ≡ xs ++ (e ∷ ys))
        × (e.domain ≡ d)
        × (e.mode ≡ mode_of_text m)
  unfolding load_tables
  load_tables-Has d m w0 w t on h got =
      let (zs, w1, zones, got1) =
        after-ok db (with_zones db given) (load_zones db given.pool w0) got in
      let (rs, w2, records, got2) =
        after-ok db (with_records db given zs) (load_zone_records db given.pool w1) got1 in
      let (bs, w3, blocked, got3) =
        after-ok db (with_blocked db given zs rs) (load_blocked db given.pool w2) got2 in
      let (ds, w4, bindings, got4) =
        after-ok db (all_tables db given zs rs bs) (load_bindings db given.pool w3) got3 in
      let h2 = kept_by_records d m w1 w2 rs on records (kept_by_zones d m w0 w1 zs on zones h) in
      let (e, xs, ys, all, same_d, same_m) = load_blocked-Has d m w2 w3 bs on blocked h2 in
      (e, xs, ys, sym (blocked_of zs rs bs ds t got4) ∙ all, same_d, same_m)
