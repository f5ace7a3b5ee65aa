-- ===== src/Api/Blocking.antt =====
-- A name that is blocked through src/api/mod.rs: from the request to the list of src/resolve/block.rs.
use dnsd_rs.Base.{
  Bool, Bytes, List, Option, Result, [], codes, err, false, if◌then◌else◌, inl, inr, none, ok,
  panic, refl, some, sym, true, ◌++◌, ◌==◌, ◌∷◌, ◌≡◌, ◌⊎◌, subst,
}
use dnsd_rs.Proto.Text.{Text}
use dnsd_rs.Resolve.Block.{
  BlockMode, BlockedDomain, block_name, mode_for, mode_of_text, new_list, strip_star,
}
use dnsd_rs.Resolve.Block.Match.{
  as_exact, as_wildcard, first_wildcard, last_exact, mode_for-new_list, or_else,
}
use dnsd_rs.Resolve.Dualstack.{AddrText}
use dnsd_rs.Resolve.Pipeline.{Pipeline, reload_bindings, reload_policy}
use dnsd_rs.Server.Http.{HttpRequest}
use dnsd_rs.Store.Values.{Database, Row, text_value}
use dnsd_rs.Store.Statements.{after, exec_drop, insert_blocked, insert_blocked_sql, query}
use dnsd_rs.Api.Bodies.{Json, bad_request, Response, or_text, parse_json_field}
use dnsd_rs.Api.Reload.{
  ApiState, Given, Outcome, Tables, audited, install, load_tables, reload_all, written, empty_text,
}
use dnsd_rs.Api.Route.{route, serve_endpoint, endpoint_of, add_blocked, post_blocked}
use dnsd_rs.Api.Kept.{Remembers, after-ok, load_tables-Has, rows_of_answer-ok, with_conn-ok}

-- A row covers a name: as the name itself, or as a wildcard above it.
abbrev pub Covers : ⦃text : Text⦄ → Bytes → Bytes → BlockMode → Type 0
Covers n domain mode =
    (as_exact n (strip_star (block_name domain)) (block_name domain) mode ≡ some mode)
    ⊎ (as_wildcard n (strip_star (block_name domain)) mode ≡ some mode)

abbrev IsSome : Option BlockMode → Type 0
IsSome r = (m : BlockMode) × (r ≡ some m)

module _ ⦃text : Text⦄ where
  or_else-left : (q r : Option BlockMode) → IsSome q → IsSome (or_else q r)
  or_else-left none r (m, e) = cc
  or_else-left (some n) r h = (n, refl)

  or_else-right : (q r : Option BlockMode) → IsSome r → IsSome (or_else q r)
  or_else-right none r h = h
  or_else-right (some n) r h = (n, refl)

module _ ⦃text : Text⦄ (n : Bytes) (e : BlockedDomain) where
  last_exact-IsSome :
      (xs ys : List BlockedDomain)
      → IsSome (as_exact n (strip_star (block_name e.domain)) (block_name e.domain) e.mode)
      → IsSome (last_exact n (xs ++ (e ∷ ys)))
  last_exact-IsSome [] ys h = or_else-right (last_exact n ys) _ h
  last_exact-IsSome (x ∷ xs) ys h = or_else-left _ _ (last_exact-IsSome xs ys h)

  first_wildcard-IsSome :
      (xs ys : List BlockedDomain)
      → IsSome (as_wildcard n (strip_star (block_name e.domain)) e.mode)
      → IsSome (first_wildcard n (xs ++ (e ∷ ys)))
  first_wildcard-IsSome [] ys h = or_else-left _ (first_wildcard n ys) h
  first_wildcard-IsSome (x ∷ xs) ys h =
      or_else-right (as_wildcard n (strip_star (block_name x.domain)) x.mode) _
        (first_wildcard-IsSome xs ys h)

covered-IsSome :
    ⦃text : Text⦄ (q : Bytes) (e : BlockedDomain) (xs ys : List BlockedDomain)
    → Covers (block_name q) e.domain e.mode
    → IsSome (mode_for (new_list (xs ++ (e ∷ ys))) q)
covered-IsSome q e xs ys (inl h) =
    rw (mode_for-new_list (xs ++ (e ∷ ys)) q)
      (or_else-left _ _ (last_exact-IsSome (block_name q) e xs ys (e.mode, h)))
covered-IsSome q e xs ys (inr h) = rw (mode_for-new_list (xs ++ (e ∷ ys)) q) (
    or_else-right (last_exact (block_name q) (xs ++ (e ∷ ys))) _
      (first_wildcard-IsSome (block_name q) e xs ys (e.mode, h)))

module _ ⦃text : Text⦄ ⦃addr_text : AddrText⦄ (db : Database) (given : Given) (json : Json)
    (Has : Bytes → Bytes → db.World → Type 0) (remembers : Remembers db Has) where
  first_ok :
      {x resp : Response} {y st' : ApiState db}
      → (let r : Outcome db given = ok (x, y) in r) ≡ ok (resp, st')
      → x ≡ resp
  first_ok h = cc

  second_ok :
      {x resp : Response} {y st' : ApiState db}
      → (let r : Outcome db given = ok (x, y) in r) ≡ ok (resp, st')
      → y ≡ st'
  second_ok h = cc

  -- Where the client is told that it is done, the name is blocked from then on.
  abbrev pub Blocks : Bytes → Outcome db given → Type 0
  Blocks q (ok (resp, st')) =
      (resp.status == 200) ≡ true → IsSome (mode_for st'.pipeline.policy.block q)
  Blocks q (err e) = true ≡ false
  Blocks q panic = Unit

  install-block :
      (t : Tables) (p : Pipeline) → (install db given t p).policy.block ≡ new_list t.blocked
  unfolding reload_policy reload_bindings
  install-block t p = refl

  reload_all-Blocks :
      (d m q : Bytes) (st : ApiState db) (w1 : db.World) (r : Result Tables × db.World)
      → given.pool ≡ true
      → Has d m w1
      → Covers (block_name q) d (mode_of_text m)
      → load_tables db given w1 ≡ r
      → Blocks q (reload_all db given st r)
  reload_all-Blocks d m q st w1 (ok t, w2) on h c e =
      let (x, xs, ys, all, same_d, same_m) =
        load_tables-Has db given Has remembers d m w1 w2 t on h e in
      let cover : Covers (block_name q) x.domain x.mode =
        subst (λ z. Covers (block_name q) z x.mode) (sym same_d)
          (subst (λ z. Covers (block_name q) d z) (sym same_m) c) in
      λ done.
        subst (λ l. IsSome (mode_for l q)) (sym (install-block t st.pipeline))
          (subst (λ bs. IsSome (mode_for (new_list bs) q)) (sym all)
            (covered-IsSome q x xs ys cover))
  reload_all-Blocks d m q st w1 (err x, w2) on h c e = λ done. cc done
  reload_all-Blocks d m q st w1 (panic, w2) on h c e = tt

  -- The insertion that came through.
  insert_blocked-Has :
      (id d m : Bytes) (w w1 : db.World)
      → insert_blocked db id d m given.pool w ≡ (ok tt, w1)
      → (given.pool ≡ true) × Has (text.to_lowercase d) m w1
  unfolding insert_blocked
  insert_blocked-Has id d m w w1 got =
      let args = text_value id ∷ text_value (text.to_lowercase d) ∷ text_value m ∷ [] in
      let (on, dropped) = with_conn-ok db given.pool (exec_drop db insert_blocked_sql args) w got in
      let w0 = (db.get_conn w).1 in
      let (rs, w2, asked, same) =
        after-ok db (λ (rs : List Row) (v : db.World). (ok tt, v))
          (query db insert_blocked_sql args w0) dropped in
      let run = rows_of_answer-ok db (db.run insert_blocked_sql args w0) asked in
      (
        on,
        subst (Has (text.to_lowercase d) m) (world_ok same)
            (remembers.inserted id (text.to_lowercase d) m w0 w2 rs run),
      )
    where
      world_ok :
          {v w : db.World} → ◌≡◌ {A = Result (Unit {0}) × db.World} (ok tt, v) (ok tt, w) → v ≡ w
      world_ok h = cc

  written-Blocks :
      (d m q : Bytes) (st : ApiState db)
      → Covers (block_name q) (text.to_lowercase d) (mode_of_text m)
      → Blocks q (written db given (insert_blocked db given.new_id d m given.pool) st)
  written-Blocks d m q st c = go (insert_blocked db given.new_id d m given.pool st.world) refl
    where
      go :
          (r : Result (Unit {0}) × db.World)
          → insert_blocked db given.new_id d m given.pool st.world ≡ r
          → Blocks q (reload_all db given st (after db (λ u w. load_tables db given w) r))
      go (ok tt, w1) e =
          let (on, h) = insert_blocked-Has given.new_id d m st.world w1 e in
          reload_all-Blocks (text.to_lowercase d) m q st w1 (load_tables db given w1) on h c refl
      go (err x, w1) e = λ done. cc done
      go (panic, w1) e = tt

  -- Where the database keeps what it is given: a request to block a domain that the client is told is done
  -- blocks every name that the stored domain, in lower case, is or that lies below it as a wildcard, in
  -- the list that queries are answered from; the domain and the mode, loopback where there is none, are
  -- those of the body.
  pub post_blocked-Blocks :
      (domain mode q : Bytes) (req : HttpRequest) (st : ApiState db)
      → req.method ≡ codes "POST"
      → req.path ≡ codes "/api/v1/blocked"
      → parse_json_field json req.body (codes "domain") ≡ some domain
      → or_text (codes "loopback") (parse_json_field json req.body (codes "mode")) ≡ mode
      → Covers (block_name q) (text.to_lowercase domain) (mode_of_text mode)
      → Blocks q (route db given json req st)
  unfolding route serve_endpoint endpoint_of post_blocked
  post_blocked-Blocks domain mode q req st post path asked how c =
      let at_post : endpoint_of req.method req.path ≡ add_blocked = rw (post, path) refl in
      subst (λ e. Blocks q (serve_endpoint db given json e req st)) (sym at_post)
        (rw (asked, how) (if_Blocks (empty_text domain)))
    where
      if_Blocks :
          (b : Bool)
          → Blocks q (
              if b
              then ok (bad_request (codes "{\"error\":\"domain required\"}"), st)
              else written db given (insert_blocked db given.new_id domain mode given.pool) (
                  audited db given
                    (codes "block.add")
                    domain
                    (codes "{\"mode\":\"" ++ (mode ++ codes "\"}"))
                    st))
      if_Blocks true = λ done. cc done
      if_Blocks false = written-Blocks domain mode q _ c
