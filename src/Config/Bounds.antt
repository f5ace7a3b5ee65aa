-- ===== src/Config/Bounds.antt =====
-- What a configuration that `from_env` of src/config.rs accepts keeps to.
use dnsd_rs.Base.{
  Bool-cases, Bytes, Error, Option, Result, [], arith, bytes_eq, bytes_eq→eq, codes, err,
  if◌then◌else◌, inl, inr, ltb, none, ok, panic, refl, some, suc, zero, ℕ, ◌*◌, ◌+◌, ◌-◌, ◌<◌, ◌==◌,
  ◌>>=◌, ◌^◌, ◌∷◌, ◌≡◌, ◌≤◌, ◌⊎◌,
}
use dnsd_rs.Base.Bits.{pow-pos}
use dnsd_rs.Base.Fields.{parse_digits, parse_signless, parse_unsigned}
use dnsd_rs.Base.Maps.{map_get}
use dnsd_rs.Cache.Redis.{Signed, minus_one_less, plus}
use dnsd_rs.Config.Variables.{
  Env, as_minus, as_plus, get_i64, get_number, or_default, parse_signed, parsed_or, signed_or,
}
use dnsd_rs.Config.Files.{load_dotenv}
use dnsd_rs.Config.Settings.{Config, config_of, env_file, from_env, validate}
use dnsd_rs.Proto.Text.{Text}

parse_digits-lt :
    (bound n v : ℕ) (s : Bytes) → n < bound → parse_digits bound n s ≡ some v → v < bound
unfolding parse_digits
parse_digits-lt bound n v [] h e = ground (arith, h, e)
parse_digits-lt bound n v (c ∷ s) h e =
    ground (arith, e, parse_digits-lt bound (n * 10 + (c - b'0')) v s)

parse_signless-lt :
    (bound v : ℕ) (s : Bytes) → 0 < bound → parse_signless bound s ≡ some v → v < bound
parse_signless-lt bound v [] h e = cc
parse_signless-lt bound v (c ∷ s) h e = parse_digits-lt bound 0 v (c ∷ s) h e

parse_unsigned-lt : (bits v : ℕ) (s : Bytes) → parse_unsigned bits s ≡ some v → v < 2 ^ bits
unfolding parse_unsigned
parse_unsigned-lt bits v [] e = cc
parse_unsigned-lt bits v (c ∷ s) e = elim (Bool-cases (c == b'+')) [
  | inl sign ↦ parse_signless-lt (2 ^ bits) v s (pow-pos bits) (rw sign at e)
  | inr other ↦ parse_signless-lt (2 ^ bits) v (c ∷ s) (pow-pos bits) (rw other at e)
]

-- A number that is read fits its word, whatever the variable holds.
get_number-lt :
    (bits : ℕ) (env : Env) (key : Bytes) (def : ℕ)
    → def < 2 ^ bits
    → get_number bits env key def < 2 ^ bits
unfolding get_number
get_number-lt bits env key def h = go (map_get key env)
  where
    read : (s : Bytes) (r : Option ℕ) → parse_unsigned bits s ≡ r → or_default def r < 2 ^ bits
    read s none e = h
    read s (some v) e = parse_unsigned-lt bits v s e

    go : (v : Option Bytes) → parsed_or bits def v < 2 ^ bits
    go none = h
    go (some s) = read s (parse_unsigned bits s) refl

-- A number from -2^63 to 2^63 - 1.
abbrev IsI64 : Signed → Type 0
IsI64 (plus n) = n < 2 ^ 63
IsI64 (minus_one_less n) = n < 2 ^ 63

get_i64-IsI64 : (env : Env) (key : Bytes) (def : Signed) → IsI64 def → IsI64 (get_i64 env key def)
unfolding get_i64 parse_signed
get_i64-IsI64 env key def h = go (map_get key env)
  where
    below :
        (r : Option ℕ)
        → ((n : ℕ) → r ≡ some n → n < 2 ^ 63 + 1)
        → IsI64 (or_default def (as_minus r))
    below none k = h
    below (some zero) k = omega arith
    below (some (suc n)) k = omega (arith, k (suc n) refl)

    above :
        (r : Option ℕ) → ((n : ℕ) → r ≡ some n → n < 2 ^ 63) → IsI64 (or_default def (as_plus r))
    above none k = h
    above (some n) k = k n refl

    read : (s : Bytes) → IsI64 (or_default def (parse_signed s))
    read [] = h
    read (c ∷ cs) = elim (Bool-cases (c == b'-')) [
      | inl neg ↦ rw neg (
          below (parse_signless (2 ^ 63 + 1) cs)
            (λ n e. parse_signless-lt (2 ^ 63 + 1) n cs (omega arith) e))
      | inr pos ↦
          rw pos (above (parse_unsigned 63 (c ∷ cs)) (λ n e. parse_unsigned-lt 63 n (c ∷ cs) e))
    ]

    go : (v : Option Bytes) → IsI64 (signed_or def v)
    go none = h
    go (some s) = read s

-- The environment is one of two, the prefixes of client subnets are those of IPv4, and every other number of
-- the configuration fits the word of its field: seconds and milliseconds have 64 bits.
pub record IsValid (cfg : Config) : Type 0 where
  pub environment : (cfg.env ≡ codes "dev") ⊎ (cfg.env ≡ codes "prod")
  pub scope : cfg.ecs_scope_max ≤ 32
  pub mask : cfg.ecs_derive_mask ≤ 32
  pub qps : cfg.rate_limit_qps < 2 ^ 32
  pub conns : cfg.mysql_max_conns < 2 ^ 32
  pub depth : cfg.recurse_max_depth < 2 ^ 8
  pub entries : cfg.l1_max_entries < 2 ^ 64
  pub file_bytes : cfg.l2_max_bytes < 2 ^ 64
  pub batch : cfg.log_batch_size < 2 ^ 64
  pub l1_ttl : cfg.l1_ttl_secs < 2 ^ 64
  pub cache_ttl : cfg.cache_max_ttl < 2 ^ 64
  pub neg_ttl : cfg.neg_cache_ttl < 2 ^ 64
  pub recursion : cfg.recurse_timeout < 2 ^ 64
  pub upstream : cfg.upstream_timeout < 2 ^ 64
  pub probe : cfg.ns_probe_timeout < 2 ^ 64
  pub flush : cfg.log_flush_interval < 2 ^ 64
  pub map_api : cfg.ipv6_ipv4_map_api_timeout < 2 ^ 64
  pub redis : IsI64 cfg.redis_db

-- What `validate` lets through.
validate-ok :
    ⦃text : Text⦄ (cfg : Config)
    → validate cfg ≡ ok tt
    → ((cfg.env ≡ codes "dev") ⊎ (cfg.env ≡ codes "prod"))
      × (cfg.ecs_scope_max ≤ 32)
      × (cfg.ecs_derive_mask ≤ 32)
unfolding validate
validate-ok cfg h = elim (Bool-cases (bytes_eq cfg.env (codes "dev"))) [
  | inl dev ↦
      let (s, m) = numbers (rw dev at h) in (inl (bytes_eq→eq cfg.env (codes "dev") dev), s, m)
  | inr other ↦ elim (Bool-cases (bytes_eq cfg.env (codes "prod"))) [
    | inl prod ↦
        let (s, m) = numbers (rw (other, prod) at h) in
        (inr (bytes_eq→eq cfg.env (codes "prod") prod), s, m)
    | inr neither ↦ cc (rw (other, neither) at h)
  ]
]
  where
    numbers :
        ◌≡◌ {A = Result (Unit {0})}
          (if ltb 32 cfg.ecs_scope_max
            then err (Error.config "ECS_SCOPE_MAX must be 0..32")
            else if ltb 32 cfg.ecs_derive_mask
            then err (Error.config "ECS_DERIVE_MASK must be 0..32")
            else ok tt)
          (ok tt)
        → (cfg.ecs_scope_max ≤ 32) × (cfg.ecs_derive_mask ≤ 32)
    numbers k = (ground (arith, k), ground (arith, k))

module _ ⦃text : Text⦄ where
  abbrev pub Accepted : Result Config → Type 0
  Accepted (ok cfg) = IsValid cfg
  Accepted (err e) = Unit
  Accepted panic = Unit

  config_of-Accepted : (env : Env) → Accepted (validate (config_of env) >>= λ u. ok (config_of env))
  config_of-Accepted env = go (validate (config_of env)) refl
    where
      go :
          (r : Result (Unit {0}))
          → validate (config_of env) ≡ r
          → Accepted (r >>= λ u. ok (config_of env))
      go (ok tt) e =
          let (which, scope, mask) = validate-ok (config_of env) e in
          record {
            environment = which;
            scope = scope;
            mask = mask;
            qps =
                unfold config_of in get_number-lt 32 env (codes "RATE_LIMIT_QPS") 100 (omega arith);
            conns =
                unfold config_of in get_number-lt 32 env (codes "MYSQL_MAX_CONNS") 32 (omega arith);
            depth =
                unfold config_of in
                get_number-lt 8 env (codes "RECURSE_MAX_DEPTH") 12 (omega arith);
            entries =
                unfold config_of in
                get_number-lt 64 env (codes "L1_MAX_ENTRIES") 131072 (omega arith);
            file_bytes =
                unfold config_of in
                get_number-lt 64 env (codes "L2_MAX_BYTES") (4 * 1024 * 1024 * 1024) (omega arith);
            batch =
                unfold config_of in get_number-lt 64 env (codes "LOG_BATCH_SIZE") 500 (omega arith);
            l1_ttl =
                unfold config_of in get_number-lt 64 env (codes "L1_TTL_SECS") 60 (omega arith);
            cache_ttl =
                unfold config_of in
                get_number-lt 64 env (codes "CACHE_MAX_TTL") 21600 (omega arith);
            neg_ttl =
                unfold config_of in get_number-lt 64 env (codes "NEG_CACHE_TTL") 30 (omega arith);
            recursion =
                unfold config_of in get_number-lt 64 env (codes "RECURSE_TIMEOUT") 10 (omega arith);
            upstream =
                unfold config_of in
                get_number-lt 64 env (codes "UPSTREAM_TIMEOUT_MS") 4000 (omega arith);
            probe =
                unfold config_of in
                get_number-lt 64 env (codes "NS_PROBE_TIMEOUT_MS") 2000 (omega arith);
            flush =
                unfold config_of in
                get_number-lt 64 env (codes "LOG_FLUSH_INTERVAL") 2 (omega arith);
            map_api =
                unfold config_of in
                get_number-lt 64 env (codes "IPV6_IPV4_MAP_API_TIMEOUT_MS") 500 (omega arith);
            redis = unfold config_of in get_i64-IsI64 env (codes "REDIS_DB") (plus 0) (omega arith);
          }
      go (err x) e = tt
      go panic e = tt

  -- Whatever the environment and the files hold, a configuration that `from_env` accepts is for dev or
  -- prod, cuts client subnets to prefixes of IPv4, and each of its other numbers fits the word of its field.
  pub from_env-IsValid : (files : Bytes → Option Bytes) (env : Env) → Accepted (from_env files env)
  unfolding from_env
  from_env-IsValid files env =
      go (load_dotenv (env_file files (map_get (codes "DNSD_ENV_FILE") env)) env)
    where
      go :
          (r : Result Env)
          → Accepted (r >>= λ full. validate (config_of full) >>= λ u. ok (config_of full))
      go (ok full) = config_of-Accepted full
      go (err e) = tt
      go panic = tt
