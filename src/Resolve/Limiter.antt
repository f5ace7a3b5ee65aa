-- ===== src/Resolve/Limiter.antt =====
use dnsd_rs.Base.{
  Bool, List, Option, [], false, if◌then◌else◌, length, ltb, max, none, not, retain, some, true, ℕ,
  ◌&&◌, ◌-◌, ◌/◌, ◌==◌, ◌^◌, ◌∷◌,
}
use dnsd_rs.Proto.Types.{IpAddr}
use dnsd_rs.Resolve.Net.{v6_number}

-- The rate limiter of src/resolve/mod.rs: a bucket of tokens for each client. Its f64 arithmetic is a
-- parameter; times are numbers of nanoseconds, and one reading of the clock stands for those of one call.

-- The operations of `f64` that are used, and `Duration::as_secs_f64`.
pub record F64 : Type 1 where
  pub Num : Type 0
  pub of_nat : ℕ → Num
  pub secs : ℕ → Num
  pub add : Num → Num → Num
  pub sub : Num → Num → Num
  pub mul : Num → Num → Num
  pub smaller : Num → Num → Num
  pub lt : Num → Num → Bool
  pub le : Num → Num → Bool

abbrev ip_eq : IpAddr → IpAddr → Bool
ip_eq (IpAddr.v4 a) (IpAddr.v4 b) = a.o0 == b.o0 && a.o1 == b.o1 && a.o2 == b.o2 && a.o3 == b.o3
ip_eq (IpAddr.v6 a) (IpAddr.v6 b) = v6_number a == v6_number b
ip_eq (IpAddr.v4 a) (IpAddr.v6 b) = false
ip_eq (IpAddr.v6 a) (IpAddr.v4 b) = false

module _ (f64 : F64) where
  -- `HashMap<IpAddr, (f64, Instant)>`
  abbrev Buckets : Type 0
  Buckets = List (IpAddr × (f64.Num × ℕ))

  pub record Limiter : Type 0 where
    pub qps : f64.Num
    pub buckets : Buckets

  -- `Limiter::new`
  abbrev pub new_limiter : ℕ → Limiter
  new_limiter qps = record { qps = f64.of_nat (max qps 1); buckets = [] }

  unfoldable find_bucket : IpAddr → Buckets → Option (f64.Num × ℕ)
  find_bucket ip [] = none
  find_bucket ip (x ∷ xs) = let rest = find_bucket ip xs in if ip_eq x.0 ip then some x.1 else rest

  unfoldable set_bucket : IpAddr → f64.Num × ℕ → Buckets → Buckets
  set_bucket ip v [] = (ip, v) ∷ []
  set_bucket ip v (x ∷ xs) =
      let rest = set_bucket ip v xs in if ip_eq x.0 ip then (x.0, v) ∷ xs else x ∷ rest

  -- The cleanup of `allow`.
  abbrev cleaned : ℕ → Buckets → Buckets
  cleaned now b =
      if ltb 65536 (length b) then retain (λ x. ltb ((now - x.1.1) / 10 ^ 9) 300) b else b

  -- The tokens of a bucket now.
  abbrev refilled : f64.Num → ℕ → f64.Num × ℕ → f64.Num
  refilled qps now (tokens, last) =
      f64.smaller (f64.add tokens (f64.mul (f64.secs (now - last)) qps)) qps

  abbrev bucket_of : f64.Num → ℕ → Option (f64.Num × ℕ) → f64.Num × ℕ
  bucket_of qps now none = (qps, now)
  bucket_of qps now (some b) = b

  -- `Limiter::allow`
  unfoldable pub allow : ℕ → IpAddr → Limiter → Bool × Limiter
  unfolding find_bucket set_bucket
  allow now ip l =
      let b = cleaned now l.buckets in
      let tokens = refilled l.qps now (bucket_of l.qps now (find_bucket ip b)) in
      let short = f64.lt tokens (f64.of_nat 1) in
      let left = if short then tokens else f64.sub tokens (f64.of_nat 1) in
      if f64.le l.qps (f64.of_nat 0)
      then (true, l)
      else (not short, record l { buckets = set_bucket ip (left, now) b })
