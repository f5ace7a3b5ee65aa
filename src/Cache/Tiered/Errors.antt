-- ===== src/Cache/Tiered/Errors.antt =====
use dnsd_rs.Base.{Bytes, NeverFails, Option, Result, err, none, ok, panic, some, ℕ}
use dnsd_rs.Cache.L1.{L1Cache}
use dnsd_rs.Cache.Tiered.{RedisOps, TieredCache, below_l1, below_l2, from_l1, from_l3, tiered_get}

-- No error of a tier gets through `TieredCache::get`.

module _ (redis_ops : RedisOps) where
  from_l3-NeverFails :
      (now : ℕ) (torn : Option ℕ) (key : Bytes) (c : TieredCache redis_ops)
      (r : Result (Option Bytes) × redis_ops.Conn)
      → NeverFails (from_l3 redis_ops now torn key c r).0
  from_l3-NeverFails now torn key c (ok (some v), conn) = tt
  from_l3-NeverFails now torn key c (ok none, conn) = tt
  from_l3-NeverFails now torn key c (err e, conn) = tt
  from_l3-NeverFails now torn key c (panic, conn) = tt

  below_l2-NeverFails :
      (now : ℕ) (torn : Option ℕ) (key : Bytes) (c : TieredCache redis_ops)
      (l3 : Option redis_ops.Conn)
      → NeverFails (below_l2 redis_ops now torn key c l3).0
  below_l2-NeverFails now torn key c none = tt
  below_l2-NeverFails now torn key c (some conn) = from_l3-NeverFails now torn key c _

  below_l1-NeverFails :
      (now : ℕ) (torn : Option ℕ) (key : Bytes) (c : TieredCache redis_ops) (found : Option Bytes)
      → NeverFails (below_l1 redis_ops now torn key c found).0
  below_l1-NeverFails now torn key c (some v) = tt
  below_l1-NeverFails now torn key c none = below_l2-NeverFails now torn key c c.l3

  from_l1-NeverFails :
      (now : ℕ) (torn : Option ℕ) (key : Bytes) (c : TieredCache redis_ops)
      (p : Option Bytes × L1Cache)
      → NeverFails (from_l1 redis_ops now torn key c p).0
  from_l1-NeverFails now torn key c (some v, l1) = tt
  from_l1-NeverFails now torn key c (none, l1) =
      below_l1-NeverFails now torn key (record c { l1 = l1 }) _

  -- It gives what was found, nothing, or a panic of the client.
  pub tiered_get-NeverFails :
      (now : ℕ) (torn : Option ℕ) (key : Bytes) (c : TieredCache redis_ops)
      → NeverFails (tiered_get redis_ops now torn key c).0
  unfolding tiered_get
  tiered_get-NeverFails now torn key c = from_l1-NeverFails now torn key c _
