-- ===== src/Cache/Tiered.antt =====
-- src/cache/mod.rs: the three tiers. Redis is an interface, whose operations are those that this file
-- calls; what is sent to the thread that writes to it stands in a queue. The clock is an argument, in
-- milliseconds, and so is how much of a record reaches the disk before a write fails.
use dnsd_rs.Cache.L1
use dnsd_rs.Cache.L2
pub mod Purge
pub mod Errors
use dnsd_rs.Base.{
  Bytes, List, Option, Result, [], err, if◌then◌else◌, none, ok, panic, some, ℕ, ◌++◌, ◌/◌, ◌==◌,
  ◌∷◌,
}
use dnsd_rs.Cache.L1.{L1Cache}
use dnsd_rs.Cache.L2.{L2Store, entries}

-- The operations of `Redis`; what `set` and `del` give back is only logged or dropped.
pub record RedisOps : Type 1 where
  pub Conn : Type 0
  pub remote_get : Bytes → Conn → Result (Option Bytes) × Conn
  pub remote_set : Bytes → Bytes → ℕ → Conn → Conn
  pub remote_del : Bytes → Conn → Conn

module _ (redis_ops : RedisOps) where
  pub record TieredCache : Type 0 where
    pub l1 : L1Cache
    pub l2 : L2Store
    pub l3 : Option redis_ops.Conn
    pub l3_queue : List (Bytes × Bytes × ℕ)

  -- The first tier with a value that comes from a lower one.
  abbrev promote : ℕ → Bytes → Bytes → TieredCache → TieredCache
  promote now key v c = record c { l1 = L1.put (now / 1000) key v 60 c.l1 }

  -- The last branch of `get`.
  abbrev pub from_l3 :
      ℕ
      → Option ℕ
      → Bytes
      → TieredCache
      → Result (Option Bytes) × redis_ops.Conn
      → Result (Option Bytes) × TieredCache
  from_l3 now torn key c (ok (some v), conn) = (
    ok (some v),
    promote now key v (record c { l2 = (L2.put now key v 60 torn c.l2).1; l3 = some conn }),
  )
  from_l3 now torn key c (ok none, conn) = (ok none, record c { l3 = some conn })
  from_l3 now torn key c (err e, conn) = (ok none, record c { l3 = some conn })
  from_l3 now torn key c (panic, conn) = (panic, record c { l3 = some conn })

  abbrev pub below_l2 :
      ℕ
      → Option ℕ
      → Bytes
      → TieredCache
      → Option redis_ops.Conn
      → Result (Option Bytes) × TieredCache
  below_l2 now torn key c none = (ok none, c)
  below_l2 now torn key c (some conn) = from_l3 now torn key c (redis_ops.remote_get key conn)

  abbrev pub below_l1 :
      ℕ → Option ℕ → Bytes → TieredCache → Option Bytes → Result (Option Bytes) × TieredCache
  below_l1 now torn key c (some v) = (ok (some v), promote now key v c)
  below_l1 now torn key c none = below_l2 now torn key c c.l3

  abbrev pub from_l1 :
      ℕ
      → Option ℕ
      → Bytes
      → TieredCache
      → Option Bytes × L1Cache
      → Result (Option Bytes) × TieredCache
  from_l1 now torn key c (some v, l1) = (ok (some v), record c { l1 = l1 })
  from_l1 now torn key c (none, l1) =
      below_l1 now torn key (record c { l1 = l1 }) (L2.get now key c.l2)

  -- `TieredCache::get`
  unfoldable pub tiered_get :
      ℕ → Option ℕ → Bytes → TieredCache → Result (Option Bytes) × TieredCache
  tiered_get now torn key c = from_l1 now torn key c (L1.get (now / 1000) key c.l1)

  -- `TieredCache::put`
  unfoldable pub tiered_put : ℕ → Option ℕ → Bytes → Bytes → ℕ → TieredCache → TieredCache
  tiered_put now torn key raw ttl c = if ttl == 0 then c else record c {
    l1 = L1.put (now / 1000) key raw ttl c.l1;
    l2 = (L2.put now key raw ttl torn c.l2).1;
    l3_queue = elim c.l3 [ none ↦ c.l3_queue | some conn ↦ c.l3_queue ++ ((key, raw, ttl) ∷ []) ];
  }

  -- A turn of the thread that writes to the third tier.
  unfoldable write_queued : TieredCache → TieredCache
  write_queued c = elim c.l3_queue [
    | [] ↦ c
    | (key, raw, ttl) ∷ more ↦ record c {
      l3 = elim c.l3 [ none ↦ none | some conn ↦ some (redis_ops.remote_set key raw ttl conn) ];
      l3_queue = more;
    }
  ]

  -- `TieredCache::del`
  unfoldable tiered_del : Bytes → TieredCache → TieredCache
  tiered_del key c = record c {
    l1 = L1.del key c.l1;
    l2 = L2.delete key c.l2;
    l3 = elim c.l3 [ none ↦ none | some conn ↦ some (redis_ops.remote_del key conn) ];
  }

  -- `TieredCache::purge_prefix`
  unfoldable pub tiered_purge : Bytes → TieredCache → ℕ × TieredCache
  tiered_purge prefix c =
      let purged = L1.purge_prefix prefix c.l1 in (purged.0, record c { l1 = purged.1 })

  -- `TieredCache::stats`
  abbrev stats : TieredCache → ℕ × ℕ
  stats c = (L1.len c.l1, entries c.l2)
