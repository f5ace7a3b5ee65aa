-- ===== src/Cache/Tiered/Purge.antt =====
-- What is left behind `purge_prefix` of src/cache/mod.rs.
use dnsd_rs.Cache.L1
use dnsd_rs.Cache.L2
use dnsd_rs.Cache.L2.Lookup
use dnsd_rs.Base.{
  Bool-cases, Bytes, List, Option, [], ap, arith, bytes_eq, bytes_eq_refl, bytes_eq→eq, false, inl,
  inr, length, none, not, ok, refl, retain, some, starts_with, subst, suc, sym, true, zero, ℕ, ◌*◌,
  ◌++◌, ◌+◌, ◌/◌, ◌<◌, ◌==◌, ◌^◌, ◌∙◌, ◌∷◌, ◌≡◌,
}
use dnsd_rs.Cache.L1.{L1Cache, Shard, purge_shards, scan, shard_at, shard_get, shard_index}
use dnsd_rs.Cache.L2.{is_expired}
use dnsd_rs.Cache.L2.Laws.{IsConsistent}
use dnsd_rs.Cache.Tiered.{
  RedisOps, TieredCache, below_l1, from_l1, tiered_get, tiered_purge, tiered_put,
}

scan-purged :
    (key prefix : Bytes) (n : ℕ) (m : Shard)
    → starts_with key prefix ≡ true
    → scan key n (retain (λ x. not (starts_with x.0 prefix)) m) ≡ none
unfolding scan
scan-purged key prefix n [] h = refl
scan-purged key prefix n (x ∷ m) h = elim (Bool-cases (starts_with x.0 prefix)) [
  | inl gone ↦ rw gone (scan-purged key prefix n m h)
  | inr kept ↦ elim (Bool-cases (bytes_eq x.0 key)) [
    | inl same ↦
        absurd
          (cc (kept, subst (λ y. starts_with y prefix ≡ true) (sym (bytes_eq→eq x.0 key same)) h))
    | inr other ↦ rw (kept, other) (scan-purged key prefix (suc n) m h)
  ]
]

shard_at-purged :
    (prefix : Bytes) (ms : List Shard) (i : ℕ)
    → shard_at (purge_shards prefix ms).1 i
      ≡ retain (λ x. not (starts_with x.0 prefix)) (shard_at ms i)
unfolding purge_shards
shard_at-purged prefix [] i = refl
shard_at-purged prefix (m ∷ ms) zero = refl
shard_at-purged prefix (m ∷ ms) (suc i) = shard_at-purged prefix ms i

shard_get-none :
    (max_ttl now : ℕ) (key : Bytes) (m : Shard)
    → scan key 0 m ≡ none
    → (shard_get max_ttl now key m).0 ≡ none
unfolding shard_get
shard_get-none max_ttl now key m h = rw (h, shard_get) refl

-- No purged key is found in the first tier.
L1_get-purged :
    (now : ℕ) (key prefix : Bytes) (c : L1Cache)
    → starts_with key prefix ≡ true
    → (L1.get now key (L1.purge_prefix prefix c).1).0 ≡ none
unfolding L1.get L1.purge_prefix
L1_get-purged now key prefix c h = shard_get-none c.max_ttl_secs now key _ (
    ap (scan key 0) (shard_at-purged prefix c.shards (shard_index key))
    ∙ scan-purged key prefix 0 (shard_at c.shards (shard_index key)) h)

module _ (redis_ops : RedisOps) where
  from_l1-missed :
      (now : ℕ) (torn : Option ℕ) (key : Bytes) (v : Bytes) (c : TieredCache redis_ops)
      (p : Option Bytes × L1Cache)
      → p.0 ≡ none
      → L2.get now key c.l2 ≡ some v
      → (from_l1 redis_ops now torn key c p).0 ≡ ok (some v)
  from_l1-missed now torn key v c (some w, l1) missed held = absurd (cc missed)
  from_l1-missed now torn key v c (none, l1) missed held =
      ap (λ r. (below_l1 redis_ops now torn key (record c { l1 = l1 }) r).0) held

  -- Where an entry has just been put, with a positive time to live and whole, into tiers whose log is
  -- consistent, it is still answered behind `purge_prefix` with a prefix of its key, until its time is over.
  -- Lengths and time fit their words.
  pub tiered_get-purged :
      (now later ttl : ℕ) (torn : Option ℕ) (key raw prefix : Bytes) (c : TieredCache redis_ops)
      → IsConsistent c.l2
      → length key < 2 ^ 32
      → length raw < 2 ^ 32
      → now + ttl * 1000 < 2 ^ 63
      → 0 < ttl
      → later < now + ttl * 1000
      → starts_with key prefix ≡ true
      → (tiered_get redis_ops later torn key
          (tiered_purge redis_ops prefix (tiered_put redis_ops now none key raw ttl c)).1).0
        ≡ ok (some raw)
  unfolding tiered_get tiered_purge tiered_put
  tiered_get-purged now later ttl torn key raw prefix c h hk hv ht positive early prefixed =
      let stored : (ttl == 0) ≡ false = ground arith in
      let fresh : is_expired later (now + ttl * 1000) ≡ false = ground arith in
      let held : L2.get later key (L2.put now key raw ttl none c.l2).1 ≡ some raw =
        Lookup.get-put_on_disk now later ttl key key raw c.l2 h hk hv ht positive
        ∙ rw (bytes_eq_refl key, fresh) refl in
      rw stored (
        from_l1-missed later torn key raw
          (record c {
            l1 = (L1.purge_prefix prefix (L1.put (now / 1000) key raw ttl c.l1)).1;
            l2 = (L2.put now key raw ttl none c.l2).1;
            l3_queue = elim c.l3 [
              | none ↦ c.l3_queue
              | some conn ↦ c.l3_queue ++ ((key, raw, ttl) ∷ [])
            ];
          })
          _
          (L1_get-purged (later / 1000) key prefix (L1.put (now / 1000) key raw ttl c.l1) prefixed)
          held)
