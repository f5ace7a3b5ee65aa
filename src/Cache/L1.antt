-- ===== src/Cache/L1.antt =====
-- src/cache/l1.rs: 64 shards of raw responses. A time-to-live is a natural number, where 0 stands for
-- any that is not positive; the clock is an argument, in seconds. `now - stored < ttl` is written
-- `now < stored + ttl`, which is the same on integers, also where the clock went back.
pub mod Laws
use dnsd_rs.Base.{
  Bool, Bytes, List, Option, [], bit_xor, bytes_eq, if◌then◌else◌, leb, length, ltb, max, min, none,
  not, replicate, retain, set, some, starts_with, suc, take, zero, ℕ, ◌%◌, ◌&&◌, ◌*◌, ◌+◌, ◌-◌, ◌/◌,
  ◌==◌, ◌^◌, ◌∷◌,
}

pub record Entry : Type 0 where
  pub raw : Bytes
  pub stored_secs : ℕ
  pub ttl_secs : ℕ

abbrev pub Shard : Type 0
Shard = List (Bytes × Entry)

pub record L1Cache : Type 0 where
  pub shards : List Shard
  pub max_per_shard : ℕ
  pub max_ttl_secs : ℕ

abbrev pub shard_count : ℕ
shard_count = 64

-- `L1Cache::new`
unfoldable pub new_cache : ℕ → ℕ → L1Cache
new_cache max_entries max_ttl_secs = record {
  shards = replicate shard_count [];
  max_per_shard = max ((if max_entries == 0 then 131072 else max_entries) / shard_count) 64;
  max_ttl_secs = if max_ttl_secs == 0 then 60 else max_ttl_secs;
}

-- `fnv32`
unfoldable fnv32_loop : ℕ → Bytes → ℕ
fnv32_loop h [] = h
fnv32_loop h (b ∷ bs) = fnv32_loop (bit_xor h b * 16777619 % 2 ^ 32) bs

unfoldable pub shard_index : Bytes → ℕ
unfolding fnv32_loop
shard_index key = fnv32_loop 2166136261 key % shard_count

-- The test of `get` and of the eviction.
abbrev pub is_fresh : ℕ → ℕ → Entry → Bool
is_fresh max_ttl now e = ltb now (e.stored_secs + e.ttl_secs) && ltb now (e.stored_secs + max_ttl)

-- The scan of `get`: the first entry with the key, and its index from `i`.
unfoldable pub scan : Bytes → ℕ → Shard → Option (ℕ × Entry)
scan key i [] = none
scan key i (x ∷ m) = if bytes_eq x.0 key then some (i, x.1) else scan key (suc i) m

abbrev pub get_last : (Bytes × Entry) → Shard → Bytes × Entry
get_last x [] = x
get_last x (y ∷ m) = get_last y m

-- `Vec::swap_remove`: the last element takes the place of the one removed.
unfoldable pub swap_remove : ℕ → Shard → Shard
swap_remove i [] = []
swap_remove i (x ∷ m) = take (length m) (set (x ∷ m) i (get_last x m))

-- `get`, on the shard of the key: the value, and the shard behind it.
unfoldable pub shard_get : ℕ → ℕ → Bytes → Shard → Option Bytes × Shard
shard_get max_ttl now key m = elim (scan key 0 m) [
  | none ↦ (none, m)
  | some (i, e) ↦ if is_fresh max_ttl now e then (some e.raw, m) else (none, swap_remove i m)
]

-- The end of `put`: an entry with the key is replaced, else one is pushed.
unfoldable pub replace_or_push : Bytes → Entry → Shard → Shard
replace_or_push key e [] = (key, e) ∷ []
replace_or_push key e (x ∷ m) =
    if bytes_eq x.0 key then (x.0, e) ∷ m else x ∷ replace_or_push key e m

-- The two steps that make room in a full shard.
unfoldable pub make_room : ℕ → ℕ → ℕ → Shard → Shard
make_room cap max_ttl now m =
    let kept = if leb cap (length m) then retain (λ x. is_fresh max_ttl now x.1) m else m in
    if leb cap (length kept) then swap_remove 0 kept else kept

-- `put`, on the shard of the key.
unfoldable pub shard_put : ℕ → ℕ → ℕ → Bytes → Bytes → ℕ → Shard → Shard
shard_put cap max_ttl now key raw ttl m =
    replace_or_push key (record { raw = raw; stored_secs = now; ttl_secs = min ttl max_ttl })
      (make_room cap max_ttl now m)

-- The shard of a key; every index is below the number of shards.
abbrev pub shard_at : List Shard → ℕ → Shard
shard_at [] i = []
shard_at (m ∷ ms) zero = m
shard_at (m ∷ ms) (suc i) = shard_at ms i

-- `L1Cache::get`
unfoldable pub get : ℕ → Bytes → L1Cache → Option Bytes × L1Cache
get now key c =
    let i = shard_index key in
    let found = shard_get c.max_ttl_secs now key (shard_at c.shards i) in
    (found.0, record c { shards = set c.shards i found.1 })

-- `L1Cache::put`
unfoldable pub put : ℕ → Bytes → Bytes → ℕ → L1Cache → L1Cache
put now key raw ttl c =
    let i = shard_index key in
    if ttl == 0 then c else record c {
      shards =
          set c.shards i
            (shard_put c.max_per_shard c.max_ttl_secs now key raw ttl (shard_at c.shards i));
    }

-- `L1Cache::del`
unfoldable pub del : Bytes → L1Cache → L1Cache
del key c =
    let i = shard_index key in
    record c {
      shards = set c.shards i (retain (λ x. not (bytes_eq x.0 key)) (shard_at c.shards i));
    }

-- `L1Cache::purge_prefix`: the number of entries removed, and the cache behind it.
unfoldable pub purge_shards : Bytes → List Shard → ℕ × List Shard
purge_shards prefix [] = (0, [])
purge_shards prefix (m ∷ ms) =
    let kept = retain (λ x. not (starts_with x.0 prefix)) m in
    let rest = purge_shards prefix ms in (length m - length kept + rest.0, kept ∷ rest.1)

unfoldable pub purge_prefix : Bytes → L1Cache → ℕ × L1Cache
purge_prefix prefix c =
    let done = purge_shards prefix c.shards in (done.0, record c { shards = done.1 })

-- `L1Cache::len`
unfoldable pub total : List Shard → ℕ
total [] = 0
total (m ∷ ms) = length m + total ms

unfoldable pub len : L1Cache → ℕ
len c = total c.shards
