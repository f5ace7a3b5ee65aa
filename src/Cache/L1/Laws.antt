-- ===== src/Cache/L1/Laws.antt =====
-- What the operations of the L1 cache keep and return.
use dnsd_rs.Base.{
  All, Bool-cases, Bytes, List, [], ap, arith, bytes_eq, bytes_eq_refl, false, inl, inr, length,
  length-retain-le, length-take, min, refl, retain, set, some, suc, true, zero, ℕ, ◌+◌, ◌-◌, ◌<◌,
  ◌==◌, ◌∙◌, ◌∷◌, ◌≡◌, ◌≤◌,
}
use dnsd_rs.Cache.L1.{
  Entry, L1Cache, Shard, get, get_last, is_fresh, make_room, put, replace_or_push, scan, shard_at,
  shard_count, shard_get, shard_index, shard_put, swap_remove,
}

-- The shards are 64, and none holds more than its share.
pub record IsBounded (c : L1Cache) : Type 0 where
  pub sized : length c.shards ≡ shard_count
  pub room : 0 < c.max_per_shard
  pub within : All (λ m. length m ≤ c.max_per_shard) c.shards

shard_at-All :
    (n : ℕ) (ms : List Shard) (i : ℕ) → All (λ m. length m ≤ n) ms → length (shard_at ms i) ≤ n
shard_at-All n [] i h = omega arith
shard_at-All n (m ∷ ms) zero h = h.0
shard_at-All n (m ∷ ms) (suc i) h = shard_at-All n ms i h.1

set-All :
    (n : ℕ) (ms : List Shard) (i : ℕ) (m : Shard)
    → All (λ m. length m ≤ n) ms
    → length m ≤ n
    → All (λ m. length m ≤ n) (set ms i m)
set-All n [] i m h k = tt
set-All n (x ∷ ms) zero m h k = (k, h.1)
set-All n (x ∷ ms) (suc i) m h k = (h.0, set-All n ms i m h.1 k)

length-set : (ms : List Shard) (i : ℕ) (m : Shard) → length (set ms i m) ≡ length ms
length-set [] i m = refl
length-set (x ∷ ms) zero m = refl
length-set (x ∷ ms) (suc i) m = ap suc (length-set ms i m)

shard_at-set : (ms : List Shard) (i : ℕ) (m : Shard) → i < length ms → shard_at (set ms i m) i ≡ m
shard_at-set [] i m h = absurd (omega arith)
shard_at-set (x ∷ ms) zero m h = refl
shard_at-set (x ∷ ms) (suc i) m h = shard_at-set ms i m (omega arith)

length-set_entry : (m : Shard) (i : ℕ) (x : Bytes × Entry) → length (set m i x) ≡ length m
length-set_entry [] i x = refl
length-set_entry (y ∷ m) zero x = refl
length-set_entry (y ∷ m) (suc i) x = ap suc (length-set_entry m i x)

length-swap_remove : (i : ℕ) (m : Shard) → length (swap_remove i m) ≡ length m - 1
unfolding swap_remove
length-swap_remove i [] = omega arith
length-swap_remove i (x ∷ m) = omega (
  arith,
  length-take (length m) (set (x ∷ m) i (get_last x m)),
  length-set_entry (x ∷ m) i (get_last x m),
)

length-replace_or_push-le :
    (key : Bytes) (e : Entry) (m : Shard) → length (replace_or_push key e m) ≤ length m + 1
unfolding replace_or_push
length-replace_or_push-le key e [] = omega arith
length-replace_or_push-le key e (x ∷ m) = ground (arith, length-replace_or_push-le key e m)

length-make_room-lt :
    (cap max_ttl now : ℕ) (m : Shard)
    → 0 < cap
    → length m ≤ cap
    → length (make_room cap max_ttl now m) < cap
unfolding make_room
length-make_room-lt cap max_ttl now m h le =
    let kept = retain (λ x. is_fresh max_ttl now x.1) m in
    ground (
      arith,
      length-retain-le (λ x. is_fresh max_ttl now x.1) m,
      length-swap_remove 0 kept,
      length-swap_remove 0 m,
    )

scan-replace_or_push :
    (key : Bytes) (e : Entry) (i : ℕ) (m : Shard)
    → (j : ℕ) × (scan key i (replace_or_push key e m) ≡ some (j, e))
unfolding scan replace_or_push
scan-replace_or_push key e i [] = (i, rw (bytes_eq_refl key))
scan-replace_or_push key e i (x ∷ m) = elim (Bool-cases (bytes_eq x.0 key)) [
  | inl same ↦ (i, rw (same, same))
  | inr other ↦
      let (j, found) = scan-replace_or_push key e (suc i) m in (j, rw (other, other, found))
]

-- `put` keeps a cache bounded: its 64 shards, each within its share.
pub put-IsBounded :
    (now ttl : ℕ) (key raw : Bytes) (c : L1Cache) → IsBounded c → IsBounded (put now key raw ttl c)
unfolding put shard_put
put-IsBounded now ttl key raw c h = elim (Bool-cases (ttl == 0)) [
  | inl expired ↦ rw expired h
  | inr stored ↦ rw stored (
      let m = shard_at c.shards (shard_index key) in
      let e : Entry = record { raw = raw; stored_secs = now; ttl_secs = min ttl c.max_ttl_secs } in
      let room = make_room c.max_per_shard c.max_ttl_secs now m in
      record {
        sized = length-set c.shards (shard_index key) _ ∙ h.sized;
        room = h.room;
        within = set-All c.max_per_shard c.shards (shard_index key) _ h.within (
            omega (
              arith,
              length-replace_or_push-le key e room,
              length-make_room-lt c.max_per_shard c.max_ttl_secs now m h.room
                  (shard_at-All c.max_per_shard c.shards (shard_index key) h.within),
            ));
      })
]

shard_get-found :
    (max_ttl later j : ℕ) (key : Bytes) (e : Entry) (m : Shard)
    → scan key 0 m ≡ some (j, e)
    → is_fresh max_ttl later e ≡ true
    → (shard_get max_ttl later key m).0 ≡ some e.raw
unfolding shard_get
shard_get-found max_ttl later j key e m found fresh = rw (found, shard_get) (rw fresh refl)

-- In a bounded cache, a `get` that comes before the smaller of the two time limits returns what `put`
-- stored with a positive time to live.
pub get-put :
    (now later ttl : ℕ) (key raw : Bytes) (c : L1Cache)
    → IsBounded c
    → 0 < ttl
    → later < now + min ttl c.max_ttl_secs
    → (get later key (put now key raw ttl c)).0 ≡ some raw
unfolding get put shard_put
get-put now later ttl key raw c h positive soon =
    let i = shard_index key in
    let e : Entry = record { raw = raw; stored_secs = now; ttl_secs = min ttl c.max_ttl_secs } in
    let room = make_room c.max_per_shard c.max_ttl_secs now (shard_at c.shards i) in
    let in_range : i < length c.shards = omega (arith, shard_index-lt key, h.sized) in
    let (j, found) = scan-replace_or_push key e 0 room in
    let stored : (ttl == 0) ≡ false = ground arith in
    rw (stored, shard_at-set c.shards i (replace_or_push key e room) in_range)
      (shard_get-found c.max_ttl_secs later j key e (replace_or_push key e room) found
        (ground arith))
  where
    shard_index-lt : (key : Bytes) → shard_index key < 64
    shard_index-lt key = unfold shard_index in omega arith
