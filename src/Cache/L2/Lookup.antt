-- ===== src/Cache/L2/Lookup.antt =====
-- `get` of src/cache/l2.rs as a map that `put` updates.
use mathlib.Core.Option.{some-injective}
use dnsd_rs.Base.{
  All, Bool-cases, Bytes, Option, [], ap, arith, bytes_eq, bytes_eq-differs, bytes_eq→eq,
  drop-length, false, if◌then◌else◌, inl, inr, length, length-append, ltb, none, refl, some, subst,
  sym, take-length, ℕ, ◌%◌, ◌*◌, ◌++◌, ◌+◌, ◌<◌, ◌==◌, ◌^◌, ◌∙◌, ◌∷◌, ◌≡◌,
}
use dnsd_rs.Cache.L2.{
  Index, IndexEntry, L2Store, find_entry, get, insert_entry, is_expired, live_value, put, value_at,
  value_at_rest, value_of,
}
use dnsd_rs.Cache.L2.Laws.{AllFiled, IsConsistent, IsFiled, IsFiled-append, new_entry-IsFiled}
use dnsd_rs.Cache.Reader.{checksum, record_bytes}
use dnsd_rs.Cache.Reader.Laws.{header_fields-record}

find_entry-insert :
    (k j : Bytes) (e : IndexEntry) (xs : Index)
    → find_entry j (insert_entry k e xs) ≡ (if bytes_eq k j then some e else find_entry j xs)
unfolding find_entry insert_entry
find_entry-insert k j e [] = refl
find_entry-insert k j e (x ∷ xs) = elim (Bool-cases (bytes_eq x.0 k)) [
  | inl same ↦ rw (same, bytes_eq→eq x.0 k same) (ground arith)
  | inr other ↦ rw other (elim (Bool-cases (bytes_eq x.0 j)) [
    | inl here ↦ rw (here, bytes_eq-differs x.0 k j other here) refl
    | inr not_here ↦ rw not_here (find_entry-insert k j e xs)
  ])
]

find_entry-All :
    (P : Bytes → IndexEntry → Type 0) (k : Bytes) (xs : Index) (e : IndexEntry)
    → All (λ x. P x.0 x.1) xs
    → find_entry k xs ≡ some e
    → P k e
unfolding find_entry
find_entry-All P k [] e h found = absurd (cc found)
find_entry-All P k (x ∷ xs) e h found = elim (Bool-cases (bytes_eq x.0 k)) [
  | inl same ↦
      subst (λ y. P y e) (bytes_eq→eq x.0 k same)
        (subst (P x.0) (some-injective x.1 e (cc (same, found))) h.0)
  | inr other ↦ find_entry-All P k xs e h.1 (cc (other, found))
]

-- Behind a filed entry stands its value.
value_at-filed :
    (file key val : Bytes) (e : IndexEntry) (h : IsFiled file key val e)
    → value_at file e.offset ≡ some val
unfolding value_at
value_at-filed file key val e h =
    let k = length key % 2 ^ 32 in
    let v = length val % 2 ^ 32 in
    let body = key ++ val in
    let same_k : k ≡ length key = omega (arith, h.key_fits) in
    let same_n : k + v ≡ length body =
      omega (arith, h.key_fits, h.val_fits, length-append key val) in
    let enough : ltb (length (body ++ h.more)) (k + v) ≡ false =
      ground (arith, length-append body h.more) in
    let fields =
      header_fields-record k v e.expire_at_ms (checksum body e.expire_at_ms) (omega arith)
        (omega arith) h.time_fits (omega arith) in
    let found : value_at_rest (record_bytes key val e.expire_at_ms ++ h.more) ≡ some val =
      ap (value_of (body ++ h.more)) fields
      ∙ rw (enough, same_n, take-length body h.more, same_k, drop-length key val) refl in
    ap value_at_rest h.there ∙ found

live_value-filed :
    (now : ℕ) (file key val : Bytes) (e : IndexEntry) (h : IsFiled file key val e)
    → live_value now file (some e) ≡ (if is_expired now e.expire_at_ms then none else some val)
live_value-filed now file key val e h = rw (value_at-filed file key val e h) refl

-- Bytes behind the end of the log change no answer.
live_value-append :
    (now : ℕ) (file more key : Bytes) (xs : Index) (r : Option IndexEntry)
    → AllFiled file xs
    → find_entry key xs ≡ r
    → live_value now (file ++ more) r ≡ live_value now file r
live_value-append now file more key xs none h found = refl
live_value-append now file more key xs (some e) h found =
    let (val, filed) = find_entry-All (λ k d. (v : Bytes) × IsFiled file k v d) key xs e h found in
    live_value-filed now (file ++ more) key val e (IsFiled-append file more key val e filed)
    ∙ sym (live_value-filed now file key val e filed)

-- `get` is a map that `put` updates: in a consistent store, an entry put with a positive time to live is
-- there until that is over, and every other key is answered as before. The lengths and the time fit their
-- words.
pub get-put_on_disk :
    (now later ttl : ℕ) (key other val : Bytes) (s : L2Store)
    → IsConsistent s
    → length key < 2 ^ 32
    → length val < 2 ^ 32
    → now + ttl * 1000 < 2 ^ 63
    → 0 < ttl
    → get later other (put now key val ttl none s).1 ≡ (
        if bytes_eq key other
        then (if is_expired later (now + ttl * 1000) then none else some val)
        else get later other s)
unfolding get put
get-put_on_disk now later ttl key other val s h hk hv ht positive =
    let stored : (ttl == 0) ≡ false = ground arith in
    let expire = now + ttl * 1000 in
    let e : IndexEntry = record {
      offset = s.size;
      val_len = length val % 2 ^ 32;
      expire_at_ms = expire;
    } in
    let file = s.file ++ record_bytes key val expire in
    let filed = new_entry-IsFiled s key val expire h.0 hk hv (omega arith) in
    rw (stored, find_entry-insert key other e s.index)
      (elim (Bool-cases (bytes_eq key other)) [
        | inl same ↦ rw same (live_value-filed later file key val e filed)
        | inr differ ↦ rw differ (
            live_value-append later s.file (record_bytes key val expire) other s.index
              (find_entry other s.index) h.1 refl)
      ])
