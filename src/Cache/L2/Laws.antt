-- ===== src/Cache/L2/Laws.antt =====
-- What the log keeps: the index leads to whole records.

use dnsd_rs.Base.{
  All, Bool-cases, Bytes, [], ap, append-nil, append_assoc, arith, bytes_eq, bytes_eq→eq, drop,
  drop-append, drop-length, inl, inr, length, length-append, none, subst, sym, ℕ, ◌%◌, ◌*◌, ◌++◌,
  ◌+◌, ◌<◌, ◌==◌, ◌^◌, ◌∙◌, ◌∷◌, ◌≡◌, ◌≤◌,
}
use dnsd_rs.Cache.L2.{Index, IndexEntry, L2Store, insert_entry, put}
use dnsd_rs.Cache.Reader.{record_bytes}

-- A record of the key and the value stands at the offset, with the time of the entry.
pub record IsFiled (file : Bytes) (key : Bytes) (val : Bytes) (e : IndexEntry) : Type 0 where
  pub more : Bytes
  pub key_fits : length key < 2 ^ 32
  pub val_fits : length val < 2 ^ 32
  pub time_fits : e.expire_at_ms < 2 ^ 64
  pub inside : e.offset ≤ length file
  pub there : drop e.offset file ≡ record_bytes key val e.expire_at_ms ++ more

-- Every entry leads to the record of some value.
abbrev pub AllFiled : Bytes → Index → Type 0
AllFiled file xs = All (λ x. (val : Bytes) × IsFiled file x.0 val x.1) xs

-- The size is that of the file, and every entry of the index is filed.
abbrev pub IsConsistent : L2Store → Type 0
IsConsistent s = (s.size ≡ length s.file) × AllFiled s.file s.index

pub IsFiled-append :
    (file more key val : Bytes) (e : IndexEntry)
    → IsFiled file key val e
    → IsFiled (file ++ more) key val e
IsFiled-append file more key val e h = record {
  more = h.more ++ more;
  key_fits = h.key_fits;
  val_fits = h.val_fits;
  time_fits = h.time_fits;
  inside = omega (arith, h.inside, length-append file more);
  there =
      drop-append e.offset file more h.inside
      ∙ ap (λ x. x ++ more) h.there
      ∙ append_assoc (record_bytes key val e.expire_at_ms) h.more more;
}

AllFiled-append : (file more : Bytes) (xs : Index) → AllFiled file xs → AllFiled (file ++ more) xs
AllFiled-append file more [] h = tt
AllFiled-append file more (x ∷ xs) h =
    ((h.0.0, IsFiled-append file more x.0 h.0.0 x.1 h.0.1), AllFiled-append file more xs h.1)

insert_entry-All :
    (P : Bytes → IndexEntry → Type 0) (k : Bytes) (e : IndexEntry) (xs : Index)
    → P k e
    → All (λ x. P x.0 x.1) xs
    → All (λ x. P x.0 x.1) (insert_entry k e xs)
unfolding insert_entry
insert_entry-All P k e [] p h = (p, tt)
insert_entry-All P k e (x ∷ xs) p h = elim (Bool-cases (bytes_eq x.0 k)) [
  | inl same ↦ rw same (subst (λ y. P y e) (sym (bytes_eq→eq x.0 k same)) p, h.1)
  | inr other ↦ rw other (h.0, insert_entry-All P k e xs p h.1)
]

-- The entry that `put` makes is filed in the file that it leaves.
pub new_entry-IsFiled :
    (s : L2Store) (key val : Bytes) (expire : ℕ)
    → s.size ≡ length s.file
    → length key < 2 ^ 32
    → length val < 2 ^ 32
    → expire < 2 ^ 64
    → IsFiled
        (s.file ++ record_bytes key val expire)
        key
        val
        (record { offset = s.size; val_len = length val % 2 ^ 32; expire_at_ms = expire })
new_entry-IsFiled s key val expire sized hk hv ht =
    let bytes = record_bytes key val expire in
    record {
      more = [];
      key_fits = hk;
      val_fits = hv;
      time_fits = ht;
      inside = omega (arith, sized, length-append s.file bytes);
      there =
          ap (λ n. drop n (s.file ++ bytes)) sized
          ∙ drop-length s.file bytes
          ∙ sym (append-nil bytes);
    }

-- A `put` that comes through keeps the store consistent, where the lengths and the time fit their words.
pub put-IsConsistent :
    (now ttl : ℕ) (key val : Bytes) (s : L2Store)
    → IsConsistent s
    → length key < 2 ^ 32
    → length val < 2 ^ 32
    → now + ttl * 1000 < 2 ^ 63
    → IsConsistent (put now key val ttl none s).1
unfolding put
put-IsConsistent now ttl key val s h hk hv ht = elim (Bool-cases (ttl == 0)) [
  | inl expired ↦ rw expired h
  | inr stored ↦
      let expire = now + ttl * 1000 in
      let e : IndexEntry = record {
        offset = s.size;
        val_len = length val % 2 ^ 32;
        expire_at_ms = expire;
      } in
      let bytes = record_bytes key val expire in
      let filed = new_entry-IsFiled s key val expire h.0 hk hv (omega arith) in
      rw stored (
        ap (λ (n : ℕ). n + length bytes) h.0 ∙ sym (length-append s.file bytes),
        insert_entry-All (λ k d. (v : Bytes) × IsFiled (s.file ++ bytes) k v d) key e s.index
            (val, filed) (AllFiled-append s.file bytes s.index h.1),
      )
]
