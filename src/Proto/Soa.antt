-- ===== src/Proto/Soa.antt =====
-- The two names of an SOA record: they share an encoder that starts at the data, so a pointer in the
-- second one counts from there, while `read_name` counts from the start of the message.
use dnsd_rs.Base.{
  All, Bool, Bool-cases, Bytes, List, Option, [], arith, bit_or, bytes_eq, bytes_eq_refl, false,
  if◌then◌else◌, inl, inr, leb, length, length-append, none, ok, refl, some, subst, suc, sym, true,
  ℕ, ◌++◌, ◌+◌, ◌∷◌, ◌≡◌, ◌≤◌,
}
use dnsd_rs.Proto.Cursor.{be16_bytes}
use dnsd_rs.Proto.Data.{full, write_name-new}
use dnsd_rs.Proto.Encode.{fresh_names}
use dnsd_rs.Proto.Name.{Encoder, find_suffix, lookup_name, prefer, suffix_key, write_labels}
use dnsd_rs.Proto.Name.RoundTrip.{All-prefix, IsName, write_name-labels}
use dnsd_rs.Proto.Name.Wire.{IsLabel, wire}
use dnsd_rs.Proto.Name.Write.{
  IsSound, find_suffix-IsStored, push_labels-wire, record_suffixes, record_suffixes-IsStored,
}
use dnsd_rs.Proto.Text.{Text}

-- The name map of a name has each of its suffixes whose offset fits a pointer.
IsFound : {A : Type 0} → Option A → Type 0
IsFound {A} r = (a : A) × (r ≡ some a)

push-IsFound :
    (k key : Bytes) (start : ℕ) (b : Bool) (m : List (Bytes × ℕ))
    → IsFound (lookup_name k m)
    → IsFound (lookup_name k (if b then (key, start) ∷ m else m))
unfolding lookup_name IsFound
push-IsFound k key start false m h = h
push-IsFound k key start true m h = elim (Bool-cases (bytes_eq key k)) [
  | inl same ↦ (start, rw same refl)
  | inr other ↦ (h.0, rw other h.1)
]

record_suffixes-IsFound :
    (k : Bytes) (start : ℕ) (ls : List Bytes) (m : List (Bytes × ℕ))
    → IsFound (lookup_name k m)
    → IsFound (lookup_name k (record_suffixes start ls m))
record_suffixes-IsFound k start [] m h = h
record_suffixes-IsFound k start (l ∷ ls) m h =
    record_suffixes-IsFound k (start + suc (length l)) ls _
      (push-IsFound k (suffix_key (l ∷ ls)) start (leb start 0x3FFF) m h)

suffix-IsFound :
    (start : ℕ) (front : List Bytes) (l : Bytes) (ls : List Bytes) (m : List (Bytes × ℕ))
    → start + length (wire front) ≤ 0x3FFF
    → IsFound (lookup_name (suffix_key (l ∷ ls)) (record_suffixes start (front ++ (l ∷ ls)) m))
unfolding lookup_name IsFound
suffix-IsFound start [] l ls m h =
    let fits : leb start 0x3FFF ≡ true = ground (arith, h) in
    record_suffixes-IsFound (suffix_key (l ∷ ls)) (start + suc (length l)) ls _
      (start, rw (fits, bytes_eq_refl (suffix_key (l ∷ ls))) refl)
suffix-IsFound start (x ∷ front) l ls m h =
    suffix-IsFound (start + suc (length x)) front l ls _
      (omega (arith, h, length-append x (wire front)))

find_suffix-IsFound :
    (m : List (Bytes × ℕ)) (front : List Bytes) (l : Bytes) (ls : List Bytes)
    → IsFound (lookup_name (suffix_key (l ∷ ls)) m)
    → IsFound (find_suffix m (front ++ (l ∷ ls)))
unfolding find_suffix IsFound
find_suffix-IsFound m [] l ls (off, e) = (([], off), rw e refl)
find_suffix-IsFound m (x ∷ front) l ls h =
    let ((back, off), e) = find_suffix-IsFound m front l ls h in
    at_label (lookup_name (suffix_key (x ∷ (front ++ (l ∷ ls)))) m) back off e
  where
    at_label :
        (r : Option ℕ) (back : List Bytes) (off : ℕ)
        → find_suffix m (front ++ (l ∷ ls)) ≡ some (back, off)
        → IsFound (prefer r x (find_suffix m (front ++ (l ∷ ls))))
    at_label (some o) back off e = (([], o), refl)
    at_label none back off e = ((x ∷ back, off), rw e refl)

module _ ⦃text : Text⦄ where
  -- The second name, where a suffix of it is found in the map of the first.
  found-pointer :
      (mname : Bytes) (l : Bytes) (ls front : List Bytes) (off : ℕ) (h : IsName mname)
      → All IsLabel (l ∷ ls)
      → find_suffix (record_suffixes 0 h.labels []) (l ∷ ls) ≡ some (front, off)
      → (fresh_names mname (suffix_key (l ∷ ls))
          ≡ ok ((full h ++ wire front) ++ be16_bytes (bit_or 0xC000 off)))
        × (off ≤ length (full h))
  unfolding fresh_names write_labels
  found-pointer mname l ls front off h good hit =
      let e : Encoder = record { out = full h; name_map = record_suffixes 0 h.labels [] } in
      let sound : IsSound e =
        record_suffixes-IsStored (full h) 0 h.labels [] [] h.good h.few refl tt in
      let (back, split, stored) =
        find_suffix-IsStored e.out e.name_map (l ∷ ls) front off sound hit in
      let front_good : All IsLabel front = All-prefix front back (subst (All IsLabel) split good) in
      (
        rw
            (
              write_name-new mname h,
              write_name-labels e l ls good,
              write_labels,
              hit,
              push_labels-wire (full h) front front_good,
            )
            refl,
        stored.inside,
      )

  -- Where two canonical names share their last labels, and the first is short enough for a pointer, the
  -- bytes that `mname` and `rname` get end in a pointer whose offset is at most the length of `mname` on
  -- the wire, wherever in the message the data stand.
  pub fresh_names-pointer :
      (mname : Bytes) (h : IsName mname) (mfront rfront : List Bytes) (l : Bytes) (ls : List Bytes)
      → h.labels ≡ mfront ++ (l ∷ ls)
      → All IsLabel (rfront ++ (l ∷ ls))
      → length (wire mfront) ≤ 0x3FFF
      → (front : List Bytes) × (off : ℕ) × (fresh_names mname (suffix_key (rfront ++ (l ∷ ls)))
          ≡ ok ((full h ++ wire front) ++ be16_bytes (bit_or 0xC000 off)))
        × (off ≤ length (full h))
  unfolding IsFound
  fresh_names-pointer mname h mfront rfront l ls shared good short =
      let key =
        subst (λ x. IsFound (lookup_name (suffix_key (l ∷ ls)) (record_suffixes 0 x [])))
          (sym shared) (suffix-IsFound 0 mfront l ls [] (omega (arith, short))) in
      let ((front, off), hit) =
        find_suffix-IsFound (record_suffixes 0 h.labels []) rfront l ls key in
      at_first rfront front off good hit
    where
      at_first :
          (rs front : List Bytes) (off : ℕ)
          → All IsLabel (rs ++ (l ∷ ls))
          → find_suffix (record_suffixes 0 h.labels []) (rs ++ (l ∷ ls)) ≡ some (front, off)
          → (fr : List Bytes) × (o : ℕ) × (fresh_names mname (suffix_key (rs ++ (l ∷ ls)))
              ≡ ok ((full h ++ wire fr) ++ be16_bytes (bit_or 0xC000 o)))
            × (o ≤ length (full h))
      at_first [] front off g hit =
          let r = found-pointer mname l ls front off h g hit in (front, off, r.0, r.1)
      at_first (x ∷ rs) front off g hit =
          let r = found-pointer mname x (rs ++ (l ∷ ls)) front off h g hit in (front, off, r.0, r.1)
