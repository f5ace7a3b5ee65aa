-- ===== src/Proto/Name/Write.antt =====
-- What `write_name` writes and records, and the invariant of the encoder's name map.
use dnsd_rs.Base.{
  All, Bool-cases, Bytes, List, Option, [], ap, append-nil, append_assoc, arith, bytes_eq,
  bytes_eq→eq, drop, drop-append, if◌then◌else◌, inl, inr, leb, leb→le, length, length-append,
  length-drop, ltb-eq-false, none, ok, refl, some, subst, suc, ℕ, ◌%◌, ◌++◌, ◌+◌, ◌<◌, ◌∙◌, ◌∷◌,
  ◌≡◌, ◌≤◌, ◌⊎◌,
}
use dnsd_rs.Proto.Name.{
  Encoder, find_suffix, lookup_name, prefer, push_full, push_labels, suffix_key,
}
use dnsd_rs.Proto.Name.Read.{drop_past}
use dnsd_rs.Proto.Name.Wire.{IsLabel, dotted, suffix_key-dotted, wire}

-- A recorded offset fits a pointer, and the name behind its key stands there in full.
pub record IsStored (out : Bytes) (e : Bytes × ℕ) : Type 0 where
  pub labels : List Bytes
  pub tail : Bytes
  pub fits : e.1 < 16384
  pub key : e.0 ≡ dotted labels
  pub good : All IsLabel labels
  pub few : length labels ≤ 127
  pub inside : e.1 ≤ length out
  pub there : drop e.1 out ≡ wire labels ++ (0 ∷ tail)

-- Every entry of the map is stored in what was written.
abbrev pub IsSound : Encoder → Type 0
IsSound e = All (IsStored e.out) e.name_map

pub IsStored-append : (out more : Bytes) (e : Bytes × ℕ) → IsStored out e → IsStored (out ++ more) e
IsStored-append out more e h = record {
  labels = h.labels;
  tail = h.tail ++ more;
  fits = h.fits;
  key = h.key;
  good = h.good;
  few = h.few;
  inside = omega (arith, h.inside, length-append out more);
  there =
      drop-append e.1 out more h.inside
      ∙ ap (λ t. t ++ more) h.there
      ∙ append_assoc (wire h.labels) (0 ∷ h.tail) more;
}

-- Bytes that are added keep the map sound.
pub All-IsStored-append :
    (out more : Bytes) (m : List (Bytes × ℕ))
    → All (IsStored out) m
    → All (IsStored (out ++ more)) m
All-IsStored-append out more [] h = tt
All-IsStored-append out more (e ∷ m) h =
    (IsStored-append out more e h.0, All-IsStored-append out more m h.1)

lookup_name-IsStored :
    (out k : Bytes) (m : List (Bytes × ℕ)) (off : ℕ)
    → All (IsStored out) m
    → lookup_name k m ≡ some off
    → IsStored out (k, off)
unfolding lookup_name
lookup_name-IsStored out k [] off h e = cc
lookup_name-IsStored out k ((j, o) ∷ m) off h e = elim (Bool-cases (bytes_eq j k)) [
  | inl same ↦
      let q : o ≡ off = some_eq (rw same at e) in
      subst (λ x. IsStored out (k, x)) q
        (subst (λ x. IsStored out (x, o)) (bytes_eq→eq j k same) h.0)
  | inr other ↦ lookup_name-IsStored out k m off h.1 (rw other at e)
]
  where
    some_eq : {x y : ℕ} → some x ≡ some y → x ≡ y
    some_eq p = cc

prefer-cases :
    (o : Option ℕ) (l : Bytes) (later : Option (List Bytes × ℕ)) (front : List Bytes) (off : ℕ)
    → prefer o l later ≡ some (front, off)
    → ((o ≡ some off) × (front ≡ []))
      ⊎ ((f : List Bytes) × (later ≡ some (f, off)) × (front ≡ l ∷ f))
prefer-cases (some x) l later front off e = inl (cc, cc)
prefer-cases none l none front off e = cc
prefer-cases none l (some (f, x)) front off e = inr (f, cc, cc)

-- A suffix that is found is a suffix of the labels, and is stored.
pub find_suffix-IsStored :
    (out : Bytes) (m : List (Bytes × ℕ)) (labels front : List Bytes) (off : ℕ)
    → All (IsStored out) m
    → find_suffix m labels ≡ some (front, off)
    → (back : List Bytes) × (labels ≡ front ++ back) × IsStored out (dotted back, off)
unfolding find_suffix
find_suffix-IsStored out m [] front off h e = cc
find_suffix-IsStored out m (l ∷ ls) front off h e =
    elim (prefer-cases (lookup_name (suffix_key (l ∷ ls)) m) l (find_suffix m ls) front off e) [
      | inl (found, first) ↦ (
        l ∷ ls,
        rw first refl,
        subst (λ k. IsStored out (k, off)) (suffix_key-dotted l ls)
            (lookup_name-IsStored out (suffix_key (l ∷ ls)) m off h found),
      )
      | inr (f, found, more) ↦
          let (back, split, stored) = find_suffix-IsStored out m ls f off h found in
          (back, rw (more, split) refl, stored)
    ]

pub push_labels-wire :
    (out : Bytes) (ls : List Bytes) → All IsLabel ls → push_labels out ls ≡ ok (out ++ wire ls)
unfolding push_labels
push_labels-wire out [] h = rw append-nil
push_labels-wire out (l ∷ ls) h = ground (
  arith,
  h.0.short,
  push_labels-wire (out ++ (length l % 256 ∷ l)) ls h.1,
  append_assoc out (length l ∷ l) (wire ls),
)

-- The map after `push_full`, with the labels starting at `start`.
abbrev pub record_suffixes : ℕ → List Bytes → List (Bytes × ℕ) → List (Bytes × ℕ)
record_suffixes start [] m = m
record_suffixes start (l ∷ ls) m =
    record_suffixes (start + suc (length l)) ls
      (if leb start 0x3FFF then (suffix_key (l ∷ ls), start) ∷ m else m)

pub push_full-wire :
    (e : Encoder) (ls : List Bytes)
    → All IsLabel ls
    → push_full e ls
      ≡ ok (record {
        out = e.out ++ wire ls;
        name_map = record_suffixes (length e.out) ls e.name_map;
      })
unfolding push_full
push_full-wire e [] h = rw append-nil
push_full-wire e (l ∷ ls) h =
    let e' : Encoder = record {
      out = e.out ++ (length l ∷ l);
      name_map =
          if leb (length e.out) 0x3FFF
          then (suffix_key (l ∷ ls), length e.out) ∷ e.name_map
          else e.name_map;
    } in
    let byte : length l % 256 ≡ length l = omega (arith, h.0.short) in
    rw (byte, ltb-eq-false 63 (length l) h.0.short)
      (push_full-wire e' ls h.1
        ∙ rw (append_assoc e.out (length l ∷ l) (wire ls), length-append e.out (length l ∷ l)) refl)

module _ (whole : Bytes) where
  -- The suffixes of a name that stands at `start` are stored.
  pub record_suffixes-IsStored :
      (start : ℕ) (ls : List Bytes) (m : List (Bytes × ℕ)) (tail : Bytes)
      → All IsLabel ls
      → length ls ≤ 127
      → drop start whole ≡ wire ls ++ (0 ∷ tail)
      → All (IsStored whole) m
      → All (IsStored whole) (record_suffixes start ls m)
  record_suffixes-IsStored start [] m tail h few d s = s
  record_suffixes-IsStored start (l ∷ ls) m tail h few d s =
      record_suffixes-IsStored (start + suc (length l)) ls _ tail h.1 (omega arith)
        (drop_past start whole (length l ∷ l) (wire ls ++ (0 ∷ tail))
          (d ∙ append_assoc (length l ∷ l) (wire ls) (0 ∷ tail)))
        (elim (Bool-cases (leb start 0x3FFF)) [
          | inl fits ↦ rw fits (
            record {
              labels = l ∷ ls;
              tail = tail;
              fits = omega (arith, leb→le start 0x3FFF fits);
              key = suffix_key-dotted l ls;
              good = h;
              few = few;
              inside = omega (arith, length-drop start whole, ap length d);
              there = d;
            },
            s,
          )
          | inr far ↦ rw far s
        ])
