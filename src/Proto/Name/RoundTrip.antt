-- ===== src/Proto/Name/RoundTrip.antt =====
-- `read_name` reads back what `write_name` writes, compressed or not.
use dnsd_rs.Base.{
  All, Bytes, List, Option-cases, [], ap, append_assoc, ap₂, arith, bit_or, dot, drop, drop-length,
  inl, inr, length, length-append, none, ok, refl, some, subst, sym, ℕ, ◌++◌, ◌+◌, ◌∙◌, ◌∷◌, ◌≡◌,
  ◌≤◌,
}
use dnsd_rs.Proto.Cursor.{be16_bytes}
use dnsd_rs.Proto.Name.{
  Encoder, find_suffix, name_of, read_name, suffix_key, write_labels, write_name,
}
use dnsd_rs.Proto.Name.Labels.{
  canonical_name-eq, canonical_name-root, split_dots-join_dots, suffix_key-ne-root,
  trim_end_dots-name,
}
use dnsd_rs.Proto.Name.Read.{read_name_loop-compressed, read_name_loop-wire}
use dnsd_rs.Proto.Name.Wire.{IsLabel, dotted, dotted-append, suffix_key-dotted, wire}
use dnsd_rs.Proto.Name.Write.{
  All-IsStored-append, IsSound, IsStored, IsStored-append, find_suffix-IsStored, push_full-wire,
  push_labels-wire, record_suffixes, record_suffixes-IsStored,
}
use dnsd_rs.Proto.Text.{Text}

-- A name in canonical form: its labels with their dots, or the root.
pub record IsName (n : Bytes) : Type 0 where
  pub labels : List Bytes
  pub text_eq : n ≡ name_of labels
  pub good : All IsLabel labels
  pub few : length labels ≤ 127

pub All-prefix : (xs ys : List Bytes) → All IsLabel (xs ++ ys) → All IsLabel xs
All-prefix [] ys h = tt
All-prefix (x ∷ xs) ys h = (h.0, All-prefix xs ys h.1)

name_of-suffix_key :
    (x : List Bytes) (l : Bytes) (ls : List Bytes)
    → dotted x ≡ dotted (l ∷ ls)
    → name_of x ≡ suffix_key (l ∷ ls)
name_of-suffix_key [] l ls e =
    absurd (omega (arith, ap length e, length-append l (dot ∷ dotted ls)))
name_of-suffix_key (m ∷ ms) l ls e = suffix_key-dotted m ms ∙ e ∙ sym (suffix_key-dotted l ls)

drop_appended :
    (out added more : Bytes) → drop (length out) ((out ++ added) ++ more) ≡ added ++ more
drop_appended out added more =
    ap (drop (length out)) (append_assoc out added more) ∙ drop-length out (added ++ more)

module _ ⦃text : Text⦄ where
  -- `e'` is `e` with the name `n` appended, and reads it back whatever follows.
  pub record IsWritten (e : Encoder) (n : Bytes) (e' : Encoder) : Type 0 where
    pub added : Bytes
    pub appended : e'.out ≡ e.out ++ added
    pub sound : IsSound e'
    pub reads : (more : Bytes) → read_name (e'.out ++ more) (length e.out) ≡ ok (n, length e'.out)

  write_labels-full :
      (e : Encoder) (l : Bytes) (ls : List Bytes)
      → IsSound e
      → All IsLabel (l ∷ ls)
      → length (l ∷ ls) ≤ 127
      → find_suffix e.name_map (l ∷ ls) ≡ none
      → (e' : Encoder) × (write_labels e (l ∷ ls) ≡ ok e') × IsWritten e (suffix_key (l ∷ ls)) e'
  unfolding write_labels read_name
  write_labels-full e l ls s h few miss =
      let added = wire (l ∷ ls) ++ (0 ∷ []) in
      let regroup : (e.out ++ wire (l ∷ ls)) ++ (0 ∷ []) ≡ e.out ++ added =
        append_assoc e.out (wire (l ∷ ls)) (0 ∷ []) in
      let end : length e.out + length (wire (l ∷ ls)) + 1 ≡ length (e.out ++ added) =
        omega (arith, length-append e.out added, length-append (wire (l ∷ ls)) (0 ∷ [])) in
      (
        record {
          out = e.out ++ added;
          name_map = record_suffixes (length e.out) (l ∷ ls) e.name_map;
        },
        rw (miss, write_labels, push_full-wire e (l ∷ ls) h) (rw regroup refl),
        record {
          added = added;
          appended = refl;
          sound =
              record_suffixes-IsStored (e.out ++ added) (length e.out) (l ∷ ls) e.name_map [] h few
                (drop-length e.out added) (All-IsStored-append e.out added e.name_map s);
          reads = λ more.
              read_name_loop-wire (l ∷ ls) 256 ((e.out ++ added) ++ more) (length e.out) none []
                more h (omega arith)
                (drop_appended e.out added more ∙ append_assoc (wire (l ∷ ls)) (0 ∷ []) more)
              ∙ ap (λ p. ok (suffix_key (l ∷ ls), p)) end;
        },
      )

  write_labels-compressed :
      (e : Encoder) (l : Bytes) (ls front : List Bytes) (off : ℕ)
      → IsSound e
      → All IsLabel (l ∷ ls)
      → length (l ∷ ls) ≤ 127
      → find_suffix e.name_map (l ∷ ls) ≡ some (front, off)
      → (e' : Encoder) × (write_labels e (l ∷ ls) ≡ ok e') × IsWritten e (suffix_key (l ∷ ls)) e'
  unfolding write_labels read_name
  write_labels-compressed e l ls front off s h few hit =
      let (back, split, stored) = find_suffix-IsStored e.out e.name_map (l ∷ ls) front off s hit in
      let pointer = be16_bytes (bit_or 0xC000 off) in
      let added = wire front ++ pointer in
      let hf : All IsLabel front = All-prefix front back (subst (All IsLabel) split h) in
      let regroup : (e.out ++ wire front) ++ pointer ≡ e.out ++ added =
        append_assoc e.out (wire front) pointer in
      let end : length e.out + length (wire front) + 2 ≡ length (e.out ++ added) =
        omega (arith, length-append e.out added, length-append (wire front) pointer) in
      let near : length front ≤ 127 = omega (arith, ap length split, length-append front back) in
      (
        record { out = e.out ++ added; name_map = e.name_map },
        rw (hit, write_labels, push_labels-wire e.out front hf) (rw regroup refl),
        record {
          added = added;
          appended = refl;
          sound = All-IsStored-append e.out added e.name_map s;
          reads = λ more.
              let kept : IsStored ((e.out ++ added) ++ more) (dotted back, off) =
                IsStored-append (e.out ++ added) more (dotted back, off)
                  (IsStored-append e.out added (dotted back, off) stored) in
              read_name_loop-compressed front kept.labels 256 ((e.out ++ added) ++ more)
                (length e.out) off [] more kept.tail hf kept.good (omega (arith, near, kept.few))
                kept.fits (drop_appended e.out added more ∙ append_assoc (wire front) pointer more)
                kept.there
              ∙ ap₂ (λ n p. ok (n, p))
                  (name_of-suffix_key (front ++ kept.labels) l ls (
                    dotted-append front kept.labels
                    ∙ ap (◌++◌ (dotted front)) (sym kept.key)
                    ∙ sym (dotted-append front back)
                    ∙ ap dotted (sym split)))
                  end;
        },
      )

  write_labels-IsWritten :
      (e : Encoder) (l : Bytes) (ls : List Bytes)
      → IsSound e
      → All IsLabel (l ∷ ls)
      → length (l ∷ ls) ≤ 127
      → (e' : Encoder) × (write_labels e (l ∷ ls) ≡ ok e') × IsWritten e (suffix_key (l ∷ ls)) e'
  write_labels-IsWritten e l ls s h few = elim (Option-cases (find_suffix e.name_map (l ∷ ls))) [
    | inl miss ↦ write_labels-full e l ls s h few miss
    | inr ((front, off), hit) ↦ write_labels-compressed e l ls front off s h few hit
  ]

  write_name-root :
      (e : Encoder)
      → IsSound e
      → (e' : Encoder) × (write_name e (dot ∷ []) ≡ ok e') × IsWritten e (dot ∷ []) e'
  unfolding write_name read_name
  write_name-root e s =
      let end : length e.out + 0 + 1 ≡ length (e.out ++ (0 ∷ [])) =
        omega (arith, length-append e.out (0 ∷ [])) in
      (
        record e { out = e.out ++ (0 ∷ []) },
        rw (canonical_name-root) refl,
        record {
          added = 0 ∷ [];
          appended = refl;
          sound = All-IsStored-append e.out (0 ∷ []) e.name_map s;
          reads = λ more.
              read_name_loop-wire [] 256 ((e.out ++ (0 ∷ [])) ++ more) (length e.out) none [] more
                tt (omega arith) (drop_appended e.out (0 ∷ []) more)
              ∙ ap (λ p. ok (dot ∷ [], p)) end;
        },
      )

  pub write_name-labels :
      (e : Encoder) (l : Bytes) (ls : List Bytes)
      → All IsLabel (l ∷ ls)
      → write_name e (suffix_key (l ∷ ls)) ≡ write_labels e (l ∷ ls)
  unfolding write_name
  write_name-labels e l ls h =
      rw
        (
          canonical_name-eq l ls h,
          suffix_key-ne-root l ls h,
          trim_end_dots-name l ls h,
          split_dots-join_dots l ls h,
        )
        refl

  -- With a sound map, writing a canonical name of at most 127 labels succeeds, appends to what was written, and keeps the map sound;
  -- reading at the place where it was written gives the name and ends behind it.
  pub write_name-IsWritten :
      (e : Encoder) (n : Bytes)
      → IsSound e
      → IsName n
      → (e' : Encoder) × (write_name e n ≡ ok e') × IsWritten e n e'
  write_name-IsWritten e n s h = go h.labels h.text_eq h.good h.few
    where
      go :
          (ls : List Bytes)
          → n ≡ name_of ls
          → All IsLabel ls
          → length ls ≤ 127
          → (e' : Encoder) × (write_name e n ≡ ok e') × IsWritten e n e'
      go [] eq good few =
          subst (λ x. (e' : Encoder) × (write_name e x ≡ ok e') × IsWritten e x e') (sym eq)
            (write_name-root e s)
      go (l ∷ ls) eq good few =
          subst (λ x. (e' : Encoder) × (write_name e x ≡ ok e') × IsWritten e x e') (sym eq)
            (rw (write_name-labels e l ls good) (write_labels-IsWritten e l ls s good few))
