-- ===== src/Resolve/Block/Match.antt =====
-- Which names a block list built from its rows answers for.
use dnsd_rs.Base.{
  Bool-cases, Bytes, List, Option, [], ap, ap₂, arith, bytes_eq, bytes_eq-differs, bytes_eq→eq, dot,
  ends_with, if◌then◌else◌, inl, inr, length, ltb, none, refl, some, sym, ◌&&◌, ◌++◌, ◌∙◌, ◌∷◌, ◌≡◌,
}
use dnsd_rs.Proto.Text.{Text}
use dnsd_rs.Resolve.Block.{
  BlockList, BlockMode, BlockedDomain, add_as, add_entries, add_entry, block_name, empty_list,
  get_exact, get_wildcard, insert_exact, mode_for, new_list, strip_star,
}

-- A row blocks exactly its own name, or by a wildcard the names below it.
module _ ⦃text : Text⦄ where
  -- A row as an exact name, and as a wildcard that the name lies strictly below.
  abbrev pub as_exact : Bytes → Option Bytes → Bytes → BlockMode → Option BlockMode
  as_exact n (some rest) d mode = none
  as_exact n none d mode = if bytes_eq d n then some mode else none

  abbrev pub as_wildcard : Bytes → Option Bytes → BlockMode → Option BlockMode
  as_wildcard n (some rest) mode =
      if ends_with n (dot ∷ rest) && ltb (length (dot ∷ rest)) (length n) then some mode else none
  as_wildcard n none mode = none

  abbrev pub or_else : Option BlockMode → Option BlockMode → Option BlockMode
  or_else (some m) r = some m
  or_else none r = r

  -- The last row with this exact name.
  abbrev pub last_exact : Bytes → List BlockedDomain → Option BlockMode
  last_exact n [] = none
  last_exact n (e ∷ es) =
      or_else (last_exact n es)
        (as_exact n (strip_star (block_name e.domain)) (block_name e.domain) e.mode)

  -- The first wildcard row below which the name lies.
  abbrev pub first_wildcard : Bytes → List BlockedDomain → Option BlockMode
  first_wildcard n [] = none
  first_wildcard n (e ∷ es) =
      or_else (as_wildcard n (strip_star (block_name e.domain)) e.mode) (first_wildcard n es)

  get_exact-insert :
      (n d : Bytes) (m : BlockMode) (xs : List (Bytes × BlockMode))
      → get_exact n (insert_exact d m xs) ≡ (if bytes_eq d n then some m else get_exact n xs)
  unfolding get_exact insert_exact
  get_exact-insert n d m [] = refl
  get_exact-insert n d m (x ∷ xs) = elim (Bool-cases (bytes_eq x.0 d)) [
    | inl same ↦ rw (same, bytes_eq→eq x.0 d same) (ground arith)
    | inr other ↦ rw other (elim (Bool-cases (bytes_eq x.0 n)) [
      | inl here ↦ rw (here, bytes_eq-differs x.0 d n other here) refl
      | inr not_here ↦ rw not_here (get_exact-insert n d m xs)
    ])
  ]

  get_wildcard-append :
      (n s : Bytes) (m : BlockMode) (xs : List (Bytes × BlockMode))
      → get_wildcard n (xs ++ ((s, m) ∷ []))
        ≡ or_else
            (get_wildcard n xs)
            (if ends_with n s && ltb (length s) (length n) then some m else none)
  unfolding get_wildcard
  get_wildcard-append n s m [] = refl
  get_wildcard-append n s m (x ∷ xs) =
      elim (Bool-cases (ends_with n x.0 && ltb (length x.0) (length n))) [
        | inl same ↦ rw same refl
        | inr other ↦ rw other (get_wildcard-append n s m xs)
      ]

  or_else-none : (r : Option BlockMode) → or_else r none ≡ r
  or_else-none none = refl
  or_else-none (some m) = refl

  or_else_assoc : (q r s : Option BlockMode) → or_else (or_else q r) s ≡ or_else q (or_else r s)
  or_else_assoc none r s = refl
  or_else_assoc (some m) r s = refl

  add_as-exact :
      (n : Bytes) (star : Option Bytes) (d : Bytes) (m : BlockMode) (l : BlockList)
      → get_exact n (add_as star d m l).exact ≡ or_else (as_exact n star d m) (get_exact n l.exact)
  add_as-exact n (some rest) d m l = refl
  add_as-exact n none d m l = get_exact-insert n d m l.exact ∙ ground arith

  add_as-wildcard :
      (n : Bytes) (star : Option Bytes) (d : Bytes) (m : BlockMode) (l : BlockList)
      → get_wildcard n (add_as star d m l).wildcard
        ≡ or_else (get_wildcard n l.wildcard) (as_wildcard n star m)
  add_as-wildcard n (some rest) d m l = get_wildcard-append n (dot ∷ rest) m l.wildcard
  add_as-wildcard n none d m l = sym (or_else-none (get_wildcard n l.wildcard))

  add_entries-exact :
      (n : Bytes) (es : List BlockedDomain) (l : BlockList)
      → get_exact n (add_entries es l).exact ≡ or_else (last_exact n es) (get_exact n l.exact)
  unfolding add_entries
  add_entries-exact n [] l = refl
  add_entries-exact n (e ∷ es) l =
      add_entries-exact n es (add_entry e l)
      ∙ ap (or_else (last_exact n es))
          (add_as-exact n (strip_star (block_name e.domain)) (block_name e.domain) e.mode l)
      ∙ sym (
          or_else_assoc (last_exact n es)
            (as_exact n (strip_star (block_name e.domain)) (block_name e.domain) e.mode)
            (get_exact n l.exact))

  add_entries-wildcard :
      (n : Bytes) (es : List BlockedDomain) (l : BlockList)
      → get_wildcard n (add_entries es l).wildcard
        ≡ or_else (get_wildcard n l.wildcard) (first_wildcard n es)
  unfolding add_entries
  add_entries-wildcard n [] l = sym (or_else-none (get_wildcard n l.wildcard))
  add_entries-wildcard n (e ∷ es) l =
      add_entries-wildcard n es (add_entry e l)
      ∙ ap (λ r. or_else r (first_wildcard n es))
          (add_as-wildcard n (strip_star (block_name e.domain)) (block_name e.domain) e.mode l)
      ∙ or_else_assoc (get_wildcard n l.wildcard)
          (as_wildcard n (strip_star (block_name e.domain)) e.mode) (first_wildcard n es)

  -- A list built from rows answers for a name with the mode of the last exact row of that name, or
  -- else with that of the first wildcard row that the name lies strictly below, or else not at all.
  pub mode_for-new_list :
      (es : List BlockedDomain) (qname : Bytes)
      → mode_for (new_list es) qname
        ≡ or_else (last_exact (block_name qname) es) (first_wildcard (block_name qname) es)
  unfolding mode_for new_list get_exact get_wildcard
  mode_for-new_list es qname =
      let n = block_name qname in
      as_or_else (get_exact n (new_list es).exact) (get_wildcard n (new_list es).wildcard)
      ∙ ap₂ or_else (add_entries-exact n es empty_list ∙ or_else-none (last_exact n es))
          (add_entries-wildcard n es empty_list)
    where
      as_or_else : (q r : Option BlockMode) → elim q [ some m ↦ some m | none ↦ r ] ≡ or_else q r
      as_or_else none r = refl
      as_or_else (some m) r = refl
