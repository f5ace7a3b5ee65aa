-- ===== src/Proto/Name/Labels.antt =====
-- The text of canonical labels: `canonical_name` keeps it, and splitting it gives the labels back.
use dnsd_rs.Base.{
  All, All-append, Bool-cases, Bytes, List, [], ap, arith, bytes_eq, bytes_eq→eq, dot, false, inl,
  inr, join_dots, length, map, refl, split_dots, subst, sym, trim_end_dots, ℕ, ◌++◌, ◌<◌, ◌∙◌, ◌∷◌,
  ◌≡◌,
}
use dnsd_rs.Proto.Name.{suffix_key}
use dnsd_rs.Proto.Name.Wire.{IsLabel, IsLabelByte, dotted, suffix_key-dotted}
use dnsd_rs.Proto.Text.{IsAscii, Text, ascii_lower, canonical_name, is_space, trim_end, trim_start}

module _ {P : ℕ → Type 0} where
  All-map : {Q : ℕ → Type 0} → ((x : ℕ) → P x → Q x) → (xs : Bytes) → All P xs → All Q xs
  All-map f [] h = tt
  All-map f (x ∷ xs) h = (f x h.0, All-map f xs h.1)

All-left : (P : ℕ → Type 0) (xs ys : Bytes) → All P (xs ++ ys) → All P xs
All-left P [] ys h = tt
All-left P (x ∷ xs) ys h = (h.0, All-left P xs ys h.1)

-- A byte of a name: of a label, or a dot.
record IsNameByte (c : ℕ) : Type 0 where
  ascii : c < 128
  not_space : is_space c ≡ false
  lower : ascii_lower c ≡ c

IsNameByte-dot : IsNameByte dot
IsNameByte-dot = record { ascii = omega arith; not_space = refl; lower = refl }

IsLabelByte-IsNameByte : (c : ℕ) → IsLabelByte c → IsNameByte c
IsLabelByte-IsNameByte c h = record { ascii = h.ascii; not_space = h.not_space; lower = h.lower }

dotted-IsNameByte : (ls : List Bytes) → All IsLabel ls → All IsNameByte (dotted ls)
dotted-IsNameByte [] h = tt
dotted-IsNameByte (l ∷ ls) h =
    All-append IsNameByte l (dot ∷ dotted ls) (All-map IsLabelByte-IsNameByte l h.0.canonical)
      (IsNameByte-dot, dotted-IsNameByte ls h.1)

trim_start-eq : (s : Bytes) → All IsNameByte s → trim_start s ≡ s
trim_start-eq [] h = refl
trim_start-eq (c ∷ cs) h = rw h.0.not_space

trim_end-eq : (s : Bytes) → All IsNameByte s → trim_end s ≡ s
trim_end-eq [] h = refl
trim_end-eq (c ∷ []) h = rw h.0.not_space
trim_end-eq (c ∷ d ∷ s) h = rw (trim_end-eq (d ∷ s) h.1)

lower-eq : (s : Bytes) → All IsNameByte s → map ascii_lower s ≡ s
lower-eq [] h = refl
lower-eq (c ∷ cs) h = rw (h.0.lower, lower-eq cs h.1)

trim_end_dots-label : (c : ℕ) (l : Bytes) → All IsLabelByte (c ∷ l) → trim_end_dots (c ∷ l) ≡ c ∷ l
trim_end_dots-label c [] h = ground (arith, h.0.not_dot)
trim_end_dots-label c (d ∷ l) h = rw (trim_end_dots-label d l h.1)

-- What ends in a byte that stays is kept whole.
trim_end_dots-append :
    (p : Bytes) (c : ℕ) (s : Bytes)
    → trim_end_dots (c ∷ s) ≡ c ∷ s
    → trim_end_dots (p ++ (c ∷ s)) ≡ p ++ (c ∷ s)
trim_end_dots-append [] c s h = h
trim_end_dots-append (x ∷ []) c s h = rw h
trim_end_dots-append (x ∷ y ∷ p) c s h = rw (trim_end_dots-append (y ∷ p) c s h)

trim_end_dots-dot : (s : Bytes) → trim_end_dots (s ++ (dot ∷ [])) ≡ trim_end_dots s
trim_end_dots-dot [] = refl
trim_end_dots-dot (c ∷ s) = rw (trim_end_dots-dot s)

-- The first byte of the text of labels, and the rest.
join_dots-cons :
    (l : Bytes) (ls : List Bytes)
    → All IsLabel (l ∷ ls)
    → (c : ℕ) × (s : Bytes) × (join_dots (l ∷ ls) ≡ c ∷ s)
      × (trim_end_dots (join_dots (l ∷ ls)) ≡ join_dots (l ∷ ls))
join_dots-cons [] ls h = absurd (omega (arith, h.0.positive))
join_dots-cons (c ∷ l) [] h = (c, l, refl, trim_end_dots-label c l h.0.canonical)
join_dots-cons (c ∷ l) (m ∷ ms) h =
    let (d, s, e, t) = join_dots-cons m ms h.1 in
    (
      c,
      l ++ (dot ∷ join_dots (m ∷ ms)),
      refl,
      trim_end_dots-append (c ∷ l) dot (join_dots (m ∷ ms))
          (rw (e, trim_end_dots) (kept dot d s (rw e at t))),
    )
  where
    kept :
        (x y : ℕ) (s : Bytes)
        → trim_end_dots (y ∷ s) ≡ y ∷ s
        → trim_end_dots (x ∷ y ∷ s) ≡ x ∷ y ∷ s
    kept x y s h = trim_end_dots-append (x ∷ []) y s h

split_dots-label : (l : Bytes) → All IsLabelByte l → split_dots l ≡ l ∷ []
split_dots-label [] h = refl
split_dots-label (c ∷ l) h = ground (arith, h.0.not_dot, split_dots-label l h.1)

split_dots-append :
    (l s : Bytes) → All IsLabelByte l → split_dots (l ++ (dot ∷ s)) ≡ l ∷ split_dots s
split_dots-append [] s h = refl
split_dots-append (c ∷ l) s h = ground (arith, h.0.not_dot, split_dots-append l s h.1)

-- `split` takes apart what `join` put together.
pub split_dots-join_dots :
    (l : Bytes) (ls : List Bytes) → All IsLabel (l ∷ ls) → split_dots (join_dots (l ∷ ls)) ≡ l ∷ ls
split_dots-join_dots l [] h = split_dots-label l h.0.canonical
split_dots-join_dots l (m ∷ ms) h =
    split_dots-append l (join_dots (m ∷ ms)) h.0.canonical
    ∙ ap (◌∷◌ l) (split_dots-join_dots m ms h.1)

pub trim_end_dots-name :
    (l : Bytes) (ls : List Bytes)
    → All IsLabel (l ∷ ls)
    → trim_end_dots (suffix_key (l ∷ ls)) ≡ join_dots (l ∷ ls)
trim_end_dots-name l ls h = trim_end_dots-dot (join_dots (l ∷ ls)) ∙ (join_dots-cons l ls h).3

module _ ⦃text : Text⦄ where
  -- The text of canonical labels is canonical.
  pub canonical_name-eq :
      (l : Bytes) (ls : List Bytes)
      → All IsLabel (l ∷ ls)
      → canonical_name (suffix_key (l ∷ ls)) ≡ suffix_key (l ∷ ls)
  unfolding canonical_name
  canonical_name-eq l ls h =
      let k = suffix_key (l ∷ ls) in
      let bs : All IsNameByte k =
        subst (All IsNameByte) (sym (suffix_key-dotted l ls)) (dotted-IsNameByte (l ∷ ls) h) in
      let js : All IsNameByte (join_dots (l ∷ ls)) =
        All-left IsNameByte (join_dots (l ∷ ls)) (dot ∷ []) bs in
      let ascii = λ (c : ℕ) (b : IsNameByte c). b.ascii in
      let (c, s, e, t) = join_dots-cons l ls h in
      let trimmed : text.trim k ≡ k =
        text.trim_ascii k (All-map ascii k bs)
        ∙ ap trim_end (trim_start-eq k bs)
        ∙ trim_end-eq k bs in
      let lowered : text.to_lowercase (trim_end_dots (text.trim k)) ≡ c ∷ s =
        ap (λ x. text.to_lowercase (trim_end_dots x)) trimmed
        ∙ ap text.to_lowercase (trim_end_dots-name l ls h)
        ∙ text.to_lowercase_ascii _ (All-map ascii _ js)
        ∙ lower-eq _ js
        ∙ e in
      rw (lowered, canonical_name) (ap (λ x. x ++ (dot ∷ [])) (sym e))

  -- What `read_name` makes of the bytes of a canonical label.
  pub label-eq : (l : Bytes) → IsLabel l → text.to_lowercase (text.from_utf8_lossy l) ≡ l
  label-eq l h =
      let bs : All IsNameByte l = All-map IsLabelByte-IsNameByte l h.canonical in
      let ascii : IsAscii l = All-map (λ c b. b.ascii) l bs in
      ap text.to_lowercase (text.from_utf8_lossy_ascii l ascii)
      ∙ text.to_lowercase_ascii l ascii
      ∙ lower-eq l bs

  pub canonical_name-root : canonical_name (dot ∷ []) ≡ dot ∷ []
  unfolding canonical_name
  canonical_name-root =
      let ascii : IsAscii (dot ∷ []) = (omega arith, tt) in
      let lowered : text.to_lowercase (trim_end_dots (text.trim (dot ∷ []))) ≡ [] =
        ap (λ x. text.to_lowercase (trim_end_dots x)) (text.trim_ascii (dot ∷ []) ascii)
        ∙ text.to_lowercase_ascii [] tt in
      rw (lowered, canonical_name) refl

-- A name with labels is not the root.
pub suffix_key-ne-root :
    (l : Bytes) (ls : List Bytes)
    → All IsLabel (l ∷ ls)
    → bytes_eq (suffix_key (l ∷ ls)) (dot ∷ []) ≡ false
suffix_key-ne-root l ls h = elim (Bool-cases (bytes_eq (suffix_key (l ∷ ls)) (dot ∷ []))) [
  | inr other ↦ other
  | inl same ↦
      let (c, s, e, t) = join_dots-cons l ls h in
      let empty : join_dots (l ∷ ls) ≡ [] =
        sym (trim_end_dots-name l ls h)
        ∙ ap trim_end_dots (bytes_eq→eq (suffix_key (l ∷ ls)) (dot ∷ []) same) in
      absurd (omega (arith, ap length (sym e ∙ empty)))
]
