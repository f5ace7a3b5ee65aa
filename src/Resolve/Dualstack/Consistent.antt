-- ===== src/Resolve/Dualstack/Consistent.antt =====
-- What `consistent` of src/resolve/dualstack.rs decides, in terms of texts.
use dnsd_rs.Base.{
  Bool, Bool-cases, Bytes, [], ap, arith, bytes_eq, bytes_eq_refl, bytes_eq→eq, false,
  if◌then◌else◌, inl, inr, not, refl, starts_with, true, ◌&&◌, ◌++◌, ◌==◌, ◌||◌, ◌∷◌, ◌≡◌, ◌⊎◌, ◌∙◌,
  subst, sym,
}
use dnsd_rs.Resolve.Dualstack.{consistent, contains_text, is_empty}

-- One text stands in the other.
abbrev pub IsPart : Bytes → Bytes → Type 0
IsPart part whole = (front : Bytes) × (back : Bytes) × (whole ≡ front ++ (part ++ back))

abbrev pub CarriersShare : Bytes → Bytes → Type 0
CarriersShare isp4 isp6 =
    (¬ (isp4 ≡ [])) × ((¬ (isp6 ≡ [])) × (IsPart isp6 isp4 ⊎ IsPart isp4 isp6))

-- The location and the carrier of the IPv4 address, and the carrier and the city of the IPv6 address, say
-- something and share a name: the city strictly, else a carrier, or location and city are the same text.
abbrev pub SharesName : Bytes → Bytes → Bytes → Bytes → Bool → Type 0
SharesName loc4 isp4 isp6 city6 true = (¬ (city6 ≡ [])) × (IsPart city6 isp4 ⊎ IsPart city6 loc4)
SharesName loc4 isp4 isp6 city6 false = CarriersShare isp4 isp6 ⊎ (loc4 ≡ city6)

abbrev pub IsAgreed : Bytes → Bytes → Bytes → Bytes → Bool → Type 0
IsAgreed loc4 isp4 isp6 city6 strict =
    (¬ ((loc4 ≡ []) × (isp4 ≡ [])))
    × ((¬ ((isp6 ≡ []) × (city6 ≡ []))) × SharesName loc4 isp4 isp6 city6 strict)

-- A test decides a proposition.
pub data Reflects (P : Type 0) : Bool → Type 0 where
  holds : P → Reflects P true
  fails : ¬ P → Reflects P false

and-Reflects : {P Q : Type 0} {a b : Bool} → Reflects P a → Reflects Q b → Reflects (P × Q) (a && b)
and-Reflects (holds p) (holds q) = holds (p, q)
and-Reflects (holds p) (fails q) = fails (λ r. q r.1)
and-Reflects (fails p) q = fails (λ r. p r.0)

or-Reflects : {P Q : Type 0} {a b : Bool} → Reflects P a → Reflects Q b → Reflects (P ⊎ Q) (a || b)
or-Reflects (holds p) q = holds (inl p)
or-Reflects (fails p) (holds q) = holds (inr q)
or-Reflects {P} {Q} (fails p) (fails q) = fails none_of
  where
    none_of : ¬ (P ⊎ Q)
    none_of (inl x) = p x
    none_of (inr y) = q y

not-Reflects : {P : Type 0} {a : Bool} → Reflects P a → Reflects (¬ P) (not a)
not-Reflects (holds p) = fails (λ n. n p)
not-Reflects (fails p) = holds p

guard-Reflects :
    {P Q : Type 0} {a b : Bool}
    → Reflects P a
    → Reflects Q b
    → Reflects ((¬ P) × Q) (if a then false else b)
guard-Reflects (holds p) q = fails (λ r. r.0 p)
guard-Reflects (fails p) (holds q) = holds (p, q)
guard-Reflects (fails p) (fails q) = fails (λ r. q r.1)

-- A test with its two directions.
decided : {P : Type 0} (a : Bool) → (a ≡ true → P) → (P → a ≡ true) → Reflects P a
decided true f g = holds (f refl)
decided false f g = fails (λ p. cc (g p))

is_empty-Reflects : (s : Bytes) → Reflects (s ≡ []) (is_empty s)
is_empty-Reflects s = decided (is_empty s) (empty s) (λ h. rw h refl)
  where
    empty : (s : Bytes) → is_empty s ≡ true → s ≡ []
    empty [] h = refl
    empty (c ∷ s) h = absurd (ground (arith, h))

bytes_eq-Reflects : (s t : Bytes) → Reflects (s ≡ t) (bytes_eq s t)
bytes_eq-Reflects s t =
    decided (bytes_eq s t) (bytes_eq→eq s t)
      (λ h. subst (λ x. bytes_eq s x ≡ true) h (bytes_eq_refl s))

starts_with-append : (p back : Bytes) → starts_with (p ++ back) p ≡ true
starts_with-append [] back = refl
starts_with-append (c ∷ p) back = ground (arith, starts_with-append p back)

starts_with-split : (s p : Bytes) → starts_with s p ≡ true → (back : Bytes) × (s ≡ p ++ back)
starts_with-split s [] h = (s, refl)
starts_with-split [] (c ∷ p) h = cc h
starts_with-split (x ∷ s) (c ∷ p) h = elim (Bool-cases (x == c)) [
  | inl same ↦
      let (back, e) = starts_with-split s p (rw same at h) in
      let here : x ≡ c = ground (arith, same) in
      (back, ap (◌∷◌ x) e ∙ ap (λ y. y ∷ (p ++ back)) here)
  | inr other ↦ cc (rw other at h)
]

contains_text-finds : (front p back : Bytes) → contains_text (front ++ (p ++ back)) p ≡ true
unfolding contains_text
contains_text-finds [] p back = at_start (p ++ back) (starts_with-append p back)
  where
    at_start : (s : Bytes) → starts_with s p ≡ true → contains_text s p ≡ true
    at_start [] h = h
    at_start (c ∷ s) h = rw h refl
contains_text-finds (c ∷ front) p back =
    or_right (starts_with (c ∷ (front ++ (p ++ back))) p) (contains_text-finds front p back)
  where
    or_right : (a : Bool) {b : Bool} → b ≡ true → (a || b) ≡ true
    or_right true h = refl
    or_right false h = h

contains_text-IsPart : (s p : Bytes) → contains_text s p ≡ true → IsPart p s
unfolding contains_text
contains_text-IsPart [] p h = let (back, e) = starts_with-split [] p h in ([], back, e)
contains_text-IsPart (c ∷ s) p h = elim (Bool-cases (starts_with (c ∷ s) p)) [
  | inl here ↦ let (back, e) = starts_with-split (c ∷ s) p here in ([], back, e)
  | inr later ↦
      let (front, back, e) = contains_text-IsPart s p (rw later at h) in
      (c ∷ front, back, ap (◌∷◌ c) e)
]

contains_text-Reflects : (s p : Bytes) → Reflects (IsPart p s) (contains_text s p)
contains_text-Reflects s p =
    decided (contains_text s p) (contains_text-IsPart s p)
      (λ h. subst (λ x. contains_text x p ≡ true) (sym h.2) (contains_text-finds h.0 p h.1))

-- `consistent` decides whether the two libraries agree.
pub consistent-Reflects :
    (loc4 isp4 isp6 city6 : Bytes) (strict : Bool)
    → Reflects (IsAgreed loc4 isp4 isp6 city6 strict) (consistent loc4 isp4 isp6 city6 strict)
unfolding consistent
consistent-Reflects loc4 isp4 isp6 city6 strict =
    guard-Reflects (and-Reflects (is_empty-Reflects loc4) (is_empty-Reflects isp4)) (
      guard-Reflects (and-Reflects (is_empty-Reflects isp6) (is_empty-Reflects city6))
        (shares strict))
  where
    shares :
        (b : Bool)
        → Reflects (SharesName loc4 isp4 isp6 city6 b) (
            if b
            then not (is_empty city6) && (contains_text isp4 city6 || contains_text loc4 city6)
            else not (is_empty isp4)
                && (not (is_empty isp6) && (contains_text isp4 isp6 || contains_text isp6 isp4))
              || bytes_eq loc4 city6)
    shares true =
        and-Reflects (not-Reflects (is_empty-Reflects city6))
          (or-Reflects (contains_text-Reflects isp4 city6) (contains_text-Reflects loc4 city6))
    shares false =
        or-Reflects
          (and-Reflects (not-Reflects (is_empty-Reflects isp4)) (
            and-Reflects (not-Reflects (is_empty-Reflects isp6))
              (or-Reflects (contains_text-Reflects isp4 isp6) (contains_text-Reflects isp6 isp4))))
          (bytes_eq-Reflects loc4 city6)
