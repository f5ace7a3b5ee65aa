-- ===== src/Resolve/Custom/Longest.antt =====
-- `find_zone` of src/resolve/custom.rs: which zone serves a name.
use mathlib.Core.Option.{some-injective}
use dnsd_rs.Base.{
  Bool, Bool-cases, Bytes, List, Option, [], any, arith, bytes_eq, ends_with, false, get_elem?,
  if◌then◌else◌, inl, inr, leb, length, ltb, none, refl, some, subst, suc, sym, true, ℕ, ◌&&◌, ◌||◌,
  ◌∷◌, ◌≡◌, ◌⊎◌,
}
use dnsd_rs.Proto.Text.{Text, canonical_name}
use dnsd_rs.Resolve.Custom.{ZoneIndex, find_loop, find_zone, is_longer_zone}
use dnsd_rs.Resolve.ZoneRecords.{ZoneRecord}

-- The name is the zone's or ends in its text.
abbrev covers : Bytes → Bytes × List ZoneRecord → Bool
covers n z = bytes_eq n z.0 || ends_with n z.0

-- Some zone covers the name and is longer than `k`.
abbrev any_longer : Bytes → ℕ → ZoneIndex → Bool
any_longer n k t = any (λ z. covers n z && ltb k (length z.0)) t

-- The longest zone that covers a name, or nothing when none covers it.
abbrev pub IsLongestZone : Bytes → ZoneIndex → Option (Bytes × List ZoneRecord) → Type 0
IsLongestZone n t none = any (covers n) t ≡ false
IsLongestZone n t (some z) =
    (i : ℕ) × (get_elem? t i ≡ some z) × (covers n z ≡ true) × (any_longer n (length z.0) t ≡ false)

IsBestZone :
    Bytes → Option (Bytes × List ZoneRecord) → ZoneIndex → Option (Bytes × List ZoneRecord) → Type 0
IsBestZone n best t none = (best ≡ none) × (any (covers n) t ≡ false)
IsBestZone n best t (some z) =
    ((best ≡ some z) ⊎ ((i : ℕ) × (get_elem? t i ≡ some z) × (covers n z ≡ true)))
    × (any_longer n (length z.0) t ≡ false)
    × (elim best [ none ↦ true | some b ↦ leb (length b.0) (length z.0) ] ≡ true)

later :
    (n : Bytes) (best : Option (Bytes × List ZoneRecord)) (x z : Bytes × List ZoneRecord)
    (t : ZoneIndex)
    → (best ≡ some z) ⊎ ((i : ℕ) × (get_elem? t i ≡ some z) × (covers n z ≡ true))
    → (best ≡ some z) ⊎ ((i : ℕ) × (get_elem? (x ∷ t) i ≡ some z) × (covers n z ≡ true))
later n best x z t (inl same) = inl same
later n best x z t (inr (i, at_i, inside)) = inr (suc i, at_i, inside)

take_here :
    (n : Bytes) (best : Option (Bytes × List ZoneRecord)) (x z : Bytes × List ZoneRecord)
    (t : ZoneIndex)
    → covers n x ≡ true
    → ◌≡◌ {A = Option (Bytes × List ZoneRecord)} (some x) (some z)
      ⊎ ((i : ℕ) × (get_elem? t i ≡ some z) × (covers n z ≡ true))
    → (best ≡ some z) ⊎ ((i : ℕ) × (get_elem? (x ∷ t) i ≡ some z) × (covers n z ≡ true))
take_here n best x z t inside (inl same) =
    inr (0, same, subst (λ y. covers n y ≡ true) (some-injective x z same) inside)
take_here n best x z t inside (inr (i, at_i, also)) = inr (suc i, at_i, also)

find_loop-skip :
    (n : Bytes) (best r : Option (Bytes × List ZoneRecord)) (x : Bytes × List ZoneRecord)
    (t : ZoneIndex)
    → (covers n x && is_longer_zone x.0 best) ≡ false
    → IsBestZone n best t r
    → IsBestZone n best (x ∷ t) r
unfolding IsBestZone
find_loop-skip n none none x t skip h = (refl, ground arith)
find_loop-skip n (some b) none x t skip h = absurd (cc h.0)
find_loop-skip n none (some z) x t skip h = (later n none x z t h.0, ground arith, refl)
find_loop-skip n (some b) (some z) x t skip h = (later n (some b) x z t h.0, ground arith, h.2)

find_loop-take :
    (n : Bytes) (best r : Option (Bytes × List ZoneRecord)) (x : Bytes × List ZoneRecord)
    (t : ZoneIndex)
    → (covers n x && is_longer_zone x.0 best) ≡ true
    → IsBestZone n (some x) t r
    → IsBestZone n best (x ∷ t) r
unfolding IsBestZone
find_loop-take n best none x t taken h = absurd (cc h.0)
find_loop-take n none (some z) x t taken h =
    (take_here n none x z t (ground arith) h.0, ground arith, refl)
find_loop-take n (some b) (some z) x t taken h =
    (take_here n (some b) x z t (ground arith) h.0, ground arith, ground arith)

find_loop-IsBestZone :
    (n : Bytes) (best : Option (Bytes × List ZoneRecord)) (t : ZoneIndex)
    → IsBestZone n best t (find_loop n best t)
unfolding find_loop IsBestZone
find_loop-IsBestZone n none [] = (refl, refl)
find_loop-IsBestZone n (some b) [] = (inl refl, refl, ground arith)
find_loop-IsBestZone n best (x ∷ t) = elim (Bool-cases (covers n x && is_longer_zone x.0 best)) [
  | inl taken ↦
      subst (λ c. IsBestZone n best (x ∷ t) (find_loop n (if c then some x else best) t))
        (sym taken)
        (find_loop-take n best (find_loop n (some x) t) x t taken
          (find_loop-IsBestZone n (some x) t))
  | inr skip ↦
      subst (λ c. IsBestZone n best (x ∷ t) (find_loop n (if c then some x else best) t)) (sym skip)
        (find_loop-skip n best (find_loop n best t) x t skip (find_loop-IsBestZone n best t))
]

module _ ⦃text : Text⦄ where
  -- `find_zone` finds a longest zone whose text the canonical name ends in, and nothing when there is none.
  pub find_zone-IsLongestZone :
      (qname : Bytes) (t : ZoneIndex) → IsLongestZone (canonical_name qname) t (find_zone qname t)
  unfolding find_zone IsBestZone
  find_zone-IsLongestZone qname t =
      longest (find_loop (canonical_name qname) none t)
        (find_loop-IsBestZone (canonical_name qname) none t)
    where
      longest :
          (r : Option (Bytes × List ZoneRecord))
          → IsBestZone (canonical_name qname) none t r
          → IsLongestZone (canonical_name qname) t r
      longest none h = h.1
      longest (some z) h = elim h.0 [
        | inl same ↦ absurd (cc same)
        | inr (i, at_i, inside) ↦ (i, at_i, inside, h.1)
      ]
