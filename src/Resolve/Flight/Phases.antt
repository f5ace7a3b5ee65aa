-- ===== src/Resolve/Flight/Phases.antt =====
-- What the phases of the threads say of the board, and that the steps of others keep it so.
use mathlib.Core.Option.{some-injective}
use dnsd_rs.Base.{
  ==_iff, Bool, Bool-cases, Bytes, ap, arith, bytes_eq, bytes_eq→eq, false, inl, inr, none, refl,
  some, subst, sym, true, ℕ, ◌==◌, ◌∙◌, ◌≡◌, ◌⊎◌,
}
use dnsd_rs.Resolve.Flight.{
  Board, Phase, Resolved, System, calling, insert_flight, joined, leading, panicked, publish,
  remove_flight, returned, set_at, set_key, start_flight, told, waiting,
}

-- What the phase of a thread says of the board.
abbrev pub IsSound : Board → Phase → Type 0
IsSound b (calling k) = Unit
IsSound b (joined k f) = (b.started f ≡ true) ⊎ (b.inflight k ≡ some f)
IsSound b (leading k f) = (b.started f ≡ true) × (b.published f ≡ none) × (b.inflight k ≡ some f)
IsSound b (told k f r) = (b.started f ≡ true) × (b.published f ≡ some r) × (b.inflight k ≡ some f)
IsSound b (waiting k f) = Unit
IsSound b (returned f r) = b.published f ≡ some r
IsSound b panicked = Unit

-- The thread is the leader of the flight.
abbrev pub owns : ℕ → Phase → Bool
owns f (leading k g) = g == f
owns f (told k g r) = g == f
owns f _ = false

abbrev pub IsUnique : (ℕ → Phase) → Type 0
IsUnique phase = (f i j : ℕ) → owns f (phase i) ≡ true → owns f (phase j) ≡ true → i ≡ j

-- No flight has a result before it is started.
abbrev IsLate : Board → Type 0
IsLate b = (f : ℕ) → (b.started f ≡ true) ⊎ (b.published f ≡ none)

abbrev pub Inv : System → Type 0
Inv s = ((i : ℕ) → IsSound s.board (s.phase i)) × IsUnique s.phase × IsLate s.board

pub owner-started :
    (b : Board) (f : ℕ) (p : Phase) → IsSound b p → owns f p ≡ true → b.started f ≡ true
owner-started b f (leading k g) h o =
    subst (λ x. b.started x ≡ true) (omega (arith, (==_iff g f).0 o)) h.0
owner-started b f (told k g r) h o =
    subst (λ x. b.started x ≡ true) (omega (arith, (==_iff g f).0 o)) h.0
owner-started b f (calling k) h o = absurd (cc o)
owner-started b f (joined k g) h o = absurd (cc o)
owner-started b f (waiting k g) h o = absurd (cc o)
owner-started b f (returned g r) h o = absurd (cc o)
owner-started b f panicked h o = absurd (cc o)

-- The four changes of the board keep the phases of the other threads sound.
pub insert-IsSound :
    (b : Board) (k : Bytes) (p : Phase)
    → b.inflight k ≡ none
    → IsSound b p
    → IsSound (insert_flight k b) p
insert-IsSound b k p free h = keep p h
  where
    same_key :
        (j : Bytes) (f : ℕ) → b.inflight j ≡ some f → set_key k (some b.fresh) b.inflight j ≡ some f
    same_key j f e = elim (Bool-cases (bytes_eq j k)) [
      | inl same ↦
          absurd (cc (e, subst (λ x. b.inflight x ≡ none) (sym (bytes_eq→eq j k same)) free))
      | inr other ↦ rw other e
    ]

    keep : (p : Phase) → IsSound b p → IsSound (insert_flight k b) p
    keep (joined j f) (inl e) = inl e
    keep (joined j f) (inr e) = inr (same_key j f e)
    keep (leading j f) h = (h.0, h.1, same_key j f h.2)
    keep (told j f r) h = (h.0, h.1, same_key j f h.2)
    keep (returned f r) h = h
    keep (calling j) h = tt
    keep (waiting j f) h = tt
    keep panicked h = tt

pub start-IsSound : (b : Board) (f : ℕ) (p : Phase) → IsSound b p → IsSound (start_flight f b) p
start-IsSound b f p h = keep p h
  where
    still : (g : ℕ) → b.started g ≡ true → set_at f true b.started g ≡ true
    still g e = elim (Bool-cases (g == f)) [ inl same ↦ rw same refl | inr other ↦ rw other e ]

    keep : (p : Phase) → IsSound b p → IsSound (start_flight f b) p
    keep (joined j g) (inl e) = inl (still g e)
    keep (joined j g) (inr e) = inr e
    keep (leading j g) h = (still g h.0, h.1, h.2)
    keep (told j g r) h = (still g h.0, h.1, h.2)
    keep (returned g r) h = h
    keep (calling j) h = tt
    keep (waiting j g) h = tt
    keep panicked h = tt

pub publish-IsSound :
    (b : Board) (f : ℕ) (r : Resolved) (p : Phase)
    → b.published f ≡ none
    → owns f p ≡ false
    → IsSound b p
    → IsSound (publish f r b) p
publish-IsSound b f r p free own h = keep p own h
  where
    same_result :
        (g : ℕ) (q : Resolved) → b.published g ≡ some q → set_at f (some r) b.published g ≡ some q
    same_result g q e = elim (Bool-cases (g == f)) [
      | inl same ↦
          absurd (cc (e, subst (λ x. b.published x ≡ none) (sym ((==_iff g f).0 same)) free))
      | inr other ↦ rw other e
    ]

    keep : (p : Phase) → owns f p ≡ false → IsSound b p → IsSound (publish f r b) p
    keep (joined j g) o h = h
    keep (leading j g) o h = (h.0, rw o h.1, h.2)
    keep (told j g q) o h = (h.0, same_result g q h.1, h.2)
    keep (returned g q) o h = same_result g q h
    keep (calling j) o h = tt
    keep (waiting j g) o h = tt
    keep panicked o h = tt

pub remove-IsSound :
    (b : Board) (k : Bytes) (f : ℕ) (p : Phase)
    → b.inflight k ≡ some f
    → b.started f ≡ true
    → owns f p ≡ false
    → IsSound b p
    → IsSound (remove_flight k b) p
remove-IsSound b k f p held begun own h = keep p own h
  where
    its_flight : (j : Bytes) (g : ℕ) → bytes_eq j k ≡ true → b.inflight j ≡ some g → g ≡ f
    its_flight j g same e = some-injective g f (sym e ∙ ap b.inflight (bytes_eq→eq j k same) ∙ held)

    still :
        (j : Bytes) (g : ℕ)
        → (g == f) ≡ false
        → b.inflight j ≡ some g
        → set_key k none b.inflight j ≡ some g
    still j g differ e = elim (Bool-cases (bytes_eq j k)) [
      | inl same ↦ absurd (cc (differ, (==_iff g f).1 (its_flight j g same e)))
      | inr other ↦ rw other e
    ]

    keep_joined :
        (j : Bytes) (g : ℕ) → b.inflight j ≡ some g → IsSound (remove_flight k b) (joined j g)
    keep_joined j g e = elim (Bool-cases (g == f)) [
      | inl same ↦ inl (subst (λ x. b.started x ≡ true) (sym ((==_iff g f).0 same)) begun)
      | inr other ↦ inr (still j g other e)
    ]

    keep : (p : Phase) → owns f p ≡ false → IsSound b p → IsSound (remove_flight k b) p
    keep (joined j g) o (inl e) = inl e
    keep (joined j g) o (inr e) = keep_joined j g e
    keep (leading j g) o h = (h.0, h.1, still j g o h.2)
    keep (told j g q) o h = (h.0, h.1, still j g o h.2)
    keep (returned g q) o h = h
    keep (calling j) o h = tt
    keep (waiting j g) o h = tt
    keep panicked o h = tt

pub start-IsLate : (b : Board) (f : ℕ) → IsLate b → IsLate (start_flight f b)
start-IsLate b f h g = elim (Bool-cases (g == f)) [
  | inl same ↦ inl (rw same refl)
  | inr other ↦ rw other (h g)
]

pub publish-IsLate :
    (b : Board) (f : ℕ) (r : Resolved) → b.started f ≡ true → IsLate b → IsLate (publish f r b)
publish-IsLate b f r begun h g = elim (Bool-cases (g == f)) [
  | inl same ↦ inl (subst (λ x. b.started x ≡ true) (sym ((==_iff g f).0 same)) begun)
  | inr other ↦ rw other (h g)
]
