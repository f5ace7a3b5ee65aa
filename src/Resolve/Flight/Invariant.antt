-- ===== src/Resolve/Flight/Invariant.antt =====
use dnsd_rs.Base.{
  ==_iff, Bool-cases, Bytes, bytes_eq_refl, false, if◌then◌else◌, inl, inr, none, refl, some, subst,
  sym, true, ℕ, ◌==◌, ◌∙◌, ◌≡◌,
}
use dnsd_rs.Resolve.Flight.{
  Board, Phase, Reach, Step, System, after_step, become_follower, become_leader, create_flight,
  insert_flight, join_flight, joined, leader_panics, leading, leave_flight, no_steps, one_more,
  publish, publish_result, remove_flight, set_at, start_flight, told, wake_up,
}
use dnsd_rs.Resolve.Flight.Phases.{
  Inv, IsSound, IsUnique, insert-IsSound, owner-started, owns, publish-IsLate, publish-IsSound,
  remove-IsSound, start-IsLate, start-IsSound,
}

-- What holds in every state that the flights reach.

-- A step of thread `i` keeps the threads sound, and the leaders of a flight one.
all-IsSound :
    (s : System) (i : ℕ) (p : Phase) (b : Board)
    → IsSound b p
    → ((j : ℕ) → (j == i) ≡ false → IsSound b (s.phase j))
    → (j : ℕ) → IsSound b ((after_step i p b s).phase j)
all-IsSound s i p b new old j = elim (Bool-cases (j == i)) [
  | inl same ↦ rw same new
  | inr other ↦ rw other (old j other)
]

set_at-IsUnique :
    (phase : ℕ → Phase) (i : ℕ) (p : Phase)
    → IsUnique phase
    → ((f j : ℕ) → owns f p ≡ true → owns f (phase j) ≡ true → i ≡ j)
    → IsUnique (set_at i p phase)
set_at-IsUnique phase i p u new f a b oa ob = elim (Bool-cases (a == i)) [
  | inl at_a ↦ elim (Bool-cases (b == i)) [
    | inl at_b ↦ (==_iff a i).0 at_a ∙ sym ((==_iff b i).0 at_b)
    | inr off_b ↦
        (==_iff a i).0 at_a
        ∙ new f b (subst (λ x. owns f (if x then p else phase a) ≡ true) at_a oa)
            (subst (λ x. owns f (if x then p else phase b) ≡ true) off_b ob)
  ]
  | inr off_a ↦
      let oa' = subst (λ x. owns f (if x then p else phase a) ≡ true) off_a oa in
      elim (Bool-cases (b == i)) [
        | inl at_b ↦ sym (
            (==_iff b i).0 at_b
            ∙ new f a (subst (λ x. owns f (if x then p else phase b) ≡ true) at_b ob) oa')
        | inr off_b ↦ u f a b oa' (subst (λ x. owns f (if x then p else phase b) ≡ true) off_b ob)
      ]
]

-- The other threads do not own the flight of the one that does.
pub others_do_not_own :
    (s : System) (i f : ℕ)
    → IsUnique s.phase
    → owns f (s.phase i) ≡ true
    → (j : ℕ) → (j == i) ≡ false
    → owns f (s.phase j) ≡ false
others_do_not_own s i f u own j other = elim (Bool-cases (owns f (s.phase j))) [
  | inl also ↦ absurd (cc (other, (==_iff j i).1 (u f j i also own)))
  | inr not_it ↦ not_it
]

IsSound-at : (s : System) (i : ℕ) (p : Phase) → Inv s → s.phase i ≡ p → IsSound s.board p
IsSound-at s i p inv e = subst (IsSound s.board) e (inv.0 i)

-- A thread that goes on as the leader it was, or as none.
keeps_owner :
    (s : System) (i : ℕ) (p q : Phase)
    → Inv s
    → s.phase i ≡ p
    → ((f : ℕ) → owns f q ≡ true → owns f p ≡ true)
    → IsUnique (set_at i q s.phase)
keeps_owner s i p q inv e same =
    set_at-IsUnique s.phase i q inv.1
      (λ f j o oj. inv.1 f i j (subst (λ x. owns f x ≡ true) (sym e) (same f o)) oj)

-- Only the first thread to swap `started` becomes the leader.
leader_is_new :
    (s : System) (i : ℕ) (k : Bytes) (f : ℕ)
    → Inv s
    → s.board.started f ≡ false
    → IsUnique (set_at i (leading k f) s.phase)
leader_is_new s i k f inv idle = set_at-IsUnique s.phase i (leading k f) inv.1 (λ g j o oj.
    let begun = owner-started s.board g (s.phase j) (inv.0 j) oj in
    absurd (cc (idle, begun, (==_iff f g).0 o)))

unpublished : (s : System) (f : ℕ) → Inv s → s.board.started f ≡ false → s.board.published f ≡ none
unpublished s f inv idle = elim (inv.2 f) [ inl begun ↦ absurd (cc (idle, begun)) | inr e ↦ e ]

pub ==_refl : (f : ℕ) → (f == f) ≡ true
==_refl f = (==_iff f f).1 refl

-- Every step keeps the invariant.
pub Step-Inv : {s t : System} → Step s t → Inv s → Inv t
Step-Inv (create_flight {s} i k e free) inv = (
  all-IsSound s i _ (insert_flight k s.board) (inr (rw (bytes_eq_refl k) refl))
      (λ j other. insert-IsSound s.board k (s.phase j) free (inv.0 j)),
  keeps_owner s i _ _ inv e (λ f. cc),
  inv.2,
)
Step-Inv (join_flight {s} i k f e held) inv = (
  all-IsSound s i _ s.board (inr held) (λ j other. inv.0 j),
  keeps_owner s i _ _ inv e (λ f. cc),
  inv.2,
)
Step-Inv (become_leader {s} i k f e idle) inv =
    let held : s.board.inflight k ≡ some f = elim (IsSound-at s i (joined k f) inv e) [
      | inl begun ↦ absurd (cc (idle, begun))
      | inr held ↦ held
    ] in
    (
      all-IsSound s i _ (start_flight f s.board)
          (rw (==_refl f) refl, unpublished s f inv idle, held)
          (λ j other. start-IsSound s.board f (s.phase j) (inv.0 j)),
      leader_is_new s i k f inv idle,
      start-IsLate s.board f inv.2,
    )
Step-Inv (become_follower {s} i k f e begun) inv =
    (all-IsSound s i _ s.board tt (λ j other. inv.0 j), keeps_owner s i _ _ inv e (λ f. cc), inv.2)
Step-Inv (publish_result {s} i k f r e) inv =
    let sound = IsSound-at s i (leading k f) inv e in
    let own : owns f (s.phase i) ≡ true = rw (e, ==_refl f) refl in
    (
      all-IsSound s i _ (publish f r s.board) (sound.0, rw (==_refl f) refl, sound.2)
          (λ j other.
            publish-IsSound s.board f r (s.phase j) sound.1
              (others_do_not_own s i f inv.1 own j other) (inv.0 j)),
      keeps_owner s i _ _ inv e (λ g o. o),
      publish-IsLate s.board f r sound.0 inv.2,
    )
Step-Inv (leave_flight {s} i k f r e) inv =
    let sound = IsSound-at s i (told k f r) inv e in
    let own : owns f (s.phase i) ≡ true = rw (e, ==_refl f) refl in
    (
      all-IsSound s i _ (remove_flight k s.board) sound.1 (λ j other.
          remove-IsSound s.board k f (s.phase j) sound.2 sound.0
            (others_do_not_own s i f inv.1 own j other) (inv.0 j)),
      keeps_owner s i _ _ inv e (λ f. cc),
      inv.2,
    )
Step-Inv (wake_up {s} i k f r e known) inv = (
  all-IsSound s i _ s.board known (λ j other. inv.0 j),
  keeps_owner s i _ _ inv e (λ f. cc),
  inv.2,
)
Step-Inv (leader_panics {s} i k f e) inv =
    (all-IsSound s i _ s.board tt (λ j other. inv.0 j), keeps_owner s i _ _ inv e (λ f. cc), inv.2)

pub Reach-Inv : {keys : ℕ → Bytes} {s : System} → Reach keys s → Inv s
Reach-Inv no_steps = (λ i. tt, λ f i j o. absurd (cc o), λ f. inr refl)
Reach-Inv (one_more r step) = Step-Inv step (Reach-Inv r)
