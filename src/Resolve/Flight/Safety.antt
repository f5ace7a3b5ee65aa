-- ===== src/Resolve/Flight/Safety.antt =====
-- What the threads of a flight get, and what becomes of them when its leader panics.
use mathlib.Core.Option.{some-injective}
use dnsd_rs.Base.{
  ==_iff, Bool-cases, Bytes, Option, arith, bytes_eq, bytes_eq→eq, false, inl, inr, none, refl,
  some, subst, sym, true, ℕ, ◌==◌, ◌∙◌, ◌≡◌,
}
use dnsd_rs.Resolve.Flight.{
  Phase, Reach, Resolved, Step, Steps, System, after_step, become_follower, become_leader,
  create_flight, go_on, join_flight, leader_panics, leading, leave_flight, panicked, publish_result,
  returned, set_at, set_key, stay, told, wake_up,
}
use dnsd_rs.Resolve.Flight.Invariant.{==_refl, Reach-Inv, Step-Inv, others_do_not_own}
use dnsd_rs.Resolve.Flight.Phases.{Inv, IsSound, owns}

-- In every state that the flights reach, no two threads work on one key.
pub one_leader :
    {keys : ℕ → Bytes} {s : System} (i j : ℕ) (k : Bytes) (f g : ℕ)
    → Reach keys s
    → s.phase i ≡ leading k f
    → s.phase j ≡ leading k g
    → i ≡ j
one_leader {s = s} i j k f g reached at_i at_j =
    let inv = Reach-Inv reached in
    let sound_i = subst (IsSound s.board) at_i (inv.0 i) in
    let sound_j = subst (IsSound s.board) at_j (inv.0 j) in
    let same : f ≡ g = some-injective f g (sym sound_i.2 ∙ sound_j.2) in
    inv.1 g i j (rw (at_i, same, ==_refl g) refl) (rw (at_j, ==_refl g) refl)

-- Threads that return from one flight return the same result.
same_result :
    {keys : ℕ → Bytes} {s : System} (i j : ℕ) (f : ℕ) (q r : Resolved)
    → Reach keys s
    → s.phase i ≡ returned f q
    → s.phase j ≡ returned f r
    → q ≡ r
same_result {s = s} i j f q r reached at_i at_j =
    let inv = Reach-Inv reached in
    some-injective q r
      (sym (subst (IsSound s.board) at_i (inv.0 i)) ∙ subst (IsSound s.board) at_j (inv.0 j))

-- The key leads to a flight that is started, has no result, and has no leader.
pub record IsStuck (k : Bytes) (f : ℕ) (s : System) : Type 0 where
  pub held : s.board.inflight k ≡ some f
  pub begun : s.board.started f ≡ true
  pub silent : s.board.published f ≡ none
  pub leaderless : (j : ℕ) → owns f (s.phase j) ≡ false

no_owner :
    (s : System) (f i : ℕ) (p : Phase)
    → owns f p ≡ false
    → ((j : ℕ) → owns f (s.phase j) ≡ false)
    → (j : ℕ) → owns f (set_at i p s.phase j) ≡ false
no_owner s f i p new old j = elim (Bool-cases (j == i)) [
  | inl same ↦ rw same new
  | inr other ↦ rw other (old j)
]

-- A key that leads somewhere else than the one changed.
other_key :
    (m : Bytes → Option ℕ) (k j : Bytes) (f : ℕ) (v : Option ℕ)
    → m k ≡ some f
    → ¬ (m j ≡ some f)
    → set_key j v m k ≡ some f
other_key m k j f v held differs = elim (Bool-cases (bytes_eq k j)) [
  | inl same ↦ absurd (differs (subst (λ x. m x ≡ some f) (bytes_eq→eq k j same) held))
  | inr other ↦ rw other held
]

not_owner :
    (s : System) (i f g : ℕ) (p : Phase)
    → s.phase i ≡ p
    → owns f (s.phase i) ≡ false
    → owns f p ≡ false
not_owner s i f g p e h = subst (λ x. owns f x ≡ false) e h

Step-IsStuck : {s t : System} (k : Bytes) (f : ℕ) → Step s t → Inv s → IsStuck k f s → IsStuck k f t
Step-IsStuck k f (create_flight {s} i j e free) inv h = record {
  held = other_key s.board.inflight k j f _ h.held (λ clash. cc (free, clash));
  begun = h.begun;
  silent = h.silent;
  leaderless = no_owner s f i _ refl h.leaderless;
}
Step-IsStuck k f (join_flight {s} i j g e held) inv h = record {
  held = h.held;
  begun = h.begun;
  silent = h.silent;
  leaderless = no_owner s f i _ refl h.leaderless;
}
Step-IsStuck k f (become_leader {s} i j g e idle) inv h =
    let differs : (g == f) ≡ false = elim (Bool-cases (g == f)) [
      | inl same ↦ absurd (cc (idle, h.begun, (==_iff g f).0 same))
      | inr other ↦ other
    ] in
    record {
      held = h.held;
      begun = elim (Bool-cases (f == g)) [ inl same ↦ rw same refl | inr other ↦ rw other h.begun ];
      silent = h.silent;
      leaderless = no_owner s f i (leading j g) differs h.leaderless;
    }
Step-IsStuck k f (become_follower {s} i j g e begun) inv h = record {
  held = h.held;
  begun = h.begun;
  silent = h.silent;
  leaderless = no_owner s f i _ refl h.leaderless;
}
Step-IsStuck k f (publish_result {s} i j g r e) inv h =
    let differs : (g == f) ≡ false = not_owner s i f g (leading j g) e (h.leaderless i) in
    let differs' : (f == g) ≡ false = ground arith in
    record {
      held = h.held;
      begun = h.begun;
      silent = rw differs' h.silent;
      leaderless = no_owner s f i (told j g r) differs h.leaderless;
    }
Step-IsStuck k f (leave_flight {s} i j g r e) inv h =
    let differs : (g == f) ≡ false = not_owner s i f g (told j g r) e (h.leaderless i) in
    let sound = subst (IsSound s.board) e (inv.0 i) in
    record {
      held =
          other_key s.board.inflight k j f none h.held
            (λ clash. cc (differs, (==_iff g f).1 (some-injective g f (sym sound.2 ∙ clash))));
      begun = h.begun;
      silent = h.silent;
      leaderless = no_owner s f i (returned g r) refl h.leaderless;
    }
Step-IsStuck k f (wake_up {s} i j g r e known) inv h = record {
  held = h.held;
  begun = h.begun;
  silent = h.silent;
  leaderless = no_owner s f i _ refl h.leaderless;
}
Step-IsStuck k f (leader_panics {s} i j g e) inv h = record {
  held = h.held;
  begun = h.begun;
  silent = h.silent;
  leaderless = no_owner s f i _ refl h.leaderless;
}

Steps-IsStuck :
    {s t : System} (k : Bytes) (f : ℕ) → Steps s t → Inv s → IsStuck k f s → Inv t × IsStuck k f t
Steps-IsStuck k f stay inv h = (inv, h)
Steps-IsStuck k f (go_on r step) inv h =
    let (inv', h') = Steps-IsStuck k f r inv h in
    (Step-Inv step inv', Step-IsStuck k f step inv' h')

crash-IsStuck :
    (s : System) (i : ℕ) (k : Bytes) (f : ℕ)
    → Inv s
    → s.phase i ≡ leading k f
    → IsStuck k f (after_step i panicked s.board s)
crash-IsStuck s i k f inv e =
    let sound = subst (IsSound s.board) e (inv.0 i) in
    record {
      held = sound.2;
      begun = sound.0;
      silent = sound.1;
      leaderless = λ j. elim (Bool-cases (j == i)) [
        | inl same ↦ rw same refl
        | inr other ↦ rw other (others_do_not_own s i f inv.1 (rw (e, ==_refl f) refl) j other)
      ];
    }

-- When the leader of a flight panics, the key leads to that flight for ever, and no thread ever returns
-- from it.
pub crash-hangs :
    {keys : ℕ → Bytes} {s t : System} (i j : ℕ) (k : Bytes) (f : ℕ) (r : Resolved)
    → Reach keys s
    → s.phase i ≡ leading k f
    → Steps (after_step i panicked s.board s) t
    → (t.board.inflight k ≡ some f) × ¬ (t.phase j ≡ returned f r)
crash-hangs {s = s} {t = t} i j k f r reached e steps =
    let before = Reach-Inv reached in
    let (inv, stuck) =
      Steps-IsStuck k f steps (Step-Inv (leader_panics {s = s} i k f e) before)
        (crash-IsStuck s i k f before e) in
    (stuck.held, λ at_end. cc (stuck.silent, subst (IsSound t.board) at_end (inv.0 j)))
