-- ===== src/Resolve/Flight.antt =====
-- src/resolve/recurse.rs: the single flights of `Resolver::resolve`, with threads that take turns. A
-- thread takes a step between two points at which another one may run; a lock is held within a step.
-- What the leader computes, `lead` of Iterate, is the argument of the step that publishes it; a panic
-- go_on is a step of its own.
pub mod Phases
pub mod Invariant
pub mod Safety
use dnsd_rs.Base.{
  Bool, Bytes, Option, String, bytes_eq, false, if◌then◌else◌, none, some, suc, true, ℕ, ◌==◌, ◌≡◌,
}

-- `Resolved`
pub data Resolved : Type 0 where
  answered : Bytes → Resolved
  failed : String → Resolved

-- The maps behind the locks and the fields of the flights. A flight is its number; one that is not made
-- yet stands at `false` and `none`, as `Flight` starts.
pub record Board : Type 0 where
  pub inflight : Bytes → Option ℕ
  pub started : ℕ → Bool
  pub published : ℕ → Option Resolved
  pub fresh : ℕ

-- Where a thread is in `resolve`.
pub data Phase : Type 0 where
  -- about to take the lock of the map
  calling : Bytes → Phase
  -- has its flight, about to swap `started`
  joined : Bytes → ℕ → Phase
  -- is the leader, in `do_resolve`
  leading : Bytes → ℕ → Phase
  -- has published, about to remove the key
  told : Bytes → ℕ → Resolved → Phase
  -- waits on the condition
  waiting : Bytes → ℕ → Phase
  -- has returned
  returned : ℕ → Resolved → Phase
  -- has panicked
  panicked : Phase

pub record System : Type 0 where
  pub board : Board
  pub phase : ℕ → Phase

abbrev pub set_at {ℓ} : {A : Type ℓ} → ℕ → A → (ℕ → A) → ℕ → A
set_at i a f j = if j == i then a else f j

abbrev pub set_key : Bytes → Option ℕ → (Bytes → Option ℕ) → Bytes → Option ℕ
set_key k v m x = if bytes_eq x k then v else m x

-- What the steps do to the board: `or_insert_with`, `swap`, the assignment to `state`, `remove`.
abbrev pub insert_flight : Bytes → Board → Board
insert_flight k b = record b { inflight = set_key k (some b.fresh) b.inflight; fresh = suc b.fresh }

abbrev pub start_flight : ℕ → Board → Board
start_flight f b = record b { started = set_at f true b.started }

abbrev pub publish : ℕ → Resolved → Board → Board
publish f r b = record b { published = set_at f (some r) b.published }

abbrev pub remove_flight : Bytes → Board → Board
remove_flight k b = record b { inflight = set_key k none b.inflight }

-- The thread is in the phase behind its step, over the board behind it.
abbrev pub after_step : ℕ → Phase → Board → System → System
after_step i p b s = record { board = b; phase = set_at i p s.phase }

pub data Step : System → System → Type 0 where
  create_flight :
      {s : System} (i : ℕ) (k : Bytes)
      → s.phase i ≡ calling k
      → s.board.inflight k ≡ none
      → Step s (after_step i (joined k s.board.fresh) (insert_flight k s.board) s)
  join_flight :
      {s : System} (i : ℕ) (k : Bytes) (f : ℕ)
      → s.phase i ≡ calling k
      → s.board.inflight k ≡ some f
      → Step s (after_step i (joined k f) s.board s)
  become_leader :
      {s : System} (i : ℕ) (k : Bytes) (f : ℕ)
      → s.phase i ≡ joined k f
      → s.board.started f ≡ false
      → Step s (after_step i (leading k f) (start_flight f s.board) s)
  become_follower :
      {s : System} (i : ℕ) (k : Bytes) (f : ℕ)
      → s.phase i ≡ joined k f
      → s.board.started f ≡ true
      → Step s (after_step i (waiting k f) s.board s)
  publish_result :
      {s : System} (i : ℕ) (k : Bytes) (f : ℕ) (r : Resolved)
      → s.phase i ≡ leading k f
      → Step s (after_step i (told k f r) (publish f r s.board) s)
  leave_flight :
      {s : System} (i : ℕ) (k : Bytes) (f : ℕ) (r : Resolved)
      → s.phase i ≡ told k f r
      → Step s (after_step i (returned f r) (remove_flight k s.board) s)
  wake_up :
      {s : System} (i : ℕ) (k : Bytes) (f : ℕ) (r : Resolved)
      → s.phase i ≡ waiting k f
      → s.board.published f ≡ some r
      → Step s (after_step i (returned f r) s.board s)
  leader_panics :
      {s : System} (i : ℕ) (k : Bytes) (f : ℕ)
      → s.phase i ≡ leading k f
      → Step s (after_step i panicked s.board s)

-- The empty map of `Resolver::new`.
abbrev pub new_board : Board
new_board = record { inflight = λ k. none; started = λ f. false; published = λ f. none; fresh = 0 }

-- What the steps reach from the call of `resolve` by each thread with its key.
pub data Reach (keys : ℕ → Bytes) : System → Type 0 where
  no_steps : Reach keys (record { board = new_board; phase = λ i. calling (keys i) })
  one_more : {s t : System} → Reach keys s → Step s t → Reach keys t

-- What the steps reach from a state.
pub data Steps (s : System) : System → Type 0 where
  stay : Steps s s
  go_on : {t u : System} → Steps s t → Step t u → Steps s u
