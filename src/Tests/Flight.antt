-- ===== src/Tests/Flight.antt =====
use dnsd_rs.Base.{Bytes, [], refl, some, ℕ, ◌∷◌, ◌≡◌}
use dnsd_rs.Resolve.Flight.{
  Reach, System, after_step, answered, become_leader, calling, create_flight, go_on, insert_flight,
  join_flight, joined, leading, new_board, no_steps, one_more, panicked, returned, start_flight,
  stay,
}
use dnsd_rs.Resolve.Flight.Safety.{crash-hangs, one_leader}

-- Two threads that call `resolve` with one key.

abbrev key_k : Bytes
key_k = b'k' ∷ []

abbrev both : ℕ → Bytes
both i = key_k

abbrev at_start : System
at_start = record { board = new_board; phase = λ i. calling (both i) }

-- Thread 0 makes the flight and becomes its leader.
abbrev made : System
made = after_step 0 (joined key_k 0) (insert_flight key_k at_start.board) at_start

abbrev led : System
led = after_step 0 (leading key_k 0) (start_flight 0 made.board) made

led-Reach : Reach both led
led-Reach =
    one_more {s = made}
      (one_more {s = at_start} no_steps (create_flight {s = at_start} 0 key_k refl refl))
      (become_leader {s = made} 0 key_k 0 refl refl)

abbrev first_thread : ℕ
first_thread = 0

one_leader_example : first_thread ≡ first_thread
one_leader_example = one_leader 0 0 key_k 0 0 led-Reach refl refl

-- Thread 1 joins after the leader panicked.
abbrev lost : System
lost = after_step 0 panicked led.board led

abbrev joined_late : System
joined_late = after_step 1 (joined key_k 0) lost.board lost

crash-hangs_example :
    (joined_late.board.inflight key_k ≡ some 0) × ¬ (joined_late.phase 1 ≡ returned 0 (answered []))
crash-hangs_example =
    crash-hangs 0 1 key_k 0 (answered []) led-Reach refl
      (go_on {t = lost} stay (join_flight {s = lost} 1 key_k 0 refl refl))
