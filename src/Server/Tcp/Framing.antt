-- ===== src/Server/Tcp/Framing.antt =====
-- What a client of the TCP listener of src/server/tcp.rs gets for the messages that it sends.
use dnsd_rs.Base.{
  All, Bool-cases, Bytes, List, Option, Result, [], append_assoc, arith, codes, drop-length, err,
  if◌then◌else◌, inl, inr, length, length-append, ltb-eq-false, none, ok, panic, refl, some, suc,
  take-length, zero, ℕ, ◌++◌, ◌%◌, ◌*◌, ◌+◌, ◌-◌, ◌/◌, ◌<◌, ◌==◌, ◌^◌, ◌≡◌, ◌≤◌, ◌∷◌,
}
use dnsd_rs.Proto.Types.{IpAddr}
use dnsd_rs.Server.Service.{DnsService}
use dnsd_rs.Server.Tcp.{Served, answered, conn_loop, frame, handle_conn, read_frame, split_at}

abbrev pub frames : List Bytes → Bytes
frames [] = []
frames (m ∷ ms) = frame m ++ frames ms

-- A client that takes message after message from what it got.
abbrev cons_first : Bytes → List Bytes × Bytes → List Bytes × Bytes
cons_first m (ms, rest) = (m ∷ ms, rest)

abbrev take_frame :
    Bytes → Option (Bytes × Bytes) → (Bytes → List Bytes × Bytes) → List Bytes × Bytes
take_frame s none more = ([], s)
take_frame s (some (m, rest)) more = cons_first m (more rest)

unfoldable pub client_reads : ℕ → Bytes → List Bytes × Bytes
unfolding read_frame
client_reads zero s = ([], s)
client_reads (suc f) s = take_frame s (read_frame s) (λ rest. client_reads f rest)

split_at-append : (m rest : Bytes) → split_at (length m) (m ++ rest) ≡ some (m, rest)
split_at-append m rest =
    rw
      (
        ltb-eq-false (length (m ++ rest)) (length m) (omega (arith, length-append m rest)),
        take-length m rest,
        drop-length m rest,
      )
      refl

read_frame-frame :
    (m rest : Bytes) → length m < 2 ^ 16 → read_frame (frame m ++ rest) ≡ some (m, rest)
unfolding read_frame frame
read_frame-frame m rest small =
    let e : length m % 2 ^ 16 / 256 % 256 * 256 + length m % 2 ^ 16 % 256 ≡ length m =
      omega (arith, small) in
    rw e (split_at-append m rest)

length-frame : (m : Bytes) → length (frame m) ≡ length m + 2
unfolding frame
length-frame m = omega arith

-- The client has every message that was framed, and nothing is left.
client_reads-frames :
    (f : ℕ) (ms : List Bytes)
    → All (λ m. length m < 2 ^ 16) ms
    → length (frames ms) < f
    → client_reads f (frames ms) ≡ (ms, [])
unfolding client_reads
client_reads-frames zero ms small h = absurd (omega (arith, h))
client_reads-frames (suc f) [] small h = refl
client_reads-frames (suc f) (m ∷ ms) small h =
    rw
      (
        read_frame-frame m (frames ms) small.0,
        client_reads-frames f ms small.1
            (omega (arith, h, length-append (frame m) (frames ms), length-frame m)),
      )
      refl

module _ (service : DnsService) (peer : IpAddr) where
  -- The answers of the service to messages in turn, up to one that is empty or a panic.
  abbrev pub Replies : Type 0
  Replies = List Bytes × Option service.State

  abbrev replied :
      service.State → Result (Bytes × service.State) → (service.State → Replies) → Replies
  replied st (ok (r, st')) more =
      if length r == 0 then ([], some st') else (r ∷ (more st').0, (more st').1)
  replied st (err e) more = ([], some st)
  replied st panic more = ([], none)

  unfoldable pub replies : List Bytes → service.State → Replies
  replies [] st = ([], some st)
  replies (m ∷ ms) st = replied st (service.answer m peer (codes "tcp") st) (λ st'. replies ms st')

  -- What a connection sends for these.
  abbrev pub Sends : Served service → Replies → Type 0
  Sends served rs = served ≡ (frames rs.0, rs.1)

  answered-Sends :
      (room : ℕ) (st : service.State) (r : Result (Bytes × service.State))
      (go_on : ℕ → service.State → Served service) (more : service.State → Replies)
      → ((room' : ℕ) (st' : service.State)
          → length (frames (more st').0) ≤ room'
          → Sends (go_on room' st') (more st'))
      → length (frames (replied st r more).0) ≤ room
      → Sends (answered service room st r go_on) (replied st r more)
  answered-Sends room st (err e) go_on more next enough = refl
  answered-Sends room st panic go_on more next enough = refl
  answered-Sends room st (ok (r, st')) go_on more next enough = elim (Bool-cases (length r == 0)) [
    | inl e ↦ rw e refl
    | inr e ↦
        let sum = length-append (frame r) (frames (more st').0) in
        let fits : length (frame r) + length (frames (more st').0) ≤ room =
          omega (arith, (rw e at enough), sum) in
        rw
          (
            e,
            ltb-eq-false room (length (frame r)) (omega (arith, fits)),
            next (room - length (frame r)) st' (omega (arith, fits)),
          )
          refl
  ]

  conn_loop-Sends :
      (f : ℕ) (ms : List Bytes) (rest : Bytes) (room : ℕ) (st : service.State)
      → All (λ m. length m < 2 ^ 16) ms
      → read_frame rest ≡ none
      → length (frames ms ++ rest) < f
      → length (frames (replies ms st).0) ≤ room
      → Sends (conn_loop service f peer (frames ms ++ rest) room st) (replies ms st)
  unfolding conn_loop replies
  conn_loop-Sends zero ms rest room st small over h enough = absurd (omega (arith, h))
  conn_loop-Sends (suc f) [] rest room st small over h enough = rw over refl
  conn_loop-Sends (suc f) (m ∷ ms) rest room st small over h enough =
      rw (append_assoc (frame m) (frames ms) rest, read_frame-frame m (frames ms ++ rest) small.0)
        (answered-Sends room st (service.answer m peer (codes "tcp") st) _ _
          (λ room' st' fits.
            conn_loop-Sends f ms rest room' st' small.1 over
              (omega (
                arith,
                h,
                length-frame m,
                length-append (frame m ++ frames ms) rest,
                length-append (frame m) (frames ms),
                length-append (frames ms) rest,
              ))
              fits)
          enough)

  -- Where a connection gives messages, each with its length in front, and then less than a whole one, and
  -- takes all that is sent: the service answers the messages in turn up to one that gets no answer or a
  -- panic, and what is sent is the answers with their lengths. Where these have less than 2^16 bytes, a
  -- client reads the answers back, and nothing else.
  pub handle_conn-replies :
      (ms : List Bytes) (rest : Bytes) (room : ℕ) (st : service.State)
      → All (λ m. length m < 2 ^ 16) ms
      → read_frame rest ≡ none
      → length (frames (replies ms st).0) ≤ room
      → Sends (handle_conn service peer (frames ms ++ rest) room st) (replies ms st)
        × (All (λ m. length m < 2 ^ 16) (replies ms st).0
            → client_reads
                (suc (length (handle_conn service peer (frames ms ++ rest) room st).0))
                (handle_conn service peer (frames ms ++ rest) room st).0
              ≡ ((replies ms st).0, []))
  unfolding handle_conn
  handle_conn-replies ms rest room st small over enough =
      let sent =
        conn_loop-Sends (suc (length (frames ms ++ rest))) ms rest room st small over (omega arith)
          enough in
      (sent, λ fits. rw sent (client_reads-frames _ (replies ms st).0 fits (omega arith)))
