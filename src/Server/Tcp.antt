-- ===== src/Server/Tcp.antt =====
-- src/server/tcp.rs: the connections of DNS over TCP, whose messages have their length in front of them. A
-- connection is what can be read from it before it ends, fails or times out, and how many bytes it takes
-- before writing fails. What is not modelled is the accepting thread.
pub mod Framing
use dnsd_rs.Base.{
  Bool, Bytes, List, Option, Result, [], codes, drop, err, if◌then◌else◌, length, ltb, none, ok,
  panic, some, take, zero, suc, ℕ, ◌%◌, ◌*◌, ◌++◌, ◌+◌, ◌-◌, ◌==◌, ◌^◌, ◌∷◌,
}
use dnsd_rs.Proto.Cursor.{be16_bytes}
use dnsd_rs.Proto.Types.{IpAddr}
use dnsd_rs.Server.Service.{DnsService}

-- A whole message at the start of what can be read, and what follows; nothing where an exact read fails.
abbrev pub split_at : ℕ → Bytes → Option (Bytes × Bytes)
split_at n s = if ltb (length s) n then none else some (take n s, drop n s)

unfoldable pub read_frame : Bytes → Option (Bytes × Bytes)
read_frame (hi ∷ lo ∷ rest) = split_at (hi * 256 + lo) rest
read_frame _ = none

-- A message with `(resp.len() as u16).to_be_bytes()` in front.
unfoldable pub frame : Bytes → Bytes
frame s = be16_bytes (length s % 2 ^ 16) ++ s

module _ (service : DnsService) where
  -- What was written, and the state behind the connection: none, where the thread panicked.
  abbrev pub Served : Type 0
  Served = Bytes × Option service.State

  abbrev pub behind : Bytes → Served → Served
  behind s (t, st) = (s ++ t, st)

  -- What follows the answer to a message; the last argument goes on with the connection.
  abbrev pub answered :
      ℕ → service.State → Result (Bytes × service.State) → (ℕ → service.State → Served) → Served
  answered room st (ok (resp, st')) go_on =
      let out = frame resp in
      if length resp == 0
      then ([], some st')
      else if ltb room (length out)
      then (take room out, some st')
      else behind out (go_on (room - length out) st')
  answered room st (err e) go_on = ([], some st)
  answered room st panic go_on = ([], none)

  abbrev with_frame :
      ℕ
      → service.State
      → IpAddr
      → Option (Bytes × Bytes)
      → (Bytes → ℕ → service.State → Served)
      → Served
  with_frame room st peer none loop = ([], some st)
  with_frame room st peer (some (msg, rest)) loop =
      answered room st (service.answer msg peer (codes "tcp") st) (loop rest)

  -- The loop of `handle_conn`: each turn takes two bytes at least.
  unfoldable pub conn_loop : ℕ → IpAddr → Bytes → ℕ → service.State → Served
  conn_loop zero peer incoming room st = ([], some st)
  conn_loop (suc f) peer incoming room st =
      with_frame room st peer (read_frame incoming)
        (λ rest room' st'. conn_loop f peer rest room' st')

  -- `handle_conn`
  unfoldable pub handle_conn : IpAddr → Bytes → ℕ → service.State → Served
  unfolding conn_loop
  handle_conn peer incoming room st = conn_loop (suc (length incoming)) peer incoming room st
