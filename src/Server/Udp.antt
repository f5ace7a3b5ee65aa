-- ===== src/Server/Udp.antt =====
-- src/server/udp.rs: the reader and the workers of DNS over UDP, which take turns in a step relation. A
-- datagram is cut to the reader's buffer of 4096 bytes. A worker whose query panics is gone; it holds no
-- lock of the queue then. The last one takes the channel with it. Errors of the socket, which the code ignores, are not modelled.
pub mod Workers
use dnsd_rs.Base.{
  Bool, Bytes, List, Result, [], codes, err, false, if◌then◌else◌, length, max, not, ok, panic,
  take, true, ℕ, ◌++◌, ◌+◌, ◌-◌, ◌<◌, ◌==◌, ◌∷◌, ◌≡◌,
}
use dnsd_rs.Resolve.Recurse.{SocketAddr}
use dnsd_rs.Server.Service.{DnsService}

abbrev pub Datagram : Type 0
Datagram = Bytes × SocketAddr

module _ (service : DnsService) where
  -- Whether the reader runs, the channel, the workers that wait on it, the datagrams in the hands of a
  -- worker, and the number of workers that are gone; what was received and sent so far.
  pub record Listener : Type 0 where
    pub reading : Bool
    pub queue : List Datagram
    pub idle : ℕ
    pub busy : List Datagram
    pub gone : ℕ
    pub shared : service.State
    pub received : List Datagram
    pub sent : List Datagram

  -- `serve_udp`: at least four workers.
  abbrev pub listen : ℕ → service.State → Listener
  listen workers st = record {
    reading = true;
    queue = [];
    idle = max workers 4;
    busy = [];
    gone = 0;
    shared = st;
    received = [];
    sent = [];
  }

  -- Whether a worker is left, which keeps the receiving end of the channel.
  abbrev pub has_workers : Listener → Bool
  has_workers l = not (l.idle + length l.busy == 0)

  -- The reader: `buf[..n].to_vec()`, sent to the channel; where nobody can receive it, the reader ends.
  unfoldable pub receive : Datagram → Listener → Listener
  receive (s, addr) l =
      let got = record l { received = l.received ++ ((take 4096 s, addr) ∷ []) } in
      if has_workers l
      then record got { queue = l.queue ++ ((take 4096 s, addr) ∷ []) }
      else record got { reading = false }

  -- A worker takes the first datagram of the channel.
  unfoldable pub take_up : Datagram → List Datagram → Listener → Listener
  take_up d rest l = record l { queue = rest; idle = l.idle - 1; busy = l.busy ++ (d ∷ []) }

  -- The channel goes with its last worker, and what waits in it.
  abbrev pub drop_channel : Listener → Listener
  drop_channel l = if has_workers l then l else record l { queue = [] }

  -- A worker is done with a datagram, with others still in hand: its reply goes to the sender.
  unfoldable pub finish :
      SocketAddr → List Datagram → Result (Bytes × service.State) → Listener → Listener
  finish addr others (ok (resp, st)) l = record l {
    idle = l.idle + 1;
    busy = others;
    shared = st;
    sent = l.sent ++ ((resp, addr) ∷ []);
  }
  finish addr others (err e) l = record l {
    idle = l.idle + 1;
    busy = others;
    sent = l.sent ++ (([], addr) ∷ []);
  }
  finish addr others panic l = drop_channel (record l { busy = others; gone = l.gone + 1 })

  abbrev pub answer_to : Datagram → Listener → Result (Bytes × service.State)
  answer_to (s, addr) l = service.answer s addr.ip (codes "udp") l.shared

  pub data Step : Listener → Listener → Type 0 where
    reads : (l : Listener) (d : Datagram) → l.reading ≡ true → Step l (receive d l)
    takes :
        (l : Listener) (d : Datagram) (rest : List Datagram)
        → l.queue ≡ d ∷ rest
        → 0 < l.idle
        → Step l (take_up d rest l)
    finishes :
        (l : Listener) (d : Datagram) (front back : List Datagram)
        → l.busy ≡ front ++ (d ∷ back)
        → Step l (finish d.1 (front ++ back) (answer_to d l) l)

  pub data Reach (l : Listener) : Listener → Type 0 where
    here : Reach l l
    next : {m n : Listener} → Reach l m → Step m n → Reach l n
