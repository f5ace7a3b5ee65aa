-- ===== src/Server/Udp/Workers.antt =====
-- The workers of src/server/udp.rs: none is lost but by a panic, and what happens when all are.
use dnsd_rs.Base.{
  ap, Bool-cases, Bytes, List, Result, [], arith, codes, err, length, false, inl, inr,
  length-append, max, ok, true, panic, refl, sym, suc, take, zero, ℕ, ◌++◌, ◌+◌, ◌∙◌, ◌∷◌, ◌≡◌,
  subst,
}
use dnsd_rs.Resolve.Recurse.{SocketAddr}
use dnsd_rs.Server.Service.{DnsService}
use dnsd_rs.Server.Udp.{
  Datagram, Listener, Reach, Step, answer_to, drop_channel, finish, has_workers, finishes, here,
  listen, next, reads, receive, take_up, takes,
}

module _ (service : DnsService) where
  -- Each worker waits, works or is gone. While one is left, each datagram waits, is in work, was answered or
  -- took a worker with it; when none is, the channel is gone with what was in it. The reader runs until then.
  pub record IsCounted (workers : ℕ) (l : Listener service) : Type 0 where
    pub every_worker : l.idle + length l.busy + l.gone ≡ max workers 4
    pub every_datagram :
        has_workers service l ≡ true
        → length l.received ≡ length l.queue + length l.busy + length l.sent + l.gone
    pub no_channel : has_workers service l ≡ false → l.queue ≡ []
    pub reader : has_workers service l ≡ true → l.reading ≡ true

  drop_channel-IsCounted :
      (workers : ℕ) (l : Listener service)
      → l.idle + length l.busy + l.gone ≡ max workers 4
      → length l.received ≡ length l.queue + length l.busy + length l.sent + l.gone
      → l.reading ≡ true
      → IsCounted workers (drop_channel service l)
  drop_channel-IsCounted workers l w g on = elim (Bool-cases (has_workers service l)) [
    | inl left ↦ rw left (record {
      every_worker = w;
      every_datagram = λ h. g;
      no_channel = λ h. absurd (cc (left, h));
      reader = λ h. on;
    })
    | inr last ↦ rw last (record {
      every_worker = w;
      every_datagram = λ h. absurd (cc (last, h));
      no_channel = λ h. refl;
      reader = λ h. absurd (cc (last, h));
    })
  ]

  busy-has_workers :
      (l : Listener service) (d : Datagram) (front back : List Datagram)
      → l.busy ≡ front ++ (d ∷ back)
      → has_workers service l ≡ true
  busy-has_workers l d front back e = ground (arith, ap length e, length-append front (d ∷ back))

  finish-IsCounted :
      (workers : ℕ) (l : Listener service) (d : Datagram) (front back : List Datagram)
      (r : Result (Bytes × service.State))
      → l.busy ≡ front ++ (d ∷ back)
      → IsCounted workers l
      → IsCounted workers (finish service d.1 (front ++ back) r l)
  unfolding finish
  finish-IsCounted workers l d front back r e c =
      let left = busy-has_workers l d front back e in
      let n = ap length e ∙ length-append front (d ∷ back) in
      let m = length-append front back in
      let w = c.every_worker in
      let g = c.every_datagram left in let on = c.reader left in go r n m w g on
    where
      go :
          (r : Result (Bytes × service.State))
          → length l.busy ≡ length front + suc (length back)
          → length (front ++ back) ≡ length front + length back
          → l.idle + length l.busy + l.gone ≡ max workers 4
          → length l.received ≡ length l.queue + length l.busy + length l.sent + l.gone
          → l.reading ≡ true
          → IsCounted workers (finish service d.1 (front ++ back) r l)
      go (ok (resp, st)) n m w g on = record {
        every_worker = omega (arith, n, m, w);
        every_datagram = λ h. omega (arith, n, m, g, length-append l.sent ((resp, d.1) ∷ []));
        no_channel = λ h. absurd (ground (arith, h));
        reader = λ h. on;
      }
      go (err e) n m w g on = record {
        every_worker = omega (arith, n, m, w);
        every_datagram = λ h. omega (arith, n, m, g, length-append l.sent (([], d.1) ∷ []));
        no_channel = λ h. absurd (ground (arith, h));
        reader = λ h. on;
      }
      go panic n m w g on =
          drop_channel-IsCounted workers (record l { busy = front ++ back; gone = l.gone + 1 })
            (omega (arith, n, m, w)) (omega (arith, n, m, g)) on

  -- What the reader does with and without workers.
  receive-open :
      (s : Bytes) (addr : SocketAddr) (l : Listener service)
      → has_workers service l ≡ true
      → receive service (s, addr) l ≡ record l {
        queue = l.queue ++ ((take 4096 s, addr) ∷ []);
        received = l.received ++ ((take 4096 s, addr) ∷ []);
      }
  unfolding receive
  receive-open s addr l h = rw h refl

  receive-closed :
      (s : Bytes) (addr : SocketAddr) (l : Listener service)
      → has_workers service l ≡ false
      → receive service (s, addr) l
        ≡ record l { reading = false; received = l.received ++ ((take 4096 s, addr) ∷ []) }
  unfolding receive
  receive-closed s addr l h = rw h refl

  receive-IsCounted :
      (workers : ℕ) (s : Bytes) (addr : SocketAddr) (l : Listener service)
      → IsCounted workers l
      → IsCounted workers (receive service (s, addr) l)
  receive-IsCounted workers s addr l c = elim (Bool-cases (has_workers service l)) [
    | inl left ↦ subst (IsCounted workers) (sym (receive-open s addr l left)) (record {
      every_worker = c.every_worker;
      every_datagram = λ h. omega (
        arith,
        c.every_datagram left,
        length-append l.queue ((take 4096 s, addr) ∷ []),
        length-append l.received ((take 4096 s, addr) ∷ []),
      );
      no_channel = λ h. absurd (cc (left, h));
      reader = λ h. c.reader left;
    })
    | inr last ↦ subst (IsCounted workers) (sym (receive-closed s addr l last)) (record {
      every_worker = c.every_worker;
      every_datagram = λ h. absurd (cc (last, h));
      no_channel = λ h. c.no_channel last;
      reader = λ h. absurd (cc (last, h));
    })
  ]

  Step-IsCounted :
      (workers : ℕ) {l m : Listener service}
      → Step service l m
      → IsCounted workers l
      → IsCounted workers m
  unfolding take_up
  Step-IsCounted workers (reads l (s, addr) on) c = receive-IsCounted workers s addr l c
  Step-IsCounted workers (takes l d rest e free) c =
      let left : has_workers service l ≡ true = ground (arith, free) in
      record {
        every_worker = omega (arith, c.every_worker, free, length-append l.busy (d ∷ []));
        every_datagram =
            λ h. omega (arith, c.every_datagram left, ap length e, length-append l.busy (d ∷ []));
        no_channel = λ h. absurd (ground (arith, h, length-append l.busy (d ∷ [])));
        reader = λ h. c.reader left;
      }
  Step-IsCounted workers (finishes l d front back e) c =
      finish-IsCounted workers l d front back (answer_to service d l) e c

  -- However the reader and the workers take turns: each of the workers waits, works or is gone. While one is
  -- left, the reader runs, and each datagram that was received waits, is in work, was answered or took a
  -- worker with it; when none is left, nothing waits.
  pub Reach-IsCounted :
      (workers : ℕ) (st : service.State) {l : Listener service}
      → Reach service (listen service workers st) l
      → IsCounted workers l
  Reach-IsCounted workers st here = record {
    every_worker = omega arith;
    every_datagram = λ h. omega arith;
    no_channel = λ h. refl;
    reader = λ h. refl;
  }
  Reach-IsCounted workers st (next r s) = Step-IsCounted workers s (Reach-IsCounted workers st r)

  -- A listener without workers.
  abbrev IsDead : List Datagram → Listener service → Type 0
  IsDead sent l = (l.idle ≡ 0) × (l.busy ≡ []) × (l.sent ≡ sent)

  Step-IsDead :
      (sent : List Datagram) {l m : Listener service}
      → Step service l m
      → IsDead sent l
      → IsDead sent m
  Step-IsDead sent (reads l (s, addr) on) h =
      let last : has_workers service l ≡ false = ground (arith, h.0, ap length h.1) in
      subst (IsDead sent) (sym (receive-closed s addr l last)) h
  Step-IsDead sent (takes l d rest e free) h = absurd (omega (arith, free, h.0))
  Step-IsDead sent (finishes l d front back e) h =
      absurd (omega (arith, ap length (sym h.1 ∙ e), length-append front (d ∷ back)))

  Reach-IsDead :
      (sent : List Datagram) {l m : Listener service}
      → Reach service l m
      → IsDead sent l
      → IsDead sent m
  Reach-IsDead sent here h = h
  Reach-IsDead sent (next r s) h = Step-IsDead sent s (Reach-IsDead sent r h)

  Reach-trans :
      {l m n : Listener service} → Reach service l m → Reach service m n → Reach service l n
  Reach-trans r here = r
  Reach-trans r (next q s) = next (Reach-trans r q) s

  -- A listener with so many workers left, none of which works, and nothing in the channel.
  abbrev IsResting : ℕ → service.State → List Datagram → Listener service → Type 0
  IsResting k st sent l =
      (l.idle ≡ k)
      × (l.busy ≡ [])
      × (l.queue ≡ [])
      × (l.shared ≡ st)
      × (l.sent ≡ sent)
      × (l.reading ≡ true)

  drop_channel-IsResting :
      (k : ℕ) (st : service.State) (sent : List Datagram) (l : Listener service)
      → IsResting k st sent l
      → IsResting k st sent (drop_channel service l)
  drop_channel-IsResting k st sent l h = elim (Bool-cases (has_workers service l)) [
    | inl left ↦ rw left h
    | inr last ↦ rw last (h.0, h.1, refl, h.3, h.4, h.5)
  ]

  module _ (s : Bytes) (addr : SocketAddr) (st : service.State)
      (crashes : service.answer (take 4096 s) addr.ip (codes "udp") st ≡ panic) where
    hit-reached :
        (k : ℕ) (sent : List Datagram) (l : Listener service)
        → IsResting (suc k) st sent l
        → (m : Listener service) × Reach service l m × IsResting k st sent m
    unfolding take_up finish
    hit-reached k sent l h =
        let d : Datagram = (take 4096 s, addr) in
        let left : has_workers service l ≡ true = ground (arith, h.0) in
        let l1 : Listener service = record l {
          queue = l.queue ++ (d ∷ []);
          received = l.received ++ (d ∷ []);
        } in
        let l2 = take_up service d [] l1 in
        let e : answer_to service d l2 ≡ panic = rw h.3 crashes in
        let busy : l.busy ++ (d ∷ []) ≡ d ∷ [] = rw h.1 refl in
        let queue : l.queue ++ (d ∷ []) ≡ d ∷ [] = rw h.2 refl in
        let read : Step service l l1 =
          subst (Step service l) (receive-open s addr l left) (reads l (s, addr) h.5) in
        (
          finish service addr [] panic l2,
          next (next (next here read) (takes l1 d [] queue (omega (arith, h.0)))) (
              subst (λ r. Step service l2 (finish service addr [] r l2)) e
                (finishes l2 d [] [] busy)),
          drop_channel-IsResting k st sent (record l2 { busy = []; gone = l2.gone + 1 })
              (omega (arith, h.0), refl, refl, h.3, h.4, h.5),
        )

    all_hit :
        (k : ℕ) (sent : List Datagram) (l : Listener service)
        → IsResting k st sent l
        → (m : Listener service) × Reach service l m × IsDead sent m
    all_hit zero sent l h = (l, here, (h.0, h.1, h.4))
    all_hit (suc k) sent l h =
        let (l1, r1, rest) = hit-reached k sent l h in
        let (m, r, dead) = all_hit k sent l1 rest in (m, Reach-trans r1 r, dead)

    -- Where a datagram makes a worker panic, it can be received so often that no worker is left, with
    -- nothing sent; from then on no datagram is ever answered, whatever is received.
    pub crashes-silence :
        (workers : ℕ)
        → (l : Listener service) × Reach service (listen service workers st) l
          × ((m : Listener service) → Reach service l m → m.sent ≡ [])
    crashes-silence workers =
        let (l, r, dead) =
          all_hit (max workers 4) [] (listen service workers st)
            (refl, refl, refl, refl, refl, refl) in
        (l, r, λ m q. (Reach-IsDead [] q dead).2)
