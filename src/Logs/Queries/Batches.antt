-- ===== src/Logs/Queries/Batches.antt =====
-- What the loop of the query log in src/store/logs.rs does with the rows it gets.
use dnsd_rs.Base.{
  All, All-append, Bool, Bool-cases, List, [], ap, append-nil, append_assoc, arith, false,
  if◌then◌else◌, inl, inr, leb, length, length-append, max, refl, sym, take, true, ℕ, ◌++◌, ◌+◌,
  ◌<◌, ◌==◌, ◌∙◌, ◌∷◌, ◌≡◌, ◌≤◌, zero, suc,
}
use dnsd_rs.Logs.Queries.{
  Event, Flusher, QueryLogRow, disconnected, flush_batch, flush_loop, flush_turn, new_flusher,
  row_came, timed_out,
}

-- The rows of events, up to the end of the channel.
abbrev pub rows_of : List Event → List QueryLogRow
rows_of [] = []
rows_of (row_came r taken ∷ es) = r ∷ rows_of es
rows_of (timed_out taken ∷ es) = rows_of es
rows_of (disconnected taken ∷ es) = []

abbrev pub rows_in : List (List QueryLogRow) → List QueryLogRow
rows_in [] = []
rows_in (b ∷ bs) = b ++ rows_in bs

-- A batch holds a row, and no more than the size that is set; one where that is none.
abbrev pub IsBatch : ℕ → List QueryLogRow → Type 0
IsBatch size b = (0 < length b) × (length b ≤ max size 1)

-- The database takes whole batches.
abbrev pub TakesAll : ℕ → List Event → Type 0
TakesAll size [] = Unit
TakesAll size (row_came r taken ∷ es) = (max size 1 ≤ taken) × TakesAll size es
TakesAll size (timed_out taken ∷ es) = (max size 1 ≤ taken) × TakesAll size es
TakesAll size (disconnected taken ∷ es) = (max size 1 ≤ taken) × TakesAll size es

rows_in-append : (bs cs : List (List QueryLogRow)) → rows_in (bs ++ cs) ≡ rows_in bs ++ rows_in cs
rows_in-append [] cs = refl
rows_in-append (b ∷ bs) cs =
    rw (rows_in-append bs cs, append_assoc b (rows_in bs) (rows_in cs)) refl

take-all : (n : ℕ) (b : List QueryLogRow) → length b ≤ n → take n b ≡ b
take-all zero [] h = refl
take-all zero (x ∷ b) h = absurd (omega (arith, h))
take-all (suc n) [] h = refl
take-all (suc n) (x ∷ b) h = ap (◌∷◌ x) (take-all n b (omega (arith, h)))

-- What holds between two turns: the batches and the buffer are the rows so far, in order.
record Keeps (size : ℕ) (rows : List QueryLogRow) (f : Flusher) : Type 0 where
  in_order : rows_in f.batches ++ f.buf ≡ rows
  room : length f.buf < max size 1
  sized : All (IsBatch size) f.batches

flush_batch-rows :
    (taken : ℕ) (f : Flusher)
    → rows_in (flush_batch taken f).batches ++ (flush_batch taken f).buf
      ≡ rows_in f.batches ++ f.buf
flush_batch-rows taken f = elim (Bool-cases (length f.buf == 0)) [
  | inl e ↦ rw e refl
  | inr e ↦ rw e (
      append-nil (rows_in (f.batches ++ (f.buf ∷ [])))
      ∙ rows_in-append f.batches (f.buf ∷ [])
      ∙ ap (◌++◌ (rows_in f.batches)) (append-nil f.buf))
]

flush_batch-sized :
    (size taken : ℕ) (f : Flusher)
    → All (IsBatch size) f.batches
    → length f.buf ≤ max size 1
    → All (IsBatch size) (flush_batch taken f).batches × (length (flush_batch taken f).buf ≡ 0)
flush_batch-sized size taken f h n = elim (Bool-cases (length f.buf == 0)) [
  | inl e ↦ rw e (h, ground (arith, e))
  | inr e ↦
      rw e (All-append (IsBatch size) f.batches (f.buf ∷ []) h ((ground (arith, e), n), tt), refl)
]

flush_batch-Keeps :
    (size taken : ℕ) (rows : List QueryLogRow) (f : Flusher)
    → rows_in f.batches ++ f.buf ≡ rows
    → length f.buf ≤ max size 1
    → All (IsBatch size) f.batches
    → Keeps size rows (flush_batch taken f)
flush_batch-Keeps size taken rows f e n h =
    let s = flush_batch-sized size taken f h n in
    record { in_order = flush_batch-rows taken f ∙ e; room = omega (arith, s.1); sized = s.0 }

-- The rows behind an event.
abbrev rows_with : List QueryLogRow → Event → List QueryLogRow
rows_with rows (row_came r taken) = rows ++ (r ∷ [])
rows_with rows (timed_out taken) = rows
rows_with rows (disconnected taken) = rows

flush_turn-Keeps :
    (size : ℕ) (e : Event) (rows : List QueryLogRow) (f : Flusher)
    → Keeps size rows f
    → Keeps size (rows_with rows e) (flush_turn size e f)
unfolding flush_turn
flush_turn-Keeps size (row_came r taken) rows f k =
    let g : Flusher = record f { buf = f.buf ++ (r ∷ []) } in
    let e : rows_in g.batches ++ g.buf ≡ rows ++ (r ∷ []) =
      sym (append_assoc (rows_in f.batches) f.buf (r ∷ [])) ∙ ap (λ s. s ++ (r ∷ [])) k.in_order in
    let n : length g.buf ≡ length f.buf + 1 = length-append f.buf (r ∷ []) in
    elim (Bool-cases (leb size (length g.buf))) [
      | inl full ↦
          rw full
            (flush_batch-Keeps size taken (rows ++ (r ∷ [])) g e (omega (arith, n, k.room)) k.sized)
      | inr more ↦
          rw more (record { in_order = e; room = ground (arith, n, more); sized = k.sized })
    ]
flush_turn-Keeps size (timed_out taken) rows f k =
    flush_batch-Keeps size taken rows f k.in_order (omega (arith, k.room)) k.sized
flush_turn-Keeps size (disconnected taken) rows f k =
    let m = flush_batch-Keeps size taken rows f k.in_order (omega (arith, k.room)) k.sized in
    record { in_order = m.in_order; room = m.room; sized = m.sized }

flush_batch-running : (taken : ℕ) (f : Flusher) → (flush_batch taken f).running ≡ f.running
flush_batch-running taken f = elim (Bool-cases (length f.buf == 0)) [
  | inl e ↦ rw e refl
  | inr e ↦ rw e refl
]

flush_batch-empties : (taken : ℕ) (f : Flusher) → (flush_batch taken f).buf ≡ []
flush_batch-empties taken f = elim (Bool-cases (length f.buf == 0)) [
  | inl e ↦ rw e (none_left f.buf e)
  | inr e ↦ rw e refl
]
  where
    none_left : (b : List QueryLogRow) → (length b == 0) ≡ true → b ≡ []
    none_left [] h = refl
    none_left (x ∷ b) h = absurd (ground (arith, h))

-- What the database has, where it takes whole batches.
flush_batch-table :
    (size taken : ℕ) (f : Flusher)
    → max size 1 ≤ taken
    → length f.buf ≤ max size 1
    → f.table ≡ rows_in f.batches
    → (flush_batch taken f).table ≡ rows_in (flush_batch taken f).batches
flush_batch-table size taken f t n h = elim (Bool-cases (length f.buf == 0)) [
  | inl e ↦ rw e h
  | inr e ↦ rw e (
      rw
        (
          take-all taken f.buf (omega (arith, t, n)),
          h,
          rows_in-append f.batches (f.buf ∷ []),
          append-nil f.buf,
        )
        refl)
]

flush_turn-table :
    (size : ℕ) (e : Event) (rows : List QueryLogRow) (f : Flusher)
    → Keeps size rows f
    → TakesAll size (e ∷ [])
    → f.table ≡ rows_in f.batches
    → (flush_turn size e f).table ≡ rows_in (flush_turn size e f).batches
unfolding flush_turn
flush_turn-table size (row_came r taken) rows f k t h =
    let g : Flusher = record f { buf = f.buf ++ (r ∷ []) } in
    let n : length g.buf ≡ length f.buf + 1 = length-append f.buf (r ∷ []) in
    elim (Bool-cases (leb size (length g.buf))) [
      | inl full ↦ rw full (flush_batch-table size taken g t.0 (omega (arith, n, k.room)) h)
      | inr more ↦ rw more h
    ]
flush_turn-table size (timed_out taken) rows f k t h =
    flush_batch-table size taken f t.0 (omega (arith, k.room)) h
flush_turn-table size (disconnected taken) rows f k t h =
    flush_batch-table size taken f t.0 (omega (arith, k.room)) h

-- A loop that has ended does nothing more.
flush_loop-ended :
    (size : ℕ) (es : List Event) (f : Flusher) → f.running ≡ false → flush_loop size es f ≡ f
unfolding flush_loop
flush_loop-ended size [] f h = refl
flush_loop-ended size (e ∷ es) f h = ground (arith, h)

flush_loop-step :
    (size : ℕ) (e : Event) (es : List Event) (f : Flusher)
    → f.running ≡ true
    → flush_loop size (e ∷ es) f ≡ flush_loop size es (flush_turn size e f)
unfolding flush_loop
flush_loop-step size e es f on = if_on f.running on
  where
    if_on :
        (b : Bool)
        → b ≡ true
        → (if b then flush_loop size es (flush_turn size e f) else f)
          ≡ flush_loop size es (flush_turn size e f)
    if_on true h = refl
    if_on false h = cc

row_came-running :
    (size : ℕ) (r : QueryLogRow) (taken : ℕ) (f : Flusher)
    → (flush_turn size (row_came r taken) f).running ≡ f.running
unfolding flush_turn
row_came-running size r taken f =
    let g : Flusher = record f { buf = f.buf ++ (r ∷ []) } in
    elim (Bool-cases (leb size (length g.buf))) [
      | inl full ↦ rw full (flush_batch-running taken g)
      | inr more ↦ rw more refl
    ]

-- What a run of the loop gives, from the rows that were there before.
record IsRun (size : ℕ) (rows : List QueryLogRow) (es : List Event) (f g : Flusher) : Type 0 where
  kept : Keeps size rows g
  stored : TakesAll size es → f.table ≡ rows_in f.batches → g.table ≡ rows_in g.batches
  drained : g.running ≡ false → g.buf ≡ []

flush_loop-IsRun :
    (size : ℕ) (es : List Event) (rows : List QueryLogRow) (f : Flusher)
    → f.running ≡ true
    → Keeps size rows f
    → IsRun size (rows ++ rows_of es) es f (flush_loop size es f)
flush_loop-IsRun size [] rows f on k =
    unfold flush_loop in
    record { kept = rw (append-nil rows) k; stored = λ t h. h; drained = λ off. cc (on, off) }
flush_loop-IsRun size (row_came r taken ∷ es) rows f on k =
    let e = row_came r taken in
    let g = flush_turn size e f in
    let going : g.running ≡ true = row_came-running size r taken f ∙ on in
    let rest =
      flush_loop-IsRun size es (rows ++ (r ∷ [])) g going (flush_turn-Keeps size e rows f k) in
    rw (flush_loop-step size e es f on) (record {
      kept = rw (append_assoc rows (r ∷ []) (rows_of es)) at (rest.kept);
      stored = λ t h. rest.stored t.1 (flush_turn-table size e rows f k (t.0, tt) h);
      drained = rest.drained;
    })
flush_loop-IsRun size (timed_out taken ∷ es) rows f on k =
    let e = timed_out taken in
    let g = flush_turn size e f in
    let going : g.running ≡ true = unfold flush_turn in flush_batch-running taken f ∙ on in
    let rest = flush_loop-IsRun size es rows g going (flush_turn-Keeps size e rows f k) in
    rw (flush_loop-step size e es f on) (record {
      kept = rest.kept;
      stored = λ t h. rest.stored t.1 (flush_turn-table size e rows f k (t.0, tt) h);
      drained = rest.drained;
    })
flush_loop-IsRun size (disconnected taken ∷ es) rows f on k =
    let e = disconnected taken in
    let g = flush_turn size e f in
    rw (flush_loop-step size e es f on, flush_loop-ended size es g (unfold flush_turn in refl))
      (record {
        kept = rw (append-nil rows) (flush_turn-Keeps size e rows f k);
        stored = λ t h. flush_turn-table size e rows f k (t.0, tt) h;
        drained = λ off. unfold flush_turn in flush_batch-empties taken f;
      })

-- Whatever comes through the channel, in whatever order: the batches that were given to the database and
-- the buffer are the rows that came, in their order, none lost and none twice; the buffer stays below the
-- size of a batch, of at least one, and a batch has some rows and no more than that. Where the database
-- takes whole batches, its table is the rows of the batches. Where the channel has closed, the buffer is
-- empty.
pub flush_loop-rows :
    (size : ℕ) (es : List Event)
    → (rows_in (flush_loop size es new_flusher).batches ++ (flush_loop size es new_flusher).buf
        ≡ rows_of es)
      × (length (flush_loop size es new_flusher).buf < max size 1)
      × All (IsBatch size) (flush_loop size es new_flusher).batches
      × (TakesAll size es
          → (flush_loop size es new_flusher).table
            ≡ rows_in (flush_loop size es new_flusher).batches)
      × ((flush_loop size es new_flusher).running ≡ false
          → (flush_loop size es new_flusher).buf ≡ [])
flush_loop-rows size es =
    let r =
      flush_loop-IsRun size es [] new_flusher refl
        (record { in_order = refl; room = omega arith; sized = tt }) in
    (r.kept.in_order, r.kept.room, r.kept.sized, λ t. r.stored t refl, r.drained)
