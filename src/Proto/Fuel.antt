-- ===== src/Proto/Fuel.antt =====
use dnsd_rs.Base.{
  Bool, Bytes, Error, List, Result, [], ap, arith, err, false, if◌then◌else◌, leb, ltb, ok, panic,
  refl, subst, suc, sym, true, zero, ℕ, ◌++◌, ◌+◌, ◌>>=◌, ◌∷◌, ◌≡◌, ◌≤◌,
}
use dnsd_rs.Proto.Cursor.{Cursor, bytes, forward, index, remaining, slice, u16, u8}
use dnsd_rs.Proto.Parse.{parse_options, parse_txt}
use dnsd_rs.Proto.Types.{OptOption}

-- The loops of `parse_rdata` and `parse_opt_rdata` on fuel: the bytes that remain are enough.

bind-ext :
    {A B : Type 0} (m : Result A) (f g : A → Result B)
    → ((x : A) → m ≡ ok x → f x ≡ g x)
    → (m >>= f) ≡ (m >>= g)
bind-ext (ok x) f g same = same x refl
bind-ext (err e) f g same = refl
bind-ext panic f g same = refl

-- A step that ends in a given cursor, if it succeeds.
abbrev EndsIn : {A : Type 0} → Cursor → Result (A × Cursor) → Type 0
EndsIn c (ok p) = p.1 ≡ c
EndsIn c (err e) = Unit
EndsIn c panic = Unit

bind-EndsIn :
    {A B : Type 0} (c : Cursor) (m : Result A) (f : A → Result (B × Cursor))
    → ((x : A) → EndsIn c (f x))
    → EndsIn c (m >>= f)
bind-EndsIn c (ok x) f h = h x
bind-EndsIn c (err e) f h = tt
bind-EndsIn c panic f h = tt

-- A guarded step succeeds only when its guard is down, and moves to its cursor.
guarded-eq :
    {A : Type 0} (short : Bool) (e : Error) (m : Result (A × Cursor)) (c c1 : Cursor) (v : A)
    → EndsIn c m
    → (if short then err e else m) ≡ ok (v, c1)
    → (short ≡ false) × (c ≡ c1)
guarded-eq true e m c c1 v ends h = absurd (cc h)
guarded-eq false e m c c1 v ends h = (refl, sym (subst (EndsIn c) h ends))

u8-remaining : (c c1 : Cursor) (v : ℕ) → u8 c ≡ ok (v, c1) → remaining c1 + 1 ≤ remaining c
unfolding u8
u8-remaining c c1 v h =
    let (enough, moved) =
      guarded-eq (ltb (remaining c) 1) _ _ (forward c 1) c1 v
        (bind-EndsIn (forward c 1) (index c.buf c.pos) _ (λ x. refl)) h in
    subst (λ d. remaining d + 1 ≤ remaining c) moved (ground arith)

u16-remaining : (c c1 : Cursor) (v : ℕ) → u16 c ≡ ok (v, c1) → remaining c1 + 1 ≤ remaining c
unfolding u16
u16-remaining c c1 v h =
    let (enough, moved) =
      guarded-eq (ltb (remaining c) 2) _ _ (forward c 2) c1 v
        (bind-EndsIn (forward c 2) (index c.buf c.pos) _
          (λ x. bind-EndsIn (forward c 2) (index c.buf (c.pos + 1)) _ (λ y. refl)))
        h in
    subst (λ d. remaining d + 1 ≤ remaining c) moved (ground arith)

bytes-remaining :
    (c c1 : Cursor) (n : ℕ) (s : Bytes) → bytes c n ≡ ok (s, c1) → remaining c1 ≤ remaining c
unfolding bytes
bytes-remaining c c1 n s h =
    let (enough, moved) =
      guarded-eq (ltb (remaining c) n) _ _ (forward c n) c1 s
        (bind-EndsIn (forward c n) (slice c.buf c.pos (c.pos + n)) _ (λ x. refl)) h in
    subst (λ d. remaining d ≤ remaining c) moved (ground arith)

-- With at least as much fuel as bytes remain, the loop of TXT does not depend on the fuel.
parse_txt-fuel :
    (f g : ℕ) (c : Cursor) (ss : List Bytes)
    → remaining c ≤ f
    → remaining c ≤ g
    → parse_txt f c ss ≡ parse_txt g c ss
unfolding parse_txt
parse_txt-fuel zero zero c ss p q = refl
parse_txt-fuel zero (suc g) c ss p q =
    let done : ltb 0 (remaining c) ≡ false = ground arith in rw done refl
parse_txt-fuel (suc f) zero c ss p q =
    let done : ltb 0 (remaining c) ≡ false = ground arith in rw done refl
parse_txt-fuel (suc f) (suc g) c ss p q =
    ap (λ r. if ltb 0 (remaining c) then r else ok ss)
      (bind-ext (u8 c) _ _ (λ x read. bind-ext (bytes x.1 x.0) _ _ (λ y got.
        parse_txt-fuel f g y.1 (ss ++ (y.0 ∷ []))
          (omega (arith, u8-remaining c x.1 x.0 read, bytes-remaining x.1 y.1 x.0 y.0 got))
          (omega (arith, u8-remaining c x.1 x.0 read, bytes-remaining x.1 y.1 x.0 y.0 got)))))

-- With at least as much fuel as bytes remain, the loop over the options does not depend on the fuel.
parse_options-fuel :
    (f g : ℕ) (c : Cursor) (os : List OptOption)
    → remaining c ≤ f
    → remaining c ≤ g
    → parse_options f c os ≡ parse_options g c os
unfolding parse_options
parse_options-fuel zero zero c os p q = refl
parse_options-fuel zero (suc g) c os p q =
    let done : leb 4 (remaining c) ≡ false = ground arith in rw done refl
parse_options-fuel (suc f) zero c os p q =
    let done : leb 4 (remaining c) ≡ false = ground arith in rw done refl
parse_options-fuel (suc f) (suc g) c os p q =
    ap (λ r. if leb 4 (remaining c) then r else ok os)
      (bind-ext (u16 c) _ _ (λ x read. bind-ext (u16 x.1) _ _ (λ y also.
        bind-ext (bytes y.1 y.0) _ _ (λ z got.
          let left : remaining z.1 + 1 ≤ remaining c = omega (
            arith,
            u16-remaining c x.1 x.0 read,
            u16-remaining x.1 y.1 y.0 also,
            bytes-remaining y.1 z.1 y.0 z.0 got,
          ) in
          parse_options-fuel f g z.1 (os ++ (record { code = x.0; payload = z.0 } ∷ []))
            (omega arith) (omega arith)))))

-- Fuel beyond the bytes that remain changes neither the loop of TXT nor that over the options, so the
-- fuel with which `parse_rdata` starts them is enough.
pub parse_loops-enough :
    (extra : ℕ) (c : Cursor) (ss : List Bytes) (os : List OptOption)
    → (parse_txt (remaining c + extra) c ss ≡ parse_txt (remaining c) c ss)
      × (parse_options (remaining c + extra) c os ≡ parse_options (remaining c) c os)
parse_loops-enough extra c ss os = (
  parse_txt-fuel (remaining c + extra) (remaining c) c ss (omega arith) (omega arith),
  parse_options-fuel (remaining c + extra) (remaining c) c os (omega arith) (omega arith),
)
