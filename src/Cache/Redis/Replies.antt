-- ===== src/Cache/Redis/Replies.antt =====
use dnsd_rs.Base.{
  All, Bool-cases, Bytes, [], any, ap, append_assoc, arith, decimal_fuel, drop, drop-length, false,
  inl, inr, leb, length, length-append, ltb, ok, refl, some, suc, sym, take, take-length, true,
  zero, ℕ, ◌%◌, ◌++◌, ◌+◌, ◌/◌, ◌<◌, ◌==◌, ◌^◌, ◌∙◌, ◌∷◌, ◌≡◌, ◌≤◌,
}
use dnsd_rs.Cache.Redis.{
  RedisPeer, RedisText, bulk, line_of, plus, read_bulk, read_resp, with_len, with_line,
}

-- What `read_resp` makes of the bulk replies of a server.

-- The bytes of a word that `trim_end` leaves as it is.
abbrev IsWord : Bytes → Type 0
IsWord = All (λ c. (32 < c) × (c < 127))

IsWord-append : (xs ys : Bytes) → IsWord xs → IsWord ys → IsWord (xs ++ ys)
IsWord-append [] ys h k = k
IsWord-append (x ∷ xs) ys h k = (h.0, IsWord-append xs ys h.1 k)

decimal_fuel-IsWord : (fuel n : ℕ) → IsWord (decimal_fuel fuel n)
decimal_fuel-IsWord zero n = tt
decimal_fuel-IsWord (suc fuel) n = elim (Bool-cases (n == n % 10)) [
  | inl one ↦ rw one ((omega arith, omega arith), tt)
  | inr more ↦ rw more (
      IsWord-append (decimal_fuel fuel (n / 10)) _ (decimal_fuel-IsWord fuel (n / 10))
        ((omega arith, omega arith), tt))
]

line_of-word : (s rest : Bytes) → IsWord s → line_of (s ++ (13 ∷ 10 ∷ rest)) ≡ s ++ (13 ∷ 10 ∷ [])
unfolding line_of
line_of-word [] rest h = refl
line_of-word (c ∷ s) rest h =
    let other : (c == 10) ≡ false = ground (arith, h.0) in
    rw other (ap (◌∷◌ c) (line_of-word s rest h.1))

word-ascii : (s : Bytes) → IsWord s → All (λ c. c < 128) (s ++ (13 ∷ 10 ∷ []))
word-ascii [] h = (omega arith, (omega arith, tt))
word-ascii (c ∷ s) h = (omega (arith, h.0.1), word-ascii s h.1)

has_newline : (s : Bytes) → any (λ c. c == 10) (s ++ (13 ∷ 10 ∷ [])) ≡ true
has_newline [] = refl
has_newline (c ∷ s) = elim (Bool-cases (c == 10)) [
  | inl is_one ↦ rw is_one refl
  | inr other ↦ rw other (has_newline s)
]

suc-is_not_zero : (n : ℕ) → (suc n == 0) ≡ false
suc-is_not_zero n = ground arith

take_again : (n m : ℕ) (xs : Bytes) → n ≤ m → take n (take m xs) ≡ take n xs
take_again zero m xs h = refl
take_again (suc n) zero xs h = absurd (omega (arith, h))
take_again (suc n) (suc m) [] h = refl
take_again (suc n) (suc m) (x ∷ xs) h = ap (◌∷◌ x) (take_again n m xs (omega (arith, h)))

module _ (peer : RedisPeer) (redis_text : RedisText) where
  read_bulk-whole :
      (val more : Bytes) (w : peer.World)
      → length val < 2 ^ 62
      → peer.incoming w ≡ val ++ (13 ∷ 10 ∷ more)
      → read_bulk peer redis_text (plus (length val)) w
        ≡ (ok (bulk (some val)), peer.take_in (length val + 2) w)
  read_bulk-whole val more w short there =
      let n : (length val + 2) % 2 ^ 64 ≡ length val + 2 = omega arith in
      let fits : leb (2 ^ 63) (length val + 2) ≡ false = ground arith in
      let enough : ltb (length (val ++ (13 ∷ 10 ∷ more))) (length val + 2) ≡ false =
        ground (arith, length-append val (13 ∷ 10 ∷ more)) in
      rw (n, fits, there, enough)
        (ap (λ v. (ok (bulk (some v)), peer.take_in (length val + 2) w))
          (take_again (length val) (length val + 2) (val ++ (13 ∷ 10 ∷ more)) (omega arith)
            ∙ take-length val (13 ∷ 10 ∷ more)))

  with_line-bulk :
      (val more : Bytes) (w : peer.World)
      → length val < 2 ^ 62
      → peer.incoming w ≡ val ++ (13 ∷ 10 ∷ more)
      → with_line peer redis_text w (b'$' ∷ decimal_fuel 20 (length val))
        ≡ (ok (bulk (some val)), peer.take_in (length val + 2) w)
  with_line-bulk val more w short there =
      ap (with_len peer redis_text w) (redis_text.parse_i64_digits (length val) (omega arith))
      ∙ read_bulk-whole val more w short there

  -- A bulk reply is read as the bytes it holds, whatever they are: a dollar sign, the number of the bytes,
  -- the bytes, and a line end behind each. What is taken from the connection is gone from it.
  pub read_resp-bulk :
      (val more : Bytes) (w : peer.World)
      → ((n : ℕ) (v : peer.World) → peer.incoming (peer.take_in n v) ≡ drop n (peer.incoming v))
      → length val < 2 ^ 62
      → peer.incoming w
        ≡ (b'$' ∷ decimal_fuel 20 (length val)) ++ (13 ∷ 10 ∷ (val ++ (13 ∷ 10 ∷ more)))
      → (v : peer.World) × (read_resp peer redis_text w ≡ (ok (bulk (some val)), v))
  unfolding read_resp
  read_resp-bulk val more w consumed short there =
      let word = b'$' ∷ decimal_fuel 20 (length val) in
      let is_word : IsWord word =
        ((omega arith, omega arith), decimal_fuel-IsWord 20 (length val)) in
      let line : line_of (peer.incoming w) ≡ word ++ (13 ∷ 10 ∷ []) =
        ap line_of there ∙ line_of-word word (val ++ (13 ∷ 10 ∷ more)) is_word in
      let w1 = peer.take_in (length (word ++ (13 ∷ 10 ∷ []))) w in
      let behind : peer.incoming w1 ≡ val ++ (13 ∷ 10 ∷ more) =
        consumed (length (word ++ (13 ∷ 10 ∷ []))) w
        ∙ ap (drop (length (word ++ (13 ∷ 10 ∷ []))))
            (there ∙ sym (append_assoc word (13 ∷ 10 ∷ []) (val ++ (13 ∷ 10 ∷ more))))
        ∙ drop-length (word ++ (13 ∷ 10 ∷ [])) (val ++ (13 ∷ 10 ∷ more)) in
      let utf8 = redis_text.is_utf8_ascii (word ++ (13 ∷ 10 ∷ [])) (word-ascii word is_word) in
      let some_bytes : (length (word ++ (13 ∷ 10 ∷ [])) == 0) ≡ false =
        suc-is_not_zero (length (decimal_fuel 20 (length val) ++ (13 ∷ 10 ∷ []))) in
      (
        peer.take_in (length val + 2) w1,
        rw (line, utf8, has_newline word, some_bytes, redis_text.trim_end_crlf word is_word)
            (with_line-bulk val more w1 short behind),
      )
