-- ===== src/Tests/Redis.antt =====
use dnsd_rs.Base.{
  All, Bool-cases, Bytes, [], ap, arith, decimal_fuel, drop, false, inl, inr, ltb, ok, refl, retain,
  some, suc, true, zero, ℕ, ◌%◌, ◌*◌, ◌++◌, ◌+◌, ◌-◌, ◌/◌, ◌<◌, ◌==◌, ◌^◌, ◌∙◌, ◌∷◌, ◌≡◌,
}
use dnsd_rs.Cache.Redis.{RedisPeer, RedisText, bulk, plus, read_resp}
use dnsd_rs.Cache.Redis.Replies.{read_resp-bulk}

-- A bulk reply of the third tier, and the parsers of the standard library on it.

abbrev digits_value : ℕ → Bytes → ℕ
digits_value n [] = n
digits_value n (c ∷ cs) = digits_value (n * 10 + (c - b'0')) cs

digits_value-append :
    (n : ℕ) (xs : Bytes) (d : ℕ)
    → digits_value n (xs ++ (d ∷ [])) ≡ digits_value n xs * 10 + (d - b'0')
digits_value-append n [] d = refl
digits_value-append n (c ∷ xs) d = digits_value-append (n * 10 + (c - b'0')) xs d

digits_value-decimal : (fuel n : ℕ) → n < 10 ^ fuel → digits_value 0 (decimal_fuel fuel n) ≡ n
digits_value-decimal zero n h = omega (arith, h)
digits_value-decimal (suc fuel) n h = elim (Bool-cases (n == n % 10)) [
  | inl one ↦ rw one (ground arith)
  | inr more ↦ rw more (
      digits_value-append 0 (decimal_fuel fuel (n / 10)) (b'0' + n % 10)
      ∙ omega (arith, digits_value-decimal fuel (n / 10) (omega (arith, h))))
]

visible-kept :
    (s : Bytes)
    → All (λ c. (32 < c) × (c < 127)) s
    → retain (λ c. ltb 32 c) (s ++ (13 ∷ 10 ∷ [])) ≡ s
visible-kept [] h = refl
visible-kept (c ∷ s) h =
    let seen : ltb 32 c ≡ true = ground (arith, h.0) in rw seen (ap (◌∷◌ c) (visible-kept s h.1))

abbrev plain_text : RedisText
plain_text = record {
  is_utf8 = λ s. true;
  trim_end = λ s. retain (λ c. ltb 32 c) s;
  parse_i64 = λ s. some (plus (digits_value 0 s));
  is_utf8_ascii = λ s h. refl;
  trim_end_crlf = λ s h. visible-kept s h;
  parse_i64_digits = λ n h. ap (λ v. some (plus v)) (digits_value-decimal 20 n (omega (arith, h)));
}

-- A connection that is the bytes it still has to give.
abbrev canned : RedisPeer
canned = record {
  World = Bytes;
  open_conn = λ w. (false, w);
  send = λ s w. (true, w);
  incoming = λ w. w;
  is_closed = λ w. false;
  take_in = drop;
}

-- "$2", the bytes 13 and 10, and the start of another reply.
abbrev bulk_reply : Bytes
bulk_reply = b'$' ∷ b'2' ∷ 13 ∷ 10 ∷ 13 ∷ 10 ∷ 13 ∷ 10 ∷ b'+' ∷ []

read_resp-bulk_example :
    (v : Bytes) × (read_resp canned plain_text bulk_reply ≡ (ok (bulk (some (13 ∷ 10 ∷ []))), v))
read_resp-bulk_example =
    read_resp-bulk canned plain_text (13 ∷ 10 ∷ []) (b'+' ∷ []) bulk_reply (λ n v. refl)
      (omega arith) refl
