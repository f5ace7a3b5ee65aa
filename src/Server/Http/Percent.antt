-- ===== src/Server/Http/Percent.antt =====
-- Percent encoding, the other way round from `percent_decode` of src/server/http.rs.
use dnsd_rs.Base.{
  All, Bool, Bool-cases, Bytes, IsByte, [], arith, false, if◌then◌else◌, inl, inr, leb, ltb, ok,
  refl, some, true, ◌%◌, ◌&&◌, ◌+◌, ◌-◌, ◌/◌, ◌<◌, ◌==◌, ◌||◌, ◌∙◌, ◌∷◌, ◌≡◌, ℕ,
}
use dnsd_rs.Proto.Text.{IsAscii, Text}
use dnsd_rs.Server.Http.{
  hex_pair, is_inner, percent_bytes, percent_decode, plus_to_space, push_byte,
}

-- The unreserved characters of RFC 3986.
abbrev pub is_unreserved : ℕ → Bool
is_unreserved c =
    (leb b'a' c && leb c b'z')
    || (leb b'A' c && leb c b'Z')
    || (leb b'0' c && leb c b'9')
    || c == b'-'
    || c == b'.'
    || c == b'_'
    || c == b'~'

abbrev upper_hex : ℕ → ℕ
upper_hex n = if ltb n 10 then b'0' + n else b'A' + (n - 10)

-- Every other byte as a percent sign and two digits.
unfoldable pub percent_encode : Bytes → Bytes
percent_encode [] = []
percent_encode (c ∷ cs) =
    let rest = percent_encode cs in
    if is_unreserved c then c ∷ rest else b'%' ∷ upper_hex (c / 16) ∷ upper_hex (c % 16) ∷ rest

-- A byte that is no percent sign.
percent_bytes-plain :
    (b : ℕ) (s : Bytes)
    → (b == b'%') ≡ false
    → percent_bytes (b ∷ s) ≡ push_byte (plus_to_space b) (percent_bytes s)
unfolding percent_bytes
percent_bytes-plain b [] h = refl
percent_bytes-plain b (x ∷ []) h = refl
percent_bytes-plain b (x ∷ y ∷ rest) h = rw h refl

percent_bytes-escaped :
    (x y v : ℕ) (s : Bytes)
    → hex_pair x y ≡ some v
    → is_inner s ≡ false
    → percent_bytes (b'%' ∷ x ∷ y ∷ s) ≡ push_byte v (percent_bytes s)
unfolding percent_bytes
percent_bytes-escaped x y v s e outer = rw (e, outer) refl

hex_pair-upper_hex : (c : ℕ) → c < 256 → hex_pair (upper_hex (c / 16)) (upper_hex (c % 16)) ≡ some c
hex_pair-upper_hex c h = ground arith

unreserved_plain :
    (c : ℕ)
    → is_unreserved c ≡ true
    → ((c == b'%') ≡ false) × (plus_to_space c ≡ c) × (is_inner (c ∷ []) ≡ false)
unreserved_plain c h = (ground arith, ground arith, ground arith)

percent_encode-outer : (s : Bytes) → is_inner (percent_encode s) ≡ false
unfolding percent_encode
percent_encode-outer [] = refl
percent_encode-outer (c ∷ s) = elim (Bool-cases (is_unreserved c)) [
  | inl e ↦ rw e (unreserved_plain c e).2
  | inr e ↦ rw e refl
]

percent_bytes-percent_encode : (s : Bytes) → All IsByte s → percent_bytes (percent_encode s) ≡ ok s
unfolding percent_encode
percent_bytes-percent_encode [] h = unfold percent_bytes in refl
percent_bytes-percent_encode (c ∷ s) h = elim (Bool-cases (is_unreserved c)) [
  | inl e ↦
      let p = unreserved_plain c e in
      rw e (
        percent_bytes-plain c (percent_encode s) p.0
        ∙ rw (p.1, percent_bytes-percent_encode s h.1) refl)
  | inr e ↦ rw e (
      percent_bytes-escaped (upper_hex (c / 16)) (upper_hex (c % 16)) c (percent_encode s)
        (hex_pair-upper_hex c h.0) (percent_encode-outer s)
      ∙ rw (percent_bytes-percent_encode s h.1) refl)
]

IsAscii-IsByte : (s : Bytes) → IsAscii s → All IsByte s
IsAscii-IsByte [] h = tt
IsAscii-IsByte (c ∷ s) h = (omega (arith, h.0), IsAscii-IsByte s h.1)

module _ ⦃text : Text⦄ where
  -- Percent decoding takes the percent encoding of an ASCII text back to the text, without a panic; of
  -- any bytes, it takes the encoding back to the bytes, of which it makes a text.
  pub percent_decode-percent_encode :
      (s : Bytes)
      → All IsByte s
      → (percent_decode (percent_encode s) ≡ ok (text.from_utf8_lossy s))
        × (IsAscii s → percent_decode (percent_encode s) ≡ ok s)
  unfolding percent_decode
  percent_decode-percent_encode s h =
      let bytes = percent_bytes-percent_encode s h in
      (rw bytes refl, λ a. rw (bytes, text.from_utf8_lossy_ascii s a) refl)
