-- ===== src/Cache/Reader/Laws.antt =====
use dnsd_rs.Base.{
  ==_iff, Bytes, ap, arith, drop-length, false, inl, inr, length, length-append, length-take, ltb,
  min, none, refl, some, take, take-length, true, ℕ, ◌%◌, ◌*◌, ◌++◌, ◌+◌, ◌-◌, ◌/◌, ◌<◌, ◌==◌, ◌^◌,
  ◌∙◌, ◌≡◌, ◌≤◌, ◌⊎◌,
}
use dnsd_rs.Cache.Reader.{
  Reader, RecordHeader, checked, checksum, filled, header_fields, header_len, held_after, magic,
  read_exact, read_log_record, read_some, record_bytes, record_header, with_body, with_header,
}
use dnsd_rs.Proto.Cursor.{le32}
use dnsd_rs.Proto.Text.{IsAscii, Text}

-- The log record that `put` writes, read back; and where the buffered reader stops short.

-- The reader can take a whole header in one `read`.
abbrev IsAligned : Reader → Type 0
IsAligned r = (r.avail ≡ 0) ⊎ (header_len ≤ r.avail)

header_fields-short : (s : Bytes) → length s < header_len → header_fields s ≡ none
unfolding header_fields
header_fields-short s h = let short : (length s == 21) ≡ false = ground arith in rw short refl

le32-bytes :
    (v : ℕ) → v < 2 ^ 32 → le32 (v % 256) (v / 256 % 256) (v / 65536 % 256) (v / 16777216 % 256) ≡ v
le32-bytes v h = omega arith

-- The header of a record, and its fields.
pub header_fields-record :
    (k v e c : ℕ)
    → k < 2 ^ 32
    → v < 2 ^ 32
    → e < 2 ^ 64
    → c < 2 ^ 32
    → header_fields (record_header k v e c)
      ≡ some (record { first = magic; key_len = k; body_len = k + v; expire = e; crc = c })
unfolding header_fields
header_fields-record k v e c hk hv he hc =
    let whole : e % 2 ^ 32 + e / 2 ^ 32 % 2 ^ 32 * 2 ^ 32 ≡ e = omega arith in
    rw
      (
        le32-bytes k hk,
        le32-bytes v hv,
        le32-bytes c hc,
        le32-bytes (e % 2 ^ 32) (omega arith),
        le32-bytes (e / 2 ^ 32 % 2 ^ 32) (omega arith),
        whole,
      )
      refl

module _ ⦃text : Text⦄ where
  -- A header that does not start on a fresh buffer and is not held whole ends the reading, whatever
  -- stands behind it in the file.
  pub read_log_record-stops :
      (r : Reader) (offset : ℕ)
      → 0 < r.avail
      → r.avail < header_len
      → read_log_record r offset ≡ none
  unfolding read_log_record read_some
  read_log_record-stops r offset some_held few =
      let held : (r.avail == 0) ≡ false = ground arith in
      rw
        (
          header_fields-short (take (min 21 (filled r)) r.rest)
              (rw held (omega (arith, length-take (min 21 r.avail) r.rest))),
          read_log_record,
        )
        refl

  read_some-header :
      (hdr body : Bytes) (avail : ℕ)
      → length hdr ≡ 21
      → (avail ≡ 0) ⊎ (header_len ≤ avail)
      → (r : Reader) × (read_some header_len (record { rest = hdr ++ body; avail = avail })
          ≡ (hdr, r))
        × (r.rest ≡ body)
  unfolding read_some
  read_some-header hdr body avail n aligned =
      let r : Reader = record { rest = hdr ++ body; avail = avail } in
      let whole : min 21 (filled r) ≡ length hdr = elim aligned [
        | inl empty ↦ rw empty (omega (arith, n, length-append hdr body))
        | inr enough ↦ ground (arith, n)
      ] in
      (
        record { rest = body; avail = filled r - length hdr },
        rw (whole, take-length hdr body, drop-length hdr body) refl,
        refl,
      )

  -- A record as `put` writes it is read back by an aligned reader, which then stands behind it. The key
  -- is ASCII, and the lengths and the time fit their words.
  read_log_record-record_bytes :
      (key val more : Bytes) (e offset avail : ℕ)
      → IsAscii key
      → length key < 2 ^ 32
      → length val < 2 ^ 32
      → e < 2 ^ 64
      → (avail ≡ 0) ⊎ (header_len ≤ avail)
      → (r : Reader) × (read_log_record
            (record { rest = record_bytes key val e ++ more; avail = avail })
            offset
          ≡ some (
            record {
              offset = offset;
              key = key;
              val_len = length val;
              expire_at_ms = e;
              raw_bytes = record_bytes key val e;
            },
            r,
          ))
        × (r.rest ≡ more)
  unfolding read_log_record read_some read_exact
  read_log_record-record_bytes key val more e offset avail ascii hk hv he aligned =
      let body = key ++ val in
      let k = length key % 2 ^ 32 in
      let v = length val % 2 ^ 32 in
      let crc = checksum body e in
      let hdr = record_header k v e crc in
      let h : RecordHeader = record {
        first = magic;
        key_len = k;
        body_len = k + v;
        expire = e;
        crc = crc;
      } in
      let (r1, got, left) = read_some-header hdr (body ++ more) avail refl aligned in
      let enough : ltb (length r1.rest) (k + v) ≡ false =
        ground (arith, ap length left, length-append body more, length-append key val) in
      let n : k + v ≡ length body = omega (arith, length-append key val) in
      let same_k : k ≡ length key = omega arith in
      let same_v : k + v - k ≡ length val = omega arith in
      let same_crc : (crc == crc) ≡ true = (==_iff crc crc).1 refl in
      let r2 : Reader = record { rest = more; avail = held_after (k + v) r1 } in
      let exact : read_exact (k + v) r1 ≡ some (body, r2) =
        rw (enough, left, n, take-length body more, drop-length body more) refl in
      let named : text.from_utf8_lossy (take k body) ≡ key =
        ap (λ n. text.from_utf8_lossy (take n body)) same_k
        ∙ ap text.from_utf8_lossy (take-length key val)
        ∙ text.from_utf8_lossy_ascii key ascii in
      let seen : checked hdr h offset (body, r2)
          ≡ some (
            record {
              offset = offset;
              key = key;
              val_len = length val;
              expire_at_ms = e;
              raw_bytes = hdr ++ body;
            },
            r2,
          ) =
        rw (same_crc, named, same_v) refl in
      (
        r2,
        ap (λ g. with_header g.0 (header_fields g.0) g.1 offset) got
            ∙ ap (λ f. with_header hdr f r1 offset)
                (header_fields-record k v e crc (omega arith) (omega arith) he (omega arith))
            ∙ ap (with_body hdr h offset) exact
            ∙ seen,
        refl,
      )
