-- ===== src/Proto/Data/RoundTrip.antt =====
-- `parse_rdata` after `encode_rdata`, for each layout.
use dnsd_rs.Base.{
  All, Bytes, List, [], ap, append-nil, append_assoc, arith, length, length-append, ok, refl, subst,
  sym, ℕ, ◌%◌, ◌++◌, ◌+◌, ◌-◌, ◌<◌, ◌∙◌, ◌∷◌, ◌≡◌, ◌≤◌,
}
use dnsd_rs.Proto.Cursor.{be16_bytes, be32_bytes, bytes, index, new_cursor, slice}
use dnsd_rs.Proto.Data.{
  IsU16, IsU32, IsWireData, fresh_name-full, full, parse_txt-At, read_name-At, w_a, w_aaaa, w_caa,
  w_mx, w_name, w_nsec, w_raw, w_rrsig, w_srv, w_txt,
}
use dnsd_rs.Proto.Ecs.{v4_octets}
use dnsd_rs.Proto.Encode.{encode_rdata, encode_txt}
use dnsd_rs.Proto.Name.Read.{drop_past}
use dnsd_rs.Proto.Name.RoundTrip.{IsName}
use dnsd_rs.Proto.Name.Wire.{wire}
use dnsd_rs.Proto.Parse.{
  Layout, l_a, l_aaaa, l_caa, l_mx, l_name, l_nsec, l_raw, l_rrsig, l_srv, l_txt, parse_a,
  parse_aaaa, parse_caa, parse_layout, parse_mx, parse_name, parse_nsec, parse_raw, parse_rrsig,
  parse_srv,
}
use dnsd_rs.Proto.Reads.{At, At-fits, bytes-At, cursor, slice-At, u16-At, u32-At, u8-At}
use dnsd_rs.Proto.Text.{IsAscii, Text}
use dnsd_rs.Proto.Types.{Ipv4Addr, RData, Rrsig, v6_octets}

module _ ⦃text : Text⦄ where
  -- The bytes that stand for `d`, and their parse wherever they stand in a message.
  pub record IsReadBack (lay : Layout) (d : RData) : Type 0 where
    pub written : Bytes
    pub encodes : encode_rdata d ≡ ok written
    pub parses :
        (buf : Bytes) (start : ℕ) (more : Bytes)
        → At buf start (written ++ more)
        → start ≤ length buf
        → parse_layout lay buf start (length written) (new_cursor written) ≡ ok d

  back_a : (ip : Ipv4Addr) → IsReadBack l_a (RData.a ip)
  unfolding encode_rdata parse_layout parse_a bytes slice index
  back_a ip = record {
    written = v4_octets ip;
    encodes = refl;
    parses = λ buf start more h le. refl;
  }

  back_aaaa : (s : Bytes) → length s ≡ 16 → IsReadBack l_aaaa (RData.aaaa (v6_octets s))
  unfolding encode_rdata parse_layout parse_aaaa
  back_aaaa s e = record {
    written = s;
    encodes = refl;
    parses = λ buf start more h le.
        let whole : bytes (cursor s 0) 16 ≡ ok (s, cursor s (0 + length s)) =
          rw (sym e) (bytes-At s 0 s [] (sym (append-nil s)) (omega arith)) in
        rw (e, whole) refl;
  }

  back_name : (n : Bytes) → IsName n → IsReadBack l_name (RData.name n)
  unfolding encode_rdata parse_layout parse_name
  back_name n w = record {
    written = full w;
    encodes = fresh_name-full n w;
    parses = λ buf start more h le. rw (read_name-At n w buf start more h) refl;
  }

  back_mx : (p : ℕ) (n : Bytes) → IsU16 p → IsName n → IsReadBack l_mx (RData.mx p n)
  unfolding encode_rdata parse_layout parse_mx
  back_mx p n small w = record {
    written = be16_bytes p ++ full w;
    encodes = rw (fresh_name-full n w) refl;
    parses = λ buf start more h le.
        rw
          (
            u16-At (be16_bytes p ++ full w) 0 p (full w) small refl,
            read_name-At n w buf (start + 2) more
                (drop_past start buf (be16_bytes p) (full w ++ more) h),
          )
          refl;
  }

  back_txt : (ss : List Bytes) → All (λ s. length s < 256) ss → IsReadBack l_txt (RData.txt ss)
  unfolding encode_rdata parse_layout
  back_txt ss h = record {
    written = encode_txt ss;
    encodes = refl;
    parses = λ buf start more at le.
        rw
          (parse_txt-At ss (length (encode_txt ss) - 0) (encode_txt ss) 0 [] h refl (omega arith)
            (omega arith))
          refl;
  }

  back_srv :
      (p w q : ℕ) (n : Bytes)
      → IsU16 p
      → IsU16 w
      → IsU16 q
      → IsName n
      → IsReadBack l_srv (RData.srv p w q n)
  unfolding encode_rdata parse_layout parse_srv
  back_srv p w q n hp hw hq k =
      let s = be16_bytes p ++ (be16_bytes w ++ (be16_bytes q ++ full k)) in
      record {
        written = s;
        encodes = rw (fresh_name-full n k) refl;
        parses = λ buf start more h le.
            let h1 = drop_past start buf (be16_bytes p) _ h in
            let h2 = drop_past (start + 2) buf (be16_bytes w) _ h1 in
            let h3 = drop_past (start + 2 + 2) buf (be16_bytes q) (full k ++ more) h2 in
            let place : start + 2 + 2 + 2 ≡ start + 6 = omega arith in
            rw
              (
                u16-At s 0 p _ hp refl,
                u16-At s 2 w _ hw refl,
                u16-At s 4 q (full k) hq refl,
                read_name-At n k buf (start + 6) more
                    (subst (λ x. At buf x (full k ++ more)) place h3),
              )
              refl;
      }

  back_caa : (f : ℕ) (t v : Bytes) → length t < 256 → IsAscii t → IsReadBack l_caa (RData.caa f t v)
  unfolding encode_rdata parse_layout parse_caa
  back_caa f t v small ascii =
      let s = f ∷ length t ∷ (t ++ v) in
      let byte : length t % 256 ≡ length t = omega arith in
      let at2 : At s 2 (t ++ v) = refl in
      let at3 : At s (2 + length t) (v ++ []) = drop_past 2 s t v at2 ∙ sym (append-nil v) in
      let size : length s ≡ 2 + (length t + length v) = omega (arith, length-append t v) in
      let left : length s - (2 + length t) ≡ length v = omega (arith, size) in
      record {
        written = s;
        encodes = ap (λ x. ok (f ∷ x ∷ (t ++ v))) byte;
        parses = λ buf start more h le.
            rw
              (
                u8-At s 0 f _ refl,
                u8-At s 1 (length t) (t ++ v) refl,
                bytes-At s 2 t v at2 (omega arith),
                left,
                bytes-At s (2 + length t) v [] at3 (omega (arith, size)),
                text.from_utf8_lossy_ascii t ascii,
              )
              refl;
      }

  back_nsec : (n b : Bytes) → IsName n → IsReadBack l_nsec (RData.nsec n b)
  unfolding encode_rdata parse_layout parse_nsec
  back_nsec n b w =
      let s = full w ++ b in
      record {
        written = s;
        encodes = rw (fresh_name-full n w) refl;
        parses = λ buf start more h le.
            let h0 : At buf start (full w ++ (b ++ more)) = h ∙ append_assoc (full w) b more in
            let h1 : At buf (start + length (full w)) (b ++ more) =
              drop_past start buf (full w) (b ++ more) h0 in
            let fits : start + length (full w) ≤ length buf =
              At-fits buf (full w) (b ++ more) start h0
                (omega (arith, length-append (wire w.labels) (0 ∷ []))) in
            rw
              (
                read_name-At n w buf start (b ++ more) h0,
                slice-At buf b more (start + length (full w)) (start + length s) h1
                    (omega (arith, length-append (full w) b)) fits,
              )
              refl;
      }

  back_raw : (s : Bytes) → IsReadBack l_raw (RData.raw s)
  unfolding encode_rdata parse_layout parse_raw
  back_raw s = record {
    written = s;
    encodes = refl;
    parses =
        λ buf start more h le. rw (slice-At buf s more start (start + length s) h refl le) refl;
  }

  -- The seven fixed fields before the signer's name.
  rrsig_head : Rrsig → Bytes
  rrsig_head s =
      be16_bytes s.type_covered
      ++ (s.algorithm
          ∷ s.labels
          ∷ (be32_bytes s.original_ttl
              ++ (be32_bytes s.expiration ++ (be32_bytes s.inception ++ be16_bytes s.key_tag))))

  back_rrsig :
      (s : Rrsig)
      → IsU16 s.type_covered
      → IsU32 s.original_ttl
      → IsU32 s.expiration
      → IsU32 s.inception
      → IsU16 s.key_tag
      → IsName s.signer_name
      → IsReadBack l_rrsig (RData.rrsig s)
  unfolding encode_rdata parse_layout parse_rrsig rrsig_head
  back_rrsig s h0 h1 h2 h3 h4 w =
      let rest = full w ++ s.signature in
      let out = rrsig_head s ++ rest in
      record {
        written = out;
        encodes = rw (fresh_name-full s.signer_name w) refl;
        parses = λ buf start more h le.
            let at_name : At buf (start + 18) (full w ++ (s.signature ++ more)) =
              drop_past start buf (rrsig_head s) (rest ++ more) h
              ∙ append_assoc (full w) s.signature more in
            let at_signature : At buf (start + 18 + length (full w)) (s.signature ++ more) =
              drop_past (start + 18) buf (full w) (s.signature ++ more) at_name in
            let fits : start + 18 + length (full w) ≤ length buf =
              At-fits buf (full w) (s.signature ++ more) (start + 18) at_name
                (omega (arith, length-append (wire w.labels) (0 ∷ []))) in
            rw
              (
                u16-At out 0 s.type_covered _ h0 refl,
                u8-At out 2 s.algorithm _ refl,
                u8-At out 3 s.labels _ refl,
                u32-At out 4 s.original_ttl _ h1 refl,
                u32-At out 8 s.expiration _ h2 refl,
                u32-At out 12 s.inception _ h3 refl,
                u16-At out 16 s.key_tag rest h4 refl,
                read_name-At s.signer_name w buf (start + 18) (s.signature ++ more) at_name,
                slice-At buf s.signature more (start + 18 + length (full w)) (start + length out)
                    at_signature (omega (arith, length-append (full w) s.signature)) fits,
              )
              refl;
      }

  -- The data of every record but SOA and OPT survives encoding and parsing.
  pub IsWireData-IsReadBack : {lay : Layout} {d : RData} → IsWireData lay d → IsReadBack lay d
  IsWireData-IsReadBack (w_a ip) = back_a ip
  IsWireData-IsReadBack (w_aaaa s e) = back_aaaa s e
  IsWireData-IsReadBack (w_name {n} w) = back_name n w
  IsWireData-IsReadBack (w_mx {p} {n} h w) = back_mx p n h w
  IsWireData-IsReadBack (w_txt ss h) = back_txt ss h
  IsWireData-IsReadBack (w_srv {p} {w} {q} {n} hp hw hq k) = back_srv p w q n hp hw hq k
  IsWireData-IsReadBack (w_caa f t v h ascii) = back_caa f t v h ascii
  IsWireData-IsReadBack (w_rrsig {s} h0 h1 h2 h3 h4 w) = back_rrsig s h0 h1 h2 h3 h4 w
  IsWireData-IsReadBack (w_nsec {n} b w) = back_nsec n b w
  IsWireData-IsReadBack (w_raw s) = back_raw s
