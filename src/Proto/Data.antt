-- ===== src/Proto/Data.antt =====
-- Record data: what `encode_rdata` writes, `parse_rdata` reads back. An SOA is left out: its second
-- name may hold a pointer that counts from the data, see `Proto.Soa`.
pub mod RoundTrip
use dnsd_rs.Base.{
  All, Bytes, List, [], ap, append-nil, append_assoc, ap₂, arith, dot, length, length-append,
  length-drop, le→leb, lt→ltb, none, ok, refl, suc, sym, zero, ℕ, ◌%◌, ◌++◌, ◌+◌, ◌-◌, ◌<◌, ◌∙◌,
  ◌∷◌, ◌≡◌, ◌≤◌,
}
use dnsd_rs.Proto.Cursor.{be16_bytes}
use dnsd_rs.Proto.Encode.{encode_options, encode_txt, fresh_name}
use dnsd_rs.Proto.Name.{
  find_suffix, lookup_name, name_of, new_encoder, read_name, write_labels, write_name,
}
use dnsd_rs.Proto.Name.Labels.{canonical_name-root}
use dnsd_rs.Proto.Name.Read.{drop_past, read_name_loop-wire}
use dnsd_rs.Proto.Name.RoundTrip.{IsName, write_name-labels}
use dnsd_rs.Proto.Name.Wire.{IsLabel, wire}
use dnsd_rs.Proto.Name.Write.{push_full-wire, record_suffixes}
use dnsd_rs.Proto.Parse.{
  Layout, l_a, l_aaaa, l_caa, l_mx, l_name, l_nsec, l_raw, l_rrsig, l_srv, l_txt, parse_options,
  parse_txt,
}
use dnsd_rs.Proto.Reads.{At, At-step, bytes-At, cursor, u16-At, u8-At}
use dnsd_rs.Proto.Text.{IsAscii, Text}
use dnsd_rs.Proto.Types.{Ipv4Addr, OptOption, RData, Rrsig, v6_octets}

abbrev pub IsU16 : ℕ → Type 0
IsU16 v = v < 65536

abbrev pub IsU32 : ℕ → Type 0
IsU32 v = v < 4294967296

-- The data that can be written under a layout and read back: fields in range, names canonical. SOA is not
-- among them: see Soa.
pub data IsWireData : Layout → RData → Type 0 where
  w_a : (ip : Ipv4Addr) → IsWireData l_a (RData.a ip)
  w_aaaa : (s : Bytes) → length s ≡ 16 → IsWireData l_aaaa (RData.aaaa (v6_octets s))
  w_name : {n : Bytes} → IsName n → IsWireData l_name (RData.name n)
  w_mx : {p : ℕ} {n : Bytes} → IsU16 p → IsName n → IsWireData l_mx (RData.mx p n)
  w_txt : (ss : List Bytes) → All (λ s. length s < 256) ss → IsWireData l_txt (RData.txt ss)
  w_srv :
      {p w q : ℕ} {n : Bytes}
      → IsU16 p
      → IsU16 w
      → IsU16 q
      → IsName n
      → IsWireData l_srv (RData.srv p w q n)
  w_caa : (f : ℕ) (t v : Bytes) → length t < 256 → IsAscii t → IsWireData l_caa (RData.caa f t v)
  w_rrsig :
      {s : Rrsig}
      → IsU16 s.type_covered
      → IsU32 s.original_ttl
      → IsU32 s.expiration
      → IsU32 s.inception
      → IsU16 s.key_tag
      → IsName s.signer_name
      → IsWireData l_rrsig (RData.rrsig s)
  w_nsec : {n : Bytes} (b : Bytes) → IsName n → IsWireData l_nsec (RData.nsec n b)
  w_raw : (s : Bytes) → IsWireData l_raw (RData.raw s)

find_suffix-nil : (ls : List Bytes) → find_suffix [] ls ≡ none
unfolding find_suffix lookup_name
find_suffix-nil [] = refl
find_suffix-nil (l ∷ ls) = rw (find_suffix-nil ls) refl

-- A name in full on the wire.
abbrev pub full : {n : Bytes} → IsName n → Bytes
full h = wire h.labels ++ (0 ∷ [])

module _ ⦃text : Text⦄ where
  write_name-root-eq :
      write_name new_encoder (dot ∷ []) ≡ ok (record { out = 0 ∷ []; name_map = [] })
  unfolding write_name
  write_name-root-eq = rw canonical_name-root refl

  write_labels-new :
      (l : Bytes) (ls : List Bytes)
      → All IsLabel (l ∷ ls)
      → write_labels new_encoder (l ∷ ls)
        ≡ ok (record { out = wire (l ∷ ls) ++ (0 ∷ []); name_map = record_suffixes 0 (l ∷ ls) [] })
  unfolding write_labels
  write_labels-new l ls good =
      rw (find_suffix-nil (l ∷ ls), write_labels, push_full-wire new_encoder (l ∷ ls) good) refl

  -- The first name that an encoder writes is not compressed.
  pub write_name-new :
      (n : Bytes) (h : IsName n)
      → write_name new_encoder n
        ≡ ok (record { out = full h; name_map = record_suffixes 0 h.labels [] })
  write_name-new n h = go h.labels h.text_eq h.good
    where
      go :
          (ls : List Bytes)
          → n ≡ name_of ls
          → All IsLabel ls
          → write_name new_encoder n
            ≡ ok (record { out = wire ls ++ (0 ∷ []); name_map = record_suffixes 0 ls [] })
      go [] eq good = rw (eq, write_name-root-eq) refl
      go (l ∷ ls) eq good =
          rw (eq, write_name-labels new_encoder l ls good) (write_labels-new l ls good)

  pub fresh_name-full : (n : Bytes) (h : IsName n) → fresh_name n ≡ ok (full h)
  unfolding fresh_name
  fresh_name-full n h = rw (write_name-new n h) refl

  pub read_name-At :
      (n : Bytes) (h : IsName n) (buf : Bytes) (pos : ℕ) (more : Bytes)
      → At buf pos (full h ++ more)
      → read_name buf pos ≡ ok (n, pos + length (full h))
  unfolding read_name
  read_name-At n h buf pos more at =
      let end : pos + length (wire h.labels) + 1 ≡ pos + length (full h) =
        omega (arith, length-append (wire h.labels) (0 ∷ [])) in
      read_name_loop-wire h.labels 256 buf pos none [] more h.good (omega (arith, h.few))
        (at ∙ append_assoc (wire h.labels) (0 ∷ []) more)
      ∙ ap₂ (λ x p. ok (x, p)) (sym h.text_eq) end

-- How far `parse_txt` gets: each string behind its length.
pub parse_txt-At :
    (ss : List Bytes) (fuel : ℕ) (buf : Bytes) (pos : ℕ) (acc : List Bytes)
    → All (λ s. length s < 256) ss
    → At buf pos (encode_txt ss)
    → pos ≤ length buf
    → length buf - pos ≤ fuel
    → parse_txt fuel (cursor buf pos) acc ≡ ok (acc ++ ss)
unfolding parse_txt encode_txt
parse_txt-At [] zero buf pos acc h at le enough = rw append-nil
parse_txt-At [] (suc fuel) buf pos acc h at le enough =
    let empty : length buf - pos ≡ 0 = sym (length-drop pos buf) ∙ ap length at in
    rw (empty, append-nil) refl
parse_txt-At (s ∷ ss) zero buf pos acc h at le enough =
    absurd (omega (arith, length-drop pos buf, ap length at))
parse_txt-At (s ∷ ss) (suc fuel) buf pos acc h at le enough =
    let byte : length s % 256 ≡ length s = omega (arith, h.0) in
    let at0 : At buf pos (length s ∷ (s ++ encode_txt ss)) =
      at ∙ ap (λ x. x ∷ (s ++ encode_txt ss)) byte in
    let size : length buf - pos ≡ suc (length s + length (encode_txt ss)) =
      sym (length-drop pos buf) ∙ ap length at0 ∙ ap suc (length-append s (encode_txt ss)) in
    let at1 = At-step buf pos (pos + 1) (length s) (s ++ encode_txt ss) at0 refl in
    let at2 : At buf (pos + 1 + length s) (encode_txt ss) =
      drop_past (pos + 1) buf s (encode_txt ss) at1 in
    rw
      (
        lt→ltb 0 (length buf - pos) (omega (arith, size)),
        u8-At buf pos (length s) (s ++ encode_txt ss) at0,
        bytes-At buf (pos + 1) s (encode_txt ss) at1 (omega (arith, size)),
      )
      (parse_txt-At ss fuel buf (pos + 1 + length s) (acc ++ (s ∷ [])) h.1 at2 (omega (arith, size))
          (omega (arith, size))
        ∙ rw (append_assoc acc (s ∷ []) ss) refl)

-- The options of an OPT record are read back, however the loop is fed.
pub parse_options-At :
    (os : List OptOption) (fuel : ℕ) (buf : Bytes) (pos : ℕ) (acc : List OptOption)
    → All (λ o. IsU16 o.code × IsU16 (length o.payload)) os
    → At buf pos (encode_options os)
    → pos ≤ length buf
    → length buf - pos ≤ fuel
    → parse_options fuel (cursor buf pos) acc ≡ ok (acc ++ os)
unfolding parse_options encode_options
parse_options-At [] zero buf pos acc h at le enough = rw append-nil
parse_options-At [] (suc fuel) buf pos acc h at le enough =
    let empty : length buf - pos ≡ 0 = sym (length-drop pos buf) ∙ ap length at in
    rw (empty, append-nil) refl
parse_options-At (o ∷ os) zero buf pos acc h at le enough =
    absurd (omega (arith, length-drop pos buf, ap length at))
parse_options-At (o ∷ os) (suc fuel) buf pos acc h at le enough =
    let rest = encode_options os in
    let len = length o.payload in
    let size : length buf - pos ≡ 4 + (len + length rest) =
      sym (length-drop pos buf) ∙ ap length at ∙ omega (arith, length-append o.payload rest) in
    let at1 : At buf (pos + 2) (be16_bytes len ++ (o.payload ++ rest)) =
      drop_past pos buf (be16_bytes o.code) (be16_bytes len ++ (o.payload ++ rest)) at in
    let at2 : At buf (pos + 2 + 2) (o.payload ++ rest) =
      drop_past (pos + 2) buf (be16_bytes len) (o.payload ++ rest) at1 in
    let at3 : At buf (pos + 2 + 2 + len) rest = drop_past (pos + 2 + 2) buf o.payload rest at2 in
    rw
      (
        le→leb 4 (length buf - pos) (omega (arith, size)),
        u16-At buf pos o.code _ h.0.0 at,
        u16-At buf (pos + 2) len _ h.0.1 at1,
        bytes-At buf (pos + 2 + 2) o.payload rest at2 (omega (arith, size)),
      )
      (parse_options-At os fuel buf (pos + 2 + 2 + len) (acc ++ (o ∷ [])) h.1 at3
          (omega (arith, size)) (omega (arith, size))
        ∙ rw (append_assoc acc (o ∷ []) os) refl)
