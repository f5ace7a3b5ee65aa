-- ===== src/Proto/Name/Read.antt =====
-- What `read_name` returns where the wire form of a name, or labels and a pointer, stand.
use dnsd_rs.Base.{
  All, Bytes, List, Option, [], ap, append-nil, append_assoc, arith, bit_or, drop, drop-drop,
  drop-length, get_elem?, get_elem?-drop, length, length-append, length-drop, none, ok, refl, some,
  suc, sym, take, take-length, zero, ℕ, ◌%◌, ◌*◌, ◌++◌, ◌+◌, ◌/◌, ◌<◌, ◌∙◌, ◌∷◌, ◌≡◌, ◌≤◌,
}
use dnsd_rs.Proto.Cursor.{be16_bytes}
use dnsd_rs.Proto.Name.{final_pos, first_jump, name_of, read_name_loop}
use dnsd_rs.Proto.Name.Labels.{label-eq}
use dnsd_rs.Proto.Name.Wire.{
  IsLabel, bit_or-pointer, low_bits-pointer, top_bits-length, top_bits-pointer, wire,
}
use dnsd_rs.Proto.Text.{Text}

abbrev pub get_first :
    (n : ℕ) (buf : Bytes) {x : ℕ} {s : Bytes} → drop n buf ≡ x ∷ s → get_elem? buf n ≡ some x
get_first n buf {x} {s} h =
    let e : n + 0 ≡ n = omega arith in
    ap (get_elem? buf) (sym e) ∙ sym (get_elem?-drop n 0 buf) ∙ ap (λ t. get_elem? t 0) h

pub drop_past : (n : ℕ) (buf p s : Bytes) → drop n buf ≡ p ++ s → drop (n + length p) buf ≡ s
drop_past n buf p s h = sym (drop-drop (length p) n buf) ∙ ap (drop (length p)) h ∙ drop-length p s

module _ ⦃text : Text⦄ where
  read_name_loop-label :
      (g : ℕ) (buf : Bytes) (next : ℕ) (j : Option ℕ) (acc : List Bytes) (l s : Bytes)
      → IsLabel l
      → drop next buf ≡ (length l ∷ l) ++ s
      → read_name_loop (suc g) buf next j acc
        ≡ read_name_loop g buf (next + 1 + length l) j (acc ++ (l ∷ []))
  unfolding read_name_loop
  read_name_loop-label g buf next j acc l s h d =
      let past : drop (next + 1) buf ≡ l ++ s = drop_past next buf (length l ∷ []) (l ++ s) d in
      let taken : take (length l) (drop (next + 1) buf) ≡ l =
        ap (take (length l)) past ∙ take-length l s in
      let fits : next + 1 + length l ≤ length buf =
        omega (arith, length-drop (next + 1) buf, ap length past, length-append l s, h.positive) in
      rw (get_first next buf d, read_name_loop, taken, label-eq l h)
        (ground (arith, top_bits-length (length l), h.positive, h.short, fits))

  read_name_loop-zero :
      (g : ℕ) (buf : Bytes) (next : ℕ) (j : Option ℕ) (acc : List Bytes) (s : Bytes)
      → drop next buf ≡ 0 ∷ s
      → read_name_loop (suc g) buf next j acc ≡ ok (name_of acc, final_pos j (next + 1))
  unfolding read_name_loop
  read_name_loop-zero g buf next j acc s d = rw (get_first next buf d, read_name_loop) refl

  read_name_loop-pointer :
      (g : ℕ) (buf : Bytes) (next off : ℕ) (j : Option ℕ) (acc : List Bytes) (s : Bytes)
      → off < 16384
      → drop next buf ≡ be16_bytes (bit_or 0xC000 off) ++ s
      → read_name_loop (suc g) buf next j acc
        ≡ read_name_loop g buf off (first_jump j (next + 2)) acc
  unfolding read_name_loop
  read_name_loop-pointer g buf next off j acc s h d =
      let hi : bit_or 0xC000 off / 256 % 256 ≡ 192 + off / 256 =
        omega (arith, bit_or-pointer off h) in
      let lo : bit_or 0xC000 off % 256 ≡ off % 256 = omega (arith, bit_or-pointer off h) in
      let d' : drop next buf ≡ (192 + off / 256) ∷ (off % 256) ∷ s =
        d
        ∙ ap (λ x. x ∷ (bit_or 0xC000 off % 256) ∷ s) hi
        ∙ ap (λ x. (192 + off / 256) ∷ x ∷ s) lo in
      let small : off / 256 < 64 = omega arith in
      let low : get_elem? buf (next + 1) ≡ some (off % 256) =
        get_first (next + 1) buf
          (drop_past next buf ((192 + off / 256) ∷ []) ((off % 256) ∷ s) d') in
      let target : off / 256 * 256 + off % 256 ≡ off = omega arith in
      rw
        (
          get_first next buf d',
          read_name_loop,
          top_bits-pointer (off / 256) small,
          low,
          low_bits-pointer (off / 256) small,
          target,
        )
        refl

  -- A name in full, with enough rounds left.
  pub read_name_loop-wire :
      (ls : List Bytes) (g : ℕ) (buf : Bytes) (next : ℕ) (j : Option ℕ) (acc : List Bytes)
      (s : Bytes)
      → All IsLabel ls
      → length ls < g
      → drop next buf ≡ wire ls ++ (0 ∷ s)
      → read_name_loop g buf next j acc
        ≡ ok (name_of (acc ++ ls), final_pos j (next + length (wire ls) + 1))
  read_name_loop-wire ls zero buf next j acc s h lt d = absurd (omega arith)
  read_name_loop-wire [] (suc g) buf next j acc s h lt d =
      let e : next + 0 + 1 ≡ next + 1 = omega arith in
      rw (append-nil, e) (read_name_loop-zero g buf next j acc s d)
  read_name_loop-wire (l ∷ ls) (suc g) buf next j acc s h lt d =
      let d' : drop next buf ≡ (length l ∷ l) ++ (wire ls ++ (0 ∷ s)) =
        d ∙ append_assoc (length l ∷ l) (wire ls) (0 ∷ s) in
      let e : next + length (wire (l ∷ ls)) + 1 ≡ next + 1 + length l + length (wire ls) + 1 =
        omega (arith, length-append l (wire ls)) in
      let past : next + length (length l ∷ l) ≡ next + 1 + length l = omega arith in
      read_name_loop-label g buf next j acc l (wire ls ++ (0 ∷ s)) h.0 d'
      ∙ read_name_loop-wire ls g buf (next + 1 + length l) j (acc ++ (l ∷ [])) s h.1 (omega arith)
          (rw (← past) (drop_past next buf (length l ∷ l) (wire ls ++ (0 ∷ s)) d'))
      ∙ rw (append_assoc, e) refl

  -- Labels, and a pointer to the rest of the name.
  pub read_name_loop-compressed :
      (front : List Bytes) (ls : List Bytes) (g : ℕ) (buf : Bytes) (next off : ℕ) (acc : List Bytes)
      (s t : Bytes)
      → All IsLabel front
      → All IsLabel ls
      → length front + length ls + 1 < g
      → off < 16384
      → drop next buf ≡ wire front ++ (be16_bytes (bit_or 0xC000 off) ++ s)
      → drop off buf ≡ wire ls ++ (0 ∷ t)
      → read_name_loop g buf next none acc
        ≡ ok (name_of (acc ++ (front ++ ls)), next + length (wire front) + 2)
  read_name_loop-compressed front ls zero buf next off acc s t hf hl lt small d d2 =
      absurd (omega arith)
  read_name_loop-compressed [] ls (suc g) buf next off acc s t hf hl lt small d d2 =
      let e : next + 0 + 2 ≡ next + 2 = omega arith in
      read_name_loop-pointer g buf next off none acc s small d
      ∙ read_name_loop-wire ls g buf off (some (next + 2)) acc t hl (omega arith) d2
      ∙ rw e refl
  read_name_loop-compressed (l ∷ front) ls (suc g) buf next off acc s t hf hl lt small d d2 =
      let rest = be16_bytes (bit_or 0xC000 off) ++ s in
      let d' : drop next buf ≡ (length l ∷ l) ++ (wire front ++ rest) =
        d ∙ append_assoc (length l ∷ l) (wire front) rest in
      let e : next + length (wire (l ∷ front)) + 2 ≡ next + 1 + length l + length (wire front) + 2 =
        omega (arith, length-append l (wire front)) in
      let past : next + length (length l ∷ l) ≡ next + 1 + length l = omega arith in
      read_name_loop-label g buf next none acc l (wire front ++ rest) hf.0 d'
      ∙ read_name_loop-compressed front ls g buf (next + 1 + length l) off (acc ++ (l ∷ [])) s t
          hf.1 hl (omega arith) small
          (rw (← past) (drop_past next buf (length l ∷ l) (wire front ++ rest) d')) d2
      ∙ rw (append_assoc acc (l ∷ []) (front ++ ls), e) refl
