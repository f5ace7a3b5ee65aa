-- ===== src/Proto/Reads.antt =====
-- Reading the fixed-width fields back: the bounds-checked reads at bytes that are known.
use dnsd_rs.Base.{
  Bytes, [], ap, arith, drop, length, length-append, length-drop, ltb-eq-false, ok, refl, subst,
  sym, take-length, ℕ, ◌%◌, ◌++◌, ◌+◌, ◌-◌, ◌/◌, ◌<◌, ◌∙◌, ◌∷◌, ◌≡◌, ◌≤◌,
}
use dnsd_rs.Proto.Cursor.{
  Cursor, be16, be16_bytes, be32, be32_bytes, bytes, index, read_u16_at, read_u32_at, slice, u16,
  u32, u8,
}
use dnsd_rs.Proto.Name.Read.{drop_past, get_first}

-- `s` stands at `pos`.
abbrev pub At : Bytes → ℕ → Bytes → Type 0
At buf pos s = drop pos buf ≡ s

pub At-step :
    (buf : Bytes) (pos n : ℕ) (x : ℕ) (s : Bytes) → At buf pos (x ∷ s) → pos + 1 ≡ n → At buf n s
At-step buf pos n x s h e = subst (λ k. At buf k s) e (drop_past pos buf (x ∷ []) s h)

pub At-fits :
    (buf p s : Bytes) (pos : ℕ) → At buf pos (p ++ s) → 0 < length p → pos + length p ≤ length buf
At-fits buf p s pos h pos_lt = omega (arith, ap length h, length-drop pos buf, length-append p s)

index-At : (buf : Bytes) (pos x : ℕ) (s : Bytes) → At buf pos (x ∷ s) → index buf pos ≡ ok x
unfolding index
index-At buf pos x s h = rw (get_first pos buf h, index) refl

pub slice-At :
    (buf p s : Bytes) (pos n : ℕ)
    → At buf pos (p ++ s)
    → pos + length p ≡ n
    → pos ≤ length buf
    → slice buf pos n ≡ ok p
unfolding slice
slice-At buf p s pos n h e le =
    let total : length buf - pos ≡ length p + length s =
      sym (length-drop pos buf) ∙ ap length h ∙ length-append p s in
    let size : n - pos ≡ length p = omega (arith, e) in
    rw
      (
        ltb-eq-false n pos (omega (arith, e)),
        ltb-eq-false (length buf) n (omega (arith, e, total)),
        size,
        h,
        take-length p s,
      )
      refl

pub be16-bytes : (v : ℕ) → v < 65536 → be16 (v / 256 % 256) (v % 256) ≡ v
be16-bytes v h = omega arith

be32-bytes :
    (v : ℕ)
    → v < 4294967296
    → be32 (v / 16777216 % 256) (v / 65536 % 256) (v / 256 % 256) (v % 256) ≡ v
be32-bytes v h = omega arith

pub read_u16_at-At :
    (buf : Bytes) (pos v : ℕ) (s : Bytes)
    → v < 65536
    → At buf pos (be16_bytes v ++ s)
    → read_u16_at buf pos ≡ ok (v, pos + 2)
unfolding read_u16_at
read_u16_at-At buf pos v s small h =
    let h1 = At-step buf pos (pos + 1) (v / 256 % 256) ((v % 256) ∷ s) h refl in
    rw
      (
        ltb-eq-false (length buf) (pos + 2) (At-fits buf (be16_bytes v) s pos h (omega arith)),
        index-At buf pos _ _ h,
        index-At buf (pos + 1) _ _ h1,
        be16-bytes v small,
      )
      refl

index_u32-At :
    (buf : Bytes) (pos v : ℕ) (s : Bytes)
    → v < 4294967296
    → At buf pos (be32_bytes v ++ s)
    → (index buf pos ≡ ok (v / 16777216 % 256))
      × (index buf (pos + 1) ≡ ok (v / 65536 % 256))
      × (index buf (pos + 2) ≡ ok (v / 256 % 256))
      × (index buf (pos + 3) ≡ ok (v % 256))
index_u32-At buf pos v s small h =
    let h1 = At-step buf pos (pos + 1) _ _ h refl in
    let h2 = At-step buf (pos + 1) (pos + 2) _ _ h1 (omega arith) in
    let h3 = At-step buf (pos + 2) (pos + 3) _ _ h2 (omega arith) in
    (
      index-At buf pos _ _ h,
      index-At buf (pos + 1) _ _ h1,
      index-At buf (pos + 2) _ _ h2,
      index-At buf (pos + 3) _ _ h3,
    )

pub read_u32_at-At :
    (buf : Bytes) (pos v : ℕ) (s : Bytes)
    → v < 4294967296
    → At buf pos (be32_bytes v ++ s)
    → read_u32_at buf pos ≡ ok (v, pos + 4)
unfolding read_u32_at
read_u32_at-At buf pos v s small h =
    let (i0, i1, i2, i3) = index_u32-At buf pos v s small h in
    rw
      (
        ltb-eq-false (length buf) (pos + 4) (At-fits buf (be32_bytes v) s pos h (omega arith)),
        i0,
        i1,
        i2,
        i3,
        be32-bytes v small,
      )
      refl

abbrev pub cursor : Bytes → ℕ → Cursor
cursor buf p = record { buf = buf; pos = p }

-- The cursor's reads.
module _ (buf : Bytes) (pos : ℕ) where
  pub u8-At :
      (v : ℕ) (s : Bytes) → At buf pos (v ∷ s) → u8 (cursor buf pos) ≡ ok (v, cursor buf (pos + 1))
  unfolding u8
  u8-At v s h =
      let fits = At-fits buf (v ∷ []) s pos h (omega arith) in
      rw (ltb-eq-false (length buf - pos) 1 (omega (arith, fits)), index-At buf pos v s h) refl

  pub u16-At :
      (v : ℕ) (s : Bytes)
      → v < 65536
      → At buf pos (be16_bytes v ++ s)
      → u16 (cursor buf pos) ≡ ok (v, cursor buf (pos + 2))
  unfolding u16
  u16-At v s small h =
      let fits = At-fits buf (be16_bytes v) s pos h (omega arith) in
      let h1 = At-step buf pos (pos + 1) (v / 256 % 256) ((v % 256) ∷ s) h refl in
      rw
        (
          ltb-eq-false (length buf - pos) 2 (omega (arith, fits)),
          index-At buf pos _ _ h,
          index-At buf (pos + 1) _ _ h1,
          be16-bytes v small,
        )
        refl

  pub u32-At :
      (v : ℕ) (s : Bytes)
      → v < 4294967296
      → At buf pos (be32_bytes v ++ s)
      → u32 (cursor buf pos) ≡ ok (v, cursor buf (pos + 4))
  unfolding u32
  u32-At v s small h =
      let fits = At-fits buf (be32_bytes v) s pos h (omega arith) in
      let (i0, i1, i2, i3) = index_u32-At buf pos v s small h in
      rw
        (
          ltb-eq-false (length buf - pos) 4 (omega (arith, fits)),
          i0,
          i1,
          i2,
          i3,
          be32-bytes v small,
        )
        refl

  pub bytes-At :
      (p s : Bytes)
      → At buf pos (p ++ s)
      → pos ≤ length buf
      → bytes (cursor buf pos) (length p) ≡ ok (p, cursor buf (pos + length p))
  unfolding bytes
  bytes-At p s h le =
      let total : length buf - pos ≡ length p + length s =
        sym (length-drop pos buf) ∙ ap length h ∙ length-append p s in
      rw
        (
          ltb-eq-false (length buf - pos) (length p) (omega (arith, total)),
          slice-At buf p s pos (pos + length p) h refl le,
        )
        refl
