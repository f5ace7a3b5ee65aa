-- ===== src/Proto/Cursor.antt =====
-- `Cursor`, `read_u16_at` and `read_u32_at` of src/proto.rs, and indexing that panics.
use dnsd_rs.Base.{
  Bytes, Error, Result, [], drop, err, get_elem?, if◌then◌else◌, length, ltb, none, ok, panic, some,
  take, ℕ, ◌%◌, ◌*◌, ◌+◌, ◌-◌, ◌/◌, ◌>>=◌, ◌∷◌,
}

-- `buf[i]`
unfoldable pub index : Bytes → ℕ → Result ℕ
index buf i = elim (get_elem? buf i) [ none ↦ panic | some v ↦ ok v ]

-- `&buf[a..b]`
unfoldable pub slice : Bytes → ℕ → ℕ → Result Bytes
slice buf a b =
    if ltb b a then panic else if ltb (length buf) b then panic else ok (take (b - a) (drop a buf))

-- `u16::from_be_bytes`, `u32::from_be_bytes`
abbrev pub be16 : ℕ → ℕ → ℕ
be16 a b = a * 256 + b

abbrev pub be32 : ℕ → ℕ → ℕ → ℕ → ℕ
be32 a b c d = a * 16777216 + b * 65536 + c * 256 + d

-- `u32::from_le_bytes`
abbrev pub le32 : ℕ → ℕ → ℕ → ℕ → ℕ
le32 a b c d = a + b * 256 + c * 65536 + d * 16777216

-- `v.to_be_bytes()` of a u16 and a u32
abbrev pub be16_bytes : ℕ → Bytes
be16_bytes v = (v / 256 % 256) ∷ (v % 256) ∷ []

abbrev pub be32_bytes : ℕ → Bytes
be32_bytes v = (v / 16777216 % 256) ∷ (v / 65536 % 256) ∷ (v / 256 % 256) ∷ (v % 256) ∷ []

pub record Cursor : Type 0 where
  pub buf : Bytes
  pub pos : ℕ

abbrev pub new_cursor : Bytes → Cursor
new_cursor buf = record { buf = buf; pos = 0 }

abbrev pub remaining : Cursor → ℕ
remaining c = length c.buf - c.pos

abbrev pub forward : Cursor → ℕ → Cursor
forward c n = record c { pos = c.pos + n }

unfoldable pub u8 : Cursor → Result (ℕ × Cursor)
unfolding index
u8 c =
    if ltb (remaining c) 1
    then err (Error.parse "truncated: u8")
    else (do v ← index c.buf c.pos; ok (v, forward c 1))

unfoldable pub u16 : Cursor → Result (ℕ × Cursor)
unfolding index
u16 c =
    if ltb (remaining c) 2
    then err (Error.parse "truncated: u16")
    else (do b0 ← index c.buf c.pos; b1 ← index c.buf (c.pos + 1); ok (be16 b0 b1, forward c 2))

unfoldable pub u32 : Cursor → Result (ℕ × Cursor)
unfolding index
u32 c = if ltb (remaining c) 4 then err (Error.parse "truncated: u32") else (do
  b0 ← index c.buf c.pos
  b1 ← index c.buf (c.pos + 1)
  b2 ← index c.buf (c.pos + 2)
  b3 ← index c.buf (c.pos + 3)
  ok (be32 b0 b1 b2 b3, forward c 4))

unfoldable pub bytes : Cursor → ℕ → Result (Bytes × Cursor)
unfolding slice
bytes c n =
    if ltb (remaining c) n
    then err (Error.parse "truncated: bytes")
    else (do s ← slice c.buf c.pos (c.pos + n); ok (s, forward c n))

-- The new position stands for the write to `*pos`.
unfoldable pub read_u16_at : Bytes → ℕ → Result (ℕ × ℕ)
unfolding index
read_u16_at buf pos =
    if ltb (length buf) (pos + 2)
    then err (Error.parse "truncated u16")
    else (do b0 ← index buf pos; b1 ← index buf (pos + 1); ok (be16 b0 b1, pos + 2))

unfoldable pub read_u32_at : Bytes → ℕ → Result (ℕ × ℕ)
unfolding index
read_u32_at buf pos = if ltb (length buf) (pos + 4) then err (Error.parse "truncated u32") else (do
  b0 ← index buf pos
  b1 ← index buf (pos + 1)
  b2 ← index buf (pos + 2)
  b3 ← index buf (pos + 3)
  ok (be32 b0 b1 b2 b3, pos + 4))
