-- ===== src/Proto/Name/Wire.antt =====
-- The uncompressed form of a name on the wire, and masks on its length bytes.
use dnsd_rs.Base.{
  All, Bool, Bytes, List, [], ap, append_assoc, arith, bit_and, bit_or, dot, false, join_dots,
  length, refl, suc, true, zero, ℕ, ◌&&◌, ◌++◌, ◌+◌, ◌<◌, ◌==◌, ◌∙◌, ◌∷◌, ◌≡◌, ◌≢◌, ◌≤◌,
}
use dnsd_rs.Proto.Name.{suffix_key}
use dnsd_rs.Proto.Text.{ascii_lower, is_space}

-- A byte of a label in canonical form: ASCII, no dot, no white space, no upper case letter.
pub record IsLabelByte (c : ℕ) : Type 0 where
  pub ascii : c < 128
  pub not_dot : c ≢ dot
  pub not_space : is_space c ≡ false
  pub lower : ascii_lower c ≡ c

pub record IsLabel (l : Bytes) : Type 0 where
  pub positive : 0 < length l
  pub short : length l ≤ 63
  pub canonical : All IsLabelByte l

-- The labels, each behind its length; a zero byte ends a name.
abbrev pub wire : List Bytes → Bytes
wire [] = []
wire (l ∷ ls) = (length l ∷ l) ++ wire ls

-- Each label before a dot.
abbrev pub dotted : List Bytes → Bytes
dotted [] = []
dotted (l ∷ ls) = l ++ (dot ∷ dotted ls)

pub suffix_key-dotted : (l : Bytes) (ls : List Bytes) → suffix_key (l ∷ ls) ≡ dotted (l ∷ ls)
suffix_key-dotted l [] = refl
suffix_key-dotted l (m ∷ ms) =
    append_assoc l (dot ∷ join_dots (m ∷ ms)) (dot ∷ [])
    ∙ ap (λ t. l ++ (dot ∷ t)) (suffix_key-dotted m ms)

pub dotted-append : (ls ms : List Bytes) → dotted (ls ++ ms) ≡ dotted ls ++ dotted ms
dotted-append [] ms = refl
dotted-append (l ∷ ls) ms = rw (dotted-append ls ms, append_assoc)

-- A table of `n` values, checked by evaluation.
module _ (f g : ℕ → ℕ) where
  unfoldable pub agree_below : ℕ → Bool
  agree_below zero = true
  agree_below (suc n) = f n == g n && agree_below n

  pub agree_below→eq : (n : ℕ) → agree_below n ≡ true → (i : ℕ) → i < n → f i ≡ g i
  unfolding agree_below
  agree_below→eq zero e i h = absurd (omega arith)
  agree_below→eq (suc n) e i h = ground (arith, agree_below→eq n (ground arith) i)

-- A label's length has neither of the two top bits.
pub top_bits-length : (n : ℕ) → n < 64 → bit_and n 0xC0 ≡ 0
unfolding agree_below
top_bits-length = agree_below→eq _ (λ _. 0) 64 refl

-- The first byte of a pointer, with `n` the top six bits of the offset.
pub top_bits-pointer : (n : ℕ) → n < 64 → bit_and (192 + n) 0xC0 ≡ 192
unfolding agree_below
top_bits-pointer = agree_below→eq (λ n. bit_and (192 + n) 0xC0) (λ _. 192) 64 refl

pub low_bits-pointer : (n : ℕ) → n < 64 → bit_and (192 + n) 0x3F ≡ n
unfolding agree_below
low_bits-pointer = agree_below→eq (λ n. bit_and (192 + n) 0x3F) (λ n. n) 64 refl

pub bit_or-pointer : (off : ℕ) → off < 16384 → bit_or 0xC000 off ≡ 0xC000 + off
unfolding agree_below
bit_or-pointer = agree_below→eq (bit_or 0xC000) (λ off. 0xC000 + off) 16384 refl
